-- ===== src/Play/JoinGame/Fields.antt =====
-- proto/packets/play/join_game.go: each method of `joinGameReader` on what the writer's wrote.
use lazygate.Prelude.{
  ℕ, ◌^◌, ◌%◌, ◌<◌, Bool, true, false, List, [], ◌∷◌, ◌++◌, Bytes, length, ◌≡◌, refl, arith, sym,
  ap, ◌∙◌, take-append, drop-append, length-append, append_assoc,
}
use lazygate.Proto.VarInt.{IsInt32, encode_var_int}
use lazygate.Proto.VarInt.RoundTrip.{var_int-encode_var_int}
use lazygate.Proto.Writer.{write_bool, write_string, string_bytes}
use lazygate.Nbt.Reader.{ok}
use lazygate.Play.JoinGame.{
  read_int, read_flag, read_text, read_chars, read_names, skip, read_modes,
}
use lazygate.Play.Lobby.{write_names}

pub read_int-encode_var_int :
    (v : ℕ) (r : Bytes) → IsInt32 v → read_int (encode_var_int v ++ r) ≡ ok v r
unfolding read_int
read_int-encode_var_int v r h = rw (var_int-encode_var_int v r h) refl

pub read_flag-write_bool : (b : Bool) (r : Bytes) → read_flag (write_bool [] b ++ r) ≡ ok b r
unfolding read_flag
read_flag-write_bool true r = ground arith
read_flag-write_bool false r = ground arith

pub read_text-append : (s r : Bytes) → length s < 2 ^ 31 → read_text (length s) (s ++ r) ≡ ok s r
unfolding read_text
read_text-append s r h =
    ground
      (arith, length-append s r, take-append s r (length s) refl, drop-append s r (length s) refl)

pub read_chars-string_bytes :
    (s r : Bytes) → length s < 2 ^ 31 → read_chars (string_bytes s ++ r) ≡ ok s r
unfolding read_chars
read_chars-string_bytes s r h =
    let n : length s % 2 ^ 32 ≡ length s = omega arith in
    rw (n, append_assoc, read_int-encode_var_int (length s) (s ++ r) (omega arith))
      (read_text-append s r h)

pub skip-four : (a b c d : ℕ) (r : Bytes) → skip 4 (a ∷ b ∷ c ∷ d ∷ r) ≡ ok tt r
unfolding skip
skip-four a b c d r = ground arith

pub read_modes-two : (a b : ℕ) (r : Bytes) → read_modes (a ∷ b ∷ r) ≡ ok (a, b) r
unfolding read_modes
read_modes-two a b r = ground arith

abbrev pub AreShort : List Bytes → Type 0
AreShort [] = Unit
AreShort (n ∷ ns) = (length n < 2 ^ 31) × AreShort ns

pub write_names-append :
    (w : Bytes) (ns : List Bytes) (r : Bytes)
    → write_names w ns ++ r ≡ w ++ (write_names [] ns ++ r)
write_names-append w [] r = refl
write_names-append w (n ∷ ns) r =
    write_names-append (write_string w n) ns r
    ∙ simp (append_assoc)
        (ap (λ t. w ++ t) (sym (write_names-append (string_bytes n) ns r ∙ simp append_assoc)))

pub read_names-write_names :
    (ns : List Bytes) (r : Bytes)
    → AreShort ns
    → read_names (length ns) (write_names [] ns ++ r) ≡ ok ns r
unfolding read_names
read_names-write_names [] r h = refl
read_names-write_names (n ∷ ns) r h =
    rw
      (
        write_names-append (string_bytes n) ns r,
        read_chars-string_bytes n (write_names [] ns ++ r) h.0,
        read_names-write_names ns r h.1,
      )
      refl

-- A flag goes behind what was written.
pub write_bool-append :
    (w : Bytes) (b : Bool) (r : Bytes) → write_bool w b ++ r ≡ w ++ (write_bool [] b ++ r)
write_bool-append w true r = append_assoc w (1 ∷ []) r
write_bool-append w false r = append_assoc w (0 ∷ []) r
