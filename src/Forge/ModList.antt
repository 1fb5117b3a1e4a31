-- ===== src/Forge/ModList.antt =====
-- forge.go: the vectors of `packetDecoder`, and the reply to a mod list. The methods `str` and `varInt` of
-- `packetDecoder` are those of `packetReader` (proto/packets.go) again.
pub mod RoundTrip
use lazygate.Prelude.{
  ℕ, zero, suc, ◌+◌, ◌%◌, ◌^◌, ◌≤◌, ◌<◌, Bool, false, List, [], ◌∷◌, ◌++◌, Bytes, Option, none,
  some, ◌>>=◌, if◌then◌else◌, length, All, ◌≡◌, refl, arith, append_assoc, append-nil, map,
}
use lazygate.Proto.VarInt.{var_int, is_negative, encode_var_int}
use lazygate.Proto.VarInt.RoundTrip.{var_int-encode_var_int}
use lazygate.Proto.Reader.{read_str}
use lazygate.Proto.Reader.RoundTrip.{read_str-string_bytes}
use lazygate.Proto.Writer.{write_string, write_var_int, string_bytes}

-- `for i := int32(0); i < n; i++` of `strVec`
unfoldable pub str_vec_loop : ℕ → Bytes → Option (List Bytes × Bytes)
str_vec_loop zero r = some ([], r)
str_vec_loop (suc n) r = do
  (s, r₂) ← read_str 32767 r
  (rest, r₃) ← str_vec_loop n r₂
  some (s ∷ rest, r₃)

unfoldable pub str_vec : Bytes → Option (List Bytes × Bytes)
unfolding str_vec_loop
str_vec r = do (n, r₂) ← var_int r; if is_negative n then none else str_vec_loop n r₂

unfoldable pub str_pair_vec_loop : ℕ → Bytes → Option (List (Bytes × Bytes) × Bytes)
str_pair_vec_loop zero r = some ([], r)
str_pair_vec_loop (suc n) r = do
  (a, r₂) ← read_str 32767 r
  (b, r₃) ← read_str 32767 r₂
  (rest, r₄) ← str_pair_vec_loop n r₃
  some ((a, b) ∷ rest, r₄)

unfoldable pub str_pair_vec : Bytes → Option (List (Bytes × Bytes) × Bytes)
unfolding str_pair_vec_loop
str_pair_vec r = do (n, r₂) ← var_int r; if is_negative n then none else str_pair_vec_loop n r₂

-- The loops of `forgeModListReply` over the writer
unfoldable pub write_strings : List Bytes → Bytes → Bytes
write_strings [] w = w
write_strings (s ∷ ss) w = write_strings ss (write_string w s)

unfoldable pub write_pairs : List (Bytes × Bytes) → Bytes → Bytes
write_pairs [] w = w
write_pairs ((a, b) ∷ ps) w = write_pairs ps (write_string (write_string w a) b)

unfoldable pub write_registries : List Bytes → Bytes → Bytes
write_registries [] w = w
write_registries (s ∷ ss) w = write_registries ss (write_string (write_string w s) [])

-- `int32(len(xs))`
abbrev pub count32 {ℓ} : {A : Type ℓ} → List A → ℕ
count32 xs = length xs % 2 ^ 32

unfoldable pub forge_mod_list_reply : Bytes → Option Bytes
unfolding str_vec str_pair_vec write_strings write_pairs write_registries
forge_mod_list_reply body = do
  (mod_names, r) ← str_vec body
  (channels, r₂) ← str_pair_vec r
  (registries, r₃) ← str_vec r₂
  some (
      write_registries registries (
        write_var_int
          (write_pairs channels (
            write_var_int (write_strings mod_names (write_var_int [] (count32 mod_names)))
              (count32 channels)))
          (count32 registries)))
