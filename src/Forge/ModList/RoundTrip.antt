-- ===== src/Forge/ModList/RoundTrip.antt =====
-- forge.go: `forgeModListReply` on a mod list as Forge writes it.
use lazygate.Prelude.{
  ℕ, ◌%◌, ◌^◌, ◌≤◌, ◌<◌, false, List, [], ◌∷◌, ◌++◌, Bytes, some, length, All, ◌≡◌, refl, sym, ◌∙◌,
  ap, arith, append_assoc, append-nil,
}
use lazygate.Proto.VarInt.{is_negative, encode_var_int}
use lazygate.Proto.VarInt.RoundTrip.{var_int-encode_var_int}
use lazygate.Proto.Reader.{read_str}
use lazygate.Proto.Reader.RoundTrip.{read_str-string_bytes}
use lazygate.Proto.Writer.{write_string, write_var_int, string_bytes}
use lazygate.Forge.ModList.{
  str_vec_loop, str_vec, str_pair_vec_loop, str_pair_vec, write_strings, write_pairs,
  write_registries, count32, forge_mod_list_reply,
}

-- A vector as it is on the wire: the count and the strings, one after the other.
pub strings_bytes : List Bytes → Bytes
strings_bytes [] = []
strings_bytes (s ∷ ss) = string_bytes s ++ strings_bytes ss

pub pairs_bytes : List (Bytes × Bytes) → Bytes
pairs_bytes [] = []
pairs_bytes ((a, b) ∷ ps) = string_bytes a ++ (string_bytes b ++ pairs_bytes ps)

unfoldable pub vec_bytes : List Bytes → Bytes
unfolding strings_bytes
vec_bytes ss = encode_var_int (count32 ss) ++ strings_bytes ss

unfoldable pub pair_vec_bytes : List (Bytes × Bytes) → Bytes
unfolding pairs_bytes
pair_vec_bytes ps = encode_var_int (count32 ps) ++ pairs_bytes ps

-- A string that `str(32767)` takes.
abbrev pub IsShort : Bytes → Type 0
IsShort s = length s ≤ 32767

string_first :
    (s tail : Bytes) → IsShort s → read_str 32767 (string_bytes s ++ tail) ≡ some (s, tail)
string_first s tail short = read_str-string_bytes 32767 s tail short (omega arith)

small : (n : ℕ) → n < 2 ^ 31 → is_negative n ≡ false
small n h = ground arith

str_vec_loop-strings_bytes :
    (ss : List Bytes) (rest : Bytes)
    → All IsShort ss
    → str_vec_loop (length ss) (strings_bytes ss ++ rest) ≡ some (ss, rest)
unfolding str_vec_loop strings_bytes
str_vec_loop-strings_bytes [] rest all = refl
str_vec_loop-strings_bytes (s ∷ ss) rest all =
    rw
      (
        append_assoc (string_bytes s) (strings_bytes ss) rest,
        string_first s (strings_bytes ss ++ rest) all.0,
        str_vec_loop-strings_bytes ss rest all.1,
      )
      refl

pub str_vec-vec_bytes :
    (ss : List Bytes) (rest : Bytes)
    → All IsShort ss
    → length ss < 2 ^ 31
    → str_vec (vec_bytes ss ++ rest) ≡ some (ss, rest)
unfolding str_vec vec_bytes
str_vec-vec_bytes ss rest all few =
    let n : count32 ss ≡ length ss = omega arith in
    rw
      (
        n,
        append_assoc (encode_var_int (length ss)) (strings_bytes ss) rest,
        var_int-encode_var_int (length ss) (strings_bytes ss ++ rest) (omega arith),
        small (length ss) few,
      )
      (str_vec_loop-strings_bytes ss rest all)

str_pair_vec_loop-pairs_bytes :
    (ps : List (Bytes × Bytes)) (rest : Bytes)
    → All (λ (p : Bytes × Bytes). IsShort p.0 × IsShort p.1) ps
    → str_pair_vec_loop (length ps) (pairs_bytes ps ++ rest) ≡ some (ps, rest)
unfolding str_pair_vec_loop pairs_bytes
str_pair_vec_loop-pairs_bytes [] rest all = refl
str_pair_vec_loop-pairs_bytes ((a, b) ∷ ps) rest ((short_a, short_b), all) =
    rw
      (
        append_assoc (string_bytes a) (string_bytes b ++ pairs_bytes ps) rest,
        append_assoc (string_bytes b) (pairs_bytes ps) rest,
        string_first a (string_bytes b ++ (pairs_bytes ps ++ rest)) short_a,
        string_first b (pairs_bytes ps ++ rest) short_b,
        str_pair_vec_loop-pairs_bytes ps rest all,
      )
      refl

pub str_pair_vec-pair_vec_bytes :
    (ps : List (Bytes × Bytes)) (rest : Bytes)
    → All (λ (p : Bytes × Bytes). IsShort p.0 × IsShort p.1) ps
    → length ps < 2 ^ 31
    → str_pair_vec (pair_vec_bytes ps ++ rest) ≡ some (ps, rest)
unfolding str_pair_vec pair_vec_bytes
str_pair_vec-pair_vec_bytes ps rest all few =
    let n : count32 ps ≡ length ps = omega arith in
    rw
      (
        n,
        append_assoc (encode_var_int (length ps)) (pairs_bytes ps) rest,
        var_int-encode_var_int (length ps) (pairs_bytes ps ++ rest) (omega arith),
        small (length ps) few,
      )
      (str_pair_vec_loop-pairs_bytes ps rest all)

-- Go's `WriteString` appends the string with its length in front.
write_string-string_bytes : (w s : Bytes) → write_string w s ≡ w ++ string_bytes s
write_string-string_bytes w s = append_assoc w (encode_var_int (length s % 2 ^ 32)) s

write_strings-strings_bytes :
    (ss : List Bytes) (w : Bytes) → write_strings ss w ≡ w ++ strings_bytes ss
unfolding write_strings strings_bytes
write_strings-strings_bytes [] w = sym (append-nil w)
write_strings-strings_bytes (s ∷ ss) w =
    write_strings-strings_bytes ss (write_string w s)
    ∙ (ap (λ x. x ++ strings_bytes ss) (write_string-string_bytes w s)
        ∙ append_assoc w (string_bytes s) (strings_bytes ss))

two_strings :
    (w a b tail : Bytes)
    → write_string (write_string w a) b ++ tail ≡ w ++ (string_bytes a ++ (string_bytes b ++ tail))
two_strings w a b tail =
    ap (λ x. x ++ tail) (write_string-string_bytes (write_string w a) b)
    ∙ (append_assoc (write_string w a) (string_bytes b) tail
        ∙ (ap (λ x. x ++ (string_bytes b ++ tail)) (write_string-string_bytes w a)
            ∙ append_assoc w (string_bytes a) (string_bytes b ++ tail)))

write_pairs-pairs_bytes :
    (ps : List (Bytes × Bytes)) (w : Bytes) → write_pairs ps w ≡ w ++ pairs_bytes ps
unfolding write_pairs pairs_bytes
write_pairs-pairs_bytes [] w = sym (append-nil w)
write_pairs-pairs_bytes ((a, b) ∷ ps) w =
    write_pairs-pairs_bytes ps (write_string (write_string w a) b)
    ∙ two_strings w a b (pairs_bytes ps)

-- Each registry with an empty string beside it.
pub unmarked : List Bytes → List (Bytes × Bytes)
unmarked [] = []
unmarked (s ∷ ss) = (s, []) ∷ unmarked ss

length-unmarked : (ss : List Bytes) → length (unmarked ss) ≡ length ss
unfolding unmarked
length-unmarked [] = refl
length-unmarked (s ∷ ss) = omega (arith, length-unmarked ss)

write_registries-pairs_bytes :
    (ss : List Bytes) (w : Bytes) → write_registries ss w ≡ w ++ pairs_bytes (unmarked ss)
unfolding write_registries pairs_bytes unmarked
write_registries-pairs_bytes [] w = sym (append-nil w)
write_registries-pairs_bytes (s ∷ ss) w =
    write_registries-pairs_bytes ss (write_string (write_string w s) [])
    ∙ two_strings w s [] (pairs_bytes (unmarked ss))

written :
    (ns : List Bytes) (cs : List (Bytes × Bytes)) (rs : List Bytes)
    → write_registries rs (
        write_var_int
          (write_pairs cs
            (write_var_int (write_strings ns (write_var_int [] (count32 ns))) (count32 cs)))
          (count32 rs))
      ≡ vec_bytes ns ++ (pair_vec_bytes cs ++ pair_vec_bytes (unmarked rs))
unfolding vec_bytes pair_vec_bytes
written ns cs rs = simp (
  write_strings-strings_bytes, write_pairs-pairs_bytes, write_registries-pairs_bytes,
  length-unmarked, append_assoc,
)

-- A mod list of fewer than 2^31 names, channels and registries, each of at most 32767 bytes, is
-- answered by the same names and channels, and by the registries with an empty string beside each.
pub forge_mod_list_reply_lem :
    (names : List Bytes) (channels : List (Bytes × Bytes)) (registries : List Bytes)
    → All IsShort names
    → All (λ (p : Bytes × Bytes). IsShort p.0 × IsShort p.1) channels
    → All IsShort registries
    → length names < 2 ^ 31
    → length channels < 2 ^ 31
    → length registries < 2 ^ 31
    → forge_mod_list_reply (vec_bytes names ++ (pair_vec_bytes channels ++ vec_bytes registries))
      ≡ some (vec_bytes names ++ (pair_vec_bytes channels ++ pair_vec_bytes (unmarked registries)))
unfolding forge_mod_list_reply
forge_mod_list_reply_lem names channels registries short_n short_c short_r few_n few_c few_r =
    rw
      (
        str_vec-vec_bytes names (pair_vec_bytes channels ++ vec_bytes registries) short_n few_n,
        str_pair_vec-pair_vec_bytes channels (vec_bytes registries) short_c few_c,
        last,
      )
      (ap some (written names channels registries))
  where
    last : str_vec (vec_bytes registries) ≡ some (registries, [])
    last =
        ap str_vec (sym (append-nil (vec_bytes registries)))
        ∙ str_vec-vec_bytes registries [] short_r few_r
