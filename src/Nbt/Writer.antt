-- ===== src/Nbt/Writer.antt =====
-- nbt/nbt.go: `WriteCompoundTag` and what it calls, as the bytes that they append.
use lazygate.Prelude.{
  ℕ, suc, ◌^◌, ◌%◌, ◌<◌, List, [], ◌∷◌, ◌++◌, Bytes, if◌then◌else◌, ltb, length, ◌≡◌, refl, arith,
  take-append, drop-append, length-append, ap, ◌∙◌,
}
use lazygate.Proto.Writer.{big_endian16, big_endian32, big_endian64}
use lazygate.Nbt.{
  Tag, tag_end, tag_byte, tag_short, tag_int, tag_long, tag_float, tag_double, tag_byte_array,
  tag_string, tag_list, tag_compound, tag_int_array, tag_long_array, Tags, no_tags, one_tag,
  Compound, new_compound, entry,
}
use lazygate.Nbt.Float.{narrow}
use lazygate.Nbt.Reader.{ok, panicked, fixed, slice, and_then, read_string}

-- `t.Type`
abbrev pub type_of : Tag → ℕ
type_of tag_end = 0
type_of (tag_byte v) = 1
type_of (tag_short v) = 2
type_of (tag_int v) = 3
type_of (tag_long v) = 4
type_of (tag_float v) = 5
type_of (tag_double v) = 6
type_of (tag_byte_array bs) = 7
type_of (tag_string s) = 8
type_of (tag_list elem ts) = 9
type_of (tag_compound c) = 10
type_of (tag_int_array vs) = 11
type_of (tag_long_array vs) = 12

-- `int16(len(s))` keeps the low 16 bits.
unfoldable pub write_string : Bytes → Bytes
write_string s = big_endian16 (length s % 2 ^ 16) ++ s

abbrev pub count_tags : Tags → ℕ
count_tags no_tags = 0
count_tags (one_tag t ts) = suc (count_tags ts)

unfoldable pub write_words : (ℕ → Bytes) → List ℕ → Bytes
write_words write [] = []
write_words write (v ∷ vs) = write v ++ write_words write vs

-- `int32(n)`
abbrev pub write_count : ℕ → Bytes
write_count n = big_endian32 (n % 2 ^ 32)

unfoldable mutual
  unfolding write_string write_words

  pub write_tag : Tag → Bytes
  write_tag tag_end = []
  write_tag (tag_byte v) = v % 2 ^ 8 ∷ []
  write_tag (tag_short v) = big_endian16 (v % 2 ^ 16)
  write_tag (tag_int v) = big_endian32 (v % 2 ^ 32)
  write_tag (tag_long v) = big_endian64 (v % 2 ^ 64)
  write_tag (tag_float v) = big_endian32 (narrow v)
  write_tag (tag_double v) = big_endian64 v
  write_tag (tag_byte_array bs) = write_count (length bs) ++ bs
  write_tag (tag_string s) = write_string s
  write_tag (tag_list elem ts) = elem ∷ write_count (count_tags ts) ++ write_tags ts
  write_tag (tag_compound c) = write_inner_compound c
  write_tag (tag_int_array vs) = write_count (length vs) ++ write_words big_endian32 vs
  write_tag (tag_long_array vs) = write_count (length vs) ++ write_words big_endian64 vs

  pub write_tags : Tags → Bytes
  write_tags no_tags = []
  write_tags (one_tag t ts) = write_tag t ++ write_tags ts

  pub write_inner_compound : Compound → Bytes
  write_inner_compound new_compound = 0 ∷ []
  write_inner_compound (entry name t c) =
      type_of t ∷ write_string name ++ write_tag t ++ write_inner_compound c

unfoldable pub write_compound_tag : Compound → Bytes
write_compound_tag c = 10 ∷ write_string [] ++ write_inner_compound c

pub fixed-big_endian16 : (v : ℕ) (r : Bytes) → v < 2 ^ 16 → fixed 2 (big_endian16 v ++ r) ≡ ok v r
unfolding fixed
fixed-big_endian16 v r h = ground arith

slice-string :
    (s rest : Bytes)
    → length s < 2 ^ 16
    → slice (2 ^ 15) (length s) (s ++ rest)
      ≡ (if ltb (length s) (2 ^ 15) then ok s rest else panicked)
unfolding slice
slice-string s rest h = ground (
  arith,
  take-append s rest (length s) refl,
  drop-append s rest (length s) refl,
  length-append s rest,
)

-- `ReadString` reads back every string that `writeString` wrote with a length below 2 ^ 15, whatever follows it, and runs
-- into a panic on every one with a length from there up to what 16 bits count.
pub read_string-write_string :
    (s rest : Bytes)
    → length s < 2 ^ 16
    → read_string (write_string s ++ rest)
      ≡ (if ltb (length s) (2 ^ 15) then ok s rest else panicked)
unfolding write_string read_string
read_string-write_string s rest h =
    let k : length s % 2 ^ 16 ≡ length s = ground arith in
    let cut : fixed 2 (write_string s ++ rest) ≡ ok (length s % 2 ^ 16) (s ++ rest) =
      fixed-big_endian16 (length s % 2 ^ 16) (s ++ rest) (omega arith) in
    ap (λ m. and_then m (slice (2 ^ 15))) (cut ∙ ap (λ n. ok n (s ++ rest)) k)
    ∙ slice-string s rest h
