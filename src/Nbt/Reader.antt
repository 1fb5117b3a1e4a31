-- ===== src/Nbt/Reader.antt =====
-- nbt/read.go: reading a tag. A reader is its unread bytes.
pub mod Total
pub mod Panic
use lazygate.Prelude.{
  ℕ, zero, suc, ◌*◌, ◌^◌, Bool, List, [], ◌∷◌, Bytes, Option, none, some, if◌then◌else◌, ltb, leb,
  ◌==◌, length, take, drop,
}
use lazygate.Proto.Reader.{big_endian_value}
use lazygate.Nbt.Float.{widen}
use lazygate.Nbt.{
  Tag, tag_end, tag_byte, tag_short, tag_int, tag_long, tag_float, tag_double, tag_byte_array,
  tag_string, tag_list, tag_compound, tag_int_array, tag_long_array, Tags, no_tags, one_tag,
  Compound, new_compound, entry,
}
use lazygate.Nbt.Entries.{insert}

-- `failed` is `ok = false`, `panicked` a slice expression out of bounds; `stuck` is fuel that ran out.
pub data Result {ℓ} (A : Type ℓ) : Type ℓ where
  failed panicked stuck : Result A
  ok : A → Bytes → Result A

-- `if !ok { return nil, false }`, and else go on with the rest
abbrev pub and_then {ℓ κ} : {A : Type ℓ} {B : Type κ} → Result A → (A → Bytes → Result B) → Result B
and_then failed next = failed
and_then panicked next = panicked
and_then stuck next = stuck
and_then (ok a r) next = next a r

-- `u8`, `i16`, `i32`, `i64`, `f32`, `f64`: n bytes
unfoldable pub fixed : ℕ → Bytes → Result ℕ
fixed n r = if ltb (length r) n then failed else ok (big_endian_value 0 (take n r)) (drop n r)

-- `r.data[r.pos : r.pos+int(n)]` behind the test `int(n) > r.Remaining()`, for n a signed word with the
-- given sign bit: a negative n passes the test and the slice panics.
unfoldable pub slice : ℕ → ℕ → Bytes → Result Bytes
slice sign n r =
    if leb sign n then panicked else if ltb (length r) n then failed else ok (take n r) (drop n r)

unfoldable pub read_string : Bytes → Result Bytes
unfolding fixed slice
read_string r = and_then (fixed 2 r) (slice (2 ^ 15))

-- `for i := int32(0); i < n; i++`: the rounds of a count
abbrev pub rounds_of : ℕ → ℕ
rounds_of n = if leb (2 ^ 31) n then 0 else n

-- The loop of an int or long array.
unfoldable pub read_words : ℕ → ℕ → Bytes → Result (List ℕ)
unfolding fixed
read_words width zero r = ok [] r
read_words width (suc n) r =
    and_then (fixed width r) (λ v r₂. and_then (read_words width n r₂) (λ vs r₃. ok (v ∷ vs) r₃))

-- `!ok || int(n)*width > r.Remaining()`, and the loop
unfoldable pub read_array : ℕ → Bytes → Result (List ℕ)
unfolding read_words fixed
read_array width r = and_then (fixed 4 r) (λ n r₂.
    if ltb (length r₂) (rounds_of n * width) then failed else read_words width (rounds_of n) r₂)

-- The loop of a list, over a reader of its elements.
unfoldable pub read_tags : (Bytes → Result Tag) → ℕ → Bytes → Result Tags
read_tags elem zero r = ok no_tags r
read_tags elem (suc n) r =
    and_then (elem r) (λ t r₂. and_then (read_tags elem n r₂) (λ ts r₃. ok (one_tag t ts) r₃))

-- The loop of a compound, over a reader of its children. Each round reads a byte.
unfoldable pub read_entries : (ℕ → Bytes → Result Tag) → ℕ → Compound → Bytes → Result Tag
unfolding fixed read_string insert
read_entries child zero c r = stuck
read_entries child (suc rounds) c r = and_then (fixed 1 r) (λ child_type r₂.
    if child_type == 0
    then ok (tag_compound c) r₂
    else and_then (read_string r₂) (λ name r₃.
      and_then (child child_type r₃) (λ t r₄. read_entries child rounds (insert name t c) r₄)))

-- A value that a constructor takes.
abbrev pub as_tag {ℓ} : {A : Type ℓ} → (A → Tag) → Result A → Result Tag
as_tag f m = and_then m (λ a r. ok (f a) r)

-- The switch of `readTag`, over the reader of nested tags.
unfoldable pub read_tag_by : (ℕ → Bytes → Result Tag) → ℕ → Bytes → Result Tag
unfolding fixed slice read_string read_array read_tags read_entries
read_tag_by nested id r =
    if id == 0
    then ok tag_end r
    else if id == 1
    then as_tag tag_byte (fixed 1 r)
    else if id == 2
    then as_tag tag_short (fixed 2 r)
    else if id == 3
    then as_tag tag_int (fixed 4 r)
    else if id == 4
    then as_tag tag_long (fixed 8 r)
    else if id == 5
    then as_tag (λ v. tag_float (widen v)) (fixed 4 r)
    else if id == 6
    then as_tag tag_double (fixed 8 r)
    else if id == 7
    then as_tag tag_byte_array (and_then (fixed 4 r) (slice (2 ^ 31)))
    else if id == 8
    then as_tag tag_string (read_string r)
    else if id == 9
    then and_then (fixed 1 r) (λ elem_type r₂.
      and_then (fixed 4 r₂)
        (λ n r₃. as_tag (tag_list elem_type) (read_tags (nested elem_type) (rounds_of n) r₃)))
    else if id == 10
    then read_entries nested (suc (length r)) new_compound r
    else if id == 11
    then as_tag tag_int_array (read_array 4 r)
    else if id == 12
    then as_tag tag_long_array (read_array 8 r)
    else failed

-- `readTag` with fuel for the depth of nesting.
unfoldable pub read_tag : ℕ → ℕ → Bytes → Result Tag
unfolding read_tag_by
read_tag zero id r = stuck
read_tag (suc depth) id r = read_tag_by (read_tag depth) id r

-- `tag.Type != TagCompound || tag.Compound == nil`
abbrev pub as_compound : Tag → Bytes → Result Compound
as_compound (tag_compound c) r = ok c r
as_compound _ r = failed

-- A nested tag stands behind a byte at least, so the length of the bytes bounds the depth.
unfoldable pub read_compound_tag : Bytes → Result Compound
unfolding fixed read_string read_tag
read_compound_tag r = and_then (fixed 1 r) (λ id r₂.
    and_then (read_string r₂) (λ name r₃. and_then (read_tag (suc (length r₃)) id r₃) as_compound))
