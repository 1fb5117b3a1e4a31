-- ===== src/Nbt/Leaves.antt =====
-- nbt/read.go: `readTag` on the bytes of a tag that holds no other tag.
use lazygate.Prelude.{
  ℕ, ◌*◌, ◌^◌, ◌%◌, ◌<◌, false, List, [], ◌∷◌, ◌++◌, Bytes, ltb, length, ◌≡◌, refl, arith,
  take-append, drop-append, length-append, ap, ◌∙◌, append_assoc, lt→ltb,
}
use lazygate.Proto.Writer.{big_endian32, big_endian64}
use lazygate.Nbt.{
  Tag, tag_end, tag_list, tag_compound, tag_byte, tag_short, tag_int, tag_long, tag_float,
  tag_double, tag_byte_array, tag_string, tag_int_array, tag_long_array,
}
use lazygate.Nbt.Float.{narrow, narrow_lt}
use lazygate.Nbt.Stored.{stored_tag}
use lazygate.Nbt.Encodable.{AllBelow, IsEncodable}
use lazygate.Nbt.Reader.{Result, ok, fixed, slice, rounds_of, read_words, read_array, read_tag_by}
use lazygate.Nbt.Writer.{
  type_of, write_count, write_words, write_tag, fixed-big_endian16, read_string-write_string,
}

-- `fixed` reads back what a writer of that many bytes wrote.
abbrev pub Fixes : ℕ → (ℕ → Bytes) → ℕ → Type 0
Fixes width write v = (r : Bytes) → fixed width (write v ++ r) ≡ ok v r

pub fixed-byte : (v : ℕ) → Fixes 1 (λ b. b ∷ []) v
unfolding fixed
fixed-byte v r = ground arith

pub fixed-big_endian32 : (v : ℕ) → v < 2 ^ 32 → Fixes 4 big_endian32 v
unfolding fixed
fixed-big_endian32 v h r = ground arith

pub fixed-big_endian64 : (v : ℕ) → v < 2 ^ 64 → Fixes 8 big_endian64 v
unfolding fixed
fixed-big_endian64 v h r = ground arith

pub fixed-write_count : (n : ℕ) → n < 2 ^ 31 → (r : Bytes) → fixed 4 (write_count n ++ r) ≡ ok n r
fixed-write_count n h r =
    fixed-big_endian32 (n % 2 ^ 32) (omega arith) r
    ∙ ap (λ k. ok k r) (let e : n % 2 ^ 32 ≡ n = omega arith in e)

pub rounds_of_count : (n : ℕ) → n < 2 ^ 31 → rounds_of n ≡ n
rounds_of_count n h = ground arith

pub slice-append :
    (sign : ℕ) (s r : Bytes) → length s < sign → slice sign (length s) (s ++ r) ≡ ok s r
unfolding slice
slice-append sign s r h =
    ground
      (arith, take-append s r (length s) refl, drop-append s r (length s) refl, length-append s r)

module _ (width : ℕ) (write : ℕ → Bytes) where
  read_words-write_words :
      (bound : ℕ)
      → ((v : ℕ) → v < bound → Fixes width write v)
      → (vs : List ℕ) → AllBelow bound vs
      → (r : Bytes) → read_words width (length vs) (write_words write vs ++ r) ≡ ok vs r
  unfolding read_words write_words
  read_words-write_words bound fix [] h r = refl
  read_words-write_words bound fix (v ∷ vs) h r =
      rw
        (
          append_assoc (write v) (write_words write vs) r,
          fix v h.0 (write_words write vs ++ r),
          read_words-write_words bound fix vs h.1 r,
        )
        refl

  length-write_words :
      ((v : ℕ) → length (write v) ≡ width)
      → (vs : List ℕ) → length (write_words write vs) ≡ length vs * width
  unfolding write_words
  length-write_words each [] = omega arith
  length-write_words each (v ∷ vs) =
      grind
        (arith, length-append (write v) (write_words write vs), each v, length-write_words each vs)

  read_array-write_words :
      (bound : ℕ)
      → ((v : ℕ) → v < bound → Fixes width write v)
      → ((v : ℕ) → length (write v) ≡ width)
      → (vs : List ℕ) → length vs < 2 ^ 31
      → AllBelow bound vs
      → (r : Bytes)
      → read_array width (write_count (length vs) ++ (write_words write vs ++ r)) ≡ ok vs r
  unfolding read_array
  read_array-write_words bound fix each vs short h r =
      let n : rounds_of (length vs) ≡ length vs = rounds_of_count (length vs) short in
      let enough : ltb (length (write_words write vs ++ r)) (length vs * width) ≡ false =
        ground (arith, length-append (write_words write vs) r, length-write_words each vs) in
      rw (fixed-write_count (length vs) short (write_words write vs ++ r))
        (simp (n, enough, read_words-write_words bound fix vs h r) refl)

-- A tag that holds no other tag.
abbrev pub IsLeaf : Tag → Type 0
IsLeaf (tag_list elem ts) = ⊥
IsLeaf (tag_compound c) = ⊥
IsLeaf _ = Unit

low_bits :
    (v : ℕ)
    → (v < 2 ^ 8 → v % 2 ^ 8 ≡ v)
      × (v < 2 ^ 16 → v % 2 ^ 16 ≡ v)
      × (v < 2 ^ 32 → v % 2 ^ 32 ≡ v)
      × (v < 2 ^ 64 → v % 2 ^ 64 ≡ v)
low_bits v = (λ h. omega arith, λ h. omega arith, λ h. omega arith, λ h. omega arith)

pub read_tag_by-write_tag :
    (nested : ℕ → Bytes → Result Tag) (t : Tag)
    → IsLeaf t
    → IsEncodable t
    → (r : Bytes) → read_tag_by nested (type_of t) (write_tag t ++ r) ≡ ok (stored_tag t) r
unfolding read_tag_by write_tag
read_tag_by-write_tag nested tag_end l h r = refl
read_tag_by-write_tag nested (tag_byte v) l h r = rw ((low_bits v).0 h, fixed-byte v r) refl
read_tag_by-write_tag nested (tag_short v) l h r =
    rw ((low_bits v).1 h, fixed-big_endian16 v r h) refl
read_tag_by-write_tag nested (tag_int v) l h r =
    rw ((low_bits v).2 h, fixed-big_endian32 v h r) refl
read_tag_by-write_tag nested (tag_long v) l h r =
    rw ((low_bits v).3 h, fixed-big_endian64 v h r) refl
read_tag_by-write_tag nested (tag_float v) l h r =
    rw (fixed-big_endian32 (narrow v) (narrow_lt v) r) refl
read_tag_by-write_tag nested (tag_double v) l h r = rw (fixed-big_endian64 v h r) refl
read_tag_by-write_tag nested (tag_byte_array bs) l h r =
    rw (fixed-write_count (length bs) h (bs ++ r), slice-append (2 ^ 31) bs r h) refl
read_tag_by-write_tag nested (tag_string s) l h r =
    rw (read_string-write_string s r (omega arith), lt→ltb (length s) (2 ^ 15) h) refl
read_tag_by-write_tag nested (tag_list elem ts) l h r = absurd l
read_tag_by-write_tag nested (tag_compound c) l h r = absurd l
read_tag_by-write_tag nested (tag_int_array vs) l h r =
    rw (read_array-write_words 4 big_endian32 (2 ^ 32) fixed-big_endian32 (λ v. refl) vs h.0 h.1 r)
      refl
read_tag_by-write_tag nested (tag_long_array vs) l h r =
    rw (read_array-write_words 8 big_endian64 (2 ^ 64) fixed-big_endian64 (λ v. refl) vs h.0 h.1 r)
      refl
