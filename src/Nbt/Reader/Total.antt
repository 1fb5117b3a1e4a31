-- ===== src/Nbt/Reader/Total.antt =====
-- nbt/read.go: the depth and the rounds of reading a tag, against the bytes that are left.
use lazygate.Prelude.{
  ℕ, zero, suc, ◌*◌, ◌^◌, ◌≤◌, ◌<◌, Bool, true, false, [], ◌∷◌, Bytes, if◌then◌else◌, ltb, leb,
  ◌==◌, length, length-drop, arith,
}
use lazygate.Nbt.Float.{widen}
use lazygate.Nbt.{
  Tag, tag_byte, tag_short, tag_int, tag_long, tag_float, tag_double, tag_byte_array, tag_string,
  tag_list, tag_int_array, tag_long_array, tag_compound, Compound, new_compound,
}
use lazygate.Nbt.Entries.{insert}
use lazygate.Nbt.Reader.{
  Result, failed, panicked, stuck, ok, and_then, fixed, slice, read_string, rounds_of, read_words,
  read_array, read_tags, read_entries, as_tag, read_tag_by, read_tag, as_compound,
  read_compound_tag,
}

-- The read ended, and left at most n bytes if it gave a value.
pub data Within {ℓ} {A : Type ℓ} (n : ℕ) : Result A → Type ℓ where
  failed_within : Within n failed
  panicked_within : Within n panicked
  ok_within : {a : A} {r : Bytes} → length r ≤ n → Within n (ok a r)

pub and_then-Within {ℓ κ} :
    {A : Type ℓ} {B : Type κ} (n k : ℕ) (m : Result A) (next : A → Bytes → Result B)
    → Within n m
    → ((a : A) (r : Bytes) → length r ≤ n → Within k (next a r))
    → Within k (and_then m next)
and_then-Within n k failed next failed_within f = failed_within
and_then-Within n k panicked next panicked_within f = panicked_within
and_then-Within n k stuck next h f = elim h [ ]
and_then-Within n k (ok a r) next (ok_within le) f = f a r le

pub Within-more {ℓ} : {A : Type ℓ} (n k : ℕ) (m : Result A) → n ≤ k → Within n m → Within k m
Within-more n k m le failed_within = failed_within
Within-more n k m le panicked_within = panicked_within
Within-more n k m le (ok_within h) = ok_within (omega (arith, le, h))

pub if-Within {ℓ} :
    {A : Type ℓ} (n : ℕ) (b : Bool) (m k : Result A)
    → Within n m
    → Within n k
    → Within n (if b then m else k)
if-Within n true m k h j = h
if-Within n false m k h j = j

fixed-Within : (w n : ℕ) (r : Bytes) → length r ≤ suc n → Within n (fixed (suc w) r)
unfolding fixed
fixed-Within w n r h =
    if-Within n (ltb (length r) (suc w)) failed _ failed_within
      (ok_within (omega (arith, h, length-drop (suc w) r)))

slice-Within : (sign k n : ℕ) (r : Bytes) → length r ≤ n → Within n (slice sign k r)
unfolding slice
slice-Within sign k n r h = if-Within n (leb sign k) panicked _ panicked_within (
    if-Within n (ltb (length r) k) failed _ failed_within
      (ok_within (omega (arith, h, length-drop k r))))

read_string-Within : (n : ℕ) (r : Bytes) → length r ≤ n → Within n (read_string r)
unfolding read_string
read_string-Within n r h =
    and_then-Within n n (fixed 2 r) (slice (2 ^ 15)) (fixed-Within 1 n r (omega arith))
      (λ k r₂ le. slice-Within (2 ^ 15) k n r₂ le)

read_words-Within : (w k n : ℕ) (r : Bytes) → length r ≤ n → Within n (read_words (suc w) k r)
unfolding read_words
read_words-Within w zero n r h = ok_within h
read_words-Within w (suc k) n r h =
    and_then-Within n n (fixed (suc w) r) _ (fixed-Within w n r (omega arith)) (λ v r₂ le.
      and_then-Within n n (read_words (suc w) k r₂) _ (read_words-Within w k n r₂ le)
        (λ vs r₃ le₂. ok_within le₂))

read_array-Within : (w n : ℕ) (r : Bytes) → length r ≤ n → Within n (read_array (suc w) r)
unfolding read_array
read_array-Within w n r h =
    and_then-Within n n (fixed 4 r) _ (fixed-Within 3 n r (omega arith)) (λ k r₂ le.
      if-Within n (ltb (length r₂) (rounds_of k * suc w)) failed _ failed_within
        (read_words-Within w (rounds_of k) n r₂ le))

pub as_tag-Within {ℓ} :
    {A : Type ℓ} (n : ℕ) (f : A → Tag) (m : Result A) → Within n m → Within n (as_tag f m)
as_tag-Within n f m h = and_then-Within n n m _ h (λ a r le. ok_within le)

module _ (n : ℕ) (nested : ℕ → Bytes → Result Tag)
    (good : (id k : ℕ) (r : Bytes) → length r ≤ k → k < n → Within k (nested id r)) where
  read_tags-Within :
      (id k c : ℕ) (r : Bytes) → length r ≤ k → k < n → Within k (read_tags (nested id) c r)
  unfolding read_tags
  read_tags-Within id k zero r h b = ok_within h
  read_tags-Within id k (suc c) r h b =
      and_then-Within k k (nested id r) _ (good id k r h b) (λ t r₂ le.
        and_then-Within k k (read_tags (nested id) c r₂) _ (read_tags-Within id k c r₂ le b)
          (λ ts r₃ le₂. ok_within le₂))

  read_entries-Within :
      (rounds k : ℕ) (c : Compound) (r : Bytes)
      → length r ≤ k
      → k ≤ n
      → length r < rounds
      → Within k (read_entries nested rounds c r)
  unfolding read_entries
  read_entries-Within zero k c r h b e = ground arith
  read_entries-Within (suc rounds) k c [] h b e = failed_within
  read_entries-Within (suc rounds) k c (x ∷ xs) h b e =
      let m = length xs in
      and_then-Within m k (fixed 1 (x ∷ xs)) _ (fixed-Within 0 m (x ∷ xs) (omega arith))
        (λ id r₂ le.
          if-Within k (id == 0) (ok (tag_compound c) r₂) _ (ok_within (omega (arith, le, h))) (
            and_then-Within m k (read_string r₂) _ (read_string-Within m r₂ le) (λ name r₃ le₂.
              and_then-Within m k (nested id r₃) _ (good id m r₃ le₂ (omega (arith, h, b)))
                (λ t r₄ le₃.
                  read_entries-Within rounds k (insert name t c) r₄ (omega (arith, le₃, h)) b
                    (omega (arith, le₃, e))))))

  list-Within :
      (k : ℕ) (r : Bytes)
      → length r ≤ k
      → k ≤ n
      → Within k (
          and_then (fixed 1 r) (λ elem_type r₂.
            and_then (fixed 4 r₂) (λ c r₃.
              as_tag (tag_list elem_type) (read_tags (nested elem_type) (rounds_of c) r₃))))
  unfolding fixed
  list-Within k [] h b = failed_within
  list-Within k (x ∷ xs) h b =
      let m = length xs in
      and_then-Within m k (fixed 1 (x ∷ xs)) _ (fixed-Within 0 m (x ∷ xs) (omega arith))
        (λ elem_type r₂ le.
          and_then-Within m k (fixed 4 r₂) _ (fixed-Within 3 m r₂ (omega (arith, le))) (λ c r₃ le₂.
            Within-more m k _ (omega (arith, h)) (
              as_tag-Within m (tag_list elem_type) (read_tags (nested elem_type) (rounds_of c) r₃)
                (read_tags-Within elem_type m (rounds_of c) r₃ le₂ (omega (arith, h, b))))))

  read_tag_by-Within :
      (id k : ℕ) (r : Bytes) → length r ≤ k → k ≤ n → Within k (read_tag_by nested id r)
  unfolding read_tag_by
  read_tag_by-Within id k r h b =
      let fits = λ (w : ℕ). fixed-Within w k r (omega (arith, h)) in
      if-Within k (id == 0) _ _ (ok_within h) (
        if-Within k (id == 1) _ _ (as_tag-Within k tag_byte (fixed 1 r) (fits 0)) (
          if-Within k (id == 2) _ _ (as_tag-Within k tag_short (fixed 2 r) (fits 1)) (
            if-Within k (id == 3) _ _ (as_tag-Within k tag_int (fixed 4 r) (fits 3)) (
              if-Within k (id == 4) _ _ (as_tag-Within k tag_long (fixed 8 r) (fits 7)) (
                if-Within k (id == 5) _ _
                  (as_tag-Within k (λ v. tag_float (widen v)) (fixed 4 r) (fits 3))
                  (if-Within k (id == 6) _ _ (as_tag-Within k tag_double (fixed 8 r) (fits 7)) (
                    if-Within k (id == 7) _ _
                      (as_tag-Within k tag_byte_array _ (
                        and_then-Within k k (fixed 4 r) _ (fits 3)
                          (λ c r₂ le. slice-Within (2 ^ 31) c k r₂ le)))
                      (if-Within k (id == 8) _ _
                        (as_tag-Within k tag_string (read_string r) (read_string-Within k r h))
                        (if-Within k (id == 9) _ _ (list-Within k r h b) (
                          if-Within k (id == 10) _ _
                            (read_entries-Within (suc (length r)) k new_compound r h b
                              (omega arith))
                            (if-Within k (id == 11) _ _
                              (as_tag-Within k tag_int_array (read_array 4 r)
                                (read_array-Within 3 k r h))
                              (if-Within k (id == 12) _ failed
                                (as_tag-Within k tag_long_array (read_array 8 r)
                                  (read_array-Within 7 k r h))
                                failed_within))))))))))))

-- Reading a tag of any kind from any bytes, with a depth that is larger than the number of bytes, ends: in a tag
-- (and then no bytes are left that were not there), in a refusal or in a slice out of bounds.
pub read_tag-Within :
    (depth id n : ℕ) (r : Bytes) → length r ≤ n → n < depth → Within n (read_tag depth id r)
unfolding read_tag
read_tag-Within zero id n r h b = ground arith
read_tag-Within (suc depth) id n r h b =
    read_tag_by-Within depth (read_tag depth) (λ id k r h b. read_tag-Within depth id k r h b) id n
      r h (omega (arith, b))

as_compound-Within : (n : ℕ) (t : Tag) (r : Bytes) → length r ≤ n → Within n (as_compound t r)
as_compound-Within n t r h = elim t as (λ t. Within n (as_compound t r)) [
  | tag_compound c ↦ ok_within h
  | _ ↦ failed_within
]

-- Reading a compound from any bytes ends, in a compound with no more bytes left than there were, in a
-- refusal, or in a slice out of bounds: the bound on the depth is never reached.
pub read_compound_tag-Within : (r : Bytes) → Within (length r) (read_compound_tag r)
unfolding read_compound_tag
read_compound_tag-Within r =
    let n = length r in
    and_then-Within n n (fixed 1 r) _ (fixed-Within 0 n r (omega arith)) (λ id r₂ le.
      and_then-Within n n (read_string r₂) _ (read_string-Within n r₂ le) (λ name r₃ le₂.
        and_then-Within n n (read_tag (suc (length r₃)) id r₃) as_compound
          (Within-more (length r₃) n _ le₂
            (read_tag-Within (suc (length r₃)) id (length r₃) r₃ (omega arith) (omega arith)))
          (as_compound-Within n)))
