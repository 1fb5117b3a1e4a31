-- ===== src/Nbt/RoundTrip.antt =====
-- nbt/read.go: `readTag` on what `writeTag` wrote.
use lazygate.Prelude.{
  ℕ, zero, suc, ◌+◌, ◌^◌, ◌<◌, ◌≤◌, false, [], ◌∷◌, ◌++◌, Bytes, length, ◌≡◌, refl, arith, ◌≢◌,
  ◌==◌, lt→ltb, length-append, ap, ◌∙◌, append_assoc, sym, length,
}
use lazygate.Nbt.{
  Tag, tag_list, tag_compound, Tags, no_tags, one_tag, Compound, new_compound, entry,
}
use lazygate.Nbt.Stored.{stored_tag, stored_tags, stored}
use lazygate.Nbt.Encodable.{IsEncodable, AreElements, AreEntries}
use lazygate.Nbt.Entries.{insert}
use lazygate.Nbt.Leaves.{read_tag_by-write_tag, fixed-byte, fixed-write_count, rounds_of_count}
use lazygate.Nbt.Reader.{
  Result, ok, and_then, as_compound, read_tag_by, read_tag, read_tags, read_entries,
  read_compound_tag,
}
use lazygate.Nbt.Writer.{
  type_of, write_string, write_count, write_tag, count_tags, write_tags, write_inner_compound,
  write_compound_tag, read_string-write_string,
}
use lazygate.Nbt.Appending.{
  append, append-new, append_assoc_entry, insert-new, AreApart, AreApart-entry, AreApart-new,
}

-- The length of a written entry.
length-entry :
    (name : Bytes) (t : Tag) (c : Compound)
    → length (write_tag (tag_compound (entry name t c)))
      ≡ 3 + length name + length (write_tag t) + length (write_inner_compound c)
unfolding write_tag write_string
length-entry name t c = omega (
  arith,
  length-append (write_string name ++ write_tag t) (write_inner_compound c),
  length-append (write_string name) (write_tag t),
)

write-entry :
    (name : Bytes) (t : Tag) (c : Compound) (r : Bytes)
    → write_inner_compound (entry name t c) ++ r
      ≡ type_of t ∷ (write_string name ++ (write_tag t ++ (write_inner_compound c ++ r)))
unfolding write_tag write_string
write-entry name t c r =
    rw
      (
        append_assoc (write_string name ++ write_tag t) (write_inner_compound c) r,
        append_assoc (write_string name) (write_tag t) (write_inner_compound c ++ r),
      )
      refl

module _ (nested : ℕ → Bytes → Result Tag) where
  read_end :
      (rounds : ℕ) (acc : Compound) (r : Bytes)
      → read_entries nested (suc rounds) acc (0 ∷ r) ≡ ok (tag_compound acc) r
  unfolding read_entries
  read_end rounds acc r = rw (fixed-byte 0 r) refl

  read_list :
      (elem : ℕ) (ts : Tags) (r : Bytes)
      → count_tags ts < 2 ^ 31
      → read_tags (nested elem) (count_tags ts) (write_tags ts ++ r) ≡ ok (stored_tags ts) r
      → read_tag_by nested 9 (write_tag (tag_list elem ts) ++ r)
        ≡ ok (tag_list elem (stored_tags ts)) r
  unfolding read_tag_by write_tag
  read_list elem ts r few each =
      rw
        (
          fixed-byte elem (write_count (count_tags ts) ++ (write_tags ts ++ r)),
          fixed-write_count (count_tags ts) few (write_tags ts ++ r),
          rounds_of_count (count_tags ts) few,
          each,
        )
        refl

  read_one :
      (elem : ℕ) (t : Tag) (ts : Tags) (r : Bytes)
      → nested elem (write_tag t ++ (write_tags ts ++ r)) ≡ ok (stored_tag t) (write_tags ts ++ r)
      → read_tags (nested elem) (count_tags ts) (write_tags ts ++ r) ≡ ok (stored_tags ts) r
      → read_tags (nested elem) (count_tags (one_tag t ts)) (write_tags (one_tag t ts) ++ r)
        ≡ ok (one_tag (stored_tag t) (stored_tags ts)) r
  unfolding read_tags write_tag
  read_one elem t ts r first later =
      rw (append_assoc (write_tag t) (write_tags ts) r, first, later) refl

  read_entry :
      (rounds : ℕ) (acc : Compound) (name : Bytes) (t : Tag) (rest : Bytes)
      → length name < 2 ^ 15
      → type_of t ≢ 0
      → nested (type_of t) (write_tag t ++ rest) ≡ ok (stored_tag t) rest
      → read_entries nested
          (suc rounds)
          acc
          (type_of t ∷ (write_string name ++ (write_tag t ++ rest)))
        ≡ read_entries nested rounds (insert name (stored_tag t) acc) rest
  unfolding read_entries
  read_entry rounds acc name t rest short tagged child =
      let other : (type_of t == 0) ≡ false = ground arith in
      rw
        (
          fixed-byte (type_of t) (write_string name ++ (write_tag t ++ rest)),
          other,
          read_string-write_string name (write_tag t ++ rest) (omega arith),
          lt→ltb (length name) (2 ^ 15) short,
          child,
        )
        refl

-- With fuel and rounds above the length of what was written, the readers give back the tag, the
-- elements of a list, and the entries of a compound behind those that were read.
mutual
  unfolding read_tag read_tag_by write_tag append

  tag_back :
      (t : Tag) (fuel : ℕ) (r : Bytes)
      → IsEncodable t
      → length (write_tag t) < fuel
      → read_tag fuel (type_of t) (write_tag t ++ r) ≡ ok (stored_tag t) r
  tag_back t zero r h k = absurd (omega arith)
  tag_back (tag_list elem ts) (suc d) r h k =
      read_list (read_tag d) elem ts r h.0 (tags_back ts d elem r h.1 (omega arith))
  tag_back (tag_compound c) (suc d) r h k =
      entries_back c d (suc (length (write_inner_compound c ++ r))) new_compound r h
        (AreApart-new c) (omega arith) (omega (arith, length-append (write_inner_compound c) r))
  tag_back t (suc d) r h k = read_tag_by-write_tag (read_tag d) t tt h r

  tags_back :
      (ts : Tags) (fuel : ℕ) (elem : ℕ) (r : Bytes)
      → AreElements elem ts
      → length (write_tags ts) < fuel
      → read_tags (read_tag fuel elem) (count_tags ts) (write_tags ts ++ r) ≡ ok (stored_tags ts) r
  tags_back no_tags fuel elem r h k = refl
  tags_back (one_tag t ts) fuel elem r h k =
      read_one (read_tag fuel) elem t ts r
        (rw (sym h.0) (
          tag_back t fuel (write_tags ts ++ r) h.1
            (omega (arith, length-append (write_tag t) (write_tags ts)))))
        (tags_back ts fuel elem r h.2 (omega (arith, length-append (write_tag t) (write_tags ts))))

  entries_back :
      (c : Compound) (fuel rounds : ℕ) (acc : Compound) (r : Bytes)
      → AreEntries c
      → AreApart acc c
      → length (write_inner_compound c) ≤ fuel
      → length (write_inner_compound c) ≤ rounds
      → read_entries (read_tag fuel) rounds acc (write_inner_compound c ++ r)
        ≡ ok (tag_compound (append acc (stored c))) r
  entries_back new_compound fuel zero acc r h a k n = absurd (omega arith)
  entries_back (entry name t c) fuel zero acc r h a k n =
      absurd (omega (arith, length-entry name t c))
  entries_back new_compound fuel (suc rounds) acc r h a k n =
      read_end (read_tag fuel) rounds acc r ∙ ap (λ d. ok (tag_compound d) r) (sym (append-new acc))
  entries_back (entry name t c) fuel (suc rounds) acc r h a k n =
      let child =
        tag_back t fuel (write_inner_compound c ++ r) h.2 (omega (arith, length-entry name t c)) in
      let kept : AreApart (append acc (entry name (stored_tag t) new_compound)) c =
        AreApart-entry acc name (stored_tag t) c h.3 a.1 in
      let later =
        entries_back c fuel rounds (append acc (entry name (stored_tag t) new_compound)) r h.4 kept
          (omega (arith, length-entry name t c)) (omega (arith, length-entry name t c)) in
      let split =
        read_entry (read_tag fuel) rounds acc name t (write_inner_compound c ++ r) h.0 h.1 child in
      ap (read_entries (read_tag fuel) (suc rounds) acc) (write-entry name t c r)
      ∙ split
      ∙ rw (insert-new name (stored_tag t) acc a.0) (
          later
          ∙ ap (λ d. ok (tag_compound d) r) (append_assoc_entry acc name (stored_tag t) (stored c)))

inner_fits :
    (c : Compound) (rest : Bytes)
    → length (write_tag (tag_compound c)) < suc (length (write_inner_compound c ++ rest))
unfolding write_tag
inner_fits c rest = omega (arith, length-append (write_inner_compound c) rest)

inner :
    (c : Compound) (rest : Bytes)
    → write_tag (tag_compound c) ++ rest ≡ write_inner_compound c ++ rest
unfolding write_tag
inner c rest = refl

-- `ReadCompoundTag` gives back every compound that `WriteCompoundTag` wrote, with the order of its
-- entries and whatever follows it left unread, with each float of a float32 tag rounded to a float32 and
-- all else as it was, if every other number fits its width, every string is
-- shorter than 2 ^ 15, every count is below 2 ^ 31, every list holds tags of its element type, and
-- every compound has each name once, with no end tag under it.
pub read_compound_tag-write_compound_tag :
    (c : Compound) (rest : Bytes)
    → AreEntries c
    → read_compound_tag (write_compound_tag c ++ rest) ≡ ok (stored c) rest
unfolding read_compound_tag write_compound_tag write_string write_tag
read_compound_tag-write_compound_tag c rest h =
    let bytes = write_inner_compound c ++ rest in
    let back = tag_back (tag_compound c) (suc (length bytes)) rest h (inner_fits c rest) in
    rw (fixed-byte 10 (write_string [] ++ bytes), read_string-write_string [] bytes (omega arith))
      (ap (λ m. and_then m as_compound) back)
