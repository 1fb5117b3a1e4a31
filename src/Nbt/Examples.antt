-- ===== src/Nbt/Examples.antt =====
-- The theorems on tags at concrete bytes.
use lazygate.Nbt.Stored.{stored}
use lazygate.Prelude.{[], ◌∷◌, ◌++◌, length, ◌≡◌, refl, arith}
use lazygate.Nbt.{
  tag_byte, tag_int, tag_float, tag_list, tag_compound, no_tags, one_tag, Compound, new_compound,
  entry,
}
use lazygate.Nbt.Encodable.{AreEntries}
use lazygate.Nbt.RoundTrip.{read_compound_tag-write_compound_tag}
use lazygate.Nbt.Entries.{get, insert}
use lazygate.Nbt.Reader.{ok, read_compound_tag}
use lazygate.Nbt.Reader.Total.{Within, read_compound_tag-Within}
use lazygate.Nbt.Writer.{write_tag, write_compound_tag}

abbrev two_entries : Compound
two_entries = entry (97 ∷ []) (tag_byte 1) (entry (98 ∷ []) (tag_int 2) new_compound)

two_entries-AreEntries : AreEntries two_entries
unfolding get
two_entries-AreEntries =
    (omega arith, omega arith, omega arith, refl, (omega arith, omega arith, omega arith, refl, tt))

read_compound_tag-Within_example :
    Within
      (length (write_compound_tag two_entries))
      (read_compound_tag (write_compound_tag two_entries))
read_compound_tag-Within_example = read_compound_tag-Within (write_compound_tag two_entries)

abbrev nested_list : Compound
nested_list =
    entry (97 ∷ [])
      (tag_list 10
        (one_tag (tag_compound two_entries) (one_tag (tag_compound new_compound) no_tags)))
      (entry [] (tag_float 0x3FB999999999999A) new_compound)

nested_list-AreEntries : AreEntries nested_list
unfolding get
nested_list-AreEntries = (
  omega arith,
  omega arith,
  (omega arith, (refl, two_entries-AreEntries, (refl, tt, tt))),
  refl,
  (omega arith, omega arith, tt, refl, tt),
)

read_compound_tag-write_compound_tag_example :
    read_compound_tag (write_compound_tag nested_list ++ 0 ∷ []) ≡ ok (stored nested_list) (0 ∷ [])
read_compound_tag-write_compound_tag_example =
    read_compound_tag-write_compound_tag nested_list (0 ∷ []) nested_list-AreEntries

two_entries_read_back : read_compound_tag (write_compound_tag two_entries) ≡ ok two_entries []
unfolding read_compound_tag write_compound_tag write_tag insert
two_entries_read_back = refl
