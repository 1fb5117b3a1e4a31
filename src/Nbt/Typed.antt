-- ===== src/Nbt/Typed.antt =====
-- nbt/nbt.go: the getters and the inserters of a type, and `Clone`.
use lazygate.Prelude.{ℕ, Bytes, List, [], ◌∷◌, Option, none, some}
use lazygate.Nbt.Float.{widen}
use lazygate.Nbt.{
  Tag, tag_end, tag_byte, tag_short, tag_int, tag_long, tag_float, tag_double, tag_byte_array,
  tag_string, tag_int_array, tag_long_array, tag_list, tag_compound, Tags, no_tags, one_tag,
  Compound, new_compound, entry,
}
use lazygate.Nbt.Entries.{get, insert}

-- `no such key`, and `key … is not a …`
pub data Got {ℓ} (A : Type ℓ) : Type ℓ where
  no_such_key not_a : Got A
  found : A → Got A

abbrev pub str_of : Option Tag → Got Bytes
str_of none = no_such_key
str_of (some (tag_string s)) = found s
str_of (some _) = not_a

unfoldable pub get_str : Compound → Bytes → Got Bytes
get_str c name = str_of (get name c)

abbrev pub compound_of : Option Tag → Got Compound
compound_of none = no_such_key
compound_of (some (tag_compound c)) = found c
compound_of (some _) = not_a

unfoldable pub get_compound : Compound → Bytes → Got Compound
get_compound c name = compound_of (get name c)

-- `t.List[i].Compound`: nil for an element that is no compound.
abbrev pub elements : Tags → List (Option Compound)
elements no_tags = []
elements (one_tag (tag_compound c) ts) = some c ∷ elements ts
elements (one_tag _ ts) = none ∷ elements ts

abbrev pub vec_of : Option Tag → Got (List (Option Compound))
vec_of none = no_such_key
vec_of (some (tag_list elem ts)) = found (elements ts)
vec_of (some _) = not_a

unfoldable pub get_compound_vec : Compound → Bytes → Got (List (Option Compound))
get_compound_vec c name = vec_of (get name c)

abbrev pub insert_byte : Bytes → ℕ → Compound → Compound
insert_byte name v = insert name (tag_byte v)

abbrev pub insert_short : Bytes → ℕ → Compound → Compound
insert_short name v = insert name (tag_short v)

abbrev pub insert_int : Bytes → ℕ → Compound → Compound
insert_int name v = insert name (tag_int v)

abbrev pub insert_long : Bytes → ℕ → Compound → Compound
insert_long name v = insert name (tag_long v)

abbrev pub insert_float : Bytes → ℕ → Compound → Compound
insert_float name v = insert name (tag_float (widen v))

abbrev pub insert_double : Bytes → ℕ → Compound → Compound
insert_double name v = insert name (tag_double v)

abbrev pub insert_string : Bytes → Bytes → Compound → Compound
insert_string name v = insert name (tag_string v)

unfoldable mutual
  unfolding insert

  pub clone_tag : Tag → Tag
  clone_tag tag_end = tag_end
  clone_tag (tag_byte v) = tag_byte v
  clone_tag (tag_short v) = tag_short v
  clone_tag (tag_int v) = tag_int v
  clone_tag (tag_long v) = tag_long v
  clone_tag (tag_float v) = tag_float v
  clone_tag (tag_double v) = tag_double v
  clone_tag (tag_byte_array bs) = tag_byte_array bs
  clone_tag (tag_string s) = tag_string s
  clone_tag (tag_list elem ts) = tag_list elem (clone_tags ts)
  clone_tag (tag_compound c) = tag_compound (clone_into new_compound c)
  clone_tag (tag_int_array vs) = tag_int_array vs
  clone_tag (tag_long_array vs) = tag_long_array vs

  pub clone_tags : Tags → Tags
  clone_tags no_tags = no_tags
  clone_tags (one_tag t ts) = one_tag (clone_tag t) (clone_tags ts)

  -- The loop over the names.
  pub clone_into : Compound → Compound → Compound
  clone_into out new_compound = out
  clone_into out (entry name t c) = clone_into (insert name (clone_tag t) out) c

unfoldable pub clone : Compound → Compound
unfolding clone_into
clone c = clone_into new_compound c
