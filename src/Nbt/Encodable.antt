-- ===== src/Nbt/Encodable.antt =====
-- nbt/nbt.go: the tags that the writer puts down whole.
use lazygate.Prelude.{ℕ, ◌^◌, ◌<◌, List, [], ◌∷◌, none, length, ◌≡◌, ◌≢◌}
use lazygate.Nbt.{
  Tag, tag_end, tag_byte, tag_short, tag_int, tag_long, tag_float, tag_double, tag_byte_array,
  tag_string, tag_list, tag_compound, tag_int_array, tag_long_array, Tags, no_tags, one_tag,
  Compound, new_compound, entry,
}
use lazygate.Nbt.Entries.{get}
use lazygate.Nbt.Writer.{type_of, count_tags}

-- Each word is below the bound.
abbrev pub AllBelow : ℕ → List ℕ → Type 0
AllBelow bound [] = Unit
AllBelow bound (v ∷ vs) = (v < bound) × AllBelow bound vs

-- Each number other than a float32 fits its width, each count its length field with the sign bit clear, a list holds tags
-- of its element type, a compound has each name once and no end tag under a name.
abbrev mutual
  pub IsEncodable : Tag → Type 0
  IsEncodable tag_end = Unit
  IsEncodable (tag_byte v) = v < 2 ^ 8
  IsEncodable (tag_short v) = v < 2 ^ 16
  IsEncodable (tag_int v) = v < 2 ^ 32
  IsEncodable (tag_long v) = v < 2 ^ 64
  IsEncodable (tag_float v) = Unit
  IsEncodable (tag_double v) = v < 2 ^ 64
  IsEncodable (tag_byte_array bs) = length bs < 2 ^ 31
  IsEncodable (tag_string s) = length s < 2 ^ 15
  IsEncodable (tag_list elem ts) = (count_tags ts < 2 ^ 31) × AreElements elem ts
  IsEncodable (tag_compound c) = AreEntries c
  IsEncodable (tag_int_array vs) = (length vs < 2 ^ 31) × AllBelow (2 ^ 32) vs
  IsEncodable (tag_long_array vs) = (length vs < 2 ^ 31) × AllBelow (2 ^ 64) vs

  pub AreElements : ℕ → Tags → Type 0
  AreElements elem no_tags = Unit
  AreElements elem (one_tag t ts) = (type_of t ≡ elem) × IsEncodable t × AreElements elem ts

  pub AreEntries : Compound → Type 0
  AreEntries new_compound = Unit
  AreEntries (entry name t c) =
      (length name < 2 ^ 15) × (type_of t ≢ 0) × IsEncodable t × (get name c ≡ none) × AreEntries c
