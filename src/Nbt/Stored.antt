-- ===== src/Nbt/Stored.antt =====
-- nbt/nbt.go: what the writing keeps of a tag.
use lazygate.Nbt.{
  Tag, tag_end, tag_byte, tag_short, tag_int, tag_long, tag_float, tag_double, tag_byte_array,
  tag_string, tag_list, tag_compound, tag_int_array, tag_long_array, Tags, no_tags, one_tag,
  Compound, new_compound, entry,
}
use lazygate.Nbt.Float.{narrow, widen}

-- Every float of a float32 tag is rounded to a float32; all else stays.
abbrev mutual
  pub stored_tag : Tag → Tag
  stored_tag (tag_float v) = tag_float (widen (narrow v))
  stored_tag (tag_list elem ts) = tag_list elem (stored_tags ts)
  stored_tag (tag_compound c) = tag_compound (stored c)
  stored_tag tag_end = tag_end
  stored_tag (tag_byte v) = tag_byte v
  stored_tag (tag_short v) = tag_short v
  stored_tag (tag_int v) = tag_int v
  stored_tag (tag_long v) = tag_long v
  stored_tag (tag_double v) = tag_double v
  stored_tag (tag_byte_array bs) = tag_byte_array bs
  stored_tag (tag_string s) = tag_string s
  stored_tag (tag_int_array vs) = tag_int_array vs
  stored_tag (tag_long_array vs) = tag_long_array vs

  pub stored_tags : Tags → Tags
  stored_tags no_tags = no_tags
  stored_tags (one_tag t ts) = one_tag (stored_tag t) (stored_tags ts)

  pub stored : Compound → Compound
  stored new_compound = new_compound
  stored (entry name t c) = entry name (stored_tag t) (stored c)
