-- ===== src/Nbt.antt =====
-- nbt/nbt.go: tags, and compounds as ordered maps.
--
-- A number is kept by its low bits, as many as the tag's width, which are all that is written of it. A
-- float is its F64, by the bits: that of a float32 tag too, which need not be a float32.
pub mod Appending
pub mod Encodable
pub mod Entries
pub mod Float
pub mod Stored
pub mod Keeping
pub mod Leaves
pub mod RoundTrip
pub mod Snbt
pub mod Typed
pub mod Reader
pub mod Writer
mod Examples
use lazygate.Prelude.{ℕ, List, Bytes}

mutual
  pub data Tag : Type 0 where
    tag_end : Tag
    tag_byte tag_short tag_int tag_long tag_float tag_double : ℕ → Tag
    tag_byte_array tag_string : Bytes → Tag
    tag_list : ℕ → Tags → Tag
    tag_compound : Compound → Tag
    tag_int_array tag_long_array : List ℕ → Tag

  pub data Tags : Type 0 where
    no_tags : Tags
    one_tag : Tag → Tags → Tags

  pub data Compound : Type 0 where
    new_compound : Compound
    entry : Bytes → Tag → Compound → Compound
