-- ===== src/Nbt/Snbt/Examples.antt =====
-- The parser of SNBT at concrete texts.
use lazygate.Prelude.{[], ◌∷◌, codes, none, ◌≡◌, refl}
use lazygate.Nbt.{
  tag_byte, tag_list, tag_compound, tag_string, no_tags, one_tag, new_compound, entry,
}
use lazygate.Nbt.Reader.{ok, failed}
use lazygate.Nbt.Snbt.Parses.{Parses}
use lazygate.Nbt.Snbt.{parse_snbt}
use lazygate.Nbt.Snbt.Total.{parse_snbt-Parses}
use lazygate.Nbt.Snbt.Scalar.{Floats}

abbrev no_floats : Floats
no_floats = record { parse_float = λ s. none }

small_text :
    parse_snbt no_floats (codes " {\"a\": 1b, \"c\":[{},{} ],\"d\":'x\\n'} ")
    ≡ ok
        (entry (codes "a") (tag_byte 1) (
          entry
            (codes "c")
            (tag_list 10
              (one_tag (tag_compound new_compound) (one_tag (tag_compound new_compound) no_tags)))
            (entry (codes "d") (tag_string (120 ∷ 10 ∷ [])) new_compound)))
        []
unfolding parse_snbt
small_text = refl

trailing_data : parse_snbt no_floats (codes "{} 1") ≡ failed
unfolding parse_snbt
trailing_data = refl

trailing_comma : parse_snbt no_floats (codes "{\"a\":1,}") ≡ failed
unfolding parse_snbt
trailing_comma = refl

parse_snbt-Parses_example : Parses 0 (parse_snbt no_floats (codes "{\"a\":[1,2"))
parse_snbt-Parses_example = parse_snbt-Parses no_floats (codes "{\"a\":[1,2")
