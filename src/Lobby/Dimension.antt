-- ===== src/Lobby/Dimension.antt =====
-- mc/dimension.go: the dimension of the lobby world. The embedded default is a parameter: the
-- compound that its text parses to.
use lazygate.Prelude.{
  ℕ, ◌^◌, ◌*◌, Bool, false, List, [], ◌∷◌, Bytes, codes, Option, none, some, if◌then◌else◌,
  same_bytes,
}
use lazygate.Nbt.{Compound}
use lazygate.Nbt.Typed.{
  Got, no_such_key, found, get_str, get_compound, get_compound_vec, clone, insert_byte,
  insert_float, insert_string, insert_long, insert_int, insert_double,
}

-- The getters on a nil compound find nothing.
abbrev pub get_str_of : Option Compound → Bytes → Got Bytes
get_str_of none name = no_such_key
get_str_of (some c) name = get_str c name

abbrev pub get_compound_of : Option Compound → Bytes → Got Compound
get_compound_of none name = no_such_key
get_compound_of (some c) name = get_compound c name

-- `n == name`, if there is a name
abbrev pub is_named : Bytes → Got Bytes → Bool
is_named name (found n) = same_bytes n name
is_named name _ = false

-- The element, if there is one, and else what comes after.
abbrev pub element_or : {A : Type 0} → Got Compound → (Compound → A) → A → A
element_or (found element) use_it later = use_it element
element_or _ use_it later = later

-- The loop over the dimensions for one of the preferred names.
unfoldable pub find_dimension : Bytes → List (Option Compound) → Option Compound
find_dimension name [] = none
find_dimension name (d ∷ ds) =
    let later = find_dimension name ds in
    if is_named name (get_str_of d (codes "name"))
    then element_or (get_compound_of d (codes "element")) some later
    else later

abbrev pub or_else : Option Compound → Option Compound → Option Compound
or_else none later = later
or_else (some c) later = some c

-- The loop over the preferred names.
unfoldable pub find_preferred : List Bytes → List (Option Compound) → Option Compound
unfolding find_dimension
find_preferred [] ds = none
find_preferred (name ∷ names) ds = or_else (find_dimension name ds) (find_preferred names ds)

abbrev pub preferred : List Bytes
preferred =
    codes "minecraft:the_end" ∷ codes "minecraft:the_nether" ∷ codes "minecraft:the_overworld" ∷ []

-- `if len(dimensions) > 0 { … }`, and the fallback
abbrev pub first_dimension : Compound → List (Option Compound) → Compound
first_dimension default [] = default
first_dimension default (d ∷ ds) = element_or (get_compound_of d (codes "element")) clone default

-- A dimension of a preferred name, or the first.
abbrev pub base_of : Compound → List (Option Compound) → Option Compound → Compound
base_of default ds none = first_dimension default ds
base_of default ds (some element) = clone element

abbrev pub base_among : Compound → Got (List (Option Compound)) → Compound
base_among default (found ds) = base_of default ds (find_preferred preferred ds)
base_among default _ = default

unfoldable pub lobby_base_dimension : Compound → Compound → Compound
unfolding get_compound_vec find_preferred
lobby_base_dimension default types = base_among default (get_compound_vec types (codes "value"))

-- 1.0 as an f64
abbrev pub one_f64 : ℕ
one_f64 = 0x3ff * 2 ^ 52

-- The changes to the base, in order.
unfoldable pub lobby_changes : Compound → Compound
lobby_changes base =
    let c₁ = insert_float (codes "ambient_light") 0 (insert_byte (codes "piglin_safe") 1 base) in
    let c₂ =
      insert_byte (codes "has_skylight") 0 (insert_byte (codes "respawn_anchor_works") 0 c₁) in
    let c₃ =
      insert_string (codes "effects") (codes "minecraft:the_end")
        (insert_byte (codes "bed_works") 0 c₂) in
    let c₄ = insert_byte (codes "has_raids") 0 (insert_long (codes "fixed_time") 0 c₃) in
    let c₅ = insert_int (codes "height") 16 (insert_int (codes "min_y") 0 c₄) in
    let c₆ =
      insert_double (codes "coordinate_scale") one_f64
        (insert_int (codes "logical_height") 16 c₅) in
    insert_byte (codes "has_ceiling") 0 (insert_byte (codes "ultrawarm") 0 c₆)

-- The default is returned as it is where the codec has no dimension types.
abbrev pub dimension_from : Compound → Got Compound → Compound
dimension_from default (found types) = lobby_changes (lobby_base_dimension default types)
dimension_from default _ = default

unfoldable pub lobby_dimension : Compound → Compound → Compound
unfolding lobby_changes lobby_base_dimension get_compound
lobby_dimension default codec =
    dimension_from default (get_compound codec (codes "minecraft:dimension_type"))
