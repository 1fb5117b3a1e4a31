-- ===== src/Lobby/World.antt =====
-- mc/dimension.go: what the lobby's dimension holds.
use lazygate.Prelude.{
  Bool-cases, inl, inr, ◌^◌, ◌<◌, List, [], ◌∷◌, Bytes, codes, Option, none, some, if◌then◌else◌,
  same_bytes, same_bytes-eq, ◌≡◌, ◌≢◌, refl, ap, ◌∙◌, arith, length,
}
use lazygate.Nbt.{Tag, tag_byte, tag_int, tag_long, tag_float, tag_double, tag_string, Compound}
use lazygate.Nbt.Float.{widen}
use lazygate.Nbt.Encodable.{AreEntries, IsEncodable}
use lazygate.Nbt.Entries.{get, insert, get-insert_same, get-insert_other}
use lazygate.Nbt.Keeping.{
  insert-AreEntries, get_compound-AreEntries, get_compound_vec-AreElementEntries, AreElementEntries,
  clone_lem,
}
use lazygate.Nbt.Typed.{
  Got, no_such_key, not_a, found, get_compound, get_compound_vec, get_str, clone,
}
use lazygate.Nbt.Writer.{type_of}
use lazygate.Lobby.Dimension.{
  is_named, element_or, find_dimension, find_preferred, preferred, first_dimension, base_among,
  base_of, or_else, lobby_base_dimension, lobby_changes, dimension_from, lobby_dimension, one_f64,
}

-- What the lobby's world is to be, under each name.
abbrev pub lobby_values : List (Bytes × Tag)
lobby_values =
    (codes "piglin_safe", tag_byte 1)
    ∷ (codes "ambient_light", tag_float (widen 0))
    ∷ (codes "respawn_anchor_works", tag_byte 0)
    ∷ (codes "has_skylight", tag_byte 0)
    ∷ (codes "bed_works", tag_byte 0)
    ∷ (codes "effects", tag_string (codes "minecraft:the_end"))
    ∷ (codes "fixed_time", tag_long 0)
    ∷ (codes "has_raids", tag_byte 0)
    ∷ (codes "min_y", tag_int 0)
    ∷ (codes "height", tag_int 16)
    ∷ (codes "logical_height", tag_int 16)
    ∷ (codes "coordinate_scale", tag_double one_f64)
    ∷ (codes "ultrawarm", tag_byte 0)
    ∷ (codes "has_ceiling", tag_byte 0)
    ∷ []

insert_all : List (Bytes × Tag) → Compound → Compound
insert_all [] c = c
insert_all ((name, t) ∷ l) c = insert_all l (insert name t c)

-- The value of a name in a list whose later entries count, and else another.
abbrev pub value_in : List (Bytes × Tag) → Bytes → Option Tag → Option Tag
value_in [] name other = other
value_in ((key, t) ∷ l) name other = value_in l name (if same_bytes name key then some t else other)

get-insert :
    (key : Bytes) (t : Tag) (c : Compound) (name : Bytes)
    → get name (insert key t c) ≡ (if same_bytes name key then some t else get name c)
get-insert key t c name = elim (Bool-cases (same_bytes name key)) [
  | inl same ↦ rw same (rw (same_bytes-eq name key same) (get-insert_same key t c))
  | inr other ↦ rw other (get-insert_other key t c name other)
]

get-insert_all :
    (l : List (Bytes × Tag)) (c : Compound) (name : Bytes)
    → get name (insert_all l c) ≡ value_in l name (get name c)
unfolding insert_all
get-insert_all [] c name = refl
get-insert_all ((key, t) ∷ l) c name =
    get-insert_all l (insert key t c) name ∙ ap (value_in l name) (get-insert key t c name)

-- All values can be written down.
abbrev AreValues : List (Bytes × Tag) → Type 0
AreValues [] = Unit
AreValues ((name, t) ∷ l) = ((length name < 2 ^ 15) × (type_of t ≢ 0) × IsEncodable t) × AreValues l

insert_all-AreEntries :
    (l : List (Bytes × Tag)) (c : Compound)
    → AreValues l
    → AreEntries c
    → AreEntries (insert_all l c)
unfolding insert_all
insert_all-AreEntries [] c v h = h
insert_all-AreEntries ((name, t) ∷ l) c v h =
    insert_all-AreEntries l (insert name t c) v.1 (insert-AreEntries name t c v.0.0 v.0.1 v.0.2 h)

lobby_changes-insert_all : (base : Compound) → lobby_changes base ≡ insert_all lobby_values base
unfolding lobby_changes insert_all
lobby_changes-insert_all base = refl

lobby_values-AreValues : AreValues lobby_values
lobby_values-AreValues = omega arith

lobby_changes-AreEntries : (base : Compound) → AreEntries base → AreEntries (lobby_changes base)
lobby_changes-AreEntries base h =
    rw (lobby_changes-insert_all base)
      (insert_all-AreEntries lobby_values base lobby_values-AreValues h)

-- What an element leads to can be written down, whichever way.
abbrev FoundEntries : Got Compound → Type 0
FoundEntries (found d) = AreEntries d
FoundEntries _ = Unit

get_compound-FoundEntries :
    (c : Compound) (name : Bytes) → AreEntries c → FoundEntries (get_compound c name)
get_compound-FoundEntries c name h = split (get_compound c name) refl
  where
    split : (g : Got Compound) → get_compound c name ≡ g → FoundEntries g
    split (found d) e = get_compound-AreEntries c name h e
    split no_such_key e = tt
    split not_a e = tt

-- An element that is used, or what comes later, keeps what both keep.
abbrev Some : Option Compound → Type 0
Some none = Unit
Some (some d) = AreEntries d

element_or-Some :
    (g : Got Compound) (later : Option Compound)
    → FoundEntries g
    → Some later
    → Some (element_or g some later)
element_or-Some (found d) later h k = h
element_or-Some no_such_key later h k = k
element_or-Some not_a later h k = k

find_dimension-Some :
    (name : Bytes) (ds : List (Option Compound))
    → AreElementEntries ds
    → Some (find_dimension name ds)
unfolding find_dimension
find_dimension-Some name [] h = tt
find_dimension-Some name (none ∷ ds) h = find_dimension-Some name ds h
find_dimension-Some name (some d ∷ ds) h =
    elim (Bool-cases (is_named name (get_str d (codes "name")))) [
      | inl this ↦ rw this (
          element_or-Some (get_compound d (codes "element")) (find_dimension name ds)
            (get_compound-FoundEntries d (codes "element") h.0) (find_dimension-Some name ds h.1))
      | inr that ↦ rw that (find_dimension-Some name ds h.1)
    ]

or_else-Some : (o later : Option Compound) → Some o → Some later → Some (or_else o later)
or_else-Some none later h k = k
or_else-Some (some d) later h k = h

find_preferred-Some :
    (names : List Bytes) (ds : List (Option Compound))
    → AreElementEntries ds
    → Some (find_preferred names ds)
unfolding find_preferred
find_preferred-Some [] ds h = tt
find_preferred-Some (name ∷ names) ds h =
    or_else-Some (find_dimension name ds) (find_preferred names ds) (find_dimension-Some name ds h)
      (find_preferred-Some names ds h)

clone-AreEntries : (c : Compound) → AreEntries c → AreEntries (clone c)
clone-AreEntries c h = rw (clone_lem c h) h

element_or-clone :
    (g : Got Compound) (default : Compound)
    → FoundEntries g
    → AreEntries default
    → AreEntries (element_or g clone default)
element_or-clone (found d) default h k = clone-AreEntries d h
element_or-clone no_such_key default h k = k
element_or-clone not_a default h k = k

module _ (default : Compound) (fits : AreEntries default) where
  first_dimension-AreEntries :
      (ds : List (Option Compound)) → AreElementEntries ds → AreEntries (first_dimension default ds)
  first_dimension-AreEntries [] h = fits
  first_dimension-AreEntries (none ∷ ds) h = fits
  first_dimension-AreEntries (some d ∷ ds) h =
      element_or-clone (get_compound d (codes "element")) default
        (get_compound-FoundEntries d (codes "element") h.0) fits

  lobby_base_dimension-AreEntries :
      (types : Compound) → AreEntries types → AreEntries (lobby_base_dimension default types)
  unfolding lobby_base_dimension
  lobby_base_dimension-AreEntries types h = split (get_compound_vec types (codes "value")) refl
    where
      among :
          (ds : List (Option Compound)) (o : Option Compound)
          → AreElementEntries ds
          → Some o
          → AreEntries (base_of default ds o)
      among ds none h k = first_dimension-AreEntries ds h
      among ds (some d) h k = clone-AreEntries d k

      split :
          (g : Got (List (Option Compound)))
          → get_compound_vec types (codes "value") ≡ g
          → AreEntries (base_among default g)
      split (found ds) e =
          let fit = get_compound_vec-AreElementEntries types (codes "value") h e in
          among ds (find_preferred preferred ds) fit (find_preferred-Some preferred ds fit)
      split no_such_key e = fits
      split not_a e = fits

  pub lobby_dimension-AreEntries :
      (codec : Compound) → AreEntries codec → AreEntries (lobby_dimension default codec)
  unfolding lobby_dimension
  lobby_dimension-AreEntries codec h =
      split (get_compound codec (codes "minecraft:dimension_type"))
        (get_compound-FoundEntries codec (codes "minecraft:dimension_type") h)
    where
      split : (g : Got Compound) → FoundEntries g → AreEntries (dimension_from default g)
      split (found types) k =
          lobby_changes-AreEntries (lobby_base_dimension default types)
            (lobby_base_dimension-AreEntries types k)
      split no_such_key k = fits
      split not_a k = fits

-- Where the codec has dimension types, the lobby's dimension has the lobby's value under each of the
-- fourteen names, and under every other name what the chosen base has.
pub get-lobby_dimension :
    (default codec types : Compound) (name : Bytes)
    → get_compound codec (codes "minecraft:dimension_type") ≡ found types
    → get name (lobby_dimension default codec)
      ≡ value_in lobby_values name (get name (lobby_base_dimension default types))
unfolding lobby_dimension
get-lobby_dimension default codec types name e = rw e (
    rw (lobby_changes-insert_all (lobby_base_dimension default types))
      (get-insert_all lobby_values (lobby_base_dimension default types) name))
