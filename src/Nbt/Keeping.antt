-- ===== src/Nbt/Keeping.antt =====
-- nbt/nbt.go: what can be written down under `Insert`, `Clone` and the getters.
use mathlib.Core.Path.{subst}
use lazygate.Prelude.{
  Option-cases, ℕ, ◌^◌, ◌<◌, Bytes, List, [], ◌∷◌, Option, none, some, same_bytes, same_bytes_comm,
  length, Bool-cases, inl, inr, ◌≡◌, ◌≢◌, refl, ap, sym, ◌∙◌,
}
use mathlib.Core.Option.{some-injective}
use lazygate.Nbt.{
  Tag, tag_end, tag_byte, tag_short, tag_int, tag_long, tag_float, tag_double, tag_byte_array,
  tag_string, tag_int_array, tag_long_array, tag_list, tag_compound, Tags, no_tags, one_tag,
  Compound, new_compound, entry,
}
use lazygate.Nbt.Appending.{
  append, append-new, append_assoc_entry, insert-new, AreApart, AreApart-entry, AreApart-new,
}
use lazygate.Nbt.Encodable.{IsEncodable, AreElements, AreEntries}
use lazygate.Nbt.Entries.{get, insert, get-insert_other}
use lazygate.Nbt.Typed.{
  found, get_compound, compound_of, get_compound_vec, vec_of, elements, clone, clone_tag,
  clone_tags, clone_into,
}
use lazygate.Nbt.Writer.{type_of}

pub insert-AreEntries :
    (name : Bytes) (t : Tag) (c : Compound)
    → length name < 2 ^ 15
    → type_of t ≢ 0
    → IsEncodable t
    → AreEntries c
    → AreEntries (insert name t c)
unfolding insert get
insert-AreEntries name t new_compound short tagged fits h = (short, tagged, fits, refl, tt)
insert-AreEntries name t (entry key u c) short tagged fits h =
    elim (Bool-cases (same_bytes name key)) [
      | inl same ↦ simp (same) (h.0, tagged, fits, h.3, h.4)
      | inr other ↦ simp (other) (
        h.0,
        h.1,
        h.2,
        get-insert_other name t c key (same_bytes_comm key name ∙ other) ∙ h.3,
        insert-AreEntries name t c short tagged fits h.4,
      )
    ]

pub get-IsEncodable :
    (name : Bytes) (c : Compound) (t : Tag) → AreEntries c → get name c ≡ some t → IsEncodable t
unfolding get
get-IsEncodable name new_compound t h e = absurd (cc e)
get-IsEncodable name (entry key u c) t h e = elim (Bool-cases (same_bytes name key)) [
  | inl same ↦ subst IsEncodable (some-injective _ _ (sym (simp (same) refl) ∙ e)) h.2
  | inr other ↦ get-IsEncodable name c t h.4 (sym (simp (other) refl) ∙ e)
]

-- A clone is the same compound: the names are distinct, so that each goes behind the others.
mutual
  unfolding clone_into append

  clone_tag_lem : (t : Tag) → IsEncodable t → clone_tag t ≡ t
  clone_tag_lem tag_end h = refl
  clone_tag_lem (tag_byte v) h = refl
  clone_tag_lem (tag_short v) h = refl
  clone_tag_lem (tag_int v) h = refl
  clone_tag_lem (tag_long v) h = refl
  clone_tag_lem (tag_float v) h = refl
  clone_tag_lem (tag_double v) h = refl
  clone_tag_lem (tag_byte_array bs) h = refl
  clone_tag_lem (tag_string s) h = refl
  clone_tag_lem (tag_list elem ts) h = ap (tag_list elem) (clone_tags_lem ts elem h.1)
  clone_tag_lem (tag_compound c) h =
      ap tag_compound (clone_into_lem c new_compound h (AreApart-new c))
  clone_tag_lem (tag_int_array vs) h = refl
  clone_tag_lem (tag_long_array vs) h = refl

  clone_tags_lem : (ts : Tags) (elem : ℕ) → AreElements elem ts → clone_tags ts ≡ ts
  clone_tags_lem no_tags elem h = refl
  clone_tags_lem (one_tag t ts) elem h = rw (clone_tag_lem t h.1, clone_tags_lem ts elem h.2) refl

  clone_into_lem :
      (c out : Compound) → AreEntries c → AreApart out c → clone_into out c ≡ append out c
  clone_into_lem new_compound out h a = sym (append-new out)
  clone_into_lem (entry name t c) out h a =
      rw (clone_tag_lem t h.2, insert-new name t out a.0)
        (clone_into_lem c (append out (entry name t new_compound)) h.4
            (AreApart-entry out name t c h.3 a.1)
          ∙ append_assoc_entry out name t c)

pub clone_lem : (c : Compound) → AreEntries c → clone c ≡ c
unfolding clone append
clone_lem c h = clone_into_lem c new_compound h (AreApart-new c)

-- What is looked up can be written down.
abbrev Looked : Option Tag → Type 0
Looked none = Unit
Looked (some t) = IsEncodable t

get-Looked : (name : Bytes) (c : Compound) → AreEntries c → Looked (get name c)
get-Looked name c h = elim (Option-cases (get name c)) [
  | inl missing ↦ rw missing tt
  | inr (t, there) ↦ rw there (get-IsEncodable name c t h there)
]

compound_of-AreEntries :
    (o : Option Tag) {d : Compound} → Looked o → compound_of o ≡ found d → AreEntries d
compound_of-AreEntries none l e = absurd (cc e)
compound_of-AreEntries (some (tag_compound c)) {d} l e =
    let same : c ≡ d = cc in subst AreEntries same l
compound_of-AreEntries (some t) l e = absurd (cc e)

pub get_compound-AreEntries :
    (c : Compound) (name : Bytes) {d : Compound}
    → AreEntries c
    → get_compound c name ≡ found d
    → AreEntries d
unfolding get_compound
get_compound-AreEntries c name h e = compound_of-AreEntries (get name c) (get-Looked name c h) e

-- Each compound of a list can be written down.
abbrev pub AreElementEntries : List (Option Compound) → Type 0
AreElementEntries [] = Unit
AreElementEntries (none ∷ ds) = AreElementEntries ds
AreElementEntries (some d ∷ ds) = AreEntries d × AreElementEntries ds

elements-AreElementEntries :
    (elem : ℕ) (ts : Tags) → AreElements elem ts → AreElementEntries (elements ts)
elements-AreElementEntries elem no_tags h = tt
elements-AreElementEntries elem (one_tag (tag_compound c) ts) h =
    (h.1, elements-AreElementEntries elem ts h.2)
elements-AreElementEntries elem (one_tag t ts) h = elements-AreElementEntries elem ts h.2

vec_of-AreElementEntries :
    (o : Option Tag) {ds : List (Option Compound)}
    → Looked o
    → vec_of o ≡ found ds
    → AreElementEntries ds
vec_of-AreElementEntries none l e = absurd (cc e)
vec_of-AreElementEntries (some (tag_list elem ts)) {ds} l e =
    let same : elements ts ≡ ds = cc in
    subst AreElementEntries same (elements-AreElementEntries elem ts l.1)
vec_of-AreElementEntries (some t) l e = absurd (cc e)

pub get_compound_vec-AreElementEntries :
    (c : Compound) (name : Bytes) {ds : List (Option Compound)}
    → AreEntries c
    → get_compound_vec c name ≡ found ds
    → AreElementEntries ds
unfolding get_compound_vec
get_compound_vec-AreElementEntries c name h e =
    vec_of-AreElementEntries (get name c) (get-Looked name c h) e
