-- ===== src/Nbt/Appending.antt =====
-- nbt/nbt.go: the entries of a compound behind those of another, as `Insert` puts them.
use lazygate.Prelude.{
  Bytes, none, ◌≡◌, refl, arith, some, same_bytes_comm, Bool-cases, same_bytes, inl, inr, ap, ◌∙◌,
  sym,
}
use lazygate.Nbt.{Tag, Compound, new_compound, entry}
use lazygate.Nbt.Entries.{get, insert}

-- The entries of the second behind those of the first.
unfoldable pub append : Compound → Compound → Compound
append new_compound d = d
append (entry name t c) d = entry name t (append c d)

pub append-new : (c : Compound) → append c new_compound ≡ c
unfolding append
append-new new_compound = refl
append-new (entry name t c) = ap (entry name t) (append-new c)

pub append_assoc_entry :
    (c : Compound) (name : Bytes) (t : Tag) (d : Compound)
    → append (append c (entry name t new_compound)) d ≡ append c (entry name t d)
unfolding append
append_assoc_entry new_compound name t d = refl
append_assoc_entry (entry key u c) name t d = ap (entry key u) (append_assoc_entry c name t d)

-- An unknown name goes to the end.
pub insert-new :
    (name : Bytes) (t : Tag) (c : Compound)
    → get name c ≡ none
    → insert name t c ≡ append c (entry name t new_compound)
unfolding insert get append
insert-new name t new_compound h = refl
insert-new name t (entry key u c) h = ground (arith, insert-new name t c)

-- No name of the second compound is one of the first.
abbrev pub AreApart : Compound → Compound → Type 0
AreApart c new_compound = Unit
AreApart c (entry name t d) = (get name c ≡ none) × AreApart c d

get-append : (x : Bytes) (c d : Compound) → get x c ≡ none → get x (append c d) ≡ get x d
unfolding append get
get-append x new_compound d h = refl
get-append x (entry key u c) d h = ground (arith, get-append x c d)

pub AreApart-entry :
    (c : Compound) (name : Bytes) (t : Tag) (d : Compound)
    → get name d ≡ none
    → AreApart c d
    → AreApart (append c (entry name t new_compound)) d
unfolding get
AreApart-entry c name t new_compound h a = tt
AreApart-entry c name t (entry key u d) h a = elim (Bool-cases (same_bytes name key)) [
  | inl same ↦ let bad : some u ≡ none = sym (simp (same) refl) ∙ h in absurd (cc bad)
  | inr other ↦ (
    get-append key c (entry name t new_compound) a.0 ∙ simp (same_bytes_comm key name ∙ other) refl,
    AreApart-entry c name t d (sym (simp (other) refl) ∙ h) a.1,
  )
]

pub AreApart-new : (c : Compound) → AreApart new_compound c
unfolding get
AreApart-new new_compound = tt
AreApart-new (entry name t c) = (refl, AreApart-new c)
