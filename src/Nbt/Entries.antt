-- ===== src/Nbt/Entries.antt =====
-- nbt/nbt.go: `Insert`, `Get`, `Len` and `Names` of a compound.
use lazygate.Prelude.{
  same_bytes, same_bytes_refl, same_bytes-eq, ℕ, ◌+◌, false, List, [], ◌∷◌, Bytes, Option, none,
  some, if◌then◌else◌, ◌≡◌, refl, arith, Bool-cases, inl, inr, ap, sym, ◌∙◌,
}
use lazygate.Nbt.{Tag, Compound, new_compound, entry}

unfoldable pub get : Bytes → Compound → Option Tag
get name new_compound = none
get name (entry key tag c) = let rest = get name c in if same_bytes name key then some tag else rest

-- A known name keeps its place, a new one goes to the end.
unfoldable pub insert : Bytes → Tag → Compound → Compound
insert name tag new_compound = entry name tag new_compound
insert name tag (entry key old c) =
    let rest = insert name tag c in
    if same_bytes name key then entry key tag c else entry key old rest

unfoldable pub names : Compound → List Bytes
names new_compound = []
names (entry key tag c) = key ∷ names c

pub len : Compound → ℕ
len new_compound = 0
len (entry key tag c) = 1 + len c

pub get-insert_same :
    (name : Bytes) (tag : Tag) (c : Compound) → get name (insert name tag c) ≡ some tag
unfolding get insert
get-insert_same name tag new_compound = rw (same_bytes_refl name) refl
get-insert_same name tag (entry key old c) = elim (Bool-cases (same_bytes name key)) [
  | inl same ↦ simp (same) refl
  | inr other ↦ simp (other) (get-insert_same name tag c)
]

pub get-insert_other :
    (name : Bytes) (tag : Tag) (c : Compound) (other : Bytes)
    → same_bytes other name ≡ false
    → get other (insert name tag c) ≡ get other c
unfolding get insert
get-insert_other name tag new_compound other h = simp (h) refl
get-insert_other name tag (entry key old c) other h = elim (Bool-cases (same_bytes name key)) [
  | inl same ↦
      let e = same_bytes-eq name key same in
      let f : same_bytes other key ≡ false = ap (same_bytes other) (sym e) ∙ h in
      simp (same, f) refl
  | inr differs ↦ elim (Bool-cases (same_bytes other key)) [
    | inl this ↦ simp (differs, this) refl
    | inr that ↦ simp (differs, that) (get-insert_other name tag c other h)
  ]
]

insert-names :
    (name : Bytes) (tag : Tag) (c : Compound) (old : Tag)
    → get name c ≡ some old
    → names (insert name tag c) ≡ names c
unfolding get insert names
insert-names name tag new_compound old h = ground arith
insert-names name tag (entry key tag₂ c) old h = elim (Bool-cases (same_bytes name key)) [
  | inl same ↦ simp (same) refl
  | inr other ↦
      simp (other) (ap (λ ks. key ∷ ks) (insert-names name tag c old (sym (simp (other) refl) ∙ h)))
]

-- After `Insert` the name has the new tag, every other name has what it had, and a name that was
-- known keeps the order of the names as it is.
pub insert_lem :
    (name : Bytes) (tag : Tag) (c : Compound)
    → (get name (insert name tag c) ≡ some tag)
      × ((other : Bytes)
          → same_bytes other name ≡ false
          → get other (insert name tag c) ≡ get other c)
      × ((old : Tag) → get name c ≡ some old → names (insert name tag c) ≡ names c)
insert_lem name tag c =
    (get-insert_same name tag c, get-insert_other name tag c, insert-names name tag c)
