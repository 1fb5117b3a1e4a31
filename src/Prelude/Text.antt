-- ===== src/Prelude/Text.antt =====
-- Equality of byte strings, the library functions on texts that the program calls (on ASCII: other
-- bytes are neither space nor letters), and maps from texts as association lists.
use Prim.Native.Nat.{ℕ, ◌+◌}
use mathlib.Core.Path.{◌≡◌, refl, ap, sym, ◌∙◌}
use mathlib.Core.Logic.{inl, inr}
use mathlib.Core.Bool.{Bool, true, false, ◌&&◌, ◌||◌}
use mathlib.Core.Option.{Option, none, some}
use mathlib.Core.List.{List, [], ◌∷◌, map, reverse}
use native.Mathlib.Omega.{arith}
use lazygate.Prelude.Tests.{leb, ◌==◌, if◌then◌else◌, Bool-cases}
use lazygate.Prelude.Lists.{Bytes}

-- `==` on strings, `bytes.Equal`
abbrev pub same_bytes : Bytes → Bytes → Bool
same_bytes [] [] = true
same_bytes [] (b ∷ bs) = false
same_bytes (a ∷ xs) [] = false
same_bytes (a ∷ xs) (b ∷ ys) = (a == b) && same_bytes xs ys

pub same_bytes_refl : (a : Bytes) → same_bytes a a ≡ true
same_bytes_refl [] = refl
same_bytes_refl (x ∷ a) = ground (arith, same_bytes_refl a)

pub same_bytes-eq : (a b : Bytes) → same_bytes a b ≡ true → a ≡ b
same_bytes-eq [] [] h = refl
same_bytes-eq [] (b ∷ bs) h = ground arith
same_bytes-eq (a ∷ xs) [] h = ground arith
same_bytes-eq (a ∷ xs) (b ∷ ys) h = ground (arith, same_bytes-eq xs ys)

pub same_bytes_comm : (a b : Bytes) → same_bytes a b ≡ same_bytes b a
same_bytes_comm [] [] = refl
same_bytes_comm [] (b ∷ bs) = refl
same_bytes_comm (a ∷ xs) [] = refl
same_bytes_comm (a ∷ xs) (b ∷ ys) = ground (arith, same_bytes_comm xs ys)

abbrev pub is_white : ℕ → Bool
is_white c = c == 32 || (leb 9 c && leb c 13)

abbrev pub trim_left : Bytes → Bytes
trim_left [] = []
trim_left (c ∷ s) = let rest = trim_left s in if is_white c then rest else c ∷ s

-- `strings.TrimSpace`
unfoldable pub trim_space : Bytes → Bytes
trim_space s = reverse (trim_left (reverse (trim_left s)))

abbrev pub lower_char : ℕ → ℕ
lower_char c = if leb 65 c && leb c 90 then c + 32 else c

-- `strings.ToLower`
unfoldable pub to_lower : Bytes → Bytes
to_lower s = map lower_char s

-- `strings.HasPrefix`
abbrev pub has_prefix : Bytes → Bytes → Bool
has_prefix s [] = true
has_prefix [] (p ∷ ps) = false
has_prefix (c ∷ s) (p ∷ ps) = (c == p) && has_prefix s ps

-- `strings.Contains`
unfoldable pub contains : Bytes → Bytes → Bool
contains [] sub = has_prefix [] sub
contains (c ∷ s) sub = has_prefix (c ∷ s) sub || contains s sub

-- `map[string]V`: the first entry of a name counts.
abbrev pub TextMap {ℓ} : Type ℓ → Type ℓ
TextMap V = List (Bytes × V)

module _ {ℓ} {V : Type ℓ} where
  abbrev pub get_text : Bytes → TextMap V → Option V
  get_text k [] = none
  get_text k ((key, v) ∷ m) = let rest = get_text k m in if same_bytes k key then some v else rest

  -- `m[k] = v`
  abbrev pub put_text : Bytes → V → TextMap V → TextMap V
  put_text k v m = (k, v) ∷ m

  -- `delete(m, k)`
  abbrev pub delete_text : Bytes → TextMap V → TextMap V
  delete_text k [] = []
  delete_text k ((key, v) ∷ m) =
      let rest = delete_text k m in if same_bytes k key then rest else (key, v) ∷ rest

  pub get-delete_text :
      (j k : Bytes) (m : TextMap V)
      → get_text j (delete_text k m) ≡ (if same_bytes j k then none else get_text j m)
  get-delete_text j k [] = ground arith
  get-delete_text j k ((key, v) ∷ m) = elim (Bool-cases (same_bytes k key)) [
    | inl gone ↦
        let e = same_bytes-eq k key gone in
        elim (Bool-cases (same_bytes j k)) [
          | inl same ↦ simp (gone, same) (get-delete_text j k m ∙ simp same refl)
          | inr other ↦
              let f : same_bytes j key ≡ false = ap (same_bytes j) (sym e) ∙ other in
              simp (gone, other, f) (get-delete_text j k m ∙ simp other refl)
        ]
    | inr kept ↦ elim (Bool-cases (same_bytes j key)) [
      | inl this ↦
          let e = same_bytes-eq j key this in
          let f : same_bytes j k ≡ false =
            ap (λ x. same_bytes x k) e ∙ same_bytes_comm key k ∙ kept in
          simp (kept, this, f) refl
      | inr that ↦ simp (kept, that) (get-delete_text j k m)
    ]
  ]
