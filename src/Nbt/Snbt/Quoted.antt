-- ===== src/Nbt/Snbt/Quoted.antt =====
-- nbt/nbt.go: `parseQuotedString` on a text in quotes.
use lazygate.Prelude.{
  ℕ, true, false, ◌||◌, [], ◌∷◌, ◌++◌, Bytes, if◌then◌else◌, ◌==◌, ◌≡◌, refl, arith, ap, ◌∙◌,
  Bool-cases, inl, inr,
}
use lazygate.Nbt.Reader.{ok}
use lazygate.Nbt.Snbt.{is_quote, quoted, prepend, unescape}

-- The quote and the backslash get a backslash.
unfoldable pub escape_all : ℕ → Bytes → Bytes
escape_all quote [] = []
escape_all quote (c ∷ s) =
    (if c == 92 || (c == quote) then 92 ∷ c ∷ [] else c ∷ []) ++ escape_all quote s

quoted-plain :
    (quote c : ℕ) (s : Bytes)
    → (c == 92 || (c == quote)) ≡ false
    → quoted quote (c ∷ s) ≡ prepend c (quoted quote s)
unfolding quoted
quoted-plain quote c [] h = ground arith
quoted-plain quote c (d ∷ s) h =
    let slash : (c == 92) ≡ false = ground arith in
    let other : (c == quote) ≡ false = ground arith in rw (slash, other) refl

quoted-end :
    (quote : ℕ) (rest : Bytes) → is_quote quote ≡ true → quoted quote (quote ∷ rest) ≡ ok [] rest
unfolding quoted
quoted-end quote [] h = ground arith
quoted-end quote (d ∷ rest) h =
    let slash : (quote == 92) ≡ false = ground arith in
    let same : (quote == quote) ≡ true = ground arith in rw (slash, same) refl

quoted-escaped :
    (quote c : ℕ) (s : Bytes)
    → is_quote quote ≡ true
    → (c == 92 || (c == quote)) ≡ true
    → quoted quote (92 ∷ c ∷ s) ≡ prepend c (quoted quote s)
unfolding quoted
quoted-escaped quote c s q h =
    let itself : unescape c ≡ c = ground arith in ap (λ d. prepend d (quoted quote s)) itself

-- A text in quotes of either kind, with a backslash before each backslash and each quote of that kind, is
-- read back, whatever follows the closing quote.
pub quoted-escape_all :
    (quote : ℕ) (s rest : Bytes)
    → is_quote quote ≡ true
    → quoted quote (escape_all quote s ++ (quote ∷ rest)) ≡ ok s rest
unfolding escape_all
quoted-escape_all quote [] rest q = quoted-end quote rest q
quoted-escape_all quote (c ∷ s) rest q = elim (Bool-cases (c == 92 || (c == quote))) [
  | inl special ↦ rw special (
      quoted-escaped quote c (escape_all quote s ++ (quote ∷ rest)) q special
      ∙ ap (prepend c) (quoted-escape_all quote s rest q))
  | inr plain ↦ rw plain (
      quoted-plain quote c (escape_all quote s ++ (quote ∷ rest)) plain
      ∙ ap (prepend c) (quoted-escape_all quote s rest q))
]
