-- ===== src/Process/Quoting.antt =====
-- process.go: `shlexSplit` on command lines whose words are quoted.
use lazygate.Prelude.{
  ℕ, Bool, true, false, List, [], ◌∷◌, ◌++◌, Bytes, Option, none, some, if◌then◌else◌, ◌==◌, ◌≡◌,
  refl, sym, ap, ◌∙◌, arith, append_assoc, append-nil, Bool-cases, inl, inr,
}
use lazygate.Process.{Split, is_escaped, backslash, plain, split_loop, shlex_split}

-- A word with a backslash before each character that needs one in double quotes.
unfoldable pub escape : Bytes → Bytes
escape [] = []
escape (c ∷ w) = let rest = escape w in if is_escaped c then 92 ∷ c ∷ rest else c ∷ rest

-- The words in double quotes, a space behind each.
unfoldable pub command_line : List Bytes → Bytes
command_line [] = []
command_line (w ∷ ws) = 34 ∷ escape w ++ 34 ∷ 32 ∷ command_line ws

abbrev at : List Bytes → Bytes → Option ℕ → Bool → Split
at words cur quote in_word = record { words = words; cur = cur; quote = quote; in_word = in_word }

split_loop-plain :
    (c : ℕ) (xs : Bytes) (s : Split)
    → backslash c s.quote ≡ false
    → split_loop (c ∷ xs) s ≡ split_loop xs (plain c s)
unfolding split_loop
split_loop-plain c [] s h = simp (h) refl
split_loop-plain c (d ∷ xs) s h = simp (h) refl

split_loop-escaped :
    (d : ℕ) (xs cur : Bytes) (words : List Bytes)
    → is_escaped d ≡ true
    → split_loop (92 ∷ d ∷ xs) (at words cur (some 34) true)
      ≡ split_loop xs (at words (cur ++ d ∷ []) (some 34) true)
unfolding split_loop
split_loop-escaped d xs cur words h = simp (h) refl

plain-quoted :
    (c : ℕ) (cur : Bytes) (words : List Bytes)
    → is_escaped c ≡ false
    → plain c (at words cur (some 34) true) ≡ at words (cur ++ c ∷ []) (some 34) true
plain-quoted c cur words h = let e : (c == 34) ≡ false = ground arith in simp (e) refl

split_loop-escape :
    (w rest cur : Bytes) (words : List Bytes)
    → split_loop (escape w ++ 34 ∷ rest) (at words cur (some 34) true)
      ≡ split_loop rest (at words (cur ++ w) none true)
unfolding escape
split_loop-escape [] rest cur words =
    split_loop-plain 34 rest (at words cur (some 34) true) refl
    ∙ ap (λ c. split_loop rest (at words c none true)) (sym (append-nil cur))
split_loop-escape (c ∷ w) rest cur words = elim (Bool-cases (is_escaped c)) [
  | inl e ↦ simp (e) (
      split_loop-escaped c (escape w ++ 34 ∷ rest) cur words e
      ∙ split_loop-escape w rest (cur ++ c ∷ []) words
      ∙ ap (λ x. split_loop rest (at words x none true)) (append_assoc cur (c ∷ []) w))
  | inr e ↦ simp (e) (
      split_loop-plain c (escape w ++ 34 ∷ rest) (at words cur (some 34) true) (ground arith)
      ∙ ap (split_loop (escape w ++ 34 ∷ rest)) (plain-quoted c cur words e)
      ∙ split_loop-escape w rest (cur ++ c ∷ []) words
      ∙ ap (λ x. split_loop rest (at words x none true)) (append_assoc cur (c ∷ []) w))
]

split_loop-command_line :
    (ws words : List Bytes)
    → split_loop (command_line ws) (at words [] none false) ≡ at (words ++ ws) [] none false
unfolding split_loop command_line
split_loop-command_line [] words = ap (λ x. at x [] none false) (sym (append-nil words))
split_loop-command_line (w ∷ ws) words =
    split_loop-plain 34 (escape w ++ 34 ∷ 32 ∷ command_line ws) (at words [] none false) refl
    ∙ split_loop-escape w (32 ∷ command_line ws) [] words
    ∙ split_loop-plain 32 (command_line ws) (at words w none true) refl
    ∙ split_loop-command_line ws (words ++ w ∷ [])
    ∙ ap (λ x. at x [] none false) (append_assoc words (w ∷ []) ws)

-- A command line of any words, each in double quotes with a backslash before `"`, `\`, `$` and the
-- backquote, and a space behind each, is cut into exactly these words, empty ones and those with spaces and
-- quotes of either kind included.
pub shlex_split-command_line : (ws : List Bytes) → shlex_split (command_line ws) ≡ ws
unfolding shlex_split
shlex_split-command_line ws = rw (split_loop-command_line ws []) refl
