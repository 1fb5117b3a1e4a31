-- ===== src/Process.antt =====
-- process.go: `shlexSplit`, which cuts the configured command into arguments.
pub mod Quoting
use lazygate.Prelude.{
  ℕ, Bool, true, false, not, ◌&&◌, ◌||◌, List, [], ◌∷◌, ◌++◌, Bytes, Option, none, some,
  if◌then◌else◌, ◌==◌,
}

-- The variables of the loop; `quoted` and `quote` are one option.
pub record Split : Type 0 where
  pub words : List Bytes
  pub cur : Bytes
  pub quote : Option ℕ
  pub in_word : Bool

abbrev pub is_quote : ℕ → Bool
is_quote c = c == 39 || c == 34

abbrev pub is_space : ℕ → Bool
is_space c = c == 32 || c == 9 || c == 10

-- The characters that a backslash escapes in double quotes: `"`, `\`, `$` and the backquote.
abbrev pub is_escaped : ℕ → Bool
is_escaped c = c == 34 || c == 92 || c == 36 || c == 96

abbrev pub push : ℕ → Split → Split
push c s = record s { cur = s.cur ++ c ∷ [] }

abbrev pub push_word : ℕ → Split → Split
push_word c s = record s { cur = s.cur ++ c ∷ []; in_word = true }

-- `if inWord { words = append(words, string(cur)); … }`
abbrev pub end_word : Split → Split
end_word s =
    if s.in_word then record s { words = s.words ++ s.cur ∷ []; cur = []; in_word = false } else s

-- One round of the loop on a character that is not a backslash outside of single quotes.
abbrev pub plain : ℕ → Split → Split
plain c s = elim s.quote [
  | none ↦
      if is_quote c
      then record s { quote = some c; in_word = true }
      else if is_space c
      then end_word s
      else push_word c s
  | some q ↦ if c == q then record s { quote = none; in_word = true } else push_word c s
]

-- The quote in which a backslash is looked at; in single quotes it is a character.
abbrev pub backslash : ℕ → Option ℕ → Bool
backslash c none = c == 92
backslash c (some q) = q == 34 && c == 92

-- A backslash and the character behind it: whether the two are one character.
abbrev pub joins : Option ℕ → ℕ → Bool
joins none d = true
joins (some q) d = is_escaped d

abbrev pub push_joined : Option ℕ → ℕ → Split → Split
push_joined none d s = push_word d s
push_joined (some q) d s = push d s

pub split_loop : Bytes → Split → Split
split_loop [] s = s
split_loop (c ∷ []) s = if backslash c s.quote then push 92 s else plain c s
split_loop (c ∷ d ∷ rest) s =
    let joined = split_loop rest (push_joined s.quote d s) in
    let kept = split_loop (d ∷ rest) (push 92 s) in
    let next = split_loop (d ∷ rest) (plain c s) in
    if backslash c s.quote then (if joins s.quote d then joined else kept) else next

abbrev pub no_split : Split
no_split = record { words = []; cur = []; quote = none; in_word = false }

unfoldable pub shlex_split : Bytes → List Bytes
unfolding split_loop
shlex_split command =
    let s = split_loop command no_split in if s.in_word then s.words ++ s.cur ∷ [] else s.words
