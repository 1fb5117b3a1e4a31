-- ===== src/Proto/Json/Strings.antt =====
-- proto/packets.go: a reader of JSON strings, on what `serdeJSONString` writes.
use lazygate.Prelude.{
  ℕ, zero, suc, ◌+◌, ◌*◌, ◌-◌, ◌<◌, ◌≤◌, ◌&&◌, [], ◌∷◌, ◌++◌, Bytes, Option, none, some,
  if◌then◌else◌, ltb, leb, ◌==◌, length, length-append, ◌>>=◌, ◌≡◌, refl, arith, append_assoc,
}
use lazygate.Proto.Json.{escape_char, escape_loop, serde_json_string}

-- The value of a lower-case hexadecimal digit.
abbrev pub hex_value : ℕ → Option ℕ
hex_value d =
    if leb 48 d && leb d 57
    then some (d - 48)
    else if leb 97 d && leb d 102
    then some (d - 87)
    else none

-- The character that an escape of two characters stands for.
abbrev pub simple_escape : ℕ → Option ℕ
simple_escape e =
    if e == 34
    then some 34
    else if e == 92
    then some 92
    else if e == 98
    then some 8
    else if e == 102
    then some 12
    else if e == 110
    then some 10
    else if e == 114
    then some 13
    else if e == 116
    then some 9
    else none

-- What follows `\u`: two zeros and the two digits of a character.
abbrev pub unicode_escape : Bytes → Option (ℕ × Bytes)
unicode_escape (a ∷ b ∷ c ∷ d ∷ rest) =
    if (a == 48) && (b == 48)
    then (do hi ← hex_value c; lo ← hex_value d; some (hi * 16 + lo, rest))
    else none
unicode_escape _ = none

-- The next character of a string, or its closing quote (`none`).
abbrev pub next_char : Bytes → Option (Option ℕ × Bytes)
next_char [] = none
next_char (c ∷ rest) =
    if c == 34
    then some (none, rest)
    else if c == 92
    then escaped rest
    else if ltb c 32
    then none
    else some (some c, rest)
  where
    escaped : Bytes → Option (Option ℕ × Bytes)
    escaped [] = none
    escaped (e ∷ rest) =
        if e == 117
        then (do (c, r) ← unicode_escape rest; some (some c, r))
        else (do c ← simple_escape e; some (some c, rest))

-- The characters up to the closing quote, with fuel for the characters.
unfoldable pub read_chars : ℕ → Bytes → Option (Bytes × Bytes)
read_chars zero r = none
read_chars (suc fuel) r = elim (next_char r) [
  | none ↦ none
  | some (none, rest) ↦ some ([], rest)
  | some (some c, rest) ↦ elim (read_chars fuel rest) [
    | none ↦ none
    | some (s, rest₂) ↦ some (c ∷ s, rest₂)
  ]
]

-- A JSON string and what follows it.
unfoldable pub read_json_string : Bytes → Option (Bytes × Bytes)
unfolding read_chars
read_json_string [] = none
read_json_string (q ∷ r) = if q == 34 then read_chars (suc (length r)) r else none

next_char-escape_char :
    (c : ℕ) (rest : Bytes) → next_char (escape_char c ++ rest) ≡ some (some c, rest)
unfolding escape_char
next_char-escape_char c rest = ground arith

read_chars-escape_loop :
    (fuel : ℕ) (s rest : Bytes)
    → length s < fuel
    → read_chars fuel (escape_loop s ++ 34 ∷ rest) ≡ some (s, rest)
unfolding read_chars escape_loop
read_chars-escape_loop zero s rest h = ground arith
read_chars-escape_loop (suc fuel) [] rest h = refl
read_chars-escape_loop (suc fuel) (c ∷ s) rest h =
    let ih = read_chars-escape_loop fuel s rest (omega arith) in
    rw
      (
        append_assoc (escape_char c) (escape_loop s) (34 ∷ rest),
        next_char-escape_char c (escape_loop s ++ 34 ∷ rest),
        read_chars,
      )
      (rw ih refl)

length-escape_char : (c : ℕ) → 1 ≤ length (escape_char c)
unfolding escape_char
length-escape_char c = ground arith

length-escape_loop : (s : Bytes) → length s ≤ length (escape_loop s)
unfolding escape_loop
length-escape_loop [] = omega arith
length-escape_loop (c ∷ s) = omega (
  arith,
  length-escape_char c,
  length-escape_loop s,
  length-append (escape_char c) (escape_loop s),
)

-- A JSON reader reads back every string that `serdeJSONString` wrote, with its quotes, backslashes and
-- control characters, whatever follows it.
pub read_json_string-serde_json_string :
    (s rest : Bytes) → read_json_string (serde_json_string s ++ rest) ≡ some (s, rest)
unfolding read_json_string serde_json_string
read_json_string-serde_json_string s rest = rw (append_assoc (escape_loop s) (34 ∷ []) rest) (
    read_chars-escape_loop (suc (length (escape_loop s ++ 34 ∷ rest))) s rest
      (omega (arith, length-escape_loop s, length-append (escape_loop s) (34 ∷ rest))))
