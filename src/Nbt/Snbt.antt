-- ===== src/Nbt/Snbt.antt =====
-- nbt/nbt.go: `ParseSNBT`. A parser is its unread text; an error of any text is `failed`. Of a number the
-- tag keeps the word of its width. `strconv.ParseFloat` and the conversion to an f32 are parameters.
pub mod Scalar
pub mod Parses
pub mod Total
pub mod Quoted
mod Examples
use lazygate.Prelude.{
  ℕ, zero, suc, ◌+◌, ◌*◌, ◌-◌, ◌%◌, ◌^◌, Bool, true, false, not, ◌&&◌, ◌||◌, List, [], ◌∷◌, ◌++◌,
  Bytes, codes, Option, none, some, if◌then◌else◌, ltb, ◌==◌, length, drop, get_or, trim_space,
  same_bytes,
}
use lazygate.Nbt.{
  Tag, tag_byte_array, tag_string, tag_list, tag_compound, tag_int_array, tag_long_array, Tags,
  no_tags, one_tag, Compound, new_compound,
}
use lazygate.Nbt.Entries.{insert}
use lazygate.Nbt.Reader.{Result, failed, ok, stuck, and_then, as_tag}
use lazygate.Nbt.Snbt.Scalar.{
  Floats, is_blank, skip_ws, head_until, rest_until, parse_int, trim_suffix, parse_scalar,
}
use lazygate.Nbt.Writer.{type_of}

-- `peek`: 0 at the end
abbrev pub peek : Bytes → ℕ
peek s = get_or s 0 0

abbrev pub is_quote : ℕ → Bool
is_quote c = c == 34 || (c == 39)

-- What an escape stands for: itself, but for `n`, `t`, `r`, `b` and `f`.
abbrev pub unescape : ℕ → ℕ
unescape c =
    if c == b'n'
    then 10
    else if c == b't'
    then 9
    else if c == b'r'
    then 13
    else if c == b'b'
    then 8
    else if c == b'f'
    then 12
    else c

abbrev pub prepend : ℕ → Result Bytes → Result Bytes
prepend c m = and_then m (λ s r. ok (c ∷ s) r)

-- The loop of `parseQuotedString`, behind the quote.
unfoldable pub quoted : ℕ → Bytes → Result Bytes
quoted quote [] = failed
quoted quote (c ∷ []) = if c == 92 then failed else if c == quote then ok [] [] else failed
quoted quote (c ∷ d ∷ s) =
    let escaped = prepend (unescape d) (quoted quote s) in
    let plain = prepend c (quoted quote (d ∷ s)) in
    if c == 92 then escaped else if c == quote then ok [] (d ∷ s) else plain

-- A key: quoted, or up to `:`, `,` or `}`.
abbrev pub is_key_end : ℕ → Bool
is_key_end c = c == b':' || (c == b',') || (c == b'}')

unfoldable pub parse_key : Bytes → Result Bytes
unfolding quoted
parse_key s =
    if is_quote (peek s)
    then quoted (peek s) (drop 1 s)
    else if length (head_until is_key_end s) == 0
    then failed
    else ok (trim_space (head_until is_key_end s)) (rest_until is_key_end s)

-- The loop of `parseCompound`, over a parser of the values. Each round reads a `:`.
unfoldable pub compound_loop : (Bytes → Result Tag) → ℕ → Compound → Bytes → Result Tag
unfolding parse_key skip_ws insert
compound_loop value zero c s = stuck
compound_loop value (suc n) c s = and_then (parse_key (skip_ws s)) (λ key r.
    let r₂ = skip_ws r in
    if not (peek r₂ == b':')
    then failed
    else and_then (value (drop 1 r₂)) (λ v r₃.
      let r₄ = skip_ws r₃ in
      let c₂ = insert key v c in
      let again = compound_loop value n c₂ (drop 1 r₄) in
      if peek r₄ == b','
      then again
      else if peek r₄ == b'}'
      then ok (tag_compound c₂) (drop 1 r₄)
      else failed))

-- `parseCompound`, behind the brace
unfoldable pub parse_compound : (Bytes → Result Tag) → Bytes → Result Tag
unfolding compound_loop
parse_compound value s =
    let t = skip_ws s in
    if peek t == b'}'
    then ok (tag_compound new_compound) (drop 1 t)
    else compound_loop value (suc (length t)) new_compound t

abbrev pub is_element_end : ℕ → Bool
is_element_end c = c == b',' || (c == b']')

abbrev pub with_element : Option ℕ → (ℕ → Result (List ℕ)) → Result (List ℕ)
with_element none next = failed
with_element (some v) next = next v

-- The loop of a typed array, over a parser of its elements. Each round but the last reads a `,`.
unfoldable pub array_loop : (Bytes → Option ℕ) → ℕ → List ℕ → Bytes → Result (List ℕ)
unfolding skip_ws
array_loop elem zero acc s = stuck
array_loop elem (suc n) acc s =
    let t = skip_ws s in
    let r = skip_ws (rest_until is_element_end t) in
    with_element (elem (trim_space (head_until is_element_end t))) (λ v.
      let again = array_loop elem n (acc ++ v ∷ []) (drop 1 r) in
      if peek r == b','
      then again
      else if peek r == b']'
      then ok (acc ++ v ∷ []) (drop 1 r)
      else failed)

-- The elements by the letter: B, I or L.
abbrev pub byte_element : Bytes → Option ℕ
byte_element raw = parse_int 8 (trim_suffix b'b' raw)

abbrev pub int_element : Bytes → Option ℕ
int_element raw = parse_int 32 raw

abbrev pub long_element : Bytes → Option ℕ
long_element raw = parse_int 64 (trim_suffix b'L' raw)

-- A typed array behind its mark.
unfoldable pub parse_array : ℕ → Bytes → Result Tag
unfolding array_loop parse_int
parse_array letter s =
    let t = skip_ws s in
    let empty = peek t == b']' in
    let rounds = suc (length t) in
    if letter == b'B'
    then as_tag tag_byte_array
        (if empty then ok [] (drop 1 t) else array_loop byte_element rounds [] t)
    else if letter == b'I'
    then as_tag tag_int_array
        (if empty then ok [] (drop 1 t) else array_loop int_element rounds [] t)
    else as_tag tag_long_array
        (if empty then ok [] (drop 1 t) else array_loop long_element rounds [] t)

abbrev pub add_tag : Tags → Tag → Tags
add_tag no_tags t = one_tag t no_tags
add_tag (one_tag u ts) t = one_tag u (add_tag ts t)

-- `first`, or the type of the list
abbrev pub is_of_type : Option ℕ → Tag → Bool
is_of_type none t = true
is_of_type (some elem) t = type_of t == elem

-- The loop of a list. Each round but the last reads a `,`.
unfoldable pub list_loop : (Bytes → Result Tag) → ℕ → Option ℕ → Tags → Bytes → Result Tag
unfolding skip_ws
list_loop value zero elem acc s = stuck
list_loop value (suc n) elem acc s = and_then (value (skip_ws s)) (λ v r.
    if not (is_of_type elem v)
    then failed
    else (let t = skip_ws r in
        let acc₂ = add_tag acc v in
        let again = list_loop value n (some (type_of v)) acc₂ (drop 1 t) in
        if peek t == b','
        then again
        else if peek t == b']'
        then ok (tag_list (type_of v) acc₂) (drop 1 t)
        else failed))

abbrev pub is_array_letter : ℕ → Bool
is_array_letter c = c == b'B' || (c == b'I') || (c == b'L')

-- `parseListOrArray`, behind the bracket
unfoldable pub parse_list_or_array : (Bytes → Result Tag) → Bytes → Result Tag
unfolding parse_array list_loop
parse_list_or_array value s =
    let t = skip_ws s in
    if ltb 1 (length t) && is_array_letter (peek t) && (get_or t 1 0 == b';')
    then parse_array (peek t) (drop 2 t)
    else if peek t == b']'
    then ok (tag_list 0 no_tags) (drop 1 t)
    else list_loop value (suc (length t)) none no_tags t

module _ (floats : Floats) where
  -- The switch of `parseValue`, over the parser of nested values.
  abbrev pub parse_at : (Bytes → Result Tag) → Bytes → Result Tag
  parse_at value [] = failed
  parse_at value (c ∷ s) =
      if c == b'{'
      then parse_compound value s
      else if c == b'['
      then parse_list_or_array value s
      else if is_quote c
      then as_tag tag_string (quoted c s)
      else parse_scalar floats (c ∷ s)

  -- `parseValue` with fuel for the depth of nesting.
  unfoldable pub parse_value : ℕ → Bytes → Result Tag
  unfolding parse_compound parse_list_or_array quoted parse_scalar skip_ws
  parse_value zero s = stuck
  parse_value (suc depth) s = parse_at (parse_value depth) (skip_ws s)

  -- After the spaces: the compound with what is left, or the error if anything is.
  abbrev pub whole_compound : Tag → Bytes → Result Compound
  whole_compound (tag_compound c) r = if length r == 0 then ok c r else failed
  whole_compound _ r = failed

  -- A nested value stands behind a byte, so that the length bounds the depth. `stuck` is fuel that ran out.
  unfoldable pub parse_snbt : Bytes → Result Compound
  unfolding parse_value
  parse_snbt s =
      and_then (parse_value (suc (length s)) (skip_ws s)) (λ t r. whole_compound t (skip_ws r))
