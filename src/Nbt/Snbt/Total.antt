-- ===== src/Nbt/Snbt/Total.antt =====
-- nbt/nbt.go: the depth and the rounds of `ParseSNBT`, against the text that is left.
use lazygate.Prelude.{
  ℕ, zero, suc, ◌-◌, ◌≤◌, ◌<◌, Bool, true, false, not, ◌&&◌, List, [], ◌∷◌, ◌++◌, Bytes, Option,
  none, some, if◌then◌else◌, ltb, ◌==◌, length, length-drop, drop, get_or, trim_space, ◌≡◌, refl,
  Bool-cases, inl, inr, arith,
}
use lazygate.Nbt.{
  Tag, tag_end, tag_byte, tag_short, tag_int, tag_long, tag_float, tag_double, tag_byte_array,
  tag_string, tag_list, tag_compound, tag_int_array, tag_long_array, Tags, no_tags, Compound,
  new_compound,
}
use lazygate.Nbt.Entries.{insert}
use lazygate.Nbt.Reader.{Result, failed, ok}
use lazygate.Nbt.Snbt.Parses.{
  Parses, failed_parses, ok_parses, and_then-Parses, Parses-more, if-Parses, as_tag-Parses,
}
use lazygate.Nbt.Snbt.{
  peek, quoted, prepend, unescape, is_key_end, parse_key, compound_loop, parse_compound,
  is_element_end, with_element, array_loop, byte_element, int_element, long_element, parse_array,
  add_tag, is_of_type, list_loop, parse_list_or_array, parse_at, parse_value, whole_compound,
  parse_snbt, is_quote, is_array_letter,
}
use lazygate.Nbt.Snbt.Scalar.{
  Floats, skip_ws, head_until, rest_until, tag_or_failed, scalar_tag, is_scalar_end, parse_scalar,
}
use lazygate.Nbt.Writer.{type_of}

skip_ws-le : (s : Bytes) → length (skip_ws s) ≤ length s
unfolding skip_ws
skip_ws-le [] = omega arith
skip_ws-le (c ∷ s) = ground (arith, skip_ws-le s)

rest_until-le : (stops : ℕ → Bool) (s : Bytes) → length (rest_until stops s) ≤ length s
unfolding rest_until
rest_until-le stops [] = omega arith
rest_until-le stops (c ∷ s) = ground (arith, rest_until-le stops s)

-- A character that is there is a byte less.
drop-lt : (s : Bytes) (c : ℕ) → 0 < c → (peek s == c) ≡ true → length (drop 1 s) < length s
drop-lt [] c p h = ground arith
drop-lt (x ∷ s) c p h = omega arith

drop-le : (s : Bytes) → length (drop 1 s) ≤ length s
drop-le s = omega (arith, length-drop 1 s)

prepend-Parses : (n c : ℕ) (m : Result Bytes) → Parses n m → Parses n (prepend c m)
prepend-Parses n c m h = and_then-Parses n n m _ h (λ s r le. ok_parses le)

quoted-Parses : (quote : ℕ) (s : Bytes) (n : ℕ) → length s ≤ n → Parses n (quoted quote s)
unfolding quoted
quoted-Parses quote [] n h = failed_parses
quoted-Parses quote (c ∷ []) n h =
    if-Parses n (c == 92) failed _ failed_parses
      (if-Parses n (c == quote) (ok [] []) failed (ok_parses (omega arith)) failed_parses)
quoted-Parses quote (c ∷ d ∷ s) n h =
    if-Parses n (c == 92) _ _
      (prepend-Parses n (unescape d) (quoted quote s) (quoted-Parses quote s n (omega arith)))
      (if-Parses n (c == quote) (ok [] (d ∷ s)) _ (ok_parses (omega arith))
        (prepend-Parses n c (quoted quote (d ∷ s)) (quoted-Parses quote (d ∷ s) n (omega arith))))

parse_key-Parses : (s : Bytes) (n : ℕ) → length s ≤ n → Parses n (parse_key s)
unfolding parse_key
parse_key-Parses s n h =
    if-Parses n (is_quote (peek s)) _ _
      (quoted-Parses (peek s) (drop 1 s) n (omega (arith, drop-le s)))
      (if-Parses n (length (head_until is_key_end s) == 0) failed _ failed_parses
        (ok_parses (omega (arith, rest_until-le is_key_end s))))

-- A branch that is taken only behind a character.
if_char-Parses :
    {A : Type 0} (n : ℕ) (b : Bool) (m k : Result A)
    → (b ≡ true → Parses n m)
    → Parses n k
    → Parses n (if b then m else k)
if_char-Parses n true m k h j = h refl
if_char-Parses n false m k h j = j

if_not-Parses :
    {A : Type 0} (n : ℕ) (b : Bool) (m : Result A)
    → (b ≡ true → Parses n m)
    → Parses n (if not b then failed else m)
if_not-Parses n true m h = h refl
if_not-Parses n false m h = failed_parses

-- A parser of values that are shorter than n.
abbrev Ends : (Bytes → Result Tag) → ℕ → Type 0
Ends value n = (s : Bytes) (k : ℕ) → length s ≤ k → k < n → Parses k (value s)

module _ (value : Bytes → Result Tag) (n : ℕ) (good : Ends value n) where
  compound_loop-Parses :
      (rounds : ℕ) (c : Compound) (s : Bytes) (k : ℕ)
      → length s ≤ k
      → k < rounds
      → k < n
      → Parses k (compound_loop value rounds c s)
  unfolding compound_loop
  compound_loop-Parses zero c s k h few b = absurd (omega arith)
  compound_loop-Parses (suc rounds) c s k h few b =
      and_then-Parses k k (parse_key (skip_ws s)) _
        (parse_key-Parses (skip_ws s) k (omega (arith, skip_ws-le s)))
        (λ key r le. if_not-Parses k (peek (skip_ws r) == b':') _ (λ colon.
          let less = drop-lt (skip_ws r) b':' (omega arith) colon in
          let room : length (drop 1 (skip_ws r)) ≤ k - 1 = omega (arith, less, skip_ws-le r, le) in
          let some_left : 0 < k = omega (arith, less, skip_ws-le r, le) in
          Parses-more (k - 1) k _ (omega arith) (
            and_then-Parses (k - 1) (k - 1) (value (drop 1 (skip_ws r))) _
              (good (drop 1 (skip_ws r)) (k - 1) room (omega arith))
              (λ v r₃ le₃.
                let behind : length (drop 1 (skip_ws r₃)) ≤ k - 1 =
                  omega (arith, drop-le (skip_ws r₃), skip_ws-le r₃, le₃) in
                if-Parses (k - 1) (peek (skip_ws r₃) == b',') _ _
                  (compound_loop-Parses rounds (insert key v c) (drop 1 (skip_ws r₃)) (k - 1) behind
                    (omega arith) (omega arith))
                  (if-Parses (k - 1) (peek (skip_ws r₃) == b'}')
                    (ok (tag_compound (insert key v c)) (drop 1 (skip_ws r₃))) failed
                    (ok_parses behind) failed_parses)))))

  parse_compound-Parses :
      (s : Bytes) (k : ℕ) → length s ≤ k → k < n → Parses k (parse_compound value s)
  unfolding parse_compound
  parse_compound-Parses s k h b =
      let t = skip_ws s in
      let le : length t ≤ k = omega (arith, skip_ws-le s) in
      if-Parses k (peek t == b'}') (ok (tag_compound new_compound) (drop 1 t)) _
        (ok_parses (omega (arith, drop-le t, le)))
        (Parses-more (length t) k _ le (
          compound_loop-Parses (suc (length t)) new_compound t (length t) (omega arith)
            (omega arith) (omega (arith, le))))

  list_loop-Parses :
      (rounds : ℕ) (elem : Option ℕ) (acc : Tags) (s : Bytes) (k : ℕ)
      → length s ≤ k
      → k < rounds
      → k < n
      → Parses k (list_loop value rounds elem acc s)
  unfolding list_loop
  list_loop-Parses zero elem acc s k h few b = absurd (omega arith)
  list_loop-Parses (suc rounds) elem acc s k h few b =
      and_then-Parses k k (value (skip_ws s)) _ (good (skip_ws s) k (omega (arith, skip_ws-le s)) b)
        (λ v r le. if_not-Parses k (is_of_type elem v) _ (λ _.
          let t = skip_ws r in
          let behind : length (drop 1 t) ≤ k = omega (arith, drop-le t, skip_ws-le r, le) in
          if_char-Parses k (peek t == b',') _ _
            (λ comma.
              let less = drop-lt t b',' (omega arith) comma in
              let some_left : 0 < k = omega (arith, less, skip_ws-le r, le) in
              Parses-more (k - 1) k _ (omega arith) (
                list_loop-Parses rounds (some (type_of v)) (add_tag acc v) (drop 1 t) (k - 1)
                  (omega (arith, less, skip_ws-le r, le)) (omega arith) (omega arith)))
            (if-Parses k (peek t == b']') (ok (tag_list (type_of v) (add_tag acc v)) (drop 1 t))
              failed (ok_parses behind) failed_parses)))

with_element-Parses :
    (n : ℕ) (o : Option ℕ) (next : ℕ → Result (List ℕ))
    → ((v : ℕ) → Parses n (next v))
    → Parses n (with_element o next)
with_element-Parses n none next h = failed_parses
with_element-Parses n (some v) next h = h v

array_loop-Parses :
    (elem : Bytes → Option ℕ) (rounds : ℕ) (acc : List ℕ) (s : Bytes) (k : ℕ)
    → length s ≤ k
    → k < rounds
    → Parses k (array_loop elem rounds acc s)
unfolding array_loop
array_loop-Parses elem zero acc s k h few = absurd (omega arith)
array_loop-Parses elem (suc rounds) acc s k h few =
    let t = skip_ws s in
    let r = skip_ws (rest_until is_element_end t) in
    let left : length r ≤ k = omega (
      arith,
      skip_ws-le (rest_until is_element_end t),
      rest_until-le is_element_end t,
      skip_ws-le s,
    ) in
    let behind : length (drop 1 r) ≤ k = omega (arith, drop-le r, left) in
    with_element-Parses k (elem (trim_space (head_until is_element_end t))) _ (λ v.
      if_char-Parses k (peek r == b',') _ _
        (λ comma.
          let less = drop-lt r b',' (omega arith) comma in
          let some_left : 0 < k = omega (arith, less, left) in
          Parses-more (k - 1) k _ (omega arith) (
            array_loop-Parses elem rounds (acc ++ v ∷ []) (drop 1 r) (k - 1)
              (omega (arith, less, left)) (omega arith)))
        (if-Parses k (peek r == b']') (ok (acc ++ v ∷ []) (drop 1 r)) failed (ok_parses behind)
          failed_parses))

parse_array-Parses :
    (letter : ℕ) (s : Bytes) (k : ℕ) → length s ≤ k → Parses k (parse_array letter s)
unfolding parse_array
parse_array-Parses letter s k h =
    if-Parses k (letter == b'B') _ _ (as_tag-Parses k tag_byte_array _ (elements byte_element)) (
      if-Parses k (letter == b'I') _ _ (as_tag-Parses k tag_int_array _ (elements int_element))
        (as_tag-Parses k tag_long_array _ (elements long_element)))
  where
    elements :
        (elem : Bytes → Option ℕ)
        → Parses k (
            if peek (skip_ws s) == b']'
            then ok [] (drop 1 (skip_ws s))
            else array_loop elem (suc (length (skip_ws s))) [] (skip_ws s))
    elements elem =
        if-Parses k (peek (skip_ws s) == b']') (ok [] (drop 1 (skip_ws s))) _
          (ok_parses (omega (arith, drop-le (skip_ws s), skip_ws-le s, h)))
          (Parses-more (length (skip_ws s)) k _ (omega (arith, skip_ws-le s, h)) (
            array_loop-Parses elem (suc (length (skip_ws s))) [] (skip_ws s) (length (skip_ws s))
              (omega arith) (omega arith)))

parse_list_or_array-Parses :
    (value : Bytes → Result Tag) (n : ℕ)
    → Ends value n
    → (s : Bytes) (k : ℕ) → length s ≤ k
    → k < n
    → Parses k (parse_list_or_array value s)
unfolding parse_list_or_array
parse_list_or_array-Parses value n good s k h b =
    let t = skip_ws s in
    let le : length t ≤ k = omega (arith, skip_ws-le s) in
    if-Parses k (ltb 1 (length t) && is_array_letter (peek t) && (get_or t 1 0 == b';'))
      (parse_array (peek t) (drop 2 t)) _
      (parse_array-Parses (peek t) (drop 2 t) k (omega (arith, length-drop 2 t, le)))
      (if-Parses k (peek t == b']') (ok (tag_list 0 no_tags) (drop 1 t)) _
        (ok_parses (omega (arith, drop-le t, le)))
        (Parses-more (length t) k _ le (
          list_loop-Parses value n good (suc (length t)) none no_tags t (length t) (omega arith)
            (omega arith) (omega (arith, le)))))

tag_or_failed-Parses :
    (n : ℕ) (o : Option Tag) (r : Bytes) → length r ≤ n → Parses n (tag_or_failed o r)
tag_or_failed-Parses n none r h = failed_parses
tag_or_failed-Parses n (some t) r h = ok_parses h

module _ (floats : Floats) where
  parse_scalar-Parses : (s : Bytes) (k : ℕ) → length s ≤ k → Parses k (parse_scalar floats s)
  unfolding parse_scalar
  parse_scalar-Parses s k h =
      if-Parses k (length (head_until is_scalar_end s) == 0) failed _ failed_parses (
        tag_or_failed-Parses k (scalar_tag floats (head_until is_scalar_end s))
          (rest_until is_scalar_end s) (omega (arith, rest_until-le is_scalar_end s, h)))

  parse_at-Parses :
      (value : Bytes → Result Tag) (n : ℕ)
      → Ends value n
      → (s : Bytes) (k : ℕ) → length s ≤ k
      → k < suc n
      → Parses k (parse_at floats value s)
  parse_at-Parses value n good [] k h b = failed_parses
  parse_at-Parses value n good (c ∷ s) k h b =
      let shorter : length s ≤ k - 1 = omega arith in
      if-Parses k (c == b'{') _ _
        (Parses-more (k - 1) k _ (omega arith)
          (parse_compound-Parses value n good s (k - 1) shorter (omega arith)))
        (if-Parses k (c == b'[') _ _
          (Parses-more (k - 1) k _ (omega arith)
            (parse_list_or_array-Parses value n good s (k - 1) shorter (omega arith)))
          (if-Parses k (is_quote c) _ _
            (as_tag-Parses k tag_string (quoted c s) (quoted-Parses c s k (omega arith)))
            (parse_scalar-Parses (c ∷ s) k h)))

  parse_value-Ends : (depth : ℕ) → Ends (parse_value floats depth) depth
  unfolding parse_value
  parse_value-Ends zero s k h b = absurd (omega arith)
  parse_value-Ends (suc depth) s k h b =
      parse_at-Parses (parse_value floats depth) depth (parse_value-Ends depth) (skip_ws s) k
        (omega (arith, skip_ws-le s, h)) b

  whole_compound-Parses : (t : Tag) (r : Bytes) → Parses 0 (whole_compound floats t r)
  whole_compound-Parses (tag_compound c) r = elim (Bool-cases (length r == 0)) [
    | inl empty ↦ rw empty (ok_parses (ground (arith, empty)))
    | inr more ↦ rw more failed_parses
  ]
  whole_compound-Parses tag_end r = failed_parses
  whole_compound-Parses (tag_byte v) r = failed_parses
  whole_compound-Parses (tag_short v) r = failed_parses
  whole_compound-Parses (tag_int v) r = failed_parses
  whole_compound-Parses (tag_long v) r = failed_parses
  whole_compound-Parses (tag_float v) r = failed_parses
  whole_compound-Parses (tag_double v) r = failed_parses
  whole_compound-Parses (tag_byte_array bs) r = failed_parses
  whole_compound-Parses (tag_string bs) r = failed_parses
  whole_compound-Parses (tag_list elem ts) r = failed_parses
  whole_compound-Parses (tag_int_array vs) r = failed_parses
  whole_compound-Parses (tag_long_array vs) r = failed_parses

  -- Parsing SNBT ends on every text: the nesting and the rounds of each loop are bounded by the text, and
  -- what comes out is an error, or a compound behind which nothing but spaces was left; it never panics.
  pub parse_snbt-Parses : (s : Bytes) → Parses 0 (parse_snbt floats s)
  unfolding parse_snbt
  parse_snbt-Parses s =
      and_then-Parses (length s) 0 (parse_value floats (suc (length s)) (skip_ws s)) _
        (parse_value-Ends (suc (length s)) (skip_ws s) (length s) (skip_ws-le s) (omega arith))
        (λ t r le. whole_compound-Parses t (skip_ws r))
