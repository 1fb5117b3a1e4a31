-- ===== src/Nbt/Snbt/Scalar.antt =====
-- nbt/nbt.go: white space, the cutting of the text, and `parseScalar`.
use lazygate.Prelude.{
  ℕ, ◌+◌, ◌*◌, ◌-◌, ◌%◌, ◌^◌, Bool, true, false, ◌&&◌, ◌||◌, [], ◌∷◌, Bytes, codes, Option, none,
  some, ◌>>=◌, if◌then◌else◌, ltb, leb, ◌==◌, length, same_bytes, Option,
}
use lazygate.Nbt.{Tag, tag_byte, tag_short, tag_int, tag_long, tag_float, tag_double}
use lazygate.Nbt.Reader.{Result, failed, ok}

-- `strconv.ParseFloat(body, 64)` by its bits
pub record Floats : Type 0 where
  pub parse_float : Bytes → Option ℕ

abbrev pub is_blank : ℕ → Bool
is_blank c = c == 32 || (c == 9) || (c == 10) || (c == 13)

unfoldable pub skip_ws : Bytes → Bytes
skip_ws [] = []
skip_ws (c ∷ s) = let rest = skip_ws s in if is_blank c then rest else c ∷ s

-- The text up to the first of the characters, and from there on.
unfoldable pub head_until : (ℕ → Bool) → Bytes → Bytes
head_until stops [] = []
head_until stops (c ∷ s) = let rest = head_until stops s in if stops c then [] else c ∷ rest

unfoldable pub rest_until : (ℕ → Bool) → Bytes → Bytes
rest_until stops [] = []
rest_until stops (c ∷ s) = let rest = rest_until stops s in if stops c then c ∷ s else rest

abbrev pub is_digit : ℕ → Bool
is_digit c = leb 48 c && leb c 57

unfoldable pub digits_value : ℕ → Bytes → Option ℕ
digits_value acc [] = some acc
digits_value acc (c ∷ s) =
    let rest = digits_value (acc * 10 + (c - 48)) s in if is_digit c then rest else none

-- Digits, at least one, and the range of the sign.
abbrev pub signed_value : ℕ → Bool → Bytes → Option ℕ
signed_value bits negative body = if length body == 0 then none else (do
  v ← digits_value 0 body
  if negative
      then (if leb v (2 ^ (bits - 1)) then some ((2 ^ bits - v) % 2 ^ bits) else none)
      else if ltb v (2 ^ (bits - 1))
      then some v
      else none)

-- `strconv.ParseInt(s, 10, bits)`, as a word of that many bits
unfoldable pub parse_int : ℕ → Bytes → Option ℕ
unfolding digits_value
parse_int bits [] = none
parse_int bits (c ∷ s) =
    if c == b'-'
    then signed_value bits true s
    else if c == b'+'
    then signed_value bits false s
    else signed_value bits false (c ∷ s)

abbrev pub last_char : Bytes → ℕ
last_char [] = 0
last_char (c ∷ []) = c
last_char (c ∷ d ∷ s) = last_char (d ∷ s)

abbrev pub but_last : Bytes → Bytes
but_last [] = []
but_last (c ∷ []) = []
but_last (c ∷ d ∷ s) = c ∷ but_last (d ∷ s)

-- `strings.TrimSuffix(s, suffix)` for a suffix of one character
abbrev pub trim_suffix : ℕ → Bytes → Bytes
trim_suffix suffix [] = []
trim_suffix suffix (c ∷ s) = if last_char (c ∷ s) == suffix then but_last (c ∷ s) else c ∷ s

pub data Suffix : Type 0 where
  no_suffix suffix_b suffix_s suffix_l suffix_f suffix_d : Suffix

abbrev pub suffix_of : ℕ → Suffix
suffix_of c =
    if c == b'b' || (c == b'B')
    then suffix_b
    else if c == b's' || (c == b'S')
    then suffix_s
    else if c == b'l' || (c == b'L')
    then suffix_l
    else if c == b'f' || (c == b'F')
    then suffix_f
    else if c == b'd' || (c == b'D')
    then suffix_d
    else no_suffix

abbrev pub number_body : Suffix → Bytes → Bytes
number_body no_suffix raw = raw
number_body _ raw = but_last raw

unfoldable pub is_float_body : Bytes → Bool
is_float_body [] = false
is_float_body (c ∷ s) = c == b'.' || (c == b'e') || (c == b'E') || is_float_body s

abbrev pub float_tag : Floats → ℕ → Suffix → Option Tag
float_tag floats v suffix_f = some (tag_float v)
float_tag floats v suffix_d = some (tag_double v)
float_tag floats v no_suffix = some (tag_double v)
float_tag floats v _ = none

-- An integer without a suffix is an int if it fits, and a long if not.
abbrev pub int_tag : ℕ → Suffix → Option Tag
int_tag v suffix_b = some (tag_byte (v % 2 ^ 8))
int_tag v suffix_s = some (tag_short (v % 2 ^ 16))
int_tag v suffix_l = some (tag_long v)
int_tag v no_suffix =
    if ltb v (2 ^ 31) || leb (2 ^ 64 - 2 ^ 31) v
    then some (tag_int (v % 2 ^ 32))
    else some (tag_long v)
int_tag v _ = none

unfoldable pub scalar_tag : Floats → Bytes → Option Tag
unfolding is_float_body parse_int
scalar_tag floats raw =
    let suffix = suffix_of (last_char raw) in
    let body = number_body suffix raw in
    if same_bytes raw (codes "true")
    then some (tag_byte 1)
    else if same_bytes raw (codes "false")
    then some (tag_byte 0)
    else if is_float_body body
    then (do v ← floats.parse_float body; float_tag floats v suffix)
    else (do v ← parse_int 64 body; int_tag v suffix)

abbrev pub is_scalar_end : ℕ → Bool
is_scalar_end c = c == b',' || (c == b'}') || (c == b']') || is_blank c

abbrev pub tag_or_failed : Option Tag → Bytes → Result Tag
tag_or_failed none r = failed
tag_or_failed (some t) r = ok t r

unfoldable pub parse_scalar : Floats → Bytes → Result Tag
unfolding scalar_tag head_until rest_until
parse_scalar floats s =
    if length (head_until is_scalar_end s) == 0
    then failed
    else tag_or_failed (scalar_tag floats (head_until is_scalar_end s)) (rest_until is_scalar_end s)
