-- ===== src/Nbt/Float.antt =====
-- nbt/nbt.go and nbt/read.go: the conversions `float64(v)` of a float32 and `float32(v)` of a float64, on
-- the bits of IEEE 754: a sign, an exponent of 8 or 11 bits, and a fraction of 23 or 52 bits.
use lazygate.Prelude.{
  ℕ, zero, suc, ◌+◌, ◌-◌, ◌*◌, ◌/◌, ◌%◌, ◌^◌, ◌<◌, ◌||◌, ◌&&◌, if◌then◌else◌, ltb, leb, ◌==◌, ◌≡◌,
  refl, arith,
}

-- The place of the highest bit of a number below 2 ^ n that is not 0.
unfoldable highest_bit : ℕ → ℕ → ℕ
highest_bit zero m = 0
highest_bit (suc n) m = let rest = highest_bit n m in if leb (2 ^ n) m then n else rest

-- The exponent and the fraction of a float32, as those of a float64. An infinity stays one, a NaN is made
-- quiet, and a subnormal number gets an exponent of its own.
abbrev widen_magnitude : ℕ → ℕ → ℕ
widen_magnitude exponent fraction =
    let place = highest_bit 23 fraction in
    if exponent == 255
    then (if fraction == 0
        then 2047 * 2 ^ 52
        else 2047 * 2 ^ 52 + 2 ^ 51 + (fraction % 2 ^ 22) * 2 ^ 29)
    else if exponent == 0
    then (if fraction == 0
        then 0
        else (place + 874) * 2 ^ 52 + (fraction - 2 ^ place) * 2 ^ (52 - place))
    else (exponent + 896) * 2 ^ 52 + fraction * 2 ^ 29

-- `float64(v)` of a float32
unfoldable pub widen : ℕ → ℕ
unfolding highest_bit
widen v = (v / 2 ^ 31 % 2) * 2 ^ 63 + widen_magnitude (v / 2 ^ 23 % 2 ^ 8) (v % 2 ^ 23)

-- A number without its low bits, rounded to the nearest, and to an even one if two are as near.
abbrev round_even : ℕ → ℕ → ℕ
round_even bits m =
    let whole = m / 2 ^ bits in
    let rest = m % 2 ^ bits in
    if ltb (2 ^ (bits - 1)) rest || (rest == 2 ^ (bits - 1) && (whole % 2 == 1))
    then whole + 1
    else whole

-- The exponent and the fraction of a float64, as those of a float32. What is too large is an infinity, and
-- what is too small for a normal number is rounded to a subnormal one. Both take 31 bits.
abbrev narrow_magnitude : ℕ → ℕ → ℕ
narrow_magnitude exponent fraction =
    let normal = round_even 29 ((exponent - 896) * 2 ^ 52 + fraction) in
    let small = round_even (926 - exponent) (2 ^ 52 + fraction) in
    if exponent == 2047
    then (if fraction == 0
        then 255 * 2 ^ 23
        else 255 * 2 ^ 23 + 2 ^ 22 + (fraction / 2 ^ 29) % 2 ^ 22)
    else if ltb 896 exponent
    then (if leb (255 * 2 ^ 23) normal then 255 * 2 ^ 23 else normal)
    else if ltb exponent 870
    then 0
    else small

-- `float32(v)` of a float64
unfoldable pub narrow : ℕ → ℕ
narrow v = (v / 2 ^ 63 % 2) * 2 ^ 31 + narrow_magnitude (v / 2 ^ 52 % 2 ^ 11) (v % 2 ^ 52) % 2 ^ 31

pub narrow_lt : (v : ℕ) → narrow v < 2 ^ 32
unfolding narrow
narrow_lt v =
    below (v / 2 ^ 63 % 2) (narrow_magnitude (v / 2 ^ 52 % 2 ^ 11) (v % 2 ^ 52)) (omega arith)
  where
    below : (sign magnitude : ℕ) → sign < 2 → sign * 2 ^ 31 + magnitude % 2 ^ 31 < 2 ^ 32
    below sign magnitude h = omega (arith, h)

one_tenth : narrow 0x3FB999999999999A ≡ 0x3DCCCCCD
unfolding narrow
one_tenth = refl

one_tenth_back : widen 0x3DCCCCCD ≡ 0x3FB99999A0000000
unfolding widen
one_tenth_back = refl

smallest : widen 1 ≡ 0x36A0000000000000
unfolding widen
smallest = refl

smallest_back : narrow 0x36A0000000000000 ≡ 1
unfolding narrow
smallest_back = refl
