-- ===== src/Proto/VarInt/RoundTrip.antt =====
-- proto/varint.go and proto/packets.go: the var-int readers on what `EncodeVarInt` writes.
use native.Mathlib.Nat.{mod-eq_of_lt, mul-le-mul_right}
use native.Mathlib.Numerals.{towards_suc}
use lazygate.Prelude.{
  ℕ, zero, suc, ◌+◌, ◌*◌, ◌/◌, ◌%◌, ◌^◌, ◌≤◌, ◌<◌, bit_or, ◌∷◌, ◌++◌, ◌≡◌, ap, arith, Bytes, some,
}
use lazygate.Prelude.Bits.{low_seven, bit_seven, bit_or-disjoint}
use lazygate.Proto.VarInt.{group, encode_var_int, IsInt32, var_int_loop, var_int}
use lazygate.Proto.VarInt.Groups.{groups, encode_var_int-groups}

pub seven_more : (i : ℕ) → 2 ^ (7 * (i + 1)) ≡ 128 * 2 ^ (7 * i)
seven_more i =
    let e : 7 * (i + 1) ≡ 7 * i + 7 = omega arith in rw e (simp towards_suc (omega arith))

-- One group lands above the bits that are read already.
pub bit_or-group :
    (b i r : ℕ)
    → r < 2 ^ (7 * i)
    → b % 128 * 2 ^ (7 * i) < 2 ^ 32
    → bit_or r (group b i) ≡ r + b % 128 * 2 ^ (7 * i)
bit_or-group b i r hr h = rw (low_seven, mod-eq_of_lt h) (bit_or-disjoint (7 * i) r (b % 128) hr)

-- The last byte ends the loop, and any other byte goes on.
last_group :
    (k b i r : ℕ) (rest : Bytes)
    → b < 128
    → r < 2 ^ (7 * i)
    → b * 2 ^ (7 * i) < 2 ^ 32
    → var_int_loop (suc k) i r (b ∷ rest) ≡ some (r + b * 2 ^ (7 * i), rest)
unfolding var_int_loop
last_group k b i r rest hb hr h =
    let e : b % 128 ≡ b = mod-eq_of_lt hb in
    ground (arith, bit_seven b, bit_or-group b i r hr (rw e h), e)

inner_group :
    (k g i r : ℕ) (rest : Bytes)
    → g < 128
    → r < 2 ^ (7 * i)
    → g * 2 ^ (7 * i) < 2 ^ 32
    → var_int_loop (suc k) i r ((g + 128) ∷ rest)
      ≡ var_int_loop k (i + 1) (r + g * 2 ^ (7 * i)) rest
unfolding var_int_loop
inner_group k g i r rest hg hr h =
    let e : (g + 128) % 128 ≡ g = omega arith in
    ground (arith, bit_seven (g + 128), bit_or-group (g + 128) i r hr (rw e h), e)

split_groups : (u p : ℕ) → u * p ≡ u % 128 * p + u / 128 * (128 * p)
split_groups u p =
    let e : u ≡ u % 128 + u / 128 * 128 = omega arith in omega (arith, ap (λ (t : ℕ). t * p) e)

var_int_loop-groups :
    (k u i r : ℕ) (rest : Bytes)
    → u < 128 ^ suc k
    → r < 2 ^ (7 * i)
    → r + u * 2 ^ (7 * i) < 2 ^ 32
    → var_int_loop (suc k) i r (groups k u ++ rest) ≡ some (r + u * 2 ^ (7 * i), rest)
unfolding groups
var_int_loop-groups zero u i r rest hu hr h = last_group 0 u i r rest hu hr (omega arith)
var_int_loop-groups (suc k) u i r rest hu hr h =
    let p = 2 ^ (7 * i) in
    let low : u % 128 ≤ 127 = omega arith in
    ground (
      arith,
      last_group (suc k) u i r rest,
      split_groups u p,
      seven_more i,
      mul-le-mul_right p low,
      inner_group (suc k) (u % 128) i r (groups k (u / 128) ++ rest),
      var_int_loop-groups k (u / 128) (i + 1) (r + u % 128 * p) rest,
    )

-- `packetReader.varInt` reads back what `EncodeVarInt` wrote, and leaves the bytes behind it unread.
pub var_int-encode_var_int :
    (v : ℕ) (rest : Bytes) → IsInt32 v → var_int (encode_var_int v ++ rest) ≡ some (v, rest)
unfolding var_int
var_int-encode_var_int v rest h =
    rw (encode_var_int-groups v h)
      (ground (arith, var_int_loop-groups 4 v 0 0 rest (omega arith) (omega arith) (omega arith)))
