-- ===== src/Proto/VarInt/Bounds.antt =====
-- How long an encoding is, what its bytes are, and which values the readers can return.
use lazygate.Prelude.{
  ℕ, zero, suc, ◌+◌, ◌*◌, ◌/◌, ◌%◌, ◌^◌, ◌≤◌, ◌<◌, bit_or, [], ◌∷◌, ◌≡◌, refl, ap, arith, Bytes,
  Option, none, some, length, IsBytes, length-append,
}
use lazygate.Prelude.Bits.{low_seven, bit_or-disjoint}
use lazygate.Proto.VarInt.{group, var_int_loop, var_int, read_var_int, encode_var_int, IsInt32}
use lazygate.Proto.VarInt.Groups.{groups, encode_var_int-groups}
use lazygate.Proto.VarInt.Agree.{var_int_split, read_var_int-var_int, consumed}

length-groups : (k u : ℕ) → (1 ≤ length (groups k u)) × (length (groups k u) ≤ suc k)
unfolding groups
length-groups zero u = omega arith
length-groups (suc k) u = ground (arith, length-groups k (u / 128))

groups-IsBytes : (k u : ℕ) → u < 128 ^ suc k → IsBytes (groups k u)
unfolding groups
groups-IsBytes zero u h = omega arith
groups-IsBytes (suc k) u h = ground (arith, groups-IsBytes k (u / 128))

-- A var-int takes one to five bytes.
pub length-encode_var_int :
    (v : ℕ) → IsInt32 v → (1 ≤ length (encode_var_int v)) × (length (encode_var_int v) ≤ 5)
length-encode_var_int v h = rw (encode_var_int-groups v h) (length-groups 4 v)

pub encode_var_int-IsBytes : (v : ℕ) → IsInt32 v → IsBytes (encode_var_int v)
encode_var_int-IsBytes v h = rw (encode_var_int-groups v h) (groups-IsBytes 4 v (omega arith))

-- A value below 128 is its own encoding.
pub encode_var_int-small : (v : ℕ) → v < 128 → encode_var_int v ≡ v ∷ []
encode_var_int-small v h =
    rw (encode_var_int-groups v (omega arith)) (unfold groups in ground arith)

group_lands :
    (i r c b : ℕ)
    → r < 2 ^ (7 * i)
    → group b i ≡ c * 2 ^ (7 * i)
    → bit_or r (group b i) ≡ r + c * 2 ^ (7 * i)
group_lands i r c b hr e = rw e (bit_or-disjoint (7 * i) r c hr)

-- A value below 2 ^ 14 takes at most two bytes.
pub length-encode_var_int_two : (v : ℕ) → v < 2 ^ 14 → length (encode_var_int v) ≤ 2
length-encode_var_int_two v h =
    rw (encode_var_int-groups v (omega arith)) (unfold groups in ground arith)

-- One round keeps the result within the bits that are read so far, and within an int32.
round_bound :
    (i r b : ℕ)
    → i < 5
    → r < 2 ^ (7 * i)
    → (bit_or r (group b i) < 2 ^ (7 * (i + 1))) × IsInt32 (bit_or r (group b i))
round_bound zero r b h hr =
    omega (arith, group_lands 0 r (b % 128) b hr (omega (arith, low_seven b)))
round_bound (suc zero) r b h hr =
    omega (arith, group_lands 1 r (b % 128) b hr (omega (arith, low_seven b)))
round_bound (suc (suc zero)) r b h hr =
    omega (arith, group_lands 2 r (b % 128) b hr (omega (arith, low_seven b)))
round_bound (suc (suc (suc zero))) r b h hr =
    omega (arith, group_lands 3 r (b % 128) b hr (omega (arith, low_seven b)))
round_bound (suc (suc (suc (suc zero)))) r b h hr =
    omega (arith, group_lands 4 r (b % 16) b hr (omega (arith, low_seven b)))
round_bound (suc (suc (suc (suc (suc i))))) r b h hr = absurd (omega arith)

var_int_loop-IsInt32 :
    (rounds i r : ℕ) (bs : Bytes) {v : ℕ} {rest : Bytes}
    → rounds + i ≤ 5
    → r < 2 ^ (7 * i)
    → var_int_loop rounds i r bs ≡ some (v, rest)
    → IsInt32 v
unfolding var_int_loop
var_int_loop-IsInt32 zero i r bs hi hr h = cc
var_int_loop-IsInt32 (suc rounds) i r [] hi hr h = cc
var_int_loop-IsInt32 (suc rounds) i r (b ∷ bs) {v} {rest} hi hr h = ground (
  arith,
  round_bound i r b (omega arith) hr,
  var_int_loop-IsInt32 rounds (i + 1) (bit_or r (group b i)) bs {v = v} {rest = rest},
)

pub var_int-IsInt32 :
    (buf : Bytes) {v : ℕ} {rest : Bytes} → var_int buf ≡ some (v, rest) → IsInt32 v
unfolding var_int
var_int-IsInt32 buf h = var_int_loop-IsInt32 5 0 0 buf (omega arith) (omega arith) h

consumed_inv :
    (buf : Bytes) (o : Option (ℕ × Bytes)) {n v : ℕ}
    → var_int buf ≡ o
    → consumed buf o ≡ some (n, v)
    → (1 ≤ n) × (n ≤ 5) × (n ≤ length buf) × IsInt32 v
consumed_inv buf none e h = cc
consumed_inv buf (some (w, rest)) e h =
    let (used, split, low, high) = var_int_split buf e in
    let bound = var_int-IsInt32 buf e in ground (arith, ap length split, length-append used rest)

-- Whatever the buffer holds, a value that `ReadVarInt` returns is an int32, and it consumed one to
-- five bytes that are there.
pub read_var_int_bounds :
    (buf : Bytes) {n v : ℕ}
    → read_var_int buf ≡ some (n, v)
    → (1 ≤ n) × (n ≤ 5) × (n ≤ length buf) × IsInt32 v
read_var_int_bounds buf h = consumed_inv buf (var_int buf) refl (rw (read_var_int-var_int buf) at h)
