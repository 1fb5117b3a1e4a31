-- ===== src/Proto/VarInt.antt =====
-- proto/varint.go, and the loop of `packetReader.varInt` (proto/packets.go), which reads the same
-- format from a cursor. A cursor `(data, pos)` is its unread bytes `data[pos:]`.
pub mod Groups
pub mod RoundTrip
pub mod Agree
pub mod Bounds
pub mod Prefix
mod Examples
use lazygate.Prelude.{
  ℕ, zero, suc, ◌+◌, ◌-◌, ◌*◌, ◌/◌, ◌%◌, ◌^◌, ◌<◌, min, bit_and, bit_or, Bool, leb, List, [], ◌∷◌,
  ◌++◌, ltb, ◌==◌, if◌then◌else◌, length, get_or, take, Bytes, Option, none, some, ◌>>=◌,
}

-- The bit pattern of an int32 or a uint32.
abbrev pub IsInt32 : ℕ → Type 0
IsInt32 v = v < 2 ^ 32

-- `v < 0` and `a < b` on int32 values
abbrev pub is_negative : ℕ → Bool
is_negative v = leb (2 ^ 31) v

abbrev pub signed_lt : ℕ → ℕ → Bool
signed_lt a b = ltb ((a + 2 ^ 31) % 2 ^ 32) ((b + 2 ^ 31) % 2 ^ 32)

-- `int32(b&0x7F) << (7 * i)`
abbrev pub group : ℕ → ℕ → ℕ
group b i = bit_and b 0x7f * 2 ^ (7 * i) % 2 ^ 32

-- `for i, b := range buf`
pub decode_loop : ℕ → ℕ → Bytes → ℕ
decode_loop i result [] = result
decode_loop i result (b ∷ bs) = decode_loop (i + 1) (bit_or result (group b i)) bs

unfoldable pub decode_var_int : Bytes → Option ℕ
unfolding decode_loop
decode_var_int buf = some (decode_loop 0 0 buf)

-- `for length := 1; length <= max; length++`, with `max + 1 - length` rounds to go
pub read_loop : ℕ → ℕ → Bytes → Option (ℕ × ℕ)
unfolding decode_var_int
read_loop zero len buf = none
read_loop (suc rounds) len buf =
    let next = read_loop rounds (len + 1) buf in
    let parsed : Option (ℕ × ℕ) = (do val ← decode_var_int (take len buf); some (len, val)) in
    if ltb 0 (bit_and (get_or buf (len - 1) 0) (2 ^ 7)) then next else parsed

unfoldable pub read_var_int : Bytes → Option (ℕ × ℕ)
unfolding read_loop
read_var_int buf = read_loop (min 5 (length buf)) 1 buf

-- The `for` of `EncodeVarInt` over `u` and `out`. Five rounds empty a uint32.
pub encode_loop : ℕ → ℕ → Bytes → Bytes
encode_loop zero u out = out
encode_loop (suc rounds) u out =
    let b = bit_and u 0x7f in
    let u' = u / 2 ^ 7 in
    let last = out ++ (b ∷ []) in
    let more = encode_loop rounds u' (out ++ (bit_or b 0x80 ∷ [])) in if u' == 0 then last else more

unfoldable pub encode_var_int : ℕ → Bytes
unfolding encode_loop
encode_var_int u = encode_loop 5 u []

-- `packetReader.varInt`: `for i := 0; i < 5; i++`, with `5 - i` rounds to go
pub var_int_loop : ℕ → ℕ → ℕ → Bytes → Option (ℕ × Bytes)
var_int_loop zero i result data_left = none
var_int_loop (suc rounds) i result [] = none
var_int_loop (suc rounds) i result (b ∷ rest) =
    let result' = bit_or result (group b i) in
    let next = var_int_loop rounds (i + 1) result' rest in
    if bit_and b 0x80 == 0 then some (result', rest) else next

unfoldable pub var_int : Bytes → Option (ℕ × Bytes)
unfolding var_int_loop
var_int unread = var_int_loop 5 0 0 unread
