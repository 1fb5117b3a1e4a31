-- ===== src/Proto/VarInt/Agree.antt =====
-- proto/varint.go and proto/packets.go: `ReadVarInt` on a buffer beside `packetReader.varInt` on a cursor.
use lazygate.Prelude.{
  ℕ, zero, suc, ◌+◌, ◌-◌, ◌≤◌, min, bit_and, bit_or, [], ◌∷◌, ◌++◌, ltb, if◌then◌else◌, ◌≡◌, refl,
  ap, ◌∙◌, append_assoc, arith, Bytes, Option, none, some, length, inl, inr, ◌==◌, take, drop,
  get_or, Bool-cases, length-append, drop-append,
}
use lazygate.Proto.VarInt.{
  group, decode_loop, read_loop, var_int_loop, var_int, read_var_int, encode_var_int, IsInt32,
}
use lazygate.Proto.VarInt.RoundTrip.{var_int-encode_var_int}

-- What the cursor's answer says of the buffer: how many bytes were read, and the value.
abbrev pub consumed : Bytes → Option (ℕ × Bytes) → Option (ℕ × ℕ)
consumed buf none = none
consumed buf (some (v, rest)) = some (length buf - length rest, v)

-- What the buffer's answer says of the cursor.
abbrev pub advanced : Bytes → Option (ℕ × ℕ) → Option (ℕ × Bytes)
advanced buf none = none
advanced buf (some (n, v)) = some (v, drop n buf)

get_or-append : (pre : Bytes) (b d : ℕ) (bs : Bytes) → get_or (pre ++ b ∷ bs) (length pre) d ≡ b
get_or-append [] b d bs = refl
get_or-append (c ∷ pre) b d bs = get_or-append pre b d bs

take_one_more :
    (pre : Bytes) (b : ℕ) (bs : Bytes) → take (suc (length pre)) (pre ++ b ∷ bs) ≡ pre ++ b ∷ []
take_one_more [] b bs = refl
take_one_more (c ∷ pre) b bs = ap (◌∷◌ c) (take_one_more pre b bs)

decode_loop-append :
    (pre : Bytes) (i r b : ℕ)
    → decode_loop i r (pre ++ b ∷ []) ≡ bit_or (decode_loop i r pre) (group b (i + length pre))
unfolding decode_loop
decode_loop-append [] i r b = let e : i + 0 ≡ i = omega arith in rw e
decode_loop-append (c ∷ pre) i r b =
    let e : i + suc (length pre) ≡ i + 1 + length pre = omega arith in
    rw e (decode_loop-append pre (i + 1) (bit_or r (group c i)) b)

read_loop_step :
    (rounds b : ℕ) (bs pre : Bytes)
    → read_loop (suc rounds) (suc (length pre)) (pre ++ b ∷ bs) ≡ (
        if ltb 0 (bit_and b 0x80)
        then read_loop rounds (suc (length pre + 1)) (pre ++ b ∷ bs)
        else some (suc (length pre), bit_or (decode_loop 0 0 pre) (group b (length pre))))
unfolding read_loop
read_loop_step rounds b bs pre =
    let back : suc (length pre) - 1 ≡ length pre = omega arith in
    let next : suc (length pre) + 1 ≡ suc (length pre + 1) = omega arith in
    rw (back, next, get_or-append pre b 0 bs, take_one_more pre b bs, decode_loop-append pre 0 0 b)
      (let front : 0 + length pre ≡ length pre = omega arith in rw front)

read_loop-var_int_loop :
    (rounds : ℕ) (bs pre : Bytes)
    → read_loop (min rounds (length bs)) (suc (length pre)) (pre ++ bs)
      ≡ consumed (pre ++ bs) (var_int_loop rounds (length pre) (decode_loop 0 0 pre) bs)
unfolding read_loop var_int_loop
read_loop-var_int_loop zero bs pre = let e : min 0 (length bs) ≡ 0 = omega arith in rw e
read_loop-var_int_loop (suc rounds) [] pre = let e : min (suc rounds) 0 ≡ 0 = omega arith in rw e
read_loop-var_int_loop (suc rounds) (b ∷ bs) pre =
    let e : min (suc rounds) (suc (length bs)) ≡ suc (min rounds (length bs)) = omega arith in
    let grow =
      rw (append_assoc, length-append, decode_loop-append pre 0 0 b) at
        (read_loop-var_int_loop rounds bs (pre ++ b ∷ [])) in
    rw e (
      ground
        (arith, read_loop_step (min rounds (length bs)) b bs pre, grow, length-append pre (b ∷ bs)))

-- What the cursor reads is a first part of one to `rounds` bytes.
var_int_loop_split :
    (rounds i r : ℕ) (bs : Bytes) {v : ℕ} {rest : Bytes}
    → var_int_loop rounds i r bs ≡ some (v, rest)
    → (used : Bytes) × (bs ≡ used ++ rest) × (1 ≤ length used) × (length used ≤ rounds)
unfolding var_int_loop
var_int_loop_split zero i r bs h = cc
var_int_loop_split (suc rounds) i r [] h = cc
var_int_loop_split (suc rounds) i r (b ∷ bs) {v} {rest} h =
    elim (Bool-cases (bit_and b 0x80 == 0)) [
      | inl last ↦ (b ∷ [], ground arith, omega arith, omega arith)
      | inr more ↦
          let step : var_int_loop rounds (i + 1) (bit_or r (group b i)) bs ≡ some (v, rest) =
            rw more at h in
          let (used, e, low, high) =
            var_int_loop_split rounds (i + 1) (bit_or r (group b i)) bs step in
          (b ∷ used, cc, omega arith, omega arith)
    ]

pub var_int_split :
    (buf : Bytes) {v : ℕ} {rest : Bytes}
    → var_int buf ≡ some (v, rest)
    → (used : Bytes) × (buf ≡ used ++ rest) × (1 ≤ length used) × (length used ≤ 5)
unfolding var_int
var_int_split buf h = var_int_loop_split 5 0 0 buf h

-- `ReadVarInt` answers what the cursor's loop answers, and counts the bytes that it read.
pub read_var_int-var_int : (buf : Bytes) → read_var_int buf ≡ consumed buf (var_int buf)
unfolding read_var_int var_int decode_loop
read_var_int-var_int buf = read_loop-var_int_loop 5 buf []

advance_consumed :
    (buf : Bytes) (o : Option (ℕ × Bytes)) → var_int buf ≡ o → o ≡ advanced buf (consumed buf o)
advance_consumed buf none h = refl
advance_consumed buf (some (v, rest)) h =
    let (used, e, _, _) = var_int_split buf h in
    let n : length buf - length rest ≡ length used =
      omega (arith, ap length e, length-append used rest) in
    let cut : drop (length buf - length rest) buf ≡ rest =
      ap (drop (length buf - length rest)) e ∙ drop-append used rest _ n in
    cc

-- On every buffer the two var-int readers agree: both refuse it, or both read the same value and
-- the cursor stands behind the bytes that `ReadVarInt` reports as consumed.
pub var_int-read_var_int : (buf : Bytes) → var_int buf ≡ advanced buf (read_var_int buf)
var_int-read_var_int buf = rw (read_var_int-var_int buf) (advance_consumed buf (var_int buf) refl)

-- `ReadVarInt` reads back every int32 that `EncodeVarInt` wrote, whatever follows it, and reports
-- the length of the encoding as consumed.
pub read_var_int-encode_var_int :
    (v : ℕ) (rest : Bytes)
    → IsInt32 v
    → read_var_int (encode_var_int v ++ rest) ≡ some (length (encode_var_int v), v)
read_var_int-encode_var_int v rest h =
    let n : length (encode_var_int v ++ rest) - length rest ≡ length (encode_var_int v) =
      omega (arith, length-append (encode_var_int v) rest) in
    rw (read_var_int-var_int (encode_var_int v ++ rest), var_int-encode_var_int v rest h, n)
