-- ===== src/Proto/VarInt/Prefix.antt =====
-- A var-int that has not arrived whole.
use lazygate.Prelude.{
  ℕ, zero, suc, ◌+◌, [], ◌∷◌, ◌++◌, ◌≡◌, append-nil, arith, Bytes, none, some, inl, inr,
  length-append, Option-cases, bit_or,
}
use lazygate.Proto.VarInt.{group, var_int_loop, var_int, read_var_int, encode_var_int, IsInt32}
use lazygate.Proto.VarInt.RoundTrip.{var_int-encode_var_int}
use lazygate.Proto.VarInt.Agree.{read_var_int-var_int}

-- Bytes that arrive behind a whole var-int change nothing of what is read.
var_int_loop-append :
    (rounds i r : ℕ) (bs more : Bytes) {v : ℕ} {rest : Bytes}
    → var_int_loop rounds i r bs ≡ some (v, rest)
    → var_int_loop rounds i r (bs ++ more) ≡ some (v, rest ++ more)
unfolding var_int_loop
var_int_loop-append zero i r bs more h = cc
var_int_loop-append (suc rounds) i r [] more h = cc
var_int_loop-append (suc rounds) i r (b ∷ bs) more {v} {rest} h =
    ground (
      arith,
      var_int_loop-append rounds (i + 1) (bit_or r (group b i)) bs more {v = v} {rest = rest},
    )

pub var_int-append :
    (bs more : Bytes) {v : ℕ} {rest : Bytes}
    → var_int bs ≡ some (v, rest)
    → var_int (bs ++ more) ≡ some (v, rest ++ more)
unfolding var_int
var_int-append bs more h = var_int_loop-append 5 0 0 bs more h

-- Of an encoding that has only arrived in part, `ReadVarInt` reads nothing.
pub read_var_int_incomplete :
    (v x : ℕ) (front back : Bytes)
    → IsInt32 v
    → encode_var_int v ≡ front ++ x ∷ back
    → read_var_int front ≡ none
read_var_int_incomplete v x front back h e = elim (Option-cases (var_int front)) [
  | inl nothing ↦ rw (read_var_int-var_int front, nothing)
  | inr ((w, rest), r) ↦
      let whole : var_int (front ++ x ∷ back) ≡ some (v, []) =
        rw (append-nil, e) at (var_int-encode_var_int v [] h) in
      let longer = var_int-append front (x ∷ back) r in
      ground (arith, whole, longer, length-append rest (x ∷ back))
]

pub read_var_int-append :
    (bs more : Bytes) {n v : ℕ}
    → read_var_int bs ≡ some (n, v)
    → read_var_int (bs ++ more) ≡ some (n, v)
read_var_int-append bs more {n} {v} h = elim (Option-cases (var_int bs)) [
  | inl nothing ↦ ground (arith, h, read_var_int-var_int bs, nothing)
  | inr ((w, rest), r) ↦
      rw (read_var_int-var_int (bs ++ more), var_int-append bs more r)
        (ground
          (arith, h, read_var_int-var_int bs, r, length-append bs more, length-append rest more))
]
