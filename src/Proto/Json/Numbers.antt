-- ===== src/Proto/Json/Numbers.antt =====
-- proto/packets.go: `itoa`, against the value of a row of decimal digits.
use lazygate.Prelude.{
  ℕ, zero, suc, ◌+◌, ◌*◌, ◌-◌, ◌/◌, ◌%◌, ◌<◌, ◌≤◌, ◌^◌, [], ◌∷◌, Bytes, All, ◌==◌, get_or, ◌≡◌, ◌≢◌,
  refl, ap, ◌∙◌, sym, arith, Bool-cases, inl, inr, true,
}
use lazygate.Proto.Json.{itoa, itoa_loop}

abbrev pub decimal : ℕ → Bytes → ℕ
decimal acc [] = acc
decimal acc (d ∷ ds) = decimal (acc * 10 + (d - 48)) ds

abbrev pub IsDigit : ℕ → Type 0
IsDigit d = (48 ≤ d) × (d ≤ 57)

pow_step : (v r : ℕ) → v < 10 ^ suc r → v / 10 < 10 ^ r
pow_step v r h = omega arith

decimal-itoa_loop :
    (rounds v : ℕ) (out : Bytes)
    → v < 10 ^ rounds
    → decimal 0 (itoa_loop rounds v out) ≡ decimal v out
unfolding itoa_loop
decimal-itoa_loop zero v out h = let e : v ≡ 0 = omega arith in rw e refl
decimal-itoa_loop (suc rounds) v out h = elim (Bool-cases (v == 0)) [
  | inl done ↦ rw done (let e : v ≡ 0 = ground arith in ap (λ n. decimal n out) (sym e))
  | inr more ↦ rw more (
      decimal-itoa_loop rounds (v / 10) ((48 + v % 10) ∷ out) (pow_step v rounds h)
      ∙ ap (λ n. decimal n out) (omega arith))
]

itoa_loop-IsDigit :
    (rounds v : ℕ) (out : Bytes) → All IsDigit out → All IsDigit (itoa_loop rounds v out)
unfolding itoa_loop
itoa_loop-IsDigit zero v out h = h
itoa_loop-IsDigit (suc rounds) v out h = elim (Bool-cases (v == 0)) [
  | inl done ↦ rw done h
  | inr more ↦
      rw more
        (itoa_loop-IsDigit rounds (v / 10) ((48 + v % 10) ∷ out) ((omega arith, omega arith), h))
]

itoa_loop_head :
    (rounds v : ℕ) (out : Bytes)
    → v < 10 ^ rounds
    → v ≢ 0
    → get_or (itoa_loop rounds v out) 0 48 ≢ 48
unfolding itoa_loop
itoa_loop_head zero v out h n = absurd (n (omega arith))
itoa_loop_head (suc rounds) v out h n = elim (Bool-cases (v == 0)) [
  | inl done ↦ absurd (n (ground arith))
  | inr more ↦ elim (Bool-cases (v / 10 == 0)) [
    | inl last ↦ rw more (one rounds last)
    | inr long ↦ rw more (
        itoa_loop_head rounds (v / 10) ((48 + v % 10) ∷ out) (pow_step v rounds h)
          (λ e. ground arith))
  ]
]
  where
    one :
        (rounds : ℕ)
        → (v / 10 == 0) ≡ true
        → get_or (itoa_loop rounds (v / 10) ((48 + v % 10) ∷ out)) 0 48 ≢ 48
    one zero last = λ e. n (ground arith)
    one (suc rounds) last = rw last (λ e. n (ground arith))

-- The digits that `itoa` writes of a uint32 are decimal digits, their value is the number, and they
-- begin with no zero unless the number is zero.
pub decimal-itoa :
    (v : ℕ)
    → v < 2 ^ 32
    → (decimal 0 (itoa v) ≡ v) × All IsDigit (itoa v) × (v ≢ 0 → get_or (itoa v) 0 48 ≢ 48)
unfolding itoa
decimal-itoa v h = elim (Bool-cases (v == 0)) [
  | inl zeroes ↦ rw zeroes (ground arith, ((omega arith, omega arith), tt), λ n e. n (ground arith))
  | inr some_digits ↦ simp (some_digits) (
    decimal-itoa_loop 10 v [] (omega arith),
    itoa_loop-IsDigit 10 v [] tt,
    itoa_loop_head 10 v [] (omega arith),
  )
]
