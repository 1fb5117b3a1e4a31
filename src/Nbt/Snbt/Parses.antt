-- ===== src/Nbt/Snbt/Parses.antt =====
-- nbt/nbt.go: how the parsers of SNBT end: with an error, or with a part of the text left.
use lazygate.Prelude.{ℕ, ◌≤◌, Bool, true, false, Bytes, if◌then◌else◌, length, arith}
use lazygate.Nbt.{Tag}
use lazygate.Nbt.Reader.{Result, ok, failed, panicked, stuck, and_then, as_tag}

-- An error, or a result with at most n bytes left: neither a panic nor fuel that ran out.
pub data Parses {ℓ} {A : Type ℓ} (n : ℕ) : Result A → Type ℓ where
  failed_parses : Parses n failed
  ok_parses : {a : A} {r : Bytes} → length r ≤ n → Parses n (ok a r)

pub and_then-Parses {ℓ κ} :
    {A : Type ℓ} {B : Type κ} (n k : ℕ) (m : Result A) (next : A → Bytes → Result B)
    → Parses n m
    → ((a : A) (r : Bytes) → length r ≤ n → Parses k (next a r))
    → Parses k (and_then m next)
and_then-Parses n k failed next failed_parses f = failed_parses
and_then-Parses n k panicked next h f = elim h [ ]
and_then-Parses n k stuck next h f = elim h [ ]
and_then-Parses n k (ok a r) next (ok_parses le) f = f a r le

pub Parses-more {ℓ} : {A : Type ℓ} (n k : ℕ) (m : Result A) → n ≤ k → Parses n m → Parses k m
Parses-more n k m le failed_parses = failed_parses
Parses-more n k m le (ok_parses h) = ok_parses (omega (arith, le, h))

pub if-Parses {ℓ} :
    {A : Type ℓ} (n : ℕ) (b : Bool) (m k : Result A)
    → Parses n m
    → Parses n k
    → Parses n (if b then m else k)
if-Parses n true m k h j = h
if-Parses n false m k h j = j

pub as_tag-Parses {ℓ} :
    {A : Type ℓ} (n : ℕ) (f : A → Tag) (m : Result A) → Parses n m → Parses n (as_tag f m)
as_tag-Parses n f m h = and_then-Parses n n m _ h (λ a r le. ok_parses le)
