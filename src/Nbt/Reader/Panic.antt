-- ===== src/Nbt/Reader/Panic.antt =====
-- The slices of nbt/read.go with a negative length.
use lazygate.Prelude.{ℕ, ◌^◌, ◌≤◌, ◌∷◌, Bytes, IsByte, ◌≡◌, ◌↔◌, arith}
use lazygate.Nbt.Reader.{panicked, fixed, slice, read_string}

-- `ReadString` runs into a panic exactly if there are two bytes and the first has its top bit set: the length
-- of the string, which the format counts without a sign, is then read as negative.
pub read_string_panics :
    (b₀ b₁ : ℕ) (r : Bytes)
    → IsByte b₀
    → IsByte b₁
    → (read_string (b₀ ∷ b₁ ∷ r) ≡ panicked) ↔ (2 ^ 7 ≤ b₀)
unfolding read_string fixed slice
read_string_panics b₀ b₁ r h k = ground arith
