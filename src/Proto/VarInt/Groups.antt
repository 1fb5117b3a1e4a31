-- ===== src/Proto/VarInt/Groups.antt =====
-- The groups of seven bits as arithmetic: what one round of each loop of the var-int code does.
use lazygate.Prelude.{
  ℕ, zero, suc, ◌+◌, ◌/◌, ◌%◌, ◌^◌, ◌<◌, [], ◌∷◌, ◌++◌, ltb, if◌then◌else◌, ◌≡◌, append_assoc,
  arith, Bytes,
}
use lazygate.Prelude.Bits.{low_seven, set_bit_seven}
use lazygate.Proto.VarInt.{encode_loop, encode_var_int, IsInt32}

-- The encoding by itself: at most `k + 1` groups, the lowest first, all but the last marked.
unfoldable pub groups : ℕ → ℕ → Bytes
groups zero u = u ∷ []
groups (suc k) u =
    let rest = groups k (u / 128) in if ltb u 128 then u ∷ [] else (u % 128 + 128) ∷ rest

encode_loop-groups :
    (k u : ℕ) (out : Bytes) → u < 128 ^ suc k → encode_loop (suc k) u out ≡ out ++ groups k u
unfolding encode_loop groups
encode_loop-groups zero u out h = ground (arith, low_seven u)
encode_loop-groups (suc k) u out h = ground (
  arith,
  low_seven u,
  set_bit_seven (u % 128) (omega arith),
  encode_loop-groups k (u / 128) (out ++ ((u % 128 + 128) ∷ [])) (omega arith),
  append_assoc out ((u % 128 + 128) ∷ []) (groups k (u / 128)),
)

pub encode_var_int-groups : (u : ℕ) → IsInt32 u → encode_var_int u ≡ groups 4 u
unfolding encode_var_int
encode_var_int-groups u h = encode_loop-groups 4 u [] (omega arith)
