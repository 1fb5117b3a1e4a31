-- ===== src/Proto/Reader/Shape.antt =====
-- What a successful read says of the unread bytes.
use lazygate.Prelude.{
  ℕ, ◌^◌, ◌≤◌, ◌<◌, ◌++◌, length, ◌≡◌, arith, Bytes, some, take-append-drop, length-take,
  >>=-eq-some,
}
use lazygate.Proto.VarInt.{var_int}
use lazygate.Proto.Reader.{read_counted, read_str}

pub read_counted_inv :
    (max_len n : ℕ) (r : Bytes) {s rest : Bytes}
    → read_counted max_len n r ≡ some (s, rest)
    → (length s ≡ n) × (n ≤ max_len) × (n < 2 ^ 31) × (r ≡ s ++ rest)
unfolding read_counted
read_counted_inv max_len n r h = ground (arith, length-take n r, take-append-drop n r)

-- A string that is read respects the limit.
pub read_str_inv :
    (max_len : ℕ) (r : Bytes) {s rest : Bytes}
    → read_str max_len r ≡ some (s, rest)
    → (length s ≤ max_len) × (length s < 2 ^ 31)
unfolding read_str
read_str_inv max_len r {s} {rest} h =
    let ((n, r'), _, e) = >>=-eq-some (var_int r) (λ (n, r'). read_counted max_len n r') h in
    ground (arith, read_counted_inv max_len n r' {s = s} {rest = rest} e)
