-- ===== src/Proto/Packets/Bounds.antt =====
-- proto/packets.go: the limits of what a decoder accepts.
use lazygate.Prelude.{
  ℕ, ◌<◌, ◌≤◌, ◌^◌, [], ◌∷◌, ◌++◌, Bytes, IsBytes, some, length, ◌≡◌, arith, >>=-eq-some,
}
use lazygate.Proto.VarInt.{var_int}
use lazygate.Proto.VarInt.Agree.{var_int_split}
use lazygate.Proto.VarInt.Bounds.{var_int-IsInt32}
use lazygate.Proto.Reader.{read_fixed, read_u16, read_str, read_counted}
use lazygate.Proto.Reader.Shape.{read_counted_inv}
use lazygate.Proto.Packets.{Handshake, decode_handshake, IsHandshake}

IsBytes-suffix : (xs ys : Bytes) → IsBytes (xs ++ ys) → IsBytes ys
IsBytes-suffix [] ys h = h
IsBytes-suffix (x ∷ xs) ys h = IsBytes-suffix xs ys h.1

var_int-IsBytes :
    (r : Bytes) {v : ℕ} {rest : Bytes} → var_int r ≡ some (v, rest) → IsBytes r → IsBytes rest
var_int-IsBytes r {v} {rest} h k =
    let (used, e, _, _) = var_int_split r h in IsBytes-suffix used rest (rw e at k)

read_str_bounds :
    (max_len : ℕ) (r : Bytes) {s rest : Bytes}
    → read_str max_len r ≡ some (s, rest)
    → IsBytes r
    → (length s ≤ max_len) × IsBytes rest
unfolding read_str
read_str_bounds max_len r {s} {rest} h k =
    let ((n, r'), v, e) = >>=-eq-some (var_int r) (λ (n, r'). read_counted max_len n r') h in
    let (len, fits, _, split) = read_counted_inv max_len n r' e in
    (omega arith, IsBytes-suffix s rest (rw split at (var_int-IsBytes r v k)))

read_u16_bounds :
    (r : Bytes) {v : ℕ} {rest : Bytes}
    → read_u16 r ≡ some (v, rest)
    → IsBytes r
    → (v < 2 ^ 16) × IsBytes rest
unfolding read_fixed
read_u16_bounds [] h k = ground arith
read_u16_bounds (a ∷ []) h k = ground arith
read_u16_bounds (a ∷ b ∷ r) h (ha, (hb, hr)) = ground arith

-- A handshake that the proxy accepts, from any bytes, has an address of at most 255 bytes and
-- fields that fit their Go types.
pub decode_handshake-IsHandshake :
    (payload : Bytes) {h : Handshake}
    → IsBytes payload
    → decode_handshake payload ≡ some h
    → IsHandshake h
unfolding decode_handshake
decode_handshake-IsHandshake payload {h} k e =
    let ((version, r), e₁, k₁) = >>=-eq-some (var_int payload) _ e in
    let ((addr, r₂), e₂, k₂) = >>=-eq-some (read_str 255 r) _ k₁ in
    let ((port, r₃), e₃, k₃) = >>=-eq-some (read_u16 r₂) _ k₂ in
    let ((next, r₄), e₄, k₄) = >>=-eq-some (var_int r₃) _ k₃ in
    let b₁ = var_int-IsBytes payload e₁ k in
    let (l₂, b₂) = read_str_bounds 255 r e₂ b₁ in
    let (l₃, b₃) = read_u16_bounds r₂ e₃ b₂ in
    let l₁ = var_int-IsInt32 payload e₁ in let l₄ = var_int-IsInt32 r₃ e₄ in ground arith
