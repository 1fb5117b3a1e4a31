-- ===== src/ProxyHeader/Reading.antt =====
-- proxyv2/proxyv2.go: a reader of PROXY headers, on what `StreamHeader` writes.
use lazygate.Prelude.{
  ℕ, ◌%◌, ◌^◌, ◌<◌, [], ◌∷◌, ◌++◌, Bytes, Option, none, some, ◌>>=◌, if◌then◌else◌, ltb, length,
  take, drop, same_bytes, length-append, take-append, drop-append, append_assoc, ◌≡◌, refl, sym,
  arith, guard, ◌>>◌,
}
use lazygate.Proto.Reader.{big_endian_value}
use lazygate.Proto.Writer.{big_endian16}
use lazygate.ProxyHeader.{signature, Ip, TcpAddr, address_block, both4, header_for, stream_header}

-- The bytes in front, when there are as many, and those behind.
abbrev pub chunk : ℕ → Bytes → Option (Bytes × Bytes)
chunk n bs = if ltb (length bs) n then none else some (take n bs, drop n bs)

-- The fields of a header.
pub record Parsed : Type 0 where
  pub src : Bytes
  pub dst : Bytes
  pub src_port : ℕ
  pub dst_port : ℕ

-- The addresses, of `width` bytes each, and the ports.
unfoldable pub read_addresses : ℕ → Bytes → Option (Parsed × Bytes)
read_addresses width bs = do
  (src, r) ← chunk width bs
  (dst, r₂) ← chunk width r
  (sp, r₃) ← chunk 2 r₂
  (dp, r₄) ← chunk 2 r₃
  some (
    record {
      src = src;
      dst = dst;
      src_port = big_endian_value 0 sp;
      dst_port = big_endian_value 0 dp;
    },
    r₄,
  )

-- A header as the protocol describes it: the signature, the version with the command, the family, and the
-- length of the addresses, which for a proxied TCP connection is 12 or 36.
unfoldable pub read_header : Bytes → Option (Parsed × Bytes)
unfolding read_addresses
read_header bs = do
  (sig, r) ← chunk 12 bs
  guard (same_bytes sig signature)
  (fixed, r₂) ← chunk 4 r
  if same_bytes fixed (0x21 ∷ 0x11 ∷ 0 ∷ 12 ∷ [])
      then read_addresses 4 r₂
      else if same_bytes fixed (0x21 ∷ 0x21 ∷ 0 ∷ 36 ∷ [])
      then read_addresses 16 r₂
      else none

chunk_of : (n : ℕ) (a b : Bytes) → length a ≡ n → chunk n (a ++ b) ≡ some (a, b)
chunk_of n a b e =
    ground (arith, e, length-append a b, take-append a b n (sym e), drop-append a b n (sym e))

same_ports :
    (src dst rest : Bytes) (a b src_port dst_port : ℕ)
    → a ≡ src_port
    → b ≡ dst_port
    → ◌≡◌ {A = Option (Parsed × Bytes)}
        (some (record { src = src; dst = dst; src_port = a; dst_port = b }, rest))
        (some (record { src = src; dst = dst; src_port = src_port; dst_port = dst_port }, rest))
same_ports src dst rest a b src_port dst_port e f = rw (e, f) refl

read_addresses-address_block :
    (width : ℕ) (src dst rest : Bytes) (src_port dst_port : ℕ)
    → length src ≡ width
    → length dst ≡ width
    → src_port < 2 ^ 16
    → dst_port < 2 ^ 16
    → read_addresses width (address_block src dst src_port dst_port ++ rest)
      ≡ some (record { src = src; dst = dst; src_port = src_port; dst_port = dst_port }, rest)
unfolding read_addresses
read_addresses-address_block width src dst rest src_port dst_port src_len dst_len src_fits
      dst_fits =
    let sp = big_endian16 (src_port % 2 ^ 16) in
    let dp = big_endian16 (dst_port % 2 ^ 16) in
    let src_back : big_endian_value 0 sp ≡ src_port = omega arith in
    let dst_back : big_endian_value 0 dp ≡ dst_port = omega arith in
    rw
      (
        append_assoc src (dst ++ (sp ++ dp)) rest,
        append_assoc dst (sp ++ dp) rest,
        chunk_of width src (dst ++ (sp ++ (dp ++ rest))) src_len,
        chunk_of width dst (sp ++ (dp ++ rest)) dst_len,
        chunk_of 2 sp (dp ++ rest) (omega arith),
        chunk_of 2 dp rest (omega arith),
      )
      (same_ports src dst rest _ _ src_port dst_port src_back dst_back)

read_header-short :
    (src dst rest : Bytes) (src_port dst_port : ℕ)
    → length src ≡ 4
    → length dst ≡ 4
    → src_port < 2 ^ 16
    → dst_port < 2 ^ 16
    → read_header
        (signature ++ (0x21 ∷ 0x11 ∷ 0 ∷ 12 ∷ address_block src dst src_port dst_port ++ rest))
      ≡ some (record { src = src; dst = dst; src_port = src_port; dst_port = dst_port }, rest)
unfolding read_header
read_header-short src dst rest src_port dst_port src_len dst_len src_fits dst_fits =
    let block = address_block src dst src_port dst_port ++ rest in
    rw
      (
        chunk_of 12 signature (0x21 ∷ 0x11 ∷ 0 ∷ 12 ∷ block) (omega arith),
        chunk_of 4 (0x21 ∷ 0x11 ∷ 0 ∷ 12 ∷ []) block (omega arith),
      )
      (read_addresses-address_block 4 src dst rest src_port dst_port src_len dst_len src_fits
        dst_fits)

read_header-long :
    (src dst rest : Bytes) (src_port dst_port : ℕ)
    → length src ≡ 16
    → length dst ≡ 16
    → src_port < 2 ^ 16
    → dst_port < 2 ^ 16
    → read_header
        (signature ++ (0x21 ∷ 0x21 ∷ 0 ∷ 36 ∷ address_block src dst src_port dst_port ++ rest))
      ≡ some (record { src = src; dst = dst; src_port = src_port; dst_port = dst_port }, rest)
unfolding read_header
read_header-long src dst rest src_port dst_port src_len dst_len src_fits dst_fits =
    let block = address_block src dst src_port dst_port ++ rest in
    rw
      (
        chunk_of 12 signature (0x21 ∷ 0x21 ∷ 0 ∷ 36 ∷ block) (omega arith),
        chunk_of 4 (0x21 ∷ 0x21 ∷ 0 ∷ 36 ∷ []) block (omega arith),
      )
      (read_addresses-address_block 16 src dst rest src_port dst_port src_len dst_len src_fits
        dst_fits)

abbrev shortest : TcpAddr → TcpAddr → Option Bytes → Option Bytes → Bytes × Bytes
shortest peer local (some s) (some d) = (s, d)
shortest peer local (some s) none = (peer.ip.to16, local.ip.to16)
shortest peer local none d = (peer.ip.to16, local.ip.to16)

-- The source and the destination that a header is to carry: each address in four bytes when both have
-- that form, else in sixteen; the source is the peer's.
abbrev pub carried : TcpAddr → TcpAddr → Bytes × Bytes
carried peer local = shortest peer local peer.ip.to4 local.ip.to4

-- An address as package net gives it.
pub record IsIp (ip : Ip) : Type 0 where
  pub four : (b : Bytes) → ip.to4 ≡ some b → length b ≡ 4
  pub sixteen : length ip.to16 ≡ 16

-- The header for two TCP addresses is read back, whatever follows it: the peer's address is the source and
-- the local one the destination, both in four bytes when both have that form, else both in sixteen, and the
-- ports are theirs.
pub read_header-stream_header :
    (peer local : TcpAddr) (rest : Bytes)
    → IsIp peer.ip
    → IsIp local.ip
    → peer.port < 2 ^ 16
    → local.port < 2 ^ 16
    → (do header ← stream_header (some peer) (some local); read_header (header ++ rest))
      ≡ some (
        record {
          src = (carried peer local).0;
          dst = (carried peer local).1;
          src_port = peer.port;
          dst_port = local.port;
        },
        rest,
      )
unfolding stream_header
read_header-stream_header peer local rest is_peer is_local peer_port local_port =
    by_form peer.ip.to4 local.ip.to4 is_peer.four is_local.four
  where
    long :
        read_header (header_for none peer local ++ rest)
        ≡ some (
          record {
            src = peer.ip.to16;
            dst = local.ip.to16;
            src_port = peer.port;
            dst_port = local.port;
          },
          rest,
        )
    long =
        read_header-long peer.ip.to16 local.ip.to16 rest peer.port local.port is_peer.sixteen
          is_local.sixteen peer_port local_port

    by_form :
        (s d : Option Bytes)
        → ((b : Bytes) → s ≡ some b → length b ≡ 4)
        → ((b : Bytes) → d ≡ some b → length b ≡ 4)
        → read_header (header_for (both4 s d) peer local ++ rest)
          ≡ some (
            record {
              src = (shortest peer local s d).0;
              dst = (shortest peer local s d).1;
              src_port = peer.port;
              dst_port = local.port;
            },
            rest,
          )
    by_form none d s_len d_len = long
    by_form (some s) none s_len d_len = long
    by_form (some s) (some d) s_len d_len =
        read_header-short s d rest peer.port local.port (s_len s refl) (d_len d refl) peer_port
          local_port
