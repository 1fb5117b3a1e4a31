-- ===== src/ProxyHeader.antt =====
-- proxyv2/proxyv2.go: the PROXY protocol header, version 2, that stands in front of a proxied connection.
--
-- An address is what package net answers for it: `To4`, the four bytes of an IPv4 address or nothing, and
-- `To16`, the sixteen bytes.
pub mod Reading
mod Examples
use lazygate.Prelude.{ℕ, ◌/◌, ◌%◌, ◌^◌, List, [], ◌∷◌, ◌++◌, Bytes, Option, none, some}
use lazygate.Proto.Writer.{big_endian16}

abbrev pub signature : Bytes
signature = 13 ∷ 10 ∷ 13 ∷ 10 ∷ 0 ∷ 13 ∷ 10 ∷ 81 ∷ 85 ∷ 73 ∷ 84 ∷ 10 ∷ []

-- `LocalHeader`
unfoldable pub local_header : Bytes
local_header = signature ++ 0x20 ∷ 1 ∷ 0 ∷ 0 ∷ []

pub record Ip : Type 0 where
  pub to4 : Option Bytes
  pub to16 : Bytes

-- A TCP address
pub record TcpAddr : Type 0 where
  pub ip : Ip
  pub port : ℕ

-- The addresses and the ports, behind the first sixteen bytes.
abbrev pub address_block : Bytes → Bytes → ℕ → ℕ → Bytes
address_block src dst src_port dst_port =
    src ++ (dst ++ (big_endian16 (src_port % 2 ^ 16) ++ big_endian16 (dst_port % 2 ^ 16)))

-- The IPv4 form, when both addresses have one.
abbrev pub both4 : Option Bytes → Option Bytes → Option (Bytes × Bytes)
both4 none dst = none
both4 (some src) none = none
both4 (some src) (some dst) = some (src, dst)

abbrev pub header_for : Option (Bytes × Bytes) → TcpAddr → TcpAddr → Bytes
header_for (some (src, dst)) peer local =
    signature ++ (0x21 ∷ 0x11 ∷ 0 ∷ 0x0C ∷ address_block src dst peer.port local.port)
header_for none peer local =
    signature
    ++ (0x21 ∷ 0x21 ∷ 0 ∷ 0x24 ∷ address_block peer.ip.to16 local.ip.to16 peer.port local.port)

-- `StreamHeader`, where an address that is not one of TCP is an error
unfoldable pub stream_header : Option TcpAddr → Option TcpAddr → Option Bytes
stream_header none local = none
stream_header (some peer) none = none
stream_header (some peer) (some local) =
    some (header_for (both4 peer.ip.to4 local.ip.to4) peer local)
