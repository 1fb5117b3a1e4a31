-- ===== src/Proto.antt =====
-- proto/: the Minecraft wire protocol. A `[]byte` and a Go string are lists of byte values, an
-- int32 is its 32-bit pattern (so `v < 0` in the source is `2 ^ 31 ≤ v` here).
pub mod VarInt
pub mod Writer
pub mod Reader
pub mod Client
pub mod Packets
pub mod Framing
pub mod Stream
pub mod Status
pub mod Json
