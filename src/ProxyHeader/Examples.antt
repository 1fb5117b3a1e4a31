-- ===== src/ProxyHeader/Examples.antt =====
-- The theorem on PROXY headers for two IPv4 addresses.
use lazygate.Prelude.{[], ◌∷◌, ◌++◌, Bytes, some, ◌>>=◌, length, ◌≡◌, arith}
use lazygate.ProxyHeader.{Ip, TcpAddr, stream_header}
use lazygate.ProxyHeader.Reading.{read_header, IsIp, read_header-stream_header}

abbrev ten : Bytes
ten = 0 ∷ 0 ∷ 0 ∷ 0 ∷ 0 ∷ 0 ∷ 0 ∷ 0 ∷ 0 ∷ 0 ∷ 255 ∷ 255 ∷ []

abbrev near : Ip
near = record { to4 = some (127 ∷ 0 ∷ 0 ∷ 1 ∷ []); to16 = ten ++ 127 ∷ 0 ∷ 0 ∷ 1 ∷ [] }

abbrev far : Ip
far = record { to4 = some (10 ∷ 0 ∷ 0 ∷ 2 ∷ []); to16 = ten ++ 10 ∷ 0 ∷ 0 ∷ 2 ∷ [] }

near-IsIp : IsIp near
near-IsIp = record { four = four; sixteen = omega arith }
  where
    four : (b : Bytes) → some (127 ∷ 0 ∷ 0 ∷ 1 ∷ []) ≡ some b → length b ≡ 4
    four b e = ground (arith, e)

far-IsIp : IsIp far
far-IsIp = record { four = four; sixteen = omega arith }
  where
    four : (b : Bytes) → some (10 ∷ 0 ∷ 0 ∷ 2 ∷ []) ≡ some b → length b ≡ 4
    four b e = ground (arith, e)

abbrev player : TcpAddr
player = record { ip = near; port = 50000 }

abbrev gateway : TcpAddr
gateway = record { ip = far; port = 25565 }

read_header-stream_header_example :
    (do header ← stream_header (some player) (some gateway); read_header (header ++ 7 ∷ []))
    ≡ some (
      record {
        src = 127 ∷ 0 ∷ 0 ∷ 1 ∷ [];
        dst = 10 ∷ 0 ∷ 0 ∷ 2 ∷ [];
        src_port = 50000;
        dst_port = 25565;
      },
      7 ∷ [],
    )
read_header-stream_header_example =
    read_header-stream_header player gateway (7 ∷ []) near-IsIp far-IsIp (omega arith) (omega arith)
