-- ===== src/Proto/Status.antt =====
-- proto/packets.go: the status of a server as it is polled and answered.
use lazygate.Prelude.{ℕ, List, Bytes, Option}

pub record ServerVersion : Type 0 where
  pub name : Bytes
  pub protocol : ℕ  -- uint32

pub record OnlinePlayer : Type 0 where
  pub name : Bytes
  pub id : Bytes

pub record OnlinePlayers : Type 0 where
  pub max : ℕ  -- uint32
  pub online : ℕ  -- uint32
  pub sample : List OnlinePlayer

pub record ServerStatus : Type 0 where
  pub version : ServerVersion
  pub players : OnlinePlayers
  pub description : Bytes
  pub favicon : Option Bytes
  pub forge_data : Bytes
