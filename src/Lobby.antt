-- ===== src/Lobby.antt =====
-- lobby.go, mc/dimension.go: the lobby world, and the login of a lobby client at the backend.
pub mod Dimension
pub mod World
pub mod Params
pub mod Login
pub mod Reader
pub mod Framing
pub mod Connect
pub mod JoinWait
mod Examples
