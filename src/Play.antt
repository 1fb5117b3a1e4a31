-- ===== src/Play.antt =====
-- proto/packets/play/: the packets of the play state that the lobby sends and reads.
pub mod Ids
pub mod JoinGame
pub mod Lobby
pub mod Packets
pub mod Title
