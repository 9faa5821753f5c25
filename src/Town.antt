-- ===== src/Town.antt =====
-- edge/src/town.ts: the class Town. Its methods are actions on a `World`, in the children named for
-- the sections of the file.
pub mod World
pub mod Exec
pub mod Session
pub mod Lobby
pub mod Companion
pub mod Jojo
pub mod Chat
pub mod Sweep
pub mod Hoare
pub mod Sound
