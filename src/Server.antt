-- ===== src/Server.antt =====
-- The Durable Object around the town: edge/src/townObject.ts, and moderation.ts.
pub mod Wire
pub mod Dispatch
pub mod Events
pub mod Sound
pub mod Reach
pub mod Alarm
pub mod Admin
pub mod Sockets
pub mod Moderation
