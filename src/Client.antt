-- ===== src/Client.antt =====
-- The web client of the town (frontend/lib/lbt): what a visitor's page keeps, and the connection.
pub mod State
pub mod Clock
pub mod Handle
pub mod Actions
pub mod Run
pub mod Consistent
pub mod Screens
pub mod Over
pub mod Lines
pub mod Typing
pub mod Sending
pub mod Phases
pub mod TownTime
pub mod Unlocked
pub mod Frames
pub mod Understood
pub mod Connection
pub mod Live
