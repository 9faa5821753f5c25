-- ===== src/Store.antt =====
-- edge/src/store.ts. `State` is the Durable Object's storage: a field for each fixed key, and a map
-- for each family of keys (`conv:`, `lines:`, `votes:`). An event runs alone, so a method is a
-- function of the state. The methods stand in the children, by the keys that they touch.
pub mod State
pub mod Presence
pub mod Queue
pub mod Chats
pub mod Blocks
pub mod Limits
