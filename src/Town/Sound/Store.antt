-- ===== src/Town/Sound/Store.antt =====
-- What the methods of store.ts need and keep of the invariant.
pub mod Ending
pub mod Starting
pub mod Talking
pub mod Waiting
