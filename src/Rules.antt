-- ===== src/Rules.antt =====
-- edge/src/rules.ts: the pure rules, one module for each of its sections.
pub mod Cleaning
pub mod Contacts
pub mod Profile
pub mod Pairing
pub mod Hours
