-- ===== src/Snapshot/Handoff.antt =====
-- scheduler.rs, `complete_chunk_handoff`: what is left in a table, and that the log keeps every file
-- that a remaining chunk needs.
pub mod Drain
pub mod Invariant
pub mod SafeSeq
pub mod Race
