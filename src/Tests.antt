-- ===== src/Tests.antt =====
-- Concrete runs of the model and the theorems at concrete inputs, one module for each part.
mod Codec
mod Wal
mod Chunk
mod Snapshot
mod Write
mod Settings
mod Staging
mod Ingest
mod Compaction
mod Federation
