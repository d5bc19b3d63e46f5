-- ===== src/Server.antt =====
-- The server's side, src/server: its SQLite tables in Server/Db, the agents it knows in Server/Agents
-- with their endpoints in Server/AgentApi, parquet footers in Server/Footer, the statistics of the tables
-- in Server/Metadata, uploads in Server/Ingest, the merge of small files in Server/Compaction, queries
-- that also read the agents in Server/Federation.
pub mod Db
pub mod Footer
pub mod Agents
pub mod Metadata
pub mod AgentApi
pub mod Ingest
pub mod Compaction
pub mod Federation
