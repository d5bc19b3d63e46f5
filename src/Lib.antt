-- ===== src/Lib.antt =====
-- iedb, a time-series database: agents take writes into a log and an in-memory buffer, answer queries from
-- the buffer, and flush closed time windows as parquet files to a server.
--
-- The program's parts, and the files about them:
--   * src/agent/buffer/chunk.rs: field values, schema, rows and chunks with their bounds and tag
--     index in Chunk, and the tables with their ordered chunks in Table;
--   * src/agent/buffer/mod.rs: the tables of all databases in Buffer;
--   * src/agent/buffer/query.rs: the query over a table in Query;
--   * src/agent/wal/mod.rs and serialize.rs: the ops of the log and the format of a file in Wal and
--     Wal/Serialize;
--   * src/agent/wal/wal_core.rs: the WalManager in Wal/Manager, the names of its files in
--     Wal/FileName, apply_write_batch in Wal/Apply;
--   * src/agent/flush/scheduler.rs: the marker of closed windows, the capture of chunks and
--     complete_chunk_handoff in Snapshot, do_snapshot in Snapshot/Cycle, the loop and the status in
--     Snapshot/Schedule; its staging retry and the targets of an upload, with staging_save of
--     src/agent/flush/http_upload.rs, in Staging;
--   * src/agent/write.rs: the write handler in Write (from lines to batches) and Write/Commit (from
--     the request to the response), with flush_and_apply and the start in src/main.rs;
--   * src/agent/hot_config.rs and the parsers of src/config.rs in HotConfig;
--   * src/server/federation/time_filter.rs in TimeFilter; mod.rs in Server/Federation (the walk that
--     extracts the tables of a query, with Names, Walk and Occurrences), Server/Federation/Catalog (batches,
--     the catalog and, of provider.rs, the providers), Server/Federation/Plan (the providers that a query
--     swaps in and restores) and Server/Federation/Range (the time range of a query);
--   * src/server/db.rs, the SQLite tables, in Server/Db;
--   * src/server/agent_store.rs in Server/Agents, agent_api.rs in Server/AgentApi with the heartbeat task
--     of src/main.rs in Beats and compute_schema_changes of src/agent/mod.rs in Changes, and
--     the task with it in Rounds;
--   * src/server/metadata_store.rs in Server/Metadata, its read_parquet_stats in Server/Footer;
--   * src/server/ingest_api.rs in Server/Ingest, with the client of it in
--     src/agent/flush/http_upload.rs in Server/Ingest/Client;
--   * src/server/compaction.rs in Server/Compaction.
-- Base has the helpers that all of them share, and Tests the runs and the witnesses.
--
-- How they interact: a write becomes WriteBatch ops that the WalManager buffers (buffer_op) and writes to
-- one file per flush (flush); the ops are then applied to the Buffer (apply_write_batch) under the number
-- of that file. A snapshot captures the chunks below a marker, and complete_chunk_handoff takes the
-- captured rows out of the buffer, records the sequence number that no remaining chunk needs, and cleans
-- the log up to it (cleanup). At startup the manager goes on above every file (WalManager::new), and
-- replay applies the files above the recorded number. An agent uploads a file under a name that tells it
-- from every other (build_ingest_url); the server stores it unless the file or a tombstone of that name
-- exists, and adds the file's statistics to the store (update_stats). Compaction merges small files into
-- one, leaves a tombstone for each of them and counts the table again (recount_table). A heartbeat of the
-- agent brings back the configuration that an operator stored and carries changes of its schema. A query
-- swaps a federated provider in for each table that it names and restores the providers afterwards.
--
-- How state is modelled: a struct is a record and a `&mut self` method a function to the new state. The
-- file system is the record Disk: the files of the log by name and content, and the number in
-- meta/last_snapshot.json; Cluster adds the staging directory and what the backend has received. What an
-- I/O call does is an argument (WriteOutcome, MetaOutcome, SaveOutcome, Outcome), so that each error path
-- is a value. Db has the SQLite tables as lists of rows, Server the server's files with that store and the
-- engine's tables; what an I/O call does there is in IngestEnv, FileOutcome and MergeOutcome. A `&mut`
-- that a function returns (get_or_create_table, get_or_create_chunk) is a function that takes what the
-- caller does with it. Locks are not modelled: each function is one critical section, and an interleaving
-- is a sequence of calls.
--
-- Numbers: i64 is ℤ of Base/Int, u64 is ℕ with its bounds written out; `+ 1` on a sequence number wraps.
-- The interval of a snapshot wraps where its seconds become nanoseconds; the other clock arithmetic is
-- exact. A usize has 64 bits. Text that the code takes apart is a list of bytes, on the server's side a
-- list of character numbers (Chars of Base/Text/Codes). Every loop is over a list; only the decimal digits
-- of a number take fuel, 20 of it, which a u64 and an i64 need at most, as parse_i64-int_text of
-- Base/Text/Laws shows.
--
-- Parameters: bitcode (encode, decode), crc32fast (crc32), serde_json (to_json, from_str, null, its test
-- and the accessors of a value), the parquet writer, the reader of a parquet footer (footer), and of
-- DataFusion and Arrow the merge of files, the null arrays, the planner, the reading of a table name and
-- the fetch of a remote batch are arguments, and what a theorem needs of them is among its hypotheses.
-- Tests/Codec builds an encoder and a decoder that meet them.
--
-- Not modelled: HTTP, the encoding of parquet, S3 and the line-protocol parser, which are third-party code
-- or calls of it; the routes of the two processes, metadata_api.rs, sql_api.rs, query_engine.rs and
-- table_provider.rs of the server; an SQLite call that fails, but for list_table_agents in a federated
-- query; a read_dir that fails; the URL that a federated provider calls; the callback of the local
-- backend.
pub mod Base
pub mod Chunk
pub mod Table
pub mod Buffer
pub mod Query
pub mod Wal
pub mod Snapshot
pub mod Write
pub mod TimeFilter
pub mod HotConfig
pub mod Staging
pub mod Server
pub mod Tests
