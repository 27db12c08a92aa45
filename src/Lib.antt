-- ===== src/Lib.antt =====
-- BlazeNet distributes games: a producer cuts a version of a game into chunks and publishes its
-- manifest, origin and IDC nodes keep the chunks, and the agents of the cafes compute what an update
-- needs and fetch it from peers that the scheduler names. This library models the parts of the Rust
-- program that carry this logic.
--
-- Parts and files
--   Manifest   crates/blaze-common/src/manifest.rs: the manifest of a version, `GameIndex::build`,
--              `encode`, `decode` and `chunk_set`. The cursor is the list of bytes still to read.
--   Plan       crates/blaze-common/src/update_plan.rs: `compute` takes the manifests of two versions
--              and the chunks at hand, and lists the files and chunks of an update. It reads the
--              manifests that `Manifest.Defs.decode` returns.
--   Ping       crates/blaze-common/src/keepalive.rs, and the answer of
--              crates/agent/src/keepalive.rs to one datagram.
--   Keepalive  crates/scheduler/src/keepalive.rs: the state of each probed address, `register`,
--              `record` (record_result), `probe_due`, `unavailable`.
--   Storage    crates/origin/src/storage.rs: the loops over pread and pwrite (Files), the pack file
--              and its index (Defs): `append_chunk`, `read_chunk`, `contains` (contains_chunk),
--              `append_chunks_batch` (Batch) and `GameStore::open` (Open, open_store).
--   Upload     crates/origin/src/server.rs: the streams of a producer, `process_upload` and
--              `query_existing_chunks` (Defs), and `commit_version` (Commit), over the open chunk
--              stores of Storage. Known puts the control service of Scheduler at the other end.
--   Transfer   The bytes between two nodes. Serve: crates/origin/src/datapath.rs, `handle_conn` with
--              its gate and the store of the game. Fetch: crates/agent/src/fetch.rs, `connect_peer`,
--              `store_chunk`, `fetch_chunks`. A connection is a function from the request to the
--              answer, so any peer is one, and `handle_conn` is one.
--   Executor   crates/agent/src/executor.rs: `download_missing` groups the missing chunks by source
--              (Defs), runs two rounds of `fetch_chunks` and goes to the origin for its share (Rounds).
--   Merge      crates/agent/src/update.rs: `plan_update` with the scan of the temporary
--              directory (Temps), `write_new_file` and `merge_files` (Defs) over the directory of a
--              game, from the chunks that Executor has fetched and the old files.
--   Cafe       crates/agent/src/cafe_store.rs: the map of a version into the game files, the reads that
--              serve its chunks to other cafes, and the removal of old temporary chunks.
--   Scheduler  Db: crates/scheduler/src/db.rs, the tables and the operations of `Store`. Control:
--              crates/scheduler/src/server.rs, the handlers of the control service, which share the
--              store and the queues of task events. Admin: crates/scheduler/src/http.rs, the
--              handlers for games, tasks, accounts, places, groups and bindings; they call the
--              store and `push_task` of the control service. Probes: a turn of the loop `run` of
--              crates/scheduler/src/keepalive.rs over the store.
--   Common     lists, byte strings, results, sets and the interface of a table, which the parts share.
-- In each part Defs (Records and Tables in Scheduler.Db) holds the definitions, Runs the examples,
-- and the other modules the proofs.
--
-- State and results
--   A handler takes the state and returns its result together with the state that it leaves, on the
--   error paths too. A hash, a name and a text are lists of numbers. Machine integers keep their
--   wrap-around as a remainder.
--
-- Parameters
--   blake3 (`Manifest.Defs.Blake3`: a digest of 32 bytes), the tables of redb (`Common.Redb.Table`:
--   what a committed transaction leaves; Common.Redb.assoc_table keeps the laws), serde_json
--   (`Scheduler.Db.Records.Json`: what was written is read back; Scheduler.Db.Memory has one that
--   does), pread and pwrite (`Storage.Files.PosixFile`: how many bytes a call transfers), the
--   standard hasher of an address (a function argument), the clock (an argument of the handlers),
--   iroh (`Transfer.Fetch.Endpoint`, `Executor.Defs.Network`: what connects and what an id parses to),
--   the answers of the scheduler to an agent (Network), the directories (`Upload.Commit.PublishDir`,
--   `Merge.Defs.FileSystem`: what a file holds after a call), and the order of a set of hashes
--   (`Upload.Commit.HashSet`).
--
-- Fuel
--   The loops of Storage.Files run on as much fuel as the buffer has bytes, since each call that goes
--   on transfers at least one. `connect_control` makes 30 attempts and `download_missing` two rounds, as
--   the program does. `decimal` has 20 digits, enough for 64 bits.
--
-- Not modelled
--   Failures of redb itself, and a read of the pack file that the device fails (`read_at` always
--   transfers something, where a write may fail); the sockets and timers, and a write to a stream that fails. The groups of
--   a round of `download_missing` run one after the other, where the program runs them at once; the
--   limit of the rate is left out. The tasks of the executor around the download, the start of a cafe store,
--   DownloadManager (used by its tests only), the producer, the relay, the configuration files and the web client.
pub mod Common
pub mod Manifest
pub mod Plan
pub mod Ping
pub mod Keepalive
pub mod Storage
pub mod Scheduler
pub mod Cafe
pub mod Executor
pub mod Merge
pub mod Transfer
pub mod Upload
