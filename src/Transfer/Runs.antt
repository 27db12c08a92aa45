-- ===== src/Transfer/Runs.antt =====
-- Runs of a transfer with a digest that is the same for all bytes and a sink that keeps the hashes.
use blaze_net.Common.{
  beq_refl, bytes_eq, nat_eq, Result, ok, err, assoc_table, replicate, All, ℕ, ◌≡◌, refl, sym, true,
  false, none, some, List, [], ◌∷◌, ◌++◌, arith,
}
use blaze_net.Manifest.Defs.{Hash, Blake3}
use blaze_net.Manifest.Runs.{replicate-IsHash}
use blaze_net.Storage.Files.{read_exact_at, after_write, write_loop, write_exact_at}
use blaze_net.Storage.Defs.{
  hex_digit, hex, hex_u64, key, pack, unpack, read_value, read_chunk, store_new, append_value,
  append_chunk,
}
use blaze_net.Storage.Open.{Disk}
use blaze_net.Storage.Runs.{slow_io, list_index, chunk, empty_store}
use blaze_net.Transfer.Frames.{no_connection, be_bytes}
use blaze_net.Transfer.Serve.{node_pack, DataPath, node_read_chunk, handle_conn}
use blaze_net.Transfer.Fetch.{PeerTarget, Endpoint, no_stats, connect_peer, fetch_chunks}
use blaze_net.Transfer.Fetched.{SinkKeeps, fetch_chunks-Good}
use blaze_net.Transfer.Settled.{Logs, Settled, fetch_chunks-Settled}
use blaze_net.Transfer.Answered.{Has, fetch_chunks-handle_conn}

abbrev pub seven : Hash
seven = replicate 32 7

unfoldable pub seven_digest : Blake3
seven_digest = record {
  digest = λ bytes. seven;
  digest-IsHash = λ bytes. replicate-IsHash 7 (omega arith);
}

abbrev empty_disk : Disk list_index.T
empty_disk game_id = ok (record { index = list_index.empty; pack_file = [] })

abbrev pub keep_hash : Hash → List ℕ → List Hash → Result ℕ (Unit {0}) × List Hash
keep_hash h bytes s = (ok tt, h ∷ s)

abbrev peer : PeerTarget
peer = record { endpoint_id = 1; addr = some 2; relay_url = none; direct_only = true }

-- An endpoint whose connections all answer the same.
abbrev pub always : (List ℕ → List ℕ) → Endpoint
always answer = record {
  connect_direct = λ id addr. ok answer;
  parse_url = λ url. none;
  connect_relay = λ id relay. err no_connection;
}

-- A frame of five bytes, and half a frame.
abbrev broken_answer : List ℕ → List ℕ
broken_answer request = be_bytes 4 5 ++ (chunk ++ (0 ∷ 0 ∷ []))

abbrev wanted : List Hash
wanted = seven ∷ replicate 32 8 ∷ []

abbrev AllSeven : List Hash → Type 0
AllSeven = All (λ h. h ≡ seven)

seven_kept : SinkKeeps seven_digest keep_hash AllSeven wanted
unfolding seven_digest
seven_kept hash bytes s asked same g = (sym same, g)

fetch_chunks-Good_example :
    AllSeven (fetch_chunks seven_digest keep_hash (always broken_answer) peer 3 wanted []).1
fetch_chunks-Good_example =
    fetch_chunks-Good seven_digest keep_hash AllSeven (always broken_answer) peer 3 wanted []
      seven_kept tt

keep_hash-Logs : Logs seven_digest keep_hash (λ s. s)
keep_hash-Logs = record {
  added = λ h bytes s done. rw (beq_refl h) refl;
  kept = λ h g bytes s inside. ground (arith, inside);
}

fetch_chunks-Settled_example :
    Settled seven_digest keep_hash
      (λ s. s)
      wanted
      no_stats
      []
      (fetch_chunks seven_digest keep_hash (always broken_answer) peer 3 wanted [])
fetch_chunks-Settled_example =
    fetch_chunks-Settled seven_digest keep_hash (λ s. s) (always broken_answer) peer 3 wanted []
      keep_hash-Logs

-- A node that serves game 3 from its pack store, which has the chunk.
abbrev node : DataPath list_index slow_io empty_disk
node = record {
  stores = (3, node_pack 3) ∷ [];
  pack_stores = (3, (append_chunk list_index slow_io seven chunk empty_store).1) ∷ [];
}

seven-Has :
    Has seven_digest
      (λ h. chunk)
      (node_read_chunk list_index slow_io empty_disk node (node_pack 3))
      seven
unfolding assoc_table append_chunk append_value store_new write_exact_at write_loop after_write key
    hex hex_u64 hex_digit node_read_chunk read_chunk read_value seven_digest read_exact_at unpack
    pack
seven-Has = record { hash_fits = refl; found = refl; digest = refl; fits = omega arith }

abbrev answer : List ℕ → List ℕ
answer request = (handle_conn list_index slow_io empty_disk false false request node).0.1

fetch_chunks-handle_conn_example :
    fetch_chunks seven_digest keep_hash (always answer) peer 3 (seven ∷ []) []
    ≡ (ok (record { downloaded = 1; bytes = 5; failed = [] }), seven ∷ [])
fetch_chunks-handle_conn_example =
    fetch_chunks-handle_conn seven_digest (λ h. chunk) list_index slow_io empty_disk keep_hash
      (always answer) peer false false 3 (seven ∷ []) [] node (node_pack 3)
      (unfold connect_peer in refl) (omega arith) (omega arith) (omega arith) refl (seven-Has, tt)
      (λ h bytes s. refl)
