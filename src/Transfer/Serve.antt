-- ===== src/Transfer/Serve.antt =====
-- The serving side of a transfer, origin/src/datapath.rs: a connection is the bytes of its request, and
-- serving it gives a result, the bytes that were sent, and the stores that are open afterwards.
use blaze_net.Common.{
  if◌then◌else◌, bytes_eq, nat_eq, Result, ok, err, ◌>>=◌, Table, length, lookup, ℕ, zero, suc, ◌%◌,
  ◌^◌, Bool, true, false, not, ◌||◌, Option, none, some, List, [], ◌∷◌, ◌++◌,
}
use blaze_net.Manifest.Defs.{hash_len, Hash}
use blaze_net.Storage.Files.{IoError, PosixFile}
use blaze_net.Storage.Defs.{read_chunk}
use blaze_net.Storage.Open.{Disk, open_store}
use blaze_net.Upload.Defs.{Stores}
use blaze_net.Transfer.Frames.{NetError, be_bytes, recv_exact, recv_int}

unfoldable pub allow_data : Bool → Bool → Bool
allow_data has_direct has_relay = has_direct

unfoldable pub reject_relay_only : Bool → Bool → Result NetError (Unit {0})
unfolding allow_data
reject_relay_only has_direct has_relay =
    if not (allow_data has_direct has_relay) then ok tt else ok tt

unfoldable pub gate_or_reject : Bool → Result NetError (Unit {0})
unfolding reject_relay_only
gate_or_reject ready = if not ready then reject_relay_only false true else ok tt

-- What one turn of the wait sees: a direct path, a relay path, and the deadline passed.
pub record Paths : Type 0 where
  pub has_direct : Bool
  pub has_relay : Bool
  pub late : Bool

-- The turns of the wait; `none` while it has not ended.
unfoldable pub wait_for_direct_path : List Paths → Option Bool
wait_for_direct_path [] = none
wait_for_direct_path (p ∷ ps) =
    let later = wait_for_direct_path ps in
    if p.has_direct then some true else if not p.has_relay || p.late then some false else later

pub data ServeError : Type 0 where
  unmanaged no_chunk : ServeError
  stream_error : NetError → ServeError
  store_error : IoError → ServeError

unfoldable pub map_stream : {A : Type 0} → Result NetError A → Result ServeError A
map_stream (ok a) = ok a
map_stream (err e) = err (stream_error e)

-- A source of chunks: the pack store of a game, shared with the upload service, or the files of an
-- internet cafe.
pub data NodeStore : Type 0 where
  node_pack : ℕ → NodeStore
  node_cafe : (Hash → Result IoError (Option (List ℕ))) → NodeStore

-- The frames of the chunks that a request names.
unfoldable pub serve_loop :
    (Hash → Result IoError (Option (List ℕ))) → ℕ → List ℕ → Result ServeError (Unit {0}) × List ℕ
unfolding recv_exact be_bytes
serve_loop read zero rest = (ok tt, [])
serve_loop read (suc count) rest = elim (recv_exact hash_len rest) [
  | err e ↦ (err (stream_error e), [])
  | ok (hash, rest') ↦
      let (done, more) = serve_loop read count rest' in
      elim (read hash) [
        | err e ↦ (err (store_error e), [])
        | ok found ↦ elim found [
          | none ↦ (err no_chunk, [])
          | some bytes ↦ (done, be_bytes 4 (length bytes % 2 ^ 32) ++ (bytes ++ more))
        ]
      ]
]

module _ (db : Table (List ℕ) ℕ) (io : PosixFile) (disk : Disk db.T) where
  -- What the node serves, and the open pack stores.
  pub record DataPath : Type 0 where
    pub stores : List (ℕ × NodeStore)
    pub pack_stores : Stores db.T

  unfoldable pub node_read_chunk : DataPath → NodeStore → Hash → Result IoError (Option (List ℕ))
  unfolding read_chunk
  node_read_chunk d (node_pack game_id) hash = elim (lookup game_id d.pack_stores) [
    | none ↦ ok none
    | some store ↦ read_chunk db io hash store
  ]
  node_read_chunk d (node_cafe read) hash = read hash

  -- The store of the game, or its pack store opened now.
  unfoldable pub node_store : Bool → ℕ → DataPath → Result ServeError NodeStore × DataPath
  unfolding open_store
  node_store pack_default game_id d = elim (lookup game_id d.stores) [
    | some store ↦ (ok store, d)
    | none ↦ if not pack_default then (err unmanaged, d) else elim (lookup game_id d.pack_stores) [
      | some opened ↦
          (ok (node_pack game_id), record d { stores = (game_id, node_pack game_id) ∷ d.stores })
      | none ↦ elim (open_store db disk game_id) [
        | err e ↦ (err (store_error e), d)
        | ok opened ↦ (
          ok (node_pack game_id),
          record {
            stores = (game_id, node_pack game_id) ∷ d.stores;
            pack_stores = (game_id, opened) ∷ d.pack_stores;
          },
        )
      ]
    ]
  ]

  unfoldable pub serve_request :
      ℕ
      → List ℕ
      → Result ServeError NodeStore × DataPath
      → (Result ServeError (Unit {0}) × List ℕ) × DataPath
  unfolding serve_loop node_read_chunk
  serve_request count rest (err e, d) = ((err e, []), d)
  serve_request count rest (ok store, d) = (serve_loop (node_read_chunk d store) count rest, d)

  unfoldable pub handle_conn :
      Bool → Bool → List ℕ → DataPath → (Result ServeError (Unit {0}) × List ℕ) × DataPath
  unfolding gate_or_reject recv_int map_stream node_store serve_request
  handle_conn pack_default ready request d =
      elim (map_stream (do
        _ ← gate_or_reject ready
        (game_id, rest) ← recv_int 8 request
        (count, rest') ← recv_int 4 rest
        ok (game_id, count, rest'))) [
          | err e ↦ ((err e, []), d)
          | ok head ↦
              let (game_id, count, rest) = head in
              serve_request count rest (node_store pack_default game_id d)
        ]
