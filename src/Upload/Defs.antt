-- ===== src/Upload/Defs.antt =====
-- The handlers of the upload service of origin/src/server.rs. A stream of requests is the list of what
-- it yields; a handler returns its reply, what it sent, and the state that it leaves.
use blaze_net.Common.{
  if◌then◌else◌, ◌==◌, bytes_eq, nat_eq, Result, ok, err, ◌>>=◌, Table, length, lookup, ℕ, Bool,
  true, false, not, none, some, List, [], ◌∷◌,
}
use blaze_net.Manifest.Defs.{hash_len, Hash, Blake3, DecodeError}
use blaze_net.Storage.Files.{IoError, PosixFile}
use blaze_net.Storage.Defs.{GameStore, contains_chunk, append_chunk}
use blaze_net.Storage.Open.{Disk, open_store}

pub data Status : Type 0 where
  zero_id bad_hash_len bad_manifest_hash_len manifest_too_short manifest_hash_mismatch : Status
  create_publish_dir write_manifest : Status
  open_store_error : IoError → Status
  decode_manifest : DecodeError → Status
  -- An error that the transport puts into the stream.
  transport : ℕ → Status

pub data AckError : Type 0 where
  no_error digest_mismatch : AckError
  append_failed : IoError → AckError

pub record UploadChunk : Type 0 where
  pub game_id : ℕ
  pub chunk_hash : List ℕ
  pub bytes : List ℕ

pub record UploadAck : Type 0 where
  pub chunk_hash : List ℕ
  pub accepted : Bool
  pub error : AckError

unfoldable pub append_ack : Result IoError (ℕ × ℕ) → Hash → UploadAck
append_ack (ok at) hash = record { chunk_hash = hash; accepted = true; error = no_error }
append_ack (err e) hash = record { chunk_hash = hash; accepted = false; error = append_failed e }

-- `try_into` of a slice to `[u8; 32]`
unfoldable pub to_hash : Status → List ℕ → Result Status Hash
to_hash e bytes = if length bytes == hash_len then ok bytes else err e

unfoldable pub map_open : {A : Type 0} → Result IoError A → Result Status A
map_open (ok a) = ok a
map_open (err e) = err (open_store_error e)

-- The open stores by game; the first entry of a game is its store.
abbrev pub Stores : Type 0 → Type 0
Stores T = List (ℕ × GameStore T)

module _ (db : Table (List ℕ) ℕ) (disk : Disk db.T) where
  -- `stores.entry(game_id)`: the open store, or one opened now.
  unfoldable pub entry : ℕ → Stores db.T → Result Status (GameStore db.T)
  unfolding map_open open_store
  entry game_id stores = elim (lookup game_id stores) [
    | some store ↦ ok store
    | none ↦ map_open (open_store db disk game_id)
  ]

module _ (blake3 : Blake3) (db : Table (List ℕ) ℕ) (io : PosixFile) (disk : Disk db.T) where
  -- One turn of the loop of `process_upload`, for a hash of the right length.
  unfoldable pub upload_one : Hash → List ℕ → GameStore db.T → UploadAck × GameStore db.T
  unfolding append_ack append_chunk
  upload_one hash bytes store =
      if not (blake3.digest bytes == hash)
      then (record { chunk_hash = hash; accepted = false; error = digest_mismatch }, store)
      else let (out, store') = append_chunk db io hash bytes store in (append_ack out hash, store')

  unfoldable pub upload_loop :
      List (Result Status UploadChunk)
      → GameStore db.T
      → (Result Status (Unit {0}) × List (Result Status UploadAck)) × GameStore db.T
  unfolding to_hash upload_one
  upload_loop [] store = ((ok tt, []), store)
  upload_loop (err e ∷ rest) store = ((err e, []), store)
  upload_loop (ok chunk ∷ rest) store =
      let (ack, after) = upload_one chunk.chunk_hash chunk.bytes store in
      let ((done, acks), last) = upload_loop rest after in
      elim (to_hash bad_hash_len chunk.chunk_hash) [
        | err e ↦ ((err e, []), store)
        | ok hash ↦ ((done, ok ack ∷ acks), last)
      ]

  -- `process_upload`: its result, what it sends, and the open stores. The store of the first
  -- chunk's game takes all chunks of the stream.
  unfoldable pub process_upload :
      List (Result Status UploadChunk)
      → Stores db.T
      → (Result Status (Unit {0}) × List (Result Status UploadAck)) × Stores db.T
  unfolding entry upload_loop
  process_upload [] stores = ((ok tt, []), stores)
  process_upload (err e ∷ rest) stores = ((err e, []), stores)
  process_upload (ok first ∷ rest) stores =
      if first.game_id == 0
      then ((ok tt, err zero_id ∷ []), stores)
      else elim (entry db disk first.game_id stores) [
        | err e ↦ ((err e, []), stores)
        | ok store ↦
            let (sent, store') = upload_loop (ok first ∷ rest) store in
            (sent, (first.game_id, store') ∷ stores)
      ]

  unfoldable pub existing : List (List ℕ) → GameStore db.T → Result Status (List Hash)
  unfolding to_hash contains_chunk
  existing [] store = ok []
  existing (bytes ∷ rest) store = do
    hash ← to_hash bad_hash_len bytes
    more ← existing rest store
    ok (if contains_chunk db io hash store then hash ∷ more else more)

  unfoldable pub query_existing_chunks :
      ℕ → List (List ℕ) → Stores db.T → Result Status (List Hash) × Stores db.T
  unfolding entry existing
  query_existing_chunks game_id hashes stores =
      if game_id == 0 then (err zero_id, stores) else elim (entry db disk game_id stores) [
        | err e ↦ (err e, stores)
        | ok store ↦ (existing hashes store, (game_id, store) ∷ stores)
      ]
