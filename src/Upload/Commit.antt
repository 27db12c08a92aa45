-- ===== src/Upload/Commit.antt =====
-- `commit_version` of origin/src/server.rs. The directory of published manifests and the scheduler at
-- the other end of the connection are parameters.
use blaze_net.Common.{
  ltb, if◌then◌else◌, ◌==◌, bytes_eq, nat_eq, Result, ok, err, ◌>>=◌, Table, length, take, contains,
  ℕ, zero, suc, ◌+◌, ◌-◌, ◌≡◌, Bool, true, false, not, ◌||◌, Option, none, some, List, [], ◌∷◌,
}
use blaze_net.Manifest.Defs.{Hash, GameIndex, Blake3, DecodeError, decode, chunk_set}
use blaze_net.Storage.Files.{PosixFile}
use blaze_net.Storage.Defs.{GameStore, contains_chunk}
use blaze_net.Storage.Open.{Disk}
use blaze_net.Upload.Defs.{
  Status, zero_id, bad_manifest_hash_len, manifest_too_short, manifest_hash_mismatch,
  create_publish_dir, write_manifest, decode_manifest, to_hash, Stores, entry,
}

-- The directories `<game>/published` of the file system.
pub record PublishDir : Type 1 where
  pub D : Type 0
  pub create_dir_all : ℕ → D → Bool × D
  -- `std::fs::write` of the file of a version, and whether it succeeded.
  pub write : ℕ → ℕ → List ℕ → D → Bool × D
  pub read : ℕ → ℕ → D → Option (List ℕ)
  pub read-write :
      (game_id version : ℕ) (bytes : List ℕ) (d : D)
      → (write game_id version bytes d).0 ≡ true
      → read game_id version (write game_id version bytes d).1 ≡ some bytes

-- The scheduler over the network: whether the n-th attempt connects, and the call `publish_version`,
-- with no reply if it fails.
pub record Scheduler : Type 1 where
  pub S : Type 0
  pub connects : ℕ → Bool
  pub publish_version : ℕ → ℕ → List ℕ → S → Option Bool × S

-- A set of hashes is iterated in an order that is not known.
pub record HashSet : Type 0 where
  pub iter : List Hash → List Hash
  pub contains-iter : (h : Hash) (hashes : List Hash) → contains h (iter hashes) ≡ contains h hashes

pub record CommitRequest : Type 0 where
  pub game_id : ℕ
  pub version : ℕ
  pub manifest : List ℕ
  pub manifest_hash : List ℕ

pub data CommitReply : Type 0 where
  published : CommitReply
  chunks_missing : List Hash → CommitReply
  publish_failed : CommitReply

unfoldable pub ensure_publish_ok : Option Bool → Bool
ensure_publish_ok none = false
ensure_publish_ok (some accepted) = accepted

unfoldable pub map_decode : Result DecodeError GameIndex → Result Status GameIndex
map_decode (ok index) = ok index
map_decode (err e) = err (decode_manifest e)

-- The loop of `commit_version` over the chunks, which stops at the fifth that is missing.
unfoldable pub missing_of : (Hash → Bool) → ℕ → List Hash → List Hash
missing_of present room [] = []
missing_of present zero (h ∷ hs) = []
missing_of present (suc room) (h ∷ hs) =
    let skip = missing_of present (suc room) hs in
    let take_it = missing_of present room hs in if present h then skip else h ∷ take_it

-- The result of the call if the connection is there, and a failure if not.
unfoldable pub told : {S : Type 0} → Bool → Option Bool × S → S → Bool × S
unfolding ensure_publish_ok
told true (reply, s') s = (ensure_publish_ok reply, s')
told false call s = (false, s)

module _ (sch : Scheduler) where
  -- Attempts from number i on.
  unfoldable pub connect_loop : ℕ → ℕ → Bool
  connect_loop zero i = false
  connect_loop (suc attempts) i = if sch.connects i then true else connect_loop attempts (i + 1)

  unfoldable pub connect_control : Bool
  unfolding connect_loop
  connect_control = connect_loop 30 0

  unfoldable pub publish_to_scheduler : ℕ → ℕ → List ℕ → sch.S → Bool × sch.S
  unfolding connect_control told
  publish_to_scheduler game_id version manifest s =
      told connect_control (sch.publish_version game_id version manifest s) s

module _ (blake3 : Blake3) (db : Table (List ℕ) ℕ) (io : PosixFile) (disk : Disk db.T)
    (set : HashSet) (dir : PublishDir) (sch : Scheduler) where
  pub record Origin : Type 0 where
    pub stores : Stores db.T
    pub files : dir.D
    pub scheduler : sch.S

  -- The scheduler is told, if one is configured.
  unfoldable pub announce : Bool → CommitRequest → Origin → Result Status CommitReply × Origin
  unfolding publish_to_scheduler
  announce configured commit o =
      let (done, s') =
        publish_to_scheduler sch commit.game_id commit.version commit.manifest o.scheduler in
      if not configured
      then (ok published, o)
      else (ok (if done then published else publish_failed), record o { scheduler = s' })

  -- The manifest file is written.
  unfoldable pub publish : Bool → CommitRequest → Origin → Result Status CommitReply × Origin
  unfolding announce
  publish configured commit o =
      let (created, files₁) = dir.create_dir_all commit.game_id o.files in
      let (written, files₂) = dir.write commit.game_id commit.version commit.manifest files₁ in
      if not created
      then (err create_publish_dir, record o { files = files₁ })
      else if not written
      then (err write_manifest, record o { files = files₂ })
      else announce configured commit (record o { files = files₂ })

  -- The chunks are looked up in the store of the game.
  unfoldable pub check_chunks :
      Bool
      → CommitRequest
      → GameIndex
      → Origin
      → Result Status (GameStore db.T)
      → Result Status CommitReply × Origin
  unfolding contains_chunk chunk_set missing_of publish
  check_chunks configured commit index o (err e) = (err e, o)
  check_chunks configured commit index o (ok store) =
      let o' = record o { stores = (commit.game_id, store) ∷ o.stores } in
      let missing =
        missing_of (λ h. contains_chunk db io h store) 5 (set.iter (chunk_set index.files)) in
      if length missing == 0
      then publish configured commit o'
      else (ok (chunks_missing missing), o')

  -- The checks of the request in front of the store.
  unfoldable pub check_commit : CommitRequest → Result Status GameIndex
  unfolding to_hash map_decode decode
  check_commit commit =
      if commit.game_id == 0 || commit.version == 0
      then err zero_id
      else if ltb (length commit.manifest) 32
      then err manifest_too_short
      else (to_hash bad_manifest_hash_len commit.manifest_hash >>= λ expected.
          if not (blake3.digest (take (length commit.manifest - 32) commit.manifest) == expected)
          then err manifest_hash_mismatch
          else map_decode (decode blake3 commit.manifest))

  unfoldable pub commit_version : Bool → CommitRequest → Origin → Result Status CommitReply × Origin
  unfolding check_commit entry check_chunks
  commit_version configured commit o = elim (check_commit commit) [
    | err e ↦ (err e, o)
    | ok index ↦ check_chunks configured commit index o (entry db disk commit.game_id o.stores)
  ]
