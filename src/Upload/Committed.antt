-- ===== src/Upload/Committed.antt =====
-- What `commit_version` of origin/src/server.rs has checked and done when it answers that a version is
-- published.
use blaze_net.Common.{
  ltb, Bool-cases, nat_beq_iff, beq_refl, ◌==◌, bytes_beq_iff, bytes_eq, nat_eq, Result, ok, err,
  >>=-eq-ok, ok_injective, else_ok, Table, length, take, contains, lookup, ℕ, ◌-◌, ◌≡◌, refl, sym,
  ap, ◌∙◌, inl, inr, Bool, true, false, not, ◌||◌, Option, none, some, List, ◌∷◌,
}
use blaze_net.Manifest.Defs.{
  hash_len, Hash, IsHash, GameIndex, Blake3, DecodeError, decode, chunk_set,
}
use blaze_net.Storage.Files.{PosixFile}
use blaze_net.Storage.Defs.{key, GameStore, contains_chunk, read_chunk}
use blaze_net.Storage.Open.{Disk}
use blaze_net.Storage.Abstract.{contains-index}
use blaze_net.Storage.Append.{position, read_value-ok}
use blaze_net.Upload.Stored.{Genuine, Readable}
use blaze_net.Upload.Services.{AllGenuine, OpensGenuine, entry-some}
use blaze_net.Upload.Defs.{
  Status, zero_id, bad_manifest_hash_len, manifest_too_short, manifest_hash_mismatch, to_hash,
  entry,
}
use blaze_net.Upload.Commit.{
  PublishDir, Scheduler, HashSet, CommitRequest, CommitReply, published, chunks_missing, map_decode,
  missing_of, Origin, check_chunks, check_commit, commit_version,
}
use blaze_net.Upload.Publish.{missing_of-none, refused, Announced, publish-Published}

refused_hash : (e : Status) (hash : Hash) → ◌≡◌ {A = Result Status Hash} (err e) (ok hash) → ⊥
refused_hash e hash h = cc

map_decode-ok :
    (out : Result DecodeError GameIndex) (index : GameIndex)
    → map_decode out ≡ ok index
    → out ≡ ok index
unfolding map_decode
map_decode-ok (ok found) index h = ap ok (ok_injective h)
map_decode-ok (err e) index h = cc

to_hash-ok : (e : Status) (bytes hash : List ℕ) → to_hash e bytes ≡ ok hash → bytes ≡ hash
unfolding to_hash
to_hash-ok e bytes hash h = elim (Bool-cases (length bytes == hash_len)) [
  | inl right ↦ ok_injective (rw (to_hash, right) at h)
  | inr wrong ↦ absurd (refused_hash e hash (rw (to_hash, wrong) at h))
]

double_negation : (b : Bool) → not b ≡ false → b ≡ true
double_negation true h = refl
double_negation false h = cc

not_complete :
    (missing : List Hash)
    → ◌≡◌ {A = Result Status CommitReply} (ok (chunks_missing missing)) (ok published)
    → ⊥
not_complete missing h = cc

module _ (blake3 : Blake3) (db : Table (List ℕ) ℕ) (io : PosixFile) (disk : Disk db.T)
    (set : HashSet) (dir : PublishDir) (sch : Scheduler) where
  read-contained :
      (h : Hash) (store : GameStore db.T) (o : Option ℕ)
      → Genuine blake3 db io store
      → IsHash h
      → db.get store.index (key store.game_id h) ≡ o
      → contains_chunk db io h store ≡ true
      → Readable blake3 db io h store
  unfolding contains_chunk read_chunk
  read-contained h store none g p found inside =
      let absent = contains-index db io h store found in cc
  read-contained h store (some value) g p found inside =
      let whole = read_value-ok db io store (key store.game_id h) value g.in_order found in
      let read : read_chunk db io h store ≡ ok (some (position db io value store)) =
        rw (read_chunk, found) whole in
      (position db io value store, read, g.digests h (position db io value store) p read, p)

  -- What a committed version has left behind: the manifest is in the file of the version, the
  -- scheduler has taken it, and every chunk that it names can be read.
  pub record Committed (configured : Bool) (commit : CommitRequest) (index : GameIndex)
      (before after : Origin blake3 db io disk set dir sch) : Type 0 where
    pub stored : dir.read commit.game_id commit.version after.files ≡ some commit.manifest
    pub announced :
        Announced blake3 db io disk set dir sch configured commit before.scheduler after.scheduler
    pub store : GameStore db.T
    pub opened : lookup commit.game_id after.stores ≡ some store
    pub chunks :
        (h : Hash)
        → IsHash h
        → contains h (chunk_set index.files) ≡ true
        → Readable blake3 db io h store

  check_chunks-Committed :
      (configured : Bool) (commit : CommitRequest) (index : GameIndex)
      (o : Origin blake3 db io disk set dir sch) (found : Result Status (GameStore db.T))
      → AllGenuine blake3 db io disk o.stores
      → OpensGenuine blake3 db io disk
      → entry db disk commit.game_id o.stores ≡ found
      → (check_chunks blake3 db io disk set dir sch configured commit index o found).0
        ≡ ok published
      → Committed configured commit index o
          (check_chunks blake3 db io disk set dir sch configured commit index o found).1
  unfolding check_chunks
  check_chunks-Committed configured commit index o (err e) all fresh found h = cc
  check_chunks-Committed configured commit index o (ok store) all fresh found h =
      let g =
        entry-some blake3 db io disk commit.game_id o.stores store (lookup commit.game_id o.stores)
          all fresh refl found in
      let present : Hash → Bool = λ h. contains_chunk db io h store in
      let missing = missing_of present 5 (set.iter (chunk_set index.files)) in
      elim (Bool-cases (length missing == 0)) [
        | inl complete ↦
            let none_missing = (nat_beq_iff (length missing) 0).0 complete in
            let now = record o { stores = (commit.game_id, store) ∷ o.stores } in
            let p =
              publish-Published blake3 db io disk set dir sch configured commit now
                (rw (check_chunks, complete) at h) in
            rw (check_chunks, complete)
              (record {
                stored = p.stored;
                announced = p.announced;
                store = store;
                opened = rw (p.same_stores, beq_refl commit.game_id) refl;
                chunks = λ hash q inside.
                    read-contained hash store (db.get store.index (key store.game_id hash)) g q refl
                      (missing_of-none present 4 (set.iter (chunk_set index.files)) hash
                        none_missing (set.contains-iter hash (chunk_set index.files) ∙ inside));
              })
        | inr incomplete ↦ absurd (not_complete missing (rw (check_chunks, incomplete) at h))
      ]

  -- The checks that a request has passed.
  pub record Checked (commit : CommitRequest) (index : GameIndex) : Type 0 where
    pub long : ltb (length commit.manifest) 32 ≡ false
    pub ids : commit.game_id == 0 || commit.version == 0 ≡ false
    pub digest :
        blake3.digest (take (length commit.manifest - 32) commit.manifest) ≡ commit.manifest_hash
    pub decoded : decode blake3 commit.manifest ≡ ok index

  check_commit-Checked :
      (commit : CommitRequest) (index : GameIndex)
      → check_commit blake3 db io disk set dir sch commit ≡ ok index
      → Checked commit index
  unfolding check_commit to_hash
  check_commit-Checked commit index h =
      let (ids, rest₁) = else_ok (commit.game_id == 0 || commit.version == 0) zero_id _ h in
      let (long, rest₂) = else_ok (ltb (length commit.manifest) 32) manifest_too_short _ rest₁ in
      let (expected, right, rest₃) =
        >>=-eq-ok (to_hash bad_manifest_hash_len commit.manifest_hash) _ rest₂ in
      let actual = blake3.digest (take (length commit.manifest - 32) commit.manifest) in
      let (same, rest₄) = else_ok (not (actual == expected)) manifest_hash_mismatch _ rest₃ in
      let given = to_hash-ok bad_manifest_hash_len commit.manifest_hash expected right in
      record {
        long = long;
        ids = ids;
        digest =
            (bytes_beq_iff actual expected).0 (double_negation (actual == expected) same)
            ∙ sym given;
        decoded = map_decode-ok (decode blake3 commit.manifest) index rest₄;
      }

  commit-Checked :
      (configured : Bool) (commit : CommitRequest) (o : Origin blake3 db io disk set dir sch)
      (checked : Result Status GameIndex)
      → AllGenuine blake3 db io disk o.stores
      → OpensGenuine blake3 db io disk
      → check_commit blake3 db io disk set dir sch commit ≡ checked
      → (commit_version blake3 db io disk set dir sch configured commit o).0 ≡ ok published
      → (index : GameIndex) × Checked commit index
        × Committed configured commit index o
            (commit_version blake3 db io disk set dir sch configured commit o).1
  unfolding commit_version
  commit-Checked configured commit o (err e) all fresh found h =
      absurd (refused e published (rw (commit_version, found) at h))
  commit-Checked configured commit o (ok index) all fresh found h =
      let store = entry db disk commit.game_id o.stores in
      (
        index,
        check_commit-Checked commit index found,
        rw (commit_version, found)
            (check_chunks-Committed configured commit index o store all fresh refl
              (rw (commit_version, found) at h)),
      )

  -- The open stores are in order with chunks of their digests, and so is what is opened. If a commit
  -- answers that the version is published, then its ids are above 0, the hash of the request is the
  -- digest of the manifest's body, the manifest decodes and is in the file of the version, every chunk
  -- that it names can be read from the open store of the game with bytes of its digest, and if a
  -- scheduler is configured it has accepted the version.
  pub commit_version-Committed :
      (configured : Bool) (commit : CommitRequest) (o : Origin blake3 db io disk set dir sch)
      → AllGenuine blake3 db io disk o.stores
      → OpensGenuine blake3 db io disk
      → (commit_version blake3 db io disk set dir sch configured commit o).0 ≡ ok published
      → (index : GameIndex) × Checked commit index
        × Committed configured commit index o
            (commit_version blake3 db io disk set dir sch configured commit o).1
  commit_version-Committed configured commit o all fresh h =
      commit-Checked configured commit o (check_commit blake3 db io disk set dir sch commit) all
        fresh refl h
