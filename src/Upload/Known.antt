-- ===== src/Upload/Known.antt =====
-- A version that `commit_version` of origin/src/server.rs publishes to the control service of
-- scheduler/src/server.rs.
use blaze_net.Common.{
  ltb, bytes_eq, nat_eq, Result, ok, err, Table, length, ℕ, ◌<◌, ◌≡◌, refl, ◌≢◌, Bool, true, false,
  Option, none, some, List, [], ◌∷◌, arith,
}
use blaze_net.Manifest.Defs.{Blake3}
use blaze_net.Storage.Files.{PosixFile}
use blaze_net.Storage.Open.{Disk}
use blaze_net.Upload.Commit.{
  PublishDir, Scheduler, HashSet, CommitRequest, published, Origin, commit_version,
}
use blaze_net.Upload.Services.{AllGenuine, OpensGenuine}
use blaze_net.Upload.Committed.{commit_version-Committed}
use blaze_net.Scheduler.Db.Records.{Backend}
use blaze_net.Scheduler.Control.Defs
use blaze_net.Scheduler.Control.Defs.{ControlService, get_version_info}
use blaze_net.Scheduler.Control.Versions.{get_version_info-publish_version}

nonempty : (bytes : List ℕ) → ltb (length bytes) 32 ≡ false → bytes ≢ []
nonempty [] long e = cc
nonempty (x ∷ xs) long e = cc

-- The control service at the other end: a refused call has no reply.
abbrev pub reply_of : {E S : Type 0} → Result E (Unit {0}) × S → Option Bool × S
reply_of (ok u, s) = (some true, s)
reply_of (err e, s) = (none, s)

reply_of-state : {E S : Type 0} (r : Result E (Unit {0}) × S) → (reply_of r).1 ≡ r.1
reply_of-state (ok u, s) = refl
reply_of-state (err e, s) = refl

abbrev pub control_scheduler : (b : Backend) → (ℕ → Bool) → Scheduler
control_scheduler b connects = record {
  S = ControlService b;
  connects = connects;
  publish_version =
      λ game_id version manifest s. reply_of (Defs.publish_version b game_id version manifest s);
}

module _ (blake3 : Blake3) (db : Table (List ℕ) ℕ) (io : PosixFile) (disk : Disk db.T)
    (set : HashSet) (dir : PublishDir) (b : Backend) (connects : ℕ → Bool) where
  -- The open stores are in order with chunks of their digests, and so is what is opened. If a commit
  -- with a configured scheduler answers that the version is published, a query to the control service
  -- for this version finds the manifest.
  pub get_version_info-commit_version :
      (commit : CommitRequest) (o : Origin blake3 db io disk set dir (control_scheduler b connects))
      → AllGenuine blake3 db io disk o.stores
      → OpensGenuine blake3 db io disk
      → (commit_version blake3 db io disk set dir (control_scheduler b connects) true commit o).0
        ≡ ok published
      → get_version_info b commit.game_id commit.version
          (commit_version blake3 db io disk set dir
            (control_scheduler b connects)
            true
            commit
            o).1.scheduler
        ≡ ok (record { found = true; version = commit.version; manifest = commit.manifest })
  get_version_info-commit_version commit o all fresh h =
      let (index, checked, done) =
        commit_version-Committed blake3 db io disk set dir (control_scheduler b connects) true
          commit o all fresh h in
      let game : 0 < commit.game_id = ground (arith, checked.ids) in
      let version : 0 < commit.version = ground (arith, checked.ids) in
      let known =
        get_version_info-publish_version b commit.game_id commit.version commit.manifest o.scheduler
          game version (nonempty commit.manifest checked.long) in
      rw
        (
          done.announced.1,
          reply_of-state
              (Defs.publish_version b commit.game_id commit.version commit.manifest o.scheduler),
        )
        known.1
