-- ===== src/Upload/Publish.antt =====
-- What `commit_version` of origin/src/server.rs has done when it answers that a version is published.
use blaze_net.Common.{
  Bool-cases, ◌==◌, bytes_beq_iff, bytes_eq, nat_eq, Result, ok, err, Table, length, contains, ℕ,
  suc, ◌≡◌, refl, ◌≢◌, inl, inr, Bool, true, false, Option, none, some, List, [], ◌∷◌, arith,
}
use blaze_net.Manifest.Defs.{Hash, Blake3}
use blaze_net.Storage.Files.{PosixFile}
use blaze_net.Storage.Open.{Disk}
use blaze_net.Upload.Defs.{Status, create_publish_dir, write_manifest}
use blaze_net.Upload.Commit.{
  PublishDir, Scheduler, HashSet, CommitRequest, CommitReply, published, publish_failed,
  ensure_publish_ok, missing_of, told, connect_control, publish_to_scheduler, Origin, announce,
  publish,
}

nonzero : (n : ℕ) → suc n ≢ 0
nonzero n h = omega arith

-- Nothing is missing only if everything is present.
pub missing_of-none :
    (present : Hash → Bool) (room : ℕ) (hs : List Hash) (h : Hash)
    → length (missing_of present (suc room) hs) ≡ 0
    → contains h hs ≡ true
    → present h ≡ true
unfolding missing_of
missing_of-none present room [] h none_missing inside = cc
missing_of-none present room (g ∷ hs) h none_missing inside = elim (Bool-cases (present g)) [
  | inl here ↦ elim (Bool-cases (g == h)) [
    | inl same ↦ rw (← (bytes_beq_iff g h).0 same) here
    | inr other ↦
        missing_of-none present room hs h (rw (missing_of, here) at none_missing)
          (rw other at inside)
  ]
  | inr gone ↦ absurd (nonzero _ (rw (missing_of, gone) at none_missing))
]

told-ok :
    {S : Type 0} (connected : Bool) (call : Option Bool × S) (s : S)
    → (told connected call s).0 ≡ true
    → (call.0 ≡ some true) × ((told connected call s).1 ≡ call.1)
unfolding told ensure_publish_ok
told-ok true (some true, s') s h = (refl, refl)
told-ok true (some false, s') s h = cc
told-ok true (none, s') s h = cc
told-ok false call s h = cc

module _ (sch : Scheduler) where
  pub publish_to_scheduler-ok :
      (game_id version : ℕ) (manifest : List ℕ) (s : sch.S)
      → (publish_to_scheduler sch game_id version manifest s).0 ≡ true
      → ((sch.publish_version game_id version manifest s).0 ≡ some true)
        × ((publish_to_scheduler sch game_id version manifest s).1
            ≡ (sch.publish_version game_id version manifest s).1)
  unfolding publish_to_scheduler
  publish_to_scheduler-ok game_id version manifest s h =
      told-ok (connect_control sch) (sch.publish_version game_id version manifest s) s h

pub refused :
    (e : Status) (r : CommitReply) → ◌≡◌ {A = Result Status CommitReply} (err e) (ok r) → ⊥
refused e r h = cc

not_published : ◌≡◌ {A = Result Status CommitReply} (ok publish_failed) (ok published) → ⊥
not_published h = cc

module _ (blake3 : Blake3) (db : Table (List ℕ) ℕ) (io : PosixFile) (disk : Disk db.T)
    (set : HashSet) (dir : PublishDir) (sch : Scheduler) where
  -- The scheduler has the version, if one is configured.
  abbrev pub Announced : Bool → CommitRequest → sch.S → sch.S → Type 0
  Announced false commit before after = Unit
  Announced true commit before after =
      ((sch.publish_version commit.game_id commit.version commit.manifest before).0 ≡ some true)
      × (after ≡ (sch.publish_version commit.game_id commit.version commit.manifest before).1)

  announce-Announced :
      (configured : Bool) (commit : CommitRequest) (o : Origin blake3 db io disk set dir sch)
      → (announce blake3 db io disk set dir sch configured commit o).0 ≡ ok published
      → Announced configured commit o.scheduler
          (announce blake3 db io disk set dir sch configured commit o).1.scheduler
        × ((announce blake3 db io disk set dir sch configured commit o).1.files ≡ o.files)
        × ((announce blake3 db io disk set dir sch configured commit o).1.stores ≡ o.stores)
  unfolding announce
  announce-Announced false commit o h = (tt, refl, refl)
  announce-Announced true commit o h =
      elim (Bool-cases
        (publish_to_scheduler sch commit.game_id commit.version commit.manifest o.scheduler).0) [
          | inl done ↦ (
            publish_to_scheduler-ok sch commit.game_id commit.version commit.manifest o.scheduler
                done,
            refl,
            refl,
          )
          | inr failed ↦ absurd (not_published (rw (announce, failed) at h))
        ]

  -- What a published version has left behind.
  pub record Published (configured : Bool) (commit : CommitRequest)
      (before after : Origin blake3 db io disk set dir sch) : Type 0 where
    pub stored : dir.read commit.game_id commit.version after.files ≡ some commit.manifest
    pub announced : Announced configured commit before.scheduler after.scheduler
    pub same_stores : after.stores ≡ before.stores

  pub publish-Published :
      (configured : Bool) (commit : CommitRequest) (o : Origin blake3 db io disk set dir sch)
      → (publish blake3 db io disk set dir sch configured commit o).0 ≡ ok published
      → Published configured commit o (publish blake3 db io disk set dir sch configured commit o).1
  unfolding publish
  publish-Published configured commit o h =
      let made = dir.create_dir_all commit.game_id o.files in
      let saved = dir.write commit.game_id commit.version commit.manifest made.1 in
      elim (Bool-cases made.0) [
        | inl created ↦ elim (Bool-cases saved.0) [
          | inl written ↦
              let now = record o { files = saved.1 } in
              let tell =
                announce-Announced configured commit now (rw (publish, created, written) at h) in
              rw (publish, created, written)
                (record {
                  stored =
                      rw tell.1 (
                        dir.read-write commit.game_id commit.version commit.manifest made.1
                          written);
                  announced = tell.0;
                  same_stores = tell.2;
                })
          | inr unwritten ↦
              absurd (refused write_manifest published (rw (publish, created, unwritten) at h))
        ]
        | inr uncreated ↦
            absurd (refused create_publish_dir published (rw (publish, uncreated) at h))
      ]
