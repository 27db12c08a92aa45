-- ===== src/Scheduler/Control/Versions.antt =====
-- Publishing and reading of versions in scheduler/src/server.rs.
use blaze_net.Common.{
  nat_beq, Bool-cases, beq_refl, ◌==◌, bytes_beq_iff, bytes_eq, nat_eq, ok, ℕ, ◌<◌, ◌≡◌, refl, ◌∙◌,
  ◌≢◌, inl, inr, true, false, some, List, [], arith,
}
use blaze_net.Scheduler.Db.Records.{Backend, Db}
use blaze_net.Scheduler.Db.Tables.{version_key, insert_game, save_version, get_version}
use blaze_net.Scheduler.Db.Laws.{parse-encode}
use blaze_net.Scheduler.Control.Defs.{
  or_internal, ControlService, get_version_info, raise_latest, publish_version,
}

module _ (b : Backend) where
  raise_latest-versions :
      (game version : ℕ) (db : Db b) → (raise_latest b game version db).versions ≡ db.versions
  unfolding raise_latest insert_game
  raise_latest-versions game version db = ground arith

  publish_version-eq :
      (game version : ℕ) (manifest : List ℕ) (s : ControlService b)
      → 0 < game
      → 0 < version
      → manifest ≢ []
      → publish_version b game version manifest s ≡ (
        ok tt,
        record s { db = raise_latest b game version (save_version b game version manifest s.db) },
      )
  unfolding publish_version
  publish_version-eq game version manifest s h k given = elim (Bool-cases (manifest == [])) [
    | inl empty ↦ absurd (given ((bytes_beq_iff manifest []).0 empty))
    | inr full ↦
        let g : nat_beq game 0 ≡ false = ground arith in
        let v : nat_beq version 0 ≡ false = ground arith in rw (g, v, full) refl
  ]

  get_version-saved :
      (game version : ℕ) (manifest : List ℕ) (db old : Db b)
      → db.versions ≡ (save_version b game version manifest old).versions
      → get_version b game version db ≡ ok (some manifest)
  unfolding get_version save_version
  get_version-saved game version manifest db old e =
      let k = version_key game version in
      let now : b.texts.get db.versions k ≡ some (b.bytes_json.encode manifest) = rw e (
        b.texts.get-insert old.versions k (b.bytes_json.encode manifest) k
        ∙ rw (beq_refl k) refl) in
      rw (get_version, now, parse-encode b.bytes_json manifest) refl

  -- A manifest that is not empty, published for a game and a version above 0, is accepted, and a
  -- query for that version then finds it.
  pub get_version_info-publish_version :
      (game version : ℕ) (manifest : List ℕ) (s : ControlService b)
      → 0 < game
      → 0 < version
      → manifest ≢ []
      → ((publish_version b game version manifest s).0 ≡ ok tt)
        × (get_version_info b game version (publish_version b game version manifest s).1
            ≡ ok (record { found = true; version = version; manifest = manifest }))
  get_version_info-publish_version game version manifest s h k given =
      let done = publish_version-eq game version manifest s h k given in
      let saved = save_version b game version manifest s.db in
      let found =
        get_version-saved game version manifest (raise_latest b game version saved) s.db
          (raise_latest-versions game version saved) in
      (rw done refl, rw done (unfold get_version_info or_internal in rw found refl))
