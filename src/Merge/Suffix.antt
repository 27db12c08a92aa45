-- ===== src/Merge/Suffix.antt =====
-- A game file with the extension "new" in a merge of agent/src/update.rs.
use blaze_net.Common.{
  if◌then◌else◌, Bool-cases, ◌==◌, bytes_eq, nat_eq, Result, ok, err, ℕ, ◌≡◌, refl, ◌≢◌, inl, inr,
  Bool, true, ◌&&◌, false, Option, none, some, List, [],
}
use blaze_net.Manifest.Defs.{Hash, FileEntry, Blake3}
use blaze_net.Storage.Files.{PosixFile}
use blaze_net.Merge.Defs.{
  PathName, MergeError, fs_failed, FileSystem, is_file, with_new, Locations, old_positions,
  assemble, rename_new, replace_file, check_file, write_new_file,
}
use blaze_net.Merge.Files.{not_replaced, assemble-content}

present : (o : Option (List ℕ)) (bytes : List ℕ) → o ≡ some bytes → is_file o ≡ true
unfolding is_file
present none bytes h = cc
present (some b) bytes h = refl

failed_rename :
    (renamed : Bool)
    → renamed ≡ false
    → ◌≡◌ {A = Result MergeError (Unit {0})} (if renamed then ok tt else err fs_failed) (ok tt)
    → ⊥
failed_rename true e h = cc
failed_rename false e h = cc

module _ (blake3 : Blake3) (io : PosixFile) (fs : FileSystem) (temp : Hash → Option (List ℕ)) where
  replace_file_self :
      (p : PathName) (f : fs.F) (bytes : List ℕ)
      → fs.content f p ≡ some bytes
      → (replace_file blake3 io fs temp p p f).0 ≢ ok tt
  unfolding replace_file rename_new
  replace_file_self p f bytes there done =
      let gone = fs.remove_file f p in
      let here = present (fs.content f p) bytes there in
      elim (Bool-cases gone.0) [
        | inl removed ↦
            failed_rename (fs.rename gone.1 p p).0
              (fs.rename-absent gone.1 p p (fs.content-remove f p removed))
              (rw (replace_file, here, removed) at done)
        | inr kept ↦ not_replaced (rw (replace_file, here, kept) at done)
      ]

  check_file_self :
      (entry : FileEntry) (out : Result MergeError (List ℕ) × fs.F)
      → ((bytes : List ℕ) → out.0 ≡ ok bytes → fs.content out.1 entry.name ≡ some bytes)
      → (check_file blake3 io fs temp entry entry.name out).0 ≢ ok tt
  unfolding check_file
  check_file_self entry (err e, f) written done = cc
  check_file_self entry (ok bytes, f) written done =
      elim (Bool-cases (blake3.digest bytes == entry.file_hash)) [
        | inl same ↦ elim (Bool-cases (fs.sync_all f entry.name && fs.close f entry.name)) [
          | inl synced ↦
              replace_file_self entry.name f bytes (written bytes refl)
                (rw (check_file, same, synced) at done)
          | inr unsynced ↦ not_replaced (rw (check_file, same, unsynced) at done)
        ]
        | inr other ↦ not_replaced (rw (check_file, other) at done)
      ]

  -- A file whose name already has the extension "new" is never written with success, whatever the
  -- chunks, the old version and the directory are.
  pub write_new_file_self :
      (entry : FileEntry) (old : Option FileEntry) (global : Locations) (f : fs.F)
      → with_new entry.name ≡ entry.name
      → (write_new_file blake3 io fs temp entry old global f).0 ≢ ok tt
  unfolding write_new_file
  write_new_file_self entry old global f self done =
      let made = fs.write f entry.name [] in
      let positions = old_positions (is_file (fs.content made.1 entry.name)) old in
      let out =
        assemble blake3 io fs temp entry.name positions global entry.name entry.chunks [] made.1 in
      elim (Bool-cases made.0) [
        | inl created ↦
            check_file_self entry out
              (λ bytes e.
                assemble-content blake3 io fs temp entry.name positions global entry.name
                  entry.chunks [] made.1 bytes (fs.content-write f entry.name [] created) e)
              (rw (write_new_file, self, created) at done)
        | inr failed ↦ not_replaced (rw (write_new_file, self, failed) at done)
      ]
