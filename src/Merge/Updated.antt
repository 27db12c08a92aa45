-- ===== src/Merge/Updated.antt =====
-- The files of a new version after a merge of agent/src/update.rs.
use blaze_net.Common.{
  if◌then◌else◌, Bool-cases, ◌==◌, bytes_beq_iff, bytes_eq, nat_eq, Result, ok, err, lookup, ℕ, ◌≡◌,
  refl, ◌∙◌, ◌≢◌, inl, inr, true, ◌&&◌, Option, some, List, [],
}
use blaze_net.Manifest.Defs.{Hash, FileEntry, Blake3}
use blaze_net.Plan.Defs.{FileMap}
use blaze_net.Storage.Files.{PosixFile}
use blaze_net.Merge.Defs.{
  PathName, MergeError, FileSystem, MergeSummary, is_file, with_new, Locations, old_positions,
  assemble, check_file, write_new_file, need_merge, after_file,
}
use blaze_net.Merge.Files.{
  not_replaced, Right, assemble-content, Leaves, assemble-Leaves, replace_file-content,
  replace_file-Leaves,
}

module _ (blake3 : Blake3) (io : PosixFile) (fs : FileSystem) (temp : Hash → Option (List ℕ)) where
  check_file-Right :
      (entry : FileEntry) (new_path : PathName) (out : Result MergeError (List ℕ) × fs.F)
      → entry.name ≢ new_path
      → ((bytes : List ℕ) → out.0 ≡ ok bytes → fs.content out.1 new_path ≡ some bytes)
      → (check_file blake3 io fs temp entry new_path out).0 ≡ ok tt
      → Right blake3 io fs temp (check_file blake3 io fs temp entry new_path out).1 entry
  unfolding check_file
  check_file-Right entry new_path (err e, f) ne written done = cc
  check_file-Right entry new_path (ok bytes, f) ne written done =
      elim (Bool-cases (blake3.digest bytes == entry.file_hash)) [
        | inl same ↦ elim (Bool-cases (fs.sync_all f new_path && fs.close f new_path)) [
          | inl synced ↦
              let replaced = rw (check_file, same, synced) at done in
              rw (check_file, same, synced)
                (
                  bytes,
                  replace_file-content blake3 io fs temp new_path entry.name f ne replaced
                      ∙ written bytes refl,
                  (bytes_beq_iff (blake3.digest bytes) entry.file_hash).0 same,
                )
          | inr unsynced ↦ absurd (not_replaced (rw (check_file, same, unsynced) at done))
        ]
        | inr other ↦ absurd (not_replaced (rw (check_file, other) at done))
      ]

  check_file-Leaves :
      (entry : FileEntry) (new_path q : PathName) (out : Result MergeError (List ℕ) × fs.F)
      → new_path ≢ q
      → entry.name ≢ q
      → Leaves blake3 io fs temp q out.1 (check_file blake3 io fs temp entry new_path out).1
  unfolding check_file
  check_file-Leaves entry new_path q (err e, f) ne ne' = refl
  check_file-Leaves entry new_path q (ok bytes, f) ne ne' =
      elim (Bool-cases (blake3.digest bytes == entry.file_hash)) [
        | inl same ↦ elim (Bool-cases (fs.sync_all f new_path && fs.close f new_path)) [
          | inl synced ↦
              rw (check_file, same, synced)
                (replace_file-Leaves blake3 io fs temp new_path entry.name q f ne ne')
          | inr unsynced ↦ rw (check_file, same, unsynced) refl
        ]
        | inr other ↦ rw (check_file, other) (fs.content-remove_ne f new_path q ne)
      ]

  pub write_new_file-Right :
      (entry : FileEntry) (old : Option FileEntry) (global : Locations) (f : fs.F)
      → entry.name ≢ with_new entry.name
      → (write_new_file blake3 io fs temp entry old global f).0 ≡ ok tt
      → Right blake3 io fs temp (write_new_file blake3 io fs temp entry old global f).1 entry
  unfolding write_new_file
  write_new_file-Right entry old global f ne done =
      let made = fs.write f (with_new entry.name) [] in
      let positions = old_positions (is_file (fs.content made.1 entry.name)) old in
      elim (Bool-cases made.0) [
        | inl created ↦
            rw (write_new_file, created)
              (check_file-Right entry (with_new entry.name)
                (assemble blake3 io fs temp entry.name positions global (with_new entry.name)
                  entry.chunks [] made.1)
                ne
                (λ bytes e.
                  assemble-content blake3 io fs temp entry.name positions global
                    (with_new entry.name) entry.chunks [] made.1 bytes
                    (fs.content-write f (with_new entry.name) [] created) e)
                (rw (write_new_file, created) at done))
        | inr failed ↦ absurd (not_replaced (rw (write_new_file, failed) at done))
      ]

  write_new_file-Leaves :
      (entry : FileEntry) (old : Option FileEntry) (global : Locations) (q : PathName) (f : fs.F)
      → with_new entry.name ≢ q
      → entry.name ≢ q
      → Leaves blake3 io fs temp q f (write_new_file blake3 io fs temp entry old global f).1
  unfolding write_new_file
  write_new_file-Leaves entry old global q f ne ne' =
      let made = fs.write f (with_new entry.name) [] in
      let positions = old_positions (is_file (fs.content made.1 entry.name)) old in
      let same = fs.content-write_ne f (with_new entry.name) q [] ne in
      let out =
        assemble blake3 io fs temp entry.name positions global (with_new entry.name) entry.chunks []
          made.1 in
      elim (Bool-cases made.0) [
        | inl created ↦
            rw (write_new_file, created)
              (check_file-Leaves entry (with_new entry.name) q out ne ne'
                ∙ assemble-Leaves blake3 io fs temp entry.name positions global
                    (with_new entry.name) q entry.chunks [] made.1 ne
                ∙ same)
        | inr failed ↦ rw (write_new_file, failed) same
      ]

  -- One turn of the loop over the new files.
  abbrev pub turn : FileMap → Locations → FileEntry → MergeSummary × fs.F → MergeSummary × fs.F
  turn old_files global entry out =
      if need_merge blake3 io fs temp out.1 entry (lookup entry.name old_files)
      then after_file blake3 io fs temp entry out.0
          (write_new_file blake3 io fs temp entry (lookup entry.name old_files) global out.1)
      else out

  after_file-Leaves :
      (entry : FileEntry) (summary : MergeSummary) (q : PathName)
      (done : Result MergeError (Unit {0}) × fs.F)
      → with_new entry.name ≢ q
      → Leaves blake3 io fs temp q done.1 (after_file blake3 io fs temp entry summary done).1
  unfolding after_file
  after_file-Leaves entry summary q (ok u, f) ne = refl
  after_file-Leaves entry summary q (err e, f) ne =
      fs.content-remove_ne f (with_new entry.name) q ne

  pub turn-Leaves :
      (old_files : FileMap) (global : Locations) (entry : FileEntry) (q : PathName)
      (out : MergeSummary × fs.F)
      → with_new entry.name ≢ q
      → entry.name ≢ q
      → Leaves blake3 io fs temp q out.1 (turn old_files global entry out).1
  turn-Leaves old_files global entry q out ne ne' =
      let old = lookup entry.name old_files in
      elim (Bool-cases (need_merge blake3 io fs temp out.1 entry old)) [
        | inl needed ↦ rw needed (
            after_file-Leaves entry out.0 q
              (write_new_file blake3 io fs temp entry old global out.1) ne
            ∙ write_new_file-Leaves entry old global q out.1 ne ne')
        | inr skipped ↦ rw skipped refl
      ]

  -- A file that the old version has with the same digest, if it is there, has this digest.
  abbrev pub OldRight : FileMap → fs.F → FileEntry → Type 0
  OldRight old_files f entry =
      (prev : FileEntry)
      → lookup entry.name old_files ≡ some prev
      → prev.file_hash ≡ entry.file_hash
      → is_file (fs.content f entry.name) ≡ true
      → Right blake3 io fs temp f entry
