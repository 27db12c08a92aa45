-- ===== src/Merge/Files.antt =====
-- One file of a merge of agent/src/update.rs.
use blaze_net.Common.{
  if◌then◌else◌, Bool-cases, bytes_eq, nat_eq, Result, ok, err, ok_injective, lookup, ℕ, ◌≡◌, refl,
  ap, ◌∙◌, ◌≢◌, inl, inr, Bool, true, false, Option, some, List, [], ◌∷◌, ◌++◌,
}
use blaze_net.Manifest.Defs.{Hash, ChunkMeta, FileEntry, Blake3}
use blaze_net.Storage.Files.{PosixFile}
use blaze_net.Merge.Defs.{
  PathName, MergeError, fs_failed, FileSystem, is_file, Positions, Locations, chunk_bytes,
  write_next, assemble, rename_new, replace_file,
}

not_written :
    (e : MergeError) (bytes : List ℕ) → ◌≡◌ {A = Result MergeError (List ℕ)} (err e) (ok bytes) → ⊥
not_written e bytes h = cc

pub not_replaced : {e : MergeError} → ◌≡◌ {A = Result MergeError (Unit {0})} (err e) (ok tt) → ⊥
not_replaced h = cc

moved :
    (renamed : Bool)
    → ◌≡◌ {A = Result MergeError (Unit {0})} (if renamed then ok tt else err fs_failed) (ok tt)
    → renamed ≡ true
moved true h = refl
moved false h = cc

module _ (blake3 : Blake3) (io : PosixFile) (fs : FileSystem) (temp : Hash → Option (List ℕ)) where
  -- The file of the entry is there, with the digest of the entry.
  abbrev pub Right : fs.F → FileEntry → Type 0
  Right f entry =
      (bytes : List ℕ) × (fs.content f entry.name ≡ some bytes)
      × (blake3.digest bytes ≡ entry.file_hash)

  write_next-content :
      (go_on : List ℕ → fs.F → Result MergeError (List ℕ) × fs.F) (new_path : PathName)
      (acc : List ℕ) (f : fs.F) (got : Result MergeError (List ℕ)) (bytes : List ℕ)
      → ((acc : List ℕ) (f : fs.F)
          → fs.content f new_path ≡ some acc
          → (go_on acc f).0 ≡ ok bytes
          → fs.content (go_on acc f).1 new_path ≡ some bytes)
      → (write_next blake3 io fs temp go_on new_path acc f got).0 ≡ ok bytes
      → fs.content (write_next blake3 io fs temp go_on new_path acc f got).1 new_path ≡ some bytes
  unfolding write_next
  write_next-content go_on new_path acc f (err e) bytes later done = cc
  write_next-content go_on new_path acc f (ok buf) bytes later done =
      let wrote = fs.write f new_path (acc ++ buf) in
      elim (Bool-cases wrote.0) [
        | inl written ↦
            rw (write_next, written)
              (later (acc ++ buf) wrote.1 (fs.content-write f new_path (acc ++ buf) written)
                (rw (write_next, written) at done))
        | inr failed ↦ absurd (not_written fs_failed bytes (rw (write_next, failed) at done))
      ]

  pub assemble-content :
      (target : PathName) (old_chunks : Positions) (global : Locations) (new_path : PathName)
      (cs : List ChunkMeta) (acc : List ℕ) (f : fs.F) (bytes : List ℕ)
      → fs.content f new_path ≡ some acc
      → (assemble blake3 io fs temp target old_chunks global new_path cs acc f).0 ≡ ok bytes
      → fs.content
          (assemble blake3 io fs temp target old_chunks global new_path cs acc f).1
          new_path
        ≡ some bytes
  unfolding assemble
  assemble-content target old_chunks global new_path [] acc f bytes so_far done =
      so_far ∙ ap some (ok_injective done)
  assemble-content target old_chunks global new_path (c ∷ cs) acc f bytes so_far done =
      write_next-content (assemble blake3 io fs temp target old_chunks global new_path cs) new_path
        acc f (chunk_bytes blake3 io fs temp f target (lookup c.hash old_chunks) global c.hash)
        bytes
        (λ acc' f' now done'.
          assemble-content target old_chunks global new_path cs acc' f' bytes now done')
        done

  -- What a step does to the files other than its own.
  abbrev pub Leaves : PathName → fs.F → fs.F → Type 0
  Leaves q before after = fs.content after q ≡ fs.content before q

  write_next-Leaves :
      (go_on : List ℕ → fs.F → Result MergeError (List ℕ) × fs.F) (new_path q : PathName)
      (acc : List ℕ) (f : fs.F) (got : Result MergeError (List ℕ))
      → new_path ≢ q
      → ((acc : List ℕ) (f : fs.F) → Leaves q f (go_on acc f).1)
      → Leaves q f (write_next blake3 io fs temp go_on new_path acc f got).1
  unfolding write_next
  write_next-Leaves go_on new_path q acc f (err e) ne later = refl
  write_next-Leaves go_on new_path q acc f (ok buf) ne later =
      let wrote = fs.write f new_path (acc ++ buf) in
      let same = fs.content-write_ne f new_path q (acc ++ buf) ne in
      elim (Bool-cases wrote.0) [
        | inl written ↦ rw (write_next, written) (later (acc ++ buf) wrote.1 ∙ same)
        | inr failed ↦ rw (write_next, failed) same
      ]

  pub assemble-Leaves :
      (target : PathName) (old_chunks : Positions) (global : Locations) (new_path q : PathName)
      (cs : List ChunkMeta) (acc : List ℕ) (f : fs.F)
      → new_path ≢ q
      → Leaves q f (assemble blake3 io fs temp target old_chunks global new_path cs acc f).1
  unfolding assemble
  assemble-Leaves target old_chunks global new_path q [] acc f ne = refl
  assemble-Leaves target old_chunks global new_path q (c ∷ cs) acc f ne =
      write_next-Leaves (assemble blake3 io fs temp target old_chunks global new_path cs) new_path q
        acc f (chunk_bytes blake3 io fs temp f target (lookup c.hash old_chunks) global c.hash) ne
        (λ acc' f'. assemble-Leaves target old_chunks global new_path q cs acc' f' ne)

  rename_new-content :
      (new_path target : PathName) (f : fs.F)
      → (rename_new blake3 io fs temp new_path target f).0 ≡ ok tt
      → fs.content (rename_new blake3 io fs temp new_path target f).1 target ≡ fs.content f new_path
  unfolding rename_new
  rename_new-content new_path target f done =
      fs.content-rename f new_path target (moved (fs.rename f new_path target).0 done)

  pub replace_file-content :
      (new_path target : PathName) (f : fs.F)
      → target ≢ new_path
      → (replace_file blake3 io fs temp new_path target f).0 ≡ ok tt
      → fs.content (replace_file blake3 io fs temp new_path target f).1 target
        ≡ fs.content f new_path
  unfolding replace_file
  replace_file-content new_path target f ne done =
      let gone = fs.remove_file f target in
      elim (Bool-cases (is_file (fs.content f target))) [
        | inl there ↦ elim (Bool-cases gone.0) [
          | inl removed ↦
              rw (replace_file, there, removed)
                (rename_new-content new_path target gone.1
                    (rw (replace_file, there, removed) at done)
                  ∙ fs.content-remove_ne f target new_path ne)
          | inr kept ↦ absurd (not_replaced (rw (replace_file, there, kept) at done))
        ]
        | inr absent ↦
            rw (replace_file, absent)
              (rename_new-content new_path target f (rw (replace_file, absent) at done))
      ]

  pub replace_file-Leaves :
      (new_path target q : PathName) (f : fs.F)
      → new_path ≢ q
      → target ≢ q
      → Leaves q f (replace_file blake3 io fs temp new_path target f).1
  unfolding replace_file rename_new
  replace_file-Leaves new_path target q f ne ne' =
      let gone = fs.remove_file f target in
      let same = fs.content-remove_ne f target q ne' in
      elim (Bool-cases (is_file (fs.content f target))) [
        | inl there ↦ elim (Bool-cases gone.0) [
          | inl removed ↦
              rw (replace_file, there, removed)
                (fs.content-rename_ne gone.1 new_path target q ne ne' ∙ same)
          | inr kept ↦ rw (replace_file, there, kept) same
        ]
        | inr absent ↦ rw (replace_file, absent) (fs.content-rename_ne f new_path target q ne ne')
      ]
