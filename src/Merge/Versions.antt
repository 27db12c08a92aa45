-- ===== src/Merge/Versions.antt =====
-- A whole merge of agent/src/update.rs.
use blaze_net.Common.{
  Bool-cases, bytes_beq_iff, bytes_eq, nat_eq, Result, ok, err, All, lookup, ℕ, ◌≡◌, refl, sym, ◌∙◌,
  ◌≢◌, inl, inr, true, false, Option, none, some, List, [], ◌∷◌, ◌++◌, arith,
}
use blaze_net.Manifest.Defs.{Hash, FileEntry, Blake3}
use blaze_net.Plan.Defs.{FileMap}
use blaze_net.Storage.Files.{PosixFile}
use blaze_net.Merge.Defs.{
  PathName, MergeError, FileSystem, MergeSummary, is_file, with_new, Locations, write_new_file,
  need_merge, after_file, merge_loop,
}
use blaze_net.Merge.Files.{Right, Leaves}
use blaze_net.Merge.Updated.{write_new_file-Right, turn, turn-Leaves, OldRight}

-- No file of the list stands where another, or the file itself, is assembled, and no two have one name.
abbrev pub Apart : FileEntry → FileEntry → Type 0
Apart e g = (with_new e.name ≢ g.name) × (e.name ≢ g.name) × (with_new g.name ≢ e.name)

abbrev pub Spread : List FileEntry → Type 0
Spread [] = Unit
Spread (e ∷ es) = (e.name ≢ with_new e.name) × All (Apart e) es × Spread es

nonempty_append : (xs : List PathName) (x : PathName) → xs ++ x ∷ [] ≢ []
nonempty_append [] x e = cc
nonempty_append (y ∷ ys) x e = cc

module _ (blake3 : Blake3) (io : PosixFile) (fs : FileSystem) (temp : Hash → Option (List ℕ)) where
  after_file-clean :
      (entry : FileEntry) (summary : MergeSummary) (done : Result MergeError (Unit {0}) × fs.F)
      → (after_file blake3 io fs temp entry summary done).0.failed ≡ []
      → (done.0 ≡ ok tt)
        × (summary.failed ≡ [])
        × ((after_file blake3 io fs temp entry summary done).1 ≡ done.1)
  unfolding after_file
  after_file-clean entry summary (ok u, f) clean = (refl, clean, refl)
  after_file-clean entry summary (err e, f) clean =
      absurd (nonempty_append summary.failed entry.name clean)

  need_merge-skip :
      (f : fs.F) (entry : FileEntry) (old : Option FileEntry)
      → need_merge blake3 io fs temp f entry old ≡ false
      → (prev : FileEntry) × (old ≡ some prev)
        × (prev.file_hash ≡ entry.file_hash)
        × (is_file (fs.content f entry.name) ≡ true)
  unfolding need_merge
  need_merge-skip f entry none skipped = cc
  need_merge-skip f entry (some prev) skipped = (
    prev,
    refl,
    (bytes_beq_iff prev.file_hash entry.file_hash).0 (ground (arith, skipped)),
    ground (arith, skipped),
  )

  turn-Right :
      (old_files : FileMap) (global : Locations) (entry : FileEntry) (out : MergeSummary × fs.F)
      → entry.name ≢ with_new entry.name
      → OldRight blake3 io fs temp old_files out.1 entry
      → (turn blake3 io fs temp old_files global entry out).0.failed ≡ []
      → (out.0.failed ≡ [])
        × Right blake3 io fs temp (turn blake3 io fs temp old_files global entry out).1 entry
  turn-Right old_files global entry out ne before clean =
      let old = lookup entry.name old_files in
      let done = write_new_file blake3 io fs temp entry old global out.1 in
      elim (Bool-cases (need_merge blake3 io fs temp out.1 entry old)) [
        | inl needed ↦
            let (fine, none_before, same) =
              after_file-clean entry out.0 done (rw needed at clean) in
            (
              none_before,
              rw (needed, same)
                  (write_new_file-Right blake3 io fs temp entry old global out.1 ne fine),
            )
        | inr skipped ↦
            let (prev, known, equal, there) = need_merge-skip out.1 entry old skipped in
            (rw skipped at clean, rw skipped (before prev known equal there))
      ]

  pub Right-later :
      (f f' : fs.F) (entry : FileEntry)
      → Leaves blake3 io fs temp entry.name f f'
      → Right blake3 io fs temp f entry
      → Right blake3 io fs temp f' entry
  Right-later f f' entry same (bytes, found, digest) = (bytes, same ∙ found, digest)

  OldRight-later :
      (old_files : FileMap) (f f' : fs.F) (entry : FileEntry)
      → Leaves blake3 io fs temp entry.name f f'
      → OldRight blake3 io fs temp old_files f entry
      → OldRight blake3 io fs temp old_files f' entry
  OldRight-later old_files f f' entry same before prev known equal there =
      Right-later f f' entry same (before prev known equal (rw same at there))

  turn-OldRight :
      (old_files : FileMap) (global : Locations) (entry : FileEntry) (es : List FileEntry)
      (out : MergeSummary × fs.F)
      → All (Apart entry) es
      → All (OldRight blake3 io fs temp old_files out.1) es
      → All
          (OldRight blake3 io fs temp old_files
            (turn blake3 io fs temp old_files global entry out).1)
          es
  turn-OldRight old_files global entry [] out apart before = tt
  turn-OldRight old_files global entry (e ∷ es) out (here, apart) (now, before) = (
    OldRight-later old_files out.1 (turn blake3 io fs temp old_files global entry out).1 e
        (turn-Leaves blake3 io fs temp old_files global entry e.name out here.0 here.1) now,
    turn-OldRight old_files global entry es out apart before,
  )

  -- The files of a list stay away from a name.
  abbrev pub Avoid : PathName → List FileEntry → Type 0
  Avoid q = All (λ e. (with_new e.name ≢ q) × (e.name ≢ q))

  merge_loop-Leaves :
      (old_files : FileMap) (global : Locations) (q : PathName) (es : List FileEntry)
      (out : MergeSummary × fs.F)
      → Avoid q es
      → Leaves blake3 io fs temp q out.1 (merge_loop blake3 io fs temp old_files global es out).1
  unfolding merge_loop
  merge_loop-Leaves old_files global q [] out avoid = refl
  merge_loop-Leaves old_files global q (e ∷ es) out (here, avoid) =
      merge_loop-Leaves old_files global q es (turn blake3 io fs temp old_files global e out) avoid
      ∙ turn-Leaves blake3 io fs temp old_files global e q out here.0 here.1

  Apart-Avoid : (e : FileEntry) (es : List FileEntry) → All (Apart e) es → Avoid e.name es
  Apart-Avoid e [] apart = tt
  Apart-Avoid e (g ∷ es) (here, apart) =
      ((here.2, λ same. here.1 (sym same)), Apart-Avoid e es apart)

  pub merge_loop-Right :
      (old_files : FileMap) (global : Locations) (es : List FileEntry) (out : MergeSummary × fs.F)
      → Spread es
      → All (OldRight blake3 io fs temp old_files out.1) es
      → (merge_loop blake3 io fs temp old_files global es out).0.failed ≡ []
      → (out.0.failed ≡ [])
        × All (Right blake3 io fs temp (merge_loop blake3 io fs temp old_files global es out).1) es
  unfolding merge_loop
  merge_loop-Right old_files global [] out spread before clean = (clean, tt)
  merge_loop-Right old_files global (e ∷ es) out (own, apart, spread) (now, before) clean =
      let next = turn blake3 io fs temp old_files global e out in
      let (clean', later) =
        merge_loop-Right old_files global es next spread
          (turn-OldRight old_files global e es out apart before) clean in
      let (clean'', here) = turn-Right old_files global e out own now clean' in
      (
        clean'',
        (
          Right-later next.1 (merge_loop blake3 io fs temp old_files global es next).1 e
              (merge_loop-Leaves old_files global e.name es next (Apart-Avoid e es apart)) here,
          later,
        ),
      )
