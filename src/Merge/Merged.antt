-- ===== src/Merge/Merged.antt =====
-- The directory of a game after a merge of agent/src/update.rs without failures.
use blaze_net.Common.{
  Bool-cases, beq_refl, ◌==◌, bytes_beq_iff, bytes_eq, nat_eq, Result, ok, err, ok_injective,
  to_set, keep, bytes_leb, contains-to_set, contains-keep, contains-sort, All, contains, ℕ, ◌+◌,
  ◌≡◌, refl, sym, ap, ◌∙◌, ◌≢◌, inl, inr, true, false, not, ◌&&◌, Option, none, some, List, [], ◌∷◌,
  arith,
}
use blaze_net.Manifest.Defs.{Hash, FileEntry, GameIndex, Blake3}
use blaze_net.Plan.Defs.{files_of, collect_files, names, deleted_names}
use blaze_net.Storage.Files.{PosixFile}
use blaze_net.Merge.Defs.{
  PathName, MergeError, FileSystem, MergeSummary, is_file, global_chunks, merge_loop, delete_loop,
  merge_files,
}
use blaze_net.Merge.Files.{Right, Leaves}
use blaze_net.Merge.Updated.{OldRight}
use blaze_net.Merge.Versions.{Spread, Right-later, merge_loop-Right}

contains-deleted_names :
    (n : PathName) (old new : List FileEntry)
    → contains n (deleted_names old new) ≡ (contains n (names old) && not (contains n (names new)))
unfolding deleted_names
contains-deleted_names n old new =
    contains-sort bytes_leb n (keep (λ m. not (contains m (names new))) (to_set (names old)))
    ∙ contains-keep (λ m. not (contains m (names new))) n (to_set (names old))
    ∙ ap (λ t. t && not (contains n (names new))) (contains-to_set n (names old))

not_merged :
    {e : MergeError} {s : MergeSummary}
    → ◌≡◌ {A = Result MergeError MergeSummary} (err e) (ok s)
    → ⊥
not_merged h = cc

module _ (blake3 : Blake3) (io : PosixFile) (fs : FileSystem) (temp : Hash → Option (List ℕ)) where
  absent_file : (o : Option (List ℕ)) → is_file o ≡ false → o ≡ none
  unfolding is_file
  absent_file none h = refl
  absent_file (some bytes) h = cc

  -- What the removal of the old names has done, if it succeeds.
  record Deleted (list : List PathName) (summary : MergeSummary) (f : fs.F)
      (out : Result MergeError MergeSummary × fs.F) : Type 0 where
    others : (q : PathName) → contains q list ≡ false → Leaves blake3 io fs temp q f out.1
    absent : (q : PathName) → fs.content f q ≡ none → fs.content out.1 q ≡ none
    gone :
        (after : MergeSummary) (q : PathName)
        → out.0 ≡ ok after
        → contains q list ≡ true
        → fs.content out.1 q ≡ none
    failures : (after : MergeSummary) → out.0 ≡ ok after → after.failed ≡ summary.failed

  Deleted-kept :
      (name : PathName) (rest : List PathName) (summary : MergeSummary) (f : fs.F)
      (out : Result MergeError MergeSummary × fs.F)
      → fs.content f name ≡ none
      → Deleted rest summary f out
      → Deleted (name ∷ rest) summary f out
  Deleted-kept name rest summary f out nothing later = record {
    others = λ q apart. later.others q (ground (arith, apart));
    absent = later.absent;
    gone = λ after q done inside. elim (Bool-cases (name == q)) [
      | inl here ↦ later.absent q (rw (← (bytes_beq_iff name q).0 here) nothing)
      | inr there ↦ later.gone after q done (rw there at inside)
    ];
    failures = later.failures;
  }

  Deleted-removed :
      (name : PathName) (rest : List PathName) (summary : MergeSummary) (f : fs.F)
      (out : Result MergeError MergeSummary × fs.F)
      → (fs.remove_file f name).0 ≡ true
      → Deleted rest
          (record summary { deleted = summary.deleted + 1 })
          (fs.remove_file f name).1
          out
      → Deleted (name ∷ rest) summary f out
  Deleted-removed name rest summary f out removed later = record {
    others = λ q apart.
        let other : name ≢ q = ground (arith, apart, bytes_beq_iff name q) in
        later.others q (ground (arith, apart)) ∙ fs.content-remove_ne f name q other;
    absent = λ q nothing. elim (Bool-cases (name == q)) [
      | inl here ↦
          later.absent q (rw (← (bytes_beq_iff name q).0 here) (fs.content-remove f name removed))
      | inr there ↦
          let other : name ≢ q = ground (arith, there, bytes_beq_iff name q) in
          later.absent q (fs.content-remove_ne f name q other ∙ nothing)
    ];
    gone = λ after q done inside. elim (Bool-cases (name == q)) [
      | inl here ↦
          later.absent q (rw (← (bytes_beq_iff name q).0 here) (fs.content-remove f name removed))
      | inr there ↦ later.gone after q done (rw there at inside)
    ];
    failures = later.failures;
  }

  delete_loop-Deleted :
      (list : List PathName) (summary after : MergeSummary) (f : fs.F)
      → (delete_loop blake3 io fs temp list (summary, f)).0 ≡ ok after
      → Deleted list summary f (delete_loop blake3 io fs temp list (summary, f))
  unfolding delete_loop
  delete_loop-Deleted [] summary after f done = record {
    others = λ q apart. refl;
    absent = λ q nothing. nothing;
    gone = λ after q done inside. cc;
    failures = λ after done. ap (λ (s : MergeSummary). s.failed) (sym (ok_injective done));
  }
  delete_loop-Deleted (name ∷ rest) summary after f done =
      let gone = fs.remove_file f name in
      elim (Bool-cases (is_file (fs.content f name))) [
        | inl there ↦ elim (Bool-cases gone.0) [
          | inl removed ↦
              rw (delete_loop, there, removed)
                (Deleted-removed name rest summary f _ removed (
                  delete_loop-Deleted rest (record summary { deleted = summary.deleted + 1 }) after
                    gone.1 (rw (delete_loop, there, removed) at done)))
          | inr failed ↦ absurd (not_merged (rw (delete_loop, there, failed) at done))
        ]
        | inr nothing ↦
            rw (delete_loop, nothing)
              (Deleted-kept name rest summary f _ (absent_file (fs.content f name) nothing)
                (delete_loop-Deleted rest summary after f (rw (delete_loop, nothing) at done)))
      ]

  Right-names :
      (f f' : fs.F) (es : List FileEntry)
      → ((q : PathName) → contains q (names es) ≡ true → Leaves blake3 io fs temp q f f')
      → All (Right blake3 io fs temp f) es
      → All (Right blake3 io fs temp f') es
  unfolding names
  Right-names f f' [] same right = tt
  Right-names f f' (e ∷ es) same (here, right) = (
    Right-later blake3 io fs temp f f' e (same e.name (rw (beq_refl e.name) refl)) here,
    Right-names f f' es (λ q inside. same q (ground (arith, inside))) right,
  )

  -- No file of the new version stands where another is assembled, none has the extension "new", no two
  -- have one name, and a file that the old version has with the same digest is not damaged. If a
  -- merge succeeds and lists no failure, every file of the new version is there with its digest, and
  -- no file that only the old version has is left.
  pub merge_files-Right :
      (new : GameIndex) (old : Option GameIndex) (f : fs.F) (summary : MergeSummary)
      → Spread new.files
      → All (OldRight blake3 io fs temp (collect_files [] (files_of old)) f) new.files
      → (merge_files blake3 io fs temp new old f).0 ≡ ok summary
      → summary.failed ≡ []
      → All (Right blake3 io fs temp (merge_files blake3 io fs temp new old f).1) new.files
        × ((n : PathName)
            → contains n (names (files_of old)) ≡ true
            → contains n (names new.files) ≡ false
            → fs.content (merge_files blake3 io fs temp new old f).1 n ≡ none)
  unfolding merge_files
  merge_files-Right new old f summary spread before done clean =
      let old_files = collect_files [] (files_of old) in
      let global = global_chunks (files_of old) in
      let start : MergeSummary = record { merged = 0; deleted = 0; failed = [] } in
      let merged = merge_loop blake3 io fs temp old_files global new.files (start, f) in
      let list = deleted_names (files_of old) new.files in
      let deleted = delete_loop-Deleted list merged.0 summary merged.1 done in
      let right =
        merge_loop-Right blake3 io fs temp old_files global new.files (start, f) spread before
          (sym (deleted.failures summary done) ∙ clean) in
      (
        Right-names merged.1 (delete_loop blake3 io fs temp list merged).1 new.files
            (λ q inside.
              deleted.others q
                (contains-deleted_names q (files_of old) new.files ∙ ground (arith, inside)))
            right.1,
        λ n known absent.
            deleted.gone summary n done
              (contains-deleted_names n (files_of old) new.files ∙ ground (arith, known, absent)),
      )
