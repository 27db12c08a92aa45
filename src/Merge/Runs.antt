-- ===== src/Merge/Runs.antt =====
-- Runs of a merge over a directory that is a function from names to bytes.
use blaze_net.Common.{
  if◌then◌else◌, beq_refl, ◌==◌, bytes_beq_iff, bytes_eq, nat_eq, Result, ok, set_insert, to_set,
  keep, insert_sorted, sort, All, contains, ℕ, ◌≡◌, refl, ◌∙◌, ◌≢◌, Bool, true, false, Option, none,
  some, List, [], ◌∷◌, arith,
}
use blaze_net.Manifest.Defs.{Hash, FileEntry, GameIndex}
use blaze_net.Manifest.Runs.{small_index}
use blaze_net.Plan.Defs.{files_of, collect_files, names, deleted_names}
use blaze_net.Storage.Runs.{slow_io, chunk}
use blaze_net.Transfer.Runs.{seven, seven_digest}
use blaze_net.Merge.Defs.{
  PathName, MergeError, FileSystem, MergeSummary, is_file, strip_rev, rev, trim_rev, has_no_name,
  with_new, chunk_map, at_file, global_chunks, old_positions, read_chunk_at, read_temp, read_global,
  chunk_bytes, write_next, assemble, rename_new, replace_file, check_file, write_new_file,
  need_merge, after_file, merge_loop, delete_loop, merge_files,
}
use blaze_net.Merge.Files.{Right}
use blaze_net.Merge.Versions.{Spread}
use blaze_net.Merge.Merged.{merge_files-Right}
use blaze_net.Merge.Suffix.{write_new_file_self}

abbrev Dir : Type 0
Dir = PathName → Option (List ℕ)

abbrev set_file : PathName → Option (List ℕ) → Dir → Dir
set_file p o d q = if p == q then o else d q

set_file-own : (p : PathName) (o : Option (List ℕ)) (d : Dir) → set_file p o d p ≡ o
set_file-own p o d = rw (beq_refl p) refl

set_file-other : (p q : PathName) (o : Option (List ℕ)) (d : Dir) → p ≢ q → set_file p o d q ≡ d q
set_file-other p q o d ne = ground (arith, bytes_beq_iff p q)

abbrev move_file : Dir → PathName → PathName → Option (List ℕ) → Bool × Dir
move_file d a b none = (false, d)
move_file d a b (some bytes) = (true, set_file b (some bytes) (set_file a none d))

move_file-to :
    (d : Dir) (a b : PathName) (o : Option (List ℕ))
    → (move_file d a b o).0 ≡ true
    → (move_file d a b o).1 b ≡ o
move_file-to d a b none h = cc
move_file-to d a b (some bytes) h = set_file-own b (some bytes) (set_file a none d)

move_file-other :
    (d : Dir) (a b q : PathName) (o : Option (List ℕ))
    → a ≢ q
    → b ≢ q
    → (move_file d a b o).1 q ≡ d q
move_file-other d a b q none ne ne' = refl
move_file-other d a b q (some bytes) ne ne' =
    set_file-other b q (some bytes) (set_file a none d) ne' ∙ set_file-other a q none d ne

abbrev directory : FileSystem
directory = record {
  F = Dir;
  content = λ d p. d p;
  write = λ d p bytes. (true, set_file p (some bytes) d);
  remove_file = λ d p. (true, set_file p none d);
  rename = λ d a b. move_file d a b (d a);
  sync_all = λ d p. true;
  close = λ d p. true;
  content-write = λ d p bytes h. set_file-own p (some bytes) d;
  content-write_ne = λ d p q bytes ne. set_file-other p q (some bytes) d ne;
  content-remove = λ d p h. set_file-own p none d;
  content-remove_ne = λ d p q ne. set_file-other p q none d ne;
  content-rename = λ d a b h. move_file-to d a b (d a) h;
  content-rename_ne = λ d a b q ne ne'. move_file-other d a b q (d a) ne ne';
  rename-absent = λ d a b gone. rw gone refl;
}

-- "b.c" with the chunk in the temporary directory; the old version has only "d".
abbrev file_b : FileEntry
file_b = record {
  name = 0x62 ∷ 0x2e ∷ 0x63 ∷ [];
  file_hash = seven;
  chunks = record { hash = seven; len = 5 } ∷ [];
}

abbrev file_d : FileEntry
file_d = record { name = 0x64 ∷ []; file_hash = seven; chunks = [] }

abbrev new_index : GameIndex
new_index = record small_index { files = file_b ∷ [] }

abbrev old_index : GameIndex
old_index = record small_index { files = file_d ∷ [] }

abbrev temp_chunks : Hash → Option (List ℕ)
temp_chunks h = some chunk

abbrev old_dir : Dir
old_dir p = if p == 0x64 ∷ [] then some [] else none

abbrev after : Result MergeError MergeSummary × Dir
after = merge_files seven_digest slow_io directory temp_chunks new_index (some old_index) old_dir

merge_done : after.0 ≡ ok (record { merged = 1; deleted = 1; failed = [] })
unfolding merge_files merge_loop delete_loop files_of collect_files global_chunks deleted_names
    need_merge write_new_file after_file with_new strip_rev rev trim_rev has_no_name is_file
    old_positions assemble check_file chunk_bytes write_next read_chunk_at read_global read_temp
    replace_file rename_new chunk_map at_file names keep seven_digest sort to_set set_insert
    insert_sorted
merge_done = refl

no_file : is_file none ≢ true
unfolding is_file
no_file h = cc

new_index-Spread : Spread new_index.files
unfolding with_new strip_rev rev trim_rev has_no_name
new_index-Spread = ((λ e. cc), tt, tt)

merge_files-Right_example :
    All (Right seven_digest slow_io directory temp_chunks after.1) new_index.files
    × ((n : PathName)
        → contains n (names old_index.files) ≡ true
        → contains n (names new_index.files) ≡ false
        → after.1 n ≡ none)
unfolding files_of
merge_files-Right_example =
    merge_files-Right seven_digest slow_io directory temp_chunks new_index (some old_index) old_dir
      (record { merged = 1; deleted = 1; failed = [] }) new_index-Spread
      ((λ prev known equal there. absurd (no_file there)), tt) merge_done refl

abbrev file_new : FileEntry
file_new = record file_b { name = 0x62 ∷ 0x2e ∷ 0x6e ∷ 0x65 ∷ 0x77 ∷ [] }

write_new_file_self_example :
    (write_new_file seven_digest slow_io directory temp_chunks file_new none [] old_dir).0 ≢ ok tt
write_new_file_self_example =
    write_new_file_self seven_digest slow_io directory temp_chunks file_new none [] old_dir
      (unfold with_new strip_rev rev trim_rev has_no_name in refl)
