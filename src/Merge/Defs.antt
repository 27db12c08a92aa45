-- ===== src/Merge/Defs.antt =====
-- `merge_files` of agent/src/update.rs. The directory of the game is a parameter with the laws of its
-- files; the incremental digest is the digest of all bytes; a directory in place of a file is left out.
use blaze_net.Common.{
  if◌then◌else◌, ◌==◌, bytes_eq, nat_eq, Result, ok, err, lookup, ℕ, ◌+◌, ◌≡◌, ◌≢◌, Bool, true,
  false, not, ◌&&◌, ◌||◌, Option, none, some, List, [], ◌∷◌, ◌++◌,
}
use blaze_net.Manifest.Defs.{Hash, ChunkMeta, FileEntry, GameIndex, Blake3}
use blaze_net.Plan.Defs.{FileMap, files_of, collect_files, deleted_names}
use blaze_net.Storage.Files.{IoError, PosixFile, read_exact_at}

abbrev pub PathName : Type 0
PathName = List ℕ

pub data MergeError : Type 0 where
  fs_failed no_temp_chunk bad_file_hash : MergeError
  read_failed : IoError → MergeError

-- The files of a directory. A call tells whether it succeeded, and leaves a state either way.
pub record FileSystem : Type 1 where
  pub F : Type 0
  pub content : F → PathName → Option (List ℕ)
  pub write : F → PathName → List ℕ → Bool × F
  pub remove_file : F → PathName → Bool × F
  pub rename : F → PathName → PathName → Bool × F
  pub sync_all : F → PathName → Bool
  pub close : F → PathName → Bool
  pub content-write :
      (f : F) (p : PathName) (bytes : List ℕ)
      → (write f p bytes).0 ≡ true
      → content (write f p bytes).1 p ≡ some bytes
  pub content-write_ne :
      (f : F) (p q : PathName) (bytes : List ℕ)
      → p ≢ q
      → content (write f p bytes).1 q ≡ content f q
  pub content-remove :
      (f : F) (p : PathName) → (remove_file f p).0 ≡ true → content (remove_file f p).1 p ≡ none
  pub content-remove_ne :
      (f : F) (p q : PathName) → p ≢ q → content (remove_file f p).1 q ≡ content f q
  pub content-rename :
      (f : F) (a b : PathName) → (rename f a b).0 ≡ true → content (rename f a b).1 b ≡ content f a
  pub content-rename_ne :
      (f : F) (a b q : PathName) → a ≢ q → b ≢ q → content (rename f a b).1 q ≡ content f q
  pub rename-absent : (f : F) (a b : PathName) → content f a ≡ none → (rename f a b).0 ≡ false

pub record MergeSummary : Type 0 where
  pub merged : ℕ
  pub deleted : ℕ
  pub failed : List PathName

unfoldable pub is_file : Option (List ℕ) → Bool
is_file none = false
is_file (some bytes) = true

-- What stands before the last dot of the last component, from its end: `none` without an extension.
unfoldable pub strip_rev : List ℕ → Option (List ℕ)
strip_rev [] = none
strip_rev (c ∷ []) = none
strip_rev (c ∷ d ∷ cs) =
    let rest = strip_rev (d ∷ cs) in
    if c == 0x2f
    then none
    else if c == 0x2e
    then (if d == 0x2f then none else some (d ∷ cs))
    else rest

unfoldable pub rev : List ℕ → List ℕ → List ℕ
rev [] acc = acc
rev (x ∷ xs) acc = rev xs (x ∷ acc)

-- The components of a path leave out what stands behind its last name: slashes, and "." behind a slash.
unfoldable pub trim_rev : List ℕ → List ℕ
trim_rev [] = []
trim_rev (c ∷ []) = if c == 0x2f then [] else c ∷ []
trim_rev (c ∷ d ∷ cs) =
    let rest = trim_rev (d ∷ cs) in
    if c == 0x2f then rest else if c == 0x2e && d == 0x2f then rest else c ∷ d ∷ cs

-- The last component is no name: there is none, or it is "." or "..".
unfoldable pub has_no_name : List ℕ → Bool
has_no_name [] = true
has_no_name (c ∷ []) = c == 0x2e
has_no_name (c ∷ d ∷ []) = c == 0x2e && d == 0x2e
has_no_name (c ∷ d ∷ e ∷ cs) = c == 0x2e && (d == 0x2e && e == 0x2f)

-- `with_extension("new")`, which leaves a path without a name as it is.
unfoldable pub with_new : PathName → PathName
unfolding strip_rev rev trim_rev has_no_name
with_new name =
    let base = trim_rev (rev name []) in
    let stem : PathName = elim (strip_rev base) [ none ↦ rev base [] | some r ↦ rev r [] ] in
    if has_no_name base then name else stem ++ (0x2e ∷ 0x6e ∷ 0x65 ∷ 0x77 ∷ [])

abbrev pub Positions : Type 0
Positions = List (Hash × (ℕ × ℕ))

abbrev pub Locations : Type 0
Locations = List (Hash × (PathName × ℕ × ℕ))

-- The first position of each chunk in a file.
unfoldable pub chunk_map : ℕ → List ChunkMeta → Positions
chunk_map offset [] = []
chunk_map offset (c ∷ cs) = (c.hash, (offset, c.len)) ∷ chunk_map (offset + c.len) cs

unfoldable pub at_file : PathName → Positions → Locations
at_file name [] = []
at_file name ((h, (offset, len)) ∷ m) = (h, (name, offset, len)) ∷ at_file name m

-- The first position of each chunk in all files.
unfoldable pub global_chunks : List FileEntry → Locations
unfolding chunk_map at_file
global_chunks [] = []
global_chunks (f ∷ fs) = at_file f.name (chunk_map 0 f.chunks) ++ global_chunks fs

-- The positions in the old file, if the old version has it and it is there.
unfoldable pub old_positions : Bool → Option FileEntry → Positions
unfolding chunk_map
old_positions opened none = []
old_positions opened (some prev) = if opened then chunk_map 0 prev.chunks else []

module _ (blake3 : Blake3) (io : PosixFile) (fs : FileSystem) (temp : Hash → Option (List ℕ)) where
  unfoldable pub read_chunk_at : Option (List ℕ) → ℕ → ℕ → Result MergeError (List ℕ)
  read_chunk_at none offset len = err fs_failed
  read_chunk_at (some bytes) offset len = elim (read_exact_at io bytes len offset) [
    | ok buf ↦ ok buf
    | err e ↦ err (read_failed e)
  ]

  unfoldable pub read_temp : Hash → Result MergeError (List ℕ)
  read_temp h = elim (temp h) [ none ↦ err no_temp_chunk | some bytes ↦ ok bytes ]

  -- The chunk of another file, if that file is there.
  unfoldable pub read_global : fs.F → Hash → Option (PathName × ℕ × ℕ) → Result MergeError (List ℕ)
  unfolding read_chunk_at read_temp
  read_global f h none = read_temp h
  read_global f h (some (rel, offset, len)) =
      if is_file (fs.content f rel)
      then read_chunk_at (fs.content f rel) offset len
      else read_temp h

  -- The bytes of a chunk: from the old file, from any old file, or from the temporary directory.
  unfoldable pub chunk_bytes :
      fs.F → PathName → Option (ℕ × ℕ) → Locations → Hash → Result MergeError (List ℕ)
  unfolding read_chunk_at read_global
  chunk_bytes f target (some (offset, len)) global h =
      read_chunk_at (fs.content f target) offset len
  chunk_bytes f target none global h = read_global f h (lookup h global)

  unfoldable pub write_next :
      (List ℕ → fs.F → Result MergeError (List ℕ) × fs.F)
      → PathName
      → List ℕ
      → fs.F
      → Result MergeError (List ℕ)
      → Result MergeError (List ℕ) × fs.F
  write_next go_on new_path acc f (err e) = (err e, f)
  write_next go_on new_path acc f (ok bytes) =
      let (written, f') = fs.write f new_path (acc ++ bytes) in
      let rest = go_on (acc ++ bytes) f' in if written then rest else (err fs_failed, f')

  -- The loop over the chunks of a file; its result is all bytes that were written.
  unfoldable pub assemble :
      PathName
      → Positions
      → Locations
      → PathName
      → List ChunkMeta
      → List ℕ
      → fs.F
      → Result MergeError (List ℕ) × fs.F
  unfolding chunk_bytes write_next
  assemble target old_chunks global new_path [] acc f = (ok acc, f)
  assemble target old_chunks global new_path (c ∷ cs) acc f =
      write_next (λ acc' f'. assemble target old_chunks global new_path cs acc' f') new_path acc f
        (chunk_bytes f target (lookup c.hash old_chunks) global c.hash)

  unfoldable pub rename_new : PathName → PathName → fs.F → Result MergeError (Unit {0}) × fs.F
  rename_new new_path target f =
      let (renamed, f') = fs.rename f new_path target in
      (if renamed then ok tt else err fs_failed, f')

  unfoldable pub replace_file : PathName → PathName → fs.F → Result MergeError (Unit {0}) × fs.F
  unfolding rename_new
  replace_file new_path target f =
      let (removed, f') = fs.remove_file f target in
      if is_file (fs.content f target)
      then (if removed then rename_new new_path target f' else (err fs_failed, f'))
      else rename_new new_path target f

  unfoldable pub check_file :
      FileEntry → PathName → Result MergeError (List ℕ) × fs.F → Result MergeError (Unit {0}) × fs.F
  unfolding replace_file
  check_file entry new_path (err e, f) = (err e, f)
  check_file entry new_path (ok bytes, f) =
      if not (blake3.digest bytes == entry.file_hash)
      then (err bad_file_hash, (fs.remove_file f new_path).1)
      else if fs.sync_all f new_path && fs.close f new_path
      then replace_file new_path entry.name f
      else (err fs_failed, f)

  unfoldable pub write_new_file :
      FileEntry → Option FileEntry → Locations → fs.F → Result MergeError (Unit {0}) × fs.F
  unfolding with_new is_file old_positions assemble check_file
  write_new_file entry old global f =
      let new_path = with_new entry.name in
      let (created, f₁) = fs.write f new_path [] in
      let old_chunks = old_positions (is_file (fs.content f₁ entry.name)) old in
      if not created
      then (err fs_failed, f₁)
      else check_file entry new_path
          (assemble entry.name old_chunks global new_path entry.chunks [] f₁)

  unfoldable pub need_merge : fs.F → FileEntry → Option FileEntry → Bool
  unfolding is_file
  need_merge f entry none = true
  need_merge f entry (some prev) =
      not (prev.file_hash == entry.file_hash) || not (is_file (fs.content f entry.name))

  unfoldable pub after_file :
      FileEntry → MergeSummary → Result MergeError (Unit {0}) × fs.F → MergeSummary × fs.F
  after_file entry summary (ok u, f) = (record summary { merged = summary.merged + 1 }, f)
  after_file entry summary (err e, f) = (
    record summary { failed = summary.failed ++ entry.name ∷ [] },
    (fs.remove_file f (with_new entry.name)).1,
  )

  unfoldable pub merge_loop :
      FileMap → Locations → List FileEntry → MergeSummary × fs.F → MergeSummary × fs.F
  unfolding need_merge write_new_file after_file
  merge_loop old_files global [] out = out
  merge_loop old_files global (entry ∷ entries) out =
      let old = lookup entry.name old_files in
      let done = after_file entry out.0 (write_new_file entry old global out.1) in
      merge_loop old_files global entries (if need_merge out.1 entry old then done else out)

  -- The names that the new version does not have; the first file that stays ends the loop.
  unfoldable pub delete_loop :
      List PathName → MergeSummary × fs.F → Result MergeError MergeSummary × fs.F
  unfolding is_file
  delete_loop [] (summary, f) = (ok summary, f)
  delete_loop (name ∷ rest) (summary, f) =
      let (removed, f') = fs.remove_file f name in
      let kept = delete_loop rest (summary, f) in
      let gone = delete_loop rest (record summary { deleted = summary.deleted + 1 }, f') in
      if is_file (fs.content f name) then (if removed then gone else (err fs_failed, f')) else kept

  unfoldable pub merge_files :
      GameIndex → Option GameIndex → fs.F → Result MergeError MergeSummary × fs.F
  unfolding merge_loop delete_loop files_of collect_files global_chunks deleted_names
  merge_files new old f = delete_loop (deleted_names (files_of old) new.files) (
      merge_loop (collect_files [] (files_of old)) (global_chunks (files_of old)) new.files
        (record { merged = 0; deleted = 0; failed = [] }, f))
