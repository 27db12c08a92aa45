-- ===== src/Plan/Defs.antt =====
-- `compute` of blaze-common/src/update_plan.rs. A map collected from the files keeps the last entry
-- of a name; sets are lists without repetition, read by membership alone or sorted before use.
use blaze_net.Common.{
  if◌then◌else◌, ◌==◌, nat_eq, bytes_eq, set_insert, to_set, keep, sort, bytes_leb, contains,
  lookup, ℕ, ◌+◌, ◌%◌, ◌^◌, Bool, true, false, not, ◌||◌, Option, none, some, List, [], ◌∷◌, ◌++◌,
}
use blaze_net.Manifest.Defs.{Hash, ChunkMeta, FileEntry, GameIndex, chunk_set}

pub record UpdatePlan : Type 0 where
  pub files_to_download : List (List ℕ)
  pub files_to_update : List (List ℕ)
  pub files_to_delete : List (List ℕ)
  pub chunks_to_download : List Hash
  pub download_bytes : ℕ

abbrev pub u64_mod : ℕ
u64_mod = 2 ^ 64

-- `old.map(|o| o.files ...).unwrap_or_default()`
unfoldable pub files_of : Option GameIndex → List FileEntry
files_of none = []
files_of (some o) = o.files

abbrev pub FileMap : Type 0
FileMap = List (List ℕ × FileEntry)

-- `collect` into a `HashMap`: a later entry of a name hides an earlier one.
unfoldable pub collect_files : FileMap → List FileEntry → FileMap
collect_files m [] = m
collect_files m (f ∷ fs) = collect_files ((f.name, f) ∷ m) fs

unfoldable pub names : List FileEntry → List (List ℕ)
names [] = []
names (f ∷ fs) = f.name ∷ names fs

unfoldable pub is_new : FileMap → FileEntry → Bool
is_new old f = elim (lookup f.name old) [ none ↦ true | some prev ↦ false ]

unfoldable pub is_changed : FileMap → FileEntry → Bool
is_changed old f = elim (lookup f.name old) [
  | none ↦ false
  | some prev ↦ not (prev.file_hash == f.file_hash)
]

-- The loop over the new files, with its two vectors.
unfoldable pub sort_files :
    FileMap → List (List ℕ) × List (List ℕ) → List FileEntry → List (List ℕ) × List (List ℕ)
unfolding is_new is_changed
sort_files old (download, update) [] = (download, update)
sort_files old (download, update) (f ∷ fs) =
    sort_files old
      (
        if is_new old f then download ++ f.name ∷ [] else download,
        if is_changed old f then update ++ f.name ∷ [] else update,
      )
      fs

unfoldable pub deleted_names : List FileEntry → List FileEntry → List (List ℕ)
deleted_names old new =
    sort bytes_leb (keep (λ n. not (contains n (names new))) (to_set (names old)))

-- `seen`, `chunks_to_download` and `download_bytes` of the loop over the chunks.
pub record ChunkScan : Type 0 where
  pub seen : List Hash
  pub chunks : List Hash
  pub bytes : ℕ

-- One turn of the loop; `download_bytes` is a u64.
unfoldable pub scan_chunk : List Hash → List Hash → ChunkScan → ChunkMeta → ChunkScan
scan_chunk old temp s c =
    if contains c.hash old || contains c.hash temp
    then s
    else if contains c.hash s.seen
    then s
    else record {
      seen = set_insert c.hash s.seen;
      chunks = s.chunks ++ c.hash ∷ [];
      bytes = (s.bytes + c.len) % u64_mod;
    }

unfoldable pub scan_chunks : List Hash → List Hash → ChunkScan → List ChunkMeta → ChunkScan
scan_chunks old temp s [] = s
scan_chunks old temp s (c ∷ cs) = scan_chunks old temp (scan_chunk old temp s c) cs

unfoldable pub scan_files : List Hash → List Hash → ChunkScan → List FileEntry → ChunkScan
scan_files old temp s [] = s
scan_files old temp s (f ∷ fs) = scan_files old temp (scan_chunks old temp s f.chunks) fs

abbrev pub scan_start : ChunkScan
scan_start = record { seen = []; chunks = []; bytes = 0 }

unfoldable pub compute : GameIndex → Option GameIndex → List Hash → UpdatePlan
compute new old temp =
    let old_files = collect_files [] (files_of old) in
    let (download, update) = sort_files old_files ([], []) new.files in
    let scan = scan_files (chunk_set (files_of old)) temp scan_start new.files in
    record {
      files_to_download = download;
      files_to_update = update;
      files_to_delete = deleted_names (files_of old) new.files;
      chunks_to_download = scan.chunks;
      download_bytes = scan.bytes;
    }
