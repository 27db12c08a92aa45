-- ===== src/Plan/Runs.antt =====
-- Runs of `compute` of blaze-common/src/update_plan.rs on an update of two files.
use blaze_net.Common.{
  nat_eq, bytes_eq, set_insert, to_set, keep, insert_sorted, sort, bytes_leb, Nodup, IsSorted,
  replicate, contains, ℕ, ◌%◌, ◌^◌, ◌≡◌, refl, not, ◌&&◌, some, List, [], ◌∷◌,
}
use blaze_net.Manifest.Defs.{Hash, ChunkMeta, FileEntry, GameIndex, chunk_hashes, chunk_set}
use blaze_net.Plan.Defs.{
  files_of, collect_files, names, is_new, is_changed, sort_files, deleted_names, scan_chunk,
  scan_chunks, scan_files, compute,
}
use blaze_net.Plan.Chunks.{chunks_to_download_exact, total_len, download_bytes_exact}
use blaze_net.Plan.Files.{files_to_delete_exact, entry_of, differs, files_to_update_exact}

abbrev chunk : ℕ → ChunkMeta
chunk b = record { hash = replicate 32 b; len = b }

abbrev file : ℕ → ℕ → List ChunkMeta → FileEntry
file name b chunks = record { name = name ∷ []; file_hash = replicate 32 b; chunks = chunks }

abbrev version : List FileEntry → GameIndex
version files = record { format_version = 1; files = files; manifest_hash = replicate 32 0 }

-- The file "a" changes, "b" goes and "c" comes.
abbrev old_version : GameIndex
old_version = version (file 0x61 1 (chunk 1 ∷ chunk 2 ∷ []) ∷ file 0x62 2 (chunk 3 ∷ []) ∷ [])

abbrev new_version : GameIndex
new_version =
    version (file 0x61 3 (chunk 1 ∷ chunk 4 ∷ []) ∷ file 0x63 4 (chunk 4 ∷ chunk 5 ∷ []) ∷ [])

abbrev temp : List Hash
temp = replicate 32 5 ∷ []

plan_test : compute new_version (some old_version) temp ≡ record {
  files_to_download = (0x63 ∷ []) ∷ [];
  files_to_update = (0x61 ∷ []) ∷ [];
  files_to_delete = (0x62 ∷ []) ∷ [];
  chunks_to_download = replicate 32 4 ∷ [];
  download_bytes = 4;
}
unfolding compute collect_files files_of names is_new is_changed sort_files deleted_names scan_chunk
    scan_chunks scan_files chunk_set chunk_hashes sort to_set keep set_insert insert_sorted
plan_test = refl

chunks_to_download_exact_example :
    contains (replicate 32 4) (compute new_version (some old_version) temp).chunks_to_download ≡ (
      contains (replicate 32 4) (chunk_set new_version.files)
      && (not (contains (replicate 32 4) (chunk_set (files_of (some old_version))))
          && not (contains (replicate 32 4) temp)))
chunks_to_download_exact_example =
    chunks_to_download_exact new_version (some old_version) temp (replicate 32 4)

-- The length that a hash of these versions fixes: its first byte.
abbrev first_byte : Hash → ℕ
first_byte [] = 0
first_byte (b ∷ bs) = b

download_bytes_exact_example :
    (compute new_version (some old_version) temp).download_bytes
    ≡ total_len first_byte (compute new_version (some old_version) temp).chunks_to_download % 2 ^ 64
download_bytes_exact_example =
    download_bytes_exact first_byte new_version (some old_version) temp
      ((refl, (refl, tt)), ((refl, (refl, tt)), tt))

files_to_delete_exact_example :
    ((n : List ℕ)
      → contains n (compute new_version (some old_version) temp).files_to_delete ≡ (
          contains n (names (files_of (some old_version)))
          && not (contains n (names new_version.files))))
    × Nodup (compute new_version (some old_version) temp).files_to_delete
    × IsSorted bytes_leb (compute new_version (some old_version) temp).files_to_delete
files_to_delete_exact_example = files_to_delete_exact new_version (some old_version) temp

files_to_update_exact_example :
    contains (0x61 ∷ []) (compute new_version (some old_version) temp).files_to_update
    ≡ differs
        (entry_of (0x61 ∷ []) (files_of (some old_version)))
        (entry_of (0x61 ∷ []) new_version.files)
files_to_update_exact_example =
    files_to_update_exact new_version (some old_version) temp (0x61 ∷ [])
      (unfold names in (refl, (refl, tt))) (unfold names files_of in (refl, (refl, tt)))
