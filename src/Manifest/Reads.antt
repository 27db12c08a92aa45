-- ===== src/Manifest/Reads.antt =====
-- The readers of blaze-common/src/manifest.rs in front of bytes that the encoder wrote.
use native.Mathlib.Nat.{mod-eq_of_lt}
use blaze_net.Common.{
  ℕ, ◌^◌, ◌<◌, ◌≡◌, refl, true, List, [], ◌∷◌, ◌++◌, append_assoc, arith, length, length-append,
  take-append, drop-append, All, IsByte, ok, length-le_bytes, from_le-le_bytes, is_utf8,
}
use blaze_net.Manifest.Defs.{
  IsHash, ChunkMeta, FileEntry, put_u16, put_u32, encode_chunks, encode_files, read_exact, read_u16,
  read_u32, read_chunks, read_file, read_files, from_utf8,
}

-- The values that the Rust types allow, and that the counts of the format can hold.
pub record IsChunk (c : ChunkMeta) : Type 0 where
  pub hash_ok : IsHash c.hash
  pub len_fits : c.len < 2 ^ 32

pub record IsFile (f : FileEntry) : Type 0 where
  pub name_bytes : All IsByte f.name
  pub name_utf8 : is_utf8 f.name ≡ true
  pub name_fits : length f.name < 2 ^ 16
  pub file_hash_ok : IsHash f.file_hash
  pub count_fits : length f.chunks < 2 ^ 32
  pub chunks_ok : All IsChunk f.chunks

pub read_exact-append :
    (n : ℕ) (xs rest : List ℕ) → length xs ≡ n → read_exact n (xs ++ rest) ≡ ok (xs, rest)
unfolding read_exact
read_exact-append n xs rest h =
    ground (arith, length-append xs rest, take-append xs rest n h, drop-append xs rest n h)

pub read_u16-put :
    (n : ℕ) (rest : List ℕ) → n < 2 ^ 16 → read_u16 (put_u16 n ++ rest) ≡ ok (n, rest)
unfolding read_u16
read_u16-put n rest h =
    rw (mod-eq_of_lt h, read_exact-append 2 _ rest (length-le_bytes 2 n), from_le-le_bytes 2 n h)

pub read_u32-put :
    (n : ℕ) (rest : List ℕ) → n < 2 ^ 32 → read_u32 (put_u32 n ++ rest) ≡ ok (n, rest)
unfolding read_u32
read_u32-put n rest h =
    rw (mod-eq_of_lt h, read_exact-append 4 _ rest (length-le_bytes 4 n), from_le-le_bytes 4 n h)

pub read_chunks-encode :
    (cs : List ChunkMeta) (rest : List ℕ)
    → All IsChunk cs
    → read_chunks (length cs) (encode_chunks cs ++ rest) ≡ ok (cs, rest)
unfolding read_chunks encode_chunks
read_chunks-encode [] rest h = refl
read_chunks-encode (c ∷ cs) rest (hc, hcs) = rw (
  append_assoc,
  append_assoc,
  read_exact-append 32 c.hash _ hc.hash_ok.1,
  read_u32-put c.len _ hc.len_fits,
  read_chunks-encode cs rest hcs,
)

pub read_file-encode :
    (f : FileEntry) (rest : List ℕ)
    → IsFile f
    → read_file (
        put_u16 (length f.name)
        ++ (f.name
            ++ (f.file_hash ++ (put_u32 (length f.chunks) ++ (encode_chunks f.chunks ++ rest)))))
      ≡ ok (f, rest)
unfolding read_file from_utf8
read_file-encode f rest h = rw (
  read_u16-put (length f.name) _ h.name_fits,
  read_exact-append (length f.name) f.name _ refl,
  h.name_utf8,
  read_exact-append 32 f.file_hash _ h.file_hash_ok.1,
  read_u32-put (length f.chunks) _ h.count_fits,
  read_chunks-encode f.chunks rest h.chunks_ok,
)

pub read_files-encode :
    (fs : List FileEntry) (rest : List ℕ)
    → All IsFile fs
    → read_files (length fs) (encode_files fs ++ rest) ≡ ok (fs, rest)
unfolding read_files encode_files
read_files-encode [] rest h = refl
read_files-encode (f ∷ fs) rest (hf, hfs) =
    simp append_assoc
      (rw (read_file-encode f (encode_files fs ++ rest) hf, read_files-encode fs rest hfs))
