-- ===== src/Manifest/Defs.antt =====
-- The version list of blaze-common/src/manifest.rs: its types, `encode` and `decode`.
-- A name is its UTF-8 bytes, and the cursor is the bytes that it has not read.
use blaze_net.Common.{
  ℕ, zero, suc, ◌+◌, ◌-◌, ◌%◌, ◌^◌, ◌≡◌, Bool, true, false, List, [], ◌∷◌, ◌++◌, map, ltb,
  if◌then◌else◌, ◌==◌, bytes_eq, nat_eq, length, take, drop, replicate, All, Result, ok, err, ◌>>=◌,
  IsByte, le_bytes, from_le, is_utf8,
}

abbrev pub hash_len : ℕ
hash_len = 32

-- b"BLZGI"
abbrev pub magic : List ℕ
magic = 0x42 ∷ 0x4c ∷ 0x5a ∷ 0x47 ∷ 0x49 ∷ []

abbrev pub format_version_1 : ℕ
format_version_1 = 1

abbrev pub Hash : Type 0
Hash = List ℕ

-- [u8; 32]
abbrev pub IsHash : Hash → Type 0
IsHash h = All IsByte h × (length h ≡ 32)

pub record ChunkMeta : Type 0 where
  pub hash : Hash
  pub len : ℕ

pub record FileEntry : Type 0 where
  pub name : List ℕ
  pub file_hash : Hash
  pub chunks : List ChunkMeta

pub record GameIndex : Type 0 where
  pub format_version : ℕ
  pub files : List FileEntry
  pub manifest_hash : Hash

-- The crate blake3: a digest of 32 bytes.
pub record Blake3 : Type 0 where
  pub digest : List ℕ → Hash
  pub digest-IsHash : (bytes : List ℕ) → IsHash (digest bytes)

pub data DecodeError : Type 0 where
  too_short bad_magic unexpected_eof not_utf8 trailing_data hash_mismatch : DecodeError

-- `as u16` and `as u32` before `to_le_bytes`.
abbrev pub put_u16 : ℕ → List ℕ
put_u16 n = le_bytes 2 (n % 2 ^ 16)

abbrev pub put_u32 : ℕ → List ℕ
put_u32 n = le_bytes 4 (n % 2 ^ 32)

unfoldable pub encode_chunks : List ChunkMeta → List ℕ
encode_chunks [] = []
encode_chunks (c ∷ cs) = c.hash ++ (put_u32 c.len ++ encode_chunks cs)

unfoldable pub encode_files : List FileEntry → List ℕ
encode_files [] = []
encode_files (f ∷ fs) =
    put_u16 (length f.name)
    ++ (f.name
        ++ (f.file_hash
            ++ (put_u32 (length f.chunks) ++ (encode_chunks f.chunks ++ encode_files fs))))

unfoldable pub encode_body : GameIndex → List ℕ
encode_body index =
    magic
    ++ (put_u16 index.format_version
        ++ (put_u16 0 ++ (put_u32 (length index.files) ++ encode_files index.files)))

unfoldable pub encode : GameIndex → List ℕ
encode index = encode_body index ++ index.manifest_hash

abbrev pub Read : Type 0 → Type 0
Read A = List ℕ → Result DecodeError (A × List ℕ)

-- `Cursor::read_exact` into a buffer of n bytes.
unfoldable pub read_exact : ℕ → Read (List ℕ)
read_exact n rest =
    if ltb (length rest) n then err unexpected_eof else ok (take n rest, drop n rest)

unfoldable pub read_u16 : Read ℕ
read_u16 rest = do (buf, rest') ← read_exact 2 rest; ok (from_le buf, rest')

unfoldable pub read_u32 : Read ℕ
read_u32 rest = do (buf, rest') ← read_exact 4 rest; ok (from_le buf, rest')

-- `for _ in 0..chunk_count`
unfoldable pub read_chunks : ℕ → Read (List ChunkMeta)
read_chunks zero rest = ok ([], rest)
read_chunks (suc n) rest = do
  (hash, rest₁) ← read_exact hash_len rest
  (len, rest₂) ← read_u32 rest₁
  (more, rest₃) ← read_chunks n rest₂
  ok (record { hash = hash; len = len } ∷ more, rest₃)

unfoldable pub from_utf8 : List ℕ → Result DecodeError (List ℕ)
from_utf8 bytes = if is_utf8 bytes then ok bytes else err not_utf8

unfoldable pub read_file : Read FileEntry
read_file rest = do
  (name_len, rest₁) ← read_u16 rest
  (name_bytes, rest₂) ← read_exact name_len rest₁
  name ← from_utf8 name_bytes
  (file_hash, rest₃) ← read_exact hash_len rest₂
  (chunk_count, rest₄) ← read_u32 rest₃
  (chunks, rest₅) ← read_chunks chunk_count rest₄
  ok (record { name = name; file_hash = file_hash; chunks = chunks }, rest₅)

-- `for _ in 0..file_count`
unfoldable pub read_files : ℕ → Read (List FileEntry)
read_files zero rest = ok ([], rest)
read_files (suc n) rest = do
  (file, rest₁) ← read_file rest
  (more, rest₂) ← read_files n rest₁
  ok (file ∷ more, rest₂)

abbrev pub ensure : Bool → DecodeError → Result DecodeError (Unit {0})
ensure true e = ok tt
ensure false e = err e

-- The body up to its last byte: the version and the files.
unfoldable pub read_body : List ℕ → Result DecodeError (ℕ × List FileEntry)
read_body body = do
  (m, rest₁) ← read_exact 5 body
  _ ← ensure (m == magic) bad_magic
  (format_version, rest₂) ← read_u16 rest₁
  (flags, rest₃) ← read_u16 rest₂
  (file_count, rest₄) ← read_u32 rest₃
  (files, rest₅) ← read_files file_count rest₄
  _ ← ensure (length rest₅ == 0) trailing_data
  ok (format_version, files)

module _ (blake3 : Blake3) where
  unfoldable pub build : List FileEntry → GameIndex
  unfolding encode_body
  build files =
      let index : GameIndex = record {
        format_version = format_version_1;
        files = files;
        manifest_hash = replicate hash_len 0;
      } in
      record index { manifest_hash = blake3.digest (encode_body index) }

  unfoldable pub decode : List ℕ → Result DecodeError GameIndex
  decode bytes = if ltb (length bytes) (5 + 2 + 2 + 4 + hash_len) then err too_short else do
    let at = length bytes - hash_len
    (format_version, files) ← read_body (take at bytes)
    let manifest_hash = drop at bytes
    _ ← ensure (blake3.digest (take at bytes) == manifest_hash) hash_mismatch
    ok (record { format_version = format_version; files = files; manifest_hash = manifest_hash })

-- Every chunk hash of every file, in the order of the list; a set in the source, so only
-- membership in it counts.
unfoldable pub chunk_hashes : List ChunkMeta → List Hash
chunk_hashes = map (λ c. c.hash)

unfoldable pub chunk_set : List FileEntry → List Hash
unfolding chunk_hashes
chunk_set [] = []
chunk_set (f ∷ fs) = chunk_hashes f.chunks ++ chunk_set fs
