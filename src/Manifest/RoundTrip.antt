-- ===== src/Manifest/RoundTrip.antt =====
-- `decode` after `encode` in blaze-common/src/manifest.rs.
use blaze_net.Common.{
  ℕ, ◌-◌, ◌≤◌, ◌^◌, ◌<◌, ◌≡◌, refl, false, List, [], ◌++◌, append-nil, arith, ltb, ◌==◌, bytes_eq,
  beq_refl, length, length-append, length-le_bytes, take-append, drop-append, All, ok, ◌>>=◌,
}
use blaze_net.Manifest.Defs.{
  FileEntry, GameIndex, Blake3, magic, encode_files, encode_body, encode, read_body, build, decode,
  ensure, hash_mismatch,
}
use blaze_net.Manifest.Reads.{
  IsFile, read_exact-append, read_u16-put, read_u32-put, read_files-encode,
}

-- An index whose numbers fit the fields of the format.
pub record IsIndex (index : GameIndex) : Type 0 where
  pub version_fits : index.format_version < 2 ^ 16
  pub count_fits : length index.files < 2 ^ 32
  pub files_ok : All IsFile index.files

pub read_body-encode_body :
    (index : GameIndex)
    → IsIndex index
    → read_body (encode_body index) ≡ ok (index.format_version, index.files)
unfolding read_body encode_body
read_body-encode_body index h = rw (
  read_exact-append 5 magic _ refl,
  read_u16-put index.format_version _ h.version_fits,
  read_u16-put 0 _ (omega arith),
  read_u32-put (length index.files) _ h.count_fits,
  ← append-nil (encode_files index.files),
  read_files-encode index.files [] h.files_ok,
)

pub length-encode_body : (index : GameIndex) → 13 ≤ length (encode_body index)
unfolding encode_body
length-encode_body index = simp (length-append, length-le_bytes) (omega arith)

body_length : (body tail : List ℕ) → length tail ≡ 32 → length (body ++ tail) - 32 ≡ length body
body_length body tail h = omega (arith, length-append body tail)

long_enough :
    (body tail : List ℕ)
    → 13 ≤ length body
    → length tail ≡ 32
    → ltb (length (body ++ tail)) 45 ≡ false
long_enough body tail h k = ground (arith, length-append body tail)

module _ (blake3 : Blake3) where
  -- `decode` on a body and a digest that stand side by side.
  pub decode-append :
      (body tail : List ℕ)
      → 13 ≤ length body
      → length tail ≡ 32
      → decode blake3 (body ++ tail) ≡ (do
        (format_version, files) ← read_body body
        _ ← ensure (blake3.digest body == tail) hash_mismatch
        ok (record { format_version = format_version; files = files; manifest_hash = tail }))
  unfolding decode
  decode-append body tail h k = rw (
    long_enough body tail h k,
    body_length body tail k,
    take-append body tail _ refl,
    drop-append body tail _ refl,
  )

  -- Decoding the encoding of an index that carries the digest of its body gives the index back.
  pub decode-encode :
      (index : GameIndex)
      → IsIndex index
      → index.manifest_hash ≡ blake3.digest (encode_body index)
      → decode blake3 (encode index) ≡ ok index
  unfolding encode
  decode-encode index h sealed =
      let digest_ok = blake3.digest-IsHash (encode_body index) in
      rw (
        decode-append (encode_body index) index.manifest_hash (length-encode_body index)
            (rw sealed digest_ok.1),
        read_body-encode_body index h,
        ← sealed,
        beq_refl index.manifest_hash,
      )

  -- What `build` makes of well-formed files is read back by `decode`.
  pub decode-encode-build :
      (files : List FileEntry)
      → length files < 2 ^ 32
      → All IsFile files
      → decode blake3 (encode (build blake3 files)) ≡ ok (build blake3 files)
  unfolding build encode_body
  decode-encode-build files fits files_ok =
      decode-encode (build blake3 files)
        (record { version_fits = omega arith; count_fits = fits; files_ok = files_ok }) refl
