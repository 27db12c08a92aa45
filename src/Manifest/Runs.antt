-- ===== src/Manifest/Runs.antt =====
-- Runs of the codec of blaze-common/src/manifest.rs on small indices.
use blaze_net.Common.{
  ltb, nat_eq, bytes_eq, ok, replicate, All, le_bytes, is_utf8, IsByte, ℕ, ◌<◌, ◌≡◌, refl, Bool,
  true, ◌&&◌, List, [], ◌∷◌, arith,
}
use blaze_net.Manifest.Defs.{
  Hash, IsHash, ChunkMeta, FileEntry, GameIndex, Blake3, encode_chunks, encode_files, encode_body,
  encode, decode,
}
use blaze_net.Manifest.Reads.{IsFile}
use blaze_net.Manifest.RoundTrip.{IsIndex, decode-encode}
use blaze_net.Manifest.Sound.{Accepted, decode_sound}

-- A test of bytes that computes.
abbrev are_bytes : List ℕ → Bool
are_bytes [] = true
are_bytes (b ∷ bs) = ltb b 256 && are_bytes bs

are_bytes-IsByte : (bytes : List ℕ) → are_bytes bytes ≡ true → All IsByte bytes
are_bytes-IsByte [] h = tt
are_bytes-IsByte (b ∷ bs) h = (ground arith, are_bytes-IsByte bs (ground arith))

pub replicate-IsHash : (b : ℕ) → b < 256 → IsHash (replicate 32 b)
replicate-IsHash b h =
    (are_bytes-IsByte (replicate 32 b) (let e : ltb b 256 ≡ true = ground arith in rw e refl), refl)

-- A digest that is the same for all bytes.
abbrev pub zero_hash : Hash
zero_hash = replicate 32 0

pub no_digest : Blake3
no_digest = record {
  digest = λ bytes. zero_hash;
  digest-IsHash = λ bytes. replicate-IsHash 0 (omega arith);
}

abbrev pub chunk_of_5 : ChunkMeta
chunk_of_5 = record { hash = replicate 32 7; len = 5 }

-- A file "a" of one chunk.
abbrev pub file_a : FileEntry
file_a = record { name = 0x61 ∷ []; file_hash = replicate 32 9; chunks = chunk_of_5 ∷ [] }

abbrev pub small_index : GameIndex
small_index = record { format_version = 1; files = file_a ∷ []; manifest_hash = zero_hash }

file_a-IsFile : IsFile file_a
unfolding is_utf8
file_a-IsFile = record {
  name_bytes = are_bytes-IsByte (0x61 ∷ []) refl;
  name_utf8 = refl;
  name_fits = omega arith;
  file_hash_ok = replicate-IsHash 9 (omega arith);
  count_fits = omega arith;
  chunks_ok = (record { hash_ok = replicate-IsHash 7 (omega arith); len_fits = omega arith }, tt);
}

pub small_index-IsIndex : IsIndex small_index
small_index-IsIndex = record {
  version_fits = omega arith;
  count_fits = omega arith;
  files_ok = (file_a-IsFile, tt);
}

encode-small_index : All IsByte (encode small_index)
unfolding encode encode_body encode_files encode_chunks le_bytes
encode-small_index = are_bytes-IsByte (encode small_index) refl

decode-encode_example : decode no_digest (encode small_index) ≡ ok small_index
decode-encode_example =
    decode-encode no_digest small_index small_index-IsIndex (unfold no_digest in refl)

decode_sound_example : IsIndex small_index × Accepted no_digest (encode small_index) small_index
decode_sound_example =
    decode_sound no_digest (encode small_index) small_index encode-small_index
      (decode-encode no_digest small_index small_index-IsIndex (unfold no_digest in refl))

pub decode-small_index : decode no_digest (encode small_index) ≡ ok small_index
decode-small_index =
    decode-encode no_digest small_index small_index-IsIndex (unfold no_digest in refl)
