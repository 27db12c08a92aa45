-- ===== src/Plan/Chunks.antt =====
-- Which chunks the update plan of blaze-common/src/update_plan.rs downloads, and how many bytes.
use blaze_net.Common.{
  Bool-cases, ◌==◌, nat_eq, bytes_beq_iff, bytes_eq, Nodup, contains-append, Nodup-snoc,
  contains-set_insert, All, contains, ℕ, ◌+◌, ◌%◌, ◌≡◌, refl, sym, ◌∙◌, inl, inr, Bool, not, ◌&&◌,
  ◌||◌, Option, List, [], ◌∷◌, ◌++◌, arith,
}
use blaze_net.Plan.Defs.{
  u64_mod, files_of, ChunkScan, scan_chunk, scan_chunks, scan_files, scan_start, compute,
}
use blaze_net.Manifest.Defs.{Hash, ChunkMeta, FileEntry, GameIndex, chunk_set, chunk_hashes}

abbrev wanted : List Hash → List Hash → Hash → Bool
wanted old temp h = not (contains h old) && not (contains h temp)

-- The chunks found so far are those seen, each once, and none that is at hand.
record IsScan (old temp : List Hash) (s : ChunkScan) : Type 0 where
  same : (h : Hash) → contains h s.seen ≡ contains h s.chunks
  once : Nodup s.chunks

scan_chunk-IsScan :
    (old temp : List Hash) (s : ChunkScan) (c : ChunkMeta)
    → IsScan old temp s
    → IsScan old temp (scan_chunk old temp s c)
unfolding scan_chunk
scan_chunk-IsScan old temp s c i = elim (Bool-cases (contains c.hash old || contains c.hash temp)) [
  | inl at_hand ↦ rw at_hand i
  | inr absent ↦ elim (Bool-cases (contains c.hash s.seen)) [
    | inl seen ↦ rw (absent, seen) i
    | inr fresh ↦
        rw (absent, fresh)
          (record {
            same = λ h. ground (
              arith,
              contains-set_insert h c.hash s.seen,
              contains-append h s.chunks (c.hash ∷ []),
              i.same h,
            );
            once = Nodup-snoc s.chunks c.hash i.once (sym (i.same c.hash) ∙ fresh);
          })
  ]
]

contains-scan_chunk :
    (old temp : List Hash) (s : ChunkScan) (c : ChunkMeta) (h : Hash)
    → IsScan old temp s
    → contains h (scan_chunk old temp s c).chunks
      ≡ (contains h s.chunks || ((c.hash == h) && wanted old temp h))
unfolding scan_chunk
contains-scan_chunk old temp s c h i = ground (
  arith,
  contains-append h s.chunks (c.hash ∷ []),
  i.same h,
  i.same c.hash,
  bytes_beq_iff c.hash h,
)

-- What a loop over more chunks does, given what one turn does.
scan_chunks_lem :
    (old temp : List Hash) (s : ChunkScan) (cs : List ChunkMeta)
    → IsScan old temp s
    → IsScan old temp (scan_chunks old temp s cs)
      × ((h : Hash)
          → contains h (scan_chunks old temp s cs).chunks
            ≡ (contains h s.chunks || (contains h (chunk_hashes cs) && wanted old temp h)))
unfolding scan_chunks chunk_hashes
scan_chunks_lem old temp s [] i = (i, λ h. ground arith)
scan_chunks_lem old temp s (c ∷ cs) i =
    let next =
      scan_chunks_lem old temp (scan_chunk old temp s c) cs (scan_chunk-IsScan old temp s c i) in
    (next.0, λ h. ground (arith, next.1 h, contains-scan_chunk old temp s c h i))

scan_files_lem :
    (old temp : List Hash) (s : ChunkScan) (fs : List FileEntry)
    → IsScan old temp s
    → IsScan old temp (scan_files old temp s fs)
      × ((h : Hash)
          → contains h (scan_files old temp s fs).chunks
            ≡ (contains h s.chunks || (contains h (chunk_set fs) && wanted old temp h)))
unfolding scan_files chunk_set
scan_files_lem old temp s [] i = (i, λ h. ground arith)
scan_files_lem old temp s (f ∷ fs) i =
    let first = scan_chunks_lem old temp s f.chunks i in
    let next = scan_files_lem old temp (scan_chunks old temp s f.chunks) fs first.0 in
    (
      next.0,
      λ h.
          ground
            (arith, next.1 h, first.1 h, contains-append h (chunk_hashes f.chunks) (chunk_set fs)),
    )

start-IsScan : (old temp : List Hash) → IsScan old temp scan_start
start-IsScan old temp = record { same = λ h. refl; once = tt }

-- A chunk is downloaded exactly when the new version has it and neither the old version nor the
-- temporary directory does.
pub chunks_to_download_exact :
    (new : GameIndex) (old : Option GameIndex) (temp : List Hash) (h : Hash)
    → contains h (compute new old temp).chunks_to_download ≡ (
        contains h (chunk_set new.files)
        && (not (contains h (chunk_set (files_of old))) && not (contains h temp)))
unfolding compute
chunks_to_download_exact new old temp h =
    (scan_files_lem (chunk_set (files_of old)) temp scan_start new.files (start-IsScan _ temp)).1 h

-- No chunk is downloaded twice.
pub chunks_to_download-Nodup :
    (new : GameIndex) (old : Option GameIndex) (temp : List Hash)
    → Nodup (compute new old temp).chunks_to_download
unfolding compute
chunks_to_download-Nodup new old temp =
    (scan_files_lem (chunk_set (files_of old)) temp scan_start new.files
      (start-IsScan _ temp)).0.once

-- The bytes of the downloads, where a hash fixes the length of its chunk.
module _ (len_of : Hash → ℕ) where
  unfoldable pub total_len : List Hash → ℕ
  total_len [] = 0
  total_len (h ∷ hs) = len_of h + total_len hs

  abbrev pub HasLengths : List ChunkMeta → Type 0
  HasLengths = All (λ c. c.len ≡ len_of c.hash)

  total_len-append : (xs ys : List Hash) → total_len (xs ++ ys) ≡ total_len xs + total_len ys
  unfolding total_len
  total_len-append [] ys = omega arith
  total_len-append (x ∷ xs) ys = omega (arith, total_len-append xs ys)

  abbrev Counted : ChunkScan → Type 0
  Counted s = s.bytes ≡ total_len s.chunks % u64_mod

  scan_chunk-Counted :
      (old temp : List Hash) (s : ChunkScan) (c : ChunkMeta)
      → c.len ≡ len_of c.hash
      → Counted s
      → Counted (scan_chunk old temp s c)
  unfolding scan_chunk
  scan_chunk-Counted old temp s c k h =
      let sum : total_len (s.chunks ++ c.hash ∷ []) ≡ total_len s.chunks + len_of c.hash =
        (unfold total_len in omega (arith, total_len-append s.chunks (c.hash ∷ []))) in
      ground (arith, sum)

  scan_chunks-Counted :
      (old temp : List Hash) (s : ChunkScan) (cs : List ChunkMeta)
      → HasLengths cs
      → Counted s
      → Counted (scan_chunks old temp s cs)
  unfolding scan_chunks
  scan_chunks-Counted old temp s [] k h = h
  scan_chunks-Counted old temp s (c ∷ cs) k h =
      scan_chunks-Counted old temp (scan_chunk old temp s c) cs k.1
        (scan_chunk-Counted old temp s c k.0 h)

  scan_files-Counted :
      (old temp : List Hash) (s : ChunkScan) (fs : List FileEntry)
      → All (λ f. HasLengths f.chunks) fs
      → Counted s
      → Counted (scan_files old temp s fs)
  unfolding scan_files
  scan_files-Counted old temp s [] k h = h
  scan_files-Counted old temp s (f ∷ fs) k h =
      scan_files-Counted old temp (scan_chunks old temp s f.chunks) fs k.1
        (scan_chunks-Counted old temp s f.chunks k.0 h)

  -- If every chunk of the new version has the length that its hash fixes, `download_bytes` is the
  -- sum of the lengths of the chunks to download, as a u64.
  pub download_bytes_exact :
      (new : GameIndex) (old : Option GameIndex) (temp : List Hash)
      → All (λ f. HasLengths f.chunks) new.files
      → (compute new old temp).download_bytes
        ≡ total_len (compute new old temp).chunks_to_download % u64_mod
  unfolding compute total_len
  download_bytes_exact new old temp k =
      scan_files-Counted (chunk_set (files_of old)) temp scan_start new.files k (omega arith)
