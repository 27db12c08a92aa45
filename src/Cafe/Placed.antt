-- ===== src/Cafe/Placed.antt =====
-- Where the map of agent/src/cafe_store.rs puts the chunks of a version.
use blaze_net.Common.{
  Bool-cases, bytes_beq_iff, bytes_beq, ◌≢◌, bytes_eq, All, All-append, contains, drop, drop-drop,
  length, length-take, lookup, take, ℕ, ◌+◌, ◌≤◌, ◌≡◌, refl, sym, inl, inr, false, none, some, List,
  [], ◌∷◌, ◌++◌, map,
}
use blaze_net.Manifest.Defs.{Hash, ChunkMeta, FileEntry, Blake3}
use blaze_net.Storage.Files.{slice}
use blaze_net.Merge.Defs.{PathName}
use blaze_net.Cafe.Defs.{Node, content, ChunkMap, map_chunks, build_map}

some_injective {ℓ} : {A : Type ℓ} {x y : A} → some x ≡ some y → x ≡ y
some_injective h = cc

some_apart {ℓ} : {A : Type ℓ} {x : A} → some x ≢ none
some_apart h = cc

-- The hashes of all chunks of the files.
abbrev pub hashes_of : List FileEntry → List Hash
hashes_of [] = []
hashes_of (f ∷ fs) = map (λ c. c.hash) f.chunks ++ hashes_of fs

module _ (blake3 : Blake3) where
  -- The bytes begin with the chunks in their order.
  abbrev pub Fits : List ℕ → List ChunkMeta → Type 0
  Fits bytes [] = Unit
  Fits bytes (c ∷ cs) =
      (blake3.digest (take c.len bytes) ≡ c.hash)
      × (c.len ≤ length bytes)
      × Fits (drop c.len bytes) cs

  abbrev pub Installed : (PathName → Node) → FileEntry → Type 0
  Installed files f = (bytes : List ℕ) × (files f.name ≡ content bytes) × Fits bytes f.chunks

  abbrev pub Placed : (PathName → Node) → Hash × (PathName × ℕ × ℕ) → Type 0
  Placed files (h, (rel, offset, len)) =
      (bytes : List ℕ) × (files rel ≡ content bytes)
      × (length (slice bytes offset len) ≡ len)
      × (blake3.digest (slice bytes offset len) ≡ h)

  map_chunks-Placed :
      (files : PathName → Node) (name : PathName) (bytes : List ℕ) (offset : ℕ)
      (cs : List ChunkMeta)
      → files name ≡ content bytes
      → Fits (drop offset bytes) cs
      → All (Placed files) (map_chunks name offset cs)
  unfolding map_chunks
  map_chunks-Placed files name bytes offset [] there fits = tt
  map_chunks-Placed files name bytes offset (c ∷ cs) there (same, long, fits) = (
    (bytes, there, length-take c.len (drop offset bytes) long, same),
    map_chunks-Placed files name bytes (offset + c.len) cs there
        (rw (drop-drop offset c.len bytes) at fits),
  )

  pub build_map-Placed :
      (files : PathName → Node) (fs : List FileEntry)
      → All (Installed files) fs
      → All (Placed files) (build_map fs)
  unfolding build_map
  build_map-Placed files [] installed = tt
  build_map-Placed files (f ∷ fs) ((bytes, there, fits), installed) =
      All-append (Placed files) (map_chunks f.name 0 f.chunks) (build_map fs)
        (map_chunks-Placed files f.name bytes 0 f.chunks there fits)
        (build_map-Placed files fs installed)

  pub lookup-Placed :
      (files : PathName → Node) (h : Hash) (m : ChunkMap) (place : PathName × ℕ × ℕ)
      → All (Placed files) m
      → lookup h m ≡ some place
      → Placed files (h, place)
  lookup-Placed files h [] place placed found = cc
  lookup-Placed files h ((j, v) ∷ m) place (here, later) found = elim (Bool-cases (bytes_beq j h)) [
    | inl same ↦ rw (sym (some_injective (rw same at found)), sym ((bytes_beq_iff j h).0 same)) here
    | inr other ↦ lookup-Placed files h m place later (rw other at found)
  ]

-- A hash is found in the map of the files exactly if a chunk has it.
abbrev Misses : ChunkMap → List Hash → Type 0
Misses m hs = (h : Hash) → lookup h m ≡ none → contains h hs ≡ false

map_chunks-Misses :
    (name : PathName) (offset : ℕ) (cs : List ChunkMeta) (m : ChunkMap) (hs : List Hash)
    → Misses m hs
    → Misses (map_chunks name offset cs ++ m) (map (λ c. c.hash) cs ++ hs)
unfolding map_chunks
map_chunks-Misses name offset [] m hs before h gone = before h gone
map_chunks-Misses name offset (c ∷ cs) m hs before h gone = elim (Bool-cases (bytes_beq c.hash h)) [
  | inl same ↦ absurd (some_apart (rw same at gone))
  | inr other ↦
      rw other (map_chunks-Misses name (offset + c.len) cs m hs before h (rw other at gone))
]

pub build_map-Misses : (fs : List FileEntry) → Misses (build_map fs) (hashes_of fs)
unfolding build_map
build_map-Misses [] h gone = refl
build_map-Misses (f ∷ fs) h gone =
    map_chunks-Misses f.name 0 f.chunks (build_map fs) (hashes_of fs) (build_map-Misses fs) h gone
