-- ===== src/Cafe/Served.antt =====
-- What the chunk source of agent/src/cafe_store.rs answers.
use blaze_net.Common.{
  Bool-cases, ◌==◌, nat_beq_iff, bytes_eq, nat_eq, Result, ok, All, contains, length, lookup, ℕ,
  ◌≡◌, ◌≢◌, ◌⊎◌, refl, sym, ◌∙◌, inl, inr, Bool, true, false, Option, none, some, List,
}
use blaze_net.Manifest.Defs.{Hash, FileEntry, GameIndex, Blake3, decode}
use blaze_net.Storage.Files.{slice}
use blaze_net.Merge.Defs.{PathName}
use blaze_net.Cafe.Defs.{
  Node, absent, directory, denied, broken, content, no_bytes, CafeError, ChunkMap, build_map,
  CafeStore, set_current, located, read_file_chunk, read_located, cafe_read, is_present,
  has_located, cafe_contains,
}
use blaze_net.Cafe.Placed.{
  hashes_of, Installed, Placed, build_map-Placed, lookup-Placed, build_map-Misses,
}

true_apart : true ≢ false
true_apart h = cc

-- The file that the map gives for a hash.
abbrev pub file_at : CafeStore → Option (PathName × ℕ × ℕ) → Node
file_at s none = absent
file_at s (some (rel, offset, len)) = s.files rel

-- How the answers of both calls go together, given the file of the hash.
abbrev Agree : Node → Bool → Result CafeError (Option (List ℕ)) → Type 0
Agree node has r =
    (has ≡ false → (r ≡ ok none) ⊎ (node ≡ directory)) × (has ≡ true → r ≡ ok none → node ≡ denied)

content_read :
    (bytes : List ℕ) (offset len : ℕ) → read_file_chunk (content bytes) offset len ≢ ok none
unfolding read_file_chunk
content_read bytes offset len = elim (Bool-cases (length (slice bytes offset len) == len)) [
  | inl full ↦ rw (read_file_chunk, full) (λ e. cc)
  | inr short ↦ rw (read_file_chunk, short) (λ e. cc)
]

no_bytes_read : (len : ℕ) → no_bytes len ≢ ok none
unfolding no_bytes
no_bytes_read len = elim (Bool-cases (len == 0)) [
  | inl empty ↦ rw (no_bytes, empty) (λ e. cc)
  | inr other ↦ rw (no_bytes, other) (λ e. cc)
]

file-Agree :
    (node : Node) (offset len : ℕ) → Agree node (is_present node) (read_file_chunk node offset len)
unfolding is_present read_file_chunk
file-Agree absent offset len = ((λ h. inl refl), λ h. cc)
file-Agree directory offset len = ((λ h. inr refl), λ h. cc)
file-Agree denied offset len = ((λ h. cc), λ h e. refl)
file-Agree broken offset len = ((λ h. cc), λ h e. absurd (no_bytes_read len e))
file-Agree (content bytes) offset len = ((λ h. cc), λ h e. absurd (content_read bytes offset len e))

located-Agree :
    (s : CafeStore) (place : Option (PathName × ℕ × ℕ))
    → Agree (file_at s place) (has_located s place) (read_located s place)
unfolding has_located read_located
located-Agree s none = ((λ h. inl refl), λ h. cc)
located-Agree s (some (rel, offset, len)) = file-Agree (s.files rel) offset len

answer-Agree :
    (s : CafeStore) (h : Hash) (t : Node)
    → s.temp h ≡ t
    → Agree (file_at s (located s h)) (cafe_contains s h) (cafe_read s h)
unfolding cafe_contains cafe_read is_present
answer-Agree s h absent e = rw (cafe_contains, cafe_read, e) (located-Agree s (located s h))
answer-Agree s h directory e = rw (cafe_contains, cafe_read, e) (located-Agree s (located s h))
answer-Agree s h denied e = rw (cafe_contains, cafe_read, e) ((λ h. cc), λ h e'. cc)
answer-Agree s h broken e = rw (cafe_contains, cafe_read, e) ((λ h. cc), λ h e'. cc)
answer-Agree s h (content bytes) e = rw (cafe_contains, cafe_read, e) ((λ h. cc), λ h e'. cc)

-- Both calls, where no temporary file is in the way and the file of the version cannot be opened.
denied_case :
    (s : CafeStore) (h : Hash) (t : Node) (place : Option (PathName × ℕ × ℕ))
    → s.temp h ≡ t
    → is_present t ≡ false
    → located s h ≡ place
    → file_at s place ≡ denied
    → (cafe_contains s h ≡ true) × (cafe_read s h ≡ ok none)
unfolding cafe_contains cafe_read has_located read_located read_file_chunk is_present
denied_case s h t none e skips found there = cc
denied_case s h absent (some (rel, offset, len)) e skips found there =
    (rw (cafe_contains, e, found, there) refl, rw (cafe_read, e, found, there) refl)
denied_case s h directory (some (rel, offset, len)) e skips found there =
    (rw (cafe_contains, e, found, there) refl, rw (cafe_read, e, found, there) refl)
denied_case s h denied (some place) e skips found there = cc
denied_case s h broken (some place) e skips found there = cc
denied_case s h (content bytes) (some place) e skips found there = cc

-- Where `contains` answers false, `read_chunk` finds no chunk, unless a directory stands under the
-- name of the file. Where it answers true, `read_chunk` finds no chunk only if the file of the version
-- is there and cannot be opened; and it does then find none, unless there is a temporary file.
pub cafe_read-cafe_contains :
    (s : CafeStore) (h : Hash)
    → (cafe_contains s h ≡ false
        → (cafe_read s h ≡ ok none) ⊎ (file_at s (located s h) ≡ directory))
      × (cafe_contains s h ≡ true → cafe_read s h ≡ ok none → file_at s (located s h) ≡ denied)
      × (file_at s (located s h) ≡ denied
          → is_present (s.temp h) ≡ false
          → (cafe_contains s h ≡ true) × (cafe_read s h ≡ ok none))
cafe_read-cafe_contains s h =
    let agree = answer-Agree s h (s.temp h) refl in
    (
      agree.0,
      agree.1,
      λ there skips. denied_case s h (s.temp h) (located s h) refl skips refl there,
    )

module _ (blake3 : Blake3) where
  -- The store has the chunk, and reads bytes with its digest.
  abbrev pub Offers : CafeStore → Hash → Type 0
  Offers s h =
      (cafe_contains s h ≡ true)
      × ((bytes : List ℕ) × (cafe_read s h ≡ ok (some bytes)) × (blake3.digest bytes ≡ h))

  -- Both calls go on to the files of the version.
  abbrev NotTemp : CafeStore → Hash → Type 0
  NotTemp s h =
      (cafe_contains s h ≡ has_located s (located s h))
      × (cafe_read s h ≡ read_located s (located s h))

  -- A temporary file of the hash can be read and has bytes with this digest, or there is none.
  abbrev pub GoodTemp : Node → Hash → Type 0
  GoodTemp (content bytes) h = blake3.digest bytes ≡ h
  GoodTemp denied h = ⊥
  GoodTemp broken h = ⊥
  GoodTemp absent h = Unit
  GoodTemp directory h = Unit

  place-Offers :
      (s : CafeStore) (h : Hash) (place : PathName × ℕ × ℕ)
      → NotTemp s h
      → located s h ≡ some place
      → Placed blake3 s.files (h, place)
      → Offers s h
  unfolding has_located read_located read_file_chunk is_present
  place-Offers s h (rel, offset, len) e found (bytes, there, long, same) =
      let full : (length (slice bytes offset len) == len) ≡ true =
        (nat_beq_iff (length (slice bytes offset len)) len).1 long in
      (
        e.0 ∙ rw (found, there) refl,
        (slice bytes offset len, e.1 ∙ rw (found, there, full) refl, same),
      )

  found-Offers :
      (s : CafeStore) (h : Hash) (m : ChunkMap) (place : Option (PathName × ℕ × ℕ))
      → NotTemp s h
      → s.current ≡ some m
      → All (Placed blake3 s.files) m
      → lookup h m ≢ none
      → lookup h m ≡ place
      → Offers s h
  unfolding located
  found-Offers s h m none e now placed known found = absurd (known found)
  found-Offers s h m (some place) e now placed known found =
      place-Offers s h place e (rw (located, now) found)
        (lookup-Placed blake3 s.files h m place placed found)

  version-Offers :
      (s : CafeStore) (fs : List FileEntry) (h : Hash)
      → s.current ≡ some (build_map fs)
      → All (Installed blake3 s.files) fs
      → contains h (hashes_of fs) ≡ true
      → NotTemp s h
      → Offers s h
  version-Offers s fs h now installed listed e =
      found-Offers s h (build_map fs) (lookup h (build_map fs)) e now
        (build_map-Placed blake3 s.files fs installed)
        (λ gone. absurd (true_apart (sym listed ∙ build_map-Misses fs h gone))) refl

  temp-Offers :
      (s : CafeStore) (h : Hash) (t : Node)
      → s.temp h ≡ t
      → GoodTemp t h
      → (NotTemp s h → Offers s h)
      → Offers s h
  unfolding cafe_contains cafe_read is_present
  temp-Offers s h absent e good later = later (rw (cafe_contains, e) refl, rw (cafe_read, e) refl)
  temp-Offers s h directory e good later =
      later (rw (cafe_contains, e) refl, rw (cafe_read, e) refl)
  temp-Offers s h denied e good later = absurd good
  temp-Offers s h broken e good later = absurd good
  temp-Offers s h (content bytes) e good later =
      (rw (cafe_contains, e) refl, (bytes, rw (cafe_read, e) refl, good))

  -- If a manifest decodes, and each file of its version is there and begins with the chunks of the
  -- version in their order, then the manifest can be made the current one, and the store then has every
  -- chunk of the version and reads it as bytes whose digest is the hash, if a temporary file of this hash
  -- is not there or can be read and has that digest.
  pub cafe_read-set_current :
      (s : CafeStore) (manifest : List ℕ) (index : GameIndex) (h : Hash)
      → decode blake3 manifest ≡ ok index
      → All (Installed blake3 s.files) index.files
      → contains h (hashes_of index.files) ≡ true
      → GoodTemp (s.temp h) h
      → (s' : CafeStore) × (set_current blake3 s manifest ≡ ok s') × Offers s' h
  unfolding set_current
  cafe_read-set_current s manifest index h decoded installed listed good =
      let s' : CafeStore = record s { current = some (build_map index.files) } in
      (
        s',
        rw (set_current, decoded) refl,
        temp-Offers s' h (s.temp h) refl good
            (version-Offers s' index.files h refl installed listed),
      )
