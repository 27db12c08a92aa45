-- ===== src/Cafe/Defs.antt =====
-- The chunk source of agent/src/cafe_store.rs: its map, its reads and the removal of old chunks. The
-- directories are their contents; the lock of the map is left out.
use blaze_net.Common.{
  if◌then◌else◌, ◌==◌, ltb, bytes_eq, nat_eq, Result, ok, err, length, lookup, ℕ, ◌+◌, ◌-◌, Bool,
  true, false, not, Option, none, some, List, [], ◌∷◌, ◌++◌,
}
use blaze_net.Manifest.Defs.{Hash, ChunkMeta, FileEntry, Blake3, DecodeError, decode}
use blaze_net.Storage.Files.{slice}
use blaze_net.Merge.Defs.{PathName}

pub data CafeError : Type 0 where
  unexpected_eof read_failed remove_failed : CafeError
  bad_manifest : DecodeError → CafeError

-- What stands under a path: nothing that can be reached, a directory, a file that cannot be opened, a
-- file whose bytes cannot be read, or a file with its bytes.
pub data Node : Type 0 where
  absent directory denied broken : Node
  content : List ℕ → Node

abbrev pub ChunkMap : Type 0
ChunkMap = List (Hash × (PathName × ℕ × ℕ))

unfoldable pub map_chunks : PathName → ℕ → List ChunkMeta → ChunkMap
map_chunks name offset [] = []
map_chunks name offset (c ∷ cs) =
    (c.hash, (name, offset, c.len)) ∷ map_chunks name (offset + c.len) cs

-- An entry before another of the same hash is the one that counts.
unfoldable pub build_map : List FileEntry → ChunkMap
build_map [] = []
build_map (f ∷ fs) = map_chunks f.name 0 f.chunks ++ build_map fs

pub record CafeStore : Type 0 where
  pub files : PathName → Node
  pub temp : Hash → Node
  pub current : Option ChunkMap

unfoldable pub set_current : Blake3 → CafeStore → List ℕ → Result CafeError CafeStore
set_current blake3 s manifest = elim (decode blake3 manifest) [
  | err e ↦ err (bad_manifest e)
  | ok index ↦ ok (record s { current = some (build_map index.files) })
]

unfoldable pub located : CafeStore → Hash → Option (PathName × ℕ × ℕ)
located s h = elim s.current [ none ↦ none | some map ↦ lookup h map ]

-- `read_exact` into an empty buffer reads nothing, so it succeeds.
unfoldable pub no_bytes : ℕ → Result CafeError (Option (List ℕ))
no_bytes len = if len == 0 then ok (some []) else err read_failed

-- `File::open`, which also opens a directory, `seek` and `read_exact`: all the bytes, or an error.
unfoldable pub read_file_chunk : Node → ℕ → ℕ → Result CafeError (Option (List ℕ))
unfolding no_bytes
read_file_chunk absent offset len = ok none
read_file_chunk denied offset len = ok none
read_file_chunk directory offset len = no_bytes len
read_file_chunk broken offset len = no_bytes len
read_file_chunk (content bytes) offset len =
    let buf = slice bytes offset len in
    if length buf == len then ok (some buf) else err unexpected_eof

unfoldable pub read_located :
    CafeStore → Option (PathName × ℕ × ℕ) → Result CafeError (Option (List ℕ))
unfolding read_file_chunk
read_located s none = ok none
read_located s (some (rel, offset, len)) = read_file_chunk (s.files rel) offset len

unfoldable pub cafe_read : CafeStore → Hash → Result CafeError (Option (List ℕ))
unfolding located read_located
cafe_read s h = elim (s.temp h) [
  | content bytes ↦ ok (some bytes)
  | denied ↦ err read_failed
  | broken ↦ err read_failed
  | directory ↦ read_located s (located s h)
  | absent ↦ read_located s (located s h)
]

-- `is_file`, which does not open the file.
unfoldable pub is_present : Node → Bool
is_present absent = false
is_present directory = false
is_present denied = true
is_present broken = true
is_present (content bytes) = true

unfoldable pub has_located : CafeStore → Option (PathName × ℕ × ℕ) → Bool
unfolding is_present
has_located s none = false
has_located s (some (rel, offset, len)) = is_present (s.files rel)

unfoldable pub cafe_contains : CafeStore → Hash → Bool
unfolding is_present located has_located
cafe_contains s h = if is_present (s.temp h) then true else has_located s (located s h)

-- An entry of a temporary directory: whether its extension is "blk", when it was modified, `none` if
-- that cannot be told, and whether it can be removed.
pub record TempEntry : Type 0 where
  pub is_blk : Bool
  pub modified : Option ℕ
  pub removable : Bool

-- `now.duration_since(modified).unwrap_or_default() > ttl`
unfoldable pub is_old_chunk : ℕ → ℕ → ℕ → Bool
is_old_chunk ttl now modified = ltb ttl (now - modified)

-- What becomes of an entry.
pub data Verdict : Type 0 where
  leave remove fail : Verdict

unfoldable pub judge : ℕ → ℕ → TempEntry → Verdict
unfolding is_old_chunk
judge ttl now entry = if not entry.is_blk then leave else elim entry.modified [
  | none ↦ fail
  | some modified ↦
      if not (is_old_chunk ttl now modified)
      then leave
      else if entry.removable
      then remove
      else fail
]

-- What stays of a directory, the number of files removed, and whether an error ended the loop.
abbrev pub Cleaned : Type 0
Cleaned = List (Option TempEntry) × ℕ × Bool

-- What the loop does with one entry and the rest; `none` is an entry that cannot be read.
unfoldable pub clean_next : Option TempEntry → List (Option TempEntry) → Verdict → Cleaned → Cleaned
clean_next entry entries fail rest = (entry ∷ entries, 0, true)
clean_next entry entries leave (kept, removed, failed) = (entry ∷ kept, removed, failed)
clean_next entry entries remove (kept, removed, failed) = (kept, removed + 1, failed)

unfoldable pub verdict_of : ℕ → ℕ → Option TempEntry → Verdict
unfolding judge
verdict_of ttl now none = fail
verdict_of ttl now (some entry) = judge ttl now entry

unfoldable pub cleanup_game : ℕ → ℕ → List (Option TempEntry) → Cleaned
unfolding verdict_of clean_next
cleanup_game ttl now [] = ([], 0, false)
cleanup_game ttl now (entry ∷ entries) =
    clean_next entry entries (verdict_of ttl now entry) (cleanup_game ttl now entries)

-- An entry of the directory of all games: one that cannot be read, another file, a directory that
-- cannot be listed, or the directory of a game.
pub data GameEntry : Type 0 where
  no_entry not_dir no_listing : GameEntry
  game : List (Option TempEntry) → GameEntry

-- The directories afterwards, and the number of files removed, which is returned if nothing failed.
abbrev pub AllCleaned : Type 0
AllCleaned = List GameEntry × ℕ × Bool

unfoldable pub clean_game : List GameEntry → Cleaned → AllCleaned → AllCleaned
clean_game games (kept, removed, true) rest = (game kept ∷ games, removed, true)
clean_game games (kept, removed, false) (games', removed', failed) =
    (game kept ∷ games', removed + removed', failed)

unfoldable pub clean_all : ℕ → ℕ → List GameEntry → AllCleaned
unfolding cleanup_game clean_game
clean_all ttl now [] = ([], 0, false)
clean_all ttl now (no_entry ∷ games) = (no_entry ∷ games, 0, true)
clean_all ttl now (no_listing ∷ games) = (no_listing ∷ games, 0, true)
clean_all ttl now (not_dir ∷ games) =
    let rest = clean_all ttl now games in (not_dir ∷ rest.0, rest.1, rest.2)
clean_all ttl now (game entries ∷ games) =
    clean_game games (cleanup_game ttl now entries) (clean_all ttl now games)

-- The root is there or not, and can be listed or not; the state is what stands in it.
pub data TempRoot : Type 0 where
  no_root unlisted : TempRoot
  games : List GameEntry → TempRoot

unfoldable pub answer : AllCleaned → Result CafeError ℕ × TempRoot
answer (left, removed, true) = (err remove_failed, games left)
answer (left, removed, false) = (ok removed, games left)

unfoldable pub cleanup_expired : ℕ → ℕ → TempRoot → Result CafeError ℕ × TempRoot
unfolding clean_all answer
cleanup_expired ttl now no_root = (ok 0, no_root)
cleanup_expired ttl now unlisted = (err read_failed, unlisted)
cleanup_expired ttl now (games entries) = answer (clean_all ttl now entries)
