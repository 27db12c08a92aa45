-- ===== src/Cafe/Runs.antt =====
-- Runs of the chunk source of a cafe over one game file.
use blaze_net.Common.{
  ◌==◌, bytes_eq, nat_eq, arith, All, replicate, ℕ, ◌≡◌, ◌⊎◌, refl, true, false, none, some, List,
  [], ◌∷◌, ok, if◌then◌else◌,
}
use blaze_net.Manifest.Defs.{GameIndex, encode, decode}
use blaze_net.Manifest.RoundTrip.{IsIndex, decode-encode}
use blaze_net.Manifest.Runs.{small_index, small_index-IsIndex}
use blaze_net.Merge.Defs.{PathName}
use blaze_net.Transfer.Runs.{seven, seven_digest}
use blaze_net.Cafe.Defs.{
  Node, absent, directory, denied, content, map_chunks, build_map, located, is_present, GameEntry,
  game, games, clean_all, answer, clean_game, cleanup_game, clean_next, verdict_of, judge,
  is_old_chunk, CafeStore, set_current, cafe_read, cafe_contains, cleanup_expired,
}
use blaze_net.Cafe.Placed.{Installed}
use blaze_net.Cafe.Served.{file_at, Offers, cafe_read-cafe_contains, cafe_read-set_current}
use blaze_net.Cafe.Cleaned.{Swept, Clean, cleanup_expired_exact}

abbrev index : GameIndex
index = record small_index { manifest_hash = seven }

index-IsIndex : IsIndex index
index-IsIndex = record {
  version_fits = small_index-IsIndex.version_fits;
  count_fits = small_index-IsIndex.count_fits;
  files_ok = small_index-IsIndex.files_ok;
}

abbrev game_files : PathName → Node
game_files p = if p == 0x61 ∷ [] then content (replicate 6 1) else absent

abbrev store : CafeStore
store = record { files = game_files; temp = λ h. absent; current = none }

decode-index : decode seven_digest (encode index) ≡ ok index
decode-index = decode-encode seven_digest index index-IsIndex (unfold seven_digest in refl)

installed : All (Installed seven_digest game_files) index.files
unfolding seven_digest
installed = ((replicate 6 1, refl, (refl, omega arith, tt)), tt)

cafe_read-set_current_example :
    (s' : CafeStore) × (set_current seven_digest store (encode index) ≡ ok s')
    × Offers seven_digest s' seven
cafe_read-set_current_example =
    cafe_read-set_current seven_digest store (encode index) index seven decode-index installed refl
      tt

-- A store with the version, where the game file cannot be opened.
abbrev with_version : (PathName → Node) → CafeStore
with_version files = record {
  files = files;
  temp = λ h. absent;
  current = some (build_map index.files);
}

abbrev locked : CafeStore
locked = with_version (λ p. denied)

cafe_read-cafe_contains_example :
    (cafe_contains locked seven ≡ false
      → (cafe_read locked seven ≡ ok none) ⊎ (file_at locked (located locked seven) ≡ directory))
    × (cafe_contains locked seven ≡ true
        → cafe_read locked seven ≡ ok none
        → file_at locked (located locked seven) ≡ denied)
    × (file_at locked (located locked seven) ≡ denied
        → is_present (locked.temp seven) ≡ false
        → (cafe_contains locked seven ≡ true) × (cafe_read locked seven ≡ ok none))
cafe_read-cafe_contains_example = cafe_read-cafe_contains locked seven

-- The file of that hash is the one that cannot be opened.
locked_file : file_at locked (located locked seven) ≡ denied
unfolding located build_map map_chunks
locked_file = refl

abbrev old_and_new : List GameEntry
old_and_new =
    game (
      some (record { is_blk = true; modified = some 1; removable = true })
      ∷ some (record { is_blk = true; modified = some 8; removable = true })
      ∷ [])
    ∷ []

cleaned_once : (cleanup_expired 5 10 (games old_and_new)).0 ≡ ok 1
unfolding cleanup_expired clean_all answer clean_game cleanup_game clean_next verdict_of judge
    is_old_chunk
cleaned_once = refl

cleanup_expired_exact_example :
    (left : List GameEntry) × (n : ℕ) × ((cleanup_expired 5 10 (games old_and_new)).1 ≡ games left)
    × Swept 5 10 old_and_new left n
    × ((r : ℕ)
        → (cleanup_expired 5 10 (games old_and_new)).0 ≡ ok r
        → (r ≡ n) × All (Clean 5 10) left)
cleanup_expired_exact_example = cleanup_expired_exact 5 10 old_and_new
