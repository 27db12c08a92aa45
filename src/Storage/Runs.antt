-- ===== src/Storage/Runs.antt =====
-- Runs of the chunk store of origin/src/storage.rs, with a system that transfers at most two bytes
-- in a call and an index that is a list.
use blaze_net.Storage.Abstract.{Holds, append_each, replay, append_each-refines}
use blaze_net.Storage.Open.{open_store, left_by}
use blaze_net.Storage.Sessions.{append_each-open_store}
use blaze_net.Storage.Batch.{append_chunks_batch, as_batch, append_chunks_batch-one}
use blaze_net.Common.{
  ltb, if◌then◌else◌, nat_eq, bytes_eq, ok, Table, assoc_table, length, take, replicate, ℕ, ◌+◌,
  ◌-◌, ◌%◌, ◌^◌, ◌≤◌, ◌<◌, ◌≡◌, refl, Option, none, some, List, [], ◌∷◌, arith,
}
use blaze_net.Manifest.Runs.{replicate-IsHash}
use blaze_net.Storage.Files.{overlay, PosixFile, after_write, write_loop, write_exact_at}
use blaze_net.Storage.Writes.{Outcome, write_exact_at-Outcome}
use blaze_net.Storage.Defs.{
  hex_digit, hex, hex_u64, key, pack, unpack, GameStore, contains_chunk, read_value, read_chunk,
  store_new, append_value, append_chunk,
}
use blaze_net.Storage.Keys.{unpack-pack}
use blaze_net.Storage.Append.{IsStore}
use blaze_net.Storage.Reads.{read_chunk-append_chunk}

-- At most two bytes, and no more than there are.
abbrev pub two_at_most : ℕ → ℕ
two_at_most n = if ltb n 2 then n else 2

pub slow_read_law :
    (file : List ℕ) (want at : ℕ)
    → let n = two_at_most (if ltb want (length file - at) then want else length file - at) in
      (n ≤ want) × (n ≤ length file - at) × (0 < want → at < length file → 0 < n)
slow_read_law file want at = (ground arith, ground arith, λ h k. ground arith)

pub slow_write_law :
    (file buf : List ℕ) (at : ℕ) (file' : List ℕ) (n : ℕ)
    → ◌≡◌ {A = Option (List ℕ × ℕ)}
        (some (overlay file at (take (two_at_most (length buf)) buf), two_at_most (length buf)))
        (some (file', n))
    → (n ≤ length buf) × (file' ≡ overlay file at (take n buf))
slow_write_law file buf at file' n e =
    let size : two_at_most (length buf) ≡ n = cc in (ground (arith, size), cc)

abbrev pub slow_io : PosixFile
slow_io = record {
  read_count =
      λ file want at. two_at_most (if ltb want (length file - at) then want else length file - at);
  write_at = λ file buf at.
      some (overlay file at (take (two_at_most (length buf)) buf), two_at_most (length buf));
  read_law = slow_read_law;
  write_law = slow_write_law;
}

abbrev pub list_index : Table (List ℕ) ℕ
list_index = assoc_table

abbrev pub empty_store : GameStore list_index.T
empty_store = record { game_id = 3; index = list_index.empty; pack_file = []; size = 0 }

pub empty_store-IsStore : IsStore list_index slow_io empty_store
unfolding assoc_table
empty_store-IsStore = record { within = λ k value found. cc; fits = omega arith }

abbrev pub chunk : List ℕ
chunk = 1 ∷ 2 ∷ 3 ∷ 4 ∷ 5 ∷ []

write_exact_at-Outcome_example :
    Outcome slow_io (9 ∷ []) 1 chunk (write_exact_at slow_io (9 ∷ []) chunk 1)
write_exact_at-Outcome_example = write_exact_at-Outcome slow_io (9 ∷ []) chunk 1 (omega arith)

unpack-pack_example : unpack (pack (2 ^ 32 + 8) 5) ≡ ((2 ^ 32 + 8) % 2 ^ 32, 5)
unpack-pack_example = unpack-pack (2 ^ 32 + 8) 5 (omega arith)

append_done : (append_chunk list_index slow_io (replicate 32 7) chunk empty_store).0 ≡ ok (0, 5)
unfolding assoc_table append_chunk append_value store_new write_exact_at write_loop after_write key
    hex hex_u64 hex_digit
append_done = refl

read_chunk-append_chunk_example :
    (◌≡◌ {A = ℕ × ℕ} (0, 5) (empty_store.size, length chunk))
    × (read_chunk list_index slow_io
          (replicate 32 7)
          (append_chunk list_index slow_io (replicate 32 7) chunk empty_store).1
        ≡ ok (some chunk))
    × (append_chunk list_index slow_io
          (replicate 32 7)
          chunk
          (append_chunk list_index slow_io (replicate 32 7) chunk empty_store).1
        ≡ (ok (0, 5), (append_chunk list_index slow_io (replicate 32 7) chunk empty_store).1))
read_chunk-append_chunk_example =
    read_chunk-append_chunk list_index slow_io (replicate 32 7) chunk empty_store (0, 5)
      empty_store-IsStore (omega arith, omega arith) (omega arith)
      (unfold contains_chunk assoc_table in refl) append_done

append_chunks_batch-one_example :
    append_chunks_batch list_index slow_io ((replicate 32 7, chunk) ∷ []) empty_store
    ≡ as_batch list_index slow_io
        (append_chunk list_index slow_io (replicate 32 7) chunk empty_store)
append_chunks_batch-one_example =
    append_chunks_batch-one list_index slow_io (replicate 32 7) chunk empty_store
      (omega arith, omega arith)

abbrev two_chunks : List (List ℕ × List ℕ)
two_chunks = (replicate 32 7, chunk) ∷ (replicate 32 8, 9 ∷ []) ∷ (replicate 32 7, []) ∷ []

empty_store-Holds : Holds list_index slow_io empty_store (λ h. none)
unfolding assoc_table read_chunk read_value
empty_store-Holds = record { in_order = empty_store-IsStore; reads = λ h p. refl }

append_each-refines_example :
    Holds list_index slow_io (append_each list_index slow_io two_chunks empty_store).1 (
      replay list_index slow_io two_chunks
        (append_each list_index slow_io two_chunks empty_store).0
        (λ h. none))
append_each-refines_example =
    let seven = replicate-IsHash 7 (omega arith) in
    append_each-refines list_index slow_io two_chunks empty_store (λ h. none) empty_store-Holds
      (omega arith) (seven, (replicate-IsHash 8 (omega arith), (seven, tt)))

abbrev session : GameStore list_index.T
session = (append_each list_index slow_io two_chunks empty_store).1

abbrev more_chunks : List (List ℕ × List ℕ)
more_chunks = (replicate 32 9, 6 ∷ 7 ∷ []) ∷ []

session_length : length session.pack_file ≡ 6
unfolding assoc_table append_chunk append_value store_new write_exact_at write_loop after_write key
    hex hex_u64 hex_digit
session_length = refl

append_each-open_store_example :
    (again : GameStore list_index.T) × (open_store list_index
        (left_by list_index slow_io session)
        session.game_id
      ≡ ok again)
    × Holds list_index slow_io again (
        replay list_index slow_io two_chunks
          (append_each list_index slow_io two_chunks empty_store).0
          (λ h. none))
    × Holds list_index slow_io (append_each list_index slow_io more_chunks again).1 (
        replay list_index slow_io more_chunks (append_each list_index slow_io more_chunks again).0 (
          replay list_index slow_io two_chunks
            (append_each list_index slow_io two_chunks empty_store).0
            (λ h. none)))
append_each-open_store_example =
    append_each-open_store list_index slow_io empty_store (λ h. none) two_chunks more_chunks
      empty_store-Holds (omega arith)
      (
        replicate-IsHash 7 (omega arith),
        (replicate-IsHash 8 (omega arith), (replicate-IsHash 7 (omega arith), tt)),
      )
      (omega (arith, session_length)) (replicate-IsHash 9 (omega arith), tt)
