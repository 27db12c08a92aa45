-- ===== src/Storage/Batch.antt =====
-- `append_chunks_batch` of origin/src/storage.rs: one look at the index for all chunks, one run of
-- writes behind the file, and one update of the index.
use native.Mathlib.Nat.{mod-eq_of_lt}
use blaze_net.Common.{
  bytes_eq, nat_eq, Result, ok, err, Table, length, lookup, ℕ, zero, suc, ◌+◌, ◌%◌, ◌^◌, ◌≡◌, refl,
  Option, none, some, List, [], ◌∷◌, ◌++◌,
}
use blaze_net.Manifest.Defs.{Hash}
use blaze_net.Storage.Files.{IoError, PosixFile, write_exact_at}
use blaze_net.Storage.Defs.{
  u64_mod, key, pack, unpack, GameStore, store_new, append_value, append_chunk,
}
use blaze_net.Storage.Append.{HasRoom}

-- `out[idx] = p`
unfoldable pub set_at : ℕ → ℕ × ℕ → List (ℕ × ℕ) → List (ℕ × ℕ)
set_at idx p [] = []
set_at zero p (q ∷ out) = p ∷ out
set_at (suc idx) p (q ∷ out) = q ∷ set_at idx p out

-- `out[idx]`; the indices of a batch are all inside.
unfoldable pub get_at : ℕ → List (ℕ × ℕ) → ℕ × ℕ
get_at idx [] = (0, 0)
get_at zero (q ∷ out) = q
get_at (suc idx) (q ∷ out) = get_at idx out

-- The vectors and the map of the first loop; a new chunk stands with its data and its index.
pub record BatchScan : Type 0 where
  pub out : List (ℕ × ℕ)
  pub new_data : List (Hash × List ℕ × ℕ)
  pub seen_new : List (Hash × ℕ)
  pub dup_of_new : List (ℕ × ℕ)

abbrev pub scan_start : BatchScan
scan_start = record { out = []; new_data = []; seen_new = []; dup_of_new = [] }

unfoldable pub copy_dups : List (ℕ × ℕ) → List (ℕ × ℕ) → List (ℕ × ℕ)
unfolding set_at get_at
copy_dups [] out = out
copy_dups ((idx, first) ∷ dups) out = copy_dups dups (set_at idx (get_at first out) out)

module _ (db : Table (List ℕ) ℕ) (io : PosixFile) where
  unfoldable pub scan_one : GameStore db.T → ℕ → Hash → List ℕ → BatchScan → BatchScan
  scan_one store idx hash bytes s = elim (lookup hash s.seen_new) [
    | some first ↦ record s {
      dup_of_new = s.dup_of_new ++ (idx, first) ∷ [];
      out = s.out ++ (0, 0) ∷ [];
    }
    | none ↦ elim (db.get store.index (key store.game_id hash)) [
      | some value ↦ record s { out = s.out ++ unpack value ∷ [] }
      | none ↦ record s {
        seen_new = (hash, idx) ∷ s.seen_new;
        out = s.out ++ (0, 0) ∷ [];
        new_data = s.new_data ++ (hash, bytes, idx) ∷ [];
      }
    ]
  ]

  unfoldable pub scan_batch : GameStore db.T → ℕ → List (Hash × List ℕ) → BatchScan → BatchScan
  unfolding scan_one
  scan_batch store idx [] s = s
  scan_batch store idx ((hash, bytes) ∷ chunks) s =
      scan_batch store (suc idx) chunks (scan_one store idx hash bytes s)

  -- The writes from an offset on; the first that fails ends the batch.
  unfoldable pub write_next :
      (List ℕ → Result IoError (ℕ × List (ℕ × ℕ)) × List ℕ)
      → Result IoError (Unit {0}) × List ℕ
      → Result IoError (ℕ × List (ℕ × ℕ)) × List ℕ
  write_next go_on (err e, file) = (err e, file)
  write_next go_on (ok u, file) = go_on file

  unfoldable pub write_batch :
      List (Hash × List ℕ × ℕ)
      → ℕ
      → List (ℕ × ℕ)
      → List ℕ
      → Result IoError (ℕ × List (ℕ × ℕ)) × List ℕ
  unfolding write_next set_at
  write_batch [] offset out file = (ok (offset, out), file)
  write_batch ((hash, bytes, idx) ∷ new_data) offset out file =
      let len = length bytes % 2 ^ 32 in
      write_next (write_batch new_data ((offset + len) % u64_mod) (set_at idx (offset, len) out))
        (write_exact_at io file bytes offset)

  unfoldable pub index_batch : ℕ → List (Hash × List ℕ × ℕ) → List (ℕ × ℕ) → db.T → db.T
  unfolding get_at
  index_batch game_id [] out t = t
  index_batch game_id ((hash, bytes, idx) ∷ new_data) out t =
      let (offset, len) = get_at idx out in
      index_batch game_id new_data out (db.insert t (key game_id hash) (pack offset len))

  unfoldable pub finish_batch :
      BatchScan
      → GameStore db.T
      → Result IoError (ℕ × List (ℕ × ℕ)) × List ℕ
      → Result IoError (List (ℕ × ℕ)) × GameStore db.T
  unfolding copy_dups index_batch
  finish_batch s store (err e, file) = (err e, record store { pack_file = file })
  finish_batch s store (ok (offset, out), file) =
      let positions = copy_dups s.dup_of_new out in
      (
        ok positions,
        record store {
          pack_file = file;
          size = offset;
          index = index_batch store.game_id s.new_data positions store.index;
        },
      )

  unfoldable pub append_scanned :
      GameStore db.T → BatchScan → Result IoError (List (ℕ × ℕ)) × GameStore db.T
  unfolding write_batch finish_batch
  append_scanned store s =
      finish_batch s store (write_batch s.new_data store.size s.out store.pack_file)

  unfoldable pub append_chunks_batch :
      List (Hash × List ℕ) → GameStore db.T → Result IoError (List (ℕ × ℕ)) × GameStore db.T
  unfolding scan_batch append_scanned
  append_chunks_batch chunks store = append_scanned store (scan_batch store 0 chunks scan_start)

  -- The answer of a single append, as that of a batch.
  unfoldable pub as_batch :
      Result IoError (ℕ × ℕ) × GameStore db.T → Result IoError (List (ℕ × ℕ)) × GameStore db.T
  as_batch (err e, store) = (err e, store)
  as_batch (ok p, store) = (ok (p ∷ []), store)

  new_scan : Hash → List ℕ → BatchScan
  new_scan hash bytes = record {
    out = (0, 0) ∷ [];
    new_data = (hash, bytes, 0) ∷ [];
    seen_new = (hash, 0) ∷ [];
    dup_of_new = [];
  }

  written_one :
      (hash : Hash) (bytes : List ℕ) (store : GameStore db.T)
      (out : Result IoError (Unit {0}) × List ℕ)
      → HasRoom db io bytes store
      → finish_batch (new_scan hash bytes) store (
          write_next
            (write_batch []
              ((store.size + length bytes % 2 ^ 32) % u64_mod)
              (set_at 0 (store.size, length bytes % 2 ^ 32) ((0, 0) ∷ [])))
            out)
        ≡ as_batch (store_new db io (key store.game_id hash) bytes store out)
  unfolding finish_batch write_next write_batch new_scan as_batch store_new copy_dups index_batch
      set_at get_at
  written_one hash bytes store (err e, file) room = refl
  written_one hash bytes store (ok u, file) room = rw (mod-eq_of_lt room.0) refl

  scan_one_new :
      (hash : Hash) (bytes : List ℕ) (store : GameStore db.T)
      → db.get store.index (key store.game_id hash) ≡ none
      → scan_one store 0 hash bytes scan_start ≡ new_scan hash bytes
  unfolding scan_one new_scan
  scan_one_new hash bytes store known = rw (scan_one, known) refl

  old_scan : ℕ → BatchScan
  old_scan value = record scan_start { out = unpack value ∷ [] }

  scan_one_old :
      (hash : Hash) (bytes : List ℕ) (store : GameStore db.T) (value : ℕ)
      → db.get store.index (key store.game_id hash) ≡ some value
      → scan_one store 0 hash bytes scan_start ≡ old_scan value
  unfolding scan_one old_scan
  scan_one_old hash bytes store value known = rw (scan_one, known) refl

  one_found :
      (hash : Hash) (bytes : List ℕ) (store : GameStore db.T) (found : Option ℕ)
      → HasRoom db io bytes store
      → db.get store.index (key store.game_id hash) ≡ found
      → append_scanned store (scan_one store 0 hash bytes scan_start)
        ≡ as_batch (append_value db io (key store.game_id hash) bytes store found)
  unfolding append_value
  one_found hash bytes store (some value) room known =
      rw (scan_one_old hash bytes store value known) (
        unfold append_scanned old_scan as_batch finish_batch write_batch copy_dups index_batch in
        refl)
  one_found hash bytes store none room known = rw (scan_one_new hash bytes store known) (
      unfold append_scanned write_batch new_scan in
      written_one hash bytes store (write_exact_at io store.pack_file bytes store.size) room)

  -- A batch of one chunk does what a single append does, with the same result and the same store on
  -- every path, where there is room for the bytes.
  pub append_chunks_batch-one :
      (hash : Hash) (bytes : List ℕ) (store : GameStore db.T)
      → HasRoom db io bytes store
      → append_chunks_batch ((hash, bytes) ∷ []) store
        ≡ as_batch (append_chunk db io hash bytes store)
  unfolding append_chunk append_chunks_batch scan_batch
  append_chunks_batch-one hash bytes store room =
      one_found hash bytes store (db.get store.index (key store.game_id hash)) room refl
