-- ===== src/Storage/Append.antt =====
-- Appending a chunk in origin/src/storage.rs, and reading chunks before and after.
use native.Mathlib.Nat.{mod-eq_of_lt, mod-le}
use blaze_net.Common.{
  nat_eq, bytes_eq, Result, ok, err, Table, length, take, ℕ, ◌+◌, ◌%◌, ◌^◌, ◌≤◌, ◌<◌, ◌≡◌, sym, ap,
  ◌∙◌, ◌⊎◌, inl, inr, Option, none, some, List, arith,
}
use blaze_net.Storage.Files.{IoError, PosixFile, slice}
use blaze_net.Storage.Defs.{
  pack, unpack, GameStore, read_value, store_new, append_value, append_chunk,
}
use blaze_net.Storage.Keys.{unpack-pack}
use blaze_net.Storage.Loops.{slice-take, read_exact_at-ok}
use blaze_net.Storage.Writes.{Outcome, write_exact_at-Outcome}
use blaze_net.Manifest.Defs.{Hash}

module _ (db : Table (List ℕ) ℕ) (io : PosixFile) where
  abbrev pub position : ℕ → GameStore db.T → List ℕ
  position value store = slice store.pack_file (unpack value).0 (unpack value).1

  -- Every indexed position lies inside the size, and the size inside the file.
  pub record IsStore (store : GameStore db.T) : Type 0 where
    pub within :
        (k : List ℕ) (value : ℕ)
        → db.get store.index k ≡ some value
        → (unpack value).0 + (unpack value).1 ≤ store.size
    pub fits : store.size ≤ length store.pack_file

  -- There is room for the data: its length is a u32, and the end of the file a u64.
  abbrev pub HasRoom : List ℕ → GameStore db.T → Type 0
  HasRoom bytes store = (length bytes < 2 ^ 32) × (store.size + length bytes < 2 ^ 64)

  -- What the index gives back for the data behind a file of some size.
  pub new_position :
      (size : ℕ) (bytes : List ℕ)
      → length bytes < 2 ^ 32
      → unpack (pack size (length bytes % 2 ^ 32)) ≡ (size % 2 ^ 32, length bytes)
  new_position size bytes h = rw (mod-eq_of_lt h) (unpack-pack size (length bytes) h)

  -- An entry after an insertion is the new one, or one of before.
  pub inserted :
      (t : db.T) (k j : List ℕ) (v value : ℕ)
      → db.get (db.insert t k v) j ≡ some value
      → (v ≡ value) ⊎ (db.get t j ≡ some value)
  inserted t k j v value found = ground (arith, db.get-insert t k v j)

  pub store_new-IsStore :
      (k bytes : List ℕ) (store : GameStore db.T) (out : Result IoError (Unit {0}) × List ℕ)
      → IsStore store
      → HasRoom bytes store
      → Outcome io store.pack_file store.size bytes out
      → IsStore (store_new db io k bytes store out).1
  unfolding store_new
  store_new-IsStore k bytes store (err e, file) i room (fuel, same, far) = record {
    within = i.within;
    fits = far;
  }
  store_new-IsStore k bytes store (ok u, file) i (short, room) w = record {
    within = λ j value found.
        elim (inserted store.index k j (pack store.size (length bytes % 2 ^ 32)) value found) [
          | inl new ↦
              rw (← new, new_position store.size bytes short)
                (omega (arith, mod-le store.size (2 ^ 32)))
          | inr old ↦ omega (arith, i.within j value old)
        ];
    fits = omega (arith, w.reached);
  }

  pub append_value-IsStore :
      (k bytes : List ℕ) (store : GameStore db.T) (o : Option ℕ)
      → IsStore store
      → HasRoom bytes store
      → IsStore (append_value db io k bytes store o).1
  unfolding append_value
  append_value-IsStore k bytes store (some value) i room = i
  append_value-IsStore k bytes store none i room =
      store_new-IsStore k bytes store _ i room
        (write_exact_at-Outcome io store.pack_file bytes store.size i.fits)

  -- Appending a chunk, with or without success, keeps every indexed position inside the size and
  -- the size inside the file.
  pub append_chunk-IsStore :
      (hash : Hash) (bytes : List ℕ) (store : GameStore db.T)
      → IsStore store
      → HasRoom bytes store
      → IsStore (append_chunk db io hash bytes store).1
  unfolding append_chunk
  append_chunk-IsStore hash bytes store i room = append_value-IsStore _ bytes store _ i room

  -- In a store that is in order, an indexed chunk is read whole.
  pub read_value-ok :
      (store : GameStore db.T) (k : List ℕ) (value : ℕ)
      → IsStore store
      → db.get store.index k ≡ some value
      → read_value db io store (some value) ≡ ok (some (position value store))
  unfolding read_value
  read_value-ok store k value i found =
      let (offset, len) = unpack value in
      rw (
        read_exact_at-ok io store.pack_file len offset
          (omega (arith, i.within k value found, i.fits)))

  -- A position below the size shows the same bytes when all in front of the size is kept.
  pub position-kept :
      (store : GameStore db.T) (k : List ℕ) (value : ℕ) (file : List ℕ)
      → IsStore store
      → db.get store.index k ≡ some value
      → take store.size file ≡ take store.size store.pack_file
      → slice file (unpack value).0 (unpack value).1 ≡ position value store
  position-kept store k value file i found same =
      let (offset, len) = unpack value in
      let inside = i.within k value found in
      sym (slice-take file offset len store.size inside)
      ∙ ap (λ t. slice t offset len) same
      ∙ slice-take store.pack_file offset len store.size inside

  pub store_new-kept :
      (k bytes : List ℕ) (store : GameStore db.T) (out : Result IoError (Unit {0}) × List ℕ)
      → Outcome io store.pack_file store.size bytes out
      → take store.size (store_new db io k bytes store out).1.pack_file
        ≡ take store.size store.pack_file
  unfolding store_new
  store_new-kept k bytes store (err e, file) (fuel, same, far) = same
  store_new-kept k bytes store (ok u, file) w = w.kept
