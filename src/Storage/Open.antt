-- ===== src/Storage/Open.antt =====
-- Opening the chunk store of origin/src/storage.rs on what an earlier run left.
use blaze_net.Common.{
  bytes_eq, nat_eq, Result, ok, ◌>>=◌, Table, length, ℕ, ◌≡◌, refl, sym, ◌∙◌, Option, none, some,
  List, arith,
}
use blaze_net.Manifest.Defs.{Hash}
use blaze_net.Storage.Files.{IoError, PosixFile}
use blaze_net.Storage.Defs.{key, GameStore, read_value, read_chunk}
use blaze_net.Storage.Append.{IsStore, read_value-ok}

-- What is found in the directory of a game: the index and the pack file, empty if they are new.
pub record GameDir (T : Type 0) : Type 0 where
  pub index : T
  pub pack_file : List ℕ

abbrev pub Disk : Type 0 → Type 0
Disk T = ℕ → Result IoError (GameDir T)

module _ (db : Table (List ℕ) ℕ) where
  -- `GameStore::open`
  unfoldable pub open_store : Disk db.T → ℕ → Result IoError (GameStore db.T)
  open_store disk game_id = do
    dir ← disk game_id
    ok (record {
      game_id = game_id;
      index = dir.index;
      pack_file = dir.pack_file;
      size = length dir.pack_file;
    })

module _ (db : Table (List ℕ) ℕ) (io : PosixFile) where
  -- What a store leaves in its directory.
  abbrev pub left_by : GameStore db.T → Disk db.T
  left_by store game_id = ok (record { index = store.index; pack_file = store.pack_file })

  read_value-reopened :
      (store after : GameStore db.T) (k : List ℕ) (o : Option ℕ)
      → IsStore db io store
      → IsStore db io after
      → after.index ≡ store.index
      → after.pack_file ≡ store.pack_file
      → db.get store.index k ≡ o
      → read_value db io after o ≡ read_value db io store o
  read_value-reopened store after k none i j index file found = unfold read_value in refl
  read_value-reopened store after k (some value) i j index file found =
      read_value-ok db io after k value j (rw index found)
      ∙ rw file refl
      ∙ sym (read_value-ok db io store k value i found)

  abbrev pub reopened : GameStore db.T → GameStore db.T
  reopened store = record store { size = length store.pack_file }

  reopened-IsStore : (store : GameStore db.T) → IsStore db io store → IsStore db io (reopened store)
  reopened-IsStore store i = record {
    within = λ k value found. omega (arith, i.within k value found, i.fits);
    fits = omega arith;
  }

  -- A store in order, opened again on what it left, whatever a failed append wrote behind its size:
  -- opening succeeds, the size is then the length of the file, the store is in order, and every chunk
  -- reads as before.
  pub open_store-IsStore :
      (store : GameStore db.T)
      → IsStore db io store
      → (open_store db (left_by store) store.game_id ≡ ok (reopened store))
        × IsStore db io (reopened store)
        × ((h : Hash) → read_chunk db io h (reopened store) ≡ read_chunk db io h store)
  open_store-IsStore store i = (
    (unfold open_store in refl),
    reopened-IsStore store i,
    λ h.
        unfold read_chunk in
        read_value-reopened store (reopened store) (key store.game_id h)
          (db.get store.index (key store.game_id h)) i (reopened-IsStore store i) refl refl refl,
  )
