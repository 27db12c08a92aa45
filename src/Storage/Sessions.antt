-- ===== src/Storage/Sessions.antt =====
-- Several sessions on one chunk store of origin/src/storage.rs.
use blaze_net.Common.{bytes_eq, nat_eq, ok, Table, length, ℕ, ◌+◌, ◌^◌, ◌<◌, ◌≡◌, ◌∙◌, List}
use blaze_net.Manifest.Defs.{Hash}
use blaze_net.Storage.Files.{PosixFile}
use blaze_net.Storage.Defs.{GameStore}
use blaze_net.Storage.Abstract.{
  Contents, Holds, append_each, replay, total, AllHashes, append_each-refines,
}
use blaze_net.Storage.Open.{open_store, left_by, reopened, open_store-IsStore}

module _ (db : Table (List ℕ) ℕ) (io : PosixFile) where
  reopened-Holds :
      (store : GameStore db.T) (held : Contents)
      → Holds db io store held
      → Holds db io (reopened db io store) held
  reopened-Holds store held holds =
      let opened = open_store-IsStore db io store holds.in_order in
      record { in_order = opened.1; reads = λ h p. opened.2 h ∙ holds.reads h p }

  -- Chunks are appended to a store that reads as a map says, the store is opened again on what that
  -- left, the torn bytes of failed appends included, and more chunks are appended, each append tried
  -- whatever became of those before (hashes of the right length, all of it below 4 GiB): opening
  -- succeeds, and the store then reads under every hash as the map into which each successful append
  -- of the first session put its chunk, and at the end as that map with those of the second session.
  pub append_each-open_store :
      (store : GameStore db.T) (held : Contents) (chunks more : List (Hash × List ℕ))
      → Holds db io store held
      → store.size + total db io chunks < 2 ^ 32
      → AllHashes db io chunks
      → length (append_each db io chunks store).1.pack_file + total db io more < 2 ^ 32
      → AllHashes db io more
      → let left = (append_each db io chunks store).1 in
        let first = replay db io chunks (append_each db io chunks store).0 held in
        (again : GameStore db.T) × (open_store db (left_by db io left) left.game_id ≡ ok again)
        × Holds db io again first
        × Holds db io
            (append_each db io more again).1
            (replay db io more (append_each db io more again).0 first)
  append_each-open_store store held chunks more holds room hashes room' hashes' =
      let left = (append_each db io chunks store).1 in
      let first = replay db io chunks (append_each db io chunks store).0 held in
      let before = append_each-refines db io chunks store held holds room hashes in
      let after = reopened-Holds left first before in
      (
        reopened db io left,
        (open_store-IsStore db io left before.in_order).0,
        after,
        append_each-refines db io more (reopened db io left) first after room' hashes',
      )
