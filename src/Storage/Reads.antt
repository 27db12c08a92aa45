-- ===== src/Storage/Reads.antt =====
-- What `read_chunk` of origin/src/storage.rs returns after an append.
use native.Mathlib.Nat.{mod-eq_of_lt}
use blaze_net.Common.{
  nat_eq, bytes_beq_iff, bytes_eq, Result, ok, err, Table, length, take, ℕ, ◌%◌, ◌^◌, ◌<◌, ◌≡◌,
  refl, sym, ap, ◌∙◌, ◌≢◌, false, Option, none, some, List, arith,
}
use blaze_net.Storage.Files.{IoError, PosixFile, write_exact_at}
use blaze_net.Storage.Defs.{
  key, pack, unpack, GameStore, contains_chunk, read_value, read_chunk, store_new, append_value,
  append_chunk,
}
use blaze_net.Storage.Keys.{key-injective}
use blaze_net.Storage.Loops.{read_exact_at-ok}
use blaze_net.Storage.Writes.{Outcome, write_exact_at-Outcome}
use blaze_net.Storage.Append.{
  IsStore, HasRoom, new_position, store_new-IsStore, read_value-ok, position-kept, store_new-kept,
}
use blaze_net.Manifest.Defs.{Hash, IsHash}

module _ (db : Table (List ℕ) ℕ) (io : PosixFile) where
  store_new-index :
      (k j bytes : List ℕ) (store : GameStore db.T) (out : Result IoError (Unit {0}) × List ℕ)
      → k ≢ j
      → db.get (store_new db io k bytes store out).1.index j ≡ db.get store.index j
  unfolding store_new
  store_new-index k j bytes store (err e, file) ne = refl
  store_new-index k j bytes store (ok u, file) ne =
      let v = pack store.size (length bytes % 2 ^ 32) in
      db.get-insert store.index k v j ∙ ground (arith, bytes_beq_iff k j)

  read_value-same :
      (before after : GameStore db.T) (o : Option ℕ) (k : List ℕ)
      → IsStore db io before
      → IsStore db io after
      → db.get before.index k ≡ o
      → db.get after.index k ≡ o
      → take before.size after.pack_file ≡ take before.size before.pack_file
      → read_value db io after o ≡ read_value db io before o
  read_value-same before after none k i i' found found' same = unfold read_value in refl
  read_value-same before after (some value) k i i' found found' same =
      read_value-ok db io after k value i' found'
      ∙ ap (λ t. ok (some t)) (position-kept db io before k value after.pack_file i found same)
      ∙ sym (read_value-ok db io before k value i found)

  store_new-game_id :
      (k bytes : List ℕ) (store : GameStore db.T) (out : Result IoError (Unit {0}) × List ℕ)
      → (store_new db io k bytes store out).1.game_id ≡ store.game_id
  unfolding store_new
  store_new-game_id k bytes store (err e, file) = refl
  store_new-game_id k bytes store (ok u, file) = refl

  pub append_value-game_id :
      (k bytes : List ℕ) (store : GameStore db.T) (o : Option ℕ)
      → (append_value db io k bytes store o).1.game_id ≡ store.game_id
  unfolding append_value
  append_value-game_id k bytes store none = store_new-game_id k bytes store _
  append_value-game_id k bytes store (some v) = refl

  append_value-other :
      (k j bytes : List ℕ) (store : GameStore db.T) (o : Option ℕ)
      → IsStore db io store
      → HasRoom db io bytes store
      → k ≢ j
      → read_value db io
          (append_value db io k bytes store o).1
          (db.get (append_value db io k bytes store o).1.index j)
        ≡ read_value db io store (db.get store.index j)
  append_value-other k j bytes store (some v) i room ne = unfold append_value in refl
  append_value-other k j bytes store none i room ne =
      let out = write_exact_at io store.pack_file bytes store.size in
      let written = write_exact_at-Outcome io store.pack_file bytes store.size i.fits in
      let after = (store_new db io k bytes store out).1 in
      let index = store_new-index k j bytes store out ne in
      let i' = store_new-IsStore db io k bytes store out i room written in
      unfold append_value in
      (ap (read_value db io after) index
        ∙ read_value-same store after (db.get store.index j) j i i' refl index
            (store_new-kept db io k bytes store out written))

  -- Appending a chunk, with or without success, changes nothing of what is read under another hash.
  pub read_chunk-append_chunk_ne :
      (g h : Hash) (bytes : List ℕ) (store : GameStore db.T)
      → IsStore db io store
      → HasRoom db io bytes store
      → IsHash g
      → IsHash h
      → g ≢ h
      → read_chunk db io h (append_chunk db io g bytes store).1 ≡ read_chunk db io h store
  read_chunk-append_chunk_ne g h bytes store i room p q ne =
      let k = key store.game_id g in
      let differ = λ (e : key store.game_id g ≡ key store.game_id h).
        ne (key-injective store.game_id g h p q e) in
      unfold read_chunk append_chunk in
      (rw (append_value-game_id k bytes store (db.get store.index k)) (
        append_value-other k (key store.game_id h) bytes store (db.get store.index k) i room
          differ))

  store_new-read :
      (k bytes : List ℕ) (store : GameStore db.T) (at : ℕ × ℕ)
      (out : Result IoError (Unit {0}) × List ℕ)
      → HasRoom db io bytes store
      → store.size < 2 ^ 32
      → Outcome io store.pack_file store.size bytes out
      → (store_new db io k bytes store out).0 ≡ ok at
      → (at ≡ (store.size, length bytes))
        × (db.get (store_new db io k bytes store out).1.index k
            ≡ some (pack store.size (length bytes % 2 ^ 32)))
        × (read_value db io
              (store_new db io k bytes store out).1
              (some (pack store.size (length bytes % 2 ^ 32)))
            ≡ ok (some bytes))
  unfolding store_new
  store_new-read k bytes store at (err e, file) room near w done = cc
  store_new-read k bytes store at (ok u, file) (short, room) near w done =
      let len = length bytes % 2 ^ 32 in
      let whole : len ≡ length bytes = mod-eq_of_lt short in
      let v = pack store.size len in
      let near_size : store.size % 2 ^ 32 ≡ store.size = mod-eq_of_lt near in
      let place = new_position db io store.size bytes short in
      (
        ground (arith, whole),
        ground (arith, db.get-insert store.index k v k, bytes_beq_iff k k),
        (unfold read_value in
            rw (
              place,
              near_size,
              read_exact_at-ok io file (length bytes) store.size w.reached,
              w.stored,
            )),
      )

  append_value-read :
      (k bytes : List ℕ) (store : GameStore db.T) (at : ℕ × ℕ)
      → IsStore db io store
      → HasRoom db io bytes store
      → store.size < 2 ^ 32
      → (append_value db io k bytes store none).0 ≡ ok at
      → (at ≡ (store.size, length bytes))
        × (db.get (append_value db io k bytes store none).1.index k
            ≡ some (pack store.size (length bytes % 2 ^ 32)))
        × (read_value db io
              (append_value db io k bytes store none).1
              (some (pack store.size (length bytes % 2 ^ 32)))
            ≡ ok (some bytes))
  unfolding append_value
  append_value-read k bytes store at i room near done =
      store_new-read k bytes store at (write_exact_at io store.pack_file bytes store.size) room near
        (write_exact_at-Outcome io store.pack_file bytes store.size i.fits) done

  pub absent :
      (hash : Hash) (store : GameStore db.T)
      → contains_chunk db io hash store ≡ false
      → db.get store.index (key store.game_id hash) ≡ none
  unfolding contains_chunk
  absent hash store h = ground arith

  -- Appending a chunk that the store does not hold, while the file is below 4 GiB: if the call
  -- succeeds it returns the old size and the length, the chunk is read back as it was given, and a
  -- second append of it returns the same position and changes nothing.
  pub read_chunk-append_chunk :
      (hash : Hash) (bytes : List ℕ) (store : GameStore db.T) (at : ℕ × ℕ)
      → IsStore db io store
      → HasRoom db io bytes store
      → store.size < 2 ^ 32
      → contains_chunk db io hash store ≡ false
      → (append_chunk db io hash bytes store).0 ≡ ok at
      → (at ≡ (store.size, length bytes))
        × (read_chunk db io hash (append_chunk db io hash bytes store).1 ≡ ok (some bytes))
        × (append_chunk db io hash bytes (append_chunk db io hash bytes store).1
            ≡ (ok at, (append_chunk db io hash bytes store).1))
  read_chunk-append_chunk hash bytes store at i room near new done =
      let k = key store.game_id hash in
      let found = absent hash store new in
      let start : append_chunk db io hash bytes store ≡ append_value db io k bytes store none =
        (unfold append_chunk in ap (append_value db io k bytes store) found) in
      let after = (append_value db io k bytes store none).1 in
      let same = append_value-game_id k bytes store none in
      let r = append_value-read k bytes store at i room near (rw start at done) in
      let v = pack store.size (length bytes % 2 ^ 32) in
      let place : unpack v ≡ at =
        new_position db io store.size bytes room.0 ∙ ground (arith, mod-eq_of_lt near, r.0) in
      (
        r.0,
        rw start (unfold read_chunk in rw (same, r.1) r.2),
        rw start (unfold append_chunk in rw (same, r.1) (unfold append_value in rw place)),
      )
