-- ===== src/Storage/Abstract.antt =====
-- The chunk store of origin/src/storage.rs seen from outside: a map from hashes to bytes in which the
-- first chunk of a hash stays.
use native.Mathlib.Nat.{mod-le}
use blaze_net.Common.{
  if◌then◌else◌, Bool-cases, beq_refl, ◌==◌, bytes_beq_iff, bytes_eq, nat_eq, Result, ok, err,
  Table, length, ℕ, ◌+◌, ◌^◌, ◌≤◌, ◌<◌, ◌≡◌, refl, sym, ap, ◌∙◌, ◌≢◌, inl, inr, false, Option, none,
  some, List, [], ◌∷◌, arith,
}
use blaze_net.Manifest.Defs.{Hash, IsHash}
use blaze_net.Storage.Files.{IoError, PosixFile}
use blaze_net.Storage.Defs.{
  key, unpack, GameStore, contains_chunk, read_value, read_chunk, store_new, append_value,
  append_chunk,
}
use blaze_net.Storage.Append.{position, IsStore, HasRoom, append_chunk-IsStore, read_value-ok}
use blaze_net.Storage.Reads.{
  append_value-game_id, read_chunk-append_chunk_ne, read_chunk-append_chunk,
}

abbrev pub Contents : Type 0
Contents = Hash → Option (List ℕ)

-- A chunk that is there stays as it is.
abbrev pub put_new : Hash → List ℕ → Contents → Contents
put_new hash bytes held h =
    if hash == h then elim (held hash) [ none ↦ some bytes | some old ↦ some old ] else held h

-- What a map is after an append: a failed one leaves it alone.
abbrev pub after_append : {A : Type 0} → Result IoError A → Hash → List ℕ → Contents → Contents
after_append (err e) hash bytes held = held
after_append (ok a) hash bytes held = put_new hash bytes held

module _ (db : Table (List ℕ) ℕ) (io : PosixFile) where
  -- The store is in order and holds exactly the chunks of the map.
  pub record Holds (store : GameStore db.T) (held : Contents) : Type 0 where
    pub in_order : IsStore db io store
    pub reads : (h : Hash) → IsHash h → read_chunk db io h store ≡ ok (held h)

  store_new-failed :
      (k bytes : List ℕ) (store : GameStore db.T) (e : IoError)
      (out : Result IoError (Unit {0}) × List ℕ)
      → (store_new db io k bytes store out).0 ≡ err e
      → (store_new db io k bytes store out).1.index ≡ store.index
  unfolding store_new
  store_new-failed k bytes store e (err x, file) h = refl
  store_new-failed k bytes store e (ok u, file) h = cc

  pub contains-index :
      (hash : Hash) (store : GameStore db.T)
      → db.get store.index (key store.game_id hash) ≡ none
      → contains_chunk db io hash store ≡ false
  unfolding contains_chunk
  contains-index hash store h = rw (contains_chunk, h) refl

  read-absent :
      (hash : Hash) (store : GameStore db.T)
      → db.get store.index (key store.game_id hash) ≡ none
      → read_chunk db io hash store ≡ ok none
  unfolding read_chunk read_value
  read-absent hash store h = rw (read_chunk, h) refl

  append-new :
      (hash : Hash) (bytes : List ℕ) (store : GameStore db.T)
      → db.get store.index (key store.game_id hash) ≡ none
      → append_chunk db io hash bytes store
        ≡ append_value db io (key store.game_id hash) bytes store none
  unfolding append_chunk
  append-new hash bytes store new = ap (append_value db io (key store.game_id hash) bytes store) new

  append_value-failed :
      (k bytes : List ℕ) (store : GameStore db.T) (e : IoError)
      → (append_value db io k bytes store none).0 ≡ err e
      → (append_value db io k bytes store none).1.index ≡ store.index
  unfolding append_value
  append_value-failed k bytes store e h = store_new-failed k bytes store e _ h

  -- A failed append of a chunk that was not there leaves it absent.
  append-failed :
      (hash : Hash) (bytes : List ℕ) (store : GameStore db.T) (e : IoError)
      → db.get store.index (key store.game_id hash) ≡ none
      → (append_chunk db io hash bytes store).0 ≡ err e
      → read_chunk db io hash (append_chunk db io hash bytes store).1 ≡ ok none
  append-failed hash bytes store e new done =
      let k = key store.game_id hash in
      let start = append-new hash bytes store new in
      let index = append_value-failed k bytes store e (rw start at done) in
      rw start (
        read-absent hash (append_value db io k bytes store none).1
          (rw (append_value-game_id db io k bytes store none, index) new))

  Held-absent :
      (hash : Hash) (store : GameStore db.T) (held : Contents)
      → Holds store held
      → IsHash hash
      → db.get store.index (key store.game_id hash) ≡ none
      → held hash ≡ none
  Held-absent hash store held holds h new =
      let r = read-absent hash store new in cc (holds.reads hash h, r)

  pub after_append-other :
      {A : Type 0} (out : Result IoError A) (hash h : Hash) (bytes : List ℕ) (held : Contents)
      → hash ≢ h
      → after_append out hash bytes held h ≡ held h
  after_append-other (err e) hash h bytes held ne = refl
  after_append-other (ok a) hash h bytes held ne = ground (arith, bytes_beq_iff hash h)

  pub put_new-own :
      (hash : Hash) (bytes : List ℕ) (held : Contents) (o : Option (List ℕ))
      → held hash ≡ o
      → put_new hash bytes held hash ≡ elim o [ none ↦ some bytes | some old ↦ some old ]
  put_new-own hash bytes held o found = rw (beq_refl hash, found) refl

  -- An append whose own chunk reads as the map says refines the map.
  refines :
      (hash : Hash) (bytes : List ℕ) (store : GameStore db.T) (held : Contents)
      (out : Result IoError (ℕ × ℕ))
      → Holds store held
      → HasRoom db io bytes store
      → IsHash hash
      → read_chunk db io hash (append_chunk db io hash bytes store).1
        ≡ ok (after_append out hash bytes held hash)
      → Holds (append_chunk db io hash bytes store).1 (after_append out hash bytes held)
  refines hash bytes store held out holds room p own = record {
    in_order = append_chunk-IsStore db io hash bytes store holds.in_order room;
    reads = λ h q. elim (Bool-cases (hash == h)) [
      | inl same ↦ rw (← (bytes_beq_iff hash h).0 same) own
      | inr ne ↦
          let differ : hash ≢ h = ground (arith, bytes_beq_iff hash h) in
          read_chunk-append_chunk_ne db io hash h bytes store holds.in_order room p q differ
          ∙ holds.reads h q
          ∙ ap ok (sym (after_append-other out hash h bytes held differ))
    ];
  }

  append-own :
      (hash : Hash) (bytes : List ℕ) (store : GameStore db.T) (held : Contents)
      (out : Result IoError (ℕ × ℕ)) (o : Option ℕ)
      → Holds store held
      → HasRoom db io bytes store
      → store.size < 2 ^ 32
      → IsHash hash
      → db.get store.index (key store.game_id hash) ≡ o
      → (append_chunk db io hash bytes store).0 ≡ out
      → read_chunk db io hash (append_chunk db io hash bytes store).1
        ≡ ok (after_append out hash bytes held hash)
  append-own hash bytes store held out (some value) holds room near p found done =
      let start : append_chunk db io hash bytes store ≡ (ok (unpack value), store) =
        unfold append_chunk append_value in
        ap (append_value db io (key store.game_id hash) bytes store) found in
      let out_is : out ≡ ok (unpack value) = sym done ∙ ap (λ t. t.0) start in
      let whole = read_value-ok db io store (key store.game_id hash) value holds.in_order found in
      let here : read_chunk db io hash store ≡ read_value db io store (some value) =
        unfold read_chunk in ap (read_value db io store) found in
      let there : held hash ≡ some (position db io value store) =
        cc (holds.reads hash p, whole, here) in
      rw (start, out_is)
        (holds.reads hash p
          ∙ ap ok
              (there ∙ sym (put_new-own hash bytes held (some (position db io value store)) there)))
  append-own hash bytes store held (err e) none holds room near p new done =
      let gone = Held-absent hash store held holds p new in
      append-failed hash bytes store e new done ∙ ap ok (sym gone)
  append-own hash bytes store held (ok at) none holds room near p new done =
      let absent_before = contains-index hash store new in
      let r =
        read_chunk-append_chunk db io hash bytes store at holds.in_order room near absent_before
          done in
      let gone = Held-absent hash store held holds p new in
      r.1 ∙ ap ok (sym (put_new-own hash bytes held none gone))

  pub append_refines :
      (hash : Hash) (bytes : List ℕ) (store : GameStore db.T) (held : Contents)
      → Holds store held
      → HasRoom db io bytes store
      → store.size < 2 ^ 32
      → IsHash hash
      → Holds
          (append_chunk db io hash bytes store).1
          (after_append (append_chunk db io hash bytes store).0 hash bytes held)
  append_refines hash bytes store held holds room near p =
      let out = (append_chunk db io hash bytes store).0 in
      refines hash bytes store held out holds room p (
        append-own hash bytes store held out (db.get store.index (key store.game_id hash)) holds
          room near p refl refl)

  store_new-size :
      (k bytes : List ℕ) (store : GameStore db.T) (out : Result IoError (Unit {0}) × List ℕ)
      → (store_new db io k bytes store out).1.size ≤ store.size + length bytes
  unfolding store_new
  store_new-size k bytes store (err e, file) = omega arith
  store_new-size k bytes store (ok u, file) =
      omega (arith, mod-le (store.size + length bytes) (2 ^ 64))

  append_value-size :
      (k bytes : List ℕ) (store : GameStore db.T) (o : Option ℕ)
      → (append_value db io k bytes store o).1.size ≤ store.size + length bytes
  unfolding append_value
  append_value-size k bytes store (some value) = omega arith
  append_value-size k bytes store none = store_new-size k bytes store _

  pub append_chunk-size :
      (hash : Hash) (bytes : List ℕ) (store : GameStore db.T)
      → (append_chunk db io hash bytes store).1.size ≤ store.size + length bytes
  unfolding append_chunk
  append_chunk-size hash bytes store = append_value-size _ bytes store _

  -- Appends one after the other, each tried whether or not the one before succeeded.
  abbrev pub append_each :
      List (Hash × List ℕ) → GameStore db.T → List (Result IoError (ℕ × ℕ)) × GameStore db.T
  append_each [] store = ([], store)
  append_each ((hash, bytes) ∷ rest) store =
      let (out, store) = append_chunk db io hash bytes store in
      let (outs, store) = append_each rest store in (out ∷ outs, store)

  -- The map after these appends, given what each returned.
  abbrev pub replay : List (Hash × List ℕ) → List (Result IoError (ℕ × ℕ)) → Contents → Contents
  replay ((hash, bytes) ∷ rest) (out ∷ outs) held =
      replay rest outs (after_append out hash bytes held)
  replay _ _ held = held

  abbrev pub total : List (Hash × List ℕ) → ℕ
  total [] = 0
  total ((hash, bytes) ∷ rest) = length bytes + total rest

  abbrev pub AllHashes : List (Hash × List ℕ) → Type 0
  AllHashes [] = Unit
  AllHashes ((hash, bytes) ∷ rest) = IsHash hash × AllHashes rest

  -- A store in order that reads as a map says, and chunks appended one after the other, each tried
  -- whatever became of those before, with hashes of the right length, while all of it stays below
  -- 4 GiB: the store is in order afterwards, and under every hash it reads as the map into which each
  -- successful append put its chunk, unless one was there, and each failed one nothing.
  pub append_each-refines :
      (chunks : List (Hash × List ℕ)) (store : GameStore db.T) (held : Contents)
      → Holds store held
      → store.size + total chunks < 2 ^ 32
      → AllHashes chunks
      → Holds (append_each chunks store).1 (replay chunks (append_each chunks store).0 held)
  append_each-refines [] store held holds room p = holds
  append_each-refines ((hash, bytes) ∷ rest) store held holds room p =
      let out = (append_chunk db io hash bytes store).0 in
      let after = (append_chunk db io hash bytes store).1 in
      append_each-refines rest after (after_append out hash bytes held)
        (append_refines hash bytes store held holds (omega arith, omega arith) (omega arith) p.0)
        (omega (arith, append_chunk-size hash bytes store)) p.1

  -- The map of a store that is in order.
  abbrev pub contents : GameStore db.T → Contents
  contents store h = elim (db.get store.index (key store.game_id h)) [
    | none ↦ none
    | some value ↦ some (position db io value store)
  ]

  read_value-contents :
      (store : GameStore db.T) (k : List ℕ) (o : Option ℕ)
      → IsStore db io store
      → db.get store.index k ≡ o
      → read_value db io store o
        ≡ ok (elim o [ none ↦ none | some value ↦ some (position db io value store) ])
  read_value-contents store k none i found = unfold read_value in refl
  read_value-contents store k (some value) i found = read_value-ok db io store k value i found

  pub contents-Holds : (store : GameStore db.T) → IsStore db io store → Holds store (contents store)
  contents-Holds store i = record {
    in_order = i;
    reads = λ h p.
        unfold read_chunk in
        read_value-contents store (key store.game_id h) (db.get store.index (key store.game_id h)) i
          refl;
  }
