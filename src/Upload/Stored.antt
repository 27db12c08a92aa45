-- ===== src/Upload/Stored.antt =====
-- What the streams of `process_upload` in origin/src/server.rs leave in the chunk stores.
use blaze_net.Common.{
  Bool-cases, ◌==◌, bytes_beq_iff, bytes_eq, nat_eq, Result, ok, err, ok_injective, Table, length,
  ℕ, ◌+◌, ◌^◌, ◌<◌, ◌≡◌, refl, sym, ap, ◌∙◌, inl, inr, true, Option, none, some, List, arith,
}
use blaze_net.Manifest.Defs.{Hash, IsHash, Blake3}
use blaze_net.Storage.Files.{IoError, PosixFile}
use blaze_net.Storage.Defs.{GameStore, read_chunk, append_chunk}
use blaze_net.Storage.Append.{IsStore}
use blaze_net.Storage.Abstract.{
  Contents, put_new, after_append, put_new-own, append_refines, contents, contents-Holds,
}
use blaze_net.Upload.Defs.{Status, UploadAck}

module _ (blake3 : Blake3) (db : Table (List ℕ) ℕ) (io : PosixFile) where
  -- A store in order in which every chunk that can be read has the digest under which it is kept.
  pub record Genuine (store : GameStore db.T) : Type 0 where
    pub in_order : IsStore db io store
    pub digests :
        (h : Hash) (bytes : List ℕ)
        → IsHash h
        → read_chunk db io h store ≡ ok (some bytes)
        → blake3.digest bytes ≡ h

  -- What is readable stays as it is.
  abbrev pub Keeps : GameStore db.T → GameStore db.T → Type 0
  Keeps before after =
      (h : Hash) (bytes : List ℕ)
      → IsHash h
      → read_chunk db io h before ≡ ok (some bytes)
      → read_chunk db io h after ≡ ok (some bytes)

  -- A chunk of this digest can be read.
  abbrev pub Readable : Hash → GameStore db.T → Type 0
  Readable h store =
      (bytes : List ℕ) × (read_chunk db io h store ≡ ok (some bytes))
      × (blake3.digest bytes ≡ h)
      × IsHash h

  abbrev pub AckKept : Result Status UploadAck → GameStore db.T → Type 0
  AckKept (ok ack) store = ack.accepted ≡ true → Readable ack.chunk_hash store
  AckKept (err e) store = Unit

  put_new-keeps :
      (hash h : Hash) (bytes old : List ℕ) (held : Contents)
      → held h ≡ some old
      → put_new hash bytes held h ≡ some old
  put_new-keeps hash h bytes old held found = elim (Bool-cases (hash == h)) [
    | inl equal ↦
        let e : hash ≡ h = (bytes_beq_iff hash h).0 equal in
        rw (← e) (put_new-own db io hash bytes held (some old) (rw e found))
    | inr other ↦ rw other found
  ]

  after_append-keeps :
      {A : Type 0} (out : Result IoError A) (hash h : Hash) (bytes old : List ℕ) (held : Contents)
      → held h ≡ some old
      → after_append out hash bytes held h ≡ some old
  after_append-keeps (err e) hash h bytes old held found = found
  after_append-keeps (ok a) hash h bytes old held found = put_new-keeps hash h bytes old held found

  own-digest :
      (hash h : Hash) (bytes got : List ℕ) (held : Contents) (o : Option (List ℕ))
      → hash ≡ h
      → held h ≡ o
      → blake3.digest bytes ≡ hash
      → ((old : List ℕ) → held h ≡ some old → blake3.digest old ≡ h)
      → put_new hash bytes held h ≡ some got
      → blake3.digest got ≡ h
  own-digest hash h bytes got held none e found same truthful new =
      let own : put_new hash bytes held h ≡ some bytes =
        rw (← e) (put_new-own db io hash bytes held none (rw e found)) in
      cc (own, same, e, new)
  own-digest hash h bytes got held (some old) e found same truthful new =
      let own : put_new hash bytes held h ≡ some old =
        rw (← e) (put_new-own db io hash bytes held (some old) (rw e found)) in
      cc (own, truthful old found, new)

  put_new-digests :
      (hash h : Hash) (bytes got : List ℕ) (held : Contents)
      → blake3.digest bytes ≡ hash
      → ((old : List ℕ) → held h ≡ some old → blake3.digest old ≡ h)
      → put_new hash bytes held h ≡ some got
      → blake3.digest got ≡ h
  put_new-digests hash h bytes got held same truthful found = elim (Bool-cases (hash == h)) [
    | inl equal ↦
        let e : hash ≡ h = (bytes_beq_iff hash h).0 equal in
        own-digest hash h bytes got held (held h) e refl same truthful found
    | inr other ↦ truthful got (rw other at found)
  ]

  after_append-digests :
      {A : Type 0} (out : Result IoError A) (hash h : Hash) (bytes got : List ℕ) (held : Contents)
      → blake3.digest bytes ≡ hash
      → ((old : List ℕ) → held h ≡ some old → blake3.digest old ≡ h)
      → after_append out hash bytes held h ≡ some got
      → blake3.digest got ≡ h
  after_append-digests (err e) hash h bytes got held same truthful found = truthful got found
  after_append-digests (ok a) hash h bytes got held same truthful found =
      put_new-digests hash h bytes got held same truthful found

  -- A chunk with its digest is appended.
  pub append-Genuine :
      (hash : Hash) (bytes : List ℕ) (store : GameStore db.T)
      → Genuine store
      → store.size + length bytes < 2 ^ 32
      → blake3.digest bytes ≡ hash
      → Genuine (append_chunk db io hash bytes store).1
        × Keeps store (append_chunk db io hash bytes store).1
  append-Genuine hash bytes store g room same =
      let out = (append_chunk db io hash bytes store).0 in
      let after = (append_chunk db io hash bytes store).1 in
      let held = contents db io store in
      let before = contents-Holds db io store g.in_order in
      let p : IsHash hash = rw (← same) (blake3.digest-IsHash bytes) in
      let now =
        append_refines db io hash bytes store held before (omega arith, omega arith) (omega arith)
          p in
      (
        record {
          in_order = now.in_order;
          digests = λ h got q r.
              after_append-digests out hash h bytes got held same
                (λ old found. g.digests h old q (before.reads h q ∙ ap ok found))
                (ok_injective (sym (now.reads h q) ∙ r));
        },
        λ h got q r.
            now.reads h q
            ∙ ap ok (
                after_append-keeps out hash h bytes got held
                  (ok_injective (sym (before.reads h q) ∙ r))),
      )
