-- ===== src/Upload/Streams.antt =====
-- The loop of `process_upload` in origin/src/server.rs, and a whole stream.
use blaze_net.Common.{
  Bool-cases, ◌==◌, bytes_beq_iff, bytes_eq, nat_eq, Result, ok, err, Table, length, All, ℕ, ◌+◌,
  ◌^◌, ◌≤◌, ◌<◌, ◌≡◌, refl, ap, ◌∙◌, inl, inr, Option, none, some, List, [], ◌∷◌, arith,
}
use blaze_net.Manifest.Defs.{hash_len, Hash, IsHash, Blake3}
use blaze_net.Storage.Files.{IoError, PosixFile}
use blaze_net.Storage.Defs.{GameStore, read_chunk, append_chunk}
use blaze_net.Storage.Abstract.{
  Contents, put_new, after_append, put_new-own, append_refines, append_chunk-size, total, contents,
  contents-Holds,
}
use blaze_net.Storage.Open.{Disk}
use blaze_net.Upload.Defs.{
  Status, UploadChunk, UploadAck, append_ack, to_hash, upload_one, upload_loop,
}
use blaze_net.Upload.Stored.{Genuine, Keeps, Readable, AckKept, append-Genuine}

-- The bytes of all chunks of a stream.
abbrev pub stream_total : List (Result Status UploadChunk) → ℕ
stream_total [] = 0
stream_total (err e ∷ rest) = stream_total rest
stream_total (ok chunk ∷ rest) = length chunk.bytes + stream_total rest

module _ (blake3 : Blake3) (db : Table (List ℕ) ℕ) (io : PosixFile) (disk : Disk db.T) where
  own-Readable :
      (hash : Hash) (bytes : List ℕ) (store after : GameStore db.T) (held : Contents)
      (o : Option (List ℕ))
      → IsHash hash
      → blake3.digest bytes ≡ hash
      → ((old : List ℕ) → held hash ≡ some old → blake3.digest old ≡ hash)
      → held hash ≡ o
      → read_chunk db io hash after ≡ ok (put_new hash bytes held hash)
      → Readable blake3 db io hash after
  own-Readable hash bytes store after held none p same truthful found r =
      (bytes, r ∙ ap ok (put_new-own db io hash bytes held none found), same, p)
  own-Readable hash bytes store after held (some old) p same truthful found r =
      (old, r ∙ ap ok (put_new-own db io hash bytes held (some old) found), truthful old found, p)

  append-AckKept :
      (hash : Hash) (bytes : List ℕ) (store : GameStore db.T) (out : Result IoError (ℕ × ℕ))
      → Genuine blake3 db io store
      → store.size + length bytes < 2 ^ 32
      → blake3.digest bytes ≡ hash
      → (append_chunk db io hash bytes store).0 ≡ out
      → AckKept blake3 db io (ok (append_ack out hash)) (append_chunk db io hash bytes store).1
  unfolding append_ack
  append-AckKept hash bytes store (err e) g room same done = λ accepted. cc
  append-AckKept hash bytes store (ok at) g room same done = λ accepted.
      let held = contents db io store in
      let before = contents-Holds db io store g.in_order in
      let p : IsHash hash = rw (← same) (blake3.digest-IsHash bytes) in
      let now =
        append_refines db io hash bytes store held before (omega arith, omega arith) (omega arith)
          p in
      own-Readable hash bytes store (append_chunk db io hash bytes store).1 held (held hash) p same
        (λ old found. g.digests hash old p (before.reads hash p ∙ ap ok found)) refl
        (now.reads hash p ∙ ap (λ t. ok (after_append t hash bytes held hash)) done)

  -- What an upload leaves of a store, given what it sent.
  pub record Uploaded (before : GameStore db.T) (total : ℕ) (acks : List (Result Status UploadAck))
      (after : GameStore db.T) : Type 0 where
    pub genuine : Genuine blake3 db io after
    pub keeps : Keeps blake3 db io before after
    pub kept : All (λ r. AckKept blake3 db io r after) acks
    pub grown : after.size ≤ before.size + total

  Uploaded-nothing :
      (store : GameStore db.T) (total : ℕ)
      → Genuine blake3 db io store
      → Uploaded store total [] store
  Uploaded-nothing store total g = record {
    genuine = g;
    keeps = λ h bytes p r. r;
    kept = tt;
    grown = omega arith;
  }

  AckKept-later :
      (r : Result Status UploadAck) (before after : GameStore db.T)
      → Keeps blake3 db io before after
      → AckKept blake3 db io r before
      → AckKept blake3 db io r after
  AckKept-later (err e) before after keeps h = tt
  AckKept-later (ok ack) before after keeps h = λ accepted.
      let (bytes, read, same, p) = h accepted in (bytes, keeps ack.chunk_hash bytes p read, same, p)

  Uploaded-then :
      (n m : ℕ) (r : Result Status UploadAck) (acks : List (Result Status UploadAck))
      (before mid after : GameStore db.T)
      → Uploaded before n (r ∷ []) mid
      → Uploaded mid m acks after
      → Uploaded before (n + m) (r ∷ acks) after
  Uploaded-then n m r acks before mid after one more = record {
    genuine = more.genuine;
    keeps = λ h bytes p read. more.keeps h bytes p (one.keeps h bytes p read);
    kept = (AckKept-later r mid after more.keeps one.kept.0, more.kept);
    grown = omega (arith, one.grown, more.grown);
  }

  upload_one-Uploaded :
      (hash : Hash) (bytes : List ℕ) (store : GameStore db.T)
      → Genuine blake3 db io store
      → store.size + length bytes < 2 ^ 32
      → Uploaded store
          (length bytes)
          (ok (upload_one blake3 db io disk hash bytes store).0 ∷ [])
          (upload_one blake3 db io disk hash bytes store).1
  unfolding upload_one
  upload_one-Uploaded hash bytes store g room = elim (Bool-cases (blake3.digest bytes == hash)) [
    | inl equal ↦
        let same = (bytes_beq_iff (blake3.digest bytes) hash).0 equal in
        let (genuine, keeps) = append-Genuine blake3 db io hash bytes store g room same in
        let out = (append_chunk db io hash bytes store).0 in
        rw (upload_one, equal)
          (record {
            genuine = genuine;
            keeps = keeps;
            kept = (append-AckKept hash bytes store out g room same refl, tt);
            grown = append_chunk-size db io hash bytes store;
          })
    | inr other ↦
        rw (upload_one, other)
          (record {
            genuine = g;
            keeps = λ h got p r. r;
            kept = (λ accepted. cc, tt);
            grown = omega arith;
          })
  ]

  -- A store in order whose chunks have their digests, and a stream that fits below 4 GiB: whatever the
  -- stream holds and wherever it breaks off, the store is in order afterwards and its chunks have
  -- their digests, every chunk that was readable is still read the same, and every chunk that was
  -- acknowledged as accepted can be read, with bytes of its digest.
  pub upload_loop-Uploaded :
      (stream : List (Result Status UploadChunk)) (store : GameStore db.T)
      → Genuine blake3 db io store
      → store.size + stream_total stream < 2 ^ 32
      → Uploaded store
          (stream_total stream)
          (upload_loop blake3 db io disk stream store).0.1
          (upload_loop blake3 db io disk stream store).1
  unfolding upload_loop to_hash
  upload_loop-Uploaded [] store g room = Uploaded-nothing store 0 g
  upload_loop-Uploaded (err e ∷ rest) store g room = Uploaded-nothing store (stream_total rest) g
  upload_loop-Uploaded (ok chunk ∷ rest) store g room =
      let one = upload_one-Uploaded chunk.chunk_hash chunk.bytes store g (omega arith) in
      let mid = (upload_one blake3 db io disk chunk.chunk_hash chunk.bytes store).1 in
      let more = upload_loop-Uploaded rest mid one.genuine (omega (arith, one.grown)) in
      elim (Bool-cases (length chunk.chunk_hash == hash_len)) [
        | inl right ↦
            rw (upload_loop, to_hash, right)
              (Uploaded-then (length chunk.bytes) (stream_total rest) _ _ store mid _ one more)
        | inr wrong ↦
            rw (upload_loop, to_hash, wrong)
              (Uploaded-nothing store (length chunk.bytes + stream_total rest) g)
      ]
