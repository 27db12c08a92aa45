-- ===== src/Upload/Services.antt =====
-- Whole streams of `process_upload` in origin/src/server.rs, over the open stores.
use mathlib.Core.Path.{subst}
use mathlib.Core.Option.{some-injective}
use blaze_net.Common.{
  nat_beq, Bool-cases, beq_refl, ◌==◌, bytes_eq, nat_eq, Result, ok, err, ok_injective, Table, All,
  lookup, ℕ, ◌+◌, ◌^◌, ◌<◌, ◌≡◌, refl, ap, ◌∙◌, ◌⊎◌, inl, inr, false, Option, none, some, List, [],
  ◌∷◌,
}
use blaze_net.Manifest.Defs.{Blake3}
use blaze_net.Storage.Files.{IoError, PosixFile}
use blaze_net.Storage.Defs.{GameStore}
use blaze_net.Storage.Open.{Disk, open_store}
use blaze_net.Upload.Defs.{
  Status, UploadChunk, UploadAck, map_open, Stores, entry, upload_loop, process_upload,
}
use blaze_net.Upload.Stored.{Genuine, AckKept}
use blaze_net.Upload.Streams.{stream_total, upload_loop-Uploaded}

module _ (blake3 : Blake3) (db : Table (List ℕ) ℕ) (io : PosixFile) (disk : Disk db.T) where
  -- Every open store is in order and its chunks have their digests.
  abbrev pub AllGenuine : Stores db.T → Type 0
  AllGenuine stores =
      (game_id : ℕ) (store : GameStore db.T)
      → lookup game_id stores ≡ some store
      → Genuine blake3 db io store

  -- So is every store that is opened now.
  abbrev pub OpensGenuine : Type 0
  OpensGenuine =
      (game_id : ℕ) (store : GameStore db.T)
      → open_store db disk game_id ≡ ok store
      → Genuine blake3 db io store

  -- The game of the first chunk.
  abbrev pub stream_game : List (Result Status UploadChunk) → ℕ
  stream_game (ok first ∷ rest) = first.game_id
  stream_game _ = 0

  open-Genuine :
      (game_id : ℕ) (store : GameStore db.T) (out : Result IoError (GameStore db.T))
      → OpensGenuine
      → open_store db disk game_id ≡ out
      → map_open out ≡ ok store
      → Genuine blake3 db io store
  unfolding map_open
  open-Genuine game_id store (err e) fresh opened found = cc
  open-Genuine game_id store (ok st) fresh opened found =
      fresh game_id store (opened ∙ ap ok (ok_injective found))

  pub entry-some :
      (game_id : ℕ) (stores : Stores db.T) (store : GameStore db.T) (o : Option (GameStore db.T))
      → AllGenuine stores
      → OpensGenuine
      → lookup game_id stores ≡ o
      → entry db disk game_id stores ≡ ok store
      → Genuine blake3 db io store
  unfolding entry
  entry-some game_id stores store (some st) all fresh here found =
      let e : ◌≡◌ {A = Result Status (GameStore db.T)} (ok st) (ok store) =
        rw (entry, here) at found in
      all game_id store (here ∙ ap some (ok_injective e))
  entry-some game_id stores store none all fresh here found =
      open-Genuine game_id store (open_store db disk game_id) fresh refl (rw (entry, here) at found)

  lookup-put :
      (game_id g : ℕ) (store st : GameStore db.T) (stores : Stores db.T)
      → lookup g ((game_id, store) ∷ stores) ≡ some st
      → (store ≡ st) ⊎ (lookup g stores ≡ some st)
  lookup-put game_id g store st stores h = elim (Bool-cases (game_id == g)) [
    | inl same ↦ inl (some-injective store st (rw same at h))
    | inr other ↦ inr (rw other at h)
  ]

  put-AllGenuine :
      (game_id : ℕ) (store : GameStore db.T) (stores : Stores db.T)
      → AllGenuine stores
      → Genuine blake3 db io store
      → AllGenuine ((game_id, store) ∷ stores)
  put-AllGenuine game_id store stores all one g st h =
      elim (lookup-put game_id g store st stores h) [
        | inl same ↦ subst (λ s. Genuine blake3 db io s) same one
        | inr old ↦ all g st old
      ]

  -- The chunks that a stream may add fit below 4 GiB in the store that it goes to.
  abbrev pub Fits : List (Result Status UploadChunk) → Stores db.T → Type 0
  Fits stream stores =
      (store : GameStore db.T)
      → entry db disk (stream_game stream) stores ≡ ok store
      → store.size + stream_total stream < 2 ^ 32

  -- What a stream leaves of the open stores, given what it sent.
  pub record Processed (stream : List (Result Status UploadChunk))
      (acks : List (Result Status UploadAck)) (after : Stores db.T) : Type 0 where
    pub genuine : AllGenuine after
    pub kept :
        (store : GameStore db.T)
        → lookup (stream_game stream) after ≡ some store
        → All (λ r. AckKept blake3 db io r store) acks

  put-Processed :
      (stream : List (Result Status UploadChunk)) (acks : List (Result Status UploadAck))
      (store : GameStore db.T) (stores : Stores db.T)
      → AllGenuine stores
      → Genuine blake3 db io store
      → All (λ r. AckKept blake3 db io r store) acks
      → Processed stream acks ((stream_game stream, store) ∷ stores)
  put-Processed stream acks store stores all one kept = record {
    genuine = put-AllGenuine (stream_game stream) store stores all one;
    kept = λ st h.
        let same = some-injective store st (rw (beq_refl (stream_game stream)) at h) in
        subst (λ s. All (λ r. AckKept blake3 db io r s) acks) same kept;
  }

  process_found :
      (first : UploadChunk) (rest : List (Result Status UploadChunk)) (stores : Stores db.T)
      (found : Result Status (GameStore db.T))
      → AllGenuine stores
      → OpensGenuine
      → Fits (ok first ∷ rest) stores
      → nat_beq first.game_id 0 ≡ false
      → entry db disk first.game_id stores ≡ found
      → Processed
          (ok first ∷ rest)
          (process_upload blake3 db io disk (ok first ∷ rest) stores).0.1
          (process_upload blake3 db io disk (ok first ∷ rest) stores).1
  unfolding process_upload
  process_found first rest stores (err e) all fresh fits id found =
      rw (process_upload, id, found) (record { genuine = all; kept = λ store h. tt })
  process_found first rest stores (ok store) all fresh fits id found =
      let stream : List (Result Status UploadChunk) = ok first ∷ rest in
      let g =
        entry-some first.game_id stores store (lookup first.game_id stores) all fresh refl found in
      let done = upload_loop-Uploaded blake3 db io disk stream store g (fits store found) in
      rw (process_upload, id, found)
        (put-Processed stream (upload_loop blake3 db io disk stream store).0.1
          (upload_loop blake3 db io disk stream store).1 stores all done.genuine done.kept)

  -- The open stores are in order with chunks of their digests, so is what is opened, and the stream fits
  -- below 4 GiB. Whatever the stream holds, after it every open store is in order with chunks of their
  -- digests, and every chunk that was acknowledged as accepted can be read from the store of the
  -- stream's game, with bytes of its digest.
  pub process_upload-Processed :
      (stream : List (Result Status UploadChunk)) (stores : Stores db.T)
      → AllGenuine stores
      → OpensGenuine
      → Fits stream stores
      → Processed stream
          (process_upload blake3 db io disk stream stores).0.1
          (process_upload blake3 db io disk stream stores).1
  unfolding process_upload
  process_upload-Processed [] stores all fresh fits = record { genuine = all; kept = λ store h. tt }
  process_upload-Processed (err e ∷ rest) stores all fresh fits = record {
    genuine = all;
    kept = λ store h. tt;
  }
  process_upload-Processed (ok first ∷ rest) stores all fresh fits =
      elim (Bool-cases (first.game_id == 0)) [
        | inl zero_game ↦
            rw (process_upload, zero_game) (record { genuine = all; kept = λ store h. (tt, tt) })
        | inr id ↦
            process_found first rest stores (entry db disk first.game_id stores) all fresh fits id
              refl
      ]
