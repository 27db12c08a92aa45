-- ===== src/Transfer/Answered.antt =====
-- A request of agent/src/fetch.rs that is served by `handle_conn` of origin/src/datapath.rs.
use native.Mathlib.Nat.{mod-eq_of_lt}
use blaze_net.Common.{
  ◌==◌, bytes_beq_iff, bytes_eq, nat_eq, Result, ok, Table, length, All, lookup, ℕ, suc, ◌+◌, ◌%◌,
  ◌^◌, ◌<◌, ◌≡◌, refl, ap, ◌∙◌, Bool, true, false, Option, some, List, [], ◌∷◌, ◌++◌, arith,
}
use blaze_net.Manifest.Defs.{Hash, Blake3}
use blaze_net.Storage.Files.{IoError, PosixFile}
use blaze_net.Storage.Open.{Disk}
use blaze_net.Transfer.Frames.{be_bytes, recv_exact-append, recv_int-be_bytes}
use blaze_net.Transfer.Serve.{
  allow_data, reject_relay_only, gate_or_reject, map_stream, NodeStore, serve_loop, DataPath,
  node_read_chunk, node_store, serve_request, handle_conn,
}
use blaze_net.Transfer.Fetch.{
  PeerTarget, Endpoint, FetchStats, no_stats, FetchError, connect_peer, concat_hashes,
  request_bytes, stored, got_stats, store_chunk, fetched, fetch_one, fetch_loop, fetch_connected,
  fetch_chunks,
}

module _ (blake3 : Blake3) (bytes_of : Hash → List ℕ) where
  -- The store has these bytes under the hash, with the right digest and a length that is a u32.
  pub record Has (read : Hash → Result IoError (Option (List ℕ))) (h : Hash) : Type 0 where
    pub hash_fits : length h ≡ 32
    pub found : read h ≡ ok (some (bytes_of h))
    pub digest : blake3.digest (bytes_of h) ≡ h
    pub fits : length (bytes_of h) < 2 ^ 32

  abbrev pub frames : List Hash → List ℕ
  frames [] = []
  frames (h ∷ hs) = be_bytes 4 (length (bytes_of h) % 2 ^ 32) ++ (bytes_of h ++ frames hs)

  pub serve_loop-frames :
      (read : Hash → Result IoError (Option (List ℕ))) (hashes : List Hash)
      → All (Has read) hashes
      → serve_loop read (length hashes) (concat_hashes hashes) ≡ (ok tt, frames hashes)
  unfolding serve_loop
  serve_loop-frames read [] has = refl
  serve_loop-frames read (h ∷ hs) (here, later) =
      rw
        (
          serve_loop,
          recv_exact-append 32 h (concat_hashes hs) here.hash_fits,
          here.found,
          serve_loop-frames read hs later,
        )
        refl

  abbrev pub total_bytes : List Hash → ℕ
  total_bytes [] = 0
  total_bytes (h ∷ hs) = length (bytes_of h) + total_bytes hs

  module _ {S E : Type 0} (sink : Hash → List ℕ → S → Result E (Unit {0}) × S) where
    -- The state of a sink that has taken all chunks in order.
    abbrev pub delivered : List Hash → S → S
    delivered [] s = s
    delivered (h ∷ hs) s = delivered hs (sink h (bytes_of h) s).1

    fetch_one-frame :
        (read : Hash → Result IoError (Option (List ℕ))) (h : Hash) (rest : List ℕ) (s : S)
        → Has read h
        → (sink h (bytes_of h) s).0 ≡ ok tt
        → fetch_one blake3 sink h
            (be_bytes 4 (length (bytes_of h) % 2 ^ 32) ++ (bytes_of h ++ rest))
            s
          ≡ (stored (length (bytes_of h)) rest, (sink h (bytes_of h) s).1)
    unfolding fetch_one store_chunk fetched
    fetch_one-frame read h rest s has takes =
        let whole : length (bytes_of h) % 2 ^ 32 ≡ length (bytes_of h) = mod-eq_of_lt has.fits in
        let right = (bytes_beq_iff (blake3.digest (bytes_of h)) h).1 has.digest in
        rw
          (
            whole,
            fetch_one,
            recv_int-be_bytes 4 (length (bytes_of h)) (bytes_of h ++ rest)
                (omega (arith, has.fits)),
            recv_exact-append (length (bytes_of h)) (bytes_of h) rest refl,
            store_chunk,
            right,
            takes,
          )
          refl

    counted :
        (d d' b b' : ℕ) (failed : List Hash) (s : S)
        → d ≡ d'
        → b ≡ b'
        → ◌≡◌ {A = Result (FetchError E) FetchStats × S}
            (ok (record { downloaded = d; bytes = b; failed = failed }), s)
            (ok (record { downloaded = d'; bytes = b'; failed = failed }), s)
    counted d d' b b' failed s same_count same_bytes = rw (same_count, same_bytes) refl

    pub fetch_loop-frames :
        (read : Hash → Result IoError (Option (List ℕ))) (hashes : List Hash) (stats : FetchStats)
        (s : S)
        → All (Has read) hashes
        → ((h : Hash) (bytes : List ℕ) (s : S) → (sink h bytes s).0 ≡ ok tt)
        → fetch_loop blake3 sink hashes (frames hashes) stats s ≡ (
          ok (record {
            downloaded = stats.downloaded + length hashes;
            bytes = stats.bytes + total_bytes hashes;
            failed = stats.failed;
          }),
          delivered hashes s,
        )
    unfolding fetch_loop
    fetch_loop-frames read [] stats s has takes =
        counted stats.downloaded (stats.downloaded + 0) stats.bytes (stats.bytes + 0) stats.failed s
          (omega arith) (omega arith)
    fetch_loop-frames read (h ∷ hs) stats s (here, later) takes =
        rw (fetch_loop, fetch_one-frame read h (frames hs) s here (takes h (bytes_of h) s))
          (fetch_loop-frames read hs (got_stats (length (bytes_of h)) stats)
              (sink h (bytes_of h) s).1 later takes
            ∙ counted (stats.downloaded + 1 + length hs) (stats.downloaded + suc (length hs))
                (stats.bytes + length (bytes_of h) + total_bytes hs)
                (stats.bytes + (length (bytes_of h) + total_bytes hs)) stats.failed
                (delivered hs (sink h (bytes_of h) s).1) (omega arith) (omega arith))

  module _ (db : Table (List ℕ) ℕ) (io : PosixFile) (disk : Disk db.T) where
    gate_or_reject-ok : (ready : Bool) → gate_or_reject ready ≡ ok tt
    unfolding gate_or_reject reject_relay_only allow_data
    gate_or_reject-ok true = refl
    gate_or_reject-ok false = refl

    handle_conn-frames :
        (pack_default ready : Bool) (game_id : ℕ) (hashes : List Hash) (d : DataPath db io disk)
        (store : NodeStore)
        → game_id < 2 ^ 64
        → length hashes < 2 ^ 32
        → lookup game_id d.stores ≡ some store
        → All (Has (node_read_chunk db io disk d store)) hashes
        → handle_conn db io disk pack_default ready (request_bytes game_id hashes) d
          ≡ ((ok tt, frames hashes), d)
    unfolding handle_conn map_stream serve_request node_store request_bytes
    handle_conn-frames pack_default ready game_id hashes d store id few served has =
        let count : length hashes % 2 ^ 32 ≡ length hashes = mod-eq_of_lt few in
        rw
          (
            handle_conn,
            gate_or_reject-ok ready,
            recv_int-be_bytes 8 game_id
                (be_bytes 4 (length hashes % 2 ^ 32) ++ concat_hashes hashes) (omega (arith, id)),
            count,
            recv_int-be_bytes 4 (length hashes) (concat_hashes hashes) (omega (arith, few)),
            node_store,
            served,
          )
          (ap (λ t. (t, d)) (serve_loop-frames (node_read_chunk db io disk d store) hashes has))

    -- A peer serves the game from a store that has every chunk of the request, with its digest and a
    -- length that is a u32; the connection leads to it, whether or not it has a direct path; the
    -- sink refuses nothing. Then the call succeeds, all chunks are counted with their bytes, none
    -- fails, and the sink has taken each in the order of the request.
    pub fetch_chunks-handle_conn :
        {S E : Type 0} (sink : Hash → List ℕ → S → Result E (Unit {0}) × S) (ep : Endpoint)
        (target : PeerTarget) (pack_default ready : Bool) (game_id : ℕ) (hashes : List Hash) (s : S)
        (d : DataPath db io disk) (store : NodeStore)
        → connect_peer ep target
          ≡ ok (λ request. (handle_conn db io disk pack_default ready request d).0.1)
        → game_id < 2 ^ 64
        → 0 < length hashes
        → length hashes < 2 ^ 32
        → lookup game_id d.stores ≡ some store
        → All (Has (node_read_chunk db io disk d store)) hashes
        → ((h : Hash) (bytes : List ℕ) (s : S) → (sink h bytes s).0 ≡ ok tt)
        → fetch_chunks blake3 sink ep target game_id hashes s ≡ (
          ok (record { downloaded = length hashes; bytes = total_bytes hashes; failed = [] }),
          delivered sink hashes s,
        )
    unfolding fetch_chunks fetch_connected
    fetch_chunks-handle_conn sink ep target pack_default ready game_id hashes s d store reached id
          asked few served has takes =
        let nonempty : length hashes == 0 ≡ false = ground arith in
        rw
          (
            fetch_chunks,
            nonempty,
            reached,
            handle_conn-frames pack_default ready game_id hashes d store id few served has,
          )
          (fetch_loop-frames sink (node_read_chunk db io disk d store) hashes no_stats s has takes
            ∙ counted sink (0 + length hashes) (length hashes) (0 + total_bytes hashes)
                (total_bytes hashes) [] (delivered sink hashes s) (omega arith) (omega arith))
