-- ===== src/Executor/Runs.antt =====
-- Runs of a download with one peer, and of one without any.
use blaze_net.Common.{
  beq_refl, bytes_eq, nat_eq, ok, err, keep, length, replicate, contains, le_bytes, from_le, ◌≡◌,
  refl, true, false, none, some, List, [], ◌∷◌, ◌++◌, arith,
}
use blaze_net.Storage.Runs.{chunk}
use blaze_net.Scheduler.Db.Records.{codes}
use blaze_net.Scheduler.Control.Types.{Peer}
use blaze_net.Transfer.Frames.{be_rev, be_bytes, from_be, recv_exact, recv_int}
use blaze_net.Transfer.Fetch.{
  PeerTarget, connect_peer, store_chunk, fetched, fetch_one, after_turn, fetch_loop,
  fetch_connected, fetch_chunks,
}
use blaze_net.Transfer.Runs.{seven, seven_digest, keep_hash, always}
use blaze_net.Executor.Defs.{
  waiting_for_others, Network, Config, is_some, nth, first_byte, same_key, add_hash, candidates,
  target_of, choose, place, group_hashes, joined, origin_target, noted, recording,
}
use blaze_net.Executor.Rounds.{
  with_address, run_groups, run_round, next_round, rounds, retry_origin, resolve, download,
  download_missing,
}
use blaze_net.Executor.Delivered.{Holding, download_missing-Held}
use blaze_net.Executor.Blocked.{download_missing-blocked}

abbrev peer : Peer
peer = record {
  node_id = 4;
  endpoint_id = codes "four";
  addrs = record { addr = codes "a"; kind = []; link = [] } ∷ [];
  direct_only = true;
}

-- A scheduler with these answers, and a network in which every connection answers one frame.
abbrev network : List Peer → Network
network peers = record {
  query_peers = λ round hash. ok peers;
  build_endpoint = ok (λ round. always (λ request. be_bytes 4 5 ++ chunk));
  parse_endpoint = λ t. some (length t);
  show_endpoint = λ id. codes "four";
  parse_addr = λ t. some (length t);
}

abbrev config : Config
config = record {
  origin_endpoint = some (codes "origin");
  origin_addr = some (codes "b");
  relay_url = none;
}

keep_hash-Holding :
    Holding seven_digest (network (peer ∷ [])) config 3 keep_hash (λ h s. contains h s ≡ true)
keep_hash-Holding = record {
  added = λ h bytes s same done. rw (beq_refl h) refl;
  kept = λ h g bytes s same inside. ground (arith, inside);
}

seven_taken :
    (download_missing seven_digest (network (peer ∷ [])) config 3 keep_hash (seven ∷ []) [] []).0
    ≡ ok (seven ∷ [])
unfolding download_missing download origin_target rounds group_hashes choose candidates target_of
    nth first_byte is_some keep place add_hash same_key run_round run_groups with_address recording
    noted joined fetch_chunks fetch_connected connect_peer fetch_loop after_turn fetch_one
    store_chunk fetched recv_int recv_exact from_be be_bytes be_rev le_bytes from_le next_round
    resolve retry_origin seven_digest
seven_taken = refl

download_missing-Held_example :
    contains seven
      (download_missing seven_digest
        (network (peer ∷ []))
        config
        3
        keep_hash
        (seven ∷ [])
        []
        []).1.0
    ≡ true
download_missing-Held_example =
    download_missing-Held seven_digest (network (peer ∷ [])) config 3 keep_hash
      (λ h s. contains h s ≡ true) (seven ∷ []) [] [] (seven ∷ []) keep_hash-Holding seven_taken
      seven refl

abbrev origin : PeerTarget
origin = record { endpoint_id = 6; addr = some 1; relay_url = none; direct_only = false }

download_missing-blocked_example :
    download_missing seven_digest
      (network [])
      config
      3
      keep_hash
      (replicate 32 8 ∷ seven ∷ [])
      (seven ∷ [])
      []
    ≡ (err waiting_for_others, ([], []))
unfolding is_some
download_missing-blocked_example =
    download_missing-blocked seven_digest (network []) config 3 keep_hash
      (replicate 32 8 ∷ seven ∷ []) (seven ∷ []) [] (replicate 32 8) (some origin)
      (λ round. always (λ request. be_bytes 4 5 ++ chunk)) (λ round hash. refl)
      (unfold origin_target in refl) refl refl refl
