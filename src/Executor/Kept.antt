-- ===== src/Executor/Kept.antt =====
-- What a download of agent/src/executor.rs leaves in the sink.
use blaze_net.Common.{
  nat_beq, Bool-cases, ◌==◌, bytes_eq, nat_eq, Result, ok, err, to_set, keep, sort, bytes_leb,
  length, contains, ℕ, zero, suc, ◌+◌, ◌≡◌, inl, inr, Bool, true, false, not, Option, none, some,
  List, [], ◌∷◌, arith,
}
use blaze_net.Manifest.Defs.{Hash, Blake3}
use blaze_net.Scheduler.Db.Records.{Text}
use blaze_net.Transfer.Frames.{NetError}
use blaze_net.Transfer.Fetch.{PeerTarget, Endpoint, FetchStats, FetchError, fetch_chunks}
use blaze_net.Transfer.Fetched.{fetch_chunks-Good}
use blaze_net.Executor.Defs.{
  TaskError, Network, Config, Group, group_hashes, joined, origin_target, recording,
}
use blaze_net.Executor.Rounds.{
  with_address, run_groups, run_round, next_round, rounds, finish_retry, retry_origin, resolve,
  download, download_missing,
}

module _ (blake3 : Blake3) (net : Network) (config : Config) (game_id : ℕ) {S E : Type 0}
    (sink : Hash → List ℕ → S → Result E (Unit {0}) × S) (Good : S × List Hash → Type 0) where
  -- Every call of the sink with bytes of the digest keeps the property.
  abbrev pub EachKeeps : Type 0
  EachKeeps =
      (h : Hash) (bytes : List ℕ) (st : S × List Hash)
      → blake3.digest bytes ≡ h
      → Good st
      → Good (recording sink h bytes st).1

  fetch-Good :
      (ep : Endpoint) (target : PeerTarget) (hashes : List Hash) (st : S × List Hash)
      → EachKeeps
      → Good st
      → Good (fetch_chunks blake3 (recording sink) ep target game_id hashes st).1
  fetch-Good ep target hashes st keeps g =
      fetch_chunks-Good blake3 (recording sink) Good ep target game_id hashes st
        (λ h bytes s asked same good. keeps h bytes s same good) g

  with_address-Good :
      {A : Type 0} (addr : Option ℕ) (rest : Result (TaskError E) A × (S × List Hash))
      (st : S × List Hash)
      → Good st
      → Good rest.1
      → Good (with_address blake3 net config game_id sink addr rest st).1
  unfolding with_address
  with_address-Good none rest st g later = g
  with_address-Good (some a) rest st g later = later

  run_groups-Good :
      (ep : Endpoint) (groups : List Group) (acc : List Text × List Hash) (st : S × List Hash)
      → EachKeeps
      → Good st
      → Good (run_groups blake3 net config game_id sink ep groups acc st).1
  unfolding run_groups
  run_groups-Good ep [] acc st keeps g = g
  run_groups-Good ep ((target, hashes) ∷ groups) acc st keeps g =
      let out = fetch_chunks blake3 (recording sink) ep target game_id hashes st in
      let acc' = joined net config (target, hashes) out.0 acc in
      with_address-Good target.addr (run_groups blake3 net config game_id sink ep groups acc' out.1)
        st g (run_groups-Good ep groups acc' out.1 keeps (fetch-Good ep target hashes st keeps g))

  run_round-Good :
      (ep : Endpoint) (exclude : List Text) (placed : Result NetError (List Group × List Hash))
      (st : S × List Hash)
      → EachKeeps
      → Good st
      → Good (run_round blake3 net config game_id sink ep exclude placed st).1
  unfolding run_round
  run_round-Good ep exclude (err e) st keeps g = g
  run_round-Good ep exclude (ok ([], left)) st keeps g = g
  run_round-Good ep exclude (ok (x ∷ groups, left)) st keeps g =
      run_groups-Good ep (x ∷ groups) (exclude, left) st keeps g

  next_round-Good :
      (go_on : List Text
        → List Hash
        → S × List Hash
        → Result (TaskError E) (List Hash) × (S × List Hash))
      (out : Result (TaskError E) (Bool × List Text × List Hash) × (S × List Hash))
      → Good out.1
      → ((exclude : List Text) (left : List Hash) (st : S × List Hash)
          → Good st
          → Good (go_on exclude left st).1)
      → Good (next_round blake3 net config game_id sink go_on out).1
  unfolding next_round
  next_round-Good go_on (err e, st) g later = g
  next_round-Good go_on (ok (false, exclude, left), st) g later = g
  next_round-Good go_on (ok (true, exclude, left), st) g later = later exclude left st g

  rounds-Good :
      (eps : ℕ → Endpoint) (n r : ℕ) (exclude : List Text) (unresolved : List Hash)
      (st : S × List Hash)
      → EachKeeps
      → Good st
      → Good (rounds blake3 net config game_id sink eps n r exclude unresolved st).1
  unfolding rounds
  rounds-Good eps zero r exclude unresolved st keeps g = g
  rounds-Good eps (suc n) r exclude [] st keeps g = g
  rounds-Good eps (suc n) r exclude (x ∷ xs) st keeps g =
      let placed = group_hashes net config r exclude (x ∷ xs) ([], []) in
      next_round-Good (rounds blake3 net config game_id sink eps n (r + 1))
        (run_round blake3 net config game_id sink (eps r) exclude placed st)
        (run_round-Good (eps r) exclude placed st keeps g)
        (λ exclude' left st' g'. rounds-Good eps n (r + 1) exclude' left st' keeps g')

  finish_retry-Good :
      (out : Result (FetchError E) FetchStats × (S × List Hash))
      → Good out.1
      → Good (finish_retry blake3 net config game_id sink out).1
  unfolding finish_retry
  finish_retry-Good (err e, st) g = g
  finish_retry-Good (ok stats, st) g = elim (Bool-cases (length stats.failed == 0)) [
    | inl complete ↦ rw (finish_retry, complete) g
    | inr incomplete ↦ rw (finish_retry, incomplete) g
  ]

  retry_origin-Good :
      (ep : Endpoint) (origin : Option PeerTarget) (retry : List Hash) (st : S × List Hash)
      → EachKeeps
      → Good st
      → Good (retry_origin blake3 net config game_id sink ep origin retry st).1
  unfolding retry_origin
  retry_origin-Good ep origin [] st keeps g = g
  retry_origin-Good ep none (x ∷ xs) st keeps g = g
  retry_origin-Good ep (some target) (x ∷ xs) st keeps g =
      finish_retry-Good
        (fetch_chunks blake3 (recording sink) ep target game_id (sort bytes_leb (to_set (x ∷ xs)))
          st)
        (fetch-Good ep target (sort bytes_leb (to_set (x ∷ xs))) st keeps g)

  resolve-Good :
      (ep : Endpoint) (origin : Option PeerTarget) (assigned : List Hash)
      (out : Result (TaskError E) (List Hash) × (S × List Hash))
      → EachKeeps
      → Good out.1
      → Good (resolve blake3 net config game_id sink ep origin assigned out).1
  unfolding resolve
  resolve-Good ep origin assigned (err e, st) keeps g = g
  resolve-Good ep origin assigned (ok unresolved, st) keeps g =
      elim (Bool-cases (length (keep (λ h. not (contains h assigned)) unresolved) == 0)) [
        | inl nothing ↦
            rw (resolve, nothing)
              (retry_origin-Good ep origin (keep (λ h. contains h assigned) unresolved) st keeps g)
        | inr blocked ↦ rw (resolve, blocked) g
      ]

  download-Good :
      (missing assigned : List Hash) (origin : Result (TaskError E) (Option PeerTarget))
      (built : Result NetError (ℕ → Endpoint)) (s : S)
      → EachKeeps
      → Good (s, [])
      → Good (download blake3 net config game_id sink missing assigned origin built s).1
  unfolding download
  download-Good missing assigned (err e) built s keeps g = g
  download-Good missing assigned (ok origin) (err e) s keeps g = g
  download-Good missing assigned (ok origin) (ok eps) s keeps g =
      resolve-Good (eps 2) origin assigned
        (rounds blake3 net config game_id sink eps 2 0 [] missing (s, [])) keeps
        (rounds-Good eps 2 0 [] missing (s, []) keeps g)

  pub download_missing-Good :
      (missing assigned : List Hash) (s : S)
      → EachKeeps
      → Good (s, [])
      → Good (download_missing blake3 net config game_id sink missing assigned s).1
  unfolding download_missing
  download_missing-Good [] assigned s keeps g = g
  download_missing-Good (x ∷ xs) assigned s keeps g =
      let asked : nat_beq (suc (length xs)) 0 ≡ false = ground arith in
      rw (download_missing, asked)
        (download-Good (x ∷ xs) assigned (origin_target net config) net.build_endpoint s keeps g)
