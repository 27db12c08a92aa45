-- ===== src/Executor/Rounds.antt =====
-- The rounds of `download_missing` in agent/src/executor.rs and what comes after them.
use blaze_net.Common.{
  if◌then◌else◌, ◌==◌, bytes_eq, nat_eq, Result, ok, err, ◌>>=◌, to_set, keep, sort, bytes_leb,
  length, contains, ℕ, zero, suc, ◌+◌, Bool, true, false, not, Option, none, some, List, [], ◌∷◌,
}
use blaze_net.Manifest.Defs.{Hash, Blake3}
use blaze_net.Scheduler.Db.Records.{Text}
use blaze_net.Transfer.Frames.{NetError}
use blaze_net.Transfer.Fetch.{PeerTarget, Endpoint, FetchStats, FetchError, fetch_chunks}
use blaze_net.Executor.Defs.{
  TaskError, task_net, fetch_failed, no_direct_addr, no_origin, waiting_for_others, chunks_failed,
  Network, Config, Group, is_some, group_hashes, joined, origin_target, recording,
}

module _ (blake3 : Blake3) (net : Network) (config : Config) (game_id : ℕ) {S E : Type 0}
    (sink : Hash → List ℕ → S → Result E (Unit {0}) × S) where
  -- The state of the sink and the hashes that it has taken.
  abbrev pub St : Type 0
  St = S × List Hash

  unfoldable pub with_address :
      {A : Type 0} → Option ℕ → Result (TaskError E) A × St → St → Result (TaskError E) A × St
  with_address none rest st = (err no_direct_addr, st)
  with_address (some a) rest st = rest

  -- One group: without a direct address the whole download fails.
  unfoldable pub run_groups :
      Endpoint
      → List Group
      → List Text × List Hash
      → St
      → Result (TaskError E) (List Text × List Hash) × St
  unfolding recording joined fetch_chunks with_address
  run_groups ep [] acc st = (ok acc, st)
  run_groups ep ((target, hashes) ∷ groups) acc st =
      let (result, st') = fetch_chunks blake3 (recording sink) ep target game_id hashes st in
      let rest = run_groups ep groups (joined net config (target, hashes) result acc) st' in
      with_address target.addr rest st

  -- After the grouping: whether another round may follow, the excluded sources, the unresolved hashes.
  unfoldable pub run_round :
      Endpoint
      → List Text
      → Result NetError (List Group × List Hash)
      → St
      → Result (TaskError E) (Bool × List Text × List Hash) × St
  unfolding run_groups
  run_round ep exclude (err e) st = (err (task_net e), st)
  run_round ep exclude (ok ([], left)) st = (ok (false, exclude, left), st)
  run_round ep exclude (ok (g ∷ groups, left)) st =
      let (done, st') = run_groups ep (g ∷ groups) (exclude, left) st in
      (done >>= λ acc. ok (true, acc.0, acc.1), st')

  unfoldable pub next_round :
      (List Text → List Hash → St → Result (TaskError E) (List Hash) × St)
      → Result (TaskError E) (Bool × List Text × List Hash) × St
      → Result (TaskError E) (List Hash) × St
  next_round go_on (err e, st) = (err e, st)
  next_round go_on (ok (false, exclude, left), st) = (ok left, st)
  next_round go_on (ok (true, exclude, left), st) = go_on exclude left st

  -- At most n rounds from number r on; what is left unresolved.
  unfoldable pub rounds :
      (ℕ → Endpoint) → ℕ → ℕ → List Text → List Hash → St → Result (TaskError E) (List Hash) × St
  unfolding group_hashes run_round next_round
  rounds eps zero r exclude unresolved st = (ok unresolved, st)
  rounds eps (suc n) r exclude [] st = (ok [], st)
  rounds eps (suc n) r exclude (h ∷ hs) st =
      next_round (λ exclude' left st'. rounds eps n (r + 1) exclude' left st')
        (run_round (eps r) exclude (group_hashes net config r exclude (h ∷ hs) ([], [])) st)

  -- The chunks of this node's share that no source gave, from the origin.
  unfoldable pub finish_retry :
      Result (FetchError E) FetchStats × St → Result (TaskError E) (List Hash) × St
  finish_retry (err e, st) = (err (fetch_failed e), st)
  finish_retry (ok stats, st) =
      if length stats.failed == 0 then (ok st.1, st) else (err chunks_failed, st)

  unfoldable pub retry_origin :
      Endpoint → Option PeerTarget → List Hash → St → Result (TaskError E) (List Hash) × St
  unfolding finish_retry recording fetch_chunks
  retry_origin ep origin [] st = (ok st.1, st)
  retry_origin ep none (h ∷ hs) st = (err no_origin, st)
  retry_origin ep (some target) (h ∷ hs) st =
      finish_retry (
        fetch_chunks blake3 (recording sink) ep target game_id (sort bytes_leb (to_set (h ∷ hs)))
          st)

  -- The split of what is unresolved by the share of this node.
  unfoldable pub resolve :
      Endpoint
      → Option PeerTarget
      → List Hash
      → Result (TaskError E) (List Hash) × St
      → Result (TaskError E) (List Hash) × St
  unfolding retry_origin is_some
  resolve ep origin assigned (err e, st) = (err e, st)
  resolve ep origin assigned (ok unresolved, st) =
      let retry = keep (λ h. contains h assigned) unresolved in
      let blocked = keep (λ h. not (contains h assigned)) unresolved in
      if not (length blocked == 0)
      then (err (if is_some origin then waiting_for_others else no_origin), st)
      else retry_origin ep origin retry st

  unfoldable pub download :
      List Hash
      → List Hash
      → Result (TaskError E) (Option PeerTarget)
      → Result NetError (ℕ → Endpoint)
      → S
      → Result (TaskError E) (List Hash) × St
  unfolding rounds resolve
  download missing assigned (err e) built s = (err e, (s, []))
  download missing assigned (ok origin) (err e) s = (err (task_net e), (s, []))
  download missing assigned (ok origin) (ok eps) s =
      resolve (eps 2) origin assigned (rounds eps 2 0 [] missing (s, []))

  -- The hashes that were taken, and the state of the sink.
  unfoldable pub download_missing :
      List Hash → List Hash → S → Result (TaskError E) (List Hash) × St
  unfolding download origin_target
  download_missing missing assigned s =
      if length missing == 0
      then (ok [], (s, []))
      else download missing assigned (origin_target net config) net.build_endpoint s
