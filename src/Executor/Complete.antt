-- ===== src/Executor/Complete.antt =====
-- A download of agent/src/executor.rs that succeeds has taken every missing chunk.
use blaze_net.Common.{
  nat_beq, Bool-cases, ◌==◌, bytes_eq, nat_eq, Result, ok, err, >>=-eq-ok, ok_injective, to_set,
  keep, sort, bytes_leb, contains-append, contains-to_set, contains-keep, contains-sort, length,
  contains, ℕ, zero, suc, ◌+◌, ◌≡◌, refl, sym, ◌∙◌, ◌≢◌, inl, inr, Bool, true, false, not, ◌||◌,
  Option, none, some, List, [], ◌∷◌, arith,
}
use blaze_net.Manifest.Defs.{Hash, Blake3}
use blaze_net.Scheduler.Db.Records.{Text}
use blaze_net.Transfer.Frames.{NetError}
use blaze_net.Transfer.Fetch.{PeerTarget, Endpoint, FetchStats, no_stats, FetchError, fetch_chunks}
use blaze_net.Transfer.Settled.{Settled, fetch_chunks-Settled}
use blaze_net.Executor.Defs.{
  TaskError, Network, Config, Group, group_hashes, joined, origin_target, recording,
}
use blaze_net.Executor.Rounds.{
  with_address, run_groups, run_round, next_round, rounds, finish_retry, retry_origin, resolve,
  download, download_missing,
}
use blaze_net.Executor.Groups.{
  grouped, is_placed, group_hashes-is_placed, is_covered, recording-Logs,
}

module _ (blake3 : Blake3) (net : Network) (config : Config) (game_id : ℕ) {S E : Type 0}
    (sink : Hash → List ℕ → S → Result E (Unit {0}) × S) where
  none_in : (xs : List Hash) (h : Hash) → length xs == 0 ≡ true → contains h xs ≡ false
  none_in [] h e = refl
  none_in (x ∷ xs) h e = absurd (ground arith)

  no_confusion : true ≢ false
  no_confusion e = cc

  pub failed_download :
      {e : TaskError E} {taken : List Hash}
      → ◌≡◌ {A = Result (TaskError E) (List Hash)} (err e) (ok taken)
      → ⊥
  failed_download h = cc

  settled :
      (ep : Endpoint) (target : PeerTarget) (hashes : List Hash) (st : S × List Hash)
      → Settled blake3
          (recording sink)
          (λ s. s.1)
          hashes
          no_stats
          st
          (fetch_chunks blake3 (recording sink) ep target game_id hashes st)
  settled ep target hashes st =
      fetch_chunks-Settled blake3 (recording sink) (λ s. s.1) ep target game_id hashes st
        (recording-Logs blake3 sink)

  joined-is_covered :
      (target : PeerTarget) (hashes : List Hash) (exclude : List Text) (left : List Hash)
      (st : S × List Hash) (out : Result (FetchError E) FetchStats × (S × List Hash))
      (result : Result (FetchError E) FetchStats) (h : Hash)
      → Settled blake3 (recording sink) (λ s. s.1) hashes no_stats st out
      → out.0 ≡ result
      → (contains h hashes || is_covered net config h left st.1) ≡ true
      → is_covered net config h
          (joined net config (target, hashes) result (exclude, left)).1
          out.1.1
        ≡ true
  unfolding joined
  joined-is_covered target hashes exclude left st out (err e) h settle found covered =
      ground (arith, contains-append h left hashes, settle.log_kept h)
  joined-is_covered target hashes exclude left st out (ok stats) h settle found covered =
      elim (Bool-cases (contains h hashes)) [
        | inl asked ↦ elim (settle.every stats h found asked) [
          | inl failed ↦ ground (arith, contains-append h left stats.failed, failed)
          | inr taken ↦ ground (arith, taken)
        ]
        | inr other ↦ ground (arith, contains-append h left stats.failed, settle.log_kept h)
      ]

  group_step :
      (target : PeerTarget) (hashes : List Hash) (groups : List Group) (acc : List Text × List Hash)
      (st : S × List Hash) (out : Result (FetchError E) FetchStats × (S × List Hash)) (h : Hash)
      → Settled blake3 (recording sink) (λ s. s.1) hashes no_stats st out
      → (grouped h ((target, hashes) ∷ groups) || is_covered net config h acc.1 st.1) ≡ true
      → (grouped h groups
          || is_covered net config h (joined net config (target, hashes) out.0 acc).1 out.1.1)
        ≡ true
  group_step target hashes groups acc st out h settle covered =
      elim (Bool-cases (grouped h groups)) [
        | inl later ↦ rw later refl
        | inr now ↦ rw now (
            joined-is_covered target hashes acc.0 acc.1 st out out.0 h settle refl
              (ground (arith, now)))
      ]

  at_address :
      (addr : Option ℕ) (rest : Result (TaskError E) (List Text × List Hash) × (S × List Hash))
      (st : S × List Hash) (after : List Text × List Hash) (h : Hash)
      → (with_address blake3 net config game_id sink addr rest st).0 ≡ ok after
      → (rest.0 ≡ ok after → is_covered net config h after.1 rest.1.1 ≡ true)
      → is_covered net config h after.1
          (with_address blake3 net config game_id sink addr rest st).1.1
        ≡ true
  unfolding with_address
  at_address none rest st after h done later = cc
  at_address (some a) rest st after h done later = later done

  run_groups-is_covered :
      (ep : Endpoint) (groups : List Group) (acc after : List Text × List Hash) (st : S × List Hash)
      (h : Hash)
      → (run_groups blake3 net config game_id sink ep groups acc st).0 ≡ ok after
      → (grouped h groups || is_covered net config h acc.1 st.1) ≡ true
      → is_covered net config h after.1
          (run_groups blake3 net config game_id sink ep groups acc st).1.1
        ≡ true
  unfolding run_groups
  run_groups-is_covered ep [] acc after st h done covered =
      let same : acc ≡ after = ok_injective done in rw (← same) covered
  run_groups-is_covered ep ((target, hashes) ∷ groups) acc after st h done covered =
      let out = fetch_chunks blake3 (recording sink) ep target game_id hashes st in
      let acc' = joined net config (target, hashes) out.0 acc in
      let step =
        group_step target hashes groups acc st out h (settled ep target hashes st) covered in
      at_address target.addr (run_groups blake3 net config game_id sink ep groups acc' out.1) st
        after h done (λ done'. run_groups-is_covered ep groups acc' after out.1 h done' step)

  run_round-is_covered :
      (ep : Endpoint) (exclude : List Text) (placed : Result NetError (List Group × List Hash))
      (st : S × List Hash) (after : Bool × List Text × List Hash) (h : Hash)
      → (run_round blake3 net config game_id sink ep exclude placed st).0 ≡ ok after
      → ((out : List Group × List Hash)
          → placed ≡ ok out
          → (is_placed h out || contains h st.1) ≡ true)
      → is_covered net config h after.2
          (run_round blake3 net config game_id sink ep exclude placed st).1.1
        ≡ true
  unfolding run_round
  run_round-is_covered ep exclude (err e) st after h done found = cc
  run_round-is_covered ep exclude (ok ([], left)) st after h done found =
      let same : (false, exclude, left) ≡ after = ok_injective done in
      rw (← same) (found ([], left) refl)
  run_round-is_covered ep exclude (ok (g ∷ groups, left)) st after h done found =
      let (acc, run, same) =
        >>=-eq-ok (run_groups blake3 net config game_id sink ep (g ∷ groups) (exclude, left) st).0 _
          done in
      let same' : (true, acc.0, acc.1) ≡ after = ok_injective same in
      rw (← same') (
        run_groups-is_covered ep (g ∷ groups) (exclude, left) acc st h run
          (ground (arith, found (g ∷ groups, left) refl)))

  next_round-is_covered :
      (go_on : List Text
        → List Hash
        → (S × List Hash)
        → Result (TaskError E) (List Hash) × (S × List Hash))
      (out : Result (TaskError E) (Bool × List Text × List Hash) × (S × List Hash))
      (after : List Hash) (h : Hash)
      → (next_round blake3 net config game_id sink go_on out).0 ≡ ok after
      → ((now : Bool × List Text × List Hash)
          → out.0 ≡ ok now
          → is_covered net config h now.2 out.1.1 ≡ true)
      → ((exclude : List Text) (left : List Hash) (st : S × List Hash)
          → (go_on exclude left st).0 ≡ ok after
          → is_covered net config h left st.1 ≡ true
          → is_covered net config h after (go_on exclude left st).1.1 ≡ true)
      → is_covered net config h after (next_round blake3 net config game_id sink go_on out).1.1
        ≡ true
  unfolding next_round
  next_round-is_covered go_on (err e, st) after h done now later = cc
  next_round-is_covered go_on (ok (false, exclude, left), st) after h done now later =
      let same : left ≡ after = ok_injective done in rw (← same) (now (false, exclude, left) refl)
  next_round-is_covered go_on (ok (true, exclude, left), st) after h done now later =
      later exclude left st done (now (true, exclude, left) refl)

  pub rounds-is_covered :
      (eps : ℕ → Endpoint) (n r : ℕ) (exclude : List Text) (unresolved : List Hash)
      (st : S × List Hash) (after : List Hash) (h : Hash)
      → (rounds blake3 net config game_id sink eps n r exclude unresolved st).0 ≡ ok after
      → is_covered net config h unresolved st.1 ≡ true
      → is_covered net config h after
          (rounds blake3 net config game_id sink eps n r exclude unresolved st).1.1
        ≡ true
  unfolding rounds
  rounds-is_covered eps zero r exclude unresolved st after h done covered =
      let same : unresolved ≡ after = ok_injective done in rw (← same) covered
  rounds-is_covered eps (suc n) r exclude [] st after h done covered =
      let same : [] ≡ after = ok_injective done in rw (← same) covered
  rounds-is_covered eps (suc n) r exclude (x ∷ xs) st after h done covered =
      let placed = group_hashes net config r exclude (x ∷ xs) ([], []) in
      let now = run_round blake3 net config game_id sink (eps r) exclude placed st in
      next_round-is_covered (rounds blake3 net config game_id sink eps n (r + 1)) now after h done
        (λ a ran. run_round-is_covered (eps r) exclude placed st a h ran (λ out grouping.
          ground
            (arith, group_hashes-is_placed net config r exclude (x ∷ xs) ([], []) out h grouping)))
        (λ exclude' left' st' done' covered'.
          rounds-is_covered eps n (r + 1) exclude' left' st' after h done' covered')

  finish_retry-taken :
      (retry : List Hash) (st : S × List Hash)
      (out : Result (FetchError E) FetchStats × (S × List Hash)) (taken : List Hash) (h : Hash)
      → Settled blake3 (recording sink) (λ s. s.1) retry no_stats st out
      → (finish_retry blake3 net config game_id sink out).0 ≡ ok taken
      → is_covered net config h retry st.1 ≡ true
      → contains h taken ≡ true
  unfolding finish_retry
  finish_retry-taken retry st (err e, st') taken h settle done covered = cc
  finish_retry-taken retry st (ok stats, st') taken h settle done covered =
      elim (Bool-cases (length stats.failed == 0)) [
        | inl complete ↦
            let same : st'.1 ≡ taken = ok_injective (rw (finish_retry, complete) at done) in
            let none_failed = none_in stats.failed h complete in
            elim (Bool-cases (contains h retry)) [
              | inl asked ↦ elim (settle.every stats h refl asked) [
                | inl failed ↦ absurd (no_confusion (sym failed ∙ none_failed))
                | inr got ↦ rw (← same) got
              ]
              | inr other ↦ rw (← same) (settle.log_kept h (rw other at covered))
            ]
        | inr incomplete ↦ absurd (failed_download (rw (finish_retry, incomplete) at done))
      ]

  retry_origin-taken :
      (ep : Endpoint) (origin : Option PeerTarget) (retry : List Hash) (st : S × List Hash)
      (taken : List Hash) (h : Hash)
      → (retry_origin blake3 net config game_id sink ep origin retry st).0 ≡ ok taken
      → is_covered net config h retry st.1 ≡ true
      → contains h taken ≡ true
  unfolding retry_origin
  retry_origin-taken ep origin [] st taken h done covered =
      let same : st.1 ≡ taken = ok_injective done in rw (← same) covered
  retry_origin-taken ep none (x ∷ xs) st taken h done covered = cc
  retry_origin-taken ep (some target) (x ∷ xs) st taken h done covered =
      let retry = sort bytes_leb (to_set (x ∷ xs)) in
      finish_retry-taken retry st (fetch_chunks blake3 (recording sink) ep target game_id retry st)
        taken h (settled ep target retry st) done
        (ground (arith, contains-sort bytes_leb h (to_set (x ∷ xs)), contains-to_set h (x ∷ xs)))

  resolve-taken :
      (ep : Endpoint) (origin : Option PeerTarget) (assigned : List Hash)
      (out : Result (TaskError E) (List Hash) × (S × List Hash)) (taken : List Hash) (h : Hash)
      → (resolve blake3 net config game_id sink ep origin assigned out).0 ≡ ok taken
      → ((unresolved : List Hash)
          → out.0 ≡ ok unresolved
          → is_covered net config h unresolved out.1.1 ≡ true)
      → contains h taken ≡ true
  unfolding resolve
  resolve-taken ep origin assigned (err e, st) taken h done covered = cc
  resolve-taken ep origin assigned (ok unresolved, st) taken h done covered =
      let blocked = keep (λ g. not (contains g assigned)) unresolved in
      let retry = keep (λ g. contains g assigned) unresolved in
      elim (Bool-cases (length blocked == 0)) [
        | inl nothing ↦
            let none_blocked = none_in blocked h nothing in
            retry_origin-taken ep origin retry st taken h (rw (resolve, nothing) at done) (
              ground (
                arith,
                covered unresolved refl,
                none_blocked,
                contains-keep (λ g. not (contains g assigned)) h unresolved,
                contains-keep (λ g. contains g assigned) h unresolved,
              ))
        | inr some_blocked ↦ absurd (failed_download (rw (resolve, some_blocked) at done))
      ]

  download-taken :
      (missing assigned : List Hash) (origin : Result (TaskError E) (Option PeerTarget))
      (built : Result NetError (ℕ → Endpoint)) (s : S) (taken : List Hash) (h : Hash)
      → (download blake3 net config game_id sink missing assigned origin built s).0 ≡ ok taken
      → contains h missing ≡ true
      → contains h taken ≡ true
  unfolding download
  download-taken missing assigned (err e) built s taken h done wanted = cc
  download-taken missing assigned (ok origin) (err e) s taken h done wanted = cc
  download-taken missing assigned (ok origin) (ok eps) s taken h done wanted =
      resolve-taken (eps 2) origin assigned
        (rounds blake3 net config game_id sink eps 2 0 [] missing (s, [])) taken h done
        (λ unresolved ran.
          rounds-is_covered eps 2 0 [] missing (s, []) unresolved h ran (ground (arith, wanted)))

  -- Whatever the scheduler and the peers answer: if a download succeeds, it returns every hash that was
  -- missing, and each that it returns was taken by the sink.
  pub download_missing-taken :
      (missing assigned : List Hash) (s : S) (taken : List Hash) (h : Hash)
      → (download_missing blake3 net config game_id sink missing assigned s).0 ≡ ok taken
      → contains h missing ≡ true
      → contains h taken ≡ true
  unfolding download_missing
  download_missing-taken [] assigned s taken h done wanted = cc
  download_missing-taken (x ∷ xs) assigned s taken h done wanted =
      let asked : nat_beq (suc (length xs)) 0 ≡ false = ground arith in
      download-taken (x ∷ xs) assigned (origin_target net config) net.build_endpoint s taken h
        (rw (download_missing, asked) at done) wanted
