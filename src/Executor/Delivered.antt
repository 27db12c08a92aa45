-- ===== src/Executor/Delivered.antt =====
-- Every missing chunk of a download of agent/src/executor.rs that succeeds is in the sink.
use blaze_net.Common.{
  nat_beq, Bool-cases, ◌==◌, bytes_beq_iff, bytes_eq, nat_eq, Result, ok, err, ok_injective, to_set,
  keep, sort, bytes_leb, contains-append, length, contains, ℕ, suc, ◌≡◌, refl, inl, inr, true,
  false, not, Option, none, some, List, [], ◌∷◌, arith,
}
use blaze_net.Manifest.Defs.{Hash, Blake3}
use blaze_net.Transfer.Frames.{NetError}
use blaze_net.Transfer.Fetch.{PeerTarget, Endpoint, FetchStats, FetchError, fetch_chunks}
use blaze_net.Executor.Defs.{TaskError, Network, Config, origin_target, noted, recording}
use blaze_net.Executor.Rounds.{
  rounds, finish_retry, retry_origin, resolve, download, download_missing,
}
use blaze_net.Executor.Complete.{failed_download, download_missing-taken}
use blaze_net.Executor.Kept.{download_missing-Good}

module _ (blake3 : Blake3) (net : Network) (config : Config) (game_id : ℕ) {S E : Type 0}
    (sink : Hash → List ℕ → S → Result E (Unit {0}) × S) where
  finish_retry-log :
      (out : Result (FetchError E) FetchStats × (S × List Hash)) (taken : List Hash)
      → (finish_retry blake3 net config game_id sink out).0 ≡ ok taken
      → (finish_retry blake3 net config game_id sink out).1.1 ≡ taken
  unfolding finish_retry
  finish_retry-log (err e, st) taken done = cc
  finish_retry-log (ok stats, st) taken done = elim (Bool-cases (length stats.failed == 0)) [
    | inl complete ↦
        rw (finish_retry, complete) (ok_injective (rw (finish_retry, complete) at done))
    | inr incomplete ↦
        absurd
          (failed_download blake3 net config game_id sink (rw (finish_retry, incomplete) at done))
  ]

  retry_origin-log :
      (ep : Endpoint) (origin : Option PeerTarget) (retry : List Hash) (st : S × List Hash)
      (taken : List Hash)
      → (retry_origin blake3 net config game_id sink ep origin retry st).0 ≡ ok taken
      → (retry_origin blake3 net config game_id sink ep origin retry st).1.1 ≡ taken
  unfolding retry_origin
  retry_origin-log ep origin [] st taken done = ok_injective done
  retry_origin-log ep none (x ∷ xs) st taken done = cc
  retry_origin-log ep (some target) (x ∷ xs) st taken done =
      finish_retry-log
        (fetch_chunks blake3 (recording sink) ep target game_id (sort bytes_leb (to_set (x ∷ xs)))
          st)
        taken done

  resolve-log :
      (ep : Endpoint) (origin : Option PeerTarget) (assigned : List Hash)
      (out : Result (TaskError E) (List Hash) × (S × List Hash)) (taken : List Hash)
      → (resolve blake3 net config game_id sink ep origin assigned out).0 ≡ ok taken
      → (resolve blake3 net config game_id sink ep origin assigned out).1.1 ≡ taken
  unfolding resolve
  resolve-log ep origin assigned (err e, st) taken done = cc
  resolve-log ep origin assigned (ok unresolved, st) taken done =
      elim (Bool-cases (length (keep (λ h. not (contains h assigned)) unresolved) == 0)) [
        | inl nothing ↦
            rw (resolve, nothing)
              (retry_origin-log ep origin (keep (λ h. contains h assigned) unresolved) st taken
                (rw (resolve, nothing) at done))
        | inr blocked ↦
            absurd (failed_download blake3 net config game_id sink (rw (resolve, blocked) at done))
      ]

  download-log :
      (missing assigned : List Hash) (origin : Result (TaskError E) (Option PeerTarget))
      (built : Result NetError (ℕ → Endpoint)) (s : S) (taken : List Hash)
      → (download blake3 net config game_id sink missing assigned origin built s).0 ≡ ok taken
      → (download blake3 net config game_id sink missing assigned origin built s).1.1 ≡ taken
  unfolding download
  download-log missing assigned (err e) built s taken done = cc
  download-log missing assigned (ok origin) (err e) s taken done = cc
  download-log missing assigned (ok origin) (ok eps) s taken done =
      resolve-log (eps 2) origin assigned
        (rounds blake3 net config game_id sink eps 2 0 [] missing (s, [])) taken done

  download_missing-log :
      (missing assigned : List Hash) (s : S) (taken : List Hash)
      → (download_missing blake3 net config game_id sink missing assigned s).0 ≡ ok taken
      → (download_missing blake3 net config game_id sink missing assigned s).1.1 ≡ taken
  unfolding download_missing
  download_missing-log [] assigned s taken done = ok_injective done
  download_missing-log (x ∷ xs) assigned s taken done =
      let asked : nat_beq (suc (length xs)) 0 ≡ false = ground arith in
      rw (download_missing, asked)
        (download-log (x ∷ xs) assigned (origin_target net config) net.build_endpoint s taken
          (rw (download_missing, asked) at done))

  -- A sink that holds what it has taken: bytes of the right digest are held when the call succeeds, and
  -- what is held stays held.
  pub record Holding (Held : Hash → S → Type 0) : Type 0 where
    pub added :
        (h : Hash) (bytes : List ℕ) (s : S)
        → blake3.digest bytes ≡ h
        → (sink h bytes s).0 ≡ ok tt
        → Held h (sink h bytes s).1
    pub kept :
        (h g : Hash) (bytes : List ℕ) (s : S)
        → blake3.digest bytes ≡ h
        → Held g s
        → Held g (sink h bytes s).1

  -- All noted hashes are held.
  abbrev AllHeld : (Hash → S → Type 0) → S × List Hash → Type 0
  AllHeld Held st = (h : Hash) → contains h st.1 ≡ true → Held h st.0

  noted-Held :
      (Held : Hash → S → Type 0) (h g : Hash) (bytes : List ℕ) (s : S) (log : List Hash)
      (done : Result E (Unit {0}))
      → Holding Held
      → blake3.digest bytes ≡ h
      → (sink h bytes s).0 ≡ done
      → AllHeld Held (s, log)
      → contains g (noted done h log) ≡ true
      → Held g (sink h bytes s).1
  unfolding noted
  noted-Held Held h g bytes s log (err e) holding same called all inside =
      holding.kept h g bytes s same (all g inside)
  noted-Held Held h g bytes s log (ok u) holding same called all inside =
      elim (Bool-cases (contains g log)) [
        | inl old ↦ holding.kept h g bytes s same (all g old)
        | inr new ↦
            let own : h == g ≡ true = ground (arith, contains-append g log (h ∷ [])) in
            rw (← (bytes_beq_iff h g).0 own) (holding.added h bytes s same called)
      ]

  recording-AllHeld :
      (Held : Hash → S → Type 0) (h : Hash) (bytes : List ℕ) (st : S × List Hash)
      → Holding Held
      → blake3.digest bytes ≡ h
      → AllHeld Held st
      → AllHeld Held (recording sink h bytes st).1
  unfolding recording
  recording-AllHeld Held h bytes st holding same all g inside =
      noted-Held Held h g bytes st.0 st.1 (sink h bytes st.0).0 holding same refl all inside

  -- The sink holds what it has taken. Whatever the scheduler and the peers answer, if a download
  -- succeeds, every chunk that was missing is held afterwards.
  pub download_missing-Held :
      (Held : Hash → S → Type 0) (missing assigned : List Hash) (s : S) (taken : List Hash)
      → Holding Held
      → (download_missing blake3 net config game_id sink missing assigned s).0 ≡ ok taken
      → (h : Hash) → contains h missing ≡ true
      → Held h (download_missing blake3 net config game_id sink missing assigned s).1.0
  download_missing-Held Held missing assigned s taken holding done h wanted =
      let all =
        download_missing-Good blake3 net config game_id sink (AllHeld Held) missing assigned s
          (λ g bytes st same good. recording-AllHeld Held g bytes st holding same good)
          (λ g inside. cc) in
      let got =
        download_missing-taken blake3 net config game_id sink missing assigned s taken h done
          wanted in
      all h (rw (download_missing-log missing assigned s taken done) got)
