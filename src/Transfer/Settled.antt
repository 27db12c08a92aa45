-- ===== src/Transfer/Settled.antt =====
-- How `fetch_chunks` of agent/src/fetch.rs accounts for the hashes that it was given.
use blaze_net.Common.{
  nat_beq, Bool-cases, ◌==◌, bytes_beq_iff, bytes_eq, nat_eq, Result, ok, err, ok_injective,
  contains-append, length, length-append, contains, ℕ, suc, ◌+◌, ◌≡◌, ◌⊎◌, inl, inr, true, false,
  List, [], ◌∷◌, arith,
}
use blaze_net.Manifest.Defs.{Hash, Blake3}
use blaze_net.Transfer.Frames.{NetError}
use blaze_net.Transfer.Fetch.{
  Conn, PeerTarget, Endpoint, FetchStats, no_stats, FetchError, net, sink_error, connect_peer,
  request_bytes, Turn, missed_stats, got_stats, fetch_one, after_turn, fetch_loop, fetch_connected,
  fetch_chunks,
}
use blaze_net.Transfer.Turns.{Took, took_nothing, took_end, took_bytes, took_error, fetch_one-Took}

module _ (blake3 : Blake3) {S E : Type 0} (sink : Hash → List ℕ → S → Result E (Unit {0}) × S)
    (log : S → List Hash) where
  -- The state of the sink has a list of hashes that only grows, and has each hash whose bytes the sink
  -- has taken.
  pub record Logs : Type 0 where
    pub added :
        (h : Hash) (bytes : List ℕ) (s : S)
        → (sink h bytes s).0 ≡ ok tt
        → contains h (log (sink h bytes s).1) ≡ true
    pub kept :
        (h g : Hash) (bytes : List ℕ) (s : S)
        → contains g (log s) ≡ true
        → contains g (log (sink h bytes s).1) ≡ true

  -- The result of a loop over some hashes: each is handed to the sink or counted as failed.
  pub record Settled (hashes : List Hash) (stats : FetchStats) (s : S)
      (out : Result (FetchError E) FetchStats × S) : Type 0 where
    pub every :
        (after : FetchStats) (h : Hash)
        → out.0 ≡ ok after
        → contains h hashes ≡ true
        → (contains h after.failed ≡ true) ⊎ (contains h (log out.1) ≡ true)
    pub failed_kept :
        (after : FetchStats) (h : Hash)
        → out.0 ≡ ok after
        → contains h stats.failed ≡ true
        → contains h after.failed ≡ true
    pub log_kept : (h : Hash) → contains h (log s) ≡ true → contains h (log out.1) ≡ true
    pub count :
        (after : FetchStats)
        → out.0 ≡ ok after
        → after.downloaded + length after.failed
          ≡ stats.downloaded + length stats.failed + length hashes

  Settled-none : (stats : FetchStats) (s : S) → Settled [] stats s (ok stats, s)
  Settled-none stats s = record {
    every = λ after h e inside. cc;
    failed_kept =
        λ after h e inside. let same : stats ≡ after = ok_injective e in rw (← same) inside;
    log_kept = λ h inside. inside;
    count = λ after e. let same : stats ≡ after = ok_injective e in rw (← same) (omega arith);
  }

  Settled-err :
      (hashes : List Hash) (stats : FetchStats) (s s' : S) (e : FetchError E)
      → ((h : Hash) → contains h (log s) ≡ true → contains h (log s') ≡ true)
      → Settled hashes stats s (err e, s')
  Settled-err hashes stats s s' e kept = record {
    every = λ after h e inside. cc;
    failed_kept = λ after h e inside. cc;
    log_kept = kept;
    count = λ after e. cc;
  }

  Settled-missed :
      (hash : Hash) (hashes : List Hash) (stats : FetchStats) (s : S)
      (out : Result (FetchError E) FetchStats × S)
      → Settled hashes (missed_stats hash stats) s out
      → Settled (hash ∷ hashes) stats s out
  Settled-missed hash hashes stats s out later = record {
    every = λ after h e inside. elim (Bool-cases (hash == h)) [
      | inl here ↦ inl (
          later.failed_kept after h e
            (ground (arith, contains-append h stats.failed (hash ∷ []), here)))
      | inr there ↦ later.every after h e (rw there at inside)
    ];
    failed_kept = λ after h e inside.
        later.failed_kept after h e
          (ground (arith, contains-append h stats.failed (hash ∷ []), inside));
    log_kept = later.log_kept;
    count = λ after e. omega (arith, later.count after e, length-append stats.failed (hash ∷ []));
  }

  Settled-stored :
      (hash : Hash) (hashes : List Hash) (len : ℕ) (stats : FetchStats) (s s' : S)
      (out : Result (FetchError E) FetchStats × S)
      → contains hash (log s') ≡ true
      → ((h : Hash) → contains h (log s) ≡ true → contains h (log s') ≡ true)
      → Settled hashes (got_stats len stats) s' out
      → Settled (hash ∷ hashes) stats s out
  Settled-stored hash hashes len stats s s' out own kept later = record {
    every = λ after h e inside. elim (Bool-cases (hash == h)) [
      | inl here ↦ inr (later.log_kept h (rw (← (bytes_beq_iff hash h).0 here) own))
      | inr there ↦ later.every after h e (rw there at inside)
    ];
    failed_kept = λ after h e inside. later.failed_kept after h e inside;
    log_kept = λ h inside. later.log_kept h (kept h inside);
    count = λ after e. omega (arith, later.count after e);
  }

  after_turn-Settled :
      (go_on : List ℕ → FetchStats → S → Result (FetchError E) FetchStats × S) (hash : Hash)
      (hashes : List Hash) (stats : FetchStats) (s : S) (out : Turn E × S)
      → Logs
      → Took blake3 sink hash s out
      → ((rest : List ℕ) (stats : FetchStats) (s : S) → Settled hashes stats s (go_on rest stats s))
      → Settled (hash ∷ hashes) stats s (after_turn blake3 sink go_on hash stats out)
  unfolding after_turn
  after_turn-Settled go_on hash hashes stats s out l (took_nothing rest) later =
      Settled-missed hash hashes stats s _ (later rest _ s)
  after_turn-Settled go_on hash hashes stats s out l (took_end e) later =
      Settled-err (hash ∷ hashes) stats s s (net e) (λ h inside. inside)
  after_turn-Settled go_on hash hashes stats s out l (took_bytes len bytes rest same done) later =
      Settled-stored hash hashes len stats s (sink hash bytes s).1 _ (l.added hash bytes s done)
        (λ h inside. l.kept hash h bytes s inside) (later rest _ (sink hash bytes s).1)
  after_turn-Settled go_on hash hashes stats s out l (took_error e bytes same failed) later =
      Settled-err (hash ∷ hashes) stats s (sink hash bytes s).1 (sink_error e)
        (λ h inside. l.kept hash h bytes s inside)

  pub fetch_loop-Settled :
      (hashes : List Hash) (rest : List ℕ) (stats : FetchStats) (s : S)
      → Logs
      → Settled hashes stats s (fetch_loop blake3 sink hashes rest stats s)
  unfolding fetch_loop
  fetch_loop-Settled [] rest stats s l = Settled-none stats s
  fetch_loop-Settled (hash ∷ hashes) rest stats s l =
      after_turn-Settled (fetch_loop blake3 sink hashes) hash hashes stats s
        (fetch_one blake3 sink hash rest s) l (fetch_one-Took blake3 sink hash rest s)
        (λ rest' stats' s'. fetch_loop-Settled hashes rest' stats' s' l)

  fetch_connected-Settled :
      (game_id : ℕ) (hashes : List Hash) (s : S) (conn : Result NetError Conn)
      → Logs
      → Settled hashes no_stats s (fetch_connected blake3 sink game_id hashes s conn)
  unfolding fetch_connected
  fetch_connected-Settled game_id hashes s (err e) l =
      Settled-err hashes no_stats s s (net e) (λ h inside. inside)
  fetch_connected-Settled game_id hashes s (ok conn) l =
      fetch_loop-Settled hashes (conn (request_bytes game_id hashes)) no_stats s l

  -- The sink keeps a list of what it has taken. Whatever the peer answers, if the call succeeds then
  -- every hash of the request is among the failed ones or in the list, as many were counted as were
  -- asked for, and in any case the list has lost nothing.
  pub fetch_chunks-Settled :
      (ep : Endpoint) (target : PeerTarget) (game_id : ℕ) (hashes : List Hash) (s : S)
      → Logs
      → Settled hashes no_stats s (fetch_chunks blake3 sink ep target game_id hashes s)
  unfolding fetch_chunks
  fetch_chunks-Settled ep target game_id [] s l = Settled-none no_stats s
  fetch_chunks-Settled ep target game_id (hash ∷ hashes) s l =
      let asked : nat_beq (suc (length hashes)) 0 ≡ false = ground arith in
      rw (fetch_chunks, asked)
        (fetch_connected-Settled game_id (hash ∷ hashes) s (connect_peer ep target) l)
