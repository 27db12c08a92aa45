-- ===== src/Executor/Blocked.antt =====
-- A download of agent/src/executor.rs while no peer has anything.
use blaze_net.Common.{
  nat_beq, if◌then◌else◌, ◌==◌, bytes_eq, nat_eq, Result, ok, err, keep, contains-keep, length,
  contains, ℕ, suc, ◌≡◌, refl, sym, ap, ◌∙◌, true, false, not, Option, none, List, [], ◌∷◌, ◌++◌,
  append-nil, append_assoc, arith,
}
use blaze_net.Manifest.Defs.{Hash, Blake3}
use blaze_net.Scheduler.Db.Records.{Text}
use blaze_net.Transfer.Fetch.{PeerTarget, Endpoint}
use blaze_net.Executor.Defs.{
  no_origin, waiting_for_others, Network, Config, is_some, nth, candidates, choose, place,
  group_hashes, origin_target,
}
use blaze_net.Executor.Rounds.{run_round, next_round, rounds, resolve, download, download_missing}

nonempty : (xs : List Hash) (h : Hash) → contains h xs ≡ true → length xs == 0 ≡ false
nonempty [] h inside = cc
nonempty (x ∷ xs) h inside = ground arith

module _ (blake3 : Blake3) (net : Network) (config : Config) (game_id : ℕ) {S E : Type 0}
    (sink : Hash → List ℕ → S → Result E (Unit {0}) × S) where
  -- The scheduler knows no peer for any chunk.
  abbrev pub NoPeers : Type 0
  NoPeers = (round : ℕ) (hash : Hash) → net.query_peers round hash ≡ ok []

  choose-nobody : (exclude : List Text) (hash : Hash) → choose net config exclude [] hash ≡ none
  unfolding choose candidates nth keep
  choose-nobody exclude hash = refl

  group_hashes-nobody :
      (round : ℕ) (exclude : List Text) (hashes left : List Hash)
      → NoPeers
      → group_hashes net config round exclude hashes ([], left) ≡ ok ([], left ++ hashes)
  unfolding group_hashes place
  group_hashes-nobody round exclude [] left nobody = ap (λ t. ok ([], t)) (sym (append-nil left))
  group_hashes-nobody round exclude (hash ∷ hashes) left nobody =
      rw (group_hashes, nobody round hash, choose-nobody exclude hash)
        (group_hashes-nobody round exclude hashes (left ++ hash ∷ []) nobody
          ∙ ap (λ t. ok ([], t)) (append_assoc left (hash ∷ []) hashes))

  rounds-nobody :
      (eps : ℕ → Endpoint) (x : Hash) (xs : List Hash) (st : S × List Hash)
      → NoPeers
      → rounds blake3 net config game_id sink eps 2 0 [] (x ∷ xs) st ≡ (ok (x ∷ xs), st)
  unfolding rounds run_round next_round
  rounds-nobody eps x xs st nobody = rw (rounds, group_hashes-nobody 0 [] (x ∷ xs) [] nobody) refl

  some_blocked :
      (missing assigned : List Hash) (h : Hash)
      → contains h missing ≡ true
      → contains h assigned ≡ false
      → length (keep (λ g. not (contains g assigned)) missing) == 0 ≡ false
  some_blocked missing assigned h wanted foreign =
      nonempty (keep (λ g. not (contains g assigned)) missing) h
        (ground (arith, contains-keep (λ g. not (contains g assigned)) h missing))

  -- No peer is known for any chunk, and one missing chunk is not in the share of this node. Then the
  -- download fails before it has fetched anything, whatever the share and the origin: the chunks of the
  -- node's own share are not fetched from the origin either.
  pub download_missing-blocked :
      (missing assigned : List Hash) (s : S) (h : Hash) (origin : Option PeerTarget)
      (eps : ℕ → Endpoint)
      → NoPeers
      → origin_target net config {E = E} ≡ ok origin
      → net.build_endpoint ≡ ok eps
      → contains h missing ≡ true
      → contains h assigned ≡ false
      → download_missing blake3 net config game_id sink missing assigned s
        ≡ (err (if is_some origin then waiting_for_others else no_origin), (s, []))
  unfolding download_missing download resolve
  download_missing-blocked [] assigned s h origin eps nobody parsed built wanted foreign = cc
  download_missing-blocked (x ∷ xs) assigned s h origin eps nobody parsed built wanted foreign =
      let asked : nat_beq (suc (length xs)) 0 ≡ false = ground arith in
      rw
        (
          download_missing,
          asked,
          parsed,
          built,
          download,
          rounds-nobody eps x xs (s, []) nobody,
          resolve,
          some_blocked (x ∷ xs) assigned h wanted foreign,
        )
        refl
