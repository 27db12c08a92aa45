-- ===== src/Executor/Groups.antt =====
-- No hash is lost between the groups, the unresolved hashes and the sink of agent/src/executor.rs.
use blaze_net.Common.{
  Bool-cases, ◌==◌, bytes_beq_iff, bytes_eq, nat_eq, Result, ok, err, >>=-eq-ok, ok_injective,
  contains-append, contains, ℕ, ◌≡◌, sym, ap, inl, inr, Bool, true, false, ◌||◌, Option, none, some,
  List, [], ◌∷◌, arith,
}
use blaze_net.Manifest.Defs.{Hash, Blake3}
use blaze_net.Scheduler.Db.Records.{Text}
use blaze_net.Transfer.Fetch.{PeerTarget}
use blaze_net.Transfer.Settled.{Logs}
use blaze_net.Executor.Defs.{
  Network, Config, Group, same_key, add_hash, choose, place, group_hashes, noted, recording,
}

abbrev pub grouped : Hash → List Group → Bool
grouped h [] = false
grouped h ((target, hashes) ∷ groups) = contains h hashes || grouped h groups

grouped-add_hash :
    (target : PeerTarget) (hash h : Hash) (groups : List Group)
    → grouped h (add_hash target hash groups) ≡ (hash == h || grouped h groups)
unfolding add_hash
grouped-add_hash target hash h [] = ground arith
grouped-add_hash target hash h ((t, hashes) ∷ groups) = elim (Bool-cases (same_key t target)) [
  | inl same ↦ rw (add_hash, same) (ground (arith, contains-append h hashes (hash ∷ [])))
  | inr other ↦ rw (add_hash, other) (ground (arith, grouped-add_hash target hash h groups))
]

-- A hash is in a group or left over.
abbrev pub is_placed : Hash → List Group × List Hash → Bool
is_placed h (groups, left) = grouped h groups || contains h left

module _ (net : Network) (config : Config) where
  is_placed-place :
      (found : Option PeerTarget) (hash h : Hash) (out : List Group × List Hash)
      → is_placed h (place net config found hash out) ≡ (hash == h || is_placed h out)
  unfolding place
  is_placed-place none hash h (groups, left) = ground (arith, contains-append h left (hash ∷ []))
  is_placed-place (some target) hash h (groups, left) =
      ground (arith, grouped-add_hash target hash h groups)

  pub group_hashes-is_placed :
      (round : ℕ) (exclude : List Text) (hashes : List Hash) (out after : List Group × List Hash)
      (h : Hash)
      → group_hashes net config round exclude hashes out ≡ ok after
      → is_placed h after ≡ (contains h hashes || is_placed h out)
  unfolding group_hashes
  group_hashes-is_placed round exclude [] out after h done =
      let same : out ≡ after = ok_injective done in ap (is_placed h) (sym same)
  group_hashes-is_placed round exclude (hash ∷ hashes) out after h done =
      let (peers, asked, rest) = >>=-eq-ok (net.query_peers round hash) _ done in
      let placed = place net config (choose net config exclude peers hash) hash out in
      ground (
        arith,
        group_hashes-is_placed round exclude hashes placed after h rest,
        is_placed-place (choose net config exclude peers hash) hash h out,
      )

  -- A hash is left over or was taken.
  abbrev pub is_covered : Hash → List Hash → List Hash → Bool
  is_covered h left log = contains h left || contains h log

noted-own :
    {E : Type 0} (done : Result E (Unit {0})) (h : Hash) (log : List Hash)
    → done ≡ ok tt
    → contains h (noted done h log) ≡ true
unfolding noted
noted-own (ok u) h log e = ground (arith, contains-append h log (h ∷ []), bytes_beq_iff h h)
noted-own (err x) h log e = cc

noted-kept :
    {E : Type 0} (done : Result E (Unit {0})) (h g : Hash) (log : List Hash)
    → contains g log ≡ true
    → contains g (noted done h log) ≡ true
unfolding noted
noted-kept (ok u) h g log inside = ground (arith, contains-append g log (h ∷ []))
noted-kept (err x) h g log inside = inside

module _ (blake3 : Blake3) {S E : Type 0} (sink : Hash → List ℕ → S → Result E (Unit {0}) × S) where
  pub recording-Logs : Logs blake3 (recording sink) (λ st. st.1)
  unfolding recording
  recording-Logs = record {
    added = λ h bytes st done. noted-own (sink h bytes st.0).0 h st.1 done;
    kept = λ h g bytes st inside. noted-kept (sink h bytes st.0).0 h g st.1 inside;
  }
