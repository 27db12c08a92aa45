-- ===== src/Executor/Defs.antt =====
-- `download_missing` of agent/src/executor.rs. The answers of the scheduler and the network may change
-- from one round to the next; the groups of a round are fetched one after the other.
use blaze_net.Common.{
  if◌then◌else◌, ◌==◌, bytes_eq, nat_eq, Result, ok, err, ◌>>=◌, keep, length, contains, ℕ, zero,
  suc, ◌%◌, Bool, true, false, not, ◌&&◌, Option, none, some, List, [], ◌∷◌, ◌++◌,
}
use blaze_net.Manifest.Defs.{Hash}
use blaze_net.Scheduler.Db.Records.{Text}
use blaze_net.Scheduler.Control.Types.{Peer}
use blaze_net.Transfer.Frames.{NetError}
use blaze_net.Transfer.Fetch.{PeerTarget, Endpoint, FetchStats, FetchError}

pub data TaskError (E : Type 0) : Type 0 where
  task_net : NetError → TaskError E
  fetch_failed : FetchError E → TaskError E
  bad_origin no_direct_addr no_origin waiting_for_others chunks_failed : TaskError E

-- What the executor calls: the scheduler and the endpoint in each round, and how the crate iroh reads
-- and writes its ids and addresses.
pub record Network : Type 0 where
  pub query_peers : ℕ → Hash → Result NetError (List Peer)
  pub build_endpoint : Result NetError (ℕ → Endpoint)
  pub parse_endpoint : Text → Option ℕ
  pub show_endpoint : ℕ → Text
  pub parse_addr : Text → Option ℕ

pub record Config : Type 0 where
  pub origin_endpoint : Option Text
  pub origin_addr : Option Text
  pub relay_url : Option Text

abbrev pub Group : Type 0
Group = PeerTarget × List Hash

unfoldable pub is_some : {A : Type 0} → Option A → Bool
is_some none = false
is_some (some a) = true

unfoldable pub nth : {A : Type 0} → ℕ → List A → Option A
nth n [] = none
nth zero (x ∷ xs) = some x
nth (suc n) (x ∷ xs) = nth n xs

-- `hash[0]`
unfoldable pub first_byte : Hash → ℕ
first_byte [] = 0
first_byte (b ∷ bs) = b

unfoldable pub same_key : PeerTarget → PeerTarget → Bool
same_key t u = elim t.addr [
  | none ↦ elim u.addr [
    | none ↦
        t.endpoint_id == u.endpoint_id
        && (if t.direct_only then u.direct_only else not u.direct_only)
    | some b ↦ false
  ]
  | some a ↦ elim u.addr [
    | none ↦ false
    | some b ↦
        t.endpoint_id == u.endpoint_id
        && a == b
        && (if t.direct_only then u.direct_only else not u.direct_only)
  ]
]

-- The hash joins the group of its target, or starts one at the end.
unfoldable pub add_hash : PeerTarget → Hash → List Group → List Group
unfolding same_key
add_hash target hash [] = (target, hash ∷ []) ∷ []
add_hash target hash ((t, hashes) ∷ groups) =
    let rest = add_hash target hash groups in
    if same_key t target then (t, hashes ++ hash ∷ []) ∷ groups else (t, hashes) ∷ rest

module _ (net : Network) (config : Config) where
  -- The peers that may be asked.
  unfoldable pub candidates : List Text → List Peer → List Peer
  unfolding is_some
  candidates exclude peers =
      keep (λ p. is_some (net.parse_endpoint p.endpoint_id))
        (keep (λ p. not (length p.addrs == 0) && not (contains p.endpoint_id exclude)) peers)

  unfoldable pub target_of : Hash → Peer → Option PeerTarget
  unfolding nth first_byte
  target_of hash p = elim (net.parse_endpoint p.endpoint_id) [
    | none ↦ none
    | some id ↦ some (record {
      endpoint_id = id;
      addr = elim (nth (first_byte hash % length p.addrs) p.addrs) [
        | none ↦ none
        | some a ↦ net.parse_addr a.addr
      ];
      relay_url = config.relay_url;
      direct_only = p.direct_only;
    })
  ]

  -- The source of a hash among the answers of the scheduler.
  unfoldable pub choose : List Text → List Peer → Hash → Option PeerTarget
  unfolding candidates target_of
  choose exclude peers hash =
      let found = candidates exclude peers in
      elim (nth (first_byte hash % length found) found) [ none ↦ none | some p ↦ target_of hash p ]

  unfoldable pub place : Option PeerTarget → Hash → List Group × List Hash → List Group × List Hash
  unfolding add_hash
  place none hash (groups, left) = (groups, left ++ hash ∷ [])
  place (some target) hash (groups, left) = (add_hash target hash groups, left)

  -- The loop over the unresolved hashes of a round.
  unfoldable pub group_hashes :
      ℕ → List Text → List Hash → List Group × List Hash → Result NetError (List Group × List Hash)
  unfolding choose place
  group_hashes round exclude [] out = ok out
  group_hashes round exclude (hash ∷ hashes) out = do
    peers ← net.query_peers round hash
    group_hashes round exclude hashes (place (choose exclude peers hash) hash out)

  -- What a group leaves: the excluded sources and the hashes for the next round.
  unfoldable pub joined :
      {E : Type 0}
      → Group
      → Result (FetchError E) FetchStats
      → List Text × List Hash
      → List Text × List Hash
  joined (target, hashes) (ok stats) (exclude, left) = (exclude, left ++ stats.failed)
  joined (target, hashes) (err e) (exclude, left) =
      (net.show_endpoint target.endpoint_id ∷ exclude, left ++ hashes)

  unfoldable pub origin_target : {E : Type 0} → Result (TaskError E) (Option PeerTarget)
  origin_target = elim config.origin_endpoint [
    | none ↦ ok none
    | some endpoint ↦ elim config.origin_addr [
      | none ↦ ok none
      | some addr ↦ elim (net.parse_endpoint endpoint) [
        | none ↦ err bad_origin
        | some id ↦ elim (net.parse_addr addr) [
          | none ↦ err bad_origin
          | some a ↦ ok (
              some (record {
                endpoint_id = id;
                addr = some a;
                relay_url = config.relay_url;
                direct_only = false;
              }))
        ]
      ]
    ]
  ]

-- The sink of a download, which also notes each hash that it has taken.
unfoldable pub noted : {E : Type 0} → Result E (Unit {0}) → Hash → List Hash → List Hash
noted (ok u) hash log = log ++ hash ∷ []
noted (err e) hash log = log

unfoldable pub recording :
    {S E : Type 0}
    → (Hash → List ℕ → S → Result E (Unit {0}) × S)
    → Hash
    → List ℕ
    → S × List Hash
    → Result E (Unit {0}) × (S × List Hash)
unfolding noted
recording sink hash bytes st =
    let (done, s) = sink hash bytes st.0 in (done, (s, noted done hash st.1))
