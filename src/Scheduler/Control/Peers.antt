-- ===== src/Scheduler/Control/Peers.antt =====
-- The peers that `query_peers` of scheduler/src/server.rs names.
use blaze_net.Common.{
  if◌then◌else◌, Bool-cases, beq_refl, ◌==◌, bytes_beq_iff, bytes_eq, nat_eq, Result, ok,
  ok_injective, err, >>=-eq-ok, keep, length, take, All, contains, ℕ, suc, ◌≡◌, refl, ap, inl, inr,
  Bool, true, false, not, Option, none, some, List, [], ◌∷◌, arith,
}
use mathlib.Core.Path.{subst}
use blaze_net.Scheduler.Db.Records.{NodeRecord, Backend, Db, DbError}
use blaze_net.Scheduler.Db.Tables.{get_node, chunk_holders}
use blaze_net.Scheduler.Control.Defs.{or_internal, ControlService, peers_of, query_peers}
use blaze_net.Scheduler.Control.Types.{Peer, online, cafe}

or_internal-ok : {A : Type 0} (m : Result DbError A) {a : A} → or_internal m ≡ ok a → m ≡ ok a
unfolding or_internal
or_internal-ok (ok a) h = cc
or_internal-ok (err e) h = cc

module _ (b : Backend) where
  -- An online node of the store, seen as a peer.
  pub record IsOnlinePeer (db : Db b) (holders : List ℕ) (p : Peer) : Type 0 where
    pub id : ℕ
    pub node : NodeRecord
    pub held : contains id holders ≡ true
    pub stored : get_node b id db ≡ ok (some node)
    pub is_online : node.status ≡ online
    pub view : p ≡ record {
      node_id = node.id;
      endpoint_id = node.endpoint_id;
      addrs = node.addrs;
      direct_only = node.node_type == cafe;
    }

  widen :
      (db : Db b) (id : ℕ) (ids : List ℕ) (peers : List Peer)
      → All (IsOnlinePeer db ids) peers
      → All (IsOnlinePeer db (id ∷ ids)) peers
  widen db id ids [] h = tt
  widen db id ids (p ∷ ps) (here, later) = (
    record {
      id = here.id;
      node = here.node;
      held = ground (arith, here.held);
      stored = here.stored;
      is_online = here.is_online;
      view = here.view;
    },
    widen db id ids ps later,
  )

  -- The node is in the store and online.
  unfoldable pub is_up : Db b → ℕ → Bool
  is_up db id = elim (get_node b id db) [
    | err e ↦ false
    | ok found ↦ elim found [ none ↦ false | some node ↦ node.status == online ]
  ]

  -- The peers are online nodes of some holders, as many as these holders have.
  abbrev pub IsAnswer : Db b → List ℕ → List Peer → Type 0
  IsAnswer db ids peers =
      All (IsOnlinePeer db ids) peers × (length peers ≡ length (keep (is_up db) ids))

  step-IsAnswer :
      (db : Db b) (id : ℕ) (ids : List ℕ) (found : Option NodeRecord) (more : List Peer)
      → get_node b id db ≡ ok found
      → IsAnswer db ids more
      → IsAnswer db (id ∷ ids) (elim found [
        | none ↦ more
        | some node ↦
            if not (node.status == online)
            then more
            else record {
              node_id = node.id;
              endpoint_id = node.endpoint_id;
              addrs = node.addrs;
              direct_only = node.node_type == cafe;
            }
              ∷ more
      ])
  unfolding is_up keep
  step-IsAnswer db id ids none more e (all, few) =
      let down : is_up db id ≡ false = rw (is_up, e) refl in (widen db id ids more all, rw down few)
  step-IsAnswer db id ids (some node) more e (all, few) =
      let same : is_up db id ≡ (node.status == online) = rw (is_up, e) refl in
      elim (Bool-cases (node.status == online)) [
        | inl on ↦
            rw (same, on)
              (
                (
                  record {
                    id = id;
                    node = node;
                    held = ground (arith, beq_refl id);
                    stored = e;
                    is_online = (bytes_beq_iff node.status online).0 on;
                    view = refl;
                  },
                  widen db id ids more all,
                ),
                ap suc few,
              )
        | inr off ↦ rw (same, off) (widen db id ids more all, few)
      ]

  peers_of-IsAnswer :
      (db : Db b) (ids : List ℕ) (peers : List Peer)
      → peers_of b db ids ≡ ok peers
      → IsAnswer db ids peers
  unfolding peers_of keep
  peers_of-IsAnswer db [] peers h = subst (IsAnswer db []) (ok_injective h) (tt, refl)
  peers_of-IsAnswer db (id ∷ ids) peers h =
      let (found, stored, rest) = >>=-eq-ok (or_internal (get_node b id db)) _ h in
      let (more, tail, whole) = >>=-eq-ok (peers_of b db ids) _ rest in
      let e = or_internal-ok (get_node b id db) stored in
      subst (IsAnswer db (id ∷ ids)) (ok_injective whole)
        (step-IsAnswer db id ids found more e (peers_of-IsAnswer db ids more tail))

  -- An answer to a query for peers names only online nodes of the store that hold the chunk and
  -- stand among the first `limit` holders (all of them if the limit is 0), and as many as there
  -- are among these.
  pub query_peers_sound :
      (game limit : ℕ) (hash : List ℕ) (s : ControlService b) (peers : List Peer)
      → query_peers b game hash limit s ≡ ok peers
      → (holders : List ℕ) × (chunk_holders b game hash s.db ≡ ok holders)
        × IsAnswer s.db (if limit == 0 then holders else take limit holders) peers
  unfolding query_peers
  query_peers_sound game limit hash s peers h =
      let (holders, known, rest) = >>=-eq-ok (or_internal (chunk_holders b game hash s.db)) _ h in
      (
        holders,
        or_internal-ok (chunk_holders b game hash s.db) known,
        peers_of-IsAnswer s.db (if limit == 0 then holders else take limit holders) peers rest,
      )
