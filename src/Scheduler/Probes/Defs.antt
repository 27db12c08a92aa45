-- ===== src/Scheduler/Probes/Defs.antt =====
-- One turn of `run` in scheduler/src/keepalive.rs. What the socket received in the turn is an argument,
-- as are the clocks, the parsing of a socket address and its hash; the pings that are sent are a
-- result. The interval is above 0. The monotonic clock, in milliseconds, is read once for the pings
-- and once for those that expire. A hash map is a list with each key once, and its order is the one of the iteration.
use blaze_net.Common.{
  leb, if◌then◌else◌, Eq, ◌==◌, bytes_eq, nat_eq, Result, ok, err, keep, take, lookup, ℕ, suc, ◌+◌,
  ◌-◌, ◌*◌, ◌%◌, Bool, true, false, Option, none, some, List, [], ◌∷◌,
}
use blaze_net.Common.Redb.{without}
use blaze_net.Ping.Defs.{build_ping, parse_pong, pong_len}
use blaze_net.Keepalive.Defs.{u32_mod, Keepalive, register, record_result, addr_slot}
use blaze_net.Scheduler.Db.Records.{Text, codes, AddrRecord, NodeRecord, Backend, Db, DbError}
use blaze_net.Scheduler.Db.Tables.{insert_node, get_node, list_nodes, offline_nodes}
use blaze_net.Scheduler.Control.Types.{online}

abbrev pub offline : Text
offline = codes "offline"

-- `HashMap::insert`
unfoldable pub map_insert : {K V : Type 0} ⦃e : Eq K⦄ → K → V → List (K × V) → List (K × V)
unfolding without
map_insert k v m = (k, v) ∷ without k m

-- The addresses to probe, with their node and their index there.
abbrev pub Meta : Type 0 → Type 0
Meta Addr = List (Addr × (ℕ × ℕ))

-- The pings without an answer, by sequence number: the address and the time it was sent.
abbrev pub Outstanding : Type 0 → Type 0
Outstanding Addr = List (ℕ × (Addr × ℕ))

unfoldable pub or_empty : {A : Type 0} → Result DbError (List A) → List A
or_empty (ok xs) = xs
or_empty (err e) = []

module _ (b : Backend) where
  -- A node that can be read and has another status gets this one.
  unfoldable pub set_status : Text → Result DbError (Option NodeRecord) → Db b → Db b
  unfolding insert_node
  set_status want (err e) db = db
  set_status want (ok none) db = db
  set_status want (ok (some node)) db =
      if node.status == want then db else insert_node b (record node { status = want }) db

  unfoldable pub mark_offline : List ℕ → Db b → Db b
  unfolding set_status get_node
  mark_offline [] db = db
  mark_offline (id ∷ ids) db = mark_offline ids (set_status offline (get_node b id db) db)

module _ {Addr : Type 0} ⦃e : Eq Addr⦄ (parse_addr : Text → Option Addr) where
  -- The loop over the addresses of one node, from an index on.
  unfoldable pub add_addrs :
      ℕ → ℕ → List AddrRecord → Meta Addr × Keepalive Addr → Meta Addr × Keepalive Addr
  unfolding map_insert register
  add_addrs node_id index [] (meta, known) = (meta, known)
  add_addrs node_id index (a ∷ addrs) (meta, known) = add_addrs node_id (suc index) addrs (
      if a.kind == codes "keepalive"
      then elim (parse_addr a.addr) [
        | none ↦ (meta, known)
        | some addr ↦ (map_insert addr (node_id, index % u32_mod) meta, register addr known)
      ]
      else (meta, known))

  unfoldable pub add_nodes :
      List NodeRecord → Meta Addr × Keepalive Addr → Meta Addr × Keepalive Addr
  unfolding add_addrs
  add_nodes [] state = state
  add_nodes (node ∷ nodes) state = add_nodes nodes (add_addrs node.id 0 node.addrs state)

-- The state that the loop keeps between its turns; `seq` is a u32.
pub record Prober (Addr : Type 0) : Type 0 where
  pub known : Keepalive Addr
  pub seq : ℕ
  pub outstanding : Outstanding Addr

module _ {Addr : Type 0} ⦃e : Eq Addr⦄ where
  -- The pings of this second, with the addresses they go to.
  unfoldable pub send_pings :
      (Addr → ℕ) → ℕ → ℕ → ℕ → Meta Addr → Prober Addr → List (Addr × List ℕ) × Prober Addr
  unfolding addr_slot build_ping map_insert
  send_pings hash sent_ms now_secs interval_secs [] p = ([], p)
  send_pings hash sent_ms now_secs interval_secs ((addr, (node_id, addr_index)) ∷ meta) p =
      let seq = (p.seq + 1) % u32_mod in
      let sent : Prober Addr = record p {
        seq = seq;
        outstanding = map_insert seq (addr, sent_ms) p.outstanding;
      } in
      let skip = send_pings hash sent_ms now_secs interval_secs meta p in
      let (pings, p') = send_pings hash sent_ms now_secs interval_secs meta sent in
      if addr_slot hash addr interval_secs == now_secs % interval_secs
      then ((addr, build_ping seq node_id addr_index) ∷ pings, p')
      else skip

  -- One datagram: the buffer holds `pong_len` bytes.
  unfoldable pub take_pong : ℕ → List ℕ → Prober Addr → Prober Addr
  unfolding parse_pong record_result without
  take_pong fail_threshold datagram p = elim (parse_pong (take pong_len datagram)) [
    | none ↦ p
    | some seq ↦ elim (lookup seq p.outstanding) [
      | none ↦ p
      | some entry ↦ record p {
        outstanding = without seq p.outstanding;
        known = record_result entry.0 true fail_threshold p.known;
      }
    ]
  ]

  unfoldable pub take_pongs : ℕ → List (List ℕ) → Prober Addr → Prober Addr
  unfolding take_pong
  take_pongs fail_threshold [] p = p
  take_pongs fail_threshold (d ∷ ds) p = take_pongs fail_threshold ds (take_pong fail_threshold d p)

  unfoldable pub is_expired : ℕ → ℕ → ℕ × (Addr × ℕ) → Bool
  is_expired seen_ms interval_secs entry = leb (interval_secs * 1000) (seen_ms - entry.1.1)

  unfoldable pub expire : ℕ → Outstanding Addr → Prober Addr → Prober Addr
  unfolding without record_result
  expire fail_threshold [] p = p
  expire fail_threshold ((seq, (addr, sent)) ∷ expired) p =
      expire fail_threshold expired (record p {
        outstanding = without seq p.outstanding;
        known = record_result addr false fail_threshold p.known;
      })

  unfoldable pub expire_all : ℕ → ℕ → ℕ → Prober Addr → Prober Addr
  unfolding expire keep is_expired
  expire_all fail_threshold seen_ms interval_secs p =
      expire fail_threshold (keep (is_expired seen_ms interval_secs) p.outstanding) p

  module _ (b : Backend) where
    unfoldable pub wanted_status : Keepalive Addr → Addr → Text
    wanted_status known addr = elim (lookup addr known) [
      | none ↦ online
      | some s ↦ if s.available then online else offline
    ]

    unfoldable pub sync_status : Keepalive Addr → Meta Addr → Db b → Db b
    unfolding set_status get_node wanted_status
    sync_status known [] db = db
    sync_status known ((addr, (node_id, addr_index)) ∷ meta) db =
        sync_status known meta (set_status b (wanted_status known addr) (get_node b node_id db) db)

    -- `ticker.tick()`: the pings that are sent, and the state afterwards.
    unfoldable pub turn :
        (Text → Option Addr)
        → (Addr → ℕ)
        → ℕ
        → ℕ
        → ℕ
        → ℕ
        → ℕ
        → ℕ
        → ℕ
        → List (List ℕ)
        → Prober Addr
        → Db b
        → List (Addr × List ℕ) × Prober Addr × Db b
    unfolding offline_nodes or_empty mark_offline list_nodes add_nodes send_pings take_pongs
        expire_all sync_status
    turn parse_addr hash interval_secs fail_threshold timeout_ms now_secs now_ms sent_ms seen_ms
          pongs p db =
        let db₁ = mark_offline b (or_empty (offline_nodes b now_ms timeout_ms db)) db in
        let (meta, known) = add_nodes parse_addr (or_empty (list_nodes b db₁)) ([], p.known) in
        let (pings, p₁) =
          send_pings hash sent_ms now_secs interval_secs meta (record p { known = known }) in
        let p₂ =
          expire_all fail_threshold seen_ms interval_secs (take_pongs fail_threshold pongs p₁) in
        (pings, p₂, sync_status p₂.known meta db₁)
