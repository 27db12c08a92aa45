-- ===== src/Scheduler/Control/Defs.antt =====
-- The control service of scheduler/src/server.rs. The clock is an argument of the handlers; each
-- handler returns its reply or its error, and the state that it leaves.
use blaze_net.Common.{
  ltb, if◌then◌else◌, ◌==◌, nat_eq, bytes_eq, Result, ok, err, ◌>>=◌, keep, take, lookup, ℕ, Bool,
  true, false, not, ◌||◌, Option, none, some, List, [], ◌∷◌, ◌++◌, map,
}
use blaze_net.Scheduler.Db.Records.{
  Text, codes, NodeRecord, TaskRecord, Backend, Db, DbError, decimal,
}
use blaze_net.Scheduler.Db.Tables.{
  next_node_id, insert_node, get_node, insert_task, update_task_status, tasks_for_node,
  record_chunk_holder, chunk_holders, insert_game, get_game, save_version, get_version,
}
use blaze_net.Scheduler.Control.Types.{
  Status, invalid_argument, not_found, internal, Task, Event, task_created, task_status,
  RegisterRequest, RegisterReply, HeartbeatReply, Peer, VersionInfo, online, queued, cafe,
}

unfoldable pub valid_node_type : Text → Bool
valid_node_type t = t == codes "origin" || t == codes "idc" || t == cafe

unfoldable pub task_kind : Text → ℕ
task_kind k =
    if k == codes "DOWNLOAD"
    then 0
    else if k == codes "UPDATE"
    then 1
    else if k == codes "ROLLBACK"
    then 2
    else 0

unfoldable pub to_proto_task : TaskRecord → Task
unfolding task_kind
to_proto_task t = record {
  id = t.id;
  game_id = t.game_id;
  version = t.version;
  kind = task_kind t.kind;
  assigned_chunks = t.assigned_chunks;
}

-- A store error becomes an internal error.
unfoldable pub or_internal : {A : Type 0} → Result DbError A → Result Status A
or_internal (ok a) = ok a
or_internal (err e) = err internal

-- The service: the store, the queues of task events by node, and all events that were sent.
pub record ControlService (b : Backend) : Type 0 where
  pub db : Db b
  pub pending : List (ℕ × List Task)
  pub events : List Event

-- `map.entry(node_id).or_default()` and a change of the queue.
unfoldable pub with_queue :
    ℕ → (List Task → List Task) → List (ℕ × List Task) → List (ℕ × List Task)
with_queue node_id f [] = (node_id, f []) ∷ []
with_queue node_id f ((j, q) ∷ m) =
    let rest = with_queue node_id f m in if j == node_id then (j, f q) ∷ m else (j, q) ∷ rest

unfoldable pub is_queued : TaskRecord → Bool
is_queued t = t.status == queued

module _ (b : Backend) where
  unfoldable pub push_task : TaskRecord → ControlService b → ControlService b
  unfolding insert_task with_queue
  push_task task s = record {
    db = insert_task b task s.db;
    pending = with_queue task.node_id (λ q. q ++ to_proto_task task ∷ []) s.pending;
    events = s.events ++ task_created task.id task.node_id task.game_id ∷ [];
  }

  -- One turn of `watch_loop`: the events of the node, which leave its queue.
  unfoldable pub drain_tasks : ℕ → ControlService b → List Task × ControlService b
  unfolding with_queue
  drain_tasks node_id s = (
    elim (lookup node_id s.pending) [ none ↦ [] | some q ↦ q ],
    record s { pending = with_queue node_id (λ q. []) s.pending },
  )

  -- `register`; the clock is read for the token and for the heartbeat.
  unfoldable pub register :
      ℕ → ℕ → RegisterRequest → ControlService b → Result Status RegisterReply × ControlService b
  unfolding next_node_id insert_node tasks_for_node or_internal
  register token_ms beat_ms req s =
      if not (valid_node_type req.node_type)
      then (err invalid_argument, s)
      else let (id, db₁) = next_node_id b s.db in
        let token = decimal token_ms ++ codes "-" ++ decimal id in
        let db₂ =
          insert_node b
            (record {
              id = id;
              node_type = req.node_type;
              endpoint_id = req.endpoint_id;
              token = token;
              addrs = req.addrs;
              status = online;
              last_heartbeat_ms = beat_ms;
            })
            db₁ in
        (
          or_internal (tasks_for_node b id db₂) >>= λ tasks. ok (record {
            node_id = id;
            token = token;
            initial_tasks = map to_proto_task (keep is_queued tasks);
          }),
          record s { db = db₂ },
        )

  unfoldable pub beat :
      ℕ
      → ℕ
      → ℕ
      → ControlService b
      → Option NodeRecord
      → Result Status HeartbeatReply × ControlService b
  unfolding insert_node tasks_for_node or_internal
  beat node_id beat_ms reply_ms s none = (err not_found, s)
  beat node_id beat_ms reply_ms s (some node) =
      let db' = insert_node b (record node { last_heartbeat_ms = beat_ms; status = online }) s.db in
      (
        or_internal (tasks_for_node b node_id db') >>= λ tasks. ok (record {
          server_time = reply_ms;
          task_ids = map (λ (t : TaskRecord). t.id) (keep is_queued tasks);
        }),
        record s { db = db' },
      )

  unfoldable pub heartbeat :
      ℕ → ℕ → ℕ → ControlService b → Result Status HeartbeatReply × ControlService b
  unfolding beat get_node or_internal
  heartbeat node_id beat_ms reply_ms s = elim (get_node b node_id s.db) [
    | err e ↦ (err internal, s)
    | ok found ↦ beat node_id beat_ms reply_ms s found
  ]

  -- `report_task`: a task that is not there is no error; the event is sent in any case but a
  -- failure of the store.
  unfoldable pub report_task :
      ℕ → Text → Text → ControlService b → Result Status (Unit {0}) × ControlService b
  unfolding update_task_status
  report_task task_id status error s =
      let (done, db') = update_task_status b task_id status error s.db in
      elim done [
        | err e ↦ (err internal, record s { db = db' })
        | ok found ↦
            (ok tt, record s { db = db'; events = s.events ++ task_status task_id status ∷ [] })
      ]

  unfoldable pub report_chunk : ℕ → ℕ → List ℕ → ControlService b → ControlService b
  unfolding record_chunk_holder
  report_chunk node_id game_id hash s = record s {
    db = record_chunk_holder b node_id game_id hash s.db;
  }

  -- The loop of `query_peers` over the holders that the limit leaves.
  unfoldable pub peers_of : Db b → List ℕ → Result Status (List Peer)
  unfolding get_node or_internal
  peers_of db [] = ok []
  peers_of db (id ∷ ids) = do
    found ← or_internal (get_node b id db)
    more ← peers_of db ids
    ok (elim found [
      | none ↦ more
      | some node ↦
          if not (node.status == online)
          then more
          else record {
            node_id = node.id;
            endpoint_id = node.endpoint_id;
            addrs = node.addrs;
            direct_only = node.node_type == cafe;
          }
            ∷ more
    ])

  unfoldable pub query_peers : ℕ → List ℕ → ℕ → ControlService b → Result Status (List Peer)
  unfolding chunk_holders peers_of or_internal
  query_peers game_id chunk_hash limit s = do
    holders ← or_internal (chunk_holders b game_id chunk_hash s.db)
    peers_of s.db (if limit == 0 then holders else take limit holders)

  unfoldable pub get_version_info : ℕ → ℕ → ControlService b → Result Status VersionInfo
  unfolding get_version or_internal
  get_version_info game_id version s = do
    found ← or_internal (get_version b game_id version s.db)
    ok (elim found [
      | none ↦ record { found = false; version = version; manifest = [] }
      | some manifest ↦ record { found = true; version = version; manifest = manifest }
    ])

  -- The latest version of the game, if the game is known and its record can be read.
  unfoldable pub raise_latest : ℕ → ℕ → Db b → Db b
  unfolding get_game insert_game
  raise_latest game_id version db = elim (get_game b game_id db) [
    | err e ↦ db
    | ok found ↦ elim found [
      | none ↦ db
      | some game ↦
          if ltb game.latest_version version
          then insert_game b (record game { latest_version = version }) db
          else db
    ]
  ]

  unfoldable pub publish_version :
      ℕ → ℕ → List ℕ → ControlService b → Result Status (Unit {0}) × ControlService b
  unfolding save_version raise_latest
  publish_version game_id version manifest s =
      if game_id == 0 || version == 0
      then (err invalid_argument, s)
      else if manifest == []
      then (err invalid_argument, s)
      else (
        ok tt,
        record s {
          db = raise_latest game_id version (save_version b game_id version manifest s.db);
        },
      )
