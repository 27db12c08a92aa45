-- ===== src/Scheduler/Db/Tables.antt =====
-- The operations of `Store` in scheduler/src/db.rs on the tables of nodes, tasks, counters, chunk
-- holders, games, versions and audits.
use blaze_net.Common.{
  ltb, if◌then◌else◌, ◌==◌, nat_eq, bytes_eq, Result, ok, err, ◌>>=◌, keep, contains, ℕ, ◌+◌, ◌-◌,
  ◌%◌, Bool, true, false, Option, none, some, List, [], ◌∷◌, ◌++◌, map,
}
use blaze_net.Scheduler.Db.Records.{
  Text, codes, NodeRecord, TaskRecord, GameRecord, AuditRecord, Json, Backend, Db, DbError,
  bad_record, u64_mod, decimal,
}
use blaze_net.Storage.Defs.{hex, hex_u64}

-- `decode`, with its error.
unfoldable pub parse : {A : Type 0} → Json A → Text → Result DbError A
parse json text = elim (json.decode text) [ none ↦ err bad_record | some a ↦ ok a ]

unfoldable pub parse_all : {A : Type 0} → Json A → List (ℕ × Text) → Result DbError (List A)
unfolding parse
parse_all json [] = ok []
parse_all json ((id, text) ∷ rest) = do
  a ← parse json text
  more ← parse_all json rest
  ok (a ∷ more)

-- `chunk_key`
unfoldable pub chunk_key : ℕ → List ℕ → Text
chunk_key game_id hash = hex_u64 16 game_id ++ hex hash

-- `format!("{game_id}:{version}")`
unfoldable pub version_key : ℕ → ℕ → Text
version_key game_id version = decimal game_id ++ codes ":" ++ decimal version

module _ (b : Backend) where
  -- `next_id`: the counter after it was raised, from 1 on.
  unfoldable pub next_id : Text → Db b → ℕ × Db b
  next_id counter db =
      let next : ℕ = elim (b.counts.get db.counters counter) [
        | none ↦ 1
        | some v ↦ (v + 1) % u64_mod
      ] in
      (next, record db { counters = b.counts.insert db.counters counter next })

  unfoldable pub next_node_id : Db b → ℕ × Db b
  unfolding next_id
  next_node_id = next_id (codes "next_node_id")

  unfoldable pub next_task_id : Db b → ℕ × Db b
  unfolding next_id
  next_task_id = next_id (codes "next_task_id")

  unfoldable pub next_game_id : Db b → ℕ × Db b
  unfolding next_id
  next_game_id = next_id (codes "next_game_id")

  unfoldable pub insert_node : NodeRecord → Db b → Db b
  insert_node node db = record db {
    nodes = b.records.insert db.nodes node.id (b.node_json.encode node);
  }

  -- `get_json` and `decode`: a record of one of the tables that are keyed by id.
  unfoldable pub get_record : {A : Type 0} → Json A → b.records.T → ℕ → Result DbError (Option A)
  unfolding parse
  get_record json table id = elim (b.records.get table id) [
    | none ↦ ok none
    | some text ↦ parse json text >>= λ a. ok (some a)
  ]

  unfoldable pub get_node : ℕ → Db b → Result DbError (Option NodeRecord)
  unfolding get_record
  get_node id db = get_record b.node_json db.nodes id

  unfoldable pub list_nodes : Db b → Result DbError (List NodeRecord)
  unfolding parse_all
  list_nodes db = parse_all b.node_json (b.records.iter db.nodes)

  unfoldable pub insert_task : TaskRecord → Db b → Db b
  insert_task task db = record db {
    tasks = b.records.insert db.tasks task.id (b.task_json.encode task);
  }

  -- `update_task_status`: whether the task is there; a record that cannot be read aborts.
  unfoldable pub update_task_status : ℕ → Text → Text → Db b → Result DbError Bool × Db b
  unfolding parse insert_task
  update_task_status id status error db = elim (b.records.get db.tasks id) [
    | none ↦ (ok false, db)
    | some text ↦ elim (parse b.task_json text) [
      | err e ↦ (err e, db)
      | ok task ↦ (
        ok true,
        record db {
          tasks =
              b.records.insert db.tasks id
                (b.task_json.encode (record task { status = status; error = error }));
        },
      )
    ]
  ]

  unfoldable pub list_tasks : Db b → Result DbError (List TaskRecord)
  unfolding parse_all
  list_tasks db = parse_all b.task_json (b.records.iter db.tasks)

  unfoldable pub tasks_for_node : ℕ → Db b → Result DbError (List TaskRecord)
  unfolding list_tasks
  tasks_for_node node_id db = do tasks ← list_tasks db; ok (keep (λ t. t.node_id == node_id) tasks)

  -- `offline_nodes`: the last heartbeat is further back than the limit (`saturating_sub`).
  unfoldable pub offline_nodes : ℕ → ℕ → Db b → Result DbError (List ℕ)
  unfolding list_nodes
  offline_nodes now_ms timeout_ms db = do
    nodes ← list_nodes db
    ok (map (λ n. n.id) (keep (λ n. ltb timeout_ms (now_ms - n.last_heartbeat_ms)) nodes))

  -- `from_str(..).unwrap_or_default()` of the entry, or an empty list.
  unfoldable pub holders_or_none : Option Text → List ℕ
  holders_or_none none = []
  holders_or_none (some text) = elim (b.holders_json.decode text) [ none ↦ [] | some ids ↦ ids ]

  unfoldable pub record_chunk_holder : ℕ → ℕ → List ℕ → Db b → Db b
  unfolding holders_or_none
  record_chunk_holder node_id game_id hash db =
      let k = chunk_key game_id hash in
      let holders = holders_or_none (b.texts.get db.chunks k) in
      if contains node_id holders then db else record db {
        chunks = b.texts.insert db.chunks k (b.holders_json.encode (holders ++ node_id ∷ []));
      }

  unfoldable pub chunk_holders : ℕ → List ℕ → Db b → Result DbError (List ℕ)
  unfolding parse
  chunk_holders game_id hash db = elim (b.texts.get db.chunks (chunk_key game_id hash)) [
    | none ↦ ok []
    | some text ↦ parse b.holders_json text
  ]

  -- `add_launch`: the new total.
  unfoldable pub add_launch : ℕ → ℕ → Db b → ℕ × Db b
  add_launch game_id count db =
      let k = decimal game_id in
      let next : ℕ = elim (b.counts.get db.heat k) [
        | none ↦ count
        | some v ↦ (v + count) % u64_mod
      ] in
      (next, record db { heat = b.counts.insert db.heat k next })

  unfoldable pub insert_game : GameRecord → Db b → Db b
  insert_game game db = record db {
    games = b.records.insert db.games game.id (b.game_json.encode game);
  }

  unfoldable pub get_game : ℕ → Db b → Result DbError (Option GameRecord)
  unfolding get_record
  get_game id db = get_record b.game_json db.games id

  -- `delete_json` of the games: whether there was one.
  unfoldable pub delete_game : ℕ → Db b → Bool × Db b
  delete_game id db = (
    elim (b.records.get db.games id) [ none ↦ false | some text ↦ true ],
    record db { games = b.records.remove db.games id },
  )

  unfoldable pub save_version : ℕ → ℕ → List ℕ → Db b → Db b
  save_version game_id version manifest db = record db {
    versions =
        b.texts.insert db.versions (version_key game_id version) (b.bytes_json.encode manifest);
  }

  unfoldable pub get_version : ℕ → ℕ → Db b → Result DbError (Option (List ℕ))
  unfolding parse
  get_version game_id version db = elim (b.texts.get db.versions (version_key game_id version)) [
    | none ↦ ok none
    | some text ↦ parse b.bytes_json text >>= λ bytes. ok (some bytes)
  ]

  -- `add_audit`, with the time of the clock.
  unfoldable pub add_audit : ℕ → Text → Text → Text → Db b → ℕ × Db b
  unfolding next_id
  add_audit time_ms actor action detail db =
      let (id, db') = next_id (codes "next_audit_id") db in
      let entry : AuditRecord = record {
        id = id;
        time_ms = time_ms;
        actor = actor;
        action = action;
        detail = detail;
      } in
      (id, record db' { audits = b.records.insert db'.audits id (b.audit_json.encode entry) })
