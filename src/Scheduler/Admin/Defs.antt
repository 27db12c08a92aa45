-- ===== src/Scheduler/Admin/Defs.antt =====
-- The handlers of scheduler/src/http.rs that change games and tasks. They share the store, the queues
-- and the event channel of the control service; the clock is an argument.
use blaze_net.Common.{
  if◌then◌else◌, ◌==◌, nat_eq, bytes_eq, Result, ok, err, ◌>>=◌, to_set, sort, bytes_leb, length, ℕ,
  not, Option, none, some, List, [], ◌∷◌, ◌++◌,
}
use blaze_net.Scheduler.Db.Records.{
  Text, codes, NodeRecord, TaskRecord, GameRecord, Backend, Db, DbError, bad_record, decimal,
}
use blaze_net.Scheduler.Db.Tables.{
  next_task_id, next_game_id, get_node, chunk_holders, insert_game, get_game, get_version,
  add_audit,
}
use blaze_net.Scheduler.Control.Defs.{ControlService, push_task}
use blaze_net.Scheduler.Control.Types.{queued}
use blaze_net.Manifest.Defs.{Hash, Blake3, decode, chunk_set}

pub data HttpError : Type 0 where
  bad_request missing server_error : HttpError

pub record CreateGameRequest : Type 0 where
  pub name : Text
  pub wanted_id : Option ℕ

pub record CreateTaskRequest : Type 0 where
  pub node_id : ℕ
  pub game_id : ℕ
  pub version : ℕ
  pub kind : Text

pub record RollbackRequest : Type 0 where
  pub node_id : ℕ
  pub version : ℕ

abbrev pub idc : Text
idc = codes "idc"

abbrev pub cancelled : Text
cancelled = codes "cancelled"

unfoldable pub or_server_error : {A : Type 0} → Result DbError A → Result HttpError A
or_server_error (ok a) = ok a
or_server_error (err e) = err server_error

abbrev pub Answer : Backend → Type 0 → Type 0
Answer b A = Result HttpError A × ControlService b

module _ (b : Backend) where
  -- `audit`
  unfoldable pub audit : ℕ → Text → Text → ControlService b → ControlService b
  unfolding add_audit
  audit now action detail s = record s {
    db = (add_audit b now (codes "admin") action detail s.db).1;
  }

  -- The chunks of a list of hashes that nobody holds.
  unfoldable pub unheld : ℕ → List Hash → Db b → Result DbError (List Hash)
  unfolding chunk_holders
  unheld game_id [] db = ok []
  unheld game_id (h ∷ hs) db = do
    holders ← chunk_holders b game_id h db
    more ← unheld game_id hs db
    ok (if length holders == 0 then h ∷ more else more)

  unfoldable pub assign_found : Blake3 → ℕ → Db b → Option (List ℕ) → Result DbError (List Hash)
  unfolding unheld
  assign_found blake3 game_id db none = ok []
  assign_found blake3 game_id db (some manifest) = elim (decode blake3 manifest) [
    | err e ↦ err bad_record
    | ok index ↦ do
      assigned ← unheld game_id (to_set (chunk_set index.files)) db
      ok (sort bytes_leb assigned)
  ]

  unfoldable pub assign_idc_chunks : Blake3 → ℕ → ℕ → Text → Db b → Result DbError (List Hash)
  unfolding get_version assign_found
  assign_idc_chunks blake3 game_id version node_type db =
      if not (node_type == idc)
      then ok []
      else do manifest ← get_version b game_id version db; assign_found blake3 game_id db manifest

  unfoldable pub store_game : ℕ → Text → ControlService b → ℕ → Answer b GameRecord
  unfolding insert_game audit
  store_game now name s id =
      let game : GameRecord = record {
        id = id;
        name = name;
        status = codes "uploading";
        current_version = 0;
        latest_version = 0;
      } in
      (
        ok game,
        audit now (codes "创建游戏") (codes "游戏 ID " ++ decimal id)
            (record s { db = insert_game b game s.db }),
      )

  unfoldable pub create_game : ℕ → CreateGameRequest → ControlService b → Answer b GameRecord
  unfolding get_game next_game_id store_game
  create_game now request s =
      if request.name == [] then (err bad_request, s) else elim request.wanted_id [
        | none ↦
            let (id, db') = next_game_id b s.db in
            store_game now request.name (record s { db = db' }) id
        | some id ↦ if id == 0 then (err bad_request, s) else elim (get_game b id s.db) [
          | err e ↦ (err server_error, s)
          | ok found ↦ elim found [
            | some game ↦ (err bad_request, s)
            | none ↦ store_game now request.name s id
          ]
        ]
      ]

  -- A new task with the next id: stored, put into the queue of its node and announced.
  unfoldable pub queue_task :
      ℕ → ℕ → ℕ → Text → List Hash → ControlService b → TaskRecord × ControlService b
  unfolding next_task_id push_task
  queue_task node_id game_id version kind assigned s =
      let (id, db') = next_task_id b s.db in
      let task : TaskRecord = record {
        id = id;
        node_id = node_id;
        game_id = game_id;
        version = version;
        kind = kind;
        assigned_chunks = assigned;
        status = queued;
        error = [];
      } in
      (task, push_task b task (record s { db = db' }))

  unfoldable pub create_task_on :
      Blake3 → ℕ → CreateTaskRequest → ControlService b → Option NodeRecord → Answer b TaskRecord
  unfolding assign_idc_chunks queue_task audit
  create_task_on blake3 now request s none = (err missing, s)
  create_task_on blake3 now request s (some node) =
      elim (assign_idc_chunks blake3 request.game_id request.version node.node_type s.db) [
        | err e ↦ (err server_error, s)
        | ok assigned ↦
            let (task, s') =
              queue_task request.node_id request.game_id request.version request.kind assigned s in
            (
              ok task,
              audit now (codes "创建任务")
                  (codes "任务 ID "
                    ++ decimal task.id
                    ++ codes " 游戏 "
                    ++ decimal task.game_id
                    ++ codes " 版本 "
                    ++ decimal task.version)
                  s',
            )
      ]

  unfoldable pub create_task :
      Blake3 → ℕ → CreateTaskRequest → ControlService b → Answer b TaskRecord
  unfolding get_node create_task_on
  create_task blake3 now request s =
      if request.kind == [] then (err bad_request, s) else elim (get_node b request.node_id s.db) [
        | err e ↦ (err server_error, s)
        | ok found ↦ create_task_on blake3 now request s found
      ]

  -- The checks of `rollback_game`, in their order; the game, if all pass.
  unfoldable pub check_rollback : ℕ → RollbackRequest → Db b → Result HttpError GameRecord
  unfolding get_game get_version get_node or_server_error
  check_rollback game_id request db = if request.version == 0 then err bad_request else do
    found ← or_server_error (get_game b game_id db)
    elim found [
      | none ↦ err missing
      | some game ↦ do
        manifest ← or_server_error (get_version b game_id request.version db)
        elim manifest [
          | none ↦ err missing
          | some bytes ↦ do
            node ← or_server_error (get_node b request.node_id db)
            elim node [ none ↦ err missing | some n ↦ ok game ]
        ]
    ]

  unfoldable pub rollback_game : ℕ → ℕ → RollbackRequest → ControlService b → Answer b TaskRecord
  unfolding check_rollback queue_task insert_game audit
  rollback_game now game_id request s = elim (check_rollback game_id request s.db) [
    | err e ↦ (err e, s)
    | ok game ↦
        let (task, s') =
          queue_task request.node_id game_id request.version (codes "ROLLBACK") [] s in
        (
          ok task,
          audit now (codes "回滚游戏")
              (codes "游戏 " ++ decimal game_id ++ codes " 回滚到版本 " ++ decimal request.version)
              (record s' {
                db = insert_game b (record game { current_version = request.version }) s'.db;
              }),
        )
  ]
