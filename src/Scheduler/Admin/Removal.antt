-- ===== src/Scheduler/Admin/Removal.antt =====
-- The handlers of scheduler/src/http.rs that cancel a task and delete a game.
use blaze_net.Common.{
  Bool, if◌then◌else◌, ◌==◌, nat_eq, bytes_eq, Result, ok, err, ℕ, not, Option, none, some, List,
  [], ◌∷◌, ◌++◌,
}
use blaze_net.Scheduler.Db.Records.{codes, TaskRecord, Backend, Db, DbError, decimal}
use blaze_net.Scheduler.Db.Tables.{update_task_status, list_tasks, delete_game}
use blaze_net.Scheduler.Control.Defs.{ControlService, is_queued}
use blaze_net.Scheduler.Control.Types.{task_status}
use blaze_net.Scheduler.Admin.Defs.{bad_request, missing, server_error, cancelled, Answer, audit}

module _ (b : Backend) where
  -- `.into_iter().find(|t| t.id == id)`
  unfoldable pub find_task : ℕ → List TaskRecord → Option TaskRecord
  find_task id [] = none
  find_task id (t ∷ ts) = if t.id == id then some t else find_task id ts

  -- The end of a cancellation, after the store has answered.
  unfoldable pub cancel_updated :
      ℕ → ℕ → ControlService b → Result DbError Bool × Db b → Answer b (Unit {0})
  unfolding audit
  cancel_updated now id s (err e, db') = (err server_error, record s { db = db' })
  cancel_updated now id s (ok found, db') = (
    ok tt,
    audit b now (codes "取消任务") (codes "任务 ID " ++ decimal id ++ codes " 已取消（排队中）")
        (record s { db = db'; events = s.events ++ task_status id cancelled ∷ [] }),
  )

  unfoldable pub cancel_found : ℕ → ℕ → ControlService b → Option TaskRecord → Answer b (Unit {0})
  unfolding update_task_status cancel_updated is_queued
  cancel_found now id s none = (err missing, s)
  cancel_found now id s (some task) =
      if not (is_queued task)
      then (err bad_request, s)
      else cancel_updated now id s (update_task_status b id cancelled (codes "人工取消") s.db)

  unfoldable pub cancel_listed :
      ℕ → ℕ → ControlService b → Result DbError (List TaskRecord) → Answer b (Unit {0})
  unfolding find_task cancel_found
  cancel_listed now id s (err e) = (err server_error, s)
  cancel_listed now id s (ok tasks) = cancel_found now id s (find_task id tasks)

  unfoldable pub cancel_task : ℕ → ℕ → ControlService b → Answer b (Unit {0})
  unfolding list_tasks cancel_listed
  cancel_task now id s = cancel_listed now id s (list_tasks b s.db)

  unfoldable pub remove_game : ℕ → ℕ → ControlService b → Answer b (Unit {0})
  unfolding delete_game audit
  remove_game now id s =
      let (found, db') = delete_game b id s.db in
      if not found then (err missing, record s { db = db' }) else (
        ok tt,
        audit b now (codes "删除游戏") (codes "游戏 ID " ++ decimal id) (record s { db = db' }),
      )
