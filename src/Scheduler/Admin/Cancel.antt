-- ===== src/Scheduler/Admin/Cancel.antt =====
-- The cancellation of tasks in scheduler/src/http.rs.
use blaze_net.Common.{
  Bool-cases, bytes_beq_iff, bytes_eq, nat_eq, Result, ok, err, ℕ, ◌≡◌, refl, inl, inr, Bool,
  Option, none, some, List,
}
use blaze_net.Scheduler.Db.Records.{TaskRecord, Backend, Db, DbError}
use blaze_net.Scheduler.Db.Tables.{list_tasks}
use blaze_net.Scheduler.Control.Defs.{ControlService, is_queued, drain_tasks}
use blaze_net.Scheduler.Control.Types.{queued}
use blaze_net.Scheduler.Admin.Defs.{audit}
use blaze_net.Scheduler.Admin.Removal.{
  find_task, cancel_updated, cancel_found, cancel_listed, cancel_task,
}

module _ (b : Backend) where
  cancel_updated-pending :
      (now id : ℕ) (s : ControlService b) (out : Result DbError Bool × Db b)
      → (cancel_updated b now id s out).1.pending ≡ s.pending
  unfolding cancel_updated audit
  cancel_updated-pending now id s (err e, db) = refl
  cancel_updated-pending now id s (ok found, db) = refl

  cancel_found-pending :
      (now id : ℕ) (s : ControlService b) (found : Option TaskRecord)
      → (cancel_found b now id s found).1.pending ≡ s.pending
  unfolding cancel_found
  cancel_found-pending now id s none = refl
  cancel_found-pending now id s (some task) = elim (Bool-cases (is_queued task)) [
    | inl waits ↦ rw waits (cancel_updated-pending now id s _)
    | inr busy ↦ rw busy refl
  ]

  cancel_listed-pending :
      (now id : ℕ) (s : ControlService b) (listed : Result DbError (List TaskRecord))
      → (cancel_listed b now id s listed).1.pending ≡ s.pending
  unfolding cancel_listed
  cancel_listed-pending now id s (err e) = refl
  cancel_listed-pending now id s (ok tasks) = cancel_found-pending now id s (find_task b id tasks)

  cancel_task-pending :
      (now id : ℕ) (s : ControlService b) → (cancel_task b now id s).1.pending ≡ s.pending
  unfolding cancel_task
  cancel_task-pending now id s = cancel_listed-pending now id s (list_tasks b s.db)

  -- Whatever a cancellation answers, the queues of task events stay as they were: each node still
  -- receives every task that was waiting for it, the cancelled one too.
  pub drain_tasks-cancel_task :
      (now id node : ℕ) (s : ControlService b)
      → (drain_tasks b node (cancel_task b now id s).1).0 ≡ (drain_tasks b node s).0
  unfolding drain_tasks
  drain_tasks-cancel_task now id node s = rw (drain_tasks, cancel_task-pending now id s) refl

  cancel_found-queued :
      (now id : ℕ) (s : ControlService b) (found : Option TaskRecord)
      → (cancel_found b now id s found).0 ≡ ok tt
      → (task : TaskRecord) × (found ≡ some task) × (task.status ≡ queued)
  unfolding cancel_found is_queued
  cancel_found-queued now id s none h = cc
  cancel_found-queued now id s (some task) h = elim (Bool-cases (is_queued task)) [
    | inl waits ↦ (task, refl, (bytes_beq_iff task.status queued).0 waits)
    | inr busy ↦ absurd (let e = rw busy at h in (cc))
  ]

  cancel_listed-queued :
      (now id : ℕ) (s : ControlService b) (listed : Result DbError (List TaskRecord))
      → (cancel_listed b now id s listed).0 ≡ ok tt
      → (tasks : List TaskRecord) × (task : TaskRecord) × (listed ≡ ok tasks)
        × (find_task b id tasks ≡ some task)
        × (task.status ≡ queued)
  unfolding cancel_listed
  cancel_listed-queued now id s (err e) h = cc
  cancel_listed-queued now id s (ok tasks) h =
      let (task, found, waiting) = cancel_found-queued now id s (find_task b id tasks) h in
      (tasks, task, refl, found, waiting)

  -- A cancellation succeeds only if the first task of the list with that id is queued.
  pub cancel_task_only_queued :
      (now id : ℕ) (s : ControlService b)
      → (cancel_task b now id s).0 ≡ ok tt
      → (tasks : List TaskRecord) × (task : TaskRecord) × (list_tasks b s.db ≡ ok tasks)
        × (find_task b id tasks ≡ some task)
        × (task.status ≡ queued)
  unfolding cancel_task
  cancel_task_only_queued now id s h = cancel_listed-queued now id s (list_tasks b s.db) h
