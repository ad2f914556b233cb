-- ===== src/Tasks/Finish.antt =====
-- CompleteTask, FailTask, RequestCancel, IsCancelRequested, AbortTask and RecordTaskMetrics of
-- internal/persistence/tasks.go.
use go_claw.Common.{
  ℕ, String, Bool, true, false, not, ◌&&◌, ◌||◌, none, some, [], ◌∷◌, ◌++◌, any, ◌==◌,
  if◌then◌else◌, str_eq,
}
use go_claw.Tasks.Model.{
  queued, claimed, running, retry_wait, succeeded, failed, canceled, status_eq, Task, literal,
  with_error, Ctx, Store, TaskMetrics, Result, ok, err, no_rows, has_id, select_task, update_tasks,
  rows_affected, current_timestamp, reason_aborted,
}
use go_claw.Tasks.Transition.{
  Tx, raise, ◌>>=◌, ◌>>◌, with_tx, exec_update, with_status, transition_task_tx,
}

-- bus.Publish, where the store has a bus
abbrev pub publish : String → String → Store → Store
publish topic task_id s =
    if s.has_bus
    then record s { published = s.published ++ record { topic = topic; task_id = task_id } ∷ [] }
    else s

-- `s.GetTask` before the event: it is published only if the task is there
unfoldable pub publish_if_found : String → String → Store → Store
publish_if_found topic task_id s = elim (select_task task_id s.tasks) [
  | none ↦ s
  | some row ↦ publish topic task_id s
]

abbrev metrics_of : ℕ → Task → TaskMetrics
metrics_of now t = record {
  task_id = t.id;
  agent_id = t.agent_id;
  session_id = t.session_id;
  parent_task_id = t.parent_task_id;
  created_at = t.created_at;
  completed_at = current_timestamp now;
  status = t.status;
  prompt_tokens = t.prompt_tokens;
  completion_tokens = t.completion_tokens;
  total_tokens = t.total_tokens;
}

-- INSERT … SELECT … ON CONFLICT(task_id) DO NOTHING, and the event
abbrev record_row : Ctx → String → Task → Store → Store
record_row ctx task_id row s =
    let inserted : Store = record s {
      task_metrics =
          if any (λ m. str_eq m.task_id task_id) s.task_metrics
          then s.task_metrics
          else s.task_metrics ++ metrics_of ctx.now row ∷ [];
    } in
    if str_eq row.session_id "" then inserted else publish "task.metrics" task_id inserted

unfoldable pub record_task_metrics : Ctx → String → Store → Store
record_task_metrics ctx task_id s = elim (select_task task_id s.tasks) [
  | none ↦ s
  | some row ↦ record_row ctx task_id row s
]

-- lease_owner = NULL, lease_expires_at = NULL, updated_at = CURRENT_TIMESTAMP
abbrev pub clear_lease : ℕ → Task → Task
clear_lease now t = record t {
  lease_owner = none;
  lease_expires_at = none;
  updated_at = current_timestamp now;
}

abbrev pub finish_row : ℕ → Task → Task
finish_row now t = record (clear_lease now t) { error = none }

complete_tx : Ctx → String → String → Tx Unit
complete_tx ctx task_id result = do
  moved_on ←
      transition_task_tx ctx task_id (running ∷ []) succeeded "task.succeeded"
        (literal "{\"reason\":\"processor_success\"}") (some result) none
  if not moved_on
      then raise no_rows
      else exec_update (with_status task_id succeeded) (finish_row ctx.now)

-- What follows a commit: the best-effort event and the metrics.
abbrev pub after_commit : (Store → Store) → Result Unit × Store → Result Unit × Store
after_commit effects (ok u, s) = (ok u, effects s)
after_commit effects (err e, s) = (err e, s)

unfoldable pub complete_task : Ctx → String → String → Store → Result Unit × Store
unfolding complete_tx
complete_task ctx task_id result s =
    after_commit
      (λ s'. record_task_metrics ctx task_id (publish_if_found "task.completed" task_id s'))
      (with_tx (complete_tx ctx task_id result) s)

fail_tx : Ctx → String → String → Tx Unit
fail_tx ctx task_id err_msg = do
  moved_on ←
      transition_task_tx ctx task_id (queued ∷ claimed ∷ running ∷ retry_wait ∷ []) failed
        "task.failed" (with_error "processor_error" err_msg) none (some err_msg)
  if not moved_on
      then raise no_rows
      else exec_update (with_status task_id failed) (clear_lease ctx.now)

unfoldable pub fail_task : Ctx → String → String → Store → Result Unit × Store
unfolding fail_tx
fail_task ctx task_id err_msg s =
    after_commit (λ s'. record_task_metrics ctx task_id (publish_if_found "task.failed" task_id s'))
      (with_tx (fail_tx ctx task_id err_msg) s)

abbrev pub cancelable : String → Task → Bool
cancelable task_id t =
    has_id task_id t
    && (status_eq t.status claimed || status_eq t.status running || status_eq t.status retry_wait)

abbrev pub cancel_row : ℕ → Task → Task
cancel_row now t = record t { cancel_requested = true; updated_at = current_timestamp now }

unfoldable pub request_cancel : Ctx → String → Store → Bool × Store
request_cancel ctx task_id s = (
  rows_affected (cancelable task_id) s.tasks == 1,
  record s { tasks = update_tasks (cancelable task_id) (cancel_row ctx.now) s.tasks },
)

unfoldable pub is_cancel_requested : String → Store → Result Bool
is_cancel_requested task_id s = elim (select_task task_id s.tasks) [
  | none ↦ err no_rows
  | some row ↦ ok row.cancel_requested
]

abbrev pub abort_row : ℕ → Task → Task
abort_row now t = record (clear_lease now t) { last_error_code = some reason_aborted }

abort_tx : Ctx → String → Tx Bool
abort_tx ctx task_id = do
  moved_on ←
      transition_task_tx ctx task_id (queued ∷ claimed ∷ running ∷ retry_wait ∷ []) canceled
        "task.canceled" (literal "{\"reason\":\"abort_request\"}") none (some "aborted")
  if not moved_on
      then (λ s. ok (false, s))
      else do exec_update (with_status task_id canceled) (abort_row ctx.now); λ s. ok (true, s)

abbrev after_abort : String → Result Bool × Store → Result Bool × Store
after_abort task_id (ok true, s) = (ok true, publish_if_found "task.canceled" task_id s)
after_abort task_id (r, s) = (r, s)

unfoldable pub abort_task : Ctx → String → Store → Result Bool × Store
unfolding abort_tx
abort_task ctx task_id s =
    after_abort task_id (with_tx (abort_tx ctx task_id) (request_cancel ctx task_id s).1)
