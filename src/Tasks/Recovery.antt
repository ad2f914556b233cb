-- ===== src/Tasks/Recovery.antt =====
-- RequeueExpiredLeases, RecoverRunningTasks and AgeQueuedPriorities of
-- internal/persistence/tasks.go.
use go_claw.Common.{
  ℕ, ◌+◌, suc, String, Bool, true, false, not, ◌&&◌, ◌||◌, none, some, List, [], ◌∷◌, filter, ltb,
  leb, min, if◌then◌else◌, str_eq,
}
use go_claw.Tasks.Model.{
  queued, claimed, running, status_eq, Task, Message, EventPayload, literal, Ctx, Store, Result, ok,
  update_tasks, rows_affected, current_timestamp,
}
use go_claw.Tasks.Transition.{
  Tx, and_then, ◌>>=◌, ◌>>◌, with_tx, exec_update, with_status, transition_task_tx,
}
use go_claw.Tasks.Finish.{clear_lease}

abbrev pub in_flight : Task → Bool
in_flight t = status_eq t.status claimed || status_eq t.status running

abbrev pub lease_expired : ℕ → Task → Bool
lease_expired now t = elim t.lease_expires_at [
  | none ↦ false
  | some at ↦ leb at (current_timestamp now)
]

abbrev pub is_expired : ℕ → Task → Bool
is_expired now t = in_flight t && lease_expired now t

-- The body of the two loops: back to the queue, and the lease cleared.
unfoldable pub requeue_one : Ctx → String → EventPayload → String → Tx Bool
requeue_one ctx event_type payload task_id = do
  moved_on ←
      transition_task_tx ctx task_id (claimed ∷ running ∷ []) queued event_type payload none none
  if not moved_on
      then (λ s. ok (false, s))
      else do exec_update (with_status task_id queued) (clear_lease ctx.now); λ s. ok (true, s)

unfoldable pub requeue_all : Ctx → List Task → ℕ → Tx ℕ
requeue_all ctx [] reclaimed s = ok (reclaimed, s)
requeue_all ctx (t ∷ ts) reclaimed s =
    and_then
      (requeue_one ctx "task.lease_expired_requeued" (literal "{\"reason\":\"lease_expired\"}") t.id
        s)
      λ done s'. requeue_all ctx ts (if done then suc reclaimed else reclaimed) s'

unfoldable pub requeue_expired_leases : Ctx → Store → Result ℕ × Store
unfolding requeue_all
requeue_expired_leases ctx s = with_tx (requeue_all ctx (filter (is_expired ctx.now) s.tasks) 0) s

-- DELETE FROM messages …: the answers that a crashed run had saved
abbrev pub is_orphan : Task → Message → Bool
is_orphan t m =
    str_eq m.session_id t.session_id && str_eq m.role "assistant" && leb t.updated_at m.created_at

abbrev pub delete_orphans : Task → Store → Store
delete_orphans t s =
    if status_eq t.status running
    then record s { messages = filter (λ m. not (is_orphan t m)) s.messages }
    else s

unfoldable pub recover_all : Ctx → List Task → ℕ → Tx ℕ
recover_all ctx [] recovered s = ok (recovered, s)
recover_all ctx (t ∷ ts) recovered s =
    and_then (requeue_one ctx "task.recovered" (literal "{\"reason\":\"startup_recovery\"}") t.id s)
      λ done s'.
        recover_all ctx ts (if done then suc recovered else recovered)
          (if done then delete_orphans t s' else s')

unfoldable pub recover_running_tasks : Ctx → Store → Result ℕ × Store
unfolding recover_all
recover_running_tasks ctx s = with_tx (recover_all ctx (filter in_flight s.tasks) 0) s

abbrev pub is_starving : ℕ → ℕ → ℕ → Task → Bool
is_starving now threshold max_priority t =
    status_eq t.status queued
    && leb t.available_at (current_timestamp now)
    && ltb (t.updated_at + threshold) now
    && ltb t.priority max_priority

abbrev pub age_row : ℕ → ℕ → Task → Task
age_row now max_priority t = record t {
  priority = min (t.priority + 1) max_priority;
  updated_at = current_timestamp now;
}

unfoldable pub age_queued_priorities : Ctx → ℕ → ℕ → Store → ℕ × Store
age_queued_priorities ctx threshold max_priority s = (
  rows_affected (is_starving ctx.now threshold max_priority) s.tasks,
  record s {
    tasks =
        update_tasks (is_starving ctx.now threshold max_priority) (age_row ctx.now max_priority)
          s.tasks;
  },
)
