-- ===== src/Tasks/Started.antt =====
-- What StartTaskRun leaves of a task that the caller has claimed.
use go_claw.Common.{
  ◌&&◌, none, ℕ, ◌+◌, String, ◌≡◌, refl, ◌∙◌, false, some, [], ◌∷◌, arith, str_eq, eq_refl,
}
use go_claw.Tasks.Model.{
  claimed, running, Task, EventPayload, literal, Ctx, Store, ok, if_row, select_task,
  current_timestamp, default_lease_duration,
}
use go_claw.Tasks.Transition.{with_status, moved, can_transition, append_task_event_tx}
use go_claw.Tasks.Lifecycle.{start_task_run, cannot_start, start_row, owned_by}
use go_claw.Tasks.Unique.{IsUnique}
use go_claw.Tasks.Outcomes.{select-two, select-id, transition_happens}

-- The row that a start leaves.
abbrev pub started : ℕ → String → Task → Task
started now version row = record row {
  status = running;
  lease_expires_at = some (now + default_lease_duration);
  policy_version = some version;
  updated_at = current_timestamp now;
}

abbrev start_payload : EventPayload
start_payload = literal "{\"reason\":\"worker_start\"}"

-- Where the ids are distinct, the start of a CLAIMED task by the owner of its lease succeeds: the row
-- is RUNNING with the policy version and a new lease period, and its other columns are as before.
pub start_task_run-claimed :
    (ctx : Ctx) (id owner version : String) (s : Store) (row : Task)
    → IsUnique s.tasks
    → select_task id s.tasks ≡ some row
    → row.status ≡ claimed
    → row.lease_owner ≡ some owner
    → str_eq owner "" ≡ false
    → ((start_task_run ctx id owner version s).0 ≡ ok tt)
      × (select_task id (start_task_run ctx id owner version s).1.tasks
          ≡ some (started ctx.now version row))
unfolding start_task_run can_transition append_task_event_tx
start_task_run-claimed ctx id owner version s row u e c l n =
    let t =
      transition_happens ctx id (claimed ∷ []) running "task.running" start_payload none none s row
        u e (ground arith) (ground arith) in
    let h = select-id id s.tasks row e in
    let same = eq_refl owner in
    let may : cannot_start row owner ≡ false = rw (cannot_start, c, l, n, same) refl in
    (
      rw (e) (rw (may) (rw t refl)),
      rw (e) (
          rw (may) (
            rw t (
              select-two (if_row (with_status id row.status) (moved ctx.now running none none))
                (if_row (λ v. with_status id running v && owned_by owner v)
                  (start_row ctx.now version))
                id s.tasks row (λ v. ground arith) (λ v. ground arith) e
              ∙ ground arith))),
    )
