-- ===== src/Tasks/Aborted.antt =====
-- What AbortTask leaves of a task that a worker has.
use go_claw.Common.{ℕ, String, ◌≡◌, refl, ◌∙◌, ap, true, none, some, [], ◌∷◌, arith}
use go_claw.Tasks.Model.{
  queued, claimed, running, retry_wait, canceled, Task, EventPayload, literal, Ctx, Store, ok,
  if_row, select_task, current_timestamp, reason_aborted,
}
use go_claw.Tasks.Transition.{with_status, moved, can_transition, append_task_event_tx}
use go_claw.Tasks.Finish.{abort_task, request_cancel, cancelable, cancel_row, abort_row}
use go_claw.Tasks.Unique.{IsUnique, IsUnique-map}
use go_claw.Tasks.Outcomes.{select-two, select-id, select-map, transition_happens, map_row}
use go_claw.Tasks.Refinement.{publish_if_found-SameRows}

-- The row that an abort leaves.
abbrev pub aborted : ℕ → Task → Task
aborted now row = record row {
  status = canceled;
  cancel_requested = true;
  error = some "aborted";
  last_error_code = some reason_aborted;
  lease_owner = none;
  lease_expires_at = none;
  updated_at = current_timestamp now;
}

abbrev abort_payload : EventPayload
abort_payload = literal "{\"reason\":\"abort_request\"}"

-- Where the ids are distinct, an abort of a RUNNING task succeeds: the row is CANCELED, flagged, has
-- the error and code of an abort and no lease, and its other columns are as before.
pub abort_task-running :
    (ctx : Ctx) (id : String) (s : Store) (row : Task)
    → IsUnique s.tasks
    → select_task id s.tasks ≡ some row
    → row.status ≡ running
    → ((abort_task ctx id s).0 ≡ ok true)
      × (select_task id (abort_task ctx id s).1.tasks ≡ some (aborted ctx.now row))
unfolding abort_task request_cancel can_transition append_task_event_tx
abort_task-running ctx id s row u e r =
    let h = select-id id s.tasks row e in
    let s1 = (request_cancel ctx id s).1 in
    let row1 : Task = cancel_row ctx.now row in
    let e1 : select_task id s1.tasks ≡ some row1 =
      select-map (if_row (cancelable id) (cancel_row ctx.now)) id s.tasks (λ t. ground arith)
      ∙ ap (map_row (if_row (cancelable id) (cancel_row ctx.now))) e
      ∙ ground arith in
    let u1 : IsUnique s1.tasks = IsUnique-map _ s.tasks (λ t. ground arith) u in
    let t =
      transition_happens ctx id (queued ∷ claimed ∷ running ∷ retry_wait ∷ []) canceled
        "task.canceled" abort_payload none (some "aborted") s1 row1 u1 e1 (ground arith)
        (ground arith) in
    (
      rw t refl,
      rw t (
          rw (publish_if_found-SameRows "task.canceled" id _).0 (
            select-two
              (if_row (with_status id row.status) (moved ctx.now canceled none (some "aborted")))
              (if_row (with_status id canceled) (abort_row ctx.now)) id s1.tasks row1
              (λ t'. ground arith) (λ t'. ground arith) e1
            ∙ ground arith)),
    )
