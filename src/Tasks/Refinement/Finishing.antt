-- ===== src/Tasks/Refinement/Finishing.antt =====
-- CompleteTask, FailTask and AbortTask take a step of Tasks/Steps.
use go_claw.Common.{◌≡◌, refl, ◌∙◌, String, none, some, List, [], ◌∷◌, arith}
use go_claw.Tasks.Model.{
  queued, claimed, running, retry_wait, succeeded, failed, canceled, TaskStatus, EventPayload,
  literal, with_error, Ctx, Store,
}
use go_claw.Tasks.Transition.{with_status}
use go_claw.Tasks.Finish.{
  publish_if_found, record_task_metrics, complete_task, fail_task, request_cancel, abort_task,
  clear_lease, finish_row, abort_row, cancelable, cancel_row,
}
use go_claw.Tasks.Steps.{Evolves, Evolves-same, Evolves-trans, Evolves-update}
use go_claw.Tasks.Moves.{refused, illegal, done, outcome, Evolves-move}
use go_claw.Tasks.Refinement.Rows.{complete-KeepsRows, fail-KeepsRows, abort-KeepsRows}

-- The rows and the log that a store has
abbrev pub SameRows : Store → Store → Type 0
SameRows s s' = (s'.tasks ≡ s.tasks) × (s'.task_events ≡ s.task_events)

record_task_metrics-SameRows :
    (ctx : Ctx) (id : String) (s : Store) → SameRows s (record_task_metrics ctx id s)
unfolding record_task_metrics
record_task_metrics-SameRows ctx id s = ground arith

pub publish_if_found-SameRows :
    (topic id : String) (s : Store) → SameRows s (publish_if_found topic id s)
unfolding publish_if_found
publish_if_found-SameRows topic id s = ground arith

-- what follows the commits
pub effects-SameRows :
    (ctx : Ctx) (topic id : String) (s : Store)
    → SameRows s (record_task_metrics ctx id (publish_if_found topic id s))
effects-SameRows ctx topic id s =
    let a = record_task_metrics-SameRows ctx id (publish_if_found topic id s) in
    let b = publish_if_found-SameRows topic id s in (a.0 ∙ b.0, a.1 ∙ b.1)

abbrev success_payload : EventPayload
success_payload = literal "{\"reason\":\"processor_success\"}"

pub complete_task-Evolves :
    (ctx : Ctx) (id result : String) (s : Store) → Evolves s (complete_task ctx id result s).1
unfolding complete_task
complete_task-Evolves ctx id result s =
    elim (outcome ctx id (running ∷ []) succeeded "task.succeeded" success_payload (some result)
      none s) [
        | refused e ↦ Evolves-same _ _ (rw e) (rw e)
        | illegal row _ e ↦ Evolves-same _ _ (rw e) (rw e)
        | done row f a c e ↦
            Evolves-move ctx id (running ∷ []) succeeded "task.succeeded" success_payload
              (some result) none s row (with_status id succeeded) (finish_row ctx.now) _ c
              (complete-KeepsRows ctx id "task.succeeded" success_payload (some result) none s
                row.status (running ∷ []) c)
              (rw e (effects-SameRows ctx "task.completed" id _).0)
              (rw e (effects-SameRows ctx "task.completed" id _).1)
      ]

abbrev unfinished : List TaskStatus
unfinished = queued ∷ claimed ∷ running ∷ retry_wait ∷ []

pub fail_task-Evolves :
    (ctx : Ctx) (id err_msg : String) (s : Store) → Evolves s (fail_task ctx id err_msg s).1
unfolding fail_task
fail_task-Evolves ctx id err_msg s =
    let payload = with_error "processor_error" err_msg in
    elim (outcome ctx id unfinished failed "task.failed" payload none (some err_msg) s) [
      | refused e ↦ Evolves-same _ _ (rw e) (rw e)
      | illegal row _ e ↦ Evolves-same _ _ (rw e) (rw e)
      | done row f a c e ↦
          Evolves-move ctx id unfinished failed "task.failed" payload none (some err_msg) s row
            (with_status id failed) (clear_lease ctx.now) _ c
            (fail-KeepsRows ctx id "task.failed" payload none (some err_msg) s row.status unfinished
              c)
            (rw e (effects-SameRows ctx "task.failed" id _).0)
            (rw e (effects-SameRows ctx "task.failed" id _).1)
    ]

pub request_cancel-Evolves :
    (ctx : Ctx) (id : String) (s : Store) → Evolves s (request_cancel ctx id s).1
unfolding request_cancel
request_cancel-Evolves ctx id s =
    Evolves-update s _ (cancelable id) (cancel_row ctx.now)
      (record {
        same_id = λ t. ground arith;
        stays_final = λ t h. ground arith;
        settled = λ t h. ground arith;
      })
      refl refl

abbrev abort_payload : EventPayload
abort_payload = literal "{\"reason\":\"abort_request\"}"

abort_after_request :
    (ctx : Ctx) (id : String) (s : Store)
    → Evolves (request_cancel ctx id s).1 (abort_task ctx id s).1
unfolding abort_task
abort_after_request ctx id s =
    let r = (request_cancel ctx id s).1 in
    elim (outcome ctx id unfinished canceled "task.canceled" abort_payload none (some "aborted")
      r) [
        | refused e ↦ Evolves-same _ _ (rw e) (rw e)
        | illegal row _ e ↦ Evolves-same _ _ (rw e) (rw e)
        | done row f a c e ↦
            Evolves-move ctx id unfinished canceled "task.canceled" abort_payload none
              (some "aborted") r row (with_status id canceled) (abort_row ctx.now) _ c
              (abort-KeepsRows ctx id "task.canceled" abort_payload none (some "aborted") r
                row.status unfinished c)
              (rw e (publish_if_found-SameRows "task.canceled" id _).0)
              (rw e (publish_if_found-SameRows "task.canceled" id _).1)
      ]

pub abort_task-Evolves : (ctx : Ctx) (id : String) (s : Store) → Evolves s (abort_task ctx id s).1
abort_task-Evolves ctx id s =
    Evolves-trans s (request_cancel ctx id s).1 _ (request_cancel-Evolves ctx id s)
      (abort_after_request ctx id s)
