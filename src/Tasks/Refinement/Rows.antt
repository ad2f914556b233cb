-- ===== src/Tasks/Refinement/Rows.antt =====
-- The row changes of the single transitions keep what Tasks/Steps asks for.
use go_claw.Common.{ℕ, ◌≡◌, String, Bool, true, ◌&&◌, Option, List, [], ◌∷◌, any, arith}
use go_claw.Tasks.Model.{
  TaskStatus, queued, claimed, running, succeeded, failed, canceled, status_eq, Task, Ctx,
  EventPayload, Store,
}
use go_claw.Tasks.Transition.{with_status, can_transition}
use go_claw.Tasks.Steps.{KeepsRows}
use go_claw.Tasks.Moves.{two_updates}
use go_claw.Tasks.Lifecycle.{set_lease, start_row, owned_by}
use go_claw.Tasks.Finish.{clear_lease, finish_row, abort_row}

module _ (ctx : Ctx) (id : String) (event_type : String) (payload : EventPayload)
    (result err_msg : Option String) (s : Store) (from : TaskStatus) where
  abbrev changed : (to : TaskStatus) → (Task → Bool) → (Task → Task) → List TaskStatus → Task → Task
  changed to test change allowed =
      two_updates ctx id allowed to event_type payload result err_msg s from test change

  pub complete-KeepsRows :
      (allowed : List TaskStatus)
      → can_transition from succeeded ≡ true
      → KeepsRows (changed succeeded (with_status id succeeded) (finish_row ctx.now) allowed)
  unfolding can_transition
  complete-KeepsRows allowed c = record {
    same_id = λ t. ground arith;
    stays_final = λ t h. ground arith;
    settled = λ t h. ground arith;
  }

  pub fail-KeepsRows :
      (allowed : List TaskStatus)
      → can_transition from failed ≡ true
      → KeepsRows (changed failed (with_status id failed) (clear_lease ctx.now) allowed)
  unfolding can_transition
  fail-KeepsRows allowed c = record {
    same_id = λ t. ground arith;
    stays_final = λ t h. ground arith;
    settled = λ t h. ground arith;
  }

  pub abort-KeepsRows :
      (allowed : List TaskStatus)
      → can_transition from canceled ≡ true
      → KeepsRows (changed canceled (with_status id canceled) (abort_row ctx.now) allowed)
  unfolding can_transition
  abort-KeepsRows allowed c = record {
    same_id = λ t. ground arith;
    stays_final = λ t h. ground arith;
    settled = λ t h. ground arith;
  }

  pub requeue-KeepsRows :
      any (λ f. status_eq f from) (claimed ∷ running ∷ []) ≡ true
      → KeepsRows
          (changed queued (with_status id queued) (clear_lease ctx.now) (claimed ∷ running ∷ []))
  requeue-KeepsRows c = record {
    same_id = λ t. ground arith;
    stays_final = λ t h. ground arith;
    settled = λ t h. ground arith;
  }

  pub claim-KeepsRows :
      (owner : String) (expires : ℕ)
      → any (λ f. status_eq f from) (queued ∷ []) ≡ true
      → KeepsRows
          (changed claimed (with_status id claimed) (set_lease owner expires ctx.now) (queued ∷ []))
  claim-KeepsRows owner expires c = record {
    same_id = λ t. ground arith;
    stays_final = λ t h. ground arith;
    settled = λ t h. ground arith;
  }

  pub start-KeepsRows :
      (owner policy_version : String)
      → any (λ f. status_eq f from) (claimed ∷ []) ≡ true
      → KeepsRows (
          changed running
            (λ t. with_status id running t && owned_by owner t)
            (start_row ctx.now policy_version)
            (claimed ∷ []))
  start-KeepsRows owner policy_version c = record {
    same_id = λ t. ground arith;
    stays_final = λ t h. ground arith;
    settled = λ t h. ground arith;
  }
