-- ===== src/Workers/Passes.antt =====
-- One pass of the loop of `worker` of internal/engine/engine.go.
use go_claw.Common.{◌*◌, String, Option, none, some, List}
use go_claw.Tasks.Model.{running, Task, Ctx, Store, Result, ok, err, second}
use go_claw.Tasks.Lifecycle.{claim_next_pending_task, start_task_run, coalesce}
use go_claw.Tasks.Recovery.{requeue_expired_leases, age_queued_priorities}
use go_claw.Workers.Model.{Engine, World, requeue_failed, claim_failed, start_failed, Other, others}
use go_claw.Workers.Handling.{Course, Texts, handle_task}

-- The times of the calls, the new lease token, the policy's version, what others do between one
-- call and the next, and the course of the handling.
pub record Pass : Type 0 where
  pub requeue_at : Ctx
  pub age_at : Ctx
  pub claim_at : Ctx
  pub start_at : Ctx
  pub lease_token : String
  pub policy_version : String
  pub before_aging : List Other
  pub before_claim : List Other
  pub before_start : List Other
  pub before_handling : List Other
  pub course : Course

unfoldable pub requeue : Ctx → World → World
requeue ctx w = record w {
  store = (requeue_expired_leases ctx w.store).1;
  last_error = elim (requeue_expired_leases ctx w.store).0 [
    | ok n ↦ w.last_error
    | err e ↦ some (requeue_failed e)
  ];
}

unfoldable pub age : Ctx → World → World
age ctx w = record w { store = (age_queued_priorities ctx (30 * second) 10 w.store).1 }

-- What follows `StartTaskRun`.
unfoldable pub after_start : Engine → Texts → Pass → Task → World → Result Unit × Store → World
after_start engine texts p task w (err e, s) = record w {
  store = s;
  last_error = some (start_failed e);
}
after_start engine texts p task w (ok u, s) =
    handle_task engine texts (record task { status = running }) p.course
      (others p.before_handling (record w { store = s }))

abbrev pub start_and_handle : Engine → Texts → Pass → Task → World → World
start_and_handle engine texts p task w =
    after_start engine texts p task w
      (start_task_run p.start_at task.id (coalesce task.lease_owner) p.policy_version w.store)

-- What follows the claim.
unfoldable pub after_claim : Engine → Texts → Pass → World → Result (Option Task) × Store → World
unfolding after_start
after_claim engine texts p w (err e, s) = record w { store = s; last_error = some (claim_failed e) }
after_claim engine texts p w (ok none, s) = record w { store = s }
after_claim engine texts p w (ok (some task), s) =
    start_and_handle engine texts p task (others p.before_start (record w { store = s }))

unfoldable pub pass : Engine → Texts → Pass → World → World
unfolding requeue age after_claim
pass engine texts p w =
    let ready =
      others p.before_claim (age p.age_at (others p.before_aging (requeue p.requeue_at w))) in
    after_claim engine texts p ready
      (claim_next_pending_task p.claim_at p.lease_token engine.agent_id ready.store)
