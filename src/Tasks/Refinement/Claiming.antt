-- ===== src/Tasks/Refinement/Claiming.antt =====
-- Claims, starts, heartbeats, ageing and the two requeueing loops take a step of Tasks/Steps.
use go_claw.Common.{
  ℕ, ◌+◌, refl, String, Bool, true, false, ◌&&◌, none, List, [], ◌∷◌, filter, suc, Option-cases,
  Bool-cases, inl, inr, arith, if◌then◌else◌, str_eq,
}
use go_claw.Tasks.Model.{
  queued, claimed, running, EventPayload, Task, literal, Ctx, Store, Result, ok, err, select_task,
  default_lease_duration,
}
use go_claw.Tasks.Transition.{with_status, and_then}
use go_claw.Tasks.Lifecycle.{
  is_claimable, first_row, claim_next_pending_task, start_task_run, heartbeat_lease, set_lease,
  start_row, owned_by, heartbeat_test, heartbeat_row, cannot_start,
}
use go_claw.Tasks.Finish.{clear_lease}
use go_claw.Tasks.Recovery.{
  requeue_one, requeue_all, requeue_expired_leases, recover_all, recover_running_tasks,
  delete_orphans, is_starving, age_row, age_queued_priorities, in_flight, is_expired,
}
use go_claw.Tasks.Steps.{
  Evolves, Evolves-same, Evolves-trans, Evolves-update, EvolvesIf, EvolvesIf-trans, Evolves-commit,
}
use go_claw.Tasks.Moves.{refused, illegal, done, outcome, Evolves-move}
use go_claw.Tasks.Refinement.Rows.{requeue-KeepsRows, claim-KeepsRows, start-KeepsRows}

abbrev claim_payload : EventPayload
claim_payload = literal "{\"reason\":\"claim_next_pending\"}"

pub claim_next_pending_task-Evolves :
    (ctx : Ctx) (owner agent_id : String) (s : Store)
    → Evolves s (claim_next_pending_task ctx owner agent_id s).1
unfolding claim_next_pending_task
claim_next_pending_task-Evolves ctx owner agent_id s =
    elim (Option-cases (first_row (filter (is_claimable ctx.now agent_id) s.tasks))) [
      | inl e ↦ Evolves-same _ _ (rw e) (rw e)
      | inr (t, e) ↦
          elim (outcome ctx t.id (queued ∷ []) claimed "task.claimed" claim_payload none none s) [
            | refused f ↦ Evolves-same _ _ (rw (e, f)) (rw (e, f))
            | illegal row _ f ↦ Evolves-same _ _ (rw (e, f)) (rw (e, f))
            | done row _ a c f ↦
                Evolves-move ctx t.id (queued ∷ []) claimed "task.claimed" claim_payload none none s
                  row (with_status t.id claimed)
                  (set_lease owner (ctx.now + default_lease_duration) ctx.now) _ c
                  (claim-KeepsRows ctx t.id "task.claimed" claim_payload none none s row.status
                    owner (ctx.now + default_lease_duration) a)
                  (rw (e, f)) (rw (e, f))
          ]
    ]

abbrev start_payload : EventPayload
start_payload = literal "{\"reason\":\"worker_start\"}"

pub heartbeat_lease-Evolves :
    (ctx : Ctx) (id owner : String) (s : Store) → Evolves s (heartbeat_lease ctx id owner s).1
unfolding heartbeat_lease
heartbeat_lease-Evolves ctx id owner s = elim (Bool-cases (str_eq owner "")) [
  | inl e ↦ Evolves-same _ _ (rw e) (rw e)
  | inr e ↦
      Evolves-update s _ (heartbeat_test id owner) (heartbeat_row ctx.now)
        (record {
          same_id = λ t. ground arith;
          stays_final = λ t h. ground arith;
          settled = λ t h. ground arith;
        })
        (rw e) (rw e)
]

pub age_queued_priorities-Evolves :
    (ctx : Ctx) (threshold max_priority : ℕ) (s : Store)
    → Evolves s (age_queued_priorities ctx threshold max_priority s).1
unfolding age_queued_priorities
age_queued_priorities-Evolves ctx threshold max_priority s =
    Evolves-update s _ (is_starving ctx.now threshold max_priority) (age_row ctx.now max_priority)
      (record {
        same_id = λ t. ground arith;
        stays_final = λ t h. ground arith;
        settled = λ t h. ground arith;
      })
      refl refl

requeue_one-Evolves :
    (ctx : Ctx) (event_type : String) (payload : EventPayload) (id : String) (s : Store)
    → EvolvesIf s (requeue_one ctx event_type payload id s)
unfolding requeue_one
requeue_one-Evolves ctx event_type payload id s =
    elim (outcome ctx id (claimed ∷ running ∷ []) queued event_type payload none none s) [
      | refused e ↦ rw e (Evolves-same s s refl refl)
      | illegal row _ e ↦ rw e tt
      | done row _ a c e ↦ rw e (
          Evolves-move ctx id (claimed ∷ running ∷ []) queued event_type payload none none s row
            (with_status id queued) (clear_lease ctx.now) _ c
            (requeue-KeepsRows ctx id event_type payload none none s row.status a) refl refl)
    ]

pub start_task_run-Evolves :
    (ctx : Ctx) (id owner policy_version : String) (s : Store)
    → Evolves s (start_task_run ctx id owner policy_version s).1
unfolding start_task_run
start_task_run-Evolves ctx id owner policy_version s =
    elim (Option-cases (select_task id s.tasks)) [
      | inl e ↦ Evolves-same _ _ (rw e) (rw e)
      | inr (t, e) ↦ elim (Bool-cases (cannot_start t owner)) [
        | inl no_start ↦ Evolves-same _ _ (rw (e, no_start)) (rw (e, no_start))
        | inr may ↦
            elim (outcome ctx id (claimed ∷ []) running "task.running" start_payload none none s) [
              | refused f ↦ Evolves-same _ _ (rw e (rw (may, f))) (rw e (rw (may, f)))
              | illegal row _ f ↦ Evolves-same _ _ (rw e (rw (may, f))) (rw e (rw (may, f)))
              | done row _ a c f ↦
                  Evolves-move ctx id (claimed ∷ []) running "task.running" start_payload none none
                    s row (λ u. with_status id running u && owned_by owner u)
                    (start_row ctx.now policy_version) _ c
                    (start-KeepsRows ctx id "task.running" start_payload none none s row.status
                      owner policy_version a)
                    (rw e (rw (may, f))) (rw e (rw (may, f)))
            ]
      ]
    ]

abbrev expired_payload : EventPayload
expired_payload = literal "{\"reason\":\"lease_expired\"}"

abbrev recovery_payload : EventPayload
recovery_payload = literal "{\"reason\":\"startup_recovery\"}"

requeue_all-Evolves :
    (ctx : Ctx) (ts : List Task) (n : ℕ) (s : Store) → EvolvesIf s (requeue_all ctx ts n s)
unfolding requeue_all
requeue_all-Evolves ctx [] n s = Evolves-same s s refl refl
requeue_all-Evolves ctx (t ∷ ts) n s =
    step (requeue_one ctx "task.lease_expired_requeued" expired_payload t.id s)
      (requeue_one-Evolves ctx "task.lease_expired_requeued" expired_payload t.id s)
      (requeue_all-Evolves ctx ts)
  where
    step :
        (r : Result (Bool × Store))
        → EvolvesIf s r
        → ((m : ℕ) (s' : Store) → EvolvesIf s' (requeue_all ctx ts m s'))
        → EvolvesIf s (and_then r (λ done s'. requeue_all ctx ts (if done then suc n else n) s'))
    step (ok (b, s')) p rest =
        EvolvesIf-trans s s' (requeue_all ctx ts (if b then suc n else n) s') p (rest _ s')
    step (err e) p rest = tt

delete_orphans-Evolves : (t : Task) (s : Store) → Evolves s (delete_orphans t s)
delete_orphans-Evolves t s = Evolves-same _ _ (ground arith) (ground arith)

recover_all-Evolves :
    (ctx : Ctx) (ts : List Task) (n : ℕ) (s : Store) → EvolvesIf s (recover_all ctx ts n s)
unfolding recover_all
recover_all-Evolves ctx [] n s = Evolves-same s s refl refl
recover_all-Evolves ctx (t ∷ ts) n s =
    step (requeue_one ctx "task.recovered" recovery_payload t.id s)
      (requeue_one-Evolves ctx "task.recovered" recovery_payload t.id s)
      (recover_all-Evolves ctx ts)
  where
    step :
        (r : Result (Bool × Store))
        → EvolvesIf s r
        → ((m : ℕ) (s' : Store) → EvolvesIf s' (recover_all ctx ts m s'))
        → EvolvesIf s (
            and_then r (λ done s'.
              recover_all ctx ts
                (if done then suc n else n)
                (if done then delete_orphans t s' else s')))
    step (ok (true, s')) p rest =
        EvolvesIf-trans s (delete_orphans t s') (recover_all ctx ts (suc n) (delete_orphans t s'))
          (Evolves-trans s s' _ p (delete_orphans-Evolves t s')) (rest _ _)
    step (ok (false, s')) p rest = EvolvesIf-trans s s' (recover_all ctx ts n s') p (rest _ s')
    step (err e) p rest = tt

pub requeue_expired_leases-Evolves :
    (ctx : Ctx) (s : Store) → Evolves s (requeue_expired_leases ctx s).1
unfolding requeue_expired_leases
requeue_expired_leases-Evolves ctx s =
    Evolves-commit s (requeue_all ctx (filter (is_expired ctx.now) s.tasks) 0 s)
      (requeue_all-Evolves ctx (filter (is_expired ctx.now) s.tasks) 0 s)

pub recover_running_tasks-Evolves :
    (ctx : Ctx) (s : Store) → Evolves s (recover_running_tasks ctx s).1
unfolding recover_running_tasks
recover_running_tasks-Evolves ctx s =
    Evolves-commit s (recover_all ctx (filter in_flight s.tasks) 0 s)
      (recover_all-Evolves ctx (filter in_flight s.tasks) 0 s)
