-- ===== src/Tasks/Claimed.antt =====
-- What a claim returns and writes.
use go_claw.Common.{
  ℕ, ◌+◌, String, ◌≡◌, refl, ◌∙◌, true, false, Option, none, some, [], ◌∷◌, arith, Option-cases,
  inl, inr, ◌⊎◌, filter, All,
}
use go_claw.Tasks.Model.{
  queued, claimed, Task, EventPayload, literal, Ctx, Store, Result, ok, if_row, select_task,
  current_timestamp, default_lease_duration,
}
use go_claw.Tasks.Transition.{with_status, moved, can_transition, append_task_event_tx}
use go_claw.Tasks.Lifecycle.{is_claimable, first_row, claim_next_pending_task, set_lease}
use go_claw.Tasks.Unique.{IsUnique}
use go_claw.Tasks.Outcomes.{select-two, select-id, transition_happens}
use go_claw.Tasks.Queue.{
  ServedBefore, not_empty, first_row-ServedBefore, first_row-In, In-filter, select-In, All-filter,
  none_passes,
}

-- The row with the lease of a claim.
abbrev pub leased : ℕ → String → Task → Task
leased now owner t = record t {
  status = claimed;
  lease_owner = some owner;
  lease_expires_at = some (now + default_lease_duration);
}

-- A row `t` that was claimable, and that no claimable row comes before, is returned with a lease
-- of the caller for 30 seconds, and stored so.
abbrev pub Claims : Ctx → String → String → Store → Result (Option Task) × Store → Task → Type 0
Claims ctx owner agent_id s (r, s') t =
    (r ≡ ok (some (leased ctx.now owner t)))
    × (select_task t.id s.tasks ≡ some t)
    × (is_claimable ctx.now agent_id t ≡ true)
    × All (λ u. is_claimable ctx.now agent_id u ≡ true → ServedBefore t u) s.tasks
    × (select_task t.id s'.tasks
        ≡ some (record (leased ctx.now owner t) { updated_at = current_timestamp ctx.now }))

abbrev claim_payload : EventPayload
claim_payload = literal "{\"reason\":\"claim_next_pending\"}"

-- Where the ids are distinct, a claim never fails: it takes a claimable task (queued, available, and
-- of the agent if one is given) that no other claimable task is to be served before, by priority and
-- then by age, or it returns nothing and changes nothing, and then no task is claimable.
pub claim_takes_first :
    (ctx : Ctx) (owner agent_id : String) (s : Store)
    → IsUnique s.tasks
    → ((t : Task) × Claims ctx owner agent_id s (claim_next_pending_task ctx owner agent_id s) t)
      ⊎ ((claim_next_pending_task ctx owner agent_id s ≡ (ok none, s))
          × All (λ u. is_claimable ctx.now agent_id u ≡ false) s.tasks)
unfolding claim_next_pending_task can_transition append_task_event_tx
claim_takes_first ctx owner agent_id s u =
    let waiting = filter (is_claimable ctx.now agent_id) s.tasks in
    elim (Option-cases (first_row waiting)) [
      | inl n ↦
          inr (rw n refl, none_passes (is_claimable ctx.now agent_id) s.tasks (not_empty waiting n))
      | inr (t, e) ↦
          let i = In-filter (is_claimable ctx.now agent_id) s.tasks t (first_row-In waiting t e) in
          let here = select-In s.tasks t u i.0 in
          let h = select-id t.id s.tasks t here in
          let a =
            transition_happens ctx t.id (queued ∷ []) claimed "task.claimed" claim_payload none none
              s t u here (ground (arith, i.1)) (ground (arith, i.1)) in
          inl (
            t,
            (
              rw e (rw a refl),
              here,
              i.1,
              All-filter (is_claimable ctx.now agent_id) (λ v. ServedBefore t v) s.tasks
                  (first_row-ServedBefore waiting t e),
              rw e (
                  rw a (
                    select-two
                      (if_row (with_status t.id t.status) (moved ctx.now claimed none none))
                      (if_row (with_status t.id claimed)
                        (set_lease owner (ctx.now + default_lease_duration) ctx.now))
                      t.id s.tasks t (λ v. ground arith) (λ v. ground arith) here
                    ∙ ground arith)),
            ),
          )
    ]
