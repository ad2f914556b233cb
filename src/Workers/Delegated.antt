-- ===== src/Workers/Delegated.antt =====
-- A delegation from its request (internal/tools/delegate.go) over the worker that handles its task
-- (internal/engine/engine.go) to the conversation of the agent that asked (internal/engine/brain.go).
use go_claw.Common.{
  String, Bool, true, false, some, List, [], ◌∷◌, ◌++◌, any, map, str_eq, ◌≡◌, ◌∙◌, eq_refl,
}
use go_claw.Tasks.Model.{running, Task, Ctx, select_task}
use go_claw.Tasks.Unique.{IsUnique}
use go_claw.Delegations.Model.{Delegation, get_delegation_by_task_id, pending_delegations_for_agent}
use go_claw.Delegations.Injection.{content_of, inject_pending_delegations}
use go_claw.Delegations.Requests.{
  Delegated, delegated, not_delegated, DelegateCall, Desk, delegate_task_async,
}
use go_claw.Delegations.Delivered.{
  Delegates, stored_row, delegate_task_async-Delegates, tells, told, find-last,
}
use go_claw.Workers.Model.{Engine, World, others}
use go_claw.Workers.Handling.{
  Course, Texts, alive, processed, complete_linked, handle_task, cancel_seen, is_alive, register,
}
use go_claw.Workers.Handled.{linked, handle_task-Settles}

stored :
    (is_uuid : String → Bool) (ctx : Ctx) (c : DelegateCall) (desk : Desk) (id : String)
    (out : Delegated × Desk)
    → Delegates is_uuid ctx c desk out
    → out.0 ≡ delegated id
    → out.1.delegations ≡ desk.delegations ++ stored_row ctx.now c ∷ []
stored is_uuid ctx c desk id (delegated new, desk') (a, b, t, d) e = d
stored is_uuid ctx c desk id (not_delegated x, desk') h e = cc e

completed-tells :
    (ctx at : Ctx) (c : DelegateCall) (task : Task) (result : String) (ds : List Delegation)
    (w : World)
    → any (λ d. str_eq d.task_id c.new_task) ds ≡ false
    → task.id ≡ c.new_task
    → w.delegations ≡ ds ++ stored_row ctx.now c ∷ []
    → any (tells c.target_agent result) (
        map content_of (
          pending_delegations_for_agent c.caller_agent
            (complete_linked at task result w).delegations))
      ≡ true
unfolding complete_linked get_delegation_by_task_id
completed-tells ctx at c task result ds w fresh same e =
    let found =
      find-last (λ d. str_eq d.task_id c.new_task) ds (stored_row ctx.now c) fresh
        (eq_refl c.new_task) in
    rw (same, e) (rw (complete_linked, found) (told ctx.now at.now c result ds))

-- A delegation that was accepted, for a task of an id that no delegation had, comes back: when a worker
-- handles that task and the processor gives a result in time (the conditions of a handling that
-- settles the task), and the delegations are still those that the request left, the next injection for
-- the agent that asked holds the message that the target agent completed the task with that result.
pub delegation_comes_back :
    (is_uuid : String → Bool) (ctx : Ctx) (c : DelegateCall) (desk : Desk) (id : String)
    (engine : Engine) (texts : Texts) (task : Task) (course : Course) (w : World) (row : Task)
    (result : String)
    → (delegate_task_async is_uuid ctx c desk).0 ≡ delegated id
    → str_eq c.caller_agent "" ≡ false
    → any (λ d. str_eq d.task_id c.new_task) desk.delegations ≡ false
    → task.id ≡ c.new_task
    → (others course.meanwhile (register task w)).delegations
      ≡ (delegate_task_async is_uuid ctx c desk).1.delegations
    → is_alive course.ended_before ≡ true
    → cancel_seen task w ≡ false
    → IsUnique (others course.meanwhile (register task w)).store.tasks
    → select_task task.id (others course.meanwhile (register task w)).store.tasks ≡ some row
    → row.status ≡ running
    → course.outcome ≡ processed result
    → course.ended_after ≡ alive
    → any
        (tells c.target_agent result)
        (inject_pending_delegations c.caller_agent
          (handle_task engine texts task course w).delegations).0
      ≡ true
unfolding inject_pending_delegations
delegation_comes_back is_uuid ctx c desk id engine texts task course w row result d named fresh same
      kept a f u e r o t =
    let w' = others course.meanwhile (register task w) in
    let rows =
      kept
      ∙ stored is_uuid ctx c desk id (delegate_task_async is_uuid ctx c desk)
          (delegate_task_async-Delegates is_uuid ctx c desk) d in
    let (settled, delegations, events) =
      handle_task-Settles engine texts task course w row a f u e r in
    let done : (handle_task engine texts task course w).delegations
        ≡ (complete_linked course.after task result w').delegations =
      delegations ∙ (λ i. linked course.after task (o i) (t i) w') in
    rw (named, done)
      (completed-tells ctx course.after c task result desk.delegations w' fresh same rows)
