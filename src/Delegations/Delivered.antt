-- ===== src/Delegations/Delivered.antt =====
-- What a delegation creates, and that its result reaches the agent that asked for it.
use go_claw.Common.{
  any-sort_by, ℕ, String, Bool, true, false, not, ◌&&◌, ◌||◌, none, some, List, [], ◌∷◌, ◌++◌, map,
  any, filter, find?, str_eq, ◌≡◌, refl, sym, ap, ◌∙◌, arith, Bool-cases, Option-cases, inl, inr,
  eq_refl, subst,
}
use go_claw.Tasks.Model.{queued, Task, Ctx, Store, Result, ok, err, has_id as has_task_id}
use go_claw.Tasks.Lifecycle.{create_task, new_task, or_default}
use go_claw.Tasks.Finish.{publish}
use go_claw.Tasks.Transition.{append_task_event_tx}
use go_claw.Tasks.Sessions.{ensure_session}
use go_claw.Delegations.Model.{
  Delegation, has_id, create_delegation, complete_delegation, is_pending,
  pending_delegations_for_agent,
}
use go_claw.Delegations.Injection.{Content, complete_with, content_of}
use go_claw.Delegations.Requests.{
  Delegated, delegated, not_delegated, DelegateCall, Desk, refusal, session_of, row_of, after_row,
  after_task, after_session, delegate_task_async,
}

-- The stored row of a delegation.
abbrev pub stored_row : ℕ → DelegateCall → Delegation
stored_row now c = record (row_of now c c.new_task) { id = c.new_delegation }

-- A refusal leaves the delegations alone; otherwise every check passed, and there is one new task of
-- the target agent, queued, and one new row, of that task.
abbrev pub Delegates : (String → Bool) → Ctx → DelegateCall → Desk → Delegated × Desk → Type 0
Delegates is_uuid ctx c desk (not_delegated e, desk') = desk'.delegations ≡ desk.delegations
Delegates is_uuid ctx c desk (delegated id, desk') =
    (id ≡ c.new_delegation)
    × (refusal c desk.agents ≡ none)
    × (desk'.store.tasks
        ≡ desk.store.tasks
          ++ new_task ctx.now c.new_task (session_of is_uuid c) "chat" (or_default c.target_agent)
              queued c.payload
            ∷ [])
    × (desk'.delegations ≡ desk.delegations ++ stored_row ctx.now c ∷ [])

publish-tasks : (topic id : String) (s : Store) → (publish topic id s).tasks ≡ s.tasks
publish-tasks topic id s = ground arith

row-Delegates :
    (is_uuid : String → Bool) (ctx : Ctx) (c : DelegateCall) (desk : Desk) (s : Store)
    → refusal c desk.agents ≡ none
    → s.tasks
      ≡ desk.store.tasks
        ++ new_task ctx.now c.new_task
            (session_of is_uuid c)
            "chat"
            (or_default c.target_agent)
            queued
            c.payload
          ∷ []
    → Delegates is_uuid ctx c desk (
        after_row c desk c.new_task s
          (create_delegation c.new_delegation (row_of ctx.now c c.new_task) desk.delegations))
unfolding create_delegation
row-Delegates is_uuid ctx c desk s f t =
    elim (Bool-cases (any (has_id c.new_delegation) desk.delegations)) [
      | inl e ↦ rw e refl
      | inr e ↦ rw e (refl, f, publish-tasks "delegation.started" c.new_task s ∙ t, refl)
    ]

abbrev task_for : (String → Bool) → Ctx → DelegateCall → Task
task_for is_uuid ctx c =
    new_task ctx.now c.new_task (session_of is_uuid c) "chat" (or_default c.target_agent) queued
      c.payload

-- The task stands behind the others, or none was added.
abbrev Adds : Task → Store → Result String × Store → Type 0
Adds t s (err e, s') = Unit
Adds t s (ok id, s') = (id ≡ t.id) × (s'.tasks ≡ s.tasks ++ t ∷ [])

create_task-Adds :
    (is_uuid : String → Bool) (ctx : Ctx) (c : DelegateCall) (s : Store)
    → Adds
        (task_for is_uuid ctx c)
        s
        (create_task ctx c.new_task c.target_agent (session_of is_uuid c) c.payload s)
unfolding create_task append_task_event_tx
create_task-Adds is_uuid ctx c s =
    elim (Bool-cases (
      any (has_task_id c.new_task) s.tasks
      || not (any (str_eq (session_of is_uuid c)) s.sessions))) [
        | inl e ↦ rw e tt
        | inr e ↦ rw e (refl, refl)
      ]

task-Delegates :
    (is_uuid : String → Bool) (ctx : Ctx) (c : DelegateCall) (desk : Desk) (s : Store)
    (r : Result String × Store)
    → refusal c desk.agents ≡ none
    → s.tasks ≡ desk.store.tasks
    → Adds (task_for is_uuid ctx c) s r
    → Delegates is_uuid ctx c desk (after_task ctx.now c desk r)
task-Delegates is_uuid ctx c desk s (err e, s') f t a = refl
task-Delegates is_uuid ctx c desk s (ok id, s') f t a =
    subst (λ i. Delegates is_uuid ctx c desk (after_task ctx.now c desk (ok i, s'))) (sym a.0)
      (row-Delegates is_uuid ctx c desk s' f (a.1 ∙ ap (λ ts. ts ++ task_for is_uuid ctx c ∷ []) t))

session-Delegates :
    (is_uuid : String → Bool) (ctx : Ctx) (c : DelegateCall) (desk : Desk) (r : Bool × Store)
    → refusal c desk.agents ≡ none
    → r.1.tasks ≡ desk.store.tasks
    → Delegates is_uuid ctx c desk (after_session is_uuid ctx c desk r)
session-Delegates is_uuid ctx c desk (false, s) f t = refl
session-Delegates is_uuid ctx c desk (true, s) f t =
    task-Delegates is_uuid ctx c desk s _ f t (create_task-Adds is_uuid ctx c s)

ensured-tasks :
    (is_uuid : Bool) (id : String) (s : Store) → (ensure_session is_uuid id s).1.tasks ≡ s.tasks
unfolding ensure_session
ensured-tasks is_uuid id s = ground arith

pub delegate_task_async-Delegates :
    (is_uuid : String → Bool) (ctx : Ctx) (c : DelegateCall) (desk : Desk)
    → Delegates is_uuid ctx c desk (delegate_task_async is_uuid ctx c desk)
unfolding delegate_task_async
delegate_task_async-Delegates is_uuid ctx c desk = elim (Option-cases (refusal c desk.agents)) [
  | inr (x, e) ↦ rw (delegate_task_async, e) refl
  | inl e ↦
      rw (delegate_task_async, e)
        (session-Delegates is_uuid ctx c desk
          (ensure_session (is_uuid (session_of is_uuid c)) (session_of is_uuid c) desk.store) e
          (ensured-tasks (is_uuid (session_of is_uuid c)) (session_of is_uuid c) desk.store))
]

pub find-last :
    (p : Delegation → Bool) (ds : List Delegation) (d : Delegation)
    → any p ds ≡ false
    → p d ≡ true
    → find? p (ds ++ d ∷ []) ≡ some d
find-last p [] d n y = rw y refl
find-last p (e ∷ ds) d n y = ground (arith, find-last p ds d)

any-last :
    (p : Delegation → Bool) (f : Delegation → Delegation) (ds : List Delegation) (d : Delegation)
    → p (f d) ≡ true
    → any p (map f (ds ++ d ∷ [])) ≡ true
any-last p f [] d y = ground arith
any-last p f (e ∷ ds) d y = ground (arith, any-last p f ds d)

any-filter :
    (p q : Delegation → Bool) (ds : List Delegation)
    → any p (filter q ds) ≡ any (λ d. q d && p d) ds
any-filter p q [] = refl
any-filter p q (d ∷ ds) = elim (Bool-cases (q d)) [
  | inl e ↦ rw e (ap (λ b. p d || b) (any-filter p q ds))
  | inr e ↦ rw e (any-filter p q ds)
]

-- The message says that the agent completed its task with this result.
abbrev pub tells : String → String → Content → Bool
tells agent result (complete_with a r) = str_eq a agent && str_eq r result
tells agent result _ = false

any-map-contents :
    (p : Content → Bool) (ds : List Delegation)
    → any p (map content_of ds) ≡ any (λ d. p (content_of d)) ds
any-map-contents p [] = refl
any-map-contents p (d ∷ ds) = ap (λ b. p (content_of d) || b) (any-map-contents p ds)

row_tells :
    (now at : ℕ) (c : DelegateCall) (result : String)
    → let d : Delegation = record (stored_row now c) {
      status = "completed";
      result = some result;
      completed_at = some at;
    } in
      (is_pending c.caller_agent d && tells c.target_agent result (content_of d)) ≡ true
unfolding content_of
row_tells now at c result =
    let a = eq_refl c.caller_agent in
    let b = eq_refl c.target_agent in let r = eq_refl result in ground arith

pub told :
    (now at : ℕ) (c : DelegateCall) (result : String) (ds : List Delegation)
    → any (tells c.target_agent result) (
        map content_of (
          pending_delegations_for_agent c.caller_agent
            (complete_delegation at c.new_delegation result (ds ++ stored_row now c ∷ []))))
      ≡ true
unfolding pending_delegations_for_agent complete_delegation
told now at c result ds =
    let self = eq_refl c.new_delegation in
    let say : Delegation → Bool = λ d. tells c.target_agent result (content_of d) in
    any-map-contents (tells c.target_agent result) _
    ∙ any-sort_by (λ d. d.created_at) say _
    ∙ any-filter say (is_pending c.caller_agent) _
    ∙ any-last (λ d. is_pending c.caller_agent d && say d) _ ds (stored_row now c)
        (rw self (row_tells now at c result))
