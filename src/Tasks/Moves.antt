-- ===== src/Tasks/Moves.antt =====
-- What `transition_task_tx` does, in three cases, and the step that a transition followed by an
-- UPDATE of the moved row takes.
use go_claw.Common.{
  ◌≡◌, ◌∙◌, String, Bool, true, false, Option, some, List, any, Bool-cases, Option-cases, ◌==◌, inl,
  inr,
}
use go_claw.Tasks.Model.{
  TaskStatus, status_eq, Task, EventPayload, Ctx, Store, Result, ok, err, illegal_transition,
  select_task, update_tasks, rows_affected, if_row,
}
use go_claw.Tasks.Steps.{KeepsRows, Evolves}
use mathlib.Core.List.{map-map}
use go_claw.Tasks.Transition.{
  can_transition, append_task_event_tx, moved, with_status, transition_task_tx,
}

module _ (ctx : Ctx) (id : String) (allowed : List TaskStatus) (to : TaskStatus)
    (event_type : String) (payload : EventPayload) (result err_msg : Option String)
    (s : Store) where
  abbrev pub attempt : Result (Bool × Store)
  attempt = transition_task_tx ctx id allowed to event_type payload result err_msg s

  -- The store after a transition of the row `row`.
  abbrev pub after_move : Task → Store
  after_move row =
      append_task_event_tx ctx id row.session_id (some row.status) to event_type payload (record s {
        tasks = update_tasks (with_status id row.status) (moved ctx.now to result err_msg) s.tasks;
      })

  pub data Outcome : Type 0 where
    refused : attempt ≡ ok (false, s) → Outcome
    illegal :
        (row : Task)
        → select_task id s.tasks ≡ some row
        → attempt ≡ err (illegal_transition row.status to)
        → Outcome
    done :
        (row : Task)
        → select_task id s.tasks ≡ some row
        → any (λ from. status_eq from row.status) allowed ≡ true
        → can_transition row.status to ≡ true
        → attempt ≡ ok (true, after_move row)
        → Outcome

  row_outcome : (row : Task) → select_task id s.tasks ≡ some row → Outcome
  unfolding transition_task_tx
  row_outcome row e = elim (Bool-cases (any (λ from. status_eq from row.status) allowed)) [
    | inr f ↦ refused (rw e (rw f))
    | inl a ↦ elim (Bool-cases (can_transition row.status to)) [
      | inr f ↦ illegal row e (rw e (rw (a, f)))
      | inl c ↦ elim (Bool-cases (rows_affected (with_status id row.status) s.tasks == 1)) [
        | inr f ↦ refused (rw e (rw (a, c, f)))
        | inl one ↦ done row e a c (rw e (rw (a, c, one)))
      ]
    ]
  ]

  pub outcome : Outcome
  unfolding transition_task_tx
  outcome = elim (Option-cases (select_task id s.tasks)) [
    | inl e ↦ refused (rw e)
    | inr (row, e) ↦ row_outcome row e
  ]

  -- What a transition from `from` and the UPDATE behind it do to a row.
  abbrev pub two_updates : TaskStatus → (Task → Bool) → (Task → Task) → Task → Task
  two_updates from test change t =
      if_row test change (if_row (with_status id from) (moved ctx.now to result err_msg) t)

  pub Evolves-move :
      (row : Task) (test : Task → Bool) (change : Task → Task) (s' : Store)
      → can_transition row.status to ≡ true
      → KeepsRows (two_updates row.status test change)
      → s'.tasks ≡ update_tasks test change (after_move row).tasks
      → s'.task_events ≡ (after_move row).task_events
      → Evolves s s'
  unfolding append_task_event_tx
  Evolves-move row test change s' c k t e = record {
    change = two_updates row.status test change;
    keeps = k;
    logged = _;
    rows = t ∙ map-map _ _ s.tasks;
    events = e;
    legal = (c, tt);
  }
