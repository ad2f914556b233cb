-- ===== src/Workers/Handled.antt =====
-- What the handling of a task comes to.
use go_claw.Common.{
  ℕ, ◌+◌, String, ◌≡◌, refl, ◌∙◌, ap, true, false, Option, none, some, List, [], ◌∷◌, ◌++◌,
  Bool-cases, inl, inr, str_eq, if◌then◌else◌,
}
use go_claw.Tasks.Model.{running, Task, Published, Ctx, Store, Result, ok, err, select_task}
use go_claw.Tasks.Finish.{complete_task}
use go_claw.Tasks.Failure.{
  handle_task_failure, error_fingerprint, decide_failure, moves_to_dead_letter, FailureDecision,
  retry_delay,
}
use go_claw.Tasks.Unique.{IsUnique}
use go_claw.Tasks.Outcomes.{complete_task-running, completed, requeued, buried}
use go_claw.Tasks.Failed.{FailureResult, handle_task_failure-running}
use go_claw.Tasks.Aborted.{aborted, abort_task-running}
use go_claw.Delegations.Model.{Delegation}
use go_claw.Workers.Model.{Engine, World, publish_event, others}
use go_claw.Workers.Handling.{
  Course, Texts, Ended, alive, deadline_exceeded, canceled, Processed, processed, process_error,
  abort, fail_with, fail_linked, complete_linked, after_processing, handle_task, cancel_seen,
  save_reply, after_complete, is_alive, register,
}
use go_claw.Workers.Valid.{add_history_rows}

-- The row that a handled failure leaves.
abbrev pub failed_row : Ctx → String → String → ℕ → Task → Task
failed_row ctx id msg fingerprint row =
    let d : FailureDecision = decide_failure row fingerprint in
    if moves_to_dead_letter d.poison_count d.attempt d.max_attempts
    then buried ctx.now msg d row
    else requeued ctx.now (ctx.now + retry_delay id d.attempt) msg d row

abbrev pub timeout_text : String
timeout_text = "task timeout exceeded: context deadline exceeded"

abbrev pub skip_text : String
skip_text = "skip complete after context end: context deadline exceeded"

-- The row that a handling leaves, by what the processor returned and how the context ended.
abbrev pub settled_row : Texts → Ctx → String → Processed → Ended → Task → Task
settled_row texts ctx id (processed result) alive row = completed ctx.now result row
settled_row texts ctx id (processed result) deadline_exceeded row =
    failed_row ctx id skip_text (error_fingerprint (texts.normalize skip_text)) row
settled_row texts ctx id (process_error msg) alive row =
    failed_row ctx id msg (error_fingerprint (texts.normalize msg)) row
settled_row texts ctx id (process_error msg) deadline_exceeded row =
    failed_row ctx id timeout_text (error_fingerprint (texts.normalize timeout_text)) row
settled_row texts ctx id _ canceled row = aborted ctx.now row

-- The table of delegations afterwards: only a saved result and a result that came too late are noted.
abbrev pub linked : Ctx → Task → Processed → Ended → World → List Delegation
linked ctx task (processed result) alive w = (complete_linked ctx task result w).delegations
linked ctx task (processed result) deadline_exceeded w =
    (fail_linked ctx task skip_text w).delegations
linked ctx task _ _ w = w.delegations

abbrev pub topic_of : Processed → Ended → Option String
topic_of (processed result) alive = some "task.succeeded"
topic_of (processed result) canceled = some "task.canceled"
topic_of (process_error msg) canceled = none
topic_of _ _ = some "task.failed"

abbrev pub announced : Engine → Option String → Task → World → List Published
announced engine none task w = w.events
announced engine (some topic) task w =
    if engine.has_bus
    then w.events ++ record { topic = topic; task_id = task.id } ∷ []
    else w.events

-- The row, the delegations and the engine's events afterwards.
abbrev pub Settles : Engine → Texts → Ctx → Task → Processed → Ended → Task → World → World → Type 0
Settles engine texts ctx task p ended row w w' =
    (select_task task.id w'.store.tasks ≡ some (settled_row texts ctx task.id p ended row))
    × (w'.delegations ≡ linked ctx task p ended w)
    × (w'.events ≡ announced engine (topic_of p ended) task w)

failure-select :
    (ctx : Ctx) (id msg : String) (fingerprint : ℕ) (row : Task)
    (r : Result FailureDecision × Store)
    → FailureResult ctx id msg (decide_failure row fingerprint) row r
    → select_task id r.1.tasks ≡ some (failed_row ctx id msg fingerprint row)
failure-select ctx id msg fingerprint row (r, s) h =
    let d : FailureDecision = decide_failure row fingerprint in
    elim (Bool-cases (moves_to_dead_letter d.poison_count d.attempt d.max_attempts)) [
      | inl m ↦
          let h' : (r ≡ ok d) × (select_task id s.tasks ≡ some (buried ctx.now msg d row)) =
            rw m at h in
          rw m h'.1
      | inr m ↦ let h' = rw m at h in rw m h'.1
    ]

pub failure_leaves :
    (ctx : Ctx) (id msg : String) (fingerprint : ℕ) (s : Store) (row : Task)
    → IsUnique s.tasks
    → select_task id s.tasks ≡ some row
    → row.status ≡ running
    → select_task id (handle_task_failure ctx id msg fingerprint s).1.tasks
      ≡ some (failed_row ctx id msg fingerprint row)
failure_leaves ctx id msg fingerprint s row u e r =
    failure-select ctx id msg fingerprint row (handle_task_failure ctx id msg fingerprint s)
      (handle_task_failure-running ctx id msg fingerprint s row u e r)

save_reply_lem :
    (engine : Engine) (ctx : Ctx) (task : Task) (reply : Option String) (w : World)
    → ((save_reply engine ctx task reply w).store.tasks ≡ w.store.tasks)
      × ((save_reply engine ctx task reply w).delegations ≡ w.delegations)
      × ((save_reply engine ctx task reply w).events ≡ w.events)
unfolding save_reply
save_reply_lem engine ctx task none w = (refl, refl, refl)
save_reply_lem engine ctx task (some reply) w = elim (Bool-cases (str_eq reply "")) [
  | inl e ↦ rw e (refl, refl, refl)
  | inr e ↦ rw e (
    (add_history_rows ctx task.session_id engine.agent_id "assistant" reply w.store).0,
    refl,
    refl,
  )
]

after_complete_lem :
    (engine : Engine) (texts : Texts) (ctx : Ctx) (task : Task) (result : String) (row : Task)
    (w : World) (r : Result Unit × Store)
    → r.0 ≡ ok tt
    → select_task task.id r.1.tasks ≡ some (completed ctx.now result row)
    → Settles engine texts ctx task
        (processed result)
        alive
        row
        w
        (after_complete engine texts ctx task result w r)
unfolding after_complete publish_event complete_linked
after_complete_lem engine texts ctx task result row w (err e, s) q h = cc q
after_complete_lem engine texts ctx task result row w (ok u, s) q h =
    let (a, b, c) = save_reply_lem engine ctx task (texts.decode_reply result) (
      publish_event engine "task.succeeded" task
        (complete_linked ctx task result (record w { store = s }))) in
    (ap (select_task task.id) a ∙ h, b, c)

after_processing-Settles :
    (engine : Engine) (texts : Texts) (ctx : Ctx) (task : Task) (p : Processed) (ended : Ended)
    (w : World) (row : Task)
    → IsUnique w.store.tasks
    → select_task task.id w.store.tasks ≡ some row
    → row.status ≡ running
    → Settles engine texts ctx task p ended row w (after_processing engine texts ctx task p ended w)
unfolding after_processing abort fail_with fail_linked publish_event
after_processing-Settles engine texts ctx task (processed result) alive w row u e r =
    let (a, b) = complete_task-running ctx task.id result w.store row u e r in
    after_complete_lem engine texts ctx task result row w (complete_task ctx task.id result w.store)
      a b
after_processing-Settles engine texts ctx task (process_error msg) alive w row u e r =
    (failure_leaves ctx task.id msg _ w.store row u e r, refl, refl)
after_processing-Settles engine texts ctx task (process_error msg) deadline_exceeded w row u e r =
    (failure_leaves ctx task.id timeout_text _ w.store row u e r, refl, refl)
after_processing-Settles engine texts ctx task (processed result) deadline_exceeded w row u e r =
    (failure_leaves ctx task.id skip_text _ w.store row u e r, refl, refl)
after_processing-Settles engine texts ctx task (processed result) canceled w row u e r =
    ((abort_task-running ctx task.id w.store row u e r).1, refl, refl)
after_processing-Settles engine texts ctx task (process_error msg) canceled w row u e r =
    ((abort_task-running ctx task.id w.store row u e r).1, refl, refl)

-- Where the context is alive and no cancellation is flagged when a worker takes up a task, and the
-- ids are distinct and the task is still RUNNING when the processor returns, the task is never left
-- RUNNING: a result in time makes it SUCCEEDED with that result, an ended context makes it CANCELED,
-- and an error or a missed deadline puts it back in the queue or makes it a DEAD_LETTER, as
-- `decide_failure` says. The delegation that is linked to the task is completed with the result, or
-- failed if the result came after the deadline, and left alone in the other cases; and the event of
-- the outcome is published, except after an error of a canceled task.
pub handle_task-Settles :
    (engine : Engine) (texts : Texts) (task : Task) (c : Course) (w : World) (row : Task)
    → is_alive c.ended_before ≡ true
    → cancel_seen task w ≡ false
    → IsUnique (others c.meanwhile (register task w)).store.tasks
    → select_task task.id (others c.meanwhile (register task w)).store.tasks ≡ some row
    → row.status ≡ running
    → Settles engine texts c.after task c.outcome c.ended_after row
        (others c.meanwhile (register task w))
        (handle_task engine texts task c w)
unfolding handle_task
handle_task-Settles engine texts task c w row a f u e r =
    rw (a, f)
      (after_processing-Settles engine texts c.after task c.outcome c.ended_after
        (others c.meanwhile (register task w)) row u e r)
