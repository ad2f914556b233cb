-- ===== src/Workers/Handling.antt =====
-- `handleTask` of internal/engine/engine.go.
use go_claw.Common.{
  ℕ, ◌+◌, ◌-◌, String, Bool, true, false, not, Option, none, some, List, ◌∷◌, filter, if◌then◌else◌,
  str_eq,
}
use go_claw.Tasks.Model.{Task, Ctx, Store, Result, ok, err}
use go_claw.Tasks.Finish.{complete_task, abort_task, is_cancel_requested}
use go_claw.Tasks.Failure.{handle_task_failure, error_fingerprint}
use go_claw.Tasks.Sessions.{add_history}
use go_claw.Delegations.Model.{get_delegation_by_task_id, complete_delegation, fail_delegation}
use go_claw.Workers.Model.{
  Engine, World, task_failed, complete_failed, publish_event, Other, others,
}

-- `taskCtx.Err()`
pub data Ended : Type 0 where
  alive deadline_exceeded canceled : Ended

-- What the processor returns.
pub data Processed : Type 0 where
  processed : String → Processed
  process_error : String → Processed

-- What a worker sees while it handles a task: the times of its calls, the state of the task's context
-- before and after the processor ran, what the processor returned, and what others did meanwhile.
pub record Course : Type 0 where
  pub before : Ctx
  pub after : Ctx
  pub ended_before : Ended
  pub ended_after : Ended
  pub outcome : Processed
  pub meanwhile : List Other

-- strings.ToLower(strings.TrimSpace(_)), in bytes, and the reply that encoding/json finds in a result
pub record Texts : Type 0 where
  pub normalize : String → List ℕ
  pub decode_reply : String → Option String

unfoldable pub abort : Ctx → Task → World → World
abort ctx task w = record w { store = (abort_task ctx task.id w.store).1 }

abbrev pub cancel_seen : Task → World → Bool
cancel_seen task w = elim (is_cancel_requested task.id w.store) [ ok b ↦ b | err e ↦ false ]

unfoldable pub fail_with : Texts → Ctx → Task → String → World → World
fail_with texts ctx task msg w = record w {
  store = (handle_task_failure ctx task.id msg (error_fingerprint (texts.normalize msg)) w.store).1;
  last_error = some (task_failed msg);
}

unfoldable pub fail_linked : Ctx → Task → String → World → World
fail_linked ctx task msg w = record w {
  delegations = elim (get_delegation_by_task_id task.id w.delegations) [
    | none ↦ w.delegations
    | some d ↦ fail_delegation ctx.now d.id msg w.delegations
  ];
}

unfoldable pub complete_linked : Ctx → Task → String → World → World
complete_linked ctx task result w = record w {
  delegations = elim (get_delegation_by_task_id task.id w.delegations) [
    | none ↦ w.delegations
    | some d ↦ complete_delegation ctx.now d.id result w.delegations
  ];
}

unfoldable pub save_reply : Engine → Ctx → Task → Option String → World → World
save_reply engine ctx task none w = w
save_reply engine ctx task (some reply) w = if str_eq reply "" then w else record w {
  store = (add_history ctx task.session_id engine.agent_id "assistant" reply w.store).1;
}

unfoldable pub after_complete :
    Engine → Texts → Ctx → Task → String → World → Result Unit × Store → World
unfolding publish_event complete_linked save_reply
after_complete engine texts ctx task result w (err e, s) = record w {
  store = s;
  last_error = some (complete_failed e);
}
after_complete engine texts ctx task result w (ok u, s) =
    save_reply engine ctx task (texts.decode_reply result) (
      publish_event engine "task.succeeded" task
        (complete_linked ctx task result (record w { store = s })))

-- The part behind the processor.
unfoldable pub after_processing : Engine → Texts → Ctx → Task → Processed → Ended → World → World
unfolding abort fail_with fail_linked publish_event after_complete
after_processing engine texts ctx task (process_error msg) alive w =
    publish_event engine "task.failed" task (fail_with texts ctx task msg w)
after_processing engine texts ctx task (process_error msg) deadline_exceeded w =
    publish_event engine "task.failed" task
      (fail_with texts ctx task "task timeout exceeded: context deadline exceeded" w)
after_processing engine texts ctx task (process_error msg) canceled w = abort ctx task w
after_processing engine texts ctx task (processed result) alive w =
    after_complete engine texts ctx task result w (complete_task ctx task.id result w.store)
after_processing engine texts ctx task (processed result) deadline_exceeded w =
    let msg : String = "skip complete after context end: context deadline exceeded" in
    publish_event engine "task.failed" task
      (fail_linked ctx task msg (fail_with texts ctx task msg w))
after_processing engine texts ctx task (processed result) canceled w =
    publish_event engine "task.canceled" task (abort ctx task w)

abbrev pub register : Task → World → World
register task w = record w { cancels = task.id ∷ w.cancels; active_tasks = w.active_tasks + 1 }

abbrev pub unregister : Task → World → World
unregister task w = record w {
  cancels = filter (λ id. not (str_eq id task.id)) w.cancels;
  active_tasks = w.active_tasks - 1;
}

abbrev pub is_alive : Ended → Bool
is_alive alive = true
is_alive _ = false

unfoldable pub handle_registered : Engine → Texts → Task → Course → World → World
unfolding abort publish_event others after_processing
handle_registered engine texts task c w =
    if not (is_alive c.ended_before)
    then publish_event engine "task.canceled" task (abort c.before task w)
    else if cancel_seen task w
    then publish_event engine "task.canceled" task (abort c.before task w)
    else after_processing engine texts c.after task c.outcome c.ended_after (others c.meanwhile w)

unfoldable pub handle_task : Engine → Texts → Task → Course → World → World
unfolding handle_registered
handle_task engine texts task c w =
    unregister task (handle_registered engine texts task c (register task w))
