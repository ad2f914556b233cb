-- ===== src/Workers/Model.antt =====
-- The engine of internal/engine/engine.go and what it shares with the rest of the program.
use go_claw.Common.{ℕ, String, Bool, Option, List, [], ◌∷◌, ◌++◌, if◌then◌else◌}
use go_claw.Tasks.Model.{Task, Published, Ctx, Store, Error}
use go_claw.Tasks.Sessions.{ensure_session, add_history}
use go_claw.Tasks.Runs.{Op, step}
use go_claw.Delegations.Model.{
  Delegation, create_delegation, complete_delegation, fail_delegation, mark_delegation_injected,
}

-- `Config`: the agent it works for (empty for all of them), whether it has a bus, the greatest
-- depth of its queue (0 for none).
pub record Engine : Type 0 where
  pub agent_id : String
  pub has_bus : Bool
  pub max_queue_depth : ℕ

-- What `setLastError` keeps: which call failed.
pub data LastError : Type 0 where
  requeue_failed claim_failed start_failed complete_failed : Error → LastError
  task_failed : String → LastError

-- The database, and the engine's own state: the tasks that have a cancel function, the number of
-- active tasks, the last error, and what it published itself.
pub record World : Type 0 where
  pub store : Store
  pub delegations : List Delegation
  pub cancels : List String
  pub active_tasks : ℕ
  pub last_error : Option LastError
  pub events : List Published

-- `publishEvent`
unfoldable pub publish_event : Engine → String → Task → World → World
publish_event engine topic task w = record w {
  events =
      if engine.has_bus
      then w.events ++ record { topic = topic; task_id = task.id } ∷ []
      else w.events;
}

-- What others do with the database while a worker is busy: other workers, the task's own heartbeat,
-- the processor and the callers of the program.
pub data Other : Type 0 where
  task_op : Ctx → Op → Other
  session_op : Bool → String → Other
  history_op : Ctx → String → String → String → String → Other
  create_delegation_op : String → Delegation → Other
  complete_delegation_op : ℕ → String → String → Other
  fail_delegation_op : ℕ → String → String → Other
  mark_injected_op : String → Other

unfoldable pub other : Other → World → World
unfolding step ensure_session add_history create_delegation complete_delegation fail_delegation
    mark_delegation_injected
other (task_op ctx op) w = record w { store = step ctx op w.store }
other (session_op is_uuid id) w = record w { store = (ensure_session is_uuid id w.store).1 }
other (history_op ctx id agent role text) w = record w {
  store = (add_history ctx id agent role text w.store).1;
}
other (create_delegation_op uuid d) w = record w {
  delegations = (create_delegation uuid d w.delegations).1;
}
other (complete_delegation_op now id text) w = record w {
  delegations = complete_delegation now id text w.delegations;
}
other (fail_delegation_op now id text) w = record w {
  delegations = fail_delegation now id text w.delegations;
}
other (mark_injected_op id) w = record w { delegations = mark_delegation_injected id w.delegations }

unfoldable pub others : List Other → World → World
unfolding other
others [] w = w
others (o ∷ os) w = others os (other o w)
