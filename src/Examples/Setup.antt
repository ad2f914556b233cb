-- ===== src/Examples/Setup.antt =====
-- Small databases and a handling, for the theorems about the workers and delegations.
use go_claw.Common.{ℕ, ◌*◌, true, false, none, some, List, [], ◌∷◌}
use go_claw.Tasks.Model.{queued, running, Task, Ctx, Store, second}
use go_claw.Tasks.Lifecycle.{new_task}
use go_claw.Delegations.Model.{Delegation}
use go_claw.Workers.Model.{Engine, World, history_op}
use go_claw.Workers.Handling.{Course, Texts, alive, processed}

abbrev pub at : ℕ → Ctx
at n = record { now = n * second; trace_id = "-"; run_id = "r" }

abbrev pub engine : Engine
engine = record { agent_id = ""; has_bus = true; max_queue_depth = 2 }

abbrev pub texts : Texts
texts = record { normalize = λ t. []; decode_reply = some }

abbrev pub waiting : Task
waiting = new_task 0 "a" "s" "chat" "default" queued "p"

abbrev pub started : Task
started = record waiting {
  status = running;
  lease_owner = some "w";
  lease_expires_at = some (30 * second);
}

abbrev pub store_of : List Task → Store
store_of tasks = record {
  sessions = "s" ∷ [];
  tasks = tasks;
  task_events = [];
  messages = [];
  task_metrics = [];
  has_bus = true;
  published = [];
}

abbrev pub delegation : Delegation
delegation = record {
  id = "d";
  task_id = "a";
  parent_agent = "boss";
  child_agent = "default";
  prompt = "p";
  status = "queued";
  result = none;
  error_msg = none;
  created_at = 0;
  completed_at = none;
  injected = false;
}

abbrev pub world_of : List Task → World
world_of tasks = record {
  store = store_of tasks;
  delegations = delegation ∷ [];
  cancels = [];
  active_tasks = 0;
  last_error = none;
  events = [];
}

abbrev pub course : Course
course = record {
  before = at 1;
  after = at 5;
  ended_before = alive;
  ended_after = alive;
  outcome = processed "done";
  meanwhile = history_op (at 2) "s" "" "user" "hello" ∷ [];
}
