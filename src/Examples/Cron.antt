-- ===== src/Examples/Cron.antt =====
-- The theorems about schedules (internal/cron) at small agendas.
use go_claw.Common.{false, ◌*◌, ℕ, String, Bool, true, Option, none, some, [], ◌∷◌, ◌+◌, ◌≡◌, refl}
use go_claw.Tasks.Model.{second, Store}
use go_claw.Cron.Model.{Schedule, Agenda, Firing, tick}
use go_claw.Cron.Requests.{NewSchedule, add, request, ticked, run}
use go_claw.Cron.Silent.{run_fires_nothing}

abbrev store : Store
store = record {
  sessions = "s" ∷ [];
  tasks = [];
  task_events = [];
  messages = [];
  task_metrics = [];
  has_bus = false;
  published = [];
}

abbrev hourly : Schedule
hourly = record {
  id = "c";
  name = "report";
  cron_expr = "@hourly";
  payload = "{}";
  session_id = "s";
  enabled = true;
  next_run_at = some 5;
  last_run_at = none;
  created_at = 0;
  updated_at = 0;
}

abbrev agenda : Agenda
agenda = record {
  store = store;
  schedules = hourly ∷ record hourly { id = "d"; next_run_at = some 3 } ∷ [];
}

abbrev next_run_time : String → ℕ → Option ℕ
next_run_time e t = some (t + 10)

abbrev firing : String → Firing
firing id = record { task_id = id; ctx = record { now = 6 * second; trace_id = "-"; run_id = "r" } }

abbrev accept : String → Bool
accept id = true

abbrev added : NewSchedule
added = record {
  name = "report";
  cron_expr = "@hourly";
  payload = "{}";
  session_id = "s";
  new_session = "t";
  new_id = "c";
}

run_fires_nothing_example :
    tick next_run_time 6 firing (
      run accept next_run_time
        (request 1 (add (some added)) ∷ ticked 4 firing ∷ [])
        (record { store = store; schedules = [] }))
    ≡ (
      [],
      run accept next_run_time
          (request 1 (add (some added)) ∷ ticked 4 firing ∷ [])
          (record { store = store; schedules = [] }),
    )
run_fires_nothing_example =
    run_fires_nothing accept next_run_time (request 1 (add (some added)) ∷ ticked 4 firing ∷ [])
      (record { store = store; schedules = [] }) refl 6 firing
