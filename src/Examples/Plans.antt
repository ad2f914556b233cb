-- ===== src/Examples/Plans.antt =====
-- The theorems about the execution of plans (internal/coordinator) with a router of two tasks.
use go_claw.Common.{
  ℕ, ◌≡◌, refl, sym, ap, String, true, false, Option, none, some, List, [], ◌∷◌, map, any, All,
  All-imp, str_eq, eq_refl, arith,
}
use go_claw.Coordinator.Plan.{
  PlanStep, Plan, ok, contains, ids, validate, check_ids, check_dependencies, topo_sort, topo_loop,
  forget,
}
use go_claw.Plans.Records.{
  PlanExecution, PlanExecutionStep, get_plan_execution, create_plan_execution,
  initialize_plan_steps, publish, update_plan_wave, complete_plan_execution, record_step_complete,
}
use go_claw.Plans.Router.{TaskResult, Waited, Router, IsRouter, is_terminal_status}
use go_claw.Plans.Waves.{
  Run, Format, resolve_prompt, after_create, create_one, create_all, retried, store_result,
  settle_one, settle_all, after_wait, after_tasks, execute_wave,
}
use go_claw.Plans.Execution.{execute, resume, run_waves, after_waves, drop, step_records}
use go_claw.Plans.Results.{is_done}
use go_claw.Plans.Covered.{execute_covers}
use go_claw.Plans.Ordered.{WaitsForDependencies, topo_sort-WaitsForDependencies}
use go_claw.Plans.Resumed.{IsPending, execute-IsPending, resume-reruns}

-- How many tasks there are.
data Tasks : Type 0 where
  no_task one_task two_tasks : Tasks

abbrev create : String → String → String → Tasks → Option String × Tasks
create agent session prompt no_task = (some "t1", one_task)
create agent session prompt one_task = (some "t2", two_tasks)
create agent session prompt two_tasks = (none, two_tasks)

abbrev created : Tasks → List String
created no_task = []
created one_task = "t1" ∷ []
created two_tasks = "t2" ∷ "t1" ∷ []

abbrev succeeded : String → TaskResult
succeeded id = record {
  task_id = id;
  status = "SUCCEEDED";
  output = "out";
  duration_ms = 5;
  error = "";
}

abbrev wait : List String → Tasks → Waited × Tasks
wait ids w = (record { results = map succeeded ids; failed = false }, w)

abbrev router : Router
router = record { World = Tasks; create_chat_task = create; wait_for_all = wait; created = created }

all_ended : (ids : List String) → All (λ t. is_terminal_status t.status ≡ true) (map succeeded ids)
all_ended [] = tt
all_ended (id ∷ ids) = (refl, all_ended ids)

all_among :
    (keys ids : List String)
    → All (λ id. contains keys id ≡ true) ids
    → All (λ t. contains keys t.task_id ≡ true) (map succeeded ids)
all_among keys [] a = tt
all_among keys (id ∷ ids) a = (a.0, all_among keys ids a.1)

each_among : (ids : List String) → All (λ id. contains ids id ≡ true) ids
each_among [] = tt
each_among (id ∷ ids) =
    let self = eq_refl id in (ground arith, All-imp _ _ ids (λ k h. ground arith) (each_among ids))

each_has :
    (ids : List String) → All (λ id. any (λ t. str_eq t.task_id id) (map succeeded ids) ≡ true) ids
each_has [] = tt
each_has (id ∷ ids) =
    let self = eq_refl id in (ground arith, All-imp _ _ ids (λ k h. ground arith) (each_has ids))

router-IsRouter : IsRouter router
router-IsRouter = record {
  fresh = is_new;
  gives = is_given;
  ended = λ ids w. all_ended ids;
  asked = λ ids w. all_among ids ids (each_among ids);
  complete = λ ids w e. each_has ids;
}
  where
    is_new :
        (agent session prompt : String) (w : Tasks) (id : String)
        → (create agent session prompt w).0 ≡ some id
        → contains (created w) id ≡ false
    is_new agent session prompt no_task id e = refl
    is_new agent session prompt one_task id e =
        let q : "t2" ≡ id = cc e in ap (contains ("t1" ∷ [])) (sym q)
    is_new agent session prompt two_tasks id e = cc e

    is_given :
        (agent session prompt : String) (w : Tasks) (id : String)
        → (create agent session prompt w).0 ≡ some id
        → created (create agent session prompt w).1 ≡ id ∷ created w
    is_given agent session prompt no_task id e = let q : "t1" ≡ id = cc e in ap (λ k. k ∷ []) q
    is_given agent session prompt one_task id e =
        let q : "t2" ≡ id = cc e in ap (λ k. k ∷ "t1" ∷ []) q
    is_given agent session prompt two_tasks id e = cc e

abbrev format : Format
format = record {
  replace_all = λ text old new. text;
  placeholder = λ id. id;
  refused_text = "failed to create task";
  build_retry_prompt = λ prompt err_msg attempt. prompt;
}

abbrev step : String → List String → PlanStep
step id deps = record {
  id = id;
  agent_id = "default";
  prompt = "p";
  depends_on = deps;
  max_retries = 0;
  require_approval = false;
  approval_timeout_ms = 0;
}

abbrev plan : Plan
plan = record { name = "p"; steps = step "a" [] ∷ step "b" ("a" ∷ []) ∷ [] }

abbrev start : Run router format
start = record {
  tables = record {
    sessions = "s" ∷ [];
    executions = [];
    steps = [];
    has_bus = false;
    published = [];
  };
  results = [];
  world = no_task;
}

no_error : (execute router format 1 "e" plan "s" "" start).0 ≡ none
unfolding execute validate check_ids check_dependencies topo_sort topo_loop forget
    create_plan_execution initialize_plan_steps step_records publish run_waves execute_wave
    create_all create_one after_create resolve_prompt after_tasks after_wait settle_all settle_one
    retried store_result record_step_complete update_plan_wave after_waves complete_plan_execution
no_error = refl

execute_covers_example :
    All
      (λ k. is_done k (execute router format 1 "e" plan "s" "" start).1.results ≡ true)
      (ids plan.steps)
execute_covers_example =
    execute_covers router format router-IsRouter 1 "e" plan "s" "" start no_error

abbrev first_wave : List PlanStep
first_wave = step "a" [] ∷ []

abbrev second_wave : List PlanStep
second_wave = step "b" ("a" ∷ []) ∷ []

abbrev order : List (List PlanStep)
order = first_wave ∷ second_wave ∷ []

sorted : topo_sort plan.steps ≡ ok order
unfolding topo_sort topo_loop check_dependencies
sorted = refl

topo_sort-WaitsForDependencies_example :
    WaitsForDependencies router format "e" "s" (first_wave ∷ []) second_wave [] start
topo_sort-WaitsForDependencies_example =
    topo_sort-WaitsForDependencies router format router-IsRouter "e" "s" plan.steps
      (first_wave ∷ []) second_wave [] start sorted

execute-IsPending_example :
    All IsPending (execute router format 1 "e" plan "s" "" start).1.tables.steps
execute-IsPending_example =
    execute-IsPending router format router-IsRouter 1 "e" plan "s" "" start tt

abbrev execution : PlanExecution
execution = record {
  id = "e";
  plan_name = "p";
  session_id = "s";
  status = "running";
  total_steps = 2;
  completed_steps = 0;
  current_wave = 1;
  created_at = 1;
}

abbrev row : String → ℕ → PlanExecutionStep
row id wave = record {
  execution_id = "e";
  step_id = id;
  step_index = 0;
  wave_number = wave;
  agent_id = "default";
  prompt = "p";
  status = "pending";
  result = none;
  error = none;
}

-- After a crash in the second wave.
abbrev crashed : Run router format
crashed = record {
  tables = record {
    sessions = "s" ∷ [];
    executions = execution ∷ [];
    steps = row "a" 0 ∷ row "b" 1 ∷ [];
    has_bus = false;
    published = [];
  };
  results = [];
  world = one_task;
}

is_valid : validate plan ≡ none
unfolding validate check_ids check_dependencies topo_sort topo_loop forget
is_valid = refl

is_found : get_plan_execution "e" crashed.tables ≡ some execution
unfolding get_plan_execution
is_found = refl

resume-reruns_example :
    resume router format "e" plan crashed
    ≡ after_waves router format false "e" (
        run_waves router format "e" "s"
          (λ s. true)
          1
          (drop 1 order)
          (record crashed { results = [] }))
resume-reruns_example =
    resume-reruns router format router-IsRouter "e" plan crashed execution order is_valid is_found
      sorted (refl, (refl, tt))
