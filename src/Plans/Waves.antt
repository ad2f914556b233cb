-- ===== src/Plans/Waves.antt =====
-- `executeWave`, `resolvePrompt` and `RetryWithError` of internal/coordinator/executor.go and
-- internal/coordinator/retry.go.
use go_claw.Common.{
  ℕ, String, Bool, false, ◌&&◌, Option, none, some, List, [], ◌∷◌, ◌++◌, ltb, ◌==◌, str_eq,
  if◌then◌else◌,
}
use go_claw.Coordinator.Plan.{PlanStep}
use go_claw.Plans.Records.{Tables, step_started, step_retry, publish, record_step_complete}
use go_claw.Plans.Router.{TaskResult, Waited, Router}

pub record StepResult : Type 0 where
  pub task_id : String
  pub status : String
  pub output : String
  pub duration_ms : ℕ
  pub error : String

-- `map[string]StepResult`
abbrev pub Results : Type 0
Results = List (String × StepResult)

abbrev pub put : String → StepResult → Results → Results
put key v [] = (key, v) ∷ []
put key v ((k, u) ∷ rest) =
    let rest' = put key v rest in if str_eq k key then (key, v) ∷ rest else (k, u) ∷ rest'

abbrev pub lookup : String → Results → Option StepResult
lookup key [] = none
lookup key ((k, u) ∷ rest) = let found = lookup key rest in if str_eq k key then some u else found

-- strings.ReplaceAll, and the two texts that fmt writes: the error of a refused task, and the prompt of
-- a retry, from the prompt, the error and the attempt.
pub record Format : Type 0 where
  pub replace_all : String → String → String → String
  pub placeholder : String → String
  pub refused_text : String
  pub build_retry_prompt : String → String → ℕ → String

unfoldable pub resolve_prompt : Format → String → Results → String
resolve_prompt format template [] = template
resolve_prompt format template ((id, sr) ∷ rest) =
    resolve_prompt format (format.replace_all template (format.placeholder id) sr.output) rest

abbrev pub in_progress : String → StepResult
in_progress id = record {
  task_id = id;
  status = "RUNNING";
  output = "";
  duration_ms = 0;
  error = "";
}

abbrev pub not_created : String → StepResult
not_created text = record {
  task_id = "";
  status = "FAILED";
  output = "";
  duration_ms = 0;
  error = text;
}

abbrev pub step_result : TaskResult → StepResult
step_result t = record {
  task_id = t.task_id;
  status = t.status;
  output = t.output;
  duration_ms = t.duration_ms;
  error = t.error;
}

-- The last step of an id, as in a map that is filled in order; a missing one is the zero value.
abbrev pub zero_step : PlanStep
zero_step = record {
  id = "";
  agent_id = "";
  prompt = "";
  depends_on = [];
  max_retries = 0;
  require_approval = false;
  approval_timeout_ms = 0;
}

abbrev pub step_of : String → PlanStep → List PlanStep → PlanStep
step_of id found [] = found
step_of id found (s ∷ ss) = step_of id (if str_eq s.id id then s else found) ss

-- `taskToStep`, in the order it is filled
abbrev pub step_id_of : String → String → List (String × String) → String
step_id_of task_id found [] = found
step_id_of task_id found ((t, s) ∷ rest) =
    step_id_of task_id (if str_eq t task_id then s else found) rest

abbrev pub max_retries_of : PlanStep → ℕ
max_retries_of s = if s.max_retries == 0 then 2 else s.max_retries

-- `taskIDs`.
abbrev pub tasks_of : List (String × String) → List String
tasks_of [] = []
tasks_of ((t, s) ∷ rest) = t ∷ tasks_of rest

pub data WaveError : Type 0 where
  create_task_failed : String → WaveError
  wait_failed : WaveError

module _ (router : Router) (format : Format) where
  -- The tables, the results so far, and the rest of the program.
  pub record Run : Type 0 where
    pub tables : Tables
    pub results : Results
    pub world : router.World

  unfoldable pub after_create :
      String → PlanStep → Run → Option String × router.World → Option String × Run
  after_create exec_id s run (none, w) = (
    none,
    record run { world = w; results = put s.id (not_created format.refused_text) run.results },
  )
  after_create exec_id s run (some id, w) = (
    some id,
    record run {
      world = w;
      results = put s.id (in_progress id) run.results;
      tables = publish (step_started exec_id s.id id) run.tables;
    },
  )

  -- The body of the first loop: the new task.
  unfoldable pub create_one : String → String → PlanStep → Run → Option String × Run
  unfolding after_create resolve_prompt
  create_one exec_id session_id s run = after_create exec_id s run (
      router.create_chat_task s.agent_id session_id (resolve_prompt format s.prompt run.results)
        run.world)

  -- The first loop: an error, and the pairs of a task and its step.
  unfoldable pub create_all :
      String
      → String
      → List PlanStep
      → List (String × String)
      → Run
      → Option WaveError × List (String × String) × Run
  unfolding create_one
  create_all exec_id session_id [] pairs run = (none, pairs, run)
  create_all exec_id session_id (s ∷ ss) pairs run = elim (create_one exec_id session_id s run).0 [
    | none ↦ (some (create_task_failed s.id), pairs, (create_one exec_id session_id s run).1)
    | some id ↦
        create_all exec_id session_id ss (pairs ++ (id, s.id) ∷ [])
          (create_one exec_id session_id s run).1
  ]

  -- What follows the wait for the retry, by its error and its results.
  unfoldable pub after_retry :
      String → String → TaskResult → Run → Bool → List TaskResult → router.World → TaskResult × Run
  after_retry exec_id step_id tr run false (t ∷ ts) w = (
    t,
    record run { world = w; tables = publish (step_retry exec_id step_id 2 t.error) run.tables },
  )
  after_retry exec_id step_id tr run _ _ w = (tr, record run { world = w })

  unfoldable pub retry_created :
      String → String → TaskResult → Run → Option String × router.World → TaskResult × Run
  unfolding after_retry
  retry_created exec_id step_id tr run (none, w) = (tr, record run { world = w })
  retry_created exec_id step_id tr run (some id, w) =
      let (waited, w') = router.wait_for_all (id ∷ []) w in
      after_retry exec_id step_id tr run waited.failed waited.results w'

  -- One more try for a FAILED task: `retryCount` starts at 0 and is not kept, so that there is one
  -- retry for every limit.
  unfoldable pub retried : String → String → PlanStep → String → TaskResult → Run → TaskResult × Run
  unfolding retry_created
  retried exec_id session_id s step_id tr run =
      if str_eq tr.status "FAILED" && ltb 0 (max_retries_of s)
      then retry_created exec_id step_id tr run (
          router.create_chat_task s.agent_id session_id
            (format.build_retry_prompt s.prompt tr.error 2) run.world)
      else (tr, run)

  unfoldable pub store_result : String → String → TaskResult × Run → Run
  store_result exec_id step_id (tr, run) = record run {
    results = put step_id (step_result tr) run.results;
    tables = (record_step_complete exec_id step_id tr.status tr.output tr.error run.tables).1;
  }

  -- The body of the second loop.
  unfoldable pub settle_one :
      String → String → List PlanStep → List (String × String) → TaskResult → Run → Run
  unfolding retried store_result
  settle_one exec_id session_id steps pairs tr run =
      let step_id = step_id_of tr.task_id "" pairs in
      store_result exec_id step_id
        (retried exec_id session_id (step_of step_id zero_step steps) step_id tr run)

  -- The second loop, over the results in the order in which the map gives them.
  unfoldable pub settle_all :
      String → String → List PlanStep → List (String × String) → List TaskResult → Run → Run
  unfolding settle_one
  settle_all exec_id session_id steps pairs [] run = run
  settle_all exec_id session_id steps pairs (tr ∷ trs) run =
      settle_all exec_id session_id steps pairs trs
        (settle_one exec_id session_id steps pairs tr run)

  unfoldable pub after_wait :
      String
      → String
      → List PlanStep
      → List (String × String)
      → Run
      → Waited × router.World
      → Option WaveError × Run
  unfolding settle_all
  after_wait exec_id session_id steps pairs run (waited, w) = (
    if waited.failed then some wait_failed else none,
    settle_all exec_id session_id steps pairs waited.results (record run { world = w }),
  )

  unfoldable pub after_tasks :
      String
      → String
      → List PlanStep
      → Option WaveError × List (String × String) × Run
      → Option WaveError × Run
  unfolding after_wait
  after_tasks exec_id session_id steps (some e, pairs, run) = (some e, run)
  after_tasks exec_id session_id steps (none, pairs, run) =
      after_wait exec_id session_id steps pairs run (router.wait_for_all (tasks_of pairs) run.world)

  unfoldable pub execute_wave : String → String → List PlanStep → Run → Option WaveError × Run
  unfolding create_all after_tasks
  execute_wave exec_id session_id steps run =
      after_tasks exec_id session_id steps (create_all exec_id session_id steps [] run)
