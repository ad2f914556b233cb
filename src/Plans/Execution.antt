-- ===== src/Plans/Execution.antt =====
-- `Execute` and `Resume` of internal/coordinator/executor.go. The store and the waiter are there, as
-- cmd/goclaw/main.go sets them.
use go_claw.Common.{
  ℕ, zero, suc, String, Bool, true, false, not, ◌||◌, Option, none, some, List, [], ◌∷◌, ◌++◌,
  filter, length, str_eq, if◌then◌else◌,
}
use go_claw.Coordinator.Plan.{
  PlanStep, Plan, PlanError, Result, ok, err, validate, topo_sort, is_empty,
}
use go_claw.Plans.Records.{
  Tables, PlanExecution, PlanExecutionStep, create_plan_execution, complete_plan_execution,
  initialize_plan_steps, update_plan_wave, get_plan_execution, get_plan_steps,
}
use go_claw.Plans.Router.{Router}
use go_claw.Plans.Waves.{Run, Format, Results, WaveError, put, execute_wave}

pub data ExecutionError : Type 0 where
  invalid_plan : PlanError → ExecutionError
  not_initialized : ExecutionError
  not_found : ExecutionError
  wave_error : ℕ → WaveError → ExecutionError

-- The records of the steps, wave by wave.
abbrev pub records_of_wave : ℕ → ℕ → List PlanStep → List PlanExecutionStep
records_of_wave wave_number index [] = []
records_of_wave wave_number index (s ∷ ss) =
    record {
      execution_id = "";
      step_id = s.id;
      step_index = index;
      wave_number = wave_number;
      agent_id = s.agent_id;
      prompt = s.prompt;
      status = "";
      result = none;
      error = none;
    }
    ∷ records_of_wave wave_number (suc index) ss

unfoldable pub step_records : ℕ → List (List PlanStep) → List PlanExecutionStep
step_records wave_number [] = []
step_records wave_number (wave ∷ waves) =
    records_of_wave wave_number 0 wave ++ step_records (suc wave_number) waves

-- persisted.Status == "succeeded" || persisted.Status == "failed"
abbrev pub is_recorded : PlanExecutionStep → Bool
is_recorded s = str_eq s.status "succeeded" || str_eq s.status "failed"

abbrev text_of : Option String → String
text_of none = ""
text_of (some t) = t

-- The results that the rows of the steps give.
unfoldable pub hydrate : List PlanExecutionStep → Results → Results
hydrate [] results = results
hydrate (s ∷ ss) results = hydrate ss (
    if is_recorded s
    then put s.step_id
        (record {
          task_id = "";
          status = s.status;
          output = text_of s.result;
          duration_ms = 0;
          error = text_of s.error;
        })
        results
    else results)

-- `stepMap`, in which the last row of a step counts
abbrev pub persisted :
    String → Option PlanExecutionStep → List PlanExecutionStep → Option PlanExecutionStep
persisted id found [] = found
persisted id found (s ∷ ss) = persisted id (if str_eq s.step_id id then some s else found) ss

abbrev pub is_done_step : List PlanExecutionStep → PlanStep → Bool
is_done_step rows s = elim (persisted s.id none rows) [ none ↦ false | some r ↦ is_recorded r ]

-- order[n:]
abbrev pub drop : ℕ → List (List PlanStep) → List (List PlanStep)
drop zero waves = waves
drop (suc n) [] = []
drop (suc n) (wave ∷ waves) = drop n waves

module _ (router : Router) (format : Format) where
  abbrev pub with_tables : (Tables → Tables) → Run router format → Run router format
  with_tables change run = record run { tables = change run.tables }

  -- The loop over the waves, from the number `n` on: the first wave that fails, and its error.
  -- `pending` are the steps of a wave that are to run.
  unfoldable pub run_waves :
      String
      → String
      → (PlanStep → Bool)
      → ℕ
      → List (List PlanStep)
      → Run router format
      → Option (ℕ × WaveError) × Run router format
  run_waves exec_id session_id pending n [] run = (none, run)
  run_waves exec_id session_id pending n (wave ∷ waves) run =
      let step = execute_wave router format exec_id session_id (filter pending wave) run in
      if is_empty (filter pending wave)
      then run_waves exec_id session_id pending (suc n) waves run
      else elim step.0 [
        | some e ↦ (some (n, e), step.1)
        | none ↦
            run_waves exec_id session_id pending (suc n) waves
              (with_tables (update_plan_wave exec_id (suc n)) step.1)
      ]

  -- CompletePlanExecution, unless the caller owns the row
  abbrev pub complete : Bool → String → String → Run router format → Run router format
  complete caller_owns exec_id status run =
      if caller_owns
      then run
      else with_tables (λ t. (complete_plan_execution exec_id status t).1) run

  unfoldable pub after_waves :
      Bool
      → String
      → Option (ℕ × WaveError) × Run router format
      → Option ExecutionError × Run router format
  after_waves caller_owns exec_id (some (n, e), run) =
      (some (wave_error n e), complete caller_owns exec_id "failed" run)
  after_waves caller_owns exec_id (none, run) = (none, complete caller_owns exec_id "succeeded" run)

  abbrev pub run_initialized :
      Bool
      → String
      → String
      → List (List PlanStep)
      → Run router format
      → Bool × Tables
      → Option ExecutionError × Run router format
  run_initialized caller_owns exec_id session_id order run (false, t) =
      (some not_initialized, complete caller_owns exec_id "failed" (record run { tables = t }))
  run_initialized caller_owns exec_id session_id order run (true, t) =
      after_waves caller_owns exec_id
        (run_waves exec_id session_id (λ s. true) 0 order (record run { tables = t; results = [] }))

  abbrev pub run_sorted :
      Bool
      → String
      → String
      → Result (List (List PlanStep))
      → Run router format
      → Option ExecutionError × Run router format
  run_sorted caller_owns exec_id session_id (err e) run =
      (some (invalid_plan e), complete caller_owns exec_id "failed" run)
  run_sorted caller_owns exec_id session_id (ok order) run =
      run_initialized caller_owns exec_id session_id order run
        (initialize_plan_steps exec_id (step_records 0 order) run.tables)

  -- `uuid` is the new id, for an empty `execution_id`.
  unfoldable pub execute :
      ℕ
      → String
      → Plan
      → String
      → String
      → Run router format
      → Option ExecutionError × Run router format
  unfolding run_waves after_waves
  execute now uuid plan session_id execution_id run = elim (validate plan) [
    | some e ↦ (some (invalid_plan e), run)
    | none ↦
        let owns = not (str_eq execution_id "") in
        let exec_id = (if owns then execution_id else uuid) in
        run_sorted owns exec_id session_id (topo_sort plan.steps) (
          if owns
          then run
          else with_tables
              (λ t.
                (create_plan_execution now exec_id plan.name session_id (length plan.steps) t).1)
              run)
  ]

  abbrev pub resume_sorted :
      String
      → PlanExecution
      → List PlanExecutionStep
      → Result (List (List PlanStep))
      → Run router format
      → Option ExecutionError × Run router format
  resume_sorted exec_id execution rows (err e) run =
      (some (invalid_plan e), complete false exec_id "failed" run)
  resume_sorted exec_id execution rows (ok order) run = after_waves false exec_id (
      run_waves exec_id execution.session_id (λ s. not (is_done_step rows s)) execution.current_wave
        (drop execution.current_wave order) run)

  unfoldable pub resume :
      String → Plan → Run router format → Option ExecutionError × Run router format
  unfolding run_waves after_waves
  resume exec_id plan run = elim (validate plan) [
    | some e ↦ (some (invalid_plan e), run)
    | none ↦ elim (get_plan_execution exec_id run.tables) [
      | none ↦ (some not_found, run)
      | some execution ↦
          let rows = get_plan_steps exec_id run.tables in
          resume_sorted exec_id execution rows (topo_sort plan.steps)
            (record run { results = hydrate rows [] })
    ]
  ]
