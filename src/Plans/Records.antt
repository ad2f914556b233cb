-- ===== src/Plans/Records.antt =====
-- The tables `plan_executions` and `plan_execution_steps` of internal/persistence/store.go. Of the
-- times, only the one that orders a recovery is kept; costs, which are floating-point, are left out.
use go_claw.Common.{
  ℕ, ◌+◌, String, Bool, true, false, not, ◌&&◌, ◌||◌, Option, none, some, List, [], ◌∷◌, ◌++◌, map,
  any, filter, find?, ltb, ◌==◌, str_eq, if◌then◌else◌,
}

pub record PlanExecution : Type 0 where
  pub id : String
  pub plan_name : String
  pub session_id : String
  pub status : String
  pub total_steps : ℕ
  pub completed_steps : ℕ
  pub current_wave : ℕ
  pub created_at : ℕ

pub record PlanExecutionStep : Type 0 where
  pub execution_id : String
  pub step_id : String
  pub step_index : ℕ
  pub wave_number : ℕ
  pub agent_id : String
  pub prompt : String
  pub status : String
  pub result : Option String
  pub error : Option String

-- What the store publishes of a plan.
pub data PlanEvent : Type 0 where
  execution_started : String → String → String → ℕ → PlanEvent
  execution_completed : String → String → PlanEvent
  step_started : String → String → String → PlanEvent
  step_retry : String → String → ℕ → String → PlanEvent
  step_completed : String → String → String → String → String → PlanEvent

pub record Tables : Type 0 where
  pub sessions : List String
  pub executions : List PlanExecution
  pub steps : List PlanExecutionStep
  pub has_bus : Bool
  pub published : List PlanEvent

unfoldable pub publish : PlanEvent → Tables → Tables
publish e t = record t { published = if t.has_bus then t.published ++ e ∷ [] else t.published }

abbrev pub is_execution : String → PlanExecution → Bool
is_execution id e = str_eq e.id id

-- The id is a primary key, and the session a foreign key.
unfoldable pub create_plan_execution : ℕ → String → String → String → ℕ → Tables → Bool × Tables
unfolding publish
create_plan_execution now id plan_name session_id total_steps t =
    if any (is_execution id) t.executions || not (any (str_eq session_id) t.sessions)
    then (false, t)
    else (
      true,
      publish (execution_started id plan_name session_id total_steps) (record t {
        executions =
            t.executions
            ++ record {
              id = id;
              plan_name = plan_name;
              session_id = session_id;
              status = "running";
              total_steps = total_steps;
              completed_steps = 0;
              current_wave = 0;
              created_at = now;
            }
              ∷ [];
      }),
    )

-- CHECK(status IN ('running', 'succeeded', 'failed', 'canceled'))
abbrev pub is_execution_status : String → Bool
is_execution_status s =
    str_eq s "running" || str_eq s "succeeded" || str_eq s "failed" || str_eq s "canceled"

abbrev pub update_execution :
    String → (PlanExecution → PlanExecution) → List PlanExecution → List PlanExecution
update_execution id change = map (λ e. if is_execution id e then change e else e)

unfoldable pub complete_plan_execution : String → String → Tables → Bool × Tables
unfolding publish
complete_plan_execution id status t =
    if not (any (is_execution id) t.executions) || not (is_execution_status status)
    then (false, t)
    else (
      true,
      publish (execution_completed id status) (record t {
        executions = update_execution id (λ e. record e { status = status }) t.executions;
      }),
    )

abbrev pub new_step_row : String → PlanExecutionStep → PlanExecutionStep
new_step_row exec_id s = record s {
  execution_id = exec_id;
  status = "pending";
  result = none;
  error = none;
}

-- The execution is a foreign key.
unfoldable pub initialize_plan_steps : String → List PlanExecutionStep → Tables → Bool × Tables
initialize_plan_steps exec_id [] t = (true, t)
initialize_plan_steps exec_id (s ∷ ss) t =
    if any (is_execution exec_id) t.executions
    then (true, record t { steps = t.steps ++ map (new_step_row exec_id) (s ∷ ss) })
    else (false, t)

unfoldable pub update_plan_wave : String → ℕ → Tables → Tables
update_plan_wave exec_id wave t = record t {
  executions = update_execution exec_id (λ e. record e { current_wave = wave }) t.executions;
}

unfoldable pub get_plan_execution : String → Tables → Option PlanExecution
get_plan_execution exec_id t = find? (is_execution exec_id) t.executions

abbrev pub steps_before : PlanExecutionStep → PlanExecutionStep → Bool
steps_before a b =
    ltb a.wave_number b.wave_number
    || (a.wave_number == b.wave_number && ltb a.step_index b.step_index)

-- ORDER BY wave_number ASC, step_index ASC
abbrev pub insert_step : PlanExecutionStep → List PlanExecutionStep → List PlanExecutionStep
insert_step s [] = s ∷ []
insert_step s (r ∷ rs) =
    let rest = insert_step s rs in if steps_before r s then r ∷ rest else s ∷ r ∷ rs

abbrev pub in_order : List PlanExecutionStep → List PlanExecutionStep
in_order [] = []
in_order (s ∷ ss) = insert_step s (in_order ss)

unfoldable pub get_plan_steps : String → Tables → List PlanExecutionStep
get_plan_steps exec_id t = in_order (filter (λ s. str_eq s.execution_id exec_id) t.steps)

abbrev pub is_step : String → String → PlanExecutionStep → Bool
is_step exec_id step_id s = str_eq s.execution_id exec_id && str_eq s.step_id step_id

-- CHECK(status IN ('pending', 'running', 'succeeded', 'failed'))
abbrev pub is_step_status : String → Bool
is_step_status s =
    str_eq s "pending" || str_eq s "running" || str_eq s "succeeded" || str_eq s "failed"

-- One transaction: the CHECK refuses an UPDATE that hits a row, and the rollback restores both tables.
unfoldable pub record_step_complete :
    String → String → String → String → String → Tables → Bool × Tables
unfolding publish
record_step_complete exec_id step_id status result err_msg t =
    if any (is_step exec_id step_id) t.steps && not (is_step_status status) then (false, t) else (
      true,
      publish (step_completed exec_id step_id status result err_msg) (record t {
        steps =
            map
              (λ s.
                if is_step exec_id step_id s
                then record s { status = status; result = some result; error = some err_msg }
                else s)
              t.steps;
        executions =
            update_execution exec_id (λ e. record e { completed_steps = e.completed_steps + 1 })
              t.executions;
      }),
    )

abbrev insert_execution : PlanExecution → List PlanExecution → List PlanExecution
insert_execution e [] = e ∷ []
insert_execution e (f ∷ fs) =
    let rest = insert_execution e fs in
    if ltb f.created_at e.created_at then f ∷ rest else e ∷ f ∷ fs

abbrev by_age : List PlanExecution → List PlanExecution
by_age [] = []
by_age (e ∷ es) = insert_execution e (by_age es)

-- The rows that a recovery resumes, oldest first.
unfoldable pub recover_running_plans : Tables → List PlanExecution
recover_running_plans t = by_age (filter (λ e. str_eq e.status "running") t.executions)
