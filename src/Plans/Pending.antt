-- ===== src/Plans/Pending.antt =====
-- The rows of the steps during an execution.
use go_claw.Common.{
  ℕ, suc, String, Bool, ◌≡◌, refl, ◌∙◌, ap, true, false, Option, none, some, List, [], ◌∷◌, ◌++◌,
  map, any, filter, All, str_eq, eq_iff, if◌then◌else◌, arith, Bool-cases, Option-cases, inl, inr,
}
use go_claw.Coordinator.Plan.{PlanStep, is_empty}
use go_claw.Plans.Records.{
  Tables, PlanExecutionStep, publish, is_step, is_step_status, record_step_complete,
  update_plan_wave,
}
use go_claw.Plans.Router.{Router, IsRouter, TaskResult, is_terminal_status}
use go_claw.Plans.Waves.{
  Run, Format, tasks_of, step_id_of, step_of, zero_step, create_one, after_create, create_all,
  after_wait, after_tasks, execute_wave, retried, store_result, settle_one, settle_all, WaveError,
}
use go_claw.Plans.Execution.{run_waves, with_tables}
use go_claw.Plans.Settled.{Ends, retried-Ends}

-- The words of a task's end are not those of a step's row.
terminal_refused : (s : String) → is_terminal_status s ≡ true → is_step_status s ≡ false
terminal_refused s h = elim (Bool-cases (str_eq s "SUCCEEDED")) [
  | inl e ↦ ap is_step_status ((eq_iff s "SUCCEEDED").0 e)
  | inr e ↦ elim (Bool-cases (str_eq s "FAILED")) [
    | inl f ↦ ap is_step_status ((eq_iff s "FAILED").0 f)
    | inr f ↦ elim (Bool-cases (str_eq s "CANCELED")) [
      | inl g ↦ ap is_step_status ((eq_iff s "CANCELED").0 g)
      | inr g ↦ ap is_step_status ((eq_iff s "DEAD_LETTER").0 (ground arith))
    ]
  ]
]

map_none :
    (test : PlanExecutionStep → Bool) (change : PlanExecutionStep → PlanExecutionStep)
    (ss : List PlanExecutionStep)
    → any test ss ≡ false
    → map (λ s. if test s then change s else s) ss ≡ ss
map_none test change [] h = refl
map_none test change (s ∷ ss) h = ground (arith, map_none test change ss)

-- The CHECK of the table refuses the status of an ended task: no row of a step changes.
pub record_step_complete-steps :
    (exec_id step_id status result err_msg : String) (t : Tables)
    → is_terminal_status status ≡ true
    → (record_step_complete exec_id step_id status result err_msg t).1.steps ≡ t.steps
unfolding record_step_complete publish
record_step_complete-steps exec_id step_id status result err_msg t h =
    let r = terminal_refused status h in
    elim (Bool-cases (any (is_step exec_id step_id) t.steps)) [
      | inl e ↦ rw (record_step_complete, e, r) refl
      | inr e ↦ rw (record_step_complete, e) (map_none (is_step exec_id step_id) _ t.steps e)
    ]

module _ (router : Router) (format : Format) (laws : IsRouter router) where
  store_result-steps :
      (exec_id step_id : String) (run : Run router format) (r : TaskResult × Run router format)
      → Ends router format laws run r
      → (store_result router format exec_id step_id r).tables.steps ≡ run.tables.steps
  unfolding store_result
  store_result-steps exec_id step_id run (tr, run') (a, b, c) =
      record_step_complete-steps exec_id step_id tr.status tr.output tr.error run'.tables a ∙ c

  settle_all-steps :
      (exec_id session_id : String) (steps : List PlanStep) (pairs : List (String × String))
      (trs : List TaskResult) (run : Run router format)
      → All (λ t. is_terminal_status t.status ≡ true) trs
      → (settle_all router format exec_id session_id steps pairs trs run).tables.steps
        ≡ run.tables.steps
  unfolding settle_all settle_one
  settle_all-steps exec_id session_id steps pairs [] run a = refl
  settle_all-steps exec_id session_id steps pairs (tr ∷ trs) run a =
      let id = step_id_of tr.task_id "" pairs in
      let s = step_of id zero_step steps in
      settle_all-steps exec_id session_id steps pairs trs
        (settle_one router format exec_id session_id steps pairs tr run) a.1
      ∙ store_result-steps exec_id id run (retried router format exec_id session_id s id tr run)
          (retried-Ends router format laws exec_id session_id s id tr run a.0)

  after_create-steps :
      (exec_id : String) (s : PlanStep) (run : Run router format) (c : Option String × router.World)
      → (after_create router format exec_id s run c).1.tables.steps ≡ run.tables.steps
  unfolding after_create publish
  after_create-steps exec_id s run (none, w) = refl
  after_create-steps exec_id s run (some id, w) = refl

  create_all-steps :
      (exec_id session_id : String) (ss : List PlanStep) (pairs : List (String × String))
      (run : Run router format)
      → (create_all router format exec_id session_id ss pairs run).2.tables.steps ≡ run.tables.steps
  unfolding create_all create_one
  create_all-steps exec_id session_id [] pairs run = refl
  create_all-steps exec_id session_id (s ∷ ss) pairs run =
      let one = create_one router format exec_id session_id s run in
      let same : one.1.tables.steps ≡ run.tables.steps = after_create-steps exec_id s run _ in
      elim (Option-cases one.0) [
        | inl e ↦ rw (create_all, e) same
        | inr (id, e) ↦
            rw (create_all, e)
              (create_all-steps exec_id session_id ss (pairs ++ (id, s.id) ∷ []) one.1 ∙ same)
      ]

  after_tasks-steps :
      (exec_id session_id : String) (steps : List PlanStep)
      (c : Option WaveError × List (String × String) × Run router format)
      → (after_tasks router format exec_id session_id steps c).1.tables.steps ≡ c.2.tables.steps
  unfolding after_tasks after_wait
  after_tasks-steps exec_id session_id steps (some e, pairs, run) = refl
  after_tasks-steps exec_id session_id steps (none, pairs, run) =
      let (waited, w) = router.wait_for_all (tasks_of pairs) run.world in
      settle_all-steps exec_id session_id steps pairs waited.results (record run { world = w })
        (laws.ended (tasks_of pairs) run.world)

  execute_wave-steps :
      (exec_id session_id : String) (steps : List PlanStep) (run : Run router format)
      → (execute_wave router format exec_id session_id steps run).1.tables.steps ≡ run.tables.steps
  unfolding execute_wave
  execute_wave-steps exec_id session_id steps run =
      after_tasks-steps exec_id session_id steps
        (create_all router format exec_id session_id steps [] run)
      ∙ create_all-steps exec_id session_id steps [] run

  pub run_waves-steps :
      (exec_id session_id : String) (pending : PlanStep → Bool) (n : ℕ)
      (waves : List (List PlanStep)) (run : Run router format)
      → (run_waves router format exec_id session_id pending n waves run).1.tables.steps
        ≡ run.tables.steps
  unfolding run_waves update_plan_wave
  run_waves-steps exec_id session_id pending n [] run = refl
  run_waves-steps exec_id session_id pending n (wave ∷ waves) run =
      let step = execute_wave router format exec_id session_id (filter pending wave) run in
      let next : Run router format =
        with_tables router format (update_plan_wave exec_id (suc n)) step.1 in
      let same = execute_wave-steps exec_id session_id (filter pending wave) run in
      elim (Bool-cases (is_empty (filter pending wave))) [
        | inl b ↦ rw (run_waves, b) (run_waves-steps exec_id session_id pending (suc n) waves run)
        | inr b ↦ elim (Option-cases step.0) [
          | inr (x, f) ↦ rw (run_waves, b, f) same
          | inl f ↦
              rw (run_waves, b, f)
                (run_waves-steps exec_id session_id pending (suc n) waves next ∙ same)
        ]
      ]
