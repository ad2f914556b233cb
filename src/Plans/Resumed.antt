-- ===== src/Plans/Resumed.antt =====
-- What a resumed execution finds in the rows of the steps.
use mathlib.Core.Path.{fun_ext}
use go_claw.Common.{
  ℕ, String, Bool, ◌≡◌, refl, ap, true, false, not, ◌||◌, Option, none, some, List, [], ◌∷◌, map,
  any, filter, length, All, All-append, str_eq, if◌then◌else◌, arith, Bool-cases, Option-cases, inl,
  inr, subst,
}
use go_claw.Coordinator.Plan.{PlanStep, Plan, Result, ok, err, validate, topo_sort}
use go_claw.Plans.Records.{
  Tables, PlanExecution, PlanExecutionStep, publish, create_plan_execution, initialize_plan_steps,
  complete_plan_execution, new_step_row, get_plan_steps, get_plan_execution, insert_step, in_order,
  steps_before,
}
use go_claw.Plans.Router.{Router, IsRouter}
use go_claw.Plans.Waves.{Run, Format, Results, WaveError}
use go_claw.Plans.Execution.{
  run_waves, after_waves, complete, with_tables, run_initialized, run_sorted, execute, step_records,
  hydrate, is_recorded, is_done_step, resume, persisted, drop,
}
use go_claw.Plans.Pending.{run_waves-steps}

abbrev pub IsPending : PlanExecutionStep → Type 0
IsPending s = s.status ≡ "pending"

All-filter :
    {A : Type 0} (P : A → Type 0) (test : A → Bool) (xs : List A)
    → All P xs
    → All P (filter test xs)
All-filter P test [] a = tt
All-filter P test (x ∷ xs) a = elim (Bool-cases (test x)) [
  | inl e ↦ rw e (a.0, All-filter P test xs a.1)
  | inr e ↦ rw e (All-filter P test xs a.1)
]

All-insert :
    (s : PlanExecutionStep) (ss : List PlanExecutionStep)
    → IsPending s
    → All IsPending ss
    → All IsPending (insert_step s ss)
All-insert s [] p a = (p, tt)
All-insert s (r ∷ rs) p a = elim (Bool-cases (steps_before r s)) [
  | inl e ↦ rw e (a.0, All-insert s rs p a.1)
  | inr e ↦ rw e (p, a)
]

All-in_order : (ss : List PlanExecutionStep) → All IsPending ss → All IsPending (in_order ss)
All-in_order [] a = tt
All-in_order (s ∷ ss) a = All-insert s (in_order ss) a.0 (All-in_order ss a.1)

get_plan_steps-IsPending :
    (exec_id : String) (t : Tables)
    → All IsPending t.steps
    → All IsPending (get_plan_steps exec_id t)
unfolding get_plan_steps
get_plan_steps-IsPending exec_id t a = All-in_order _ (All-filter IsPending _ t.steps a)

pending-not_recorded : (s : PlanExecutionStep) → IsPending s → is_recorded s ≡ false
pending-not_recorded s p = ap (λ w. str_eq w "succeeded" || str_eq w "failed") p

hydrate-pending :
    (ss : List PlanExecutionStep) (results : Results)
    → All IsPending ss
    → hydrate ss results ≡ results
unfolding hydrate
hydrate-pending [] results a = refl
hydrate-pending (s ∷ ss) results a =
    let n = pending-not_recorded s a.0 in rw n (hydrate-pending ss results a.1)

persisted-pending :
    (id : String) (found : Option PlanExecutionStep) (ss : List PlanExecutionStep)
    → ((r : PlanExecutionStep) → found ≡ some r → is_recorded r ≡ false)
    → All IsPending ss
    → (r : PlanExecutionStep) → persisted id found ss ≡ some r
    → is_recorded r ≡ false
persisted-pending id found [] f a r e = f r e
persisted-pending id found (s ∷ ss) f a r e =
    persisted-pending id (if str_eq s.step_id id then some s else found) ss
      (λ r' e'. elim (Bool-cases (str_eq s.step_id id)) [
        | inl h ↦
            let q : some s ≡ some r' = rw h at e' in
            let same : s ≡ r' = cc q in
            subst (λ x. is_recorded x ≡ false) same (pending-not_recorded s a.0)
        | inr h ↦ f r' (rw h at e')
      ])
      a.1 r e

is_done_step-pending :
    (rows : List PlanExecutionStep) (s : PlanStep)
    → All IsPending rows
    → is_done_step rows s ≡ false
is_done_step-pending rows s a = elim (Option-cases (persisted s.id none rows)) [
  | inl e ↦ rw (is_done_step, e) refl
  | inr (r, e) ↦ rw (is_done_step, e) (persisted-pending s.id none rows (λ r' e'. cc e') a r e)
]

module _ (router : Router) (format : Format) (laws : IsRouter router) where
  complete-steps :
      (owns : Bool) (exec_id status : String) (run : Run router format)
      → (complete router format owns exec_id status run).tables.steps ≡ run.tables.steps
  unfolding complete_plan_execution publish
  complete-steps owns exec_id status run = ground arith

  after_waves-steps :
      (owns : Bool) (exec_id : String) (r : Option (ℕ × WaveError) × Run router format)
      → (after_waves router format owns exec_id r).1.tables.steps ≡ r.1.tables.steps
  unfolding after_waves
  after_waves-steps owns exec_id (some (n, e), run) = complete-steps owns exec_id "failed" run
  after_waves-steps owns exec_id (none, run) = complete-steps owns exec_id "succeeded" run

  new_rows-IsPending :
      (exec_id : String) (ss : List PlanExecutionStep)
      → All IsPending (map (new_step_row exec_id) ss)
  new_rows-IsPending exec_id [] = tt
  new_rows-IsPending exec_id (s ∷ ss) = (refl, new_rows-IsPending exec_id ss)

  initialized-IsPending :
      (exec_id : String) (ss : List PlanExecutionStep) (t : Tables)
      → All IsPending t.steps
      → All IsPending (initialize_plan_steps exec_id ss t).1.steps
  unfolding initialize_plan_steps
  initialized-IsPending exec_id [] t a = a
  initialized-IsPending exec_id (s ∷ ss) t a =
      elim (Bool-cases (any (λ e. str_eq e.id exec_id) t.executions)) [
        | inl e ↦
            rw (initialize_plan_steps, e)
              (All-append IsPending t.steps _ a (new_rows-IsPending exec_id (s ∷ ss)))
        | inr e ↦ rw (initialize_plan_steps, e) a
      ]

  run_initialized-IsPending :
      (owns : Bool) (exec_id session_id : String) (order : List (List PlanStep))
      (run : Run router format) (i : Bool × Tables)
      → All IsPending i.1.steps
      → All IsPending
          (run_initialized router format owns exec_id session_id order run i).1.tables.steps
  run_initialized-IsPending owns exec_id session_id order run (false, t) a =
      rw (complete-steps owns exec_id "failed" (record run { tables = t })) a
  run_initialized-IsPending owns exec_id session_id order run (true, t) a =
      let start : Run router format = record run { tables = t; results = [] } in
      let r = run_waves router format exec_id session_id (λ s. true) 0 order start in
      rw (after_waves-steps owns exec_id r)
        (rw (run_waves-steps router format laws exec_id session_id (λ s. true) 0 order start) a)

  run_sorted-IsPending :
      (owns : Bool) (exec_id session_id : String) (r : Result (List (List PlanStep)))
      (run : Run router format)
      → All IsPending run.tables.steps
      → All IsPending (run_sorted router format owns exec_id session_id r run).1.tables.steps
  run_sorted-IsPending owns exec_id session_id (err x) run a =
      rw (complete-steps owns exec_id "failed" run) a
  run_sorted-IsPending owns exec_id session_id (ok order) run a =
      run_initialized-IsPending owns exec_id session_id order run
        (initialize_plan_steps exec_id (step_records 0 order) run.tables)
        (initialized-IsPending exec_id (step_records 0 order) run.tables a)

  created-steps :
      (now : ℕ) (id name session_id : String) (total : ℕ) (t : Tables)
      → (create_plan_execution now id name session_id total t).1.steps ≡ t.steps
  unfolding create_plan_execution publish
  created-steps now id name session_id total t = ground arith

  -- If the row of every step is "pending" before an execution, it is so afterwards, however the tasks
  -- end: the words in which a task's end is recorded ("SUCCEEDED" and the like) are none that the
  -- table's CHECK admits, so that no step is ever recorded as complete.
  pub execute-IsPending :
      (now : ℕ) (uuid : String) (plan : Plan) (session_id execution_id : String)
      (run : Run router format)
      → All IsPending run.tables.steps
      → All IsPending
          (execute router format now uuid plan session_id execution_id run).1.tables.steps
  unfolding execute
  execute-IsPending now uuid plan session_id execution_id run a =
      let created = create_plan_execution now uuid plan.name session_id (length plan.steps) in
      let started : Run router format = with_tables router format (λ t. (created t).1) run in
      elim (Option-cases (validate plan)) [
        | inr (x, e) ↦ rw (execute, e) a
        | inl e ↦
            rw (execute, e)
              (elim (Bool-cases (str_eq execution_id "")) [
                | inl n ↦ rw n (
                    run_sorted-IsPending false uuid session_id (topo_sort plan.steps) started (
                      rw
                        (created-steps now uuid plan.name session_id (length plan.steps) run.tables)
                        a))
                | inr n ↦
                    rw n (
                      run_sorted-IsPending true execution_id session_id (topo_sort plan.steps) run
                        a)
              ])
      ]

  -- A resumed execution whose rows are all "pending" (as every execution leaves them) skips the waves
  -- before the recorded one, and takes no step as done: it runs every step of the recorded wave and of
  -- the later ones, and starts without the results of the earlier waves.
  pub resume-reruns :
      (exec_id : String) (plan : Plan) (run : Run router format) (execution : PlanExecution)
      (order : List (List PlanStep))
      → validate plan ≡ none
      → get_plan_execution exec_id run.tables ≡ some execution
      → topo_sort plan.steps ≡ ok order
      → All IsPending run.tables.steps
      → resume router format exec_id plan run
        ≡ after_waves router format false exec_id (
            run_waves router format exec_id execution.session_id
              (λ s. true)
              execution.current_wave
              (drop execution.current_wave order)
              (record run { results = [] }))
  unfolding resume
  resume-reruns exec_id plan run execution order v g o a =
      let rows = get_plan_steps exec_id run.tables in
      let a' = get_plan_steps-IsPending exec_id run.tables a in
      let every : (λ s. not (is_done_step rows s)) ≡ (λ s. true) =
        fun_ext (λ s. ap not (is_done_step-pending rows s a')) in
      rw (resume, v, g, o)
        (rw (hydrate-pending rows [] a') (
          ap
            (λ p. after_waves router format false exec_id (
              run_waves router format exec_id execution.session_id p execution.current_wave
                (drop execution.current_wave order) (record run { results = [] })))
            every))
