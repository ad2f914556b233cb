-- ===== src/Plans/Covered.antt =====
-- After an execution without an error, every step has the result of a task that has ended.
use go_claw.Common.{
  ℕ, suc, String, Bool, ◌≡◌, refl, ◌∙◌, ap, sym, true, false, Option, none, some, List, [], ◌∷◌,
  any, filter, All, All-imp, str_eq, eq_iff, arith, Bool-cases, Option-cases, inl, inr, ◌⊎◌, subst,
}
use go_claw.Coordinator.Plan.{
  PlanStep, Plan, Result, ok, err, contains, ids, validate, topo_sort, is_empty,
}
use go_claw.Coordinator.Layers.{with_ids}
use go_claw.Coordinator.Complete.{ids_of, topo_sort_covers}
use go_claw.Plans.Records.{Tables, initialize_plan_steps, update_plan_wave}
use go_claw.Plans.Router.{Router, IsRouter, Waited}
use go_claw.Plans.Waves.{
  Run, Format, Results, tasks_of, create_all, after_wait, after_tasks, execute_wave, WaveError,
  wait_failed,
}
use go_claw.Plans.Execution.{
  invalid_plan, run_waves, after_waves, with_tables, run_initialized, run_sorted, execute,
  step_records,
}
use go_claw.Plans.Results.{is_done}
use go_claw.Plans.Settled.{settle_all-done, settle_all-keeps}
use go_claw.Plans.Created.{HasTask, create_all-HasTask, create_all-done}

module _ (router : Router) (format : Format) (laws : IsRouter router) where
  has_result :
      (task : String) (tasks : List String) (w : Waited)
      → All (λ id. any (λ t. str_eq t.task_id id) w.results ≡ true) tasks
      → contains tasks task ≡ true
      → any (λ t. str_eq t.task_id task) w.results ≡ true
  has_result task [] w a h = cc h
  has_result task (id ∷ tasks) w a h = elim (Bool-cases (str_eq id task)) [
    | inl e ↦ subst (λ i. any (λ t. str_eq t.task_id i) w.results ≡ true) ((eq_iff id task).0 e) a.0
    | inr e ↦ has_result task tasks w a.1 (ground arith)
  ]

  -- The wait and the second loop.
  after_tasks-done :
      (exec_id session_id j : String) (steps : List PlanStep)
      (c : Option WaveError × List (String × String) × Run router format)
      → (after_tasks router format exec_id session_id steps c).0 ≡ none
      → HasTask c.1 j ⊎ (is_done j c.2.results ≡ true)
      → is_done j (after_tasks router format exec_id session_id steps c).1.results ≡ true
  unfolding after_tasks after_wait
  after_tasks-done exec_id session_id j steps (some e, pairs, run) n t = cc n
  after_tasks-done exec_id session_id j steps (none, pairs, run) n (inr h) =
      let (waited, w) = router.wait_for_all (tasks_of pairs) run.world in
      settle_all-keeps router format laws exec_id session_id j steps pairs waited.results
        (record run { world = w }) (laws.ended (tasks_of pairs) run.world) h
  after_tasks-done exec_id session_id j steps (none, pairs, run) n (inl t) =
      let (waited, w) = router.wait_for_all (tasks_of pairs) run.world in
      elim (Bool-cases waited.failed) [
        | inl e ↦ let q : some wait_failed ≡ none = rw e at n in cc q
        | inr e ↦
            settle_all-done router format laws exec_id session_id j t.task steps pairs
              waited.results (record run { world = w }) (laws.ended (tasks_of pairs) run.world)
              ((eq_iff _ j).1 t.leads)
              (inl (
                has_result t.task (tasks_of pairs) waited
                  (laws.complete (tasks_of pairs) run.world e) t.listed))
      ]

  -- A wave without an error makes its steps done, and the others stay so.
  pub execute_wave-done :
      (exec_id session_id j : String) (steps : List PlanStep) (run : Run router format)
      → (execute_wave router format exec_id session_id steps run).0 ≡ none
      → (contains (ids steps) j ≡ true) ⊎ (is_done j run.results ≡ true)
      → is_done j (execute_wave router format exec_id session_id steps run).1.results ≡ true
  unfolding execute_wave
  execute_wave-done exec_id session_id j steps run n h =
      let c = create_all router format exec_id session_id steps [] run in
      after_tasks-done exec_id session_id j steps c n (elim (Bool-cases (contains (ids steps) j)) [
        | inl e ↦ inl (
            create_all-HasTask router format laws exec_id session_id j steps [] run tt (created c n)
              (inr e))
        | inr e ↦ inr (
            create_all-done router format laws exec_id session_id j steps [] run e
              (elim h [ inl k ↦ cc (sym e ∙ k) | inr k ↦ k ]))
      ])
    where
      created :
          (c : Option WaveError × List (String × String) × Run router format)
          → (after_tasks router format exec_id session_id steps c).0 ≡ none
          → c.0 ≡ none
      created (none, pairs, run') n = refl
      created (some e, pairs, run') n = cc n

  pub contains-with_ids :
      (w : List PlanStep) (dn : List String) (j : String)
      → contains (with_ids w dn) j ≡ true
      → (contains (ids w) j ≡ true) ⊎ (contains dn j ≡ true)
  contains-with_ids [] dn j h = inr h
  contains-with_ids (s ∷ w) dn j h = elim (contains-with_ids w (s.id ∷ dn) j h) [
    | inl k ↦ inl (ground arith)
    | inr k ↦ elim (Bool-cases (str_eq s.id j)) [
      | inl e ↦ inl (ground arith)
      | inr e ↦ inr (ground arith)
    ]
  ]

  pub every : (wave : List PlanStep) → filter (λ s. true) wave ≡ wave
  every [] = refl
  every (s ∷ wave) = ap (λ w. s ∷ w) (every wave)

  -- The loop over the waves.
  pub run_waves-done :
      (exec_id session_id j : String) (n : ℕ) (waves : List (List PlanStep)) (dn : List String)
      (run : Run router format)
      → (run_waves router format exec_id session_id (λ s. true) n waves run).0 ≡ none
      → contains (ids_of waves dn) j ≡ true
      → (contains dn j ≡ true → is_done j run.results ≡ true)
      → is_done j (run_waves router format exec_id session_id (λ s. true) n waves run).1.results
        ≡ true
  unfolding run_waves
  run_waves-done exec_id session_id j n [] dn run e h old = old h
  run_waves-done exec_id session_id j n (wave ∷ waves) dn run e h old =
      let batch = filter (λ s. true) wave in
      let member : contains (ids batch) j ≡ contains (ids wave) j =
        ap (λ w. contains (ids w) j) (every wave) in
      let step = execute_wave router format exec_id session_id batch run in
      let next : Run router format =
        with_tables router format (update_plan_wave exec_id (suc n)) step.1 in
      elim (Bool-cases (is_empty batch)) [
        | inl b ↦
            rw (run_waves, b)
              (run_waves-done exec_id session_id j (suc n) waves (with_ids wave dn) run
                (rw (run_waves, b) at e) h
                (λ k. elim (contains-with_ids wave dn j k) [
                  | inl m ↦ absurd (none_in batch b (member ∙ m))
                  | inr m ↦ old m
                ]))
        | inr b ↦ elim (Option-cases step.0) [
          | inr (x, f) ↦ let q : some (n, x) ≡ none = rw (run_waves, b, f) at e in cc q
          | inl f ↦
              rw (run_waves, b, f)
                (run_waves-done exec_id session_id j (suc n) waves (with_ids wave dn) next
                  (rw (run_waves, b, f) at e) h
                  (λ k.
                    execute_wave-done exec_id session_id j batch run f
                      (elim (contains-with_ids wave dn j k) [
                        | inl m ↦ inl (member ∙ m)
                        | inr m ↦ inr (old m)
                      ])))
        ]
      ]
    where
      none_in : (w : List PlanStep) → is_empty w ≡ true → contains (ids w) j ≡ true → ⊥
      none_in [] b m = cc m
      none_in (s ∷ w) b m = cc b

  all_done :
      (keys : List String) (wanted : List String) (results : Results)
      → ((j : String) → contains keys j ≡ true → is_done j results ≡ true)
      → All (λ k. contains keys k ≡ true) wanted
      → All (λ k. is_done k results ≡ true) wanted
  all_done keys wanted results f = All-imp _ _ wanted f

  after_waves-done :
      (owns : Bool) (exec_id : String) (wanted : List String)
      (r : Option (ℕ × WaveError) × Run router format)
      → (after_waves router format owns exec_id r).0 ≡ none
      → (r.0 ≡ none → All (λ k. is_done k r.1.results ≡ true) wanted)
      → All (λ k. is_done k (after_waves router format owns exec_id r).1.results ≡ true) wanted
  unfolding after_waves
  after_waves-done owns exec_id wanted (some (n, e), run) h all_ = cc h
  after_waves-done owns exec_id wanted (none, run) h all_ = elim (Bool-cases owns) [
    | inl e ↦ rw e (all_ refl)
    | inr e ↦ rw e (all_ refl)
  ]

  sorted-done :
      (owns : Bool) (exec_id session_id : String) (steps : List PlanStep)
      (order : List (List PlanStep)) (run : Run router format) (i : Bool × Tables)
      → topo_sort steps ≡ ok order
      → (run_initialized router format owns exec_id session_id order run i).0 ≡ none
      → All
          (λ k.
            is_done k (run_initialized router format owns exec_id session_id order run i).1.results
            ≡ true)
          (ids steps)
  sorted-done owns exec_id session_id steps order run (false, t) e h = cc h
  sorted-done owns exec_id session_id steps order run (true, t) e h =
      after_waves-done owns exec_id (ids steps) _ h (λ n.
        all_done (ids_of order []) (ids steps) _
          (λ j k. run_waves-done exec_id session_id j 0 order [] _ n k (λ m. cc m))
          (topo_sort_covers steps order e))

  run_sorted-done :
      (owns : Bool) (exec_id session_id : String) (steps : List PlanStep)
      (r : Result (List (List PlanStep))) (run : Run router format)
      → topo_sort steps ≡ r
      → (run_sorted router format owns exec_id session_id r run).0 ≡ none
      → All
          (λ k. is_done k (run_sorted router format owns exec_id session_id r run).1.results ≡ true)
          (ids steps)
  run_sorted-done owns exec_id session_id steps (err x) run e h = cc h
  run_sorted-done owns exec_id session_id steps (ok order) run e h =
      sorted-done owns exec_id session_id steps order run
        (initialize_plan_steps exec_id (step_records 0 order) run.tables) e h

  -- With a router that gives each task an id of its own, and a waiter that gives the result of each
  -- task that it waited for unless it fails: where `Execute` returns no error, every step of the plan
  -- has a result of a task that has ended (SUCCEEDED, FAILED, CANCELED or DEAD_LETTER); none is left
  -- RUNNING, and none without a result.
  pub execute_covers :
      (now : ℕ) (uuid : String) (plan : Plan) (session_id execution_id : String)
      (run : Run router format)
      → (execute router format now uuid plan session_id execution_id run).0 ≡ none
      → All
          (λ k.
            is_done k (execute router format now uuid plan session_id execution_id run).1.results
            ≡ true)
          (ids plan.steps)
  unfolding execute
  execute_covers now uuid plan session_id execution_id run h = elim (Option-cases (validate plan)) [
    | inr (x, e) ↦ let q : some (invalid_plan x) ≡ none = rw (execute, e) at h in cc q
    | inl e ↦
        rw (execute, e)
          (run_sorted-done _ _ session_id plan.steps (topo_sort plan.steps) _ refl
            (rw (execute, e) at h))
  ]
