-- ===== src/Plans/Ordered.antt =====
-- A wave starts when the steps that it depends on have ended.
use go_claw.Common.{
  Bool, ◌++◌, ◌+◌, refl, length, Bool-cases, ℕ, suc, String, ◌≡◌, ap, ◌∙◌, true, false, Option,
  none, some, List, [], ◌∷◌, filter, All, All-imp, all, arith, Option-cases, inl, inr,
}
use go_claw.Coordinator.Plan.{is_empty, PlanStep, ok, contains, topo_sort}
use go_claw.Coordinator.Layers.{with_ids, IsLayered, topo_sort-IsLayered}
use go_claw.Plans.Records.{update_plan_wave}
use go_claw.Plans.Router.{Router, IsRouter}
use go_claw.Plans.Waves.{Run, Format, Results, WaveError, execute_wave}
use go_claw.Plans.Execution.{run_waves, with_tables}
use go_claw.Plans.Results.{is_done}
use go_claw.Plans.Covered.{run_waves-done}
use go_claw.Coordinator.Complete.{ids_of}

-- The steps that each of these depends on have a result of an ended task.
abbrev pub AreReady : List PlanStep → Results → Type 0
AreReady wave results = All (λ s. All (λ d. is_done d results ≡ true) s.depends_on) wave

-- The number of the wave behind these, which start at `n`.
abbrev position : ℕ → List (List PlanStep) → ℕ
position n [] = n
position n (w ∷ ws) = position (suc n) ws

position_lem : (n : ℕ) (ws : List (List PlanStep)) → position n ws ≡ n + length ws
position_lem n [] = omega arith
position_lem n (w ∷ ws) = omega (arith, position_lem (suc n) ws)

module _ (router : Router) (format : Format) (exec_id session_id : String) where
  -- The loop over two parts, of which the second runs only when the first succeeds.
  abbrev Appends :
      (PlanStep → Bool)
      → ℕ
      → List (List PlanStep)
      → Option (ℕ × WaveError) × Run router format
      → Option (ℕ × WaveError) × Run router format
      → Type 0
  Appends pending n rest first whole = elim first.0 [
    | some e ↦ whole ≡ first
    | none ↦ whole ≡ run_waves router format exec_id session_id pending n rest first.1
  ]

  run_waves-append :
      (pending : PlanStep → Bool) (n : ℕ) (before rest : List (List PlanStep))
      (run : Run router format)
      → Appends pending
          (position n before)
          rest
          (run_waves router format exec_id session_id pending n before run)
          (run_waves router format exec_id session_id pending n (before ++ rest) run)
  unfolding run_waves
  run_waves-append pending n [] rest run = refl
  run_waves-append pending n (w ∷ before) rest run =
      let step = execute_wave router format exec_id session_id (filter pending w) run in
      elim (Bool-cases (is_empty (filter pending w))) [
        | inl e ↦ rw (run_waves, e) (run_waves-append pending (suc n) before rest run)
        | inr e ↦ elim (Option-cases step.0) [
          | inr (x, f) ↦ rw (run_waves, e, f) refl
          | inl f ↦
              rw (run_waves, e, f)
                (run_waves-append pending (suc n) before rest
                  (with_tables router format (update_plan_wave exec_id (suc n)) step.1))
        ]
      ]

-- A wave that `run_waves` comes to after the waves `before`: where they failed, the whole run is what
-- they came to, and otherwise the steps that the wave's steps depend on have results of ended tasks
-- in the run that the wave starts from.
module _ (router : Router) (format : Format) (exec_id session_id : String) where
  abbrev all_waves :
      List (List PlanStep) → Run router format → Option (ℕ × WaveError) × Run router format
  all_waves = run_waves router format exec_id session_id (λ s. true) 0

  abbrev pub WaitsForDependencies :
      List (List PlanStep) → List PlanStep → List (List PlanStep) → Run router format → Type 0
  WaitsForDependencies before wave after run =
      let whole = all_waves (before ++ wave ∷ after) run in
      elim (all_waves before run).0 [
        | some e ↦ whole ≡ all_waves before run
        | none ↦
            AreReady wave (all_waves before run).1.results
            × (whole
                ≡ run_waves router format exec_id session_id (λ s. true) (length before)
                    (wave ∷ after) (all_waves before run).1)
      ]

module _ (router : Router) (format : Format) (laws : IsRouter router) where
  all_ready :
      (dn deps : List String) (results : Results)
      → ((j : String) → contains dn j ≡ true → is_done j results ≡ true)
      → all (contains dn) deps ≡ true
      → All (λ d. is_done d results ≡ true) deps
  all_ready dn [] results f h = tt
  all_ready dn (d ∷ deps) results f h =
      (f d (ground arith), all_ready dn deps results f (ground arith))

  ready_wave :
      (dn : List String) (wave : List PlanStep) (results : Results)
      → ((j : String) → contains dn j ≡ true → is_done j results ≡ true)
      → All (λ s. (contains dn s.id ≡ false) × (all (contains dn) s.depends_on ≡ true)) wave
      → AreReady wave results
  ready_wave dn wave results f a =
      All-imp _ _ wave (λ s h. all_ready dn s.depends_on results f h.1) a

  layer_at :
      (dn : List String) (before : List (List PlanStep)) (wave : List PlanStep)
      (after : List (List PlanStep))
      → IsLayered dn (before ++ wave ∷ after)
      → All
          (λ s.
            (contains (ids_of before dn) s.id ≡ false)
            × (all (contains (ids_of before dn)) s.depends_on ≡ true))
          wave
  layer_at dn [] wave after l = l.0
  layer_at dn (w ∷ before) wave after l = layer_at (with_ids w dn) before wave after l.1

  -- With a router that gives each task an id of its own, and a waiter that gives, for each task that it
  -- waited for unless it fails and for no other, the result of a task that has ended, however the
  -- waves that topoSort gives are split: if the waves in front of a wave fail, the loop over the waves
  -- ends as they did, and the wave is never started; otherwise the wave starts from what they left, in
  -- which each step that the wave's steps depend on has the result of a task that has ended.
  pub topo_sort-WaitsForDependencies :
      (exec_id session_id : String) (steps : List PlanStep) (before : List (List PlanStep))
      (wave : List PlanStep) (after : List (List PlanStep)) (run : Run router format)
      → topo_sort steps ≡ ok (before ++ wave ∷ after)
      → WaitsForDependencies router format exec_id session_id before wave after run
  unfolding run_waves
  topo_sort-WaitsForDependencies exec_id session_id steps before wave after run h =
      let first = run_waves router format exec_id session_id (λ s. true) 0 before run in
      let split =
        run_waves-append router format exec_id session_id (λ s. true) 0 before (wave ∷ after) run in
      elim (Option-cases first.0) [
        | inr (x, e) ↦ rw (WaitsForDependencies, e) (rw (Appends, e) at split)
        | inl e ↦
            rw (WaitsForDependencies, e)
              (
                ready_wave (ids_of before []) wave first.1.results
                    (λ j k.
                      run_waves-done router format laws exec_id session_id j 0 before [] run e k
                        (λ c. cc c))
                    (layer_at [] before wave after (topo_sort-IsLayered steps _ h)),
                (rw (Appends, e) at split)
                    ∙ ap
                        (λ n.
                          run_waves router format exec_id session_id (λ s. true) n (wave ∷ after)
                            first.1)
                        (omega (arith, position_lem 0 before)),
              )
      ]
