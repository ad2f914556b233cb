-- ===== src/Coordinator/TopoSort.antt =====
-- The waves of topoSort (internal/coordinator/executor.go): order, totality, cycles.
use go_claw.Common.{
  ℕ, zero, suc, ◌+◌, ◌≤◌, ◌<◌, String, true, false, none, some, List, [], ◌∷◌, ◌++◌, All, length,
  ltb, ◌≡◌, ◌≢◌, ◌⊎◌, sym, ◌∙◌, inl, inr, arith, Bool-cases, Option-cases,
}
use go_claw.Coordinator.Plan.{
  PlanStep, ok, err, PlanError, cycle, out_of_fuel, add_key, mark, ids, can_run, wave_of, is_empty,
  topo_loop, topo_sort, check_dependencies, missing, nonexistent_step,
}
use go_claw.Coordinator.Keys.{length-mark}

pub names_step :
    (keys : List String) (steps : List PlanStep) (x : PlanError)
    → check_dependencies keys steps ≡ some x
    → (s : String) × (dep : String) × (x ≡ nonexistent_step s dep)
unfolding check_dependencies
names_step keys [] x h = absurd (ground arith)
names_step keys (s ∷ steps) x h = elim (Option-cases (missing keys s.depends_on)) [
  | inl e ↦ names_step keys steps x (rw (e, check_dependencies) at h)
  | inr (dep, e) ↦
      let q : some (nonexistent_step s.id dep) ≡ some x = rw (e, check_dependencies) at h in
      (s.id, dep, cc q)
]

-- Either every dependency names a step, and the loop runs, or the error is the one found.
pub sort_cases :
    (steps : List PlanStep)
    → ((check_dependencies (ids steps) steps ≡ none)
        × (topo_sort steps ≡ topo_loop (suc (length steps)) steps [] []))
      ⊎ ((x : PlanError) × (check_dependencies (ids steps) steps ≡ some x)
          × (topo_sort steps ≡ err x))
unfolding topo_sort
sort_cases steps = elim (Option-cases (check_dependencies (ids steps) steps)) [
  | inl e ↦ inl (e, rw (topo_sort, e))
  | inr (x, e) ↦ inr (x, e, rw (topo_sort, e))
]

-- What a round of the loop does.
pub data Round (fuel : ℕ) (steps : List PlanStep) (done : List String)
    (waves : List (List PlanStep)) : Type 0 where
  finished :
      length steps ≤ length done
      → topo_loop (suc fuel) steps done waves ≡ ok waves
      → Round fuel steps done waves
  stuck :
      length done < length steps
      → is_empty (wave_of done steps) ≡ true
      → topo_loop (suc fuel) steps done waves ≡ err cycle
      → Round fuel steps done waves
  more :
      length done < length steps
      → is_empty (wave_of done steps) ≡ false
      → topo_loop (suc fuel) steps done waves
        ≡ topo_loop fuel steps (mark done (wave_of done steps)) (waves ++ wave_of done steps ∷ [])
      → Round fuel steps done waves

pub round :
    (fuel : ℕ) (steps : List PlanStep) (done : List String) (waves : List (List PlanStep))
    → Round fuel steps done waves
unfolding topo_loop
round fuel steps done waves = elim (Bool-cases (ltb (length done) (length steps))) [
  | inr f ↦ finished (ground arith) (rw f)
  | inl t ↦ elim (Bool-cases (is_empty (wave_of done steps))) [
    | inl e ↦ stuck (ground arith) e (rw (t, e))
    | inr e ↦ more (ground arith) e (rw (t, e))
  ]
]

-- A wave that is not empty processes a new step.
pub wave-new :
    (done : List String) (steps : List PlanStep)
    → All (λ s. can_run done s ≡ true) (wave_of done steps)
wave-new done [] = tt
wave-new done (s ∷ steps) = elim (Bool-cases (can_run done s)) [
  | inl t ↦ rw t (t, wave-new done steps)
  | inr f ↦ rw f (wave-new done steps)
]

grows :
    (done : List String) (w : List PlanStep)
    → All (λ s. can_run done s ≡ true) w
    → is_empty w ≡ false
    → length done < length (mark done w)
grows done [] h e = absurd (ground arith)
grows done (s ∷ w) h e =
    let new : can_run done s ≡ true = h.0 in
    let rest = length-mark (add_key done s.id) w in
    let here : length (add_key done s.id) ≡ suc (length done) = ground arith in omega arith

enough_fuel :
    (fuel : ℕ) (steps : List PlanStep) (done : List String) (waves : List (List PlanStep))
    → suc (length steps) ≤ suc fuel + length done
    → topo_loop (suc fuel) steps done waves ≢ err out_of_fuel
enough_fuel zero steps done waves h q = elim (round zero steps done waves) [
  | finished d e ↦ absurd (cc (e, q))
  | stuck d w e ↦ absurd (cc (e, q))
  | more d w e ↦ absurd (omega arith)
]
enough_fuel (suc n) steps done waves h q = elim (round (suc n) steps done waves) [
  | finished d e ↦ absurd (cc (e, q))
  | stuck d w e ↦ absurd (cc (e, q))
  | more d w e ↦
      let g = grows done (wave_of done steps) (wave-new done steps) w in
      enough_fuel n steps (mark done (wave_of done steps)) (waves ++ wave_of done steps ∷ [])
        (omega arith) (sym e ∙ q)
]

-- The loop of topoSort always ends: for no steps does the model run out of its fuel, one more than
-- the steps there are.
pub topo_sort_ends : (steps : List PlanStep) → topo_sort steps ≢ err out_of_fuel
topo_sort_ends steps = elim (sort_cases steps) [
  | inl e ↦ λ q. enough_fuel (length steps) steps [] [] (omega arith) (sym e.1 ∙ q)
  | inr (x, found, e) ↦
      λ q. let (s, dep, n) = names_step (ids steps) steps x found in absurd (cc (e, q, n))
]
