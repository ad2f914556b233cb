-- ===== src/Coordinator/Cycles.antt =====
-- topoSort (internal/coordinator/executor.go) leaves no step out, and only refuses a plan with a cycle.
use go_claw.Common.{
  ℕ, zero, suc, ◌≤◌, ◌<◌, String, true, false, none, some, List, [], ◌∷◌, All, length, str_eq, ◌≡◌,
  ◌≢◌, ◌⊎◌, refl, sym, ap, ◌∙◌, inl, inr, arith, Bool-cases, Option-cases, all, str_eq-eq, subst,
  eq_refl,
}
use go_claw.Coordinator.Plan.{
  PlanStep, Result, ok, err, PlanError, cycle, out_of_fuel, contains, ids, can_run, wave_of,
  is_empty, topo_loop, topo_sort, check_dependencies, missing, nonexistent_step,
}
use go_claw.Coordinator.Keys.{Distinct, Distinct-length}
use go_claw.Coordinator.TopoSort.{sort_cases, round, finished, stuck, more, topo_sort_ends}

-- The step is acyclic: what it depends on has a smaller rank.
abbrev pub IsRanked : (String → ℕ) → List PlanStep → Type 0
IsRanked rank steps = All (λ s. All (λ dep. rank dep < rank s.id) s.depends_on) steps

-- No step can run, yet the steps that are ranked below `n` have run.
module _ (rank : String → ℕ) (steps : List PlanStep) (done : List String)
    (blocked : All (λ s. can_run done s ≡ false) steps) (ranked : IsRanked rank steps)
    (known : All (λ s. All (λ dep. contains (ids steps) dep ≡ true) s.depends_on) steps) where
  -- Every step ranked below `n` has run.
  Below : ℕ → Type 0
  Below n = (k : String) → rank k < n → contains (ids steps) k ≡ true → contains done k ≡ true

  deps_done :
      (n : ℕ)
      → Below n
      → (ds : List String) (m : ℕ) → m ≤ n
      → All (λ dep. rank dep < m) ds
      → All (λ dep. contains (ids steps) dep ≡ true) ds
      → all (contains done) ds ≡ true
  unfolding Below
  deps_done n low [] m le r c = refl
  deps_done n low (d ∷ ds) m le r c =
      let here = low d (let q : rank d < m = r.0 in omega arith) c.0 in
      let rest = deps_done n low ds m le r.1 c.1 in ground arith

  step_done :
      (n : ℕ)
      → Below n
      → (k : String) → rank k < suc n
      → (ss : List PlanStep) → All (λ s. can_run done s ≡ false) ss
      → IsRanked rank ss
      → All (λ s. All (λ dep. contains (ids steps) dep ≡ true) s.depends_on) ss
      → contains (ids ss) k ≡ true
      → contains done k ≡ true
  step_done n low k h [] b r w c = absurd (ground arith)
  step_done n low k h (s ∷ ss) b r w c = elim (Bool-cases (str_eq s.id k)) [
    | inr f ↦ step_done n low k h ss b.1 r.1 w.1 (ground arith)
    | inl t ↦
        let e : s.id ≡ k = str_eq-eq s.id k t in
        let le : rank s.id ≤ n = rw e (omega arith) in
        let ds = deps_done n low s.depends_on (rank s.id) le r.0 w.0 in
        let no : can_run done s ≡ false = b.0 in
        let ran : contains done s.id ≡ true = ground arith in
        subst (λ j. contains done j ≡ true) e ran
  ]

  below : (n : ℕ) → Below n
  unfolding Below
  below zero k h c = absurd (omega arith)
  below (suc n) k h c = step_done n (below n) k h steps blocked ranked known c

  pub every_done : All (λ k. contains done k ≡ true) (ids steps)
  unfolding Below
  every_done = each (ids steps) (λ k c. c)
    where
      each :
          (ks : List String)
          → ((k : String) → contains ks k ≡ true → contains (ids steps) k ≡ true)
          → All (λ k. contains done k ≡ true) ks
      each [] sub = tt
      each (k ∷ ks) sub = (
        below (suc (rank k)) k (omega arith) (sub k (let e = eq_refl k in ground arith)),
        each ks (λ j c. sub j (ground arith)),
      )

-- An empty wave: no step can run.
none_can_run :
    (done : List String) (steps : List PlanStep)
    → is_empty (wave_of done steps) ≡ true
    → All (λ s. can_run done s ≡ false) steps
none_can_run done [] h = tt
none_can_run done (s ∷ steps) h = elim (Bool-cases (can_run done s)) [
  | inl t ↦ absurd (ground arith)
  | inr f ↦ (f, none_can_run done steps (rw f at h))
]

-- With no error found, every dependency names a step.
pub every_known :
    (keys : List String) (steps : List PlanStep)
    → check_dependencies keys steps ≡ none
    → All (λ s. All (λ dep. contains keys dep ≡ true) s.depends_on) steps
unfolding check_dependencies
every_known keys [] h = tt
every_known keys (s ∷ steps) h = elim (Option-cases (missing keys s.depends_on)) [
  | inl e ↦ (each s.depends_on e, every_known keys steps (rw (e, check_dependencies) at h))
  | inr (dep, e) ↦
      absurd
        (let q : some (nonexistent_step s.id dep) ≡ none = rw (e, check_dependencies) at h in cc q)
]
  where
    each : (ds : List String) → missing keys ds ≡ none → All (λ dep. contains keys dep ≡ true) ds
    each [] h = tt
    each (d ∷ ds) h = elim (Bool-cases (contains keys d)) [
      | inl t ↦ (t, each ds (rw t at h))
      | inr f ↦ absurd (let q : some d ≡ none = rw f at h in cc q)
    ]

length-ids : (steps : List PlanStep) → length (ids steps) ≡ length steps
length-ids [] = refl
length-ids (s ∷ steps) = ap suc (length-ids steps)

no_cycle :
    (rank : String → ℕ) (steps : List PlanStep)
    → Distinct (ids steps)
    → IsRanked rank steps
    → check_dependencies (ids steps) steps ≡ none
    → (fuel : ℕ) (done : List String) (waves : List (List PlanStep))
    → topo_loop fuel steps done waves ≢ err cycle
unfolding topo_loop
no_cycle rank steps d r c zero done waves h = absurd (cc h)
no_cycle rank steps d r c (suc n) done waves h = elim (round n steps done waves) [
  | finished l e ↦ absurd (cc (e, h))
  | more l w e ↦ no_cycle rank steps d r c n _ _ (sym e ∙ h)
  | stuck l w e ↦
      let ran =
        every_done rank steps done (none_can_run done steps w) r
          (every_known (ids steps) steps c) in
      let few = Distinct-length (ids steps) done d ran in
      absurd (let q = length-ids steps in omega arith)
]

loop_errors :
    (fuel : ℕ) (steps : List PlanStep) (done : List String) (waves : List (List PlanStep))
    (x : PlanError)
    → topo_loop fuel steps done waves ≡ err x
    → (x ≡ cycle) ⊎ (x ≡ out_of_fuel)
unfolding topo_loop
loop_errors zero steps done waves x h = inr (cc h)
loop_errors (suc n) steps done waves x h = elim (round n steps done waves) [
  | finished l e ↦ absurd (cc (e, h))
  | stuck l w e ↦ inl (let q : err cycle ≡ err x = sym e ∙ h in cc q)
  | more l w e ↦ loop_errors n steps _ _ x (sym e ∙ h)
]

-- topoSort returns waves for every list of steps with distinct ids whose dependencies name steps and
-- that has no cycle: the dependencies of a step have a smaller rank, for some ranking.
pub topo_sort_succeeds :
    (rank : String → ℕ) (steps : List PlanStep)
    → Distinct (ids steps)
    → check_dependencies (ids steps) steps ≡ none
    → IsRanked rank steps
    → (waves : List (List PlanStep)) × (topo_sort steps ≡ ok waves)
topo_sort_succeeds rank steps d c r = elim (sort_cases steps) [
  | inr (x, found, e) ↦ absurd (cc (c, found))
  | inl (known, e) ↦ ends (topo_sort steps) e refl
]
  where
    ends :
        (out : Result (List (List PlanStep)))
        → topo_sort steps ≡ topo_loop (suc (length steps)) steps [] []
        → topo_sort steps ≡ out
        → (waves : List (List PlanStep)) × (topo_sort steps ≡ ok waves)
    ends (ok waves) e f = (waves, f)
    ends (err x) e f = elim (loop_errors (suc (length steps)) steps [] [] x (sym e ∙ f)) [
      | inl q ↦ absurd (no_cycle rank steps d r c (suc (length steps)) [] [] (sym e ∙ f ∙ ap err q))
      | inr q ↦ absurd (topo_sort_ends steps (f ∙ ap err q))
    ]
