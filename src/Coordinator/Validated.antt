-- ===== src/Coordinator/Validated.antt =====
-- What `Validate` of internal/coordinator/plan.go accepts and promises.
use go_claw.Common.{true, ℕ, String, false, none, List, [], ◌∷◌, All, str_eq, ◌≡◌, ◌≢◌, refl, arith}
use go_claw.Coordinator.Plan.{
  PlanStep, Plan, contains, ids, check_ids, check_dependencies, forget, validate,
}
use go_claw.Coordinator.Keys.{Distinct, str_eq-flip}
use go_claw.Coordinator.Layers.{IsLayered}
use go_claw.Coordinator.Complete.{ids_of}
use go_claw.Coordinator.Cycles.{IsRanked, topo_sort_succeeds}

-- Ids that are neither empty nor seen.
abbrev pub Fresh : List String → List String → Type 0
Fresh seen = All (λ k. (str_eq k "" ≡ false) × (contains seen k ≡ false))

-- What a plan has that can be executed.
pub record IsExecutable (p : Plan) : Type 0 where
  pub has_steps : p.steps ≢ []
  pub named : Fresh [] (ids p.steps)
  pub distinct : Distinct (ids p.steps)
  pub known : All (λ s. All (λ dep. contains (ids p.steps) dep ≡ true) s.depends_on) p.steps
  pub waves : List (List PlanStep)
  pub layered : IsLayered [] waves
  pub covered : All (λ k. contains (ids_of waves []) k ≡ true) (ids p.steps)

seen_later :
    (k : String) (ks seen : List String)
    → contains ks k ≡ false
    → Fresh seen ks
    → Fresh (k ∷ seen) ks
seen_later k [] seen n h = tt
seen_later k (j ∷ ks) seen n h =
    let other : str_eq k j ≡ false = str_eq-flip j k (ground arith) in
    let c : contains seen j ≡ false = h.0.1 in
    ((h.0.0, ground arith), seen_later k ks seen (ground arith) h.1)

Fresh-check_ids :
    (seen : List String) (steps : List PlanStep)
    → Fresh seen (ids steps)
    → Distinct (ids steps)
    → check_ids seen steps ≡ none
unfolding check_ids
Fresh-check_ids seen [] h d = refl
Fresh-check_ids seen (s ∷ steps) h d =
    rw (check_ids, h.0.0, h.0.1)
      (Fresh-check_ids (s.id ∷ seen) steps (seen_later s.id (ids steps) seen d.0 h.1) d.1)

-- Validate accepts every plan with steps whose ids are distinct and not empty, whose dependencies name
-- steps and have, for some ranking, a smaller rank than the step that has them.
pub ranked-validate :
    (rank : String → ℕ) (p : Plan)
    → p.steps ≢ []
    → Fresh [] (ids p.steps)
    → Distinct (ids p.steps)
    → check_dependencies (ids p.steps) p.steps ≡ none
    → IsRanked rank p.steps
    → validate p ≡ none
unfolding validate forget
ranked-validate rank p = go p.steps
  where
    go :
        (steps : List PlanStep)
        → steps ≢ []
        → Fresh [] (ids steps)
        → Distinct (ids steps)
        → check_dependencies (ids steps) steps ≡ none
        → IsRanked rank steps
        → validate (record { name = p.name; steps = steps }) ≡ none
    go [] n f d c r = absurd (n refl)
    go (s ∷ ss) n f d c r =
        let (waves, sorted) = topo_sort_succeeds rank (s ∷ ss) d c r in
        let fresh = Fresh-check_ids [] (s ∷ ss) f d in rw (validate, fresh, c, sorted)
