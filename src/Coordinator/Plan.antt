-- ===== src/Coordinator/Plan.antt =====
-- internal/coordinator/plan.go and the topological sort of internal/coordinator/executor.go.
use go_claw.Common.{
  ℕ, zero, suc, String, Bool, true, false, not, ◌&&◌, Option, none, some, List, [], ◌∷◌, ◌++◌, map,
  any, all, filter, length, ltb, str_eq, if◌then◌else◌, find?,
}

pub record PlanStep : Type 0 where
  pub id : String
  pub agent_id : String
  pub prompt : String
  pub depends_on : List String
  pub max_retries : ℕ
  pub require_approval : Bool
  pub approval_timeout_ms : ℕ

pub record Plan : Type 0 where
  pub name : String
  pub steps : List PlanStep

pub data PlanError : Type 0 where
  no_steps empty_id : PlanError
  duplicate_id : String → PlanError
  nonexistent_step : String → String → PlanError  -- the step, its dependency
  cycle : PlanError
  out_of_fuel : PlanError  -- of the model: `topo_sort` never ends so

pub data Result (A : Type 0) : Type 0 where
  ok : A → Result A
  err : PlanError → Result A

-- A `map[string]bool`, as the list of its keys.
abbrev pub contains : List String → String → Bool
contains keys key = any (λ k. str_eq k key) keys

abbrev pub add_key : List String → String → List String
add_key keys key = if contains keys key then keys else key ∷ keys

-- The first dependency of a step that is no key.
abbrev pub missing : List String → List String → Option String
missing keys deps = find? (λ dep. not (contains keys dep)) deps

-- The first step with such a dependency.
unfoldable pub check_dependencies : List String → List PlanStep → Option PlanError
check_dependencies keys [] = none
check_dependencies keys (s ∷ ss) = elim (missing keys s.depends_on) [
  | some dep ↦ some (nonexistent_step s.id dep)
  | none ↦ check_dependencies keys ss
]

abbrev pub ids : List PlanStep → List String
ids = map (λ s. s.id)

-- `canRun` of a step that is not processed
abbrev pub can_run : List String → PlanStep → Bool
can_run processed s = not (contains processed s.id) && all (contains processed) s.depends_on

abbrev pub wave_of : List String → List PlanStep → List PlanStep
wave_of processed = filter (can_run processed)

abbrev pub mark : List String → List PlanStep → List String
mark processed [] = processed
mark processed (s ∷ ss) = mark (add_key processed s.id) ss

abbrev pub is_empty : List PlanStep → Bool
is_empty [] = true
is_empty (s ∷ ss) = false

-- for len(processed) < len(steps) { … }
unfoldable pub topo_loop :
    ℕ → List PlanStep → List String → List (List PlanStep) → Result (List (List PlanStep))
topo_loop zero steps processed waves = err out_of_fuel
topo_loop (suc fuel) steps processed waves =
    let wave = wave_of processed steps in
    let rest = topo_loop fuel steps (mark processed wave) (waves ++ wave ∷ []) in
    if not (ltb (length processed) (length steps))
    then ok waves
    else if is_empty wave
    then err cycle
    else rest

unfoldable pub topo_sort : List PlanStep → Result (List (List PlanStep))
unfolding check_dependencies topo_loop
topo_sort steps = elim (check_dependencies (ids steps) steps) [
  | some e ↦ err e
  | none ↦ topo_loop (suc (length steps)) steps [] []
]

-- The loop over the ids of `Validate`.
unfoldable pub check_ids : List String → List PlanStep → Option PlanError
check_ids seen [] = none
check_ids seen (s ∷ ss) =
    if str_eq s.id ""
    then some empty_id
    else if contains seen s.id
    then some (duplicate_id s.id)
    else check_ids (s.id ∷ seen) ss

unfoldable pub forget : Result (List (List PlanStep)) → Option PlanError
forget (ok waves) = none
forget (err e) = some e

-- `Validate`: nil, or the error
unfoldable pub validate : Plan → Option PlanError
unfolding check_ids check_dependencies topo_sort forget
validate p = elim p.steps [
  | [] ↦ some no_steps
  | s ∷ ss ↦ elim (check_ids [] p.steps) [
    | some e ↦ some e
    | none ↦ elim (check_dependencies (ids p.steps) p.steps) [
      | some e ↦ some e
      | none ↦ forget (topo_sort p.steps)
    ]
  ]
]
