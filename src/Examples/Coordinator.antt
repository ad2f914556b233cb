-- ===== src/Examples/Coordinator.antt =====
-- The theorems about plans (internal/coordinator) at a plan of three steps.
use go_claw.Common.{
  ℕ, ◌≡◌, refl, String, true, none, List, [], ◌∷◌, All, arith, str_eq, if◌then◌else◌,
}
use go_claw.Coordinator.Plan.{
  Plan, validate, PlanStep, ok, topo_sort, topo_loop, check_dependencies, ids, contains,
}
use go_claw.Coordinator.Layers.{IsLayered, topo_sort-IsLayered}
use go_claw.Coordinator.Cycles.{topo_sort_succeeds}
use go_claw.Coordinator.Validated.{ranked-validate}
use go_claw.Coordinator.Complete.{ids_of, topo_sort_covers}

abbrev step_on : String → List String → PlanStep
step_on id deps = record {
  id = id;
  agent_id = "default";
  prompt = "";
  depends_on = deps;
  max_retries = 0;
  require_approval = true;
  approval_timeout_ms = 0;
}

-- "c" stands first and waits for both others.
abbrev steps : List PlanStep
steps = step_on "c" ("a" ∷ "b" ∷ []) ∷ step_on "a" [] ∷ step_on "b" ("a" ∷ []) ∷ []

abbrev waves : List (List PlanStep)
waves =
    (step_on "a" [] ∷ []) ∷ (step_on "b" ("a" ∷ []) ∷ []) ∷ (step_on "c" ("a" ∷ "b" ∷ []) ∷ []) ∷ []

sorted : topo_sort steps ≡ ok waves
unfolding topo_sort check_dependencies topo_loop
sorted = refl

topo_sort-IsLayered_example : IsLayered [] waves
topo_sort-IsLayered_example = topo_sort-IsLayered steps waves sorted

topo_sort_covers_example : All (λ k. contains (ids_of waves []) k ≡ true) (ids steps)
topo_sort_covers_example = topo_sort_covers steps waves sorted

abbrev rank : String → ℕ
rank id = if str_eq id "a" then 0 else if str_eq id "b" then 1 else 2

known : check_dependencies (ids steps) steps ≡ none
unfolding check_dependencies
known = refl

topo_sort_succeeds_example : (ws : List (List PlanStep)) × (topo_sort steps ≡ ok ws)
topo_sort_succeeds_example =
    topo_sort_succeeds rank steps (refl, (refl, (refl, tt))) known
      ((omega arith, (omega arith, tt)), (tt, ((omega arith, tt), tt)))

abbrev plan : Plan
plan = record { name = "p"; steps = steps }

ranked-validate_example : validate plan ≡ none
ranked-validate_example =
    ranked-validate rank plan (λ e. cc e) ((refl, refl), ((refl, refl), ((refl, refl), tt)))
      (refl, (refl, (refl, tt))) known
      ((omega arith, (omega arith, tt)), (tt, ((omega arith, tt), tt)))
