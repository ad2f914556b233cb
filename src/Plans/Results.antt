-- ===== src/Plans/Results.antt =====
-- The map of step results, and which of its keys have a result of a task that has ended.
use go_claw.Common.{
  String, Bool, ◌≡◌, refl, ◌∙◌, ap, sym, true, false, Option, none, some, List, [], ◌∷◌, ◌++◌,
  str_eq, eq_iff, if◌then◌else◌, arith, Bool-cases, inl, inr, ◌⊎◌,
}
use go_claw.Coordinator.Plan.{contains}
use go_claw.Plans.Router.{is_terminal_status}
use go_claw.Plans.Waves.{StepResult, Results, put, lookup, step_id_of, tasks_of}

abbrev pub ended : Option StepResult → Bool
ended none = false
ended (some r) = is_terminal_status r.status

abbrev pub is_done : String → Results → Bool
is_done key m = ended (lookup key m)

lookup-put :
    (key j : String) (v : StepResult) (m : Results)
    → lookup j (put key v m) ≡ (if str_eq key j then some v else lookup j m)
lookup-put key j v [] = refl
lookup-put key j v ((k, u) ∷ m) = elim (Bool-cases (str_eq k key)) [
  | inl e ↦ let same : k ≡ key = (eq_iff k key).0 e in ground (arith, same)
  | inr e ↦ elim (Bool-cases (str_eq k j)) [
    | inl f ↦
        let same : k ≡ j = (eq_iff k j).0 f in
        let other : str_eq key j ≡ false = elim (Bool-cases (str_eq key j)) [
          | inl g ↦ cc (sym e ∙ (eq_iff k key).1 (same ∙ sym ((eq_iff key j).0 g)))
          | inr g ↦ g
        ] in
        ground arith
    | inr f ↦ ground (arith, lookup-put key j v m)
  ]
]

pub is_done-put :
    (key j : String) (v : StepResult) (m : Results)
    → is_done j (put key v m) ≡ (if str_eq key j then is_terminal_status v.status else is_done j m)
is_done-put key j v m = elim (Bool-cases (str_eq key j)) [
  | inl e ↦ ap ended (lookup-put key j v m) ∙ rw e refl
  | inr e ↦ ap ended (lookup-put key j v m) ∙ rw e refl
]

-- Results of ended tasks leave the others done.
pub done-put :
    (key j : String) (v : StepResult) (m : Results)
    → is_terminal_status v.status ≡ true
    → (str_eq key j ≡ true) ⊎ (is_done j m ≡ true)
    → is_done j (put key v m) ≡ true
done-put key j v m t h = is_done-put key j v m ∙ elim (Bool-cases (str_eq key j)) [
  | inl e ↦ rw e t
  | inr e ↦ rw e (elim h [ inl k ↦ cc (sym e ∙ k) | inr k ↦ k ])
]

pub kept-put :
    (key j : String) (v : StepResult) (m : Results)
    → str_eq key j ≡ false
    → is_done j m ≡ true
    → is_done j (put key v m) ≡ true
kept-put key j v m f h = is_done-put key j v m ∙ rw f h

pub step_id_of-append :
    (id t sid found : String) (pairs : List (String × String))
    → step_id_of id found (pairs ++ (t, sid) ∷ [])
      ≡ (if str_eq t id then sid else step_id_of id found pairs)
step_id_of-append id t sid found [] = refl
step_id_of-append id t sid found ((u, s) ∷ pairs) =
    step_id_of-append id t sid (if str_eq u id then s else found) pairs

pub tasks_of-append :
    (id t sid : String) (pairs : List (String × String))
    → (contains (tasks_of pairs) id ≡ true) ⊎ (str_eq t id ≡ true)
    → contains (tasks_of (pairs ++ (t, sid) ∷ [])) id ≡ true
tasks_of-append id t sid [] (inl h) = cc h
tasks_of-append id t sid [] (inr h) = ground arith
tasks_of-append id t sid ((u, s) ∷ pairs) h = elim (Bool-cases (str_eq u id)) [
  | inl e ↦ ground arith
  | inr e ↦
      let rest =
        tasks_of-append id t sid pairs (elim h [ inl k ↦ inl (ground arith) | inr k ↦ inr k ]) in
      ground (arith, rest)
]
