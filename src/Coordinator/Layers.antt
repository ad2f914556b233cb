-- ===== src/Coordinator/Layers.antt =====
-- What topoSort (internal/coordinator/executor.go) promises of its waves.
use mathlib.Core.Path.{fun_ext}
use go_claw.Common.{
  ℕ, zero, suc, String, true, false, not, ◌&&◌, List, [], ◌∷◌, ◌++◌, All, All-imp, length, str_eq,
  ◌≡◌, refl, sym, ap, ◌∙◌, inl, inr, arith, Bool-cases, all, str_eq-eq, subst, append-nil,
  append_assoc,
}
use go_claw.Coordinator.Plan.{
  PlanStep, ok, contains, add_key, mark, can_run, wave_of, topo_loop, topo_sort,
}
use go_claw.Coordinator.TopoSort.{sort_cases, round, finished, stuck, more, wave-new}

-- A wave's ids put before a list.
abbrev pub with_ids : List PlanStep → List String → List String
with_ids [] done = done
with_ids (s ∷ w) done = with_ids w (s.id ∷ done)

-- Each wave's steps are not in `done` and all their dependencies are; after a wave its ids are.
abbrev pub IsLayered : List String → List (List PlanStep) → Type 0
IsLayered done [] = Unit
IsLayered done (w ∷ ws) =
    All (λ s. (contains done s.id ≡ false) × (all (contains done) s.depends_on ≡ true)) w
    × IsLayered (with_ids w done) ws

-- `done` as a set is all that counts.
same_added :
    (done dn : List String) (k : String)
    → contains done ≡ contains dn
    → contains (add_key done k) ≡ contains (k ∷ dn)
same_added done dn k same = fun_ext (λ j. at j (ap (λ f. f j) same))
  where
    at :
        (j : String)
        → contains done j ≡ contains dn j
        → contains (add_key done k) j ≡ contains (k ∷ dn) j
    at j e = elim (Bool-cases (contains done k)) [
      | inr f ↦ ground arith
      | inl t ↦ elim (Bool-cases (str_eq k j)) [
        | inr n ↦ ground arith
        | inl y ↦
            let p : k ≡ j = str_eq-eq k j y in
            let u : contains done j ≡ true = rw p at t in ground arith
      ]
    ]

pub same_mark :
    (done dn : List String) (w : List PlanStep)
    → contains done ≡ contains dn
    → contains (mark done w) ≡ contains (with_ids w dn)
same_mark done dn [] same = same
same_mark done dn (s ∷ w) same =
    same_mark (add_key done s.id) (s.id ∷ dn) w (same_added done dn s.id same)

can_run-layer :
    (done dn : List String) (w : List PlanStep)
    → contains done ≡ contains dn
    → All (λ s. can_run done s ≡ true) w
    → All (λ s. (contains dn s.id ≡ false) × (all (contains dn) s.depends_on ≡ true)) w
can_run-layer done dn w same h =
    All-imp _ _ w (λ s c. go s (subst (λ f. (not (f s.id) && all f s.depends_on) ≡ true) same c)) h
  where
    go :
        (s : PlanStep)
        → (not (contains dn s.id) && all (contains dn) s.depends_on) ≡ true
        → (contains dn s.id ≡ false) × (all (contains dn) s.depends_on ≡ true)
    go s c = ground arith

loop-IsLayered :
    (fuel : ℕ) (steps : List PlanStep) (done dn : List String) (waves out : List (List PlanStep))
    → contains done ≡ contains dn
    → topo_loop fuel steps done waves ≡ ok out
    → (new : List (List PlanStep)) × (out ≡ waves ++ new) × IsLayered dn new
unfolding topo_loop
loop-IsLayered zero steps done dn waves out same h = absurd (cc h)
loop-IsLayered (suc n) steps done dn waves out same h = elim (round n steps done waves) [
  | finished d e ↦
      ([], (let q : ok waves ≡ ok out = sym e ∙ h in cc q) ∙ sym (append-nil waves), tt)
  | stuck d w e ↦ absurd (cc (e, h))
  | more d w e ↦
      let wave = wave_of done steps in
      let (new, split, layers) =
        loop-IsLayered n steps (mark done wave) (with_ids wave dn) (waves ++ wave ∷ []) out
          (same_mark done dn wave same) (sym e ∙ h) in
      (
        wave ∷ new,
        split ∙ append_assoc waves (wave ∷ []) new,
        (can_run-layer done dn wave same (wave-new done steps), layers),
      )
]

-- When topoSort returns waves, no step of a wave has run in an earlier wave, and each of its
-- dependencies has.
pub topo_sort-IsLayered :
    (steps : List PlanStep) (waves : List (List PlanStep))
    → topo_sort steps ≡ ok waves
    → IsLayered [] waves
topo_sort-IsLayered steps waves h = elim (sort_cases steps) [
  | inr (x, found, e) ↦ absurd (cc (e, h))
  | inl (known, e) ↦
      let (new, split, layers) =
        loop-IsLayered (suc (length steps)) steps [] [] [] waves refl (sym e ∙ h) in
      subst (IsLayered []) (sym split) layers
]
