-- ===== src/Coordinator/Complete.antt =====
-- The waves of topoSort (internal/coordinator/executor.go) hold every step.
use go_claw.Common.{
  ℕ, zero, suc, ◌≤◌, String, true, false, List, [], ◌∷◌, ◌++◌, All, length, ◌≡◌, ◌⊎◌, inl, inr,
  refl, sym, ap, ◌∙◌, subst, arith, Bool-cases, append-nil, append_assoc, eq_refl,
}
use go_claw.Coordinator.Plan.{
  PlanStep, ok, contains, add_key, mark, ids, can_run, wave_of, topo_loop, topo_sort,
}
use go_claw.Coordinator.Keys.{Distinct, Distinct-length, Distinct-mark}
use go_claw.Coordinator.TopoSort.{sort_cases, round, finished, stuck, more}
use go_claw.Coordinator.Layers.{with_ids, same_mark}

-- The ids of waves, put before a list.
abbrev pub ids_of : List (List PlanStep) → List String → List String
ids_of [] done = done
ids_of (w ∷ ws) done = ids_of ws (with_ids w done)

-- Keys of which each is one of `ks`.
Within : List String → List String → Type 0
Within ks = All (λ k. contains ks k ≡ true)

length-ids : (steps : List PlanStep) → length (ids steps) ≡ length steps
length-ids [] = refl
length-ids (s ∷ steps) = ap suc (length-ids steps)

each_within :
    (ks all_ : List String)
    → ((k : String) → contains ks k ≡ true → contains all_ k ≡ true)
    → All (λ k. contains all_ k ≡ true) ks
each_within [] all_ sub = tt
each_within (k ∷ ks) all_ sub =
    (sub k (let e = eq_refl k in ground arith), each_within ks all_ (λ j c. sub j (ground arith)))

step_ids :
    (ks : List String) (steps : List PlanStep)
    → Within ks (ids steps)
    → All (λ s. contains ks s.id ≡ true) steps
unfolding Within
step_ids ks [] h = tt
step_ids ks (s ∷ steps) h = (h.0, step_ids ks steps h.1)

All-wave :
    (P : PlanStep → Type 0) (done : List String) (steps : List PlanStep)
    → All P steps
    → All P (wave_of done steps)
All-wave P done [] h = tt
All-wave P done (s ∷ steps) h = elim (Bool-cases (can_run done s)) [
  | inl t ↦ rw t (h.0, All-wave P done steps h.1)
  | inr f ↦ rw f (All-wave P done steps h.1)
]

mark-Within :
    (ks done : List String) (w : List PlanStep)
    → Within ks done
    → All (λ s. contains ks s.id ≡ true) w
    → Within ks (mark done w)
unfolding Within
mark-Within ks done [] h k = h
mark-Within ks done (s ∷ w) h k =
    mark-Within ks (add_key done s.id) w (added (Bool-cases (contains done s.id))) k.1
  where
    added :
        (contains done s.id ≡ true) ⊎ (contains done s.id ≡ false) → Within ks (add_key done s.id)
    added (inl t) = rw t h
    added (inr f) = rw f (k.0, h)

-- As many processed keys as steps are all of them.
covers :
    (steps : List PlanStep) (done : List String)
    → Distinct done
    → Within (ids steps) done
    → length steps ≤ length done
    → Within done (ids steps)
unfolding Within
covers steps done d w le = each_within (ids steps) done (λ k c.
    elim (Bool-cases (contains done k)) [
      | inl t ↦ t
      | inr f ↦
          let more_ = Distinct-length (k ∷ done) (ids steps) (f, d) (c, w) in
          absurd (omega (arith, length-ids steps, le, more_))
    ])

loop_covers :
    (fuel : ℕ) (steps : List PlanStep) (done dn : List String) (waves out : List (List PlanStep))
    → contains done ≡ contains dn
    → Distinct done
    → Within (ids steps) done
    → topo_loop fuel steps done waves ≡ ok out
    → (new : List (List PlanStep)) × (out ≡ waves ++ new) × Within (ids_of new dn) (ids steps)
unfolding topo_loop Within
loop_covers zero steps done dn waves out same d w h = absurd (cc h)
loop_covers (suc n) steps done dn waves out same d w h = elim (round n steps done waves) [
  | finished l e ↦ (
    [],
    (let q : ok waves ≡ ok out = sym e ∙ h in cc q) ∙ sym (append-nil waves),
    renamed (covers steps done d w l),
  )
  | stuck l e r ↦ absurd (cc (r, h))
  | more l e r ↦
      let wave = wave_of done steps in
      let known = All-wave _ done steps (step_ids (ids steps) steps (self (ids steps))) in
      let (new, split, all_) =
        loop_covers n steps (mark done wave) (with_ids wave dn) (waves ++ wave ∷ []) out
          (same_mark done dn wave same) (Distinct-mark done wave d)
          (mark-Within (ids steps) done wave w known) (sym r ∙ h) in
      (wave ∷ new, split ∙ append_assoc waves (wave ∷ []) new, all_)
]
  where
    self : (ks : List String) → Within ks ks
    self ks = each_within ks ks (λ k c. c)

    renamed : Within done (ids steps) → Within dn (ids steps)
    renamed = subst (λ f. All (λ k. f k ≡ true) (ids steps)) same

-- When topoSort returns waves, every step's id is that of a step in some wave.
pub topo_sort_covers :
    (steps : List PlanStep) (waves : List (List PlanStep))
    → topo_sort steps ≡ ok waves
    → All (λ k. contains (ids_of waves []) k ≡ true) (ids steps)
unfolding Within
topo_sort_covers steps waves h = elim (sort_cases steps) [
  | inr (x, found, e) ↦ absurd (cc (e, h))
  | inl (known, e) ↦
      let (new, split, all_) =
        loop_covers (suc (length steps)) steps [] [] [] waves refl tt tt (sym e ∙ h) in
      subst (λ ws. Within (ids_of ws []) (ids steps)) (sym split) all_
]
