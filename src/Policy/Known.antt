-- ===== src/Policy/Known.antt =====
-- The capabilities of a LivePolicy (internal/policy/policy.go) over its changes.
use go_claw.Common.{
  String, Bool, true, false, Option, none, some, List, [], ◌∷◌, ◌++◌, All, All-append, str_eq,
  if◌then◌else◌, ◌≡◌, ◌⊎◌, inl, inr, refl, sym, subst, arith, Bool-cases, Option-cases, eq_refl,
}
use go_claw.Policy.Model.{Policy, is_known, contains_normalized, allow_capability, validate}
use go_claw.Policy.Live.{
  done, empty_value, unknown_capability, not_saved, Change, allow_domain, add_capability,
  reload_from_file, Op, allow_domain_op, add_capability_op, reload_op, step, run,
}

-- A capability that `validate` accepts.
abbrev pub IsKnown : (String → String) → String → Type 0
IsKnown normalize c = (str_eq (normalize c) "" ≡ true) ⊎ (is_known (normalize c) ≡ true)

abbrev pub AllKnown : (String → String) → Policy → Type 0
AllKnown normalize p = All (IsKnown normalize) p.allow_capabilities

pub validate-IsKnown :
    (normalize : String → String) (cs : List String)
    → validate normalize cs ≡ none
    → All (IsKnown normalize) cs
unfolding validate
validate-IsKnown normalize [] h = tt
validate-IsKnown normalize (c ∷ cs) h = elim (Bool-cases (str_eq (normalize c) "")) [
  | inl t ↦ (inl t, validate-IsKnown normalize cs (rw (t, validate) at h))
  | inr f ↦ elim (Bool-cases (is_known (normalize c))) [
    | inl t ↦ (inr t, validate-IsKnown normalize cs (rw (f, t, validate) at h))
    | inr g ↦ absurd (let q : some c ≡ none = rw (f, g, validate) at h in cc q)
  ]
]

-- What AddCapability does.
pub data Added (normalize : String → String) (raw : String) (p : Policy) (c : Change) : Type 0 where
  refused :
      c.policy ≡ p
      → ((c.outcome ≡ empty_value) × (str_eq (normalize raw) "" ≡ true))
        ⊎ ((c.outcome ≡ unknown_capability) × (is_known (normalize raw) ≡ false))
      → Added normalize raw p c
  had :
      c.policy ≡ p
      → c.outcome ≡ done
      → allow_capability normalize p raw ≡ true
      → Added normalize raw p c
  granted :
      (c.outcome ≡ done) ⊎ (c.outcome ≡ not_saved)
      → is_known (normalize raw) ≡ true
      → allow_capability normalize p raw ≡ false
      → c.policy.allow_capabilities ≡ p.allow_capabilities ++ normalize raw ∷ []
      → c.policy.allow_domains ≡ p.allow_domains
      → allow_capability normalize c.policy raw ≡ true
      → Added normalize raw p c

contains-last :
    (normalize : String → String) (cs : List String) (c : String)
    → normalize c ≡ c
    → contains_normalized normalize (cs ++ c ∷ []) c ≡ true
contains-last normalize [] c e =
    let q : str_eq (normalize c) c ≡ true = rw e (eq_refl c) in ground arith
contains-last normalize (d ∷ cs) c e = let rest = contains-last normalize cs c e in ground arith

saved_or_not :
    (saved : Bool)
    → ((if saved then done else not_saved) ≡ done)
      ⊎ ((if saved then done else not_saved) ≡ not_saved)
saved_or_not true = inl refl
saved_or_not false = inr refl

-- AddCapability refuses an empty or unknown capability and changes nothing; else the capability is
-- allowed afterwards, appended in its normal form if it was not allowed before. A failed save is
-- reported, with the capability granted all the same. Normalizing twice is normalizing once.
pub add_capability-Added :
    (normalize : String → String) (saved : Bool) (raw : String) (p : Policy)
    → normalize (normalize raw) ≡ normalize raw
    → Added normalize raw p (add_capability normalize saved raw p)
unfolding add_capability allow_capability
add_capability-Added normalize saved raw p idem = elim (Bool-cases (str_eq (normalize raw) "")) [
  | inl t ↦ refused (rw (add_capability, t)) (inl (rw (add_capability, t), t))
  | inr f ↦ elim (Bool-cases (is_known (normalize raw))) [
    | inr g ↦ refused (rw (add_capability, f, g)) (inr (rw (add_capability, f, g), g))
    | inl k ↦
        elim (Bool-cases (contains_normalized normalize p.allow_capabilities (normalize raw))) [
          | inl t ↦
              had (rw (add_capability, f, k, t)) (rw (add_capability, f, k, t))
                (rw (allow_capability, f) t)
          | inr n ↦
              granted (rw (add_capability, f, k, n) (saved_or_not saved)) k
                (rw (allow_capability, f) n) (rw (add_capability, f, k, n))
                (rw (add_capability, f, k, n))
                (rw (add_capability, allow_capability, f, k, n)
                  (contains-last normalize p.allow_capabilities (normalize raw) idem))
        ]
  ]
]

allow_domain-capabilities :
    (normalize : String → String) (saved : Bool) (d : String) (p : Policy)
    → (allow_domain normalize saved d p).policy.allow_capabilities ≡ p.allow_capabilities
unfolding allow_domain
allow_domain-capabilities normalize saved d p = elim (Bool-cases (str_eq (normalize d) "")) [
  | inl t ↦ rw (allow_domain, t)
  | inr f ↦ elim (Bool-cases (contains_normalized normalize p.allow_domains (normalize d))) [
    | inl t ↦ rw (allow_domain, f, t)
    | inr g ↦ rw (allow_domain, f, g)
  ]
]

reload_from_file-AllKnown :
    (normalize : String → String) (q : Option Policy) (p : Policy)
    → AllKnown normalize p
    → AllKnown normalize (reload_from_file normalize q p)
unfolding reload_from_file
reload_from_file-AllKnown normalize none p h = h
reload_from_file-AllKnown normalize (some q) p h =
    elim (Option-cases (validate normalize q.allow_capabilities)) [
      | inl e ↦
          let new : reload_from_file normalize (some q) p ≡ q = rw (reload_from_file, e) in
          subst (AllKnown normalize) (sym new) (validate-IsKnown normalize q.allow_capabilities e)
      | inr (c, e) ↦
          let old : reload_from_file normalize (some q) p ≡ p = rw (reload_from_file, e) in
          subst (AllKnown normalize) (sym old) h
    ]

step-AllKnown :
    (normalize : String → String)
    → ((c : String) → normalize (normalize c) ≡ normalize c)
    → (o : Op) (p : Policy) → AllKnown normalize p
    → AllKnown normalize (step normalize o p)
unfolding step
step-AllKnown normalize idem (allow_domain_op saved d) p h =
    subst (All (IsKnown normalize)) (sym (allow_domain-capabilities normalize saved d p)) h
step-AllKnown normalize idem (add_capability_op saved c) p h =
    elim (add_capability-Added normalize saved c p (idem c)) [
      | refused e o ↦ subst (AllKnown normalize) (sym e) h
      | had e o a ↦ subst (AllKnown normalize) (sym e) h
      | granted o k n e d a ↦
          let q : is_known (normalize (normalize c)) ≡ true = rw (idem c) k in
          subst (All (IsKnown normalize)) (sym e)
            (All-append _ p.allow_capabilities (normalize c ∷ []) h (inr q, tt))
    ]
step-AllKnown normalize idem (reload_op q) p h = reload_from_file-AllKnown normalize q p h

-- Whatever domains and capabilities are added at runtime and whatever files are reloaded, the
-- capabilities of the live policy stay known ones, as those of a validated policy are. Normalizing
-- twice is normalizing once.
pub run-AllKnown :
    (normalize : String → String)
    → ((c : String) → normalize (normalize c) ≡ normalize c)
    → (os : List Op) (p : Policy) → AllKnown normalize p
    → AllKnown normalize (run normalize os p)
unfolding run
run-AllKnown normalize idem [] p h = h
run-AllKnown normalize idem (o ∷ os) p h =
    run-AllKnown normalize idem os (step normalize o p) (step-AllKnown normalize idem o p h)
