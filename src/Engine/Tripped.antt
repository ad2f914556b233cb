-- ===== src/Engine/Tripped.antt =====
-- A tripped provider of internal/engine/failover.go is left alone until its cooldown is over.
use go_claw.Common.{
  ℕ, suc, ◌-◌, ◌<◌, String, true, false, some, List, [], ◌∷◌, ◌++◌, leb, str_eq, ◌≡◌, inl, inr,
  refl, sym, ◌∙◌, subst, arith, Bool-cases, Option-cases, str_eq-eq, count_if,
}
use go_claw.Engine.Failover.{
  CircuitBreaker, Entry, FailoverBrain, lookup, store, with_breakers, is_tripped, record_failure,
  record_success, ask, Moment, try_candidates,
}
use go_claw.Engine.Breakers.{skips, answers, overflows, fails, tried}

abbrev pub calls : String → FailoverBrain → ℕ
calls name fb = count_if (λ n. str_eq n name) fb.called

-- The provider `name` has the breaker `cb` and has been called `k` times.
pub record Rests (name : String) (cb : CircuitBreaker) (cooldown k : ℕ) (fb : FailoverBrain)
    : Type 0 where
  pub found : lookup name fb.breakers ≡ some cb
  pub period : fb.cooldown_period ≡ cooldown
  pub called_times : calls name fb ≡ k

lookup-store :
    (name n : String) (cb : CircuitBreaker) (es : List Entry)
    → str_eq n name ≡ false
    → lookup name (store n cb es) ≡ lookup name es
lookup-store name n cb [] h = rw h
lookup-store name n cb (e ∷ es) h = elim (Bool-cases (str_eq e.name n)) [
  | inl t ↦
      let q : e.name ≡ n = str_eq-eq e.name n t in
      let f : str_eq e.name name ≡ false = rw q h in rw (t, h, f)
  | inr f ↦ elim (Bool-cases (str_eq e.name name)) [
    | inl t ↦ rw (f, t)
    | inr g ↦ rw (f, g) (lookup-store name n cb es h)
  ]
]

count-append :
    (name n : String) (ns : List String)
    → str_eq n name ≡ false
    → count_if (λ m. str_eq m name) (ns ++ n ∷ []) ≡ count_if (λ m. str_eq m name) ns
count-append name n [] h = rw h refl
count-append name n (m ∷ ns) h = omega (arith, count-append name n ns h)

module _ (name : String) (cb : CircuitBreaker) (cooldown k : ℕ) where
  stored :
      (n : String) (nb : CircuitBreaker) (fb : FailoverBrain)
      → str_eq n name ≡ false
      → Rests name cb cooldown k fb
      → Rests name cb cooldown k (with_breakers fb (store n nb fb.breakers))
  stored n nb fb ne h = record {
    found = lookup-store name n nb fb.breakers ne ∙ h.found;
    period = h.period;
    called_times = h.called_times;
  }

  asked :
      (n : String) (fb : FailoverBrain)
      → str_eq n name ≡ false
      → Rests name cb cooldown k fb
      → Rests name cb cooldown k (ask n fb)
  asked n fb ne h = record {
    found = h.found;
    period = h.period;
    called_times = count-append name n fb.called ne ∙ h.called_times;
  }

  failing :
      (now : ℕ) (n : String) (fb : FailoverBrain)
      → str_eq n name ≡ false
      → Rests name cb cooldown k fb
      → Rests name cb cooldown k (record_failure now n fb)
  unfolding record_failure
  failing now n fb ne h = stored n _ fb ne h

  succeeding :
      (n : String) (fb : FailoverBrain)
      → str_eq n name ≡ false
      → Rests name cb cooldown k fb
      → Rests name cb cooldown k (record_success n fb)
  unfolding record_success
  succeeding n fb ne h = elim (Option-cases (lookup n fb.breakers)) [
    | inl e ↦ rw (record_success, e) h
    | inr (b, e) ↦ rw (record_success, e) (stored n _ fb ne h)
  ]

  checked :
      (now : ℕ) (n : String) (fb : FailoverBrain)
      → str_eq n name ≡ false
      → Rests name cb cooldown k fb
      → Rests name cb cooldown k (is_tripped now n fb).brain
  unfolding is_tripped
  checked now n fb ne h = elim (Option-cases (lookup n fb.breakers)) [
    | inl e ↦ rw (is_tripped, e) h
    | inr (b, e) ↦ elim (Bool-cases b.tripped) [
      | inr f ↦ rw (is_tripped, e, f) h
      | inl t ↦ elim (Bool-cases (leb fb.cooldown_period (now - b.last_failure))) [
        | inr f ↦ rw (is_tripped, e, t, f) h
        | inl l ↦ rw (is_tripped, e, t, l) (stored n _ fb ne h)
      ]
    ]
  ]

  -- The tripped provider itself is only looked at.
  refused :
      (now : ℕ) (fb : FailoverBrain)
      → cb.tripped ≡ true
      → now - cb.last_failure < cooldown
      → Rests name cb cooldown k fb
      → ((is_tripped now name fb).answer ≡ true) × ((is_tripped now name fb).brain ≡ fb)
  unfolding is_tripped
  refused now fb t early h =
      let l : leb fb.cooldown_period (now - cb.last_failure) ≡ false = rw h.period (ground arith) in
      let f = h.found in (rw (is_tripped, f, t, l), rw (is_tripped, f, t, l))

  -- A request during which a provider's breaker is tripped and its cooldown is not over never asks
  -- that provider, and leaves its breaker as it was.
  pub try_candidates-Rests :
      (moment : ℕ → Moment) (i : ℕ) (cs : List String) (fb : FailoverBrain)
      → cb.tripped ≡ true
      → ((j : ℕ) → (moment j).checked_at - cb.last_failure < cooldown)
      → Rests name cb cooldown k fb
      → Rests name cb cooldown k (try_candidates moment i cs fb).brain
  unfolding try_candidates
  try_candidates-Rests moment i [] fb t early h = h
  try_candidates-Rests moment i (c ∷ cs) fb t early h = elim (Bool-cases (str_eq c name)) [
    | inl same ↦
        let e : name ≡ c = sym (str_eq-eq c name same) in
        let (is_open, still) =
          subst
            (λ n.
              ((is_tripped (moment i).checked_at n fb).answer ≡ true)
              × ((is_tripped (moment i).checked_at n fb).brain ≡ fb))
            e (refused (moment i).checked_at fb t (early i) h) in
        let q : try_candidates moment i (c ∷ cs) fb ≡ try_candidates moment (suc i) cs fb =
          rw (try_candidates, is_open, still) in
        subst (λ r. Rests name cb cooldown k r.brain) (sym q)
          (try_candidates-Rests moment (suc i) cs fb t early h)
    | inr ne ↦
        let now = checked (moment i).checked_at c fb ne h in
        let then_ = asked c _ ne now in
        let next = failing (moment i).answered_at c _ ne then_ in
        elim (tried moment i c cs fb) [
          | skips y e ↦
              subst (λ r. Rests name cb cooldown k r.brain) (sym e)
                (try_candidates-Rests moment (suc i) cs _ t early now)
          | answers text f r e ↦
              subst (λ r. Rests name cb cooldown k r.brain) (sym e) (succeeding c _ ne then_)
          | overflows f r e ↦ subst (λ r. Rests name cb cooldown k r.brain) (sym e) next
          | fails f r e ↦
              subst (λ r. Rests name cb cooldown k r.brain) (sym e)
                (try_candidates-Rests moment (suc i) cs _ t early next)
        ]
  ]
