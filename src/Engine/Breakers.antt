-- ===== src/Engine/Breakers.antt =====
-- The circuit breakers of internal/engine/failover.go over a request.
use go_claw.Common.{
  ℕ, suc, ◌-◌, ◌≤◌, String, true, false, some, List, [], ◌∷◌, leb, str_eq, All, ◌≡◌, ◌⊎◌, inl, inr,
  refl, sym, subst, arith, Bool-cases, Option-cases,
}
use go_claw.Engine.Failover.{
  CircuitBreaker, Entry, FailoverBrain, lookup, store, with_breakers, failed_once, is_tripped,
  record_failure, record_success, ask, Moment, Reply, replied, failed, answered, overflow,
  try_candidates,
}

-- A breaker is tripped exactly when its failures reach the threshold.
abbrev pub Counts : ℕ → CircuitBreaker → Type 0
Counts threshold cb = (cb.tripped ≡ leb threshold cb.failures)

pub record IsSound (fb : FailoverBrain) : Type 0 where
  pub positive : 1 ≤ fb.threshold
  pub counts : All (λ e. Counts fb.threshold e.breaker) fb.breakers

pub All-store :
    (threshold : ℕ) (name : String) (cb : CircuitBreaker) (es : List Entry)
    → Counts threshold cb
    → All (λ e. Counts threshold e.breaker) es
    → All (λ e. Counts threshold e.breaker) (store name cb es)
All-store threshold name cb [] h hs = (h, tt)
All-store threshold name cb (e ∷ es) h hs = elim (Bool-cases (str_eq e.name name)) [
  | inl t ↦ rw t (h, hs.1)
  | inr f ↦ rw f (hs.0, All-store threshold name cb es h hs.1)
]

All-lookup :
    (threshold : ℕ) (name : String) (cb : CircuitBreaker) (es : List Entry)
    → All (λ e. Counts threshold e.breaker) es
    → lookup name es ≡ some cb
    → Counts threshold cb
All-lookup threshold name cb [] hs h = absurd (cc h)
All-lookup threshold name cb (e ∷ es) hs h = elim (Bool-cases (str_eq e.name name)) [
  | inl t ↦
      let q : some e.breaker ≡ some cb = rw t at h in
      subst (Counts threshold) (let r : e.breaker ≡ cb = cc q in r) hs.0
  | inr f ↦ All-lookup threshold name cb es hs.1 (rw f at h)
]

stored-IsSound :
    (name : String) (cb : CircuitBreaker) (fb : FailoverBrain)
    → IsSound fb
    → Counts fb.threshold cb
    → IsSound (with_breakers fb (store name cb fb.breakers))
stored-IsSound name cb fb h c = record {
  positive = h.positive;
  counts = All-store fb.threshold name cb fb.breakers c h.counts;
}

zero_sound : (fb : FailoverBrain) → 1 ≤ fb.threshold → false ≡ leb fb.threshold 0
zero_sound fb h = ground arith

is_tripped-IsSound :
    (now : ℕ) (name : String) (fb : FailoverBrain)
    → IsSound fb
    → IsSound (is_tripped now name fb).brain
unfolding is_tripped
is_tripped-IsSound now name fb h = elim (Option-cases (lookup name fb.breakers)) [
  | inl e ↦ rw (is_tripped, e) h
  | inr (cb, e) ↦ elim (Bool-cases cb.tripped) [
    | inr f ↦ rw (is_tripped, e, f) h
    | inl t ↦ elim (Bool-cases (leb fb.cooldown_period (now - cb.last_failure))) [
      | inr f ↦ rw (is_tripped, e, t, f) h
      | inl l ↦
          let reset : CircuitBreaker = record {
            failures = 0;
            last_failure = cb.last_failure;
            tripped = false;
          } in
          rw (is_tripped, e, t, l) (stored-IsSound name reset fb h (zero_sound fb h.positive))
    ]
  ]
]

failed_once-Counts :
    (now threshold : ℕ) (cb : CircuitBreaker)
    → Counts threshold cb
    → Counts threshold (failed_once now threshold cb)
failed_once-Counts now threshold cb h = ground arith

record_failure-IsSound :
    (now : ℕ) (name : String) (fb : FailoverBrain)
    → IsSound fb
    → IsSound (record_failure now name fb)
unfolding record_failure
record_failure-IsSound now name fb h = elim (Option-cases (lookup name fb.breakers)) [
  | inl e ↦
      rw (record_failure, e)
        (stored-IsSound name _ fb h (
          failed_once-Counts now fb.threshold
            (record { failures = 0; last_failure = 0; tripped = false })
            (zero_sound fb h.positive)))
  | inr (cb, e) ↦
      rw (record_failure, e)
        (stored-IsSound name _ fb h (
          failed_once-Counts now fb.threshold cb
            (All-lookup fb.threshold name cb fb.breakers h.counts e)))
]

record_success-IsSound :
    (name : String) (fb : FailoverBrain) → IsSound fb → IsSound (record_success name fb)
unfolding record_success
record_success-IsSound name fb h = elim (Option-cases (lookup name fb.breakers)) [
  | inl e ↦ rw (record_success, e) h
  | inr (cb, e) ↦ rw (record_success, e) (stored-IsSound name _ fb h (zero_sound fb h.positive))
]

-- What becomes of one candidate.
pub data Tried (moment : ℕ → Moment) (i : ℕ) (c : String) (cs : List String) (fb : FailoverBrain)
    : Type 0 where
  skips :
      (is_tripped (moment i).checked_at c fb).answer ≡ true
      → try_candidates moment i (c ∷ cs) fb
        ≡ try_candidates moment (suc i) cs (is_tripped (moment i).checked_at c fb).brain
      → Tried moment i c cs fb
  answers :
      (text : String)
      → (is_tripped (moment i).checked_at c fb).answer ≡ false
      → (moment i).reply ≡ replied text
      → try_candidates moment i (c ∷ cs) fb ≡ record {
        brain = record_success c (ask c (is_tripped (moment i).checked_at c fb).brain);
        answer = answered text;
      }
      → Tried moment i c cs fb
  overflows :
      (is_tripped (moment i).checked_at c fb).answer ≡ false
      → (moment i).reply ≡ failed true
      → try_candidates moment i (c ∷ cs) fb ≡ record {
        brain =
            record_failure
              (moment i).answered_at
              c
              (ask c (is_tripped (moment i).checked_at c fb).brain);
        answer = overflow c;
      }
      → Tried moment i c cs fb
  fails :
      (is_tripped (moment i).checked_at c fb).answer ≡ false
      → (moment i).reply ≡ failed false
      → try_candidates moment i (c ∷ cs) fb
        ≡ try_candidates moment (suc i) cs (
            record_failure
              (moment i).answered_at
              c
              (ask c (is_tripped (moment i).checked_at c fb).brain))
      → Tried moment i c cs fb

Reply-cases :
    (r : Reply) → ((text : String) × (r ≡ replied text)) ⊎ ((r ≡ failed true) ⊎ (r ≡ failed false))
Reply-cases (replied text) = inl (text, refl)
Reply-cases (failed true) = inr (inl refl)
Reply-cases (failed false) = inr (inr refl)

pub tried :
    (moment : ℕ → Moment) (i : ℕ) (c : String) (cs : List String) (fb : FailoverBrain)
    → Tried moment i c cs fb
unfolding try_candidates
tried moment i c cs fb = elim (Bool-cases (is_tripped (moment i).checked_at c fb).answer) [
  | inl t ↦ skips t (rw (try_candidates, t))
  | inr f ↦ elim (Reply-cases (moment i).reply) [
    | inl (text, e) ↦ answers text f e (rw (try_candidates, f, e))
    | inr o ↦ elim o [
      | inl e ↦ overflows f e (rw (try_candidates, f, e))
      | inr e ↦ fails f e (rw (try_candidates, f, e))
    ]
  ]
]

ask-IsSound : (c : String) (fb : FailoverBrain) → IsSound fb → IsSound (ask c fb)
ask-IsSound c fb h = record { positive = h.positive; counts = h.counts }

-- The candidates of a request, whatever each answers and when, keep the breakers sound.
pub try_candidates-IsSound :
    (moment : ℕ → Moment) (i : ℕ) (cs : List String) (fb : FailoverBrain)
    → IsSound fb
    → IsSound (try_candidates moment i cs fb).brain
unfolding try_candidates
try_candidates-IsSound moment i [] fb h = h
try_candidates-IsSound moment i (c ∷ cs) fb h =
    let checked = is_tripped-IsSound (moment i).checked_at c fb h in
    let asked = ask-IsSound c (is_tripped (moment i).checked_at c fb).brain checked in
    let failing = record_failure-IsSound (moment i).answered_at c _ asked in
    elim (tried moment i c cs fb) [
      | skips t e ↦
          subst (λ r. IsSound r.brain) (sym e) (try_candidates-IsSound moment (suc i) cs _ checked)
      | answers text f r e ↦ subst (λ r. IsSound r.brain) (sym e) (record_success-IsSound c _ asked)
      | overflows f r e ↦ subst (λ r. IsSound r.brain) (sym e) failing
      | fails f r e ↦
          subst (λ r. IsSound r.brain) (sym e) (try_candidates-IsSound moment (suc i) cs _ failing)
    ]
