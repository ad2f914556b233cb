-- ===== src/Engine/Failover.antt =====
-- internal/engine/failover.go: providers tried in order, each behind a circuit breaker. A provider's
-- answer is an argument; the locks, the logs and the key-value copy of the breakers are left out.
use go_claw.Common.{
  ℕ, suc, ◌+◌, ◌-◌, String, Bool, true, false, not, ◌&&◌, Option, none, some, List, [], ◌∷◌, ◌++◌,
  leb, ◌==◌, str_eq, if◌then◌else◌,
}

pub record CircuitBreaker : Type 0 where
  pub failures : ℕ
  pub last_failure : ℕ
  pub tripped : Bool

-- Go's map from names to breakers
pub record Entry : Type 0 where
  pub name : String
  pub breaker : CircuitBreaker

-- Times and periods are in one unit; `called` is the names of the providers asked, in order.
pub record FailoverBrain : Type 0 where
  pub primary : String
  pub fallbacks : List String
  pub breakers : List Entry
  pub threshold : ℕ
  pub cooldown_period : ℕ
  pub called : List String

abbrev pub new_breaker : CircuitBreaker
new_breaker = record { failures = 0; last_failure = 0; tripped = false }

abbrev pub lookup : String → List Entry → Option CircuitBreaker
lookup name [] = none
lookup name (e ∷ es) = if str_eq e.name name then some e.breaker else lookup name es

abbrev pub store : String → CircuitBreaker → List Entry → List Entry
store name cb [] = record { name = name; breaker = cb } ∷ []
store name cb (e ∷ es) =
    if str_eq e.name name then record { name = name; breaker = cb } ∷ es else e ∷ store name cb es

abbrev pub new_entries : List String → List Entry → List Entry
new_entries [] es = es
new_entries (n ∷ ns) es = new_entries ns (store n new_breaker es)

abbrev pub or_default : ℕ → ℕ → ℕ
or_default n default = if n == 0 then default else n

-- Periods are in seconds; those not positive are 0.
unfoldable pub new_failover_brain : String → List String → ℕ → ℕ → FailoverBrain
new_failover_brain primary fallbacks threshold cooldown = record {
  primary = primary;
  fallbacks = fallbacks;
  breakers = new_entries (primary ∷ fallbacks) [];
  threshold = or_default threshold 5;
  cooldown_period = or_default cooldown 300;
  called = [];
}

abbrev pub with_breakers : FailoverBrain → List Entry → FailoverBrain
with_breakers fb entries = record {
  primary = fb.primary;
  fallbacks = fb.fallbacks;
  breakers = entries;
  threshold = fb.threshold;
  cooldown_period = fb.cooldown_period;
  called = fb.called;
}

-- The breaker as `isTripped` leaves it.
abbrev pub cooled : ℕ → ℕ → CircuitBreaker → CircuitBreaker
cooled now cooldown cb =
    if cb.tripped && leb cooldown (now - cb.last_failure)
    then record { failures = 0; last_failure = cb.last_failure; tripped = false }
    else cb

pub record Tripped : Type 0 where
  pub answer : Bool
  pub brain : FailoverBrain

unfoldable pub is_tripped : ℕ → String → FailoverBrain → Tripped
is_tripped now name fb = elim (lookup name fb.breakers) [
  | none ↦ record { answer = false; brain = fb }
  | some cb ↦
      if not cb.tripped
      then record { answer = false; brain = fb }
      else if leb fb.cooldown_period (now - cb.last_failure)
      then record {
        answer = false;
        brain = with_breakers fb (store name (cooled now fb.cooldown_period cb) fb.breakers);
      }
      else record { answer = true; brain = fb }
]

abbrev or_new : Option CircuitBreaker → CircuitBreaker
or_new none = new_breaker
or_new (some cb) = cb

abbrev pub failed_once : ℕ → ℕ → CircuitBreaker → CircuitBreaker
failed_once now threshold cb =
    let failures = cb.failures + 1 in
    record {
      failures = failures;
      last_failure = now;
      tripped = if leb threshold failures then true else cb.tripped;
    }

unfoldable pub record_failure : ℕ → String → FailoverBrain → FailoverBrain
record_failure now name fb =
    with_breakers fb
      (store name (failed_once now fb.threshold (or_new (lookup name fb.breakers))) fb.breakers)

unfoldable pub record_success : String → FailoverBrain → FailoverBrain
record_success name fb = elim (lookup name fb.breakers) [
  | none ↦ fb
  | some cb ↦ with_breakers fb (
      store name (record { failures = 0; last_failure = cb.last_failure; tripped = false })
        fb.breakers)
]

-- What a provider answers; a failure says whether ClassifyError calls it a context overflow.
pub data Reply : Type 0 where
  replied : String → Reply
  failed : Bool → Reply

-- The candidate at a position: when its breaker is read, what it answers, and when.
pub record Moment : Type 0 where
  pub checked_at : ℕ
  pub answered_at : ℕ
  pub reply : Reply

pub data Answer : Type 0 where
  answered : String → Answer
  overflow : String → Answer  -- the provider
  all_failed : Answer

pub record Responded : Type 0 where
  pub brain : FailoverBrain
  pub answer : Answer

abbrev pub ask : String → FailoverBrain → FailoverBrain
ask name fb = record {
  primary = fb.primary;
  fallbacks = fb.fallbacks;
  breakers = fb.breakers;
  threshold = fb.threshold;
  cooldown_period = fb.cooldown_period;
  called = fb.called ++ name ∷ [];
}

-- for _, c := range candidates { … }
unfoldable pub try_candidates : (ℕ → Moment) → ℕ → List String → FailoverBrain → Responded
unfolding is_tripped record_failure record_success
try_candidates moment i [] fb = record { brain = fb; answer = all_failed }
try_candidates moment i (c ∷ cs) fb =
    let t = is_tripped (moment i).checked_at c fb in
    let asked = ask c t.brain in
    let failing = record_failure (moment i).answered_at c asked in
    let skipped = try_candidates moment (suc i) cs t.brain in
    let next = try_candidates moment (suc i) cs failing in
    if t.answer then skipped else elim (moment i).reply [
      | replied text ↦ record { brain = record_success c asked; answer = answered text }
      | failed is_overflow ↦
          if is_overflow then record { brain = failing; answer = overflow c } else next
    ]

unfoldable pub respond : (ℕ → Moment) → FailoverBrain → Responded
unfolding try_candidates
respond moment fb = try_candidates moment 0 (fb.primary ∷ fb.fallbacks) fb

-- `Stream` keeps only the error.
unfoldable pub stream : (ℕ → Moment) → FailoverBrain → Responded
unfolding try_candidates
stream moment fb = try_candidates moment 0 (fb.primary ∷ fb.fallbacks) fb

-- The brain after requests made one after another.
unfoldable pub requests : List (ℕ → Moment) → FailoverBrain → FailoverBrain
unfolding respond
requests [] fb = fb
requests (m ∷ ms) fb = requests ms (respond m fb).brain
