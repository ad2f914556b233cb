-- ===== src/Engine/Requests.antt =====
-- The breakers of a new FailoverBrain (internal/engine/failover.go) over any number of requests.
use go_claw.Common.{ℕ, ◌≤◌, String, List, [], ◌∷◌, All, ◌≡◌, false, leb, arith}
use go_claw.Engine.Failover.{
  Entry, FailoverBrain, store, Moment, respond, requests, new_failover_brain, or_default,
  new_entries, new_breaker,
}
use go_claw.Engine.Breakers.{Counts, IsSound, All-store, try_candidates-IsSound}

or_default-positive : (n default : ℕ) → 1 ≤ default → 1 ≤ or_default n default
or_default-positive n default h = ground arith

new_entries-Counts :
    (threshold : ℕ) (names : List String) (es : List Entry)
    → 1 ≤ threshold
    → All (λ e. Counts threshold e.breaker) es
    → All (λ e. Counts threshold e.breaker) (new_entries names es)
new_entries-Counts threshold [] es h k = k
new_entries-Counts threshold (n ∷ ns) es h k =
    let fresh : false ≡ leb threshold 0 = ground arith in
    new_entries-Counts threshold ns (store n new_breaker es) h
      (All-store threshold n new_breaker es fresh k)

new_failover_brain-IsSound :
    (primary : String) (fallbacks : List String) (threshold cooldown : ℕ)
    → IsSound (new_failover_brain primary fallbacks threshold cooldown)
unfolding new_failover_brain
new_failover_brain-IsSound primary fallbacks threshold cooldown =
    let pos = or_default-positive threshold 5 (omega arith) in
    record {
      positive = pos;
      counts = new_entries-Counts (or_default threshold 5) (primary ∷ fallbacks) [] pos tt;
    }

requests-IsSound :
    (ms : List (ℕ → Moment)) (fb : FailoverBrain) → IsSound fb → IsSound (requests ms fb)
unfolding requests respond
requests-IsSound [] fb h = h
requests-IsSound (m ∷ ms) fb h =
    requests-IsSound ms (respond m fb).brain
      (try_candidates-IsSound m 0 (fb.primary ∷ fb.fallbacks) fb h)

-- After any requests to a new brain, whatever each provider answers and when, every breaker is tripped
-- exactly when its failures have reached the threshold, which is at least one.
pub requests_new-IsSound :
    (primary : String) (fallbacks : List String) (threshold cooldown : ℕ) (ms : List (ℕ → Moment))
    → IsSound (requests ms (new_failover_brain primary fallbacks threshold cooldown))
requests_new-IsSound primary fallbacks threshold cooldown ms =
    requests-IsSound ms (new_failover_brain primary fallbacks threshold cooldown)
      (new_failover_brain-IsSound primary fallbacks threshold cooldown)
