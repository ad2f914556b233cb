-- ===== src/Gateway/Bounded.antt =====
-- How many requests of a key the rate limits of internal/gateway let through.
use go_claw.Common.{
  ℕ, ◌+◌, ◌*◌, ◌≤◌, String, Bool, true, false, none, List, [], ◌∷◌, ◌≡◌, refl, ap, ◌∙◌, arith,
  if◌then◌else◌, subst,
}
use go_claw.Gateway.Access.{Request, AuthMiddleware, request_cost, RateLimiter, evict_stale, handle}
use go_claw.Gateway.Limits.{
  banked, IsPast, IsPast-later, banked-later, cost_if, keep_fresh-banked, keep_fresh-IsPast,
}
use go_claw.Gateway.Guarded.{is_taken, handle-Charges}

-- What reaches the server: a request, or the timer of the eviction, with its age.
pub data Call : Type 0 where
  request : Request → Call
  eviction : ℕ → Call

-- How many requests of a bucket's key are served, of calls that come after gaps of time.
unfoldable pub served_to : String → AuthMiddleware → ℕ → List (ℕ × Call) → RateLimiter → ℕ
served_to key am now [] rl = 0
served_to key am now ((gap, request r) ∷ calls) rl =
    (if is_taken key r (handle am (now + gap) r rl).0 then 1 else 0)
    + served_to key am (now + gap) calls (handle am (now + gap) r rl).1
served_to key am now ((gap, eviction max_age) ∷ calls) rl =
    served_to key am (now + gap) calls (evict_stale (now + gap) max_age rl)

abbrev pub elapsed : List (ℕ × Call) → ℕ
elapsed [] = 0
elapsed ((gap, call) ∷ calls) = gap + elapsed calls

-- An eviction takes only buckets that have had the time to fill up.
abbrev pub EvictsFull : ℕ → ℕ → List (ℕ × Call) → Type 0
EvictsFull rpm burst [] = Unit
EvictsFull rpm burst ((gap, request r) ∷ calls) = EvictsFull rpm burst calls
EvictsFull rpm burst ((gap, eviction max_age) ∷ calls) =
    (burst * request_cost ≤ max_age * rpm) × EvictsFull rpm burst calls

cost_if-one : (rpm burst : ℕ) (c : Bool) → cost_if rpm burst c ≡ (if c then 1 else 0) * request_cost
cost_if-one rpm burst true = refl
cost_if-one rpm burst false = refl

-- The potential: what was served and what is left come from what there was and the time.
served_to-paid :
    (key : String) (am : AuthMiddleware) (rpm burst now : ℕ) (calls : List (ℕ × Call))
    (rl : RateLimiter)
    → rl.requests_per_minute ≡ rpm
    → rl.burst_size ≡ burst
    → rl.enabled ≡ true
    → IsPast rpm burst now (rl.buckets key)
    → EvictsFull rpm burst calls
    → served_to key am now calls rl * request_cost
      ≤ banked rpm burst now (rl.buckets key) + elapsed calls * rpm
unfolding served_to evict_stale
served_to-paid key am rpm burst now [] rl rate size on p f = omega arith
served_to-paid key am rpm burst now ((gap, request r) ∷ calls) rl rate size on p f =
    let out = handle am (now + gap) r rl in
    let later = banked-later rpm burst now gap (rl.buckets key) p in
    let p' : IsPast rl.requests_per_minute rl.burst_size (now + gap) (rl.buckets key) =
      IsPast-later rpm burst now gap (rl.buckets key) p in
    let c = handle-Charges key am (now + gap) r rl on p' in
    let taken = is_taken key r out.0 in
    let paid =
      subst
        (λ n.
          cost_if n burst taken + banked n burst (now + gap) (out.1.buckets key)
          ≡ banked n burst (now + gap) (rl.buckets key))
        rate
        (subst
          (λ n.
            cost_if rl.requests_per_minute n taken
              + banked rl.requests_per_minute n (now + gap) (out.1.buckets key)
            ≡ banked rl.requests_per_minute n (now + gap) (rl.buckets key))
          size c.paid) in
    let rest =
      served_to-paid key am rpm burst (now + gap) calls out.1 (c.same_rate ∙ rate)
        (c.same_burst ∙ size) (c.still_on ∙ on) c.past f in
    let one = cost_if-one rpm burst taken in omega (arith, later, paid, rest, one)
served_to-paid key am rpm burst now ((gap, eviction max_age) ∷ calls) rl rate size on p f =
    let later = banked-later rpm burst now gap (rl.buckets key) p in
    let p' = IsPast-later rpm burst now gap (rl.buckets key) p in
    let kept = keep_fresh-banked rpm burst (now + gap) max_age (rl.buckets key) f.0 p' in
    let past = keep_fresh-IsPast rpm burst (now + gap) max_age (rl.buckets key) p' in
    let rest =
      served_to-paid key am rpm burst (now + gap) calls (evict_stale (now + gap) max_age rl) rate
        size on past f.1 in
    omega (arith, later, kept, rest)

-- Over any sequence of requests and evictions, in which an eviction takes only buckets that have been
-- idle long enough to fill up, the requests of one key that are served at the paths that are limited,
-- each at the price of a minute's refill divided by the rate, cost no more than a full burst and what
-- was refilled in the time between the first and the last: at most burst + time * rate of them.
pub served_to-bounded :
    (key : String) (am : AuthMiddleware) (now : ℕ) (calls : List (ℕ × Call)) (rl : RateLimiter)
    → rl.enabled ≡ true
    → rl.buckets key ≡ none
    → EvictsFull rl.requests_per_minute rl.burst_size calls
    → served_to key am now calls rl * request_cost
      ≤ rl.burst_size * request_cost + elapsed calls * rl.requests_per_minute
served_to-bounded key am now calls rl on new f =
    let p : IsPast rl.requests_per_minute rl.burst_size now (rl.buckets key) = rw new tt in
    rw (← ap (banked rl.requests_per_minute rl.burst_size now) new)
      (served_to-paid key am rl.requests_per_minute rl.burst_size now calls rl refl refl on p f)
