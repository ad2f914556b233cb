-- ===== src/Gateway/Limits.antt =====
-- What the rate limits of internal/gateway/ratelimit.go let through.
use go_claw.Common.{
  ℕ, ◌+◌, ◌-◌, ◌*◌, ◌≤◌, String, Bool, Option, none, some, ltb, leb, ◌≡◌, refl, ap, ◌∙◌, inl, inr,
  arith, Bool-cases, Option-cases, if◌then◌else◌,
}
use go_claw.Gateway.Access.{
  TokenBucket, request_cost, RateLimiter, capped, refilled, allow, get_bucket, new_token_bucket,
  keep_fresh,
}

module _ (rpm burst : ℕ) where
  -- The tokens that a bucket, or its absence, is worth at a time.
  abbrev pub banked : ℕ → Option TokenBucket → ℕ
  banked now none = burst * request_cost
  banked now (some b) = refilled rpm burst now b

  -- Filled and used last at the same time, which has passed.
  abbrev pub IsPast : ℕ → Option TokenBucket → Type 0
  IsPast now none = Unit
  IsPast now (some b) = (b.last_refill ≤ now) × (b.last_access ≡ b.last_refill)

  pub IsPast-later : (now gap : ℕ) (b : Option TokenBucket) → IsPast now b → IsPast (now + gap) b
  IsPast-later now gap none p = tt
  IsPast-later now gap (some b) p = (omega (arith, p.0), p.1)

  later_filled :
      (tokens last now gap : ℕ)
      → last ≤ now
      → tokens + (now + gap - last) * rpm ≡ tokens + (now - last) * rpm + gap * rpm
  later_filled tokens last now gap h =
      let split : now + gap - last ≡ now - last + gap = omega arith in
      let times : (now + gap - last) * rpm ≡ (now - last + gap) * rpm = ap (λ n. n * rpm) split in
      omega (arith, times)

  capped-add : (cap a b : ℕ) → capped cap (a + b) ≤ capped cap a + b
  capped-add cap a b = ground arith

  pub banked-later :
      (now gap : ℕ) (b : Option TokenBucket)
      → IsPast now b
      → banked (now + gap) b ≤ banked now b + gap * rpm
  banked-later now gap none p = omega arith
  banked-later now gap (some b) p =
      let e =
        ap (capped (burst * request_cost)) (later_filled b.tokens b.last_refill now gap p.0) in
      let le =
        capped-add (burst * request_cost) (b.tokens + (now - b.last_refill) * rpm) (gap * rpm) in
      omega (arith, e, le)

  -- A bucket as it is after a request at the time.
  new_filled :
      (tokens now : ℕ)
      → tokens ≤ burst * request_cost
      → refilled rpm burst now (record { tokens = tokens; last_refill = now; last_access = now })
        ≡ tokens
  new_filled tokens now h =
      let zero_ : now - now ≡ 0 = omega arith in
      let times : (now - now) * rpm ≡ 0 = ap (λ n. n * rpm) zero_ ∙ omega arith in
      ground (arith, times)

  abbrev pub cost_if : Bool → ℕ
  cost_if c = if c then request_cost else 0

  capped_le : (cap n : ℕ) → capped cap n ≤ cap
  capped_le cap n = ground arith

  -- A request takes its cost from what there is, or nothing.
  pub allow-banked :
      (now : ℕ) (b : TokenBucket)
      → cost_if (allow rpm burst now b).0 + banked now (some (allow rpm burst now b).1)
        ≡ banked now (some b)
  unfolding allow
  allow-banked now b =
      let tokens = refilled rpm burst now b in
      let le = capped_le (burst * request_cost) (b.tokens + (now - b.last_refill) * rpm) in
      elim (Bool-cases (leb request_cost tokens)) [
        | inl t ↦
            let n = new_filled (tokens - request_cost) now (omega (arith, le)) in
            rw t (rw n (ground arith))
        | inr f ↦ let n = new_filled tokens now le in rw f (rw n (omega arith))
      ]

  pub allow-IsPast : (now : ℕ) (b : TokenBucket) → IsPast now (some (allow rpm burst now b).1)
  unfolding allow
  allow-IsPast now b = elim (Bool-cases (leb request_cost (refilled rpm burst now b))) [
    | inl t ↦ rw t (omega arith, refl)
    | inr f ↦ rw f (omega arith, refl)
  ]

  pub get_bucket-banked :
      (key : String) (now : ℕ) (rl : RateLimiter)
      → rl.burst_size ≡ burst
      → banked now (some (get_bucket key now rl)) ≡ banked now (rl.buckets key)
  unfolding get_bucket new_token_bucket
  get_bucket-banked key now rl h = elim (Option-cases (rl.buckets key)) [
    | inl e ↦ rw (get_bucket, e) (rw h (new_filled (burst * request_cost) now (omega arith)))
    | inr (b, e) ↦ rw (get_bucket, e) refl
  ]

  -- An eviction of a bucket that could have filled up since takes and gives nothing.
  pub keep_fresh-banked :
      (now max_age : ℕ) (b : Option TokenBucket)
      → burst * request_cost ≤ max_age * rpm
      → IsPast now b
      → banked now (keep_fresh now max_age b) ≡ banked now b
  keep_fresh-banked now max_age none h p = refl
  keep_fresh-banked now max_age (some b) h p =
      elim (Bool-cases (ltb (b.last_access + max_age) now)) [
        | inr f ↦ rw f refl
        | inl t ↦
            let idle : max_age ≤ now - b.last_refill = ground arith in
            let refill : max_age * rpm ≤ (now - b.last_refill) * rpm = grind arith in
            rw t (ground arith)
      ]

  pub keep_fresh-IsPast :
      (now max_age : ℕ) (b : Option TokenBucket)
      → IsPast now b
      → IsPast now (keep_fresh now max_age b)
  keep_fresh-IsPast now max_age none p = tt
  keep_fresh-IsPast now max_age (some b) p = elim (Bool-cases (ltb (b.last_access + max_age) now)) [
    | inl t ↦ rw t tt
    | inr f ↦ rw f p
  ]
