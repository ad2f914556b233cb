-- ===== src/Gateway/Guarded.antt =====
-- The requests that the middleware of internal/gateway lets through to the handlers.
use go_claw.Common.{
  ℕ, ◌+◌, String, Bool, true, false, not, ◌&&◌, ◌||◌, Option, none, some, str_eq, ◌≡◌, refl, ap,
  ◌∙◌, inl, inr, arith, Bool-cases, Option-cases, if◌then◌else◌, eq_iff,
}
use go_claw.Gateway.Access.{
  Request, ApiKeyEntry, AuthMiddleware, RateLimiter, allow, get_bucket, Response, unauthorized,
  forbidden, served, too_many_requests, bucket_key, limit, handle, is_public, extract_api_key,
  lookup_key,
}
use go_claw.Gateway.Limits.{banked, IsPast, cost_if, allow-banked, allow-IsPast, get_bucket-banked}

abbrev pub is_served : Response → Bool
is_served (served entry) = true
is_served _ = false

-- A request that the limit of the key counts, and that was served.
abbrev pub is_taken : String → Request → Response → Bool
is_taken key r response = not (is_public r.path) && str_eq (bucket_key r) key && is_served response

-- The same limits, and what the request cost the key.
pub record Charges (key : String) (now : ℕ) (r : Request) (rl : RateLimiter)
    (out : Response × RateLimiter) : Type 0 where
  pub same_rate : out.1.requests_per_minute ≡ rl.requests_per_minute
  pub same_burst : out.1.burst_size ≡ rl.burst_size
  pub still_on : out.1.enabled ≡ rl.enabled
  pub past : IsPast rl.requests_per_minute rl.burst_size now (out.1.buckets key)
  pub paid :
      cost_if rl.requests_per_minute rl.burst_size (is_taken key r out.0)
        + banked rl.requests_per_minute rl.burst_size now (out.1.buckets key)
      ≡ banked rl.requests_per_minute rl.burst_size now (rl.buckets key)

-- No charge where nothing changes and nothing is served.
unchanged :
    (key : String) (now : ℕ) (r : Request) (rl : RateLimiter) (response : Response)
    → IsPast rl.requests_per_minute rl.burst_size now (rl.buckets key)
    → is_taken key r response ≡ false
    → Charges key now r rl (response, rl)
unchanged key now r rl response p f = record {
  same_rate = refl;
  same_burst = refl;
  still_on = refl;
  past = p;
  paid = rw f (omega arith);
}

served_if :
    (c : Bool) (entry : Option ApiKeyEntry)
    → is_served (if c then served entry else too_many_requests) ≡ c
served_if true entry = refl
served_if false entry = refl

limit-Charges :
    (key : String) (now : ℕ) (entry : Option ApiKeyEntry) (r : Request) (rl : RateLimiter)
    → rl.enabled ≡ true
    → IsPast rl.requests_per_minute rl.burst_size now (rl.buckets key)
    → Charges key now r rl (limit now entry r rl)
unfolding limit
limit-Charges key now entry r rl on p = elim (Bool-cases (not rl.enabled || is_public r.path)) [
  | inl t ↦
      let open_to_all : is_public r.path ≡ true = ground arith in
      rw (limit, t) (unchanged key now r rl (served entry) p (rw open_to_all refl))
  | inr c ↦
      let f : is_public r.path ≡ false = ground arith in
      let rpm = rl.requests_per_minute in
      let burst = rl.burst_size in
      let b = get_bucket (bucket_key r) now rl in
      let a = allow rpm burst now b in
      let s = served_if a.0 entry in
      elim (Bool-cases (str_eq (bucket_key r) key)) [
        | inr g ↦
            rw (limit, c)
              (record {
                same_rate = refl;
                same_burst = refl;
                still_on = refl;
                past = rw g p;
                paid = rw (f, g) (omega arith);
              })
        | inl g ↦
            let own =
              ap (λ k. banked rpm burst now (some (get_bucket k now rl)))
                ((eq_iff (bucket_key r) key).0 g) in
            rw (limit, c)
              (record {
                same_rate = refl;
                same_burst = refl;
                still_on = refl;
                past = rw g (allow-IsPast rpm burst now b);
                paid =
                    rw (f, g, s)
                      (allow-banked rpm burst now b
                        ∙ own
                        ∙ get_bucket-banked rpm burst key now rl refl);
              })
      ]
]

-- A refusal is no charge.
refused_untaken :
    (key : String) (r : Request) (response : Response)
    → is_served response ≡ false
    → is_taken key r response ≡ false
refused_untaken key r response h = ground arith

pub handle-Charges :
    (key : String) (am : AuthMiddleware) (now : ℕ) (r : Request) (rl : RateLimiter)
    → rl.enabled ≡ true
    → IsPast rl.requests_per_minute rl.burst_size now (rl.buckets key)
    → Charges key now r rl (handle am now r rl)
unfolding handle
handle-Charges key am now r rl on p = elim (Bool-cases (not am.enabled || is_public r.path)) [
  | inl t ↦ rw (handle, t) (limit-Charges key now none r rl on p)
  | inr f ↦ elim (Bool-cases (str_eq (extract_api_key r) "")) [
    | inl t ↦
        rw (handle, f, t)
          (unchanged key now r rl unauthorized p (refused_untaken key r unauthorized refl))
    | inr g ↦ elim (Option-cases (lookup_key (extract_api_key r) am.keys)) [
      | inl e ↦
          rw (handle, f, g, e)
            (unchanged key now r rl forbidden p (refused_untaken key r forbidden refl))
      | inr (entry, e) ↦ rw (handle, f, g, e) (limit-Charges key now (some entry) r rl on p)
    ]
  ]
]
