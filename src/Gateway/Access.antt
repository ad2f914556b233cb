-- ===== src/Gateway/Access.antt =====
-- The middleware of internal/gateway/auth.go and internal/gateway/ratelimit.go, in the order in which
-- buildHandler of internal/gateway/gateway.go puts them. Tokens, which the source counts in
-- floating point, are exact: a request costs `request_cost`, and each nanosecond adds the requests per
-- minute. Times do not run backwards.
use Prim.Native.String as S
use go_claw.Common.{
  ℕ, zero, suc, ◌+◌, ◌-◌, ◌*◌, String, Bool, true, false, not, ◌||◌, Option, none, some, List, [],
  ◌∷◌, ltb, leb, ◌==◌, str_eq, if◌then◌else◌,
}
use go_claw.Tasks.Model.{second}
use go_claw.Bus.Model.{has_prefix}

-- A request, as far as the middleware reads it.
pub record Request : Type 0 where
  pub path : String
  pub authorization : String
  pub x_api_key : String
  pub api_key : String  -- the query parameter
  pub remote_addr : String

abbrev trim : ℕ → String → String
trim zero text = text
trim (suc n) S.[] = S.[]
trim (suc n) (S.◌∷◌ c cs) = trim n cs

unfoldable pub extract_api_key : Request → String
extract_api_key r =
    if has_prefix r.authorization "Bearer "
    then trim 7 r.authorization
    else if not (str_eq r.x_api_key "")
    then r.x_api_key
    else r.api_key

pub record ApiKeyEntry : Type 0 where
  pub key : String
  pub agent_ids : List String
  pub rate_limit : ℕ

pub record AuthMiddleware : Type 0 where
  pub keys : List ApiKeyEntry
  pub enabled : Bool

-- The last entry of a key counts, as in a map that is filled in order.
abbrev pub lookup_key : String → List ApiKeyEntry → Option ApiKeyEntry
lookup_key candidate [] = none
lookup_key candidate (e ∷ es) = elim (lookup_key candidate es) [
  | some found ↦ some found
  | none ↦ if str_eq candidate e.key then some e else none
]

abbrev pub is_public : String → Bool
is_public path =
    str_eq path "/healthz" || str_eq path "/metrics" || str_eq path "/metrics/prometheus"

pub record TokenBucket : Type 0 where
  pub tokens : ℕ
  pub last_refill : ℕ
  pub last_access : ℕ

abbrev pub request_cost : ℕ
request_cost = 60 * second

pub record RateLimiter : Type 0 where
  pub enabled : Bool
  pub requests_per_minute : ℕ
  pub burst_size : ℕ
  pub buckets : String → Option TokenBucket

unfoldable pub new_rate_limiter : Bool → ℕ → ℕ → RateLimiter
new_rate_limiter enabled requests_per_minute burst_size = record {
  enabled = enabled;
  requests_per_minute = if requests_per_minute == 0 then 60 else requests_per_minute;
  burst_size = if burst_size == 0 then 10 else burst_size;
  buckets = λ key. none;
}

unfoldable pub new_token_bucket : ℕ → ℕ → TokenBucket
new_token_bucket burst_size now = record {
  tokens = burst_size * request_cost;
  last_refill = now;
  last_access = now;
}

abbrev pub capped : ℕ → ℕ → ℕ
capped limit n = if ltb limit n then limit else n

abbrev pub refilled : ℕ → ℕ → ℕ → TokenBucket → ℕ
refilled requests_per_minute burst_size now b =
    capped (burst_size * request_cost) (b.tokens + (now - b.last_refill) * requests_per_minute)

unfoldable pub allow : ℕ → ℕ → ℕ → TokenBucket → Bool × TokenBucket
allow requests_per_minute burst_size now b =
    let tokens = refilled requests_per_minute burst_size now b in
    if leb request_cost tokens
    then (true, record { tokens = tokens - request_cost; last_refill = now; last_access = now })
    else (false, record { tokens = tokens; last_refill = now; last_access = now })

abbrev pub set_bucket : String → TokenBucket → RateLimiter → RateLimiter
set_bucket key b rl = record rl { buckets = λ k. if str_eq key k then some b else rl.buckets k }

unfoldable pub get_bucket : String → ℕ → RateLimiter → TokenBucket
unfolding new_token_bucket
get_bucket key now rl = elim (rl.buckets key) [
  | some b ↦ b
  | none ↦ new_token_bucket rl.burst_size now
]

-- `EvictStale`, with the time of the call
abbrev pub keep_fresh : ℕ → ℕ → Option TokenBucket → Option TokenBucket
keep_fresh now max_age none = none
keep_fresh now max_age (some b) = if ltb (b.last_access + max_age) now then none else some b

unfoldable pub evict_stale : ℕ → ℕ → RateLimiter → RateLimiter
evict_stale now max_age rl = record rl { buckets = λ k. keep_fresh now max_age (rl.buckets k) }

pub data Response : Type 0 where
  unauthorized : Response  -- missing API key
  forbidden : Response  -- invalid API key
  too_many_requests : Response
  served : Option ApiKeyEntry → Response  -- by the handlers, with the entry of the key

abbrev pub bucket_key : Request → String
bucket_key r = if str_eq (extract_api_key r) "" then r.remote_addr else extract_api_key r

-- `RateLimitMiddleware.Wrap`
unfoldable pub limit : ℕ → Option ApiKeyEntry → Request → RateLimiter → Response × RateLimiter
unfolding allow get_bucket
limit now entry r rl =
    if not rl.enabled || is_public r.path
    then (served entry, rl)
    else (let (is_allowed, b) =
          allow rl.requests_per_minute rl.burst_size now (get_bucket (bucket_key r) now rl) in
        (if is_allowed then served entry else too_many_requests, set_bucket (bucket_key r) b rl))

-- `AuthMiddleware.Wrap`, around the limits
unfoldable pub handle : AuthMiddleware → ℕ → Request → RateLimiter → Response × RateLimiter
unfolding limit extract_api_key
handle am now r rl =
    if not am.enabled || is_public r.path
    then limit now none r rl
    else if str_eq (extract_api_key r) ""
    then (unauthorized, rl)
    else elim (lookup_key (extract_api_key r) am.keys) [
      | none ↦ (forbidden, rl)
      | some entry ↦ limit now (some entry) r rl
    ]
