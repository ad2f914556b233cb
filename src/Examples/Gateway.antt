-- ===== src/Examples/Gateway.antt =====
-- The theorems about the access control (internal/gateway) at a server with one key.
use go_claw.Common.{ℕ, ◌+◌, ◌*◌, ◌≤◌, ◌≡◌, refl, true, none, some, List, [], ◌∷◌, arith}
use go_claw.Tasks.Model.{second}
use go_claw.Gateway.Access.{
  Request, ApiKeyEntry, AuthMiddleware, RateLimiter, request_cost, handle, served, extract_api_key,
  limit, allow, get_bucket, new_token_bucket,
}
use go_claw.Gateway.Bounded.{
  Call, request, eviction, served_to, elapsed, EvictsFull, served_to-bounded,
}
use go_claw.Gateway.Keys.{IsConfigured, handle-IsConfigured}

abbrev entry : ApiKeyEntry
entry = record { key = "k"; agent_ids = []; rate_limit = 0 }

abbrev auth : AuthMiddleware
auth = record { keys = entry ∷ []; enabled = true }

abbrev limiter : RateLimiter
limiter = record { enabled = true; requests_per_minute = 60; burst_size = 2; buckets = λ key. none }

abbrev asks : Request
asks = record {
  path = "/api/tasks";
  authorization = "Bearer k";
  x_api_key = "";
  api_key = "";
  remote_addr = "1.2.3.4";
}

abbrev calls : List (ℕ × Call)
calls =
    (0, request asks)
    ∷ (0, request asks)
    ∷ (0, request asks)
    ∷ (second, request asks)
    ∷ (900 * second, eviction (600 * second))
    ∷ (0, request asks)
    ∷ []

calls-EvictsFull : EvictsFull 60 2 calls
calls-EvictsFull = (omega arith, tt)

served_to-bounded_example :
    served_to "k" auth 5 calls limiter * request_cost ≤ 2 * request_cost + elapsed calls * 60
served_to-bounded_example = served_to-bounded "k" auth 5 calls limiter refl refl calls-EvictsFull

was_served : (handle auth 5 asks limiter).0 ≡ served (some entry)
unfolding handle extract_api_key limit allow get_bucket new_token_bucket
was_served = refl

handle-IsConfigured_example :
    (e : ApiKeyEntry) × (some entry ≡ some e) × IsConfigured auth (extract_api_key asks) e
handle-IsConfigured_example =
    handle-IsConfigured auth 5 asks limiter (some entry) refl refl was_served
