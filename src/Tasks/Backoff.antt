-- ===== src/Tasks/Backoff.antt =====
-- Bounds on the delay of `retry_delay`, and what decides a failure.
use go_claw.Common.{ℕ, zero, suc, ◌-◌, ◌*◌, ◌/◌, ◌≤◌, ◌<◌, String, arith}
use native.Mathlib.Nat.{mod-lt}
use go_claw.Tasks.Model.{retry_base_delay, retry_max_delay}
use go_claw.Tasks.Failure.{
  retry_base, add_jitter, retry_delay, jitter_source, doubled, at_least_one,
}

doubled_bounds :
    (rounds base : ℕ)
    → base ≤ retry_max_delay
    → (base ≤ doubled rounds base) × (doubled rounds base ≤ retry_max_delay)
unfolding doubled
doubled_bounds zero base h = (omega arith, h)
doubled_bounds (suc rounds) base h = ground (arith, doubled_bounds rounds (base * 2))

retry_base_bounds :
    (attempt : ℕ) → (retry_base_delay ≤ retry_base attempt) × (retry_base attempt ≤ retry_max_delay)
unfolding retry_base
retry_base_bounds attempt = ground (arith, doubled_bounds (attempt - 1) retry_base_delay)

add_jitter_bounds :
    (base source : ℕ)
    → retry_base_delay ≤ base
    → base ≤ retry_max_delay
    → (base ≤ add_jitter base source)
      × (add_jitter base source ≤ retry_max_delay)
      × (2 * add_jitter base source ≤ 3 * base)
unfolding add_jitter
add_jitter_bounds base source l h =
    let half : 0 < base / 2 = omega arith in ground (arith, mod-lt source half)

-- The delay of every retry is at least its backoff base and so a second, at most 30 seconds, and at
-- most one and a half times its base.
pub retry_delay_bounds :
    (task_id : String) (attempt : ℕ)
    → (retry_base_delay ≤ retry_delay task_id attempt)
      × (retry_base (at_least_one attempt) ≤ retry_delay task_id attempt)
      × (retry_delay task_id attempt ≤ retry_max_delay)
      × (2 * retry_delay task_id attempt ≤ 3 * retry_base (at_least_one attempt))
unfolding retry_delay
retry_delay_bounds task_id attempt = omega (
  arith,
  retry_base_bounds (at_least_one attempt),
  add_jitter_bounds (retry_base (at_least_one attempt))
      (jitter_source task_id (at_least_one attempt)),
)
