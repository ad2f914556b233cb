-- ===== src/Bus/Threshold.antt =====
-- The counts at which internal/bus/bus.go warns of dropped events.
use go_claw.Common.{ℕ, zero, suc, ◌+◌, ◌*◌, ◌≤◌, ◌<◌, leb, inl, inr, arith, Bool-cases}
use go_claw.Bus.Model.{grow, drop_threshold}

pub data IsPowerOfTen : ℕ → Type 0 where
  one : IsPowerOfTen 1
  ten_times : (n : ℕ) → IsPowerOfTen n → IsPowerOfTen (n * 10)

-- A power of ten, at most `count`, whose next one is above it.
pub record IsThreshold (count n : ℕ) : Type 0 where
  pub power : IsPowerOfTen n
  pub reached : n ≤ count
  pub next_above : count < n * 10

positive : (n : ℕ) → IsPowerOfTen n → 1 ≤ n
positive n one = omega arith
positive n (ten_times m p) = omega (arith, positive m p)

grow-IsThreshold :
    (fuel n count : ℕ)
    → IsPowerOfTen n
    → n ≤ count
    → count < fuel + n
    → IsThreshold count (grow fuel n count)
unfolding grow
grow-IsThreshold zero n count p h f = absurd (omega arith)
grow-IsThreshold (suc fuel) n count p h f = elim (Bool-cases (leb (n * 10) count)) [
  | inr g ↦ rw g (record { power = p; reached = h; next_above = ground arith })
  | inl t ↦
      let pos = positive n p in
      rw t (grow-IsThreshold fuel (n * 10) count (ten_times n p) (ground arith) (omega arith))
]

-- `dropThreshold` of a positive count is the greatest power of ten that it reaches; its loop, which has
-- as much fuel as the count, ends by itself.
pub drop_threshold-IsThreshold : (count : ℕ) → 1 ≤ count → IsThreshold count (drop_threshold count)
unfolding drop_threshold
drop_threshold-IsThreshold count h = grow-IsThreshold count 1 count one h (omega arith)
