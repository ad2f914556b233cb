-- ===== src/Examples/Engine.antt =====
-- The theorems about failover and the agent loop (internal/engine) at small runs.
use go_claw.Common.{
  ℕ, ◌-◌, ◌<◌, ◌≡◌, refl, Bool, true, false, Option, none, some, [], ◌∷◌, arith, ◌==◌, inl, str_eq,
}
use go_claw.Engine.Failover.{
  CircuitBreaker, FailoverBrain, Moment, failed, try_candidates, requests, new_failover_brain,
}
use go_claw.Engine.Breakers.{IsSound}
use go_claw.Engine.Requests.{requests_new-IsSound}
use go_claw.Engine.Tripped.{Rests, try_candidates-Rests}
use go_claw.Engine.Loop.{LoopConfig, Loop, Ran, run, limits, start}
use go_claw.Engine.Loop as L
use go_claw.Engine.Budget.{Ends, run-Ends}
use go_claw.Engine.Checkpoints.{load_loop_checkpoint}
use go_claw.Engine.Resumption.{outcome_of, load_loop_checkpoint-resumes}

abbrev tripped_breaker : CircuitBreaker
tripped_breaker = record { failures = 5; last_failure = 100; tripped = true }

abbrev brain : FailoverBrain
brain = record {
  primary = "a";
  fallbacks = "b" ∷ [];
  breakers =
      record { name = "a"; breaker = tripped_breaker }
      ∷ record { name = "b"; breaker = record { failures = 0; last_failure = 0; tripped = false } }
      ∷ [];
  threshold = 5;
  cooldown_period = 300;
  called = [];
}

-- Both would fail, ten seconds after the last failure of "a".
abbrev moment : ℕ → Moment
moment i = record { checked_at = 110; answered_at = 112; reply = failed false }

requests_new-IsSound_example :
    IsSound (requests (moment ∷ moment ∷ []) (new_failover_brain "a" ("b" ∷ []) 2 0))
requests_new-IsSound_example = requests_new-IsSound "a" ("b" ∷ []) 2 0 (moment ∷ moment ∷ [])

early : (j : ℕ) → (moment j).checked_at - tripped_breaker.last_failure < 300
early j = omega arith

brain-Rests : Rests "a" tripped_breaker 300 0 brain
brain-Rests = record { found = refl; period = refl; called_times = refl }

try_candidates-Rests_example :
    Rests "a" tripped_breaker 300 0 (try_candidates moment 0 ("a" ∷ "b" ∷ []) brain).brain
try_candidates-Rests_example =
    try_candidates-Rests "a" tripped_breaker 300 0 moment 0 ("a" ∷ "b" ∷ []) brain refl early
      brain-Rests

abbrev config : LoopConfig
config = record { max_steps = 3; max_tokens = 0; checkpoint_interval = 2 }

abbrev in_time : ℕ → Bool
in_time step = false

abbrev model : ℕ → Option L.Reply
model step = some (record { text = "done"; len = 4; has_keyword = step == 2 })

run-Ends_example :
    (e : Ran) × (run config in_time model (start "l" "t" 0 [] none) ≡ some e)
    × Ends (limits config) in_time model (start "l" "t" 0 [] none) e
run-Ends_example = run-Ends config in_time model (start "l" "t" 0 [] none)

-- A loop after its first step, whose row was saved before.
abbrev halfway : Loop
halfway = record {
  loop_id = "l";
  task_id = "t";
  current_step = 1;
  tokens_used = 1;
  started_at = 7;
  last_response = "going on";
  checkpoints =
      record {
        loop_id = "l";
        task_id = "t";
        current_step = 0;
        tokens_used = 0;
        started_at = 7;
        status = L.running;
      }
      ∷ [];
  events = [];
}

abbrev resumed : Loop
resumed =
    start "new" "t" 9 (L.save_checkpoint L.running halfway).checkpoints
      (load_loop_checkpoint (λ id. 0) "t" (L.save_checkpoint L.running halfway).checkpoints)

load_loop_checkpoint-resumes_example :
    (str_eq resumed.loop_id "l" ≡ true)
    × (outcome_of (run config in_time model resumed)
        ≡ outcome_of (run config in_time model halfway))
load_loop_checkpoint-resumes_example =
    load_loop_checkpoint-resumes config in_time model (λ id. 0) "new" 9 halfway
      (inl (refl, refl, tt))
