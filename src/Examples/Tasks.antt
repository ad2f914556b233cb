-- ===== src/Examples/Tasks.antt =====
-- The theorems about the task store (internal/persistence) at small stores.
use go_claw.Common.{
  ℕ, ◌*◌, ◌≤◌, ◌≡◌, ◌≢◌, ◌⊎◌, inl, refl, String, true, false, none, some, List, [], ◌∷◌, All, arith,
}
use go_claw.Tasks.Model.{
  queued, claimed, running, succeeded, failed, Task, Ctx, Store, ok, err, no_rows,
  illegal_transition, select_task, second, retry_base_delay, retry_max_delay,
}
use go_claw.Tasks.Lifecycle.{new_task, claim_next_pending_task, start_task_run, is_claimable}
use go_claw.Tasks.Transition.{transition_task_tx, can_transition, append_task_event_tx}
use go_claw.Tasks.Finish.{complete_task, fail_task}
use go_claw.Tasks.Failure.{
  handle_task_failure, decide_failure, retry_delay, retry_base, at_least_one,
}
use go_claw.Tasks.Runs.{
  Op, create, claim, start, complete, handle_failure, requeue_expired, run, IsSound, run-IsSound,
  status_of, run-absorbing,
}
use go_claw.Tasks.Unique.{IsUnique, run-IsUnique}
use go_claw.Tasks.Outcomes.{
  completed, complete_task-running, not_running_refused, fail_task-illegal, start_needs_lease,
}
use go_claw.Tasks.Backoff.{retry_delay_bounds}
use go_claw.Tasks.Failed.{FailureResult, handle_task_failure-running}
use go_claw.Tasks.Claimed.{Claims, claim_takes_first}

abbrev empty_store : Store
empty_store = record {
  sessions = "s" ∷ [];
  tasks = [];
  task_events = [];
  messages = [];
  task_metrics = [];
  has_bus = true;
  published = [];
}

empty_store-IsSound : IsSound empty_store
empty_store-IsSound = record { settled = tt; legal = tt }

abbrev at : ℕ → Ctx
at n = record { now = n * second; trace_id = "-"; run_id = "r" }

-- Two tasks: one completes on its second lease, the other fails once.
abbrev ops : List (Ctx × Op)
ops =
    (at 1, create "a" "" "s" "p")
    ∷ (at 2, create "b" "" "s" "p")
    ∷ (at 3, claim "w" "")
    ∷ (at 4, start "a" "w" "v1")
    ∷ (at 40, requeue_expired)
    ∷ (at 41, claim "x" "")
    ∷ (at 42, start "a" "x" "v1")
    ∷ (at 43, complete "a" "done")
    ∷ (at 44, claim "y" "")
    ∷ (at 45, start "b" "y" "v1")
    ∷ (at 46, handle_failure "b" "boom" 7)
    ∷ []

run-IsSound_example : IsSound (run ops empty_store)
run-IsSound_example = run-IsSound ops empty_store empty_store-IsSound

run-IsUnique_example : IsUnique (run ops empty_store).tasks
run-IsUnique_example = run-IsUnique ops empty_store empty_store-IsSound tt

abbrev finished_task : Task
finished_task = record (new_task 0 "a" "s" "chat" "default" succeeded "p") { result = some "done" }

abbrev with_task : Task → Store
with_task t = record empty_store { tasks = t ∷ [] }

finished-IsSound : IsSound (with_task finished_task)
finished-IsSound = record {
  settled = (
    record {
      owner_iff = refl;
      expiry_iff = refl;
      not_waiting = λ e. cc;
      attempts = omega arith;
      attempts_left = λ e. omega arith;
      not_poisoned = λ e. omega arith;
      buried = λ e. cc;
    },
    tt,
  );
  legal = tt;
}

run-absorbing_example : status_of "a" (run ops (with_task finished_task)) ≡ some succeeded
run-absorbing_example =
    run-absorbing ops (with_task finished_task) "a" succeeded finished-IsSound refl refl

abbrev queued_task : Task
queued_task = new_task 0 "a" "s" "chat" "default" queued "p"

abbrev claimed_task : Task
claimed_task = record queued_task {
  status = claimed;
  lease_owner = some "w";
  lease_expires_at = some (30 * second);
}

abbrev running_task : Task
running_task = record claimed_task { status = running; policy_version = some "v1" }

complete_task-running_example :
    ((complete_task (at 5) "a" "done" (with_task running_task)).0 ≡ ok tt)
    × (select_task "a" (complete_task (at 5) "a" "done" (with_task running_task)).1.tasks
        ≡ some (completed (5 * second) "done" running_task))
complete_task-running_example =
    complete_task-running (at 5) "a" "done" (with_task running_task) running_task (refl, tt) refl
      refl

handle_task_failure-running_example :
    FailureResult
      (at 5)
      "a"
      "boom"
      (decide_failure running_task 7)
      running_task
      (handle_task_failure (at 5) "a" "boom" 7 (with_task running_task))
handle_task_failure-running_example =
    handle_task_failure-running (at 5) "a" "boom" 7 (with_task running_task) running_task (refl, tt)
      refl refl

only_queued :
    (row : Task) → select_task "a" (with_task queued_task).tasks ≡ some row → row.status ≢ running
only_queued row e r = let q : queued_task ≡ row = cc e in absurd (cc (q, r))

not_running_refused_example :
    (complete_task (at 5) "a" "done" (with_task queued_task) ≡ (err no_rows, with_task queued_task))
    × (handle_task_failure (at 5) "a" "done" 7 (with_task queued_task)
        ≡ (err no_rows, with_task queued_task))
not_running_refused_example =
    not_running_refused (at 5) "a" "done" 7 (with_task queued_task) only_queued

fail_task-illegal_example :
    fail_task (at 5) "a" "boom" (with_task queued_task)
    ≡ (err (illegal_transition queued_task.status failed), with_task queued_task)
fail_task-illegal_example =
    fail_task-illegal (at 5) "a" "boom" (with_task queued_task) queued_task refl (inl refl)

abbrev worker : String
worker = "w"

starts : (start_task_run (at 5) "a" worker "v1" (with_task claimed_task)).0 ≡ ok tt
unfolding start_task_run transition_task_tx can_transition append_task_event_tx
starts = refl

start_needs_lease_example :
    (row : Task) × (select_task "a" (with_task claimed_task).tasks ≡ some row)
    × (row.status ≡ claimed)
    × (row.lease_owner ≡ some worker)
    × (worker ≢ "")
start_needs_lease_example = start_needs_lease (at 5) "a" worker "v1" (with_task claimed_task) starts

claim_takes_first_example :
    ((t : Task) × Claims
        (at 5)
        "w"
        ""
        (with_task queued_task)
        (claim_next_pending_task (at 5) "w" "" (with_task queued_task))
        t)
    ⊎ ((claim_next_pending_task (at 5) "w" "" (with_task queued_task)
          ≡ (ok none, with_task queued_task))
        × All (λ u. is_claimable (5 * second) "" u ≡ false) (with_task queued_task).tasks)
claim_takes_first_example = claim_takes_first (at 5) "w" "" (with_task queued_task) (refl, tt)

retry_delay_bounds_example :
    (retry_base_delay ≤ retry_delay "a" 2)
    × (retry_base (at_least_one 2) ≤ retry_delay "a" 2)
    × (retry_delay "a" 2 ≤ retry_max_delay)
    × (2 * retry_delay "a" 2 ≤ 3 * retry_base (at_least_one 2))
retry_delay_bounds_example = retry_delay_bounds "a" 2
