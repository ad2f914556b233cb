-- ===== src/Tasks/Failed.antt =====
-- What HandleTaskFailure returns for a RUNNING task, and the row that it leaves.
use go_claw.Common.{
  ℕ, ◌+◌, ◌/◌, String, ◌≡◌, refl, ◌∙◌, ap, true, none, some, [], ◌∷◌, arith, Bool-cases, inl, inr,
  if◌then◌else◌,
}
use go_claw.Tasks.Model.{
  queued, running, retry_wait, failed, dead_letter, status_eq, Task, EventPayload, exhausted,
  with_code, backoff, Ctx, Store, Result, ok, err, if_row, select_task, update_tasks,
}
use go_claw.Tasks.Transition.{commit, with_status, moved, can_transition, append_task_event_tx}
use go_claw.Tasks.Finish.{clear_lease}
use go_claw.Tasks.Failure.{
  handle_task_failure, decide_failure, moves_to_dead_letter, FailureDecision, failure_row,
  retry_row, retry_delay, dead_letter_tx, retry_tx,
}
use go_claw.Tasks.Moves.{after_move}
use go_claw.Tasks.Unique.{IsUnique, IsUnique-map}
use go_claw.Tasks.Outcomes.{
  select-two, select-id, select-map, transition_happens, requeued, buried, map_row,
}

-- The transaction commits, and its decision and row are these.
abbrev Yields : String → FailureDecision → Task → Result (FailureDecision × Store) → Type 0
Yields id d row (ok (d', s)) = (d' ≡ d) × (select_task id s.tasks ≡ some row)
Yields id d row (err e) = ⊥

module _ (ctx : Ctx) (id err_msg : String) (d : FailureDecision) (s : Store) (row : Task)
    (u : IsUnique s.tasks) (e : select_task id s.tasks ≡ some row) (r : row.status ≡ running) where
  abbrev fail_payload : EventPayload
  fail_payload = exhausted d.reason_code d.attempt d.max_attempts

  abbrev half_buried : Store
  half_buried =
      let s' =
        after_move ctx id (running ∷ []) failed "task.failed" fail_payload none (some err_msg) s
          row in
      record s' { tasks = update_tasks (with_status id failed) (failure_row ctx.now d) s'.tasks }

  abbrev half_row : Task
  half_row = failure_row ctx.now d (moved ctx.now failed none (some err_msg) row)

  select-half_buried : select_task id half_buried.tasks ≡ some half_row
  unfolding append_task_event_tx
  select-half_buried =
      let h = select-id id s.tasks row e in
      select-two (if_row (with_status id row.status) (moved ctx.now failed none (some err_msg)))
        (if_row (with_status id failed) (failure_row ctx.now d)) id s.tasks row (λ t. ground arith)
        (λ t. ground arith) e
      ∙ ground arith

  half_buried-IsUnique : IsUnique half_buried.tasks
  unfolding append_task_event_tx
  half_buried-IsUnique =
      IsUnique-map _ _ (λ t. ground arith) (IsUnique-map _ _ (λ t. ground arith) u)

  -- the dead-letter branch, from the store and row at hand
  bury_row : Yields id d (buried ctx.now err_msg d row) (dead_letter_tx ctx id err_msg d s)
  unfolding dead_letter_tx append_task_event_tx can_transition
  bury_row =
      let a =
        transition_happens ctx id (running ∷ []) failed "task.failed" fail_payload none
          (some err_msg) s row u e (ground arith) (ground arith) in
      let b =
        transition_happens ctx id (failed ∷ []) dead_letter "task.dead_letter"
          (with_code "terminal_failure" d.reason_code) none none half_buried half_row
          half_buried-IsUnique select-half_buried refl refl in
      let h = select-id id s.tasks row e in
      rw a (
        rw b (
          refl,
          select-two (if_row (with_status id failed) (moved ctx.now dead_letter none none))
                (if_row (with_status id dead_letter) (clear_lease ctx.now)) id half_buried.tasks
                half_row (λ t. ground arith) (λ t. ground arith) select-half_buried
              ∙ ground arith,
        ))

  abbrev retry_at : ℕ
  retry_at = ctx.now + retry_delay id d.attempt

  abbrev retry_payload : EventPayload
  retry_payload =
      backoff d.reason_code d.attempt d.max_attempts (retry_delay id d.attempt / 1_000_000)

  abbrev half_retried : Store
  half_retried =
      let s' =
        after_move ctx id (running ∷ []) retry_wait "task.retry_wait" retry_payload none
          (some err_msg) s row in
      record s' {
        tasks = update_tasks (with_status id retry_wait) (retry_row ctx.now retry_at d) s'.tasks;
      }

  abbrev waiting_row : Task
  waiting_row = retry_row ctx.now retry_at d (moved ctx.now retry_wait none (some err_msg) row)

  select-half_retried : select_task id half_retried.tasks ≡ some waiting_row
  unfolding append_task_event_tx
  select-half_retried =
      let h = select-id id s.tasks row e in
      select-two (if_row (with_status id row.status) (moved ctx.now retry_wait none (some err_msg)))
        (if_row (with_status id retry_wait) (retry_row ctx.now retry_at d)) id s.tasks row
        (λ t. ground arith) (λ t. ground arith) e
      ∙ ground arith

  half_retried-IsUnique : IsUnique half_retried.tasks
  unfolding append_task_event_tx
  half_retried-IsUnique =
      IsUnique-map _ _ (λ t. ground arith) (IsUnique-map _ _ (λ t. ground arith) u)

  -- the retry branch
  retry_row_lem :
      Yields id
        (record d { backoff_until = some retry_at })
        (requeued ctx.now retry_at err_msg d row)
        (retry_tx ctx id err_msg d s)
  unfolding retry_tx append_task_event_tx can_transition
  retry_row_lem =
      let a =
        transition_happens ctx id (running ∷ []) retry_wait "task.retry_wait" retry_payload none
          (some err_msg) s row u e (ground arith) (ground arith) in
      let b =
        transition_happens ctx id (retry_wait ∷ []) queued "task.requeued"
          (with_code "ready_for_retry" d.reason_code) none none half_retried waiting_row
          half_retried-IsUnique select-half_retried refl refl in
      let h = select-id id s.tasks row e in
      rw a (
        rw b (
          refl,
          select-map (if_row (with_status id retry_wait) (moved ctx.now queued none none)) id
                half_retried.tasks (λ t. ground arith)
              ∙ ap (map_row (if_row (with_status id retry_wait) (moved ctx.now queued none none)))
                  select-half_retried
              ∙ ground arith,
        ))

-- What a handled failure comes to: the decision, and the row afterwards.
abbrev pub FailureResult :
    Ctx → String → String → FailureDecision → Task → Result FailureDecision × Store → Type 0
FailureResult ctx id err_msg d row (r, s) =
    if moves_to_dead_letter d.poison_count d.attempt d.max_attempts
    then (r ≡ ok d) × (select_task id s.tasks ≡ some (buried ctx.now err_msg d row))
    else (r ≡ ok (record d { backoff_until = some (ctx.now + retry_delay id d.attempt) }))
      × (select_task id s.tasks
          ≡ some (requeued ctx.now (ctx.now + retry_delay id d.attempt) err_msg d row))

committed :
    (id : String) (d : FailureDecision) (row : Task) (s : Store)
    (t : Result (FailureDecision × Store))
    → Yields id d row t
    → let c = commit s t in (c.0 ≡ ok d) × (select_task id c.1.tasks ≡ some row)
committed id d row s (ok (d', s')) y = (ap ok y.0, y.1)
committed id d row s (err e) y = absurd y

-- Where the ids are distinct, the failure of a RUNNING task is always handled: with the decision of
-- `decide_failure`, the task is a DEAD_LETTER if its attempts are used up or it is poisoned, and
-- otherwise is QUEUED again, to be available after the retry delay. Both rows carry the attempt, the
-- reason, the fingerprint and the poison count of the decision and the error, and hold no lease.
pub handle_task_failure-running :
    (ctx : Ctx) (id err_msg : String) (fingerprint : ℕ) (s : Store) (row : Task)
    → IsUnique s.tasks
    → select_task id s.tasks ≡ some row
    → row.status ≡ running
    → FailureResult ctx id err_msg
        (decide_failure row fingerprint)
        row
        (handle_task_failure ctx id err_msg fingerprint s)
unfolding handle_task_failure
handle_task_failure-running ctx id err_msg fingerprint s row u e r =
    let d = decide_failure row fingerprint in
    let run : status_eq row.status running ≡ true = ground arith in
    elim (Bool-cases (moves_to_dead_letter d.poison_count d.attempt d.max_attempts)) [
      | inl m ↦ rw e (
          rw (run, m)
            (committed id d _ s (dead_letter_tx ctx id err_msg d s)
              (bury_row ctx id err_msg d s row u e r)))
      | inr m ↦ rw e (
          rw (run, m)
            (committed id _ _ s (retry_tx ctx id err_msg d s)
              (retry_row_lem ctx id err_msg d s row u e r)))
    ]
