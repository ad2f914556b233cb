-- ===== src/Tasks/Refinement/Failing.antt =====
-- HandleTaskFailure takes a step of Tasks/Steps.
use go_claw.Common.{
  ℕ, ◌+◌, ◌/◌, ◌≤◌, ◌<◌, ◌≡◌, refl, ◌∙◌, String, true, false, Option, none, some, [], ◌∷◌, ◌++◌,
  any, Option-cases, Bool-cases, inl, inr, ◌⊎◌, arith, All, All-find?, map,
}
use mathlib.Core.List.{map-map, append_assoc}
use go_claw.Tasks.Moves.{refused, illegal, done, outcome, after_move}
use go_claw.Tasks.Model.{
  TaskStatus, queued, running, retry_wait, failed, dead_letter, status_eq, EventPayload, Task,
  TaskEvent, exhausted, with_code, backoff, Ctx, Store, select_task, if_row, has_id, update_tasks,
  poison_threshold,
}
use go_claw.Tasks.Transition.{with_status, moved, append_task_event_tx}
use go_claw.Tasks.Finish.{clear_lease}
use go_claw.Tasks.Failure.{
  FailureDecision, decide_failure, failure_row, retry_row, retry_delay, dead_letter_tx, retry_tx,
  handle_task_failure, moves_to_dead_letter,
}
use go_claw.Tasks.Steps.{
  IsSettled, IsLegal, KeepsRows, Evolves, Evolves-same, EvolvesIf, Evolves-commit,
}

-- What a row needs of the decision that is written into it.
record Fits (d : FailureDecision) : Type 0 where
  bounded : d.attempt ≤ d.max_attempts
  exhausted_or_poisoned :
      moves_to_dead_letter d.poison_count d.attempt d.max_attempts ≡ true
      → (d.attempt ≡ d.max_attempts) ⊎ (poison_threshold ≤ d.poison_count)
  room :
      moves_to_dead_letter d.poison_count d.attempt d.max_attempts ≡ false
      → (d.attempt < d.max_attempts) × (d.poison_count < poison_threshold)

decide_failure-Fits :
    (row : Task) (fingerprint : ℕ)
    → IsSettled row
    → row.status ≡ running
    → Fits (decide_failure row fingerprint)
unfolding decide_failure
decide_failure-Fits row fingerprint h r = record {
  bounded = ground arith;
  exhausted_or_poisoned = λ m. ground arith;
  room = λ m. ground arith;
}

module _ (now : ℕ) (id : String) (err_msg : Option String) (d : FailureDecision)
    (from : TaskStatus) where
  abbrev first_half : TaskStatus → (Task → Task) → Task → Task
  first_half to change t =
      if_row (with_status id to) change (if_row (with_status id from) (moved now to none err_msg) t)

  abbrev second_half : TaskStatus → TaskStatus → (Task → Task) → Task → Task
  second_half from' to change t =
      if_row (with_status id to) change (if_row (with_status id from') (moved now to none none) t)

  dead_letter-KeepsRows :
      (from' : TaskStatus)
      → any (λ f. status_eq f from) (running ∷ []) ≡ true
      → any (λ f. status_eq f from') (failed ∷ []) ≡ true
      → Fits d
      → moves_to_dead_letter d.poison_count d.attempt d.max_attempts ≡ true
      → KeepsRows (λ t.
        second_half from' dead_letter (clear_lease now) (first_half failed (failure_row now d) t))
  dead_letter-KeepsRows from' a b f m = record {
    same_id = λ t. ground arith;
    stays_final = λ t h. ground arith;
    settled = λ t h. ground (arith, f.exhausted_or_poisoned m);
  }

  retry-KeepsRows :
      (at : ℕ) (from' : TaskStatus)
      → any (λ f. status_eq f from) (running ∷ []) ≡ true
      → any (λ f. status_eq f from') (retry_wait ∷ []) ≡ true
      → Fits d
      → moves_to_dead_letter d.poison_count d.attempt d.max_attempts ≡ false
      → KeepsRows (λ t.
        if_row
          (with_status id from')
          (moved now queued none none)
          (first_half retry_wait (retry_row now at d) t))
  retry-KeepsRows at from' a b f m = record {
    same_id = λ t. ground arith;
    stays_final = λ t h. ground arith;
    settled = λ t h. ground (arith, f.room m);
  }

-- Two logged changes, the rows of the first being those of the second's start.
Evolves-two :
    (s s' : Store) (f g : Task → Task) (a b : TaskEvent)
    → KeepsRows (λ t. g (f t))
    → s'.tasks ≡ map g (map f s.tasks)
    → s'.task_events ≡ (s.task_events ++ a ∷ []) ++ b ∷ []
    → IsLegal a
    → IsLegal b
    → Evolves s s'
Evolves-two s s' f g a b k r e la lb = record {
  change = λ t. g (f t);
  keeps = k;
  logged = a ∷ b ∷ [];
  rows = r ∙ map-map g f s.tasks;
  events = e ∙ append_assoc s.task_events (a ∷ []) (b ∷ []);
  legal = (la, (lb, tt));
}

module _ (ctx : Ctx) (id err_msg : String) (d : FailureDecision) (s : Store) (f : Fits d) where
  abbrev fail_payload : EventPayload
  fail_payload = exhausted d.reason_code d.attempt d.max_attempts

  abbrev bury_payload : EventPayload
  bury_payload = with_code "terminal_failure" d.reason_code

  -- the store between the two transitions
  abbrev half_buried : Task → Store
  half_buried row =
      let s' =
        after_move ctx id (running ∷ []) failed "task.failed" fail_payload none (some err_msg) s
          row in
      record s' { tasks = update_tasks (with_status id failed) (failure_row ctx.now d) s'.tasks }

  dead_letter_tx-EvolvesIf :
      moves_to_dead_letter d.poison_count d.attempt d.max_attempts ≡ true
      → EvolvesIf s (dead_letter_tx ctx id err_msg d s)
  unfolding dead_letter_tx append_task_event_tx
  dead_letter_tx-EvolvesIf m =
      elim (outcome ctx id (running ∷ []) failed "task.failed" fail_payload none (some err_msg) s) [
        | refused e ↦ rw e tt
        | illegal row _ e ↦ rw e tt
        | done row _ a c e ↦
            elim (outcome ctx id (failed ∷ []) dead_letter "task.dead_letter" bury_payload none none
              (half_buried row)) [
                | refused e' ↦ rw e (rw e' tt)
                | illegal row' _ e' ↦ rw e (rw e' tt)
                | done row' _ a' c' e' ↦ rw e (
                    rw e' (
                      Evolves-two s _
                        (first_half ctx.now id (some err_msg) d row.status failed
                          (failure_row ctx.now d))
                        (second_half ctx.now id (some err_msg) d row.status row'.status dead_letter
                          (clear_lease ctx.now))
                        _ _
                        (dead_letter-KeepsRows ctx.now id (some err_msg) d row.status row'.status a
                          a' f m)
                        (simp map-map) refl c c'))
              ]
      ]

  abbrev retry_at : ℕ
  retry_at = ctx.now + retry_delay id d.attempt

  abbrev retry_payload : EventPayload
  retry_payload =
      backoff d.reason_code d.attempt d.max_attempts (retry_delay id d.attempt / 1_000_000)

  abbrev ready_payload : EventPayload
  ready_payload = with_code "ready_for_retry" d.reason_code

  abbrev half_retried : Task → Store
  half_retried row =
      let s' =
        after_move ctx id (running ∷ []) retry_wait "task.retry_wait" retry_payload none
          (some err_msg) s row in
      record s' {
        tasks = update_tasks (with_status id retry_wait) (retry_row ctx.now retry_at d) s'.tasks;
      }

  retry_tx-EvolvesIf :
      moves_to_dead_letter d.poison_count d.attempt d.max_attempts ≡ false
      → EvolvesIf s (retry_tx ctx id err_msg d s)
  unfolding retry_tx append_task_event_tx
  retry_tx-EvolvesIf m =
      elim (outcome ctx id (running ∷ []) retry_wait "task.retry_wait" retry_payload none
        (some err_msg) s) [
          | refused e ↦ rw e tt
          | illegal row _ e ↦ rw e tt
          | done row _ a c e ↦
              elim (outcome ctx id (retry_wait ∷ []) queued "task.requeued" ready_payload none none
                (half_retried row)) [
                  | refused e' ↦ rw e (rw e' tt)
                  | illegal row' _ e' ↦ rw e (rw e' tt)
                  | done row' _ a' c' e' ↦ rw e (
                      rw e' (
                        Evolves-two s _
                          (first_half ctx.now id (some err_msg) d row.status retry_wait
                            (retry_row ctx.now retry_at d))
                          (if_row (with_status id row'.status) (moved ctx.now queued none none)) _ _
                          (retry-KeepsRows ctx.now id (some err_msg) d row.status retry_at
                            row'.status a a' f m)
                          (simp map-map) refl c c'))
                ]
        ]

-- A failure is handled by a step, if the rows were settled before.
pub handle_task_failure-Evolves :
    (ctx : Ctx) (id err_msg : String) (fingerprint : ℕ) (s : Store)
    → All IsSettled s.tasks
    → Evolves s (handle_task_failure ctx id err_msg fingerprint s).1
unfolding handle_task_failure
handle_task_failure-Evolves ctx id err_msg fingerprint s h =
    elim (Option-cases (select_task id s.tasks)) [
      | inl e ↦ Evolves-same _ _ (rw e) (rw e)
      | inr (row, e) ↦ elim (Bool-cases (status_eq row.status running)) [
        | inr no_run ↦ Evolves-same _ _ (rw e (rw no_run)) (rw e (rw no_run))
        | inl run ↦
            let fits =
              decide_failure-Fits row fingerprint
                (All-find? IsSettled (has_id id) s.tasks row h e).0 (ground arith) in
            let d = decide_failure row fingerprint in
            elim (Bool-cases (moves_to_dead_letter d.poison_count d.attempt d.max_attempts)) [
              | inl m ↦ rw e (
                  rw (run, m)
                    (Evolves-commit s _ (dead_letter_tx-EvolvesIf ctx id err_msg d s fits m)))
              | inr m ↦
                  rw e (
                    rw (run, m) (Evolves-commit s _ (retry_tx-EvolvesIf ctx id err_msg d s fits m)))
            ]
      ]
    ]
