-- ===== src/Tasks/Outcomes.antt =====
-- What a client of the store sees of a call: the result and the row afterwards, on every branch.
use go_claw.Common.{
  ℕ, String, ◌≡◌, refl, ◌∙◌, ap, sym, ◌≢◌, ◌⊎◌, true, false, Option, none, some, List, [], ◌∷◌, map,
  any, arith, Bool-cases, Option-cases, inl, inr, str_eq, eq_iff,
}
use go_claw.Tasks.Model.{
  TaskStatus, queued, claimed, running, succeeded, failed, dead_letter, status_eq, Task,
  EventPayload, literal, Ctx, Store, ok, err, no_rows, illegal_transition, has_id, if_row,
  select_task, current_timestamp,
}
use go_claw.Tasks.Transition.{
  with_status, moved, can_transition, transition_task_tx, append_task_event_tx,
}
use go_claw.Tasks.Lifecycle.{start_task_run, cannot_start, coalesce}
use go_claw.Tasks.Finish.{complete_task, fail_task, finish_row}
use go_claw.Tasks.Failure.{handle_task_failure, FailureDecision}
use go_claw.Tasks.Moves.{attempt, after_move}
use go_claw.Tasks.Unique.{IsUnique, rows_affected-eq-one}
use go_claw.Tasks.Refinement.{effects-SameRows}

abbrev pub map_row : (Task → Task) → Option Task → Option Task
map_row f none = none
map_row f (some t) = some (f t)

-- A SELECT after an UPDATE that leaves the ids alone.
pub select-map :
    (change : Task → Task) (id : String) (ts : List Task)
    → ((t : Task) → (change t).id ≡ t.id)
    → select_task id (map change ts) ≡ map_row change (select_task id ts)
select-map change id [] same = refl
select-map change id (t ∷ ts) same =
    let q : has_id id (change t) ≡ has_id id t = ap (λ i. str_eq i id) (same t) in
    elim (Bool-cases (has_id id t)) [
      | inl e ↦ ground (arith, q)
      | inr e ↦ ground (arith, q, select-map change id ts same)
    ]

pub select-two :
    (f g : Task → Task) (id : String) (ts : List Task) (row : Task)
    → ((t : Task) → (f t).id ≡ t.id)
    → ((t : Task) → (g t).id ≡ t.id)
    → select_task id ts ≡ some row
    → select_task id (map g (map f ts)) ≡ some (g (f row))
select-two f g id ts row same_f same_g e =
    select-map g id (map f ts) same_g
    ∙ ap (map_row g) (select-map f id ts same_f)
    ∙ ap (λ o. map_row g (map_row f o)) e

-- The id of the row that a SELECT by id finds.
pub select-id :
    (id : String) (ts : List Task) (row : Task)
    → select_task id ts ≡ some row
    → has_id id row ≡ true
select-id id [] row e = cc
select-id id (t ∷ ts) row e = elim (Bool-cases (has_id id t)) [
  | inl h ↦ let f : some t ≡ some row = rw h at e in ground arith
  | inr h ↦ select-id id ts row (rw h at e)
]

module _ (ctx : Ctx) (id : String) (allowed : List TaskStatus) (to : TaskStatus)
    (event_type : String) (payload : EventPayload) (result err_msg : Option String) (s : Store)
    (row : Task) where
  -- A transition from an admitted state along the table happens, if the ids are distinct.
  pub transition_happens :
      IsUnique s.tasks
      → select_task id s.tasks ≡ some row
      → any (λ from. status_eq from row.status) allowed ≡ true
      → can_transition row.status to ≡ true
      → attempt ctx id allowed to event_type payload result err_msg s
        ≡ ok (true, after_move ctx id allowed to event_type payload result err_msg s row)
  unfolding transition_task_tx
  transition_happens u e a c = rw e (rw (a, c, rows_affected-eq-one id row s.tasks u e))

-- The row that a completion leaves.
abbrev pub completed : ℕ → String → Task → Task
completed now result row = record row {
  status = succeeded;
  result = some result;
  error = none;
  lease_owner = none;
  lease_expires_at = none;
  updated_at = current_timestamp now;
}

abbrev complete_payload : EventPayload
complete_payload = literal "{\"reason\":\"processor_success\"}"

-- Where the ids are distinct, `complete_task` of a RUNNING task succeeds: the row has SUCCEEDED with
-- the result, no error and no lease, and its other columns are as before.
pub complete_task-running :
    (ctx : Ctx) (id result : String) (s : Store) (row : Task)
    → IsUnique s.tasks
    → select_task id s.tasks ≡ some row
    → row.status ≡ running
    → ((complete_task ctx id result s).0 ≡ ok tt)
      × (select_task id (complete_task ctx id result s).1.tasks
          ≡ some (completed ctx.now result row))
unfolding complete_task can_transition append_task_event_tx
complete_task-running ctx id result s row u e r =
    let t =
      transition_happens ctx id (running ∷ []) succeeded "task.succeeded" complete_payload
        (some result) none s row u e (ground arith) (ground arith) in
    let h = select-id id s.tasks row e in
    (
      rw t refl,
      rw t (
          rw (effects-SameRows ctx "task.completed" id _).0 (
            select-two
              (if_row (with_status id row.status) (moved ctx.now succeeded (some result) none))
              (if_row (with_status id succeeded) (finish_row ctx.now)) id s.tasks row
              (λ t'. ground arith) (λ t'. ground arith) e
            ∙ ground arith)),
    )

not_running :
    (status : TaskStatus)
    → status ≢ running
    → (any (λ from. status_eq from status) (running ∷ []) ≡ false)
      × (status_eq status running ≡ false)
not_running running h = absurd (h refl)
not_running _ h = (refl, refl)

-- Where no row of the id is RUNNING (it is missing, still QUEUED or CLAIMED, or finished), a
-- completion and a handled failure return sql.ErrNoRows and change nothing.
pub not_running_refused :
    (ctx : Ctx) (id text : String) (fingerprint : ℕ) (s : Store)
    → ((row : Task) → select_task id s.tasks ≡ some row → row.status ≢ running)
    → (complete_task ctx id text s ≡ (err no_rows, s))
      × (handle_task_failure ctx id text fingerprint s ≡ (err no_rows, s))
unfolding complete_task handle_task_failure transition_task_tx
not_running_refused ctx id text fingerprint s h = elim (Option-cases (select_task id s.tasks)) [
  | inl e ↦ (rw e refl, rw e refl)
  | inr (row, e) ↦
      let idle = not_running row.status (h row e) in (rw e (rw idle.0 refl), rw e (rw idle.1 refl))
]

-- `fail_task` of a task that is QUEUED or CLAIMED is an illegal transition: its list of states admits
-- them and `allowedTransitions` does not. Nothing changes.
pub fail_task-illegal :
    (ctx : Ctx) (id text : String) (s : Store) (row : Task)
    → select_task id s.tasks ≡ some row
    → (row.status ≡ queued) ⊎ (row.status ≡ claimed)
    → fail_task ctx id text s ≡ (err (illegal_transition row.status failed), s)
unfolding fail_task transition_task_tx
fail_task-illegal ctx id text s row e (inl q) = rw e (rw q refl)
fail_task-illegal ctx id text s row e (inr q) = rw e (rw q refl)

lease_of :
    (o : Option String) (owner : String)
    → str_eq (coalesce o) "" ≡ false
    → str_eq (coalesce o) owner ≡ true
    → (o ≡ some owner) × (owner ≢ "")
lease_of none owner h k = cc h
lease_of (some v) owner h k =
    let same : v ≡ owner = (eq_iff v owner).0 k in
    (ap some same, λ e. cc (sym h ∙ (eq_iff v "").1 (same ∙ e)))

-- A worker starts a task only with the lease: where `start_task_run` succeeds, the row was CLAIMED,
-- and the caller's token, which is not empty, was its lease owner.
pub start_needs_lease :
    (ctx : Ctx) (id owner version : String) (s : Store)
    → (start_task_run ctx id owner version s).0 ≡ ok tt
    → (row : Task) × (select_task id s.tasks ≡ some row)
      × (row.status ≡ claimed)
      × (row.lease_owner ≡ some owner)
      × (owner ≢ "")
unfolding start_task_run
start_needs_lease ctx id owner version s h = elim (Option-cases (select_task id s.tasks)) [
  | inl e ↦ let q : err no_rows ≡ ok tt = rw e at h in cc q
  | inr (row, e) ↦ elim (Bool-cases (cannot_start row owner)) [
    | inl no_start ↦ let q : err no_rows ≡ ok tt = rw (e, no_start) at h in cc q
    | inr may ↦
        let l = lease_of row.lease_owner owner (ground arith) (ground arith) in
        (row, e, ground arith, l.0, l.1)
  ]
]

-- The row that a retried failure leaves.
abbrev pub requeued : ℕ → ℕ → String → FailureDecision → Task → Task
requeued now available_at err_msg d row = record row {
  status = queued;
  error = some err_msg;
  attempt = d.attempt;
  max_attempts = d.max_attempts;
  available_at = available_at;
  last_error_code = some d.reason_code;
  last_error_fingerprint = some d.error_fingerprint;
  poison_count = d.poison_count;
  lease_owner = none;
  lease_expires_at = none;
  updated_at = current_timestamp now;
}

-- The row that an exhausted or poisoned failure leaves.
abbrev pub buried : ℕ → String → FailureDecision → Task → Task
buried now err_msg d row = record row {
  status = dead_letter;
  error = some err_msg;
  attempt = d.attempt;
  max_attempts = d.max_attempts;
  last_error_code = some d.reason_code;
  last_error_fingerprint = some d.error_fingerprint;
  poison_count = d.poison_count;
  lease_owner = none;
  lease_expires_at = none;
  updated_at = current_timestamp now;
}
