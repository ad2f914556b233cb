-- ===== src/Tasks/Runs.antt =====
-- The operations as one step function, runs of the store from the empty database, and what holds
-- after every run.
use go_claw.Common.{
  ℕ, String, true, ◌≡◌, ap, ◌∙◌, sym, Option, none, some, List, [], ◌∷◌, ◌++◌, map, All, All-append,
  All-map, Bool-cases, inl, inr, ◌⊎◌,
}
use mathlib.Core.List.{append-nil, append_assoc}
use go_claw.Tasks.Model.{TaskStatus, Task, TaskEvent, Ctx, Store, select_task, has_id}
use go_claw.Tasks.Lifecycle.{
  create_subtask, record_tool_task, create_task, claim_next_pending_task, start_task_run,
  heartbeat_lease,
}
use go_claw.Tasks.Finish.{complete_task, fail_task, request_cancel, abort_task}
use go_claw.Tasks.Failure.{handle_task_failure}
use go_claw.Tasks.Recovery.{requeue_expired_leases, recover_running_tasks, age_queued_priorities}
use go_claw.Tasks.Steps.{IsSettled, IsLegal, Evolves, KeepsRows, is_absorbing}
use go_claw.Tasks.Refinement.{
  complete_task-Evolves, fail_task-Evolves, request_cancel-Evolves, abort_task-Evolves,
  claim_next_pending_task-Evolves, start_task_run-Evolves, heartbeat_lease-Evolves,
  age_queued_priorities-Evolves, requeue_expired_leases-Evolves, recover_running_tasks-Evolves,
  handle_task_failure-Evolves,
}
use go_claw.Tasks.Inserts.{Inserts, create_task_cases, create_subtask_cases, record_tool_task_cases}

-- A call of one of the store's operations, with the uuids and times that it sees.
pub data Op : Type 0 where
  create : String → String → String → String → Op  -- task, agent, session, payload
  create_sub : String → String → String → String → ℕ → Op  -- task, parent, session, payload, priority
  record_tool : String → String → String → String → Option String → Op  -- task, session, texts, error
  claim : String → String → Op  -- lease owner, agent
  start : String → String → String → Op  -- task, lease owner, policy version
  heartbeat : String → String → Op  -- task, lease owner
  complete : String → String → Op  -- task, result
  fail : String → String → Op  -- task, error
  handle_failure : String → String → ℕ → Op  -- task, error, its fingerprint
  cancel : String → Op
  abort : String → Op
  requeue_expired : Op
  recover_running : Op
  age : ℕ → ℕ → Op  -- threshold, highest priority

unfoldable pub step : Ctx → Op → Store → Store
step ctx (create id agent session payload) s = (create_task ctx id agent session payload s).1
step ctx (create_sub id parent session payload priority) s =
    (create_subtask ctx id parent session payload priority s).1
step ctx (record_tool id session payload result call_err) s =
    (record_tool_task ctx id session payload result call_err s).1
step ctx (claim owner agent) s = (claim_next_pending_task ctx owner agent s).1
step ctx (start id owner version) s = (start_task_run ctx id owner version s).1
step ctx (heartbeat id owner) s = (heartbeat_lease ctx id owner s).1
step ctx (complete id result) s = (complete_task ctx id result s).1
step ctx (fail id err_msg) s = (fail_task ctx id err_msg s).1
step ctx (handle_failure id err_msg fingerprint) s =
    (handle_task_failure ctx id err_msg fingerprint s).1
step ctx (cancel id) s = (request_cancel ctx id s).1
step ctx (abort id) s = (abort_task ctx id s).1
step ctx requeue_expired s = (requeue_expired_leases ctx s).1
step ctx recover_running s = (recover_running_tasks ctx s).1
step ctx (age threshold max_priority) s = (age_queued_priorities ctx threshold max_priority s).1

unfoldable pub run : List (Ctx × Op) → Store → Store
unfolding step
run [] s = s
run ((ctx, op) ∷ ops) s = run ops (step ctx op s)

-- Every operation, from a store with settled rows, changes the rows by such a step or inserts one.
pub step_cases :
    (ctx : Ctx) (op : Op) (s : Store)
    → All IsSettled s.tasks
    → Evolves s (step ctx op s) ⊎ Inserts s (step ctx op s)
unfolding step
step_cases ctx (create id agent session payload) s h =
    create_task_cases ctx id agent session payload s
step_cases ctx (create_sub id parent session payload priority) s h =
    create_subtask_cases ctx id parent session payload priority s
step_cases ctx (record_tool id session payload result call_err) s h =
    record_tool_task_cases ctx id session payload result call_err s
step_cases ctx (claim owner agent) s h = inl (claim_next_pending_task-Evolves ctx owner agent s)
step_cases ctx (start id owner version) s h = inl (start_task_run-Evolves ctx id owner version s)
step_cases ctx (heartbeat id owner) s h = inl (heartbeat_lease-Evolves ctx id owner s)
step_cases ctx (complete id result) s h = inl (complete_task-Evolves ctx id result s)
step_cases ctx (fail id err_msg) s h = inl (fail_task-Evolves ctx id err_msg s)
step_cases ctx (handle_failure id err_msg fingerprint) s h =
    inl (handle_task_failure-Evolves ctx id err_msg fingerprint s h)
step_cases ctx (cancel id) s h = inl (request_cancel-Evolves ctx id s)
step_cases ctx (abort id) s h = inl (abort_task-Evolves ctx id s)
step_cases ctx requeue_expired s h = inl (requeue_expired_leases-Evolves ctx s)
step_cases ctx recover_running s h = inl (recover_running_tasks-Evolves ctx s)
step_cases ctx (age threshold max_priority) s h =
    inl (age_queued_priorities-Evolves ctx threshold max_priority s)

-- Settled rows and a legal log.
pub record IsSound (s : Store) : Type 0 where
  pub settled : All IsSettled s.tasks
  pub legal : All IsLegal s.task_events

Evolves-IsSound : (s s' : Store) → Evolves s s' → IsSound s → IsSound s'
Evolves-IsSound s s' e h = record {
  settled = rw e.rows (All-map IsSettled e.change s.tasks e.keeps.settled h.settled);
  legal = rw e.events (All-append IsLegal s.task_events e.logged h.legal e.legal);
}

Inserts-IsSound : (s s' : Store) → Inserts s s' → IsSound s → IsSound s'
Inserts-IsSound s s' e h = record {
  settled = rw e.rows (All-append IsSettled s.tasks (e.task ∷ []) h.settled (e.is_settled, tt));
  legal = rw e.events (All-append IsLegal s.task_events e.logged h.legal e.is_legal);
}

pub step-IsSound : (ctx : Ctx) (op : Op) (s : Store) → IsSound s → IsSound (step ctx op s)
step-IsSound ctx op s h = elim (step_cases ctx op s h.settled) [
  | inl e ↦ Evolves-IsSound s (step ctx op s) e h
  | inr e ↦ Inserts-IsSound s (step ctx op s) e h
]

-- From a store whose rows are settled and whose log is legal, after any operations in any order, at
-- any times and with any arguments, the rows are settled and the log is legal: a row has a lease
-- exactly while it is claimed or running, none waits in RETRY_WAIT, its attempts are bounded by its
-- limit (strictly while it is unfinished), an unfinished row is below the poison threshold, a dead
-- letter has used its attempts or reached the threshold, and every logged change of a status is one
-- of `allowedTransitions`.
pub run-IsSound : (ops : List (Ctx × Op)) (s : Store) → IsSound s → IsSound (run ops s)
unfolding run
run-IsSound [] s h = h
run-IsSound ((ctx, op) ∷ ops) s h = run-IsSound ops (step ctx op s) (step-IsSound ctx op s h)

abbrev pub map_status : Option Task → Option TaskStatus
map_status none = none
map_status (some t) = some t.status

abbrev pub status_of : String → Store → Option TaskStatus
status_of id s = map_status (select_task id s.tasks)

-- A change that keeps the ids keeps what a SELECT by id finds.
status-map :
    (change : Task → Task) (id : String) (ts : List Task) (status : TaskStatus)
    → KeepsRows change
    → is_absorbing status ≡ true
    → map_status (select_task id ts) ≡ some status
    → map_status (select_task id (map change ts)) ≡ some status
status-map change id [] status k a h = h
status-map change id (t ∷ ts) status k a h = rw k.same_id (elim (Bool-cases (has_id id t)) [
  | inl e ↦
      let found : some t.status ≡ some status = rw e at h in
      let same : t.status ≡ status = cc found in
      rw e (ap some (k.stays_final t (ap is_absorbing same ∙ a) ∙ same))
  | inr e ↦ rw e (status-map change id ts status k a (rw e at h))
])

status-append :
    (id : String) (ts us : List Task) (status : TaskStatus)
    → map_status (select_task id ts) ≡ some status
    → map_status (select_task id (ts ++ us)) ≡ some status
status-append id [] us status h = cc
status-append id (t ∷ ts) us status h = elim (Bool-cases (has_id id t)) [
  | inl e ↦ rw e (rw e at h)
  | inr e ↦ rw e (status-append id ts us status (rw e at h))
]

step-absorbing :
    (ctx : Ctx) (op : Op) (s : Store) (id : String) (status : TaskStatus)
    → IsSound s
    → is_absorbing status ≡ true
    → status_of id s ≡ some status
    → status_of id (step ctx op s) ≡ some status
step-absorbing ctx op s id status h a f = elim (step_cases ctx op s h.settled) [
  | inl e ↦ rw e.rows (status-map e.change id s.tasks status e.keeps a f)
  | inr e ↦ rw e.rows (status-append id s.tasks (e.task ∷ []) status f)
]

-- A task that has SUCCEEDED, was CANCELED or is a DEAD_LETTER keeps that status, and stays in the
-- table, under any further operations (late completions, failures, aborts, recoveries and claims
-- among them), from a sound store.
pub run-absorbing :
    (ops : List (Ctx × Op)) (s : Store) (id : String) (status : TaskStatus)
    → IsSound s
    → is_absorbing status ≡ true
    → status_of id s ≡ some status
    → status_of id (run ops s) ≡ some status
unfolding run
run-absorbing [] s id status h a f = f
run-absorbing ((ctx, op) ∷ ops) s id status h a f =
    run-absorbing ops (step ctx op s) id status (step-IsSound ctx op s h) a
      (step-absorbing ctx op s id status h a f)

step_appends :
    (ctx : Ctx) (op : Op) (s : Store)
    → IsSound s
    → (es : List TaskEvent) × ((step ctx op s).task_events ≡ s.task_events ++ es)
step_appends ctx op s h = elim (step_cases ctx op s h.settled) [
  | inl e ↦ (e.logged, e.events)
  | inr e ↦ (e.logged, e.events)
]

-- The log of events is only appended to: what is logged before a run stands first after it.
pub run_appends :
    (ops : List (Ctx × Op)) (s : Store)
    → IsSound s
    → (es : List TaskEvent) × ((run ops s).task_events ≡ s.task_events ++ es)
unfolding run
run_appends [] s h = ([], sym (append-nil s.task_events))
run_appends ((ctx, op) ∷ ops) s h =
    let (es, p) = step_appends ctx op s h in
    let (fs, q) = run_appends ops (step ctx op s) (step-IsSound ctx op s h) in
    (es ++ fs, q ∙ ap (λ l. l ++ fs) p ∙ append_assoc s.task_events es fs)
