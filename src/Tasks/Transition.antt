-- ===== src/Tasks/Transition.antt =====
-- Transactions, `canTransition`, `appendTaskEventTx` and `transitionTaskTx` of
-- internal/persistence/store.go.
use go_claw.Common.{
  ℕ, String, Bool, true, false, not, ◌&&◌, Option, none, some, List, [], ◌∷◌, ◌++◌, any, ◌==◌,
  if◌then◌else◌, str_eq,
}
use go_claw.Tasks.Model.{
  TaskStatus, status_eq, allowed_transitions, Task, TaskEvent, EventPayload, literal, Ctx, Store,
  Error, Result, ok, err, illegal_transition, has_id, select_task, update_tasks, rows_affected,
  current_timestamp,
}

-- The body of a transaction: an error ends it, and leaves its writes to the rollback.
abbrev pub Tx : Type 0 → Type 0
Tx A = Store → Result (A × Store)

abbrev pub pure : {A : Type 0} → A → Tx A
pure a s = ok (a, s)

abbrev pub raise : {A : Type 0} → Error → Tx A
raise e s = err e

abbrev pub and_then : {A B : Type 0} → Result (A × Store) → (A → Tx B) → Result (B × Store)
and_then (ok (a, s')) f = f a s'
and_then (err e) f = err e

infixl 5 ◌>>=◌ ◌>>◌
abbrev pub ◌>>=◌ : {A B : Type 0} → Tx A → (A → Tx B) → Tx B
◌>>=◌ m f s = and_then (m s) f

abbrev pub ◌>>◌ : {A B : Type 0} → Tx A → Tx B → Tx B
m >> n = m >>= λ _. n

-- BeginTx, the body, and Commit. The deferred Rollback restores the store after an error.
abbrev pub commit : {A : Type 0} → Store → Result (A × Store) → Result A × Store
commit s (ok (a, s')) = (ok a, s')
commit s (err e) = (err e, s)

abbrev pub with_tx : {A : Type 0} → Tx A → Store → Result A × Store
with_tx m s = commit s (m s)

-- UPDATE tasks SET … WHERE …
abbrev pub exec_update : (Task → Bool) → (Task → Task) → Tx Unit
exec_update test change s = ok (tt, record s { tasks = update_tasks test change s.tasks })

abbrev pub with_status : String → TaskStatus → Task → Bool
with_status id status t = has_id id t && status_eq t.status status

unfoldable pub can_transition : TaskStatus → TaskStatus → Bool
unfolding allowed_transitions
can_transition from to = any (λ next. status_eq next to) (allowed_transitions from)

-- NULLIF(?, '')
abbrev pub null_if_empty : String → Option String
null_if_empty v = if str_eq v "" then none else some v

-- if payload == "" { payload = "{}" }
abbrev pub or_braces : EventPayload → EventPayload
or_braces (literal text) = literal (if str_eq text "" then "{}" else text)
or_braces formatted = formatted

abbrev pub new_event :
    Ctx → String → String → Option TaskStatus → TaskStatus → String → EventPayload → TaskEvent
new_event ctx id session_id from to event_type payload = record {
  run_id = null_if_empty ctx.run_id;
  trace_id = if str_eq ctx.trace_id "-" then session_id else ctx.trace_id;
  task_id = id;
  session_id = session_id;
  event_type = event_type;
  state_from = from;
  state_to = to;
  payload = or_braces payload;
  created_at = current_timestamp ctx.now;
}

unfoldable pub append_task_event_tx :
    Ctx → String → String → Option TaskStatus → TaskStatus → String → EventPayload → Store → Store
append_task_event_tx ctx id session_id from to event_type payload s = record s {
  task_events = s.task_events ++ new_event ctx id session_id from to event_type payload ∷ [];
}

-- CASE WHEN ? THEN ? ELSE column END
abbrev pub or_keep : Option String → Option String → Option String
or_keep (some v) column = some v
or_keep none column = column

abbrev pub moved : ℕ → TaskStatus → Option String → Option String → Task → Task
moved now to result err_msg t = record t {
  status = to;
  result = or_keep result t.result;
  error = or_keep err_msg t.error;
  updated_at = current_timestamp now;
}

-- The part behind the SELECT, with the row that it found.
transition_row :
    Ctx
    → String
    → List TaskStatus
    → TaskStatus
    → String
    → EventPayload
    → Option String
    → Option String
    → Option Task
    → Tx Bool
unfolding can_transition append_task_event_tx
transition_row ctx id allowed_from to event_type payload result err_msg none s = ok (false, s)
transition_row ctx id allowed_from to event_type payload result err_msg (some row) s =
    if not (any (λ from. status_eq from row.status) allowed_from)
    then ok (false, s)
    else if not (can_transition row.status to)
    then err (illegal_transition row.status to)
    else if not (rows_affected (with_status id row.status) s.tasks == 1)
    then ok (false, s)
    else ok (
      true,
      append_task_event_tx ctx id row.session_id (some row.status) to event_type payload (record s {
        tasks = update_tasks (with_status id row.status) (moved ctx.now to result err_msg) s.tasks;
      }),
    )

unfoldable pub transition_task_tx :
    Ctx
    → String
    → List TaskStatus
    → TaskStatus
    → String
    → EventPayload
    → Option String
    → Option String
    → Tx Bool
unfolding transition_row
transition_task_tx ctx id allowed_from to event_type payload result err_msg s =
    transition_row ctx id allowed_from to event_type payload result err_msg (select_task id s.tasks)
      s
