-- ===== src/Tasks/Lifecycle.antt =====
-- The operations of internal/persistence/tasks.go on the normal course of a task: creation, claim,
-- start, heartbeat, completion and plain failure.
use Prim.Native.String.{compare}
use Prim.Native.Nat.{Ordering}
use go_claw.Common.{
  ℕ, ◌+◌, String, Bool, true, false, not, ◌&&◌, ◌||◌, Option, none, some, List, [], ◌∷◌, ◌++◌,
  filter, any, ltb, leb, ◌==◌, if◌then◌else◌, str_eq,
}
use go_claw.Tasks.Model.{
  TaskStatus, succeeded, failed, queued, claimed, running, status_eq, Task, EventPayload, literal,
  Ctx, Store, Result, ok, err, no_rows, constraint, has_id, select_task, update_tasks,
  rows_affected, current_timestamp, default_max_attempts, default_lease_duration,
}
use go_claw.Tasks.Transition.{
  Tx, pure, raise, ◌>>=◌, ◌>>◌, with_tx, exec_update, with_status, append_task_event_tx,
  transition_task_tx,
}

abbrev pub new_task : ℕ → String → String → String → String → TaskStatus → String → Task
new_task now id session_id kind agent_id status payload = record {
  id = id;
  session_id = session_id;
  kind = kind;
  status = status;
  priority = 0;
  attempt = 0;
  max_attempts = default_max_attempts;
  available_at = current_timestamp now;
  cancel_requested = false;
  last_error_code = none;
  last_error_fingerprint = none;
  poison_count = 0;
  policy_version = none;
  lease_owner = none;
  lease_expires_at = none;
  payload = payload;
  result = none;
  error = none;
  created_at = current_timestamp now;
  updated_at = current_timestamp now;
  parent_task_id = none;
  agent_id = agent_id;
  prompt_tokens = 0;
  completion_tokens = 0;
  total_tokens = 0;
}

abbrev pub coalesce : Option String → String
coalesce none = ""
coalesce (some v) = v

-- INSERT INTO tasks …: the id is a primary key, and the session has to exist
insert_task : Task → Tx Unit
insert_task t s =
    if any (has_id t.id) s.tasks || not (any (str_eq t.session_id) s.sessions)
    then err constraint
    else ok (tt, record s { tasks = s.tasks ++ t ∷ [] })

abbrev pub or_default : String → String
or_default agent_id = if str_eq agent_id "" then "default" else agent_id

abbrev pub create_payload : EventPayload
create_payload = literal "{\"reason\":\"create_task\"}"

-- `task_id` is the new uuid
unfoldable pub create_task : Ctx → String → String → String → String → Store → Result String × Store
unfolding insert_task append_task_event_tx
create_task ctx task_id agent_id session_id payload = with_tx do
  insert_task (new_task ctx.now task_id session_id "chat" (or_default agent_id) queued payload)
  λ s. ok (
    task_id,
    append_task_event_tx ctx task_id session_id none queued "task.enqueued" create_payload s,
  )

-- A subtask is inserted without an event; the other columns have their defaults.
unfoldable pub create_subtask :
    Ctx → String → String → String → String → ℕ → Store → Result String × Store
unfolding insert_task
create_subtask ctx task_id parent_task_id session_id payload priority = with_tx do
  insert_task (record (new_task ctx.now task_id session_id "subtask" "default" queued payload) {
    priority = priority;
    parent_task_id = some parent_task_id;
  })
  λ s. ok (task_id, s)

-- A tool call is inserted as a finished task, without an event. `call_err` is the error of the call,
-- and the two texts are what encoding/json writes.
unfoldable pub record_tool_task :
    Ctx → String → String → String → String → Option String → Store → Result String × Store
unfolding insert_task
record_tool_task ctx task_id session_id payload result call_err = with_tx do
  insert_task
      (record (new_task ctx.now task_id session_id "tool" "default"
        (elim call_err [ none ↦ succeeded | some e ↦ failed ]) payload) {
          result = some result;
          error = some (coalesce call_err);
        })
  λ s. ok (task_id, s)

-- The WHERE of the two queries of `claimNextPendingTask`.
abbrev pub is_claimable : ℕ → String → Task → Bool
is_claimable now agent_id t =
    status_eq t.status queued
    && (str_eq agent_id "" || str_eq t.agent_id agent_id)
    && leb t.available_at (current_timestamp now)

abbrev str_leb : String → String → Bool
str_leb a b = elim (compare a b) [ Ordering.gt ↦ false | _ ↦ true ]

-- ORDER BY priority DESC, created_at ASC, id ASC
abbrev pub comes_first : Task → Task → Bool
comes_first a b =
    ltb b.priority a.priority
    || (a.priority == b.priority
        && (ltb a.created_at b.created_at || (a.created_at == b.created_at && str_leb a.id b.id)))

-- … LIMIT 1
unfoldable pub first_row : List Task → Option Task
first_row [] = none
first_row (t ∷ ts) = elim (first_row ts) [
  | none ↦ some t
  | some u ↦ if comes_first t u then some t else some u
]

abbrev pub set_lease : String → ℕ → ℕ → Task → Task
set_lease owner expires now t = record t {
  lease_owner = some owner;
  lease_expires_at = some expires;
  updated_at = current_timestamp now;
}

claim_row : Ctx → String → Option Task → Tx (Option Task)
claim_row ctx lease_owner none = pure none
claim_row ctx lease_owner (some row) = do
  claimed_now ←
      transition_task_tx ctx row.id (queued ∷ []) claimed "task.claimed"
        (literal "{\"reason\":\"claim_next_pending\"}") none none
  if not claimed_now then pure none else do
    let expires = ctx.now + default_lease_duration
    exec_update (with_status row.id claimed) (set_lease lease_owner expires ctx.now)
    pure (
        some (record row {
          status = claimed;
          lease_owner = some lease_owner;
          lease_expires_at = some expires;
        }))

-- `lease_owner` is the new uuid; an empty `agent_id` stands for any agent
unfoldable pub claim_next_pending_task :
    Ctx → String → String → Store → Result (Option Task) × Store
unfolding claim_row
claim_next_pending_task ctx lease_owner agent_id s =
    with_tx (claim_row ctx lease_owner (first_row (filter (is_claimable ctx.now agent_id) s.tasks)))
      s

abbrev pub start_row : ℕ → String → Task → Task
start_row now policy_version t = record t {
  lease_expires_at = some (now + default_lease_duration);
  policy_version = some policy_version;
  updated_at = current_timestamp now;
}

abbrev pub owned_by : String → Task → Bool
owned_by owner t = elim t.lease_owner [ none ↦ false | some o ↦ str_eq o owner ]

abbrev pub cannot_start : Task → String → Bool
cannot_start row lease_owner =
    not (status_eq row.status claimed)
    || str_eq (coalesce row.lease_owner) ""
    || not (str_eq (coalesce row.lease_owner) lease_owner)

start_owned : Ctx → String → String → String → Option Task → Tx Unit
start_owned ctx task_id lease_owner policy_version none = raise no_rows
start_owned ctx task_id lease_owner policy_version (some row) =
    if cannot_start row lease_owner then raise no_rows else do
      started ←
          transition_task_tx ctx task_id (claimed ∷ []) running "task.running"
            (literal "{\"reason\":\"worker_start\"}") none none
      if not started
          then raise no_rows
          else exec_update (λ t. with_status task_id running t && owned_by lease_owner t)
              (start_row ctx.now policy_version)

unfoldable pub start_task_run : Ctx → String → String → String → Store → Result Unit × Store
unfolding start_owned
start_task_run ctx task_id lease_owner policy_version s =
    with_tx (start_owned ctx task_id lease_owner policy_version (select_task task_id s.tasks)) s

abbrev pub heartbeat_test : String → String → Task → Bool
heartbeat_test task_id lease_owner t =
    has_id task_id t
    && owned_by lease_owner t
    && (status_eq t.status claimed || status_eq t.status running)

abbrev pub heartbeat_row : ℕ → Task → Task
heartbeat_row now t = record t {
  lease_expires_at = some (now + default_lease_duration);
  updated_at = current_timestamp now;
}

unfoldable pub heartbeat_lease : Ctx → String → String → Store → Bool × Store
heartbeat_lease ctx task_id lease_owner s = if str_eq lease_owner "" then (false, s) else (
  rows_affected (heartbeat_test task_id lease_owner) s.tasks == 1,
  record s {
    tasks = update_tasks (heartbeat_test task_id lease_owner) (heartbeat_row ctx.now) s.tasks;
  },
)
