-- ===== src/Tasks/Model.antt =====
-- The rows, statuses and constants of internal/persistence/store.go, and the statements that the
-- operations send to the database. Times are in nanoseconds.
use go_claw.Common.{
  ℕ, ◌*◌, ◌/◌, String, Bool, true, false, Option, List, [], ◌∷◌, map, str_eq, count_if, find?,
  if◌then◌else◌,
}

pub data TaskStatus : Type 0 where
  queued claimed running retry_wait succeeded failed canceled dead_letter : TaskStatus

-- Go's `==` on the status strings.
abbrev pub status_eq : TaskStatus → TaskStatus → Bool
status_eq queued queued = true
status_eq claimed claimed = true
status_eq running running = true
status_eq retry_wait retry_wait = true
status_eq succeeded succeeded = true
status_eq failed failed = true
status_eq canceled canceled = true
status_eq dead_letter dead_letter = true
status_eq _ _ = false

-- `allowedTransitions`, as the list of next states of each state.
unfoldable pub allowed_transitions : TaskStatus → List TaskStatus
allowed_transitions queued = claimed ∷ canceled ∷ []
allowed_transitions claimed = running ∷ canceled ∷ queued ∷ []
allowed_transitions running = succeeded ∷ failed ∷ retry_wait ∷ canceled ∷ queued ∷ []
allowed_transitions retry_wait = queued ∷ failed ∷ canceled ∷ []
allowed_transitions failed = dead_letter ∷ retry_wait ∷ []
allowed_transitions _ = []

abbrev pub second : ℕ
second = 1_000_000_000

abbrev pub default_lease_duration : ℕ
default_lease_duration = 30 * second

abbrev pub default_max_attempts : ℕ
default_max_attempts = 3

abbrev pub retry_base_delay : ℕ
retry_base_delay = 1 * second

abbrev pub retry_max_delay : ℕ
retry_max_delay = 30 * second

abbrev pub poison_threshold : ℕ
poison_threshold = 3

abbrev pub reason_retry_processor_error : String
reason_retry_processor_error = "RETRY_PROCESSOR_ERROR"

abbrev pub reason_dead_letter_poison_pill : String
reason_dead_letter_poison_pill = "DEAD_LETTER_POISON_PILL"

abbrev pub reason_dead_letter_max_attempts : String
reason_dead_letter_max_attempts = "DEAD_LETTER_MAX_ATTEMPTS"

abbrev pub reason_aborted : String
reason_aborted = "ABORTED"

-- SQL's CURRENT_TIMESTAMP, which has whole seconds, at the time `now`.
abbrev pub current_timestamp : ℕ → ℕ
current_timestamp now = now / second * second

-- A row of the table `tasks`. A column that can be NULL is an `Option`.
pub record Task : Type 0 where
  pub id : String
  pub session_id : String
  pub kind : String  -- the column `type`
  pub status : TaskStatus
  pub priority : ℕ
  pub attempt : ℕ
  pub max_attempts : ℕ
  pub available_at : ℕ
  pub cancel_requested : Bool
  pub last_error_code : Option String
  pub last_error_fingerprint : Option ℕ  -- the number that the hexadecimal text writes
  pub poison_count : ℕ
  pub policy_version : Option String
  pub lease_owner : Option String
  pub lease_expires_at : Option ℕ
  pub payload : String
  pub result : Option String
  pub error : Option String
  pub created_at : ℕ
  pub updated_at : ℕ
  pub parent_task_id : Option String
  pub agent_id : String
  pub prompt_tokens : ℕ
  pub completion_tokens : ℕ
  pub total_tokens : ℕ

-- The content of `payload_json`: a literal of the source, or what a format string puts in.
pub data EventPayload : Type 0 where
  literal : String → EventPayload
  with_error : String → String → EventPayload  -- reason, error
  exhausted : String → ℕ → ℕ → EventPayload  -- reason_code, attempt, max_attempts
  with_code : String → String → EventPayload  -- reason, reason_code
  backoff : String → ℕ → ℕ → ℕ → EventPayload  -- reason_code, attempt, max_attempts, delay_ms

-- A row of `task_events`. `state_from` is NULL for the creation of a task.
pub record TaskEvent : Type 0 where
  pub run_id : Option String
  pub trace_id : String
  pub task_id : String
  pub session_id : String
  pub event_type : String
  pub state_from : Option TaskStatus
  pub state_to : TaskStatus
  pub payload : EventPayload
  pub created_at : ℕ

-- A row of `messages`, as far as the task operations read it.
pub record Message : Type 0 where
  pub session_id : String
  pub agent_id : String
  pub role : String
  pub content : String
  pub created_at : ℕ

-- A row of `task_metrics`.
pub record TaskMetrics : Type 0 where
  pub task_id : String
  pub agent_id : String
  pub session_id : String
  pub parent_task_id : Option String
  pub created_at : ℕ
  pub completed_at : ℕ
  pub status : TaskStatus
  pub prompt_tokens : ℕ
  pub completion_tokens : ℕ
  pub total_tokens : ℕ

-- What the store hands to the bus: the topic and the task.
pub record Published : Type 0 where
  pub topic : String
  pub task_id : String

-- What the operations take from their context: the time, and the ids of internal/shared/trace.go
-- (the trace id is "-" where none is set).
pub record Ctx : Type 0 where
  pub now : ℕ
  pub trace_id : String
  pub run_id : String

-- The database, whether the store has a bus, and what was published on it, oldest first.
pub record Store : Type 0 where
  pub sessions : List String
  pub tasks : List Task
  pub task_events : List TaskEvent
  pub messages : List Message
  pub task_metrics : List TaskMetrics
  pub has_bus : Bool
  pub published : List Published

pub data Error : Type 0 where
  no_rows : Error  -- sql.ErrNoRows
  illegal_transition : TaskStatus → TaskStatus → Error
  constraint : Error  -- a PRIMARY KEY or FOREIGN KEY that the database refuses

pub data Result (A : Type 0) : Type 0 where
  ok : A → Result A
  err : Error → Result A

abbrev pub has_id : String → Task → Bool
has_id id t = str_eq t.id id

-- SELECT … FROM tasks WHERE id = ?
abbrev pub select_task : String → List Task → Option Task
select_task id = find? (has_id id)

abbrev pub if_row : (Task → Bool) → (Task → Task) → Task → Task
if_row test change t = if test t then change t else t

-- UPDATE tasks SET … WHERE …, and RowsAffected
abbrev pub update_tasks : (Task → Bool) → (Task → Task) → List Task → List Task
update_tasks test change = map (if_row test change)

abbrev pub rows_affected : (Task → Bool) → List Task → ℕ
rows_affected = count_if
