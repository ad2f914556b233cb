-- ===== src/Cron/Requests.antt =====
-- The methods cron.add, cron.remove, cron.enable and cron.disable of internal/gateway/gateway.go, and
-- what happens to the schedules over time.
use go_claw.Common.{
  ℕ, String, Bool, true, false, ◌||◌, Option, none, some, List, [], ◌∷◌, str_eq, if◌then◌else◌,
}
use go_claw.Tasks.Model.{Store}
use go_claw.Tasks.Sessions.{ensure_session}
use go_claw.Cron.Model.{
  Schedule, Agenda, Firing, insert_schedule, delete_schedule, enable_schedule, tick,
}

-- The parameters of cron.add, and the new uuids of the session and the schedule.
pub record NewSchedule : Type 0 where
  pub name : String
  pub cron_expr : String
  pub payload : String
  pub session_id : String
  pub new_session : String
  pub new_id : String

-- The requests; `none` stands for parameters that do not decode.
pub data Request : Type 0 where
  add : Option NewSchedule → Request
  remove : Option String → Request
  enable : Option String → Request
  disable : Option String → Request

pub data Reply : Type 0 where
  schedule_id : String → Reply
  deleted enabled disabled invalid session_init internal : Reply

abbrev pub session_of : NewSchedule → String
session_of p = if str_eq p.session_id "" then p.new_session else p.session_id

abbrev pub row_of : NewSchedule → Schedule
row_of p = record {
  id = p.new_id;
  name = p.name;
  cron_expr = p.cron_expr;
  payload = p.payload;
  session_id = session_of p;
  enabled = true;
  next_run_at = none;
  last_run_at = none;
  created_at = 0;
  updated_at = 0;
}

abbrev pub after_insert : String → Agenda → Bool × List Schedule → Reply × Agenda
after_insert id a (false, rs) = (internal, record a { schedules = rs })
after_insert id a (true, rs) = (schedule_id id, record a { schedules = rs })

abbrev pub after_session : ℕ → NewSchedule → Agenda → Bool × Store → Reply × Agenda
after_session now p a (false, s) = (session_init, record a { store = s })
after_session now p a (true, s) =
    after_insert p.new_id (record a { store = s })
      (insert_schedule now p.new_id (row_of p) a.schedules)

abbrev pub cron_add : (String → Bool) → ℕ → NewSchedule → Agenda → Reply × Agenda
cron_add is_uuid now p a =
    if str_eq p.name "" || str_eq p.cron_expr ""
    then (invalid, a)
    else after_session now p a (ensure_session (is_uuid (session_of p)) (session_of p) a.store)

abbrev pub after_delete : Agenda → Bool × List Schedule → Reply × Agenda
after_delete a (false, rs) = (internal, record a { schedules = rs })
after_delete a (true, rs) = (deleted, record a { schedules = rs })

-- `is_uuid` says what uuid.Parse accepts.
unfoldable pub handle : (String → Bool) → ℕ → Request → Agenda → Reply × Agenda
handle is_uuid now (add none) a = (invalid, a)
handle is_uuid now (add (some p)) a = cron_add is_uuid now p a
handle is_uuid now (remove none) a = (invalid, a)
handle is_uuid now (remove (some id)) a =
    if str_eq id "" then (invalid, a) else after_delete a (delete_schedule id a.schedules)
handle is_uuid now (enable none) a = (invalid, a)
handle is_uuid now (enable (some id)) a =
    if str_eq id ""
    then (invalid, a)
    else (enabled, record a { schedules = enable_schedule now id true a.schedules })
handle is_uuid now (disable none) a = (invalid, a)
handle is_uuid now (disable (some id)) a =
    if str_eq id ""
    then (invalid, a)
    else (disabled, record a { schedules = enable_schedule now id false a.schedules })

-- What happens to the agenda: a request, a tick of the scheduler, or others at work on the tasks.
pub data Event : Type 0 where
  request : ℕ → Request → Event
  ticked : ℕ → (String → Firing) → Event
  others : (Store → Store) → Event

unfoldable pub run : (String → Bool) → (String → ℕ → Option ℕ) → List Event → Agenda → Agenda
unfolding handle
run is_uuid next_run_time [] a = a
run is_uuid next_run_time (request now r ∷ es) a =
    run is_uuid next_run_time es (handle is_uuid now r a).1
run is_uuid next_run_time (ticked now at ∷ es) a =
    run is_uuid next_run_time es (tick next_run_time now at a).1
run is_uuid next_run_time (others f ∷ es) a =
    run is_uuid next_run_time es (record a { store = f a.store })
