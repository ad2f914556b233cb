-- ===== src/Cron/Model.antt =====
-- The table `schedules` of internal/persistence/store.go, and `tick` and `fire` of
-- internal/cron/scheduler.go.
use go_claw.Common.{
  sort_by, suc, ℕ, String, Bool, true, false, ◌&&◌, Option, none, some, List, [], ◌∷◌, ◌++◌, map,
  any, filter, leb, str_eq, if◌then◌else◌,
}
use go_claw.Tasks.Model.{Ctx, Store, Error, Result, ok, err, current_timestamp}
use go_claw.Tasks.Lifecycle.{create_task}

pub record Schedule : Type 0 where
  pub id : String
  pub name : String
  pub cron_expr : String
  pub payload : String
  pub session_id : String
  pub enabled : Bool
  pub next_run_at : Option ℕ
  pub last_run_at : Option ℕ
  pub created_at : ℕ
  pub updated_at : ℕ

-- The tables that the scheduler uses.
pub record Agenda : Type 0 where
  pub store : Store
  pub schedules : List Schedule

abbrev pub same_id : String → Schedule → Bool
same_id id r = str_eq r.id id

-- `uuid` is the new uuid for a row without an id. The INSERT has no column last_run_at.
unfoldable pub insert_schedule : ℕ → String → Schedule → List Schedule → Bool × List Schedule
insert_schedule now uuid r rs =
    let id = (if str_eq r.id "" then uuid else r.id) in
    if any (same_id id) rs then (false, rs) else (
      true,
      rs
          ++ record r {
            id = id;
            last_run_at = none;
            created_at = current_timestamp now;
            updated_at = current_timestamp now;
          }
            ∷ [],
    )

-- Whether there was such a row, and the rows left.
unfoldable pub delete_schedule : String → List Schedule → Bool × List Schedule
delete_schedule id rs = (any (same_id id) rs, filter (λ r. if same_id id r then false else true) rs)

-- UPDATE schedules SET … WHERE id = ?
abbrev pub update : String → (Schedule → Schedule) → List Schedule → List Schedule
update id change = map (λ r. if same_id id r then change r else r)

unfoldable pub update_schedule_run : ℕ → String → ℕ → ℕ → List Schedule → List Schedule
update_schedule_run now id last_run next_run = update id (λ r. record r {
  last_run_at = some last_run;
  next_run_at = some next_run;
  updated_at = current_timestamp now;
})

unfoldable pub enable_schedule : ℕ → String → Bool → List Schedule → List Schedule
enable_schedule now id enabled =
    update id (λ r. record r { enabled = enabled; updated_at = current_timestamp now })

-- NULL is not before any time.
abbrev pub is_reached : ℕ → Option ℕ → Bool
is_reached now none = false
is_reached now (some t) = leb t now

abbrev pub is_due : ℕ → Schedule → Bool
is_due now r = r.enabled && is_reached now r.next_run_at

-- NULL sorts before every time.
abbrev pub run_key : Option ℕ → ℕ
run_key none = 0
run_key (some t) = suc t

-- ORDER BY next_run_at ASC
abbrev pub by_run : List Schedule → List Schedule
by_run = sort_by (λ r. run_key r.next_run_at)

unfoldable pub due_schedules : ℕ → List Schedule → List Schedule
due_schedules now rs = by_run (filter (is_due now) rs)

-- What `fire` logs at its end.
pub data Fired : Type 0 where
  task_refused : Error → Fired
  no_next_run : String → Fired
  fired : String → ℕ → Fired

-- The new uuid of the task, and the time at which its row is written.
pub record Firing : Type 0 where
  pub task_id : String
  pub ctx : Ctx

abbrev pub with_next : ℕ → Firing → Schedule → Option ℕ → String → Agenda → Fired × Agenda
with_next now f r none task_id a = (no_next_run task_id, a)
with_next now f r (some next) task_id a = (
  fired task_id next,
  record a { schedules = update_schedule_run f.ctx.now r.id now next a.schedules },
)

abbrev pub with_task :
    ℕ → Firing → Schedule → Option ℕ → Agenda → Result String × Store → Fired × Agenda
with_task now f r next a (err e, s) = (task_refused e, record a { store = s })
with_task now f r next a (ok task_id, s) = with_next now f r next task_id (record a { store = s })

-- `next_run_time` parses a cron expression and gives the run after a time (the cron package), or none
-- where the expression does not parse. For an expression that is never met it gives the zero time, 0.
unfoldable pub fire : (String → ℕ → Option ℕ) → ℕ → Firing → Schedule → Agenda → Fired × Agenda
fire next_run_time now f r a =
    with_task now f r (next_run_time r.cron_expr now) a
      (create_task f.ctx f.task_id "" r.session_id r.payload a.store)

abbrev pub fire_all :
    (String → ℕ → Option ℕ) → ℕ → (String → Firing) → List Schedule → Agenda → List Fired × Agenda
fire_all next_run_time now at [] a = ([], a)
fire_all next_run_time now at (r ∷ rs) a =
    let one = fire next_run_time now (at r.id) r a in
    let rest = fire_all next_run_time now at rs one.1 in (one.0 ∷ rest.0, rest.1)

-- One tick at a time; `at` gives the uuid and the time of the task of each schedule that it fires.
unfoldable pub tick : (String → ℕ → Option ℕ) → ℕ → (String → Firing) → Agenda → List Fired × Agenda
unfolding due_schedules
tick next_run_time now at a = fire_all next_run_time now at (due_schedules now a.schedules) a
