-- ===== src/Cron/Silent.antt =====
-- What the scheduler does with the schedules that cron.add makes.
use go_claw.Common.{
  ℕ, String, Bool, true, false, ◌||◌, Option, none, some, List, [], ◌∷◌, any, filter, str_eq,
  if◌then◌else◌, ◌≡◌, refl, ap, All, All-append, Bool-cases, inl, inr, arith,
}
use go_claw.Tasks.Model.{Store}
use go_claw.Tasks.Sessions.{ensure_session}
use go_claw.Cron.Model.{
  Schedule, Agenda, Firing, same_id, insert_schedule, delete_schedule, enable_schedule, is_due,
  by_run, due_schedules, tick,
}
use go_claw.Cron.Requests.{
  NewSchedule, Request, add, remove, enable, disable, session_of, row_of, after_insert,
  after_session, after_delete, handle, Event, request, ticked, others, run,
}

-- No row has a time for its next run.
abbrev pub IsSilent : List Schedule → Type 0
IsSilent = All (λ r. r.next_run_at ≡ none)

due-IsSilent : (now : ℕ) (rs : List Schedule) → IsSilent rs → due_schedules now rs ≡ []
unfolding due_schedules
due-IsSilent now rs h = ap by_run (go rs h)
  where
    go : (rs : List Schedule) → IsSilent rs → filter (is_due now) rs ≡ []
    go [] h = refl
    go (r ∷ rs) (e, h) = let rest = go rs h in ground arith

insert-IsSilent :
    (now : ℕ) (uuid : String) (r : Schedule) (rs : List Schedule)
    → r.next_run_at ≡ none
    → IsSilent rs
    → IsSilent (insert_schedule now uuid r rs).1
unfolding insert_schedule
insert-IsSilent now uuid r rs e h =
    elim (Bool-cases (any (same_id (if str_eq r.id "" then uuid else r.id)) rs)) [
      | inl t ↦ rw t h
      | inr f ↦ rw f (All-append (λ q. q.next_run_at ≡ none) rs _ h (e, tt))
    ]

delete-IsSilent :
    (id : String) (rs : List Schedule) → IsSilent rs → IsSilent (delete_schedule id rs).1
unfolding delete_schedule
delete-IsSilent id [] h = tt
delete-IsSilent id (r ∷ rs) (e, h) =
    let rest = delete-IsSilent id rs h in
    elim (Bool-cases (same_id id r)) [ inl t ↦ rw t rest | inr f ↦ rw f (e, rest) ]

enable-IsSilent :
    (now : ℕ) (id : String) (b : Bool) (rs : List Schedule)
    → IsSilent rs
    → IsSilent (enable_schedule now id b rs)
unfolding enable_schedule
enable-IsSilent now id b [] h = tt
enable-IsSilent now id b (r ∷ rs) (e, h) = (
  elim (Bool-cases (same_id id r)) [ inl t ↦ rw t e | inr f ↦ rw f e ],
  enable-IsSilent now id b rs h,
)

session-IsSilent :
    (now : ℕ) (p : NewSchedule) (a : Agenda) (s : Bool × Store)
    → IsSilent a.schedules
    → IsSilent (after_session now p a s).1.schedules
session-IsSilent now p a (false, s) h = h
session-IsSilent now p a (true, s) h =
    go (insert_schedule now p.new_id (row_of p) a.schedules)
      (insert-IsSilent now p.new_id (row_of p) a.schedules refl h)
  where
    go :
        (out : Bool × List Schedule)
        → IsSilent out.1
        → IsSilent (after_insert p.new_id (record a { store = s }) out).1.schedules
    go (false, rs) h = h
    go (true, rs) h = h

delete_row-IsSilent :
    (a : Agenda) (out : Bool × List Schedule)
    → IsSilent out.1
    → IsSilent (after_delete a out).1.schedules
delete_row-IsSilent a (false, rs) h = h
delete_row-IsSilent a (true, rs) h = h

unless_empty :
    (id : String) {R : Type 0} (x y : R × Agenda)
    → IsSilent x.1.schedules
    → IsSilent y.1.schedules
    → IsSilent (if str_eq id "" then x else y).1.schedules
unless_empty id x y hx hy = elim (Bool-cases (str_eq id "")) [ inl t ↦ rw t hx | inr f ↦ rw f hy ]

handle-IsSilent :
    (is_uuid : String → Bool) (now : ℕ) (r : Request) (a : Agenda)
    → IsSilent a.schedules
    → IsSilent (handle is_uuid now r a).1.schedules
unfolding handle
handle-IsSilent is_uuid now (add none) a h = h
handle-IsSilent is_uuid now (add (some p)) a h =
    let made =
      session-IsSilent now p a (ensure_session (is_uuid (session_of p)) (session_of p) a.store) h in
    elim (Bool-cases (str_eq p.name "" || str_eq p.cron_expr "")) [
      | inl t ↦ rw t h
      | inr f ↦ rw f made
    ]
handle-IsSilent is_uuid now (remove none) a h = h
handle-IsSilent is_uuid now (remove (some id)) a h =
    unless_empty id _ _ h
      (delete_row-IsSilent a (delete_schedule id a.schedules) (delete-IsSilent id a.schedules h))
handle-IsSilent is_uuid now (enable none) a h = h
handle-IsSilent is_uuid now (enable (some id)) a h =
    unless_empty id _ _ h (enable-IsSilent now id true a.schedules h)
handle-IsSilent is_uuid now (disable none) a h = h
handle-IsSilent is_uuid now (disable (some id)) a h =
    unless_empty id _ _ h (enable-IsSilent now id false a.schedules h)

tick-IsSilent :
    (next_run_time : String → ℕ → Option ℕ) (now : ℕ) (at : String → Firing) (a : Agenda)
    → IsSilent a.schedules
    → tick next_run_time now at a ≡ ([], a)
unfolding tick
tick-IsSilent next_run_time now at a h = rw (due-IsSilent now a.schedules h) refl

run-IsSilent :
    (is_uuid : String → Bool) (next_run_time : String → ℕ → Option ℕ) (es : List Event) (a : Agenda)
    → IsSilent a.schedules
    → IsSilent (run is_uuid next_run_time es a).schedules
unfolding run
run-IsSilent is_uuid n [] a h = h
run-IsSilent is_uuid n (request now r ∷ es) a h =
    run-IsSilent is_uuid n es (handle is_uuid now r a).1 (handle-IsSilent is_uuid now r a h)
run-IsSilent is_uuid n (ticked now at ∷ es) a h =
    run-IsSilent is_uuid n es (tick n now at a).1 (rw (tick-IsSilent n now at a h) h)
run-IsSilent is_uuid n (others f ∷ es) a h =
    run-IsSilent is_uuid n es (record a { store = f a.store }) h

-- From an agenda without schedules, whatever requests for schedules, ticks of the scheduler and changes
-- of the tasks follow, a tick at any time fires nothing and changes nothing: cron.add leaves the time of
-- the next run empty, and only a schedule that fired is given one.
pub run_fires_nothing :
    (is_uuid : String → Bool) (next_run_time : String → ℕ → Option ℕ) (es : List Event) (a : Agenda)
    → a.schedules ≡ []
    → (now : ℕ) (at : String → Firing)
    → tick next_run_time now at (run is_uuid next_run_time es a)
      ≡ ([], run is_uuid next_run_time es a)
run_fires_nothing is_uuid n es a e now at =
    tick-IsSilent n now at (run is_uuid n es a) (run-IsSilent is_uuid n es a (rw e tt))
