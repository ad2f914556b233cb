-- ===== src/Cron/Ticks.antt =====
-- What a tick of the scheduler creates, and which schedules it moves on.
use go_claw.Common.{
  ◌&&◌, leb, IsOrdered, ℕ, String, Bool, true, false, ◌||◌, Option, none, some, List, [], ◌∷◌, ◌++◌,
  map, any, not, str_eq, ◌⊎◌, ◌≡◌, refl, All, Bool-cases, inl, inr,
}
use go_claw.Tasks.Model.{queued, Task, Store, has_id}
use go_claw.Tasks.Lifecycle.{create_task, new_task}
use go_claw.Tasks.Transition.{append_task_event_tx}
use go_claw.Cron.Model.{
  Schedule, Agenda, Fired, task_refused, no_next_run, fired, Firing, same_id, update_schedule_run,
  is_due, run_key, fire, with_next,
}

-- The task of a schedule: queued, of the default agent, in the schedule's session, with its payload.
abbrev pub task_for : (String → Firing) → Schedule → Task
task_for at r =
    new_task (at r.id).ctx.now (at r.id).task_id r.session_id "chat" "default" queued r.payload

-- What the firing of a schedule did, by what it reports: a refused task leaves everything alone; without
-- a next run the task is there and the schedule as before; otherwise the schedule moves on as well.
abbrev pub Fires :
    (String → ℕ → Option ℕ) → ℕ → (String → Firing) → Schedule → Agenda → Fired × Agenda → Type 0
Fires n now at r a (task_refused e, b) =
    (b.store.tasks ≡ a.store.tasks) × (b.schedules ≡ a.schedules)
Fires n now at r a (no_next_run id, b) =
    (n r.cron_expr now ≡ none)
    × (b.store.tasks ≡ a.store.tasks ++ task_for at r ∷ [])
    × (b.schedules ≡ a.schedules)
Fires n now at r a (fired id t, b) =
    (n r.cron_expr now ≡ some t)
    × (b.store.tasks ≡ a.store.tasks ++ task_for at r ∷ [])
    × (b.schedules ≡ update_schedule_run (at r.id).ctx.now r.id now t a.schedules)

created-Fires :
    (n : String → ℕ → Option ℕ) (now : ℕ) (at : String → Firing) (r : Schedule) (a : Agenda)
    (s : Store) (o : Option ℕ)
    → n r.cron_expr now ≡ o
    → s.tasks ≡ a.store.tasks ++ task_for at r ∷ []
    → Fires n now at r a (with_next now (at r.id) r o (at r.id).task_id (record a { store = s }))
created-Fires n now at r a s none e t = (e, t, refl)
created-Fires n now at r a s (some u) e t = (e, t, refl)

pub fire-Fires :
    (n : String → ℕ → Option ℕ) (now : ℕ) (at : String → Firing) (r : Schedule) (a : Agenda)
    → Fires n now at r a (fire n now (at r.id) r a)
unfolding fire create_task append_task_event_tx
fire-Fires n now at r a =
    elim (Bool-cases (
      any (has_id (at r.id).task_id) a.store.tasks
      || not (any (str_eq r.session_id) a.store.sessions))) [
        | inl e ↦ rw e (refl, refl)
        | inr e ↦ rw e (created-Fires n now at r a _ (n r.cron_expr now) refl refl)
      ]

abbrev pub is_fired : Fired → Bool
is_fired (task_refused e) = false
is_fired (no_next_run id) = false
is_fired (fired id t) = true

-- A schedule whose next run is not after the tick, as for an expression that is never met.
abbrev pub stays_due : (String → ℕ → Option ℕ) → ℕ → Schedule → Bool
stays_due n now p = elim (n p.cron_expr now) [ none ↦ false | some t ↦ leb t now ]

-- Of a row's id: it is that of one of these schedules that stay due.
abbrev stuck : (String → ℕ → Option ℕ) → ℕ → List Schedule → String → Bool
stuck n now ps id = any (λ p. str_eq id p.id && stays_due n now p) ps

-- Each row is not due, is one of those still to be fired, or is excused by its id.
abbrev Covered : ℕ → (String → Bool) → List Schedule → List Schedule → Type 0
Covered now e ps =
    All (λ r. (is_due now r ≡ false) ⊎ ((any (λ p. same_id p.id r) ps || e r.id) ≡ true))

-- What firing every one of some schedules comes to, when each fired.
abbrev FiredAll :
    (String → ℕ → Option ℕ)
    → ℕ
    → (String → Firing)
    → (String → Bool)
    → List Schedule
    → Agenda
    → Agenda
    → Type 0
FiredAll n now at e ps a b =
    (b.store.tasks ≡ a.store.tasks ++ map (task_for at) ps)
    × All (λ r. (is_due now r ≡ false) ⊎ ((e r.id || stuck n now ps r.id) ≡ true)) b.schedules

-- The schedules that were due, in the order of their runs; their tasks, behind the others; and the
-- schedules that are due afterwards.
abbrev pub TicksOnce : (String → ℕ → Option ℕ) → ℕ → (String → Firing) → Agenda → Agenda → Type 0
TicksOnce n now at a b =
    (order : List Schedule) × IsOrdered (λ r. run_key r.next_run_at) (is_due now) a.schedules order
    × (b.store.tasks ≡ a.store.tasks ++ map (task_for at) order)
    × All (λ r. (is_due now r ≡ false) ⊎ (stuck n now order r.id ≡ true)) b.schedules
