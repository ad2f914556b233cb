-- ===== src/Workers/Valid.antt =====
-- What the calls of a worker's pass, and others between them, keep of the task store.
use go_claw.Common.{
  String, Bool, ◌≡◌, refl, Bool-cases, inl, inr, List, [], ◌∷◌, ◌*◌, str_eq, any, not, ◌||◌, arith,
}
use go_claw.Tasks.Model.{Ctx, Store, second}
use go_claw.Tasks.Lifecycle.{claim_next_pending_task, start_task_run}
use go_claw.Tasks.Sessions.{ensure_session, add_history, is_role}
use go_claw.Tasks.Runs.{
  Op, step, claim, start, requeue_expired, age as age_op, IsSound, step-IsSound,
}
use go_claw.Tasks.Unique.{IsUnique, step-IsUnique}
use go_claw.Workers.Model.{World, Other, other, others, task_op, session_op, history_op}
use go_claw.Workers.Passes.{Pass, requeue, age}

-- A sound store in which the ids of the tasks are distinct.
pub record IsValid (s : Store) : Type 0 where
  pub sound : IsSound s
  pub unique : IsUnique s.tasks

step-IsValid : (ctx : Ctx) (op : Op) (s : Store) → IsValid s → IsValid (step ctx op s)
step-IsValid ctx op s v = record {
  sound = step-IsSound ctx op s v.sound;
  unique = step-IsUnique ctx op s v.sound v.unique;
}

-- What leaves the rows and the log alone.
pub same-IsValid :
    (s s' : Store) → s'.tasks ≡ s.tasks → s'.task_events ≡ s.task_events → IsValid s → IsValid s'
same-IsValid s s' p q v = record {
  sound = record { settled = rw p v.sound.settled; legal = rw q v.sound.legal };
  unique = rw p v.unique;
}

pub ensure_session_rows :
    (is_uuid : Bool) (id : String) (s : Store)
    → ((ensure_session is_uuid id s).1.tasks ≡ s.tasks)
      × ((ensure_session is_uuid id s).1.task_events ≡ s.task_events)
unfolding ensure_session
ensure_session_rows is_uuid id s = ground arith

pub add_history_rows :
    (ctx : Ctx) (id agent role text : String) (s : Store)
    → ((add_history ctx id agent role text s).1.tasks ≡ s.tasks)
      × ((add_history ctx id agent role text s).1.task_events ≡ s.task_events)
unfolding add_history
add_history_rows ctx id agent role text s =
    elim (Bool-cases (not (is_role role) || not (any (λ r. str_eq id r) s.sessions))) [
      | inl e ↦ (rw e refl, rw e refl)
      | inr e ↦ (rw e refl, rw e refl)
    ]

ensure_session-IsValid :
    (is_uuid : Bool) (id : String) (s : Store) → IsValid s → IsValid (ensure_session is_uuid id s).1
ensure_session-IsValid is_uuid id s v =
    let (p, q) = ensure_session_rows is_uuid id s in same-IsValid s _ p q v

add_history-IsValid :
    (ctx : Ctx) (id agent role text : String) (s : Store)
    → IsValid s
    → IsValid (add_history ctx id agent role text s).1
add_history-IsValid ctx id agent role text s v =
    let (p, q) = add_history_rows ctx id agent role text s in same-IsValid s _ p q v

other-IsValid : (o : Other) (w : World) → IsValid w.store → IsValid (other o w).store
unfolding other
other-IsValid (task_op ctx op) w v = step-IsValid ctx op w.store v
other-IsValid (session_op is_uuid id) w v = ensure_session-IsValid is_uuid id w.store v
other-IsValid (history_op ctx id agent role text) w v =
    add_history-IsValid ctx id agent role text w.store v
other-IsValid _ w v = v

pub others-IsValid : (os : List Other) (w : World) → IsValid w.store → IsValid (others os w).store
unfolding others
others-IsValid [] w v = v
others-IsValid (o ∷ os) w v = others-IsValid os (other o w) (other-IsValid o w v)

-- What a claim finds: leases are requeued, and priorities aged.
abbrev pub ready_for : Pass → World → World
ready_for p w =
    others p.before_claim (age p.age_at (others p.before_aging (requeue p.requeue_at w)))

pub ready_for-IsValid : (p : Pass) (w : World) → IsValid w.store → IsValid (ready_for p w).store
unfolding requeue age step
ready_for-IsValid p w v =
    let first = requeue p.requeue_at w in
    let v1 : IsValid first.store = step-IsValid p.requeue_at requeue_expired w.store v in
    let second_ = others p.before_aging first in
    let v2 = others-IsValid p.before_aging first v1 in
    let third = age p.age_at second_ in
    let v3 : IsValid third.store =
      step-IsValid p.age_at (age_op (30 * second) 10) second_.store v2 in
    others-IsValid p.before_claim third v3

pub claim-IsValid :
    (ctx : Ctx) (owner agent_id : String) (s : Store)
    → IsValid s
    → IsValid (claim_next_pending_task ctx owner agent_id s).1
unfolding step
claim-IsValid ctx owner agent_id s v = step-IsValid ctx (claim owner agent_id) s v

pub start-IsValid :
    (ctx : Ctx) (id owner version : String) (s : Store)
    → IsValid s
    → IsValid (start_task_run ctx id owner version s).1
unfolding step
start-IsValid ctx id owner version s v = step-IsValid ctx (start id owner version) s v
