-- ===== src/Workers/Intake.antt =====
-- `createChatTaskWithDepth` of internal/engine/engine.go: backpressure, and what a new task adds.
use go_claw.Common.{
  ℕ, ◌+◌, ◌<◌, ◌≤◌, String, Bool, ◌≡◌, refl, ◌∙◌, ap, true, false, not, ◌&&◌, ◌||◌, List, [], ◌∷◌,
  ◌++◌, any, ltb, leb, count_if, if◌then◌else◌, str_eq, arith, Bool-cases, inl, inr,
}
use go_claw.Tasks.Model.{queued, Task, Ctx, Store, Error, Result, ok, err, has_id}
use go_claw.Tasks.Lifecycle.{create_task, new_task, or_default}
use go_claw.Tasks.Transition.{append_task_event_tx}
use go_claw.Tasks.Sessions.{
  ensure_session, add_history, queue_depth, queue_depth_for_agent, is_queued, is_queued_for,
}
use go_claw.Workers.Model.{Engine}
use go_claw.Workers.Valid.{ensure_session_rows, add_history_rows}

pub data IntakeError : Type 0 where
  queue_saturated : IntakeError  -- ErrQueueSaturated
  invalid_session : IntakeError
  history_refused : IntakeError
  task_refused : Error → IntakeError

pub data Intake : Type 0 where
  accepted : String → Intake
  refused : IntakeError → Intake

abbrev pub depth_for : String → Store → ℕ
depth_for agent_id s =
    if str_eq agent_id "" then queue_depth s else queue_depth_for_agent agent_id s

abbrev pub is_saturated : Engine → String → Store → Bool
is_saturated engine agent_id s =
    ltb 0 engine.max_queue_depth && leb engine.max_queue_depth (depth_for agent_id s)

-- What the caller brings: the new uuid, whether uuid.Parse accepts the session, and the payload that
-- encoding/json writes for the content and the depth.
pub record Request : Type 0 where
  pub task_id : String
  pub agent_id : String
  pub session_id : String
  pub is_uuid : Bool
  pub content : String
  pub payload : String

abbrev pub after_create : Result String × Store → Intake × Store
after_create (ok id, s) = (accepted id, s)
after_create (err e, s) = (refused (task_refused e), s)

abbrev pub after_history : Ctx → Request → Bool × Store → Intake × Store
after_history ctx r (false, s) = (refused history_refused, s)
after_history ctx r (true, s) =
    after_create (create_task ctx r.task_id r.agent_id r.session_id r.payload s)

abbrev pub after_session : Ctx → Request → Bool × Store → Intake × Store
after_session ctx r (false, s) = (refused invalid_session, s)
after_session ctx r (true, s) =
    after_history ctx r (add_history ctx r.session_id r.agent_id "user" r.content s)

unfoldable pub create_chat_task : Engine → Ctx → Request → Store → Intake × Store
create_chat_task engine ctx r s =
    if is_saturated engine r.agent_id s
    then (refused queue_saturated, s)
    else after_session ctx r (ensure_session r.is_uuid r.session_id s)

abbrev pub created : Ctx → Request → Task
created ctx r =
    new_task ctx.now r.task_id r.session_id "chat" (or_default r.agent_id) queued r.payload

-- What an intake did: it refused and left the tasks alone, or the queue was not saturated and the new
-- task stands behind the others, queued, for that session and agent.
abbrev pub Admitted : Engine → Ctx → Request → Store → Intake × Store → Type 0
Admitted engine ctx r s (refused e, s') = s'.tasks ≡ s.tasks
Admitted engine ctx r s (accepted id, s') =
    (is_saturated engine r.agent_id s ≡ false)
    × (id ≡ r.task_id)
    × (any (has_id r.task_id) s.tasks ≡ false)
    × (s'.tasks ≡ s.tasks ++ created ctx r ∷ [])

create_task-Admitted :
    (engine : Engine) (ctx : Ctx) (r : Request) (s s1 : Store)
    → is_saturated engine r.agent_id s ≡ false
    → s1.tasks ≡ s.tasks
    → Admitted engine ctx r s
        (after_create (create_task ctx r.task_id r.agent_id r.session_id r.payload s1))
unfolding create_task append_task_event_tx
create_task-Admitted engine ctx r s s1 f p =
    elim (Bool-cases
      (any (has_id r.task_id) s1.tasks || not (any (str_eq r.session_id) s1.sessions))) [
        | inl e ↦ rw e p
        | inr e ↦
            let fresh : any (has_id r.task_id) s1.tasks ≡ false = ground arith in
            rw e (f, refl, rw p at fresh, rw p refl)
      ]

history-Admitted :
    (engine : Engine) (ctx : Ctx) (r : Request) (s : Store) (h : Bool × Store)
    → is_saturated engine r.agent_id s ≡ false
    → h.1.tasks ≡ s.tasks
    → Admitted engine ctx r s (after_history ctx r h)
history-Admitted engine ctx r s (false, s1) f p = p
history-Admitted engine ctx r s (true, s1) f p = create_task-Admitted engine ctx r s s1 f p

session-Admitted :
    (engine : Engine) (ctx : Ctx) (r : Request) (s : Store) (h : Bool × Store)
    → is_saturated engine r.agent_id s ≡ false
    → h.1.tasks ≡ s.tasks
    → Admitted engine ctx r s (after_session ctx r h)
session-Admitted engine ctx r s (false, s1) f p = p
session-Admitted engine ctx r s (true, s1) f p =
    history-Admitted engine ctx r s (add_history ctx r.session_id r.agent_id "user" r.content s1) f
      ((add_history_rows ctx r.session_id r.agent_id "user" r.content s1).0 ∙ p)

-- `createChatTaskWithDepth` either refuses, whatever the reason, and leaves the tasks as they were,
-- or the queue of the agent was not saturated and the id was new, and it adds exactly one task: queued,
-- behind the others, with the session, the agent ("default" for an empty one) and the payload.
pub create_chat_task-Admitted :
    (engine : Engine) (ctx : Ctx) (r : Request) (s : Store)
    → Admitted engine ctx r s (create_chat_task engine ctx r s)
unfolding create_chat_task
create_chat_task-Admitted engine ctx r s = elim (Bool-cases (is_saturated engine r.agent_id s)) [
  | inl e ↦ rw e refl
  | inr e ↦ rw e (
      session-Admitted engine ctx r s (ensure_session r.is_uuid r.session_id s) e
        (ensure_session_rows r.is_uuid r.session_id s).0)
]

abbrev counted : String → Task → Bool
counted agent_id = if str_eq agent_id "" then is_queued else is_queued_for agent_id

count_if-snoc :
    (p : Task → Bool) (ts : List Task) (t : Task) → count_if p (ts ++ t ∷ []) ≤ count_if p ts + 1
count_if-snoc p [] t = ground arith
count_if-snoc p (u ∷ ts) t = ground (arith, count_if-snoc p ts t)

depth_for_counted :
    (agent_id : String) (s : Store) → depth_for agent_id s ≡ count_if (counted agent_id) s.tasks
unfolding queue_depth queue_depth_for_agent
depth_for_counted agent_id s = elim (Bool-cases (str_eq agent_id "")) [
  | inl e ↦ rw e refl
  | inr e ↦ rw e refl
]

Admitted-depth :
    (engine : Engine) (ctx : Ctx) (r : Request) (s : Store) (i : Intake × Store)
    → 0 < engine.max_queue_depth
    → depth_for r.agent_id s ≤ engine.max_queue_depth
    → Admitted engine ctx r s i
    → depth_for r.agent_id i.1 ≤ engine.max_queue_depth
Admitted-depth engine ctx r s (refused e, s') pos below p =
    let a = depth_for_counted r.agent_id s in
    let b = depth_for_counted r.agent_id s' ∙ ap (count_if (counted r.agent_id)) p in
    omega (arith, a, b)
Admitted-depth engine ctx r s (accepted id, s') pos below (f, same, fresh, p) =
    let a = depth_for_counted r.agent_id s in
    let b = depth_for_counted r.agent_id s' ∙ ap (count_if (counted r.agent_id)) p in
    let c = count_if-snoc (counted r.agent_id) s.tasks (created ctx r) in
    let strict : depth_for r.agent_id s < engine.max_queue_depth = ground arith in
    omega (arith, a, b, c, strict)

-- Backpressure: with a limit set, a call by itself never takes the number of queued tasks (of the
-- agent, or of all where none is named) above the limit, if it was not above it before.
pub create_chat_task-depth :
    (engine : Engine) (ctx : Ctx) (r : Request) (s : Store)
    → 0 < engine.max_queue_depth
    → depth_for r.agent_id s ≤ engine.max_queue_depth
    → depth_for r.agent_id (create_chat_task engine ctx r s).1 ≤ engine.max_queue_depth
create_chat_task-depth engine ctx r s pos below =
    Admitted-depth engine ctx r s (create_chat_task engine ctx r s) pos below
      (create_chat_task-Admitted engine ctx r s)
