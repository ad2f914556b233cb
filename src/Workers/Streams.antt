-- ===== src/Workers/Streams.antt =====
-- `streamChatTask` of internal/engine/engine.go.
use go_claw.Common.{
  Bool-cases, inl, inr, false, ◌∙◌, arith, ℕ, zero, suc, String, ◌≡◌, ap, some, List, [], ◌∷◌, ◌++◌,
  ◌≢◌, if◌then◌else◌,
}
use go_claw.Tasks.Model.{status_eq, running, Task, Published, Ctx, Store, select_task}
use go_claw.Tasks.Finish.{complete_task}
use go_claw.Tasks.Failure.{handle_task_failure, error_fingerprint}
use go_claw.Tasks.Outcomes.{not_running_refused, complete_task-running, completed}
use go_claw.Tasks.Unique.{IsUnique}
use go_claw.Workers.Handled.{failed_row, failure_leaves}
use go_claw.Workers.Model.{Engine, World, Other, others}
use go_claw.Workers.Handling.{Texts}
use go_claw.Workers.Intake.{
  Request, Intake, accepted, refused, create_chat_task, created, Admitted,
  create_chat_task-Admitted,
}

-- What the brain does with the stream: there is none, it fails, or it ends. Each token was published.
pub data Streamed : Type 0 where
  no_brain : Streamed
  stream_failed : ℕ → String → Streamed
  stream_ended : ℕ → Streamed

abbrev token_events : ℕ → String → List Published
token_events zero id = []
token_events (suc n) id = record { topic = "stream.token"; task_id = id } ∷ token_events n id

abbrev publish_all : Engine → List Published → World → World
publish_all engine es w = record w { events = if engine.has_bus then w.events ++ es else w.events }

abbrev fail_stream : Texts → Ctx → String → String → World → World
fail_stream texts ctx id msg w = record w {
  store = (handle_task_failure ctx id msg (error_fingerprint (texts.normalize msg)) w.store).1;
}

-- The part behind the creation of the task, once the brain has returned.
unfoldable pub after_stream : Engine → Texts → Ctx → String → Streamed → World → World
after_stream engine texts ctx id no_brain w =
    fail_stream texts ctx id "brain not available for streaming" w
after_stream engine texts ctx id (stream_failed tokens msg) w =
    fail_stream texts ctx id msg (publish_all engine (token_events tokens id) w)
after_stream engine texts ctx id (stream_ended tokens) w =
    let w' =
      publish_all engine
        (token_events tokens id ++ record { topic = "stream.done"; task_id = id } ∷ []) w in
    record w' { store = (complete_task ctx id "{\"reply\": \"streamed\"}" w'.store).1 }

abbrev after_intake :
    Engine → Texts → Ctx → Streamed → List Other → World → Intake × Store → Intake × World
after_intake engine texts ctx outcome meanwhile w (refused e, s) =
    (refused e, record w { store = s })
after_intake engine texts ctx outcome meanwhile w (accepted id, s) = (
  accepted id,
  after_stream engine texts ctx id outcome (others meanwhile (record w { store = s })),
)

-- `created_at` and `ended_at` are the times of the two ends, `meanwhile` what others do between them.
-- The intake is that of `createChatTaskWithDepth`, with the depth 0.
unfoldable pub stream_chat_task :
    Engine → Texts → Ctx → Ctx → Request → Streamed → List Other → World → Intake × World
unfolding after_stream
stream_chat_task engine texts created_at ended_at r outcome meanwhile w =
    after_intake engine texts ended_at outcome meanwhile w
      (create_chat_task engine created_at r w.store)

-- The row that the end of a stream leaves of a RUNNING task.
abbrev pub streamed_row : Texts → Ctx → String → Streamed → Task → Task
streamed_row texts ctx id no_brain row =
    let msg : String = "brain not available for streaming" in
    failed_row ctx id msg (error_fingerprint (texts.normalize msg)) row
streamed_row texts ctx id (stream_failed tokens msg) row =
    failed_row ctx id msg (error_fingerprint (texts.normalize msg)) row
streamed_row texts ctx id (stream_ended tokens) row =
    completed ctx.now "{\"reply\": \"streamed\"}" row

-- What the end of a stream does with the store, by the row that it finds.
abbrev pub Closes : Texts → Ctx → String → Streamed → Task → Store → Store → Type 0
Closes texts ctx id outcome row s s' =
    if status_eq row.status running
    then select_task id s'.tasks ≡ some (streamed_row texts ctx id outcome row)
    else s' ≡ s

after_stream-running :
    (engine : Engine) (texts : Texts) (ctx : Ctx) (id : String) (outcome : Streamed) (w : World)
    (row : Task)
    → IsUnique w.store.tasks
    → select_task id w.store.tasks ≡ some row
    → row.status ≡ running
    → select_task id (after_stream engine texts ctx id outcome w).store.tasks
      ≡ some (streamed_row texts ctx id outcome row)
unfolding after_stream
after_stream-running engine texts ctx id no_brain w row u e r =
    failure_leaves ctx id _ _ w.store row u e r
after_stream-running engine texts ctx id (stream_failed tokens msg) w row u e r =
    failure_leaves ctx id msg _ w.store row u e r
after_stream-running engine texts ctx id (stream_ended tokens) w row u e r =
    (complete_task-running ctx id _ w.store row u e r).1

after_stream-idle :
    (engine : Engine) (texts : Texts) (ctx : Ctx) (id : String) (outcome : Streamed) (w : World)
    → ((row : Task) → select_task id w.store.tasks ≡ some row → row.status ≢ running)
    → (after_stream engine texts ctx id outcome w).store ≡ w.store
unfolding after_stream
after_stream-idle engine texts ctx id no_brain w h =
    ap (λ p. p.1) (not_running_refused ctx id _ _ w.store h).1
after_stream-idle engine texts ctx id (stream_failed tokens msg) w h =
    ap (λ p. p.1) (not_running_refused ctx id msg _ w.store h).1
after_stream-idle engine texts ctx id (stream_ended tokens) w h =
    ap (λ p. p.1) (not_running_refused ctx id "{\"reply\": \"streamed\"}" 0 w.store h).0

after_stream-Closes :
    (engine : Engine) (texts : Texts) (ctx : Ctx) (id : String) (outcome : Streamed) (w : World)
    (row : Task)
    → IsUnique w.store.tasks
    → select_task id w.store.tasks ≡ some row
    → Closes texts ctx id outcome row w.store (after_stream engine texts ctx id outcome w).store
after_stream-Closes engine texts ctx id outcome w row u e =
    elim (Bool-cases (status_eq row.status running)) [
      | inl t ↦ rw t (after_stream-running engine texts ctx id outcome w row u e (ground arith))
      | inr f ↦ rw f (
          after_stream-idle engine texts ctx id outcome w (λ row' e' r'.
            let same : row ≡ row' = cc (e, e') in
            let r : row.status ≡ running = ap (λ t. t.status) same ∙ r' in
            let no : status_eq running running ≡ false = rw r at f in cc no))
    ]

-- The store behind the intake, after what others did before the stream ended.
abbrev pub at_end : Engine → Ctx → Request → List Other → World → World
at_end engine created_at r meanwhile w =
    others meanwhile (record w { store = (create_chat_task engine created_at r w.store).1 })

-- Where a stream's request is accepted, its task is added in the status QUEUED, for its session and
-- agent. Where the ids are distinct when the stream ends, and the task is there, the end is recorded
-- only if the task is RUNNING by then: it is SUCCEEDED if the stream ended, and a handled failure if
-- the stream failed or there is no brain. Otherwise the store stays as others left it.
pub stream_chat_task-Closes :
    (engine : Engine) (texts : Texts) (created_at ended_at : Ctx) (r : Request) (outcome : Streamed)
    (meanwhile : List Other) (w : World) (row : Task)
    → (create_chat_task engine created_at r w.store).0 ≡ accepted r.task_id
    → IsUnique (at_end engine created_at r meanwhile w).store.tasks
    → select_task r.task_id (at_end engine created_at r meanwhile w).store.tasks ≡ some row
    → ((create_chat_task engine created_at r w.store).1.tasks
        ≡ w.store.tasks ++ created created_at r ∷ [])
      × Closes texts ended_at r.task_id outcome row
          (at_end engine created_at r meanwhile w).store
          (stream_chat_task engine texts created_at ended_at r outcome meanwhile w).1.store
unfolding stream_chat_task
stream_chat_task-Closes engine texts created_at ended_at r outcome meanwhile w row a u e =
    by_intake (create_chat_task engine created_at r w.store)
      (create_chat_task-Admitted engine created_at r w.store) a u e
  where
    by_intake :
        (i : Intake × Store)
        → Admitted engine created_at r w.store i
        → i.0 ≡ accepted r.task_id
        → IsUnique (others meanwhile (record w { store = i.1 })).store.tasks
        → select_task r.task_id (others meanwhile (record w { store = i.1 })).store.tasks ≡ some row
        → (i.1.tasks ≡ w.store.tasks ++ created created_at r ∷ [])
          × Closes texts ended_at r.task_id outcome row
              (others meanwhile (record w { store = i.1 })).store
              (after_intake engine texts ended_at outcome meanwhile w i).1.store
    by_intake (refused x, s) h a u e = cc a
    by_intake (accepted id, s) (f, same, fresh, t) a u e = (
      t,
      rw same (
          after_stream-Closes engine texts ended_at r.task_id outcome
            (others meanwhile (record w { store = s })) row u e),
    )
