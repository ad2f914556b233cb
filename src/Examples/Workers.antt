-- ===== src/Examples/Workers.antt =====
-- The theorems about the workers (internal/engine) at small databases.
use go_claw.Common.{◌*◌, ◌≤◌, ◌≡◌, refl, true, some, [], ◌∷◌, arith}
use go_claw.Tasks.Model.{queued, Task, select_task, second}
use go_claw.Tasks.Lifecycle.{new_task, create_task}
use go_claw.Tasks.Finish.{is_cancel_requested}
use go_claw.Tasks.Sessions.{queue_depth, ensure_session, add_history}
use go_claw.Tasks.Transition.{append_task_event_tx}
use go_claw.Tasks.Unique.{IsUnique}
use go_claw.Workers.Model.{others}
use go_claw.Workers.Handling.{alive, processed, handle_task, register}
use go_claw.Workers.Passes.{Pass}
use go_claw.Tasks.Claimed.{leased}
use go_claw.Tasks.Started.{started as started_row}
use go_claw.Tasks.Runs.{step, claim, start}
use go_claw.Tasks.Lifecycle.{claim_next_pending_task, first_row, start_task_run}
use go_claw.Tasks.Transition.{can_transition, transition_task_tx}
use go_claw.Common.{List}
use go_claw.Workers.Model.{Other, other, task_op}
use go_claw.Workers.Handled.{Settles, handle_task-Settles}
use go_claw.Workers.Intake.{
  Request, accepted, create_chat_task, depth_for, create_chat_task-depth, created,
}
use go_claw.Workers.Streams.{
  stream_ended, stream_chat_task, Closes, at_end, stream_chat_task-Closes,
}
use go_claw.Examples.Setup.{at, engine, texts, waiting, started, store_of, world_of, course}

abbrev one_pass : Pass
one_pass = record {
  requeue_at = at 1;
  age_at = at 1;
  claim_at = at 2;
  start_at = at 3;
  lease_token = "w";
  policy_version = "v1";
  before_aging = [];
  before_claim = [];
  before_start = [];
  before_handling = [];
  course = course;
}

-- The task as the worker's claim returns it.
abbrev taken_up : Task
taken_up = leased (2 * second) "w" waiting

meanwhile-IsUnique :
    IsUnique (others course.meanwhile (register started (world_of (started ∷ [])))).store.tasks
unfolding others
meanwhile-IsUnique = (refl, tt)

meanwhile-select :
    select_task "a"
      (others course.meanwhile (register started (world_of (started ∷ [])))).store.tasks
    ≡ some started
unfolding others
meanwhile-select = refl

handle_task-Settles_example :
    Settles engine texts
      (at 5)
      started
      (processed "done")
      alive
      started
      (others course.meanwhile (register started (world_of (started ∷ []))))
      (handle_task engine texts started course (world_of (started ∷ [])))
unfolding is_cancel_requested
handle_task-Settles_example =
    handle_task-Settles engine texts started course (world_of (started ∷ [])) started refl refl
      meanwhile-IsUnique meanwhile-select refl

abbrev request : Request
request = record {
  task_id = "b";
  agent_id = "";
  session_id = "s";
  is_uuid = true;
  content = "hello";
  payload = "{}";
}

below : depth_for "" (store_of (waiting ∷ [])) ≤ 2
unfolding queue_depth
below = omega arith

create_chat_task-depth_example :
    depth_for "" (create_chat_task engine (at 1) request (store_of (waiting ∷ []))).1 ≤ 2
create_chat_task-depth_example =
    create_chat_task-depth engine (at 1) request (store_of (waiting ∷ [])) (omega arith) below

-- The task of a stream, as it is created.
abbrev streaming : Task
streaming = new_task second "b" "s" "chat" "default" queued "{}"

was_accepted : (create_chat_task engine (at 1) request (store_of [])).0 ≡ accepted "b"
unfolding create_chat_task queue_depth ensure_session add_history create_task append_task_event_tx
was_accepted = refl

-- A worker takes the task of the stream before the stream ends.
abbrev taken_by_worker : List Other
taken_by_worker = task_op (at 2) (claim "w" "") ∷ task_op (at 3) (start "b" "w" "v1") ∷ []

abbrev stream_row : Task
stream_row =
    started_row (3 * second) "v1"
      (record (leased (2 * second) "w" streaming) { updated_at = 2 * second })

end-IsUnique : IsUnique (at_end engine (at 1) request taken_by_worker (world_of [])).store.tasks
unfolding others other step create_chat_task queue_depth ensure_session add_history create_task
    append_task_event_tx claim_next_pending_task first_row can_transition transition_task_tx
    start_task_run
end-IsUnique = (refl, tt)

end-select :
    select_task "b" (at_end engine (at 1) request taken_by_worker (world_of [])).store.tasks
    ≡ some stream_row
unfolding others other step create_chat_task queue_depth ensure_session add_history create_task
    append_task_event_tx claim_next_pending_task first_row can_transition transition_task_tx
    start_task_run
end-select = refl

stream_chat_task-Closes_example :
    ((create_chat_task engine (at 1) request (store_of [])).1.tasks ≡ created (at 1) request ∷ [])
    × Closes texts
        (at 9)
        "b"
        (stream_ended 3)
        stream_row
        (at_end engine (at 1) request taken_by_worker (world_of [])).store
        (stream_chat_task engine texts
          (at 1)
          (at 9)
          request
          (stream_ended 3)
          taken_by_worker
          (world_of [])).1.store
stream_chat_task-Closes_example =
    stream_chat_task-Closes engine texts (at 1) (at 9) request (stream_ended 3) taken_by_worker
      (world_of []) stream_row was_accepted end-IsUnique end-select
