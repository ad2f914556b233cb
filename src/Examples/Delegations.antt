-- ===== src/Examples/Delegations.antt =====
-- The theorems about delegations at small databases.
use go_claw.Common.{◌≡◌, refl, true, false, some, [], ◌∷◌}
use go_claw.Tasks.Model.{select_task}
use go_claw.Tasks.Lifecycle.{create_task}
use go_claw.Tasks.Finish.{is_cancel_requested}
use go_claw.Tasks.Sessions.{ensure_session}
use go_claw.Tasks.Transition.{append_task_event_tx}
use go_claw.Tasks.Unique.{IsUnique}
use go_claw.Delegations.Model.{Delegation}
use go_claw.Delegations.Injection.{
  inject_pending_delegations, inject_pending_delegations-once, Injects,
}
use go_claw.Delegations.Requests.{delegated, DelegateCall, Desk, refusal, delegate_task_async}
use go_claw.Delegations.Model.{create_delegation}
use go_claw.Delegations.Delivered.{tells}
use go_claw.Workers.Delegated.{delegation_comes_back}
use go_claw.Common.{String, Bool, any}
use go_claw.Workers.Model.{World, others}
use go_claw.Workers.Handling.{handle_task, register, cancel_seen}
use go_claw.Examples.Setup.{at, engine, texts, started, store_of, delegation, world_of, course}

abbrev finished : Delegation
finished = record delegation { status = "completed"; result = some "done"; completed_at = some 9 }

-- A later one that stands in front.
abbrev later : Delegation
later = record finished { id = "e"; created_at = 5 }

inject_pending_delegations-once_example :
    Injects "boss"
      (later ∷ finished ∷ [])
      (inject_pending_delegations "boss" (later ∷ finished ∷ []))
    × ((inject_pending_delegations "boss"
          (inject_pending_delegations "boss" (later ∷ finished ∷ [])).1).0
        ≡ [])
inject_pending_delegations-once_example =
    inject_pending_delegations-once "boss" (later ∷ finished ∷ []) refl

-- The agent "boss" hands the task "a" to the agent "default".
abbrev call : DelegateCall
call = record {
  is_allowed = true;
  max_hops = 3;
  caller_agent = "boss";
  caller_session = "s";
  hop = 0;
  target_agent = "default";
  prompt = "p";
  session_id = "";
  payload = "{}";
  new_session = "s2";
  new_task = "a";
  new_delegation = "d";
}

abbrev desk : Desk
desk = record { store = store_of []; agents = "default" ∷ []; delegations = [] }

abbrev uuids : String → Bool
uuids id = true

was_delegated : (delegate_task_async uuids (at 1) call desk).0 ≡ delegated "d"
unfolding delegate_task_async refusal ensure_session create_task append_task_event_tx
    create_delegation
was_delegated = refl

-- The row that the call leaves, when a worker has started the task.
abbrev handed : World
handed = record (world_of (started ∷ [])) {
  delegations = (delegate_task_async uuids (at 1) call desk).1.delegations;
}

kept :
    (others course.meanwhile (register started handed)).delegations
    ≡ (delegate_task_async uuids (at 1) call desk).1.delegations
unfolding others
kept = refl

handed-IsUnique : IsUnique (others course.meanwhile (register started handed)).store.tasks
unfolding others
handed-IsUnique = (refl, tt)

handed-select :
    select_task "a" (others course.meanwhile (register started handed)).store.tasks ≡ some started
unfolding others
handed-select = refl

not_cancelled : cancel_seen started handed ≡ false
unfolding is_cancel_requested
not_cancelled = refl

delegation_comes_back_example :
    any
      (tells "default" "done")
      (inject_pending_delegations "boss"
        (handle_task engine texts started course handed).delegations).0
    ≡ true
delegation_comes_back_example =
    delegation_comes_back uuids (at 1) call desk "d" engine texts started course handed started
      "done" was_delegated refl refl refl kept refl not_cancelled handed-IsUnique handed-select refl
      refl refl
