-- ===== src/Tasks/Inserts.antt =====
-- What the operations that insert a task do: CreateTask, CreateSubtask and RecordToolTask of
-- internal/persistence/tasks.go.
use go_claw.Common.{
  ℕ, String, false, ◌≡◌, refl, sym, Option, none, some, List, [], ◌∷◌, ◌++◌, arith, All, Bool-cases,
  inl, inr, str_eq, any, not, ◌||◌, ◌⊎◌,
}
use mathlib.Core.List.{append-nil}
use go_claw.Tasks.Model.{succeeded, failed, queued, Task, TaskEvent, Ctx, Store, has_id}
use go_claw.Tasks.Transition.{append_task_event_tx, new_event}
use go_claw.Tasks.Lifecycle.{
  coalesce, create_subtask, record_tool_task, create_task, new_task, or_default, create_payload,
}
use go_claw.Tasks.Steps.{IsSettled, IsLegal, Evolves, Evolves-same}

-- A new settled task, with an id that was not in use, and at most legal events.
pub record Inserts (s s' : Store) : Type 0 where
  pub task : Task
  pub is_fresh : any (has_id task.id) s.tasks ≡ false
  pub is_settled : IsSettled task
  pub logged : List TaskEvent
  pub is_legal : All IsLegal logged
  pub rows : s'.tasks ≡ s.tasks ++ task ∷ []
  pub events : s'.task_events ≡ s.task_events ++ logged

pub create_task_cases :
    (ctx : Ctx) (id agent session payload : String) (s : Store)
    → Evolves s (create_task ctx id agent session payload s).1
      ⊎ Inserts s (create_task ctx id agent session payload s).1
unfolding create_task append_task_event_tx
create_task_cases ctx id agent session payload s =
    elim (Bool-cases (any (has_id id) s.tasks || not (any (str_eq session) s.sessions))) [
      | inl e ↦ inl (Evolves-same _ _ (rw e) (rw e))
      | inr e ↦ inr (record {
        task = new_task ctx.now id session "chat" (or_default agent) queued payload;
        is_fresh = ground arith;
        is_settled = ground arith;
        logged = new_event ctx id session none queued "task.enqueued" create_payload ∷ [];
        is_legal = (refl, tt);
        rows = rw e;
        events = rw e;
      })
    ]

pub create_subtask_cases :
    (ctx : Ctx) (id parent session payload : String) (priority : ℕ) (s : Store)
    → Evolves s (create_subtask ctx id parent session payload priority s).1
      ⊎ Inserts s (create_subtask ctx id parent session payload priority s).1
unfolding create_subtask
create_subtask_cases ctx id parent session payload priority s =
    elim (Bool-cases (any (has_id id) s.tasks || not (any (str_eq session) s.sessions))) [
      | inl e ↦ inl (Evolves-same _ _ (rw e) (rw e))
      | inr e ↦ inr (record {
        task = record (new_task ctx.now id session "subtask" "default" queued payload) {
          priority = priority;
          parent_task_id = some parent;
        };
        is_fresh = ground arith;
        is_settled = ground arith;
        logged = [];
        is_legal = tt;
        rows = rw e;
        events = rw e (sym (append-nil s.task_events));
      })
    ]

-- A row without a lease, finished by a tool.
tool_row : Ctx → String → String → String → String → Option String → Task
tool_row ctx id session payload result call_err =
    record (new_task ctx.now id session "tool" "default"
      (elim call_err [ none ↦ succeeded | some e ↦ failed ]) payload) {
        result = some result;
        error = some (coalesce call_err);
      }

tool_row-IsSettled :
    (ctx : Ctx) (id session payload result : String) (call_err : Option String)
    → IsSettled (tool_row ctx id session payload result call_err)
unfolding tool_row
tool_row-IsSettled ctx id session payload result none = ground arith
tool_row-IsSettled ctx id session payload result (some e) = ground arith

pub record_tool_task_cases :
    (ctx : Ctx) (id session payload result : String) (call_err : Option String) (s : Store)
    → Evolves s (record_tool_task ctx id session payload result call_err s).1
      ⊎ Inserts s (record_tool_task ctx id session payload result call_err s).1
unfolding record_tool_task tool_row
record_tool_task_cases ctx id session payload result call_err s =
    elim (Bool-cases (any (has_id id) s.tasks || not (any (str_eq session) s.sessions))) [
      | inl e ↦ inl (Evolves-same _ _ (rw e) (rw e))
      | inr e ↦ inr (record {
        task = tool_row ctx id session payload result call_err;
        is_fresh = ground arith;
        is_settled = tool_row-IsSettled ctx id session payload result call_err;
        logged = [];
        is_legal = tt;
        rows = rw e;
        events = rw e (sym (append-nil s.task_events));
      })
    ]
