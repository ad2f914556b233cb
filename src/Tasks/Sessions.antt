-- ===== src/Tasks/Sessions.antt =====
-- EnsureSession and AddHistory of internal/persistence/sessions.go, and the two queue depths of
-- internal/persistence/tasks.go and internal/persistence/agents.go.
use go_claw.Common.{
  ℕ, String, Bool, true, false, not, ◌&&◌, ◌||◌, [], ◌∷◌, ◌++◌, any, if◌then◌else◌, str_eq,
  count_if,
}
use go_claw.Tasks.Model.{queued, status_eq, Task, Ctx, Store, current_timestamp}
use go_claw.Tasks.Lifecycle.{or_default}

-- Whether it succeeds, and the store. `is_uuid` says that uuid.Parse accepts the id.
unfoldable pub ensure_session : Bool → String → Store → Bool × Store
ensure_session is_uuid session_id s =
    if not is_uuid
    then (false, s)
    else if any (λ r. str_eq session_id r) s.sessions
    then (true, s)
    else (true, record s { sessions = s.sessions ++ session_id ∷ [] })

abbrev pub is_role : String → Bool
is_role role =
    str_eq role "system" || str_eq role "user" || str_eq role "assistant" || str_eq role "tool"

-- `role` is in lower case and without spaces around it. The session is a foreign key.
unfoldable pub add_history : Ctx → String → String → String → String → Store → Bool × Store
add_history ctx session_id agent_id role content s =
    if not (is_role role) || not (any (λ r. str_eq session_id r) s.sessions) then (false, s) else (
      true,
      record s {
        messages =
            s.messages
            ++ record {
              session_id = session_id;
              agent_id = or_default agent_id;
              role = role;
              content = content;
              created_at = current_timestamp ctx.now;
            }
              ∷ [];
      },
    )

abbrev pub is_queued : Task → Bool
is_queued t = status_eq t.status queued

abbrev pub is_queued_for : String → Task → Bool
is_queued_for agent_id t = status_eq t.status queued && str_eq t.agent_id agent_id

unfoldable pub queue_depth : Store → ℕ
queue_depth s = count_if is_queued s.tasks

unfoldable pub queue_depth_for_agent : String → Store → ℕ
queue_depth_for_agent agent_id s = count_if (is_queued_for agent_id) s.tasks
