-- ===== src/Plans/Router.antt =====
-- What the executor takes from the task router (the `ChatTaskRouter` that internal/agent/registry.go
-- implements) and from `WaitForAll` of internal/coordinator/waiter.go.
use go_claw.Common.{
  ℕ, String, Bool, true, false, ◌||◌, ◌≡◌, Option, some, List, ◌∷◌, any, All, str_eq,
}
use go_claw.Coordinator.Plan.{contains}

-- `TaskResult`, without the token counts and the cost, which `checkTerminal` sets to 0.
pub record TaskResult : Type 0 where
  pub task_id : String
  pub status : String
  pub output : String
  pub duration_ms : ℕ
  pub error : String

pub record Waited : Type 0 where
  pub results : List TaskResult
  pub failed : Bool

-- The rest of the program, as the executor sees it: it creates a task or refuses, and it waits for
-- tasks. `created` are the ids it has given out.
pub record Router : Type 1 where
  pub World : Type 0
  pub create_chat_task : String → String → String → World → Option String × World
  pub wait_for_all : List String → World → Waited × World
  pub created : World → List String

-- `isTerminalStatus`
abbrev pub is_terminal_status : String → Bool
is_terminal_status s =
    str_eq s "SUCCEEDED" || str_eq s "FAILED" || str_eq s "CANCELED" || str_eq s "DEAD_LETTER"

-- A new task has an id of its own, and a wait gives the result of a task that has ended for each id, or
-- an error, and none for another task.
pub record IsRouter (r : Router) : Type 0 where
  pub fresh :
      (agent session prompt : String) (w : r.World) (id : String)
      → (r.create_chat_task agent session prompt w).0 ≡ some id
      → contains (r.created w) id ≡ false
  pub gives :
      (agent session prompt : String) (w : r.World) (id : String)
      → (r.create_chat_task agent session prompt w).0 ≡ some id
      → r.created (r.create_chat_task agent session prompt w).1 ≡ id ∷ r.created w
  pub ended :
      (ids : List String) (w : r.World)
      → All (λ t. is_terminal_status t.status ≡ true) (r.wait_for_all ids w).0.results
  pub asked :
      (ids : List String) (w : r.World)
      → All (λ t. contains ids t.task_id ≡ true) (r.wait_for_all ids w).0.results
  pub complete :
      (ids : List String) (w : r.World)
      → (r.wait_for_all ids w).0.failed ≡ false
      → All (λ id. any (λ t. str_eq t.task_id id) (r.wait_for_all ids w).0.results ≡ true) ids
