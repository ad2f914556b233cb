-- ===== src/Engine/Checkpoints.antt =====
-- LoadLoopCheckpoint and CleanupCompletedLoops of internal/persistence/loops.go. The column
-- `updated_at` is an argument, by the id of the loop.
use go_claw.Common.{
  ℕ, String, Bool, true, false, not, ◌&&◌, ◌||◌, Option, none, some, List, [], ◌∷◌, filter, ltb,
  str_eq, if◌then◌else◌,
}
use go_claw.Engine.Loop.{LoopStatus, running, LoopCheckpoint}

abbrev pub is_running : LoopStatus → Bool
is_running running = true
is_running _ = false

-- WHERE task_id = ? AND status = 'running'
abbrev pub is_candidate : String → LoopCheckpoint → Bool
is_candidate task_id d = str_eq d.task_id task_id && is_running d.status

-- ORDER BY updated_at DESC LIMIT 1
unfoldable pub load_loop_checkpoint :
    (String → ℕ) → String → List LoopCheckpoint → Option LoopCheckpoint
load_loop_checkpoint updated_at task_id [] = none
load_loop_checkpoint updated_at task_id (d ∷ ds) =
    let rest = load_loop_checkpoint updated_at task_id ds in
    if is_candidate task_id d
    then (elim rest [
      | none ↦ some d
      | some e ↦ if ltb (updated_at d.loop_id) (updated_at e.loop_id) then some e else some d
    ])
    else rest

unfoldable pub cleanup_completed_loops :
    (String → ℕ) → ℕ → List LoopCheckpoint → List LoopCheckpoint
cleanup_completed_loops updated_at cutoff =
    filter (λ d. is_running d.status || not (ltb (updated_at d.loop_id) cutoff))
