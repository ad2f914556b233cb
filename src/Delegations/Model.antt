-- ===== src/Delegations/Model.antt =====
-- The table `delegations` of internal/persistence/delegations.go.
use go_claw.Common.{
  sort_by, ℕ, String, Bool, true, false, not, ◌&&◌, ◌||◌, Option, none, some, List, [], ◌∷◌, ◌++◌,
  map, any, filter, find?, str_eq, if◌then◌else◌,
}

pub record Delegation : Type 0 where
  pub id : String
  pub task_id : String
  pub parent_agent : String
  pub child_agent : String
  pub prompt : String
  pub status : String
  pub result : Option String
  pub error_msg : Option String
  pub created_at : ℕ
  pub completed_at : Option ℕ
  pub injected : Bool

abbrev pub has_id : String → Delegation → Bool
has_id id d = str_eq d.id id

-- An id in use is refused; an empty one is replaced by a new uuid.
unfoldable pub create_delegation : String → Delegation → List Delegation → Bool × List Delegation
create_delegation uuid d ds =
    let id = (if str_eq d.id "" then uuid else d.id) in
    if any (has_id id) ds then (false, ds) else (
      true,
      ds
          ++ record d {
            id = id;
            result = none;
            error_msg = none;
            completed_at = none;
            injected = false;
          }
            ∷ [],
    )

unfoldable pub get_delegation : String → List Delegation → Option Delegation
get_delegation id = find? (has_id id)

unfoldable pub get_delegation_by_task_id : String → List Delegation → Option Delegation
get_delegation_by_task_id task_id = find? (λ d. str_eq d.task_id task_id)

-- UPDATE delegations SET … WHERE id = ?
abbrev pub update : String → (Delegation → Delegation) → List Delegation → List Delegation
update id change = map (λ d. if has_id id d then change d else d)

unfoldable pub complete_delegation : ℕ → String → String → List Delegation → List Delegation
complete_delegation now id result =
    update id
      (λ d. record d { status = "completed"; result = some result; completed_at = some now })

unfoldable pub fail_delegation : ℕ → String → String → List Delegation → List Delegation
fail_delegation now id err_msg =
    update id
      (λ d. record d { status = "failed"; error_msg = some err_msg; completed_at = some now })

abbrev pub is_pending : String → Delegation → Bool
is_pending agent_id d =
    str_eq d.parent_agent agent_id
    && not d.injected
    && (str_eq d.status "completed" || str_eq d.status "failed")

-- ORDER BY created_at ASC
abbrev pub by_time : List Delegation → List Delegation
by_time = sort_by (λ d. d.created_at)

unfoldable pub pending_delegations_for_agent : String → List Delegation → List Delegation
pending_delegations_for_agent agent_id ds = by_time (filter (is_pending agent_id) ds)

unfoldable pub mark_delegation_injected : String → List Delegation → List Delegation
mark_delegation_injected id = update id (λ d. record d { injected = true })
