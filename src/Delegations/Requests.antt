-- ===== src/Delegations/Requests.antt =====
-- `delegateTaskAsync` of internal/tools/delegate.go: an agent hands work to another one.
use go_claw.Common.{
  ℕ, String, Bool, true, false, not, ◌&&◌, Option, none, some, List, any, leb, str_eq,
  if◌then◌else◌,
}
use go_claw.Tasks.Model.{Ctx, Store, Error, Result, ok, err}
use go_claw.Tasks.Lifecycle.{create_task}
use go_claw.Tasks.Finish.{publish}
use go_claw.Tasks.Sessions.{ensure_session}
use go_claw.Delegations.Model.{Delegation, create_delegation}

pub data DelegateError : Type 0 where
  denied no_target empty_prompt to_yourself too_many_hops unknown_agent invalid_session :
      DelegateError
  task_refused : Error → DelegateError
  row_refused : DelegateError

pub data Delegated : Type 0 where
  delegated : String → Delegated
  not_delegated : DelegateError → Delegated

-- What the call brings: the policy's answer, the context of the caller, the input, the payload that
-- encoding/json writes for the prompt, and the new uuids of the session, the task and the row.
pub record DelegateCall : Type 0 where
  pub is_allowed : Bool
  pub max_hops : ℕ
  pub caller_agent : String
  pub caller_session : String
  pub hop : ℕ
  pub target_agent : String
  pub prompt : String
  pub session_id : String
  pub payload : String
  pub new_session : String
  pub new_task : String
  pub new_delegation : String

-- The tables that the call reads and writes.
pub record Desk : Type 0 where
  pub store : Store
  pub agents : List String
  pub delegations : List Delegation

-- The checks, in their order.
unfoldable pub refusal : DelegateCall → List String → Option DelegateError
refusal c agents =
    if not c.is_allowed
    then some denied
    else if str_eq c.target_agent ""
    then some no_target
    else if str_eq c.prompt ""
    then some empty_prompt
    else if not (str_eq c.caller_agent "") && str_eq c.caller_agent c.target_agent
    then some to_yourself
    else if leb c.max_hops c.hop
    then some too_many_hops
    else if not (any (λ a. str_eq a c.target_agent) agents)
    then some unknown_agent
    else none

-- `is_uuid` says what uuid.Parse accepts.
abbrev pub session_of : (String → Bool) → DelegateCall → String
session_of is_uuid c =
    if is_uuid c.session_id
    then c.session_id
    else if not (str_eq c.caller_session "")
    then c.caller_session
    else c.new_session

abbrev pub row_of : ℕ → DelegateCall → String → Delegation
row_of now c task_id = record {
  id = "";
  task_id = task_id;
  parent_agent = c.caller_agent;
  child_agent = c.target_agent;
  prompt = c.prompt;
  status = "queued";
  result = none;
  error_msg = none;
  created_at = now;
  completed_at = none;
  injected = false;
}

abbrev pub after_row :
    DelegateCall → Desk → String → Store → Bool × List Delegation → Delegated × Desk
after_row c desk task_id s (false, ds) =
    (not_delegated row_refused, record desk { store = s; delegations = ds })
after_row c desk task_id s (true, ds) = (
  delegated c.new_delegation,
  record desk { store = publish "delegation.started" task_id s; delegations = ds },
)

abbrev pub after_task : ℕ → DelegateCall → Desk → Result String × Store → Delegated × Desk
after_task now c desk (err e, s) = (not_delegated (task_refused e), record desk { store = s })
after_task now c desk (ok task_id, s) =
    after_row c desk task_id s
      (create_delegation c.new_delegation (row_of now c task_id) desk.delegations)

abbrev pub after_session :
    (String → Bool) → Ctx → DelegateCall → Desk → Bool × Store → Delegated × Desk
after_session is_uuid ctx c desk (false, s) =
    (not_delegated invalid_session, record desk { store = s })
after_session is_uuid ctx c desk (true, s) =
    after_task ctx.now c desk
      (create_task ctx c.new_task c.target_agent (session_of is_uuid c) c.payload s)

unfoldable pub delegate_task_async : (String → Bool) → Ctx → DelegateCall → Desk → Delegated × Desk
unfolding refusal
delegate_task_async is_uuid ctx c desk = elim (refusal c desk.agents) [
  | some e ↦ (not_delegated e, desk)
  | none ↦
      after_session is_uuid ctx c desk
        (ensure_session (is_uuid (session_of is_uuid c)) (session_of is_uuid c) desk.store)
]
