-- ===== src/Dedup/Model.antt =====
-- CheckToolCallDedup and RegisterSuccessfulToolCall of internal/persistence/tasks.go. A text is blank
-- where strings.TrimSpace leaves nothing, which is an argument.
use go_claw.Common.{
  String, Bool, false, ◌&&◌, Option, none, some, List, [], ◌∷◌, ◌++◌, find?, str_eq, if◌then◌else◌,
}

pub record DedupRow : Type 0 where
  pub idempotency_key : String
  pub tool_name : String
  pub request_hash : String
  pub side_effect_status : String
  pub result_hash : String

pub data Outcome : Type 0 where
  registered deduped key_required tool_required conflict : Outcome

pub record Registered : Type 0 where
  pub rows : List DedupRow
  pub outcome : Outcome

abbrev pub select_row : String → List DedupRow → Option DedupRow
select_row key rows = find? (λ r. str_eq r.idempotency_key key) rows

abbrev pub matches : String → DedupRow → Bool
matches hash row = str_eq row.side_effect_status "SUCCEEDED" && str_eq row.request_hash hash

unfoldable pub check_tool_call_dedup : String → String → List DedupRow → Bool
check_tool_call_dedup key hash rows = elim (select_row key rows) [
  | none ↦ false
  | some row ↦ matches hash row
]

pub record Call : Type 0 where
  pub key : String
  pub tool : String
  pub request : String
  pub result : String

abbrev pub row_of : Call → DedupRow
row_of c = record {
  idempotency_key = c.key;
  tool_name = c.tool;
  request_hash = c.request;
  side_effect_status = "SUCCEEDED";
  result_hash = c.result;
}

unfoldable pub register_successful_tool_call : (String → Bool) → Call → List DedupRow → Registered
register_successful_tool_call is_blank c rows =
    if is_blank c.key
    then record { rows = rows; outcome = key_required }
    else if is_blank c.tool
    then record { rows = rows; outcome = tool_required }
    else elim (select_row c.key rows) [
      | some row ↦
          if matches c.request row
          then record { rows = rows; outcome = deduped }
          else record { rows = rows; outcome = conflict }
      | none ↦ record { rows = rows ++ row_of c ∷ []; outcome = registered }
    ]

-- Calls registered one after another: the table they leave.
unfoldable pub register_all : (String → Bool) → List Call → List DedupRow → List DedupRow
unfolding register_successful_tool_call
register_all is_blank [] rows = rows
register_all is_blank (c ∷ cs) rows =
    register_all is_blank cs (register_successful_tool_call is_blank c rows).rows
