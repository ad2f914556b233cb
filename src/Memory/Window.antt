-- ===== src/Memory/Window.antt =====
-- internal/memory/window.go. Budgets and token counts are natural numbers.
use go_claw.Common.{
  ℕ, ◌+◌, ◌-◌, ◌/◌, String, List, [], ◌∷◌, ◌++◌, length, ltb, leb, if◌then◌else◌, reverse,
}

pub record WindowConfig : Type 0 where
  pub max_messages : ℕ
  pub max_tokens : ℕ
  pub summary_budget : ℕ
  pub reserved_tokens : ℕ

abbrev pub default_window_config : WindowConfig
default_window_config = record {
  max_messages = 50;
  max_tokens = 8000;
  summary_budget = 500;
  reserved_tokens = 2000;
}

pub record WindowMessage : Type 0 where
  pub role : String
  pub content : String
  pub tokens : ℕ

-- The summary stands for itself by its length in bytes.
pub record WindowResult : Type 0 where
  pub summary : ℕ
  pub messages : List WindowMessage
  pub total_tokens : ℕ
  pub truncated_count : ℕ

-- The difference stops at 0, as good as a negative one below the minimum of 100.
abbrev pub available_budget : WindowConfig → ℕ
available_budget cfg =
    let left = cfg.max_tokens - cfg.reserved_tokens - cfg.summary_budget in
    if ltb left 100 then 100 else left

abbrev pub summary_tokens : ℕ → ℕ
summary_tokens summary = summary / 4

-- `selectedMsgs` and `totalMsgTokens`
pub record Selection : Type 0 where
  pub selected_msgs : List WindowMessage
  pub total_msg_tokens : ℕ

-- The loop from the newest message on; a `break` returns what is selected.
unfoldable pub select_messages : WindowConfig → ℕ → List WindowMessage → Selection → Selection
select_messages cfg summary [] sel = sel
select_messages cfg summary (msg ∷ older) sel =
    let rest = select_messages cfg summary older (record {
      selected_msgs = sel.selected_msgs ++ msg ∷ [];
      total_msg_tokens = sel.total_msg_tokens + msg.tokens;
    }) in
    if leb cfg.max_messages (length sel.selected_msgs)
    then sel
    else if ltb (available_budget cfg) (sel.total_msg_tokens + msg.tokens + summary_tokens summary)
    then sel
    else rest

abbrev pub no_selection : Selection
no_selection = record { selected_msgs = []; total_msg_tokens = 0 }

abbrev pub result_of : List WindowMessage → ℕ → Selection → WindowResult
result_of messages summary sel = record {
  summary = summary;
  messages = reverse sel.selected_msgs;
  total_tokens = sel.total_msg_tokens + summary_tokens summary;
  truncated_count = length messages - length sel.selected_msgs;
}

unfoldable pub build_window : List WindowMessage → ℕ → WindowConfig → WindowResult
unfolding select_messages
build_window [] summary cfg = record {
  summary = summary;
  messages = [];
  total_tokens = 0;
  truncated_count = 0;
}
build_window (m ∷ ms) summary cfg =
    result_of (m ∷ ms) summary (select_messages cfg summary (reverse (m ∷ ms)) no_selection)
