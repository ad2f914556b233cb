-- ===== src/Examples/Others.antt =====
-- The theorems about the message window (internal/memory) and about tool calls (internal/persistence).
use go_claw.Common.{ℕ, ◌≤◌, ◌≡◌, refl, String, Bool, List, [], ◌∷◌, arith, str_eq}
use go_claw.Memory.Window.{WindowConfig, WindowMessage, build_window}
use go_claw.Memory.Fits.{IsWindow, build_window-IsWindow}
use go_claw.Dedup.Model.{
  Call, registered, register_successful_tool_call, register_all, check_tool_call_dedup,
}
use go_claw.Dedup.Once.{rows_with, register_all-once, registered_found}

abbrev config : WindowConfig
config = record { max_messages = 2; max_tokens = 300; summary_budget = 50; reserved_tokens = 100 }

abbrev message : ℕ → WindowMessage
message n = record { role = "user"; content = "hi"; tokens = n }

abbrev messages : List WindowMessage
messages = message 10 ∷ message 90 ∷ message 40 ∷ []

build_window-IsWindow_example : IsWindow config 40 messages (build_window messages 40 config)
build_window-IsWindow_example = build_window-IsWindow messages 40 config

abbrev is_blank : String → Bool
is_blank text = str_eq text ""

abbrev call_of : String → String → Call
call_of key request = record { key = key; tool = "send"; request = request; result = "r" }

register_all-once_example :
    rows_with "k"
      (register_all is_blank (call_of "k" "1" ∷ call_of "k" "2" ∷ call_of "j" "1" ∷ []) [])
    ≤ 1
register_all-once_example =
    register_all-once is_blank (call_of "k" "1" ∷ call_of "k" "2" ∷ call_of "j" "1" ∷ []) [] "k"
      (omega arith)

was_new : (register_successful_tool_call is_blank (call_of "k" "1") []).outcome ≡ registered
unfolding register_successful_tool_call
was_new = refl

registered_found_example :
    check_tool_call_dedup "k" "1"
      (register_all is_blank (call_of "k" "1" ∷ call_of "k" "2" ∷ []) [])
    ≡ str_eq "1" "1"
registered_found_example =
    registered_found is_blank (call_of "k" "1") (call_of "k" "2" ∷ []) [] "1" was_new
