-- ===== src/Examples/Policy.antt =====
-- The theorems about policies (internal/policy) at one policy.
use go_claw.Common.{◌≡◌, refl, inr, String, true, false, none, some, List, [], ◌∷◌}
use go_claw.Policy.Model.{Policy, Net, McpRule, allow_http_url, is_blocked_host, allow_mcp_tool}
use go_claw.Policy.Mcp.{Decision, score_for, allow_mcp_tool-Decision}
use go_claw.Policy.Urls.{IsAllowed, allow_http_url-IsAllowed}
use go_claw.Policy.Live.{Op, add_capability_op, allow_domain_op, reload_op, run}
use go_claw.Policy.Known.{AllKnown, run-AllKnown}

abbrev same : String → String
same text = text

abbrev rule : String → String → List String → McpRule
rule agent server tools = record { agent = agent; server = server; tools = tools }

abbrev policy : Policy
policy = record {
  allow_domains = "example.org" ∷ [];
  allow_paths = [];
  allow_capabilities = "acp.read" ∷ [];
  allow_loopback = false;
  mcp = record {
    default = "deny";
    rules = rule "*" "*" ("*" ∷ []) ∷ rule "coder" "github" ("read" ∷ []) ∷ [];
  };
}

abbrev net : Net
net = record {
  parse_url = λ raw. some (record { scheme = "https"; hostname = "api.example.org" });
  parse_addr = λ host. none;
  to_lower = same;
  trim_space = same;
}

allow_mcp_tool-Decision_example :
    Decision same policy
      (score_for same "coder" "github" "write")
      "write"
      (allow_mcp_tool same policy "coder" "github" "write")
allow_mcp_tool-Decision_example = allow_mcp_tool-Decision same policy "coder" "github" "write"

allowed : allow_http_url net policy "https://api.example.org/v1" ≡ true
unfolding allow_http_url is_blocked_host
allowed = refl

allow_http_url-IsAllowed_example : IsAllowed net policy "https://api.example.org/v1"
allow_http_url-IsAllowed_example =
    allow_http_url-IsAllowed net policy "https://api.example.org/v1" allowed

idempotent : (c : String) → same (same c) ≡ same c
idempotent c = refl

abbrev changes : List Op
changes =
    add_capability_op true "tools.exec"
    ∷ add_capability_op true "unheard.of"
    ∷ allow_domain_op true "a.org"
    ∷ reload_op none
    ∷ []

run-AllKnown_example : AllKnown same (run same changes policy)
run-AllKnown_example = run-AllKnown same idempotent changes policy (inr refl, tt)
