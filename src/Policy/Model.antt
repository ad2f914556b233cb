-- ===== src/Policy/Model.antt =====
-- The policy data and its checks in internal/policy/policy.go. Two functions of Go's library are
-- arguments: `normalize` for strings.ToLower(strings.TrimSpace(·)), `Net` for net/url and net/netip.
use Prim.Native.String as S
use go_claw.Common.{
  ℕ, ◌+◌, String, Bool, true, false, not, ◌&&◌, ◌||◌, Option, none, some, List, [], ◌∷◌, any, ltb,
  str_eq, if◌then◌else◌,
}

pub record McpRule : Type 0 where
  pub agent : String
  pub server : String
  pub tools : List String

pub record McpPolicyConfig : Type 0 where
  pub default : String
  pub rules : List McpRule

pub record Policy : Type 0 where
  pub allow_domains : List String
  pub allow_paths : List String
  pub allow_capabilities : List String
  pub allow_loopback : Bool
  pub mcp : McpPolicyConfig

pub record Url : Type 0 where
  pub scheme : String
  pub hostname : String

pub record Address : Type 0 where
  pub is_loopback : Bool
  pub is_private : Bool
  pub is_link_local_unicast : Bool
  pub is_link_local_multicast : Bool
  pub is_unspecified : Bool

pub record Net : Type 0 where
  pub parse_url : String → Option Url
  pub parse_addr : String → Option Address
  pub to_lower : String → String
  pub trim_space : String → String

abbrev pub known_capabilities : List String
known_capabilities =
    "acp.read" ∷ "acp.mutate" ∷ "tools.web_search" ∷ "tools.read_url" ∷ "tools.read_file"
    ∷ "tools.write_file" ∷ "tools.exec" ∷ "tools.spawn_task" ∷ "tools.delegate_task"
    ∷ "tools.delegate_task_async" ∷ "tools.send_message" ∷ "tools.read_messages"
    ∷ "tools.memory_read" ∷ "tools.memory_write" ∷ "tools.send_alert" ∷ "wasm.http.get"
    ∷ "wasm.kv.set" ∷ "legacy.run" ∷ "legacy.dangerous" ∷ "skill.inject" ∷ "tools.mcp"
    ∷ "agent.create" ∷ "agent.remove" ∷ "tools.price_comparison" ∷ []

abbrev pub is_known : String → Bool
is_known c = any (str_eq c) known_capabilities

-- strings.HasSuffix
abbrev pub has_suffix : String → String → Bool
has_suffix S.[] suffix = str_eq S.[] suffix
has_suffix (S.◌∷◌ c s) suffix = str_eq (S.◌∷◌ c s) suffix || has_suffix s suffix

unfoldable pub is_blocked_host : Net → String → Bool → Bool
is_blocked_host net host allow_loopback =
    if str_eq host "localhost" then not allow_loopback else elim (net.parse_addr host) [
      | none ↦ false
      | some ip ↦
          if allow_loopback && ip.is_loopback
          then false
          else (ip.is_loopback || ip.is_private || ip.is_link_local_unicast
              || ip.is_link_local_multicast || ip.is_unspecified)
    ]

-- One pass of the loop over the domains.
abbrev pub domain_matches : Net → String → String → Bool
domain_matches net host entry =
    let domain = net.to_lower (net.trim_space entry) in
    not (str_eq domain "") && (str_eq host domain || has_suffix host (S.◌++◌ "." domain))

abbrev pub is_web : String → Bool
is_web scheme = str_eq scheme "http" || str_eq scheme "https"

unfoldable pub allow_http_url : Net → Policy → String → Bool
unfolding is_blocked_host
allow_http_url net p raw = elim (net.parse_url raw) [
  | none ↦ false
  | some u ↦
      let host = net.to_lower u.hostname in
      if str_eq u.hostname ""
      then false
      else if not (is_web (net.to_lower (net.trim_space u.scheme)))
      then false
      else if is_blocked_host net host p.allow_loopback
      then false
      else any (domain_matches net host) p.allow_domains
]

abbrev pub contains_normalized : (String → String) → List String → String → Bool
contains_normalized normalize slice val = any (λ s. str_eq (normalize s) val) slice

unfoldable pub allow_capability : (String → String) → Policy → String → Bool
allow_capability normalize p raw =
    let capability = normalize raw in
    if str_eq capability ""
    then false
    else contains_normalized normalize p.allow_capabilities capability

-- AllowMCPTool: a rule's score, or none where the loop continues.
abbrev pub tool_in : (String → String) → List String → String → Bool
tool_in normalize tools tool =
    any (λ t. str_eq (normalize t) "*" || str_eq (normalize t) tool) tools

abbrev pub has_tools : List String → Bool
has_tools [] = false
has_tools (t ∷ ts) = true

abbrev pub agent_score : String → String → Option ℕ
agent_score rule_agent agent =
    if str_eq rule_agent agent then some 4 else if str_eq rule_agent "*" then some 1 else none

abbrev pub server_score : String → String → Option ℕ
server_score rule_server server =
    if str_eq rule_server server then some 2 else if str_eq rule_server "*" then some 0 else none

unfoldable pub rule_score : (String → String) → McpRule → String → String → String → Option ℕ
rule_score normalize rule agent server tool = elim (agent_score (normalize rule.agent) agent) [
  | none ↦ none
  | some a ↦ elim (server_score (normalize rule.server) server) [
    | none ↦ none
    | some b ↦
        if not (tool_in normalize rule.tools tool) && has_tools rule.tools
        then none
        else some (a + b)
  ]
]

-- `bestMatch` and `bestScore`
pub record Best : Type 0 where
  pub rule : McpRule
  pub score : ℕ

abbrev pub better : Option Best → McpRule → ℕ → Option Best
better none rule score = some (record { rule = rule; score = score })
better (some b) rule score =
    if ltb b.score score then some (record { rule = rule; score = score }) else some b

unfoldable pub best_match : (McpRule → Option ℕ) → List McpRule → Option Best → Option Best
best_match score [] best = best
best_match score (rule ∷ rules) best = elim (score rule) [
  | none ↦ best_match score rules best
  | some n ↦ best_match score rules (better best rule n)
]

unfoldable pub allow_mcp_tool : (String → String) → Policy → String → String → String → Bool
unfolding best_match rule_score
allow_mcp_tool normalize p agent_id server_name tool_name =
    let agent = normalize agent_id in
    let server = normalize server_name in
    let tool = normalize tool_name in
    elim (best_match (λ rule. rule_score normalize rule agent server tool) p.mcp.rules none) [
      | some b ↦ tool_in normalize b.rule.tools tool
      | none ↦ str_eq (normalize p.mcp.default) "allow"
    ]

-- `validate`: the first capability that is not known
unfoldable pub validate : (String → String) → List String → Option String
validate normalize [] = none
validate normalize (c ∷ cs) =
    if str_eq (normalize c) ""
    then validate normalize cs
    else if is_known (normalize c)
    then validate normalize cs
    else some c
