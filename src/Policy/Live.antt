-- ===== src/Policy/Live.antt =====
-- LivePolicy of internal/policy/policy.go: a policy changed at runtime. `normalize` is
-- strings.ToLower(strings.TrimSpace(·)), and `saved` whether the file was written.
use go_claw.Common.{
  String, Bool, not, Option, none, some, List, [], ◌∷◌, ◌++◌, str_eq, if◌then◌else◌,
}
use go_claw.Policy.Model.{Policy, is_known, contains_normalized, validate}

pub data Outcome : Type 0 where
  done empty_value unknown_capability not_saved : Outcome

pub record Change : Type 0 where
  pub policy : Policy
  pub outcome : Outcome

-- `persist`, when the data is in memory already
persist : Bool → Policy → Change
persist saved p = record { policy = p; outcome = if saved then done else not_saved }

keep : Outcome → Policy → Change
keep o p = record { policy = p; outcome = o }

unfoldable pub allow_domain : (String → String) → Bool → String → Policy → Change
unfolding persist keep
allow_domain normalize saved raw p =
    let domain = normalize raw in
    if str_eq domain ""
    then keep empty_value p
    else if contains_normalized normalize p.allow_domains domain
    then keep done p
    else persist saved (record {
      allow_domains = p.allow_domains ++ domain ∷ [];
      allow_paths = p.allow_paths;
      allow_capabilities = p.allow_capabilities;
      allow_loopback = p.allow_loopback;
      mcp = p.mcp;
    })

unfoldable pub add_capability : (String → String) → Bool → String → Policy → Change
unfolding persist keep
add_capability normalize saved raw p =
    let cap = normalize raw in
    if str_eq cap ""
    then keep empty_value p
    else if not (is_known cap)
    then keep unknown_capability p
    else if contains_normalized normalize p.allow_capabilities cap
    then keep done p
    else persist saved (record {
      allow_domains = p.allow_domains;
      allow_paths = p.allow_paths;
      allow_capabilities = p.allow_capabilities ++ cap ∷ [];
      allow_loopback = p.allow_loopback;
      mcp = p.mcp;
    })

-- `ReloadFromFile`, for what was read from the file: `none` where it could not be read or parsed
unfoldable pub reload_from_file : (String → String) → Option Policy → Policy → Policy
reload_from_file normalize none p = p
reload_from_file normalize (some q) p = elim (validate normalize q.allow_capabilities) [
  | some c ↦ p
  | none ↦ q
]

pub data Op : Type 0 where
  allow_domain_op add_capability_op : Bool → String → Op
  reload_op : Option Policy → Op

unfoldable pub step : (String → String) → Op → Policy → Policy
unfolding allow_domain add_capability reload_from_file
step normalize (allow_domain_op saved d) p = (allow_domain normalize saved d p).policy
step normalize (add_capability_op saved c) p = (add_capability normalize saved c p).policy
step normalize (reload_op q) p = reload_from_file normalize q p

unfoldable pub run : (String → String) → List Op → Policy → Policy
unfolding step
run normalize [] p = p
run normalize (o ∷ os) p = run normalize os (step normalize o p)
