-- ===== src/Policy/Mcp.antt =====
-- AllowMCPTool of internal/policy/policy.go decides by the first of the most specific rules.
use go_claw.Common.{
  ℕ, ◌≤◌, ◌<◌, String, Bool, Option, none, some, List, [], ◌∷◌, ◌++◌, All, All-append, All-imp, ltb,
  str_eq, ◌≡◌, inl, inr, refl, sym, ap, ◌∙◌, arith, Bool-cases, Option-cases, append_assoc,
  append-nil, subst,
}
use go_claw.Policy.Model.{
  Policy, McpRule, Best, better, best_match, rule_score, allow_mcp_tool, tool_in,
}

-- A rule that does not apply, or scores at most `n`, or less.
abbrev pub AtMost : (McpRule → Option ℕ) → ℕ → McpRule → Type 0
AtMost score n r = (k : ℕ) → score r ≡ some k → k ≤ n

abbrev pub Below : (McpRule → Option ℕ) → ℕ → McpRule → Type 0
Below score n r = (k : ℕ) → score r ≡ some k → k < n

-- The best of the rules: the first of those with the greatest score.
pub record IsBest (score : McpRule → Option ℕ) (rules : List McpRule) (b : Best) : Type 0 where
  pub before : List McpRule
  pub after : List McpRule
  pub split : rules ≡ before ++ b.rule ∷ after
  pub applies : score b.rule ≡ some b.score
  pub above : All (Below score b.score) before
  pub least : All (AtMost score b.score) after

abbrev pub Decides : (McpRule → Option ℕ) → List McpRule → Option Best → Type 0
Decides score rules none = All (λ r. score r ≡ none) rules
Decides score rules (some b) = IsBest score rules b

skipped :
    (score : McpRule → Option ℕ) (seen : List McpRule) (r : McpRule) (best : Option Best)
    → score r ≡ none
    → Decides score seen best
    → Decides score (seen ++ r ∷ []) best
skipped score seen r none e d = All-append _ seen (r ∷ []) d (e, tt)
skipped score seen r (some b) e d = record {
  before = d.before;
  after = d.after ++ r ∷ [];
  split = ap (λ l. l ++ r ∷ []) d.split ∙ append_assoc d.before (b.rule ∷ d.after) (r ∷ []);
  applies = d.applies;
  above = d.above;
  least = All-append _ d.after (r ∷ []) d.least (λ k q. absurd (cc (e, q)), tt);
}

All-Below :
    (score : McpRule → Option ℕ) (seen : List McpRule) (b : Best) (n : ℕ)
    → IsBest score seen b
    → b.score < n
    → All (Below score n) seen
All-Below score seen b n d h = subst (All (Below score n)) (sym d.split) (
    All-append _ d.before (b.rule ∷ d.after)
      (All-imp _ _ d.before (λ r low k q. let l = low k q in omega arith) d.above)
      (
        λ k q.
            let e : some b.score ≡ some k = sym d.applies ∙ q in
            let f : b.score ≡ k = cc e in omega arith,
        All-imp _ _ d.after (λ r low k q. let l = low k q in omega arith) d.least,
      ))

taken :
    (score : McpRule → Option ℕ) (seen : List McpRule) (r : McpRule) (n : ℕ)
    → score r ≡ some n
    → All (Below score n) seen
    → IsBest score (seen ++ r ∷ []) (record { rule = r; score = n })
taken score seen r n e low = record {
  before = seen;
  after = [];
  split = refl;
  applies = e;
  above = low;
  least = tt;
}

scored :
    (score : McpRule → Option ℕ) (seen : List McpRule) (r : McpRule) (n : ℕ) (best : Option Best)
    → score r ≡ some n
    → Decides score seen best
    → Decides score (seen ++ r ∷ []) (better best r n)
scored score seen r n none e d =
    taken score seen r n e (All-imp _ _ seen (λ s none_ k q. absurd (cc (none_, q))) d)
scored score seen r n (some b) e d = elim (Bool-cases (ltb b.score n)) [
  | inl t ↦ rw t (taken score seen r n e (All-Below score seen b n d (ground arith)))
  | inr f ↦
      let low : AtMost score b.score r =
        λ k q. let p : some n ≡ some k = sym e ∙ q in let m : n ≡ k = cc p in ground arith in
      rw f (record {
        before = d.before;
        after = d.after ++ r ∷ [];
        split = ap (λ l. l ++ r ∷ []) d.split ∙ append_assoc d.before (b.rule ∷ d.after) (r ∷ []);
        applies = d.applies;
        above = d.above;
        least = All-append _ d.after (r ∷ []) d.least (low, tt);
      })
]

best_match-Decides :
    (score : McpRule → Option ℕ) (seen rules : List McpRule) (best : Option Best)
    → Decides score seen best
    → Decides score (seen ++ rules) (best_match score rules best)
unfolding best_match
best_match-Decides score seen [] best d =
    subst (λ l. Decides score l best) (sym (append-nil seen)) d
best_match-Decides score seen (r ∷ rules) best d = elim (Option-cases (score r)) [
  | inl e ↦
      let rest =
        best_match-Decides score (seen ++ r ∷ []) rules best (skipped score seen r best e d) in
      let q : best_match score (r ∷ rules) best ≡ best_match score rules best =
        rw (e, best_match) in
      go (best_match score (r ∷ rules) best) (best_match score rules best) q rest
  | inr (n, e) ↦
      let rest =
        best_match-Decides score (seen ++ r ∷ []) rules (better best r n)
          (scored score seen r n best e d) in
      let q : best_match score (r ∷ rules) best ≡ best_match score rules (better best r n) =
        rw (e, best_match) in
      go (best_match score (r ∷ rules) best) (best_match score rules (better best r n)) q rest
]
  where
    go :
        (out rest : Option Best)
        → out ≡ rest
        → Decides score ((seen ++ r ∷ []) ++ rules) rest
        → Decides score (seen ++ r ∷ rules) out
    go out rest q h =
        subst (Decides score (seen ++ r ∷ rules)) (sym q)
          (subst (λ l. Decides score l rest) (append_assoc seen (r ∷ []) rules) h)

-- The score of a rule for a request.
abbrev pub score_for : (String → String) → String → String → String → McpRule → Option ℕ
score_for normalize agent server tool r =
    rule_score normalize r (normalize agent) (normalize server) (normalize tool)

-- How a request is decided.
pub data Decision (normalize : String → String) (p : Policy) (score : McpRule → Option ℕ)
    (tool : String) (answer : Bool) : Type 0 where
  by_default :
      All (λ r. score r ≡ none) p.mcp.rules
      → answer ≡ str_eq (normalize p.mcp.default) "allow"
      → Decision normalize p score tool answer
  by_rule :
      (b : Best)
      → IsBest score p.mcp.rules b
      → answer ≡ tool_in normalize b.rule.tools tool
      → Decision normalize p score tool answer

-- AllowMCPTool answers by the first of the rules with the greatest score, and allows exactly the tools
-- that rule lists; where no rule applies it allows only under the default "allow".
pub allow_mcp_tool-Decision :
    (normalize : String → String) (p : Policy) (agent server tool : String)
    → Decision normalize p
        (score_for normalize agent server tool)
        (normalize tool)
        (allow_mcp_tool normalize p agent server tool)
unfolding allow_mcp_tool
allow_mcp_tool-Decision normalize p agent server tool =
    decide (best_match (score_for normalize agent server tool) p.mcp.rules none)
      (best_match-Decides (score_for normalize agent server tool) [] p.mcp.rules none tt)
  where
    decide :
        (best : Option Best)
        → Decides (score_for normalize agent server tool) p.mcp.rules best
        → Decision normalize p (score_for normalize agent server tool) (normalize tool) (elim best [
          | some b ↦ tool_in normalize b.rule.tools (normalize tool)
          | none ↦ str_eq (normalize p.mcp.default) "allow"
        ])
    decide none d = by_default d refl
    decide (some b) d = by_rule b d refl
