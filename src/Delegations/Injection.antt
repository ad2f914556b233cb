-- ===== src/Delegations/Injection.antt =====
-- `injectPendingDelegations` of internal/engine/brain.go: the results of delegations reach the
-- conversation of the agent that asked for them.
use go_claw.Common.{
  any-sort_by, IsOrdered, sort_by-IsOrdered, String, true, false, none, some, List, [], ◌∷◌, map,
  any, filter, str_eq, All, All-imp, if◌then◌else◌, ◌≡◌, ◌⊎◌, inl, inr, refl, sym, subst, ◌∙◌,
  arith, Bool-cases, eq_refl,
}
use go_claw.Delegations.Model.{
  Delegation, has_id, is_pending, by_time, pending_delegations_for_agent, mark_delegation_injected,
}

-- What the formatted text says: the child agent, and its result, its error or its status.
pub data Content : Type 0 where
  complete_with : String → String → Content
  complete_without_output : String → Content
  failed_with : String → String → Content
  failed_without_message : String → Content
  other_status : String → String → Content

unfoldable pub content_of : Delegation → Content
content_of d =
    if str_eq d.status "completed"
    then (elim d.result [
      | some r ↦ complete_with d.child_agent r
      | none ↦ complete_without_output d.child_agent
    ])
    else if str_eq d.status "failed"
    then (elim d.error_msg [
      | some e ↦ failed_with d.child_agent e
      | none ↦ failed_without_message d.child_agent
    ])
    else other_status d.status d.child_agent

-- The marks of the loop, one after another.
unfoldable pub mark_all : List Delegation → List Delegation → List Delegation
unfolding mark_delegation_injected
mark_all [] ds = ds
mark_all (p ∷ ps) ds = mark_all ps (mark_delegation_injected p.id ds)

-- The messages, and the table afterwards.
unfoldable pub inject_pending_delegations :
    String → List Delegation → List Content × List Delegation
unfolding content_of mark_all pending_delegations_for_agent
inject_pending_delegations agent_id ds = if str_eq agent_id "" then ([], ds) else (
  map content_of (pending_delegations_for_agent agent_id ds),
  mark_all (pending_delegations_for_agent agent_id ds) ds,
)

-- Each row is not pending, or is one of those still to be marked.
abbrev Covered : String → List Delegation → List Delegation → Type 0
Covered agent_id ps =
    All (λ d. (is_pending agent_id d ≡ false) ⊎ (any (λ p. has_id p.id d) ps ≡ true))

pending-skip :
    (agent_id : String) (d : Delegation) (ds : List Delegation)
    → is_pending agent_id d ≡ false
    → filter (is_pending agent_id) (d ∷ ds) ≡ filter (is_pending agent_id) ds
pending-skip agent_id d ds f = rw f refl

Covered-first :
    (agent_id : String) (ds : List Delegation)
    → Covered agent_id (filter (is_pending agent_id) ds) ds
Covered-first agent_id [] = tt
Covered-first agent_id (d ∷ ds) = elim (Bool-cases (is_pending agent_id d)) [
  | inr f ↦ (
    inl f,
    subst (λ ps. Covered agent_id ps ds) (sym (pending-skip agent_id d ds f))
        (Covered-first agent_id ds),
  )
  | inl t ↦
      let same : str_eq d.id d.id ≡ true = eq_refl d.id in
      rw t (
        inr (ground arith),
        All-imp _ _ ds (λ e c. elim c [ inl n ↦ inl n | inr y ↦ inr (ground arith) ])
            (Covered-first agent_id ds),
      )
]

Covered-by_time :
    (agent_id : String) (ps ds : List Delegation)
    → Covered agent_id ps ds
    → Covered agent_id (by_time ps) ds
Covered-by_time agent_id ps ds = All-imp _ _ ds (λ d c. elim c [
  | inl n ↦ inl n
  | inr y ↦ inr (any-sort_by (λ d. d.created_at) (λ p. has_id p.id d) ps ∙ y)
])

Covered-mark :
    (agent_id : String) (p : Delegation) (ps ds : List Delegation)
    → Covered agent_id (p ∷ ps) ds
    → Covered agent_id ps (mark_delegation_injected p.id ds)
unfolding mark_delegation_injected
Covered-mark agent_id p ps [] c = tt
Covered-mark agent_id p ps (d ∷ ds) c = (
  elim (Bool-cases (has_id p.id d)) [
    | inl t ↦ inl (rw t (ground arith))
    | inr f ↦ rw f (elim c.0 [ inl n ↦ inl n | inr y ↦ inr (ground arith) ])
  ],
  Covered-mark agent_id p ps ds c.1,
)

Covered-last :
    (agent_id : String) (ds : List Delegation)
    → Covered agent_id [] ds
    → All (λ d. is_pending agent_id d ≡ false) ds
Covered-last agent_id ds = All-imp _ _ ds (λ d c. elim c [ inl n ↦ n | inr y ↦ absurd (cc y) ])

mark_all-none :
    (agent_id : String) (ps ds : List Delegation)
    → Covered agent_id ps ds
    → All (λ d. is_pending agent_id d ≡ false) (mark_all ps ds)
unfolding mark_all
mark_all-none agent_id [] ds c = Covered-last agent_id ds c
mark_all-none agent_id (p ∷ ps) ds c =
    mark_all-none agent_id ps (mark_delegation_injected p.id ds) (Covered-mark agent_id p ps ds c)

filter-none :
    (agent_id : String) (ds : List Delegation)
    → All (λ d. is_pending agent_id d ≡ false) ds
    → filter (is_pending agent_id) ds ≡ []
filter-none agent_id [] h = refl
filter-none agent_id (d ∷ ds) (n, h) = rw n (filter-none agent_id ds h)

-- What an injection gives, and the rows that it leaves: one message for each pending row, oldest first,
-- and no pending row.
abbrev pub Injects : String → List Delegation → List Content × List Delegation → Type 0
Injects agent_id ds (messages, after) =
    (order : List Delegation) × IsOrdered (λ d. d.created_at) (is_pending agent_id) ds order
    × (messages ≡ map content_of order)
    × All (λ d. is_pending agent_id d ≡ false) after

-- Where the agent is named and the marks succeed, an injection gives one message for each delegation of
-- the agent that is completed or failed and was not injected, in the order of their creation times,
-- and leaves none such: a second injection gives nothing.
pub inject_pending_delegations-once :
    (agent_id : String) (ds : List Delegation)
    → str_eq agent_id "" ≡ false
    → Injects agent_id ds (inject_pending_delegations agent_id ds)
      × ((inject_pending_delegations agent_id (inject_pending_delegations agent_id ds).1).0 ≡ [])
unfolding inject_pending_delegations pending_delegations_for_agent
inject_pending_delegations-once agent_id ds named =
    let pending = by_time (filter (is_pending agent_id) ds) in
    let c = Covered-by_time agent_id _ ds (Covered-first agent_id ds) in
    let gone = mark_all-none agent_id pending ds c in
    let e = filter-none agent_id (mark_all pending ds) gone in
    (
      (
        pending,
        sort_by-IsOrdered (λ d. d.created_at) (is_pending agent_id) ds,
        rw named refl,
        rw named gone,
      ),
      rw (named, e) refl,
    )
