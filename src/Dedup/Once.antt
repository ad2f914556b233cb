-- ===== src/Dedup/Once.antt =====
-- What the table tool_call_dedup (internal/persistence/tasks.go) guarantees.
use go_claw.Common.{
  ℕ, ◌+◌, ◌≤◌, String, Bool, true, none, some, List, [], ◌∷◌, ◌++◌, count_if, str_eq, if◌then◌else◌,
  ◌≡◌, ◌⊎◌, inl, inr, refl, subst, arith, Bool-cases, Option-cases, eq_refl, str_eq-eq,
}
use go_claw.Dedup.Model.{
  DedupRow, registered, deduped, key_required, tool_required, conflict, Registered, select_row,
  matches, check_tool_call_dedup, Call, row_of, register_successful_tool_call, register_all,
}

-- The rows of a key.
abbrev pub rows_with : String → List DedupRow → ℕ
rows_with key rows = count_if (λ r. str_eq r.idempotency_key key) rows

unselected :
    (key : String) (rows : List DedupRow) → select_row key rows ≡ none → rows_with key rows ≡ 0
unselected key [] h = refl
unselected key (r ∷ rows) h = elim (Bool-cases (str_eq r.idempotency_key key)) [
  | inl t ↦ absurd (let q : some r ≡ none = rw t at h in cc q)
  | inr f ↦ rw f (omega (arith, unselected key rows (rw f at h)))
]

rows_with-append :
    (key : String) (rows : List DedupRow) (r : DedupRow)
    → rows_with key (rows ++ r ∷ [])
      ≡ rows_with key rows + (if str_eq r.idempotency_key key then 1 else 0)
rows_with-append key [] r = omega arith
rows_with-append key (d ∷ rows) r = omega (arith, rows_with-append key rows r)

select_row-append :
    (key : String) (rows new : List DedupRow) (row : DedupRow)
    → select_row key rows ≡ some row
    → select_row key (rows ++ new) ≡ some row
select_row-append key [] new row h = absurd (cc h)
select_row-append key (r ∷ rows) new row h = elim (Bool-cases (str_eq r.idempotency_key key)) [
  | inl t ↦ rw t (rw t at h)
  | inr f ↦ rw f (select_row-append key rows new row (rw f at h))
]

select_row-new :
    (key : String) (rows : List DedupRow) (new : DedupRow)
    → select_row key rows ≡ none
    → str_eq new.idempotency_key key ≡ true
    → select_row key (rows ++ new ∷ []) ≡ some new
select_row-new key [] new h e = rw e
select_row-new key (r ∷ rows) new h e = elim (Bool-cases (str_eq r.idempotency_key key)) [
  | inl t ↦ absurd (let q : some r ≡ none = rw t at h in cc q)
  | inr f ↦ rw f (select_row-new key rows new (rw f at h) e)
]

-- What a registration does.
pub data Effect (is_blank : String → Bool) (c : Call) (rows : List DedupRow) (out : Registered)
    : Type 0 where
  blank :
      out.rows ≡ rows
      → ((is_blank c.key ≡ true) × (out.outcome ≡ key_required))
        ⊎ ((is_blank c.tool ≡ true) × (out.outcome ≡ tool_required))
      → Effect is_blank c rows out
  known :
      (row : DedupRow)
      → out.rows ≡ rows
      → select_row c.key rows ≡ some row
      → out.outcome ≡ (if matches c.request row then deduped else conflict)
      → Effect is_blank c rows out
  new :
      out.rows ≡ rows ++ row_of c ∷ []
      → select_row c.key rows ≡ none
      → out.outcome ≡ registered
      → Effect is_blank c rows out

pub effect :
    (is_blank : String → Bool) (c : Call) (rows : List DedupRow)
    → Effect is_blank c rows (register_successful_tool_call is_blank c rows)
unfolding register_successful_tool_call
effect is_blank c rows = elim (Bool-cases (is_blank c.key)) [
  | inl t ↦
      blank (rw (register_successful_tool_call, t)) (inl (t, rw (register_successful_tool_call, t)))
  | inr a ↦ elim (Bool-cases (is_blank c.tool)) [
    | inl t ↦
        blank (rw (register_successful_tool_call, a, t))
          (inr (t, rw (register_successful_tool_call, a, t)))
    | inr b ↦ elim (Option-cases (select_row c.key rows)) [
      | inl e ↦
          new (rw (register_successful_tool_call, a, b, e)) e
            (rw (register_successful_tool_call, a, b, e))
      | inr (row, e) ↦ elim (Bool-cases (matches c.request row)) [
        | inl t ↦
            known row (rw (register_successful_tool_call, a, b, e, t)) e
              (rw (register_successful_tool_call, a, b, e, t))
        | inr f ↦
            known row (rw (register_successful_tool_call, a, b, e, f)) e
              (rw (register_successful_tool_call, a, b, e, f))
      ]
    ]
  ]
]

one_more :
    (key : String) (c : Call) (rows : List DedupRow) (out : Registered) (is_blank : String → Bool)
    → Effect is_blank c rows out
    → rows_with key rows ≤ 1
    → rows_with key out.rows ≤ 1
one_more key c rows out is_blank (blank e b) h = rw e h
one_more key c rows out is_blank (known row e s o) h = rw e h
one_more key c rows out is_blank (new e s o) h = elim (Bool-cases (str_eq c.key key)) [
  | inr f ↦ rw e (let a = rows_with-append key rows (row_of c) in ground arith)
  | inl t ↦
      let k : c.key ≡ key = str_eq-eq c.key key t in
      let z : rows_with key rows ≡ 0 =
        subst (λ j. rows_with j rows ≡ 0) k (unselected c.key rows s) in
      rw e (let a = rows_with-append key rows (row_of c) in ground arith)
]

-- Where at most one row stands for a key, at most one does after any calls are registered, whatever
-- their keys and hashes.
pub register_all-once :
    (is_blank : String → Bool) (cs : List Call) (rows : List DedupRow) (key : String)
    → rows_with key rows ≤ 1
    → rows_with key (register_all is_blank cs rows) ≤ 1
unfolding register_all
register_all-once is_blank [] rows key h = h
register_all-once is_blank (c ∷ cs) rows key h =
    register_all-once is_blank cs _ key (one_more key c rows _ is_blank (effect is_blank c rows) h)

stays :
    (c : Call) (rows : List DedupRow) (out : Registered) (is_blank : String → Bool) (key : String)
    (row : DedupRow)
    → Effect is_blank c rows out
    → select_row key rows ≡ some row
    → select_row key out.rows ≡ some row
stays c rows out is_blank key row (blank e b) h = rw e h
stays c rows out is_blank key row (known r e s o) h = rw e h
stays c rows out is_blank key row (new e s o) h =
    rw e (select_row-append key rows (row_of c ∷ []) row h)

register_all-stays :
    (is_blank : String → Bool) (cs : List Call) (rows : List DedupRow) (key : String)
    (row : DedupRow)
    → select_row key rows ≡ some row
    → select_row key (register_all is_blank cs rows) ≡ some row
unfolding register_all
register_all-stays is_blank [] rows key row h = h
register_all-stays is_blank (c ∷ cs) rows key row h =
    register_all-stays is_blank cs _ key row
      (stays c rows _ is_blank key row (effect is_blank c rows) h)

just_added :
    (c : Call) (rows : List DedupRow) (out : Registered) (is_blank : String → Bool)
    → Effect is_blank c rows out
    → out.outcome ≡ registered
    → select_row c.key out.rows ≡ some (row_of c)
just_added c rows out is_blank (blank e b) h = elim b [
  | inl k ↦ absurd (cc (k.1, h))
  | inr k ↦ absurd (cc (k.1, h))
]
just_added c rows out is_blank (known row e s o) h = elim (Bool-cases (matches c.request row)) [
  | inl t ↦ absurd (let q : out.outcome ≡ deduped = rw t at o in cc (q, h))
  | inr f ↦ absurd (let q : out.outcome ≡ conflict = rw f at o in cc (q, h))
]
just_added c rows out is_blank (new e s o) h =
    rw e (select_row-new c.key rows (row_of c) s (eq_refl c.key))

-- Once a call has been registered, then, whatever else is registered after it, the check of its key
-- answers yes exactly for its request hash.
pub registered_found :
    (is_blank : String → Bool) (c : Call) (cs : List Call) (rows : List DedupRow) (hash : String)
    → (register_successful_tool_call is_blank c rows).outcome ≡ registered
    → check_tool_call_dedup c.key hash (register_all is_blank (c ∷ cs) rows) ≡ str_eq c.request hash
unfolding register_all check_tool_call_dedup
registered_found is_blank c cs rows hash h =
    let row : select_row c.key (register_successful_tool_call is_blank c rows).rows
        ≡ some (row_of c) =
      just_added c rows _ is_blank (effect is_blank c rows) h in
    let found = register_all-stays is_blank cs _ c.key (row_of c) row in
    rw (check_tool_call_dedup, found) refl
