-- ===== src/Tasks/Queue.antt =====
-- The order in which `claim_next_pending_task` takes tasks from the queue, and what it returns.
use go_claw.Common.{
  ◌≤◌, ◌<◌, String, ◌≡◌, refl, ◌∙◌, ap, Bool, true, false, none, some, List, [], ◌∷◌, any, arith,
  Bool-cases, Option-cases, inl, inr, ◌⊎◌, filter, All, All-imp, sym, subst, eq_iff, eq_refl,
}
use go_claw.Tasks.Model.{Task, has_id, select_task}
use go_claw.Tasks.Lifecycle.{comes_first, first_row}
use go_claw.Tasks.Unique.{IsUnique}

-- `a` is served no later than `b`: it has a higher priority, or the same and is not younger.
abbrev pub ServedBefore : Task → Task → Type 0
ServedBefore a b =
    (b.priority < a.priority) ⊎ ((a.priority ≡ b.priority) × (a.created_at ≤ b.created_at))

ServedBefore-trans : (a b c : Task) → ServedBefore a b → ServedBefore b c → ServedBefore a c
ServedBefore-trans a b c h k = ground arith

ServedBefore-refl : (a : Task) → ServedBefore a a
ServedBefore-refl a = ground arith

comes_first-ServedBefore : (a b : Task) → comes_first a b ≡ true → ServedBefore a b
comes_first-ServedBefore a b h = ground arith

not_first-ServedBefore : (a b : Task) → comes_first a b ≡ false → ServedBefore b a
not_first-ServedBefore a b h = ground arith

pub not_empty : (ts : List Task) → first_row ts ≡ none → ts ≡ []
unfolding first_row
not_empty [] e = refl
not_empty (x ∷ ts) e = ground arith

pub first_row-ServedBefore :
    (ts : List Task) (t : Task) → first_row ts ≡ some t → All (λ u. ServedBefore t u) ts
unfolding first_row
first_row-ServedBefore [] t e = tt
first_row-ServedBefore (x ∷ ts) t e = elim (Option-cases (first_row ts)) [
  | inl n ↦
      let p : some x ≡ some t = rw (n, first_row) at e in
      let same : x ≡ t = cc p in
      subst (λ y. All (λ u. ServedBefore y u) (x ∷ ts)) same
        (subst (λ us. All (λ u. ServedBefore x u) (x ∷ us)) (sym (not_empty ts n))
          (ServedBefore-refl x, tt))
  | inr (y, f) ↦ elim (Bool-cases (comes_first x y)) [
    | inl c ↦
        let p : some x ≡ some t = rw (c, first_row) at (rw (f, first_row) at e) in
        let same : x ≡ t = cc p in
        subst (λ z. All (λ u. ServedBefore z u) (x ∷ ts)) same
          (
            ServedBefore-refl x,
            All-imp (λ u. ServedBefore y u) (λ u. ServedBefore x u) ts
                (λ u. ServedBefore-trans x y u (comes_first-ServedBefore x y c))
                (first_row-ServedBefore ts y f),
          )
    | inr c ↦
        let p : some y ≡ some t = rw (c, first_row) at (rw (f, first_row) at e) in
        let same : y ≡ t = cc p in
        subst (λ z. All (λ u. ServedBefore z u) (x ∷ ts)) same
          (not_first-ServedBefore x y c, first_row-ServedBefore ts y f)
  ]
]

abbrev pub In : Task → List Task → Type 0
In t [] = ⊥
In t (x ∷ xs) = (x ≡ t) ⊎ In t xs

pub first_row-In : (ts : List Task) (t : Task) → first_row ts ≡ some t → In t ts
unfolding first_row
first_row-In [] t e = cc e
first_row-In (x ∷ ts) t e = elim (Option-cases (first_row ts)) [
  | inl n ↦ let p : some x ≡ some t = rw (n, first_row) at e in inl (cc p)
  | inr (y, f) ↦ elim (Bool-cases (comes_first x y)) [
    | inl c ↦ let p : some x ≡ some t = rw (c, first_row) at (rw (f, first_row) at e) in inl (cc p)
    | inr c ↦
        let p : some y ≡ some t = rw (c, first_row) at (rw (f, first_row) at e) in
        inr (first_row-In ts t (f ∙ p))
  ]
]

pub In-filter :
    (p : Task → Bool) (ts : List Task) (t : Task) → In t (filter p ts) → In t ts × (p t ≡ true)
In-filter p [] t i = absurd i
In-filter p (x ∷ ts) t i = elim (Bool-cases (p x)) [
  | inr f ↦ let r = In-filter p ts t (rw f at i) in (inr r.0, r.1)
  | inl h ↦
      let j : (x ≡ t) ⊎ In t (filter p ts) = rw h at i in
      elim j [
        | inl same ↦ (inl same, ap p (sym same) ∙ h)
        | inr k ↦ let r = In-filter p ts t k in (inr r.0, r.1)
      ]
]

In-any :
    (id : String) (ts : List Task) (t : Task)
    → In t ts
    → has_id id t ≡ true
    → any (has_id id) ts ≡ true
In-any id [] t i h = absurd i
In-any id (x ∷ ts) t (inl same) h = ground arith
In-any id (x ∷ ts) t (inr i) h = ground (arith, In-any id ts t i h)

-- A row of a table with distinct ids is the one that a SELECT by its id finds.
pub select-In : (ts : List Task) (t : Task) → IsUnique ts → In t ts → select_task t.id ts ≡ some t
select-In [] t u i = absurd i
select-In (x ∷ ts) t u (inl same) =
    subst (λ y. select_task y.id (x ∷ ts) ≡ some y) same (rw eq_refl)
select-In (x ∷ ts) t u (inr i) = elim (Bool-cases (has_id t.id x)) [
  | inr f ↦ rw f (select-In ts t u.1 i)
  | inl h ↦
      let same : x.id ≡ t.id = (eq_iff x.id t.id).0 h in
      cc (sym u.0 ∙ In-any x.id ts t i ((eq_iff t.id x.id).1 (sym same)))
]

pub All-filter :
    (p : Task → Bool) (Q : Task → Type 0) (ts : List Task)
    → All Q (filter p ts)
    → All (λ u. p u ≡ true → Q u) ts
All-filter p Q [] h = tt
All-filter p Q (x ∷ ts) h = elim (Bool-cases (p x)) [
  | inr f ↦ ((λ e. cc (sym f ∙ e)), All-filter p Q ts (rw f at h))
  | inl t ↦ let k : Q x × All Q (filter p ts) = rw t at h in ((λ e. k.0), All-filter p Q ts k.1)
]

pub none_passes : (p : Task → Bool) (ts : List Task) → filter p ts ≡ [] → All (λ u. p u ≡ false) ts
none_passes p [] h = tt
none_passes p (x ∷ ts) h = elim (Bool-cases (p x)) [
  | inr f ↦ (f, none_passes p ts (rw f at h))
  | inl t ↦ cc (rw t at h)
]
