-- ===== src/Tasks/Unique.antt =====
-- The ids of the rows are distinct, in every store that the operations build, so that an UPDATE by
-- id changes the row that a SELECT by id has read.
use go_claw.Common.{
  String, ◌≡◌, refl, ◌∙◌, sym, subst, false, ◌||◌, some, List, [], ◌∷◌, ◌++◌, map, any, arith,
  Bool-cases, inl, inr, str_eq, eq_iff,
}
use go_claw.Tasks.Model.{TaskStatus, Task, Ctx, Store, has_id, select_task, rows_affected}
use go_claw.Tasks.Transition.{with_status}
use go_claw.Tasks.Runs.{Op, step, run, step_cases, IsSound, step-IsSound}

abbrev pub IsUnique : List Task → Type 0
IsUnique [] = Unit
IsUnique (t ∷ ts) = (any (has_id t.id) ts ≡ false) × IsUnique ts

any-map :
    (change : Task → Task) (id : String) (ts : List Task)
    → ((t : Task) → (change t).id ≡ t.id)
    → any (has_id id) (map change ts) ≡ any (has_id id) ts
any-map change id [] k = refl
any-map change id (t ∷ ts) k = simp (k, any-map change id ts k)

pub IsUnique-map :
    (change : Task → Task) (ts : List Task)
    → ((t : Task) → (change t).id ≡ t.id)
    → IsUnique ts
    → IsUnique (map change ts)
IsUnique-map change [] k u = tt
IsUnique-map change (t ∷ ts) k u = (
  any-map change (change t).id ts k ∙ subst (λ id. any (has_id id) ts ≡ false) (sym (k t)) u.0,
  IsUnique-map change ts k u.1,
)

any-append :
    (id : String) (ts : List Task) (t : Task)
    → any (has_id id) (ts ++ t ∷ []) ≡ (any (has_id id) ts || str_eq t.id id)
any-append id [] t = ground arith
any-append id (u ∷ ts) t = ground (arith, any-append id ts t)

IsUnique-append :
    (ts : List Task) (t : Task)
    → any (has_id t.id) ts ≡ false
    → IsUnique ts
    → IsUnique (ts ++ t ∷ [])
IsUnique-append [] t f u = (refl, tt)
IsUnique-append (x ∷ ts) t f u = (
  ground (arith, any-append x.id ts t, eq_iff t.id x.id, eq_iff x.id t.id),
  IsUnique-append ts t (ground arith) u.1,
)

-- no row of the id, no row of the id and status
absent-rows_affected :
    (id : String) (status : TaskStatus) (ts : List Task)
    → any (has_id id) ts ≡ false
    → rows_affected (with_status id status) ts ≡ 0
absent-rows_affected id status [] f = refl
absent-rows_affected id status (t ∷ ts) f = ground (arith, absent-rows_affected id status ts)

-- The UPDATE of a transition hits one row.
pub rows_affected-eq-one :
    (id : String) (row : Task) (ts : List Task)
    → IsUnique ts
    → select_task id ts ≡ some row
    → rows_affected (with_status id row.status) ts ≡ 1
rows_affected-eq-one id row [] u e = cc
rows_affected-eq-one id row (t ∷ ts) u e = elim (Bool-cases (has_id id t)) [
  | inl h ↦
      let found : some t ≡ some row = rw h at e in
      let same : t ≡ row = cc found in
      let is_id : t.id ≡ id = (eq_iff t.id id).0 h in
      ground (
        arith,
        same,
        absent-rows_affected id row.status ts (subst (λ i. any (has_id i) ts ≡ false) is_id u.0),
      )
  | inr h ↦
      let rest : select_task id ts ≡ some row = rw h at e in
      ground (arith, rows_affected-eq-one id row ts u.1 rest)
]

pub step-IsUnique :
    (ctx : Ctx) (op : Op) (s : Store)
    → IsSound s
    → IsUnique s.tasks
    → IsUnique (step ctx op s).tasks
step-IsUnique ctx op s h u = elim (step_cases ctx op s h.settled) [
  | inl e ↦ rw e.rows (IsUnique-map e.change s.tasks e.keeps.same_id u)
  | inr e ↦ rw e.rows (IsUnique-append s.tasks e.task e.is_fresh u)
]

-- After any operations from a sound store with distinct ids, the ids are distinct: the insertion of a
-- task refuses an id that is in use, and no operation changes one.
pub run-IsUnique :
    (ops : List (Ctx × Op)) (s : Store) → IsSound s → IsUnique s.tasks → IsUnique (run ops s).tasks
unfolding run
run-IsUnique [] s h u = u
run-IsUnique ((ctx, op) ∷ ops) s h u =
    run-IsUnique ops (step ctx op s) (step-IsSound ctx op s h) (step-IsUnique ctx op s h u)
