-- ===== src/Plans/Created.antt =====
-- The first loop of `executeWave`: each step has a task of its own.
use go_claw.Common.{
  String, ◌≡◌, refl, ◌∙◌, ap, sym, true, false, Option, none, some, List, [], ◌∷◌, ◌++◌, All,
  str_eq, eq_iff, eq_refl, arith, Bool-cases, Option-cases, inl, inr, ◌⊎◌, subst,
}
use go_claw.Coordinator.Plan.{PlanStep, contains, ids}
use go_claw.Plans.Router.{Router, IsRouter}
use go_claw.Plans.Waves.{
  Run, Format, step_id_of, tasks_of, resolve_prompt, create_one, create_all, after_create,
  create_task_failed,
}
use go_claw.Plans.Results.{is_done, kept-put, step_id_of-append, tasks_of-append}

-- A task of the step is among the pairs, and they lead from it to the step.
pub record HasTask (pairs : List (String × String)) (step_id : String) : Type 0 where
  pub task : String
  pub listed : contains (tasks_of pairs) task ≡ true
  pub leads : step_id_of task "" pairs ≡ step_id

contains-other :
    (keys : List String) (id new : String)
    → contains keys id ≡ true
    → contains keys new ≡ false
    → str_eq new id ≡ false
contains-other keys id new h f = elim (Bool-cases (str_eq new id)) [
  | inr e ↦ e
  | inl e ↦ cc (sym f ∙ ap (contains keys) ((eq_iff new id).0 e) ∙ h)
]

module _ (router : Router) (format : Format) (laws : IsRouter router) where
  after_create-done :
      (exec_id j : String) (s : PlanStep) (run : Run router format)
      (c : Option String × router.World)
      → str_eq s.id j ≡ false
      → is_done j run.results ≡ true
      → is_done j (after_create router format exec_id s run c).1.results ≡ true
  unfolding after_create
  after_create-done exec_id j s run (none, w) f h = kept-put s.id j _ run.results f h
  after_create-done exec_id j s run (some id, w) f h = kept-put s.id j _ run.results f h

  create_one-done :
      (exec_id session_id j : String) (s : PlanStep) (run : Run router format)
      → str_eq s.id j ≡ false
      → is_done j run.results ≡ true
      → is_done j (create_one router format exec_id session_id s run).1.results ≡ true
  unfolding create_one
  create_one-done exec_id session_id j s run f h = after_create-done exec_id j s run _ f h

  after_create-same :
      (exec_id : String) (s : PlanStep) (run : Run router format) (c : Option String × router.World)
      → ((after_create router format exec_id s run c).0 ≡ c.0)
        × ((after_create router format exec_id s run c).1.world ≡ c.1)
  unfolding after_create
  after_create-same exec_id s run (none, w) = (refl, refl)
  after_create-same exec_id s run (some id, w) = (refl, refl)

  -- The router's laws, of the body of the loop.
  create_one-fresh :
      (exec_id session_id : String) (s : PlanStep) (run : Run router format) (id : String)
      → (create_one router format exec_id session_id s run).0 ≡ some id
      → (contains (router.created run.world) id ≡ false)
        × (router.created (create_one router format exec_id session_id s run).1.world
            ≡ id ∷ router.created run.world)
  unfolding create_one
  create_one-fresh exec_id session_id s run id h =
      let prompt = resolve_prompt format s.prompt run.results in
      let c = router.create_chat_task s.agent_id session_id prompt run.world in
      let (a, b) = after_create-same exec_id s run c in
      let e : c.0 ≡ some id = sym a ∙ h in
      (
        laws.fresh s.agent_id session_id prompt run.world id e,
        ap router.created b ∙ laws.gives s.agent_id session_id prompt run.world id e,
      )

  pub create_all-done :
      (exec_id session_id j : String) (ss : List PlanStep) (pairs : List (String × String))
      (run : Run router format)
      → contains (ids ss) j ≡ false
      → is_done j run.results ≡ true
      → is_done j (create_all router format exec_id session_id ss pairs run).2.results ≡ true
  unfolding create_all
  create_all-done exec_id session_id j [] pairs run f h = h
  create_all-done exec_id session_id j (s ∷ ss) pairs run f h =
      let h' = create_one-done exec_id session_id j s run (ground arith) h in
      elim (Option-cases (create_one router format exec_id session_id s run).0) [
        | inl e ↦ rw (create_all, e) h'
        | inr (id, e) ↦
            rw (create_all, e)
              (create_all-done exec_id session_id j ss (pairs ++ (id, s.id) ∷ [])
                (create_one router format exec_id session_id s run).1 (ground arith) h')
      ]

  -- The pairs' tasks were created.
  abbrev Known : List (String × String) → Run router format → Type 0
  Known pairs run = All (λ id. contains (router.created run.world) id ≡ true) (tasks_of pairs)

  Known-append :
      (pairs : List (String × String)) (id step_id : String) (created created' : List String)
      → created' ≡ id ∷ created
      → All (λ t. contains created t ≡ true) (tasks_of pairs)
      → All (λ t. contains created' t ≡ true) (tasks_of (pairs ++ (id, step_id) ∷ []))
  Known-append [] id step_id created created' e k =
      let self = eq_refl id in (rw e (ground arith), tt)
  Known-append ((t, s) ∷ pairs) id step_id created created' e k =
      (rw e (ground arith), Known-append pairs id step_id created created' e k.1)

  HasTask-append :
      (pairs : List (String × String)) (id step_id j : String) (run : Run router format)
      → contains (router.created run.world) id ≡ false
      → Known pairs run
      → HasTask pairs j
      → HasTask (pairs ++ (id, step_id) ∷ []) j
  HasTask-append pairs id step_id j run f k t =
      let other =
        contains-other (router.created run.world) t.task id (among (tasks_of pairs) k t.listed) f in
      record {
        task = t.task;
        listed = tasks_of-append t.task id step_id pairs (inl t.listed);
        leads = step_id_of-append t.task id step_id "" pairs ∙ (rw other t.leads);
      }
    where
      among :
          (ts : List String)
          → All (λ u. contains (router.created run.world) u ≡ true) ts
          → contains ts t.task ≡ true
          → contains (router.created run.world) t.task ≡ true
      among [] a h = cc h
      among (u ∷ us) a h = elim (Bool-cases (str_eq u t.task)) [
        | inl e ↦ ap (contains (router.created run.world)) (sym ((eq_iff u t.task).0 e)) ∙ a.0
        | inr e ↦ among us a.1 (ground arith)
      ]

  HasTask-new :
      (pairs : List (String × String)) (id step_id : String)
      → HasTask (pairs ++ (id, step_id) ∷ []) step_id
  HasTask-new pairs id step_id =
      let self = eq_refl id in
      record {
        task = id;
        listed = tasks_of-append id id step_id pairs (inr self);
        leads = step_id_of-append id id step_id "" pairs ∙ (rw self refl);
      }

  -- Without an error, every step has a task, and those that had one keep it.
  pub create_all-HasTask :
      (exec_id session_id j : String) (ss : List PlanStep) (pairs : List (String × String))
      (run : Run router format)
      → Known pairs run
      → (create_all router format exec_id session_id ss pairs run).0 ≡ none
      → HasTask pairs j ⊎ (contains (ids ss) j ≡ true)
      → HasTask (create_all router format exec_id session_id ss pairs run).1 j
  unfolding create_all
  create_all-HasTask exec_id session_id j [] pairs run k n (inl t) = t
  create_all-HasTask exec_id session_id j [] pairs run k n (inr h) = cc h
  create_all-HasTask exec_id session_id j (s ∷ ss) pairs run k n t =
      let one = create_one router format exec_id session_id s run in
      elim (Option-cases one.0) [
        | inl e ↦ let q : some (create_task_failed s.id) ≡ none = rw (create_all, e) at n in cc q
        | inr (id, e) ↦
            let (f, g) = create_one-fresh exec_id session_id s run id e in
            let n' = rw (create_all, e) at n in
            let k' = Known-append pairs id s.id (router.created run.world) _ g k in
            rw (create_all, e)
              (create_all-HasTask exec_id session_id j ss (pairs ++ (id, s.id) ∷ []) one.1 k' n'
                (elim t [
                  | inl old ↦ inl (HasTask-append pairs id s.id j run f k old)
                  | inr h ↦ elim (Bool-cases (str_eq s.id j)) [
                    | inl same ↦ inl (
                        subst (HasTask (pairs ++ (id, s.id) ∷ [])) ((eq_iff s.id j).0 same)
                          (HasTask-new pairs id s.id))
                    | inr other ↦ inr (ground arith)
                  ]
                ]))
      ]
