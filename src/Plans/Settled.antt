-- ===== src/Plans/Settled.antt =====
-- The second loop of `executeWave`: the results of the tasks become those of their steps.
use go_claw.Common.{
  String, Bool, ◌≡◌, refl, ◌∙◌, ap, true, false, ◌&&◌, Option, none, some, List, [], ◌∷◌, any, All,
  str_eq, eq_iff, ltb, arith, Bool-cases, inl, inr, ◌⊎◌,
}
use go_claw.Coordinator.Plan.{PlanStep}
use go_claw.Plans.Records.{publish}
use go_claw.Plans.Router.{TaskResult, Router, IsRouter, is_terminal_status}
use go_claw.Plans.Waves.{
  Run, Format, step_result, step_id_of, step_of, zero_step, max_retries_of, retried, retry_created,
  after_retry, store_result, settle_one, settle_all,
}
use go_claw.Plans.Results.{is_done, done-put}

module _ (router : Router) (format : Format) (laws : IsRouter router) where
  -- Of an ended task, and with the results and the rows of the steps of before.
  abbrev pub Ends : Run router format → TaskResult × Run router format → Type 0
  Ends run (tr, run') =
      (is_terminal_status tr.status ≡ true)
      × (run'.results ≡ run.results)
      × (run'.tables.steps ≡ run.tables.steps)

  after_retry-Ends :
      (exec_id step_id : String) (tr : TaskResult) (run : Run router format) (failed : Bool)
      (ts : List TaskResult) (w : router.World)
      → is_terminal_status tr.status ≡ true
      → All (λ t. is_terminal_status t.status ≡ true) ts
      → Ends run (after_retry router format exec_id step_id tr run failed ts w)
  unfolding after_retry publish
  after_retry-Ends exec_id step_id tr run false (t ∷ ts) w h a = (a.0, refl, refl)
  after_retry-Ends exec_id step_id tr run false [] w h a = (h, refl, refl)
  after_retry-Ends exec_id step_id tr run true ts w h a = (h, refl, refl)

  retry_created-Ends :
      (exec_id step_id : String) (tr : TaskResult) (run : Run router format)
      (c : Option String × router.World)
      → is_terminal_status tr.status ≡ true
      → Ends run (retry_created router format exec_id step_id tr run c)
  unfolding retry_created
  retry_created-Ends exec_id step_id tr run (none, w) h = (h, refl, refl)
  retry_created-Ends exec_id step_id tr run (some id, w) h =
      after_retry-Ends exec_id step_id tr run _ _ _ h (laws.ended (id ∷ []) w)

  pub retried-Ends :
      (exec_id session_id : String) (s : PlanStep) (step_id : String) (tr : TaskResult)
      (run : Run router format)
      → is_terminal_status tr.status ≡ true
      → Ends run (retried router format exec_id session_id s step_id tr run)
  unfolding retried
  retried-Ends exec_id session_id s step_id tr run h =
      elim (Bool-cases (str_eq tr.status "FAILED" && ltb 0 (max_retries_of s))) [
        | inl e ↦ rw e (retry_created-Ends exec_id step_id tr run _ h)
        | inr e ↦ rw e (h, refl, refl)
      ]

  store_result-done :
      (exec_id step_id j : String) (run : Run router format) (r : TaskResult × Run router format)
      → Ends run r
      → (str_eq step_id j ≡ true) ⊎ (is_done j run.results ≡ true)
      → is_done j (store_result router format exec_id step_id r).results ≡ true
  unfolding store_result
  store_result-done exec_id step_id j run (tr, run') e h =
      done-put step_id j (step_result tr) run'.results e.0
        (elim h [ inl k ↦ inl k | inr k ↦ inr (ap (is_done j) e.1 ∙ k) ])

  -- A result makes the step of its task done, and leaves the steps that are done so.
  settle_one-done :
      (exec_id session_id j : String) (steps : List PlanStep) (pairs : List (String × String))
      (tr : TaskResult) (run : Run router format)
      → is_terminal_status tr.status ≡ true
      → (str_eq (step_id_of tr.task_id "" pairs) j ≡ true) ⊎ (is_done j run.results ≡ true)
      → is_done j (settle_one router format exec_id session_id steps pairs tr run).results ≡ true
  unfolding settle_one
  settle_one-done exec_id session_id j steps pairs tr run t h =
      let id = step_id_of tr.task_id "" pairs in
      let s = step_of id zero_step steps in
      store_result-done exec_id id j run (retried router format exec_id session_id s id tr run)
        (retried-Ends exec_id session_id s id tr run t) h

  -- A step is done after the loop if it was before, or if one of the results is of its task.
  pub settle_all-done :
      (exec_id session_id j task : String) (steps : List PlanStep) (pairs : List (String × String))
      (trs : List TaskResult) (run : Run router format)
      → All (λ t. is_terminal_status t.status ≡ true) trs
      → str_eq (step_id_of task "" pairs) j ≡ true
      → (any (λ t. str_eq t.task_id task) trs ≡ true) ⊎ (is_done j run.results ≡ true)
      → is_done j (settle_all router format exec_id session_id steps pairs trs run).results ≡ true
  unfolding settle_all
  settle_all-done exec_id session_id j task steps pairs [] run a m (inl h) = cc h
  settle_all-done exec_id session_id j task steps pairs [] run a m (inr h) = h
  settle_all-done exec_id session_id j task steps pairs (tr ∷ trs) run a m h =
      settle_all-done exec_id session_id j task steps pairs trs
        (settle_one router format exec_id session_id steps pairs tr run) a.1 m
        (elim (Bool-cases (str_eq tr.task_id task)) [
          | inl e ↦
              let same : step_id_of tr.task_id "" pairs ≡ step_id_of task "" pairs =
                ap (λ id. step_id_of id "" pairs) ((eq_iff tr.task_id task).0 e) in
              inr (
                settle_one-done exec_id session_id j steps pairs tr run a.0
                  (inl (ap (λ id. str_eq id j) same ∙ m)))
          | inr e ↦ elim h [
            | inl k ↦ inl (ground arith)
            | inr k ↦ inr (settle_one-done exec_id session_id j steps pairs tr run a.0 (inr k))
          ]
        ])

  pub settle_all-keeps :
      (exec_id session_id j : String) (steps : List PlanStep) (pairs : List (String × String))
      (trs : List TaskResult) (run : Run router format)
      → All (λ t. is_terminal_status t.status ≡ true) trs
      → is_done j run.results ≡ true
      → is_done j (settle_all router format exec_id session_id steps pairs trs run).results ≡ true
  unfolding settle_all
  settle_all-keeps exec_id session_id j steps pairs [] run a h = h
  settle_all-keeps exec_id session_id j steps pairs (tr ∷ trs) run a h =
      settle_all-keeps exec_id session_id j steps pairs trs
        (settle_one router format exec_id session_id steps pairs tr run) a.1
        (settle_one-done exec_id session_id j steps pairs tr run a.0 (inr h))
