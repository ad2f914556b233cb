-- ===== src/Engine/Budget.antt =====
-- How the loop of internal/engine/loop.go ends: its budgets, its result and its last checkpoint.
use go_claw.Common.{
  ℕ, zero, suc, ◌+◌, ◌%◌, ◌≤◌, ◌<◌, String, Bool, true, ◌&&◌, Option, none, some, List, [], ◌∷◌,
  ltb, leb, ◌==◌, str_eq, ◌≡◌, ◌⊎◌, inl, inr, refl, ◌∙◌, arith, Bool-cases, Option-cases, find?,
  eq_refl,
}
use go_claw.Engine.Loop.{
  LoopStatus, completed, budget_exceeded, timeout, failed, LoopConfig, Reply, LoopCheckpoint, Loop,
  LoopResult, Ran, checkpoint_of, upsert, save_checkpoint, ended, next_step, with_reply,
  save_running, Pass, stop, again, pass, run_loop, run, limits,
}

-- The row of a loop.
abbrev pub row_of : String → List LoopCheckpoint → Option LoopCheckpoint
row_of loop_id rows = find? (λ d. str_eq d.loop_id loop_id) rows

-- The row of a loop holds the step, the tokens and the status.
abbrev pub Holds : String → ℕ → ℕ → LoopStatus → List LoopCheckpoint → Type 0
Holds loop_id step tokens status rows =
    (row : LoopCheckpoint) × (row_of loop_id rows ≡ some row)
    × (row.current_step ≡ step)
    × (row.tokens_used ≡ tokens)
    × (row.status ≡ status)

upsert-Holds :
    (cp : LoopCheckpoint) (rows : List LoopCheckpoint)
    → Holds cp.loop_id cp.current_step cp.tokens_used cp.status (upsert cp rows)
upsert-Holds cp [] = (cp, rw (eq_refl cp.loop_id), refl, refl, refl)
upsert-Holds cp (d ∷ ds) = elim (Bool-cases (str_eq d.loop_id cp.loop_id)) [
  | inl t ↦ (
    record d { current_step = cp.current_step; tokens_used = cp.tokens_used; status = cp.status },
    rw (t, t),
    refl,
    refl,
    refl,
  )
  | inr f ↦ rw (f, f) (upsert-Holds cp ds)
]

module _ (cfg : LoopConfig) (past_deadline : ℕ → Bool) (model : ℕ → Option Reply) where
  -- Why a run ended.
  pub data Reason (r : LoopResult) : Type 0 where
    out_of_steps : r.status ≡ budget_exceeded → cfg.max_steps ≤ r.steps → Reason r
    out_of_tokens :
        r.status ≡ budget_exceeded → 0 < cfg.max_tokens → cfg.max_tokens ≤ r.tokens → Reason r
    late : r.status ≡ timeout → past_deadline r.steps ≡ true → Reason r
    model_failed : r.status ≡ failed → model r.steps ≡ none → Reason r
    finished :
        (reply : Reply)
        → r.status ≡ completed
        → model r.steps ≡ some reply
        → reply.has_keyword ≡ true
        → r.response ≡ reply.text
        → Reason r

  -- The end of a run that started in `l`.
  pub record Ends (l : Loop) (e : Ran) : Type 0 where
    pub reason : Reason e.result
    pub no_fewer : l.current_step ≤ e.result.steps
    pub within : (e.result.steps ≤ cfg.max_steps) ⊎ (e.result.steps ≡ l.current_step)
    pub saved : Holds l.loop_id e.result.steps e.result.tokens e.result.status e.loop.checkpoints

  -- A pass that goes on has made one more step.
  record Continues (l m : Loop) : Type 0 where
    same_loop : m.loop_id ≡ l.loop_id
    one_more : m.current_step ≡ suc l.current_step
    under : l.current_step < cfg.max_steps

  ended_here :
      (status : LoopStatus) (l k : Loop)
      → k.loop_id ≡ l.loop_id
      → Reason (ended status k).result
      → l.current_step ≤ k.current_step
      → (k.current_step ≤ cfg.max_steps) ⊎ (k.current_step ≡ l.current_step)
      → Ends l (ended status k)
  unfolding save_checkpoint
  ended_here status l k same why low high = record {
    reason = why;
    no_fewer = low;
    within = high;
    saved = rw (← same) (upsert-Holds (checkpoint_of status k) k.checkpoints);
  }

  save_running-Continues : (l k : Loop) → Continues l k → Continues l (save_running cfg k)
  unfolding save_checkpoint
  save_running-Continues l k c = elim (Bool-cases (k.current_step % cfg.checkpoint_interval == 0)) [
    | inl t ↦ rw t (record { same_loop = c.same_loop; one_more = c.one_more; under = c.under })
    | inr f ↦ rw f c
  ]

  data Passed (l : Loop) (p : Pass) : Type 0 where
    stops : (e : Ran) → p ≡ stop e → Ends l e → Passed l p
    goes_on : (m : Loop) → p ≡ again m → Continues l m → Passed l p

  passed : (l : Loop) → Passed l (pass cfg past_deadline model l)
  unfolding pass
  passed l = elim (Bool-cases (leb cfg.max_steps l.current_step)) [
    | inl t ↦ stops _ (rw (pass, t)) (
        ended_here budget_exceeded l l refl (out_of_steps refl (ground arith)) (omega arith)
          (inr refl))
    | inr a ↦ elim (Bool-cases (ltb 0 cfg.max_tokens && leb cfg.max_tokens l.tokens_used)) [
      | inl t ↦ stops _ (rw (pass, a, t)) (
          ended_here budget_exceeded l l refl (out_of_tokens refl (ground arith) (ground arith))
            (omega arith) (inr refl))
      | inr b ↦ elim (Bool-cases (past_deadline l.current_step)) [
        | inl t ↦
            stops _ (rw (pass, a, b, t))
              (ended_here timeout l l refl (late refl t) (omega arith) (inr refl))
        | inr c ↦ elim (Option-cases (model (suc l.current_step))) [
          | inl e ↦ stops _ (rw (pass, a, b, c, e)) (
              ended_here failed l (next_step l) refl (model_failed refl e) (omega arith)
                (inl (ground arith)))
          | inr (r, e) ↦ elim (Bool-cases r.has_keyword) [
            | inl t ↦ stops _ (rw (pass, a, b, c, e, t)) (
                ended_here completed l (with_reply r (next_step l)) refl (finished r refl e t refl)
                  (omega arith) (inl (ground arith)))
            | inr f ↦ goes_on _ (rw (pass, a, b, c, e, f)) (
                save_running-Continues l (with_reply r (next_step l))
                  (record { same_loop = refl; one_more = refl; under = ground arith }))
          ]
        ]
      ]
    ]
  ]

  continues : (l m : Loop) (e : Ran) → Continues l m → Ends m e → Ends l e
  continues l m e c h = record {
    reason = h.reason;
    no_fewer = omega (arith, h.no_fewer, c.one_more);
    within = elim h.within [ inl q ↦ inl q | inr q ↦ inl (omega (arith, c.one_more, c.under, q)) ];
    saved = rw (← c.same_loop) h.saved;
  }

  run_loop-Ends :
      (fuel : ℕ) (l : Loop)
      → cfg.max_steps < fuel + l.current_step
      → 0 < fuel
      → (e : Ran) × (run_loop fuel cfg past_deadline model l ≡ some e) × Ends l e
  unfolding run_loop
  run_loop-Ends zero l h pos = absurd (omega arith)
  run_loop-Ends (suc fuel) l h pos = elim (passed l) [
    | stops e p ends ↦ (e, rw (run_loop, p), ends)
    | goes_on m p c ↦
        let (e, ran, ends) =
          run_loop-Ends fuel m (omega (arith, c.one_more)) (let u = c.under in omega arith) in
        (
          e,
          (let q : run_loop (suc fuel) cfg past_deadline model l
                  ≡ run_loop fuel cfg past_deadline model m =
                rw (run_loop, p) in
              q ∙ ran),
          continues l m e c ends,
        )
  ]

-- `Run` always ends, whatever the model answers and whenever the deadline passes. It makes no step
-- beyond the limit (a resumed loop already beyond it makes none), its status gives the reason it ended
-- for, a completed one carries the reply with the termination keyword, and the loop's checkpoint row
-- then holds that status with the steps and tokens of the result.
pub run-Ends :
    (cfg : LoopConfig) (past_deadline : ℕ → Bool) (model : ℕ → Option Reply) (l : Loop)
    → (e : Ran) × (run cfg past_deadline model l ≡ some e)
      × Ends (limits cfg) past_deadline model l e
unfolding run
run-Ends cfg past_deadline model l =
    run_loop-Ends (limits cfg) past_deadline model (suc (limits cfg).max_steps) l (omega arith)
      (omega arith)
