-- ===== src/Engine/Resumption.antt =====
-- A loop resumed from its checkpoint goes on like the loop that saved it.
use go_claw.Common.{
  ℕ, zero, suc, ◌+◌, ◌/◌, String, Bool, true, false, ◌&&◌, Option, none, some, List, [], ◌∷◌, ltb,
  leb, str_eq, ◌≡◌, ◌⊎◌, inl, inr, refl, ap, arith, Bool-cases, Option-cases, All, eq_iff, eq_refl,
}
use go_claw.Engine.Loop.{
  LoopStatus, running, failed, completed, LoopConfig, Reply, LoopCheckpoint, Loop, Ran,
  checkpoint_of, upsert, save_checkpoint, next_step, with_reply, save_running, Pass, stop, again,
  pass, run_loop, run, limits, start,
}
use go_claw.Engine.Checkpoints.{is_candidate, load_loop_checkpoint}

-- Two loops at the same step with the same tokens.
abbrev pub SameProgress : Loop → Loop → Type 0
SameProgress l m = (m.current_step ≡ l.current_step) × (m.tokens_used ≡ l.tokens_used)

-- Status, steps and tokens of a result.
abbrev pub outcome_of : Option Ran → Option (LoopStatus × ℕ × ℕ)
outcome_of none = none
outcome_of (some e) = some (e.result.status, e.result.steps, e.result.tokens)

abbrev Agrees : Pass → Pass → Type 0
Agrees (stop a) (stop b) = outcome_of (some b) ≡ outcome_of (some a)
Agrees (again l) (again m) = SameProgress l m
Agrees _ _ = ⊥

save_running-same :
    (cfg : LoopConfig) (l m : Loop)
    → SameProgress l m
    → SameProgress (save_running cfg l) (save_running cfg m)
unfolding save_checkpoint
save_running-same cfg l m (p, q) = (ground (arith, p), ground (arith, q))

module _ (cfg : LoopConfig) (past_deadline : ℕ → Bool) (model : ℕ → Option Reply) where
  pass-Agrees :
      (l m : Loop)
      → SameProgress l m
      → Agrees (pass cfg past_deadline model l) (pass cfg past_deadline model m)
  unfolding pass save_checkpoint
  pass-Agrees l m (p, q) = elim (Bool-cases (leb cfg.max_steps l.current_step)) [
    | inl t ↦ rw (p, t) (rw q refl)
    | inr a ↦ elim (Bool-cases (ltb 0 cfg.max_tokens && leb cfg.max_tokens l.tokens_used)) [
      | inl t ↦ rw (p, q, a, t) refl
      | inr b ↦ elim (Bool-cases (past_deadline l.current_step)) [
        | inl t ↦ rw (p, q, a, b, t) refl
        | inr c ↦ elim (Option-cases (model (suc l.current_step))) [
          | inl e ↦ rw (p, q, a, b, c, e) (λ i. some (failed, suc (p i), q i))
          | inr (r, e) ↦ elim (Bool-cases r.has_keyword) [
            | inl t ↦ rw (p, q, a, b, c, e, t) (λ i. some (completed, suc (p i), q i + r.len / 4))
            | inr f ↦
                rw (p, q, a, b, c, e, f)
                  (save_running-same cfg (with_reply r (next_step l)) (with_reply r (next_step m))
                    (ap suc p, ground (arith, q)))
          ]
        ]
      ]
    ]
  ]

  after_pass-same :
      (rest : Loop → Option Ran)
      → ((k j : Loop) → SameProgress k j → outcome_of (rest j) ≡ outcome_of (rest k))
      → (p q : Pass) → Agrees p q
      → outcome_of (elim q [ stop r ↦ some r | again k ↦ rest k ])
        ≡ outcome_of (elim p [ stop r ↦ some r | again k ↦ rest k ])
  after_pass-same rest f (stop a) (stop b) h = h
  after_pass-same rest f (again k) (again j) h = f k j h
  after_pass-same rest f (stop a) (again j) h = absurd h
  after_pass-same rest f (again k) (stop b) h = absurd h

  run_loop-same :
      (fuel : ℕ) (l m : Loop)
      → SameProgress l m
      → outcome_of (run_loop fuel cfg past_deadline model m)
        ≡ outcome_of (run_loop fuel cfg past_deadline model l)
  unfolding run_loop
  run_loop-same zero l m h = refl
  run_loop-same (suc fuel) l m h =
      after_pass-same (λ k. run_loop fuel cfg past_deadline model k)
        (λ k j e. run_loop-same fuel k j e) (pass cfg past_deadline model l)
        (pass cfg past_deadline model m) (pass-Agrees l m h)

-- No row of a task is that of a running loop, but for the one row that a loop of its own may have.
abbrev pub OnlyLoop : String → String → List LoopCheckpoint → Type 0
OnlyLoop loop_id task_id [] = Unit
OnlyLoop loop_id task_id (d ∷ ds) =
    ((str_eq d.loop_id loop_id ≡ true)
      × (d.task_id ≡ task_id)
      × All (λ e. is_candidate task_id e ≡ false) ds)
    ⊎ ((str_eq d.loop_id loop_id ≡ false)
        × (is_candidate task_id d ≡ false)
        × OnlyLoop loop_id task_id ds)

-- A checkpoint with this loop's id and progress.
abbrev pub Restores : Loop → Option LoopCheckpoint → Type 0
Restores l none = ⊥
Restores l (some cp) =
    (str_eq cp.loop_id l.loop_id ≡ true)
    × (cp.current_step ≡ l.current_step)
    × (cp.tokens_used ≡ l.tokens_used)

none_loaded :
    (updated_at : String → ℕ) (task_id : String) (ds : List LoopCheckpoint)
    → All (λ e. is_candidate task_id e ≡ false) ds
    → load_loop_checkpoint updated_at task_id ds ≡ none
unfolding load_loop_checkpoint
none_loaded updated_at task_id [] a = refl
none_loaded updated_at task_id (d ∷ ds) a =
    rw (load_loop_checkpoint, a.0) (none_loaded updated_at task_id ds a.1)

load-saved :
    (updated_at : String → ℕ) (l : Loop) (rows : List LoopCheckpoint)
    → OnlyLoop l.loop_id l.task_id rows
    → Restores l (load_loop_checkpoint updated_at l.task_id (upsert (checkpoint_of running l) rows))
unfolding load_loop_checkpoint
load-saved updated_at l [] h =
    let self = eq_refl l.loop_id in
    let task = eq_refl l.task_id in rw (load_loop_checkpoint, task) (self, refl, refl)
load-saved updated_at l (d ∷ ds) (inl (same, task, others)) =
    let e : str_eq d.task_id l.task_id ≡ true = (eq_iff d.task_id l.task_id).1 task in
    let n = none_loaded updated_at l.task_id ds others in rw (same, e, n) (same, refl, refl)
load-saved updated_at l (d ∷ ds) (inr (other, idle, rest)) =
    rw (other, idle) (load-saved updated_at l ds rest)

resumed-same :
    (cfg : LoopConfig) (past_deadline : ℕ → Bool) (model : ℕ → Option Reply) (new_id : String)
    (now : ℕ) (rows : List LoopCheckpoint) (l : Loop) (cp : Option LoopCheckpoint)
    → Restores l cp
    → (str_eq (start new_id l.task_id now rows cp).loop_id l.loop_id ≡ true)
      × (outcome_of (run cfg past_deadline model (start new_id l.task_id now rows cp))
          ≡ outcome_of (run cfg past_deadline model l))
unfolding run
resumed-same cfg past_deadline model new_id now rows l none h = absurd h
resumed-same cfg past_deadline model new_id now rows l (some cp) (a, b, c) = (
  a,
  run_loop-same (limits cfg) past_deadline model (suc (limits cfg).max_steps) l
      (start new_id l.task_id now rows (some cp)) (b, c),
)

-- A loop saves a checkpoint and the program stops. If no other loop of the task is running, the loop
-- that is then resumed from the stored row has the same id, and it ends with the status, the number of
-- steps and the tokens with which the loop would have ended without the stop, for the same answers of
-- the model and the same deadline.
pub load_loop_checkpoint-resumes :
    (cfg : LoopConfig) (past_deadline : ℕ → Bool) (model : ℕ → Option Reply)
    (updated_at : String → ℕ) (new_id : String) (now : ℕ) (l : Loop)
    → OnlyLoop l.loop_id l.task_id l.checkpoints
    → let rows = (save_checkpoint running l).checkpoints in
      let resumed =
        start new_id l.task_id now rows (load_loop_checkpoint updated_at l.task_id rows) in
      (str_eq resumed.loop_id l.loop_id ≡ true)
      × (outcome_of (run cfg past_deadline model resumed)
          ≡ outcome_of (run cfg past_deadline model l))
unfolding save_checkpoint
load_loop_checkpoint-resumes cfg past_deadline model updated_at new_id now l h =
    resumed-same cfg past_deadline model new_id now (upsert (checkpoint_of running l) l.checkpoints)
      l (load_loop_checkpoint updated_at l.task_id (upsert (checkpoint_of running l) l.checkpoints))
      (load-saved updated_at l l.checkpoints h)
