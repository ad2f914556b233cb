-- ===== src/Engine/Loop.antt =====
-- `LoopRunner.Run` of internal/engine/loop.go and the loop_checkpoints of internal/persistence/loops.go.
-- What a step's model call answers and whether the deadline has passed are arguments, by step. The
-- prompt and the stream.token events of a reply's chunks are left out.
use go_claw.Common.{
  ℕ, zero, suc, ◌+◌, ◌/◌, ◌%◌, String, Bool, ◌&&◌, Option, none, some, List, [], ◌∷◌, ◌++◌, ltb,
  leb, ◌==◌, str_eq, if◌then◌else◌,
}

pub data LoopStatus : Type 0 where
  running completed budget_exceeded timeout failed cancelled : LoopStatus

pub record LoopConfig : Type 0 where
  pub max_steps : ℕ
  pub max_tokens : ℕ
  pub checkpoint_interval : ℕ

abbrev or_default : ℕ → ℕ → ℕ
or_default n default = if n == 0 then default else n

-- The limits of a run, defaults filled in.
unfoldable pub limits : LoopConfig → LoopConfig
limits cfg = record {
  max_steps = or_default cfg.max_steps 25;
  max_tokens = or_default cfg.max_tokens 100000;
  checkpoint_interval = or_default cfg.checkpoint_interval 1;
}

-- A reply's text, its length in bytes, and whether it contains the termination keyword.
pub record Reply : Type 0 where
  pub text : String
  pub len : ℕ
  pub has_keyword : Bool

pub record LoopCheckpoint : Type 0 where
  pub loop_id : String
  pub task_id : String
  pub current_step : ℕ
  pub tokens_used : ℕ
  pub started_at : ℕ
  pub status : LoopStatus

pub data Event : Type 0 where
  loop_started : ℕ → Event
  loop_step : ℕ → Event
  loop_ended : ℕ → LoopStatus → Event

-- The loop's variables, its checkpoints (the last saved first) and the events it published.
pub record Loop : Type 0 where
  pub loop_id : String
  pub task_id : String
  pub current_step : ℕ
  pub tokens_used : ℕ
  pub started_at : ℕ
  pub last_response : String
  pub checkpoints : List LoopCheckpoint
  pub events : List Event

pub record LoopResult : Type 0 where
  pub status : LoopStatus
  pub steps : ℕ
  pub tokens : ℕ
  pub response : String

pub record Ran : Type 0 where
  pub loop : Loop
  pub result : LoopResult

abbrev pub checkpoint_of : LoopStatus → Loop → LoopCheckpoint
checkpoint_of status l = record {
  loop_id = l.loop_id;
  task_id = l.task_id;
  current_step = l.current_step;
  tokens_used = l.tokens_used;
  started_at = l.started_at;
  status = status;
}

-- SaveLoopCheckpoint: one row per loop, of which a conflict updates three columns
abbrev pub upsert : LoopCheckpoint → List LoopCheckpoint → List LoopCheckpoint
upsert cp [] = cp ∷ []
upsert cp (d ∷ ds) =
    let rest = upsert cp ds in
    if str_eq d.loop_id cp.loop_id
    then record d {
      current_step = cp.current_step;
      tokens_used = cp.tokens_used;
      status = cp.status;
    }
      ∷ ds
    else d ∷ rest

unfoldable pub save_checkpoint : LoopStatus → Loop → Loop
save_checkpoint status l = record {
  loop_id = l.loop_id;
  task_id = l.task_id;
  current_step = l.current_step;
  tokens_used = l.tokens_used;
  started_at = l.started_at;
  last_response = l.last_response;
  checkpoints = upsert (checkpoint_of status l) l.checkpoints;
  events = l.events;
}

abbrev pub publish : Event → Loop → Loop
publish e l = record {
  loop_id = l.loop_id;
  task_id = l.task_id;
  current_step = l.current_step;
  tokens_used = l.tokens_used;
  started_at = l.started_at;
  last_response = l.last_response;
  checkpoints = l.checkpoints;
  events = l.events ++ e ∷ [];
}

-- Checkpoint, event and result of a loop that ends.
abbrev pub ended : LoopStatus → Loop → Ran
ended status l = record {
  loop = publish (loop_ended l.current_step status) (save_checkpoint status l);
  result = record {
    status = status;
    steps = l.current_step;
    tokens = l.tokens_used;
    response = l.last_response;
  };
}

-- currentStep++, and its event
abbrev pub next_step : Loop → Loop
next_step l = publish (loop_step (suc l.current_step)) (record {
  loop_id = l.loop_id;
  task_id = l.task_id;
  current_step = suc l.current_step;
  tokens_used = l.tokens_used;
  started_at = l.started_at;
  last_response = l.last_response;
  checkpoints = l.checkpoints;
  events = l.events;
})

-- tokensUsed += len(reply) / 4; lastResponse = reply
abbrev pub with_reply : Reply → Loop → Loop
with_reply r l = record {
  loop_id = l.loop_id;
  task_id = l.task_id;
  current_step = l.current_step;
  tokens_used = l.tokens_used + r.len / 4;
  started_at = l.started_at;
  last_response = r.text;
  checkpoints = l.checkpoints;
  events = l.events;
}

abbrev pub save_running : LoopConfig → Loop → Loop
save_running cfg l =
    if l.current_step % cfg.checkpoint_interval == 0 then save_checkpoint running l else l

-- What one pass of the loop comes to.
pub data Pass : Type 0 where
  stop : Ran → Pass
  again : Loop → Pass

-- `cfg` is what `limits` gives; the deadline and the model are asked before and in each step.
unfoldable pub pass : LoopConfig → (ℕ → Bool) → (ℕ → Option Reply) → Loop → Pass
unfolding save_checkpoint
pass cfg past_deadline model l =
    if leb cfg.max_steps l.current_step
    then stop (ended budget_exceeded l)
    else if ltb 0 cfg.max_tokens && leb cfg.max_tokens l.tokens_used
    then stop (ended budget_exceeded l)
    else if past_deadline l.current_step
    then stop (ended timeout l)
    else elim (model (suc l.current_step)) [
      | none ↦ stop (ended failed (next_step l))
      | some r ↦
          if r.has_keyword
          then stop (ended completed (with_reply r (next_step l)))
          else again (save_running cfg (with_reply r (next_step l)))
    ]

-- The loop, on fuel: none when it has run out.
unfoldable pub run_loop : ℕ → LoopConfig → (ℕ → Bool) → (ℕ → Option Reply) → Loop → Option Ran
unfolding pass
run_loop zero cfg past_deadline model l = none
run_loop (suc fuel) cfg past_deadline model l = elim (pass cfg past_deadline model l) [
  | stop r ↦ some r
  | again m ↦ run_loop fuel cfg past_deadline model m
]

-- A new loop, or one resumed from its checkpoint.
abbrev pub start : String → String → ℕ → List LoopCheckpoint → Option LoopCheckpoint → Loop
start new_id task_id now rows none = record {
  loop_id = new_id;
  task_id = task_id;
  current_step = 0;
  tokens_used = 0;
  started_at = now;
  last_response = "";
  checkpoints = rows;
  events = loop_started 0 ∷ [];
}
start new_id task_id now rows (some cp) = record {
  loop_id = cp.loop_id;
  task_id = task_id;
  current_step = cp.current_step;
  tokens_used = cp.tokens_used;
  started_at = cp.started_at;
  last_response = "";
  checkpoints = rows;
  events = loop_started cp.current_step ∷ [];
}

-- `Run`; each step counts towards the limit, so one more pass than the limit is enough.
unfoldable pub run : LoopConfig → (ℕ → Bool) → (ℕ → Option Reply) → Loop → Option Ran
unfolding run_loop limits
run cfg past_deadline model l =
    run_loop (suc (limits cfg).max_steps) (limits cfg) past_deadline model l
