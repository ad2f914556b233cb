-- ===== src/Workers/Served.antt =====
-- What a pass of a worker does with the task that it claims.
use go_claw.Common.{ℕ, String, true, not, ◌||◌, ◌≡◌, Option, some, List, All, if◌then◌else◌}
use go_claw.Tasks.Model.{Task, select_task, current_timestamp}
use go_claw.Tasks.Lifecycle.{is_claimable}
use go_claw.Tasks.Queue.{ServedBefore}
use go_claw.Tasks.Claimed.{leased}
use go_claw.Tasks.Started.{started}
use go_claw.Tasks.Aborted.{aborted}
use go_claw.Workers.Model.{Engine, World, Other, others}
use go_claw.Workers.Handling.{Course, Texts, is_alive}
use go_claw.Workers.Handled.{settled_row}
use go_claw.Workers.Passes.{Pass}
use go_claw.Workers.Valid.{ready_for}

-- A row with another end of its lease.
abbrev pub renewed : Option ℕ → ℕ → Task → Task
renewed expires at row = record row { lease_expires_at = expires; updated_at = at }

-- Others change nothing of a task's row but the end of its lease, as a heartbeat does.
abbrev pub Spares : List Other → String → Type 0
Spares os id =
    (w : World) (row : Task)
    → select_task id w.store.tasks ≡ some row
    → (expires : Option ℕ) × (at : ℕ) × (select_task id (others os w).store.tasks
        ≡ some (renewed expires at row))

-- The row that the handling of a RUNNING row leaves, on every branch.
abbrev pub handled_row : Texts → Course → String → Task → Task
handled_row texts c id row =
    if not (is_alive c.ended_before) || row.cancel_requested
    then aborted c.before.now row
    else settled_row texts c.after id c.outcome c.ended_after row

-- The row of a claimed task when its handling begins.
abbrev pub taken : Pass → Task → Task
taken p t =
    started p.start_at.now p.policy_version (record (leased p.claim_at.now p.lease_token t) {
      updated_at = current_timestamp p.claim_at.now;
    })

-- The claimed task `t`: none that could be claimed came before it, and the row that the pass leaves.
abbrev pub Serves : Engine → Texts → Pass → World → Task → World → Type 0
Serves engine texts p w task w' =
    (t : Task) × (task ≡ leased p.claim_at.now p.lease_token t)
    × (is_claimable p.claim_at.now engine.agent_id t ≡ true)
    × All (λ u. is_claimable p.claim_at.now engine.agent_id u ≡ true → ServedBefore t u)
        (ready_for p w).store.tasks
    × (select_task t.id w'.store.tasks ≡ some (handled_row texts p.course t.id (taken p t)))
