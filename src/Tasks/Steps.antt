-- ===== src/Tasks/Steps.antt =====
-- What holds of a row of `tasks` between two operations, and the abstract step that every operation
-- of internal/persistence/tasks.go takes: rows change one by one and keep their ids, final rows keep
-- their status, and the log grows by legal transitions.
use go_claw.Common.{
  ◌≤◌, ◌<◌, ◌≡◌, refl, ap, ◌∙◌, sym, ◌≢◌, ◌⊎◌, Bool, true, false, Option, none, some, List, [], ◌∷◌,
  ◌++◌, map, All, All-append,
}
use mathlib.Core.List.{append-nil, append_assoc, map-map}
use go_claw.Tasks.Model.{
  TaskStatus, queued, retry_wait, succeeded, failed, canceled, dead_letter, Task, TaskEvent, Store,
  Result, ok, err, if_row, update_tasks, poison_threshold,
}
use go_claw.Tasks.Transition.{can_transition, commit}
use go_claw.Tasks.Recovery.{in_flight}

-- The states that no transition leaves.
abbrev pub is_absorbing : TaskStatus → Bool
is_absorbing succeeded = true
is_absorbing canceled = true
is_absorbing dead_letter = true
is_absorbing _ = false

-- `isTerminalStatus` of internal/coordinator/waiter.go
abbrev pub is_terminal_status : TaskStatus → Bool
is_terminal_status succeeded = true
is_terminal_status failed = true
is_terminal_status canceled = true
is_terminal_status dead_letter = true
is_terminal_status _ = false

abbrev pub is_some : {A : Type 0} → Option A → Bool
is_some none = false
is_some (some a) = true

-- A row at rest, between two operations.
pub record IsSettled (t : Task) : Type 0 where
  pub owner_iff : is_some t.lease_owner ≡ in_flight t
  pub expiry_iff : is_some t.lease_expires_at ≡ in_flight t
  pub not_waiting : t.status ≢ retry_wait
  pub attempts : t.attempt ≤ t.max_attempts
  pub attempts_left : is_terminal_status t.status ≡ false → t.attempt < t.max_attempts
  pub not_poisoned : is_terminal_status t.status ≡ false → t.poison_count < poison_threshold
  pub buried :
      t.status ≡ dead_letter → (t.attempt ≡ t.max_attempts) ⊎ (poison_threshold ≤ t.poison_count)

abbrev pub IsLegal : TaskEvent → Type 0
IsLegal e = elim e.state_from [
  | none ↦ e.state_to ≡ queued
  | some from ↦ can_transition from e.state_to ≡ true
]

pub record KeepsRows (change : Task → Task) : Type 0 where
  pub same_id : (t : Task) → (change t).id ≡ t.id
  pub stays_final : (t : Task) → is_absorbing t.status ≡ true → (change t).status ≡ t.status
  pub settled : (t : Task) → IsSettled t → IsSettled (change t)

-- The rows change by `change`, and `logged` is appended to the events.
pub record Evolves (s s' : Store) : Type 0 where
  pub change : Task → Task
  pub keeps : KeepsRows change
  pub logged : List TaskEvent
  pub rows : s'.tasks ≡ map change s.tasks
  pub events : s'.task_events ≡ s.task_events ++ logged
  pub legal : All IsLegal logged

map_id : (ts : List Task) → map (λ t. t) ts ≡ ts
map_id [] = refl
map_id (t ∷ ts) = ap (λ r. t ∷ r) (map_id ts)

pub KeepsRows-compose : (g f : Task → Task) → KeepsRows f → KeepsRows g → KeepsRows (λ t. g (f t))
KeepsRows-compose g f kf kg = record {
  same_id = λ t. kg.same_id (f t) ∙ kf.same_id t;
  stays_final =
      λ t h. kg.stays_final (f t) (ap is_absorbing (kf.stays_final t h) ∙ h) ∙ kf.stays_final t h;
  settled = λ t h. kg.settled (f t) (kf.settled t h);
}

pub Evolves-same :
    (s s' : Store) → s'.tasks ≡ s.tasks → s'.task_events ≡ s.task_events → Evolves s s'
Evolves-same s s' r e = record {
  change = λ t. t;
  keeps = record { same_id = λ t. refl; stays_final = λ t h. refl; settled = λ t h. h };
  logged = [];
  rows = r ∙ sym (map_id s.tasks);
  events = e ∙ sym (append-nil s.task_events);
  legal = tt;
}

pub Evolves-trans : (s s' s'' : Store) → Evolves s s' → Evolves s' s'' → Evolves s s''
Evolves-trans s s' s'' a b = record {
  change = λ t. b.change (a.change t);
  keeps = KeepsRows-compose b.change a.change a.keeps b.keeps;
  logged = a.logged ++ b.logged;
  rows = b.rows ∙ ap (map b.change) a.rows ∙ map-map b.change a.change s.tasks;
  events =
      b.events ∙ ap (λ es. es ++ b.logged) a.events ∙ append_assoc s.task_events a.logged b.logged;
  legal = All-append IsLegal a.logged b.logged a.legal b.legal;
}

-- An UPDATE with no event.
pub Evolves-update :
    (s s' : Store) (test : Task → Bool) (change : Task → Task)
    → KeepsRows (if_row test change)
    → s'.tasks ≡ update_tasks test change s.tasks
    → s'.task_events ≡ s.task_events
    → Evolves s s'
Evolves-update s s' test change k r e = record {
  change = if_row test change;
  keeps = k;
  logged = [];
  rows = r;
  events = e ∙ sym (append-nil s.task_events);
  legal = tt;
}

-- A step, unless the transaction ends in an error.
abbrev pub EvolvesIf : {A : Type 0} → Store → Result (A × Store) → Type 0
EvolvesIf s (ok (a, s')) = Evolves s s'
EvolvesIf s (err e) = Unit

pub EvolvesIf-trans :
    {A : Type 0} (s s' : Store) (r : Result (A × Store))
    → Evolves s s'
    → EvolvesIf s' r
    → EvolvesIf s r
EvolvesIf-trans s s' (ok (a, s'')) p q = Evolves-trans s s' s'' p q
EvolvesIf-trans s s' (err e) p q = tt

-- Commit, or the rollback.
pub Evolves-commit :
    {A : Type 0} (s : Store) (r : Result (A × Store)) → EvolvesIf s r → Evolves s (commit s r).1
Evolves-commit s (ok (a, s')) p = p
Evolves-commit s (err e) p = Evolves-same s s refl refl
