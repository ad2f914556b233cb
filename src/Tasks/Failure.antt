-- ===== src/Tasks/Failure.antt =====
-- `retryDelay`, `errorFingerprint` and `HandleTaskFailure` of internal/persistence/tasks.go.
use Prim.Native.Nat.{bit_xor}
use Prim.Native.Char.{code}
use Prim.Native.String as S
use go_claw.Common.{
  ℕ, zero, suc, ◌+◌, ◌-◌, ◌*◌, ◌/◌, ◌%◌, ◌^◌, String, Bool, true, false, not, Option, none, some,
  List, [], ◌∷◌, ◌++◌, ltb, leb, ◌==◌, if◌then◌else◌,
}
use go_claw.Tasks.Model.{
  running, retry_wait, failed, dead_letter, queued, status_eq, Task, exhausted, with_code, backoff,
  Ctx, Store, Result, ok, no_rows, select_task, default_max_attempts, retry_base_delay,
  retry_max_delay, poison_threshold, reason_retry_processor_error, reason_dead_letter_poison_pill,
  reason_dead_letter_max_attempts,
}
use go_claw.Tasks.Transition.{
  Tx, raise, ◌>>=◌, ◌>>◌, with_tx, exec_update, with_status, transition_task_tx,
}
use go_claw.Tasks.Finish.{clear_lease}

-- The bytes of an ASCII text.
abbrev bytes : String → List ℕ
bytes S.[] = []
bytes (S.◌∷◌ c s) = code c ∷ bytes s

-- hash/fnv's New64a, whose Sum64 `hashString` writes in hexadecimal
fnv : ℕ → List ℕ → ℕ
fnv h [] = h
fnv h (b ∷ bs) = fnv (bit_xor h b * 1099511628211 % 2 ^ 64) bs

unfoldable pub hash_string : List ℕ → ℕ
unfolding fnv
hash_string = fnv 14695981039346656037

take_bytes : ℕ → List ℕ → List ℕ
take_bytes zero bs = []
take_bytes (suc n) [] = []
take_bytes (suc n) (b ∷ bs) = b ∷ take_bytes n bs

-- `normalized` holds the bytes of strings.ToLower(strings.TrimSpace(errMsg)).
unfoldable pub error_fingerprint : List ℕ → ℕ
unfolding hash_string take_bytes
error_fingerprint normalized = hash_string (take_bytes 512 normalized)

-- strconv.Itoa, with fuel
itoa : ℕ → ℕ → List ℕ
itoa zero n = []
itoa (suc fuel) n =
    let rest = itoa fuel (n / 10) in if ltb n 10 then (48 + n) ∷ [] else rest ++ (48 + n % 10) ∷ []

-- The number that the first eight hexadecimal digits of a hash write.
top_digits : ℕ → ℕ → ℕ
top_digits zero h = h
top_digits (suc fuel) h = let rest = top_digits fuel (h / 16) in if ltb h (16 ^ 8) then h else rest

-- The loop of `retryDelay`, over the rounds left.
unfoldable pub doubled : ℕ → ℕ → ℕ
doubled zero base = base
doubled (suc rounds) base =
    let rest = doubled rounds (base * 2) in
    if leb retry_max_delay (base * 2) then retry_max_delay else rest

unfoldable pub retry_base : ℕ → ℕ
unfolding doubled
retry_base attempt =
    let base = doubled (attempt - 1) retry_base_delay in
    if ltb retry_max_delay base then retry_max_delay else base

unfoldable pub jitter_source : String → ℕ → ℕ
unfolding top_digits hash_string itoa
jitter_source task_id attempt =
    top_digits 8 (hash_string (bytes task_id ++ b':' ∷ itoa (suc attempt) attempt))

unfoldable pub add_jitter : ℕ → ℕ → ℕ
add_jitter base source =
    let jitter_max = (if base / 2 == 0 then 1_000_000 else base / 2) in
    let delay = base + source % jitter_max in
    if ltb retry_max_delay delay then retry_max_delay else delay

abbrev pub at_least_one : ℕ → ℕ
at_least_one attempt = if ltb attempt 1 then 1 else attempt

unfoldable pub retry_delay : String → ℕ → ℕ
unfolding retry_base jitter_source add_jitter
retry_delay task_id attempt =
    add_jitter (retry_base (at_least_one attempt)) (jitter_source task_id (at_least_one attempt))

pub data FailureOutcome : Type 0 where
  retried moved_to_dead_letter : FailureOutcome

pub record FailureDecision : Type 0 where
  pub outcome : FailureOutcome
  pub attempt : ℕ
  pub max_attempts : ℕ
  pub backoff_until : Option ℕ
  pub reason_code : String
  pub error_fingerprint : ℕ
  pub poison_count : ℕ

abbrev same_error : Option ℕ → ℕ → Bool
same_error none fingerprint = false
same_error (some last) fingerprint = last == fingerprint

abbrev pub next_poison : Task → ℕ → ℕ
next_poison row fingerprint =
    if same_error row.last_error_fingerprint fingerprint then row.poison_count + 1 else 1

abbrev pub limit_of : Task → ℕ
limit_of row = if leb row.max_attempts 0 then default_max_attempts else row.max_attempts

abbrev pub reason_for : ℕ → ℕ → ℕ → String
reason_for poison attempt limit =
    if leb limit attempt
    then reason_dead_letter_max_attempts
    else if leb poison_threshold poison
    then reason_dead_letter_poison_pill
    else reason_retry_processor_error

abbrev pub moves_to_dead_letter : ℕ → ℕ → ℕ → Bool
moves_to_dead_letter poison attempt limit =
    if leb limit attempt then true else leb poison_threshold poison

unfoldable pub decide_failure : Task → ℕ → FailureDecision
decide_failure row fingerprint =
    let poison = next_poison row fingerprint in
    record {
      outcome =
          if moves_to_dead_letter poison (row.attempt + 1) (limit_of row)
          then moved_to_dead_letter
          else retried;
      attempt = row.attempt + 1;
      max_attempts = limit_of row;
      backoff_until = none;
      reason_code = reason_for poison (row.attempt + 1) (limit_of row);
      error_fingerprint = fingerprint;
      poison_count = poison;
    }

-- The columns that both branches set.
abbrev pub failure_row : ℕ → FailureDecision → Task → Task
failure_row now d t = record (clear_lease now t) {
  attempt = d.attempt;
  max_attempts = d.max_attempts;
  last_error_code = some d.reason_code;
  last_error_fingerprint = some d.error_fingerprint;
  poison_count = d.poison_count;
}

abbrev pub retry_row : ℕ → ℕ → FailureDecision → Task → Task
retry_row now available_at d t = record (failure_row now d t) { available_at = available_at }

unfoldable pub dead_letter_tx : Ctx → String → String → FailureDecision → Tx FailureDecision
dead_letter_tx ctx task_id err_msg d = do
  first ←
      transition_task_tx ctx task_id (running ∷ []) failed "task.failed"
        (exhausted d.reason_code d.attempt d.max_attempts) none (some err_msg)
  if not first then raise no_rows else do
    exec_update (with_status task_id failed) (failure_row ctx.now d)
    second ←
        transition_task_tx ctx task_id (failed ∷ []) dead_letter "task.dead_letter"
          (with_code "terminal_failure" d.reason_code) none none
    if not second
        then raise no_rows
        else do exec_update (with_status task_id dead_letter) (clear_lease ctx.now); λ s. ok (d, s)

unfoldable pub retry_tx : Ctx → String → String → FailureDecision → Tx FailureDecision
retry_tx ctx task_id err_msg d =
    let delay = retry_delay task_id d.attempt in
    do
      first ←
          transition_task_tx ctx task_id (running ∷ []) retry_wait "task.retry_wait"
            (backoff d.reason_code d.attempt d.max_attempts (delay / 1_000_000)) none (some err_msg)
      if not first then raise no_rows else do
        exec_update (with_status task_id retry_wait) (retry_row ctx.now (ctx.now + delay) d)
        second ←
            transition_task_tx ctx task_id (retry_wait ∷ []) queued "task.requeued"
              (with_code "ready_for_retry" d.reason_code) none none
        if not second then raise no_rows else λ s.
            ok (record d { backoff_until = some (ctx.now + delay) }, s)

failure_of_row : Ctx → String → String → ℕ → Option Task → Tx FailureDecision
failure_of_row ctx task_id err_msg fingerprint none = raise no_rows
failure_of_row ctx task_id err_msg fingerprint (some row) =
    let d : FailureDecision = decide_failure row fingerprint in
    if not (status_eq row.status running)
    then raise no_rows
    else if moves_to_dead_letter d.poison_count d.attempt d.max_attempts
    then dead_letter_tx ctx task_id err_msg d
    else retry_tx ctx task_id err_msg d

-- `fingerprint` is the fingerprint of `err_msg`.
unfoldable pub handle_task_failure :
    Ctx → String → String → ℕ → Store → Result FailureDecision × Store
unfolding failure_of_row
handle_task_failure ctx task_id err_msg fingerprint s =
    with_tx (failure_of_row ctx task_id err_msg fingerprint (select_task task_id s.tasks)) s
