-- ===== src/Bus/Model.antt =====
-- internal/bus/bus.go. A payload is only passed on, so it is any text. A channel is the list of the
-- events in its buffer, oldest first; locks are left out, each operation holding its own.
use Prim.Native.String as S
use Prim.Native.Char.{code}
use go_claw.Common.{
  ℕ, zero, suc, ◌*◌, String, Bool, true, false, not, ◌&&◌, ◌||◌, List, [], ◌∷◌, ◌++◌, length,
  filter, leb, ◌==◌, str_eq, if◌then◌else◌,
}

pub record Event : Type 0 where
  pub topic : String
  pub payload : String

pub record Subscription : Type 0 where
  pub id : ℕ
  pub prefix : String
  pub ch : List Event

-- `warnings` are the counts that were logged.
pub record Bus : Type 0 where
  pub subs : List Subscription
  pub next_id : ℕ
  pub has_logger : Bool
  pub dropped_events : ℕ
  pub last_drop_warning : ℕ
  pub warnings : List ℕ

abbrev pub default_buffer_size : ℕ
default_buffer_size = 100

unfoldable pub new_with_logger : Bool → Bus
new_with_logger has_logger = record {
  subs = [];
  next_id = 0;
  has_logger = has_logger;
  dropped_events = 0;
  last_drop_warning = 0;
  warnings = [];
}

unfoldable pub subscribe : String → Bus → Bus
subscribe topic_prefix b = record b {
  next_id = suc b.next_id;
  subs = record { id = suc b.next_id; prefix = topic_prefix; ch = [] } ∷ b.subs;
}

unfoldable pub unsubscribe : ℕ → Bus → Bus
unsubscribe id b = record b { subs = filter (λ sub. not (sub.id == id)) b.subs }

-- strings.HasPrefix
abbrev pub has_prefix : String → String → Bool
has_prefix text S.[] = true
has_prefix S.[] (S.◌∷◌ p ps) = false
has_prefix (S.◌∷◌ c cs) (S.◌∷◌ p ps) = code c == code p && has_prefix cs ps

abbrev pub matches : Event → Subscription → Bool
matches e sub = str_eq sub.prefix "" || has_prefix e.topic sub.prefix

abbrev pub is_full : Subscription → Bool
is_full sub = leb default_buffer_size (length sub.ch)

-- The loop of `dropThreshold`, on fuel.
unfoldable pub grow : ℕ → ℕ → ℕ → ℕ
grow zero threshold count = threshold
grow (suc fuel) threshold count =
    let next = grow fuel (threshold * 10) count in
    if leb (threshold * 10) count then next else threshold

unfoldable pub drop_threshold : ℕ → ℕ
unfolding grow
drop_threshold count = grow count 1 count

-- `maybeLogDropWarning`, which no other publisher comes between
unfoldable pub maybe_log_drop_warning : ℕ → Bus → Bus
unfolding drop_threshold
maybe_log_drop_warning new_count b =
    let threshold = drop_threshold new_count in
    if not b.has_logger
    then b
    else if not (new_count == threshold)
    then b
    else if leb threshold b.last_drop_warning
    then b
    else record b { last_drop_warning = threshold; warnings = b.warnings ++ new_count ∷ [] }

-- A full buffer drops the event.
unfoldable pub drop_event : Bus → Bus
unfolding maybe_log_drop_warning
drop_event b =
    maybe_log_drop_warning (suc b.dropped_events)
      (record b { dropped_events = suc b.dropped_events })

abbrev pub send : Event → Subscription → Subscription
send e sub = record sub { ch = sub.ch ++ e ∷ [] }

-- for _, sub := range b.subs { … }: `left` are still to come, the bus has those done.
unfoldable pub publish_to : Event → List Subscription → Bus → Bus
unfolding drop_event
publish_to e [] b = b
publish_to e (sub ∷ left) b =
    let b' = record b { subs = b.subs ++ sub ∷ [] } in
    let skipped = publish_to e left b' in
    let sent = publish_to e left (record b { subs = b.subs ++ send e sub ∷ [] }) in
    let dropped = publish_to e left (drop_event b') in
    if not (matches e sub) then skipped else if is_full sub then dropped else sent

unfoldable pub publish : Event → Bus → Bus
unfolding publish_to
publish e b = publish_to e b.subs (record b { subs = [] })

-- A subscriber reads from its channel.
abbrev pub rest_of : List Event → List Event
rest_of [] = []
rest_of (e ∷ es) = es

abbrev pub receive_at : ℕ → List Subscription → List Subscription
receive_at id [] = []
receive_at id (sub ∷ subs) =
    let rest = receive_at id subs in
    if sub.id == id then record sub { ch = rest_of sub.ch } ∷ subs else sub ∷ rest

unfoldable pub receive : ℕ → Bus → Bus
receive id b = record b { subs = receive_at id b.subs }
