-- ===== src/Bus/Runs.antt =====
-- Sequences of operations on the bus of internal/bus/bus.go, and what a subscriber reads from it.
use go_claw.Common.{
  ℕ, ◌≤◌, String, Bool, List, [], ◌∷◌, map, length, filter, ◌==◌, All, All-imp, inl, inr, arith,
  Bool-cases, length-append,
}
use go_claw.Bus.Model.{
  Event, Subscription, Bus, default_buffer_size, subscribe, unsubscribe, matches, is_full, publish,
  rest_of, receive_at, receive,
}
use go_claw.Bus.Delivery.{deliver, publish-Delivers}

pub data Op : Type 0 where
  subscribe_op : String → Op
  unsubscribe_op : ℕ → Op
  publish_op : Event → Op
  receive_op : ℕ → Op

unfoldable pub step : Op → Bus → Bus
step (subscribe_op p) b = subscribe p b
step (unsubscribe_op id) b = unsubscribe id b
step (publish_op e) b = publish e b
step (receive_op id) b = receive id b

unfoldable pub run : List Op → Bus → Bus
unfolding step
run [] b = b
run (o ∷ os) b = run os (step o b)

-- A subscription with a bounded buffer and an id that has been given out.
abbrev pub Bounded : ℕ → Subscription → Type 0
Bounded next_id sub = (length sub.ch ≤ default_buffer_size) × (sub.id ≤ next_id)

abbrev pub IsSound : Bus → Type 0
IsSound b = All (Bounded b.next_id) b.subs

All-filter :
    (P : Subscription → Type 0) (p : Subscription → Bool) (subs : List Subscription)
    → All P subs
    → All P (filter p subs)
All-filter P p [] h = tt
All-filter P p (s ∷ subs) h = elim (Bool-cases (p s)) [
  | inl t ↦ rw t (h.0, All-filter P p subs h.1)
  | inr f ↦ rw f (All-filter P p subs h.1)
]

deliver-Bounded : (n : ℕ) (e : Event) (s : Subscription) → Bounded n s → Bounded n (deliver e s)
deliver-Bounded n e s h = elim (Bool-cases (matches e s)) [
  | inr f ↦ rw f h
  | inl t ↦ elim (Bool-cases (is_full s)) [
    | inl u ↦ rw (t, u) h
    | inr f ↦ let l = length-append s.ch (e ∷ []) in rw (t, f) (ground arith, h.1)
  ]
]

All-deliver :
    (n : ℕ) (e : Event) (subs : List Subscription)
    → All (Bounded n) subs
    → All (Bounded n) (map (deliver e) subs)
All-deliver n e [] h = tt
All-deliver n e (s ∷ subs) h = (deliver-Bounded n e s h.0, All-deliver n e subs h.1)

rest_of-length : (es : List Event) → length (rest_of es) ≤ length es
rest_of-length [] = omega arith
rest_of-length (e ∷ es) = omega arith

All-receive :
    (n id : ℕ) (subs : List Subscription)
    → All (Bounded n) subs
    → All (Bounded n) (receive_at id subs)
All-receive n id [] h = tt
All-receive n id (s ∷ subs) h = elim (Bool-cases (s.id == id)) [
  | inl t ↦ let l = rest_of-length s.ch in let m = h.0.0 in rw t ((omega arith, h.0.1), h.1)
  | inr f ↦ rw f (h.0, All-receive n id subs h.1)
]

step-IsSound : (o : Op) (b : Bus) → IsSound b → IsSound (step o b)
unfolding step subscribe unsubscribe receive
step-IsSound (subscribe_op p) b h =
    ((omega arith, omega arith), All-imp _ _ b.subs (λ s k. (k.0, let l = k.1 in omega arith)) h)
step-IsSound (unsubscribe_op id) b h = All-filter (Bounded b.next_id) _ b.subs h
step-IsSound (publish_op e) b h =
    let d = publish-Delivers e b in
    rw (d.subscriptions, d.same_ids) (All-deliver b.next_id e b.subs h)
step-IsSound (receive_op id) b h = All-receive b.next_id id b.subs h

-- Whatever is subscribed, unsubscribed, published and read, no buffer of a sound bus ever holds more
-- than 100 events, and every subscription has an id that was given out.
pub run-Bounded : (os : List Op) (b : Bus) → IsSound b → IsSound (run os b)
unfolding run
run-Bounded [] b h = h
run-Bounded (o ∷ os) b h = run-Bounded os (step o b) (step-IsSound o b h)
