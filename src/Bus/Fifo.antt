-- ===== src/Bus/Fifo.antt =====
-- What a subscriber of internal/bus/bus.go reads, against what was published.
use go_claw.Common.{
  ℕ, suc, ◌≤◌, String, Bool, true, false, not, ◌||◌, Option, none, some, List, [], ◌∷◌, ◌++◌, map,
  filter, find?, ◌==◌, if◌then◌else◌, ◌≡◌, ◌⊎◌, inl, inr, refl, sym, ap, ◌∙◌, subst, arith,
  Bool-cases, append_assoc, append-nil, str_eq,
}
use go_claw.Bus.Model.{
  Event, Subscription, Bus, subscribe, unsubscribe, is_full, publish, rest_of, receive_at, receive,
  has_prefix,
}
use go_claw.Bus.Delivery.{deliver, publish-Delivers}
use go_claw.Bus.Runs.{Op, subscribe_op, unsubscribe_op, publish_op, receive_op, step, run}

-- `xs` is `ys` with some entries left out.
abbrev pub IsSublist : List Event → List Event → Type 0
IsSublist xs [] = (xs ≡ [])
IsSublist xs (y ∷ ys) =
    IsSublist xs ys ⊎ ((rest : List Event) × (xs ≡ y ∷ rest) × IsSublist rest ys)

IsSublist-refl : (xs : List Event) → IsSublist xs xs
IsSublist-refl [] = refl
IsSublist-refl (x ∷ xs) = inr (xs, refl, IsSublist-refl xs)

-- One more entry to leave out.
inserted :
    (y : Event) (us vs xs : List Event) → IsSublist xs (us ++ vs) → IsSublist xs (us ++ y ∷ vs)
inserted y [] vs xs h = inl h
inserted y (u ∷ us) vs xs (inl h) = inl (inserted y us vs xs h)
inserted y (u ∷ us) vs xs (inr (rest, e, h)) = inr (rest, e, inserted y us vs rest h)

abbrev pub has_id : ℕ → Subscription → Bool
has_id id s = s.id == id

abbrev pub subscription : ℕ → Bus → Option Subscription
subscription id b = find? (has_id id) b.subs

-- What the reader of a subscription has read in a run, and what was published for its prefix.
abbrev first_of : Option Subscription → List Event
first_of none = []
first_of (some s) = elim s.ch [ [] ↦ [] | e ∷ es ↦ e ∷ [] ]

unfoldable pub received : ℕ → List Op → Bus → List Event
unfolding step
received id [] b = []
received id (receive_op j ∷ os) b =
    let rest = received id os (step (receive_op j) b) in
    if j == id then first_of (subscription id b) ++ rest else rest
received id (subscribe_op p ∷ os) b = received id os (step (subscribe_op p) b)
received id (unsubscribe_op j ∷ os) b = received id os (step (unsubscribe_op j) b)
received id (publish_op e ∷ os) b = received id os (step (publish_op e) b)

abbrev has_topic : String → Event → Bool
has_topic prefix e = str_eq prefix "" || has_prefix e.topic prefix

unfoldable pub offered : String → List Op → List Event
offered prefix [] = []
offered prefix (publish_op e ∷ os) =
    let rest = offered prefix os in if has_topic prefix e then e ∷ rest else rest
offered prefix (subscribe_op p ∷ os) = offered prefix os
offered prefix (unsubscribe_op j ∷ os) = offered prefix os
offered prefix (receive_op j ∷ os) = offered prefix os

-- The subscription stays open.
abbrev pub StaysOpen : ℕ → List Op → Type 0
StaysOpen id [] = Unit
StaysOpen id (o ∷ os) = elim o [
  | unsubscribe_op j ↦ (j == id ≡ false) × StaysOpen id os
  | _ ↦ StaysOpen id os
]

find-deliver :
    (id : ℕ) (e : Event) (s : Subscription) (subs : List Subscription)
    → find? (has_id id) subs ≡ some s
    → find? (has_id id) (map (deliver e) subs) ≡ some (deliver e s)
find-deliver id e s [] h = absurd (cc h)
find-deliver id e s (t ∷ subs) h =
    let same : (deliver e t).id ≡ t.id = ground arith in
    elim (Bool-cases (has_id id t)) [
      | inl y ↦
          let q : some t ≡ some s = rw y at h in
          let r : t ≡ s = cc q in
          let z : has_id id (deliver e t) ≡ true = ap (λ i. i == id) same ∙ y in
          rw z (ap (λ u. some (deliver e u)) r)
      | inr n ↦
          let z : has_id id (deliver e t) ≡ false = ap (λ i. i == id) same ∙ n in
          rw z (find-deliver id e s subs (rw n at h))
    ]

find-others :
    (id j : ℕ) (s : Subscription) (subs : List Subscription)
    → (j == id ≡ false)
    → find? (has_id id) subs ≡ some s
    → find? (has_id id) (filter (λ t. not (t.id == j)) subs) ≡ some s
find-others id j s [] ne h = absurd (cc h)
find-others id j s (t ∷ subs) ne h = elim (Bool-cases (has_id id t)) [
  | inl y ↦ let k : (t.id == j) ≡ false = ground arith in rw (k, y) (rw y at h)
  | inr n ↦
      let rest = find-others id j s subs ne (rw n at h) in
      elim (Bool-cases (t.id == j)) [ inl y ↦ rw y rest | inr m ↦ rw (m, n) rest ]
]

abbrev after_read : Subscription → Option Subscription
after_read s = some (record s { ch = rest_of s.ch })

find-receive :
    (id : ℕ) (s : Subscription) (subs : List Subscription)
    → find? (has_id id) subs ≡ some s
    → find? (has_id id) (receive_at id subs) ≡ after_read s
find-receive id s [] h = absurd (cc h)
find-receive id s (t ∷ subs) h = elim (Bool-cases (has_id id t)) [
  | inl y ↦
      let q : some t ≡ some s = rw y at h in let r : t ≡ s = cc q in rw (y, y) (ap after_read r)
  | inr n ↦ rw (n, n) (find-receive id s subs (rw n at h))
]

find-receive_other :
    (id j : ℕ) (s : Subscription) (subs : List Subscription)
    → (j == id ≡ false)
    → find? (has_id id) subs ≡ some s
    → find? (has_id id) (receive_at j subs) ≡ some s
find-receive_other id j s [] ne h = absurd (cc h)
find-receive_other id j s (t ∷ subs) ne h = elim (Bool-cases (has_id id t)) [
  | inl y ↦ let k : (t.id == j) ≡ false = ground arith in rw (k, y) (rw y at h)
  | inr n ↦ elim (Bool-cases (t.id == j)) [
    | inl y ↦ rw (y, n) (rw n at h)
    | inr m ↦ rw (m, n) (find-receive_other id j s subs ne (rw n at h))
  ]
]

-- What is read and still in the buffer, in order, is part of what was in it and was offered.
abbrev pub Reads : ℕ → List Op → Bus → Subscription → Type 0
Reads id os b s =
    (s' : Subscription) × (subscription id (run os b) ≡ some s')
    × IsSublist (received id os b ++ s'.ch) (s.ch ++ offered s.prefix os)

-- The event is in the buffer, or left out.
grown :
    (e : Event) (s : Subscription) (more xs : List Event)
    → IsSublist xs ((deliver e s).ch ++ more)
    → IsSublist xs (s.ch ++ (if has_topic s.prefix e then e ∷ more else more))
grown e s more xs h = elim (Bool-cases (has_topic s.prefix e)) [
  | inr f ↦ rw f (rw f at h)
  | inl t ↦ elim (Bool-cases (is_full s)) [
    | inl u ↦ rw t (inserted e s.ch more xs (rw (t, u) at h))
    | inr f ↦
        let k : IsSublist xs ((s.ch ++ e ∷ []) ++ more) = rw (t, f) at h in
        rw t (subst (IsSublist xs) (append_assoc s.ch (e ∷ []) more) k)
  ]
]

deliver-prefix : (e : Event) (s : Subscription) → (deliver e s).prefix ≡ s.prefix
deliver-prefix e s = ground arith

-- A read takes the oldest event.
read :
    (s : Subscription) (more xs : List Event)
    → IsSublist xs (rest_of s.ch ++ more)
    → IsSublist (first_of (some s) ++ xs) (s.ch ++ more)
read s more xs h = go s.ch h
  where
    go :
        (ch : List Event)
        → IsSublist xs (rest_of ch ++ more)
        → IsSublist (elim ch [ [] ↦ [] | e ∷ es ↦ e ∷ [] ] ++ xs) (ch ++ more)
    go [] k = k
    go (e ∷ es) k = inr (xs, refl, k)

-- Over any operations that keep a subscription open, what its reader receives, followed by what is
-- still in its buffer, is what was in the buffer and what was published on its topics, in the order of
-- publication, with some events left out: nothing is reordered, repeated or sent to the wrong topic.
pub run-Reads :
    (id : ℕ) (os : List Op) (b : Bus) (s : Subscription)
    → id ≤ b.next_id
    → StaysOpen id os
    → subscription id b ≡ some s
    → Reads id os b s
unfolding run received offered step subscribe unsubscribe receive
run-Reads id [] b s given open_ h =
    (s, h, subst (IsSublist s.ch) (sym (append-nil s.ch)) (IsSublist-refl s.ch))
run-Reads id (subscribe_op p ∷ os) b s given open_ h =
    let new : (suc b.next_id == id) ≡ false = ground arith in
    run-Reads id os (subscribe p b) s (omega arith) open_ (rw new h)
run-Reads id (unsubscribe_op j ∷ os) b s given open_ h =
    run-Reads id os (unsubscribe j b) s given open_.1 (find-others id j s b.subs open_.0 h)
run-Reads id (publish_op e ∷ os) b s given open_ h =
    let d = publish-Delivers e b in
    let found : subscription id (publish e b) ≡ some (deliver e s) =
      rw d.subscriptions (find-deliver id e s b.subs h) in
    let (s', f, r) =
      run-Reads id os (publish e b) (deliver e s) (rw d.same_ids given) open_ found in
    (s', f, grown e s (offered s.prefix os) _ (rw (deliver-prefix e s) at r))
run-Reads id (receive_op j ∷ os) b s given open_ h = elim (Bool-cases (j == id)) [
  | inr f ↦
      let (s', g, r) =
        run-Reads id os (receive j b) s given open_ (find-receive_other id j s b.subs f h) in
      (s', g, rw f r)
  | inl t ↦
      let k : j ≡ id = ground arith in
      let here : subscription id (receive j b) ≡ some (record s { ch = rest_of s.ch }) =
        rw k (find-receive id s b.subs h) in
      let (s', g, r) =
        run-Reads id os (receive j b) (record s { ch = rest_of s.ch }) given open_ here in
      let rest = received id os (receive j b) in
      let all_ = read s (offered s.prefix os) (rest ++ s'.ch) r in
      (
        s',
        g,
        rw (t, h)
            (subst (λ l. IsSublist l (s.ch ++ offered s.prefix os))
              (sym (append_assoc (first_of (some s)) rest s'.ch)) all_),
      )
]
