-- ===== src/Bus/Delivery.antt =====
-- What Publish of internal/bus/bus.go delivers and drops.
use go_claw.Common.{
  ℕ, suc, ◌+◌, Bool, ◌&&◌, List, [], ◌∷◌, ◌++◌, map, if◌then◌else◌, count_if, ◌≡◌, inl, inr, refl,
  sym, ap, ◌∙◌, arith, Bool-cases, append_assoc, append-nil,
}
use go_claw.Bus.Model.{
  Event, Subscription, Bus, matches, is_full, send, maybe_log_drop_warning, drop_event, publish_to,
  publish,
}

abbrev pub deliver : Event → Subscription → Subscription
deliver e sub = if matches e sub then (if is_full sub then sub else send e sub) else sub

abbrev pub is_lost : Event → Subscription → Bool
is_lost e sub = matches e sub && is_full sub

-- `b'` has the subscriptions `subs` and `lost` more dropped events, and is else like `b`.
pub record Delivers (b : Bus) (subs : List Subscription) (lost : ℕ) (b' : Bus) : Type 0 where
  pub subscriptions : b'.subs ≡ subs
  pub same_ids : b'.next_id ≡ b.next_id
  pub counted : b'.dropped_events ≡ b.dropped_events + lost

maybe_log-Delivers : (n : ℕ) (b : Bus) → Delivers b b.subs 0 (maybe_log_drop_warning n b)
unfolding maybe_log_drop_warning
maybe_log-Delivers n b = record {
  subscriptions = ground arith;
  same_ids = ground arith;
  counted = ground arith;
}

drop_event-Delivers : (b : Bus) → Delivers b b.subs 1 (drop_event b)
unfolding drop_event
drop_event-Delivers b =
    let d =
      maybe_log-Delivers (suc b.dropped_events)
        (record b { dropped_events = suc b.dropped_events }) in
    record {
      subscriptions = d.subscriptions;
      same_ids = d.same_ids;
      counted = omega (arith, d.counted);
    }

then-Delivers :
    (b b' b'' : Bus) (sub : Subscription) (rest : List Subscription) (n m : ℕ)
    → Delivers b (b.subs ++ sub ∷ []) n b'
    → Delivers b' (b'.subs ++ rest) m b''
    → Delivers b (b.subs ++ sub ∷ rest) (n + m) b''
then-Delivers b b' b'' sub rest n m d e = record {
  subscriptions =
      e.subscriptions ∙ ap (λ l. l ++ rest) d.subscriptions ∙ append_assoc b.subs (sub ∷ []) rest;
  same_ids = e.same_ids ∙ d.same_ids;
  counted = omega (arith, e.counted, d.counted);
}

publish_to-Delivers :
    (e : Event) (left : List Subscription) (b : Bus)
    → Delivers b (b.subs ++ map (deliver e) left) (count_if (is_lost e) left) (publish_to e left b)
unfolding publish_to
publish_to-Delivers e [] b = record {
  subscriptions = sym (append-nil b.subs);
  same_ids = refl;
  counted = omega arith;
}
publish_to-Delivers e (sub ∷ left) b = elim (Bool-cases (matches e sub)) [
  | inr f ↦ rw f (then-Delivers b _ _ sub _ 0 _ (added sub) (publish_to-Delivers e left _))
  | inl t ↦ elim (Bool-cases (is_full sub)) [
    | inl u ↦
        let d = drop_event-Delivers (record b { subs = b.subs ++ sub ∷ [] }) in
        rw (t, u)
          (then-Delivers b _ _ sub _ 1 _
            (record { subscriptions = d.subscriptions; same_ids = d.same_ids; counted = d.counted })
            (publish_to-Delivers e left _))
    | inr f ↦
        rw (t, f)
          (then-Delivers b _ _ (send e sub) _ 0 _ (added (send e sub))
            (publish_to-Delivers e left _))
  ]
]
  where
    added :
        (s : Subscription) → Delivers b (b.subs ++ s ∷ []) 0 (record b { subs = b.subs ++ s ∷ [] })
    added s = record { subscriptions = refl; same_ids = refl; counted = omega arith }

-- Publish is the same as delivering to each subscription by itself: one whose prefix the topic has and
-- whose buffer has room gets the event at its end, and every other stays as it was; the counter of
-- dropped events grows by the number of those that match and are full.
pub publish-Delivers :
    (e : Event) (b : Bus)
    → Delivers b (map (deliver e) b.subs) (count_if (is_lost e) b.subs) (publish e b)
unfolding publish
publish-Delivers e b =
    let d = publish_to-Delivers e b.subs (record b { subs = [] }) in
    record { subscriptions = d.subscriptions; same_ids = d.same_ids; counted = d.counted }
