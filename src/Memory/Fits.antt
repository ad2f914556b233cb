-- ===== src/Memory/Fits.antt =====
-- What BuildWindow (internal/memory/window.go) keeps of a conversation.
use go_claw.Common.{
  ℕ, ◌+◌, ◌≤◌, ◌<◌, false, List, [], ◌∷◌, ◌++◌, length, ltb, leb, reverse, ◌≡◌, ◌⊎◌, inl, inr, refl,
  sym, ap, ◌∙◌, arith, Bool-cases, length-append, length-reverse, reverse-append, reverse-reverse,
  append-nil, append_assoc,
}
use go_claw.Memory.Window.{
  WindowConfig, WindowMessage, WindowResult, Selection, available_budget, summary_tokens,
  select_messages, no_selection, result_of, build_window,
}

abbrev pub sum_tokens : List WindowMessage → ℕ
sum_tokens [] = 0
sum_tokens (m ∷ ms) = m.tokens + sum_tokens ms

sum_tokens-append :
    (xs ys : List WindowMessage) → sum_tokens (xs ++ ys) ≡ sum_tokens xs + sum_tokens ys
sum_tokens-append [] ys = omega arith
sum_tokens-append (x ∷ xs) ys = omega (arith, sum_tokens-append xs ys)

sum_tokens-reverse : (xs : List WindowMessage) → sum_tokens (reverse xs) ≡ sum_tokens xs
sum_tokens-reverse [] = refl
sum_tokens-reverse (x ∷ xs) =
    omega (arith, sum_tokens-reverse xs, sum_tokens-append (reverse xs) (x ∷ []))

-- One more message would not fit.
abbrev pub Full : WindowConfig → ℕ → ℕ → ℕ → List WindowMessage → Type 0
Full cfg summary count total [] = Unit
Full cfg summary count total (m ∷ older) =
    (cfg.max_messages ≤ count) ⊎ (available_budget cfg < total + m.tokens + summary_tokens summary)

-- What the loop selects: the newest messages of `input`, as many as fit.
pub record Selected (cfg : WindowConfig) (summary : ℕ) (input : List WindowMessage)
    (sel out : Selection) : Type 0 where
  pub taken : List WindowMessage
  pub left : List WindowMessage
  pub split : input ≡ taken ++ left
  pub selects : out.selected_msgs ≡ sel.selected_msgs ++ taken
  pub counts : out.total_msg_tokens ≡ sel.total_msg_tokens + sum_tokens taken
  pub few : (taken ≡ []) ⊎ (length out.selected_msgs ≤ cfg.max_messages)
  pub cheap : (taken ≡ []) ⊎ (out.total_msg_tokens + summary_tokens summary ≤ available_budget cfg)
  pub full : Full cfg summary (length out.selected_msgs) out.total_msg_tokens left

stops :
    (cfg : WindowConfig) (summary : ℕ) (input : List WindowMessage) (sel : Selection)
    → Full cfg summary (length sel.selected_msgs) sel.total_msg_tokens input
    → Selected cfg summary input sel sel
stops cfg summary input sel f = record {
  taken = [];
  left = input;
  split = refl;
  selects = sym (append-nil sel.selected_msgs);
  counts = omega arith;
  few = inl refl;
  cheap = inl refl;
  full = f;
}

-- The message `m` is selected, and then `next` is.
goes_on :
    (cfg : WindowConfig) (summary : ℕ) (m : WindowMessage) (older : List WindowMessage)
    (sel out : Selection)
    → leb cfg.max_messages (length sel.selected_msgs) ≡ false
    → ltb (available_budget cfg) (sel.total_msg_tokens + m.tokens + summary_tokens summary) ≡ false
    → Selected cfg summary older
        (record {
          selected_msgs = sel.selected_msgs ++ m ∷ [];
          total_msg_tokens = sel.total_msg_tokens + m.tokens;
        })
        out
    → Selected cfg summary (m ∷ older) sel out
goes_on cfg summary m older sel out room fits s = record {
  taken = m ∷ s.taken;
  left = s.left;
  split = ap (λ r. m ∷ r) s.split;
  selects = s.selects ∙ append_assoc sel.selected_msgs (m ∷ []) s.taken;
  counts = omega (arith, s.counts);
  few = elim s.few [
    | inr h ↦ inr h
    | inl none_ ↦
        let e : length out.selected_msgs ≡ length (sel.selected_msgs ++ m ∷ []) = ap length (
          s.selects
          ∙ ap (λ r. (sel.selected_msgs ++ m ∷ []) ++ r) none_
          ∙ append-nil (sel.selected_msgs ++ m ∷ [])) in
        let one = length-append sel.selected_msgs (m ∷ []) in inr (ground arith)
  ];
  cheap = elim s.cheap [
    | inr h ↦ inr h
    | inl none_ ↦
        let e : sum_tokens s.taken ≡ 0 = ap sum_tokens none_ in
        let c = s.counts in inr (ground arith)
  ];
  full = s.full;
}

pub select_messages-Selected :
    (cfg : WindowConfig) (summary : ℕ) (input : List WindowMessage) (sel : Selection)
    → Selected cfg summary input sel (select_messages cfg summary input sel)
unfolding select_messages
select_messages-Selected cfg summary [] sel = stops cfg summary [] sel tt
select_messages-Selected cfg summary (m ∷ older) sel =
    elim (Bool-cases (leb cfg.max_messages (length sel.selected_msgs))) [
      | inl t ↦ rw t (stops cfg summary (m ∷ older) sel (inl (ground arith)))
      | inr f ↦
          elim (Bool-cases (
            ltb (available_budget cfg)
              (sel.total_msg_tokens + m.tokens + summary_tokens summary))) [
                | inl t ↦ rw (f, t) (stops cfg summary (m ∷ older) sel (inr (ground arith)))
                | inr g ↦
                    rw (f, g)
                      (goes_on cfg summary m older sel _ f g
                        (select_messages-Selected cfg summary older _))
              ]
    ]

-- What a window `w` of the conversation `messages` is.
pub record IsWindow (cfg : WindowConfig) (summary : ℕ) (messages : List WindowMessage)
    (w : WindowResult) : Type 0 where
  pub dropped : List WindowMessage
  pub split : messages ≡ dropped ++ w.messages
  pub truncated : w.truncated_count ≡ length dropped
  pub few : length w.messages ≤ cfg.max_messages
  pub total : (messages ≡ []) ⊎ (w.total_tokens ≡ sum_tokens w.messages + summary_tokens summary)
  pub cheap : (w.messages ≡ []) ⊎ (w.total_tokens ≤ available_budget cfg)
  pub maximal : Full cfg summary (length w.messages) (sum_tokens w.messages) (reverse dropped)

from_selection :
    (cfg : WindowConfig) (summary : ℕ) (messages : List WindowMessage) (out : Selection)
    → Selected cfg summary (reverse messages) no_selection out
    → IsWindow cfg summary messages (result_of messages summary out)
from_selection cfg summary messages out s =
    let kept : length (reverse out.selected_msgs) ≡ length out.selected_msgs =
      length-reverse out.selected_msgs in
    let sum : out.total_msg_tokens ≡ sum_tokens (reverse out.selected_msgs) =
      omega (arith, s.counts, ap sum_tokens s.selects, sum_tokens-reverse out.selected_msgs) in
    let parts : messages ≡ reverse s.left ++ reverse out.selected_msgs =
      sym (reverse-reverse messages)
      ∙ ap reverse s.split
      ∙ reverse-append s.taken s.left
      ∙ ap (λ r. reverse s.left ++ reverse r) (sym s.selects) in
    record {
      dropped = reverse s.left;
      split = parts;
      truncated = omega (
        arith,
        ap length parts,
        length-append (reverse s.left) (reverse out.selected_msgs),
        kept,
      );
      few = elim s.few [
        | inl e ↦ omega (arith, kept, ap length s.selects, ap length e)
        | inr h ↦ omega (arith, kept, h)
      ];
      total = inr (omega (arith, sum));
      cheap = elim s.cheap [ inl e ↦ inl (ap reverse (s.selects ∙ e)) | inr h ↦ inr h ];
      maximal = rw (reverse-reverse s.left, kept, ← sum) s.full;
    }

-- BuildWindow keeps a suffix of the conversation in its order; the truncated count is what it left
-- out; the suffix has at most MaxMessages messages, its token total is theirs and the summary's and
-- within the budget (unless no message fits), and the newest message left out would not fit.
pub build_window-IsWindow :
    (messages : List WindowMessage) (summary : ℕ) (cfg : WindowConfig)
    → IsWindow cfg summary messages (build_window messages summary cfg)
unfolding build_window
build_window-IsWindow [] summary cfg = record {
  dropped = [];
  split = refl;
  truncated = refl;
  few = omega arith;
  total = inl refl;
  cheap = inl refl;
  maximal = tt;
}
build_window-IsWindow (m ∷ ms) summary cfg =
    from_selection cfg summary (m ∷ ms) _
      (select_messages-Selected cfg summary (reverse (m ∷ ms)) no_selection)
