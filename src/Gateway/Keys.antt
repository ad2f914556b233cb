-- ===== src/Gateway/Keys.antt =====
-- Which requests the API keys of internal/gateway/auth.go let through.
use go_claw.Common.{
  refl, ◌++◌, ap, ℕ, String, Bool, true, false, not, ◌||◌, Option, none, some, List, [], ◌∷◌, any,
  str_eq, ◌≡◌, ◌∙◌, inl, inr, arith, Bool-cases, Option-cases, if◌then◌else◌, subst,
}
use go_claw.Gateway.Access.{
  Request, ApiKeyEntry, AuthMiddleware, RateLimiter, allow, get_bucket, unauthorized, forbidden,
  served, too_many_requests, bucket_key, limit, handle, is_public, extract_api_key, lookup_key,
}

limit-serves :
    (now : ℕ) (entry : Option ApiKeyEntry) (r : Request) (rl : RateLimiter)
    (found : Option ApiKeyEntry)
    → (limit now entry r rl).0 ≡ served found
    → found ≡ entry
unfolding limit
limit-serves now entry r rl found h = elim (Bool-cases (not rl.enabled || is_public r.path)) [
  | inl t ↦ let q : served entry ≡ served found = rw (limit, t) at h in cc q
  | inr f ↦
      by_bucket
        (allow rl.requests_per_minute rl.burst_size now (get_bucket (bucket_key r) now rl)).0
        (rw (limit, f) at h)
]
  where
    by_bucket :
        (c : Bool) → (if c then served entry else too_many_requests) ≡ served found → found ≡ entry
    by_bucket true q = cc q
    by_bucket false q = cc q

-- The last of the configured entries with this key, as in the map that NewAuthMiddleware fills.
pub record IsLast (key : String) (es : List ApiKeyEntry) (e : ApiKeyEntry) : Type 0 where
  pub before : List ApiKeyEntry
  pub after : List ApiKeyEntry
  pub split : es ≡ before ++ e ∷ after
  pub has_key : str_eq key e.key ≡ true
  pub none_later : any (λ k. str_eq key k.key) after ≡ false

abbrev pub IsConfigured : AuthMiddleware → String → ApiKeyEntry → Type 0
IsConfigured am key e = IsLast key am.keys e

lookup_key-none :
    (key : String) (es : List ApiKeyEntry)
    → lookup_key key es ≡ none
    → any (λ k. str_eq key k.key) es ≡ false
lookup_key-none key [] h = refl
lookup_key-none key (x ∷ es) h = elim (Option-cases (lookup_key key es)) [
  | inr (y, found) ↦ let q : some y ≡ none = rw found at h in cc q
  | inl absent ↦ elim (Bool-cases (str_eq key x.key)) [
    | inl t ↦ let q : some x ≡ none = rw (absent, t) at h in cc q
    | inr f ↦ let rest = lookup_key-none key es absent in ground arith
  ]
]

lookup_key-IsLast :
    (key : String) (es : List ApiKeyEntry) (e : ApiKeyEntry)
    → lookup_key key es ≡ some e
    → IsLast key es e
lookup_key-IsLast key [] e h = cc h
lookup_key-IsLast key (x ∷ es) e h = elim (Option-cases (lookup_key key es)) [
  | inr (y, found) ↦
      let q : some y ≡ some e = rw found at h in
      let l = lookup_key-IsLast key es e (found ∙ q) in
      record {
        before = x ∷ l.before;
        after = l.after;
        split = ap (λ ks. x ∷ ks) l.split;
        has_key = l.has_key;
        none_later = l.none_later;
      }
  | inl absent ↦ elim (Bool-cases (str_eq key x.key)) [
    | inl t ↦
        let q : some x ≡ some e = rw (absent, t) at h in
        let same : x ≡ e = cc q in
        record {
          before = [];
          after = es;
          split = ap (λ y. y ∷ es) same;
          has_key = subst (λ y. str_eq key y.key ≡ true) same t;
          none_later = lookup_key-none key es absent;
        }
    | inr f ↦ let q : none ≡ some e = rw (absent, f) at h in cc q
  ]
]

-- With authentication on, a request of a path that is not public is served only with the API key that
-- it carries in the configuration, and the handlers are given the last configured entry of that key,
-- with all its fields.
pub handle-IsConfigured :
    (am : AuthMiddleware) (now : ℕ) (r : Request) (rl : RateLimiter) (found : Option ApiKeyEntry)
    → am.enabled ≡ true
    → is_public r.path ≡ false
    → (handle am now r rl).0 ≡ served found
    → (e : ApiKeyEntry) × (found ≡ some e) × IsConfigured am (extract_api_key r) e
unfolding handle
handle-IsConfigured am now r rl found on private_ h =
    let c : (not am.enabled || is_public r.path) ≡ false = ground arith in
    elim (Bool-cases (str_eq (extract_api_key r) "")) [
      | inl t ↦ let q : unauthorized ≡ served found = rw (handle, c, t) at h in cc q
      | inr f ↦ elim (Option-cases (lookup_key (extract_api_key r) am.keys)) [
        | inl e ↦ let q : forbidden ≡ served found = rw (handle, c, f, e) at h in cc q
        | inr (entry, e) ↦ (
          entry,
          limit-serves now (some entry) r rl found (rw (handle, c, f, e) at h),
          lookup_key-IsLast (extract_api_key r) am.keys entry e,
        )
      ]
    ]
