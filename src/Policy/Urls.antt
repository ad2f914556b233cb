-- ===== src/Policy/Urls.antt =====
-- AllowHTTPURL of internal/policy/policy.go keeps requests off the internal network.
use go_claw.Common.{
  String, Bool, true, false, not, ◌&&◌, ◌||◌, some, any, str_eq, if◌then◌else◌, ◌≡◌, ◌⊎◌, inl, inr,
  arith, Bool-cases, Option-cases,
}
use go_claw.Policy.Model.{
  Policy, Net, Url, Address, is_blocked_host, domain_matches, is_web, allow_http_url,
}

-- An address outside the loopback, private, link-local and unspecified ranges; loopback is also
-- outside when it is allowed.
abbrev pub IsReachable : Bool → Address → Type 0
IsReachable allow_loopback ip =
    ((allow_loopback ≡ true) × (ip.is_loopback ≡ true))
    ⊎ ((ip.is_loopback ≡ false)
        × (ip.is_private ≡ false)
        × (ip.is_link_local_unicast ≡ false)
        × (ip.is_link_local_multicast ≡ false)
        × (ip.is_unspecified ≡ false))

-- What an allowed URL looks like.
pub record IsAllowed (net : Net) (p : Policy) (raw : String) : Type 0 where
  pub url : Url
  pub parses : net.parse_url raw ≡ some url
  pub named : str_eq url.hostname "" ≡ false
  pub web : is_web (net.to_lower (net.trim_space url.scheme)) ≡ true
  pub local : str_eq (net.to_lower url.hostname) "localhost" ≡ true → p.allow_loopback ≡ true
  pub reaches :
      (ip : Address)
      → str_eq (net.to_lower url.hostname) "localhost" ≡ false
      → net.parse_addr (net.to_lower url.hostname) ≡ some ip
      → IsReachable p.allow_loopback ip
  pub listed : any (domain_matches net (net.to_lower url.hostname)) p.allow_domains ≡ true

unblocked :
    (net : Net) (host : String) (allow : Bool) (ip : Address)
    → is_blocked_host net host allow ≡ false
    → str_eq host "localhost" ≡ false
    → net.parse_addr host ≡ some ip
    → IsReachable allow ip
unfolding is_blocked_host
unblocked net host allow ip h n e = elim (Bool-cases (allow && ip.is_loopback)) [
  | inl t ↦ inl (ground arith)
  | inr f ↦
      let q : (if allow && ip.is_loopback
            then false
            else (ip.is_loopback || ip.is_private || ip.is_link_local_unicast
                || ip.is_link_local_multicast || ip.is_unspecified))
          ≡ false =
        rw (n, e) at h in
      inr (ground arith)
]

unblocked_local :
    (net : Net) (host : String) (allow : Bool)
    → is_blocked_host net host allow ≡ false
    → str_eq host "localhost" ≡ true
    → allow ≡ true
unfolding is_blocked_host
unblocked_local net host allow h e = let q : not allow ≡ false = rw e at h in ground arith

guards :
    (a b c d : Bool)
    → (if a then false else if not b then false else if c then false else d) ≡ true
    → (a ≡ false) × (b ≡ true) × (c ≡ false) × (d ≡ true)
guards a b c d h = ground arith

-- AllowHTTPURL allows a URL only if it parses to a http or https URL with a host on the list of
-- domains, the host "localhost" only where loopback is allowed, and a host that is an address only
-- outside the internal ranges.
pub allow_http_url-IsAllowed :
    (net : Net) (p : Policy) (raw : String) → allow_http_url net p raw ≡ true → IsAllowed net p raw
unfolding allow_http_url
allow_http_url-IsAllowed net p raw h = elim (Option-cases (net.parse_url raw)) [
  | inl e ↦ absurd (let q : false ≡ true = rw (e, allow_http_url) at h in ground arith)
  | inr (u, e) ↦
      let (named, web, unblocked_host, listed) = guards _ _ _ _ (rw (e, allow_http_url) at h) in
      record {
        url = u;
        parses = e;
        named = named;
        web = web;
        local = unblocked_local net (net.to_lower u.hostname) p.allow_loopback unblocked_host;
        reaches = λ ip n f.
            unblocked net (net.to_lower u.hostname) p.allow_loopback ip unblocked_host n f;
        listed = listed;
      }
]
