-- ===== src/Politeness/Remembered.antt =====
-- crates/crawlrs-politeness/src/robots.rs: what the cache remembers, and when a URL is refused.
use crawlrs.Prelude.{
  ℕ, ◌+◌, ◌*◌, ◌/◌, ◌%◌, ◌^◌, ◌≤◌, ◌<◌, ◌≡◌, ◌≢◌, refl, sym, ap, ◌∙◌, subst, Bool, true, false, [],
  ◌∷◌, Option, none, some, ◌⊎◌, inl, inr, arith, max, Bool-cases, Option-cases, list_eq, nat_eq,
  ==_refl, ltb, lt→ltb, eqb_iff,
}
use crawlrs.Prelude.Map
use crawlrs.Core.Error.{Text, Result, ok, err, panic}
use crawlrs.Core.Types.{UrlApi}
use crawlrs.Runtime.Effects.{Reply, done, failed, FetchResponse}
use crawlrs.Politeness.Robots.{
  RobotsState, RobotsCache, Weather, jittered_ttl, evaluate_rules, read_cache, write_cache,
  cached_as, usable, robots_url, fetch_and_cache, remembering, fetched, on_read, body_for, judged,
  allowed,
}

module _ {Url : Type 0} (api : UrlApi Url) (c : RobotsCache Url) where
  abbrev Holds : Text → Text → RobotsState → Type 0
  Holds host body s = Map.get host s.in_process ≡ some body

  remembering-Holds :
      (host body : Text) (s : RobotsState) → Holds host body (remembering api c host body s)
  remembering-Holds host body s =
      Map.get-insert host host body s.in_process ∙ rw (==_refl host) refl

  fetched-Holds :
      (host body : Text) (o : Result Text × RobotsState)
      → (fetched api c host o).0 ≡ ok body
      → Holds host body (fetched api c host o).1
  unfolding fetched
  fetched-Holds host body (ok b, s) e =
      subst (λ x. Holds host x (remembering api c host b s)) (cc e) (remembering-Holds host b s)
  fetched-Holds host body (err x, s) e = absurd cc
  fetched-Holds host body (panic, s) e = absurd cc

  on_read-Holds :
      (w : Weather Url) (url : Url) (host body : Text) (s : RobotsState) (r : Result (Option Text))
      → (on_read api c w url host s r).0 ≡ ok body
      → Holds host body (on_read api c w url host s r).1
  unfolding on_read
  on_read-Holds w url host body s (ok (some b)) e =
      subst (λ x. Holds host x (remembering api c host b s)) (cc e) (remembering-Holds host b s)
  on_read-Holds w url host body s (ok none) e =
      fetched-Holds host body (fetch_and_cache api c w url host s) e
  on_read-Holds w url host body s (err x) e = absurd cc
  on_read-Holds w url host body s panic e = absurd cc

  body_for-Holds :
      (w : Weather Url) (url : Url) (host body : Text) (s : RobotsState)
      → (body_for api c w url host s).0 ≡ ok body
      → Holds host body (body_for api c w url host s).1
  unfolding body_for
  body_for-Holds w url host body s = elim (Option-cases (Map.get host s.in_process)) [
    | inr (b, found) ↦ rw (found, body_for) (λ e. found ∙ ap some (cc e))
    | inl z ↦ rw (z, body_for) (on_read-Holds w url host body s (read_cache api c w url host s))
  ]

  -- An ask that returned was judged by a body.
  judged-body :
      (user_agent : Text) (url : Url) (o : Result Text × RobotsState) (b : Bool)
      → (judged api c user_agent url o).0 ≡ ok b
      → (body : Text) × (o.0 ≡ ok body)
        × (b ≡ evaluate_rules api c body user_agent (api.as_str url))
        × ((judged api c user_agent url o).1 ≡ o.1)
  unfolding judged
  judged-body user_agent url (ok body, s) b e = (body, refl, cc e, refl)
  judged-body user_agent url (err x, s) b e = absurd cc
  judged-body user_agent url (panic, s) b e = absurd cc

  -- A host whose body is in the process is judged by it.
  held-judges :
      (w : Weather Url) (url : Url) (user_agent host body : Text) (s : RobotsState)
      → api.host url ≡ some host
      → Holds host body s
      → allowed api c w url user_agent s
        ≡ (ok (evaluate_rules api c body user_agent (api.as_str url)), s)
  unfolding allowed body_for judged
  held-judges w url user_agent host body s at held =
      rw (at, allowed) (rw (held, body_for) (unfold judged in refl))

  allowed-judged :
      (w : Weather Url) (url : Url) (user_agent host : Text) (s : RobotsState)
      → api.host url ≡ some host
      → allowed api c w url user_agent s ≡ judged api c user_agent url (body_for api c w url host s)
  unfolding allowed
  allowed-judged w url user_agent host s at = rw (at, allowed) refl

  -- Once an ask for a URL returned, and as long as the entry stays, every ask for a URL of the same host
  -- name, also of another scheme, port or user agent, is judged by the same body: it calls neither Redis
  -- nor the fetcher, and changes nothing.
  pub allowed_remembers :
      (w : Weather Url) (url : Url) (user_agent host : Text) (s : RobotsState) (b : Bool)
      → api.host url ≡ some host
      → (allowed api c w url user_agent s).0 ≡ ok b
      → let s' = (allowed api c w url user_agent s).1 in
        (body : Text) × (b ≡ evaluate_rules api c body user_agent (api.as_str url))
        × ((w' : Weather Url) (url' : Url) (user_agent' : Text)
            → api.host url' ≡ some host
            → allowed api c w' url' user_agent' s'
              ≡ (ok (evaluate_rules api c body user_agent' (api.as_str url')), s'))
  allowed_remembers w url user_agent host s b at e =
      let asked = allowed-judged w url user_agent host s at in
      let (body, found, judged_by, same) =
        judged-body user_agent url (body_for api c w url host s) b
          (ap (λ o. o.0) (sym asked) ∙ e) in
      (
        body,
        judged_by,
        λ w' url' user_agent' at'.
            held-judges w' url' user_agent' host body (allowed api c w url user_agent s).1 at' (
              subst (Holds host body) (sym (ap (λ o. o.1) asked ∙ same))
                (body_for-Holds w url host body s found)),
      )

  -- Why a body was at hand: the process had it, Redis had it, or a response of status 200 brought it.
  abbrev pub Source : Weather Url → Url → Text → RobotsState → Text → Type 0
  Source w url host s body =
      (Map.get host s.in_process ≡ some body)
      ⊎ ((read_cache api c w url host s ≡ ok (some body))
          ⊎ ((target : Url) × (c.parse (robots_url api c url host) ≡ some target)
              × ((response : FetchResponse Url) × (w.fetch target ≡ done response)
                  × (response.status ≡ 200)
                  × (response.body ≡ body))))

  -- The rules of a body that is UTF-8 and parses refuse the URL.
  abbrev pub Forbids : Text → Text → Url → Type 0
  Forbids body user_agent url =
      (c.is_utf8 body ≡ true)
      × ((allows : Text → Bool) × (c.robot user_agent body ≡ some allows)
          × (allows (api.as_str url) ≡ false))

  evaluate_rules-Forbids :
      (body user_agent : Text) (url : Url)
      → evaluate_rules api c body user_agent (api.as_str url) ≡ false
      → (body ≢ []) × Forbids body user_agent url
  unfolding evaluate_rules
  evaluate_rules-Forbids [] user_agent url e = absurd cc
  evaluate_rules-Forbids (x ∷ body) user_agent url e = elim (Bool-cases (c.is_utf8 (x ∷ body))) [
    | inr binary ↦
        let open_ : evaluate_rules api c (x ∷ body) user_agent (api.as_str url) ≡ true =
          rw (binary, evaluate_rules) refl in
        absurd (ground (arith, e, open_))
    | inl text ↦ elim (Option-cases (c.robot user_agent (x ∷ body))) [
      | inl unread ↦
          let open_ : evaluate_rules api c (x ∷ body) user_agent (api.as_str url) ≡ true =
            rw (text, evaluate_rules) (rw unread refl) in
          absurd (ground (arith, e, open_))
      | inr (allows, read) ↦
          let asked : evaluate_rules api c (x ∷ body) user_agent (api.as_str url)
              ≡ allows (api.as_str url) =
            rw (text, evaluate_rules) (rw read refl) in
          ((λ z. cc), (text, (allows, read, sym asked ∙ e)))
    ]
  ]

  cached_as-body :
      (w : Weather Url) (url : Url) (host body : Text) (o : Option Text) (s : RobotsState)
      → (cached_as api c w url host o s).0 ≡ ok body
      → (o ≡ some body) ⊎ (body ≡ [])
  unfolding cached_as
  cached_as-body w url host body o s = by_write o (write_cache api c w url host o s)
    where
      by_write :
          (o : Option Text) (r : Result (Unit {0}) × RobotsState)
          → (elim r.0 as (λ _. Result Text × RobotsState) [
            | ok u ↦ (ok (elim o as (λ _. Text) [ none ↦ [] | some b ↦ b ]), r.1)
            | err e ↦ (err e, r.1)
            | panic ↦ (panic, r.1)
          ]).0
            ≡ ok body
          → (o ≡ some body) ⊎ (body ≡ [])
      by_write none (ok u, s) e = inr (sym cc)
      by_write (some b) (ok u, s) e = inl cc
      by_write o (err x, s) e = absurd cc
      by_write o (panic, s) e = absurd cc

  fetched-same : (host : Text) (o : Result Text × RobotsState) → (fetched api c host o).0 ≡ o.0
  unfolding fetched
  fetched-same host (ok b, s) = refl
  fetched-same host (err x, s) = refl
  fetched-same host (panic, s) = refl

  usable-ok :
      (r : Reply (FetchResponse Url)) (body : Text)
      → usable api c r ≡ some body
      → (response : FetchResponse Url) × (r ≡ done response)
        × (response.status ≡ 200)
        × (response.body ≡ body)
  usable-ok (failed x) body e = absurd cc
  usable-ok (done response) body e =
      (response, refl, ground (arith, e, eqb_iff response.status 200), ground (arith, e))

  fetched-body :
      (w : Weather Url) (url : Url) (host body : Text) (s : RobotsState)
      → (fetched api c host (fetch_and_cache api c w url host s)).0 ≡ ok body
      → Source w url host s body ⊎ (body ≡ [])
  unfolding fetch_and_cache
  fetched-body w url host body s = elim (Option-cases (c.parse (robots_url api c url host))) [
    | inl z ↦ rw (z, fetch_and_cache) (unfold fetched in λ e. absurd cc)
    | inr (target, at) ↦
        rw (at, fetch_and_cache)
          (λ e.
            elim (cached_as-body w url host body (usable api c (w.fetch target)) s (
              sym (fetched-same host (cached_as api c w url host (usable api c (w.fetch target)) s))
              ∙ e)) [
                | inl p ↦ inl (inr (inr (target, refl, usable-ok (w.fetch target) body p)))
                | inr p ↦ inr p
              ])
  ]

  on_read-Source :
      (w : Weather Url) (url : Url) (host body : Text) (s : RobotsState) (r : Result (Option Text))
      → read_cache api c w url host s ≡ r
      → (on_read api c w url host s r).0 ≡ ok body
      → Source w url host s body ⊎ (body ≡ [])
  unfolding on_read
  on_read-Source w url host body s (ok (some b)) h e = inl (
      inr (
        inl (
          h
          ∙ ap
              (λ r. elim r as (λ _. Result (Option Text)) [
                | ok x ↦ ok (some x)
                | err x ↦ err x
                | panic ↦ panic
              ])
              e)))
  on_read-Source w url host body s (ok none) h e = fetched-body w url host body s e
  on_read-Source w url host body s (err x) h e = absurd cc
  on_read-Source w url host body s panic h e = absurd cc

  body_for-Source :
      (w : Weather Url) (url : Url) (host body : Text) (s : RobotsState)
      → (body_for api c w url host s).0 ≡ ok body
      → Source w url host s body ⊎ (body ≡ [])
  unfolding body_for
  body_for-Source w url host body s e = elim (Option-cases (Map.get host s.in_process)) [
    | inr (b, found) ↦
        let held : (body_for api c w url host s).0 ≡ ok b = rw (found, body_for) refl in
        let same : ok b ≡ ok body = sym held ∙ e in inl (inl (found ∙ ap some (cc same)))
    | inl z ↦
        let read : (body_for api c w url host s).0
            ≡ (on_read api c w url host s (read_cache api c w url host s)).0 =
          rw (z, body_for) refl in
        on_read-Source w url host body s (read_cache api c w url host s) refl (sym read ∙ e)
  ]

  -- A URL is refused only by rules that were read: they are of a body that the process or Redis had, or
  -- that a response of status 200 brought, which is UTF-8 and which the parser accepts.
  pub allowed_refuses :
      (w : Weather Url) (url : Url) (user_agent : Text) (s : RobotsState)
      → (allowed api c w url user_agent s).0 ≡ ok false
      → (host : Text) × (api.host url ≡ some host)
        × ((body : Text) × Source w url host s body × Forbids body user_agent url)
  allowed_refuses w url user_agent s e = elim (Option-cases (api.host url)) [
    | inl z ↦
        let open_ : (allowed api c w url user_agent s).0 ≡ ok true =
          unfold allowed in rw (z, allowed) refl in
        absurd (ground (arith, e, open_))
    | inr (host, at) ↦
        let asked = allowed-judged w url user_agent host s at in
        let (body, found, judged_by, _) =
          judged-body user_agent url (body_for api c w url host s) false
            (ap (λ o. o.0) (sym asked) ∙ e) in
        let (filled, forbids) = evaluate_rules-Forbids body user_agent url (sym judged_by) in
        elim (body_for-Source w url host body s found) [
          | inl p ↦ (host, at, (body, p, forbids))
          | inr p ↦ absurd (filled p)
        ]
  ]

scaled_between :
    (secs k lo hi : ℕ) → lo ≤ k → k ≤ hi → (secs * lo ≤ secs * k) × (secs * k ≤ secs * hi)
scaled_between ℕ.zero k lo hi a b = (omega arith, omega arith)
scaled_between (ℕ.suc secs) k lo hi a b =
    let (below, above) = scaled_between secs k lo hi a b in
    (omega (arith, below, a), omega (arith, above, b))

-- A lifetime of at least one second, which 120 percent keep inside an i64, is lengthened or shortened
-- by 20 percent at most, rounded down to a second, and stays at least one.
pub jittered_ttl_bounds :
    (secs h : ℕ)
    → 0 < secs
    → secs * 120 < 2 ^ 63
    → (secs * 80 < (jittered_ttl secs h + 1) * 100)
      × (1 ≤ jittered_ttl secs h)
      × (jittered_ttl secs h ≤ max (secs * 120 / 100) 1)
unfolding jittered_ttl
jittered_ttl_bounds secs h some_ small =
    let (below, above) = scaled_between secs (80 + h % 41) 80 120 (omega arith) (omega arith) in
    let p = secs * (80 + h % 41) in
    let exact : p % 2 ^ 64 ≡ p = omega (arith, above, small) in
    let inside : ltb p (2 ^ 63) ≡ true = lt→ltb p (2 ^ 63) (omega (arith, above, small)) in
    rw (exact, jittered_ttl) (rw inside (bounds p below above))
  where
    bounds :
        (p : ℕ)
        → secs * 80 ≤ p
        → p ≤ secs * 120
        → (secs * 80 < (max (p / 100) 1 + 1) * 100)
          × (1 ≤ max (p / 100) 1)
          × (max (p / 100) 1 ≤ max (secs * 120 / 100) 1)
    bounds p below above = (omega arith, omega arith, omega arith)
