-- ===== src/Politeness/Circuit.antt =====
-- crates/crawlrs-politeness/src: when the circuit of a host opens and closes, and the shortcut of
-- the wake planner.
use crawlrs.Prelude.{
  ℕ, ◌+◌, ◌≡◌, refl, Bool, false, not, ◌&&◌, List, [], ◌∷◌, Option, none, some, eqb, ltb, contains,
  ◌==◌, ==_refl, unwrap_or, list_eq, nat_eq, inl, inr, arith, Bool-cases, Option-cases, ap, ◌∙◌,
  sym,
}
use crawlrs.Prelude.Map
use crawlrs.Prelude.Map.{Map}
use crawlrs.Core.Error.{Text, ok, FailureKind}
use crawlrs.Core.Types.{UrlApi}
use crawlrs.Politeness.Backoff.{Float, PolitenessOverride, is_delay, any_delay, has_host_delay}
use crawlrs.Politeness.Composite.{
  HostState, no_state, TrackerState, Settings, as_millis, host_state, failures, forget,
  assert_owned, read_circuit, note_failure, clear_host, reset_on_success, effective_host_delay,
}

any_delay-get :
    (host : Text) (o : PolitenessOverride) (m : Map Text PolitenessOverride)
    → any_delay m ≡ false
    → Map.get host m ≡ some o
    → is_delay o.host_delay ≡ false
unfolding any_delay Map.get
any_delay-get host o [] h e = cc
any_delay-get host o ((k, p) ∷ m) h e = ground (arith, any_delay-get host o m)

no_delay : (d : Option ℕ) (global : ℕ) → is_delay d ≡ false → global ≡ 0 → unwrap_or d global ≡ 0
unfolding is_delay
no_delay none global h e = e
no_delay (some n) global h e = ground arith

contains-forget : (host : Text) (hs : List Text) → contains (forget host hs) host ≡ false
unfolding forget
contains-forget host [] = refl
contains-forget host (h ∷ hs) = elim (Bool-cases (host == h)) [
  | inl same ↦ rw (same, forget) (contains-forget host hs)
  | inr other ↦ rw (other, forget) (rw other (contains-forget host hs))
]

-- The circuit that a host's record shows.
unfoldable pub circuit_of : ℕ → ℕ → HostState → Bool
circuit_of threshold now x =
    not (ltb (unwrap_or x.consecutive_failures 0) threshold)
    && elim x.backoff_until_ms [ none ↦ false | some t ↦ ltb (as_millis now) t ]

get-insert_same :
    (host : Text) (x : HostState) (m : Map Text HostState)
    → Map.get host (Map.insert host x m) ≡ some x
get-insert_same host x m = Map.get-insert host host x m ∙ rw (==_refl host) refl

get-remove_same : (host : Text) (m : Map Text HostState) → Map.get host (Map.remove host m) ≡ none
get-remove_same host m = Map.get-remove host host m ∙ rw (==_refl host) refl

host_state-insert :
    (host : Text) (x : HostState) (m : Map Text HostState) (known : List Text)
    → host_state host (record { hosts = Map.insert host x m; hosts_with_failure_state = known }) ≡ x
unfolding host_state
host_state-insert host x m known = ap (λ o. unwrap_or o no_state) (get-insert_same host x m)

failures-remove :
    (host : Text) (m : Map Text HostState) (known : List Text)
    → failures host (record { hosts = Map.remove host m; hosts_with_failure_state = known }) ≡ 0
unfolding failures host_state
failures-remove host m known =
    ap (λ o. unwrap_or (unwrap_or o no_state).consecutive_failures 0) (get-remove_same host m)

module _ {Url F : Type 0} (api : UrlApi Url) (f64 : Float F) (c : Settings Url F) where
  -- Where no delay is configured, the planner's shortcut gives what the lookup would have given:
  -- every host has the delay zero.
  pub has_host_delay-effective :
      (host : Text) → has_host_delay c.config ≡ false → effective_host_delay api f64 c host ≡ 0
  unfolding has_host_delay effective_host_delay
  has_host_delay-effective host h = elim (Option-cases (Map.get host c.config.per_domain)) [
    | inl e ↦ rw (e, effective_host_delay) (ground arith)
    | inr (o, e) ↦
        rw (e, effective_host_delay)
          (no_delay o.host_delay c.config.host_delay
            (any_delay-get host o c.config.per_domain (ground arith) e) (ground arith))
  ]

  read_circuit-circuit_of :
      (now : ℕ) (host : Text) (s : TrackerState)
      → (read_circuit api f64 c now host s).0
        ≡ circuit_of c.backoff.failure_threshold now (host_state host s)
  unfolding read_circuit circuit_of failures
  read_circuit-circuit_of now host s =
      elim (Bool-cases (ltb (failures host s) c.backoff.failure_threshold)) [
        | inl few ↦ rw (few, read_circuit) refl
        | inr many ↦ rw (many, read_circuit) refl
      ]

  -- After a failure, the circuit is open exactly if the count reached the threshold and the time of
  -- the plan has not come.
  pub read_circuit-note_failure :
      (now later : ℕ) (kind : FailureKind) (hint : Option ℕ) (host : Text) (s : TrackerState)
      → (read_circuit api f64 c later host (note_failure api f64 c now kind hint host s).1).0 ≡ (
          not (ltb (failures host s + 1) c.backoff.failure_threshold)
          && ltb (as_millis later) (note_failure api f64 c now kind hint host s).0.until_ms)
  unfolding note_failure circuit_of
  read_circuit-note_failure now later kind hint host s =
      read_circuit-circuit_of later host (note_failure api f64 c now kind hint host s).1
      ∙ ap (circuit_of c.backoff.failure_threshold later)
          (host_state-insert host _ s.hosts (host ∷ s.hosts_with_failure_state))

  hosts-read_circuit :
      (now : ℕ) (host : Text) (s : TrackerState)
      → ((read_circuit api f64 c now host s).1.hosts ≡ s.hosts)
        × (contains (read_circuit api f64 c now host s).1.hosts_with_failure_state host
            ≡ not (eqb (failures host s) 0))
  unfolding read_circuit
  hosts-read_circuit now host s = elim (Bool-cases (eqb (failures host s) 0)) [
    | inl clean ↦ elim (Bool-cases (ltb (failures host s) c.backoff.failure_threshold)) [
      | inl few ↦
          rw (clean, few, read_circuit) (refl, contains-forget host s.hosts_with_failure_state)
      | inr many ↦
          rw (clean, many, read_circuit) (refl, contains-forget host s.hosts_with_failure_state)
    ]
    | inr dirty ↦ elim (Bool-cases (ltb (failures host s) c.backoff.failure_threshold)) [
      | inl few ↦ rw (dirty, few, read_circuit) (refl, rw (==_refl host) refl)
      | inr many ↦ rw (dirty, many, read_circuit) (refl, rw (==_refl host) refl)
    ]
  ]

  failures-reset :
      (host : Text) (t : TrackerState)
      → assert_owned api f64 c (c.sharding_policy.shard_key_from_host host) ≡ ok tt
      → contains t.hosts_with_failure_state host ≡ not (eqb (failures host t) 0)
      → failures host (reset_on_success api f64 c host t).1 ≡ 0
  unfolding reset_on_success clear_host
  failures-reset host t owned seen = elim (Bool-cases (contains t.hosts_with_failure_state host)) [
    | inl kept ↦
        rw (kept, reset_on_success)
          (rw owned (failures-remove host t.hosts (forget host t.hosts_with_failure_state)))
    | inr gone ↦ rw (gone, reset_on_success) (ground (arith, seen, gone))
  ]

  -- A successful fetch clears the failures of its host: after the circuit was read, as each check
  -- does, a reset leaves the count at zero, if the host's shard is owned.
  pub reset_on_success-clears :
      (now : ℕ) (host : Text) (s : TrackerState)
      → assert_owned api f64 c (c.sharding_policy.shard_key_from_host host) ≡ ok tt
      → failures host (reset_on_success api f64 c host (read_circuit api f64 c now host s).1).1 ≡ 0
  unfolding failures host_state
  reset_on_success-clears now host s owned =
      let k = hosts-read_circuit now host s in
      failures-reset host (read_circuit api f64 c now host s).1 owned (
        k.1
        ∙ ap
            (λ m.
              not (eqb (unwrap_or (unwrap_or (Map.get host m) no_state).consecutive_failures 0) 0))
            (sym k.0))
