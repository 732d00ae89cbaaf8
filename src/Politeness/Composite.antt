-- ===== src/Politeness/Composite.antt =====
-- crates/crawlrs-politeness/src: composite.rs, backoff_tracker.rs and wake_planner.rs. The hash that
-- Redis keeps for a host is a record of its fields, a field that is not set being `none`; a Redis
-- call that fails is not modelled, nor the eviction from the cache of failing hosts. Times are
-- nanoseconds since the epoch.
use crawlrs.Prelude.{
  ℕ, ◌+◌, ◌*◌, ◌/◌, ◌%◌, ◌^◌, Bool, true, false, List, [], ◌∷◌, Option, none, some, eqb, ltb,
  if◌then◌else◌, contains, ◌==◌, unwrap_or, list_eq, nat_eq,
}
use crawlrs.Prelude.Map
use crawlrs.Prelude.Map.{Map}
use crawlrs.Core.Error.{Text, Result, ok, err, panic, FailureKind, shard_not_owned, no_host}
use crawlrs.Core.Types.{UrlApi, NextWake, PoliteDecision, allow, disallow, robots_txt, circuit}
use crawlrs.Core.Sharding.{ShardingPolicy}
use crawlrs.Politeness.Backoff.{
  Float, BackoffPolicy, compute_backoff, PolitenessConfig, has_host_delay,
}

-- `crawlrs:...:hoststate:{host}`.
pub record HostState : Type 0 where
  pub consecutive_failures : Option ℕ
  pub backoff_until_ms : Option ℕ
  pub last_kind : Option FailureKind

-- The Redis hash of a host is under a key with its shard too; the shard of a host does not change, so
-- that the host alone finds it here. A count of failures stays below 2^32, where the reply of HINCRBY
-- is read as a u32.
pub record TrackerState : Type 0 where
  pub hosts : Map Text HostState
  pub hosts_with_failure_state : List Text

pub record Settings (Url F : Type 0) : Type 0 where
  pub sharding_policy : ShardingPolicy Url
  pub owned_shards : List ℕ
  pub backoff : BackoffPolicy F
  pub config : PolitenessConfig

-- `as_millis() as u64`.
abbrev pub as_millis : ℕ → ℕ
as_millis t = t / 1_000_000 % 2 ^ 64

-- `SystemTime::checked_add`, whose seconds are an `i64`, and the milliseconds of the sum.
unfoldable pub wake_score : ℕ → ℕ → ℕ
wake_score now delay =
    if ltb (now + delay) (2 ^ 63 * 1_000_000_000) then as_millis (now + delay) else 0

abbrev pub no_state : HostState
no_state = record { consecutive_failures = none; backoff_until_ms = none; last_kind = none }

unfoldable pub host_state : Text → TrackerState → HostState
host_state host s = unwrap_or (Map.get host s.hosts) no_state

unfoldable pub failures : Text → TrackerState → ℕ
unfolding host_state
failures host s = unwrap_or (host_state host s).consecutive_failures 0

-- The cache's `insert` and `invalidate`.
unfoldable pub forget : Text → List Text → List Text
forget host [] = []
forget host (h ∷ hs) = let rest = forget host hs in if host == h then rest else h ∷ rest

module _ {Url F : Type 0} (api : UrlApi Url) (f64 : Float F) (c : Settings Url F) where
  unfoldable pub assert_owned : ℕ → Result (Unit {0})
  assert_owned shard =
      if contains c.owned_shards shard then ok tt else err (shard_not_owned shard c.owned_shards)

  -- `is_open` behind the check of the shard.
  unfoldable pub read_circuit : ℕ → Text → TrackerState → Bool × TrackerState
  unfolding failures forget
  read_circuit now host s =
      let until = (host_state host s).backoff_until_ms in
      let known =
        if eqb (failures host s) 0
        then record s { hosts_with_failure_state = forget host s.hosts_with_failure_state }
        else record s { hosts_with_failure_state = host ∷ s.hosts_with_failure_state } in
      if ltb (failures host s) c.backoff.failure_threshold
      then (false, known)
      else (elim until [ none ↦ false | some t ↦ ltb (as_millis now) t ], known)

  unfoldable pub is_open : ℕ → Text → TrackerState → Result Bool × TrackerState
  unfolding assert_owned read_circuit
  is_open now host s = elim (assert_owned (c.sharding_policy.shard_key_from_host host)) [
    | ok u ↦ let (opened, known) = read_circuit now host s in (ok opened, known)
    | err e ↦ (err e, s)
    | panic ↦ (panic, s)
  ]

  -- `record_failure` behind the checks of the host and the shard.
  unfoldable pub note_failure :
      ℕ → FailureKind → Option ℕ → Text → TrackerState → NextWake × TrackerState
  unfolding failures wake_score
  note_failure now kind server_hint host s =
      let new_failures = failures host s + 1 in
      let until = wake_score now (compute_backoff f64 new_failures kind server_hint c.backoff) in
      (
        record { host = host; until_ms = until },
        record {
          hosts =
              Map.insert host
                (record {
                  consecutive_failures = some new_failures;
                  backoff_until_ms = some until;
                  last_kind = some kind;
                })
                s.hosts;
          hosts_with_failure_state = host ∷ s.hosts_with_failure_state;
        },
      )

  unfoldable pub record_failure :
      ℕ → Url → FailureKind → Option ℕ → TrackerState → Result NextWake × TrackerState
  unfolding assert_owned note_failure
  record_failure now url kind server_hint s = elim (api.host url) [
    | none ↦ (err (no_host (api.as_str url)), s)
    | some host ↦ elim (assert_owned (c.sharding_policy.shard_key url)) [
      | ok u ↦ let (plan, noted) = note_failure now kind server_hint host s in (ok plan, noted)
      | err e ↦ (err e, s)
      | panic ↦ (panic, s)
    ]
  ]

  unfoldable pub clear_host : Text → TrackerState → TrackerState
  unfolding forget
  clear_host host s = record {
    hosts = Map.remove host s.hosts;
    hosts_with_failure_state = forget host s.hosts_with_failure_state;
  }

  unfoldable pub reset_on_success : Text → TrackerState → Result (Unit {0}) × TrackerState
  unfolding assert_owned clear_host
  reset_on_success host s =
      if contains s.hosts_with_failure_state host
      then (elim (assert_owned (c.sharding_policy.shard_key_from_host host)) [
        | ok u ↦ (ok tt, clear_host host s)
        | err e ↦ (err e, s)
        | panic ↦ (panic, s)
      ])
      else (ok tt, s)

  unfoldable pub effective_host_delay : Text → ℕ
  effective_host_delay host = elim (Map.get host c.config.per_domain) [
    | none ↦ c.config.host_delay
    | some o ↦ unwrap_or o.host_delay c.config.host_delay
  ]

  -- `RedisWakePlanner::record_fetch`.
  unfoldable pub plan_wake : ℕ → Text → Result NextWake
  unfolding assert_owned wake_score effective_host_delay
  plan_wake now host = elim (assert_owned (c.sharding_policy.shard_key_from_host host)) [
    | ok u ↦ ok (record {
      host = host;
      until_ms = wake_score now (if has_host_delay c.config then effective_host_delay host else 0);
    })
    | err e ↦ err e
    | panic ↦ panic
  ]

  unfoldable pub effective_obey_robots : Text → Bool
  effective_obey_robots host = elim (Map.get host c.config.per_domain) [
    | none ↦ c.config.obey_robots_txt
    | some o ↦ unwrap_or o.obey_robots_txt c.config.obey_robots_txt
  ]

  -- The decision once the circuit is closed; `allowed` is the robots checker.
  unfoldable pub check_robots : (Url → Result Bool) → Url → Text → Result PoliteDecision
  unfolding effective_obey_robots
  check_robots allowed url host =
      if effective_obey_robots host
      then (elim (allowed url) [
        | ok b ↦ ok (if b then allow else disallow robots_txt)
        | err e ↦ err e
        | panic ↦ panic
      ])
      else ok allow

  unfoldable pub check :
      (Url → Result Bool) → ℕ → Url → TrackerState → Result PoliteDecision × TrackerState
  unfolding is_open check_robots
  check allowed now url s = elim (api.host url) [
    | none ↦ (err (no_host (api.as_str url)), s)
    | some host ↦
        let (opened, known) = is_open now host s in
        elim opened [
          | ok true ↦ (ok (disallow circuit), known)
          | ok false ↦ (check_robots allowed url host, known)
          | err e ↦ (err e, known)
          | panic ↦ (panic, known)
        ]
  ]

  unfoldable pub record_fetch : ℕ → Url → TrackerState → Result NextWake × TrackerState
  unfolding reset_on_success plan_wake
  record_fetch now url s = elim (api.host url) [
    | none ↦ (err (no_host (api.as_str url)), s)
    | some host ↦
        let (r, cleared) = reset_on_success host s in
        elim r [
          | ok u ↦ (plan_wake now host, cleared)
          | err e ↦ (err e, cleared)
          | panic ↦ (panic, cleared)
        ]
  ]
