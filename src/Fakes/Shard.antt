-- ===== src/Fakes/Shard.antt =====
-- crates/crawlrs-fakes/src/frontier.rs: the state of one shard, and what each operation of
-- `InMemoryFrontier` does to it.
use crawlrs.Prelude.{
  ℕ, ◌+◌, ◌-◌, ◌^◌, min, Bool, false, not, ◌&&◌, ◌||◌, List, [], ◌∷◌, ◌++◌, Option, none, some,
  length, leb, if◌then◌else◌, contains, ◌==◌, list_eq, nat_eq, unwrap_or,
}
use crawlrs.Prelude.Map
use crawlrs.Prelude.Map.{Map}
use crawlrs.Core.Error.{Text, Result, ok, err, panic}
use crawlrs.Core.Types.{UrlEntry, SubmitOutcome, queued, skipped_duplicate}

pub record InflightSlot : Type 0 where
  pub host : Text
  pub lease_expiry_ms : ℕ

pub record ShardState (Url : Type 0) : Type 0 where
  pub host_queue : Map Text (List Text)
  pub urls : Map Text (UrlEntry Url)
  pub seen : List Text
  pub host_count : Map Text ℕ
  pub wake : Map Text ℕ
  pub ready : List Text
  pub inflight : Map Text InflightSlot

abbrev pub empty_shard : {Url : Type 0} → ShardState Url
empty_shard = record {
  host_queue = [];
  urls = [];
  seen = [];
  host_count = [];
  wake = [];
  ready = [];
  inflight = [];
}

abbrev pub u64_max : ℕ
u64_max = 2 ^ 64 - 1

-- `a.saturating_add(b)` on u64.
abbrev pub saturating_add : ℕ → ℕ → ℕ
saturating_add a b = min (a + b) u64_max

-- What becomes of one URL of a batch.
pub data BatchItem : Type 0 where
  rejected duplicate accepted : BatchItem

-- ready.retain(|h| h != host)
unfoldable pub retain_ne : Text → List Text → List Text
retain_ne host [] = []
retain_ne host (h ∷ hs) = let rest = retain_ne host hs in if h == host then rest else h ∷ rest

-- The hosts that a tick promotes, in the order of the iteration over `wake`.
unfoldable pub due_hosts : ℕ → List Text → Map Text ℕ → List Text
due_hosts now_ms ready [] = []
due_hosts now_ms ready ((host, score) ∷ wake) =
    let rest = due_hosts now_ms ready wake in
    if leb score now_ms && not (contains ready host) then host ∷ rest else rest

-- The leases that have run out at `now_ms`.
unfoldable pub expired_leases : ℕ → Map Text InflightSlot → List Text
expired_leases now_ms [] = []
expired_leases now_ms ((url_id, slot) ∷ m) =
    let rest = expired_leases now_ms m in
    if leb slot.lease_expiry_ms now_ms then url_id ∷ rest else rest

module _ {Url : Type 0} where
  -- The queue of a host; `entry(host).or_default()` before a push.
  unfoldable pub queue_of : Text → ShardState Url → List Text
  queue_of host s = unwrap_or (Map.get host s.host_queue) []

  -- host_queue.entry(host).or_default().push_back(url_id)
  unfoldable pub push_back : Text → Text → ShardState Url → ShardState Url
  unfolding queue_of
  push_back host url_id s = record s {
    host_queue = Map.insert host (queue_of host s ++ url_id ∷ []) s.host_queue;
  }

  -- The part of `submit` and `submit_batch` behind the dedup check.
  unfoldable pub enqueue : ℕ → Text → Text → UrlEntry Url → ShardState Url → ShardState Url
  unfolding push_back
  enqueue now_ms url_id host entry s = push_back host url_id (record s {
    seen = url_id ∷ s.seen;
    urls = Map.insert url_id entry s.urls;
    wake = Map.or_insert host now_ms s.wake;
  })

  unfoldable pub submit_shard :
      ℕ → Text → Text → UrlEntry Url → ShardState Url → SubmitOutcome × ShardState Url
  unfolding enqueue
  submit_shard now_ms url_id host entry s =
      if contains s.seen url_id
      then (skipped_duplicate, s)
      else (queued, enqueue now_ms url_id host entry s)

  unfoldable pub at_quota : Option ℕ → Text → ShardState Url → Bool
  at_quota none host s = false
  at_quota (some cap) host s = leb cap (unwrap_or (Map.get host s.host_count) 0)

  unfoldable pub bump_count : Option ℕ → Text → ShardState Url → ShardState Url
  bump_count none host s = s
  bump_count (some cap) host s = record s {
    host_count = Map.insert host (unwrap_or (Map.get host s.host_count) 0 + 1) s.host_count;
  }

  -- One round of the loop of `submit_batch`.
  unfoldable pub batch_shard :
      ℕ → Option ℕ → Text → Text → UrlEntry Url → ShardState Url → BatchItem × ShardState Url
  unfolding at_quota bump_count enqueue
  batch_shard now_ms cap url_id host entry s =
      if at_quota cap host s
      then (rejected, s)
      else if contains s.seen url_id
      then (duplicate, s)
      else (accepted, enqueue now_ms url_id host entry (bump_count cap host s))

  -- A URL popped from the front of `host`'s queue: take its payload, stamp the lease, and set the
  -- safety wake-time. A missing payload is the `expect` of `pop_one_ready`.
  unfoldable pub lease_url :
      ℕ
      → ℕ
      → Text
      → Text
      → ShardState Url
      → Result (Option (Text × UrlEntry Url × Text)) × ShardState Url
  lease_url now_ms lease_timeout_ms host url_id s = elim (Map.get url_id s.urls) [
    | none ↦ (panic, s)
    | some entry ↦ (
      ok (some (url_id, entry, host)),
      record s {
        inflight =
            Map.insert url_id
              (record { host = host; lease_expiry_ms = saturating_add now_ms lease_timeout_ms })
              s.inflight;
        wake = Map.insert host (saturating_add now_ms lease_timeout_ms) s.wake;
      },
    )
  ]

  -- The loop of `pop_one_ready` over the hosts in `ready`; stale entries are dropped.
  unfoldable pub pop_hosts :
      ℕ
      → ℕ
      → List Text
      → ShardState Url
      → Result (Option (Text × UrlEntry Url × Text)) × ShardState Url
  pop_hosts now_ms lease_timeout_ms [] s = (ok none, record s { ready = [] })
  pop_hosts now_ms lease_timeout_ms (host ∷ rest) s = elim (Map.get host s.host_queue) [
    | none ↦ pop_hosts now_ms lease_timeout_ms rest s
    | some [] ↦ pop_hosts now_ms lease_timeout_ms rest s
    | some (url_id ∷ q) ↦
        lease_url now_ms lease_timeout_ms host url_id
          (record s { ready = rest; host_queue = Map.insert host q s.host_queue })
  ]

  unfoldable pub pop_one_ready :
      ℕ → ℕ → ShardState Url → Result (Option (Text × UrlEntry Url × Text)) × ShardState Url
  unfolding pop_hosts
  pop_one_ready now_ms lease_timeout_ms s = pop_hosts now_ms lease_timeout_ms s.ready s

  unfoldable pub advance_wake_shard : Text → ℕ → ShardState Url → ShardState Url
  unfolding retain_ne
  advance_wake_shard host until_ms s =
      if Map.contains_key host s.host_queue || Map.contains_key host s.wake
      then record s { wake = Map.insert host until_ms s.wake; ready = retain_ne host s.ready }
      else s

  unfoldable pub ack_shard : Text → ShardState Url → ShardState Url
  ack_shard url_id s = record s {
    inflight = Map.remove url_id s.inflight;
    urls = Map.remove url_id s.urls;
  }

  unfoldable pub promote_host : Text → ShardState Url → ShardState Url
  promote_host host s = record s { wake = Map.remove host s.wake; ready = s.ready ++ host ∷ [] }

  unfoldable pub promote_all : List Text → ShardState Url → ShardState Url
  unfolding promote_host
  promote_all [] s = s
  promote_all (host ∷ hosts) s = promote_all hosts (promote_host host s)

  -- One expired lease: the URL goes back to its host's queue, and the host gets a wake-time.
  unfoldable pub reclaim_url : ℕ → Text → ShardState Url → Result (Unit {0}) × ShardState Url
  unfolding push_back
  reclaim_url now_ms url_id s = elim (Map.get url_id s.inflight) [
    | none ↦ (panic, s)
    | some slot ↦ (
      ok tt,
      push_back slot.host url_id (record s {
        inflight = Map.remove url_id s.inflight;
        wake = Map.or_insert slot.host now_ms s.wake;
      }),
    )
  ]

  unfoldable pub reclaim_all : ℕ → List Text → ℕ → ShardState Url → Result ℕ × ShardState Url
  reclaim_all now_ms [] affected s = (ok affected, s)
  reclaim_all now_ms (url_id ∷ ids) affected s =
      let (r, s') = reclaim_url now_ms url_id s in
      elim r [
        | ok u ↦ reclaim_all now_ms ids (affected + 1) s'
        | err e ↦ (err e, s')
        | panic ↦ (panic, s')
      ]

  -- The body of the loop of `tick` over the shards: promote, then reclaim.
  unfoldable pub tick_shard : ℕ → ℕ → ShardState Url → Result ℕ × ShardState Url
  tick_shard now_ms affected s =
      let hosts = due_hosts now_ms s.ready s.wake in
      let promoted = promote_all hosts s in
      reclaim_all now_ms (expired_leases now_ms promoted.inflight) (affected + length hosts)
        promoted
