-- ===== src/Fakes/Frontier.antt =====
-- crates/crawlrs-fakes/src/frontier.rs: `InMemoryFrontier` and its methods of the trait `Frontier`.
-- The clock is the argument `now_ms`. A method returns its result and the state behind the mutex.
use crawlrs.Prelude.{
  ℕ, zero, suc, ◌+◌, ◌-◌, ◌%◌, ◌^◌, List, [], ◌∷◌, ◌++◌, Option, none, some, ltb, eqb,
  if◌then◌else◌, contains, list_eq, nat_eq, length, get_elem?, min,
}
use crawlrs.Prelude.Map
use crawlrs.Prelude.Map.{Map}
use crawlrs.Core.Error.{Text, Result, ok, err, panic, shard_not_owned, no_host}
use crawlrs.Core.Types.{
  UrlApi, UrlEntry, SubmitOutcome, SubmitBatchOutcome, ClaimOutcome, claimed, empty_hint, empty,
}
use crawlrs.Core.UrlId.{from_canonical}
use crawlrs.Core.Scope.{CrawlScope, max_urls_for}
use crawlrs.Core.Sharding.{ShardingPolicy}
use crawlrs.Fakes.Shard.{
  ShardState, empty_shard, BatchItem, rejected, duplicate, accepted, submit_shard, batch_shard,
  pop_one_ready, advance_wake_shard, ack_shard, tick_shard,
}
use crawlrs.Fakes.Attempt.{encode_attempt, decode_attempt}

pub record InMemoryFrontier (Url : Type 0) : Type 0 where
  pub sharding_policy : ShardingPolicy Url
  pub owned_shards : List ℕ
  pub lease_timeout_ms : ℕ
  pub crawl_scope : CrawlScope
  pub anchor_instant : ℕ
  pub anchor_clock_ms : ℕ

pub record FrontierState (Url : Type 0) : Type 0 where
  pub shards : Map ℕ (ShardState Url)
  pub claim_cursor : ℕ

abbrev pub Method : Type 0 → Type 0 → Type 0
Method Url A = FrontierState Url → Result A × FrontierState Url

module _ {Url : Type 0} where
  unfoldable pub insert_shards : List ℕ → Map ℕ (ShardState Url) → Map ℕ (ShardState Url)
  insert_shards [] m = m
  insert_shards (shard ∷ rest) m = insert_shards rest (Map.insert shard empty_shard m)

  -- The state that `InMemoryFrontier::new` builds.
  unfoldable pub new_state : List ℕ → FrontierState Url
  unfolding insert_shards
  new_state owned_shards = record { shards = insert_shards owned_shards []; claim_cursor = 0 }

  unfoldable pub set_shard : ℕ → ShardState Url → FrontierState Url → FrontierState Url
  set_shard shard ss st = record st { shards = Map.insert shard ss st.shards }

-- `api` is the URL library, `f` the frontier's configuration.
module _ {Url : Type 0} (api : UrlApi Url) (f : InMemoryFrontier Url) where
  unfoldable pub assert_owned : ℕ → Result (Unit {0})
  assert_owned shard =
      if contains f.owned_shards shard then ok tt else err (shard_not_owned shard f.owned_shards)

  -- The shard, the id and the host of an entry; a wrong shard or a missing host is an error.
  unfoldable pub locate : UrlEntry Url → Result (ℕ × List ℕ × Text)
  unfolding assert_owned
  locate entry = elim (assert_owned (f.sharding_policy.shard_key entry.url)) [
    | ok u ↦ elim (api.host entry.url) [
      | none ↦ err (no_host (api.as_str entry.url))
      | some host ↦ ok (f.sharding_policy.shard_key entry.url, from_canonical api entry.url, host)
    ]
    | err e ↦ err e
    | panic ↦ panic
  ]

  unfoldable pub submit : ℕ → UrlEntry Url → Method Url SubmitOutcome
  submit now_ms entry st = elim (locate entry) [
    | ok (shard, url_id, host) ↦ elim (Map.get shard st.shards) [
      | none ↦ (panic, st)
      | some ss ↦
          let (outcome, ss') = submit_shard now_ms url_id host entry ss in
          (ok outcome, set_shard shard ss' st)
    ]
    | err e ↦ (err e, st)
    | panic ↦ (panic, st)
  ]

  -- The outcome of a batch with one more URL in it.
  unfoldable pub tally : BatchItem → UrlEntry Url → SubmitBatchOutcome Url → SubmitBatchOutcome Url
  tally rejected entry o = record o { rejected_urls = o.rejected_urls ++ entry ∷ [] }
  tally duplicate entry o = o
  tally accepted entry o = record o { queued = o.queued + 1 }

  -- The loop of `submit_batch`; an error ends it, and what was done stays done.
  unfoldable pub batch_loop :
      ℕ → List (UrlEntry Url) → SubmitBatchOutcome Url → Method Url (SubmitBatchOutcome Url)
  batch_loop now_ms [] outcome st = (ok outcome, st)
  batch_loop now_ms (entry ∷ entries) outcome st = elim (locate entry) [
    | ok (shard, url_id, host) ↦ elim (Map.get shard st.shards) [
      | none ↦ (panic, st)
      | some ss ↦
          let (item, ss') =
            batch_shard now_ms (max_urls_for f.crawl_scope host) url_id host entry ss in
          batch_loop now_ms entries (tally item entry outcome) (set_shard shard ss' st)
    ]
    | err e ↦ (err e, st)
    | panic ↦ (panic, st)
  ]

  unfoldable pub submit_batch : ℕ → List (UrlEntry Url) → Method Url (SubmitBatchOutcome Url)
  unfolding batch_loop
  submit_batch now_ms entries =
      batch_loop now_ms entries (record { queued = 0; rejected_urls = [] })

  -- The least wake-time of a shard.
  unfoldable pub soonest : Map Text ℕ → Option ℕ → Option ℕ
  soonest [] acc = acc
  soonest ((host, ms) ∷ wake) none = soonest wake (some ms)
  soonest ((host, ms) ∷ wake) (some best) = soonest wake (some (min best ms))

  unfoldable pub clock_ms_to_instant : ℕ → ℕ
  clock_ms_to_instant ms = f.anchor_instant + (ms - f.anchor_clock_ms)

  -- The `match` at the end of `claim`.
  unfoldable pub no_claim : ℕ → Option ℕ → ClaimOutcome Url
  unfolding clock_ms_to_instant
  no_claim now_ms none = empty
  no_claim now_ms (some ms) = if ltb now_ms ms then empty_hint (clock_ms_to_instant ms) else empty

  -- The loop of `claim` over the owned shards, `left` of them to come.
  unfoldable pub claim_loop : ℕ → ℕ → ℕ → ℕ → Option ℕ → Method Url (ClaimOutcome Url)
  unfolding soonest no_claim
  claim_loop now_ms start zero offset soonest_wake st = (ok (no_claim now_ms soonest_wake), st)
  claim_loop now_ms start (suc left) offset soonest_wake st =
      elim (get_elem? f.owned_shards ((start + offset) % length f.owned_shards)) [
        | none ↦ (panic, st)
        | some shard ↦ elim (Map.get shard st.shards) [
          | none ↦ claim_loop now_ms start left (offset + 1) soonest_wake st
          | some ss ↦
              let (r, ss') = pop_one_ready now_ms f.lease_timeout_ms ss in
              let st' = set_shard shard ss' st in
              elim r [
                | ok none ↦
                    claim_loop now_ms start left (offset + 1) (soonest ss'.wake soonest_wake) st'
                | ok (some (url_id, entry, host)) ↦
                    (ok (claimed url_id entry (encode_attempt shard url_id)), st')
                | err e ↦ (err e, st')
                | panic ↦ (panic, st')
              ]
        ]
      ]

  unfoldable pub claim : ℕ → Method Url (ClaimOutcome Url)
  unfolding claim_loop
  claim now_ms st =
      if eqb (length f.owned_shards) 0
      then (ok empty, st)
      else claim_loop now_ms (st.claim_cursor % length f.owned_shards) (length f.owned_shards) 0
          none (record st { claim_cursor = (st.claim_cursor + 1) % 2 ^ 64 })

module _ {Url : Type 0} where
  unfoldable pub advance_all : Text → ℕ → Map ℕ (ShardState Url) → Map ℕ (ShardState Url)
  advance_all host until_ms [] = []
  advance_all host until_ms ((shard, ss) ∷ m) =
      (shard, advance_wake_shard host until_ms ss) ∷ advance_all host until_ms m

  unfoldable pub advance_wake : Text → ℕ → Method Url (Unit {0})
  unfolding advance_all
  advance_wake host until_ms st =
      (ok tt, record st { shards = advance_all host until_ms st.shards })

  unfoldable pub ack : Text → Method Url (Unit {0})
  ack attempt st = elim (decode_attempt attempt) [
    | ok (shard, url_id) ↦ elim (Map.get shard st.shards) [
      | none ↦ (ok tt, st)
      | some ss ↦ (ok tt, set_shard shard (ack_shard url_id ss) st)
    ]
    | err e ↦ (err e, st)
    | panic ↦ (panic, st)
  ]

  unfoldable pub tick_loop : ℕ → ℕ → Map ℕ (ShardState Url) → Result ℕ × Map ℕ (ShardState Url)
  tick_loop now_ms affected [] = (ok affected, [])
  tick_loop now_ms affected ((shard, ss) ∷ m) =
      let (r, ss') = tick_shard now_ms affected ss in
      elim r [
        | ok n ↦ let (r', m') = tick_loop now_ms n m in (r', (shard, ss') ∷ m')
        | err e ↦ (err e, (shard, ss') ∷ m)
        | panic ↦ (panic, (shard, ss') ∷ m)
      ]

  unfoldable pub tick : ℕ → Method Url ℕ
  unfolding tick_loop
  tick now_ms st =
      let (r, shards) = tick_loop now_ms 0 st.shards in (r, record st { shards = shards })

  unfoldable pub queue_len : Map ℕ (ShardState Url) → ℕ
  queue_len [] = 0
  queue_len ((shard, ss) ∷ m) = Map.total length ss.host_queue + queue_len m

  unfoldable pub len : Method Url ℕ
  unfolding queue_len
  len st = (ok (queue_len st.shards), st)
