-- ===== src/Redis/Frontier.antt =====
-- crates/crawlrs-frontier/src/frontier.rs and bloom.rs: `RedisFrontier` and its methods of the trait
-- `Frontier`. The clocks and the outcome of every call are arguments; metrics are left out.
use crawlrs.Prelude.{
  ℕ, zero, suc, ◌+◌, ◌-◌, ◌%◌, ◌^◌, Bool, true, false, List, [], ◌∷◌, ◌++◌, Option, none, some, ltb,
  leb, eqb, if◌then◌else◌, contains, ◌==◌, list_eq, nat_eq, length, get_elem?, min, unwrap_or,
}
use crawlrs.Prelude.Map
use crawlrs.Prelude.Map.{Map}
use crawlrs.Core.Error.{Text, Result, ok, err, panic, shard_not_owned, shard_out_of_range, no_host}
use crawlrs.Core.Types.{
  UrlApi, UrlEntry, SubmitOutcome, SubmitBatchOutcome, ClaimOutcome, claimed, empty_hint, empty,
}
use crawlrs.Core.UrlId.{from_canonical}
use crawlrs.Core.Scope.{CrawlScope, max_urls_for}
use crawlrs.Core.Sharding.{ShardingPolicy}
use crawlrs.Redis.Api.{ℤ, pos, negsuc, Redis, Postcard}
use crawlrs.Redis.Keys.{KeyPrefix}
use crawlrs.Redis.Attempt.{encode_attempt, decode_attempt}
use crawlrs.Redis.Reply.{Outcome, done, failed, Client, Call, SubmitItem, ClaimRaw}
use crawlrs.Redis.Ops
use crawlrs.Redis.Ops.{TickCalls}

pub record RedisFrontier (Url : Type 0) : Type 0 where
  pub keys : KeyPrefix
  pub sharding_policy : ShardingPolicy Url
  pub owned_shards : List ℕ
  pub lease_timeout_ms : ℕ
  pub tick_batch_limit : ℕ
  pub crawl_scope : CrawlScope

-- The connection and the command of one call.
abbrev pub Try : Type 0
Try = Option Text × Call

-- `bloom::reserve`, by the message of a failed BF.RESERVE.
pub data BloomError : Type 0 where
  already_exists : BloomError
  module_missing : BloomError
  no_connection : Text → BloomError
  other_failure : Text → BloomError

-- A failed BF.RESERVE is told apart by its message: whether it says "item exists" and whether it
-- says "unknown command".
unfoldable pub reserve_error : Bool → Bool → Text → BloomError
reserve_error true unknown message = already_exists
reserve_error false true message = module_missing
reserve_error false false message = other_failure message

-- `i64::try_from(cap)`, and -1 if there is no cap or it does not fit.
unfoldable pub cap_i64 : Option ℕ → ℤ
cap_i64 none = negsuc 0
cap_i64 (some n) = if ltb n (2 ^ 63) then pos n else negsuc 0

-- `until_ms as i64`.
unfoldable pub as_i64 : ℕ → ℤ
as_i64 n = if ltb n (2 ^ 63) then pos n else negsuc (2 ^ 64 - 1 - n)

unfoldable pub ms_to_instant : ℕ → ℕ → ℕ → ℕ
ms_to_instant now_inst now_wall target_wall_ms =
    if leb target_wall_ms now_wall then now_inst else now_inst + (target_wall_ms - now_wall)

-- The range check of `RedisFrontier::new`.
unfoldable pub check_shards : ℕ → List ℕ → Result (Unit {0})
check_shards count [] = ok tt
check_shards count (shard ∷ rest) =
    if leb count shard then err (shard_out_of_range shard count) else check_shards count rest

-- What `new` makes of the outcomes of BF.RESERVE, one for each owned shard.
unfoldable pub reserve_all : List (Option BloomError) → Option BloomError
reserve_all [] = none
reserve_all (none ∷ rest) = reserve_all rest
reserve_all (some already_exists ∷ rest) = reserve_all rest
reserve_all (some e ∷ rest) = some e

module _ {Url : Type 0} (api : UrlApi Url) (f : RedisFrontier Url) where
  unfoldable pub shard_of : UrlEntry Url → Result (ℕ × Text × List ℕ)
  shard_of entry =
      if contains f.owned_shards (f.sharding_policy.shard_key entry.url)
      then elim (api.host entry.url) [
        | none ↦ err (no_host (api.as_str entry.url))
        | some host ↦ ok (f.sharding_policy.shard_key entry.url, host, from_canonical api entry.url)
      ]
      else err (shard_not_owned (f.sharding_policy.shard_key entry.url) f.owned_shards)

  unfoldable pub item_of : UrlEntry Url → Text → List ℕ → SubmitItem Url
  unfolding cap_i64
  item_of entry host url_id = record {
    url_id = url_id;
    entry = entry;
    host = host;
    max_urls = cap_i64 (max_urls_for f.crawl_scope host);
  }

  -- The items of a batch by their shard, each in the order of the batch.
  unfoldable pub group :
      List (UrlEntry Url) → Map ℕ (List (SubmitItem Url)) → Result (Map ℕ (List (SubmitItem Url)))
  unfolding shard_of item_of
  group [] groups = ok groups
  group (entry ∷ entries) groups = elim (shard_of entry) [
    | err e ↦ err e
    | panic ↦ panic
    | ok (shard, host, url_id) ↦ group entries (
        Map.insert shard (unwrap_or (Map.get shard groups) [] ++ item_of entry host url_id ∷ [])
          groups)
  ]

  -- items.iter().find(|item| item.url_id == rejected_id)
  unfoldable pub find_item : List ℕ → List (SubmitItem Url) → Option (SubmitItem Url)
  find_item id [] = none
  find_item id (item ∷ items) = if item.url_id == id then some item else find_item id items

  unfoldable pub rejected_entries : List (SubmitItem Url) → List (List ℕ) → List (UrlEntry Url)
  unfolding find_item
  rejected_entries items [] = []
  rejected_entries items (id ∷ ids) =
      let rest = rejected_entries items ids in
      elim (find_item id items) [ none ↦ rest | some item ↦ item.entry ∷ rest ]

module _ {R Value Url : Type 0} (redis : Redis R) (client : Client Value) (postcard : Postcard Url)
    (api : UrlApi Url) (f : RedisFrontier Url) where
  unfoldable pub submit : Try → ℕ → UrlEntry Url → R → Outcome (Result SubmitOutcome) × R
  submit (pool, call) now_ms entry r = elim (shard_of api f entry) [
    | err e ↦ (done (err e), r)
    | panic ↦ (done panic, r)
    | ok (shard, host, url_id) ↦
        let (o, r') =
          Ops.submit redis client postcard f.keys pool call shard url_id entry host now_ms r in
        elim o [ failed e ↦ (failed e, r') | done outcome ↦ (done (ok outcome), r') ]
  ]

  -- The loop of `submit_batch` over the shards; a failed call ends it.
  unfoldable pub submit_groups :
      (ℕ → Try)
      → ℕ
      → Map ℕ (List (SubmitItem Url))
      → SubmitBatchOutcome Url
      → R
      → Outcome (Result (SubmitBatchOutcome Url)) × R
  submit_groups calls now_ms [] total r = (done (ok total), r)
  submit_groups calls now_ms ((shard, items) ∷ groups) total r =
      let (o, r') =
        Ops.submit_batch redis client postcard f.keys (calls shard).0 (calls shard).1 shard items
          now_ms r in
      elim o [
        | failed e ↦ (failed e, r')
        | done (queued, rejected_ids) ↦
            submit_groups calls now_ms groups
              (record {
                queued = total.queued + queued;
                rejected_urls = total.rejected_urls ++ rejected_entries api f items rejected_ids;
              })
              r'
      ]

  unfoldable pub submit_batch :
      (ℕ → Try) → ℕ → List (UrlEntry Url) → R → Outcome (Result (SubmitBatchOutcome Url)) × R
  unfolding submit_groups
  submit_batch calls now_ms entries r = elim (group api f entries []) [
    | err e ↦ (done (err e), r)
    | panic ↦ (done panic, r)
    | ok groups ↦ submit_groups calls now_ms groups (record { queued = 0; rejected_urls = [] }) r
  ]

  -- The earlier of two hints.
  unfoldable pub sooner : Option ℕ → ℕ → Option ℕ
  sooner none ms = some ms
  sooner (some best) ms = some (min best ms)

  unfoldable pub no_claim : ℕ → ℕ → Option ℕ → ClaimOutcome Url
  unfolding ms_to_instant
  no_claim now_inst now_wall none = empty
  no_claim now_inst now_wall (some ms) = empty_hint (ms_to_instant now_inst now_wall ms)

  -- The loop of `claim` over the owned shards, `left` of them to come. `after` has the clocks when
  -- the loop ends.
  unfoldable pub claim_loop :
      (ℕ → Try) → ℕ → ℕ × ℕ → ℕ → ℕ → ℕ → Option ℕ → R → Outcome (Result (ClaimOutcome Url)) × R
  unfolding sooner no_claim
  claim_loop calls now after start zero offset soonest_hint r =
      (done (ok (no_claim after.0 after.1 soonest_hint)), r)
  claim_loop calls now after start (suc left) offset soonest_hint r =
      elim (get_elem? f.owned_shards ((start + offset) % length f.owned_shards)) [
        | none ↦ (done panic, r)
        | some shard ↦
            let (o, r') =
              Ops.claim redis client postcard f.keys (calls shard).0 (calls shard).1 shard now
                f.lease_timeout_ms r in
            elim o [
              | failed e ↦ (failed e, r')
              | done (ClaimRaw.claimed url_id entry host) ↦
                  (done (ok (claimed url_id entry (encode_attempt shard url_id host))), r')
              | done (ClaimRaw.empty_hint soonest_ms) ↦
                  claim_loop calls now after start left (offset + 1)
                    (sooner soonest_hint soonest_ms) r'
              | done ClaimRaw.empty ↦
                  claim_loop calls now after start left (offset + 1) soonest_hint r'
            ]
      ]

  -- The cursor is an atomic of 64 bits, which the answer moves on.
  unfoldable pub claim : (ℕ → Try) → ℕ → ℕ × ℕ → ℕ × R → Outcome (Result (ClaimOutcome Url)) × ℕ × R
  unfolding claim_loop
  claim calls now after (claim_cursor, r) =
      if eqb (length f.owned_shards) 0
      then (done (ok empty), claim_cursor, r)
      else let (o, r') =
          claim_loop calls now after (claim_cursor % length f.owned_shards) (length f.owned_shards)
            0 none r in
        (o, (claim_cursor + 1) % 2 ^ 64, r')

  unfoldable pub advance_wake : Try → Text → ℕ → R → Outcome (Unit {0}) × R
  unfolding as_i64
  advance_wake (pool, call) host until_ms r =
      if contains f.owned_shards (f.sharding_policy.shard_key_from_host host)
      then Ops.advance_wake redis f.keys pool call (f.sharding_policy.shard_key_from_host host) host
          (as_i64 until_ms) r
      else (done tt, r)

  abbrev answer : {A : Type 0} → Outcome A × R → Outcome (Result A) × R
  answer (failed e, r) = (failed e, r)
  answer (done a, r) = (done (ok a), r)

  unfoldable pub ack : Option Text → Call → Call → Text → R → Outcome (Result (Unit {0})) × R
  ack pool zrem hdel attempt r = elim (decode_attempt attempt) [
    | err e ↦ (done (err e), r)
    | panic ↦ (done panic, r)
    | ok (shard, url_id, host) ↦
        if contains f.owned_shards shard
        then answer (Ops.ack redis f.keys pool zrem hdel shard url_id host r)
        else (done (ok tt), r)
  ]

  unfoldable pub tick : (ℕ → TickCalls redis f.keys) → ℕ → R → Result ℕ × R
  tick calls now_ms r =
      let (counts, r') =
        Ops.tick_once redis f.keys calls f.owned_shards now_ms f.tick_batch_limit r in
      (ok (counts.0 + counts.1), r')
