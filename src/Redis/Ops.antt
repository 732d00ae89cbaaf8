-- ===== src/Redis/Ops.antt =====
-- crates/crawlrs-frontier/src/host_queue.rs, codec.rs and promoter.rs: the calls that the frontier
-- makes on Redis. `none` stands for a connection of the pool, a text for the failure to get one.
use crawlrs.Prelude.{ℕ, zero, suc, ◌+◌, List, [], ◌∷◌, Option, none, some}
use crawlrs.Core.Error.{Text}
use crawlrs.Core.Types.{UrlEntry, SubmitOutcome, queued, skipped_duplicate}
use crawlrs.Core.Decimal.{to_decimal}
use crawlrs.Core.UrlId.{to_hex}
use crawlrs.Redis.Api.{ℤ, Redis, Postcard}
use crawlrs.Redis.Keys
use crawlrs.Redis.Keys.{KeyPrefix}
use crawlrs.Redis.Scripts
use crawlrs.Redis.Scripts.{ClaimReply, BatchArg}
use crawlrs.Redis.Reply.{
  parse, codec, bad_tag, Outcome, done, failed, ◌>>=◌, ok_or, Client, Call, invoke, connected,
  SubmitItem, ClaimRaw, claim_value, parse_claim_value, batch_value, parse_submit_batch_value,
}

-- What `submit` makes of the number that submit.lua returns.
unfoldable pub submit_code : ℕ → Outcome SubmitOutcome
submit_code zero = done queued
submit_code (suc zero) = done skipped_duplicate
submit_code (suc (suc n)) = failed (bad_tag (to_decimal (suc (suc n))))

module _ {R Value Url : Type 0} (redis : Redis R) (client : Client Value) (postcard : Postcard Url)
    (keys : KeyPrefix) where
  unfoldable pub submit :
      Option Text → Call → ℕ → List ℕ → UrlEntry Url → Text → ℕ → R → Outcome SubmitOutcome × R
  unfolding submit_code
  submit pool call shard url_id entry host now_ms r = elim (postcard.to_allocvec entry) [
    | none ↦ (failed codec, r)
    | some payload ↦
        connected pool
          (λ r.
            let (o, r') =
              invoke call
                (Scripts.submit redis (Keys.seen shard) (Keys.urls keys shard)
                  (Keys.host_queue keys shard host) (Keys.wake keys shard) (to_hex url_id) host
                  payload now_ms)
                r in
            (o >>= submit_code, r'))
          r
  ]

  -- The arguments of submit_batch.lua, with the payloads encoded before any call.
  unfoldable pub batch_args : ℕ → List (SubmitItem Url) → Outcome (List BatchArg)
  batch_args shard [] = done []
  batch_args shard (item ∷ items) = do
    payload ← ok_or codec (postcard.to_allocvec item.entry)
    args ← batch_args shard items
    done (
        record {
          host_queue_key = Keys.host_queue keys shard item.host;
          host_count_key = Keys.host_count keys shard item.host;
          url_id = to_hex item.url_id;
          host = item.host;
          payload = payload;
          max_urls = item.max_urls;
        }
        ∷ args)

  unfoldable pub submit_encoded :
      Option Text → Call → ℕ → List BatchArg → ℕ → R → Outcome (ℕ × List (List ℕ)) × R
  submit_encoded pool call shard args now_ms = connected pool (λ r.
      let (o, r') =
        invoke call
          (Scripts.submit_batch redis (Keys.seen shard) (Keys.urls keys shard)
            (Keys.wake keys shard) now_ms args)
          r in
      (o >>= (λ reply. parse_submit_batch_value client (batch_value client reply)), r'))

  unfoldable pub submit_batch :
      Option Text → Call → ℕ → List (SubmitItem Url) → ℕ → R → Outcome (ℕ × List (List ℕ)) × R
  unfolding batch_args submit_encoded
  submit_batch pool call shard [] now_ms r = (done (0, []), r)
  submit_batch pool call shard (item ∷ items) now_ms r = elim (batch_args shard (item ∷ items)) [
    | failed e ↦ (failed e, r)
    | done args ↦ submit_encoded pool call shard args now_ms r
  ]

  -- The reply of claim.lua, whose loop ends; a script without end has no reply.
  unfoldable pub read_claim : Option ClaimReply → Outcome (ClaimRaw Url)
  read_claim none = failed parse
  read_claim (some reply) = parse_claim_value client postcard (claim_value client postcard reply)

  unfoldable pub claim : Option Text → Call → ℕ → ℕ → ℕ → R → Outcome (ClaimRaw Url) × R
  unfolding read_claim
  claim pool call shard now_ms lease_timeout_ms = connected pool (λ r.
      let (o, r') =
        invoke call
          (Scripts.claim redis (Keys.ready keys shard) (Keys.wake keys shard)
            (Keys.inflight keys shard) (Keys.urls keys shard) (Keys.host_queue_prefix keys shard)
            now_ms lease_timeout_ms)
          r in
      (o >>= read_claim, r'))

module _ {R : Type 0} (redis : Redis R) (keys : KeyPrefix) where
  unfoldable pub advance_wake : Option Text → Call → ℕ → Text → ℤ → R → Outcome (Unit {0}) × R
  advance_wake pool call shard host until_ms = connected pool (
      invoke call (λ r. (
        tt,
        Scripts.advance_wake redis (Keys.wake keys shard) (Keys.ready keys shard) host until_ms r,
      )))

  unfoldable pub promote : Option Text → Call → ℕ → ℕ → ℕ → R → Outcome ℕ × R
  promote pool call shard now_ms batch_limit = connected pool (
      invoke call
        (Scripts.promote redis (Keys.wake keys shard) (Keys.ready keys shard) now_ms batch_limit))

  unfoldable pub reclaim : Option Text → Call → ℕ → ℕ → ℕ → R → Outcome ℕ × R
  reclaim pool call shard now_ms batch_limit = connected pool (
      invoke call (
        Scripts.reclaim redis (Keys.inflight keys shard) (Keys.wake keys shard)
          (Keys.host_queue_prefix keys shard) now_ms batch_limit))

  -- ZREM and HDEL are two commands: if the first is not answered, the second is not sent.
  unfoldable pub ack : Option Text → Call → Call → ℕ → List ℕ → Text → R → Outcome (Unit {0}) × R
  ack pool zrem hdel shard url_id host = connected pool (λ r.
      let (o, r') =
        invoke zrem
          (λ r. (tt, redis.zrem (Keys.inflight keys shard) (Keys.member (to_hex url_id) host) r))
          r in
      elim o [
        | failed e ↦ (failed e, r')
        | done u ↦ invoke hdel (λ r. (tt, redis.hdel (Keys.urls keys shard) (to_hex url_id) r)) r'
      ])

  -- The calls of one tick on a shard: one connection and one command for promote and for reclaim.
  pub record TickCalls : Type 0 where
    pub promote_pool : Option Text
    pub promote_call : Call
    pub reclaim_pool : Option Text
    pub reclaim_call : Call

  -- A failed call only leaves its count out.
  abbrev pub count_done : Outcome ℕ → ℕ
  count_done (done n) = n
  count_done (failed e) = 0

  -- promoter::tick_once over the shards, with the counts so far.
  unfoldable pub tick_shards : (ℕ → TickCalls) → List ℕ → ℕ → ℕ → ℕ × ℕ → R → (ℕ × ℕ) × R
  unfolding promote reclaim
  tick_shards calls [] now_ms batch_limit acc r = (acc, r)
  tick_shards calls (shard ∷ shards) now_ms batch_limit (promoted, reclaimed) r =
      let c = calls shard in
      let (p, r') = promote c.promote_pool c.promote_call shard now_ms batch_limit r in
      let (q, r'') = reclaim c.reclaim_pool c.reclaim_call shard now_ms batch_limit r' in
      tick_shards calls shards now_ms batch_limit
        (promoted + count_done p, reclaimed + count_done q) r''

  unfoldable pub tick_once : (ℕ → TickCalls) → List ℕ → ℕ → ℕ → R → (ℕ × ℕ) × R
  unfolding tick_shards
  tick_once calls owned_shards now_ms batch_limit =
      tick_shards calls owned_shards now_ms batch_limit (0, 0)
