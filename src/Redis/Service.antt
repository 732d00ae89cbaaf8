-- ===== src/Redis/Service.antt =====
-- crates/crawlrs-frontier/src/host_queue.rs and frontier.rs: the calls of `HostQueueOps` on the keys
-- of a shard, whether Redis answers them or not, and the ack of a claimed URL.
use crawlrs.Prelude.{
  All, ℕ, ◌+◌, ◌≤◌, ◌<◌, ◌≡◌, refl, List, Option, none, some, subst, contains, nat_eq, list_eq,
  if◌then◌else◌,
}
use crawlrs.Core.Error.{Text, ok}
use crawlrs.Core.Decimal.{u32_mod}
use crawlrs.Core.Types.{UrlApi, UrlEntry}
use crawlrs.Core.UrlId.{to_hex}
use crawlrs.Fakes.Accounting.{Accounted}
use crawlrs.Fakes.Shard.{ShardState, u64_max, pop_one_ready}
use crawlrs.Redis.Api.{pos, Redis, Postcard}
use crawlrs.Redis.Keys
use crawlrs.Redis.Keys.{KeyPrefix}
use crawlrs.Redis.Views.{Views}
use crawlrs.Redis.Scripts
use crawlrs.Redis.Scripts.{ClaimReply, BatchArg}
use crawlrs.Redis.Claim.{Tells, claim-Refines}
use crawlrs.Redis.Attempt.{encode_attempt, decode-encode_attempt_host}
use crawlrs.Redis.Histories.{
  Sound, IsFit, claims, advances, promotes, reclaims, acks, after, after-Sound,
}
use crawlrs.Redis.Reply.{
  done, SubmitItem, Client, IsAscii, Call, answered, refused, unanswered, invoke, connected,
  claimed,
}
use crawlrs.Redis.Parsing.{IsUrlId, parse_claim-claimed}
use crawlrs.Redis.Ops
use crawlrs.Redis.Sending.{
  invoke_keeps, connected_keeps, IsSendable, submit_keeps, submit_batch_keeps,
}
use crawlrs.Redis.Frontier
use crawlrs.Redis.Frontier.{RedisFrontier}

module _ {R Value Url : Type 0} (redis : Redis R) (client : Client Value) (postcard : Postcard Url)
    (keys : KeyPrefix) (shard : ℕ) where
  read_told :
      (s : ShardState Url) (id : List ℕ) (host : Text) (entry : UrlEntry Url)
      (o : Option ClaimReply)
      → IsUrlId id
      → IsAscii host
      → Tells redis postcard keys shard s (ok (some (to_hex id, entry, host))) o
      → Ops.read_claim redis client postcard keys o ≡ done (claimed id entry host)
  unfolding Ops.read_claim
  read_told s id host entry (some (ClaimReply.claimed id' host' payload)) ok_id ascii t = rw t.0 (
      rw t.1 (rw t.2.1 (parse_claim-claimed client postcard id host t.2.0 entry ok_id ascii t.2.2)))
  read_told s id host entry (some (ClaimReply.empty_hint z)) ok_id ascii t = absurd t
  read_told s id host entry (some ClaimReply.empty) ok_id ascii t = absurd t
  read_told s id host entry none ok_id ascii t = absurd t

  -- A claim that Redis answers returns the URL that `pop_one_ready` hands out, with its id, its
  -- entry and its host, if the keys hold what an accounted shard holds, the id is one of sixteen
  -- bytes, the host is in ASCII, and the lease ends before 2^64.
  pub claim-Answers :
      (now timeout : ℕ) (s : ShardState Url) (r : R) (id : List ℕ) (host : Text)
      (entry : UrlEntry Url)
      → Accounted s
      → now + timeout ≤ u64_max
      → Views postcard keys shard (redis.obs r) s
      → IsUrlId id
      → IsAscii host
      → (pop_one_ready now timeout s).0 ≡ ok (some (to_hex id, entry, host))
      → (Ops.claim redis client postcard keys none answered shard now timeout r).0
        ≡ done (claimed id entry host)
  unfolding Ops.claim connected invoke
  claim-Answers now timeout s r id host entry acc small v ok_id ascii popped =
      read_told (pop_one_ready now timeout s).1 id host entry (script r).0 ok_id ascii (
        subst (λ p. Tells redis postcard keys shard (pop_one_ready now timeout s).1 p (script r).0)
          popped (claim-Refines redis postcard keys shard now timeout s r acc small v).0)
    where
      script : R → Option ClaimReply × R
      script =
          Scripts.claim redis (Keys.ready keys shard) (Keys.wake keys shard)
            (Keys.inflight keys shard) (Keys.urls keys shard) (Keys.host_queue_prefix keys shard)
            now timeout

  -- Whether the HDEL of an ack is carried out when its ZREM is: after a ZREM without an answer it is
  -- not sent.
  abbrev pub IsWhole : Call → Call → Type 0
  IsWhole (refused e) hdel = Unit
  IsWhole (unanswered e) hdel = ⊥
  IsWhole answered (refused e) = ⊥
  IsWhole answered hdel = Unit

  ack_keeps :
      (pool : Option Text) (zrem hdel : Call) (id : List ℕ) (host : Text) (r : R)
      → IsWhole zrem hdel
      → IsFit redis postcard keys shard (acks (to_hex id) host) r
      → Sound redis postcard keys shard r
      → Sound redis postcard keys shard (Ops.ack redis keys pool zrem hdel shard id host r).1
  unfolding Ops.ack after Scripts.ack invoke connected
  ack_keeps pool zrem hdel id host r whole fit k = by_pool pool
    where
      by_calls :
          (zrem hdel : Call)
          → IsWhole zrem hdel
          → Sound redis postcard keys shard (Ops.ack redis keys none zrem hdel shard id host r).1
      by_calls (refused e) hdel w = k
      by_calls (unanswered e) hdel w = absurd w
      by_calls answered answered w =
          after-Sound redis postcard keys shard (acks (to_hex id) host) r fit k
      by_calls answered (refused e) w = absurd w
      by_calls answered (unanswered e) w =
          after-Sound redis postcard keys shard (acks (to_hex id) host) r fit k

      by_pool :
          (pool : Option Text)
          → Sound redis postcard keys shard (Ops.ack redis keys pool zrem hdel shard id host r).1
      by_pool none = by_calls zrem hdel whole
      by_pool (some e) = k

  -- No submit, submit_batch, claim, advance_wake, promote or reclaim leaves the keys of a sound shard
  -- unsound: whether the pool has a connection or not, and whether Redis answers, refuses the command,
  -- or runs it and the answer is lost. Nor does an ack, of a lease that is still there or of a URL
  -- without a payload, unless its ZREM is carried out and its HDEL is not. The ids of submitted URLs have
  -- sixteen bytes, and a lease ends before 2^64.
  pub calls_keep :
      (pool : Option Text) (call zrem hdel : Call) (now timeout limit until : ℕ) (host : Text)
      (id acked : List ℕ) (entry : UrlEntry Url) (items : List (SubmitItem Url)) (r : R)
      → IsUrlId id
      → All IsSendable items
      → now + timeout ≤ u64_max
      → IsWhole zrem hdel
      → IsFit redis postcard keys shard (acks (to_hex acked) host) r
      → Sound redis postcard keys shard r
      → Sound redis postcard keys shard
          (Ops.submit redis client postcard keys pool call shard id entry host now r).1
        × Sound redis postcard keys shard
            (Ops.submit_batch redis client postcard keys pool call shard items now r).1
        × Sound redis postcard keys shard
            (Ops.claim redis client postcard keys pool call shard now timeout r).1
        × Sound redis postcard keys shard
            (Ops.advance_wake redis keys pool call shard host (pos until) r).1
        × Sound redis postcard keys shard (Ops.promote redis keys pool call shard now limit r).1
        × Sound redis postcard keys shard (Ops.reclaim redis keys pool call shard now limit r).1
        × Sound redis postcard keys shard (Ops.ack redis keys pool zrem hdel shard acked host r).1
  unfolding Ops.claim Ops.advance_wake Ops.promote Ops.reclaim after
  calls_keep pool call zrem hdel now timeout limit until host id acked entry items r ok_id sendable
        small whole fit k =
      (
        submit_keeps redis client postcard keys shard pool call now id entry host r ok_id k,
        submit_batch_keeps redis client postcard keys shard pool call now items r sendable k,
        connected_keeps Holds pool _ r k (
            invoke_keeps Holds call _ r k
              (after-Sound redis postcard keys shard (claims now timeout) r small k)),
        connected_keeps Holds pool _ r k (
            invoke_keeps Holds call _ r k
              (after-Sound redis postcard keys shard (advances host until) r tt k)),
        connected_keeps Holds pool _ r k (
            invoke_keeps Holds call _ r k
              (after-Sound redis postcard keys shard (promotes now limit) r tt k)),
        connected_keeps Holds pool _ r k (
            invoke_keeps Holds call _ r k
              (after-Sound redis postcard keys shard (reclaims now limit) r tt k)),
        ack_keeps pool zrem hdel acked host r whole fit k,
      )
    where
      Holds : R → Type 0
      Holds = Sound redis postcard keys shard

module _ {R Value Url : Type 0} (redis : Redis R) (client : Client Value) (postcard : Postcard Url)
    (api : UrlApi Url) (f : RedisFrontier Url) where
  -- The token that a claim hands out leads its ack to the same shard, id and host: if both commands
  -- are answered, the ack takes the lease and the payload of that URL away; for a shard of another
  -- worker it does nothing.
  pub ack_of_claimed :
      (shard : ℕ) (id : List ℕ) (host : Text) (r : R)
      → shard < u32_mod
      → IsUrlId id
      → Frontier.ack redis client postcard api f none answered answered
          (encode_attempt shard id host)
          r
        ≡ (if contains f.owned_shards shard
            then (done (ok tt), after redis postcard f.keys shard (acks (to_hex id) host) r)
            else (done (ok tt), r))
  unfolding Frontier.ack Ops.ack connected invoke after Scripts.ack
  ack_of_claimed shard id host r small ok_id =
      rw (decode-encode_attempt_host shard id host small ok_id.0 ok_id.1, Frontier.ack) refl
