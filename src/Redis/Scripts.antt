-- ===== src/Redis/Scripts.antt =====
-- crates/crawlrs-frontier/src/scripts: the Lua scripts that Redis runs, each of them atomically.
-- The KEYS and ARGV of a script are its arguments; times and counts stay below 2^53, where the
-- numbers of Lua are exact.
use crawlrs.Prelude.{
  ℕ, zero, suc, ◌+◌, Bool, false, List, [], ◌∷◌, ◌++◌, Option, none, some, leb, eqb, if◌then◌else◌,
  unwrap_or, length,
}
use crawlrs.Core.Error.{Text}
use crawlrs.Redis.Api.{ℤ, pos, negsuc, Redis}

-- What claim.lua returns; the payload is nil if the hash does not have the id.
pub data ClaimReply : Type 0 where
  claimed : Text → Text → Option Text → ClaimReply
  empty_hint : ℤ → ClaimReply
  empty : ClaimReply

-- The arguments of submit_batch.lua for one URL.
pub record BatchArg : Type 0 where
  pub host_queue_key : Text
  pub host_count_key : Text
  pub url_id : Text
  pub host : Text
  pub payload : Text
  pub max_urls : ℤ

-- string.find(member, '|', 1, true): what stands before and behind the first bar.
unfoldable pub split_member : Text → Option (Text × Text)
split_member [] = none
split_member (c ∷ cs) =
    let rest = split_member cs in
    if eqb c b'|' then some ([], cs) else elim rest [ none ↦ none | some (a, b) ↦ some (c ∷ a, b) ]

module _ {R : Type 0} (redis : Redis R) where
  -- submit.lua behind the bloom filter, which submit_batch.lua repeats.
  unfoldable pub enqueue : Text → Text → Text → ℕ → Text → Text → Text → R → R
  enqueue urls host_queue wake now_ms url_id host payload r =
      redis.zadd_nx wake (pos now_ms) host
        (redis.rpush host_queue url_id (redis.hset urls url_id payload r))

  -- submit.lua returns 0 for a new URL and 1 for a duplicate.
  unfoldable pub submit : Text → Text → Text → Text → Text → Text → Text → ℕ → R → ℕ × R
  unfolding enqueue
  submit seen urls host_queue wake url_id host payload now_ms r =
      let (added, r') = redis.bf_add seen url_id r in
      if added then (0, enqueue urls host_queue wake now_ms url_id host payload r') else (1, r')

  unfoldable pub quota_exceeded : BatchArg → R → Bool
  quota_exceeded a r = elim a.max_urls [
    | pos cap ↦ leb cap (unwrap_or (redis.get a.host_count_key r) 0)
    | negsuc n ↦ false
  ]

  unfoldable pub bump : BatchArg → R → R
  bump a r = elim a.max_urls [ pos cap ↦ redis.incr a.host_count_key r | negsuc n ↦ r ]

  -- One round of the loop of submit_batch.lua, with the count and the ids of the rounds before.
  unfoldable pub submit_item :
      Text → Text → Text → ℕ → BatchArg → ℕ × List Text → R → (ℕ × List Text) × R
  unfolding quota_exceeded bump enqueue
  submit_item seen urls wake now_ms a (queued, rejected_ids) r =
      if quota_exceeded a r
      then ((queued, rejected_ids ++ a.url_id ∷ []), r)
      else let (added, r') = redis.bf_add seen a.url_id r in
        if added
        then (
          (queued + 1, rejected_ids),
          enqueue urls a.host_queue_key wake now_ms a.url_id a.host a.payload (bump a r'),
        )
        else ((queued, rejected_ids), r')

  unfoldable pub submit_items :
      Text → Text → Text → ℕ → List BatchArg → ℕ × List Text → R → (ℕ × List Text) × R
  unfolding submit_item
  submit_items seen urls wake now_ms [] acc r = (acc, r)
  submit_items seen urls wake now_ms (a ∷ items) acc r =
      let (acc', r') = submit_item seen urls wake now_ms a acc r in
      submit_items seen urls wake now_ms items acc' r'

  unfoldable pub submit_batch : Text → Text → Text → ℕ → List BatchArg → R → (ℕ × List Text) × R
  unfolding submit_items
  submit_batch seen urls wake now_ms items = submit_items seen urls wake now_ms items (0, [])

  -- claim.lua when a URL of a host was popped.
  unfoldable pub lease : Text → Text → Text → ℕ → ℕ → Text → Text → R → ClaimReply × R
  lease wake inflight urls now_ms lease_timeout_ms host url_id r =
      let r' =
        redis.zadd inflight (pos (now_ms + lease_timeout_ms)) (url_id ++ b'|' ∷ host)
          (redis.zadd wake (pos (now_ms + lease_timeout_ms)) host r) in
      (claimed url_id host (redis.hget urls url_id r'), r')

  -- claim.lua when no ready host is left.
  unfoldable pub no_url : Text → R → ClaimReply
  no_url wake r = elim (redis.zrange_first wake r) [ none ↦ empty | some (h, z) ↦ empty_hint z ]

  -- The loop of claim.lua; `none` if the fuel is spent.
  unfoldable pub claim_loop :
      Text → Text → Text → Text → Text → ℕ → ℕ → ℕ → R → Option ClaimReply × R
  unfolding lease no_url
  claim_loop ready wake inflight urls host_queue_prefix now_ms timeout zero r = (none, r)
  claim_loop ready wake inflight urls host_queue_prefix now_ms timeout (suc fuel) r =
      let (o, r') = redis.lpop ready r in
      elim o [
        | none ↦ (some (no_url wake r'), r')
        | some host ↦
            let (u, r'') = redis.lpop (host_queue_prefix ++ host) r' in
            elim u [
              | none ↦ claim_loop ready wake inflight urls host_queue_prefix now_ms timeout fuel r''
              | some url_id ↦
                  let (reply, r''') = lease wake inflight urls now_ms timeout host url_id r'' in
                  (some reply, r''')
            ]
      ]

  -- A round takes a host off `ready`, so one round more than hosts is enough.
  unfoldable pub claim : Text → Text → Text → Text → Text → ℕ → ℕ → R → Option ClaimReply × R
  unfolding claim_loop
  claim ready wake inflight urls host_queue_prefix now_ms timeout r =
      claim_loop ready wake inflight urls host_queue_prefix now_ms timeout
        (suc (length ((redis.obs r).lists ready))) r

  unfoldable pub advance_wake : Text → Text → Text → ℤ → R → R
  advance_wake wake ready host until_ms r = redis.lrem ready host (redis.zadd wake until_ms host r)

  unfoldable pub promote_loop : Text → Text → List Text → ℕ → R → ℕ × R
  promote_loop wake ready [] promoted r = (promoted, r)
  promote_loop wake ready (host ∷ hosts) promoted r =
      promote_loop wake ready hosts (promoted + 1) (redis.rpush ready host (redis.zrem wake host r))

  unfoldable pub promote : Text → Text → ℕ → ℕ → R → ℕ × R
  unfolding promote_loop
  promote wake ready now_ms limit r =
      promote_loop wake ready (redis.zrange_by_score wake now_ms limit r) 0 r

  -- One lease of the loop of reclaim.lua.
  unfoldable pub reclaim_lease : Text → Text → Text → ℕ → Text → Text → Text → R → R
  reclaim_lease inflight wake host_queue_prefix now_ms member url_id host r =
      redis.zadd_nx wake (pos now_ms) host
        (redis.rpush (host_queue_prefix ++ host) url_id (redis.zrem inflight member r))

  unfoldable pub reclaim_loop : Text → Text → Text → ℕ → List Text → ℕ → R → ℕ × R
  unfolding split_member reclaim_lease
  reclaim_loop inflight wake host_queue_prefix now_ms [] reclaimed r = (reclaimed, r)
  reclaim_loop inflight wake host_queue_prefix now_ms (member ∷ expired) reclaimed r =
      elim (split_member member) [
        | none ↦ reclaim_loop inflight wake host_queue_prefix now_ms expired reclaimed r
        | some (url_id, host) ↦
            reclaim_loop inflight wake host_queue_prefix now_ms expired (reclaimed + 1)
              (reclaim_lease inflight wake host_queue_prefix now_ms member url_id host r)
      ]

  unfoldable pub reclaim : Text → Text → Text → ℕ → ℕ → R → ℕ × R
  unfolding reclaim_loop
  reclaim inflight wake host_queue_prefix now_ms limit r =
      reclaim_loop inflight wake host_queue_prefix now_ms
        (redis.zrange_by_score inflight now_ms limit r) 0 r

  -- Not a script: the two commands of `HostQueueOps::ack`.
  unfoldable pub ack : Text → Text → Text → Text → R → R
  ack inflight urls url_id host r =
      redis.hdel urls url_id (redis.zrem inflight (url_id ++ b'|' ∷ host) r)
