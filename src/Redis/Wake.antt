-- ===== src/Redis/Wake.antt =====
-- crates/crawlrs-frontier/src/scripts/advance_wake.lua and promote.lua, and the `ack` of
-- host_queue.rs, against crates/crawlrs-fakes/src/frontier.rs.
use crawlrs.Prelude.{
  ℕ, ◌+◌, ◌≤◌, ◌<◌, ◌≡◌, refl, true, false, List, [], ◌∷◌, Option, none, some, arith, sym, ap, ◌∙◌,
  list_eq, nat_eq, contains, count, ◌==◌, leb, length, All, ◌||◌,
}
use crawlrs.Prelude.Map
use crawlrs.Core.Error.{Text}
use crawlrs.Fakes.Shard.{
  ShardState, InflightSlot, advance_wake_shard, ack_shard, promote_host, promote_all, retain_ne,
}
use crawlrs.Redis.Api.{ℤ, pos, negsuc, score_due, Redis, Postcard}
use crawlrs.Redis.Keys
use crawlrs.Redis.Keys.{KeyPrefix, member, IsBarFree, same-member, host_queue_prefix-append}
use crawlrs.Redis.Views.{Views, lease_score, score_of}
use crawlrs.Redis.Commands.{
  rpush_ready-Views, lrem-Views, zadd-Views, zrem-Views, hdel-Views, zrem_lease-Views,
}
use crawlrs.Redis.Scripts
use crawlrs.Redis.Scripts.{split_member}

module _ {R Url : Type 0} (redis : Redis R) (postcard : Postcard Url) (keys : KeyPrefix)
    (shard : ℕ) where
  -- advance_wake.lua sets the wake-time of any host and takes the host off the ready list, as
  -- `advance_wake_shard` does for a host that has a queue or a wake-time.
  pub advance_wake-Refines :
      (host : Text) (until : ℕ) (r : R) (s : ShardState Url)
      → Views postcard keys shard (redis.obs r) s
      → let r' =
          Scripts.advance_wake redis
            (Keys.wake keys shard)
            (Keys.ready keys shard)
            host
            (pos until)
            r in
        Views postcard keys shard
          (redis.obs r')
          (record s { wake = Map.insert host until s.wake; ready = retain_ne host s.ready })
        × (Map.contains_key host s.host_queue || Map.contains_key host s.wake ≡ true
            → Views postcard keys shard (redis.obs r') (advance_wake_shard host until s))
  unfolding Scripts.advance_wake advance_wake_shard
  advance_wake-Refines host until r s v = (view, λ known. rw known view)
    where
      view :
          Views postcard keys shard
            (redis.obs (
              redis.lrem
                (Keys.ready keys shard)
                host
                (redis.zadd (Keys.wake keys shard) (pos until) host r)))
            (record s { wake = Map.insert host until s.wake; ready = retain_ne host s.ready })
      view =
          lrem-Views redis postcard keys shard _ _
            (zadd-Views redis postcard keys shard r s v host until) host

  -- A wake-time of the shard that has come.
  abbrev pub IsDue : ℕ → ShardState Url → Text → Type 0
  IsDue now s host = (at : ℕ) × (Map.get host s.wake ≡ some at) × (leb at now ≡ true)

  promote_loop-Views :
      (hosts : List Text) (n : ℕ) (r : R) (s : ShardState Url)
      → Views postcard keys shard (redis.obs r) s
      → let o =
          Scripts.promote_loop redis (Keys.wake keys shard) (Keys.ready keys shard) hosts n r in
        (o.0 ≡ n + length hosts) × Views postcard keys shard (redis.obs o.1) (promote_all hosts s)
  unfolding Scripts.promote_loop promote_all promote_host
  promote_loop-Views [] n r s v = (omega arith, v)
  promote_loop-Views (host ∷ hosts) n r s v =
      let rest = promote_loop-Views hosts (n + 1) _ _ (
        rpush_ready-Views redis postcard keys shard _ _
          (zrem-Views redis postcard keys shard r s v host) host) in
      (omega (arith, rest.0), rest.1)

  due_score :
      (now : ℕ) (o : Option ℕ) (z : ℤ)
      → score_of o ≡ some z
      → score_due now z ≡ true
      → (at : ℕ) × (o ≡ some at) × (leb at now ≡ true)
  due_score now none z e d = absurd (ground (arith, e))
  due_score now (some n) (pos m) e d = (n, refl, ground (arith, e, d))
  due_score now (some n) (negsuc m) e d = absurd (ground (arith, e))

  hosts-IsDue :
      (now : ℕ) (hosts : List Text) (r : R) (s : ShardState Url)
      → Views postcard keys shard (redis.obs r) s
      → All
          (λ m.
            (z : ℤ) × ((redis.obs r).zsets (Keys.wake keys shard) m ≡ some z)
            × (score_due now z ≡ true))
          hosts
      → All (IsDue now s) hosts
  hosts-IsDue now [] r s v h = tt
  hosts-IsDue now (host ∷ hosts) r s v h =
      (due_score now _ h.0.0 (sym (v.wakes host) ∙ h.0.1) h.0.2, hosts-IsDue now hosts r s v h.1)

  -- promote.lua moves hosts whose wake-time has come from `wake` to `ready`, each once, and counts
  -- them; it moves every such host if they are fewer than the limit. The keys then hold what
  -- `promote_all` makes of these hosts.
  pub promote-Refines :
      (now limit : ℕ) (r : R) (s : ShardState Url)
      → Views postcard keys shard (redis.obs r) s
      → let o = Scripts.promote redis (Keys.wake keys shard) (Keys.ready keys shard) now limit r in
        (hosts : List Text) × (o.0 ≡ length hosts)
        × All (IsDue now s) hosts
        × ((host : Text) → count host hosts ≤ 1)
        × ((host : Text) → length hosts < limit → IsDue now s host → contains hosts host ≡ true)
        × Views postcard keys shard (redis.obs o.1) (promote_all hosts s)
  unfolding Scripts.promote
  promote-Refines now limit r s v =
      let hosts = redis.zrange_by_score (Keys.wake keys shard) now limit r in
      let p = promote_loop-Views hosts 0 r s v in
      (
        hosts,
        omega (arith, p.0),
        hosts-IsDue now hosts r s v (redis.zrange_by_score_due (Keys.wake keys shard) now limit r),
        redis.zrange_by_score_once (Keys.wake keys shard) now limit r,
        λ host few due.
            redis.zrange_by_score_all (Keys.wake keys shard) now limit r host (pos due.0) few
              (v.wakes host ∙ ap score_of due.1) due.2,
        p.1,
      )

  -- An ack whose host is the one that the lease was taken for, if there is a lease, does what the
  -- ack of the in-memory frontier does.
  pub ack-Refines :
      (id host : Text) (r : R) (s : ShardState Url)
      → Views postcard keys shard (redis.obs r) s
      → IsBarFree id
      → ((slot : InflightSlot) → Map.get id s.inflight ≡ some slot → slot.host ≡ host)
      → Views postcard keys shard
          (redis.obs
            (Scripts.ack redis (Keys.inflight keys shard) (Keys.urls keys shard) id host r))
          (ack_shard id s)
  unfolding Scripts.ack ack_shard
  ack-Refines id host r s v free own =
      hdel-Views redis postcard keys shard _ _
        (zrem_lease-Views redis postcard keys shard r s v id host free
          (λ h ne. elsewhere h ne (Map.get id s.inflight) refl))
        id
    where
      elsewhere :
          (h : Text)
          → (host == h) ≡ false
          → (o : Option InflightSlot) → Map.get id s.inflight ≡ o
          → lease_score h o ≡ none
      elsewhere h ne none e = refl
      elsewhere h ne (some slot) e = rw (own slot e) (rw ne)
