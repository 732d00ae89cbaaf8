-- ===== src/Redis/Commands.antt =====
-- crates/crawlrs-frontier/src/scripts: what one command on the keys of a shard comes to in a view
-- of the shard.
use crawlrs.Prelude.{
  ℕ, ◌+◌, ◌≡◌, refl, false, ◌&&◌, List, [], ◌∷◌, ◌++◌, Option, none, some, if◌then◌else◌, ◌==◌, sym,
  list_eq, nat_eq, unwrap_or, All, All-append, Bool-cases, inl, inr, subst, ◌∙◌,
}
use crawlrs.Prelude.Map
use crawlrs.Prelude.Map.{Map}
use crawlrs.Core.Error.{Text}
use crawlrs.Core.Types.{UrlEntry}
use crawlrs.Fakes.Accounting.{same_text}
use crawlrs.Fakes.Shard.{ShardState, InflightSlot, queue_of, push_back, retain_ne}
use crawlrs.Redis.Api.{pos, Keyspace, set_at, Redis, Postcard, put_list, first, behind, without}
use crawlrs.Redis.Keys
use crawlrs.Redis.Keys.{KeyPrefix, member, IsBarFree, host_queue_prefix-append}
use crawlrs.Redis.Views
use crawlrs.Redis.Views.{Views, score_of, lease_score}

retain_ne-without : (host : Text) (hs : List Text) → without host hs ≡ retain_ne host hs
unfolding without retain_ne
retain_ne-without host [] = refl
retain_ne-without host (h ∷ hs) = rw (retain_ne-without host hs)

-- A slot of `host` counts as a lease of the URL on that host only.
lease_score-insert :
    (id host j h : Text) (slot : InflightSlot) (m : Map Text InflightSlot)
    → slot.host ≡ host
    → lease_score h (Map.get id m) ≡ none
    → lease_score h (Map.get j (Map.insert id slot m)) ≡ (
        if (id == j) && (host == h)
        then some (pos slot.lease_expiry_ms)
        else lease_score h (Map.get j m))
lease_score-insert id host j h slot m own idle =
    rw (Map.get-insert id j slot m) (elim (Bool-cases (id == j)) [
      | inl e ↦ rw e (
          rw own (elim (Bool-cases (host == h)) [
            | inl f ↦ rw f
            | inr f ↦ rw f (rw (sym ((same_text id j).0 e)) (sym idle))
          ]))
      | inr e ↦ rw e
    ])

-- A list that is written back as it was.
put_list-same : (key : Text) (q : List Text) (k : Keyspace) → k.lists key ≡ q → put_list key q k ≡ k
put_list-same key q k e = λ i. record k { lists = λ j. kept j i }
  where
    kept : (j : Text) → set_at key q k.lists j ≡ k.lists j
    kept j = elim (Bool-cases (key == j)) [
      | inl this ↦ rw this (rw (sym ((same_text key j).0 this)) (sym e))
      | inr other ↦ rw other
    ]

module _ {R Url : Type 0} (redis : Redis R) (postcard : Postcard Url) (keys : KeyPrefix) (shard : ℕ)
    (r : R) (s : ShardState Url) (v : Views postcard keys shard (redis.obs r) s) where
  pub rpush-Views :
      (host id : Text)
      → IsBarFree id
      → Views postcard keys shard
          (redis.obs (redis.rpush (Keys.host_queue keys shard host) id r))
          (push_back host id s)
  unfolding push_back
  rpush-Views host id free = rw (redis.rpush_effect (Keys.host_queue keys shard host) id r) (
      rw (v.queues host) (
        Views.queue-Views postcard keys shard (redis.obs r) s v host (queue_of host s ++ id ∷ [])
          (All-append IsBarFree (queue_of host s) (id ∷ []) (v.ids host) (free, tt))))

  -- LPOP of a queue with a URL in it.
  pub lpop-Views :
      (host id : Text) (q : List Text)
      → Map.get host s.host_queue ≡ some (id ∷ q)
      → ((redis.lpop (Keys.host_queue_prefix keys shard ++ host) r).0 ≡ some id)
        × Views postcard keys shard
            (redis.obs (redis.lpop (Keys.host_queue_prefix keys shard ++ host) r).1)
            (record s { host_queue = Map.insert host q s.host_queue })
        × IsBarFree id
  lpop-Views host id q e = (
    rw (host_queue_prefix-append keys shard host)
        (rw (redis.lpop_reply (Keys.host_queue keys shard host) r) (rw (v.queues host) (rw queue))),
    rw (host_queue_prefix-append keys shard host) (
        rw (redis.lpop_effect (Keys.host_queue keys shard host) r) (
          rw (v.queues host) (
            rw queue (
              Views.queue-Views postcard keys shard (redis.obs r) s v host q
                (subst (All IsBarFree) queue (v.ids host)).1)))),
    (subst (All IsBarFree) queue (v.ids host)).0,
  )
    where
      queue : queue_of host s ≡ id ∷ q
      queue = unfold queue_of in rw e

  -- LPOP of a queue that is empty or missing.
  pub lpop_idle-Views :
      (host : Text)
      → queue_of host s ≡ []
      → ((redis.lpop (Keys.host_queue_prefix keys shard ++ host) r).0 ≡ none)
        × Views postcard keys shard
            (redis.obs (redis.lpop (Keys.host_queue_prefix keys shard ++ host) r).1)
            s
  lpop_idle-Views host e = (
    rw (host_queue_prefix-append keys shard host)
        (rw (redis.lpop_reply (Keys.host_queue keys shard host) r) (rw (v.queues host) (rw e))),
    rw (host_queue_prefix-append keys shard host) (
        rw (redis.lpop_effect (Keys.host_queue keys shard host) r) (
          rw idle (
            subst (λ k. Views postcard keys shard k s)
              (sym (put_list-same (Keys.host_queue keys shard host) [] (redis.obs r) idle)) v))),
  )
    where
      idle : (redis.obs r).lists (Keys.host_queue keys shard host) ≡ []
      idle = v.queues host ∙ e

  pub lpop_ready-Views :
      (redis.lpop (Keys.ready keys shard) r).0 ≡ first s.ready
      × Views postcard keys shard
          (redis.obs (redis.lpop (Keys.ready keys shard) r).1)
          (record s { ready = behind s.ready })
  lpop_ready-Views = (
    rw (redis.lpop_reply (Keys.ready keys shard) r) (rw v.readies),
    rw (redis.lpop_effect (Keys.ready keys shard) r)
        (rw v.readies (Views.ready-Views postcard keys shard (redis.obs r) s v (behind s.ready))),
  )

  pub rpush_ready-Views :
      (host : Text)
      → Views postcard keys shard
          (redis.obs (redis.rpush (Keys.ready keys shard) host r))
          (record s { ready = s.ready ++ host ∷ [] })
  rpush_ready-Views host = rw (redis.rpush_effect (Keys.ready keys shard) host r) (
      rw v.readies (Views.ready-Views postcard keys shard (redis.obs r) s v (s.ready ++ host ∷ [])))

  pub lrem-Views :
      (host : Text)
      → Views postcard keys shard
          (redis.obs (redis.lrem (Keys.ready keys shard) host r))
          (record s { ready = retain_ne host s.ready })
  lrem-Views host = rw (redis.lrem_effect (Keys.ready keys shard) host r) (
      rw v.readies (
        rw (retain_ne-without host s.ready)
          (Views.ready-Views postcard keys shard (redis.obs r) s v (retain_ne host s.ready))))

  pub zadd-Views :
      (host : Text) (at : ℕ)
      → Views postcard keys shard
          (redis.obs (redis.zadd (Keys.wake keys shard) (pos at) host r))
          (record s { wake = Map.insert host at s.wake })
  zadd-Views host at = rw (redis.zadd_effect (Keys.wake keys shard) (pos at) host r) (
      Views.wake-Views postcard keys shard (redis.obs r) s v host (some at)
        (Map.insert host at s.wake) (λ h. Map.get-insert host h at s.wake))

  pub zadd_nx-Views :
      (host : Text) (at : ℕ)
      → Views postcard keys shard
          (redis.obs (redis.zadd_nx (Keys.wake keys shard) (pos at) host r))
          (record s { wake = Map.or_insert host at s.wake })
  zadd_nx-Views host at = rw (redis.zadd_nx_effect (Keys.wake keys shard) (pos at) host r) (
      rw (v.wakes host) (
        rw (scored (Map.get host s.wake)) (
          Views.wake-Views postcard keys shard (redis.obs r) s v host
            (some (unwrap_or (Map.get host s.wake) at)) (Map.or_insert host at s.wake)
            (λ h. Map.get-or_insert host h at s.wake))))
    where
      scored :
          (o : Option ℕ) → some (unwrap_or (score_of o) (pos at)) ≡ score_of (some (unwrap_or o at))
      scored none = refl
      scored (some n) = refl

  pub zrem-Views :
      (host : Text)
      → Views postcard keys shard
          (redis.obs (redis.zrem (Keys.wake keys shard) host r))
          (record s { wake = Map.remove host s.wake })
  zrem-Views host = rw (redis.zrem_effect (Keys.wake keys shard) host r) (
      Views.wake-Views postcard keys shard (redis.obs r) s v host none (Map.remove host s.wake)
        (λ h. Map.get-remove host h s.wake))

  pub incr-Views :
      (host : Text)
      → Views postcard keys shard
          (redis.obs (redis.incr (Keys.host_count keys shard host) r))
          (record s {
            host_count = Map.insert host (unwrap_or (Map.get host s.host_count) 0 + 1) s.host_count;
          })
  incr-Views host = rw (redis.incr_effect (Keys.host_count keys shard host) r) (
      rw (v.counts host) (
        Views.count-Views postcard keys shard (redis.obs r) s v host
          (unwrap_or (Map.get host s.host_count) 0 + 1)))

  pub hset-Views :
      (id : Text) (entry : UrlEntry Url) (bytes : Text)
      → postcard.to_allocvec entry ≡ some bytes
      → Views postcard keys shard
          (redis.obs (redis.hset (Keys.urls keys shard) id bytes r))
          (record s { urls = Map.insert id entry s.urls })
  hset-Views id entry bytes e = rw (redis.hset_effect (Keys.urls keys shard) id bytes r) (
      Views.payload-Views postcard keys shard (redis.obs r) s v id (some bytes)
        (Map.insert id entry s.urls)
        (λ j. rw (Map.get-insert id j entry s.urls) (elim (Bool-cases (id == j)) [
          | inl this ↦ rw this (bytes, refl, postcard.from_bytes-to_allocvec entry bytes e)
          | inr other ↦ rw other (v.payloads j)
        ])))

  pub hdel-Views :
      (id : Text)
      → Views postcard keys shard
          (redis.obs (redis.hdel (Keys.urls keys shard) id r))
          (record s { urls = Map.remove id s.urls })
  hdel-Views id = rw (redis.hdel_effect (Keys.urls keys shard) id r) (
      Views.payload-Views postcard keys shard (redis.obs r) s v id none (Map.remove id s.urls) (λ j.
        rw (Map.get-remove id j s.urls) (elim (Bool-cases (id == j)) [
          | inl this ↦ rw this refl
          | inr other ↦ rw other (v.payloads j)
        ])))

  -- A URL that nobody holds is leased.
  pub zadd_lease-Views :
      (id host : Text) (at : ℕ)
      → IsBarFree id
      → Map.get id s.inflight ≡ none
      → Views postcard keys shard
          (redis.obs (redis.zadd (Keys.inflight keys shard) (pos at) (member id host) r))
          (record s {
            inflight = Map.insert id (record { host = host; lease_expiry_ms = at }) s.inflight;
          })
  zadd_lease-Views id host at free idle =
      rw (redis.zadd_effect (Keys.inflight keys shard) (pos at) (member id host) r) (
        Views.lease-Views postcard keys shard (redis.obs r) s v id host (some (pos at))
          (Map.insert id (record { host = host; lease_expiry_ms = at }) s.inflight) free
          (λ j h.
            lease_score-insert id host j h (record { host = host; lease_expiry_ms = at }) s.inflight
              refl (rw idle)))

  -- The lease of a URL ends that `host` holds, or that nobody holds.
  pub zrem_lease-Views :
      (id host : Text)
      → IsBarFree id
      → ((h : Text) → (host == h) ≡ false → lease_score h (Map.get id s.inflight) ≡ none)
      → Views postcard keys shard
          (redis.obs (redis.zrem (Keys.inflight keys shard) (member id host) r))
          (record s { inflight = Map.remove id s.inflight })
  zrem_lease-Views id host free own =
      rw (redis.zrem_effect (Keys.inflight keys shard) (member id host) r) (
        Views.lease-Views postcard keys shard (redis.obs r) s v id host none
          (Map.remove id s.inflight) free ends)
    where
      ends :
          (j h : Text)
          → lease_score h (Map.get j (Map.remove id s.inflight))
            ≡ (if (id == j) && (host == h) then none else lease_score h (Map.get j s.inflight))
      ends j h = rw (Map.get-remove id j s.inflight) (elim (Bool-cases (id == j)) [
        | inl e ↦ rw e (elim (Bool-cases (host == h)) [
          | inl f ↦ rw f
          | inr f ↦ rw f (rw (sym ((same_text id j).0 e)) (sym (own h f)))
        ])
        | inr e ↦ rw e
      ])
