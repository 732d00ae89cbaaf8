-- ===== src/Redis/Reclaim.antt =====
-- crates/crawlrs-frontier/src/scripts/reclaim.lua against `reclaim_all` of
-- crates/crawlrs-fakes/src/frontier.rs.
use crawlrs.Prelude.{
  ℕ, ◌+◌, ◌≤◌, ◌<◌, ◌≡◌, true, false, List, [], ◌∷◌, some, arith, sym, subst, ap, ◌∙◌, list_eq,
  nat_eq, contains, count, ◌==◌, ==_refl, leb, length, length-map, map, All,
}
use crawlrs.Prelude.Map
use crawlrs.Core.Error.{Text, ok}
use crawlrs.Fakes.Shard.{ShardState, InflightSlot, queue_of, push_back, reclaim_url, reclaim_all}
use crawlrs.Redis.Api.{ℤ, pos, score_due, Redis, Postcard}
use crawlrs.Redis.Keys
use crawlrs.Redis.Keys.{KeyPrefix, member, IsBarFree, same-member, host_queue_prefix-append}
use crawlrs.Redis.Views.{Views}
use crawlrs.Redis.Commands.{rpush-Views, zadd_nx-Views, zrem_lease-Views}
use crawlrs.Redis.Leases.{
  split_member-member, Lease, as_member, lease_id, IsHeld, Apart, leases_of, apart,
}
use crawlrs.Redis.Scripts
use crawlrs.Redis.Scripts.{split_member}

module _ {R Url : Type 0} (redis : Redis R) (postcard : Postcard Url) (keys : KeyPrefix)
    (shard : ℕ) where
  -- Leases that stay when another URL is reclaimed.
  still-IsHeld :
      (now : ℕ) (s : ShardState Url) (l : Lease) (ls : List Lease) (slot : InflightSlot)
      → Map.get (lease_id l) s.inflight ≡ some slot
      → All (IsHeld now s) ls
      → All (λ k. (lease_id l == lease_id k) ≡ false) ls
      → All (IsHeld now (reclaim_url now (lease_id l) s).1) ls
  unfolding reclaim_url push_back
  still-IsHeld now s l [] slot held hs far = tt
  still-IsHeld now s l (k ∷ ls) slot held hs far = (
    rw (held, reclaim_url)
        (
          hs.0.0,
          rw (Map.get-remove (lease_id l) (lease_id k) s.inflight) (rw far.0 hs.0.1),
          hs.0.2,
        ),
    still-IsHeld now s l ls slot held hs.1 far.1,
  )

  -- One round of the loop of reclaim.lua.
  round-Views :
      (now : ℕ) (l : Lease) (r : R) (s : ShardState Url)
      → Views postcard keys shard (redis.obs r) s
      → IsHeld now s l
      → Views postcard keys shard
          (redis.obs (
            Scripts.reclaim_lease redis
              (Keys.inflight keys shard)
              (Keys.wake keys shard)
              (Keys.host_queue_prefix keys shard)
              now
              (as_member l)
              (lease_id l)
              l.1.host
              r))
          (reclaim_url now (lease_id l) s).1
  unfolding Scripts.reclaim_lease reclaim_url push_back queue_of
  round-Views now (id, slot) r s v h =
      rw (h.1, reclaim_url)
        (rw (host_queue_prefix-append keys shard slot.host, Scripts.reclaim_lease)
          (zadd_nx-Views redis postcard keys shard _ _
            (rpush-Views redis postcard keys shard _ _
              (zrem_lease-Views redis postcard keys shard r s v id slot.host h.0
                (λ host ne. rw h.1 (rw ne)))
              slot.host id h.0)
            slot.host now))

  loop-Views :
      (now n : ℕ) (ls : List Lease) (r : R) (s : ShardState Url)
      → Views postcard keys shard (redis.obs r) s
      → All (IsHeld now s) ls
      → Apart ls
      → let o =
          Scripts.reclaim_loop redis
            (Keys.inflight keys shard)
            (Keys.wake keys shard)
            (Keys.host_queue_prefix keys shard)
            now
            (map as_member ls)
            n
            r in
        let p = reclaim_all now (map lease_id ls) n s in
        (o.0 ≡ n + length ls)
        × (p.0 ≡ ok (n + length ls))
        × Views postcard keys shard (redis.obs o.1) p.1
  unfolding Scripts.reclaim_loop reclaim_all
  loop-Views now n [] r s v hs far = (omega arith, ap ok (omega arith), v)
  loop-Views now n ((id, slot) ∷ ls) r s v hs far =
      let rest =
        loop-Views now (n + 1) ls _ _ (round-Views now (id, slot) r s v hs.0)
          (still-IsHeld now s (id, slot) ls slot hs.0.1 hs.1 far.0) far.1 in
      rw (split_member-member id slot.host hs.0.0, Scripts.reclaim_loop)
        (rw (done, reclaim_all) (omega (arith, rest.0), rest.1 ∙ ap ok (omega arith), rest.2))
    where
      done : (reclaim_url now id s).0 ≡ ok tt
      done = unfold reclaim_url in rw (hs.0.1, reclaim_url)

  reclaimed_ids :
      (now : ℕ) (s : ShardState Url) (id : Text) (slot : InflightSlot) (ls : List Lease)
      → IsBarFree id
      → All (IsHeld now s) ls
      → contains (map as_member ls) (member id slot.host) ≡ true
      → contains (map lease_id ls) id ≡ true
  reclaimed_ids now s id slot [] free hs e = e
  reclaimed_ids now s id slot (k ∷ ls) free hs e = ground (
    arith,
    e,
    same-member id slot.host (lease_id k) k.1.host free hs.0.0,
    reclaimed_ids now s id slot ls free hs.1,
  )

  -- A lease of the shard that has run out, of a URL whose id has no bar.
  abbrev pub HasExpired : ℕ → ShardState Url → Text → Type 0
  HasExpired now s id =
      IsBarFree id
      × ((slot : InflightSlot) × (Map.get id s.inflight ≡ some slot)
          × (leb slot.lease_expiry_ms now ≡ true))

  expired_ids :
      (now : ℕ) (s : ShardState Url) (ls : List Lease)
      → All (IsHeld now s) ls
      → All (HasExpired now s) (map lease_id ls)
  expired_ids now s [] hs = tt
  expired_ids now s ((id, slot) ∷ ls) hs =
      ((hs.0.0, (slot, hs.0.1, hs.0.2)), expired_ids now s ls hs.1)

  -- What reclaim.lua comes to, from its count and the server behind it.
  abbrev pub Reclaims : ℕ → ℕ → ShardState Url → ℕ × R → Type 0
  Reclaims now limit s o =
      (ids : List Text) × (o.0 ≡ length ids)
      × All (HasExpired now s) ids
      × ((id : Text) → length ids < limit → HasExpired now s id → contains ids id ≡ true)
      × ((reclaim_all now ids 0 s).0 ≡ ok (length ids))
      × Views postcard keys shard (redis.obs o.1) (reclaim_all now ids 0 s).1

  abbrev loop : ℕ → List Text → R → ℕ × R
  loop now ms r =
      Scripts.reclaim_loop redis (Keys.inflight keys shard) (Keys.wake keys shard)
        (Keys.host_queue_prefix keys shard) now ms 0 r

  leases-Reclaims :
      (now limit : ℕ) (ls : List Lease) (r : R) (s : ShardState Url)
      → Views postcard keys shard (redis.obs r) s
      → All (IsHeld now s) ls
      → Apart ls
      → ((m : Text) (z : ℤ)
          → length (map as_member ls) < limit
          → (redis.obs r).zsets (Keys.inflight keys shard) m ≡ some z
          → score_due now z ≡ true
          → contains (map as_member ls) m ≡ true)
      → Reclaims now limit s (loop now (map as_member ls) r)
  leases-Reclaims now limit ls r s v hs far all =
      let p = loop-Views now 0 ls r s v hs far in
      (
        map lease_id ls,
        omega (arith, p.0, length-map lease_id ls),
        expired_ids now s ls hs,
        λ id few h. reclaimed_ids now s id h.1.0 ls h.0 hs (
            all (member id h.1.0.host) (pos h.1.0.lease_expiry_ms)
              (omega (arith, few, length-map lease_id ls, length-map as_member ls))
              (v.leases id h.1.0.host h.0 ∙ rw h.1.1 (rw (==_refl h.1.0.host))) h.1.2),
        p.1 ∙ ap ok (omega (arith, length-map lease_id ls)),
        p.2,
      )

  -- reclaim.lua puts URLs whose lease has run out back into the queues, and counts them; it puts
  -- every such URL back if they are fewer than the limit. It does with them what `reclaim_all` of
  -- the in-memory frontier does, which does not panic on them.
  pub reclaim-Refines :
      (now limit : ℕ) (r : R) (s : ShardState Url)
      → Views postcard keys shard (redis.obs r) s
      → Reclaims now limit s (
          Scripts.reclaim redis
            (Keys.inflight keys shard)
            (Keys.wake keys shard)
            (Keys.host_queue_prefix keys shard)
            now
            limit
            r)
  unfolding Scripts.reclaim
  reclaim-Refines now limit r s v =
      let inflight = Keys.inflight keys shard in
      let ms = redis.zrange_by_score inflight now limit r in
      let ls =
        leases_of redis postcard keys shard now ms r s v
          (redis.zrange_by_score_due inflight now limit r) in
      let all = redis.zrange_by_score_all inflight now limit r in
      let far = apart now s ls.0 ls.2 (
        subst (λ xs. (m : Text) → count m xs ≤ 1) ls.1
          (redis.zrange_by_score_once inflight now limit r)) in
      subst (λ xs. Reclaims now limit s (loop now xs r)) (sym ls.1)
        (leases-Reclaims now limit ls.0 r s v ls.2 far (
          subst
            (λ xs.
              (m : Text) (z : ℤ)
              → length xs < limit
              → (redis.obs r).zsets inflight m ≡ some z
              → score_due now z ≡ true
              → contains xs m ≡ true)
            ls.1 all))
