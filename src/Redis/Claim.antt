-- ===== src/Redis/Claim.antt =====
-- crates/crawlrs-frontier/src/scripts/claim.lua against `pop_one_ready` of
-- crates/crawlrs-fakes/src/frontier.rs.
use crawlrs.Prelude.{
  ℕ, zero, suc, ◌+◌, ◌≤◌, ◌<◌, ◌≡◌, refl, true, List, [], ◌∷◌, ◌++◌, Option, none, some, arith, sym,
  list_eq, nat_eq, length, Option-cases, inl, inr, subst, ◌∙◌, leb→le,
}
use crawlrs.Prelude.Map
use crawlrs.Core.Error.{Text, Result, ok}
use crawlrs.Core.Types.{UrlEntry}
use crawlrs.Fakes.Accounting.{Accounted, waiting-stored}
use crawlrs.Fakes.Shard.{
  ShardState, u64_max, saturating_add, queue_of, pop_hosts, pop_one_ready, lease_url,
}
use crawlrs.Redis.Api.{ℤ, pos, score_le, Redis, Postcard}
use crawlrs.Redis.Keys
use crawlrs.Redis.Keys.{KeyPrefix, member, IsBarFree, host_queue_prefix-append}
use crawlrs.Redis.Views.{Views, Stores, score_of}
use crawlrs.Redis.Commands.{
  lpop-Views, lpop_idle-Views, lpop_ready-Views, zadd-Views, zadd_lease-Views,
}
use crawlrs.Redis.Scripts
use crawlrs.Redis.Scripts.{ClaimReply, claimed, empty_hint, empty}

module _ {R Url : Type 0} (redis : Redis R) (postcard : Postcard Url) (keys : KeyPrefix)
    (shard : ℕ) where
  -- The script tells of the same URL, with a payload that decodes to its entry; or, when there is
  -- none, of the least wake-time of the shard.
  abbrev pub Tells :
      ShardState Url → Result (Option (Text × UrlEntry Url × Text)) → Option ClaimReply → Type 0
  Tells s (ok (some (id, entry, host))) (some (claimed id' host' payload)) =
      (id' ≡ id)
      × (host' ≡ host)
      × ((bytes : Text) × (payload ≡ some bytes) × (postcard.from_bytes bytes ≡ some entry))
  Tells s (ok none) (some empty) = (host : Text) → Map.get host s.wake ≡ none
  Tells s (ok none) (some (empty_hint z)) =
      (at : ℕ) × (host : Text) × (z ≡ pos at)
      × (Map.get host s.wake ≡ some at)
      × ((h : Text) (n : ℕ) → Map.get h s.wake ≡ some n → at ≤ n)
  Tells s p o = ⊥

  pos_score : (o : Option ℕ) (z : ℤ) → score_of o ≡ some z → (n : ℕ) × (o ≡ some n) × (z ≡ pos n)
  pos_score none z e = absurd (ground (arith, e))
  pos_score (some n) z e = (n, refl, ground (arith, e))

  none_score : (o : Option ℕ) → score_of o ≡ none → o ≡ none
  none_score none e = refl
  none_score (some n) e = absurd (ground (arith, e))

  no_url-Tells :
      (r : R) (s : ShardState Url)
      → Views postcard keys shard (redis.obs r) s
      → Tells s (ok none) (some (Scripts.no_url redis (Keys.wake keys shard) r))
  unfolding Scripts.no_url
  no_url-Tells r s v = by_first (redis.zrange_first (Keys.wake keys shard) r) refl
    where
      by_first :
          (o : Option (Text × ℤ))
          → redis.zrange_first (Keys.wake keys shard) r ≡ o
          → Tells s (ok none) (some (elim o [ none ↦ empty | some (h, z) ↦ empty_hint z ]))
      by_first none e = λ host.
          none_score _
            (sym (v.wakes host) ∙ redis.zrange_first_none (Keys.wake keys shard) r host e)
      by_first (some (host, z)) e =
          let p = redis.zrange_first_some (Keys.wake keys shard) r host z e in
          let w = pos_score (Map.get host s.wake) z (sym (v.wakes host) ∙ p.0) in
          (
            w.0,
            host,
            w.2,
            w.1,
            λ h n found.
                leb→le w.0 n (
                  subst (λ y. score_le y (pos n) ≡ true) w.2
                    (p.1 h (pos n) (v.wakes h ∙ rw found))),
          )

  saturating_exact : (a b : ℕ) → a + b ≤ u64_max → saturating_add a b ≡ a + b
  saturating_exact a b h = omega arith

  -- The script as the client calls it, `fuel` rounds of it.
  abbrev loop : ℕ → ℕ → ℕ → R → Option ClaimReply × R
  loop now timeout fuel r =
      Scripts.claim_loop redis (Keys.ready keys shard) (Keys.wake keys shard)
        (Keys.inflight keys shard) (Keys.urls keys shard) (Keys.host_queue_prefix keys shard) now
        timeout fuel r

  -- The script tells what the pop tells, and the keys hold the shard that the pop leaves.
  abbrev pub Agrees :
      ShardState Url
      → Result (Option (Text × UrlEntry Url × Text)) × ShardState Url
      → Option ClaimReply × R
      → Type 0
  Agrees s p o = Tells p.1 p.0 o.0 × Views postcard keys shard (redis.obs o.1) p.1

  -- The URL at the front of a queue is leased by both.
  lease-Agrees :
      (now timeout : ℕ) (host id : Text) (q rest : List Text) (s : ShardState Url) (r : R)
      → Accounted s
      → now + timeout ≤ u64_max
      → Map.get host s.host_queue ≡ some (id ∷ q)
      → IsBarFree id
      → Views postcard keys shard
          (redis.obs r)
          (record s { ready = rest; host_queue = Map.insert host q s.host_queue })
      → let o =
          Scripts.lease redis
            (Keys.wake keys shard)
            (Keys.inflight keys shard)
            (Keys.urls keys shard)
            now
            timeout
            host
            id
            r in
        Agrees s
          (lease_url now timeout host id
            (record s { ready = rest; host_queue = Map.insert host q s.host_queue }))
          (some o.0, o.1)
  unfolding lease_url Scripts.lease
  lease-Agrees now timeout host id q rest s r acc small e free v =
      elim (Option-cases (Map.get id s.urls)) [
        | inl lost ↦ absurd (ground (arith, waiting-stored host id q s acc e))
        | inr (entry, found) ↦
            rw (found, lease_url)
              (rw (saturating_exact now timeout small) (
                (
                  refl,
                  refl,
                  rw (redis.hget_reply (Keys.urls keys shard) id held) (
                      subst
                        (λ o. Stores postcard o ((redis.obs held).hashes (Keys.urls keys shard) id))
                        found (leased_view.payloads id)),
                ),
                leased_view,
              ))
      ]
    where
      idle : Map.get id s.inflight ≡ none
      idle = elim (Option-cases (Map.get id s.inflight)) [
        | inl e ↦ e
        | inr (slot, held) ↦ absurd (ground (arith, waiting-stored host id q s acc e, held))
      ]

      woken : R
      woken = redis.zadd (Keys.wake keys shard) (pos (now + timeout)) host r

      held : R
      held = redis.zadd (Keys.inflight keys shard) (pos (now + timeout)) (member id host) woken

      leased_view : Views postcard keys shard (redis.obs held) (record s {
        ready = rest;
        host_queue = Map.insert host q s.host_queue;
        wake = Map.insert host (now + timeout) s.wake;
        inflight =
            Map.insert id (record { host = host; lease_expiry_ms = now + timeout }) s.inflight;
      })
      leased_view =
          zadd_lease-Views redis postcard keys shard woken _
            (zadd-Views redis postcard keys shard r _ v host (now + timeout)) id host
            (now + timeout) free idle

  loop-Agrees :
      (now timeout fuel : ℕ) (hosts : List Text) (s : ShardState Url) (r : R)
      → Accounted s
      → now + timeout ≤ u64_max
      → length hosts < fuel
      → Views postcard keys shard (redis.obs r) (record s { ready = hosts })
      → Agrees s (pop_hosts now timeout hosts s) (loop now timeout fuel r)
  unfolding pop_hosts Scripts.claim_loop
  loop-Agrees now timeout zero hosts s r acc small enough v = absurd (omega arith)
  loop-Agrees now timeout (suc fuel) [] s r acc small enough v =
      let p = lpop_ready-Views redis postcard keys shard r _ v in
      rw (p.0, Scripts.claim_loop) (no_url-Tells _ _ p.1, p.1)
  loop-Agrees now timeout (suc fuel) (host ∷ rest) s r acc small enough v =
      rw (p.0, Scripts.claim_loop)
        (by_queue (Map.get host s.host_queue) refl
          (λ r'' w. loop-Agrees now timeout fuel rest s r'' acc small (omega (arith, enough)) w))
    where
      p :
          ((redis.lpop (Keys.ready keys shard) r).0 ≡ some host)
          × Views postcard keys shard
              (redis.obs (redis.lpop (Keys.ready keys shard) r).1)
              (record s { ready = rest })
      p = lpop_ready-Views redis postcard keys shard r _ v

      r' : R
      r' = (redis.lpop (Keys.ready keys shard) r).1

      by_queue :
          (o : Option (List Text))
          → Map.get host s.host_queue ≡ o
          → ((r'' : R)
              → Views postcard keys shard (redis.obs r'') (record s { ready = rest })
              → Agrees s (pop_hosts now timeout rest s) (loop now timeout fuel r''))
          → Agrees s (pop_hosts now timeout (host ∷ rest) s) (
              let (u, r'') = redis.lpop (Keys.host_queue_prefix keys shard ++ host) r' in
              elim u [
                | none ↦ loop now timeout fuel r''
                | some url_id ↦
                    let (reply, r''') =
                      Scripts.lease redis
                        (Keys.wake keys shard)
                        (Keys.inflight keys shard)
                        (Keys.urls keys shard)
                        now
                        timeout
                        host
                        url_id
                        r'' in
                    (some reply, r''')
              ])
      by_queue none e again =
          let w =
            lpop_idle-Views redis postcard keys shard r' _ p.1 host (unfold queue_of in rw e) in
          rw (e, pop_hosts) (rw w.0 (again _ w.1))
      by_queue (some []) e again =
          let w =
            lpop_idle-Views redis postcard keys shard r' _ p.1 host (unfold queue_of in rw e) in
          rw (e, pop_hosts) (rw w.0 (again _ w.1))
      by_queue (some (id ∷ q)) e again =
          let w = lpop-Views redis postcard keys shard r' _ p.1 host id q e in
          rw (e, pop_hosts)
            (rw w.0 (lease-Agrees now timeout host id q rest s _ acc small e w.2 w.1))

  -- claim.lua ends on every shard, and on keys that hold what an accounted shard of the in-memory
  -- frontier holds it does what `pop_one_ready` does there, if the lease ends before 2^64: it
  -- tells of the same URL and host with a payload that decodes to the same entry, or that there
  -- is none and which wake-time of the shard comes first; and the keys hold what the shard holds
  -- afterwards.
  pub claim-Refines :
      (now timeout : ℕ) (s : ShardState Url) (r : R)
      → Accounted s
      → now + timeout ≤ u64_max
      → Views postcard keys shard (redis.obs r) s
      → Agrees s (pop_one_ready now timeout s) (
          Scripts.claim redis
            (Keys.ready keys shard)
            (Keys.wake keys shard)
            (Keys.inflight keys shard)
            (Keys.urls keys shard)
            (Keys.host_queue_prefix keys shard)
            now
            timeout
            r)
  unfolding pop_one_ready Scripts.claim
  claim-Refines now timeout s r acc small v =
      loop-Agrees now timeout (suc (length ((redis.obs r).lists (Keys.ready keys shard)))) s.ready s
        r acc small (rw v.readies (omega arith)) v
