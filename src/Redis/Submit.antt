-- ===== src/Redis/Submit.antt =====
-- crates/crawlrs-frontier/src/scripts/submit.lua against `submit_shard` of
-- crates/crawlrs-fakes/src/frontier.rs.
use crawlrs.Prelude.{
  ℕ, ◌≡◌, refl, true, false, List, ◌∷◌, Option, none, some, arith, sym, list_eq, nat_eq, Bool-cases,
  contains, ◌==◌, inl, inr, ◌⊎◌,
}
use crawlrs.Core.Error.{Text}
use crawlrs.Core.Types.{UrlEntry, queued}
use crawlrs.Fakes.Accounting.{same_text}
use crawlrs.Fakes.Shard
use crawlrs.Fakes.Shard.{
  ShardState, BatchItem, rejected, duplicate, accepted, submit_shard, batch_shard, at_quota,
  bump_count,
}
use crawlrs.Redis.Api.{ℤ, pos, negsuc, Redis, Postcard}
use crawlrs.Redis.Keys
use crawlrs.Redis.Keys.{KeyPrefix, IsBarFree}
use crawlrs.Redis.Views
use crawlrs.Redis.Views.{Views}
use crawlrs.Redis.Commands.{rpush-Views, hset-Views, zadd_nx-Views}
use crawlrs.Redis.Scripts
use crawlrs.Redis.Scripts.{BatchArg}

-- One URL as the client submits it: its id, its host, its entry with the encoding, its quota.
pub record Item (Url : Type 0) : Type 0 where
  pub url_id : Text
  pub host : Text
  pub entry : UrlEntry Url
  pub payload : Text
  pub max_urls : Option ℕ

-- The cap of the script: -1 stands for none.
abbrev pub cap_arg : Option ℕ → ℤ
cap_arg none = negsuc 0
cap_arg (some n) = pos n

-- What a longer list of seen ids contains.
pub newer :
    (id : Text) (seen : List Text) (j : Text)
    → contains (id ∷ seen) j ≡ true
    → (id ≡ j) ⊎ (contains seen j ≡ true)
newer id seen j e = elim (Bool-cases (j == id)) [
  | inl this ↦ inl (sym ((same_text j id).0 this))
  | inr other ↦ inr (ground (arith, other, e))
]

module _ {R Url : Type 0} (redis : Redis R) (postcard : Postcard Url) (keys : KeyPrefix)
    (shard : ℕ) where
  abbrev pub Holds : R → ShardState Url → Type 0
  Holds r s = Views postcard keys shard (redis.obs r) s

  -- BF.ADD leaves what the keys hold, with the URL known or not.
  pub bf_add-Views :
      (id : Text) (r : R) (s : ShardState Url) (seen : List Text)
      → Holds r s
      → ((j : Text) → contains seen j ≡ true → (id ≡ j) ⊎ (contains s.seen j ≡ true))
      → Holds (redis.bf_add (Keys.seen shard) id r).1 (record s { seen = seen })
  bf_add-Views id r s seen v only = rw (redis.bf_add_effect (Keys.seen shard) id r) (
      Views.bloom-Views postcard keys shard (redis.obs r) s v _ seen (λ j e. elim (only j e) [
        | inl this ↦ rw (sym this) (redis.bf_add_member (Keys.seen shard) id r)
        | inr old ↦ redis.bf_add_keeps (Keys.seen shard) id (Keys.seen shard) j r (v.known j old)
      ]))

  pub enqueue-Views :
      (now : ℕ) (id host : Text) (entry : UrlEntry Url) (bytes : Text) (r : R) (s : ShardState Url)
      → Holds r (record s { seen = id ∷ s.seen })
      → IsBarFree id
      → postcard.to_allocvec entry ≡ some bytes
      → Holds
          (Scripts.enqueue redis
            (Keys.urls keys shard)
            (Keys.host_queue keys shard host)
            (Keys.wake keys shard)
            now
            id
            host
            bytes
            r)
          (Shard.enqueue now id host entry s)
  unfolding Scripts.enqueue Shard.enqueue Shard.push_back Shard.queue_of
  enqueue-Views now id host entry bytes r s v free coded =
      let v1 = hset-Views redis postcard keys shard r _ v id entry bytes coded in
      let v2 = rpush-Views redis postcard keys shard _ _ v1 host id free in
      zadd_nx-Views redis postcard keys shard _ _ v2 host now

  -- submit.lua queues a URL as `submit_shard` does, or the bloom filter contains it already; then
  -- nothing changes.
  pub submit-Refines :
      (now : ℕ) (id host : Text) (entry : UrlEntry Url) (bytes : Text) (r : R) (s : ShardState Url)
      → Views postcard keys shard (redis.obs r) s
      → IsBarFree id
      → postcard.to_allocvec entry ≡ some bytes
      → let o =
          Scripts.submit redis
            (Keys.seen shard)
            (Keys.urls keys shard)
            (Keys.host_queue keys shard host)
            (Keys.wake keys shard)
            id
            host
            bytes
            now
            r in
        let p = submit_shard now id host entry s in
        ((o.0 ≡ 0) × (p.0 ≡ queued) × Views postcard keys shard (redis.obs o.1) p.1)
        ⊎ ((o.0 ≡ 1)
            × ((redis.obs r).blooms (Keys.seen shard) id ≡ true)
            × Views postcard keys shard (redis.obs o.1) s)
  unfolding Scripts.submit submit_shard
  submit-Refines now id host entry bytes r s v free coded =
      elim (Bool-cases ((redis.obs r).blooms (Keys.seen shard) id)) [
        | inl old ↦
            rw (redis.bf_add_reply (Keys.seen shard) id r, Scripts.submit)
              (rw old (inr (refl, refl, bf_add-Views id r s s.seen v (λ j e. inr e))))
        | inr new ↦
            rw (redis.bf_add_reply (Keys.seen shard) id r, Scripts.submit)
              (rw new (
                rw (fresh new) (
                  inl (
                    refl,
                    refl,
                    enqueue-Views now id host entry bytes _ s
                        (bf_add-Views id r s (id ∷ s.seen) v (newer id s.seen)) free coded,
                  ))))
      ]
    where
      fresh : (redis.obs r).blooms (Keys.seen shard) id ≡ false → contains s.seen id ≡ false
      fresh new = ground (arith, v.known id)
