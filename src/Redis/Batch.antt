-- ===== src/Redis/Batch.antt =====
-- crates/crawlrs-frontier/src/scripts/submit_batch.lua against `batch_shard` of
-- crates/crawlrs-fakes/src/frontier.rs.
use crawlrs.Prelude.{
  ℕ, ◌+◌, ◌≡◌, refl, Bool, true, false, List, [], ◌∷◌, ◌++◌, Option, none, some, arith, subst, ap,
  ◌∙◌, list_eq, nat_eq, Bool-cases, contains, inl, inr, ◌⊎◌, All, map, leb, unwrap_or,
}
use crawlrs.Core.Error.{Text}
use crawlrs.Fakes.Shard.{
  ShardState, BatchItem, rejected, duplicate, accepted, batch_shard, at_quota, bump_count,
}
use crawlrs.Redis.Api.{pos, negsuc, Redis, Postcard}
use crawlrs.Redis.Keys
use crawlrs.Redis.Keys.{KeyPrefix, IsBarFree}
use crawlrs.Redis.Views.{Views}
use crawlrs.Redis.Commands.{incr-Views}
use crawlrs.Redis.Scripts
use crawlrs.Redis.Scripts.{BatchArg}
use crawlrs.Redis.Submit.{Item, cap_arg, newer, bf_add-Views, enqueue-Views}

module _ {R Url : Type 0} (redis : Redis R) (postcard : Postcard Url) (keys : KeyPrefix)
    (shard : ℕ) where
  abbrev Holds : R → ShardState Url → Type 0
  Holds r s = Views postcard keys shard (redis.obs r) s

  -- What a round of the loop makes of the count and the rejected ids.
  abbrev pub counted : BatchItem → Text → ℕ × List Text → ℕ × List Text
  counted rejected id (n, ids) = (n, ids ++ id ∷ [])
  counted duplicate id acc = acc
  counted accepted id (n, ids) = (n + 1, ids)

  abbrev pub arg : Item Url → BatchArg
  arg i = record {
    host_queue_key = Keys.host_queue keys shard i.host;
    host_count_key = Keys.host_count keys shard i.host;
    url_id = i.url_id;
    host = i.host;
    payload = i.payload;
    max_urls = cap_arg i.max_urls;
  }

  abbrev pub round : ℕ → Item Url → ℕ × List Text → R → (ℕ × List Text) × R
  round now i =
      Scripts.submit_item redis (Keys.seen shard) (Keys.urls keys shard) (Keys.wake keys shard) now
        (arg i)

  same_quota :
      (i : Item Url) (r : R) (s : ShardState Url)
      → Holds r s
      → Scripts.quota_exceeded redis (arg i) r ≡ at_quota i.max_urls i.host s
  unfolding Scripts.quota_exceeded at_quota
  same_quota i r s v = by_cap i.max_urls
    where
      by_cap :
          (cap : Option ℕ)
          → elim (cap_arg cap) [
            | pos c ↦ leb c (unwrap_or (redis.get (Keys.host_count keys shard i.host) r) 0)
            | negsuc n ↦ false
          ]
            ≡ at_quota cap i.host s
      by_cap none = refl
      by_cap (some c) =
          rw (redis.get_reply (Keys.host_count keys shard i.host) r) (rw (v.counts i.host))

  bump-Views :
      (i : Item Url) (r : R) (s : ShardState Url)
      → Holds r s
      → Holds (Scripts.bump redis (arg i) r) (bump_count i.max_urls i.host s)
  unfolding Scripts.bump bump_count
  bump-Views i r s v = by_cap i.max_urls
    where
      by_cap :
          (cap : Option ℕ)
          → Holds
              (elim (cap_arg cap) [
                | pos c ↦ redis.incr (Keys.host_count keys shard i.host) r
                | negsuc n ↦ r
              ])
              (bump_count cap i.host s)
      by_cap none = v
      by_cap (some c) = incr-Views redis postcard keys shard r s v i.host

  seen-bump_count :
      (cap : Option ℕ) (host id : Text) (s : ShardState Url)
      → bump_count cap host (record s { seen = id ∷ s.seen })
        ≡ record (bump_count cap host s) { seen = id ∷ (bump_count cap host s).seen }
  unfolding bump_count
  seen-bump_count none host id s = refl
  seen-bump_count (some c) host id s = refl

  added-Views :
      (i : Item Url) (r : R) (s : ShardState Url)
      → Holds r s
      → Holds
          (Scripts.bump redis (arg i) (redis.bf_add (Keys.seen shard) i.url_id r).1)
          (record (bump_count i.max_urls i.host s) {
            seen = i.url_id ∷ (bump_count i.max_urls i.host s).seen;
          })
  added-Views i r s v = subst (Holds _) (seen-bump_count i.max_urls i.host i.url_id s) (
      bump-Views i _ (record s { seen = i.url_id ∷ s.seen })
        (bf_add-Views redis postcard keys shard i.url_id r s (i.url_id ∷ s.seen) v
          (newer i.url_id s.seen)))

  -- A round of submit_batch.lua does what `batch_shard` does, the quota first, or the bloom filter
  -- contains the URL already; then nothing changes and the URL counts as a duplicate.
  pub round-Refines :
      (now : ℕ) (i : Item Url) (acc : ℕ × List Text) (r : R) (s : ShardState Url)
      → Views postcard keys shard (redis.obs r) s
      → IsBarFree i.url_id
      → postcard.to_allocvec i.entry ≡ some i.payload
      → let o = round now i acc r in
        let p = batch_shard now i.max_urls i.url_id i.host i.entry s in
        ((o.0 ≡ counted p.0 i.url_id acc) × Views postcard keys shard (redis.obs o.1) p.1)
        ⊎ ((o.0 ≡ acc)
            × ((redis.obs r).blooms (Keys.seen shard) i.url_id ≡ true)
            × (at_quota i.max_urls i.host s ≡ false)
            × Views postcard keys shard (redis.obs o.1) s)
  unfolding Scripts.submit_item batch_shard
  round-Refines now i acc r s v free coded =
      rw (same_quota i r s v, Scripts.submit_item)
        (elim (Bool-cases (at_quota i.max_urls i.host s)) [
          | inl full ↦ rw full (inl (refl, v))
          | inr room ↦ rw room (
              rw (redis.bf_add_reply (Keys.seen shard) i.url_id r)
                (elim (Bool-cases ((redis.obs r).blooms (Keys.seen shard) i.url_id)) [
                  | inl old ↦ rw old (
                      inr (
                        refl,
                        refl,
                        refl,
                        bf_add-Views redis postcard keys shard i.url_id r s s.seen v (λ j e. inr e),
                      ))
                  | inr new ↦ rw new (
                      rw (fresh new) (
                        inl (
                          refl,
                          enqueue-Views redis postcard keys shard now i.url_id i.host i.entry
                              i.payload _ (bump_count i.max_urls i.host s) (added-Views i r s v)
                              free coded,
                        )))
                ]))
        ])
    where
      fresh :
          (redis.obs r).blooms (Keys.seen shard) i.url_id ≡ false → contains s.seen i.url_id ≡ false
      fresh new = ground (arith, v.known i.url_id)

  -- The in-memory batch in which the flagged URLs that are under their quota are left out.
  abbrev pub batch_without :
      ℕ
      → List (Item Url)
      → List Bool
      → ℕ × List Text
      → ShardState Url
      → (ℕ × List Text) × ShardState Url
  batch_without now [] flags acc s = (acc, s)
  batch_without now (i ∷ items) [] acc s = (acc, s)
  batch_without now (i ∷ items) (true ∷ flags) acc s = batch_without now items flags acc s
  batch_without now (i ∷ items) (false ∷ flags) acc s =
      let (item, s') = batch_shard now i.max_urls i.url_id i.host i.entry s in
      batch_without now items flags (counted item i.url_id acc) s'

  -- A flag is set only in a round that begins with the URL in the bloom filter, and the URL is
  -- then not counted.
  abbrev pub Flagged : ℕ → List (Item Url) → List Bool → ℕ × List Text → R → Type 0
  Flagged now [] [] acc r = Unit
  Flagged now (i ∷ items) (flag ∷ flags) acc r =
      (flag ≡ true
        → ((redis.obs r).blooms (Keys.seen shard) i.url_id ≡ true) × ((round now i acc r).0 ≡ acc))
      × Flagged now items flags (round now i acc r).0 (round now i acc r).1
  Flagged now items flags acc r = ⊥

  abbrev pub IsEncoded : Item Url → Type 0
  IsEncoded i = IsBarFree i.url_id × (postcard.to_allocvec i.entry ≡ some i.payload)

  abbrev final : ℕ → List (Item Url) → (ℕ × List Text) × R → R
  final now items (acc, r) =
      (Scripts.submit_items redis (Keys.seen shard) (Keys.urls keys shard) (Keys.wake keys shard)
        now (map arg items) acc r).1

  items-Refines :
      (now : ℕ) (items : List (Item Url)) (acc : ℕ × List Text) (r : R) (s : ShardState Url)
      → Views postcard keys shard (redis.obs r) s
      → All IsEncoded items
      → let o =
          Scripts.submit_items redis
            (Keys.seen shard)
            (Keys.urls keys shard)
            (Keys.wake keys shard)
            now
            (map arg items)
            acc
            r in
        (flags : List Bool) × Flagged now items flags acc r
        × (o.0 ≡ (batch_without now items flags acc s).0)
        × Views postcard keys shard (redis.obs o.1) (batch_without now items flags acc s).1
  unfolding Scripts.submit_items
  items-Refines now [] acc r s v h = ([], tt, refl, v)
  items-Refines now (i ∷ items) acc r s v h = elim (round-Refines now i acc r s v h.0.0 h.0.1) [
    | inl (same, w) ↦
        let rest = items-Refines now items (round now i acc r).0 (round now i acc r).1 _ w h.1 in
        let s' = (batch_shard now i.max_urls i.url_id i.host i.entry s).1 in
        (
          false ∷ rest.0,
          (λ e. absurd (ground (arith, e)), rest.1),
          rest.2 ∙ ap (λ a. (batch_without now items rest.0 a s').0) same,
          subst
              (λ a.
                Holds (final now items (round now i acc r)) (batch_without now items rest.0 a s').1)
              same rest.3,
        )
    | inr (same, old, room, w) ↦
        let rest = items-Refines now items (round now i acc r).0 (round now i acc r).1 s w h.1 in
        (
          true ∷ rest.0,
          (λ e. (old, same), rest.1),
          rest.2 ∙ ap (λ a. (batch_without now items rest.0 a s).0) same,
          subst
              (λ a.
                Holds (final now items (round now i acc r)) (batch_without now items rest.0 a s).1)
              same rest.3,
        )
  ]

  -- submit_batch.lua does what the loop of the in-memory `submit_batch` does, the same count and
  -- the same rejected ids, except that it leaves out URLs that the bloom filter contained when
  -- their round began; those are not counted. The ids have no bar, and the payloads are the
  -- encodings of the entries.
  pub submit_batch-Refines :
      (now : ℕ) (items : List (Item Url)) (r : R) (s : ShardState Url)
      → Views postcard keys shard (redis.obs r) s
      → All IsEncoded items
      → let o =
          Scripts.submit_batch redis
            (Keys.seen shard)
            (Keys.urls keys shard)
            (Keys.wake keys shard)
            now
            (map arg items)
            r in
        (flags : List Bool) × Flagged now items flags (0, []) r
        × (o.0 ≡ (batch_without now items flags (0, []) s).0)
        × Views postcard keys shard (redis.obs o.1) (batch_without now items flags (0, []) s).1
  unfolding Scripts.submit_batch
  submit_batch-Refines now items = items-Refines now items (0, [])
