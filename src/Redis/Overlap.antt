-- ===== src/Redis/Overlap.antt =====
-- crates/crawlrs-frontier/src/scripts: promote.lua pushes a host to `ready` although it is there.
use crawlrs.Prelude.{
  ℕ, ◌+◌, ◌≤◌, ◌<◌, ◌≡◌, refl, true, false, List, [], ◌∷◌, ◌++◌, none, some, arith, sym, ap, ◌∙◌,
  list_eq, nat_eq, contains, count, count-append, ==_refl, inl, inr, leb,
}
use crawlrs.Prelude.Map
use crawlrs.Core.Error.{Text}
use crawlrs.Core.Types.{UrlEntry}
use crawlrs.Fakes.Shard
use crawlrs.Fakes.Shard.{ShardState, submit_shard, promote_all, promote_host}
use crawlrs.Redis.Api.{Redis, Postcard}
use crawlrs.Redis.Keys
use crawlrs.Redis.Keys.{KeyPrefix, IsBarFree}
use crawlrs.Redis.Views.{Views}
use crawlrs.Redis.Scripts
use crawlrs.Redis.Submit.{submit-Refines}
use crawlrs.Redis.Wake.{IsDue, promote-Refines}

append_assoc : (xs ys zs : List Text) → (xs ++ ys) ++ zs ≡ xs ++ (ys ++ zs)
append_assoc [] ys zs = refl
append_assoc (x ∷ xs) ys zs = rw (append_assoc xs ys zs)

append_nil : (xs : List Text) → xs ++ [] ≡ xs
append_nil [] = refl
append_nil (x ∷ xs) = rw (append_nil xs)

contains-count : (h : Text) (hs : List Text) → contains hs h ≡ true → 1 ≤ count h hs
contains-count h [] e = absurd (ground (arith, e))
contains-count h (x ∷ xs) e = ground (arith, e, contains-count h xs)

module _ {Url : Type 0} where
  ready-promote_all :
      (hosts : List Text) (s : ShardState Url) → (promote_all hosts s).ready ≡ s.ready ++ hosts
  unfolding promote_all promote_host
  ready-promote_all [] s = sym (append_nil s.ready)
  ready-promote_all (h ∷ hosts) s = ready-promote_all hosts _ ∙ append_assoc s.ready (h ∷ []) hosts

module _ {R Url : Type 0} (redis : Redis R) (postcard : Postcard Url) (keys : KeyPrefix)
    (shard : ℕ) where
  -- promote.lua adds one entry of a host whose wake-time has come, ready already or not.
  promote_adds :
      (now limit : ℕ) (host : Text) (r : R) (s : ShardState Url)
      → Views postcard keys shard (redis.obs r) s
      → IsDue redis postcard keys shard now s host
      → let o = Scripts.promote redis (Keys.wake keys shard) (Keys.ready keys shard) now limit r in
        o.0 < limit
        → count host ((redis.obs o.1).lists (Keys.ready keys shard)) ≡ count host s.ready + 1
  promote_adds now limit host r s v due few =
      let p = promote-Refines redis postcard keys shard now limit r s v in
      let one = contains-count host p.0 (p.4 host (omega (arith, p.1, few)) due) in
      rw p.5.readies
        (rw (ready-promote_all p.0 s) (omega (arith, count-append host s.ready p.0, one, p.3 host)))

  -- A host that is ready has no wake-time any more, so the submission of a new URL of the host
  -- gives it one, and the promotion behind it puts the host into `ready` once more: a host that
  -- was ready is then ready twice. The promotion is not cut off by its limit.
  pub ready_twice :
      (now limit : ℕ) (id host : Text) (entry : UrlEntry Url) (bytes : Text) (r : R)
      (s : ShardState Url)
      → Views postcard keys shard (redis.obs r) s
      → IsBarFree id
      → postcard.to_allocvec entry ≡ some bytes
      → (redis.obs r).blooms (Keys.seen shard) id ≡ false
      → Map.get host s.wake ≡ none
      → let r' =
          (Scripts.submit redis
            (Keys.seen shard)
            (Keys.urls keys shard)
            (Keys.host_queue keys shard host)
            (Keys.wake keys shard)
            id
            host
            bytes
            now
            r).1 in
        let o = Scripts.promote redis (Keys.wake keys shard) (Keys.ready keys shard) now limit r' in
        o.0 < limit
        → count host ((redis.obs o.1).lists (Keys.ready keys shard))
          ≡ count host ((redis.obs r).lists (Keys.ready keys shard)) + 1
  ready_twice now limit id host entry bytes r s v free coded new idle few =
      elim (submit-Refines redis postcard keys shard now id host entry bytes r s v free coded) [
        | inr p ↦ absurd (ground (arith, p.1, new))
        | inl p ↦ rw v.readies (
            promote_adds now limit host _ _ p.2 (now, woken, leb_refl now) few
            ∙ ap (λ hs. count host hs + 1) kept)
      ]
    where
      fresh : contains s.seen id ≡ false
      fresh = ground (arith, v.known id, new)

      leb_refl : (n : ℕ) → leb n n ≡ true
      leb_refl n = ground arith

      woken : Map.get host (submit_shard now id host entry s).1.wake ≡ some now
      woken =
          unfold submit_shard Shard.enqueue Shard.push_back in
          rw fresh (rw (Map.get-or_insert host host now s.wake) (rw (==_refl host) (rw idle)))

      kept : (submit_shard now id host entry s).1.ready ≡ s.ready
      kept = unfold submit_shard Shard.enqueue Shard.push_back in rw fresh
