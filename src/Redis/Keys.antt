-- ===== src/Redis/Keys.antt =====
-- crates/crawlrs-frontier/src/keys.rs: the names of the keys in Redis.
use crawlrs.Prelude.{
  ℕ, ◌≡◌, refl, false, ◌&&◌, [], ◌∷◌, ◌++◌, arith, ◌==◌, list_eq, nat_eq, All, ◌≢◌,
}
use crawlrs.Core.Error.{Text}
use crawlrs.Core.Ascii.{codes}
use crawlrs.Core.Decimal.{to_decimal}

pub record KeyPrefix : Type 0 where
  pub run_id : Text

module _ (keys : KeyPrefix) (shard : ℕ) where
  -- crawlrs:{<run>_s<shard>}
  unfoldable pub shard_tag : Text
  shard_tag = codes "crawlrs:{" ++ (keys.run_id ++ (codes "_s" ++ (to_decimal shard ++ codes "}")))

  unfoldable pub host_queue_prefix : Text
  host_queue_prefix = shard_tag ++ codes ":host_queue:"

  unfoldable pub host_queue : Text → Text
  host_queue host = shard_tag ++ (codes ":host_queue:" ++ host)

  unfoldable pub wake : Text
  wake = shard_tag ++ codes ":wake"

  unfoldable pub ready : Text
  ready = shard_tag ++ codes ":ready"

  unfoldable pub inflight : Text
  inflight = shard_tag ++ codes ":inflight"

  unfoldable pub urls : Text
  urls = shard_tag ++ codes ":urls"

  unfoldable pub host_count : Text → Text
  host_count host = shard_tag ++ (codes ":host_count:" ++ host)

-- The filter is shared by all runs.
unfoldable pub seen : ℕ → Text
seen shard = codes "crawlrs:{s" ++ (to_decimal shard ++ codes "}:seen")

-- A common prefix changes nothing in a comparison.
same-prefix : (p a b : Text) → ((p ++ a) == (p ++ b)) ≡ (a == b)
same-prefix [] a b = refl
same-prefix (x ∷ p) a b = ground (arith, same-prefix p a b)

append_assoc : (xs ys zs : Text) → (xs ++ ys) ++ zs ≡ xs ++ (ys ++ zs)
append_assoc [] ys zs = refl
append_assoc (x ∷ xs) ys zs = rw (append_assoc xs ys zs)

module _ (keys : KeyPrefix) (shard : ℕ) where
  -- The prefix that the scripts append a host to.
  pub host_queue_prefix-append :
      (host : Text) → host_queue_prefix keys shard ++ host ≡ host_queue keys shard host
  unfolding host_queue_prefix host_queue
  host_queue_prefix-append host = append_assoc (shard_tag keys shard) (codes ":host_queue:") host

  pub same-host_queue :
      (a b : Text) → (host_queue keys shard a == host_queue keys shard b) ≡ (a == b)
  unfolding host_queue
  same-host_queue a b = same-prefix (shard_tag keys shard) _ _

  pub same-host_count :
      (a b : Text) → (host_count keys shard a == host_count keys shard b) ≡ (a == b)
  unfolding host_count
  same-host_count a b = same-prefix (shard_tag keys shard) _ _

  pub ready_ne : (a : Text) → (ready keys shard == host_queue keys shard a) ≡ false
  unfolding ready host_queue
  ready_ne a = same-prefix (shard_tag keys shard) _ _

  pub host_queue_ne : (a : Text) → (host_queue keys shard a == ready keys shard) ≡ false
  unfolding ready host_queue
  host_queue_ne a = same-prefix (shard_tag keys shard) _ _

  pub wake_ne : (wake keys shard == inflight keys shard) ≡ false
  unfolding wake inflight
  wake_ne = same-prefix (shard_tag keys shard) _ _

  pub inflight_ne : (inflight keys shard == wake keys shard) ≡ false
  unfolding wake inflight
  inflight_ne = same-prefix (shard_tag keys shard) _ _

-- A member of `inflight`.
abbrev pub member : Text → Text → Text
member url_id host = url_id ++ b'|' ∷ host

abbrev pub IsBarFree : Text → Type 0
IsBarFree t = All (λ c. c ≢ b'|') t

pub same-member :
    (id host id' host' : Text)
    → IsBarFree id
    → IsBarFree id'
    → (member id host == member id' host') ≡ ((id == id') && (host == host'))
same-member [] host [] host' h h' = refl
same-member [] host (y ∷ id') host' h h' = ground (arith, h'.0)
same-member (x ∷ id) host [] host' h h' = ground (arith, h.0)
same-member (x ∷ id) host (y ∷ id') host' h h' =
    ground (arith, same-member id host id' host' h.1 h'.1)
