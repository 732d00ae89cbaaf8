-- ===== src/Redis/Api.antt =====
-- What crates/crawlrs-frontier relies on of third-party code: the commands of a Redis server, by
-- what a client can read back, and the postcard encoding of a URL entry.
use crawlrs.Prelude.{
  ℕ, ◌+◌, ◌≤◌, ◌<◌, ◌≡◌, Bool, true, false, not, List, [], ◌∷◌, ◌++◌, Option, none, some, leb,
  if◌then◌else◌, contains, count, ◌==◌, list_eq, nat_eq, unwrap_or, length, All,
}
pub use crawlrs.Prelude.{ℤ, pos, negsuc}
use crawlrs.Core.Error.{Text}
use crawlrs.Core.Types.{UrlEntry}

abbrev pub score_le : ℤ → ℤ → Bool
score_le (pos a) (pos b) = leb a b
score_le (pos a) (negsuc b) = false
score_le (negsuc a) (pos b) = true
score_le (negsuc a) (negsuc b) = leb b a

-- Is the score in the range from 0 to `now`?
abbrev pub score_due : ℕ → ℤ → Bool
score_due now z = elim z [ pos n ↦ leb n now | negsuc n ↦ false ]

-- What the commands read of a server: its lists, sorted sets, hashes, counters and bloom filters,
-- each by its key. A missing key reads as an empty value.
pub record Keyspace : Type 0 where
  pub lists : Text → List Text
  pub zsets : Text → Text → Option ℤ
  pub hashes : Text → Text → Option Text
  pub counters : Text → Option ℕ
  pub blooms : Text → Text → Bool

abbrev pub set_at : {A : Type 0} → Text → A → (Text → A) → Text → A
set_at k v f j = if k == j then v else f j

abbrev pub put_list : Text → List Text → Keyspace → Keyspace
put_list key xs ks = record ks { lists = set_at key xs ks.lists }

abbrev pub put_score : Text → Text → Option ℤ → Keyspace → Keyspace
put_score key member o ks = record ks {
  zsets = set_at key (set_at member o (ks.zsets key)) ks.zsets;
}

abbrev pub put_field : Text → Text → Option Text → Keyspace → Keyspace
put_field key field o ks = record ks {
  hashes = set_at key (set_at field o (ks.hashes key)) ks.hashes;
}

abbrev pub put_counter : Text → Option ℕ → Keyspace → Keyspace
put_counter key o ks = record ks { counters = set_at key o ks.counters }

abbrev pub first : List Text → Option Text
first [] = none
first (x ∷ xs) = some x

abbrev pub behind : List Text → List Text
behind [] = []
behind (x ∷ xs) = xs

-- LREM key 0 x
unfoldable pub without : Text → List Text → List Text
without x [] = []
without x (y ∷ ys) = let rest = without x ys in if y == x then rest else y ∷ rest

-- ZADD NX keeps a score that is there.
abbrev pub or_score : Option ℤ → ℤ → Option ℤ
or_score none z = some z
or_score (some y) z = some y

-- The commands of a server whose state is `R`, as the Redis documentation describes them. BF.ADD
-- says whether the filter did not contain the element; a filter may contain more than was added.
pub record Redis (R : Type 0) : Type 0 where
  pub obs : R → Keyspace
  pub lpop : Text → R → Option Text × R
  pub lpop_reply : (key : Text) (r : R) → (lpop key r).0 ≡ first ((obs r).lists key)
  pub lpop_effect :
      (key : Text) (r : R) → obs (lpop key r).1 ≡ put_list key (behind ((obs r).lists key)) (obs r)
  pub rpush : Text → Text → R → R
  pub rpush_effect :
      (key x : Text) (r : R)
      → obs (rpush key x r) ≡ put_list key ((obs r).lists key ++ x ∷ []) (obs r)
  pub lrem : Text → Text → R → R
  pub lrem_effect :
      (key x : Text) (r : R)
      → obs (lrem key x r) ≡ put_list key (without x ((obs r).lists key)) (obs r)
  pub zadd : Text → ℤ → Text → R → R
  pub zadd_effect :
      (key : Text) (score : ℤ) (member : Text) (r : R)
      → obs (zadd key score member r) ≡ put_score key member (some score) (obs r)
  pub zadd_nx : Text → ℤ → Text → R → R
  pub zadd_nx_effect :
      (key : Text) (score : ℤ) (member : Text) (r : R)
      → obs (zadd_nx key score member r)
        ≡ put_score key member (some (unwrap_or ((obs r).zsets key member) score)) (obs r)
  pub zrem : Text → Text → R → R
  pub zrem_effect :
      (key member : Text) (r : R) → obs (zrem key member r) ≡ put_score key member none (obs r)
  -- ZRANGEBYSCORE key 0 now LIMIT 0 limit
  pub zrange_by_score : Text → ℕ → ℕ → R → List Text
  pub zrange_by_score_due :
      (key : Text) (now limit : ℕ) (r : R)
      → All
          (λ m. (z : ℤ) × ((obs r).zsets key m ≡ some z) × (score_due now z ≡ true))
          (zrange_by_score key now limit r)
  pub zrange_by_score_once :
      (key : Text) (now limit : ℕ) (r : R) (m : Text)
      → count m (zrange_by_score key now limit r) ≤ 1
  pub zrange_by_score_all :
      (key : Text) (now limit : ℕ) (r : R) (m : Text) (z : ℤ)
      → length (zrange_by_score key now limit r) < limit
      → (obs r).zsets key m ≡ some z
      → score_due now z ≡ true
      → contains (zrange_by_score key now limit r) m ≡ true
  -- ZRANGE key 0 0 WITHSCORES
  pub zrange_first : Text → R → Option (Text × ℤ)
  pub zrange_first_none :
      (key : Text) (r : R) (m : Text) → zrange_first key r ≡ none → (obs r).zsets key m ≡ none
  pub zrange_first_some :
      (key : Text) (r : R) (m : Text) (z : ℤ)
      → zrange_first key r ≡ some (m, z)
      → ((obs r).zsets key m ≡ some z)
        × ((j : Text) (y : ℤ) → (obs r).zsets key j ≡ some y → score_le z y ≡ true)
  pub hset : Text → Text → Text → R → R
  pub hset_effect :
      (key field value : Text) (r : R)
      → obs (hset key field value r) ≡ put_field key field (some value) (obs r)
  pub hget : Text → Text → R → Option Text
  pub hget_reply : (key field : Text) (r : R) → hget key field r ≡ (obs r).hashes key field
  pub hdel : Text → Text → R → R
  pub hdel_effect :
      (key field : Text) (r : R) → obs (hdel key field r) ≡ put_field key field none (obs r)
  pub get : Text → R → Option ℕ
  pub get_reply : (key : Text) (r : R) → get key r ≡ (obs r).counters key
  pub incr : Text → R → R
  pub incr_effect :
      (key : Text) (r : R)
      → obs (incr key r) ≡ put_counter key (some (unwrap_or ((obs r).counters key) 0 + 1)) (obs r)
  pub bf_add : Text → Text → R → Bool × R
  pub bf_add_reply : (key x : Text) (r : R) → (bf_add key x r).0 ≡ not ((obs r).blooms key x)
  pub bf_add_effect :
      (key x : Text) (r : R)
      → obs (bf_add key x r).1 ≡ record (obs r) { blooms = (obs (bf_add key x r).1).blooms }
  pub bf_add_member : (key x : Text) (r : R) → (obs (bf_add key x r).1).blooms key x ≡ true
  pub bf_add_keeps :
      (key x k y : Text) (r : R)
      → (obs r).blooms k y ≡ true
      → (obs (bf_add key x r).1).blooms k y ≡ true
  pub bf_add_known :
      (key x : Text) (r : R) → (obs r).blooms key x ≡ true → obs (bf_add key x r).1 ≡ obs r

-- postcard::to_allocvec and postcard::from_bytes on URL entries.
pub record Postcard (Url : Type 0) : Type 0 where
  pub to_allocvec : UrlEntry Url → Option Text
  pub from_bytes : Text → Option (UrlEntry Url)
  pub from_bytes-to_allocvec :
      (entry : UrlEntry Url) (bytes : Text)
      → to_allocvec entry ≡ some bytes
      → from_bytes bytes ≡ some entry
