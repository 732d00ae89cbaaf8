-- ===== src/Redis/Views.antt =====
-- crates/crawlrs-frontier against crates/crawlrs-fakes/src/frontier.rs: when the keys of a shard in
-- Redis hold what a `ShardState` of the in-memory frontier holds, and what a write does to that.
use crawlrs.Prelude.{
  ℕ, ◌≡◌, Bool, true, ◌&&◌, List, Option, none, some, arith, if◌then◌else◌, contains, ◌==◌, ==_refl,
  sym, list_eq, nat_eq, unwrap_or, All, Bool-cases, inl, inr,
}
use crawlrs.Prelude.Map
use crawlrs.Prelude.Map.{Map}
use crawlrs.Core.Error.{Text}
use crawlrs.Core.Types.{UrlEntry}
use crawlrs.Fakes.Accounting.{same_text}
use crawlrs.Fakes.Shard.{ShardState, InflightSlot, queue_of}
use crawlrs.Redis.Api.{ℤ, pos, Keyspace, Postcard, put_list, put_score, put_field, put_counter}
use crawlrs.Redis.Keys
use crawlrs.Redis.Keys.{
  KeyPrefix, member, IsBarFree, same-host_queue, same-host_count, ready_ne, host_queue_ne, wake_ne,
  inflight_ne, same-member,
}

-- The score that stands for a wake-time.
abbrev pub score_of : Option ℕ → Option ℤ
score_of none = none
score_of (some n) = some (pos n)

-- The score that stands for the lease of a URL of `host`.
abbrev pub lease_score : Text → Option InflightSlot → Option ℤ
lease_score host none = none
lease_score host (some slot) = if slot.host == host then some (pos slot.lease_expiry_ms) else none

module _ {Url : Type 0} (postcard : Postcard Url) where
  -- The hash has an encoding of the payload, or has none as the shard has none.
  abbrev pub Stores : Option (UrlEntry Url) → Option Text → Type 0
  Stores none o = o ≡ none
  Stores (some entry) o =
      (bytes : Text) × (o ≡ some bytes) × (postcard.from_bytes bytes ≡ some entry)

  module _ (keys : KeyPrefix) (shard : ℕ) where
    pub record Views (k : Keyspace) (s : ShardState Url) : Type 0 where
      pub queues : (host : Text) → k.lists (Keys.host_queue keys shard host) ≡ queue_of host s
      pub ids : (host : Text) → All IsBarFree (queue_of host s)
      pub readies : k.lists (Keys.ready keys shard) ≡ s.ready
      pub wakes :
          (host : Text) → k.zsets (Keys.wake keys shard) host ≡ score_of (Map.get host s.wake)
      pub payloads : (id : Text) → Stores (Map.get id s.urls) (k.hashes (Keys.urls keys shard) id)
      pub leases :
          (id host : Text)
          → IsBarFree id
          → k.zsets (Keys.inflight keys shard) (member id host)
            ≡ lease_score host (Map.get id s.inflight)
      pub members :
          (m : Text) (z : ℤ)
          → k.zsets (Keys.inflight keys shard) m ≡ some z
          → (id : Text) × (host : Text) × IsBarFree id × (m ≡ member id host)
      pub counts :
          (host : Text)
          → unwrap_or (k.counters (Keys.host_count keys shard host)) 0
            ≡ unwrap_or (Map.get host s.host_count) 0
      pub known : (id : Text) → contains s.seen id ≡ true → k.blooms (Keys.seen shard) id ≡ true

    module _ (k : Keyspace) (s : ShardState Url) (v : Views k s) where
      -- The queue of `host` becomes `q`.
      pub queue-Views :
          (host : Text) (q : List Text)
          → All IsBarFree q
          → Views
              (put_list (Keys.host_queue keys shard host) q k)
              (record s { host_queue = Map.insert host q s.host_queue })
      unfolding queue_of
      queue-Views host q free = record {
        queues = λ h.
            rw (same-host_queue keys shard host h)
              (ground (arith, v.queues h, Map.get-insert host h q s.host_queue));
        ids = λ h. elim (Bool-cases (host == h)) [
          | inl e ↦ rw (Map.get-insert host h q s.host_queue) (rw e free)
          | inr e ↦ rw (Map.get-insert host h q s.host_queue) (rw e (v.ids h))
        ];
        readies = rw (host_queue_ne keys shard host) v.readies;
        wakes = v.wakes;
        payloads = v.payloads;
        leases = v.leases;
        members = v.members;
        counts = v.counts;
        known = v.known;
      }

      pub ready-Views :
          (hosts : List Text)
          → Views (put_list (Keys.ready keys shard) hosts k) (record s { ready = hosts })
      unfolding queue_of
      ready-Views hosts = record {
        queues = λ h. rw (ready_ne keys shard h) (v.queues h);
        ids = v.ids;
        readies = ground (arith, same_text (Keys.ready keys shard) (Keys.ready keys shard));
        wakes = v.wakes;
        payloads = v.payloads;
        leases = v.leases;
        members = v.members;
        counts = v.counts;
        known = v.known;
      }

      -- The wake-time of `host` changes, and no other.
      pub wake-Views :
          (host : Text) (o : Option ℕ) (wake : Map Text ℕ)
          → ((h : Text) → Map.get h wake ≡ (if host == h then o else Map.get h s.wake))
          → Views (put_score (Keys.wake keys shard) host (score_of o) k) (record s { wake = wake })
      unfolding queue_of
      wake-Views host o wake same = record {
        queues = v.queues;
        ids = v.ids;
        readies = v.readies;
        wakes = λ h.
            ground
              (arith, v.wakes h, same h, same_text (Keys.wake keys shard) (Keys.wake keys shard));
        payloads = v.payloads;
        leases = λ id h free. rw (wake_ne keys shard) (v.leases id h free);
        members = λ m z e. v.members m z (ground (arith, wake_ne keys shard, e));
        counts = v.counts;
        known = v.known;
      }

      pub payload-Views :
          (id : Text) (o : Option Text) (urls : Map Text (UrlEntry Url))
          → ((j : Text)
              → Stores (Map.get j urls) (if id == j then o else k.hashes (Keys.urls keys shard) j))
          → Views (put_field (Keys.urls keys shard) id o k) (record s { urls = urls })
      unfolding queue_of
      payload-Views id o urls stored = record {
        queues = v.queues;
        ids = v.ids;
        readies = v.readies;
        wakes = v.wakes;
        payloads = λ j. rw (==_refl (Keys.urls keys shard)) (stored j);
        leases = v.leases;
        members = v.members;
        counts = v.counts;
        known = v.known;
      }

      -- The lease of one URL changes, and no other.
      pub lease-Views :
          (id host : Text) (o : Option ℤ) (inflight : Map Text InflightSlot)
          → IsBarFree id
          → ((j h : Text)
              → lease_score h (Map.get j inflight)
                ≡ (if (id == j) && (host == h) then o else lease_score h (Map.get j s.inflight)))
          → Views
              (put_score (Keys.inflight keys shard) (member id host) o k)
              (record s { inflight = inflight })
      unfolding queue_of
      lease-Views id host o inflight free same = record {
        queues = v.queues;
        ids = v.ids;
        readies = v.readies;
        wakes = λ h. rw (inflight_ne keys shard) (v.wakes h);
        payloads = v.payloads;
        leases = λ j h bar.
            rw (==_refl (Keys.inflight keys shard))
              (rw (same-member id host j h free bar) (rw (v.leases j h bar) (sym (same j h))));
        members = λ m z e. elim (Bool-cases (member id host == m)) [
          | inl this ↦ (id, host, free, sym ((same_text (member id host) m).0 this))
          | inr other ↦ v.members m z (ground (arith, ==_refl (Keys.inflight keys shard), other, e))
        ];
        counts = v.counts;
        known = v.known;
      }

      pub count-Views :
          (host : Text) (n : ℕ)
          → Views
              (put_counter (Keys.host_count keys shard host) (some n) k)
              (record s { host_count = Map.insert host n s.host_count })
      unfolding queue_of
      count-Views host n = record {
        queues = v.queues;
        ids = v.ids;
        readies = v.readies;
        wakes = v.wakes;
        payloads = v.payloads;
        leases = v.leases;
        members = v.members;
        counts = λ h.
            rw (same-host_count keys shard host h)
              (ground (arith, v.counts h, Map.get-insert host h n s.host_count));
        known = v.known;
      }

      -- A filter that lost nothing; `seen` may have gained what the filter has.
      pub bloom-Views :
          (blooms : Text → Text → Bool) (seen : List Text)
          → ((id : Text) → contains seen id ≡ true → blooms (Keys.seen shard) id ≡ true)
          → Views (record k { blooms = blooms }) (record s { seen = seen })
      unfolding queue_of
      bloom-Views blooms seen kept = record {
        queues = v.queues;
        ids = v.ids;
        readies = v.readies;
        wakes = v.wakes;
        payloads = v.payloads;
        leases = v.leases;
        members = v.members;
        counts = v.counts;
        known = kept;
      }
