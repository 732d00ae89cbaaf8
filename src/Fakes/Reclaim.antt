-- ===== src/Fakes/Reclaim.antt =====
-- crates/crawlrs-fakes/src/frontier.rs: a tick re-queues exactly the leases that have run out; and
-- what an ack does that comes after its lease was reclaimed.
use crawlrs.Prelude.{
  ℕ, ◌+◌, ◌≤◌, ◌≡◌, refl, sym, Bool, true, false, List, [], ◌∷◌, Option, none, some, arith, inl,
  inr, if◌then◌else◌, contains, count, leb, ◌==◌, list_eq, nat_eq, length, Bool-cases, Option-cases,
  subst, ◌∙◌, ap,
}
use crawlrs.Prelude.Map
use crawlrs.Prelude.Map.{Map}
use crawlrs.Core.Error.{Text, Result, ok}
use crawlrs.Fakes.Shard.{
  ShardState, InflightSlot, push_back, ack_shard, promote_host, promote_all, reclaim_url,
  reclaim_all, tick_shard, due_hosts, expired_leases,
}
use crawlrs.Fakes.Rules.{promote_all_keeps, tick_keeps}
use crawlrs.Fakes.Accounting.{Accounted, same_text, pending, stored}
use crawlrs.Fakes.Delivery.{tick-Accounted}
use crawlrs.Fakes.Exclusion.{ReadyOnce}

abbrev pub has_expired : ℕ → Option InflightSlot → Bool
has_expired now none = false
has_expired now (some slot) = leb slot.lease_expiry_ms now

contains_of_entries :
    (j : Text) (now : ℕ) (m : Map Text InflightSlot)
    → Map.entries j m ≡ 0
    → contains (expired_leases now m) j ≡ false
unfolding expired_leases Map.entries
contains_of_entries j now [] e = refl
contains_of_entries j now ((i, slot) ∷ m) e = ground (arith, contains_of_entries j now m)

-- The leases that a tick finds expired, one by one.
contains-expired_leases :
    (j : Text) (now : ℕ) (m : Map Text InflightSlot)
    → Map.entries j m ≤ 1
    → contains (expired_leases now m) j ≡ has_expired now (Map.get j m)
unfolding expired_leases Map.entries Map.get
contains-expired_leases j now [] d = refl
contains-expired_leases j now ((i, slot) ∷ m) d = ground (
  arith,
  contains-expired_leases j now m,
  contains_of_entries j now m,
  same_text i j,
  same_text j i,
)

count-expired_leases-le :
    (j : Text) (now : ℕ) (m : Map Text InflightSlot)
    → count j (expired_leases now m) ≤ Map.entries j m
unfolding expired_leases Map.entries
count-expired_leases-le j now [] = omega arith
count-expired_leases-le j now ((i, slot) ∷ m) = ground (arith, count-expired_leases-le j now m)

count_of_contains : (j : Text) (xs : List Text) → contains xs j ≡ true → 1 ≤ count j xs
count_of_contains j [] e = cc
count_of_contains j (x ∷ xs) e = ground (arith, count_of_contains j xs)

module _ {Url : Type 0} where
  -- The loop over leases that are there, each once: every one is released, and no other.
  record Reclaims (ids : List Text) (n : ℕ) (s : ShardState Url) (r : Result ℕ) (t : ShardState Url)
      : Type 0 where
    counted : r ≡ ok (n + length ids)
    released :
        (j : Text)
        → Map.contains_key j t.inflight
          ≡ (if contains ids j then false else Map.contains_key j s.inflight)

  reclaim_url_ok :
      (now : ℕ) (id : Text) (s : ShardState Url)
      → Map.contains_key id s.inflight ≡ true
      → (reclaim_url now id s).0 ≡ ok tt
  unfolding reclaim_url
  reclaim_url_ok now id s h = ground arith

  inflight-reclaim_url :
      (now : ℕ) (id j : Text) (s : ShardState Url)
      → Map.contains_key j (reclaim_url now id s).1.inflight
        ≡ (if id == j then false else Map.contains_key j s.inflight)
  unfolding reclaim_url push_back
  inflight-reclaim_url now id j s = elim (Option-cases (Map.get id s.inflight)) [
    | inl gone ↦
        rw (gone, reclaim_url)
          (elim (Bool-cases (id == j)) [
            | inl same ↦ rw same (
                subst (λ k. Map.contains_key k s.inflight ≡ false) ((same_text id j).0 same)
                  (rw gone))
            | inr ne ↦ rw ne
          ])
    | inr (slot, held) ↦ rw (held, reclaim_url) (ground (arith, Map.get-remove id j s.inflight))
  ]

  reclaim_all-Reclaims :
      (now : ℕ) (ids : List Text) (n : ℕ) (s : ShardState Url)
      → ((j : Text) → contains ids j ≡ true → Map.contains_key j s.inflight ≡ true)
      → ((j : Text) → count j ids ≤ 1)
      → Reclaims ids n s (reclaim_all now ids n s).0 (reclaim_all now ids n s).1
  unfolding reclaim_all
  reclaim_all-Reclaims now [] n s there once = record {
    counted = ap ok (omega arith);
    released = λ j. refl;
  }
  reclaim_all-Reclaims now (id ∷ ids) n s there once =
      let ih =
        reclaim_all-Reclaims now ids (n + 1) (reclaim_url now id s).1
          (λ j c. ground (
            arith,
            there j,
            inflight-reclaim_url now id j s,
            same_text id j,
            same_text j id,
            once j,
            count_of_contains j ids c,
          ))
          (λ j. ground (arith, once j)) in
      rw (reclaim_url_ok now id s (there id (ground (arith, same_text id id))), reclaim_all)
        (record {
          counted = ih.counted ∙ ap ok (omega arith);
          released = λ j. ground (
            arith,
            ih.released j,
            inflight-reclaim_url now id j s,
            same_text id j,
            same_text j id,
          );
        })

  inflight-promote_all :
      (hosts : List Text) (s : ShardState Url) → (promote_all hosts s).inflight ≡ s.inflight
  inflight-promote_all hosts s =
      promote_all_keeps {Url = Url} (λ t. t.inflight ≡ s.inflight)
        (λ h t e. unfold promote_host in e) hosts s refl

  -- The number that a tick adds to its count.
  abbrev pub affected : ℕ → ShardState Url → ℕ
  affected now s = length (due_hosts now s.ready s.wake) + length (expired_leases now s.inflight)

  -- On a shard where no host is ready twice, a tick never panics; it counts the hosts that it
  -- promotes and the leases that it reclaims; and it releases a lease exactly if its time has run
  -- out.
  pub tick_reclaims :
      (now n : ℕ) (s : ShardState Url)
      → ReadyOnce s
      → ((tick_shard now n s).0 ≡ ok (n + affected now s))
        × ((j : Text)
            → Map.contains_key j (tick_shard now n s).1.inflight ≡ (
                if has_expired now (Map.get j s.inflight)
                then false
                else Map.contains_key j s.inflight))
  unfolding tick_shard
  tick_reclaims now n s h = (
    loop.counted ∙ ap ok (omega (arith, ap (λ m. length (expired_leases now m)) same)),
    λ j. ground (
      arith,
      loop.released j,
      ap (λ m. contains (expired_leases now m) j) same,
      ap (λ m. Map.contains_key j m) same,
      contains-expired_leases j now s.inflight (h.inflight_distinct j),
    ),
  )
    where
      hosts : List Text
      hosts = due_hosts now s.ready s.wake

      p : ShardState Url
      p = promote_all hosts s

      same : p.inflight ≡ s.inflight
      same = inflight-promote_all hosts s

      distinct : (j : Text) → Map.entries j p.inflight ≤ 1
      distinct = subst Map.Distinct (sym same) h.inflight_distinct

      loop :
          Reclaims
            (expired_leases now p.inflight)
            (n + length hosts)
            p
            (reclaim_all now (expired_leases now p.inflight) (n + length hosts) p).0
            (reclaim_all now (expired_leases now p.inflight) (n + length hosts) p).1
      loop =
          reclaim_all-Reclaims now (expired_leases now p.inflight) (n + length hosts) p
            (λ j c. ground (arith, contains-expired_leases j now p.inflight (distinct j)))
            (λ j. omega (arith, count-expired_leases-le j now p.inflight, distinct j))

  stored-ack : (id : Text) (s : ShardState Url) → Map.get id (ack_shard id s).urls ≡ none
  unfolding ack_shard
  stored-ack id s = ground (arith, Map.get-remove id id s.urls, same_text id id)

  urls-tick :
      (id : Text) (now n : ℕ) (s : ShardState Url) → stored id (tick_shard now n s).1 ≡ stored id s
  urls-tick id now n s =
      tick_keeps {Url = Url} (λ t. stored id t ≡ stored id s) now
        (λ host t e. unfold promote_host in e) (λ j t e. urls-reclaim_url now j t ∙ e) n s refl
    where
      urls-reclaim_url :
          (at : ℕ) (j : Text) (t : ShardState Url) → stored id (reclaim_url at j t).1 ≡ stored id t
      urls-reclaim_url at j t = unfold reclaim_url push_back in ground arith

  -- In an accounted shard where no host is ready twice, let the lease on a URL run out, so that a
  -- tick re-queues the URL, and then let the ack of the first worker arrive: it removes the payload
  -- and leaves the URL in the queue.
  pub late_ack :
      (id : Text) (slot : InflightSlot) (now n : ℕ) (s : ShardState Url)
      → Accounted s
      → ReadyOnce s
      → Map.get id s.inflight ≡ some slot
      → slot.lease_expiry_ms ≤ now
      → (pending id (ack_shard id (tick_shard now n s).1) ≡ 1)
        × (Map.get id (ack_shard id (tick_shard now n s).1).urls ≡ none)
  late_ack id slot now n s acc once held late =
      (pending-ack ∙ requeued, stored-ack id (tick_shard now n s).1)
    where
      pending-ack :
          pending id (ack_shard id (tick_shard now n s).1) ≡ pending id (tick_shard now n s).1
      pending-ack = unfold ack_shard pending in refl

      requeued : pending id (tick_shard now n s).1 ≡ 1
      requeued = ground (
        arith,
        (tick-Accounted now n s acc).balanced id,
        acc.balanced id,
        urls-tick id now n s,
        (tick_reclaims now n s once).1 id,
      )
