-- ===== src/Fakes/Exclusion.antt =====
-- crates/crawlrs-fakes/src/frontier.rs: a host is ready at most once, so that a claim reserves it
-- for its worker until its wake-time.
use crawlrs.Prelude.{
  ℕ, ◌≤◌, ◌≡◌, refl, true, false, ◌||◌, List, [], ◌∷◌, ◌++◌, Option, none, some, arith, inl, inr,
  contains, count, count-append, list_eq, nat_eq, Bool-cases, Option-cases,
}
use crawlrs.Prelude.Map
use crawlrs.Prelude.Map.{Map}
use crawlrs.Core.Error.{Text}
use crawlrs.Core.Types.{UrlEntry}
use crawlrs.Fakes.Shard.{
  saturating_add, ShardState, push_back, enqueue, bump_count, submit_shard, batch_shard, lease_url,
  pop_one_ready, retain_ne, advance_wake_shard, ack_shard, promote_host, reclaim_url, tick_shard,
  due_hosts,
}
use crawlrs.Fakes.Rules.{pop_hosts_keeps, submit_keeps, batch_keeps, tick_keeps}
use crawlrs.Fakes.Accounting.{same_text}
use crawlrs.Fakes.Progress.{ready-tick}

contains-count : (h : Text) (hs : List Text) → contains hs h ≡ false → count h hs ≡ 0
contains-count h [] e = refl
contains-count h (x ∷ hs) e = ground (arith, contains-count h hs)

pub contains_of_count : (h : Text) (hs : List Text) → count h hs ≡ 0 → contains hs h ≡ false
contains_of_count h [] e = refl
contains_of_count h (x ∷ hs) e = ground (arith, contains_of_count h hs)

count-retain_ne-le : (h host : Text) (hs : List Text) → count h (retain_ne host hs) ≤ count h hs
unfolding retain_ne
count-retain_ne-le h host [] = omega arith
count-retain_ne-le h host (x ∷ hs) = ground (arith, count-retain_ne-le h host hs)

pub count-due_hosts :
    (h : Text) (now : ℕ) (ready : List Text) (wake : Map Text ℕ)
    → (count h (due_hosts now ready wake) ≤ Map.entries h wake)
      × (contains ready h ≡ true → count h (due_hosts now ready wake) ≡ 0)
unfolding due_hosts Map.entries
count-due_hosts h now ready [] = (omega arith, λ _. refl)
count-due_hosts h now ready ((x, score) ∷ wake) =
    let ih = count-due_hosts h now ready wake in
    (ground (arith, ih.0), λ c. ground (arith, ih.1, same_text h x))

module _ {Url : Type 0} where
  -- No host is twice in the ready list, and the tables have one entry for each key.
  pub record ReadyOnce (s : ShardState Url) : Type 0 where
    pub once : (host : Text) → count host s.ready ≤ 1
    pub wake_distinct : Map.Distinct s.wake
    pub inflight_distinct : Map.Distinct s.inflight

  enqueue-ReadyOnce :
      (now : ℕ) (id host : Text) (entry : UrlEntry Url) (s : ShardState Url)
      → ReadyOnce s
      → ReadyOnce (enqueue now id host entry s)
  unfolding enqueue push_back
  enqueue-ReadyOnce now id host entry s h = record {
    once = h.once;
    wake_distinct = Map.or_insert-Distinct host now s.wake h.wake_distinct;
    inflight_distinct = h.inflight_distinct;
  }

  pub submit-ReadyOnce :
      (now : ℕ) (id host : Text) (entry : UrlEntry Url) (s : ShardState Url)
      → ReadyOnce s
      → ReadyOnce (submit_shard now id host entry s).1
  submit-ReadyOnce now id host entry s =
      submit_keeps ReadyOnce now id host entry s (λ _. enqueue-ReadyOnce now id host entry s)

  bump_count-ReadyOnce :
      (cap : Option ℕ) (host : Text) (s : ShardState Url)
      → ReadyOnce s
      → ReadyOnce (bump_count cap host s)
  unfolding bump_count
  bump_count-ReadyOnce none host s h = h
  bump_count-ReadyOnce (some cap) host s h = record {
    once = h.once;
    wake_distinct = h.wake_distinct;
    inflight_distinct = h.inflight_distinct;
  }

  pub batch-ReadyOnce :
      (now : ℕ) (cap : Option ℕ) (id host : Text) (entry : UrlEntry Url) (s : ShardState Url)
      → ReadyOnce s
      → ReadyOnce (batch_shard now cap id host entry s).1
  batch-ReadyOnce now cap id host entry s = batch_keeps ReadyOnce now cap id host entry s (λ _ _ h.
      enqueue-ReadyOnce now id host entry (bump_count cap host s)
        (bump_count-ReadyOnce cap host s h))

  -- The invariant while `hosts` are left of the ready list.
  record Left (hosts : List Text) (s : ShardState Url) : Type 0 where
    once : (host : Text) → count host hosts ≤ 1
    wake_distinct : Map.Distinct s.wake
    inflight_distinct : Map.Distinct s.inflight

  lease-ReadyOnce :
      (now timeout : ℕ) (host id : Text) (rest q : List Text) (s : ShardState Url)
      → Left (host ∷ rest) s
      → ReadyOnce
          (lease_url now timeout host id
            (record s { ready = rest; host_queue = Map.insert host q s.host_queue })).1
  unfolding lease_url
  lease-ReadyOnce now timeout host id rest q s h = elim (Option-cases (Map.get id s.urls)) [
    | inl lost ↦
        rw (lost, lease_url)
          (record {
            once = λ j. ground (arith, h.once j);
            wake_distinct = h.wake_distinct;
            inflight_distinct = h.inflight_distinct;
          })
    | inr (entry, found) ↦
        rw (found, lease_url)
          (record {
            once = λ j. ground (arith, h.once j);
            wake_distinct =
                Map.insert-Distinct host (saturating_add now timeout) s.wake h.wake_distinct;
            inflight_distinct = Map.insert-Distinct id _ s.inflight h.inflight_distinct;
          })
  ]

  pub claim-ReadyOnce :
      (now timeout : ℕ) (s : ShardState Url)
      → ReadyOnce s
      → ReadyOnce (pop_one_ready now timeout s).1
  unfolding pop_one_ready
  claim-ReadyOnce now timeout s h =
      pop_hosts_keeps {Url = Url} Left ReadyOnce now timeout
        (λ t k. record {
          once = λ _. omega arith;
          wake_distinct = k.wake_distinct;
          inflight_distinct = k.inflight_distinct;
        })
        (λ host rest t e k. record {
          once = λ j. ground (arith, k.once j);
          wake_distinct = k.wake_distinct;
          inflight_distinct = k.inflight_distinct;
        })
        (λ host id rest q t e k. lease-ReadyOnce now timeout host id rest q t k) s.ready s
        (record {
          once = h.once;
          wake_distinct = h.wake_distinct;
          inflight_distinct = h.inflight_distinct;
        })

  pub advance_wake-ReadyOnce :
      (host : Text) (until : ℕ) (s : ShardState Url)
      → ReadyOnce s
      → ReadyOnce (advance_wake_shard host until s)
  unfolding advance_wake_shard
  advance_wake-ReadyOnce host until s h =
      elim (Bool-cases (Map.contains_key host s.host_queue || Map.contains_key host s.wake)) [
        | inl known ↦ rw known (record {
          once = λ j. omega (arith, h.once j, count-retain_ne-le j host s.ready);
          wake_distinct = Map.insert-Distinct host until s.wake h.wake_distinct;
          inflight_distinct = h.inflight_distinct;
        })
        | inr unknown ↦ rw unknown h
      ]

  pub ack-ReadyOnce : (id : Text) (s : ShardState Url) → ReadyOnce s → ReadyOnce (ack_shard id s)
  unfolding ack_shard
  ack-ReadyOnce id s h = record {
    once = h.once;
    wake_distinct = h.wake_distinct;
    inflight_distinct = Map.remove-Distinct id s.inflight h.inflight_distinct;
  }

  -- The part of the invariant about the tables.
  abbrev Tables : ShardState Url → Type 0
  Tables s = Map.Distinct s.wake × Map.Distinct s.inflight

  promote_host-Tables : (host : Text) (s : ShardState Url) → Tables s → Tables (promote_host host s)
  unfolding promote_host
  promote_host-Tables host s h = (Map.remove-Distinct host s.wake h.0, h.1)

  reclaim_url-Tables :
      (now : ℕ) (id : Text) (s : ShardState Url) → Tables s → Tables (reclaim_url now id s).1
  unfolding reclaim_url push_back
  reclaim_url-Tables now id s h = elim (Option-cases (Map.get id s.inflight)) [
    | inl gone ↦ rw (gone, reclaim_url) h
    | inr (slot, held) ↦
        rw (held, reclaim_url)
          (Map.or_insert-Distinct slot.host now s.wake h.0, Map.remove-Distinct id s.inflight h.1)
  ]

  pub tick-ReadyOnce :
      (now n : ℕ) (s : ShardState Url) → ReadyOnce s → ReadyOnce (tick_shard now n s).1
  tick-ReadyOnce now n s h =
      let t =
        tick_keeps Tables now promote_host-Tables (reclaim_url-Tables now) n s
          (h.wake_distinct, h.inflight_distinct) in
      record {
        once = λ j. rw ready-tick (at_most_once j);
        wake_distinct = t.0;
        inflight_distinct = t.1;
      }
    where
      at_most_once : (j : Text) → count j (s.ready ++ due_hosts now s.ready s.wake) ≤ 1
      at_most_once j = elim (Bool-cases (contains s.ready j)) [
        | inl ready ↦ omega (
          arith,
          count-append j s.ready (due_hosts now s.ready s.wake),
          h.once j,
          (count-due_hosts j now s.ready s.wake).1 ready,
        )
        | inr not_ready ↦ omega (
          arith,
          count-append j s.ready (due_hosts now s.ready s.wake),
          contains-count j s.ready not_ready,
          h.wake_distinct j,
          (count-due_hosts j now s.ready s.wake).0,
        )
      ]
