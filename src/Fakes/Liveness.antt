-- ===== src/Fakes/Liveness.antt =====
-- crates/crawlrs-fakes/src/frontier.rs: a host whose queue holds a URL is never forgotten, and once
-- its wake-time has come, a tick and a claim hand a URL out.
use crawlrs.Prelude.{
  ℕ, ◌≡◌, refl, true, false, ◌||◌, List, [], ◌∷◌, ◌++◌, Option, none, some, arith, inl, inr,
  if◌then◌else◌, contains, ◌==◌, list_eq, nat_eq, unwrap_or, Bool-cases, Option-cases, ◌≢◌,
}
use crawlrs.Prelude.Map
use crawlrs.Prelude.Map.{Map}
use crawlrs.Core.Error.{Text}
use crawlrs.Core.Types.{UrlEntry}
use crawlrs.Fakes.Shard.{
  saturating_add, ShardState, push_back, queue_of, enqueue, bump_count, submit_shard, batch_shard,
  lease_url, pop_one_ready, retain_ne, advance_wake_shard, ack_shard, promote_host, reclaim_url,
  tick_shard,
}
use crawlrs.Fakes.Rules.{tick_keeps, pop_hosts_keeps, submit_keeps, batch_keeps}
use crawlrs.Fakes.Accounting.{Accounted, waiting-stored, same_text}

-- The library's Boolean tests on a list of hosts.
pub contains-append :
    (a : Text) (xs ys : List Text) → contains (xs ++ ys) a ≡ (contains xs a || contains ys a)
contains-append a [] ys = refl
contains-append a (x ∷ xs) ys = ground (arith, contains-append a xs ys)

pub contains-retain_ne :
    (host h : Text) (hs : List Text)
    → contains (retain_ne host hs) h ≡ (if host == h then false else contains hs h)
unfolding retain_ne
contains-retain_ne host h [] = ground arith
contains-retain_ne host h (x ∷ hs) =
    ground (arith, contains-retain_ne host h hs, same_text x host, same_text host h, same_text h x)

module _ {Url : Type 0} where
  abbrev pub IsWaiting : Text → ShardState Url → Type 0
  IsWaiting host s = queue_of host s ≢ []

  -- Every host with a queued URL is scheduled: it has a wake-time or is ready.
  pub record Scheduled (s : ShardState Url) : Type 0 where
    pub host_scheduled :
        (host : Text)
        → IsWaiting host s
        → (Map.contains_key host s.wake || contains s.ready host) ≡ true

  pub queue_of-push_back :
      (host id j : Text) (s : ShardState Url)
      → queue_of j (push_back host id s)
        ≡ (if host == j then queue_of host s ++ id ∷ [] else queue_of j s)
  unfolding queue_of push_back
  queue_of-push_back host id j s = ground (
    arith,
    Map.get-insert host j (unwrap_or (Map.get host s.host_queue) [] ++ id ∷ []) s.host_queue,
  )

  enqueue-Scheduled :
      (now : ℕ) (id host : Text) (entry : UrlEntry Url) (s : ShardState Url)
      → Scheduled s
      → Scheduled (enqueue now id host entry s)
  unfolding enqueue push_back queue_of
  enqueue-Scheduled now id host entry s h = record {
    host_scheduled = λ j w. ground (
      arith,
      h.host_scheduled j,
      Map.get-insert host j (unwrap_or (Map.get host s.host_queue) [] ++ id ∷ []) s.host_queue,
      Map.get-insert host j now s.wake,
      same_text host j,
    );
  }

  pub submit-Scheduled :
      (now : ℕ) (id host : Text) (entry : UrlEntry Url) (s : ShardState Url)
      → Scheduled s
      → Scheduled (submit_shard now id host entry s).1
  submit-Scheduled now id host entry s =
      submit_keeps Scheduled now id host entry s (λ _. enqueue-Scheduled now id host entry s)

  bump_count-Scheduled :
      (cap : Option ℕ) (host : Text) (s : ShardState Url)
      → Scheduled s
      → Scheduled (bump_count cap host s)
  unfolding bump_count queue_of
  bump_count-Scheduled none host s h = h
  bump_count-Scheduled (some cap) host s h = record { host_scheduled = h.host_scheduled }

  pub batch-Scheduled :
      (now : ℕ) (cap : Option ℕ) (id host : Text) (entry : UrlEntry Url) (s : ShardState Url)
      → Scheduled s
      → Scheduled (batch_shard now cap id host entry s).1
  batch-Scheduled now cap id host entry s = batch_keeps Scheduled now cap id host entry s (λ _ _ h.
      enqueue-Scheduled now id host entry (bump_count cap host s)
        (bump_count-Scheduled cap host s h))

  -- The invariant while `hosts` are left of the ready list.
  abbrev Left : List Text → ShardState Url → Type 0
  Left hosts s =
      (host : Text)
      → IsWaiting host s
      → (Map.contains_key host s.wake || contains hosts host) ≡ true

  lease-Scheduled :
      (now timeout : ℕ) (host id : Text) (rest q : List Text) (s : ShardState Url)
      → Accounted s
      → Map.get host s.host_queue ≡ some (id ∷ q)
      → Left (host ∷ rest) s
      → Scheduled
          (lease_url now timeout host id
            (record s { ready = rest; host_queue = Map.insert host q s.host_queue })).1
  unfolding lease_url queue_of
  lease-Scheduled now timeout host id rest q s acc e h = elim (Option-cases (Map.get id s.urls)) [
    | inl lost ↦ absurd (ground (arith, waiting-stored host id q s acc e))
    | inr (entry, found) ↦
        rw (found, lease_url)
          (record {
            host_scheduled = λ j w. ground (
              arith,
              h j,
              Map.get-insert host j q s.host_queue,
              Map.get-insert host j (saturating_add now timeout) s.wake,
              same_text host j,
              same_text j host,
            );
          })
  ]

  pub claim-Scheduled :
      (now timeout : ℕ) (s : ShardState Url)
      → Accounted s
      → Scheduled s
      → Scheduled (pop_one_ready now timeout s).1
  unfolding pop_one_ready
  claim-Scheduled now timeout s acc h =
      pop_hosts_keeps {Url = Url} (λ hosts t. Accounted t × Left hosts t) Scheduled now timeout
        (λ t k. unfold queue_of in record { host_scheduled = k.1 })
        (λ host rest t e k. (k.0, λ j w. stale host rest t e j w (k.1 j w)))
        (λ host id rest q t e k. lease-Scheduled now timeout host id rest q t k.0 e k.1) s.ready s
        (acc, h.host_scheduled)
    where
      stale :
          (host : Text) (rest : List Text) (t : ShardState Url)
          → queue_of host t ≡ []
          → (j : Text) → IsWaiting j t
          → (Map.contains_key j t.wake || contains (host ∷ rest) j) ≡ true
          → (Map.contains_key j t.wake || contains rest j) ≡ true
      stale host rest t e j w k = elim (Bool-cases (j == host)) [
        | inl same ↦ absurd (w (rw ((same_text j host).0 same) e))
        | inr ne ↦ ground arith
      ]

  -- A host that gets a wake-time may leave the ready list.
  pub set_wake-Scheduled :
      (host : Text) (until : ℕ) (s : ShardState Url)
      → Scheduled s
      → Scheduled (record s { wake = Map.insert host until s.wake; ready = retain_ne host s.ready })
  unfolding queue_of
  set_wake-Scheduled host until s h = record {
    host_scheduled = λ j w. ground (
      arith,
      h.host_scheduled j,
      Map.get-insert host j until s.wake,
      contains-retain_ne host j s.ready,
      same_text host j,
    );
  }

  pub advance_wake-Scheduled :
      (host : Text) (until : ℕ) (s : ShardState Url)
      → Scheduled s
      → Scheduled (advance_wake_shard host until s)
  unfolding advance_wake_shard
  advance_wake-Scheduled host until s h =
      elim (Bool-cases (Map.contains_key host s.host_queue || Map.contains_key host s.wake)) [
        | inl known ↦ rw known (set_wake-Scheduled host until s h)
        | inr unknown ↦ rw unknown h
      ]

  pub ack-Scheduled : (id : Text) (s : ShardState Url) → Scheduled s → Scheduled (ack_shard id s)
  unfolding ack_shard queue_of
  ack-Scheduled id s h = record { host_scheduled = h.host_scheduled }

  pub promote_host-Scheduled :
      (host : Text) (s : ShardState Url) → Scheduled s → Scheduled (promote_host host s)
  unfolding promote_host queue_of
  promote_host-Scheduled host s h = record {
    host_scheduled = λ j w. ground (
      arith,
      h.host_scheduled j,
      Map.get-remove host j s.wake,
      contains-append j s.ready (host ∷ []),
      same_text host j,
      same_text j host,
    );
  }

  pub reclaim_url-Scheduled :
      (now : ℕ) (id : Text) (s : ShardState Url) → Scheduled s → Scheduled (reclaim_url now id s).1
  unfolding reclaim_url push_back queue_of
  reclaim_url-Scheduled now id s h = elim (Option-cases (Map.get id s.inflight)) [
    | inl gone ↦ rw (gone, reclaim_url) h
    | inr (slot, held) ↦
        rw (held, reclaim_url)
          (record {
            host_scheduled = λ j w. ground (
              arith,
              h.host_scheduled j,
              Map.get-insert slot.host j (unwrap_or (Map.get slot.host s.host_queue) [] ++ id ∷ [])
                  s.host_queue,
              Map.get-insert slot.host j now s.wake,
              same_text slot.host j,
            );
          })
  ]

  pub tick-Scheduled :
      (now n : ℕ) (s : ShardState Url) → Scheduled s → Scheduled (tick_shard now n s).1
  tick-Scheduled now = tick_keeps Scheduled now promote_host-Scheduled (reclaim_url-Scheduled now)
