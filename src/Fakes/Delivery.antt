-- ===== src/Fakes/Delivery.antt =====
-- crates/crawlrs-fakes/src/frontier.rs: claims, acks and ticks keep the account of URLs, a claim
-- never meets a missing payload, and what a claim hands out.
use crawlrs.Prelude.{
  ℕ, ◌≡◌, refl, List, [], ◌∷◌, ◌++◌, Option, none, some, arith, inl, inr, list_eq, nat_eq, ◌||◌,
  All, Bool-cases, Option-cases, subst, ap,
}
use crawlrs.Prelude.Map
use crawlrs.Prelude.Map.{Map}
use crawlrs.Core.Error.{Text, Result, ok, err, panic}
use crawlrs.Core.Types.{UrlEntry}
use crawlrs.Fakes.Shard.{
  saturating_add, ShardState, InflightSlot, queue_of, lease_url, pop_hosts, pop_one_ready,
  advance_wake_shard, ack_shard, promote_host, reclaim_url, tick_shard,
}
use crawlrs.Fakes.Rules.{tick_keeps, pop_hosts_keeps}
use crawlrs.Fakes.Accounting.{
  Accounted, pending, leased, same_text, total-push_back, waiting-stored, lease-Accounted,
}

module _ {Url : Type 0} where
  pub claim-Accounted :
      (now timeout : ℕ) (s : ShardState Url)
      → Accounted s
      → Accounted (pop_one_ready now timeout s).1
  unfolding pop_one_ready
  claim-Accounted now timeout s h =
      pop_hosts_keeps {Url = Url} (λ _. Accounted) Accounted now timeout
        (λ t k. unfold pending in record { balanced = k.balanced; known = k.known })
        (λ _ _ _ _ k. k) (λ host id rest q t e k. lease-Accounted now timeout host id rest q t k e)
        s.ready s h

  -- Wake-times and the ready list are no part of the account.
  pub set_wake-Accounted :
      (wake : Map Text ℕ) (ready : List Text) (s : ShardState Url)
      → Accounted s
      → Accounted (record s { wake = wake; ready = ready })
  unfolding pending
  set_wake-Accounted wake ready s h = record { balanced = h.balanced; known = h.known }

  pub advance_wake-Accounted :
      (host : Text) (until : ℕ) (s : ShardState Url)
      → Accounted s
      → Accounted (advance_wake_shard host until s)
  unfolding advance_wake_shard
  advance_wake-Accounted host until s h =
      elim (Bool-cases (Map.contains_key host s.host_queue || Map.contains_key host s.wake)) [
        | inl known ↦ rw known (set_wake-Accounted _ _ s h)
        | inr unknown ↦ rw unknown h
      ]

  -- An ack keeps the account unless the URL waits in a queue again.
  pub ack-Accounted :
      (id : Text) (s : ShardState Url) → Accounted s → pending id s ≡ 0 → Accounted (ack_shard id s)
  unfolding ack_shard pending
  ack-Accounted id s h held = record {
    balanced = λ j. ground (
      arith,
      h.balanced j,
      h.balanced id,
      Map.get-remove id j s.inflight,
      Map.get-remove id j s.urls,
      same_text id j,
    );
    known = λ j p. ground (arith, h.known j, Map.get-remove id j s.urls);
  }

  pub promote_host-Accounted :
      (host : Text) (s : ShardState Url) → Accounted s → Accounted (promote_host host s)
  unfolding promote_host pending
  promote_host-Accounted host s h = record { balanced = h.balanced; known = h.known }

  pub reclaim_url-Accounted :
      (now : ℕ) (id : Text) (s : ShardState Url) → Accounted s → Accounted (reclaim_url now id s).1
  unfolding reclaim_url pending
  reclaim_url-Accounted now id s h = elim (Option-cases (Map.get id s.inflight)) [
    | inl gone ↦ rw (gone, reclaim_url) h
    | inr (slot, held) ↦
        rw (held, reclaim_url)
          (record {
            balanced = λ j. ground (
              arith,
              h.balanced j,
              total-push_back slot.host id j s.host_queue,
              Map.get-remove id j s.inflight,
              same_text id j,
              same_text j id,
            );
            known = h.known;
          })
  ]

  pub tick-Accounted :
      (now n : ℕ) (s : ShardState Url) → Accounted s → Accounted (tick_shard now n s).1
  tick-Accounted now = tick_keeps Accounted now promote_host-Accounted (reclaim_url-Accounted now)

  -- What a pop of a ready host comes to.
  abbrev pub Pops :
      ℕ
      → ℕ
      → List Text
      → ShardState Url
      → Result (Option (Text × UrlEntry Url × Text))
      → ShardState Url
      → Type 0
  Pops now timeout hosts s (ok none) t =
      All (λ host. queue_of host s ≡ []) hosts × (t ≡ record s { ready = [] })
  Pops now timeout hosts s (ok (some (id, entry, host))) t =
      (Map.get id s.urls ≡ some entry)
      × ((q : List Text) × (Map.get host s.host_queue ≡ some (id ∷ q)))
      × ((idle : List Text) × (hosts ≡ idle ++ host ∷ t.ready) × All (λ h. queue_of h s ≡ []) idle)
      × (Map.get id t.inflight
          ≡ some (record { host = host; lease_expiry_ms = saturating_add now timeout }))
      × (Map.get host t.wake ≡ some (saturating_add now timeout))
  Pops now timeout hosts s (err e) t = ⊥
  Pops now timeout hosts s panic t = ⊥

  lease-Pops :
      (now timeout : ℕ) (host id : Text) (rest q : List Text) (s : ShardState Url)
      → Accounted s
      → Map.get host s.host_queue ≡ some (id ∷ q)
      → let r =
          lease_url now timeout host id
            (record s { ready = rest; host_queue = Map.insert host q s.host_queue }) in
        Pops now timeout (host ∷ rest) s r.0 r.1
  unfolding lease_url
  lease-Pops now timeout host id rest q s h e = elim (Option-cases (Map.get id s.urls)) [
    | inl lost ↦ absurd (ground (arith, waiting-stored host id q s h e))
    | inr (entry, found) ↦
        rw (found, lease_url)
          (
            found,
            (q, e),
            ([], refl, tt),
            ground (
              arith,
              same_text id id,
              Map.get-insert id id
                  (record { host = host; lease_expiry_ms = saturating_add now timeout }) s.inflight,
            ),
            ground (
              arith,
              same_text host host,
              Map.get-insert host host (saturating_add now timeout) s.wake,
            ),
          )
  ]

  Pops-skip :
      (now timeout : ℕ) (host : Text) (rest : List Text) (s : ShardState Url)
      (r : Result (Option (Text × UrlEntry Url × Text))) (t : ShardState Url)
      → queue_of host s ≡ []
      → Pops now timeout rest s r t
      → Pops now timeout (host ∷ rest) s r t
  Pops-skip now timeout host rest s (ok none) t e h = ((e, h.0), h.1)
  Pops-skip now timeout host rest s (ok (some (id, entry, from))) t e h =
      (h.0, h.1, (host ∷ h.2.0, ap (◌∷◌ host) h.2.1, (e, h.2.2)), h.3, h.4)
  Pops-skip now timeout host rest s (err x) t e h = h
  Pops-skip now timeout host rest s panic t e h = h

  pop_hosts-Pops :
      (now timeout : ℕ) (hosts : List Text) (s : ShardState Url)
      → Accounted s
      → Pops now timeout hosts s (pop_hosts now timeout hosts s).0 (pop_hosts now timeout hosts s).1
  unfolding pop_hosts
  pop_hosts-Pops now timeout [] s h = (tt, refl)
  pop_hosts-Pops now timeout (host ∷ rest) s h =
      by_queue (Map.get host s.host_queue) refl (pop_hosts-Pops now timeout rest s h)
    where
      by_queue :
          (o : Option (List Text))
          → Map.get host s.host_queue ≡ o
          → Pops now timeout rest s
              (pop_hosts now timeout rest s).0
              (pop_hosts now timeout rest s).1
          → Pops now timeout
              (host ∷ rest)
              s
              (pop_hosts now timeout (host ∷ rest) s).0
              (pop_hosts now timeout (host ∷ rest) s).1
      by_queue none e skip =
          rw (e, pop_hosts) (Pops-skip now timeout host rest s _ _ (unfold queue_of in rw e) skip)
      by_queue (some []) e skip =
          rw (e, pop_hosts) (Pops-skip now timeout host rest s _ _ (unfold queue_of in rw e) skip)
      by_queue (some (id ∷ q)) e skip =
          rw (e, pop_hosts) (lease-Pops now timeout host id rest q s h e)

  -- A pop of an accounted shard never panics. It hands out a URL that was first in the queue of a
  -- ready host, with the payload that is kept for it; the URL is then leased and its host guarded
  -- by a wake-time, both until the lease runs out. The ready hosts are served in order: those
  -- before it had no URL waiting and are dropped, those behind it stay. It hands out nothing only
  -- if no ready host has a URL waiting.
  pub claim-Pops :
      (now timeout : ℕ) (s : ShardState Url)
      → Accounted s
      → Pops now timeout s.ready s (pop_one_ready now timeout s).0 (pop_one_ready now timeout s).1
  unfolding pop_one_ready
  claim-Pops now timeout s h = pop_hosts-Pops now timeout s.ready s h

  -- A URL that a pop of an accounted shard hands out was once in the queues and with no worker;
  -- afterwards it is leased, and no copy of it is left in the queues.
  pub claim_once :
      (now timeout : ℕ) (s : ShardState Url) (id host : Text) (entry : UrlEntry Url)
      → Accounted s
      → (pop_one_ready now timeout s).0 ≡ ok (some (id, entry, host))
      → (leased id s ≡ 0)
        × (pending id s ≡ 1)
        × (leased id (pop_one_ready now timeout s).1 ≡ 1)
        × (pending id (pop_one_ready now timeout s).1 ≡ 0)
  claim_once now timeout s id host entry h e =
      let p = subst (λ r. Pops now timeout s.ready s r t) e (claim-Pops now timeout s h) in
      let w = waiting-stored host id p.1.0 s h p.1.1 in
      let k = claim-Accounted now timeout s h in
      (
        w.1,
        omega (arith, h.balanced id, w.0, w.1),
        leased-some p.3,
        ground (arith, k.balanced id, leased-some p.3),
      )
    where
      t : ShardState Url
      t = (pop_one_ready now timeout s).1

      leased-some : {slot : InflightSlot} → Map.get id t.inflight ≡ some slot → leased id t ≡ 1
      leased-some q = rw q
