-- ===== src/Fakes/Reservation.antt =====
-- crates/crawlrs-fakes/src/frontier.rs: a claimed host is away from the ready list and has a
-- wake-time, and which operations leave it so.
use crawlrs.Prelude.{
  ℕ, ◌+◌, ◌≤◌, ◌<◌, ◌≡◌, refl, sym, true, false, List, [], ◌∷◌, ◌++◌, Option, none, some, arith,
  inl, inr, if◌then◌else◌, contains, count, count-append, ap, ◌==◌, list_eq, nat_eq, length,
  Option-cases, subst, ◌≢◌,
}
use crawlrs.Prelude.Map
use crawlrs.Prelude.Map.{Map}
use crawlrs.Core.Error.{Text, ok}
use crawlrs.Core.Types.{UrlEntry}
use crawlrs.Fakes.Shard.{
  saturating_add, ShardState, push_back, enqueue, bump_count, submit_shard, batch_shard, lease_url,
  pop_one_ready, advance_wake_shard, ack_shard, promote_host, promote_all, reclaim_url, tick_shard,
  due_hosts, expired_leases,
}
use crawlrs.Fakes.Rules.{pop_hosts_keeps, submit_keeps, batch_keeps, reclaim_all_keeps}
use crawlrs.Fakes.Accounting.{Accounted, same_text}
use crawlrs.Fakes.Delivery.{Pops, claim-Pops}
use crawlrs.Fakes.Liveness.{contains-retain_ne, contains-append}
use crawlrs.Fakes.Exclusion.{ReadyOnce, contains_of_count, count-due_hosts}

due_hosts_awake :
    (h : Text) (now until : ℕ) (ready : List Text) (wake : Map Text ℕ)
    → now < until
    → Map.entries h wake ≤ 1
    → Map.get h wake ≡ some until
    → contains (due_hosts now ready wake) h ≡ false
unfolding due_hosts Map.get Map.entries
due_hosts_awake h now until ready [] lt d e = refl
due_hosts_awake h now until ready ((x, score) ∷ wake) lt d e = ground (
  arith,
  due_hosts_awake h now until ready wake lt,
  same_text x h,
  same_text h x,
  (count-due_hosts h now ready wake).0,
  contains_of_count h (due_hosts now ready wake),
)

contains_middle : (host : Text) (xs ys : List Text) → contains (xs ++ host ∷ ys) host ≡ true
contains_middle host xs ys =
    ground (arith, contains-append host xs (host ∷ ys), same_text host host)

module _ {Url : Type 0} where
  -- No claim can reach the host, and no tick before `until` promotes it.
  pub record Reserved (host : Text) (until : ℕ) (s : ShardState Url) : Type 0 where
    pub not_ready : contains s.ready host ≡ false
    pub wake_at : Map.get host s.wake ≡ some until

  enqueue-Reserved :
      (h : Text) (until now : ℕ) (id host : Text) (entry : UrlEntry Url) (s : ShardState Url)
      → Reserved h until s
      → Reserved h until (enqueue now id host entry s)
  unfolding enqueue push_back
  enqueue-Reserved h until now id host entry s r = record {
    not_ready = r.not_ready;
    wake_at = ground (arith, r.wake_at, Map.get-insert host h now s.wake, same_text host h);
  }

  pub submit-Reserved :
      (h : Text) (until now : ℕ) (id host : Text) (entry : UrlEntry Url) (s : ShardState Url)
      → Reserved h until s
      → Reserved h until (submit_shard now id host entry s).1
  submit-Reserved h until now id host entry s =
      submit_keeps (Reserved h until) now id host entry s
        (λ _. enqueue-Reserved h until now id host entry s)

  pub batch-Reserved :
      (h : Text) (until now : ℕ) (cap : Option ℕ) (id host : Text) (entry : UrlEntry Url)
      (s : ShardState Url)
      → Reserved h until s
      → Reserved h until (batch_shard now cap id host entry s).1
  unfolding bump_count
  batch-Reserved h until now none id host entry s =
      batch_keeps (Reserved h until) now none id host entry s
        (λ _ _. enqueue-Reserved h until now id host entry s)
  batch-Reserved h until now (some cap) id host entry s =
      batch_keeps (Reserved h until) now (some cap) id host entry s (λ _ _ r.
        enqueue-Reserved h until now id host entry (bump_count (some cap) host s)
          (record { not_ready = r.not_ready; wake_at = r.wake_at }))

  lease-Reserved :
      (h : Text) (until now timeout : ℕ) (host id : Text) (rest q : List Text) (s : ShardState Url)
      → contains (host ∷ rest) h ≡ false
      → Map.get h s.wake ≡ some until
      → Reserved h until
          (lease_url now timeout host id
            (record s { ready = rest; host_queue = Map.insert host q s.host_queue })).1
  unfolding lease_url
  lease-Reserved h until now timeout host id rest q s away e =
      elim (Option-cases (Map.get id s.urls)) [
        | inl lost ↦ rw (lost, lease_url) (record { not_ready = ground arith; wake_at = e })
        | inr (entry, found) ↦
            rw (found, lease_url)
              (record {
                not_ready = ground arith;
                wake_at = ground (
                  arith,
                  Map.get-insert host h (saturating_add now timeout) s.wake,
                  same_text host h,
                  same_text h host,
                );
              })
      ]

  pub claim-Reserved :
      (h : Text) (until now timeout : ℕ) (s : ShardState Url)
      → Reserved h until s
      → Reserved h until (pop_one_ready now timeout s).1
  unfolding pop_one_ready
  claim-Reserved h until now timeout s r =
      pop_hosts_keeps {Url = Url}
        (λ hosts t. (contains hosts h ≡ false) × (Map.get h t.wake ≡ some until)) (Reserved h until)
        now timeout (λ t k. record { not_ready = refl; wake_at = k.1 })
        (λ host rest t e k. (ground (arith, k.0), k.1))
        (λ host id rest q t e k. lease-Reserved h until now timeout host id rest q t k.0 k.1)
        s.ready s (r.not_ready, r.wake_at)

  pub ack-Reserved :
      (h : Text) (until : ℕ) (id : Text) (s : ShardState Url)
      → Reserved h until s
      → Reserved h until (ack_shard id s)
  unfolding ack_shard
  ack-Reserved h until id s r = record { not_ready = r.not_ready; wake_at = r.wake_at }

  -- `advance_wake` of a reserved host moves the end of its reservation, and leaves the others.
  pub advance_wake-Reserved :
      (h : Text) (until : ℕ) (host : Text) (to : ℕ) (s : ShardState Url)
      → Reserved h until s
      → Reserved h (if host == h then to else until) (advance_wake_shard host to s)
  unfolding advance_wake_shard
  advance_wake-Reserved h until host to s r = record {
    not_ready = ground (arith, r.not_ready, contains-retain_ne host h s.ready, same_text host h);
    wake_at = ground (arith, r.wake_at, Map.get-insert host h to s.wake, same_text host h);
  }

  promote_all-Reserved :
      (h : Text) (until : ℕ) (hosts : List Text) (s : ShardState Url)
      → contains hosts h ≡ false
      → Reserved h until s
      → Reserved h until (promote_all hosts s)
  unfolding promote_all promote_host
  promote_all-Reserved h until [] s away r = r
  promote_all-Reserved h until (host ∷ hosts) s away r =
      promote_all-Reserved h until hosts (promote_host host s) (ground arith) (record {
        not_ready =
            ground (arith, r.not_ready, contains-append h s.ready (host ∷ []), same_text h host);
        wake_at =
            ground
              (arith, r.wake_at, Map.get-remove host h s.wake, same_text h host, same_text host h);
      })

  reclaim_url-Reserved :
      (h : Text) (until now : ℕ) (id : Text) (s : ShardState Url)
      → Reserved h until s
      → Reserved h until (reclaim_url now id s).1
  unfolding reclaim_url push_back
  reclaim_url-Reserved h until now id s r = elim (Option-cases (Map.get id s.inflight)) [
    | inl gone ↦ rw (gone, reclaim_url) r
    | inr (slot, held) ↦
        rw (held, reclaim_url)
          (record {
            not_ready = r.not_ready;
            wake_at =
                ground
                  (arith, r.wake_at, Map.get-insert slot.host h now s.wake, same_text slot.host h);
          })
  ]

  pub tick-Reserved :
      (h : Text) (until now n : ℕ) (s : ShardState Url)
      → now < until
      → Map.Distinct s.wake
      → Reserved h until s
      → Reserved h until (tick_shard now n s).1
  unfolding tick_shard
  tick-Reserved h until now n s lt d r =
      let hosts = due_hosts now s.ready s.wake in
      reclaim_all_keeps (Reserved h until) now (reclaim_url-Reserved h until now)
        (expired_leases now (promote_all hosts s).inflight) (n + length hosts) (promote_all hosts s)
        (promote_all-Reserved h until hosts s
          (due_hosts_awake h now until s.ready s.wake lt (d h) r.wake_at) r)

  -- A claim that hands out a URL of an accounted shard, in which no host is ready twice, reserves
  -- its host: the host is not ready, and its wake-time is the end of the lease.
  pub claim_reserves :
      (now timeout : ℕ) (s : ShardState Url) (id host : Text) (entry : UrlEntry Url)
      → Accounted s
      → ReadyOnce s
      → (pop_one_ready now timeout s).0 ≡ ok (some (id, entry, host))
      → Reserved host (saturating_add now timeout) (pop_one_ready now timeout s).1
  claim_reserves now timeout s id host entry acc once e =
      let p =
        subst (λ r. Pops now timeout s.ready s r (pop_one_ready now timeout s).1) e
          (claim-Pops now timeout s acc) in
      record {
        not_ready = contains_of_count host (pop_one_ready now timeout s).1.ready (
            ground (
              arith,
              once.once host,
              ap (count host) p.2.1,
              count-append host p.2.0 (host ∷ (pop_one_ready now timeout s).1.ready),
              same_text host host,
            ));
        wake_at = p.4;
      }

  -- No claim on an accounted shard hands out a URL of a host that is reserved, until any time.
  pub claim_other_host :
      (h : Text) (until now timeout : ℕ) (s : ShardState Url) (id host : Text)
      (entry : UrlEntry Url)
      → Accounted s
      → Reserved h until s
      → (pop_one_ready now timeout s).0 ≡ ok (some (id, entry, host))
      → host ≢ h
  claim_other_host h until now timeout s id host entry acc r e same =
      let p =
        subst (λ x. Pops now timeout s.ready s x (pop_one_ready now timeout s).1) e
          (claim-Pops now timeout s acc) in
      let away : contains s.ready host ≡ false =
        subst (λ x. contains s.ready x ≡ false) (sym same) r.not_ready in
      let there : contains s.ready host ≡ true =
        subst (λ hs. contains hs host ≡ true) (sym p.2.1) (contains_middle host p.2.0 _) in
      cc
