-- ===== src/Fakes/Reserved.antt =====
-- crates/crawlrs-fakes/src/frontier.rs: what happens on one shard after a claim, until the wake-time
-- of the claimed host.
use crawlrs.Prelude.{
  ℕ, ◌<◌, ◌≡◌, refl, false, List, [], ◌∷◌, Option, none, some, if◌then◌else◌, contains, ◌==◌,
  list_eq, nat_eq, inl, inr, arith, Bool-cases,
}
use crawlrs.Core.Error.{Text, Result, ok, err, panic}
use crawlrs.Core.Types.{UrlEntry}
use crawlrs.Fakes.Shard.{
  saturating_add, ShardState, submit_shard, batch_shard, pop_one_ready, advance_wake_shard,
  ack_shard, tick_shard,
}
use crawlrs.Fakes.Accounting.{Accounted, pending, same_text, submit-Accounted, batch-Accounted}
use crawlrs.Fakes.Delivery.{claim-Accounted, advance_wake-Accounted, ack-Accounted, tick-Accounted}
use crawlrs.Fakes.Exclusion.{
  ReadyOnce, submit-ReadyOnce, batch-ReadyOnce, claim-ReadyOnce, advance_wake-ReadyOnce,
  ack-ReadyOnce, tick-ReadyOnce,
}
use crawlrs.Fakes.Reservation.{
  Reserved, submit-Reserved, batch-Reserved, claim-Reserved, advance_wake-Reserved, ack-Reserved,
  tick-Reserved, claim_reserves, claim_other_host,
}

-- What can happen to a shard.
pub data Event (Url : Type 0) : Type 0 where
  sent : ℕ → Text → Text → UrlEntry Url → Event Url
  sent_in_batch : ℕ → Option ℕ → Text → Text → UrlEntry Url → Event Url
  polled : ℕ → ℕ → Event Url
  advanced : Text → ℕ → Event Url
  acked : Text → Event Url
  ticked : ℕ → ℕ → Event Url

module _ {Url : Type 0} where
  unfoldable pub happens : Event Url → ShardState Url → ShardState Url
  happens (sent now id host entry) s = (submit_shard now id host entry s).1
  happens (sent_in_batch now cap id host entry) s = (batch_shard now cap id host entry s).1
  happens (polled now timeout) s = (pop_one_ready now timeout s).1
  happens (advanced host until) s = advance_wake_shard host until s
  happens (acked id) s = ack_shard id s
  happens (ticked now n) s = (tick_shard now n s).1

  -- The host of what a claim hands out.
  unfoldable pub host_handed : Event Url → ShardState Url → Option Text
  host_handed (polled now timeout) s = elim (pop_one_ready now timeout s).0 [
    | ok o ↦ elim o [ none ↦ none | some (id, entry, host) ↦ some host ]
    | err e ↦ none
    | panic ↦ none
  ]
  host_handed e s = none

  -- The hosts of the URLs that the claims of a history hand out.
  unfoldable pub hosts_handed : List (Event Url) → ShardState Url → List Text
  unfolding happens host_handed
  hosts_handed [] s = []
  hosts_handed (e ∷ es) s =
      let rest = hosts_handed es (happens e s) in
      elim (host_handed e s) as (λ _. List Text) [ none ↦ rest | some host ↦ host ∷ rest ]

  -- The wake-time of a host after an event: `advance_wake` sets it anew.
  abbrev pub moved : Text → ℕ → Event Url → ℕ
  moved host until (advanced other to) = if other == host then to else until
  moved host until e = until

  -- Every tick comes before the wake-time that the host then has, and no ack after its lease was
  -- reclaimed.
  abbrev pub IsEarly : ℕ → Event Url → ShardState Url → Type 0
  IsEarly until (acked id) s = pending id s ≡ 0
  IsEarly until (ticked now n) s = now < until
  IsEarly until e s = Unit

  abbrev pub AllEarly : Text → ℕ → List (Event Url) → ShardState Url → Type 0
  AllEarly host until [] s = Unit
  AllEarly host until (e ∷ es) s =
      IsEarly until e s × AllEarly host (moved host until e) es (happens e s)

  -- A host that rests on a shard without lost or doubled URLs.
  record Rests (host : Text) (until : ℕ) (s : ShardState Url) : Type 0 where
    accounted : Accounted s
    ready_once : ReadyOnce s
    reserved : Reserved host until s

  happens-Rests :
      (h : Text) (until : ℕ) (e : Event Url) (s : ShardState Url)
      → IsEarly until e s
      → Rests h until s
      → Rests h (moved h until e) (happens e s)
  unfolding happens
  happens-Rests h until (sent now id host entry) s early r = record {
    accounted = submit-Accounted now id host entry s r.accounted;
    ready_once = submit-ReadyOnce now id host entry s r.ready_once;
    reserved = submit-Reserved h until now id host entry s r.reserved;
  }
  happens-Rests h until (sent_in_batch now cap id host entry) s early r = record {
    accounted = batch-Accounted now cap id host entry s r.accounted;
    ready_once = batch-ReadyOnce now cap id host entry s r.ready_once;
    reserved = batch-Reserved h until now cap id host entry s r.reserved;
  }
  happens-Rests h until (polled now timeout) s early r = record {
    accounted = claim-Accounted now timeout s r.accounted;
    ready_once = claim-ReadyOnce now timeout s r.ready_once;
    reserved = claim-Reserved h until now timeout s r.reserved;
  }
  happens-Rests h until (advanced host to) s early r = record {
    accounted = advance_wake-Accounted host to s r.accounted;
    ready_once = advance_wake-ReadyOnce host to s r.ready_once;
    reserved = advance_wake-Reserved h until host to s r.reserved;
  }
  happens-Rests h until (acked id) s early r = record {
    accounted = ack-Accounted id s r.accounted early;
    ready_once = ack-ReadyOnce id s r.ready_once;
    reserved = ack-Reserved h until id s r.reserved;
  }
  happens-Rests h until (ticked now n) s early r = record {
    accounted = tick-Accounted now n s r.accounted;
    ready_once = tick-ReadyOnce now n s r.ready_once;
    reserved = tick-Reserved h until now n s early r.ready_once.wake_distinct r.reserved;
  }

  host_handed-other :
      (h : Text) (until : ℕ) (e : Event Url) (s : ShardState Url) (host : Text)
      → Rests h until s
      → host_handed e s ≡ some host
      → (host == h) ≡ false
  unfolding host_handed
  host_handed-other h until (polled now timeout) s host r =
      by_pop (pop_one_ready now timeout s).0 refl
    where
      by_pop :
          (p : Result (Option (Text × UrlEntry Url × Text)))
          → (pop_one_ready now timeout s).0 ≡ p
          → (elim p as (λ _. Option Text) [
            | ok o ↦ elim o as (λ _. Option Text) [ none ↦ none | some (id, entry, x) ↦ some x ]
            | err e ↦ none
            | panic ↦ none
          ])
            ≡ some host
          → (host == h) ≡ false
      by_pop (ok none) q e = absurd cc
      by_pop (ok (some (id, entry, x))) q e = elim (Bool-cases (host == h)) [
        | inr other ↦ other
        | inl same ↦
            let x_is : x ≡ host = cc in
            absurd (
              claim_other_host h until now timeout s id x entry r.accounted r.reserved q
                (let y = (same_text host h).0 same in cc))
      ]
      by_pop (err x) q e = absurd cc
      by_pop panic q e = absurd cc
  host_handed-other h until (sent now id x entry) s host r = λ e. absurd cc
  host_handed-other h until (sent_in_batch now most id x entry) s host r = λ e. absurd cc
  host_handed-other h until (advanced x to) s host r = λ e. absurd cc
  host_handed-other h until (acked id) s host r = λ e. absurd cc
  host_handed-other h until (ticked now n) s host r = λ e. absurd cc

  rests :
      (h : Text) (until : ℕ) (es : List (Event Url)) (s : ShardState Url)
      → AllEarly h until es s
      → Rests h until s
      → contains (hosts_handed es s) h ≡ false
  unfolding hosts_handed
  rests h until [] s early r = refl
  rests h until (e ∷ es) s early r =
      by_host (host_handed e s) refl
        (rests h (moved h until e) es (happens e s) early.1 (happens-Rests h until e s early.0 r))
    where
      by_host :
          (o : Option Text)
          → host_handed e s ≡ o
          → contains (hosts_handed es (happens e s)) h ≡ false
          → contains (hosts_handed (e ∷ es) s) h ≡ false
      by_host none q later = rw (q, hosts_handed) later
      by_host (some host) q later =
          rw (q, hosts_handed)
            (ground (
              arith,
              host_handed-other h until e s host r q,
              later,
              same_text h host,
              same_text host h,
            ))

  -- After a claim that handed out a URL of a host, no claim hands out a URL of that host again,
  -- whatever happens on the shard meanwhile, before a tick at or after the host's wake-time: the end of the
  -- lease, or what the last `advance_wake` of the host has set. The shard is accounted and has no host
  -- twice among the ready ones, and no ack comes after its lease was reclaimed.
  pub claimed_host_rests :
      (now timeout : ℕ) (s : ShardState Url) (id host : Text) (entry : UrlEntry Url)
      (es : List (Event Url))
      → Accounted s
      → ReadyOnce s
      → (pop_one_ready now timeout s).0 ≡ ok (some (id, entry, host))
      → AllEarly host (saturating_add now timeout) es (pop_one_ready now timeout s).1
      → contains (hosts_handed es (pop_one_ready now timeout s).1) host ≡ false
  claimed_host_rests now timeout s id host entry es acc once e early =
      rests host (saturating_add now timeout) es (pop_one_ready now timeout s).1 early (record {
        accounted = claim-Accounted now timeout s acc;
        ready_once = claim-ReadyOnce now timeout s once;
        reserved = claim_reserves now timeout s id host entry acc once e;
      })
