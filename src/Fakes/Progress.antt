-- ===== src/Fakes/Progress.antt =====
-- crates/crawlrs-fakes/src/frontier.rs: a queued URL is handed out once its host's wake-time has
-- come and the promoter has ticked.
use crawlrs.Prelude.{
  ℕ, ◌+◌, ◌≤◌, ◌≡◌, refl, sym, true, ◌||◌, List, [], ◌∷◌, ◌++◌, Option, none, some, arith, inl, inr,
  contains, ◌==◌, list_eq, nat_eq, unwrap_or, length, Bool-cases, Option-cases, All, ◌≢◌, ◌∙◌,
}
use mathlib.Core.List.{append-nil, append_assoc}
use crawlrs.Prelude.Map
use crawlrs.Prelude.Map.{Map}
use crawlrs.Core.Error.{Text, Result, ok, err, panic}
use crawlrs.Core.Types.{UrlEntry}
use crawlrs.Fakes.Shard.{
  ShardState, push_back, queue_of, pop_one_ready, promote_host, promote_all, reclaim_url,
  tick_shard, due_hosts, expired_leases,
}
use crawlrs.Fakes.Rules.{promote_all_keeps, reclaim_all_keeps}
use crawlrs.Fakes.Accounting.{Accounted, same_text}
use crawlrs.Fakes.Delivery.{Pops, claim-Pops, tick-Accounted}
use crawlrs.Fakes.Liveness.{Scheduled, IsWaiting, contains-append}

-- A host whose wake-time has come is promoted, or is ready already.
due_hosts_complete :
    (now t : ℕ) (host : Text) (ready : List Text) (wake : Map Text ℕ)
    → Map.get host wake ≡ some t
    → t ≤ now
    → (contains (due_hosts now ready wake) host || contains ready host) ≡ true
unfolding due_hosts Map.get
due_hosts_complete now t host ready [] e le = cc
due_hosts_complete now t host ready ((h, score) ∷ wake) e le =
    ground (arith, due_hosts_complete now t host ready wake, same_text h host, same_text host h)

not_nil : (q : List Text) (id : Text) → q ++ id ∷ [] ≢ []
not_nil [] id e = cc
not_nil (x ∷ q) id e = cc

module _ {Url : Type 0} where
  ready-promote_all :
      (hosts : List Text) (s : ShardState Url) → (promote_all hosts s).ready ≡ s.ready ++ hosts
  unfolding promote_all promote_host
  ready-promote_all [] s = sym (append-nil s.ready)
  ready-promote_all (host ∷ hosts) s =
      ready-promote_all hosts (promote_host host s) ∙ append_assoc s.ready (host ∷ []) hosts

  ready-reclaim_url :
      (now : ℕ) (id : Text) (s : ShardState Url) → (reclaim_url now id s).1.ready ≡ s.ready
  unfolding reclaim_url push_back
  ready-reclaim_url now id s = ground arith

  pub ready-tick :
      (now n : ℕ) (s : ShardState Url)
      → (tick_shard now n s).1.ready ≡ s.ready ++ due_hosts now s.ready s.wake
  unfolding tick_shard
  ready-tick now n s =
      let hosts = due_hosts now s.ready s.wake in
      reclaim_all_keeps (λ t. t.ready ≡ s.ready ++ hosts) now
        (λ id t e. ready-reclaim_url now id t ∙ e)
        (expired_leases now (promote_all hosts s).inflight) (n + length hosts) (promote_all hosts s)
        (ready-promote_all hosts s)

  reclaim_url-IsWaiting :
      (host : Text) (now : ℕ) (id : Text) (s : ShardState Url)
      → IsWaiting host s
      → IsWaiting host (reclaim_url now id s).1
  unfolding reclaim_url push_back queue_of
  reclaim_url-IsWaiting host now id s w = elim (Option-cases (Map.get id s.inflight)) [
    | inl gone ↦ rw (gone, reclaim_url) w
    | inr (slot, held) ↦
        rw (held, reclaim_url)
          (λ e. ground (
            arith,
            w,
            Map.get-insert slot.host host (unwrap_or (Map.get slot.host s.host_queue) [] ++ id ∷ [])
                s.host_queue,
            same_text slot.host host,
            not_nil (unwrap_or (Map.get slot.host s.host_queue) []) id,
          ))
  ]

  promote_all-IsWaiting :
      (host : Text) (hosts : List Text) (s : ShardState Url)
      → IsWaiting host s
      → IsWaiting host (promote_all hosts s)
  promote_all-IsWaiting host =
      promote_all_keeps (IsWaiting host) (λ h t w. unfold promote_host queue_of in w)

  tick-IsWaiting :
      (host : Text) (now n : ℕ) (s : ShardState Url)
      → IsWaiting host s
      → IsWaiting host (tick_shard now n s).1
  unfolding tick_shard
  tick-IsWaiting host now n s w =
      let hosts = due_hosts now s.ready s.wake in
      reclaim_all_keeps (IsWaiting host) now (reclaim_url-IsWaiting host now)
        (expired_leases now (promote_all hosts s).inflight) (n + length hosts) (promote_all hosts s)
        (promote_all-IsWaiting host hosts s w)

  idle_queue :
      (host : Text) (hosts : List Text) (s : ShardState Url)
      → All (λ h. queue_of h s ≡ []) hosts
      → contains hosts host ≡ true
      → queue_of host s ≡ []
  idle_queue host [] s h e = cc
  idle_queue host (x ∷ hosts) s h e = elim (Bool-cases (host == x)) [
    | inl same ↦ rw ((same_text host x).0 same) h.0
    | inr ne ↦ idle_queue host hosts s h.1 (ground arith)
  ]

  abbrev pub HandsOut : Result (Option (Text × UrlEntry Url × Text)) → Type 0
  HandsOut r = (d : Text × UrlEntry Url × Text) × (r ≡ ok (some d))

  -- A pop hands a URL out if a ready host has one waiting.
  pub claim-HandsOut :
      (now timeout : ℕ) (host : Text) (s : ShardState Url)
      → Accounted s
      → IsWaiting host s
      → contains s.ready host ≡ true
      → HandsOut (pop_one_ready now timeout s).0
  claim-HandsOut now timeout host s h w ready =
      by_result (pop_one_ready now timeout s).0 (claim-Pops now timeout s h)
    where
      by_result :
          (r : Result (Option (Text × UrlEntry Url × Text)))
          → Pops now timeout s.ready s r (pop_one_ready now timeout s).1
          → HandsOut r
      by_result (ok none) p = absurd (w (idle_queue host s.ready s p.0 ready))
      by_result (ok (some d)) p = (d, refl)
      by_result (err e) p = absurd p
      by_result panic p = absurd p

  -- The time from which a host with queued URLs is served.
  abbrev pub due_time : Text → ShardState Url → ℕ
  due_time host s = unwrap_or (Map.get host s.wake) 0

  -- In an accounted and scheduled shard, let a URL wait in the queue of `host`. From the host's
  -- wake-time on (at any time, if it has none), a tick followed by a pop hands out a URL.
  pub due_host_served :
      (host : Text) (now n later timeout : ℕ) (s : ShardState Url)
      → Accounted s
      → Scheduled s
      → IsWaiting host s
      → due_time host s ≤ now
      → HandsOut (pop_one_ready later timeout (tick_shard now n s).1).0
  due_host_served host now n later timeout s acc sch w due =
      claim-HandsOut later timeout host (tick_shard now n s).1 (tick-Accounted now n s acc)
        (tick-IsWaiting host now n s w) (rw ready-tick is_ready)
    where
      is_ready : contains (s.ready ++ due_hosts now s.ready s.wake) host ≡ true
      is_ready = elim (Option-cases (Map.get host s.wake)) [
        | inl asleep ↦ ground (
          arith,
          sch.host_scheduled host w,
          contains-append host s.ready (due_hosts now s.ready s.wake),
        )
        | inr (t, e) ↦ ground (
          arith,
          due_hosts_complete now t host s.ready s.wake e,
          contains-append host s.ready (due_hosts now s.ready s.wake),
        )
      ]
