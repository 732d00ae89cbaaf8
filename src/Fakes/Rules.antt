-- ===== src/Fakes/Rules.antt =====
-- crates/crawlrs-fakes/src/frontier.rs: what one round of a loop keeps, the whole loop keeps.
use crawlrs.Prelude.{
  ℕ, ◌+◌, ◌≡◌, refl, false, List, [], ◌∷◌, Option, none, some, length, inl, inr, contains, list_eq,
  nat_eq, Bool-cases,
}
use crawlrs.Prelude.Map
use crawlrs.Core.Error.{Text, Result-cases}
use crawlrs.Core.Types.{UrlEntry}
use crawlrs.Fakes.Shard.{
  ShardState, queue_of, enqueue, at_quota, bump_count, submit_shard, batch_shard, lease_url,
  pop_hosts, promote_host, promote_all, reclaim_url, reclaim_all, tick_shard, due_hosts,
  expired_leases,
}

module _ {Url : Type 0} (P : ShardState Url → Type 0) where
  pub promote_all_keeps :
      ((host : Text) (s : ShardState Url) → P s → P (promote_host host s))
      → (hosts : List Text) (s : ShardState Url) → P s
      → P (promote_all hosts s)
  unfolding promote_all
  promote_all_keeps keep [] s h = h
  promote_all_keeps keep (host ∷ hosts) s h =
      promote_all_keeps keep hosts (promote_host host s) (keep host s h)

  pub reclaim_all_keeps :
      (now : ℕ)
      → ((id : Text) (s : ShardState Url) → P s → P (reclaim_url now id s).1)
      → (ids : List Text) (n : ℕ) (s : ShardState Url) → P s
      → P (reclaim_all now ids n s).1
  unfolding reclaim_all
  reclaim_all_keeps now keep [] n s h = h
  reclaim_all_keeps now keep (id ∷ ids) n s h = elim (Result-cases (reclaim_url now id s).0) [
    | inl (u, e) ↦
        rw (e, reclaim_all)
          (reclaim_all_keeps now keep ids (n + 1) (reclaim_url now id s).1 (keep id s h))
    | inr (inl (x, e)) ↦ rw (e, reclaim_all) (keep id s h)
    | inr (inr e) ↦ rw (e, reclaim_all) (keep id s h)
  ]

  pub tick_keeps :
      (now : ℕ)
      → ((host : Text) (s : ShardState Url) → P s → P (promote_host host s))
      → ((id : Text) (s : ShardState Url) → P s → P (reclaim_url now id s).1)
      → (n : ℕ) (s : ShardState Url) → P s
      → P (tick_shard now n s).1
  unfolding tick_shard
  tick_keeps now promotes reclaims n s h =
      let hosts = due_hosts now s.ready s.wake in
      reclaim_all_keeps now reclaims (expired_leases now (promote_all hosts s).inflight)
        (n + length hosts) (promote_all hosts s) (promote_all_keeps promotes hosts s h)

  pub submit_keeps :
      (now : ℕ) (id host : Text) (entry : UrlEntry Url) (s : ShardState Url)
      → (contains s.seen id ≡ false → P s → P (enqueue now id host entry s))
      → P s
      → P (submit_shard now id host entry s).1
  unfolding submit_shard
  submit_keeps now id host entry s keep h = elim (Bool-cases (contains s.seen id)) [
    | inl old ↦ rw old h
    | inr new ↦ rw new (keep new h)
  ]

  pub batch_keeps :
      (now : ℕ) (cap : Option ℕ) (id host : Text) (entry : UrlEntry Url) (s : ShardState Url)
      → (at_quota cap host s ≡ false
          → contains s.seen id ≡ false
          → P s
          → P (enqueue now id host entry (bump_count cap host s)))
      → P s
      → P (batch_shard now cap id host entry s).1
  unfolding batch_shard
  batch_keeps now cap id host entry s keep h = elim (Bool-cases (at_quota cap host s)) [
    | inl full ↦ rw full h
    | inr room ↦ rw room (elim (Bool-cases (contains s.seen id)) [
      | inl old ↦ rw old h
      | inr new ↦ rw new (keep room new h)
    ])
  ]

-- `Q hosts s` holds while `hosts` are left of `ready`.
module _ {Url : Type 0} (Q : List Text → ShardState Url → Type 0)
    (P : ShardState Url → Type 0) where
  pub pop_hosts_keeps :
      (now timeout : ℕ)
      → ((s : ShardState Url) → Q [] s → P (record s { ready = [] }))
      → ((host : Text) (rest : List Text) (s : ShardState Url)
          → queue_of host s ≡ []
          → Q (host ∷ rest) s
          → Q rest s)
      → ((host id : Text) (rest q : List Text) (s : ShardState Url)
          → Map.get host s.host_queue ≡ some (id ∷ q)
          → Q (host ∷ rest) s
          → P
              (lease_url now timeout host id
                (record s { ready = rest; host_queue = Map.insert host q s.host_queue })).1)
      → (hosts : List Text) (s : ShardState Url) → Q hosts s
      → P (pop_hosts now timeout hosts s).1
  unfolding pop_hosts
  pop_hosts_keeps now timeout none_left stale leases [] s h = none_left s h
  pop_hosts_keeps now timeout none_left stale leases (host ∷ rest) s h =
      by_queue (Map.get host s.host_queue) refl
        (λ e. pop_hosts_keeps now timeout none_left stale leases rest s (stale host rest s e h))
    where
      by_queue :
          (o : Option (List Text))
          → Map.get host s.host_queue ≡ o
          → (queue_of host s ≡ [] → P (pop_hosts now timeout rest s).1)
          → P (pop_hosts now timeout (host ∷ rest) s).1
      by_queue none e skip = rw (e, pop_hosts) (skip (unfold queue_of in rw e))
      by_queue (some []) e skip = rw (e, pop_hosts) (skip (unfold queue_of in rw e))
      by_queue (some (id ∷ q)) e skip = rw (e, pop_hosts) (leases host id rest q s e h)
