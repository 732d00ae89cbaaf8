-- ===== src/Fakes/Admission.antt =====
-- crates/crawlrs-fakes/src/frontier.rs: the quota of `submit_batch`, the `max_urls` of a host, over
-- what happens on one shard.
use crawlrs.Prelude.{
  ℕ, ◌+◌, ◌≤◌, ◌≡◌, refl, sym, ap, ◌∙◌, subst, true, false, List, [], ◌∷◌, Option, none, some,
  if◌then◌else◌, unwrap_or, contains, ◌==◌, ◌||◌, list_eq, nat_eq, inl, inr, arith, Bool-cases,
  Option-cases,
}
use crawlrs.Prelude.Map
use crawlrs.Core.Error.{Text}
use crawlrs.Core.Types.{UrlEntry}
use crawlrs.Core.Scope.{CrawlScope, max_urls_for}
use crawlrs.Fakes.Shard.{
  ShardState, BatchItem, rejected, duplicate, accepted, empty_shard, enqueue, push_back, at_quota,
  bump_count, submit_shard, batch_shard, lease_url, pop_one_ready, advance_wake_shard, ack_shard,
  tick_shard, promote_host, reclaim_url,
}
use crawlrs.Fakes.Rules
use crawlrs.Fakes.Accounting.{same_text}
use crawlrs.Fakes.Reserved.{Event, sent, sent_in_batch, polled, advanced, acked, ticked, happens}

abbrev admits_item : Text → Text → BatchItem → ℕ
admits_item h host rejected = 0
admits_item h host duplicate = 0
admits_item h host accepted = if host == h then 1 else 0

module _ {Url : Type 0} (scope : CrawlScope) (h : Text) where
  -- The batches of a history ask with the `max_urls` that the scope has for the host.
  abbrev pub IsScoped : Event Url → Type 0
  IsScoped (sent_in_batch now most id host entry) = most ≡ max_urls_for scope host
  IsScoped e = Unit

  abbrev pub AllScoped : List (Event Url) → Type 0
  AllScoped [] = Unit
  AllScoped (e ∷ es) = IsScoped e × AllScoped es

  -- 1 if a batch accepts a URL of the host.
  unfoldable pub admits : Event Url → ShardState Url → ℕ
  admits (sent_in_batch now most id host entry) s =
      admits_item h host (batch_shard now most id host entry s).0
  admits e s = 0

  -- How many URLs of the host the batches of a history accept.
  unfoldable pub admitted : List (Event Url) → ShardState Url → ℕ
  unfolding admits
  admitted [] s = 0
  admitted (e ∷ es) s = let rest = admitted es (happens e s) in admits e s + rest

  abbrev counted : ShardState Url → ℕ
  counted s = unwrap_or (Map.get h s.host_count) 0

  enqueue-counted :
      (now : ℕ) (id host : Text) (entry : UrlEntry Url) (s : ShardState Url)
      → counted (enqueue now id host entry s) ≡ counted s
  unfolding enqueue push_back
  enqueue-counted now id host entry s = refl

  -- What an event does to the count.
  abbrev Counts : ℕ → Event Url → ShardState Url → Type 0
  Counts limit e s =
      (admits e s + counted s ≡ counted (happens e s)) × (counted (happens e s) ≤ limit)

  bump-Counts :
      (limit : ℕ) (most : Option ℕ) (host : Text) (s : ShardState Url)
      → max_urls_for scope h ≡ some limit
      → most ≡ max_urls_for scope host
      → counted s ≤ limit
      → at_quota most host s ≡ false
      → ((if host == h then 1 else 0) + counted s ≡ counted (bump_count most host s))
        × (counted (bump_count most host s) ≤ limit)
  unfolding at_quota bump_count
  bump-Counts limit none host s capped scoped small room = elim (Bool-cases (host == h)) [
    | inl same ↦
        let here : max_urls_for scope host ≡ max_urls_for scope h =
          ap (max_urls_for scope) ((same_text host h).0 same) in
        absurd (nothing (scoped ∙ here ∙ capped))
    | inr other ↦ rw other (omega arith, small)
  ]
    where
      nothing : {n : ℕ} → ◌≡◌ {A = Option ℕ} none (some n) → ⊥
      nothing e = cc
  bump-Counts limit (some most) host s capped scoped small room = elim (Bool-cases (host == h)) [
    | inl same ↦
        let here : host ≡ h = (same_text host h).0 same in
        let most_is : some most ≡ some limit = scoped ∙ ap (max_urls_for scope) here ∙ capped in
        ground (
          arith,
          same,
          room,
          most_is,
          ap (λ x. Map.get x s.host_count) here,
          Map.get-insert host h (unwrap_or (Map.get host s.host_count) 0 + 1) s.host_count,
        )
    | inr other ↦ ground (
      arith,
      other,
      small,
      Map.get-insert host h (unwrap_or (Map.get host s.host_count) 0 + 1) s.host_count,
    )
  ]

  batch-Counts :
      (limit now : ℕ) (most : Option ℕ) (id host : Text) (entry : UrlEntry Url) (s : ShardState Url)
      → max_urls_for scope h ≡ some limit
      → most ≡ max_urls_for scope host
      → counted s ≤ limit
      → Counts limit (sent_in_batch now most id host entry) s
  unfolding happens admits enqueue push_back
  batch-Counts limit now most id host entry s capped scoped small =
      elim (Bool-cases (at_quota most host s)) [
        | inl full ↦ subst Tallied (sym (full_lem full)) (omega arith, small)
        | inr room ↦ elim (Bool-cases (contains s.seen id)) [
          | inl old ↦ subst Tallied (sym (old_lem room old)) (omega arith, small)
          | inr new ↦
              subst Tallied (sym (new_lem room new))
                (bump-Counts limit most host s capped scoped small room)
        ]
      ]
    where
      Tallied : BatchItem × ShardState Url → Type 0
      Tallied o = (admits_item h host o.0 + counted s ≡ counted o.1) × (counted o.1 ≤ limit)

      full_lem : at_quota most host s ≡ true → batch_shard now most id host entry s ≡ (rejected, s)
      full_lem full = unfold batch_shard in rw full refl

      old_lem :
          at_quota most host s ≡ false
          → contains s.seen id ≡ true
          → batch_shard now most id host entry s ≡ (duplicate, s)
      old_lem room old = unfold batch_shard in rw room (rw old refl)

      new_lem :
          at_quota most host s ≡ false
          → contains s.seen id ≡ false
          → batch_shard now most id host entry s
            ≡ (accepted, enqueue now id host entry (bump_count most host s))
      new_lem room new = unfold batch_shard in rw room (rw new refl)

  -- The count is not touched by what is no batch.
  abbrev Stays : ℕ → ShardState Url → Type 0
  Stays n s = counted s ≡ n

  lease-Stays :
      (n now timeout : ℕ) (host id : Text) (s : ShardState Url)
      → Stays n s
      → Stays n (lease_url now timeout host id s).1
  unfolding lease_url
  lease-Stays n now timeout host id s k = elim (Option-cases (Map.get id s.urls)) [
    | inl lost ↦ rw (lost, lease_url) k
    | inr (entry, kept) ↦ rw (kept, lease_url) k
  ]

  reclaim_url-Stays :
      (n now : ℕ) (id : Text) (s : ShardState Url) → Stays n s → Stays n (reclaim_url now id s).1
  unfolding reclaim_url push_back
  reclaim_url-Stays n now id s k = elim (Option-cases (Map.get id s.inflight)) [
    | inl gone ↦ rw (gone, reclaim_url) k
    | inr (slot, held) ↦ rw (held, reclaim_url) k
  ]

  advance_wake-Stays :
      (n : ℕ) (host : Text) (until : ℕ) (s : ShardState Url)
      → Stays n s
      → Stays n (advance_wake_shard host until s)
  unfolding advance_wake_shard
  advance_wake-Stays n host until s k =
      elim (Bool-cases (Map.contains_key host s.host_queue || Map.contains_key host s.wake)) [
        | inl known ↦ rw (known, advance_wake_shard) k
        | inr unknown ↦ rw (unknown, advance_wake_shard) k
      ]

  claim-Stays :
      (n now timeout : ℕ) (s : ShardState Url) → Stays n s → Stays n (pop_one_ready now timeout s).1
  unfolding pop_one_ready
  claim-Stays n now timeout s =
      Rules.pop_hosts_keeps {Url = Url} (λ hosts t. Stays n t) (Stays n) now timeout (λ t k. k)
        (λ host rest t e k. k)
        (λ host id rest q t e k.
          lease-Stays n now timeout host id
            (record t { ready = rest; host_queue = Map.insert host q t.host_queue }) k)
        s.ready s

  quiet :
      {limit : ℕ} (s t : ShardState Url)
      → Stays (counted s) t
      → counted s ≤ limit
      → (0 + counted s ≡ counted t) × (counted t ≤ limit)
  quiet s t e small = (omega (arith, e), omega (arith, e, small))

  event-Counts :
      (limit : ℕ) (e : Event Url) (s : ShardState Url)
      → max_urls_for scope h ≡ some limit
      → IsScoped e
      → counted s ≤ limit
      → Counts limit e s
  unfolding happens admits ack_shard
  event-Counts limit (sent_in_batch now most id host entry) s capped scoped small =
      batch-Counts limit now most id host entry s capped scoped small
  event-Counts limit (sent now id host entry) s capped scoped small =
      quiet s (submit_shard now id host entry s).1
        (Rules.submit_keeps (Stays (counted s)) now id host entry s
          (λ new k. enqueue-counted now id host entry s ∙ k) refl)
        small
  event-Counts limit (polled now timeout) s capped scoped small =
      quiet s (pop_one_ready now timeout s).1 (claim-Stays (counted s) now timeout s refl) small
  event-Counts limit (advanced host until) s capped scoped small =
      quiet s (advance_wake_shard host until s) (advance_wake-Stays (counted s) host until s refl)
        small
  event-Counts limit (acked id) s capped scoped small = quiet s (ack_shard id s) refl small
  event-Counts limit (ticked now n) s capped scoped small =
      quiet s (tick_shard now n s).1
        (Rules.tick_keeps (Stays (counted s)) now (λ host t k. unfold promote_host in k)
          (reclaim_url-Stays (counted s) now) n s refl)
        small

  admitted_within :
      (limit : ℕ) (es : List (Event Url)) (s : ShardState Url)
      → max_urls_for scope h ≡ some limit
      → AllScoped es
      → counted s ≤ limit
      → admitted es s + counted s ≤ limit
  unfolding admitted
  admitted_within limit [] s capped scoped small = omega (arith, small)
  admitted_within limit (e ∷ es) s capped scoped small =
      let (adds, within) = event-Counts limit e s capped scoped.0 small in
      omega (arith, adds, admitted_within limit es (happens e s) capped scoped.1 within)

  -- Over any history of a new shard, the batches accept no more URLs of a host than the `max_urls` that
  -- the scope has for the host, if they ask with the `max_urls` of the scope. URLs that `submit`
  -- enqueues are not counted.
  pub batches_within_quota :
      (limit : ℕ) (es : List (Event Url))
      → max_urls_for scope h ≡ some limit
      → AllScoped es
      → admitted es empty_shard ≤ limit
  batches_within_quota limit es capped scoped =
      let within =
        admitted_within limit es empty_shard capped scoped (unfold Map.get in omega arith) in
      omega (arith, within)
