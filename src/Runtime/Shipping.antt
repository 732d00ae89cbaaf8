-- ===== src/Runtime/Shipping.antt =====
-- crates/crawlrs-runtime/src/outbox.rs: what becomes of the links that the publisher ships.
use crawlrs.Prelude.{
  ℕ, ◌≡◌, refl, true, List, [], ◌∷◌, ◌++◌, Option, none, some, arith, inl, inr, ◌⊎◌, contains,
  nat_eq, list_eq, All, Bool-cases, Option-cases, subst, sym, ap, ◌∙◌, eqb, eqb_iff, ==_refl, ◌≢◌,
}
use crawlrs.Prelude.Map
use crawlrs.Core.Error.{Text, Error, Result, ok, err, panic, Result-cases}
use crawlrs.Core.Types.{UrlApi, UrlEntry, SubmitBatchOutcome}
use crawlrs.Core.Scope.{max_urls_for}
use crawlrs.Fakes.Shard.{
  ShardState, BatchItem, rejected, duplicate, accepted, at_quota, bump_count, batch_shard,
}
use crawlrs.Fakes.Frontier.{InMemoryFrontier, FrontierState, locate, tally, set_shard, batch_loop}
use crawlrs.Fakes.Accounting.{same_text}

-- Where an entry stands in a list.
abbrev pub IsIn : {A : Type 0} → A → List A → Type 0
IsIn a [] = ⊥
IsIn a (x ∷ xs) = (x ≡ a) ⊎ IsIn a xs

module _ {Url : Type 0} where
  seen-bump_count :
      (cap : Option ℕ) (host : Text) (s : ShardState Url) → (bump_count cap host s).seen ≡ s.seen
  unfolding bump_count
  seen-bump_count none host s = refl
  seen-bump_count (some c) host s = refl

  -- A batch item is rejected, or its URL has been seen afterwards; what was seen stays seen.
  seen-batch_shard :
      (now : ℕ) (cap : Option ℕ) (id host : Text) (entry : UrlEntry Url) (s : ShardState Url)
      → let p = batch_shard now cap id host entry s in
        ((p.0 ≡ rejected) ⊎ (contains p.1.seen id ≡ true))
        × ((j : Text) → contains s.seen j ≡ true → contains p.1.seen j ≡ true)
  unfolding batch_shard
  seen-batch_shard now cap id host entry s = elim (Bool-cases (at_quota cap host s)) [
    | inl full ↦ rw full (inl refl, λ j e. e)
    | inr room ↦ rw room (elim (Bool-cases (contains s.seen id)) [
      | inl old ↦ rw old (inr old, λ j e. e)
      | inr new ↦ rw new (
        inr (ground (arith, same_text id id)),
        λ j e. rw (seen-bump_count cap host s) (ground (arith, e)),
      )
    ])
  ]

module _ {Url : Type 0} (api : UrlApi Url) (f : InMemoryFrontier Url) where
  -- The frontier has the URL of the entry among those that it has seen.
  abbrev pub IsKnown : FrontierState Url → UrlEntry Url → Type 0
  IsKnown st entry =
      (place : ℕ × List ℕ × Text) × (ss : ShardState Url) × (locate api f entry ≡ ok place)
      × (Map.get place.0 st.shards ≡ some ss)
      × (contains ss.seen place.1 ≡ true)

  -- A shard that has seen more knows what it knew.
  set_shard-IsKnown :
      (shard : ℕ) (ss ss' : ShardState Url) (st : FrontierState Url) (entry : UrlEntry Url)
      → Map.get shard st.shards ≡ some ss
      → ((j : Text) → contains ss.seen j ≡ true → contains ss'.seen j ≡ true)
      → IsKnown st entry
      → IsKnown (set_shard shard ss' st) entry
  unfolding set_shard
  set_shard-IsKnown shard ss ss' st entry found more (place, s0, at, got, seen) =
      elim (Bool-cases (eqb shard place.0)) [
        | inl same ↦
            (place, ss', at, rw (Map.get-insert shard place.0 ss' st.shards) (rw same), later same)
        | inr other ↦
            (place, s0, at, rw (Map.get-insert shard place.0 ss' st.shards) (rw other got), seen)
      ]
    where
      seen_of : Option (ShardState Url) → List Text
      seen_of none = []
      seen_of (some x) = x.seen

      later : eqb shard place.0 ≡ true → contains ss'.seen place.1 ≡ true
      later same =
          let q = ap (λ k. Map.get k st.shards) ((eqb_iff shard place.0).0 same) in
          let p = ap seen_of (sym found ∙ q ∙ got) in
          more place.1 (subst (λ t. contains t place.1 ≡ true) (sym p) seen)

  rejected-tally :
      (item : BatchItem) (entry e : UrlEntry Url) (o : SubmitBatchOutcome Url)
      → IsIn e o.rejected_urls
      → IsIn e (tally api f item entry o).rejected_urls
  unfolding tally
  rejected-tally duplicate entry e o h = h
  rejected-tally accepted entry e o h = h
  rejected-tally rejected entry e o h = append o.rejected_urls h
    where
      append : (xs : List (UrlEntry Url)) → IsIn e xs → IsIn e (xs ++ entry ∷ [])
      append (x ∷ xs) (inl p) = inl p
      append (x ∷ xs) (inr p) = inr (append xs p)
      append [] h = absurd h

  tally-rejected :
      (entry : UrlEntry Url) (o : SubmitBatchOutcome Url)
      → IsIn entry (tally api f rejected entry o).rejected_urls
  unfolding tally
  tally-rejected entry o = last o.rejected_urls
    where
      last : (xs : List (UrlEntry Url)) → IsIn entry (xs ++ entry ∷ [])
      last [] = inl refl
      last (x ∷ xs) = inr (last xs)

  -- What a loop of batch items that ends well leaves behind.
  abbrev pub Served :
      List (UrlEntry Url)
      → SubmitBatchOutcome Url
      → FrontierState Url
      → SubmitBatchOutcome Url
      → FrontierState Url
      → Type 0
  Served entries o st o' st' =
      All (λ e. IsKnown st' e ⊎ IsIn e o'.rejected_urls) entries
      × ((e : UrlEntry Url) → IsKnown st e → IsKnown st' e)
      × ((e : UrlEntry Url) → IsIn e o.rejected_urls → IsIn e o'.rejected_urls)

  abbrev pub Serves :
      List (UrlEntry Url)
      → SubmitBatchOutcome Url
      → FrontierState Url
      → Result (SubmitBatchOutcome Url) × FrontierState Url
      → Type 0
  Serves entries o st p = (o' : SubmitBatchOutcome Url) → p.0 ≡ ok o' → Served entries o st o' p.1

  -- One round, from the rounds behind it.
  round-Serves :
      (now shard : ℕ) (id host : Text) (entry : UrlEntry Url) (entries : List (UrlEntry Url))
      (o : SubmitBatchOutcome Url) (st : FrontierState Url) (ss : ShardState Url)
      (p : Result (SubmitBatchOutcome Url) × FrontierState Url)
      → locate api f entry ≡ ok (shard, id, host)
      → Map.get shard st.shards ≡ some ss
      → let (item, ss') = batch_shard now (max_urls_for f.crawl_scope host) id host entry ss in
        Serves entries (tally api f item entry o) (set_shard shard ss' st) p
        → Serves (entry ∷ entries) o st p
  round-Serves now shard id host entry entries o st ss p at found rest o' e =
      let cap = max_urls_for f.crawl_scope host in
      let q = batch_shard now cap id host entry ss in
      let behind = rest o' e in
      let seen = seen-batch_shard now cap id host entry ss in
      (
        (
          elim seen.0 [
            | inl full ↦ inr (
                behind.2 entry (
                  subst (λ i. IsIn entry (tally api f i entry o).rejected_urls) (sym full)
                    (tally-rejected entry o)))
            | inr here ↦ inl (behind.1 entry ((shard, id, host), q.1, at, here_now q.1, here))
          ],
          behind.0,
        ),
        λ x h. behind.1 x (set_shard-IsKnown shard ss q.1 st x found seen.1 h),
        λ x h. behind.2 x (rejected-tally q.0 entry x o h),
      )
    where
      here_now : (ss' : ShardState Url) → Map.get shard (set_shard shard ss' st).shards ≡ some ss'
      here_now ss' =
          unfold set_shard in rw (Map.get-insert shard shard ss' st.shards) (rw (==_refl shard))

  nothing-Serves : (o : SubmitBatchOutcome Url) (st : FrontierState Url) → Serves [] o st (ok o, st)
  nothing-Serves o st o' e =
      (tt, λ x h. h, λ x h. subst (λ k. IsIn x k.rejected_urls) (ap outcome_or e) h)
    where
      outcome_or : Result (SubmitBatchOutcome Url) → SubmitBatchOutcome Url
      outcome_or (ok k) = k
      outcome_or (err x) = o
      outcome_or panic = o

  -- The loop at an entry, by where the entry belongs.
  loop_at :
      (now : ℕ) (entry : UrlEntry Url) (entries : List (UrlEntry Url)) (o : SubmitBatchOutcome Url)
      (st : FrontierState Url) (shard : ℕ) (id host : Text) (ss : ShardState Url)
      → locate api f entry ≡ ok (shard, id, host)
      → Map.get shard st.shards ≡ some ss
      → batch_loop api f now (entry ∷ entries) o st ≡ (
          let (item, ss') = batch_shard now (max_urls_for f.crawl_scope host) id host entry ss in
          batch_loop api f now entries (tally api f item entry o) (set_shard shard ss' st))
  unfolding batch_loop
  loop_at now entry entries o st shard id host ss at found = rw (at, batch_loop) (rw found refl)

  loop_lost :
      (now : ℕ) (entry : UrlEntry Url) (entries : List (UrlEntry Url)) (o : SubmitBatchOutcome Url)
      (st : FrontierState Url) (shard : ℕ) (id host : Text)
      → locate api f entry ≡ ok (shard, id, host)
      → Map.get shard st.shards ≡ none
      → batch_loop api f now (entry ∷ entries) o st ≡ (panic, st)
  unfolding batch_loop
  loop_lost now entry entries o st shard id host at gone = rw (at, batch_loop) (rw gone refl)

  -- The loop at an entry that belongs nowhere.
  loop_stops :
      (now : ℕ) (entry : UrlEntry Url) (entries : List (UrlEntry Url))
      (o o' : SubmitBatchOutcome Url) (st : FrontierState Url) (p : Result (ℕ × List ℕ × Text))
      → locate api f entry ≡ p
      → ((place : ℕ × List ℕ × Text) → p ≢ ok place)
      → (batch_loop api f now (entry ∷ entries) o st).0 ≢ ok o'
  unfolding batch_loop
  loop_stops now entry entries o o' st (ok place) at nowhere = λ e. nowhere place refl
  loop_stops now entry entries o o' st (err x) at nowhere =
      rw (at, batch_loop) (λ e. ground (arith, e))
  loop_stops now entry entries o o' st panic at nowhere =
      rw (at, batch_loop) (λ e. ground (arith, e))

  pub batch_loop-Serves :
      (now : ℕ) (entries : List (UrlEntry Url)) (o : SubmitBatchOutcome Url)
      (st : FrontierState Url)
      → Serves entries o st (batch_loop api f now entries o st)
  batch_loop-Serves now [] o st = unfold batch_loop in nothing-Serves o st
  batch_loop-Serves now (entry ∷ entries) o st = elim (Result-cases (locate api f entry)) [
    | inl ((shard, id, host), at) ↦ elim (Option-cases (Map.get shard st.shards)) [
      | inl gone ↦
          subst (Serves (entry ∷ entries) o st)
            (sym (loop_lost now entry entries o st shard id host at gone))
            (λ o' e. absurd (ground (arith, e)))
      | inr (ss, found) ↦
          subst (Serves (entry ∷ entries) o st)
            (sym (loop_at now entry entries o st shard id host ss at found))
            (let b = batch_shard now (max_urls_for f.crawl_scope host) id host entry ss in
              let o1 = tally api f b.0 entry o in
              let st1 = set_shard shard b.1 st in
              round-Serves now shard id host entry entries o st ss
                (batch_loop api f now entries o1 st1) at found
                (batch_loop-Serves now entries o1 st1))
    ]
    | inr (inl (x, at)) ↦ λ o' e.
        absurd (loop_stops now entry entries o o' st (err x) at (λ k h. ground (arith, h)) e)
    | inr (inr at) ↦
        λ o' e. absurd (loop_stops now entry entries o o' st panic at (λ k h. ground (arith, h)) e)
  ]

  -- A batch with an entry that belongs nowhere never ends well.
  pub batch_loop_stuck :
      (now : ℕ) (entries : List (UrlEntry Url)) (x : UrlEntry Url) (y : Error)
      (o o' : SubmitBatchOutcome Url) (st : FrontierState Url)
      → IsIn x entries
      → locate api f x ≡ err y
      → (batch_loop api f now entries o st).0 ≢ ok o'
  batch_loop_stuck now [] x y o o' st here at = absurd here
  batch_loop_stuck now (entry ∷ entries) x y o o' st (inl same) at =
      loop_stops now entry entries o o' st (err y) (ap (locate api f) same ∙ at)
        (λ k h. ground (arith, h))
  batch_loop_stuck now (entry ∷ entries) x y o o' st (inr later) at =
      elim (Result-cases (locate api f entry)) [
        | inl ((shard, id, host), found) ↦ elim (Option-cases (Map.get shard st.shards)) [
          | inl gone ↦ λ e.
              let p = ap (λ q. q.0) (loop_lost now entry entries o st shard id host found gone) in
              ground (arith, p, e)
          | inr (ss, got) ↦ λ e.
              let b = batch_shard now (max_urls_for f.crawl_scope host) id host entry ss in
              batch_loop_stuck now entries x y (tally api f b.0 entry o) o' (set_shard shard b.1 st)
                later at
                (sym (ap (λ q. q.0) (loop_at now entry entries o st shard id host ss found got))
                  ∙ e)
        ]
        | inr (inl (z, found)) ↦
            loop_stops now entry entries o o' st (err z) found (λ k h. ground (arith, h))
        | inr (inr found) ↦
            loop_stops now entry entries o o' st panic found (λ k h. ground (arith, h))
      ]
