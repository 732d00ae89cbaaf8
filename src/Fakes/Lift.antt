-- ===== src/Fakes/Lift.antt =====
-- crates/crawlrs-fakes/src/frontier.rs: what the operations keep of one shard, the methods of the
-- frontier keep of every shard.
use crawlrs.Prelude.{
  ℕ, zero, suc, ◌+◌, ◌%◌, ◌≡◌, List, [], ◌∷◌, Option, none, some, eqb, inl, inr, subst, length,
  get_elem?, All, Bool-cases, Option-cases, nat_eq, arith,
}
use crawlrs.Prelude.Map
use crawlrs.Prelude.Map.{Map}
use crawlrs.Core.Error.{Text, ok, Result-cases}
use crawlrs.Core.Types.{UrlApi, UrlEntry, SubmitBatchOutcome}
use crawlrs.Core.Scope.{CrawlScope, max_urls_for}
use crawlrs.Fakes.Shard.{
  ShardState, submit_shard, batch_shard, pop_one_ready, advance_wake_shard, ack_shard, tick_shard,
}
use crawlrs.Fakes.Attempt.{decode_attempt}
use crawlrs.Fakes.Frontier.{
  InMemoryFrontier, FrontierState, locate, set_shard, submit, tally, batch_loop, submit_batch,
  soonest, claim_loop, claim, advance_all, advance_wake, ack, tick_loop, tick,
}

module _ {Url : Type 0} (P : ShardState Url → Type 0) where
  abbrev pub AllShards : Map ℕ (ShardState Url) → Type 0
  AllShards = All (λ e. P e.1)

  pub get-AllShards :
      (k : ℕ) (m : Map ℕ (ShardState Url)) {ss : ShardState Url}
      → AllShards m
      → Map.get k m ≡ some ss
      → P ss
  unfolding Map.get
  get-AllShards k [] {ss} h e = cc
  get-AllShards k ((j, s) ∷ m) {ss} h e = elim (Bool-cases (eqb j k)) [
    | inl same ↦ let q : s ≡ ss = ground arith in subst P q h.0
    | inr ne ↦ get-AllShards k m h.1 (ground arith)
  ]

  pub insert-AllShards :
      (k : ℕ) (ss : ShardState Url) (m : Map ℕ (ShardState Url))
      → P ss
      → AllShards m
      → AllShards (Map.insert k ss m)
  unfolding Map.insert
  insert-AllShards k ss [] p h = (p, tt)
  insert-AllShards k ss ((j, s) ∷ m) p h = elim (Bool-cases (eqb j k)) [
    | inl same ↦ rw same (p, h.1)
    | inr ne ↦ rw ne (h.0, insert-AllShards k ss m p h.1)
  ]

-- What the methods need of an invariant of shards, under the crawl scope of the frontier.
pub record Kept {Url : Type 0} (scope : CrawlScope) (P : ShardState Url → Type 0) : Type 0 where
  pub submits :
      (now : ℕ) (id host : Text) (entry : UrlEntry Url) (s : ShardState Url)
      → P s
      → P (submit_shard now id host entry s).1
  pub batches :
      (now : ℕ) (id host : Text) (entry : UrlEntry Url) (s : ShardState Url)
      → P s
      → P (batch_shard now (max_urls_for scope host) id host entry s).1
  pub claims : (now timeout : ℕ) (s : ShardState Url) → P s → P (pop_one_ready now timeout s).1
  pub advances :
      (host : Text) (until : ℕ) (s : ShardState Url) → P s → P (advance_wake_shard host until s)
  pub ticks : (now n : ℕ) (s : ShardState Url) → P s → P (tick_shard now n s).1

module _ {Url : Type 0} (api : UrlApi Url) (f : InMemoryFrontier Url) (P : ShardState Url → Type 0)
    (keep : Kept f.crawl_scope P) where
  pub submit_keeps :
      (now : ℕ) (entry : UrlEntry Url) (st : FrontierState Url)
      → AllShards P st.shards
      → AllShards P (submit api f now entry st).1.shards
  unfolding submit set_shard
  submit_keeps now entry st h = elim (Result-cases (locate api f entry)) [
    | inl ((shard, url_id, host), e) ↦
        rw (e, submit)
          (elim (Option-cases (Map.get shard st.shards)) [
            | inl absent ↦ rw absent h
            | inr (ss, found) ↦ rw found (
                insert-AllShards P shard (submit_shard now url_id host entry ss).1 st.shards
                  (keep.submits now url_id host entry ss (get-AllShards P shard st.shards h found))
                  h)
          ])
    | inr (inl (x, e)) ↦ rw (e, submit) h
    | inr (inr e) ↦ rw (e, submit) h
  ]

  batch_loop_keeps :
      (now : ℕ) (entries : List (UrlEntry Url)) (o : SubmitBatchOutcome Url)
      (st : FrontierState Url)
      → AllShards P st.shards
      → AllShards P (batch_loop api f now entries o st).1.shards
  unfolding batch_loop set_shard
  batch_loop_keeps now [] o st h = h
  batch_loop_keeps now (entry ∷ entries) o st h = elim (Result-cases (locate api f entry)) [
    | inl ((shard, url_id, host), e) ↦
        rw (e, batch_loop)
          (elim (Option-cases (Map.get shard st.shards)) [
            | inl absent ↦ rw (absent, batch_loop) h
            | inr (ss, found) ↦
                let r = batch_shard now (max_urls_for f.crawl_scope host) url_id host entry ss in
                rw (found, batch_loop)
                  (batch_loop_keeps now entries (tally api f r.0 entry o) (set_shard shard r.1 st) (
                    insert-AllShards P shard r.1 st.shards
                      (keep.batches now url_id host entry ss
                        (get-AllShards P shard st.shards h found))
                      h))
          ])
    | inr (inl (x, e)) ↦ rw (e, batch_loop) h
    | inr (inr e) ↦ rw (e, batch_loop) h
  ]

  pub submit_batch_keeps :
      (now : ℕ) (entries : List (UrlEntry Url)) (st : FrontierState Url)
      → AllShards P st.shards
      → AllShards P (submit_batch api f now entries st).1.shards
  unfolding submit_batch
  submit_batch_keeps now entries st h = batch_loop_keeps now entries _ st h

  claim_loop_keeps :
      (now start left offset : ℕ) (w : Option ℕ) (st : FrontierState Url)
      → AllShards P st.shards
      → AllShards P (claim_loop api f now start left offset w st).1.shards
  unfolding claim_loop set_shard
  claim_loop_keeps now start zero offset w st h = h
  claim_loop_keeps now start (suc left) offset w st h =
      elim (Option-cases (get_elem? f.owned_shards ((start + offset) % length f.owned_shards))) [
        | inl outside ↦ rw (outside, claim_loop) h
        | inr (shard, e) ↦
            rw (e, claim_loop)
              (elim (Option-cases (Map.get shard st.shards)) [
                | inl absent ↦
                    rw (absent, claim_loop) (claim_loop_keeps now start left (offset + 1) w st h)
                | inr (ss, found) ↦
                    let t = (pop_one_ready now f.lease_timeout_ms ss).1 in
                    let h' =
                      insert-AllShards P shard t st.shards
                        (keep.claims now f.lease_timeout_ms ss
                          (get-AllShards P shard st.shards h found))
                        h in
                    rw (found, claim_loop)
                      (elim (Result-cases (pop_one_ready now f.lease_timeout_ms ss).0) [
                        | inl (none, r) ↦
                            rw (r, claim_loop)
                              (claim_loop_keeps now start left (offset + 1) (soonest api f t.wake w)
                                (set_shard shard t st) h')
                        | inl (some (url_id, entry, host), r) ↦ rw (r, claim_loop) h'
                        | inr (inl (x, r)) ↦ rw (r, claim_loop) h'
                        | inr (inr r) ↦ rw (r, claim_loop) h'
                      ])
              ])
      ]

  pub claim_keeps :
      (now : ℕ) (st : FrontierState Url)
      → AllShards P st.shards
      → AllShards P (claim api f now st).1.shards
  unfolding claim
  claim_keeps now st h = elim (Bool-cases (eqb (length f.owned_shards) 0)) [
    | inl idle ↦ rw idle h
    | inr busy ↦ rw busy (claim_loop_keeps now _ (length f.owned_shards) 0 none _ h)
  ]

  advance_all_keeps :
      (host : Text) (until : ℕ) (m : Map ℕ (ShardState Url))
      → AllShards P m
      → AllShards P (advance_all host until m)
  unfolding advance_all
  advance_all_keeps host until [] h = h
  advance_all_keeps host until ((shard, ss) ∷ m) h =
      (keep.advances host until ss h.0, advance_all_keeps host until m h.1)

  pub advance_wake_keeps :
      (host : Text) (until : ℕ) (st : FrontierState Url)
      → AllShards P st.shards
      → AllShards P (advance_wake host until st).1.shards
  unfolding advance_wake
  advance_wake_keeps host until st h = advance_all_keeps host until st.shards h

  tick_loop_keeps :
      (now n : ℕ) (m : Map ℕ (ShardState Url)) → AllShards P m → AllShards P (tick_loop now n m).1
  unfolding tick_loop
  tick_loop_keeps now n [] h = h
  tick_loop_keeps now n ((shard, ss) ∷ m) h =
      let p = keep.ticks now n ss h.0 in
      elim (Result-cases (tick_shard now n ss).0) [
        | inl (k, r) ↦ rw (r, tick_loop) (p, tick_loop_keeps now k m h.1)
        | inr (inl (x, r)) ↦ rw (r, tick_loop) (p, h.1)
        | inr (inr r) ↦ rw (r, tick_loop) (p, h.1)
      ]

  pub tick_keeps :
      (now : ℕ) (st : FrontierState Url)
      → AllShards P st.shards
      → AllShards P (tick now st).1.shards
  unfolding tick
  tick_keeps now st h = tick_loop_keeps now 0 st.shards h

  -- An ack acts on one shard.
  pub ack_keeps :
      (attempt : Text) (st : FrontierState Url)
      → ((shard : ℕ) (id : List ℕ) (ss : ShardState Url)
          → decode_attempt attempt ≡ ok (shard, id)
          → Map.get shard st.shards ≡ some ss
          → P ss
          → P (ack_shard id ss))
      → AllShards P st.shards
      → AllShards P (ack attempt st).1.shards
  unfolding ack set_shard
  ack_keeps attempt st acks h = elim (Result-cases (decode_attempt attempt)) [
    | inl ((shard, id), e) ↦
        rw (e, ack)
          (elim (Option-cases (Map.get shard st.shards)) [
            | inl absent ↦ rw absent h
            | inr (ss, found) ↦ rw found (
                insert-AllShards P shard (ack_shard id ss) st.shards
                  (acks shard id ss e found (get-AllShards P shard st.shards h found)) h)
          ])
    | inr (inl (x, e)) ↦ rw (e, ack) h
    | inr (inr e) ↦ rw (e, ack) h
  ]
