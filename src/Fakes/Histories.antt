-- ===== src/Fakes/Histories.antt =====
-- crates/crawlrs-fakes/src/frontier.rs: histories of calls on `InMemoryFrontier`.
use crawlrs.Prelude.{ℕ, ◌≡◌, refl, List, [], ◌∷◌, some, nat_eq, arith}
use crawlrs.Prelude.Map
use crawlrs.Prelude.Map.{Map}
use crawlrs.Core.Error.{Text, ok}
use crawlrs.Core.Types.{UrlApi, UrlEntry}
use crawlrs.Core.Scope.{CrawlScope}
use crawlrs.Fakes.Shard.{ShardState, empty_shard, queue_of}
use crawlrs.Fakes.Attempt.{decode_attempt}
use crawlrs.Fakes.Accounting.{Accounted, pending, submit-Accounted, batch-Accounted}
use crawlrs.Fakes.Delivery.{claim-Accounted, advance_wake-Accounted, ack-Accounted, tick-Accounted}
use crawlrs.Fakes.Liveness.{
  Scheduled, submit-Scheduled, batch-Scheduled, claim-Scheduled, advance_wake-Scheduled,
  ack-Scheduled, tick-Scheduled,
}
use crawlrs.Fakes.Exclusion.{
  ReadyOnce, submit-ReadyOnce, batch-ReadyOnce, claim-ReadyOnce, advance_wake-ReadyOnce,
  ack-ReadyOnce, tick-ReadyOnce,
}
use crawlrs.Fakes.Frontier.{
  InMemoryFrontier, FrontierState, insert_shards, new_state, submit, submit_batch, claim,
  advance_wake, ack, tick,
}
use crawlrs.Fakes.Lift
use crawlrs.Fakes.Lift.{
  AllShards, Kept, get-AllShards, insert-AllShards, submit_keeps, submit_batch_keeps, claim_keeps,
  advance_wake_keeps, ack_keeps,
}

-- No URL is lost or doubled, no host is forgotten, and no host is ready twice.
pub record Sound {Url : Type 0} (s : ShardState Url) : Type 0 where
  pub accounted : Accounted s
  pub scheduled : Scheduled s
  pub ready_once : ReadyOnce s

module _ {Url : Type 0} where
  pub Sound-Kept : (scope : CrawlScope) → Kept {Url = Url} scope Sound
  Sound-Kept scope = record {
    submits = λ now id host entry s h. record {
      accounted = submit-Accounted now id host entry s h.accounted;
      scheduled = submit-Scheduled now id host entry s h.scheduled;
      ready_once = submit-ReadyOnce now id host entry s h.ready_once;
    };
    batches = λ now id host entry s h. record {
      accounted = batch-Accounted now _ id host entry s h.accounted;
      scheduled = batch-Scheduled now _ id host entry s h.scheduled;
      ready_once = batch-ReadyOnce now _ id host entry s h.ready_once;
    };
    claims = λ now timeout s h. record {
      accounted = claim-Accounted now timeout s h.accounted;
      scheduled = claim-Scheduled now timeout s h.accounted h.scheduled;
      ready_once = claim-ReadyOnce now timeout s h.ready_once;
    };
    advances = λ host until s h. record {
      accounted = advance_wake-Accounted host until s h.accounted;
      scheduled = advance_wake-Scheduled host until s h.scheduled;
      ready_once = advance_wake-ReadyOnce host until s h.ready_once;
    };
    ticks = λ now n s h. record {
      accounted = tick-Accounted now n s h.accounted;
      scheduled = tick-Scheduled now n s h.scheduled;
      ready_once = tick-ReadyOnce now n s h.ready_once;
    };
  }

  pub empty-Sound : Sound (empty_shard {Url = Url})
  empty-Sound = record {
    accounted = record {
      balanced = λ id. unfold pending Map.total Map.get in refl;
      known = λ id e. unfold Map.get in (cc);
    };
    scheduled = record { host_scheduled = λ host w. absurd (w (unfold queue_of Map.get in refl)) };
    ready_once = record {
      once = λ host. omega arith;
      wake_distinct = λ k. unfold Map.entries in (omega arith);
      inflight_distinct = λ k. unfold Map.entries in (omega arith);
    };
  }

  insert_shards-Sound :
      (owned : List ℕ) (m : Map ℕ (ShardState Url))
      → AllShards Sound m
      → AllShards Sound (insert_shards owned m)
  unfolding insert_shards
  insert_shards-Sound [] m h = h
  insert_shards-Sound (shard ∷ rest) m h =
      insert_shards-Sound rest (Map.insert shard empty_shard m)
        (insert-AllShards Sound shard empty_shard m empty-Sound h)

pub new_state-Sound :
    (Url : Type 0) (owned : List ℕ) → AllShards Sound (new_state {Url = Url} owned).shards
unfolding new_state
new_state-Sound Url owned = insert_shards-Sound owned [] tt

-- A call on the frontier, at the time that the clock shows.
pub data Call (Url : Type 0) : Type 0 where
  submits : ℕ → UrlEntry Url → Call Url
  submits_batch : ℕ → List (UrlEntry Url) → Call Url
  claims : ℕ → Call Url
  advances : Text → ℕ → Call Url
  acks : Text → Call Url
  ticks : ℕ → Call Url

-- An ack is timely if the URL has not been put back into a queue: its lease was not reclaimed.
abbrev pub IsTimely : {Url : Type 0} → Call Url → FrontierState Url → Type 0
IsTimely {Url} (acks attempt) st =
    (shard : ℕ) (id : List ℕ) (s : ShardState Url)
    → decode_attempt attempt ≡ ok (shard, id)
    → Map.get shard st.shards ≡ some s
    → pending id s ≡ 0
IsTimely _ st = Unit

module _ {Url : Type 0} (api : UrlApi Url) (f : InMemoryFrontier Url) where
  unfoldable pub after : Call Url → FrontierState Url → FrontierState Url
  after (submits now entry) st = (submit api f now entry st).1
  after (submits_batch now entries) st = (submit_batch api f now entries st).1
  after (claims now) st = (claim api f now st).1
  after (advances host until) st = (advance_wake host until st).1
  after (acks attempt) st = (ack attempt st).1
  after (ticks now) st = (tick now st).1

  unfoldable pub run : List (Call Url) → FrontierState Url → FrontierState Url
  unfolding after
  run [] st = st
  run (c ∷ cs) st = run cs (after c st)

  abbrev pub AllTimely : List (Call Url) → FrontierState Url → Type 0
  AllTimely [] st = Unit
  AllTimely (c ∷ cs) st = IsTimely c st × AllTimely cs (after c st)

  after-Sound :
      (c : Call Url) (st : FrontierState Url)
      → IsTimely c st
      → AllShards Sound st.shards
      → AllShards Sound (after c st).shards
  unfolding after
  after-Sound (submits now entry) st t h =
      submit_keeps api f Sound (Sound-Kept f.crawl_scope) now entry st h
  after-Sound (submits_batch now entries) st t h =
      submit_batch_keeps api f Sound (Sound-Kept f.crawl_scope) now entries st h
  after-Sound (claims now) st t h = claim_keeps api f Sound (Sound-Kept f.crawl_scope) now st h
  after-Sound (advances host until) st t h =
      advance_wake_keeps api f Sound (Sound-Kept f.crawl_scope) host until st h
  after-Sound (acks attempt) st t h =
      ack_keeps api f Sound (Sound-Kept f.crawl_scope) attempt st
        (λ shard id s e found k. record {
          accounted = ack-Accounted id s k.accounted (t shard id s e found);
          scheduled = ack-Scheduled id s k.scheduled;
          ready_once = ack-ReadyOnce id s k.ready_once;
        })
        h
  after-Sound (ticks now) st t h = Lift.tick_keeps api f Sound (Sound-Kept f.crawl_scope) now st h

  run_keeps :
      (cs : List (Call Url)) (st : FrontierState Url)
      → AllTimely cs st
      → AllShards Sound st.shards
      → AllShards Sound (run cs st).shards
  unfolding run
  run_keeps [] st t h = h
  run_keeps (c ∷ cs) st t h = run_keeps cs (after c st) t.1 (after-Sound c st t.0 h)

  -- After any history of calls on a new frontier, at any times, in which no ack comes after its
  -- lease was reclaimed, every shard is sound: each URL whose payload is kept is either once in a
  -- queue or leased; every host with a queued URL is ready or has a wake-time; and no host is
  -- ready twice.
  pub run-Sound :
      (cs : List (Call Url))
      → AllTimely cs (new_state f.owned_shards)
      → AllShards Sound (run cs (new_state f.owned_shards)).shards
  run-Sound cs t = run_keeps cs (new_state f.owned_shards) t (new_state-Sound Url f.owned_shards)
