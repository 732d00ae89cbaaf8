-- ===== src/Runtime/PublisherExamples.antt =====
-- crates/crawlrs-runtime/src/outbox.rs: the theorems about the publisher at concrete inputs. A URL is
-- a number on the host "a"; the host has room for one URL.
use crawlrs.Prelude.{
  ℕ, suc, ◌≡◌, ◌≢◌, refl, List, [], ◌∷◌, none, some, inl, inr, All, false, list_eq, nat_eq,
}
use crawlrs.Prelude.Map
use crawlrs.Core.Error.{Text, ok, err, shard_not_owned}
use crawlrs.Core.Sharding.{single_shard}
use crawlrs.Core.Scope.{max_urls_for}
use crawlrs.Fakes.Examples.{api, entry}
use crawlrs.Fakes.Shard
use crawlrs.Fakes.Frontier
use crawlrs.Fakes.Frontier.{InMemoryFrontier, new_state, locate}
use crawlrs.Fakes.Ledger
use crawlrs.Fakes.Ledger.{empty_ledger}
use crawlrs.Fakes.Outbox
use crawlrs.Fakes.Outbox.{OutboxEntry, OutboxState, lease_batch}
use crawlrs.Runtime.Publisher
use crawlrs.Runtime.Publisher.{Sinks, publish_one_batch}
use crawlrs.Runtime.Shipping.{IsIn}
use crawlrs.Runtime.Published.{IsAccounted, publish-IsAccounted, publish_stuck}

abbrev owner_of : List ℕ → InMemoryFrontier ℕ
owner_of shards = record {
  sharding_policy = single_shard;
  owned_shards = shards;
  lease_timeout_ms = 100;
  crawl_scope = record { max_depth = none; max_urls = some 1; per_domain = [] };
  anchor_instant = 0;
  anchor_clock_ms = 0;
}

abbrev run_r : Text
run_r = b'r' ∷ []

abbrev two_rows : OutboxState ℕ
two_rows = record {
  rows =
      record { id = 1; entry = entry 8; published = false }
      ∷ record { id = 2; entry = entry 9; published = false }
      ∷ [];
  next_id = 2;
  dedupe = [];
  leased = [];
}

abbrev sinks_of : List ℕ → Sinks ℕ
sinks_of shards = record { frontier_state = new_state shards; ledger = empty_ledger }

shipped_two :
    (publish_one_batch api (owner_of (0 ∷ [])) run_r 5 10 two_rows (sinks_of (0 ∷ []))).0 ≡ ok 2
unfolding publish_one_batch Publisher.ship Publisher.on_submitted Ledger.publish Ledger.settle
    lease_batch Outbox.open_entries Frontier.submit_batch Frontier.batch_loop locate
    Frontier.assert_owned Frontier.new_state Frontier.insert_shards Frontier.set_shard
    Shard.batch_shard Shard.at_quota Map.get Map.insert single_shard max_urls_for Frontier.tally
    Outbox.is_open
shipped_two = refl

publish-IsAccounted_example :
    All
      (IsAccounted api
        (owner_of (0 ∷ []))
        (publish_one_batch api (owner_of (0 ∷ [])) run_r 5 10 two_rows (sinks_of (0 ∷ []))).2)
      (lease_batch 10 two_rows).0
publish-IsAccounted_example =
    publish-IsAccounted api (owner_of (0 ∷ [])) 5 10 1 run_r two_rows (sinks_of (0 ∷ []))
      shipped_two

abbrev row_9 : OutboxEntry ℕ
row_9 = record { id = 2; entry = entry 9 }

leased_9 : IsIn row_9 (lease_batch 10 two_rows).0
unfolding lease_batch Outbox.open_entries Outbox.is_open
leased_9 = inr (inl refl)

misplaced_9 : locate api (owner_of (1 ∷ [])) (entry 9) ≡ err (shard_not_owned 0 (1 ∷ []))
unfolding locate Frontier.assert_owned single_shard
misplaced_9 = refl

publish_stuck_example :
    let o = publish_one_batch api (owner_of (1 ∷ [])) run_r 5 10 two_rows (sinks_of (1 ∷ [])) in
    ((n : ℕ) → o.0 ≢ ok (suc n)) × (o.1.rows ≡ two_rows.rows)
publish_stuck_example =
    publish_stuck api (owner_of (1 ∷ [])) 5 10 run_r two_rows (sinks_of (1 ∷ [])) row_9
      (shard_not_owned 0 (1 ∷ [])) leased_9 misplaced_9
