-- ===== src/Fakes/Examples.antt =====
-- crates/crawlrs-fakes/tests/frontier.rs: the theorems about the in-memory frontier at concrete
-- inputs. A URL is a number here, on the host "a", and its digest is its own text.
use crawlrs.Prelude.{
  ◌≤◌, contains, ℕ, ◌+◌, ◌≤◌, ◌≡◌, refl, false, List, [], ◌∷◌, ◌++◌, none, some, arith, list_eq,
  nat_eq, if◌then◌else◌, All,
}
use crawlrs.Prelude.Map
use crawlrs.Prelude.Map.{Map}
use crawlrs.Core.Error.{Text, ok}
use crawlrs.Core.Types.{UrlApi, UrlEntry, ClaimOutcome}
use crawlrs.Core.Sharding.{single_shard}
use crawlrs.Core.UrlId.{IsByte}
use crawlrs.Fakes.Shard.{
  advance_wake_shard, reclaim_url, ShardState, InflightSlot, empty_shard, submit_shard,
  pop_one_ready, tick_shard, ack_shard, saturating_add, queue_of, lease_url, due_hosts, promote_all,
  reclaim_all, expired_leases,
}
use crawlrs.Fakes.Attempt.{decode_attempt}
use crawlrs.Fakes.Accounting.{Accounted, pending, leased, submit-Accounted}
use crawlrs.Fakes.Delivery.{claim_once, claim-Accounted, tick-Accounted}
use crawlrs.Fakes.Liveness.{Scheduled, submit-Scheduled}
use crawlrs.Fakes.Progress.{HandsOut, due_time, due_host_served}
use crawlrs.Fakes.Exclusion.{ReadyOnce, submit-ReadyOnce, tick-ReadyOnce, claim-ReadyOnce}
use crawlrs.Fakes.Reservation.{Reserved, claim_reserves}
use crawlrs.Fakes.Reserved.{
  Event, sent, sent_in_batch, acked, ticked, polled, advanced, AllEarly, happens, host_handed,
  hosts_handed, claimed_host_rests,
}
use crawlrs.Fakes.Reclaim.{affected, has_expired, tick_reclaims, late_ack}
use crawlrs.Fakes.Frontier.{InMemoryFrontier, claim, new_state, insert_shards}
use crawlrs.Fakes.Lift.{AllShards}
use crawlrs.Fakes.Totality.{claim_total}
use crawlrs.Fakes.Admission.{admitted, batches_within_quota}
use crawlrs.Core.Scope.{CrawlScope, max_urls_for}
use crawlrs.Fakes.Histories.{Sound, Call, submits, claims, ticks, acks, run, run-Sound, empty-Sound}

abbrev pub host_a : Text
host_a = b'a' ∷ []

abbrev pub api : UrlApi ℕ
api = record {
  as_str = λ u. u ∷ [];
  host = λ u. some host_a;
  scheme = λ u. b'h' ∷ [];
  path = λ u. b'/' ∷ [];
  blake3 = λ t. t ++ 0 ∷ 1 ∷ 2 ∷ 3 ∷ 4 ∷ 5 ∷ 6 ∷ 7 ∷ 8 ∷ 9 ∷ 10 ∷ 11 ∷ 12 ∷ 13 ∷ 14 ∷ 15 ∷ [];
}

abbrev pub entry : ℕ → UrlEntry ℕ
entry u = record { url = u; depth = 0; discovered_from = none }

abbrev id_7 : Text
id_7 = 7 ∷ []

-- One URL submitted, then promoted, then claimed with a lease of 100.
abbrev submitted : ShardState ℕ
submitted = (submit_shard 5 id_7 host_a (entry 7) empty_shard).1

abbrev promoted : ShardState ℕ
promoted = (tick_shard 10 0 submitted).1

abbrev claimed_shard : ShardState ℕ
claimed_shard = (pop_one_ready 10 100 promoted).1

submitted-Accounted : Accounted submitted
submitted-Accounted = submit-Accounted 5 id_7 host_a (entry 7) empty_shard empty-Sound.accounted

submitted-ReadyOnce : ReadyOnce submitted
submitted-ReadyOnce = submit-ReadyOnce 5 id_7 host_a (entry 7) empty_shard empty-Sound.ready_once

submitted-Scheduled : Scheduled submitted
submitted-Scheduled = submit-Scheduled 5 id_7 host_a (entry 7) empty_shard empty-Sound.scheduled

promoted-Accounted : Accounted promoted
promoted-Accounted = tick-Accounted 10 0 submitted submitted-Accounted

promoted-ReadyOnce : ReadyOnce promoted
promoted-ReadyOnce = tick-ReadyOnce 10 0 submitted submitted-ReadyOnce

submitted_due : due_time host_a submitted ≤ 10
unfolding submit_shard Map.get Map.insert
submitted_due = omega arith

due_host_served_example : HandsOut (pop_one_ready 11 100 (tick_shard 10 0 submitted).1).0
unfolding submit_shard queue_of Map.get Map.insert
due_host_served_example =
    due_host_served host_a 10 0 11 100 submitted submitted-Accounted submitted-Scheduled (λ e. cc)
      (omega arith)

promoted_claim : (pop_one_ready 10 100 promoted).0 ≡ ok (some (id_7, entry 7, host_a))
unfolding submit_shard tick_shard due_hosts promote_all expired_leases reclaim_all pop_one_ready
    lease_url Map.get Map.insert Map.remove
promoted_claim = refl

claim_once_example :
    (leased id_7 promoted ≡ 0)
    × (pending id_7 promoted ≡ 1)
    × (leased id_7 claimed_shard ≡ 1)
    × (pending id_7 claimed_shard ≡ 0)
claim_once_example =
    claim_once 10 100 promoted id_7 host_a (entry 7) promoted-Accounted promoted_claim

claim_reserves_example : Reserved host_a (saturating_add 10 100) claimed_shard
claim_reserves_example =
    claim_reserves 10 100 promoted id_7 host_a (entry 7) promoted-Accounted promoted-ReadyOnce
      promoted_claim

tick_reclaims_example :
    ((tick_shard 10 0 submitted).0 ≡ ok (0 + affected 10 submitted))
    × ((j : Text)
        → Map.contains_key j (tick_shard 10 0 submitted).1.inflight ≡ (
            if has_expired 10 (Map.get j submitted.inflight)
            then false
            else Map.contains_key j submitted.inflight))
tick_reclaims_example = tick_reclaims 10 0 submitted submitted-ReadyOnce

claimed-Accounted : Accounted claimed_shard
claimed-Accounted = claim-Accounted 10 100 promoted promoted-Accounted

claimed-ReadyOnce : ReadyOnce claimed_shard
claimed-ReadyOnce = claim-ReadyOnce 10 100 promoted promoted-ReadyOnce

abbrev slot_7 : InflightSlot
slot_7 = record { host = host_a; lease_expiry_ms = 110 }

slot_held : Map.get id_7 claimed_shard.inflight ≡ some slot_7
unfolding submit_shard tick_shard due_hosts promote_all expired_leases reclaim_all pop_one_ready
    lease_url Map.get Map.insert Map.remove
slot_held = refl

late_ack_example :
    (pending id_7 (ack_shard id_7 (tick_shard 200 0 claimed_shard).1) ≡ 1)
    × (Map.get id_7 (ack_shard id_7 (tick_shard 200 0 claimed_shard).1).urls ≡ none)
late_ack_example =
    late_ack id_7 slot_7 200 0 claimed_shard claimed-Accounted claimed-ReadyOnce slot_held
      (omega arith)

-- A second URL of the host arrives while the first is claimed, and URLs of other hosts.
abbrev meanwhile : List (Event ℕ)
meanwhile =
    sent 15 (8 ∷ []) host_a (entry 8)
    ∷ sent 16 (9 ∷ []) (b'b' ∷ []) (entry 9)
    ∷ ticked 20 0
    ∷ polled 20 100
    ∷ advanced host_a 300
    ∷ ticked 250 0
    ∷ polled 250 100
    ∷ []

meanwhile_early : AllEarly host_a (saturating_add 10 100) meanwhile claimed_shard
meanwhile_early = (tt, (tt, (omega arith, (tt, (tt, (omega arith, (tt, tt)))))))

claimed_host_rests_example : contains (hosts_handed meanwhile claimed_shard) host_a ≡ false
claimed_host_rests_example =
    claimed_host_rests 10 100 promoted id_7 host_a (entry 7) meanwhile promoted-Accounted
      promoted-ReadyOnce promoted_claim meanwhile_early

-- The other host is served, and again after its lease.
others_served : hosts_handed meanwhile claimed_shard ≡ (b'b' ∷ []) ∷ (b'b' ∷ []) ∷ []
unfolding hosts_handed happens host_handed submit_shard tick_shard due_hosts promote_all
    expired_leases reclaim_all pop_one_ready lease_url Map.get Map.insert Map.remove
    advance_wake_shard reclaim_url
others_served = refl

abbrev sample : InMemoryFrontier ℕ
sample = record {
  sharding_policy = single_shard;
  owned_shards = 0 ∷ [];
  lease_timeout_ms = 100;
  crawl_scope = record { max_depth = none; max_urls = none; per_domain = [] };
  anchor_instant = 0;
  anchor_clock_ms = 0;
}

new-Accounted : AllShards {Url = ℕ} Accounted (new_state (0 ∷ [])).shards
unfolding new_state insert_shards Map.insert
new-Accounted = (empty-Sound.accounted, tt)

claim_total_example : (o : ClaimOutcome ℕ) × ((claim api sample 10 (new_state (0 ∷ []))).0 ≡ ok o)
claim_total_example = claim_total api sample 10 (new_state (0 ∷ [])) new-Accounted

abbrev calls : List (Call ℕ)
calls = submits 5 (entry 7) ∷ ticks 10 ∷ claims 10 ∷ acks (b'x' ∷ []) ∷ ticks 200 ∷ []

run-Sound_example : AllShards Sound (run api sample calls (new_state sample.owned_shards)).shards
unfolding decode_attempt
run-Sound_example =
    run-Sound api sample calls (tt, (tt, (tt, ((λ shard id s e found. cc), (tt, tt)))))

abbrev sixteen : Text
sixteen = 0 ∷ 1 ∷ 2 ∷ 3 ∷ 4 ∷ 5 ∷ 6 ∷ 7 ∷ 8 ∷ 9 ∷ 10 ∷ 11 ∷ 12 ∷ 13 ∷ 14 ∷ 255 ∷ []

sixteen_bytes : All IsByte sixteen
sixteen_bytes = ground arith

abbrev capped : CrawlScope
capped = record { max_depth = none; max_urls = some 1; per_domain = [] }

abbrev batches : List (Event ℕ)
batches =
    sent_in_batch 5 (some 1) id_7 host_a (entry 7)
    ∷ polled 6 100
    ∷ acked id_7
    ∷ sent_in_batch 7 (some 1) (8 ∷ []) host_a (entry 8)
    ∷ []

batches_within_quota_example : admitted capped host_a batches empty_shard ≤ 1
unfolding max_urls_for Map.get
batches_within_quota_example =
    batches_within_quota capped host_a 1 batches refl (refl, (tt, (tt, (refl, tt))))
