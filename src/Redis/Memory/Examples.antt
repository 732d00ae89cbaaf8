-- ===== src/Redis/Memory/Examples.antt =====
-- crates/crawlrs-frontier/tests: the theorems about the frontier on Redis at concrete inputs, on the
-- server in memory.
use crawlrs.Prelude.{
  ℕ, ◌+◌, ◌≤◌, ◌≡◌, refl, Bool, true, false, List, [], ◌∷◌, none, some, arith, list_eq, nat_eq,
  if◌then◌else◌, All, length, inr, ◌<◌, count, contains, map,
}
use crawlrs.Prelude.Map
use crawlrs.Core.Error.{Text, ok}
use crawlrs.Core.UrlId.{to_hex, to_hex-All}
use crawlrs.Fakes.Shard.{
  ShardState, empty_shard, submit_shard, promote_host, pop_one_ready, promote_all, pop_hosts,
  due_hosts, enqueue, push_back, lease_url,
}
use crawlrs.Redis.Api.{pos}
use crawlrs.Redis.Keys
use crawlrs.Redis.Keys.{KeyPrefix}
use crawlrs.Redis.Views.{Views}
use crawlrs.Redis.Scripts
use crawlrs.Redis.Memory.{memory, Memory, no_keys}
use crawlrs.Redis.SortedSet.{due_members}
use crawlrs.Redis.Histories.{
  Sound, fresh-Views, run-Refines, submits, claims, promotes, run, Command, submits_batch, advances,
  reclaims, acks, after, AllFit, IsFit,
}
use crawlrs.Redis.Batch.{arg, Flagged, batch_without, submit_batch-Refines}
use crawlrs.Redis.Claim.{Agrees, claim-Refines}
use crawlrs.Redis.Wake.{IsDue}
use crawlrs.Redis.Promotion.{promote-Ticks}
use crawlrs.Fakes.Exclusion.{submit-ReadyOnce}
use crawlrs.Fakes.Histories.{empty-Sound}
use crawlrs.Redis.Reclaim.{Reclaims, reclaim-Refines}
use crawlrs.Redis.Reply.{done, answered, unanswered, claimed, SubmitItem}
use crawlrs.Redis.Ops
use crawlrs.Redis.Attempt.{encode_attempt}
use crawlrs.Redis.Frontier
use crawlrs.Redis.Frontier.{RedisFrontier}
use crawlrs.Redis.Overlap.{ready_twice}
use crawlrs.Core.Decimal.{to_decimal}
use crawlrs.Redis.Submit.{cap_arg}
use crawlrs.Redis.Service.{claim-Answers, calls_keep, ack_of_claimed}
use crawlrs.Redis.Memory.Fixtures.{
  api, client, entry_1, frontier, host_a, host_a-IsAscii, id_1, id_1-IsUrlId, id_2, id_2-IsUrlId,
  item_1, item_1-IsEncoded, item_2, item_2-IsEncoded, keys, no_keys-IsFresh, postcard, queued_1,
  queued_1-Views, queued_shard, ready_1, ready_1-Views, ready_shard, ready_shard-Accounted,
}

claim-Refines_example :
    Agrees memory postcard keys 0 ready_shard (pop_one_ready 6 100 ready_shard) (
      Scripts.claim memory
        (Keys.ready keys 0)
        (Keys.wake keys 0)
        (Keys.inflight keys 0)
        (Keys.urls keys 0)
        (Keys.host_queue_prefix keys 0)
        6
        100
        ready_1)
claim-Refines_example =
    claim-Refines memory postcard keys 0 6 100 ready_shard ready_1 ready_shard-Accounted
      (ground arith) ready_1-Views

popped : (pop_one_ready 6 100 ready_shard).0 ≡ ok (some (to_hex id_1, entry_1, host_a))
unfolding pop_one_ready pop_hosts promote_host submit_shard enqueue push_back lease_url Map.get
    Map.insert Map.remove to_hex
popped = refl

claim-Answers_example :
    (Ops.claim memory client postcard keys none answered 0 6 100 ready_1).0
    ≡ done (claimed id_1 entry_1 host_a)
claim-Answers_example =
    claim-Answers memory client postcard keys 0 6 100 ready_shard ready_1 id_1 host_a entry_1
      ready_shard-Accounted (ground arith) ready_1-Views id_1-IsUrlId host_a-IsAscii popped

promote-Ticks_example :
    let o = Scripts.promote memory (Keys.wake keys 0) (Keys.ready keys 0) 6 10 queued_1 in
    (hosts : List Text) × (o.0 ≡ length hosts)
    × All (IsDue memory postcard keys 0 6 queued_shard) hosts
    × ((host : Text) → count host hosts ≤ 1)
    × ((host : Text)
        → length hosts < 10
        → IsDue memory postcard keys 0 6 queued_shard host
        → contains hosts host ≡ true)
    × ((host : Text)
        → length hosts < 10
        → contains queued_shard.ready host ≡ false
        → contains hosts host ≡ contains (due_hosts 6 queued_shard.ready queued_shard.wake) host)
    × Views postcard keys 0 (memory.obs o.1) (promote_all hosts queued_shard)
promote-Ticks_example =
    promote-Ticks memory postcard keys 0 6 10 queued_1 queued_shard queued_1-Views
      (submit-ReadyOnce 5 (to_hex id_1) host_a entry_1 empty_shard
        empty-Sound.ready_once).wake_distinct

abbrev leased_1 : Memory
leased_1 =
    (Scripts.claim memory (Keys.ready keys 0) (Keys.wake keys 0) (Keys.inflight keys 0)
      (Keys.urls keys 0) (Keys.host_queue_prefix keys 0) 6 100 ready_1).1

abbrev leased_shard : ShardState ℕ
leased_shard = (pop_one_ready 6 100 ready_shard).1

reclaim-Refines_example : Reclaims memory postcard keys 0 106 10 leased_shard (
    Scripts.reclaim memory
      (Keys.inflight keys 0)
      (Keys.wake keys 0)
      (Keys.host_queue_prefix keys 0)
      106
      10
      leased_1)
reclaim-Refines_example =
    reclaim-Refines memory postcard keys 0 106 10 leased_1 leased_shard claim-Refines_example.1

-- Two URLs of a host with room for one.
submit_batch-Refines_example :
    let items = item_1 ∷ item_2 ∷ [] in
    let o =
      Scripts.submit_batch memory
        (Keys.seen 0)
        (Keys.urls keys 0)
        (Keys.wake keys 0)
        5
        (map (arg memory postcard keys 0) items)
        no_keys in
    (flags : List Bool) × Flagged memory postcard keys 0 5 items flags (0, []) no_keys
    × (o.0 ≡ (batch_without memory postcard keys 0 5 items flags (0, []) empty_shard).0)
    × Views postcard keys 0
        (memory.obs o.1)
        (batch_without memory postcard keys 0 5 items flags (0, []) empty_shard).1
submit_batch-Refines_example =
    submit_batch-Refines memory postcard keys 0 5 (item_1 ∷ item_2 ∷ []) no_keys empty_shard
      (fresh-Views memory postcard keys 0 no_keys no_keys-IsFresh)
      (item_1-IsEncoded, (item_2-IsEncoded, tt))

abbrev history : List (Command ℕ)
history =
    submits 5 item_1
    ∷ submits_batch 5 (item_1 ∷ item_2 ∷ [])
    ∷ promotes 6 10
    ∷ claims 6 100
    ∷ advances host_a 50
    ∷ promotes 51 10
    ∷ reclaims 106 10
    ∷ []

history-AllFit : AllFit memory postcard keys 0 history no_keys
history-AllFit = (
  item_1-IsEncoded,
  ((item_1-IsEncoded, (item_2-IsEncoded, tt)), (tt, (ground arith, (tt, (tt, (tt, tt)))))),
)

run-Refines_example : Sound memory postcard keys 0 (run memory postcard keys 0 history no_keys)
run-Refines_example =
    run-Refines memory postcard keys 0 history no_keys no_keys-IsFresh history-AllFit

-- An id that no URL of the history has.
abbrev id_3 : List ℕ
id_3 = 3 ∷ 2 ∷ 3 ∷ 4 ∷ 5 ∷ 6 ∷ 7 ∷ 8 ∷ 9 ∷ 10 ∷ 11 ∷ 12 ∷ 13 ∷ 14 ∷ 15 ∷ 16 ∷ []

unknown_ack :
    IsFit memory postcard keys 0
      (acks (to_hex id_3) host_a)
      (run memory postcard keys 0 history no_keys)
unfolding run after memory Scripts.submit Scripts.submit_batch Scripts.promote Scripts.claim
    Scripts.advance_wake Scripts.reclaim to_hex due_members Keys.wake Keys.shard_tag to_decimal
    Map.insert Keys.seen Map.get Keys.ready Keys.host_queue Keys.host_queue_prefix Keys.inflight
    Map.remove Keys.urls
unknown_ack = (to_hex-All id_3 (ground arith), inr refl)

abbrev sent : List (SubmitItem ℕ)
sent = record { url_id = id_2; entry = entry_1; host = host_a; max_urls = cap_arg (some 3) } ∷ []

calls_keep_example :
    let r = run memory postcard keys 0 history no_keys in
    let lost = unanswered (b'x' ∷ []) in
    Sound memory postcard keys 0
      (Ops.submit memory client postcard keys none lost 0 id_2 entry_1 host_a 107 r).1
    × Sound memory postcard keys 0
        (Ops.submit_batch memory client postcard keys none lost 0 sent 107 r).1
    × Sound memory postcard keys 0 (Ops.claim memory client postcard keys none lost 0 107 100 r).1
    × Sound memory postcard keys 0 (Ops.advance_wake memory keys none lost 0 host_a (pos 300) r).1
    × Sound memory postcard keys 0 (Ops.promote memory keys none lost 0 107 10 r).1
    × Sound memory postcard keys 0 (Ops.reclaim memory keys none lost 0 107 10 r).1
    × Sound memory postcard keys 0 (Ops.ack memory keys none answered lost 0 id_3 host_a r).1
calls_keep_example =
    calls_keep memory client postcard keys 0 none (unanswered (b'x' ∷ [])) answered
      (unanswered (b'x' ∷ [])) 107 100 10 300 host_a id_2 id_3 entry_1 sent
      (run memory postcard keys 0 history no_keys) id_2-IsUrlId ((id_2-IsUrlId, (some 3, refl)), tt)
      (ground arith) tt unknown_ack run-Refines_example

ack_of_claimed_example :
    Frontier.ack memory client postcard api frontier none answered answered
      (encode_attempt 0 id_1 host_a)
      leased_1
    ≡ (if contains frontier.owned_shards 0
        then (done (ok tt), after memory postcard keys 0 (acks (to_hex id_1) host_a) leased_1)
        else (done (ok tt), leased_1))
ack_of_claimed_example =
    ack_of_claimed memory client postcard api frontier 0 id_1 host_a leased_1 (ground arith)
      id_1-IsUrlId

not_woken : Map.get host_a ready_shard.wake ≡ none
unfolding promote_host submit_shard enqueue Map.get Map.insert Map.remove push_back
not_woken = refl

not_bloomed : (memory.obs ready_1).blooms (Keys.seen 0) (to_hex id_2) ≡ false
unfolding memory Scripts.enqueue Keys.seen to_hex to_decimal Map.get
not_bloomed = refl

-- The next URL of the ready host, submitted and promoted at once.
abbrev again_1 : Memory
again_1 =
    (Scripts.submit memory (Keys.seen 0) (Keys.urls keys 0) (Keys.host_queue keys 0 host_a)
      (Keys.wake keys 0) (to_hex id_2) host_a (2 ∷ 0 ∷ 1 ∷ []) 7 ready_1).1

one_promoted : (Scripts.promote memory (Keys.wake keys 0) (Keys.ready keys 0) 7 10 again_1).0 ≡ 1
unfolding memory due_members Scripts.enqueue Scripts.submit Scripts.promote Scripts.promote_loop
    Keys.seen Keys.wake Keys.ready Keys.host_queue Keys.urls Keys.shard_tag to_hex to_decimal
    Map.get Map.insert Map.remove
one_promoted = refl

few_promoted : (Scripts.promote memory (Keys.wake keys 0) (Keys.ready keys 0) 7 10 again_1).0 < 10
few_promoted = omega (arith, one_promoted)

ready_twice_example :
    count host_a (
      (memory.obs
          (Scripts.promote memory (Keys.wake keys 0) (Keys.ready keys 0) 7 10 again_1).1).lists
        (Keys.ready keys 0))
    ≡ count host_a ((memory.obs ready_1).lists (Keys.ready keys 0)) + 1
ready_twice_example =
    ready_twice memory postcard keys 0 7 10 (to_hex id_2) host_a item_2.entry (2 ∷ 0 ∷ 1 ∷ [])
      ready_1 ready_shard ready_1-Views (to_hex-All id_2 id_2-IsUrlId.1) refl not_bloomed not_woken
      few_promoted
