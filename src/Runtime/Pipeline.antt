-- ===== src/Runtime/Pipeline.antt =====
-- crates/crawlrs-runtime/src/worker.rs: `UrlPipeline`, the work on one claimed URL, as the calls
-- that it makes. A helper that ends the work returns no value to go on with.
use crawlrs.Prelude.{ℕ, Bool, true, false, List, [], ◌∷◌, Option, none, some, leb, if◌then◌else◌}
use crawlrs.Core.Error.{Text, FailureKind}
use crawlrs.Core.Types.{
  UrlApi, UrlEntry, NextWake, PoliteDecision, allow, disallow, robots_txt, circuit, SkipReason,
  direct, durable_outbox, SubmitBatchOutcome,
}
use crawlrs.Core.Types.SkipReason.{blocklist, robots, depth, max_urls}
use crawlrs.Core.Scope.{depth_cap, is_blocked}
use crawlrs.Core.Sharding.{fnv1a_64}
use crawlrs.Runtime.Effects.{
  Reply, done, failed, FetchResponse, ParsedDocument, StoreRecord, Reason, transport_error,
  http_status, adapter_error, parser_error, parse_failed, retries_exceeded, checks,
  marks_attempting, fetches, records_failure, records_fetch, advances_wake, marks_failed,
  marks_permanently_failed, adapts, parses, writes, marks_succeeded, marks_skipped, submits_batch,
  acks, WorkerDeps, Pipe, pure, call, best_effort, ◌>>=◌, ◌>>◌,
}
use crawlrs.Runtime.Failure.{classify_status, failure_kind, extract_retry_after}
use crawlrs.Runtime.Outbound.{OutboundPartition, compute_outbound}

module _ {Url : Type 0} (api : UrlApi Url) (deps : WorkerDeps Url) (entry : UrlEntry Url)
    (attempt : Text) where
  unfoldable pub record_discovered_skip : SkipReason → UrlEntry Url → Pipe Url (Unit {0})
  record_discovered_skip reason e =
      best_effort (marks_skipped e.url e.depth e.discovered_from reason)

  unfoldable pub record_skips : SkipReason → List (UrlEntry Url) → Pipe Url (Unit {0})
  unfolding record_discovered_skip
  record_skips reason [] = pure tt
  record_skips reason (e ∷ es) = record_discovered_skip reason e >> record_skips reason es

  unfoldable pub ack_attempt : Pipe Url (Unit {0})
  ack_attempt = best_effort (acks attempt)

  -- The first gate of `politeness_allows`.
  unfoldable pub blocklisted : Bool
  blocklisted = elim (api.host entry.url) [
    | none ↦ false
    | some host ↦ is_blocked deps.blocklist host
  ]

  -- The second gate, on the reply of `Politeness::check`.
  unfoldable pub on_decision : Reply PoliteDecision → Pipe Url Bool
  unfolding record_discovered_skip ack_attempt
  on_decision (done allow) = pure true
  on_decision (done (disallow robots_txt)) =
      record_discovered_skip robots entry >> (ack_attempt >> pure false)
  on_decision (done (disallow circuit)) = ack_attempt >> pure false
  on_decision (failed e) = pure false

  unfoldable pub politeness_allows : Pipe Url Bool
  unfolding blocklisted on_decision record_discovered_skip ack_attempt
  politeness_allows =
      if blocklisted
      then record_discovered_skip blocklist entry >> (ack_attempt >> pure false)
      else (call (checks entry.url) (λ t. deps.check t entry.url) >>= on_decision)

  unfoldable pub mark_attempting : Pipe Url (Unit {0})
  mark_attempting = best_effort (marks_attempting entry.url entry.depth)

  unfoldable pub apply_wake_plan : Reply NextWake → Pipe Url (Unit {0})
  apply_wake_plan (failed e) t = (tt, t)
  apply_wake_plan (done next) t =
      if leb next.until_ms (deps.now_ms t)
      then (tt, t)
      else best_effort (advances_wake next.host next.until_ms) t

  -- On the reply of `MetadataStore::mark_failed`.
  unfoldable pub on_retry_count : Reason → Reply ℕ → Pipe Url (Unit {0})
  unfolding ack_attempt
  on_retry_count reason (failed e) = pure tt
  on_retry_count reason (done new_count) =
      if leb deps.max_retries new_count
      then best_effort (marks_permanently_failed entry.url (retries_exceeded new_count reason))
        >> ack_attempt
      else pure tt

  unfoldable pub handle_failure : FailureKind → Reason → Pipe Url (Unit {0})
  unfolding on_retry_count
  handle_failure kind reason =
      call (marks_failed entry.url kind) (λ t. deps.mark_failed t entry.url kind)
      >>= on_retry_count reason

  -- A fetch that failed: tell politeness, then count the failure.
  unfoldable pub fetch_failed :
      FailureKind → Option ℕ → Reason → Pipe Url (Option (FetchResponse Url))
  unfolding apply_wake_plan handle_failure
  fetch_failed kind retry_after reason =
      call (records_failure entry.url kind retry_after)
        (λ t. deps.record_failure t entry.url kind retry_after)
      >>= λ plan. apply_wake_plan plan >> (handle_failure kind reason >> pure none)

  unfoldable pub on_response : Reply (FetchResponse Url) → Pipe Url (Option (FetchResponse Url))
  unfolding fetch_failed apply_wake_plan
  on_response (failed e) t =
      fetch_failed (failure_kind deps.error_text e) none (transport_error e) t
  on_response (done resp) t = elim (classify_status resp.status) [
    | some kind ↦
        fetch_failed kind (extract_retry_after deps.parse_http_date (deps.now_ms t) resp.headers)
          (http_status resp.status) t
    | none ↦
        (call (records_fetch entry.url) (λ t. deps.record_fetch t entry.url) >>= λ plan.
        apply_wake_plan plan >> pure (some resp))
          t
  ]

  unfoldable pub fetch : Pipe Url (Option (FetchResponse Url))
  unfolding on_response
  fetch = call (fetches entry.url) (λ t. deps.fetch t entry.url) >>= on_response

  unfoldable pub fail_parse : Reason → Pipe Url (Option (ParsedDocument Url))
  unfolding ack_attempt
  fail_parse reason =
      best_effort (marks_permanently_failed entry.url (parse_failed reason))
      >> (ack_attempt >> pure none)

  unfoldable pub on_parse : Reply (ParsedDocument Url) → Pipe Url (Option (ParsedDocument Url))
  unfolding fail_parse
  on_parse (done doc) = pure (some doc)
  on_parse (failed e) = fail_parse (parser_error e)

  unfoldable pub generic_parse : FetchResponse Url → Pipe Url (Option (ParsedDocument Url))
  unfolding on_parse
  generic_parse resp = call (parses resp) (λ t. deps.parse t resp) >>= on_parse

  unfoldable pub on_adapter :
      FetchResponse Url
      → Reply (Option (ParsedDocument Url))
      → Pipe Url (Option (ParsedDocument Url))
  unfolding generic_parse fail_parse
  on_adapter resp (done (some doc)) = pure (some doc)
  on_adapter resp (done none) = generic_parse resp
  on_adapter resp (failed e) = fail_parse (adapter_error e)

  unfoldable pub extract : FetchResponse Url → Pipe Url (Option (ParsedDocument Url))
  unfolding on_adapter generic_parse
  extract resp = elim (deps.find_for resp.url) [
    | none ↦ generic_parse resp
    | some adapter ↦ call (adapts resp) (λ t. deps.extract t adapter resp) >>= on_adapter resp
  ]

  -- On the reply of the direct `submit_batch`.
  unfoldable pub on_dispatch : Reply (SubmitBatchOutcome Url) → Pipe Url (Unit {0})
  unfolding record_skips
  on_dispatch (done outcome) = record_skips max_urls outcome.rejected_urls
  on_dispatch (failed e) = pure tt

  unfoldable pub dispatch : List (UrlEntry Url) → Pipe Url (Unit {0})
  unfolding on_dispatch
  dispatch [] = pure tt
  dispatch (e ∷ es) = elim deps.link_dispatch [
    | direct ↦ call (submits_batch (e ∷ es)) (λ t. deps.submit_batch t (e ∷ es)) >>= on_dispatch
    | durable_outbox ↦ pure tt
  ]

  -- The links that are committed with the success record.
  unfoldable pub outbound_for_metadata : List (UrlEntry Url) → List (UrlEntry Url)
  outbound_for_metadata outbound = elim deps.link_dispatch [
    | direct ↦ []
    | durable_outbox ↦ outbound
  ]

  -- `finalize` behind the write of the body.
  unfoldable pub on_stored :
      FetchResponse Url → OutboundPartition Url → Reply Text → Pipe Url (Unit {0})
  unfolding ack_attempt dispatch outbound_for_metadata record_skips
  on_stored resp partition (failed e) = ack_attempt
  on_stored resp partition (done blob_path) =
      best_effort (
        marks_succeeded (record {
          url = entry.url;
          attempt_id = attempt;
          blob_path = blob_path;
          content_hash = fnv1a_64 resp.body;
          outbound = outbound_for_metadata partition.kept;
        }))
      >> (record_skips depth partition.depth_skipped >> (dispatch partition.kept >> ack_attempt))

  abbrev pub store_record : FetchResponse Url → ParsedDocument Url → StoreRecord Url
  store_record resp doc = record {
    doc = doc;
    resp = resp;
    run_id = deps.run_id;
    shard = deps.sharding_policy.shard_key entry.url;
    depth = entry.depth;
    content_hash = fnv1a_64 resp.body;
  }

  unfoldable pub finalize :
      FetchResponse Url → ParsedDocument Url → OutboundPartition Url → Pipe Url (Unit {0})
  unfolding on_stored
  finalize resp doc partition =
      call (writes (store_record resp doc)) (λ t. deps.write t (store_record resp doc))
      >>= on_stored resp partition

  unfoldable pub on_document : FetchResponse Url → Option (ParsedDocument Url) → Pipe Url (Unit {0})
  unfolding finalize
  on_document resp none = pure tt
  on_document resp (some doc) =
      finalize resp doc (compute_outbound api (depth_cap deps.crawl_scope) entry doc)

  unfoldable pub on_fetched : Option (FetchResponse Url) → Pipe Url (Unit {0})
  unfolding extract on_document
  on_fetched none = pure tt
  on_fetched (some resp) = extract resp >>= on_document resp

  unfoldable pub on_allowed : Bool → Pipe Url (Unit {0})
  unfolding mark_attempting fetch on_fetched
  on_allowed false = pure tt
  on_allowed true = mark_attempting >> (fetch >>= on_fetched)

  unfoldable pub run : Pipe Url (Unit {0})
  unfolding politeness_allows on_allowed
  run = politeness_allows >>= on_allowed
