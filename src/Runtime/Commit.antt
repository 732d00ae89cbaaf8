-- ===== src/Runtime/Commit.antt =====
-- crates/crawlrs-runtime/src/worker.rs: from a good fetch on, `UrlPipeline::run` goes through the
-- protocol to the ack.
use crawlrs.Prelude.{
  ◌≡◌, refl, List, [], ◌∷◌, Option, none, some, inl, inr, ap, ◌∙◌, ◌⊎◌, Option-cases,
}
use crawlrs.Core.Error.{Text}
use crawlrs.Core.Types.{
  UrlApi, UrlEntry, SkipReason, LinkDispatch, direct, durable_outbox, SubmitBatchOutcome,
}
use crawlrs.Core.Types.SkipReason.{depth, max_urls}
use crawlrs.Runtime.Effects.{
  Reply, done, failed, FetchResponse, ParsedDocument, StoreRecord, Reason, adapts, parses, writes,
  parser_error, adapter_error, marks_skipped, submits_batch, acks, Trace, WorkerDeps,
}
use crawlrs.Runtime.Outbound.{OutboundPartition, compute_outbound}
use crawlrs.Core.Scope.{depth_cap}
use crawlrs.Runtime.Pipeline.{
  record_discovered_skip, record_skips, ack_attempt, fail_parse, on_parse, generic_parse,
  on_adapter, extract, on_dispatch, dispatch, on_stored, finalize, store_record, on_document,
}
use crawlrs.Runtime.Protocol.{
  Phase, good, good_woken, adapted, parsed, stored, committed, dispatched, released, next, phase_of,
}

pub LinkDispatch-cases : (d : LinkDispatch) → (d ≡ direct) ⊎ (d ≡ durable_outbox)
LinkDispatch-cases direct = inl refl
LinkDispatch-cases durable_outbox = inr refl

module _ {Url : Type 0} (api : UrlApi Url) (deps : WorkerDeps Url) (entry : UrlEntry Url)
    (attempt : Text) where
  skips-phase :
      (p : Phase) (reason : SkipReason)
      → ((e : UrlEntry Url) → next p (marks_skipped e.url e.depth e.discovered_from reason) ≡ p)
      → (es : List (UrlEntry Url)) (t : Trace Url) → phase_of t ≡ p
      → phase_of (record_skips api deps entry attempt reason es t).1 ≡ p
  unfolding record_skips record_discovered_skip phase_of
  skips-phase p reason loop [] t h = h
  skips-phase p reason loop (e ∷ es) t h =
      skips-phase p reason loop es _
        (ap (λ q. next q (marks_skipped e.url e.depth e.discovered_from reason)) h ∙ loop e)

  on_dispatch-phase :
      (r : Reply (SubmitBatchOutcome Url)) (t : Trace Url)
      → phase_of t ≡ dispatched
      → phase_of (on_dispatch api deps entry attempt r t).1 ≡ dispatched
  unfolding on_dispatch next
  on_dispatch-phase (done outcome) t h =
      skips-phase dispatched max_urls (λ e. refl) outcome.rejected_urls t h
  on_dispatch-phase (failed e) t h = h

  dispatch-phase :
      (es : List (UrlEntry Url)) (t : Trace Url)
      → phase_of t ≡ committed
      → phase_of (acks attempt ∷ (dispatch api deps entry attempt es t).1) ≡ released
  unfolding dispatch phase_of next
  dispatch-phase [] t h = rw h refl
  dispatch-phase (e ∷ es) t h = elim (LinkDispatch-cases deps.link_dispatch) [
    | inl d ↦
        rw (d, dispatch)
          (ap (λ q. next {Url = Url} q (acks attempt))
            (on_dispatch-phase (deps.submit_batch t (e ∷ es)) (submits_batch (e ∷ es) ∷ t)
              (rw h refl)))
    | inr d ↦ rw (d, dispatch) (rw h refl)
  ]

  on_stored-phase :
      (resp : FetchResponse Url) (partition : OutboundPartition Url) (r : Reply Text)
      (t : Trace Url)
      → phase_of t ≡ stored
      → phase_of (on_stored api deps entry attempt resp partition r t).1 ≡ released
  unfolding on_stored ack_attempt phase_of next
  on_stored-phase resp partition (failed e) t h = rw h refl
  on_stored-phase resp partition (done blob_path) t h =
      dispatch-phase partition.kept _
        (skips-phase committed depth (λ e. refl) partition.depth_skipped _ (rw h refl))

  -- Both the parsers leave a document, and the next call may be the write.
  abbrev pub CanStore : Trace Url → Type 0
  CanStore t = (phase_of t ≡ adapted) ⊎ (phase_of t ≡ parsed)

  -- A parser ends the work with an ack, or gives a document.
  abbrev pub Parsed : Option (ParsedDocument Url) → Trace Url → Type 0
  Parsed none t = phase_of t ≡ released
  Parsed (some doc) t = CanStore t

  fail_parse-phase :
      (reason : Reason) (t : Trace Url)
      → CanStore t
      → Parsed
          (fail_parse api deps entry attempt reason t).0
          (fail_parse api deps entry attempt reason t).1
  unfolding fail_parse ack_attempt phase_of next
  fail_parse-phase reason t (inl h) = rw h refl
  fail_parse-phase reason t (inr h) = rw h refl

  on_parse-phase :
      (r : Reply (ParsedDocument Url)) (t : Trace Url)
      → phase_of t ≡ parsed
      → Parsed (on_parse api deps entry attempt r t).0 (on_parse api deps entry attempt r t).1
  unfolding on_parse
  on_parse-phase (done doc) t h = inr h
  on_parse-phase (failed e) t h = fail_parse-phase (parser_error e) t (inr h)

  on_adapter-phase :
      (resp : FetchResponse Url) (r : Reply (Option (ParsedDocument Url))) (t : Trace Url)
      → phase_of t ≡ adapted
      → Parsed
          (on_adapter api deps entry attempt resp r t).0
          (on_adapter api deps entry attempt resp r t).1
  unfolding on_adapter generic_parse phase_of next
  on_adapter-phase resp (done (some doc)) t h = inl h
  on_adapter-phase resp (done none) t h =
      on_parse-phase (deps.parse t resp) (parses resp ∷ t) (rw h refl)
  on_adapter-phase resp (failed e) t h = fail_parse-phase (adapter_error e) t (inl h)

  -- A fetch that went well, with its pause noted or not.
  abbrev pub Good : Trace Url → Type 0
  Good t = (phase_of t ≡ good) ⊎ (phase_of t ≡ good_woken)

  pub extract-phase :
      (resp : FetchResponse Url) (t : Trace Url)
      → Good t
      → Parsed (extract api deps entry attempt resp t).0 (extract api deps entry attempt resp t).1
  unfolding extract generic_parse phase_of next
  extract-phase resp t g = elim (Option-cases (deps.find_for resp.url)) [
    | inl generic ↦
        rw (generic, extract) (on_parse-phase (deps.parse t resp) (parses resp ∷ t) (may_parse g))
    | inr (adapter, found) ↦
        rw (found, extract)
          (on_adapter-phase resp (deps.extract t adapter resp) (adapts resp ∷ t) (may_adapt g))
  ]
    where
      may_parse : Good t → phase_of (parses resp ∷ t) ≡ parsed
      may_parse (inl h) = rw h refl
      may_parse (inr h) = rw h refl

      may_adapt : Good t → phase_of (adapts resp ∷ t) ≡ adapted
      may_adapt (inl h) = rw h refl
      may_adapt (inr h) = rw h refl

  pub on_document-phase :
      (resp : FetchResponse Url) (doc : Option (ParsedDocument Url)) (t : Trace Url)
      → Parsed doc t
      → phase_of (on_document api deps entry attempt resp doc t).1 ≡ released
  unfolding on_document finalize phase_of next
  on_document-phase resp none t h = h
  on_document-phase resp (some doc) t h =
      on_stored-phase resp (compute_outbound api (depth_cap deps.crawl_scope) entry doc)
        (deps.write t body) (writes body ∷ t) (may_write h)
    where
      body : StoreRecord Url
      body = store_record api deps entry attempt resp doc

      may_write : CanStore t → phase_of (writes body ∷ t) ≡ stored
      may_write (inl h) = rw h refl
      may_write (inr h) = rw h refl
