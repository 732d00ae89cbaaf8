-- ===== src/Runtime/Dispatch.antt =====
-- crates/crawlrs-runtime/src/worker.rs: `UrlPipeline::finalize` hands the links of a page on, by
-- the outbox or directly.
use crawlrs.Prelude.{◌≡◌, refl, List, [], ◌∷◌, ◌++◌, inl, inr, ap, ◌∙◌}
use crawlrs.Core.Error.{Text}
use crawlrs.Core.Types.{UrlApi, UrlEntry, SkipReason, SubmitBatchOutcome}
use crawlrs.Core.Types.SkipReason.{depth, max_urls}
use crawlrs.Runtime.Effects.{
  Reply, done, failed, FetchResponse, ParsedDocument, marks_succeeded, submits_batch, Trace,
  WorkerDeps,
}
use crawlrs.Runtime.Outbound.{OutboundPartition}
use crawlrs.Runtime.Pipeline.{
  record_discovered_skip, record_skips, ack_attempt, on_dispatch, dispatch, outbound_for_metadata,
  on_stored, finalize, store_record,
}
use crawlrs.Runtime.Commit.{LinkDispatch-cases}

-- The links that a run handed on: those committed with the success record, and those submitted.
unfoldable pub handed_on : {Url : Type 0} → Trace Url → List (UrlEntry Url)
handed_on [] = []
handed_on (marks_succeeded r ∷ t) = r.outbound ++ handed_on t
handed_on (submits_batch es ∷ t) = es ++ handed_on t
handed_on (_ ∷ t) = handed_on t

module _ {Url : Type 0} (api : UrlApi Url) (deps : WorkerDeps Url) (entry : UrlEntry Url)
    (attempt : Text) where
  handed_on-skips :
      (reason : SkipReason) (es : List (UrlEntry Url)) (t : Trace Url)
      → handed_on (record_skips api deps entry attempt reason es t).1 ≡ handed_on t
  unfolding handed_on record_skips record_discovered_skip
  handed_on-skips reason [] t = refl
  handed_on-skips reason (e ∷ es) t = handed_on-skips reason es _

  handed_on-on_dispatch :
      (r : Reply (SubmitBatchOutcome Url)) (t : Trace Url)
      → handed_on (on_dispatch api deps entry attempt r t).1 ≡ handed_on t
  unfolding on_dispatch
  handed_on-on_dispatch (done outcome) t = handed_on-skips max_urls outcome.rejected_urls t
  handed_on-on_dispatch (failed e) t = refl

  -- What the dispatch adds to what the success record held.
  handed_on-dispatch :
      (es : List (UrlEntry Url)) (t u : Trace Url)
      → handed_on u ≡ outbound_for_metadata api deps entry attempt es ++ handed_on t
      → handed_on (dispatch api deps entry attempt es u).1 ≡ es ++ handed_on t
  unfolding dispatch outbound_for_metadata handed_on
  handed_on-dispatch [] t u h = elim (LinkDispatch-cases deps.link_dispatch) [
    | inl d ↦ h ∙ rw (d, outbound_for_metadata) refl
    | inr d ↦ h ∙ rw (d, outbound_for_metadata) refl
  ]
  handed_on-dispatch (e ∷ es) t u h = elim (LinkDispatch-cases deps.link_dispatch) [
    | inl d ↦
        rw (d, dispatch)
          (handed_on-on_dispatch (deps.submit_batch u (e ∷ es)) (submits_batch (e ∷ es) ∷ u)
            ∙ ap (λ l. (e ∷ es) ++ l) (h ∙ rw (d, outbound_for_metadata) refl))
    | inr d ↦ rw (d, dispatch) (h ∙ rw (d, outbound_for_metadata) refl)
  ]

  -- The links that the reply of the store lets go on.
  abbrev pub stored_links : Reply Text → OutboundPartition Url → List (UrlEntry Url)
  stored_links (done path) partition = partition.kept
  stored_links (failed e) partition = []

  handed_on-on_stored :
      (resp : FetchResponse Url) (partition : OutboundPartition Url) (r : Reply Text)
      (t : Trace Url)
      → handed_on (on_stored api deps entry attempt resp partition r t).1
        ≡ stored_links r partition ++ handed_on t
  unfolding on_stored ack_attempt handed_on
  handed_on-on_stored resp partition (failed e) t = refl
  handed_on-on_stored resp partition (done path) t =
      handed_on-dispatch partition.kept t _ (handed_on-skips depth partition.depth_skipped _)

  -- In either mode of link dispatch, `finalize` hands every followed link on exactly once, in the
  -- order of the page, if the body was stored, and none otherwise.
  pub finalize_hands_on_once :
      (resp : FetchResponse Url) (doc : ParsedDocument Url) (partition : OutboundPartition Url)
      (t : Trace Url)
      → handed_on (finalize api deps entry attempt resp doc partition t).1
        ≡ stored_links (deps.write t (store_record api deps entry attempt resp doc)) partition
          ++ handed_on t
  unfolding finalize handed_on
  finalize_hands_on_once resp doc partition t =
      handed_on-on_stored resp partition
        (deps.write t (store_record api deps entry attempt resp doc)) _
