-- ===== src/Runtime/Order.antt =====
-- crates/crawlrs-runtime/src/worker.rs: `UrlPipeline::run` makes its calls in the order of the
-- protocol, and ends with the ack or keeps the lease.
use crawlrs.Prelude.{
  ℕ, ◌<◌, ◌≡◌, refl, Bool, true, false, [], ◌∷◌, Option, none, some, arith, leb, inl, inr, subst,
  sym, ◌⊎◌, Bool-cases, Option-cases,
}
use crawlrs.Core.Error.{Text, Error, FailureKind}
use crawlrs.Core.Types.{
  UrlApi, UrlEntry, PoliteDecision, allow, disallow, robots_txt, circuit, NextWake,
}
use crawlrs.Runtime.Effects.{
  Reply, done, failed, FetchResponse, Reason, checks, marks_attempting, fetches, records_failure,
  records_fetch, advances_wake, marks_failed, transport_error, Trace, WorkerDeps,
}
use crawlrs.Runtime.Failure.{classify_status}
use crawlrs.Runtime.Pipeline.{
  record_discovered_skip, ack_attempt, blocklisted, on_decision, politeness_allows, mark_attempting,
  apply_wake_plan, on_retry_count, handle_failure, fetch_failed, on_response, fetch, on_fetched,
  on_allowed, run,
}
use crawlrs.Runtime.Protocol.{
  checked, fetched, failing, failing_woken, counted, released, next, phase_of,
}
use crawlrs.Runtime.Commit.{Good, extract-phase, on_document-phase}

module _ {Url : Type 0} (api : UrlApi Url) (deps : WorkerDeps Url) (entry : UrlEntry Url)
    (attempt : Text) where
  -- The count of failures is below the retry budget, or could not be stored.
  abbrev pub Below : Reply ℕ → Type 0
  Below (done new_count) = new_count < deps.max_retries
  Below (failed e) = Unit

  -- How the work may end: with the ack as its last call; with a politeness check that failed; or
  -- with a failure counted that leaves retries.
  abbrev pub Ends : Trace Url → Type 0
  Ends t =
      (phase_of t ≡ released)
      ⊎ (((phase_of t ≡ checked)
            × ((before : Trace Url) × (e : Error) × (t ≡ checks entry.url ∷ before)
                × (deps.check before entry.url ≡ failed e)))
          ⊎ ((phase_of t ≡ counted)
              × ((before : Trace Url) × (kind : FailureKind) × (t
                    ≡ marks_failed entry.url kind ∷ before)
                  × Below (deps.mark_failed before entry.url kind))))

  -- A wake plan adds one call at most.
  apply_wake_plan-call :
      (plan : Reply NextWake) (t : Trace Url)
      → ((apply_wake_plan api deps entry attempt plan t).1 ≡ t)
        ⊎ ((host : Text) × (until : ℕ) × ((apply_wake_plan api deps entry attempt plan t).1
              ≡ advances_wake host until ∷ t))
  unfolding apply_wake_plan
  apply_wake_plan-call (failed e) t = inl refl
  apply_wake_plan-call (done next) t = elim (Bool-cases (leb next.until_ms (deps.now_ms t))) [
    | inl past ↦ rw (past, apply_wake_plan) (inl refl)
    | inr later ↦ rw (later, apply_wake_plan) (inr (next.host, next.until_ms, refl))
  ]

  Failing : Trace Url → Type 0
  Failing t = (phase_of t ≡ failing) ⊎ (phase_of t ≡ failing_woken)

  on_retry_count-Ends :
      (kind : FailureKind) (reason : Reason) (t : Trace Url)
      → phase_of (marks_failed entry.url kind ∷ t) ≡ counted
      → (r : Reply ℕ) → r ≡ deps.mark_failed t entry.url kind
      → Ends (on_retry_count api deps entry attempt reason r (marks_failed entry.url kind ∷ t)).1
  unfolding on_retry_count ack_attempt phase_of next
  on_retry_count-Ends kind reason t h (failed e) r =
      inr (inr (h, (t, kind, refl, subst Below r tt)))
  on_retry_count-Ends kind reason t h (done n) r = elim (Bool-cases (leb deps.max_retries n)) [
    | inl spent ↦ rw (spent, on_retry_count) (inl (rw h refl))
    | inr left ↦
        rw (left, on_retry_count) (inr (inr (h, (t, kind, refl, subst Below r (ground arith)))))
  ]

  handle_failure-Ends :
      (kind : FailureKind) (reason : Reason) (t : Trace Url)
      → Failing t
      → Ends (handle_failure api deps entry attempt kind reason t).1
  unfolding handle_failure Failing phase_of next
  handle_failure-Ends kind reason t (inl h) =
      on_retry_count-Ends kind reason t (rw h refl) (deps.mark_failed t entry.url kind) refl
  handle_failure-Ends kind reason t (inr h) =
      on_retry_count-Ends kind reason t (rw h refl) (deps.mark_failed t entry.url kind) refl

  -- What a fetch leaves behind.
  abbrev Fetched : Option (FetchResponse Url) → Trace Url → Type 0
  Fetched none t = Ends t
  Fetched (some resp) t = Good api deps entry attempt t

  fetch_failed-Ends :
      (kind : FailureKind) (hint : Option ℕ) (reason : Reason) (t : Trace Url)
      → phase_of t ≡ fetched
      → Fetched
          (fetch_failed api deps entry attempt kind hint reason t).0
          (fetch_failed api deps entry attempt kind hint reason t).1
  unfolding fetch_failed Failing phase_of next
  fetch_failed-Ends kind hint reason t h =
      handle_failure-Ends kind reason _ (woken (apply_wake_plan-call _ _))
    where
      asked : Trace Url
      asked = records_failure entry.url kind hint ∷ t

      woken :
          {u : Trace Url}
          → (u ≡ asked) ⊎ ((host : Text) × (until : ℕ) × (u ≡ advances_wake host until ∷ asked))
          → Failing u
      woken (inl e) = inl (rw (e, h) refl)
      woken (inr (host, until, e)) = inr (rw (e, h) refl)

  on_response-Fetched :
      (r : Reply (FetchResponse Url)) (t : Trace Url)
      → phase_of t ≡ fetched
      → Fetched
          (on_response api deps entry attempt r t).0
          (on_response api deps entry attempt r t).1
  unfolding on_response phase_of next
  on_response-Fetched (failed e) t h = fetch_failed-Ends _ none (transport_error e) t h
  on_response-Fetched (done resp) t h = elim (Option-cases (classify_status resp.status)) [
    | inr (kind, bad) ↦ rw (bad, on_response) (fetch_failed-Ends kind _ _ t h)
    | inl fine ↦ rw (fine, on_response) (woken (apply_wake_plan-call _ _))
  ]
    where
      told : Trace Url
      told = records_fetch entry.url ∷ t

      woken :
          {u : Trace Url}
          → (u ≡ told) ⊎ ((host : Text) × (until : ℕ) × (u ≡ advances_wake host until ∷ told))
          → Good api deps entry attempt u
      woken (inl e) = inl (rw (e, h) refl)
      woken (inr (host, until, e)) = inr (rw (e, h) refl)

  on_fetched-Ends :
      (resp : Option (FetchResponse Url)) (t : Trace Url)
      → Fetched resp t
      → Ends (on_fetched api deps entry attempt resp t).1
  unfolding on_fetched
  on_fetched-Ends none t h = h
  on_fetched-Ends (some resp) t h = inl (
      on_document-phase api deps entry attempt resp _ _
        (extract-phase api deps entry attempt resp t h))

  -- What the gates leave behind.
  abbrev Gated : Bool → Trace Url → Type 0
  Gated false t = Ends t
  Gated true t = phase_of t ≡ checked

  on_allowed-Ends :
      (b : Bool) (t : Trace Url) → Gated b t → Ends (on_allowed api deps entry attempt b t).1
  unfolding on_allowed mark_attempting fetch phase_of next
  on_allowed-Ends false t h = h
  on_allowed-Ends true t h =
      on_fetched-Ends _ _
        (on_response-Fetched (deps.fetch marked entry.url) (fetches entry.url ∷ marked) (rw h refl))
    where
      marked : Trace Url
      marked = marks_attempting entry.url entry.depth ∷ t

  on_decision-Gated :
      (before : Trace Url)
      → phase_of (checks entry.url ∷ before) ≡ checked
      → (r : Reply PoliteDecision) → r ≡ deps.check before entry.url
      → Gated
          (on_decision api deps entry attempt r (checks entry.url ∷ before)).0
          (on_decision api deps entry attempt r (checks entry.url ∷ before)).1
  unfolding on_decision record_discovered_skip ack_attempt phase_of next
  on_decision-Gated t h (done allow) r = h
  on_decision-Gated t h (done (disallow robots_txt)) r = inl (rw h refl)
  on_decision-Gated t h (done (disallow circuit)) r = inl (rw h refl)
  on_decision-Gated t h (failed e) r = inr (inl (h, (t, e, refl, sym r)))

  politeness_allows-Gated :
      Gated
        (politeness_allows api deps entry attempt []).0
        (politeness_allows api deps entry attempt []).1
  unfolding politeness_allows record_discovered_skip ack_attempt phase_of next
  politeness_allows-Gated = elim (Bool-cases (blocklisted api deps entry attempt)) [
    | inl hit ↦ rw (hit, politeness_allows) (inl refl)
    | inr miss ↦
        rw (miss, politeness_allows) (on_decision-Gated [] refl (deps.check [] entry.url) refl)
  ]

  -- The pipeline makes its calls in the order of the protocol. It ends with the ack, or it keeps the
  -- lease, and that only where the politeness check failed, or where a failure was counted that
  -- leaves retries or whose count could not be stored.
  pub run-Ends : Ends (run api deps entry attempt []).1
  unfolding run
  run-Ends = on_allowed-Ends _ _ politeness_allows-Gated
