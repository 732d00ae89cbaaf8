-- ===== src/Runtime/Effects.antt =====
-- crates/crawlrs-runtime/src/worker.rs: what a worker calls. The components behind the traits are
-- parameters: a call is recorded as an effect, and its reply may depend on every call before it.
use crawlrs.Prelude.{ℕ, List, ◌∷◌, Option}
use crawlrs.Core.Error.{Text, Error, FailureKind}
use crawlrs.Core.Types.{
  UrlEntry, NextWake, PoliteDecision, SkipReason, LinkDispatch, SubmitBatchOutcome,
}
use crawlrs.Core.Scope.{CrawlScope, Blocklist}
use crawlrs.Core.Sharding.{ShardingPolicy}

-- `Result` of a call into a component; its panics are not modelled.
pub data Reply (A : Type 0) : Type 0 where
  done : A → Reply A
  failed : Error → Reply A

-- The fields that the worker reads.
pub record FetchResponse (Url : Type 0) : Type 0 where
  pub url : Url
  pub status : ℕ
  pub headers : List (Text × Text)
  pub body : Text

pub record ParsedDocument (Url : Type 0) : Type 0 where
  pub url : Url
  pub title : Option Text
  pub text : Option Text
  pub outbound_links : List Url

pub record StoreRecord (Url : Type 0) : Type 0 where
  pub doc : ParsedDocument Url
  pub resp : FetchResponse Url
  pub run_id : Text
  pub shard : ℕ
  pub depth : ℕ
  pub content_hash : ℕ

pub record SuccessRecord (Url : Type 0) : Type 0 where
  pub url : Url
  pub attempt_id : Text
  pub blob_path : Text
  pub content_hash : ℕ
  pub outbound : List (UrlEntry Url)

-- The text that a failure is reported with, by the `format!` that builds it.
pub data Reason : Type 0 where
  transport_error : Error → Reason
  http_status : ℕ → Reason
  adapter_error : Error → Reason
  parser_error : Error → Reason
  parse_failed : Reason → Reason
  retries_exceeded : ℕ → Reason → Reason

-- A call that the pipeline makes, with its arguments.
pub data Effect (Url : Type 0) : Type 0 where
  checks : Url → Effect Url
  marks_attempting : Url → ℕ → Effect Url
  fetches : Url → Effect Url
  records_failure : Url → FailureKind → Option ℕ → Effect Url
  records_fetch : Url → Effect Url
  advances_wake : Text → ℕ → Effect Url
  marks_failed : Url → FailureKind → Effect Url
  marks_permanently_failed : Url → Reason → Effect Url
  adapts : FetchResponse Url → Effect Url
  parses : FetchResponse Url → Effect Url
  writes : StoreRecord Url → Effect Url
  marks_succeeded : SuccessRecord Url → Effect Url
  marks_skipped : Url → ℕ → Option Url → SkipReason → Effect Url
  submits_batch : List (UrlEntry Url) → Effect Url
  acks : Text → Effect Url

-- The calls so far, the last one first.
abbrev pub Trace : Type 0 → Type 0
Trace Url = List (Effect Url)

pub record WorkerDeps (Url : Type 0) : Type 0 where
  pub check : Trace Url → Url → Reply PoliteDecision
  pub record_failure : Trace Url → Url → FailureKind → Option ℕ → Reply NextWake
  pub record_fetch : Trace Url → Url → Reply NextWake
  pub fetch : Trace Url → Url → Reply (FetchResponse Url)
  pub find_for : Url → Option Text
  pub extract : Trace Url → Text → FetchResponse Url → Reply (Option (ParsedDocument Url))
  pub parse : Trace Url → FetchResponse Url → Reply (ParsedDocument Url)
  pub write : Trace Url → StoreRecord Url → Reply Text
  pub mark_failed : Trace Url → Url → FailureKind → Reply ℕ
  pub submit_batch : Trace Url → List (UrlEntry Url) → Reply (SubmitBatchOutcome Url)
  -- `SystemTime::now` in milliseconds, and `httpdate::parse_http_date`.
  pub now_ms : Trace Url → ℕ
  pub parse_http_date : Text → Option ℕ
  -- The lower-case `Display` text of an error and of its sources, joined by spaces.
  pub error_text : Error → Text
  pub crawl_scope : CrawlScope
  pub blocklist : Blocklist
  pub run_id : Text
  pub sharding_policy : ShardingPolicy Url
  pub max_retries : ℕ
  pub link_dispatch : LinkDispatch

-- A step of the pipeline: what it returns, and the calls it adds.
abbrev pub Pipe : Type 0 → Type 0 → Type 0
Pipe Url A = Trace Url → A × Trace Url

module _ {Url : Type 0} where
  abbrev pub pure : {A : Type 0} → A → Pipe Url A
  pure a t = (a, t)

  abbrev pub call : {A : Type 0} → Effect Url → (Trace Url → A) → Pipe Url A
  call e reply t = (reply t, e ∷ t)

  -- A call whose reply is only logged.
  abbrev pub best_effort : Effect Url → Pipe Url (Unit {0})
  best_effort e t = (tt, e ∷ t)

infixl 5 ◌>>=◌
abbrev pub ◌>>=◌ : {Url A B : Type 0} → Pipe Url A → (A → Pipe Url B) → Pipe Url B
(m >>= k) t = k (m t).0 (m t).1

infixl 5 ◌>>◌
abbrev pub ◌>>◌ : {Url B : Type 0} → Pipe Url (Unit {0}) → Pipe Url B → Pipe Url B
(m >> k) t = k (m t).1
