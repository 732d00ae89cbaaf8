-- ===== src/Core/Types.antt =====
-- crates/crawlrs-core/src/types.rs and the outcome types of traits/frontier.rs and
-- traits/politeness.rs. `Url` is the parsed URL of the `url` crate, read through a `UrlApi`.
use crawlrs.Prelude.{ℕ, List, Option, none}
use crawlrs.Core.Error.{Text}

-- The accessors of `url::Url` that the code calls through `CanonicalUrl`, and the `blake3` digest
-- of a text.
pub record UrlApi (Url : Type 0) : Type 0 where
  pub as_str : Url → Text
  pub host : Url → Option Text
  pub scheme : Url → Text
  pub path : Url → Text
  pub blake3 : Text → Text

pub record UrlEntry (Url : Type 0) : Type 0 where
  pub url : Url
  pub depth : ℕ
  pub discovered_from : Option Url

unfoldable pub seed : {Url : Type 0} → Url → UrlEntry Url
seed u = record { url = u; depth = 0; discovered_from = none }

pub data UrlStatus : Type 0 where
  pending in_progress succeeded failed_transient permanently_failed skipped : UrlStatus

pub data SkipReason : Type 0 where
  blocklist robots depth max_urls : SkipReason

pub data LinkDispatch : Type 0 where
  direct durable_outbox : LinkDispatch

pub data DisallowReason : Type 0 where
  robots_txt circuit : DisallowReason

pub data PoliteDecision : Type 0 where
  allow : PoliteDecision
  disallow : DisallowReason → PoliteDecision

pub record NextWake : Type 0 where
  pub host : Text
  pub until_ms : ℕ

pub data SubmitOutcome : Type 0 where
  queued skipped_duplicate : SubmitOutcome

pub record SubmitBatchOutcome (Url : Type 0) : Type 0 where
  pub queued : ℕ
  pub rejected_urls : List (UrlEntry Url)

pub data ClaimOutcome (Url : Type 0) : Type 0 where
  claimed : Text → UrlEntry Url → Text → ClaimOutcome Url
  empty_hint : ℕ → ClaimOutcome Url
  empty : ClaimOutcome Url
