-- ===== src/Postgres/Requests.antt =====
-- crates/crawlrs-metadata/src/store.rs: the calls of the `MetadataStore` trait that change the ledger,
-- as values.
use crawlrs.Prelude.{ℕ, Option}
use crawlrs.Core.Error.{Text, FailureKind}
use crawlrs.Core.Types.{UrlApi, SkipReason}
use crawlrs.Runtime.Effects.{SuccessRecord, Reason}
use crawlrs.Postgres.Transactions.{Query, ◌>>=◌, pure}
use crawlrs.Postgres.Store.{
  mark_attempting, mark_succeeded, mark_failed, mark_permanently_failed, mark_discovered_skipped,
}

pub data Request (Url : Type 0) : Type 0 where
  attempting : Url → Text → ℕ → Request Url
  succeeds : SuccessRecord Url → Request Url
  fails : Url → FailureKind → Request Url
  dies : Url → Reason → Request Url
  skips : Url → Text → ℕ → Option Url → SkipReason → Request Url

-- What `mark_failed` counts, and zero for the calls that return nothing.
abbrev pub counted : Query (Unit {0}) → Query ℕ
counted q = q >>= λ _. pure 0

module _ {Url : Type 0} (api : UrlApi Url) where
  unfoldable pub answer : ℕ → Request Url → Query ℕ
  answer now (attempting url run_id depth) = counted (mark_attempting api now url run_id depth)
  answer now (succeeds r) = counted (mark_succeeded api now r)
  answer now (fails url k) = mark_failed api now url k
  answer now (dies url why) = counted (mark_permanently_failed api now url why)
  answer now (skips url run_id depth parent why) =
      counted (mark_discovered_skipped api now url run_id depth parent why)
