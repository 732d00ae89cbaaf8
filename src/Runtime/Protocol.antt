-- ===== src/Runtime/Protocol.antt =====
-- crates/crawlrs-runtime/src/worker.rs: the order of the calls that `UrlPipeline::run` makes.
use crawlrs.Prelude.{[], ◌∷◌}
use crawlrs.Core.Types.SkipReason.{blocklist, robots, depth, max_urls}
use crawlrs.Runtime.Effects.{
  Effect, checks, marks_attempting, fetches, records_failure, records_fetch, advances_wake,
  marks_failed, marks_permanently_failed, adapts, parses, writes, marks_succeeded, marks_skipped,
  submits_batch, acks, Trace,
}

-- How far the work on a URL is.
pub data Phase : Type 0 where
  claimed skipped checked attempting fetched failing failing_woken counted dead : Phase
  good good_woken adapted parsed stored committed dispatched released wrong : Phase

-- The calls that may follow in each phase; after the ack there is none.
unfoldable pub next : {Url : Type 0} → Phase → Effect Url → Phase
next claimed (checks u) = checked
next claimed (marks_skipped u d f blocklist) = skipped
next skipped (acks a) = released
next checked (marks_skipped u d f robots) = skipped
next checked (acks a) = released
next checked (marks_attempting u d) = attempting
next attempting (fetches u) = fetched
next fetched (records_failure u k r) = failing
next fetched (records_fetch u) = good
next failing (advances_wake h n) = failing_woken
next failing (marks_failed u k) = counted
next failing_woken (marks_failed u k) = counted
next counted (marks_permanently_failed u r) = dead
next dead (acks a) = released
next good (advances_wake h n) = good_woken
next good (adapts r) = adapted
next good (parses r) = parsed
next good_woken (adapts r) = adapted
next good_woken (parses r) = parsed
next adapted (parses r) = parsed
next adapted (marks_permanently_failed u r) = dead
next adapted (writes r) = stored
next parsed (marks_permanently_failed u r) = dead
next parsed (writes r) = stored
next stored (acks a) = released
next stored (marks_succeeded r) = committed
next committed (marks_skipped u d f depth) = committed
next committed (submits_batch es) = dispatched
next committed (acks a) = released
next dispatched (marks_skipped u d f max_urls) = dispatched
next dispatched (acks a) = released
next p e = wrong

unfoldable pub phase_of : {Url : Type 0} → Trace Url → Phase
unfolding next
phase_of [] = claimed
phase_of (e ∷ t) = next (phase_of t) e
