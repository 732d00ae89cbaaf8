-- ===== src/Runtime/WorkerLoop.antt =====
-- crates/crawlrs-runtime/src/worker.rs: `worker_loop`. Each turn has the reply of the frontier and the
-- components as they answer then. Times are in milliseconds.
use crawlrs.Prelude.{
  ℕ, ◌-◌, ◌≤◌, ◌≡◌, refl, ap, Bool, true, false, Option, none, some, List, [], ◌∷◌, arith, min, max,
  All, if◌then◌else◌,
}
use crawlrs.Core.Error.{Text}
use crawlrs.Core.Types.{UrlApi, UrlEntry, ClaimOutcome, claimed, empty_hint, empty}
use crawlrs.Runtime.Effects.{Reply, done, failed, WorkerDeps, Trace}
use crawlrs.Runtime.Pipeline
use crawlrs.Runtime.Order.{Ends, run-Ends}

-- The fields of `CrawlerConfig` that the loop reads.
pub record Sleeps : Type 0 where
  pub max_idle_sleep : ℕ
  pub empty_queue_poll : ℕ
  pub error_backoff : ℕ

-- One turn of the loop: whether the shutdown is seen at its head, the reply to its claim, the time,
-- and whether the shutdown ends its sleep.
pub record Turn (Url : Type 0) : Type 0 where
  pub deps : WorkerDeps Url
  pub stopping : Bool
  pub claim : Reply (ClaimOutcome Url)
  pub now : ℕ
  pub woken : Bool

-- What a turn does: it runs the pipeline, whose calls it makes, or it sleeps.
pub data Step (Url : Type 0) : Type 0 where
  processed : WorkerDeps Url → UrlEntry Url → Text → Trace Url → Step Url
  slept : ℕ → Step Url

module _ {Url : Type 0} (api : UrlApi Url) (sleeps : Sleeps) where
  unfoldable pub process_url : WorkerDeps Url → UrlEntry Url → Text → Step Url
  process_url deps entry attempt =
      processed deps entry attempt (Pipeline.run api deps entry attempt []).1

  unfoldable pub turn_step : Turn Url → Step Url
  unfolding process_url
  turn_step turn = elim turn.claim [
    | failed e ↦ slept sleeps.error_backoff
    | done outcome ↦ elim outcome [
      | claimed url_id entry attempt ↦ process_url turn.deps entry attempt
      | empty_hint sleep_until ↦ slept (min (sleep_until - turn.now) sleeps.max_idle_sleep)
      | empty ↦ slept sleeps.empty_queue_poll
    ]
  ]

  -- Whether the shutdown ended the turn's sleep; nothing interrupts the pipeline.
  unfoldable pub breaks : Turn Url → Step Url → Bool
  breaks turn (processed deps entry attempt trace) = false
  breaks turn (slept d) = turn.woken

  unfoldable pub worker_loop : List (Turn Url) → List (Step Url)
  unfolding turn_step breaks
  worker_loop [] = []
  worker_loop (turn ∷ turns) =
      let rest = worker_loop turns in
      let step = turn_step turn in
      if turn.stopping then [] else step ∷ (if breaks turn step then [] else rest)

  -- A URL that was processed has ended as the protocol says; a sleep is within the longest bound.
  abbrev pub IsSettled : Step Url → Type 0
  IsSettled (processed deps entry attempt trace) = Ends api deps entry attempt trace
  IsSettled (slept d) =
      d ≤ max sleeps.max_idle_sleep (max sleeps.empty_queue_poll sleeps.error_backoff)

  -- The attempt of a claim, if it has one.
  unfoldable pub attempt_of : Reply (ClaimOutcome Url) → Option Text
  attempt_of (failed e) = none
  attempt_of (done (claimed url_id entry attempt)) = some attempt
  attempt_of (done (empty_hint sleep_until)) = none
  attempt_of (done empty) = none

  -- The attempts that the frontier hands out until the shutdown is seen.
  unfoldable pub handed_out : List (Turn Url) → List Text
  unfolding attempt_of
  handed_out [] = []
  handed_out (turn ∷ turns) =
      let rest = handed_out turns in
      if turn.stopping then [] else elim (attempt_of turn.claim) as (λ _. List Text) [
        | none ↦ if turn.woken then [] else rest
        | some attempt ↦ attempt ∷ rest
      ]

  unfoldable pub attempts : List (Step Url) → List Text
  attempts [] = []
  attempts (processed deps entry attempt trace ∷ steps) = attempt ∷ attempts steps
  attempts (slept d ∷ steps) = attempts steps

  -- A turn with its loop's rest, by the claim's reply.
  settles_turn :
      (turn : Turn Url) (turns : List (Turn Url))
      → (attempts (worker_loop turns) ≡ handed_out turns) × All IsSettled (worker_loop turns)
      → (attempts (worker_loop (turn ∷ turns)) ≡ handed_out (turn ∷ turns))
        × All IsSettled (worker_loop (turn ∷ turns))
  unfolding worker_loop attempts handed_out turn_step process_url breaks attempt_of
  settles_turn turn turns (same, settled) = by_reply turn.stopping turn.claim turn.woken
    where
      by_reply :
          (stopping : Bool) (r : Reply (ClaimOutcome Url)) (woken : Bool)
          → let t = record turn { stopping = stopping; claim = r; woken = woken } in
            (attempts (worker_loop (t ∷ turns)) ≡ handed_out (t ∷ turns))
            × All IsSettled (worker_loop (t ∷ turns))
      by_reply true r woken = (refl, tt)
      by_reply false (failed e) true = (refl, (omega arith, tt))
      by_reply false (failed e) false = (same, (omega arith, settled))
      by_reply false (done (claimed url_id entry attempt)) woken =
          (ap (λ rest. attempt ∷ rest) same, (run-Ends api turn.deps entry attempt, settled))
      by_reply false (done (empty_hint sleep_until)) true = (refl, (omega arith, tt))
      by_reply false (done (empty_hint sleep_until)) false = (same, (omega arith, settled))
      by_reply false (done empty) true = (refl, (omega arith, tt))
      by_reply false (done empty) false = (same, (omega arith, settled))

  -- Every attempt that the frontier hands out until the shutdown is seen is processed, in that order,
  -- and ends as the protocol of a URL says; no failed claim ends the loop, and no sleep is longer than
  -- the longest that is configured.
  pub worker_loop_settles :
      (turns : List (Turn Url))
      → (attempts (worker_loop turns) ≡ handed_out turns) × All IsSettled (worker_loop turns)
  unfolding worker_loop attempts handed_out
  worker_loop_settles [] = (refl, tt)
  worker_loop_settles (turn ∷ turns) = settles_turn turn turns (worker_loop_settles turns)
