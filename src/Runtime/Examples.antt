-- ===== src/Runtime/Examples.antt =====
-- crates/crawlrs-runtime: the theorems about the pipeline and the supervisor at concrete inputs.
use crawlrs.Prelude.{
  true, false, ℕ, ◌≤◌, ◌≡◌, refl, List, [], ◌∷◌, ◌++◌, Option, none, some, arith, All, length,
}
use crawlrs.Core.Error.{Text, backend}
use crawlrs.Core.Types.{allow, direct, ClaimOutcome, claimed, empty_hint, empty}
use crawlrs.Core.Sharding.{single_shard}
use crawlrs.Runtime.Effects.{Reply, done, failed, FetchResponse, ParsedDocument, WorkerDeps}
use crawlrs.Runtime.Outbound.{
  OutboundPartition, Follows, WithinCap, compute_outbound, compute_outbound_lem,
  compute_outbound-WithinCap,
}
use crawlrs.Runtime.Pipeline.{run, finalize}
use crawlrs.Runtime.Order.{Ends, run-Ends}
use crawlrs.Runtime.Dispatch.{handed_on, stored_links, finalize_hands_on_once}
use crawlrs.Runtime.WorkerLoop.{
  Sleeps, Turn, IsSettled, attempts, handed_out, worker_loop, worker_loop_settles,
}
use crawlrs.Runtime.Supervisor.{default_policy, new_state, Exit, supervise}
use crawlrs.Runtime.Budget.{supervise_budget, supervise_stable}
use crawlrs.Fakes.Examples.{api, entry, host_a}

abbrev page : FetchResponse ℕ
page = record { url = 7; status = 200; headers = []; body = 1 ∷ 2 ∷ [] }

abbrev document : ParsedDocument ℕ
document = record { url = 7; title = none; text = none; outbound_links = 8 ∷ 9 ∷ [] }

abbrev deps : WorkerDeps ℕ
deps = record {
  check = λ t u. done allow;
  record_failure = λ t u k h. done (record { host = host_a; until_ms = 60 });
  record_fetch = λ t u. done (record { host = host_a; until_ms = 50 });
  fetch = λ t u. done page;
  find_for = λ u. none;
  extract = λ t a r. done none;
  parse = λ t r. done document;
  write = λ t r. done (1 ∷ []);
  mark_failed = λ t u k. done 1;
  submit_batch = λ t es. done (record { queued = 2; rejected_urls = [] });
  now_ms = λ t. 10;
  parse_http_date = λ t. none;
  error_text = λ e. [];
  crawl_scope = record { max_depth = some 3; max_urls = none; per_domain = [] };
  blocklist = record { hosts = [] };
  run_id = [];
  sharding_policy = single_shard;
  max_retries = 5;
  link_dispatch = direct;
}

abbrev token : Text
token = b'0' ∷ []

run-Ends_example : Ends api deps (entry 7) token (run api deps (entry 7) token []).1
run-Ends_example = run-Ends api deps (entry 7) token

abbrev cap : Text → Option ℕ
cap host = some 3

compute_outbound-WithinCap_example :
    All (WithinCap api cap (entry 7)) (compute_outbound api cap (entry 7) document).kept
compute_outbound-WithinCap_example = compute_outbound-WithinCap api cap (entry 7) document

compute_outbound_lem_example :
    Follows api cap
      (entry 7)
      (8 ∷ 9 ∷ [])
      (compute_outbound api cap (entry 7) document).kept
      (compute_outbound api cap (entry 7) document).depth_skipped
compute_outbound_lem_example = compute_outbound_lem api cap (entry 7) document

abbrev partition : OutboundPartition ℕ
partition = record { kept = entry 8 ∷ entry 9 ∷ []; depth_skipped = [] }

finalize_hands_on_once_example :
    handed_on (finalize api deps (entry 7) token page document partition []).1
    ≡ stored_links api deps (entry 7) token (done (1 ∷ [])) partition ++ handed_on {Url = ℕ} []
finalize_hands_on_once_example =
    finalize_hands_on_once api deps (entry 7) token page document partition []

abbrev exit_at : ℕ → Exit
exit_at ms = record {
  shutdown_before = false;
  shutdown_after = false;
  now_ms = ms;
  shutdown_in_backoff = false;
}

abbrev crashes : List Exit
crashes =
    exit_at 10 ∷ exit_at 20 ∷ exit_at 30 ∷ exit_at 40 ∷ exit_at 50 ∷ exit_at 60 ∷ exit_at 70 ∷ []

supervise_budget_example : length (supervise crashes (new_state default_policy)) ≤ 5
supervise_budget_example = supervise_budget default_policy crashes (omega arith)

abbrev rare_crashes : List Exit
rare_crashes = exit_at 0 ∷ exit_at 400_000 ∷ exit_at 800_000 ∷ []

supervise_stable_example : length (supervise rare_crashes (new_state default_policy)) ≡ 3
supervise_stable_example =
    supervise_stable default_policy rare_crashes (omega arith)
      (refl, refl, refl, (refl, refl, refl, omega arith, (refl, refl, refl, omega arith, tt)))

abbrev sleeps : Sleeps
sleeps = record { max_idle_sleep = 500; empty_queue_poll = 100; error_backoff = 250 }

abbrev turn : Reply (ClaimOutcome ℕ) → Turn ℕ
turn r = record { deps = deps; stopping = false; claim = r; now = 20; woken = false }

abbrev turns : List (Turn ℕ)
turns =
    turn (failed (backend []))
    ∷ turn (done (claimed (b'1' ∷ []) (entry 7) token))
    ∷ turn (done (empty_hint 900))
    ∷ record (turn (done empty)) { woken = true }
    ∷ []

worker_loop_settles_example :
    (attempts api sleeps (worker_loop api sleeps turns) ≡ handed_out api sleeps turns)
    × All (IsSettled api sleeps) (worker_loop api sleeps turns)
worker_loop_settles_example = worker_loop_settles api sleeps turns
