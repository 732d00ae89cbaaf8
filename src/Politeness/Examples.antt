-- ===== src/Politeness/Examples.antt =====
-- crates/crawlrs-politeness: the theorems about backoff and the circuit at concrete inputs. The
-- numbers with a fraction are counted in halves here.
use crawlrs.Prelude.{
  pos, negsuc, ℕ, ◌+◌, ◌*◌, ◌/◌, ◌^◌, ◌≤◌, ◌≡◌, refl, min, true, false, not, ◌&&◌, [], ◌∷◌, none,
  some, ltb, if◌then◌else◌,
}
use crawlrs.Core.Error.{ok, timeout, too_many_requests}
use crawlrs.Core.Sharding.{single_shard}
use crawlrs.Politeness.Backoff.{
  Float, BackoffPolicy, scale, backoff_secs, compute_backoff, compute_backoff_bounds,
  compute_backoff_overflow, has_host_delay,
}
use crawlrs.Politeness.Composite.{
  TrackerState, Settings, as_millis, failures, assert_owned, read_circuit, note_failure,
}
use crawlrs.Politeness.Circuit.{read_circuit-note_failure}
use crawlrs.Fakes.Examples.{api, host_a}

abbrev halves : Float ℕ
halves = record {
  as_secs_f64 = λ d. 2 * d;
  one = 2;
  half = 1;
  mul = λ a b. a * b / 2;
  powi = λ m n. elim n as (λ _. ℕ) [ pos k ↦ 2 * (m / 2) ^ k | negsuc k ↦ 0 ];
  at_least_zero = λ a. a;
  try_from_secs_f64 = λ a. if ltb a 1_000_000 then some (a / 2) else none;
}

abbrev policy : BackoffPolicy ℕ
policy = record { initial_backoff = 30; max_backoff = 600; multiplier = 4; failure_threshold = 3 }

compute_backoff_bounds_example :
    (compute_backoff halves 4 timeout (some 900) policy ≤ 600)
    × (min 900 600 ≤ compute_backoff halves 4 timeout (some 900) policy)
compute_backoff_bounds_example = compute_backoff_bounds halves 4 timeout (some 900) policy

too_large :
    halves.try_from_secs_f64
      (halves.at_least_zero (backoff_secs halves 60 too_many_requests policy))
    ≡ none
unfolding backoff_secs scale
too_large = refl

compute_backoff_overflow_example :
    compute_backoff halves 60 too_many_requests none policy ≡ min 0 600
compute_backoff_overflow_example =
    compute_backoff_overflow halves 60 too_many_requests none policy too_large

abbrev settings : Settings ℕ ℕ
settings = record {
  sharding_policy = single_shard;
  owned_shards = 0 ∷ [];
  backoff = policy;
  config = record { host_delay = 0; obey_robots_txt = true; per_domain = [] };
}

abbrev fresh : TrackerState
fresh = record { hosts = []; hosts_with_failure_state = [] }

abbrev failed_once : TrackerState
failed_once = (note_failure api halves settings 0 timeout none host_a fresh).1

read_circuit-note_failure_example :
    (read_circuit api halves settings 9 host_a
      (note_failure api halves settings 5 timeout none host_a failed_once).1).0
    ≡ (not (ltb (failures host_a failed_once + 1) 3)
        && ltb
            (as_millis 9)
            (note_failure api halves settings 5 timeout none host_a failed_once).0.until_ms)
read_circuit-note_failure_example =
    read_circuit-note_failure api halves settings 5 9 timeout none host_a failed_once

shard_owned :
    assert_owned api halves settings (settings.sharding_policy.shard_key_from_host host_a) ≡ ok tt
unfolding assert_owned single_shard
shard_owned = refl

no_delay_set : has_host_delay settings.config ≡ false
unfolding has_host_delay
no_delay_set = refl
