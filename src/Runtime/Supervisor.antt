-- ===== src/Runtime/Supervisor.antt =====
-- crates/crawlrs-runtime/src/supervisor.rs: the restart budget of a worker. A `Duration` is a
-- number of nanoseconds, at most `duration_max`.
use crawlrs.Prelude.{
  ℕ, ◌+◌, ◌-◌, ◌*◌, ◌/◌, ◌%◌, ◌^◌, min, Bool, List, [], ◌∷◌, Option, none, some, leb, ltb,
  if◌then◌else◌,
}

pub record RestartPolicy : Type 0 where
  pub max_restarts : ℕ
  pub base_backoff : ℕ
  pub max_backoff : ℕ
  pub reset_window : ℕ

abbrev pub default_policy : RestartPolicy
default_policy = record {
  max_restarts = 5;
  base_backoff = 100 * 1_000_000;
  max_backoff = 30 * 1_000_000_000;
  reset_window = 300 * 1_000_000_000;
}

pub record RestartState : Type 0 where
  pub policy : RestartPolicy
  pub restart_count : ℕ
  pub last_restart_ms : Option ℕ

unfoldable pub new_state : RestartPolicy → RestartState
new_state policy = record { policy = policy; restart_count = 0; last_restart_ms = none }

pub data RestartDecision : Type 0 where
  restart : ℕ → RestartDecision
  give_up : RestartDecision

abbrev pub duration_max : ℕ
duration_max = (2 ^ 64 - 1) * 1_000_000_000 + 999_999_999

-- `as_millis() as u64`.
abbrev pub as_millis : ℕ → ℕ
as_millis d = d / 1_000_000 % 2 ^ 64

-- `1u32.checked_shl(exponent).unwrap_or(u32::MAX)`.
unfoldable pub scale_of : ℕ → ℕ
scale_of exponent = if ltb exponent 32 then 2 ^ exponent else 2 ^ 32 - 1

-- The count after the reset that a stable worker earns.
unfoldable pub fresh_count : ℕ → RestartState → ℕ
fresh_count now_ms s = elim s.last_restart_ms [
  | none ↦ s.restart_count
  | some last_ms ↦
      if ltb (as_millis s.policy.reset_window) (now_ms - last_ms) then 0 else s.restart_count
]

unfoldable pub backoff_of : RestartPolicy → ℕ → ℕ
unfolding scale_of
backoff_of policy restart_count =
    min (min (policy.base_backoff * scale_of (restart_count - 1)) duration_max) policy.max_backoff

unfoldable pub decide_restart : ℕ → RestartState → RestartDecision × RestartState
unfolding fresh_count backoff_of
decide_restart now_ms s =
    let count = fresh_count now_ms s in
    if leb s.policy.max_restarts count then (give_up, record s { restart_count = count }) else (
      restart (backoff_of s.policy (count + 1)),
      record s { restart_count = count + 1; last_restart_ms = some now_ms },
    )

-- One exit of the worker: what the shutdown signal shows before the spawn, at the exit and during
-- the backoff, and the time of the exit.
pub record Exit : Type 0 where
  pub shutdown_before : Bool
  pub shutdown_after : Bool
  pub now_ms : ℕ
  pub shutdown_in_backoff : Bool

-- `supervise_worker` over the exits of its worker; the result is the backoffs before the respawns.
unfoldable pub supervise : List Exit → RestartState → List ℕ
supervise [] s = []
supervise (x ∷ xs) s =
    let later = supervise xs (decide_restart x.now_ms s).1 in
    if x.shutdown_before
    then []
    else if x.shutdown_after
    then []
    else elim (decide_restart x.now_ms s).0 [
      | give_up ↦ []
      | restart backoff ↦ if x.shutdown_in_backoff then [] else backoff ∷ later
    ]
