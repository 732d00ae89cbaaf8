-- ===== src/Politeness/Backoff.antt =====
-- crates/crawlrs-politeness/src/failure.rs and config.rs: the backoff after failures. A `Duration`
-- is a number of nanoseconds; the operations on `f64` are parameters.
use crawlrs.Prelude.{
  ℤ, to_signed, ◌^◌, ℕ, ◌-◌, ◌≤◌, ◌≡◌, refl, min, max, Bool, false, not, ◌||◌, [], ◌∷◌, Option,
  none, some, eqb, if◌then◌else◌, arith, Bool-cases, inl, inr, unwrap_or,
}
use crawlrs.Prelude.Map.{Map}
use crawlrs.Core.Error.{Text, FailureKind, too_many_requests, service_unavailable, connect_reset}

-- What the code asks of `f64`: `as_secs_f64`, `1.0`, `0.5`, the product, `powi`, `max(0.0)` and
-- `Duration::try_from_secs_f64`, which fails on a value that no `Duration` holds.
pub record Float (F : Type 0) : Type 0 where
  pub as_secs_f64 : ℕ → F
  pub one : F
  pub half : F
  pub mul : F → F → F
  pub powi : F → ℤ → F
  pub at_least_zero : F → F
  pub try_from_secs_f64 : F → Option ℕ

pub record BackoffPolicy (F : Type 0) : Type 0 where
  pub initial_backoff : ℕ
  pub max_backoff : ℕ
  pub multiplier : F
  pub failure_threshold : ℕ

module _ {F : Type 0} (f64 : Float F) where
  unfoldable pub scale : FailureKind → F
  scale too_many_requests = f64.one
  scale service_unavailable = f64.one
  scale connect_reset = f64.one
  scale _ = f64.half

  -- The exponent is `(consecutive_failures - 1) as i32`.
  unfoldable pub backoff_secs : ℕ → FailureKind → BackoffPolicy F → F
  unfolding scale
  backoff_secs consecutive_failures kind policy =
      f64.mul (f64.mul (f64.as_secs_f64 policy.initial_backoff) (scale kind))
        (f64.powi policy.multiplier (to_signed (2 ^ 31) (consecutive_failures - 1)))

  -- The wait without the server's hint.
  unfoldable pub computed : ℕ → FailureKind → BackoffPolicy F → ℕ
  unfolding backoff_secs
  computed consecutive_failures kind policy =
      if eqb consecutive_failures 0
      then 0
      else min
          (unwrap_or
            (f64.try_from_secs_f64
              (f64.at_least_zero (backoff_secs consecutive_failures kind policy)))
            0)
          policy.max_backoff

  unfoldable pub compute_backoff : ℕ → FailureKind → Option ℕ → BackoffPolicy F → ℕ
  unfolding computed
  compute_backoff consecutive_failures kind none policy = computed consecutive_failures kind policy
  compute_backoff consecutive_failures kind (some hint) policy =
      max (computed consecutive_failures kind policy) (min hint policy.max_backoff)

  -- The wait never exceeds the policy's limit, and never undercuts the server's hint, itself cut off
  -- at that limit.
  pub compute_backoff_bounds :
      (failures : ℕ) (kind : FailureKind) (hint : Option ℕ) (policy : BackoffPolicy F)
      → (compute_backoff failures kind hint policy ≤ policy.max_backoff)
        × (min (unwrap_or hint 0) policy.max_backoff ≤ compute_backoff failures kind hint policy)
  unfolding compute_backoff computed
  compute_backoff_bounds failures kind none policy = ground arith
  compute_backoff_bounds failures kind (some hint) policy = ground arith

  -- When the product is too large for a `Duration`, there is no wait at all beyond the server's hint.
  pub compute_backoff_overflow :
      (failures : ℕ) (kind : FailureKind) (hint : Option ℕ) (policy : BackoffPolicy F)
      → f64.try_from_secs_f64 (f64.at_least_zero (backoff_secs failures kind policy)) ≡ none
      → compute_backoff failures kind hint policy ≡ min (unwrap_or hint 0) policy.max_backoff
  unfolding compute_backoff computed
  compute_backoff_overflow failures kind hint policy lost = by_hint hint
    where
      nothing : computed failures kind policy ≡ 0
      nothing = elim (Bool-cases (eqb failures 0)) [
        | inl e ↦ rw (e, computed) refl
        | inr e ↦ rw (e, computed) (rw lost (omega arith))
      ]

      by_hint :
          (h : Option ℕ)
          → compute_backoff failures kind h policy ≡ min (unwrap_or h 0) policy.max_backoff
      by_hint none = omega (arith, nothing)
      by_hint (some d) = omega (arith, nothing)

pub record PolitenessOverride : Type 0 where
  pub host_delay : Option ℕ
  pub obey_robots_txt : Option Bool
  pub robots_ttl : Option ℕ

-- The fields that the planner and the composite read.
pub record PolitenessConfig : Type 0 where
  pub host_delay : ℕ
  pub obey_robots_txt : Bool
  pub per_domain : Map Text PolitenessOverride

unfoldable pub is_delay : Option ℕ → Bool
is_delay none = false
is_delay (some d) = not (eqb d 0)

unfoldable pub any_delay : Map Text PolitenessOverride → Bool
unfolding is_delay
any_delay [] = false
any_delay ((host, o) ∷ m) = is_delay o.host_delay || any_delay m

unfoldable pub has_host_delay : PolitenessConfig → Bool
unfolding any_delay
has_host_delay c = not (eqb c.host_delay 0) || any_delay c.per_domain
