-- ===== src/Core/Error.antt =====
-- crates/crawlrs-core/src/error.rs. A message is kept as the constructor that builds it and the
-- values that it prints; `missing_row` is the one of an unknown URL, whose words differ between the
-- in-memory ledger and the Postgres store. `panic` stands for a failed `expect`, `unwrap` or index.
use crawlrs.Prelude.{ℕ, List, ◌≡◌, refl, ◌⊎◌, inl, inr}

abbrev pub Text : Type 0
Text = List ℕ

-- traits/politeness.rs
pub data FailureKind : Type 0 where
  too_many_requests service_unavailable not_found client_error server_error : FailureKind
  connect_reset timeout dns_failure tls_error unreachable resource_exhausted other : FailureKind

pub data Error : Type 0 where
  transport : FailureKind → Text → Error
  fetch : Text → Error
  shard_not_owned : ℕ → List ℕ → Error
  shard_out_of_range : ℕ → ℕ → Error
  no_host : Text → Error
  malformed_attempt : Text → Error
  missing_row : Text → Error
  sqlx : Text → Error
  unknown_status : Text → Error
  unparsable_row : ℕ → Text → Error
  politeness : Text → Error
  store : Text → Error
  backend : Text → Error

pub data Result {ℓ} (A : Type ℓ) : Type ℓ where
  ok : A → Result A
  err : Error → Result A
  panic : Result A

infixl 5 ◌>>=◌
abbrev pub ◌>>=◌ {ℓ κ} : {A : Type ℓ} {B : Type κ} → Result A → (A → Result B) → Result B
ok a >>= f = f a
err e >>= f = err e
panic >>= f = panic

pub Result-cases {ℓ} :
    {A : Type ℓ} (r : Result A)
    → ((a : A) × (r ≡ ok a)) ⊎ (((e : Error) × (r ≡ err e)) ⊎ (r ≡ panic))
Result-cases (ok a) = inl (a, refl)
Result-cases (err e) = inr (inl (e, refl))
Result-cases panic = inr (inr refl)
