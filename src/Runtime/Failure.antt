-- ===== src/Runtime/Failure.antt =====
-- crates/crawlrs-runtime/src/failure.rs: the category of a failed fetch, and the Retry-After
-- header. Times are in milliseconds. Of the white space that `trim` takes, the ASCII one is
-- modelled, which header values are restricted to.
use crawlrs.Prelude.{
  ℕ, ◌+◌, ◌-◌, ◌*◌, ◌^◌, Bool, true, false, ◌&&◌, ◌||◌, List, [], ◌∷◌, Option, none, some, leb, eqb,
  ◌↔◌, if◌then◌else◌, list_eq, nat_eq, ◌==◌, arith, ◌≡◌, ◌≤◌, String,
}
use crawlrs.Core.Error.{
  Text, Error, transport, FailureKind, too_many_requests, service_unavailable, not_found,
  client_error, server_error, connect_reset, timeout, dns_failure, tls_error, unreachable,
  resource_exhausted, other,
}
use crawlrs.Core.Ascii.{codes}
use crawlrs.Core.Decimal.{parse_uint}

in_range : ℕ → ℕ → ℕ → Bool
in_range lo hi n = leb lo n && leb n hi

unfoldable pub classify_status : ℕ → Option FailureKind
unfolding in_range
classify_status status =
    if in_range 200 399 status
    then none
    else if eqb status 404 || eqb status 410
    then some not_found
    else if eqb status 429
    then some too_many_requests
    else if in_range 400 499 status
    then some client_error
    else if eqb status 503
    then some service_unavailable
    else if in_range 500 599 status
    then some server_error
    else some other

is_prefix : Text → Text → Bool
is_prefix [] t = true
is_prefix (c ∷ cs) [] = false
is_prefix (c ∷ cs) (d ∷ t) = eqb c d && is_prefix cs t

-- `str::contains`.
has_text : Text → Text → Bool
unfolding is_prefix
has_text needle [] = is_prefix needle []
has_text needle (c ∷ t) = is_prefix needle (c ∷ t) || has_text needle t

has_any : Text → List String → Bool
unfolding has_text
has_any t [] = false
has_any t (needle ∷ needles) = has_text (codes needle) t || has_any t needles

-- `classify_transport_error`, behind the walk over the sources of the error.
unfoldable pub classify_transport_text : Text → FailureKind
unfolding has_any
classify_transport_text t =
    if has_any t ("too many open files" ∷ "emfile" ∷ [])
    then resource_exhausted
    else if has_any t ("tls" ∷ "ssl" ∷ "handshake" ∷ "certificate" ∷ [])
    then tls_error
    else if has_any t ("dns error" ∷ "name resolution" ∷ "failed to lookup" ∷ [])
    then dns_failure
    else if has_any t (
        "network is unreachable" ∷ "network unreachable" ∷ "no route to host"
        ∷ "host is unreachable" ∷ "host unreachable" ∷ [])
    then unreachable
    else if has_any t ("timeout" ∷ "timed out" ∷ [])
    then timeout
    else if has_any t
        ("connection reset" ∷ "connection aborted" ∷ "broken pipe" ∷ "connection refused" ∷ [])
    then connect_reset
    else if has_any t
        ("address not available" ∷ "cannot assign requested address" ∷ "eaddrnotavail" ∷ [])
    then resource_exhausted
    else other

unfoldable pub classify_transport_error : (Error → Text) → Error → FailureKind
unfolding classify_transport_text
classify_transport_error error_text e = classify_transport_text (error_text e)

-- The category of a fetch error: the fetcher's own, or the one of its text.
unfoldable pub failure_kind : (Error → Text) → Error → FailureKind
unfolding classify_transport_error
failure_kind error_text (transport kind message) = kind
failure_kind error_text e = classify_transport_error error_text e

is_space : ℕ → Bool
is_space c = eqb c b' ' || (leb 9 c && leb c 13)

trim_start : Text → Text
unfolding is_space
trim_start [] = []
trim_start (c ∷ cs) = let rest = trim_start cs in if is_space c then rest else c ∷ cs

trim_end : Text → Text
unfolding is_space
trim_end [] = []
trim_end (c ∷ cs) = elim (trim_end cs) [
  | [] ↦ if is_space c then [] else c ∷ []
  | d ∷ ds ↦ c ∷ d ∷ ds
]

-- `httpdate::parse_http_date` and the time that `SystemTime::now` shows are arguments.
unfoldable pub parse_retry_after : (Text → Option ℕ) → ℕ → Text → Option ℕ
unfolding trim_start trim_end
parse_retry_after parse_http_date now_ms value =
    let trimmed = trim_end (trim_start value) in
    if trimmed == [] then none else elim (parse_uint (2 ^ 64) trimmed) [
      | some secs ↦ some (secs * 1000)
      | none ↦ elim (parse_http_date trimmed) [ none ↦ none | some when ↦ some (when - now_ms) ]
    ]

to_ascii_lowercase : ℕ → ℕ
to_ascii_lowercase c = if leb b'A' c && leb c b'Z' then c + 32 else c

eq_ignore_ascii_case : Text → Text → Bool
unfolding to_ascii_lowercase
eq_ignore_ascii_case [] [] = true
eq_ignore_ascii_case [] (d ∷ ds) = false
eq_ignore_ascii_case (c ∷ cs) [] = false
eq_ignore_ascii_case (c ∷ cs) (d ∷ ds) =
    eqb (to_ascii_lowercase c) (to_ascii_lowercase d) && eq_ignore_ascii_case cs ds

unfoldable pub extract_retry_after : (Text → Option ℕ) → ℕ → List (Text × Text) → Option ℕ
unfolding eq_ignore_ascii_case parse_retry_after
extract_retry_after parse_http_date now_ms [] = none
extract_retry_after parse_http_date now_ms ((name, value) ∷ headers) =
    let rest = extract_retry_after parse_http_date now_ms headers in
    if eq_ignore_ascii_case name (codes "retry-after")
    then parse_retry_after parse_http_date now_ms value
    else rest

-- A status counts as a success exactly from 200 to 399; a host is told to be rate limiting exactly
-- for 429, and overloaded exactly for 503.
pub classify_status_ranges :
    (status : ℕ)
    → ((classify_status status ≡ none) ↔ ((200 ≤ status) × (status ≤ 399)))
      × ((classify_status status ≡ some too_many_requests) ↔ (status ≡ 429))
      × ((classify_status status ≡ some service_unavailable) ↔ (status ≡ 503))
unfolding classify_status
classify_status_ranges status = ground arith
