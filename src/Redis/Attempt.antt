-- ===== src/Redis/Attempt.antt =====
-- crates/crawlrs-frontier/src/frontier.rs: `encode_attempt` and `decode_attempt`,
-- "s{shard}|{hex}|{host}".
use crawlrs.Prelude.{
  ℕ, ◌<◌, ◌≡◌, refl, List, [], ◌∷◌, ◌++◌, Option, none, some, arith, eqb, if◌then◌else◌, length,
  All,
}
use crawlrs.Core.Error.{Text, Result, ok, err, malformed_attempt}
use crawlrs.Core.UrlId.{to_hex, from_hex, IsByte, from_hex-to_hex, to_hex-All}
use crawlrs.Core.Decimal.{
  to_decimal, parse_u32, u32_mod, IsDigit, to_decimal-All, parse_u32-to_decimal,
}
use crawlrs.Fakes.Attempt.{split_once}
use crawlrs.Redis.Keys.{IsBarFree}

unfoldable pub encode_attempt : ℕ → List ℕ → Text → Text
encode_attempt shard url_id host =
    b's' ∷ (to_decimal shard ++ b'|' ∷ (to_hex url_id ++ b'|' ∷ host))

-- raw.splitn(3, '|'), where there are three parts.
unfoldable pub split_three : Text → Option (Text × Text × Text)
split_three raw = elim (split_once raw) [
  | none ↦ none
  | some (a, rest) ↦ elim (split_once rest) [ none ↦ none | some (b, c) ↦ some (a, b, c) ]
]

-- s.strip_prefix('s')
abbrev strip_s : Text → Option Text
strip_s [] = none
strip_s (c ∷ cs) = if eqb c b's' then some cs else none

unfoldable pub decode_attempt : Text → Result (ℕ × List ℕ × Text)
unfolding split_three
decode_attempt raw = elim (split_three raw) [
  | none ↦ err (malformed_attempt raw)
  | some (shard_str, url_id_hex, host) ↦ elim (strip_s shard_str) [
    | none ↦ err (malformed_attempt raw)
    | some s ↦ elim (parse_u32 s) [
      | none ↦ err (malformed_attempt raw)
      | some shard ↦ elim (from_hex url_id_hex) [
        | none ↦ err (malformed_attempt raw)
        | some url_id ↦ ok (shard, url_id, host)
      ]
    ]
  ]
]

split_once-bar : (xs ys : Text) → IsBarFree xs → split_once (xs ++ b'|' ∷ ys) ≡ some (xs, ys)
unfolding split_once
split_once-bar [] ys h = refl
split_once-bar (x ∷ xs) ys h = rw (split_once-bar xs ys h.1) (ground (arith, h.0))

digits-IsBarFree : (xs : Text) → All IsDigit xs → IsBarFree xs
digits-IsBarFree [] h = tt
digits-IsBarFree (x ∷ xs) h = (λ e. absurd (omega (arith, e, h.0)), digits-IsBarFree xs h.1)

-- The token of an attempt on Redis is decoded to the shard, the URL id and the host that it was
-- made of, for a shard that is a `u32` and an id of sixteen bytes, whatever the host contains.
pub decode-encode_attempt_host :
    (shard : ℕ) (url_id : List ℕ) (host : Text)
    → shard < u32_mod
    → length url_id ≡ 16
    → All IsByte url_id
    → decode_attempt (encode_attempt shard url_id host) ≡ ok (shard, url_id, host)
unfolding decode_attempt encode_attempt
decode-encode_attempt_host shard url_id host small sixteen bytes =
    rw (parts, decode_attempt)
      (rw (parse_u32-to_decimal shard small) (rw (from_hex-to_hex url_id sixteen bytes)))
  where
    tag_free : IsBarFree (b's' ∷ to_decimal shard)
    tag_free = (λ e. absurd (omega (arith, e)), digits-IsBarFree _ (to_decimal-All shard))

    parts :
        split_three (encode_attempt shard url_id host)
        ≡ some (b's' ∷ to_decimal shard, to_hex url_id, host)
    parts =
        unfold split_three encode_attempt in
        rw
          (
            split_once-bar (b's' ∷ to_decimal shard) (to_hex url_id ++ b'|' ∷ host) tag_free,
            split_three,
          )
          (rw (split_once-bar (to_hex url_id) host (to_hex-All url_id bytes)))
