-- ===== src/Fakes/Attempt.antt =====
-- crates/crawlrs-fakes/src/frontier.rs: `encode_attempt` and `decode_attempt`, "{shard}|{hex}".
use crawlrs.Prelude.{
  ℕ, ◌<◌, ◌≡◌, refl, List, [], ◌∷◌, ◌++◌, Option, none, some, arith, eqb, if◌then◌else◌, length,
  All,
}
use crawlrs.Core.Error.{Text, Result, ok, err, malformed_attempt}
use crawlrs.Core.UrlId.{to_hex, from_hex, IsByte, from_hex-to_hex}
use crawlrs.Core.Decimal.{
  to_decimal, parse_u32, u32_mod, IsDigit, to_decimal-All, parse_u32-to_decimal,
}

unfoldable pub encode_attempt : ℕ → List ℕ → Text
encode_attempt shard url_id = to_decimal shard ++ b'|' ∷ to_hex url_id

-- `str::split_once` at the first '|'.
unfoldable pub split_once : Text → Option (Text × Text)
split_once [] = none
split_once (c ∷ cs) =
    let rest = split_once cs in
    if eqb c b'|' then some ([], cs) else elim rest [ none ↦ none | some (a, b) ↦ some (c ∷ a, b) ]

unfoldable pub decode_attempt : Text → Result (ℕ × List ℕ)
unfolding split_once
decode_attempt raw = elim (split_once raw) [
  | none ↦ err (malformed_attempt raw)
  | some (shard_str, id_hex) ↦ elim (parse_u32 shard_str) [
    | none ↦ err (malformed_attempt raw)
    | some shard ↦ elim (from_hex id_hex) [
      | none ↦ err (malformed_attempt raw)
      | some url_id ↦ ok (shard, url_id)
    ]
  ]
]

split_once-append : (xs ys : Text) → All IsDigit xs → split_once (xs ++ b'|' ∷ ys) ≡ some (xs, ys)
unfolding split_once
split_once-append [] ys h = refl
split_once-append (x ∷ xs) ys h = ground (arith, split_once-append xs ys h.1)

-- The token of an attempt is decoded to the shard and the URL id that it was made of, for a shard
-- that is a `u32` and an id of sixteen bytes.
pub decode-encode_attempt :
    (shard : ℕ) (url_id : List ℕ)
    → shard < u32_mod
    → length url_id ≡ 16
    → All IsByte url_id
    → decode_attempt (encode_attempt shard url_id) ≡ ok (shard, url_id)
unfolding decode_attempt encode_attempt
decode-encode_attempt shard url_id small sixteen bytes =
    rw (split_once-append (to_decimal shard) (to_hex url_id) (to_decimal-All shard), decode_attempt)
      (rw (parse_u32-to_decimal shard small) (rw (from_hex-to_hex url_id sixteen bytes)))
