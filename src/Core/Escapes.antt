-- ===== src/Core/Escapes.antt =====
-- crates/crawlrs-core/src/url.rs: the percent escapes of a path, whose bytes are ASCII. The scan by an
-- index is a recursion on the rest of the text.
use Prim.Native.Nat.{bit_or}
use crawlrs.Prelude.{
  ℕ, ◌+◌, ◌-◌, ◌*◌, Bool, ◌&&◌, ◌||◌, [], ◌∷◌, Option, none, some, leb, eqb, if◌then◌else◌,
  contains, nat_eq,
}
use crawlrs.Core.Error.{Text}

unfoldable pub hex_digit : ℕ → Option ℕ
hex_digit b =
    if leb b'0' b && leb b b'9'
    then some (b - b'0')
    else if leb b'a' b && leb b b'f'
    then some (b - b'a' + 10)
    else if leb b'A' b && leb b b'F'
    then some (b - b'A' + 10)
    else none

unfoldable pub is_rfc3986_unreserved : ℕ → Bool
is_rfc3986_unreserved byte =
    leb b'A' byte && leb byte b'Z'
    || leb b'a' byte && leb byte b'z'
    || leb b'0' byte && leb byte b'9'
    || eqb byte b'-'
    || eqb byte b'.'
    || eqb byte b'_'
    || eqb byte b'~'

abbrev pub percent : ℕ
percent = b'%'

-- The byte of the escape that these three bytes are, if they are one.
unfoldable pub escaped_byte : ℕ → ℕ → ℕ → Option ℕ
unfolding hex_digit
escaped_byte b c d =
    if eqb b percent
    then elim (hex_digit c) as (λ _. Option ℕ) [
      | none ↦ none
      | some hi ↦ elim (hex_digit d) as (λ _. Option ℕ) [
        | none ↦ none
        | some lo ↦ some (bit_or (hi * 16) lo)
      ]
    ]
    else none

-- One turn of the loop, where `skip` is the rest of the output after three bytes, `next` after one.
unfoldable pub octet : ℕ → Option ℕ → Text → Text → Text
octet b none skip next = b ∷ next
octet b (some byte) skip next = if is_rfc3986_unreserved byte then byte ∷ skip else b ∷ next

unfoldable pub decode_octets : Text → Text
unfolding octet
decode_octets [] = []
decode_octets (b ∷ []) = b ∷ []
decode_octets (b ∷ c ∷ []) = b ∷ c ∷ []
decode_octets (b ∷ c ∷ d ∷ rest) =
    let skip = decode_octets rest in
    let next = decode_octets (c ∷ d ∷ rest) in octet b (escaped_byte b c d) skip next

unfoldable pub decode_unreserved_percent_octets : Text → Text
unfolding decode_octets
decode_unreserved_percent_octets s = if contains s percent then decode_octets s else s
