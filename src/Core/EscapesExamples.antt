-- ===== src/Core/EscapesExamples.antt =====
-- crates/crawlrs-core/src/url.rs: the decoding of escapes at concrete paths.
use crawlrs.Prelude.{◌≡◌, refl, [], ◌∷◌}
use crawlrs.Core.Error.{Text}
use crawlrs.Core.Escapes.{
  hex_digit, escaped_byte, octet, is_rfc3986_unreserved, decode_octets,
  decode_unreserved_percent_octets,
}
use crawlrs.Core.Canonical.{IsEscaped, empty, literal, escape, resolve, decode_settles}

-- "/%66%2f"
abbrev mixed_path : Text
mixed_path = b'/' ∷ b'%' ∷ b'6' ∷ b'6' ∷ b'%' ∷ b'2' ∷ b'f' ∷ []

-- "/f%2f"
abbrev decoded_path : Text
decoded_path = b'/' ∷ b'f' ∷ b'%' ∷ b'2' ∷ b'f' ∷ []

mixed_path_decoded : decode_unreserved_percent_octets mixed_path ≡ decoded_path
unfolding decode_unreserved_percent_octets decode_octets octet escaped_byte hex_digit
    is_rfc3986_unreserved
mixed_path_decoded = refl

mixed_path-IsEscaped : IsEscaped mixed_path
unfolding escaped_byte hex_digit
mixed_path-IsEscaped =
    literal b'/' _ refl (escape b'6' b'6' b'f' _ refl (escape b'2' b'f' b'/' [] refl empty))

decode_settles_example :
    let t = decode_unreserved_percent_octets mixed_path in
    IsEscaped t × (decode_unreserved_percent_octets t ≡ t) × (resolve t ≡ resolve mixed_path)
decode_settles_example = decode_settles mixed_path mixed_path-IsEscaped

-- A percent sign that starts no escape: "%%341" is decoded to "%41", and that to "A".
bare_percent :
    decode_unreserved_percent_octets
      (decode_unreserved_percent_octets (b'%' ∷ b'%' ∷ b'3' ∷ b'4' ∷ b'1' ∷ []))
    ≡ b'A' ∷ []
unfolding decode_unreserved_percent_octets decode_octets octet escaped_byte hex_digit
    is_rfc3986_unreserved
bare_percent = refl
