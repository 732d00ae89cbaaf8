-- ===== src/Core/Canonical.antt =====
-- crates/crawlrs-core/src/url.rs: what the decoding of escapes does to a path in which every percent
-- sign starts an escape.
use crawlrs.Prelude.{
  ℕ, ◌≡◌, refl, sym, ap, ◌∙◌, true, false, List, [], ◌∷◌, Option, none, some, arith, eqb, contains,
  nat_eq, Option-cases, Bool-cases, inl, inr,
}
use crawlrs.Core.Error.{Text}
use crawlrs.Core.Escapes.{
  hex_digit, is_rfc3986_unreserved, percent, escaped_byte, octet, decode_octets,
  decode_unreserved_percent_octets,
}

-- Every percent sign of the text starts an escape of two hexadecimal digits.
pub data IsEscaped : Text → Type 0 where
  empty : IsEscaped []
  literal : (b : ℕ) (s : Text) → eqb b percent ≡ false → IsEscaped s → IsEscaped (b ∷ s)
  escape :
      (c d byte : ℕ) (s : Text)
      → escaped_byte percent c d ≡ some byte
      → IsEscaped s
      → IsEscaped (percent ∷ c ∷ d ∷ s)

resolve_octet : ℕ → Option ℕ → List ℕ → List ℕ → List ℕ
resolve_octet b none skip next = b ∷ next
resolve_octet b (some byte) skip next = byte ∷ skip

-- The bytes that a text stands for: every escape is its byte.
unfoldable pub resolve : Text → List ℕ
unfolding resolve_octet
resolve [] = []
resolve (b ∷ []) = b ∷ []
resolve (b ∷ c ∷ []) = b ∷ c ∷ []
resolve (b ∷ c ∷ d ∷ rest) =
    let skip = resolve rest in
    let next = resolve (c ∷ d ∷ rest) in resolve_octet b (escaped_byte b c d) skip next

escaped_byte-none : (b c d : ℕ) → eqb b percent ≡ false → escaped_byte b c d ≡ none
unfolding escaped_byte
escaped_byte-none b c d h = rw h refl

decode_literal :
    (b : ℕ) (s : Text) → eqb b percent ≡ false → decode_octets (b ∷ s) ≡ b ∷ decode_octets s
unfolding decode_octets octet
decode_literal b [] h = refl
decode_literal b (c ∷ []) h = refl
decode_literal b (c ∷ d ∷ s) h = rw (escaped_byte-none b c d h) refl

resolve_literal : (b : ℕ) (s : Text) → eqb b percent ≡ false → resolve (b ∷ s) ≡ b ∷ resolve s
unfolding resolve resolve_octet
resolve_literal b [] h = refl
resolve_literal b (c ∷ []) h = refl
resolve_literal b (c ∷ d ∷ s) h = rw (escaped_byte-none b c d h) refl

unreserved-literal : (byte : ℕ) → is_rfc3986_unreserved byte ≡ true → eqb byte percent ≡ false
unfolding is_rfc3986_unreserved
unreserved-literal byte h = ground arith

digit-literal : (c x : ℕ) → hex_digit c ≡ some x → eqb c percent ≡ false
unfolding hex_digit
digit-literal c x h = ground arith

digits-literal :
    (c d byte : ℕ)
    → escaped_byte percent c d ≡ some byte
    → (eqb c percent ≡ false) × (eqb d percent ≡ false)
unfolding escaped_byte
digits-literal c d byte = elim (Option-cases (hex_digit c)) [
  | inl z ↦ rw z (λ e. absurd (ground (arith, e)))
  | inr (hi, hc) ↦ elim (Option-cases (hex_digit d)) [
    | inl z ↦ rw hc (rw z (λ e. absurd (ground (arith, e))))
    | inr (lo, hd) ↦ λ e. (digit-literal c hi hc, digit-literal d lo hd)
  ]
]

-- An escape of a reserved byte stays.
decode_reserved :
    (c d byte : ℕ) (s : Text)
    → escaped_byte percent c d ≡ some byte
    → is_rfc3986_unreserved byte ≡ false
    → decode_octets (percent ∷ c ∷ d ∷ s) ≡ percent ∷ c ∷ d ∷ decode_octets s
unfolding decode_octets octet
decode_reserved c d byte s e h =
    let (hc, hd) = digits-literal c d byte e in
    rw e (
      rw h (
        ap (λ t. percent ∷ t)
          (decode_literal c (d ∷ s) hc ∙ ap (λ t. c ∷ t) (decode_literal d s hd))))

decode_unreserved :
    (c d byte : ℕ) (s : Text)
    → escaped_byte percent c d ≡ some byte
    → is_rfc3986_unreserved byte ≡ true
    → decode_octets (percent ∷ c ∷ d ∷ s) ≡ byte ∷ decode_octets s
unfolding decode_octets octet
decode_unreserved c d byte s e h = rw e (rw h refl)

resolve_escape :
    (c d byte : ℕ) (s : Text)
    → escaped_byte percent c d ≡ some byte
    → resolve (percent ∷ c ∷ d ∷ s) ≡ byte ∷ resolve s
unfolding resolve resolve_octet
resolve_escape c d byte s e = rw e refl

-- What a decoded text keeps of its source.
abbrev IsSettled : Text → Text → Type 0
IsSettled s t = IsEscaped t × (decode_octets t ≡ t) × (resolve t ≡ resolve s)

settled_cons :
    (b : ℕ) (s t : Text)
    → eqb b percent ≡ false
    → IsSettled s t
    → IsEscaped (b ∷ t) × (decode_octets (b ∷ t) ≡ b ∷ t) × (resolve (b ∷ t) ≡ b ∷ resolve s)
settled_cons b s t h (w, stable, same) = (
  literal b t h w,
  decode_literal b t h ∙ ap (λ u. b ∷ u) stable,
  resolve_literal b t h ∙ ap (λ u. b ∷ u) same,
)

escape-IsSettled :
    (c d byte : ℕ) (t u : Text)
    → escaped_byte percent c d ≡ some byte
    → is_rfc3986_unreserved byte ≡ false
    → IsSettled t u
    → IsSettled (percent ∷ c ∷ d ∷ t) (percent ∷ c ∷ d ∷ u)
escape-IsSettled c d byte t u e h (w, stable, same) = (
  escape c d byte u e w,
  decode_reserved c d byte u e h ∙ ap (λ v. percent ∷ c ∷ d ∷ v) stable,
  resolve_escape c d byte u e ∙ ap (λ v. byte ∷ v) same ∙ sym (resolve_escape c d byte t e),
)

empty-IsSettled : IsSettled [] (decode_octets [])
unfolding decode_octets resolve
empty-IsSettled = (empty, refl, refl)

decode_octets_settles : (s : Text) → IsEscaped s → IsSettled s (decode_octets s)
decode_octets_settles s empty = empty-IsSettled
decode_octets_settles s (literal b t h w) =
    rw (decode_literal b t h) (
      rw (resolve_literal b t h) (settled_cons b t (decode_octets t) h (decode_octets_settles t w)))
decode_octets_settles s (escape c d byte t e w) = elim (Bool-cases (is_rfc3986_unreserved byte)) [
  | inl h ↦ rw (decode_unreserved c d byte t e h) (
      rw (resolve_escape c d byte t e) (
        settled_cons byte t (decode_octets t) (unreserved-literal byte h)
          (decode_octets_settles t w)))
  | inr h ↦
      rw (decode_reserved c d byte t e h)
        (escape-IsSettled c d byte t (decode_octets t) e h (decode_octets_settles t w))
]

-- A text without a percent sign is not changed, so the early return of the code changes nothing.
decode_clean : (s : Text) → contains s percent ≡ false → decode_octets s ≡ s
unfolding decode_octets
decode_clean [] h = refl
decode_clean (b ∷ s) h =
    decode_literal b s (ground (arith, h)) ∙ ap (λ t. b ∷ t) (decode_clean s (ground (arith, h)))

without_shortcut : (s : Text) → decode_unreserved_percent_octets s ≡ decode_octets s
unfolding decode_unreserved_percent_octets
without_shortcut s = elim (Bool-cases (contains s percent)) [
  | inl h ↦ rw h refl
  | inr h ↦ rw h (sym (decode_clean s h))
]

-- In a path in which every percent sign starts an escape, decoding the unreserved bytes leaves such
-- a path, which stands for the same bytes and which a second decoding does not change.
pub decode_settles :
    (s : Text)
    → IsEscaped s
    → let t = decode_unreserved_percent_octets s in
      IsEscaped t × (decode_unreserved_percent_octets t ≡ t) × (resolve t ≡ resolve s)
decode_settles s w =
    rw (without_shortcut s) (rw (without_shortcut (decode_octets s)) (decode_octets_settles s w))
