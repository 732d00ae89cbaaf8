-- ===== src/Core/UrlId.antt =====
-- crates/crawlrs-core/src/types.rs: `UrlId`, sixteen bytes, and its hexadecimal text.
use Prim.Native.Nat.{bit_or}
use crawlrs.Prelude.{
  ℕ, zero, suc, ◌+◌, ◌-◌, ◌*◌, ◌/◌, ◌%◌, ◌<◌, ◌≡◌, refl, Bool, true, false, ◌&&◌, List, [], ◌∷◌,
  Option, none, some, arith, ltb, leb, eqb, if◌then◌else◌, length, take, All, ◌≢◌,
}
use crawlrs.Core.Error.{Text}
use crawlrs.Core.Types.{UrlApi}

-- `{:x}` of a number below 16.
abbrev hex_char : ℕ → ℕ
hex_char n = if ltb n 10 then b'0' + n else b'a' + (n - 10)

-- `char::to_digit(16)`.
abbrev to_digit : ℕ → Option ℕ
to_digit c =
    if leb b'0' c && leb c b'9'
    then some (c - b'0')
    else if leb b'a' c && leb c b'f'
    then some (c - b'a' + 10)
    else if leb b'A' c && leb c b'F'
    then some (c - b'A' + 10)
    else none

-- write!(out, "{byte:02x}")
unfoldable pub to_hex : List ℕ → Text
to_hex [] = []
to_hex (byte ∷ bytes) = hex_char (byte / 16) ∷ hex_char (byte % 16) ∷ to_hex bytes

abbrev ◌>>=◌ {ℓ κ} : {A : Type ℓ} {B : Type κ} → Option A → (A → Option B) → Option B
none >>= f = none
some a >>= f = f a

infixl 5 ◌>>=◌
-- The loop of `from_hex` over the pairs of digits; (hi << 4) | lo is hi * 16 + lo, as lo < 16.
pairs : Text → Option (List ℕ)
pairs [] = some []
pairs (c ∷ []) = none
pairs (c ∷ d ∷ rest) = do
  hi ← to_digit c
  lo ← to_digit d
  bytes ← pairs rest
  some (bit_or (hi * 16) lo ∷ bytes)

unfoldable pub from_hex : Text → Option (List ℕ)
unfolding pairs
from_hex s = if eqb (length s) 32 then pairs s else none

-- The first 16 bytes of the blake3 digest.
unfoldable pub from_canonical : {Url : Type 0} → UrlApi Url → Url → List ℕ
from_canonical api url = take 16 (api.blake3 (api.as_str url))

-- Does `b` come from its halves, for every `b` under the bound?
halves_meet : ℕ → Bool
halves_meet zero = true
halves_meet (suc b) = if eqb (bit_or (b / 16 * 16) (b % 16)) b then halves_meet b else false

halves_meet-lt :
    (bound b : ℕ)
    → halves_meet bound ≡ true
    → b < bound
    → eqb (bit_or (b / 16 * 16) (b % 16)) b ≡ true
unfolding halves_meet
halves_meet-lt zero b h small = absurd (omega arith)
halves_meet-lt (suc bound) b h small = ground (arith, halves_meet-lt bound b)

halves_of_bytes : halves_meet 256 ≡ true
unfolding halves_meet
halves_of_bytes = refl

eqb→eq : (a b : ℕ) → eqb a b ≡ true → a ≡ b
eqb→eq a b h = ground arith

eq→eqb : (a b : ℕ) → a ≡ b → eqb a b ≡ true
eq→eqb a b h = ground arith

-- A byte is put together again from its halves.
nibbles : (b : ℕ) → b < 256 → bit_or (b / 16 * 16) (b % 16) ≡ b
nibbles b h = eqb→eq _ b (halves_meet-lt 256 b halves_of_bytes h)

to_digit-hex_char : (n : ℕ) → n < 16 → to_digit (hex_char n) ≡ some n
to_digit-hex_char n h = ground arith

abbrev pub IsByte : ℕ → Type 0
IsByte b = b < 256

pairs-to_hex : (bytes : List ℕ) → All IsByte bytes → pairs (to_hex bytes) ≡ some bytes
unfolding pairs to_hex
pairs-to_hex [] h = refl
pairs-to_hex (b ∷ bytes) h = rw (to_digit-hex_char (b / 16) (omega arith)) (
    rw (to_digit-hex_char (b % 16) (omega arith))
      (rw (pairs-to_hex bytes h.1) (rw (nibbles b h.0))))

pub length-to_hex : (bytes : List ℕ) → length (to_hex bytes) ≡ 2 * length bytes
unfolding to_hex
length-to_hex [] = omega arith
length-to_hex (b ∷ bytes) = omega (arith, length-to_hex bytes)

-- The hexadecimal text of sixteen bytes is read back as those bytes.
pub from_hex-to_hex :
    (bytes : List ℕ) → length bytes ≡ 16 → All IsByte bytes → from_hex (to_hex bytes) ≡ some bytes
unfolding from_hex
from_hex-to_hex bytes sixteen h =
    rw (eq→eqb (length (to_hex bytes)) 32 (omega (arith, length-to_hex bytes)))
      (pairs-to_hex bytes h)

hex_char_bound : (n : ℕ) → n < 16 → hex_char n < b'|'
hex_char_bound n h = ground arith

-- No character of the text of an id is a bar.
pub to_hex-All : (bytes : List ℕ) → All IsByte bytes → All (λ c. c ≢ b'|') (to_hex bytes)
unfolding to_hex
to_hex-All [] h = tt
to_hex-All (b ∷ bytes) h = (
  λ e. absurd (omega (arith, e, hex_char_bound (b / 16) (omega arith))),
  (λ e. absurd (omega (arith, e, hex_char_bound (b % 16) (omega arith))), to_hex-All bytes h.1),
)

pub to_hex-IsAscii : (bytes : List ℕ) → All IsByte bytes → All (λ c. c < 128) (to_hex bytes)
unfolding to_hex
to_hex-IsAscii [] h = tt
to_hex-IsAscii (b ∷ bytes) h = (
  omega (arith, hex_char_bound (b / 16) (omega arith)),
  (omega (arith, hex_char_bound (b % 16) (omega arith)), to_hex-IsAscii bytes h.1),
)
