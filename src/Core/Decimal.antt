-- ===== src/Core/Decimal.antt =====
-- The decimal text of a `u32`, as `{}` prints it and `str::parse::<u32>` reads it.
use crawlrs.Prelude.{
  ℕ, zero, suc, ◌+◌, ◌-◌, ◌*◌, ◌/◌, ◌%◌, ◌^◌, ◌≤◌, ◌<◌, ◌≡◌, false, ◌&&◌, [], ◌∷◌, ◌++◌, Option,
  none, some, arith, inl, inr, ltb, leb, eqb, if◌then◌else◌, length, length-append, All, All-append,
  Bool-cases, ◌∙◌, ap,
}
use crawlrs.Core.Error.{Text}

-- The digits of `n`; `n + 1` rounds are always enough.
digits : ℕ → ℕ → Text
digits zero n = []
digits (suc fuel) n =
    let shorter = digits fuel (n / 10) ++ (b'0' + n % 10) ∷ [] in
    if ltb n 10 then (b'0' + n) ∷ [] else shorter

unfoldable pub to_decimal : ℕ → Text
unfolding digits
to_decimal n = digits (suc n) n

abbrev pub u32_mod : ℕ
u32_mod = 2 ^ 32

-- The digits behind a number read so far; a digit that is none, or an overflow, is an error.
read_digits : ℕ → ℕ → Text → Option ℕ
read_digits bound acc [] = some acc
read_digits bound acc (c ∷ cs) =
    let rest = read_digits bound (acc * 10 + (c - b'0')) cs in
    if leb b'0' c && leb c b'9' && ltb (acc * 10 + (c - b'0')) bound then rest else none

-- One leading '+' is taken, but not alone; the empty text is an error.
unfoldable pub parse_uint : ℕ → Text → Option ℕ
unfolding read_digits
parse_uint bound [] = none
parse_uint bound (c ∷ []) = if eqb c b'+' then none else read_digits bound 0 (c ∷ [])
parse_uint bound (c ∷ d ∷ cs) =
    if eqb c b'+' then read_digits bound 0 (d ∷ cs) else read_digits bound 0 (c ∷ d ∷ cs)

unfoldable pub parse_u32 : Text → Option ℕ
unfolding parse_uint
parse_u32 = parse_uint u32_mod

-- A number that is printed behind the digits of `acc`.
read_digits-append :
    (xs : Text) (c acc n : ℕ)
    → read_digits u32_mod acc xs ≡ some n
    → c < 10
    → n * 10 + c < u32_mod
    → read_digits u32_mod acc (xs ++ (b'0' + c) ∷ []) ≡ some (n * 10 + c)
unfolding read_digits
read_digits-append [] c acc n e d lt = ground arith
read_digits-append (x ∷ xs) c acc n e d lt =
    ground (arith, read_digits-append xs c (acc * 10 + (x - b'0')) n)

read_digits-digits :
    (fuel n : ℕ) → n < fuel → n < u32_mod → read_digits u32_mod 0 (digits fuel n) ≡ some n
unfolding digits read_digits
read_digits-digits zero n h lt = absurd (omega arith)
read_digits-digits (suc fuel) n h lt = elim (Bool-cases (ltb n 10)) [
  | inl small ↦ rw small (ground arith)
  | inr large ↦ rw large (
      read_digits-append (digits fuel (n / 10)) (n % 10) 0 (n / 10)
        (read_digits-digits fuel (n / 10) (ground arith) (omega arith)) (omega arith) (omega arith)
      ∙ ap (λ k. some k) (omega arith))
]

abbrev pub IsDigit : ℕ → Type 0
IsDigit c = (b'0' ≤ c) × (c ≤ b'9')

digits-All : (fuel n : ℕ) → All IsDigit (digits fuel n)
unfolding digits
digits-All zero n = tt
digits-All (suc fuel) n = elim (Bool-cases (ltb n 10)) [
  | inl small ↦ rw small (ground arith)
  | inr large ↦ rw large (
      All-append IsDigit (digits fuel (n / 10)) ((b'0' + n % 10) ∷ []) (digits-All fuel (n / 10))
        (omega arith))
]

length-digits_pos : (fuel n : ℕ) → 0 < fuel → 0 < length (digits fuel n)
unfolding digits
length-digits_pos zero n h = absurd (omega arith)
length-digits_pos (suc fuel) n h =
    ground (arith, length-append (digits fuel (n / 10)) ((b'0' + n % 10) ∷ []))

parse_u32_digits :
    (xs : Text) → All IsDigit xs → 0 < length xs → parse_u32 xs ≡ read_digits u32_mod 0 xs
unfolding parse_u32
parse_u32_digits [] h pos = absurd (omega arith)
parse_u32_digits (c ∷ []) h pos = ground arith
parse_u32_digits (c ∷ d ∷ cs) h pos = rw (plus_ne c h.0)
  where
    plus_ne : (x : ℕ) → IsDigit x → eqb x b'+' ≡ false
    plus_ne x p = ground arith

-- The decimal text has digits only.
pub to_decimal-All : (n : ℕ) → All IsDigit (to_decimal n)
unfolding to_decimal
to_decimal-All n = digits-All (suc n) n

-- A `u32` is read back from its decimal text.
pub parse_u32-to_decimal : (n : ℕ) → n < u32_mod → parse_u32 (to_decimal n) ≡ some n
unfolding to_decimal
parse_u32-to_decimal n h =
    parse_u32_digits (digits (suc n) n) (digits-All (suc n) n)
      (length-digits_pos (suc n) n (omega arith))
    ∙ read_digits-digits (suc n) n (omega arith) h
