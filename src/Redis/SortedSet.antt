-- ===== src/Redis/SortedSet.antt =====
-- The sorted set of the server in memory: an association list of scores, its due members and its
-- least member.
use crawlrs.Prelude.{
  ℕ, zero, suc, ◌≤◌, ◌<◌, ◌≡◌, refl, Bool, true, false, not, ◌&&◌, List, [], ◌∷◌, Option, none,
  some, arith, if◌then◌else◌, contains, count, ◌==◌, ==_refl, list_eq, nat_eq, length, take, All,
  Bool-cases, inl, inr, ◌⊎◌, sym, subst, ap, ◌∙◌,
}
use crawlrs.Prelude.Map
use crawlrs.Prelude.Map.{Map}
use crawlrs.Core.Error.{Text}
use crawlrs.Fakes.Accounting.{same_text}
use crawlrs.Redis.Api.{ℤ, pos, negsuc, score_le, score_due}

abbrev pub is_due : ℕ → Option ℤ → Bool
is_due now none = false
is_due now (some z) = score_due now z

-- The members of `m` that are due in `whole`, each once.
unfoldable pub due_members : ℕ → Map Text ℤ → Map Text ℤ → List Text
due_members now whole [] = []
due_members now whole ((j, w) ∷ m) =
    let rest = due_members now whole m in
    if is_due now (Map.get j whole) && not (contains rest j) then j ∷ rest else rest

-- The better of a member with its score, if it has one, and the best so far.
abbrev pub better : Text → Option ℤ → Option (Text × ℤ) → Option (Text × ℤ)
better j none best = best
better j (some z) none = some (j, z)
better j (some z) (some (k, y)) = if score_le z y then some (j, z) else some (k, y)

-- The member of `m` with the least score in `whole`.
unfoldable pub least : Map Text ℤ → Map Text ℤ → Option (Text × ℤ)
least whole [] = none
least whole ((j, w) ∷ m) = better j (Map.get j whole) (least whole m)

due_in :
    (now : ℕ) (j : Text) (o : Option ℤ)
    → is_due now o ≡ true
    → (z : ℤ) × (o ≡ some z) × (score_due now z ≡ true)
due_in now j none e = absurd (ground (arith, e))
due_in now j (some z) e = (z, refl, e)

pub due_members-All :
    (now : ℕ) (whole m : Map Text ℤ)
    → All
        (λ j. (z : ℤ) × (Map.get j whole ≡ some z) × (score_due now z ≡ true))
        (due_members now whole m)
unfolding due_members
due_members-All now whole [] = tt
due_members-All now whole ((j, w) ∷ m) = elim (Bool-cases (is_due now (Map.get j whole))) [
  | inr e ↦ rw e (due_members-All now whole m)
  | inl e ↦ rw e (elim (Bool-cases (contains (due_members now whole m) j)) [
    | inl f ↦ rw f (due_members-All now whole m)
    | inr f ↦ rw f (due_in now j (Map.get j whole) e, due_members-All now whole m)
  ])
]

count-absent : (j : Text) (xs : List Text) → contains xs j ≡ false → count j xs ≡ 0
count-absent j [] e = refl
count-absent j (x ∷ xs) e = ground (arith, e, count-absent j xs)

pub due_members-once :
    (now : ℕ) (whole m : Map Text ℤ) (j : Text) → count j (due_members now whole m) ≤ 1
unfolding due_members
due_members-once now whole [] j = omega arith
due_members-once now whole ((k, w) ∷ m) j =
    ground (
      arith,
      due_members-once now whole m j,
      count-absent j (due_members now whole m),
      same_text j k,
    )

kept :
    (b : Bool) (k j : Text) (xs : List Text)
    → contains xs j ≡ true
    → contains (if b then k ∷ xs else xs) j ≡ true
kept true k j xs h = ground (arith, h)
kept false k j xs h = h

added :
    (j : Text) (xs : List Text)
    → contains (if true && not (contains xs j) then j ∷ xs else xs) j ≡ true
added j xs = elim (Bool-cases (contains xs j)) [ inl e ↦ rw e e | inr e ↦ rw e (rw (==_refl j)) ]

pub due_members-has :
    (now : ℕ) (whole m : Map Text ℤ) (j : Text) (v z : ℤ)
    → Map.get j m ≡ some v
    → Map.get j whole ≡ some z
    → score_due now z ≡ true
    → contains (due_members now whole m) j ≡ true
unfolding due_members Map.get
due_members-has now whole [] j v z e f d = absurd (ground (arith, e))
due_members-has now whole ((k, w) ∷ m) j v z e f d = elim (Bool-cases (k == j)) [
  | inr ne ↦
      kept _ k j (due_members now whole m)
        (due_members-has now whole m j v z (ground (arith, e, ne)) f d)
  | inl same ↦ rw ((same_text k j).0 same) (rw f (rw d (added j (due_members now whole m))))
]

pub take-All : (P : Text → Type 0) (n : ℕ) (xs : List Text) → All P xs → All P (take n xs)
take-All P zero xs h = tt
take-All P (suc n) [] h = tt
take-All P (suc n) (x ∷ xs) h = (h.0, take-All P n xs h.1)

pub count-take : (j : Text) (n : ℕ) (xs : List Text) → count j (take n xs) ≤ count j xs
count-take j zero xs = omega arith
count-take j (suc n) [] = omega arith
count-take j (suc n) (x ∷ xs) = omega (arith, count-take j n xs)

pub take-whole : (n : ℕ) (xs : List Text) → length (take n xs) < n → take n xs ≡ xs
take-whole zero xs h = absurd (omega (arith, h))
take-whole (suc n) [] h = refl
take-whole (suc n) (x ∷ xs) h = rw (take-whole n xs (omega (arith, h)))

score_le_refl : (z : ℤ) → score_le z z ≡ true
score_le_refl (pos n) = ground arith
score_le_refl (negsuc n) = ground arith

score_le_trans : (x y z : ℤ) → score_le x y ≡ true → score_le y z ≡ true → score_le x z ≡ true
score_le_trans (pos a) (pos b) (pos c) h k = ground (arith, h, k)
score_le_trans (pos a) (pos b) (negsuc c) h k = k
score_le_trans (pos a) (negsuc b) z h k = absurd (ground (arith, h))
score_le_trans (negsuc a) y (pos c) h k = refl
score_le_trans (negsuc a) (pos b) (negsuc c) h k = absurd (ground (arith, k))
score_le_trans (negsuc a) (negsuc b) (negsuc c) h k = ground (arith, h, k)

score_le_flip : (x y : ℤ) → score_le x y ≡ false → score_le y x ≡ true
score_le_flip (pos a) (pos b) h = ground (arith, h)
score_le_flip (pos a) (negsuc b) h = refl
score_le_flip (negsuc a) (pos b) h = absurd (ground (arith, h))
score_le_flip (negsuc a) (negsuc b) h = ground (arith, h)

-- What `least` says of the members of `m`.
abbrev pub IsLeast : Map Text ℤ → Map Text ℤ → Option (Text × ℤ) → Type 0
IsLeast whole m none = (j : Text) (v : ℤ) → Map.get j m ≡ some v → Map.get j whole ≡ none
IsLeast whole m (some (k, z)) =
    (Map.get k whole ≡ some z)
    × ((j : Text) (v y : ℤ) → Map.get j m ≡ some v → Map.get j whole ≡ some y → score_le z y ≡ true)

split_get :
    (i j : Text) (w v : ℤ) (m : Map Text ℤ)
    → Map.get i ((j, w) ∷ m) ≡ some v
    → (j ≡ i) ⊎ (Map.get i m ≡ some v)
unfolding Map.get
split_get i j w v m e = elim (Bool-cases (j == i)) [
  | inl same ↦ inl ((same_text j i).0 same)
  | inr other ↦ inr (ground (arith, e, other))
]

score_or : ℤ → Option ℤ → ℤ
score_or d none = d
score_or d (some z) = z

-- A member has one score.
one_score :
    (whole : Map Text ℤ) (i j : Text) (z x : ℤ)
    → Map.get j whole ≡ some z
    → j ≡ i
    → Map.get i whole ≡ some x
    → z ≡ x
unfolding score_or
one_score whole i j z x e same g = ap (score_or z) (sym e ∙ ap (λ k. Map.get k whole) same ∙ g)

no_score :
    (whole : Map Text ℤ) (i j : Text) (x : ℤ)
    → Map.get j whole ≡ none
    → j ≡ i
    → Map.get i whole ≡ some x
    → ⊥
no_score whole i j x e same g =
    let p = sym e ∙ ap (λ k. Map.get k whole) same ∙ g in ground (arith, p)

better-IsLeast :
    (whole m : Map Text ℤ) (j : Text) (w : ℤ) (o : Option ℤ) (b : Option (Text × ℤ))
    → Map.get j whole ≡ o
    → IsLeast whole m b
    → IsLeast whole ((j, w) ∷ m) (better j o b)
better-IsLeast whole m j w none none e h = λ i v f. elim (split_get i j w v m f) [
  | inl same ↦ ap (λ k. Map.get k whole) (sym same) ∙ e
  | inr f' ↦ h i v f'
]
better-IsLeast whole m j w none (some (k, y)) e h = (
  h.0,
  λ i v x f g. elim (split_get i j w v m f) [
    | inl same ↦ absurd (no_score whole i j x e same g)
    | inr f' ↦ h.1 i v x f' g
  ],
)
better-IsLeast whole m j w (some z) none e h = (
  e,
  λ i v x f g. elim (split_get i j w v m f) [
    | inl same ↦ rw (one_score whole i j z x e same g) (score_le_refl x)
    | inr f' ↦ absurd (no_score whole i i x (h i v f') refl g)
  ],
)
better-IsLeast whole m j w (some z) (some (k, y)) e h = elim (Bool-cases (score_le z y)) [
  | inl le ↦ rw le (
    e,
    λ i v x f g. elim (split_get i j w v m f) [
      | inl same ↦ rw (one_score whole i j z x e same g) (score_le_refl x)
      | inr f' ↦ score_le_trans z y x le (h.1 i v x f' g)
    ],
  )
  | inr gt ↦ rw gt (
    h.0,
    λ i v x f g. elim (split_get i j w v m f) [
      | inl same ↦
          subst (λ u. score_le y u ≡ true) (one_score whole i j z x e same g) (score_le_flip z y gt)
      | inr f' ↦ h.1 i v x f' g
    ],
  )
]

pub least-IsLeast : (whole m : Map Text ℤ) → IsLeast whole m (least whole m)
unfolding least Map.get
least-IsLeast whole [] = λ j v e. absurd (ground (arith, e))
least-IsLeast whole ((j, w) ∷ m) =
    better-IsLeast whole m j w (Map.get j whole) (least whole m) refl (least-IsLeast whole m)

pub absent :
    (m : Map Text ℤ) (j : Text) (o : Option ℤ) (b : Option (Text × ℤ))
    → Map.get j m ≡ o
    → b ≡ none
    → IsLeast m m b
    → o ≡ none
absent m j none b e n h = refl
absent m j (some v) none e n h = sym e ∙ h j v e
absent m j (some v) (some p) e n h = absurd (ground (arith, n))

pub found :
    (m : Map Text ℤ) (k : Text) (z : ℤ) (b : Option (Text × ℤ))
    → b ≡ some (k, z)
    → IsLeast m m b
    → IsLeast m m (some (k, z))
found m k z b e h = subst (IsLeast m m) e h
