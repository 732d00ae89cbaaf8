-- ===== src/Prelude/Map.antt =====
-- `HashMap` and `HashSet`: association lists with a lawful key. A read finds the first entry of a
-- key, a write replaces it in place or appends, and an iteration goes in list order, which stands
-- for the unspecified order of the hash table.
use Prim.Native.Nat.{ℕ, ◌+◌, ◌≤◌, ◌<◌, max}
use mathlib.Core.Path.{◌≡◌, refl}
use mathlib.Core.Bool.{Bool, true}
use mathlib.Core.Logic.{◌↔◌, inl, inr}
use mathlib.Core.List.{List, [], ◌∷◌}
use mathlib.Core.Option.{Option, none, some}
use native.Mathlib.Omega.{arith}
use crawlrs.Prelude.Tests.{if◌then◌else◌, is_some, unwrap_or, Bool-cases}
use crawlrs.Prelude.Classes.{Eq, ◌==◌}

abbrev pub Map {ℓ} : Type ℓ → Type ℓ → Type ℓ
Map K V = List (K × V)

-- What `f` gives of a value that may be missing.
abbrev pub measure {ℓ} : {V : Type ℓ} → (V → ℕ) → Option V → ℕ
measure f none = 0
measure f (some v) = f v

module _ {ℓ} {K V : Type ℓ} ⦃e : Eq K⦄ where
  -- map.get(k)
  unfoldable pub get : K → Map K V → Option V
  get k [] = none
  get k ((j, v) ∷ m) = if j == k then some v else get k m

  -- map.insert(k, v)
  unfoldable pub insert : K → V → Map K V → Map K V
  insert k v [] = (k, v) ∷ []
  insert k v ((j, w) ∷ m) = if j == k then (k, v) ∷ m else (j, w) ∷ insert k v m

  -- map.remove(k)
  unfoldable pub remove : K → Map K V → Map K V
  remove k [] = []
  remove k ((j, v) ∷ m) = let rest = remove k m in if j == k then rest else (j, v) ∷ rest

  -- map.contains_key(k)
  abbrev pub contains_key : K → Map K V → Bool
  contains_key k m = is_some (get k m)

  -- map.entry(k).or_insert(v)
  abbrev pub or_insert : K → V → Map K V → Map K V
  or_insert k v m = if contains_key k m then m else insert k v m

  pub get-insert :
      (k j : K) (v : V) (m : Map K V) → get j (insert k v m) ≡ (if k == j then some v else get j m)
  unfolding get insert
  get-insert k j v [] = refl
  get-insert k j v ((i, w) ∷ m) =
      ground (arith, e.same_iff k j, e.same_iff i k, e.same_iff i j, get-insert k j v m)

  pub get-remove : (k j : K) (m : Map K V) → get j (remove k m) ≡ (if k == j then none else get j m)
  unfolding get remove
  get-remove k j [] = ground arith
  get-remove k j ((i, w) ∷ m) =
      ground (arith, e.same_iff k j, e.same_iff i k, e.same_iff i j, get-remove k j m)

  -- The sum of `f` over the values.
  unfoldable pub total : (V → ℕ) → Map K V → ℕ
  total f [] = 0
  total f ((j, v) ∷ m) = f v + total f m

  pub total-insert :
      (f : V → ℕ) (k : K) (v : V) (m : Map K V)
      → total f (insert k v m) + measure f (get k m) ≡ total f m + f v
  unfolding total insert get
  total-insert f k v [] = omega arith
  total-insert f k v ((j, w) ∷ m) = elim (Bool-cases (j == k)) [
    | inl h ↦ rw h (omega arith)
    | inr h ↦ rw h (omega (arith, total-insert f k v m))
  ]

  -- What one entry holds is part of the sum.
  pub measure-le-total : (f : V → ℕ) (k : K) (m : Map K V) → measure f (get k m) ≤ total f m
  unfolding total get
  measure-le-total f k [] = omega arith
  measure-le-total f k ((j, w) ∷ m) = elim (Bool-cases (j == k)) [
    | inl h ↦ rw h (omega arith)
    | inr h ↦ rw h (omega (arith, measure-le-total f k m))
  ]

  pub get-or_insert :
      (k j : K) (v : V) (m : Map K V)
      → get j (or_insert k v m) ≡ (if k == j then some (unwrap_or (get k m) v) else get j m)
  get-or_insert k j v m = ground (arith, get-insert k j v m, e.same_iff k j)

  -- How many entries a key has: one at most in a table.
  unfoldable pub entries : K → Map K V → ℕ
  entries k [] = 0
  entries k ((j, v) ∷ m) = (if k == j then 1 else 0) + entries k m

  pub entries-insert :
      (k j : K) (v : V) (m : Map K V)
      → entries j (insert k v m) ≡ (if k == j then max 1 (entries j m) else entries j m)
  unfolding entries insert
  entries-insert k j v [] = ground (arith, e.same_iff k j, e.same_iff j k)
  entries-insert k j v ((i, w) ∷ m) = ground (
    arith,
    e.same_iff k j,
    e.same_iff j k,
    e.same_iff i k,
    e.same_iff i j,
    e.same_iff j i,
    entries-insert k j v m,
  )

  pub entries-remove :
      (k j : K) (m : Map K V) → entries j (remove k m) ≡ (if k == j then 0 else entries j m)
  unfolding entries remove
  entries-remove k j [] = ground arith
  entries-remove k j ((i, w) ∷ m) =
      ground (
        arith,
        e.same_iff k j,
        e.same_iff i k,
        e.same_iff i j,
        e.same_iff j i,
        entries-remove k j m,
      )

  pub entries_pos : (k : K) (m : Map K V) → (contains_key k m ≡ true) ↔ (0 < entries k m)
  unfolding entries get
  entries_pos k [] = ground arith
  entries_pos k ((i, w) ∷ m) = ground (arith, e.same_iff k i, e.same_iff i k, entries_pos k m)

  abbrev pub Distinct : Map K V → Type ℓ
  Distinct m = (k : K) → entries k m ≤ 1

  pub insert-Distinct : (k : K) (v : V) (m : Map K V) → Distinct m → Distinct (insert k v m)
  insert-Distinct k v m h j = ground (arith, h j, entries-insert k j v m)

  pub or_insert-Distinct : (k : K) (v : V) (m : Map K V) → Distinct m → Distinct (or_insert k v m)
  or_insert-Distinct k v m h j = ground (arith, h j, entries-insert k j v m)

  pub remove-Distinct : (k : K) (m : Map K V) → Distinct m → Distinct (remove k m)
  remove-Distinct k m h j = ground (arith, h j, entries-remove k j m)
