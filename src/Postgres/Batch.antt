-- ===== src/Postgres/Batch.antt =====
-- crates/crawlrs-metadata/src/store.rs: the rows that a publish takes and those that it marks.
use crawlrs.Prelude.{
  ℕ, zero, suc, ◌≡◌, refl, List, [], ◌∷◌, ◌⊎◌, inl, inr, arith, true, false, map, contains, nat_eq,
  Bool-cases,
}
use crawlrs.Postgres.Tables.{OutboxRow}
use crawlrs.Postgres.Publish.{is_free, open_rows, set_published}

-- The first rows of a table that a publish may take: neither published nor locked, at most `max`.
pub data Takes (locked : List ℕ) : ℕ → List OutboxRow → List OutboxRow → Type 0 where
  full : (rows : List OutboxRow) → Takes locked 0 rows []
  no_more : (max : ℕ) → Takes locked max [] []
  taken :
      (max : ℕ) (row : OutboxRow) (rows batch : List OutboxRow)
      → row.published ≡ false
      → contains locked row.id ≡ false
      → Takes locked max rows batch
      → Takes locked (suc max) (row ∷ rows) (row ∷ batch)
  passed :
      (max : ℕ) (row : OutboxRow) (rows batch : List OutboxRow)
      → (row.published ≡ true) ⊎ (contains locked row.id ≡ true)
      → Takes locked (suc max) rows batch
      → Takes locked (suc max) (row ∷ rows) batch

pub open_rows-Takes :
    (locked : List ℕ) (max : ℕ) (rows : List OutboxRow)
    → Takes locked max rows (open_rows locked max rows)
unfolding open_rows
open_rows-Takes locked zero rows = full rows
open_rows-Takes locked (suc max) [] = no_more (suc max)
open_rows-Takes locked (suc max) (row ∷ rows) = elim (Bool-cases (is_free locked row)) [
  | inl free ↦
      rw (free, open_rows)
        (taken max row rows (open_rows locked max rows) (ground (arith, free))
          (ground (arith, free)) (open_rows-Takes locked max rows))
  | inr away ↦
      rw (away, open_rows)
        (passed max row rows (open_rows locked (suc max) rows) (why away)
          (open_rows-Takes locked (suc max) rows))
]
  where
    why : is_free locked row ≡ false → (row.published ≡ true) ⊎ (contains locked row.id ≡ true)
    why away = elim (Bool-cases row.published) [
      | inl p ↦ inl p
      | inr p ↦ inr (ground (arith, away, p))
    ]

abbrev pub row_ids : List OutboxRow → List ℕ
row_ids rows = map (λ row. row.id) rows

-- The rows of the batch are published, and nothing else has changed.
abbrev pub Marks : List OutboxRow → List OutboxRow → List OutboxRow → Type 0
Marks batch [] [] = Unit
Marks batch [] (row' ∷ after) = ⊥
Marks batch (row ∷ before) [] = ⊥
Marks batch (row ∷ before) (row' ∷ after) =
    (contains (row_ids batch) row.id ≡ true → row' ≡ record row { published = true })
    × (contains (row_ids batch) row.id ≡ false → row' ≡ row)
    × Marks batch before after

pub set_published-Marks :
    (batch rows : List OutboxRow) → Marks batch rows (set_published (row_ids batch) rows)
unfolding set_published
set_published-Marks batch [] = tt
set_published-Marks batch (row ∷ rows) =
    (λ e. rw e refl, λ e. rw e refl, set_published-Marks batch rows)
