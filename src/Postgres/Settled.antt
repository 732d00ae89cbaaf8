-- ===== src/Postgres/Settled.antt =====
-- crates/crawlrs-metadata/src/store.rs: which rows of the outbox a publish marks.
use crawlrs.Prelude.{
  ℕ, suc, ◌≡◌, ◌≢◌, refl, sym, ap, ◌∙◌, subst, List, [], ◌∷◌, Option, none, some, ◌⊎◌, inl, inr,
  length, arith, nat_eq, Option-cases,
}
use crawlrs.Core.Error.{Text, Result, ok, err, panic, sqlx, Result-cases}
use crawlrs.Fakes.Outbox.{OutboxEntry, ids_of}
use crawlrs.Postgres.Tables.{OutboxRow, Database, Tables}
use crawlrs.Postgres.Transactions.{
  answered, refused, unanswered, Calls, ◌>>=◌, and_then, pure, execute, commit, begin,
}
use crawlrs.Postgres.Batch.{Takes, row_ids, Marks, open_rows-Takes, set_published-Marks}
use crawlrs.Postgres.Publish
use crawlrs.Postgres.Publish.{is_free, open_rows, set_published, update_published}

ok_injective : {A : Type 0} {a b : A} → ◌≡◌ {A = Result A} (ok a) (ok b) → a ≡ b
ok_injective e = cc

module _ {Url : Type 0} (parse : Text → Option Url)
    (ship : List (OutboxEntry Url) → Result (Unit {0})) where
  abbrev marked : List (OutboxEntry Url) → Tables → Tables
  marked entries t = record t { frontier_outbox = set_published (ids_of entries) t.frontier_outbox }

  abbrev Shipped : List OutboxRow → Tables → Tables → List (OutboxEntry Url) → Type 0
  Shipped rows before after entries =
      (Publish.entries_of parse rows ≡ ok entries)
      × (ship entries ≡ ok tt)
      × (after ≡ marked entries before)

  update_ships :
      (entries : List (OutboxEntry Url)) (calls : Calls) (db : Database) (n : ℕ)
      → (and_then
          (execute (update_published (ids_of entries)) calls db)
          (λ _. pure (some (length entries)))).0
        ≡ ok (some n)
      → (n ≡ length entries)
        × ((and_then
              (execute (update_published (ids_of entries)) calls db)
              (λ _. pure (some (length entries)))).2.tables
            ≡ marked entries db.tables)
  unfolding execute update_published
  update_ships entries [] db n e = (cc, refl)
  update_ships entries (answered ∷ calls) db n e = (cc, refl)
  update_ships entries (refused x ∷ calls) db n e = absurd cc
  update_ships entries (unanswered x ∷ calls) db n e = absurd cc

  ship_entries-Shipped :
      (entries : List (OutboxEntry Url)) (calls : Calls) (db : Database) (n : ℕ)
      → (Publish.ship_entries parse ship entries calls db).0 ≡ ok (some n)
      → (ship entries ≡ ok tt)
        × (n ≡ length entries)
        × ((Publish.ship_entries parse ship entries calls db).2.tables ≡ marked entries db.tables)
  unfolding Publish.ship_entries
  ship_entries-Shipped entries calls db n = by_ship (ship entries)
    where
      by_ship :
          (r : Result (Unit {0}))
          → let o =
              and_then
                (r, calls, db)
                (λ _. execute (update_published (ids_of entries)) >>= λ _.
                  pure (some (length entries))) in
            o.0 ≡ ok (some n)
            → (r ≡ ok tt) × (n ≡ length entries) × (o.2.tables ≡ marked entries db.tables)
      by_ship (ok u) e =
          let (counted, tables) = update_ships entries calls db n e in (refl, counted, tables)
      by_ship (err x) e = absurd cc
      by_ship panic e = absurd cc

  ship_rows-Shipped :
      (rows : List OutboxRow) (calls : Calls) (db : Database) (n : ℕ)
      → (Publish.ship_rows parse ship rows calls db).0 ≡ ok (some n)
      → (entries : List (OutboxEntry Url)) × Shipped rows db.tables
          (Publish.ship_rows parse ship rows calls db).2.tables
          entries
        × (n ≡ length entries)
  unfolding Publish.ship_rows
  ship_rows-Shipped [] calls db n = λ e. absurd cc
  ship_rows-Shipped (row ∷ rows) calls db n = by_entries (Publish.entries_of parse (row ∷ rows))
    where
      by_entries :
          (r : Result (List (OutboxEntry Url)))
          → let o = and_then (r, calls, db) (Publish.ship_entries parse ship) in
            o.0 ≡ ok (some n)
            → (entries : List (OutboxEntry Url)) × ((r ≡ ok entries)
                × (ship entries ≡ ok tt)
                × (o.2.tables ≡ marked entries db.tables))
              × (n ≡ length entries)
      by_entries (ok entries) e =
          let (sent, counted, tables) = ship_entries-Shipped entries calls db n e in
          (entries, (refl, sent, tables), counted)
      by_entries (err x) e = absurd cc
      by_entries panic e = absurd cc

  abbrev Outcomes : List OutboxRow → Database → Result ℕ × Calls × Database → Type 0
  Outcomes rows before o =
      ((o.2.tables ≡ before.tables) × ((n : ℕ) → o.0 ≢ ok (suc n)))
      ⊎ ((entries : List (OutboxEntry Url)) × Shipped rows before.tables o.2.tables entries
          × ((o.0 ≡ ok (length entries)) ⊎ ((e : Text) × (o.0 ≡ err (sqlx e)))))

  commit-Outcomes :
      (rows : List OutboxRow) (before : Database) (n : ℕ) (calls : Calls) (db : Database)
      (entries : List (OutboxEntry Url))
      → Shipped rows before.tables db.tables entries
      → n ≡ length entries
      → Outcomes rows before (commit n before calls db)
  unfolding commit
  commit-Outcomes rows before n [] db entries h e = inr (entries, h, inl (ap ok e))
  commit-Outcomes rows before n (answered ∷ calls) db entries h e = inr (entries, h, inl (ap ok e))
  commit-Outcomes rows before n (refused x ∷ calls) db entries h e = inl (refl, λ k. cc)
  commit-Outcomes rows before n (unanswered x ∷ calls) db entries h e =
      inr (entries, h, inr (x, refl))

  finish-Outcomes :
      (rows : List OutboxRow) (before : Database) (o : Result (Option ℕ) × Calls × Database)
      → ((n : ℕ)
          → o.0 ≡ ok (some n)
          → (entries : List (OutboxEntry Url)) × Shipped rows before.tables o.2.tables entries
            × (n ≡ length entries))
      → Outcomes rows before (Publish.finish_publish parse before o)
  unfolding Publish.finish_publish
  finish-Outcomes rows before (ok none, calls, db) h = inl (refl, λ k e. ground (arith, e))
  finish-Outcomes rows before (ok (some n), calls, db) h =
      let (entries, shipped, counted) = h n refl in
      commit-Outcomes rows before n calls db entries shipped counted
  finish-Outcomes rows before (err x, calls, db) h = inl (refl, λ k. cc)
  finish-Outcomes rows before (panic, calls, db) h = inl (refl, λ k. cc)

  module _ (locked : List ℕ) (max : ℕ) where
    batch : Database → List OutboxRow
    batch db = open_rows locked max db.tables.frontier_outbox

    body-Outcomes :
        (calls : Calls) (db : Database)
        → Outcomes
            (batch db)
            db
            (Publish.finish_publish parse db (Publish.publish_body parse locked max ship calls db))
    unfolding Publish.publish_body execute Publish.select_open batch
    body-Outcomes [] db = finish-Outcomes (batch db) db _ (ship_rows-Shipped (batch db) [] db)
    body-Outcomes (answered ∷ calls) db =
        finish-Outcomes (batch db) db _ (ship_rows-Shipped (batch db) calls db)
    body-Outcomes (refused x ∷ calls) db = finish-Outcomes (batch db) db _ (λ n e. absurd cc)
    body-Outcomes (unanswered x ∷ calls) db = finish-Outcomes (batch db) db _ (λ n e. absurd cc)

  publish-Outcomes :
      (locked : List ℕ) (max : ℕ) (calls : Calls) (db : Database)
      → Outcomes
          (open_rows locked max db.tables.frontier_outbox)
          db
          (Publish.publish parse locked max ship calls db)
  unfolding Publish.publish begin batch
  publish-Outcomes locked max [] db = body-Outcomes locked max [] db
  publish-Outcomes locked max (answered ∷ calls) db = body-Outcomes locked max calls db
  publish-Outcomes locked max (refused x ∷ calls) db = inl (refl, λ k. cc)
  publish-Outcomes locked max (unanswered x ∷ calls) db = inl (refl, λ k. cc)

  entry_of-id :
      (row : OutboxRow) (entry : OutboxEntry Url)
      → Publish.entry_of parse row ≡ ok entry
      → entry.id ≡ row.id
  unfolding Publish.entry_of
  entry_of-id row entry = elim (Option-cases (parse row.url)) [
    | inl z ↦ rw (z, Publish.entry_of) (λ e. absurd cc)
    | inr (u, z) ↦ elim (Result-cases (Publish.parent_of parse row)) [
      | inl (parent, q) ↦ rw (z, q, Publish.entry_of) (λ e. ap id_of (sym e))
      | inr (inl (x, q)) ↦ rw (z, q, Publish.entry_of) (λ e. absurd cc)
      | inr (inr q) ↦ rw (z, q, Publish.entry_of) (λ e. absurd cc)
    ]
  ]
    where
      id_of : Result (OutboxEntry Url) → ℕ
      id_of (ok e) = e.id
      id_of (err x) = row.id
      id_of panic = row.id

  -- The entries have the ids of the rows.
  abbrev Matches : List OutboxRow → List (OutboxEntry Url) → Type 0
  Matches rows entries = (ids_of entries ≡ row_ids rows) × (length entries ≡ length rows)

  entries_of-Matches :
      (rows : List OutboxRow)
      → (entries : List (OutboxEntry Url)) → Publish.entries_of parse rows ≡ ok entries
      → Matches rows entries
  unfolding Publish.entries_of ids_of
  entries_of-Matches [] = λ entries e. subst (Matches []) (ok_injective e) (refl, refl)
  entries_of-Matches (row ∷ rows) = elim (Result-cases (Publish.entry_of parse row)) [
    | inr (inl (x, q)) ↦ rw (q, Publish.entries_of) (λ entries e. absurd cc)
    | inr (inr q) ↦ rw (q, Publish.entries_of) (λ entries e. absurd cc)
    | inl (entry, q) ↦ elim (Result-cases (Publish.entries_of parse rows)) [
      | inr (inl (x, z)) ↦ rw (q, z, Publish.entries_of) (λ entries e. absurd cc)
      | inr (inr z) ↦ rw (q, z, Publish.entries_of) (λ entries e. absurd cc)
      | inl (rest, z) ↦
          rw (q, z, Publish.entries_of)
            (λ entries e.
              let (ids, sizes) = entries_of-Matches rows rest z in
              subst (Matches (row ∷ rows)) (ok_injective e) (
                ap (λ i. i ∷ ids_of rest) (entry_of-id row entry q) ∙ ap (λ is. row.id ∷ is) ids,
                ap suc sizes,
              ))
    ]
  ]

  -- What a publish comes to: no row is marked and none is counted; or the rows were read as entries
  -- and shipped, they are marked and nothing else is, and they are counted unless the answer of the
  -- commit was lost.
  abbrev pub Settles : List OutboxRow → Database → Result ℕ × Calls × Database → Type 0
  Settles rows before o =
      ((o.2.tables ≡ before.tables) × ((n : ℕ) → o.0 ≢ ok (suc n)))
      ⊎ ((entries : List (OutboxEntry Url)) × (Publish.entries_of parse rows ≡ ok entries)
          × (ids_of entries ≡ row_ids rows)
          × (ship entries ≡ ok tt)
          × Marks rows before.tables.frontier_outbox o.2.tables.frontier_outbox
          × (o.2.tables.url_metadata ≡ before.tables.url_metadata)
          × (o.2.tables.url_history ≡ before.tables.url_history)
          × ((o.0 ≡ ok (length rows)) ⊎ ((e : Text) × (o.0 ≡ err (sqlx e)))))

  -- However the database behaves, a publish either marks no row and counts none, or it has read and
  -- shipped the first `max` rows that are neither published nor locked, marks exactly
  -- the rows with their ids, and leaves the other tables; it then counts them, unless the answer of
  -- the commit was lost.
  pub publish-Settles :
      (locked : List ℕ) (max : ℕ) (calls : Calls) (db : Database)
      → (rows : List OutboxRow) × Takes locked max db.tables.frontier_outbox rows
        × Settles rows db (Publish.publish parse locked max ship calls db)
  publish-Settles locked max calls db =
      let rows = open_rows locked max db.tables.frontier_outbox in
      (
        rows,
        open_rows-Takes locked max db.tables.frontier_outbox,
        elim (publish-Outcomes locked max calls db) [
          | inl unmarked ↦ inl unmarked
          | inr (entries, (read, sent, tables), counted) ↦
              let (ids, sizes) = entries_of-Matches rows entries read in
              inr (
                entries,
                read,
                ids,
                sent,
                subst (Marks rows db.tables.frontier_outbox)
                    (sym (
                      ap (λ t. t.frontier_outbox) tables
                      ∙ ap (λ i. set_published i db.tables.frontier_outbox) ids))
                    (set_published-Marks rows db.tables.frontier_outbox),
                ap (λ t. t.url_metadata) tables,
                ap (λ t. t.url_history) tables,
                elim counted [ inl n ↦ inl (n ∙ ap ok sizes) | inr lost ↦ inr lost ],
              )
        ],
      )
