-- ===== src/Fakes/Shipments.antt =====
-- crates/crawlrs-fakes/src/outbox.rs and metadata_store.rs: the rows that publishes ship over a
-- history of the outbox.
use crawlrs.Prelude.{
  ℕ, ◌+◌, ◌^◌, ◌%◌, ◌≤◌, ◌<◌, ◌≡◌, false, List, [], ◌∷◌, ◌++◌, if◌then◌else◌, count, eqb, nat_eq,
  list_eq, ◌⊎◌, ◌&&◌,
}
use crawlrs.Core.Error.{Text, Result, ok, err, panic}
use crawlrs.Core.Types.{UrlApi, UrlEntry}
use crawlrs.Fakes.Outbox.{
  OutboxRow, OutboxEntry, OutboxState, record_outbound, ids_of, lease_batch, publish_rows,
}
use crawlrs.Fakes.Ledger.{publish}

-- A child is recorded, or a batch is published; `ship` is what the publisher then answers.
pub data OutboxEvent (Url : Type 0) : Type 0 where
  records : Url → Text → UrlEntry Url → OutboxEvent Url
  publishes : ℕ → (List (OutboxEntry Url) → Result (Unit {0})) → OutboxEvent Url

-- How many rows have an id, and how many of them are published.
module _ {Url : Type 0} where
  rows_with : ℕ → List (OutboxRow Url) → ℕ
  rows_with j [] = 0
  rows_with j (row ∷ rows) = (if eqb j row.id then 1 else 0) + rows_with j rows

  sent_with : ℕ → List (OutboxRow Url) → ℕ
  sent_with j [] = 0
  sent_with j (row ∷ rows) = (if eqb j row.id && row.published then 1 else 0) + sent_with j rows

module _ {Url : Type 0} (api : UrlApi Url) where
  -- The ids, if the publish returned.
  abbrev if_ok : Result ℕ → List ℕ → List ℕ
  if_ok (ok n) ids = ids
  if_ok (err e) ids = []
  if_ok panic ids = []

  -- What an event leaves, and the ids of the rows that it ships.
  unfoldable pub happens : OutboxEvent Url → OutboxState Url → OutboxState Url
  happens (records parent attempt child) s = record_outbound api parent attempt child s
  happens (publishes max ship) s = (publish max ship s).1

  unfoldable pub shipped_by : OutboxEvent Url → OutboxState Url → List ℕ
  shipped_by (records parent attempt child) s = []
  shipped_by (publishes max ship) s = if_ok (publish max ship s).0 (ids_of (lease_batch max s).0)

  unfoldable pub shipped_ids : List (OutboxEvent Url) → OutboxState Url → List ℕ
  unfolding happens shipped_by
  shipped_ids [] s = []
  shipped_ids (e ∷ es) s = shipped_by e s ++ shipped_ids es (happens e s)

  -- The ids of the rows are distinct and come from the counter, which does not wrap in `n` events.
  record Numbered (n : ℕ) (s : OutboxState Url) : Type 0 where
    once : (j : ℕ) → rows_with j s.rows ≤ 1
    fresh : (j : ℕ) → s.next_id < j → rows_with j s.rows ≡ 0
    room : s.next_id + n < 2 ^ 64

  abbrev the_row : ℕ → UrlEntry Url → OutboxRow Url
  the_row id child = record { id = id; entry = child; published = false }

  -- An event keeps the numbering, and what it ships becomes published.
  record Steps (n : ℕ) (e : OutboxEvent Url) (s : OutboxState Url) : Type 0 where
    numbered : Numbered n (happens e s)
    sent : (j : ℕ) → count j (shipped_by e s) + sent_with j s.rows ≤ sent_with j (happens e s).rows

  -- A settled batch is published, or nothing is.
  abbrev Settled : OutboxState Url → List ℕ → Result ℕ × OutboxState Url → Type 0
  Settled held ids o =
      (o.1.next_id ≡ held.next_id)
      × (((if_ok o.0 ids ≡ ids) × (o.1.rows ≡ publish_rows ids held.rows))
          ⊎ ((if_ok o.0 ids ≡ []) × (o.1.rows ≡ held.rows)))

  -- The outbox with one more row.
  abbrev Adds : UrlEntry Url → OutboxState Url → OutboxState Url → Type 0
  Adds child s t =
      (t.next_id ≡ (s.next_id + 1) % 2 ^ 64)
      × (t.rows ≡ s.rows ++ the_row ((s.next_id + 1) % 2 ^ 64) child ∷ [])
