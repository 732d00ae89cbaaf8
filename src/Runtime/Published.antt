-- ===== src/Runtime/Published.antt =====
-- crates/crawlrs-runtime/src/outbox.rs: what becomes of the rows that the publisher ships, and of
-- those that it cannot ship.
use crawlrs.Prelude.{
  ℕ, suc, length, ◌≡◌, refl, true, false, List, [], ◌∷◌, arith, inl, inr, ◌⊎◌, nat_eq, list_eq, All,
  map, Bool-cases, ap, ◌∙◌, ◌==◌, ◌≢◌,
}
use crawlrs.Prelude.Map
use crawlrs.Core.Error.{Text, Error, Result, ok, err, panic}
use crawlrs.Core.Types.{UrlApi, UrlEntry, skipped, SubmitBatchOutcome}
use crawlrs.Fakes.Frontier.{InMemoryFrontier, FrontierState, locate, submit_batch}
use crawlrs.Fakes.Accounting.{same_text}
use crawlrs.Fakes.Ledger
use crawlrs.Fakes.Ledger.{LedgerState}
use crawlrs.Fakes.Outbox.{
  OutboxEntry, OutboxState, ids_of, lease_batch, finalize_lease, release_lease,
}
use crawlrs.Runtime.Publisher.{
  Sinks, mark_rejected, on_submitted, ship, shipped, progress, publish_one_batch,
}
use crawlrs.Runtime.Shipping.{IsIn, IsKnown, batch_loop-Serves, batch_loop_stuck}

module _ {Url : Type 0} (api : UrlApi Url) (f : InMemoryFrontier Url) where
  -- The ledger has a row of the URL.
  abbrev pub HasRow : LedgerState Url → UrlEntry Url → Type 0
  HasRow l entry = Map.contains_key (api.as_str entry.url) l.rows ≡ true

  skipped-HasRow :
      (now : ℕ) (run_id : Text) (e x : UrlEntry Url) (l : LedgerState Url)
      → (e ≡ x) ⊎ HasRow l x
      → HasRow (Ledger.mark_discovered_skipped api now e.url run_id e.depth e.discovered_from l) x
  unfolding Ledger.mark_discovered_skipped
  skipped-HasRow now run_id e x l h =
      rw
        (Map.get-or_insert (api.as_str e.url) (api.as_str x.url)
          (Ledger.new_row api now e.url skipped e.depth run_id e.discovered_from) l.rows)
        (elim (Bool-cases (api.as_str e.url == api.as_str x.url)) [
          | inl same ↦ rw same refl
          | inr other ↦ rw other (apart other h)
        ])
    where
      apart : (api.as_str e.url == api.as_str x.url) ≡ false → (e ≡ x) ⊎ HasRow l x → HasRow l x
      apart other (inr k) = k
      apart other (inl k) = absurd (
          ground (
            arith,
            other,
            (same_text (api.as_str e.url) (api.as_str x.url)).1 (ap (λ y. api.as_str y.url) k),
          ))

  mark_rejected-HasRow :
      (now : ℕ) (run_id : Text) (es : List (UrlEntry Url)) (x : UrlEntry Url) (l : LedgerState Url)
      → IsIn x es ⊎ HasRow l x
      → HasRow (mark_rejected api f run_id now es l) x
  unfolding mark_rejected
  mark_rejected-HasRow now run_id [] x l (inl h) = absurd h
  mark_rejected-HasRow now run_id [] x l (inr h) = h
  mark_rejected-HasRow now run_id (e ∷ es) x l (inl (inr h)) =
      mark_rejected-HasRow now run_id es x _ (inl h)
  mark_rejected-HasRow now run_id (e ∷ es) x l (inl (inl h)) =
      mark_rejected-HasRow now run_id es x _ (inr (skipped-HasRow now run_id e x l (inl h)))
  mark_rejected-HasRow now run_id (e ∷ es) x l (inr h) =
      mark_rejected-HasRow now run_id es x _ (inr (skipped-HasRow now run_id e x l (inr h)))

  -- The frontier has seen the link, or the ledger has a row of it.
  abbrev pub IsAccounted : Sinks Url → OutboxEntry Url → Type 0
  IsAccounted w x = IsKnown api f w.frontier_state x.entry ⊎ HasRow w.ledger x.entry

  submitted-IsAccounted :
      (now : ℕ) (run_id : Text) (es : List (UrlEntry Url)) (l : LedgerState Url)
      (r : Result (SubmitBatchOutcome Url) × FrontierState Url)
      → ((o' : SubmitBatchOutcome Url)
          → r.0 ≡ ok o'
          → All (λ e. IsKnown api f r.1 e ⊎ IsIn e o'.rejected_urls) es)
      → (on_submitted api f run_id now l r).0 ≡ ok tt
      → All
          (λ e.
            IsKnown api f (on_submitted api f run_id now l r).1.frontier_state e
            ⊎ HasRow (on_submitted api f run_id now l r).1.ledger e)
          es
  unfolding on_submitted
  submitted-IsAccounted now run_id es l (ok o', st) served e = recorded es (served o' refl)
    where
      recorded :
          (xs : List (UrlEntry Url))
          → All (λ x. IsKnown api f st x ⊎ IsIn x o'.rejected_urls) xs
          → All
              (λ x.
                IsKnown api f st x ⊎ HasRow (mark_rejected api f run_id now o'.rejected_urls l) x)
              xs
      recorded [] h = tt
      recorded (x ∷ xs) (inl k, h) = (inl k, recorded xs h)
      recorded (x ∷ xs) (inr k, h) =
          (inr (mark_rejected-HasRow now run_id o'.rejected_urls x l (inl k)), recorded xs h)
  submitted-IsAccounted now run_id es l (err x, st) served e = absurd (ground (arith, e))
  submitted-IsAccounted now run_id es l (panic, st) served e = absurd (ground (arith, e))

  All-entries :
      (P : UrlEntry Url → Type 0) (entries : List (OutboxEntry Url))
      → All P (map (λ x. x.entry) entries)
      → All (λ x. P x.entry) entries
  All-entries P [] h = tt
  All-entries P (x ∷ xs) h = (h.0, All-entries P xs h.1)

  ship-IsAccounted :
      (now : ℕ) (run_id : Text) (entries : List (OutboxEntry Url)) (w : Sinks Url)
      → (ship api f run_id now entries w).0 ≡ ok tt
      → All (IsAccounted (ship api f run_id now entries w).1) entries
  unfolding ship submit_batch
  ship-IsAccounted now run_id entries w e = All-entries _ entries (
      submitted-IsAccounted now run_id (map (λ x. x.entry) entries) w.ledger _
        (λ o' p.
          (batch_loop-Serves api f now (map (λ x. x.entry) entries) _ w.frontier_state o' p).0)
        e)

  -- A publish that made progress has shipped.
  progress_shipped :
      (n : ℕ) (run_id : Text) (r : Result (Unit {0})) (es : List (OutboxEntry Url))
      (held : OutboxState Url)
      → progress api f run_id
          (elim r as (λ _. Result ℕ × OutboxState Url) [
            | ok u ↦ (ok (length es), finalize_lease (ids_of es) held)
            | err x ↦ (err x, release_lease (ids_of es) held)
            | panic ↦ (panic, held)
          ]).0
        ≡ ok (suc n)
      → r ≡ ok tt
  progress_shipped n run_id (ok u) es held e = refl
  progress_shipped n run_id (err x) es held e = absurd (ground (arith, e))
  progress_shipped n run_id panic es held e = absurd (ground (arith, e))

  -- After a publish that shipped at least one row, every link of the batch is known to the frontier,
  -- or the ledger has a row of it: none is lost.
  pub publish-IsAccounted :
      (now batch_size n : ℕ) (run_id : Text) (s : OutboxState Url) (w : Sinks Url)
      → (publish_one_batch api f run_id now batch_size s w).0 ≡ ok (suc n)
      → All
          (IsAccounted (publish_one_batch api f run_id now batch_size s w).2)
          (lease_batch batch_size s).0
  unfolding publish_one_batch Ledger.publish Ledger.settle shipped
  publish-IsAccounted now batch_size n run_id s w = by_batch (lease_batch batch_size s).0
    where
      by_batch :
          (es : List (OutboxEntry Url))
          → progress api f run_id
              (Ledger.settle
                (λ es. (ship api f run_id now es w).0)
                (lease_batch batch_size s).1
                es).0
            ≡ ok (suc n)
          → All (IsAccounted (shipped api f run_id now es w)) es
      by_batch [] e = tt
      by_batch (x ∷ xs) e = ship-IsAccounted now run_id (x ∷ xs) w (
          progress_shipped n run_id (ship api f run_id now (x ∷ xs) w).0 (x ∷ xs)
            (lease_batch batch_size s).1 e)

  rows_kept :
      (r : Result (Unit {0})) (es : List (OutboxEntry Url)) (held : OutboxState Url)
      → r ≢ ok tt
      → (elim r as (λ _. Result ℕ × OutboxState Url) [
        | ok u ↦ (ok (length es), finalize_lease (ids_of es) held)
        | err x ↦ (err x, release_lease (ids_of es) held)
        | panic ↦ (panic, held)
      ]).1.rows
        ≡ held.rows
  unfolding release_lease
  rows_kept (ok u) es held never = absurd (never refl)
  rows_kept (err x) es held never = refl
  rows_kept panic es held never = refl

  ship_stuck :
      (now : ℕ) (run_id : Text) (es : List (OutboxEntry Url)) (w : Sinks Url) (x : OutboxEntry Url)
      (y : Error)
      → IsIn x es
      → locate api f x.entry ≡ err y
      → (ship api f run_id now es w).0 ≢ ok tt
  unfolding ship submit_batch
  ship_stuck now run_id es w x y here at = unsubmitted _ (λ o'.
      batch_loop_stuck api f now (map (λ z. z.entry) es) x.entry y
        (record { queued = 0; rejected_urls = [] }) o' w.frontier_state (entry_in es here) at)
    where
      entry_in : (zs : List (OutboxEntry Url)) → IsIn x zs → IsIn x.entry (map (λ z. z.entry) zs)
      entry_in [] h = absurd h
      entry_in (z ∷ zs) (inl h) = inl (ap (λ k. k.entry) h)
      entry_in (z ∷ zs) (inr h) = inr (entry_in zs h)

      unsubmitted :
          (r : Result (SubmitBatchOutcome Url) × FrontierState Url)
          → ((o' : SubmitBatchOutcome Url) → r.0 ≢ ok o')
          → (on_submitted api f run_id now w.ledger r).0 ≢ ok tt
      unsubmitted (ok o', st) never = λ e. never o' refl
      unsubmitted (err z, st) never = unfold on_submitted in λ e. ground (arith, e)
      unsubmitted (panic, st) never = unfold on_submitted in λ e. ground (arith, e)

  -- A row whose URL the frontier has no place for, because it has no host or its shard is not
  -- owned, holds up its whole batch: as long as the row is in the batch, a publish makes no
  -- progress and leaves every row as it was, so that the next publish meets it again.
  pub publish_stuck :
      (now batch_size : ℕ) (run_id : Text) (s : OutboxState Url) (w : Sinks Url)
      (x : OutboxEntry Url) (y : Error)
      → IsIn x (lease_batch batch_size s).0
      → locate api f x.entry ≡ err y
      → let o = publish_one_batch api f run_id now batch_size s w in
        ((n : ℕ) → o.0 ≢ ok (suc n)) × (o.1.rows ≡ s.rows)
  unfolding publish_one_batch Ledger.publish Ledger.settle
  publish_stuck now batch_size run_id s w x y here at = by_batch (lease_batch batch_size s).0 here
    where
      settle : List (OutboxEntry Url) → Result ℕ × OutboxState Url
      settle = Ledger.settle (λ es. (ship api f run_id now es w).0) (lease_batch batch_size s).1

      leased_rows : (lease_batch batch_size s).1.rows ≡ s.rows
      leased_rows = unfold lease_batch in refl

      by_batch :
          (es : List (OutboxEntry Url))
          → IsIn x es
          → ((n : ℕ) → progress api f run_id (settle es).0 ≢ ok (suc n))
            × ((settle es).1.rows ≡ s.rows)
      by_batch [] h = absurd h
      by_batch (z ∷ zs) h = (
        λ n e. ship_stuck now run_id (z ∷ zs) w x y h at (
            progress_shipped n run_id (ship api f run_id now (z ∷ zs) w).0 (z ∷ zs)
              (lease_batch batch_size s).1 e),
        rows_kept (ship api f run_id now (z ∷ zs) w).0 (z ∷ zs) (lease_batch batch_size s).1
              (ship_stuck now run_id (z ∷ zs) w x y h at)
            ∙ leased_rows,
      )
