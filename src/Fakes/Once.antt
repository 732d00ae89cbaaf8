-- ===== src/Fakes/Once.antt =====
-- crates/crawlrs-fakes/src/metadata_store.rs: a success that is recorded again changes nothing.
use crawlrs.Prelude.{
  ℕ, ◌≡◌, refl, Bool, true, List, [], ◌∷◌, none, some, contains, nat_eq, list_eq, All, arith, inl,
  inr, Bool-cases, Option-cases, ==_refl, ◌||◌, ◌∙◌, ap, sym, subst,
}
use crawlrs.Prelude.Map
use crawlrs.Core.Error.{Text, Error, Result, ok, err, missing_row}
use crawlrs.Core.Types.{UrlApi, UrlEntry}
use crawlrs.Runtime.Effects.{SuccessRecord}
use crawlrs.Fakes.Outbox.{OutboxState, dedupe_key, record_outbound}
use crawlrs.Fakes.Ledger.{
  LedgerState, UrlMetadata, get, record_history, record_children, succeed, succeeded_row, with_row,
  mark_succeeded,
}

module _ {Url : Type 0} (api : UrlApi Url) where
  Recorded : Url → Text → OutboxState Url → UrlEntry Url → Type 0
  Recorded parent attempt s child = contains s.dedupe (dedupe_key api parent attempt child) ≡ true

  record_outbound-Recorded :
      (parent : Url) (attempt : Text) (child : UrlEntry Url) (s : OutboxState Url)
      → Recorded parent attempt (record_outbound api parent attempt child s) child
  unfolding Recorded record_outbound
  record_outbound-Recorded parent attempt child s =
      elim (Bool-cases (contains s.dedupe (dedupe_key api parent attempt child))) [
        | inl old ↦ rw (old, record_outbound) old
        | inr new ↦
            rw (new, record_outbound) (rw (==_refl (dedupe_key api parent attempt child)) refl)
      ]

  record_outbound-keeps :
      (parent : Url) (attempt : Text) (child other : UrlEntry Url) (s : OutboxState Url)
      → Recorded parent attempt s other
      → Recorded parent attempt (record_outbound api parent attempt child s) other
  unfolding Recorded record_outbound
  record_outbound-keeps parent attempt child other s h =
      elim (Bool-cases (contains s.dedupe (dedupe_key api parent attempt child))) [
        | inl old ↦ rw (old, record_outbound) h
        | inr new ↦ rw (new, record_outbound) (or_right _ _ h)
      ]
    where
      or_right : (a b : Bool) → b ≡ true → (a || b) ≡ true
      or_right a b e = ground arith

  record_children-keeps :
      (parent : Url) (attempt : Text) (children : List (UrlEntry Url)) (other : UrlEntry Url)
      (s : OutboxState Url)
      → Recorded parent attempt s other
      → Recorded parent attempt (record_children api parent attempt children s) other
  unfolding record_children
  record_children-keeps parent attempt [] other s h = h
  record_children-keeps parent attempt (child ∷ children) other s h =
      record_children-keeps parent attempt children other _
        (record_outbound-keeps parent attempt child other s h)

  record_children-Recorded :
      (parent : Url) (attempt : Text) (children : List (UrlEntry Url)) (s : OutboxState Url)
      → All (Recorded parent attempt (record_children api parent attempt children s)) children
  unfolding record_children
  record_children-Recorded parent attempt [] s = tt
  record_children-Recorded parent attempt (child ∷ children) s = (
    record_children-keeps parent attempt children child _
        (record_outbound-Recorded parent attempt child s),
    record_children-Recorded parent attempt children _,
  )

  record_children-known :
      (parent : Url) (attempt : Text) (children : List (UrlEntry Url)) (s : OutboxState Url)
      → All (Recorded parent attempt s) children
      → record_children api parent attempt children s ≡ s
  unfolding record_children record_outbound Recorded
  record_children-known parent attempt [] s h = refl
  record_children-known parent attempt (child ∷ children) s h =
      ap (record_children api parent attempt children) known
      ∙ record_children-known parent attempt children s h.1
    where
      known : record_outbound api parent attempt child s ≡ s
      known = rw (h.0, record_outbound) refl

  record_history-known :
      (key : List Text) (s : LedgerState Url)
      → contains s.succeeded_attempts key ≡ true
      → record_history api key s ≡ s
  unfolding record_history
  record_history-known key s h = rw (h, record_history) refl

  record_history-knows :
      (key : List Text) (s : LedgerState Url)
      → contains (record_history api key s).succeeded_attempts key ≡ true
  unfolding record_history
  record_history-knows key s = elim (Bool-cases (contains s.succeeded_attempts key)) [
    | inl old ↦ rw (old, record_history) old
    | inr new ↦ rw (new, record_history) (rw (==_refl key) refl)
  ]

  rows-record_history :
      (key : List Text) (s : LedgerState Url) → (record_history api key s).rows ≡ s.rows
  unfolding record_history
  rows-record_history key s = elim (Bool-cases (contains s.succeeded_attempts key)) [
    | inl old ↦ rw (old, record_history) refl
    | inr new ↦ rw (new, record_history) refl
  ]

  abbrev history_key : SuccessRecord Url → List Text
  history_key r = api.as_str r.url ∷ r.attempt_id ∷ []

  -- What a recorded success leaves behind.
  record Noted (r : SuccessRecord Url) (s : LedgerState Url) : Type 0 where
    row : (m : UrlMetadata Url) × (get api r.url s ≡ some m)
    history : contains s.succeeded_attempts (history_key r) ≡ true
    links : All (Recorded r.url r.attempt_id s.outbox) r.outbound

  succeed-Noted :
      (now : ℕ) (r : SuccessRecord Url) (m : UrlMetadata Url) (s : LedgerState Url)
      → Noted r (succeed api now r m s)
  unfolding succeed get
  succeed-Noted now r m s = record {
    row = (
      succeeded_row api now r m,
      ap (Map.get (api.as_str r.url)) (rows-record_history (history_key r) (with_row api now r m s))
          ∙ Map.get-insert (api.as_str r.url) (api.as_str r.url) (succeeded_row api now r m) s.rows
          ∙ rw (==_refl (api.as_str r.url)) refl,
    );
    history = record_history-knows (history_key r) (with_row api now r m s);
    links =
        record_children-Recorded r.url r.attempt_id r.outbound
          (record_history api (history_key r) (with_row api now r m s)).outbox;
  }

  succeed-again :
      (later : ℕ) (r : SuccessRecord Url) (m : UrlMetadata Url) (s : LedgerState Url)
      → Noted r s
      → ((succeed api later r m s).outbox ≡ s.outbox)
        × ((succeed api later r m s).succeeded_history_count ≡ s.succeeded_history_count)
  unfolding succeed
  succeed-again later r m s h =
      let noted = with_row api later r m s in
      let same = record_history-known (history_key r) noted h.history in
      (
        ap (λ t. record_children api r.url r.attempt_id r.outbound t.outbox) same
            ∙ record_children-known r.url r.attempt_id r.outbound s.outbox h.links,
        ap (λ t. t.succeeded_history_count) same,
      )

  -- A success that is reported again for the same attempt is accepted, but adds no history row and
  -- leaves the outbox as it is: no link is queued twice.
  pub mark_succeeded_once :
      (now later : ℕ) (r : SuccessRecord Url) (s : LedgerState Url)
      → (mark_succeeded api now r s).0 ≡ ok tt
      → ((mark_succeeded api later r (mark_succeeded api now r s).1).0 ≡ ok tt)
        × ((mark_succeeded api later r (mark_succeeded api now r s).1).1.outbox
            ≡ (mark_succeeded api now r s).1.outbox)
        × ((mark_succeeded api later r (mark_succeeded api now r s).1).1.succeeded_history_count
            ≡ (mark_succeeded api now r s).1.succeeded_history_count)
  unfolding mark_succeeded
  mark_succeeded_once now later r s e = elim (Option-cases (get api r.url s)) [
    | inl lost ↦ absurd (refused (sym (ap (λ p. p.0) (missing lost)) ∙ e))
    | inr (m, found) ↦
        let first = rewritten now s m found in
        let noted = succeed-Noted now r m s in
        let second = rewritten later (succeed api now r m s) noted.row.0 noted.row.1 in
        let again = succeed-again later r noted.row.0 (succeed api now r m s) noted in
        subst
          (λ t.
            ((mark_succeeded api later r t).0 ≡ ok tt)
            × ((mark_succeeded api later r t).1.outbox ≡ t.outbox)
            × ((mark_succeeded api later r t).1.succeeded_history_count
                ≡ t.succeeded_history_count))
          (sym (ap (λ p. p.1) first))
          (
            ap (λ p. p.0) second,
            ap (λ p. p.1.outbox) second ∙ again.0,
            ap (λ p. p.1.succeeded_history_count) second ∙ again.1,
          )
  ]
    where
      rewritten :
          (at : ℕ) (t : LedgerState Url) (m : UrlMetadata Url)
          → get api r.url t ≡ some m
          → mark_succeeded api at r t ≡ (ok tt, succeed api at r m t)
      rewritten at t m found = rw (found, mark_succeeded) refl

      missing :
          get api r.url s ≡ none
          → mark_succeeded api now r s ≡ (err (missing_row (api.as_str r.url)), s)
      missing lost = rw (lost, mark_succeeded) refl

      refused : {x : Error} → ◌≡◌ {A = Result (Unit {0})} (err x) (ok tt) → ⊥
      refused h = cc
