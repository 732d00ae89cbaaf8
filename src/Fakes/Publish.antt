-- ===== src/Fakes/Publish.antt =====
-- crates/crawlrs-fakes/src/metadata_store.rs: what `Outbox::publish` takes, and what it leaves.
use crawlrs.Prelude.{
  ℕ, zero, suc, ◌≤◌, ◌≡◌, refl, true, false, not, ◌&&◌, ◌||◌, List, [], ◌∷◌, contains, nat_eq,
  list_eq, All, arith, inl, inr, Bool-cases, ◌∙◌, ap, sym, subst, ◌≢◌, eqb, eqb_iff, length,
}
use crawlrs.Core.Error.{Error, Result, ok, err, panic, Result-cases}
use crawlrs.Fakes.Outbox.{
  OutboxRow, OutboxEntry, OutboxState, set_insert, set_remove, insert_all, remove_all, is_open,
  open_entries, ids_of, lease_batch, finalize_lease, release_lease,
}
use crawlrs.Fakes.Ledger.{settle, publish}

contains-set_insert :
    (id j : ℕ) (ids : List ℕ) → contains (set_insert id ids) j ≡ (eqb j id || contains ids j)
unfolding set_insert
contains-set_insert id j ids = ground (arith, eqb_iff j id)

contains-insert_all :
    (new ids : List ℕ) (j : ℕ)
    → contains (insert_all new ids) j ≡ (contains new j || contains ids j)
unfolding insert_all
contains-insert_all [] ids j = refl
contains-insert_all (id ∷ new) ids j =
    ground (arith, contains-insert_all new (set_insert id ids) j, contains-set_insert id j ids)

contains-set_remove :
    (id j : ℕ) (ids : List ℕ) → contains (set_remove id ids) j ≡ (not (eqb j id) && contains ids j)
unfolding set_remove
contains-set_remove id j [] = ground arith
contains-set_remove id j (i ∷ ids) =
    ground (arith, contains-set_remove id j ids, eqb_iff i id, eqb_iff j i, eqb_iff j id)

contains-remove_all :
    (old ids : List ℕ) (j : ℕ)
    → contains (remove_all old ids) j ≡ (not (contains old j) && contains ids j)
unfolding remove_all
contains-remove_all [] ids j = refl
contains-remove_all (id ∷ old) ids j =
    ground (arith, contains-remove_all old (set_remove id ids) j, contains-set_remove id j ids)

free_of_All :
    (leased ids : List ℕ) (j : ℕ)
    → All (λ i. contains leased i ≡ false) ids
    → contains ids j ≡ true
    → contains leased j ≡ false
free_of_All leased [] j h e = cc
free_of_All leased (i ∷ ids) j h e = elim (Bool-cases (eqb j i)) [
  | inl same ↦ subst (λ k. contains leased k ≡ false) (sym ((eqb_iff j i).0 same)) h.0
  | inr apart ↦ free_of_All leased ids j h.1 (ground (arith, e, apart))
]

-- A batch that is leased and then let go leaves the leases as they were.
leased_back :
    (leased ids : List ℕ) (j : ℕ)
    → All (λ i. contains leased i ≡ false) ids
    → contains (remove_all ids (insert_all ids leased)) j ≡ contains leased j
leased_back leased ids j h =
    contains-remove_all ids (insert_all ids leased) j ∙ elim (Bool-cases (contains ids j)) [
      | inl mine ↦
          ground (arith, contains-insert_all ids leased j, mine, free_of_All leased ids j h mine)
      | inr other ↦ ground (arith, contains-insert_all ids leased j, other)
    ]

module _ {Url : Type 0} where
  -- The ids that a batch takes were leased to nobody.
  open_entries-free :
      (leased : List ℕ) (max : ℕ) (rows : List (OutboxRow Url))
      → All (λ i. contains leased i ≡ false) (ids_of (open_entries leased max rows))
  unfolding open_entries ids_of is_open
  open_entries-free leased zero rows = tt
  open_entries-free leased (suc max) [] = tt
  open_entries-free leased (suc max) (row ∷ rows) = elim (Bool-cases (is_open leased row)) [
    | inl free ↦ rw (free, open_entries) (ground (arith, free), open_entries-free leased max rows)
    | inr taken ↦ rw (taken, open_entries) (open_entries-free leased (suc max) rows)
  ]

  length-open_entries :
      (leased : List ℕ) (max : ℕ) (rows : List (OutboxRow Url))
      → length (open_entries leased max rows) ≤ max
  unfolding open_entries
  length-open_entries leased zero rows = omega arith
  length-open_entries leased (suc max) [] = omega arith
  length-open_entries leased (suc max) (row ∷ rows) =
      ground (arith, length-open_entries leased max rows, length-open_entries leased (suc max) rows)

  settle-leases :
      (ship : List (OutboxEntry Url) → Result (Unit {0})) (leased : List ℕ) (held : OutboxState Url)
      (entries : List (OutboxEntry Url)) (j : ℕ)
      → ((es : List (OutboxEntry Url)) → ship es ≢ panic)
      → held.leased ≡ insert_all (ids_of entries) leased
      → All (λ i. contains leased i ≡ false) (ids_of entries)
      → contains (settle ship held entries).1.leased j ≡ contains leased j
  unfolding settle ids_of insert_all finalize_lease release_lease
  settle-leases ship leased held [] j calm e free = ap (λ l. contains l j) e
  settle-leases ship leased held (x ∷ xs) j calm e free =
      let back =
        ap (λ l. contains (remove_all (ids_of (x ∷ xs)) l) j) e
        ∙ leased_back leased (ids_of (x ∷ xs)) j free in
      elim (Result-cases (ship (x ∷ xs))) [
        | inl (u, r) ↦ rw (r, settle) back
        | inr (inl (y, r)) ↦ rw (r, settle) back
        | inr (inr r) ↦ absurd (calm (x ∷ xs) r)
      ]

  settle-rows :
      (ship : List (OutboxEntry Url) → Result (Unit {0})) (held : OutboxState Url)
      (entries : List (OutboxEntry Url)) (e : Error)
      → (settle ship held entries).0 ≡ err e
      → (settle ship held entries).1.rows ≡ held.rows
  unfolding settle finalize_lease release_lease
  settle-rows ship held [] e h = refl
  settle-rows ship held (x ∷ xs) e h = elim (Result-cases (ship (x ∷ xs))) [
    | inl (u, r) ↦ absurd (not_err (length (x ∷ xs)) (rw (r, settle) at h))
    | inr (inl (y, r)) ↦ rw (r, settle) refl
    | inr (inr r) ↦ rw (r, settle) refl
  ]
    where
      not_err : (n : ℕ) → ◌≡◌ {A = Result ℕ} (ok n) (err e) → ⊥
      not_err n k = cc

  -- Whatever the publisher answers, short of a panic, a publish takes at most `max` rows and leaves
  -- the leases as they were; if the rows could not be shipped, it leaves the rows too.
  pub publish_settles :
      (max : ℕ) (ship : List (OutboxEntry Url) → Result (Unit {0})) (s : OutboxState Url)
      → ((es : List (OutboxEntry Url)) → ship es ≢ panic)
      → (length (lease_batch max s).0 ≤ max)
        × ((j : ℕ) → contains (publish max ship s).1.leased j ≡ contains s.leased j)
        × ((e : Error) → (publish max ship s).0 ≡ err e → (publish max ship s).1.rows ≡ s.rows)
  unfolding publish lease_batch
  publish_settles max ship s calm = (
    length-open_entries s.leased max s.rows,
    λ j.
        settle-leases ship s.leased (lease_batch max s).1 (open_entries s.leased max s.rows) j calm
          refl (open_entries-free s.leased max s.rows),
    λ e h. settle-rows ship (lease_batch max s).1 (open_entries s.leased max s.rows) e h,
  )
