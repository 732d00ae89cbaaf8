-- ===== src/Fakes/Totality.antt =====
-- crates/crawlrs-fakes/src/frontier.rs: `InMemoryFrontier::claim` always has an outcome.
use crawlrs.Prelude.{
  ℕ, zero, suc, ◌+◌, ◌%◌, ◌<◌, ◌≡◌, refl, List, [], ◌∷◌, Option, none, some, eqb, inl, inr, length,
  get_elem?, Bool-cases, Option-cases, nat_eq, arith, ◌⊎◌,
}
use crawlrs.Prelude.Map
use crawlrs.Prelude.Map.{Map}
use crawlrs.Core.Error.{Text, Result, ok, err, panic}
use crawlrs.Core.Types.{UrlApi, UrlEntry, ClaimOutcome}
use crawlrs.Fakes.Shard.{ShardState, pop_one_ready}
use crawlrs.Fakes.Accounting.{Accounted}
use crawlrs.Fakes.Delivery.{Pops, claim-Pops, claim-Accounted}
use crawlrs.Fakes.Frontier.{InMemoryFrontier, FrontierState, set_shard, soonest, claim_loop, claim}
use crawlrs.Fakes.Lift.{AllShards, get-AllShards, insert-AllShards}

module _ {Url : Type 0} (api : UrlApi Url) (f : InMemoryFrontier Url) where
  get_elem?-lt : (xs : List ℕ) (i : ℕ) → i < length xs → (x : ℕ) × (get_elem? xs i ≡ some x)
  get_elem?-lt [] i h = absurd (omega arith)
  get_elem?-lt (x ∷ xs) zero h = (x, refl)
  get_elem?-lt (x ∷ xs) (suc i) h = get_elem?-lt xs i (omega arith)

  abbrev IsOk {ℓ} : {A : Type ℓ} → Result A → Type ℓ
  IsOk {A} r = (a : A) × (r ≡ ok a)

  -- What a pop of a sound shard can return.
  Pops-ok :
      (now timeout : ℕ) (hosts : List Text) (s t : ShardState Url)
      (r : Result (Option (Text × UrlEntry Url × Text)))
      → Pops now timeout hosts s r t
      → (r ≡ ok none) ⊎ ((d : Text × UrlEntry Url × Text) × (r ≡ ok (some d)))
  Pops-ok now timeout hosts s t (ok none) p = inl refl
  Pops-ok now timeout hosts s t (ok (some d)) p = inr (d, refl)
  Pops-ok now timeout hosts s t (err e) p = absurd p
  Pops-ok now timeout hosts s t panic p = absurd p

  claim_loop_total :
      (now start left offset : ℕ) (w : Option ℕ) (st : FrontierState Url)
      → 0 < length f.owned_shards
      → AllShards Accounted st.shards
      → IsOk (claim_loop api f now start left offset w st).0
  unfolding claim_loop set_shard
  claim_loop_total now start zero offset w st pos h = (_, refl)
  claim_loop_total now start (suc left) offset w st pos h =
      let (shard, e) =
        get_elem?-lt f.owned_shards ((start + offset) % length f.owned_shards) (omega arith) in
      rw (e, claim_loop)
        (elim (Option-cases (Map.get shard st.shards)) [
          | inl absent ↦
              rw (absent, claim_loop) (claim_loop_total now start left (offset + 1) w st pos h)
          | inr (s, found) ↦
              let k = get-AllShards Accounted shard st.shards h found in
              let t = (pop_one_ready now f.lease_timeout_ms s).1 in
              let p = claim-Pops now f.lease_timeout_ms s k in
              rw (found, claim_loop)
                (elim (Pops-ok now f.lease_timeout_ms s.ready s t _ p) [
                  | inl r ↦
                      rw (r, claim_loop)
                        (claim_loop_total now start left (offset + 1) (soonest api f t.wake w)
                          (set_shard shard t st) pos
                          (insert-AllShards Accounted shard t st.shards
                            (claim-Accounted now f.lease_timeout_ms s k) h))
                  | inr (d, r) ↦ rw (r, claim_loop) (_, refl)
                ])
        ])

  -- A claim on a frontier whose shards account for their URLs returns an outcome: it neither fails
  -- nor panics.
  pub claim_total :
      (now : ℕ) (st : FrontierState Url)
      → AllShards Accounted st.shards
      → (o : ClaimOutcome Url) × ((claim api f now st).0 ≡ ok o)
  unfolding claim
  claim_total now st h = elim (Bool-cases (eqb (length f.owned_shards) 0)) [
    | inl idle ↦ rw idle (_, refl)
    | inr busy ↦ rw busy (claim_loop_total now _ (length f.owned_shards) 0 none _ (ground arith) h)
  ]
