-- ===== src/Fakes/Accounting.antt =====
-- crates/crawlrs-fakes/src/frontier.rs: no URL is lost and none is delivered twice at once.
use crawlrs.Prelude.{
  ℕ, ◌+◌, ◌≡◌, refl, Bool, true, false, List, [], ◌∷◌, ◌++◌, Option, none, some, arith, inl, inr,
  if◌then◌else◌, contains, count, count-append, ◌↔◌, ◌==◌, list_beq_iff, list_eq, nat_eq, unwrap_or,
  is_some, Option-cases,
}
use crawlrs.Prelude.Map
use crawlrs.Prelude.Map.{Map}
use crawlrs.Core.Error.{Text}
use crawlrs.Core.Types.{UrlEntry}
use crawlrs.Fakes.Rules.{submit_keeps, batch_keeps}
use crawlrs.Fakes.Shard.{
  saturating_add, ShardState, enqueue, submit_shard, batch_shard, bump_count, lease_url,
}

abbrev pub one_if : Bool → ℕ
one_if b = if b then 1 else 0

pub same_text : (a b : Text) → ((a == b) ≡ true) ↔ (a ≡ b)
same_text a b = list_beq_iff a b

-- A push adds one occurrence to the queues.
pub total-push_back :
    (host id j : Text) (m : Map Text (List Text))
    → Map.total (count j) (Map.insert host (unwrap_or (Map.get host m) [] ++ id ∷ []) m)
      ≡ Map.total (count j) m + one_if (j == id)
total-push_back host id j m = ground (
  arith,
  Map.total-insert (count j) host (unwrap_or (Map.get host m) [] ++ id ∷ []) m,
  count-append j (unwrap_or (Map.get host m) []) (id ∷ []),
)

module _ {Url : Type 0} where
  -- How often a URL stands in the host queues.
  unfoldable pub pending : Text → ShardState Url → ℕ
  pending id s = Map.total (count id) s.host_queue

  -- 1 while a worker holds a lease on the URL.
  abbrev pub leased : Text → ShardState Url → ℕ
  leased id s = one_if (is_some (Map.get id s.inflight))

  -- 1 while the URL's payload is kept.
  abbrev pub stored : Text → ShardState Url → ℕ
  stored id s = one_if (is_some (Map.get id s.urls))

  pub record Accounted (s : ShardState Url) : Type 0 where
    pub balanced : (id : Text) → pending id s + leased id s ≡ stored id s
    pub known : (id : Text) → Map.contains_key id s.urls ≡ true → contains s.seen id ≡ true

  enqueue-Accounted :
      (now : ℕ) (id host : Text) (entry : UrlEntry Url) (s : ShardState Url)
      → Accounted s
      → contains s.seen id ≡ false
      → Accounted (enqueue now id host entry s)
  unfolding enqueue pending
  enqueue-Accounted now id host entry s h fresh = record {
    balanced = λ j. ground (
      arith,
      total-push_back host id j s.host_queue,
      h.balanced j,
      h.balanced id,
      h.known id,
      Map.get-insert id j entry s.urls,
      same_text id j,
      same_text j id,
    );
    known = λ j p.
        ground (arith, h.known j, Map.get-insert id j entry s.urls, same_text id j, same_text j id);
  }

  pub submit-Accounted :
      (now : ℕ) (id host : Text) (entry : UrlEntry Url) (s : ShardState Url)
      → Accounted s
      → Accounted (submit_shard now id host entry s).1
  submit-Accounted now id host entry s h =
      submit_keeps Accounted now id host entry s
        (λ new k. enqueue-Accounted now id host entry s k new) h

  bump_count-Accounted :
      (cap : Option ℕ) (host : Text) (s : ShardState Url)
      → Accounted s
      → Accounted (bump_count cap host s)
  unfolding bump_count pending
  bump_count-Accounted none host s h = h
  bump_count-Accounted (some cap) host s h = record { balanced = h.balanced; known = h.known }

  seen-bump_count :
      (cap : Option ℕ) (host : Text) (s : ShardState Url) → (bump_count cap host s).seen ≡ s.seen
  unfolding bump_count
  seen-bump_count none host s = refl
  seen-bump_count (some cap) host s = refl

  pub batch-Accounted :
      (now : ℕ) (cap : Option ℕ) (id host : Text) (entry : UrlEntry Url) (s : ShardState Url)
      → Accounted s
      → Accounted (batch_shard now cap id host entry s).1
  batch-Accounted now cap id host entry s h =
      batch_keeps Accounted now cap id host entry s
        (λ room new k.
          enqueue-Accounted now id host entry (bump_count cap host s)
            (bump_count-Accounted cap host s k) (rw seen-bump_count new))
        h

  -- A URL that waits in a queue has its payload, and no worker holds it.
  pub waiting-stored :
      (host id : Text) (q : List Text) (s : ShardState Url)
      → Accounted s
      → Map.get host s.host_queue ≡ some (id ∷ q)
      → (stored id s ≡ 1) × (leased id s ≡ 0)
  unfolding pending
  waiting-stored host id q s h e =
      ground
        (arith, h.balanced id, Map.measure-le-total (count id) host s.host_queue, same_text id id)

  pub lease-Accounted :
      (now timeout : ℕ) (host id : Text) (rest q : List Text) (s : ShardState Url)
      → Accounted s
      → Map.get host s.host_queue ≡ some (id ∷ q)
      → Accounted
          (lease_url now timeout host id
            (record s { ready = rest; host_queue = Map.insert host q s.host_queue })).1
  unfolding lease_url pending
  lease-Accounted now timeout host id rest q s h e = elim (Option-cases (Map.get id s.urls)) [
    | inl lost ↦ absurd (ground (arith, waiting-stored host id q s h e))
    | inr (entry, found) ↦
        rw (found, lease_url)
          (record {
            balanced = λ j. ground (
              arith,
              h.balanced j,
              waiting-stored host id q s h e,
              Map.total-insert (count j) host q s.host_queue,
              Map.get-insert id j
                  (record { host = host; lease_expiry_ms = saturating_add now timeout }) s.inflight,
              same_text id j,
              same_text j id,
            );
            known = h.known;
          })
  ]
