-- ===== src/Redis/Sending.antt =====
-- crates/crawlrs-frontier/src/host_queue.rs: `submit` and `submit_batch` of `HostQueueOps` on the keys
-- of a shard, whether Redis answers them or not.
use crawlrs.Prelude.{
  [], ◌∷◌, map, All, ℕ, ◌≡◌, refl, List, Option, none, some, subst, Option-cases, inl, inr, ◌⊎◌,
  nat_eq, list_eq,
}
use crawlrs.Core.Error.{Text}
use crawlrs.Core.Types.{UrlEntry}
use crawlrs.Core.UrlId.{to_hex, to_hex-All}
use crawlrs.Redis.Api.{Redis, Postcard}
use crawlrs.Redis.Keys
use crawlrs.Redis.Keys.{KeyPrefix}
use crawlrs.Redis.Scripts.{BatchArg}
use crawlrs.Redis.Submit.{Item, cap_arg}
use crawlrs.Redis.Batch.{IsEncoded, arg}
use crawlrs.Redis.Histories.{Sound, submits, submits_batch, after, after-Sound}
use crawlrs.Redis.Reply.{
  Outcome, done, failed, SubmitItem, Client, Call, answered, refused, unanswered, invoke, connected,
}
use crawlrs.Redis.Parsing.{IsUrlId}
use crawlrs.Redis.Ops

done_injective : {A : Type 0} {a b : A} → ◌≡◌ {A = Outcome A} (done a) (done b) → a ≡ b
done_injective e = cc

-- A call leaves the server as it was or as the command leaves it.
pub invoke_keeps :
    {R A : Type 0} (P : R → Type 0) (call : Call) (f : R → A × R) (r : R)
    → P r
    → P (f r).1
    → P (invoke call f r).1
unfolding invoke
invoke_keeps P answered f r h k = k
invoke_keeps P (refused e) f r h k = h
invoke_keeps P (unanswered e) f r h k = k

pub connected_keeps :
    {R A : Type 0} (P : R → Type 0) (pool : Option Text) (f : R → Outcome A × R) (r : R)
    → P r
    → P (f r).1
    → P (connected pool f r).1
unfolding connected
connected_keeps P none f r h k = k
connected_keeps P (some e) f r h k = h

-- An item of a batch as the frontier sends it: its id has sixteen bytes, and -1 stands for no cap.
abbrev pub IsSendable : {Url : Type 0} → SubmitItem Url → Type 0
IsSendable item = IsUrlId item.url_id × ((cap : Option ℕ) × (item.max_urls ≡ cap_arg cap))

module _ {R Value Url : Type 0} (redis : Redis R) (client : Client Value) (postcard : Postcard Url)
    (keys : KeyPrefix) (shard : ℕ) where
  pub submit_keeps :
      (pool : Option Text) (call : Call) (now : ℕ) (id : List ℕ) (entry : UrlEntry Url)
      (host : Text) (r : R)
      → IsUrlId id
      → Sound redis postcard keys shard r
      → Sound redis postcard keys shard
          (Ops.submit redis client postcard keys pool call shard id entry host now r).1
  unfolding Ops.submit after
  submit_keeps pool call now id entry host r ok_id k =
      elim (Option-cases (postcard.to_allocvec entry)) [
        | inl e ↦ rw (e, Ops.submit) k
        | inr (payload, e) ↦
            rw (e, Ops.submit)
              (connected_keeps (Sound redis postcard keys shard) pool _ r k (
                invoke_keeps (Sound redis postcard keys shard) call _ r k (
                  after-Sound redis postcard keys shard
                    (submits now (record {
                      url_id = to_hex id;
                      host = host;
                      entry = entry;
                      payload = payload;
                      max_urls = none;
                    }))
                    r (to_hex-All id ok_id.1, e) k)))
      ]

  -- Encoded arguments are those of items that the scripts refine.
  abbrev Encodes : List BatchArg → Type 0
  Encodes args =
      (items : List (Item Url)) × (args ≡ map (arg redis postcard keys shard) items)
      × All (IsEncoded redis postcard keys shard) items

  encode_item :
      (item : SubmitItem Url) (args : List BatchArg) (payload : Text)
      → IsSendable item
      → postcard.to_allocvec item.entry ≡ some payload
      → Encodes args
      → Encodes (
          record {
            host_queue_key = Keys.host_queue keys shard item.host;
            host_count_key = Keys.host_count keys shard item.host;
            url_id = to_hex item.url_id;
            host = item.host;
            payload = payload;
            max_urls = item.max_urls;
          }
          ∷ args)
  encode_item item args payload (ok_id, (cap, capped)) e (items, same, encoded) =
      let i : Item Url = record {
        url_id = to_hex item.url_id;
        host = item.host;
        entry = item.entry;
        payload = payload;
        max_urls = cap;
      } in
      (i ∷ items, rw capped (rw same refl), ((to_hex-All item.url_id ok_id.1, e), encoded))

  batch_args-Encodes :
      (items : List (SubmitItem Url))
      → All IsSendable items
      → (args : List BatchArg) → Ops.batch_args redis client postcard keys shard items ≡ done args
      → Encodes args
  unfolding Ops.batch_args
  batch_args-Encodes [] sendable args = λ e. subst Encodes (done_injective e) ([], refl, tt)
  batch_args-Encodes (item ∷ items) sendable args =
      by_rest (Ops.batch_args redis client postcard keys shard items) refl
        (batch_args-Encodes items sendable.1) (Option-cases (postcard.to_allocvec item.entry))
    where
      by_rest :
          (o : Outcome (List BatchArg))
          → Ops.batch_args redis client postcard keys shard items ≡ o
          → ((rest : List BatchArg)
              → Ops.batch_args redis client postcard keys shard items ≡ done rest
              → Encodes rest)
          → (postcard.to_allocvec item.entry ≡ none)
            ⊎ ((payload : Text) × (postcard.to_allocvec item.entry ≡ some payload))
          → Ops.batch_args redis client postcard keys shard (item ∷ items) ≡ done args
          → Encodes args
      by_rest o q ih (inl z) = rw (z, Ops.batch_args) (λ e. absurd cc)
      by_rest (failed x) q ih (inr (payload, z)) = rw (z, q, Ops.batch_args) (λ e. absurd cc)
      by_rest (done rest) q ih (inr (payload, z)) =
          rw (z, q, Ops.batch_args)
            (λ e.
              subst Encodes (done_injective e)
                (encode_item item rest payload sendable.0 z (ih rest q)))

  pub submit_batch_keeps :
      (pool : Option Text) (call : Call) (now : ℕ) (items : List (SubmitItem Url)) (r : R)
      → All IsSendable items
      → Sound redis postcard keys shard r
      → Sound redis postcard keys shard
          (Ops.submit_batch redis client postcard keys pool call shard items now r).1
  unfolding Ops.submit_batch Ops.submit_encoded after
  submit_batch_keeps pool call now [] r sendable k = k
  submit_batch_keeps pool call now (item ∷ items) r sendable k =
      by_args (Ops.batch_args redis client postcard keys shard (item ∷ items)) refl
    where
      by_args :
          (o : Outcome (List BatchArg))
          → Ops.batch_args redis client postcard keys shard (item ∷ items) ≡ o
          → Sound redis postcard keys shard
              (Ops.submit_batch redis client postcard keys pool call shard (item ∷ items) now r).1
      by_args (failed x) q = rw (q, Ops.submit_batch) k
      by_args (done args) q =
          let (encoded, same, fit) = batch_args-Encodes (item ∷ items) sendable args q in
          rw (q, Ops.submit_batch)
            (rw same (
              connected_keeps (Sound redis postcard keys shard) pool _ r k (
                invoke_keeps (Sound redis postcard keys shard) call _ r k
                  (after-Sound redis postcard keys shard (submits_batch now encoded) r fit k))))
