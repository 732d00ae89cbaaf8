-- ===== src/Redis/Reply.antt =====
-- crates/crawlrs-frontier/src/host_queue.rs: the errors of `HostQueueOps`, the replies of Redis and
-- their parsing.
use crawlrs.Prelude.{
  ℕ, ◌<◌, ◌^◌, ◌≡◌, List, [], ◌∷◌, Option, none, some, if◌then◌else◌, ◌==◌, list_eq, nat_eq, All,
  map,
}
use crawlrs.Core.Error.{Text}
use crawlrs.Core.Types.{UrlEntry}
use crawlrs.Core.UrlId.{from_hex}
use crawlrs.Redis.Api.{ℤ, pos, Postcard}
use crawlrs.Core.Ascii.{codes}
use crawlrs.Redis.Scripts.{ClaimReply}

pub data HostQueueError : Type 0 where
  redis : Text → HostQueueError
  parse : HostQueueError
  pool : Text → HostQueueError
  bad_url_id : Text → HostQueueError
  codec : HostQueueError
  missing_payload : Text → HostQueueError
  bad_tag : Text → HostQueueError

pub data Outcome (A : Type 0) : Type 0 where
  done : A → Outcome A
  failed : HostQueueError → Outcome A

infixl 5 ◌>>=◌
abbrev pub ◌>>=◌ : {A B : Type 0} → Outcome A → (A → Outcome B) → Outcome B
done a >>= f = f a
failed e >>= f = failed e

abbrev pub ok_or : {A : Type 0} → HostQueueError → Option A → Outcome A
ok_or e none = failed e
ok_or e (some a) = done a

abbrev pub IsAscii : Text → Type 0
IsAscii t = All (λ c. c < 128) t

-- The values that the redis crate receives, and its `FromRedisValue` conversions, which give none
-- for a value of another shape.
pub record Client (Value : Type 0) : Type 0 where
  pub array : List Value → Value
  pub bulk : Text → Value
  pub int : ℕ → Value
  pub nil : Value
  -- The text of a score, as Redis prints it.
  pub score_text : ℤ → Text
  pub to_values : Value → Option (List Value)
  pub to_text : Value → Option Text
  pub to_texts : Value → Option (List Text)
  pub to_bytes : Value → Option Text
  pub to_u64 : Value → Option ℕ
  pub to_i64 : Value → Option ℕ
  pub to_values-array : (vs : List Value) → to_values (array vs) ≡ some vs
  pub to_text-bulk : (t : Text) → IsAscii t → to_text (bulk t) ≡ some t
  pub to_texts-bulk : (ts : List Text) → All IsAscii ts → to_texts (array (map bulk ts)) ≡ some ts
  pub to_bytes-bulk : (t : Text) → to_bytes (bulk t) ≡ some t
  pub to_u64-score : (n : ℕ) → n < 2 ^ 64 → to_u64 (bulk (score_text (pos n))) ≡ some n
  pub to_i64-int : (n : ℕ) → n < 2 ^ 63 → to_i64 (int n) ≡ some n

-- Whether Redis answers a command, does not run it, or runs it and the answer is lost.
pub data Call : Type 0 where
  answered : Call
  refused : Text → Call
  unanswered : Text → Call

module _ {R : Type 0} where
  unfoldable pub invoke : {A : Type 0} → Call → (R → A × R) → R → Outcome A × R
  invoke answered f r = (done (f r).0, (f r).1)
  invoke (refused e) f r = (failed (redis e), r)
  invoke (unanswered e) f r = (failed (redis e), (f r).1)

  -- `self.pool.get().await`, which fails with the text that is given.
  unfoldable pub connected : {A : Type 0} → Option Text → (R → Outcome A × R) → R → Outcome A × R
  connected none f r = f r
  connected (some e) f r = (failed (pool e), r)

pub record SubmitItem (Url : Type 0) : Type 0 where
  pub url_id : List ℕ
  pub entry : UrlEntry Url
  pub host : Text
  pub max_urls : ℤ

pub data ClaimRaw (Url : Type 0) : Type 0 where
  claimed : List ℕ → UrlEntry Url → Text → ClaimRaw Url
  empty_hint : ℕ → ClaimRaw Url
  empty : ClaimRaw Url

module _ {Value Url : Type 0} (client : Client Value) (postcard : Postcard Url) where
  -- The table that claim.lua returns, as the client receives it.
  unfoldable pub claim_value : ClaimReply → Value
  claim_value (ClaimReply.claimed url_id host none) =
      client.array
        (client.bulk (codes "claimed") ∷ client.bulk url_id ∷ client.bulk host ∷ client.nil ∷ [])
  claim_value (ClaimReply.claimed url_id host (some payload)) = client.array (
      client.bulk (codes "claimed")
      ∷ client.bulk url_id
      ∷ client.bulk host
      ∷ client.bulk payload
      ∷ [])
  claim_value (ClaimReply.empty_hint z) =
      client.array (client.bulk (codes "empty_hint") ∷ client.bulk (client.score_text z) ∷ [])
  claim_value ClaimReply.empty = client.array (client.bulk (codes "empty") ∷ [])

  -- The values behind the tag "claimed".
  unfoldable pub parse_claimed : List Value → Outcome (ClaimRaw Url)
  parse_claimed [] = failed (bad_tag (codes "claimed missing url_id"))
  parse_claimed (url_id_v ∷ []) = do
    url_id_hex ← ok_or parse (client.to_text url_id_v)
    failed (bad_tag (codes "claimed missing host"))
  parse_claimed (url_id_v ∷ host_v ∷ []) = do
    url_id_hex ← ok_or parse (client.to_text url_id_v)
    host ← ok_or parse (client.to_text host_v)
    failed (missing_payload url_id_hex)
  parse_claimed (url_id_v ∷ host_v ∷ payload_v ∷ more) = do
    url_id_hex ← ok_or parse (client.to_text url_id_v)
    host ← ok_or parse (client.to_text host_v)
    payload ← ok_or parse (client.to_bytes payload_v)
    url_id ← ok_or (bad_url_id url_id_hex) (from_hex url_id_hex)
    entry ← ok_or codec (postcard.from_bytes payload)
    done (claimed url_id entry host)

  unfoldable pub parse_hint : List Value → Outcome (ClaimRaw Url)
  parse_hint [] = failed (bad_tag (codes "empty_hint missing score"))
  parse_hint (score_v ∷ more) = do
    soonest_ms ← ok_or parse (client.to_u64 score_v)
    done (empty_hint soonest_ms)

  unfoldable pub parse_tagged : Text → List Value → Outcome (ClaimRaw Url)
  unfolding parse_claimed parse_hint
  parse_tagged tag more =
      if tag == codes "empty"
      then done empty
      else if tag == codes "empty_hint"
      then parse_hint more
      else if tag == codes "claimed"
      then parse_claimed more
      else failed (bad_tag tag)

  unfoldable pub parse_claim_parts : List Value → Outcome (ClaimRaw Url)
  unfolding parse_tagged
  parse_claim_parts [] = failed (bad_tag (codes "claim.lua returned empty array"))
  parse_claim_parts (tag_v ∷ more) = do
    tag ← ok_or parse (client.to_text tag_v)
    parse_tagged tag more

  unfoldable pub parse_claim_value : Value → Outcome (ClaimRaw Url)
  unfolding parse_claim_parts
  parse_claim_value value = do parts ← ok_or parse (client.to_values value); parse_claim_parts parts

module _ {Value : Type 0} (client : Client Value) where
  -- The table that submit_batch.lua returns.
  unfoldable pub batch_value : ℕ × List Text → Value
  batch_value (n, ids) = client.array (client.int n ∷ client.array (map client.bulk ids) ∷ [])

  unfoldable pub parse_ids : List Text → Outcome (List (List ℕ))
  parse_ids [] = done []
  parse_ids (hex ∷ more) = do
    id ← ok_or (bad_tag hex) (from_hex hex)
    ids ← parse_ids more
    done (id ∷ ids)

  unfoldable pub parse_batch_parts : List Value → Outcome (ℕ × List (List ℕ))
  unfolding parse_ids
  parse_batch_parts [] = failed (bad_tag (codes "submit_batch.lua returned empty array"))
  parse_batch_parts (queued_v ∷ []) =
      failed (bad_tag (codes "submit_batch.lua missing rejected_ids"))
  parse_batch_parts (queued_v ∷ rejected_v ∷ more) = do
    n ← ok_or parse (client.to_i64 queued_v)
    rejected_hex ← ok_or parse (client.to_texts rejected_v)
    rejected_ids ← parse_ids rejected_hex
    done (n, rejected_ids)

  unfoldable pub parse_submit_batch_value : Value → Outcome (ℕ × List (List ℕ))
  unfolding parse_batch_parts
  parse_submit_batch_value value = do
    parts ← ok_or parse (client.to_values value)
    parse_batch_parts parts
