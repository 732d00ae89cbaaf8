-- ===== src/Redis/Parsing.antt =====
-- crates/crawlrs-frontier/src/host_queue.rs: what the scripts reply is what the parsers read.
use crawlrs.Prelude.{ℕ, ◌<◌, ◌^◌, ◌≡◌, refl, List, [], ◌∷◌, some, arith, All, map, length}
use crawlrs.Core.Error.{Text}
use crawlrs.Core.Types.{UrlEntry}
use crawlrs.Core.UrlId.{to_hex, IsByte, from_hex-to_hex, to_hex-IsAscii}
use crawlrs.Redis.Api.{pos, Postcard}
use crawlrs.Core.Ascii.{codes}
use crawlrs.Redis.Scripts.{ClaimReply}
use crawlrs.Redis.Reply.{
  done, Client, IsAscii, claimed, empty_hint, empty, claim_value, parse_claimed, parse_hint,
  parse_claim_value, batch_value, parse_ids, parse_submit_batch_value,
}

-- Sixteen bytes.
abbrev pub IsUrlId : List ℕ → Type 0
IsUrlId id = (length id ≡ 16) × All IsByte id

claimed-IsAscii : IsAscii (codes "claimed")
claimed-IsAscii = ground arith

hint-IsAscii : IsAscii (codes "empty_hint")
hint-IsAscii = ground arith

empty-IsAscii : IsAscii (codes "empty")
empty-IsAscii = ground arith

module _ {Value Url : Type 0} (client : Client Value) (postcard : Postcard Url) where
  -- A claimed URL is read with its id, its host and the entry that its payload encodes, for an id
  -- of sixteen bytes and a host in ASCII.
  pub parse_claim-claimed :
      (id : List ℕ) (host payload : Text) (entry : UrlEntry Url)
      → IsUrlId id
      → IsAscii host
      → postcard.from_bytes payload ≡ some entry
      → parse_claim_value client postcard
          (claim_value client postcard (ClaimReply.claimed (to_hex id) host (some payload)))
        ≡ done (claimed id entry host)
  unfolding parse_claim_value claim_value parse_claimed
  parse_claim-claimed id host payload entry ok_id ascii e = rw (client.to_values-array _) (
      rw (client.to_text-bulk (codes "claimed") claimed-IsAscii) (
        rw (client.to_text-bulk (to_hex id) (to_hex-IsAscii id ok_id.1)) (
          rw (client.to_text-bulk host ascii)
            (rw (client.to_bytes-bulk payload) (rw (from_hex-to_hex id ok_id.0 ok_id.1) (rw e))))))

  -- The hint of a wake-time below 2^64 is read as that time.
  pub parse_claim-empty_hint :
      (n : ℕ)
      → n < 2 ^ 64
      → parse_claim_value client postcard
          (claim_value client postcard (ClaimReply.empty_hint (pos n)))
        ≡ done (empty_hint n)
  unfolding parse_claim_value claim_value parse_hint
  parse_claim-empty_hint n small = rw (client.to_values-array _) (
      rw (client.to_text-bulk (codes "empty_hint") hint-IsAscii) (rw (client.to_u64-score n small)))

  pub parse_claim-empty :
      parse_claim_value client postcard (claim_value client postcard ClaimReply.empty) ≡ done empty
  unfolding parse_claim_value claim_value
  parse_claim-empty =
      rw (client.to_values-array _) (rw (client.to_text-bulk (codes "empty") empty-IsAscii))

module _ {Value : Type 0} (client : Client Value) where
  hexes-IsAscii : (ids : List (List ℕ)) → All IsUrlId ids → All IsAscii (map to_hex ids)
  hexes-IsAscii [] h = tt
  hexes-IsAscii (id ∷ ids) h = (to_hex-IsAscii id h.0.1, hexes-IsAscii ids h.1)

  parse_ids-map :
      (ids : List (List ℕ)) → All IsUrlId ids → parse_ids client (map to_hex ids) ≡ done ids
  unfolding parse_ids
  parse_ids-map [] h = refl
  parse_ids-map (id ∷ ids) h = rw (from_hex-to_hex id h.0.0 h.0.1) (rw (parse_ids-map ids h.1))

  -- The count and the rejected ids of a batch are read back, for ids of sixteen bytes.
  pub parse_submit_batch-value :
      (n : ℕ) (ids : List (List ℕ))
      → n < 2 ^ 63
      → All IsUrlId ids
      → parse_submit_batch_value client (batch_value client (n, map to_hex ids)) ≡ done (n, ids)
  unfolding parse_submit_batch_value batch_value
  parse_submit_batch-value n ids small h = rw (client.to_values-array _) (
      rw (client.to_i64-int n small) (
        rw (client.to_texts-bulk (map to_hex ids) (hexes-IsAscii ids h))
          (rw (parse_ids-map ids h))))
