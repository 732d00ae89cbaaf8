-- ===== src/Redis/Leases.antt =====
-- crates/crawlrs-frontier/src/scripts/reclaim.lua: the members of `inflight` that it takes, as leases
-- of the in-memory shard.
use crawlrs.Prelude.{
  ℕ, ◌≤◌, ◌≡◌, refl, true, false, List, [], ◌∷◌, Option, none, some, arith, sym, subst, ap, ◌∙◌,
  list_eq, nat_eq, Bool-cases, count, ◌==◌, ==_refl, inl, inr, leb, map, All,
}
use crawlrs.Prelude.Map
use crawlrs.Core.Error.{Text}
use crawlrs.Fakes.Accounting.{same_text}
use crawlrs.Fakes.Shard.{ShardState, InflightSlot}
use crawlrs.Redis.Api.{ℤ, pos, negsuc, score_due, Redis, Postcard}
use crawlrs.Redis.Keys
use crawlrs.Redis.Keys.{KeyPrefix, member, IsBarFree, same-member, host_queue_prefix-append}
use crawlrs.Redis.Views.{Views, lease_score}
use crawlrs.Redis.Scripts.{split_member}

-- The parts of a member of `inflight` are found again, whatever the host contains.
pub split_member-member :
    (id host : Text) → IsBarFree id → split_member (member id host) ≡ some (id, host)
unfolding split_member
split_member-member [] host free = refl
split_member-member (c ∷ id) host free =
    rw (split_member-member id host free.1) (ground (arith, free.0))

-- A lease in `inflight`, and its member.
abbrev pub Lease : Type 0
Lease = Text × InflightSlot

abbrev pub as_member : Lease → Text
as_member (id, slot) = member id slot.host

abbrev pub lease_id : Lease → Text
lease_id (id, slot) = id

abbrev pub IsHeld : {Url : Type 0} → ℕ → ShardState Url → Lease → Type 0
IsHeld now s (id, slot) =
    IsBarFree id × (Map.get id s.inflight ≡ some slot) × (leb slot.lease_expiry_ms now ≡ true)

-- Leases of different URLs.
abbrev pub Apart : List Lease → Type 0
Apart [] = Unit
Apart (l ∷ ls) = All (λ k. (lease_id l == lease_id k) ≡ false) ls × Apart ls

slot_of :
    (now : ℕ) (host : Text) (o : Option InflightSlot) (z : ℤ)
    → lease_score host o ≡ some z
    → score_due now z ≡ true
    → (slot : InflightSlot) × (o ≡ some slot)
      × (slot.host ≡ host)
      × (leb slot.lease_expiry_ms now ≡ true)
slot_of now host none z e d = absurd (ground (arith, e))
slot_of now host (some slot) (negsuc n) e d = absurd (ground (arith, e))
slot_of now host (some slot) (pos n) e d = elim (Bool-cases (slot.host == host)) [
  | inl own ↦ (slot, refl, (same_text slot.host host).0 own, ground (arith, e, d, own))
  | inr other ↦ absurd (ground (arith, e, other))
]

pub same_lease :
    {Url : Type 0} (now : ℕ) (s : ShardState Url) (l k : Lease)
    → IsHeld now s l
    → IsHeld now s k
    → (as_member l == as_member k) ≡ false
    → (lease_id l == lease_id k) ≡ false
same_lease now s (id, slot) (id', slot') h h' ne = elim (Bool-cases (id == id')) [
  | inr e ↦ e
  | inl e ↦
      absurd
        (ground (arith, ne, (same_text (member id slot.host) (member id' slot'.host)).1 (both e)))
]
  where
    host_of : Option InflightSlot → Text
    host_of none = []
    host_of (some x) = x.host

    both : (id == id') ≡ true → member id slot.host ≡ member id' slot'.host
    both e =
        let same = (same_text id id').0 e in
        let host =
          ap host_of (sym h.1) ∙ ap (λ x. host_of (Map.get x s.inflight)) same ∙ ap host_of h'.1 in
        rw same (ap (λ x. member id' x) host)

pub apart_from :
    {Url : Type 0} (now : ℕ) (s : ShardState Url) (l : Lease) (ls : List Lease)
    → IsHeld now s l
    → All (IsHeld now s) ls
    → count (as_member l) (map as_member ls) ≡ 0
    → All (λ k. (lease_id l == lease_id k) ≡ false) ls
apart_from now s l [] h hs none_left = tt
apart_from now s l (k ∷ ls) h hs none_left = (
  same_lease now s l k h hs.0 (ground (arith, none_left)),
  apart_from now s l ls h hs.1 (omega (arith, none_left)),
)

pub apart :
    {Url : Type 0} (now : ℕ) (s : ShardState Url) (ls : List Lease)
    → All (IsHeld now s) ls
    → ((m : Text) → count m (map as_member ls) ≤ 1)
    → Apart ls
apart now s [] hs once = tt
apart now s (l ∷ ls) hs once = (
  apart_from now s l ls hs.0 hs.1 (ground (arith, once (as_member l), ==_refl (as_member l))),
  apart now s ls hs.1 (λ m. omega (arith, once m)),
)

-- The expired members are those of expired leases.
pub leases_of :
    {R Url : Type 0} (redis : Redis R) (postcard : Postcard Url) (keys : KeyPrefix) (shard now : ℕ)
    (ms : List Text) (r : R) (s : ShardState Url)
    → Views postcard keys shard (redis.obs r) s
    → All
        (λ m.
          (z : ℤ) × ((redis.obs r).zsets (Keys.inflight keys shard) m ≡ some z)
          × (score_due now z ≡ true))
        ms
    → (ls : List Lease) × (ms ≡ map as_member ls) × All (IsHeld now s) ls
leases_of redis postcard keys shard now [] r s v h = ([], refl, tt)
leases_of redis postcard keys shard now (m ∷ ms) r s v h =
    let rest = leases_of redis postcard keys shard now ms r s v h.1 in
    let p = v.members m h.0.0 h.0.1 in
    let q =
      slot_of now p.1 (Map.get p.0 s.inflight) h.0.0
        (sym (v.leases p.0 p.1 p.2)
          ∙ subst (λ k. (redis.obs r).zsets (Keys.inflight keys shard) k ≡ some h.0.0) p.3 h.0.1)
        h.0.2 in
    (
      (p.0, q.0) ∷ rest.0,
      ap (λ x. x ∷ ms) (p.3 ∙ ap (member p.0) (sym q.2))
          ∙ ap (λ xs. member p.0 q.0.host ∷ xs) rest.1,
      ((p.2, q.1, q.3), rest.2),
    )
