-- ===== src/Redis/Histories.antt =====
-- crates/crawlrs-frontier/src/scripts: histories of the commands that the frontier runs on the keys
-- of one shard.
use crawlrs.Prelude.{
  ℕ, ◌+◌, ◌≤◌, ◌≡◌, refl, Bool, true, false, List, [], ◌∷◌, Option, none, some, arith, sym, ap, ◌∙◌,
  list_eq, nat_eq, Bool-cases, ◌==◌, inl, inr, ◌⊎◌, All, map,
}
use crawlrs.Prelude.Map
use crawlrs.Core.Error.{Text}
use crawlrs.Core.Types.{UrlEntry}
use crawlrs.Fakes.Rules.{promote_all_keeps, reclaim_all_keeps}
use crawlrs.Fakes.Accounting.{Accounted, pending, same_text, submit-Accounted, batch-Accounted}
use crawlrs.Fakes.Delivery.{
  claim-Accounted, set_wake-Accounted, ack-Accounted, promote_host-Accounted, reclaim_url-Accounted,
}
use crawlrs.Fakes.Liveness.{
  Scheduled, submit-Scheduled, batch-Scheduled, claim-Scheduled, set_wake-Scheduled, ack-Scheduled,
  promote_host-Scheduled, reclaim_url-Scheduled,
}
use crawlrs.Fakes.Shard.{
  ShardState, InflightSlot, u64_max, empty_shard, queue_of, submit_shard, pop_one_ready,
  batch_shard, promote_all, reclaim_all, ack_shard, retain_ne,
}
use crawlrs.Fakes.Histories.{empty-Sound}
use crawlrs.Redis.Api.{ℤ, pos, Redis, Postcard}
use crawlrs.Redis.Keys
use crawlrs.Redis.Keys.{KeyPrefix, member, IsBarFree}
use crawlrs.Redis.Views.{Views, Stores, lease_score}
use crawlrs.Redis.Scripts
use crawlrs.Redis.Submit.{Item, submit-Refines}
use crawlrs.Redis.Batch.{IsEncoded, arg, batch_without, submit_batch-Refines}
use crawlrs.Redis.Claim.{claim-Refines}
use crawlrs.Redis.Wake.{advance_wake-Refines, promote-Refines, ack-Refines}
use crawlrs.Redis.Reclaim.{reclaim-Refines}

-- One use of the keys of a shard.
pub data Command (Url : Type 0) : Type 0 where
  submits : ℕ → Item Url → Command Url
  submits_batch : ℕ → List (Item Url) → Command Url
  claims : ℕ → ℕ → Command Url
  advances : Text → ℕ → Command Url
  promotes : ℕ → ℕ → Command Url
  reclaims : ℕ → ℕ → Command Url
  acks : Text → Text → Command Url

module _ {R Url : Type 0} (redis : Redis R) (postcard : Postcard Url) (keys : KeyPrefix)
    (shard : ℕ) where
  unfoldable pub after : Command Url → R → R
  after (submits now i) r =
      (Scripts.submit redis (Keys.seen shard) (Keys.urls keys shard)
        (Keys.host_queue keys shard i.host) (Keys.wake keys shard) i.url_id i.host i.payload now
        r).1
  after (submits_batch now items) r =
      (Scripts.submit_batch redis (Keys.seen shard) (Keys.urls keys shard) (Keys.wake keys shard)
        now (map (arg redis postcard keys shard) items) r).1
  after (claims now timeout) r =
      (Scripts.claim redis (Keys.ready keys shard) (Keys.wake keys shard) (Keys.inflight keys shard)
        (Keys.urls keys shard) (Keys.host_queue_prefix keys shard) now timeout r).1
  after (advances host until) r =
      Scripts.advance_wake redis (Keys.wake keys shard) (Keys.ready keys shard) host (pos until) r
  after (promotes now limit) r =
      (Scripts.promote redis (Keys.wake keys shard) (Keys.ready keys shard) now limit r).1
  after (reclaims now limit) r =
      (Scripts.reclaim redis (Keys.inflight keys shard) (Keys.wake keys shard)
        (Keys.host_queue_prefix keys shard) now limit r).1
  after (acks id host) r =
      Scripts.ack redis (Keys.inflight keys shard) (Keys.urls keys shard) id host r

  unfoldable pub run : List (Command Url) → R → R
  unfolding after
  run [] r = r
  run (c ∷ cs) r = run cs (after c r)

  -- Ids without a bar and payloads that are the encodings; leases that end before 2^64; acks of a
  -- lease that is still there, or of a URL whose payload is gone.
  abbrev pub IsFit : Command Url → R → Type 0
  IsFit (submits now i) r = IsEncoded redis postcard keys shard i
  IsFit (submits_batch now items) r = All (IsEncoded redis postcard keys shard) items
  IsFit (claims now timeout) r = now + timeout ≤ u64_max
  IsFit (acks id host) r =
      IsBarFree id
      × (((z : ℤ) × ((redis.obs r).zsets (Keys.inflight keys shard) (member id host) ≡ some z))
          ⊎ ((redis.obs r).hashes (Keys.urls keys shard) id ≡ none))
  IsFit c r = Unit

  abbrev pub AllFit : List (Command Url) → R → Type 0
  AllFit [] r = Unit
  AllFit (c ∷ cs) r = IsFit c r × AllFit cs (after c r)

  -- The keys hold what some shard of the in-memory frontier holds in which no URL is lost or
  -- doubled and no host is forgotten.
  pub record Sound (r : R) : Type 0 where
    pub shard_state : ShardState Url
    pub view : Views postcard keys shard (redis.obs r) shard_state
    pub accounted : Accounted shard_state
    pub scheduled : Scheduled shard_state

  submit-Sound :
      (now : ℕ) (i : Item Url) (r : R)
      → IsEncoded redis postcard keys shard i
      → Sound r
      → Sound (after (submits now i) r)
  unfolding after
  submit-Sound now i r fit k =
      elim (submit-Refines redis postcard keys shard now i.url_id i.host i.entry i.payload r
        k.shard_state k.view fit.0 fit.1) [
          | inl p ↦ record {
            shard_state = (submit_shard now i.url_id i.host i.entry k.shard_state).1;
            view = p.2;
            accounted = submit-Accounted now i.url_id i.host i.entry k.shard_state k.accounted;
            scheduled = submit-Scheduled now i.url_id i.host i.entry k.shard_state k.scheduled;
          }
          | inr p ↦ record {
            shard_state = k.shard_state;
            view = p.2;
            accounted = k.accounted;
            scheduled = k.scheduled;
          }
        ]

  batch_keeps :
      (P : ShardState Url → Type 0)
      → ((now : ℕ) (i : Item Url) (s : ShardState Url)
          → P s
          → P (batch_shard now i.max_urls i.url_id i.host i.entry s).1)
      → (now : ℕ) (items : List (Item Url)) (flags : List Bool) (acc : ℕ × List Text)
        (s : ShardState Url)
      → P s
      → P (batch_without redis postcard keys shard now items flags acc s).1
  batch_keeps P keep now [] flags acc s h = h
  batch_keeps P keep now (i ∷ items) [] acc s h = h
  batch_keeps P keep now (i ∷ items) (true ∷ flags) acc s h =
      batch_keeps P keep now items flags acc s h
  batch_keeps P keep now (i ∷ items) (false ∷ flags) acc s h =
      batch_keeps P keep now items flags _ _ (keep now i s h)

  batch-Sound :
      (now : ℕ) (items : List (Item Url)) (r : R)
      → All (IsEncoded redis postcard keys shard) items
      → Sound r
      → Sound (after (submits_batch now items) r)
  unfolding after
  batch-Sound now items r fit k =
      let p = submit_batch-Refines redis postcard keys shard now items r k.shard_state k.view fit in
      record {
        shard_state =
            (batch_without redis postcard keys shard now items p.0 (0, []) k.shard_state).1;
        view = p.3;
        accounted =
            batch_keeps Accounted (λ t i. batch-Accounted t i.max_urls i.url_id i.host i.entry) now
              items p.0 (0, []) k.shard_state k.accounted;
        scheduled =
            batch_keeps Scheduled (λ t i. batch-Scheduled t i.max_urls i.url_id i.host i.entry) now
              items p.0 (0, []) k.shard_state k.scheduled;
      }

  abbrev host_of : Option InflightSlot → Text
  host_of none = []
  host_of (some slot) = slot.host

  held_slot :
      (host : Text) (o : Option InflightSlot) (z : ℤ)
      → lease_score host o ≡ some z
      → (slot : InflightSlot) × (o ≡ some slot) × (slot.host ≡ host)
  held_slot host none z e = absurd (ground (arith, e))
  held_slot host (some slot) z e = elim (Bool-cases (slot.host == host)) [
    | inl own ↦ (slot, refl, (same_text slot.host host).0 own)
    | inr other ↦ absurd (ground (arith, e, other))
  ]

  not_stored :
      (o : Option (UrlEntry Url)) (b : Option Text) → Stores postcard o b → b ≡ none → o ≡ none
  not_stored none b h e = refl
  not_stored (some entry) b h e = absurd (ground (arith, h.1, e))

  -- An acked URL does not wait in a queue.
  acked :
      (id host : Text) (r : R) (k : Sound r)
      → IsFit (acks id host) r
      → (pending id k.shard_state ≡ 0)
        × ((slot : InflightSlot) → Map.get id k.shard_state.inflight ≡ some slot → slot.host ≡ host)
  acked id host r k (free, inl (z, e)) =
      let p =
        held_slot host (Map.get id k.shard_state.inflight) z
          (sym (k.view.leases id host free) ∙ e) in
      (
        ground (arith, k.accounted.balanced id, p.1),
        λ slot found. ap host_of (sym found ∙ p.1) ∙ p.2,
      )
  acked id host r k (free, inr gone) =
      let lost = not_stored (Map.get id k.shard_state.urls) _ (k.view.payloads id) gone in
      (
        ground (arith, k.accounted.balanced id, lost),
        λ slot found. absurd (ground (arith, k.accounted.balanced id, lost, found)),
      )

  -- Every command keeps the keys sound.
  pub after-Sound : (c : Command Url) (r : R) → IsFit c r → Sound r → Sound (after c r)
  after-Sound (submits now i) r fit k = submit-Sound now i r fit k
  after-Sound (submits_batch now items) r fit k = batch-Sound now items r fit k
  after-Sound (claims now timeout) r fit k =
      unfold after in
      record {
        shard_state = (pop_one_ready now timeout k.shard_state).1;
        view =
            (claim-Refines redis postcard keys shard now timeout k.shard_state r k.accounted fit
              k.view).1;
        accounted = claim-Accounted now timeout k.shard_state k.accounted;
        scheduled = claim-Scheduled now timeout k.shard_state k.accounted k.scheduled;
      }
  after-Sound (advances host until) r fit k =
      unfold after in
      record {
        shard_state = record k.shard_state {
          wake = Map.insert host until k.shard_state.wake;
          ready = retain_ne host k.shard_state.ready;
        };
        view = (advance_wake-Refines redis postcard keys shard host until r k.shard_state k.view).0;
        accounted = set_wake-Accounted _ _ k.shard_state k.accounted;
        scheduled = set_wake-Scheduled host until k.shard_state k.scheduled;
      }
  after-Sound (promotes now limit) r fit k =
      let p = promote-Refines redis postcard keys shard now limit r k.shard_state k.view in
      unfold after in
      record {
        shard_state = promote_all p.0 k.shard_state;
        view = p.5;
        accounted =
            promote_all_keeps Accounted promote_host-Accounted p.0 k.shard_state k.accounted;
        scheduled =
            promote_all_keeps Scheduled promote_host-Scheduled p.0 k.shard_state k.scheduled;
      }
  after-Sound (reclaims now limit) r fit k =
      let p = reclaim-Refines redis postcard keys shard now limit r k.shard_state k.view in
      unfold after in
      record {
        shard_state = (reclaim_all now p.0 0 k.shard_state).1;
        view = p.5;
        accounted =
            reclaim_all_keeps Accounted now (reclaim_url-Accounted now) p.0 0 k.shard_state
              k.accounted;
        scheduled =
            reclaim_all_keeps Scheduled now (reclaim_url-Scheduled now) p.0 0 k.shard_state
              k.scheduled;
      }
  after-Sound (acks id host) r fit k =
      let p = acked id host r k fit in
      unfold after in
      record {
        shard_state = ack_shard id k.shard_state;
        view = ack-Refines redis postcard keys shard id host r k.shard_state k.view fit.0 p.1;
        accounted = ack-Accounted id k.shard_state k.accounted p.0;
        scheduled = ack-Scheduled id k.shard_state k.scheduled;
      }

  run_keeps : (cs : List (Command Url)) (r : R) → AllFit cs r → Sound r → Sound (run cs r)
  unfolding run
  run_keeps [] r fit k = k
  run_keeps (c ∷ cs) r fit k = run_keeps cs (after c r) fit.1 (after-Sound c r fit.0 k)

  -- A shard of which Redis has no key but the bloom filter.
  pub record IsFresh (r : R) : Type 0 where
    pub lists : (key : Text) → (redis.obs r).lists key ≡ []
    pub zsets : (key m : Text) → (redis.obs r).zsets key m ≡ none
    pub hashes : (key field : Text) → (redis.obs r).hashes key field ≡ none
    pub counters : (key : Text) → (redis.obs r).counters key ≡ none

  pub fresh-Views :
      (r : R) → IsFresh r → Views postcard keys shard (redis.obs r) (empty_shard {Url = Url})
  unfolding queue_of Map.get
  fresh-Views r f = record {
    queues = λ h. f.lists _;
    ids = λ h. tt;
    readies = f.lists _;
    wakes = λ h. f.zsets _ h;
    payloads = λ id. f.hashes _ id;
    leases = λ id h free. f.zsets _ _;
    members = λ m z e. absurd (ground (arith, e, f.zsets (Keys.inflight keys shard) m));
    counts = λ h. rw (f.counters (Keys.host_count keys shard h));
    known = λ id e. absurd (ground (arith, e));
  }

  -- After any history of commands on the keys of a run that has none yet, in which the client keeps
  -- to its side (the ids have no bar, the payloads are the encodings, leases end before 2^64, and
  -- no ack comes after its lease was reclaimed), the keys of the shard hold what a shard of the
  -- in-memory frontier holds in which each URL whose payload is kept is either once in a queue or
  -- leased, and every host with a queued URL is ready or has a wake-time.
  pub run-Refines : (cs : List (Command Url)) (r : R) → IsFresh r → AllFit cs r → Sound (run cs r)
  run-Refines cs r f fit = run_keeps cs r fit (record {
    shard_state = empty_shard;
    view = fresh-Views r f;
    accounted = empty-Sound.accounted;
    scheduled = empty-Sound.scheduled;
  })
