-- ===== src/Politeness/Robots.antt =====
-- crates/crawlrs-politeness/src/robots.rs: the cache of robots.txt, in the process and in Redis. The
-- hash that Redis keeps for a host is a record of its fields, and stands here by its key. Expiry and
-- eviction take entries away at any time and are no part of the methods.
use crawlrs.Prelude.{
  ℕ, ◌+◌, ◌*◌, ◌/◌, ◌%◌, ◌^◌, Bool, true, [], ◌∷◌, ◌++◌, Option, none, some, pos, negsuc, to_signed,
  max, eqb, if◌then◌else◌, ◌==◌, list_eq, nat_eq,
}
use crawlrs.Prelude.Map
use crawlrs.Prelude.Map.{Map}
use crawlrs.Core.Ascii.{codes}
use crawlrs.Core.Decimal.{to_decimal}
use crawlrs.Core.Error.{Text, Result, ok, err, panic, politeness}
use crawlrs.Core.Types.{UrlApi}
use crawlrs.Core.Sharding.{ShardingPolicy}
use crawlrs.Runtime.Effects.{Reply, done, failed, FetchResponse}
use crawlrs.Redis.Reply.{Call, answered, refused, unanswered}

-- What the redis crate receives for the field of a body.
pub data Value : Type 0 where
  bulk_string simple_string : Text → Value
  nil other : Value

pub record RobotsEntry : Type 0 where
  pub status : Option Text
  pub body : Option Value
  -- The seconds that EXPIRE gave it.
  pub ttl : ℕ

pub record RobotsState : Type 0 where
  pub in_process : Map Text Text
  pub redis : Map Text RobotsEntry

abbrev ttl_jitter_pct : ℕ
ttl_jitter_pct = 20

-- The seconds for a host whose name has the hash `h`: 100 plus the jitter is 80 plus the bucket. The
-- product is an i64.
unfoldable pub jittered_ttl : ℕ → ℕ → ℕ
jittered_ttl secs h =
    let bucket = h % (ttl_jitter_pct * 2 + 1) in
    elim (to_signed (2 ^ 63) ((secs * (80 + bucket)) % 2 ^ 64)) [
      | pos n ↦ max (n / 100) 1
      | negsuc n ↦ 1
    ]

-- What the cache is built with, and third-party code: `CanonicalUrl::parse`, the hash of
-- `DefaultHasher`, UTF-8, and the rules that `texting_robots` reads of a body.
pub record RobotsCache (Url : Type 0) : Type 0 where
  pub run_id : Text
  pub sharding_policy : ShardingPolicy Url
  pub ttl_secs : ℕ
  pub parse : Text → Option Url
  pub hash : Text → ℕ
  pub is_utf8 : Text → Bool
  pub robot : Text → Text → Option (Text → Bool)

-- The environment of a call: how the fetcher and the two round trips to Redis go.
pub record Weather (Url : Type 0) : Type 0 where
  pub fetch : Url → Reply (FetchResponse Url)
  pub read_call : Call
  pub write_call : Call

module _ {Url : Type 0} (api : UrlApi Url) (c : RobotsCache Url) where
  unfoldable pub evaluate_rules : Text → Text → Text → Bool
  evaluate_rules [] user_agent url = true
  evaluate_rules (b ∷ body) user_agent url =
      if c.is_utf8 (b ∷ body)
      then elim (c.robot user_agent (b ∷ body)) [ none ↦ true | some allows ↦ allows url ]
      else true

  -- keys.rs
  unfoldable pub robots_key : Url → Text → Text
  robots_key url host =
      codes "crawlrs:"
      ++ (c.run_id
          ++ (codes ":s"
              ++ (to_decimal (ShardingPolicy.shard_key c.sharding_policy url)
                  ++ (codes ":robots:" ++ host))))

  unfoldable pub value_into_bytes : Value → Result Text
  value_into_bytes (bulk_string b) = ok b
  value_into_bytes (simple_string s) = ok s
  value_into_bytes nil = ok []
  value_into_bytes other = err (politeness (codes "expected BulkString for robots body"))

  abbrev status_ok : Text
  status_ok = codes "ok"

  abbrev status_absent : Text
  status_absent = codes "absent"

  unfoldable pub read_body : Option Value → Result (Option Text)
  unfolding value_into_bytes
  read_body none = ok none
  read_body (some v) = elim (value_into_bytes v) [
    | ok b ↦ ok (some b)
    | err e ↦ err e
    | panic ↦ panic
  ]

  unfoldable pub read_entry : Option RobotsEntry → Result (Option Text)
  unfolding read_body
  read_entry none = ok none
  read_entry (some entry) = elim entry.status [
    | none ↦ ok none
    | some status ↦
        if status == status_ok
        then read_body entry.body
        else if status == status_absent
        then ok (some [])
        else ok none
  ]

  -- HMGET only reads, so an answer that is lost is as a refusal.
  unfoldable pub read_cache : Weather Url → Url → Text → RobotsState → Result (Option Text)
  unfolding read_entry robots_key
  read_cache w url host s = elim w.read_call [
    | answered ↦ read_entry (Map.get (robots_key url host) s.redis)
    | refused e ↦ err (politeness e)
    | unanswered e ↦ err (politeness e)
  ]

  -- The fields that HSET and HDEL leave, with EXPIRE behind them.
  abbrev entry_for : Text → Option Text → RobotsEntry
  entry_for host none = record {
    status = some status_absent;
    body = none;
    ttl = jittered_ttl c.ttl_secs (c.hash host);
  }
  entry_for host (some b) = record {
    status = some status_ok;
    body = some (bulk_string b);
    ttl = jittered_ttl c.ttl_secs (c.hash host);
  }

  abbrev with_entry : Url → Text → Option Text → RobotsState → RobotsState
  with_entry url host body s = record s {
    redis = Map.insert (robots_key url host) (entry_for host body) s.redis;
  }

  unfoldable pub write_cache :
      Weather Url → Url → Text → Option Text → RobotsState → Result (Unit {0}) × RobotsState
  unfolding robots_key jittered_ttl
  write_cache w url host body s = elim w.write_call [
    | answered ↦ (ok tt, with_entry url host body s)
    | refused e ↦ (err (politeness e), s)
    | unanswered e ↦ (err (politeness e), with_entry url host body s)
  ]

  -- Caching a body, or its absence, and returning it.
  unfoldable pub cached_as :
      Weather Url → Url → Text → Option Text → RobotsState → Result Text × RobotsState
  unfolding write_cache
  cached_as w url host body s =
      let (r, s') = write_cache w url host body s in
      elim r [
        | ok u ↦ (ok (elim body as (λ _. Text) [ none ↦ [] | some b ↦ b ]), s')
        | err e ↦ (err e, s')
        | panic ↦ (panic, s')
      ]

  -- The body of a response counts if the status is 200.
  abbrev pub usable : Reply (FetchResponse Url) → Option Text
  usable (failed e) = none
  usable (done response) = if eqb response.status 200 then some response.body else none

  unfoldable pub robots_url : Url → Text → Text
  robots_url url host = api.scheme url ++ (codes "://" ++ (host ++ codes "/robots.txt"))

  unfoldable pub fetch_and_cache :
      Weather Url → Url → Text → RobotsState → Result Text × RobotsState
  unfolding cached_as robots_url
  fetch_and_cache w url host s = elim (c.parse (robots_url url host)) [
    | none ↦ (err (politeness (robots_url url host)), s)
    | some target ↦ cached_as w url host (usable (w.fetch target)) s
  ]

  abbrev pub remembering : Text → Text → RobotsState → RobotsState
  remembering host body s = record s { in_process = Map.insert host body s.in_process }

  -- What `body_for` does behind the two caches.
  unfoldable pub fetched : Text → Result Text × RobotsState → Result Text × RobotsState
  fetched host (ok body, s) = (ok body, remembering host body s)
  fetched host (err e, s) = (err e, s)
  fetched host (panic, s) = (panic, s)

  -- What `body_for` does once Redis was read.
  unfoldable pub on_read :
      Weather Url → Url → Text → RobotsState → Result (Option Text) → Result Text × RobotsState
  unfolding fetch_and_cache fetched
  on_read w url host s (ok (some body)) = (ok body, remembering host body s)
  on_read w url host s (ok none) = fetched host (fetch_and_cache w url host s)
  on_read w url host s (err e) = (err e, s)
  on_read w url host s panic = (panic, s)

  unfoldable pub body_for : Weather Url → Url → Text → RobotsState → Result Text × RobotsState
  unfolding read_cache on_read
  body_for w url host s = elim (Map.get host s.in_process) [
    | some body ↦ (ok body, s)
    | none ↦ on_read w url host s (read_cache w url host s)
  ]

  -- The rules are asked once there is a body.
  unfoldable pub judged : Text → Url → Result Text × RobotsState → Result Bool × RobotsState
  unfolding evaluate_rules
  judged user_agent url (ok body, s) = (ok (evaluate_rules body user_agent (api.as_str url)), s)
  judged user_agent url (err e, s) = (err e, s)
  judged user_agent url (panic, s) = (panic, s)

  unfoldable pub allowed : Weather Url → Url → Text → RobotsState → Result Bool × RobotsState
  unfolding body_for judged
  allowed w url user_agent s = elim (api.host url) [
    | none ↦ (ok true, s)
    | some host ↦ judged user_agent url (body_for w url host s)
  ]
