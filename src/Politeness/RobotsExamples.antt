-- ===== src/Politeness/RobotsExamples.antt =====
-- crates/crawlrs-politeness/src/robots.rs: the theorems at concrete inputs. A URL is a number on the
-- host "a"; the rules of any body allow the empty text alone.
use crawlrs.Prelude.{ℕ, ◌+◌, ◌*◌, ◌/◌, ◌<◌, ◌≤◌, max, arith, ◌≡◌, refl, true, false, [], ◌∷◌, some}
use crawlrs.Prelude.Map
use crawlrs.Core.Error.{Text, ok}
use crawlrs.Core.Sharding.{single_shard}
use crawlrs.Runtime.Effects.{done}
use crawlrs.Redis.Reply.{answered}
use crawlrs.Fakes.Examples.{api}
use crawlrs.Politeness.Robots.{
  RobotsState, RobotsCache, Weather, evaluate_rules, read_cache, read_entry, write_cache, cached_as,
  jittered_ttl, fetch_and_cache, fetched, on_read, body_for, judged, allowed,
}
use crawlrs.Politeness.Remembered.{
  Source, Forbids, allowed_remembers, allowed_refuses, jittered_ttl_bounds,
}

abbrev host_a : Text
host_a = b'a' ∷ []

abbrev cache : RobotsCache ℕ
cache = record {
  run_id = b'r' ∷ [];
  sharding_policy = single_shard;
  ttl_secs = 3600;
  parse = λ t. some 1;
  hash = λ t. 7;
  is_utf8 = λ t. true;
  robot = λ user_agent body. some (λ url. elim url [ [] ↦ true | x ∷ xs ↦ false ]);
}

abbrev weather : Weather ℕ
weather = record {
  fetch = λ u. done (record { url = u; status = 200; headers = []; body = b'd' ∷ [] });
  read_call = answered;
  write_call = answered;
}

abbrev nothing : RobotsState
nothing = record { in_process = []; redis = [] }

refused_7 : (allowed api cache weather 7 (b'u' ∷ []) nothing).0 ≡ ok false
unfolding allowed judged body_for on_read read_cache read_entry fetch_and_cache cached_as
    write_cache fetched evaluate_rules Map.get
refused_7 = refl

allowed_remembers_example :
    let s' = (allowed api cache weather 7 (b'u' ∷ []) nothing).1 in
    (body : Text) × (false ≡ evaluate_rules api cache body (b'u' ∷ []) (7 ∷ []))
    × ((w' : Weather ℕ) (url' : ℕ) (user_agent' : Text)
        → api.host url' ≡ some host_a
        → allowed api cache w' url' user_agent' s'
          ≡ (ok (evaluate_rules api cache body user_agent' (api.as_str url')), s'))
allowed_remembers_example =
    allowed_remembers api cache weather 7 (b'u' ∷ []) host_a nothing false refl refused_7

allowed_refuses_example :
    (host : Text) × (api.host 7 ≡ some host)
    × ((body : Text) × Source api cache weather 7 host nothing body
        × Forbids api cache body (b'u' ∷ []) 7)
allowed_refuses_example = allowed_refuses api cache weather 7 (b'u' ∷ []) nothing refused_7

jittered_ttl_bounds_example :
    (3600 * 80 < (jittered_ttl 3600 7 + 1) * 100)
    × (1 ≤ jittered_ttl 3600 7)
    × (jittered_ttl 3600 7 ≤ max (3600 * 120 / 100) 1)
jittered_ttl_bounds_example = jittered_ttl_bounds 3600 7 (omega arith) (omega arith)
