-- ===== src/Redis/Memory/Fixtures.antt =====
-- crates/crawlrs-frontier/tests: the inputs of the examples. A URL is a number here, on the host
-- "a", and its encoding is that number with its depth and its parent.
use crawlrs.Prelude.{
  ℕ, ◌≡◌, refl, List, [], ◌∷◌, ◌++◌, Option, none, some, arith, list_eq, nat_eq, sym, ap, ◌∙◌, map,
}
use crawlrs.Prelude.Map
use crawlrs.Core.Error.{Text}
use crawlrs.Core.Types.{UrlApi, UrlEntry}
use crawlrs.Core.UrlId.{to_hex, to_hex-All}
use crawlrs.Fakes.Accounting.{Accounted, submit-Accounted}
use crawlrs.Fakes.Delivery.{promote_host-Accounted}
use crawlrs.Fakes.Histories.{empty-Sound}
use crawlrs.Fakes.Shard.{ShardState, empty_shard, submit_shard, promote_host}
use crawlrs.Redis.Api.{ℤ, negsuc, Postcard, pos}
use crawlrs.Redis.Keys
use crawlrs.Redis.Keys.{KeyPrefix}
use crawlrs.Redis.Views.{Views}
use crawlrs.Redis.Commands.{rpush_ready-Views, zrem-Views}
use crawlrs.Redis.Scripts
use crawlrs.Redis.Parsing.{IsUrlId}
use crawlrs.Redis.Memory.{memory, Memory, no_keys}
use crawlrs.Redis.Histories.{IsFresh, fresh-Views}
use crawlrs.Redis.Submit.{Item, newer, bf_add-Views, enqueue-Views}
use crawlrs.Redis.Batch.{IsEncoded}
use crawlrs.Redis.Reply.{Client, IsAscii}
use crawlrs.Redis.Frontier.{RedisFrontier}
use crawlrs.Core.Sharding.{single_shard}

abbrev pub host_a : Text
host_a = b'a' ∷ []

abbrev pub keys : KeyPrefix
keys = record { run_id = b'r' ∷ [] }

-- A seed URL is encoded as its number.
abbrev pub parent : Option ℕ → Text
parent none = []
parent (some u) = u ∷ []

abbrev pub encode : UrlEntry ℕ → Option Text
encode entry = some (entry.url ∷ entry.depth ∷ parent entry.discovered_from)

abbrev pub decode : Text → Option (UrlEntry ℕ)
decode (u ∷ d ∷ []) = some (record { url = u; depth = d; discovered_from = none })
decode (u ∷ d ∷ p ∷ []) = some (record { url = u; depth = d; discovered_from = some p })
decode t = none

decode_if : Option Text → Option (UrlEntry ℕ)
decode_if none = none
decode_if (some t) = decode t

decode-encode :
    (u d : ℕ) (p : Option ℕ)
    → decode_if (some (u ∷ d ∷ parent p))
      ≡ some (record { url = u; depth = d; discovered_from = p })
unfolding decode_if
decode-encode u d none = refl
decode-encode u d (some p) = refl

pub decode_law :
    (entry : UrlEntry ℕ) (bytes : Text) → encode entry ≡ some bytes → decode bytes ≡ some entry
unfolding decode_if
decode_law entry bytes e =
    ap decode_if (sym e) ∙ decode-encode entry.url entry.depth entry.discovered_from

abbrev pub postcard : Postcard ℕ
postcard = record { to_allocvec = encode; from_bytes = decode; from_bytes-to_allocvec = decode_law }

pub no_keys-IsFresh : IsFresh memory postcard keys 0 no_keys
unfolding memory Map.get
no_keys-IsFresh = record {
  lists = λ key. refl;
  zsets = λ key m. refl;
  hashes = λ key f. refl;
  counters = λ key. refl;
}

abbrev pub id_1 : List ℕ
id_1 = 1 ∷ 2 ∷ 3 ∷ 4 ∷ 5 ∷ 6 ∷ 7 ∷ 8 ∷ 9 ∷ 10 ∷ 11 ∷ 12 ∷ 13 ∷ 14 ∷ 15 ∷ 16 ∷ []

abbrev pub id_2 : List ℕ
id_2 = 2 ∷ 2 ∷ 3 ∷ 4 ∷ 5 ∷ 6 ∷ 7 ∷ 8 ∷ 9 ∷ 10 ∷ 11 ∷ 12 ∷ 13 ∷ 14 ∷ 15 ∷ 16 ∷ []

abbrev pub entry_1 : UrlEntry ℕ
entry_1 = record { url = 1; depth = 0; discovered_from = none }

pub id_1-IsUrlId : IsUrlId id_1
id_1-IsUrlId = (refl, ground arith)

pub id_2-IsUrlId : IsUrlId id_2
id_2-IsUrlId = (refl, ground arith)

-- URL 1 is queued on host "a" and the host is ready, in Redis and in memory.
abbrev pub added_1 : Memory
added_1 = (memory.bf_add (Keys.seen 0) (to_hex id_1) no_keys).1

abbrev pub queued_1 : Memory
queued_1 =
    Scripts.enqueue memory (Keys.urls keys 0) (Keys.host_queue keys 0 host_a) (Keys.wake keys 0) 5
      (to_hex id_1) host_a (1 ∷ 0 ∷ []) added_1

abbrev pub queued_shard : ShardState ℕ
queued_shard = (submit_shard 5 (to_hex id_1) host_a entry_1 empty_shard).1

abbrev pub ready_1 : Memory
ready_1 = memory.rpush (Keys.ready keys 0) host_a (memory.zrem (Keys.wake keys 0) host_a queued_1)

abbrev pub ready_shard : ShardState ℕ
ready_shard = promote_host host_a queued_shard

pub queued_1-Views : Views postcard keys 0 (memory.obs queued_1) queued_shard
unfolding submit_shard
queued_1-Views =
    enqueue-Views memory postcard keys 0 5 (to_hex id_1) host_a entry_1 (1 ∷ 0 ∷ []) added_1
      empty_shard
      (bf_add-Views memory postcard keys 0 (to_hex id_1) no_keys empty_shard (to_hex id_1 ∷ [])
        (fresh-Views memory postcard keys 0 no_keys no_keys-IsFresh) (newer (to_hex id_1) []))
      (to_hex-All id_1 id_1-IsUrlId.1) refl

pub ready_1-Views : Views postcard keys 0 (memory.obs ready_1) ready_shard
unfolding promote_host
ready_1-Views =
    rpush_ready-Views memory postcard keys 0 _ _
      (zrem-Views memory postcard keys 0 queued_1 queued_shard queued_1-Views host_a) host_a

pub ready_shard-Accounted : Accounted ready_shard
ready_shard-Accounted =
    promote_host-Accounted host_a queued_shard
      (submit-Accounted 5 (to_hex id_1) host_a entry_1 empty_shard empty-Sound.accounted)

-- A value of the client: nil, a number, a text, or a table by its first entry and the others.
pub data Value : Type 0 where
  nil : Value
  number : ℕ → Value
  text : Text → Value
  no_entry : Value
  entries : Value → Value → Value

abbrev pub table : List Value → Value
table [] = no_entry
table (v ∷ vs) = entries v (table vs)

abbrev pub values : Value → Option (List Value)
values no_entry = some []
values (entries v t) = elim (values t) [ none ↦ none | some vs ↦ some (v ∷ vs) ]
values v = none

abbrev pub text_of : Value → Option Text
text_of (text t) = some t
text_of v = none

abbrev pub texts : Value → Option (List Text)
texts no_entry = some []
texts (entries (text a) t) = elim (texts t) [ none ↦ none | some ts ↦ some (a ∷ ts) ]
texts v = none

abbrev pub score_text : ℤ → Text
score_text (pos n) = n ∷ []
score_text (negsuc n) = 0 ∷ n ∷ []

abbrev pub u64_of : Value → Option ℕ
u64_of (text (n ∷ [])) = some n
u64_of v = none

abbrev pub i64_of : Value → Option ℕ
i64_of (number n) = some n
i64_of v = none

pub values-table : (vs : List Value) → values (table vs) ≡ some vs
values-table [] = refl
values-table (v ∷ vs) = rw (values-table vs)

pub texts-table : (ts : List Text) → texts (table (map text ts)) ≡ some ts
texts-table [] = refl
texts-table (t ∷ ts) = rw (texts-table ts)

abbrev pub client : Client Value
client = record {
  array = table;
  bulk = text;
  int = number;
  nil = nil;
  score_text = score_text;
  to_values = values;
  to_text = text_of;
  to_texts = texts;
  to_bytes = text_of;
  to_u64 = u64_of;
  to_i64 = i64_of;
  to_values-array = values-table;
  to_text-bulk = λ t a. refl;
  to_texts-bulk = λ ts a. texts-table ts;
  to_bytes-bulk = λ t. refl;
  to_u64-score = λ n h. refl;
  to_i64-int = λ n h. refl;
}

pub host_a-IsAscii : IsAscii host_a
host_a-IsAscii = ground arith

abbrev pub item_1 : Item ℕ
item_1 = record {
  url_id = to_hex id_1;
  host = host_a;
  entry = entry_1;
  payload = 1 ∷ 0 ∷ [];
  max_urls = some 1;
}

abbrev pub item_2 : Item ℕ
item_2 = record {
  url_id = to_hex id_2;
  host = host_a;
  entry = record { url = 2; depth = 0; discovered_from = some 1 };
  payload = 2 ∷ 0 ∷ 1 ∷ [];
  max_urls = some 1;
}

pub item_1-IsEncoded : IsEncoded memory postcard keys 0 item_1
item_1-IsEncoded = (to_hex-All id_1 id_1-IsUrlId.1, refl)

pub item_2-IsEncoded : IsEncoded memory postcard keys 0 item_2
item_2-IsEncoded = (to_hex-All id_2 id_2-IsUrlId.1, refl)

abbrev pub api : UrlApi ℕ
api = record {
  as_str = λ u. u ∷ [];
  host = λ u. some host_a;
  scheme = λ u. b'h' ∷ [];
  path = λ u. b'/' ∷ [];
  blake3 = λ t. t ++ id_1;
}

abbrev pub frontier : RedisFrontier ℕ
frontier = record {
  keys = keys;
  sharding_policy = single_shard;
  owned_shards = 0 ∷ [];
  lease_timeout_ms = 100;
  tick_batch_limit = 10;
  crawl_scope = record { max_depth = none; max_urls = some 1; per_domain = [] };
}
