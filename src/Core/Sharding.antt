-- ===== src/Core/Sharding.antt =====
-- crates/crawlrs-core/src/traits/sharding.rs and hash.rs: shards from an FNV-1a hash of the host.
use Prim.Native.Nat.{bit_xor}
use crawlrs.Prelude.{ℕ, ◌*◌, ◌%◌, ◌^◌, List, [], ◌∷◌, unwrap_or, leb, if◌then◌else◌}
use crawlrs.Core.Types.{UrlApi}
use crawlrs.Core.Error.{Text, Result, ok, panic}

fnv_step : ℕ → ℕ → ℕ
fnv_step hash byte = (bit_xor hash byte * 0x100_0000_01b3) % 2 ^ 64

fnv_from : ℕ → List ℕ → ℕ
unfolding fnv_step
fnv_from hash [] = hash
fnv_from hash (byte ∷ bytes) = fnv_from (fnv_step hash byte) bytes

unfoldable pub fnv1a_64 : List ℕ → ℕ
unfolding fnv_from
fnv1a_64 bytes = fnv_from 0xcbf2_9ce4_8422_2325 bytes

pub record ShardingPolicy (Url : Type 0) : Type 0 where
  pub shard_key : Url → ℕ
  pub shard_key_from_host : Text → ℕ
  pub shard_count : ℕ

-- `SingleShardPolicy`.
unfoldable pub single_shard : {Url : Type 0} → ShardingPolicy Url
single_shard = record { shard_key = λ _. 0; shard_key_from_host = λ _. 0; shard_count = 1 }

-- `HostHashShardPolicy`; its constructor panics on 0 shards.
unfoldable pub host_hash_shards : {Url : Type 0} → UrlApi Url → ℕ → ShardingPolicy Url
host_hash_shards api num_shards = record {
  shard_key = λ url. from_host (unwrap_or (api.host url) []);
  shard_key_from_host = from_host;
  shard_count = num_shards;
}
  where
    from_host : Text → ℕ
    from_host host = (fnv1a_64 host % num_shards) % 2 ^ 32

unfoldable pub host_hash_new : {Url : Type 0} → UrlApi Url → ℕ → Result (ShardingPolicy Url)
unfolding host_hash_shards
host_hash_new api num_shards =
    if leb 1 num_shards then ok (host_hash_shards api num_shards) else panic
