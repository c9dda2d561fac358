-- ===== src/ShardKv/Common.antt =====
-- src/shardkv/common.go, client.go and the types of server.go.
use sharded_kv.Prelude.{ℕ, ◌%◌, Bool, true, false, [], ◌∷◌, Bytes, GoMap}
use sharded_kv.ShardCtrler.Common.{n_shards, Config}

-- key2shard: the first byte of the key, 0 for the empty one, modulo the number of shards.
unfoldable pub key2shard : Bytes → ℕ
key2shard [] = 0
key2shard (b ∷ rest) = b % n_shards

pub data ShardState : Type 0 where
  serving no_serving pulling be_pulled : ShardState

abbrev pub is_serving : ShardState → Bool
is_serving serving = true
is_serving no_serving = false
is_serving pulling = false
is_serving be_pulled = false

abbrev pub is_no_serving : ShardState → Bool
is_no_serving no_serving = true
is_no_serving serving = false
is_no_serving pulling = false
is_no_serving be_pulled = false

abbrev pub is_pulling : ShardState → Bool
is_pulling pulling = true
is_pulling serving = false
is_pulling no_serving = false
is_pulling be_pulled = false

abbrev pub is_be_pulled : ShardState → Bool
is_be_pulled be_pulled = true
is_be_pulled serving = false
is_be_pulled no_serving = false
is_be_pulled pulling = false

-- The strings of `Op.Optype` that the code tests for; any other is `other`.
pub data Optype : Type 0 where
  get put_value append other : Optype

pub record Op : Type 0 where
  pub client_id : ℕ
  pub seq_num : ℕ
  pub key : Bytes
  pub value : Bytes
  pub optype : Optype

pub record ShardRequestMsg : Type 0 where
  pub config_num : ℕ
  pub shard_index : ℕ
  pub gid : ℕ
  pub shard_data : GoMap Bytes Bytes
  pub client_seq_num : GoMap ℕ ℕ

pub record ShardConfirmMsg : Type 0 where
  pub config_num : ℕ
  pub shard_index : ℕ
  pub shard_state : ShardState

-- CommandMsg, with its type and data in one. A ConfigMsg has the fields of a Config. `unknown` is
-- the zero CommandMsg and any other type.
pub data CommandMsg : Type 0 where
  kv_operation : Op → CommandMsg
  config_operation : Config → CommandMsg
  shard_request_operation : ShardRequestMsg → CommandMsg
  shard_confirm_operation : ShardConfirmMsg → CommandMsg
  no_operation unknown : CommandMsg

pub data Err : Type 0 where
  empty ok err_no_key err_wrong_group err_wrong_leader err_config : Err
