-- ===== src/ShardCtrler/Common.antt =====
-- src/shardctrler/common.go and the `Op` of src/shardctrler/server.go: the data of the controller.
use sharded_kv.Prelude.{ℕ, String, List, [], replicate, GoMap, ℤ}

abbrev pub n_shards : ℕ
n_shards = 10

-- gid -> servers[]
abbrev pub Groups : Type 0
Groups = GoMap ℕ (List String)

pub record Config : Type 0 where
  pub num : ℕ
  pub shards : List ℕ  -- shard -> gid, an array of n_shards
  pub groups : Groups

-- The zero value of `Config`, which `StartServer` makes configuration 0.
abbrev pub zero_config : Config
zero_config = record { num = 0; shards = replicate n_shards 0; groups = [] }

abbrev pub join_args_type : ℕ
join_args_type = 1

abbrev pub leave_args_type : ℕ
leave_args_type = 2

abbrev pub move_args_type : ℕ
move_args_type = 3

abbrev pub query_args_type : ℕ
query_args_type = 4

pub record Op : Type 0 where
  pub args_type : ℕ
  pub servers : Groups
  pub gids : List ℕ
  pub shard : ℕ
  pub gid : ℕ
  pub num : ℤ
  pub seq_num : ℕ
  pub client_id : ℕ
