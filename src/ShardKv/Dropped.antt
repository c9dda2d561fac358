-- ===== src/ShardKv/Dropped.antt =====
-- src/shardkv/server.go: a ShardConfirmOperation in applyHandler, at the old owner of a shard.
use sharded_kv.Prelude.{Bool, false, ◌||◌, List, [], ◌∷◌, Bytes, bytes_beq, nat_eq, bytes_eq}
use sharded_kv.ShardKv.Server.{ShardKv}

is_among : Bytes → List Bytes → Bool
is_among key [] = false
is_among key (k ∷ rest) = bytes_beq k key || is_among key rest
