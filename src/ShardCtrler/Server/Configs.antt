-- ===== src/ShardCtrler/Server/Configs.antt =====
-- src/shardctrler/server.go, `applyToStateMachine`: the next configuration, by the kind of the
-- operation.
use sharded_kv.Prelude.{
  ℕ, ◌+◌, ◌<◌, ◌≡◌, inl, inr, Bool, true, false, some, List, [], ◌∷◌, length, set, length-set,
  GoMap, has, nat_eq, arith, Option-cases,
}
use sharded_kv.ShardCtrler.Common.{
  n_shards, Groups, Config, Op, join_args_type, leave_args_type, move_args_type,
}
use sharded_kv.ShardCtrler.Rebalance.{rebalance, get_gid_to_shards_map, get_group_map_copy}
use sharded_kv.ShardCtrler.Rebalance.Spec.{IsFair, rebalance-IsFair, length-rebalance}
use sharded_kv.ShardCtrler.Rebalance.Stable.{rebalance_no_groups}
use sharded_kv.ShardCtrler.Server.{
  join_groups, leave_groups, rebalanced, moved_config, appended, next_config,
}

pub rebalanced-some :
    (old : Config) (groups : Groups) (new_shards : List ℕ) (moved : GoMap ℕ Bool)
    → rebalance (get_gid_to_shards_map old.shards groups) old.shards ≡ some (new_shards, moved)
    → rebalanced old groups
      ≡ some (record { num = old.num + 1; shards = new_shards; groups = groups })
unfolding rebalanced
rebalanced-some old groups new_shards moved h = rw (h, rebalanced)

-- A configuration made by `rebalance` is the next one, over the groups asked for.
pub rebalanced_parts :
    (old c : Config) (groups : Groups)
    → rebalanced old groups ≡ some c
    → (c.num ≡ old.num + 1) × (length c.shards ≡ n_shards) × (c.groups ≡ groups)
unfolding rebalanced
rebalanced_parts old c groups h =
    elim (Option-cases (rebalance (get_gid_to_shards_map old.shards groups) old.shards)) [
      | inl q ↦ cc (rw (q, rebalanced) at h)
      | inr ((new_shards, moved), q) ↦
          let e = rw (q, rebalanced) at h in
          (
            ground arith,
            ground (arith, length-rebalance _ old.shards new_shards moved q),
            ground arith,
          )
    ]

pub rebalanced_total :
    (old : Config) (groups : Groups)
    → length old.shards ≡ n_shards
    → has 0 groups ≡ false
    → (c : Config) × (rebalanced old groups ≡ some c)
unfolding has
rebalanced_total old [] full no_zero =
    let (moved, q) = rebalance_no_groups old.shards full in (_, rebalanced-some old [] _ moved q)
rebalanced_total old ((k, v) ∷ rest) full no_zero =
    let (new_shards, moved, q, fair) =
      rebalance-IsFair old.shards ((k, v) ∷ rest) k full no_zero (ground arith) in
    (_, rebalanced-some old ((k, v) ∷ rest) new_shards moved q)

pub rebalanced-IsFair :
    (old c : Config) (groups : Groups) (x : ℕ)
    → length old.shards ≡ n_shards
    → has 0 groups ≡ false
    → has x groups ≡ true
    → rebalanced old groups ≡ some c
    → IsFair groups c.shards
rebalanced-IsFair old c groups x full no_zero alive h =
    let (new_shards, moved, q, fair) = rebalance-IsFair old.shards groups x full no_zero alive in
    let e : new_shards ≡ c.shards = ground (arith, rebalanced-some old groups new_shards moved q) in
    rw e at fair

-- The groups after a Join, and after a Leave.
abbrev pub joined : Config → Op → Groups
joined old op = join_groups (get_group_map_copy old.groups) (get_group_map_copy op.servers)

abbrev pub left : Config → Op → Groups
left old op = leave_groups (get_group_map_copy old.groups) op.gids

-- Any operation that appends a configuration appends the next one.
pub next_config_parts :
    (old c : Config) (op : Op)
    → length old.shards ≡ n_shards
    → next_config old op ≡ some (some c)
    → (c.num ≡ old.num + 1) × (length c.shards ≡ n_shards)
unfolding next_config moved_config
next_config_parts old c op full h = ground (
  arith,
  rebalanced_parts old c (joined old op),
  rebalanced_parts old c (left old op),
  length-set old.shards op.shard op.gid,
)

-- A Move changes the owner of one shard, and nothing else but the number.
pub next_config-move :
    (old : Config) (op : Op)
    → op.args_type ≡ move_args_type
    → op.shard < n_shards
    → next_config old op
      ≡ some (
          some (record {
            num = old.num + 1;
            shards = set old.shards op.shard op.gid;
            groups = old.groups;
          }))
unfolding next_config moved_config
next_config-move old op kind h = ground arith

pub next_config-join :
    (old : Config) (op : Op)
    → op.args_type ≡ join_args_type
    → next_config old op ≡ appended (rebalanced old (joined old op))
unfolding next_config
next_config-join old op kind = ground arith

pub next_config-leave :
    (old : Config) (op : Op)
    → op.args_type ≡ leave_args_type
    → next_config old op ≡ appended (rebalanced old (left old op))
unfolding next_config
next_config-leave old op kind = ground arith
