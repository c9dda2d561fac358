-- ===== src/ShardCtrler/Tests.antt =====
-- Runs of the controller, src/shardctrler/server.go, on small inputs.
use sharded_kv.Prelude.{
  ℕ, zero, suc, ◌≤◌, ◌+◌, ◌≡◌, ◌≢◌, refl, inl, inr, ◌⊎◌, Bool, true, some, List, [], ◌∷◌, length,
  replicate, get_or, get_elem?, GoMap, has, lookup, put, delete, index, nat_eq, arith, pos, negsuc,
}
use sharded_kv.ShardCtrler.Common.{
  n_shards, Groups, Config, zero_config, Op, join_args_type, move_args_type,
}
use sharded_kv.ShardCtrler.Rebalance.{get_group_map_copy, get_gid_to_shards_map, rebalance}
use sharded_kv.ShardCtrler.Rebalance.Total.{count}
use sharded_kv.ShardCtrler.Rebalance.Replicas.{rebalance_any_order}
use sharded_kv.ShardCtrler.Rebalance.Spec.{IsFair, rebalance-IsFair}
use sharded_kv.ShardCtrler.Rebalance.Stable.{rebalance_stable}
use sharded_kv.ShardCtrler.Server.{
  ShardCtrler, start_server, last_config, apply_to_state_machine, apply_handler, get_config,
}
use sharded_kv.ShardCtrler.Server.History.{IsHistory, Grows, run, apply_handler-IsHistory}
use sharded_kv.ShardCtrler.Server.Fairness.{IsShared, configs-IsShared}
use sharded_kv.ShardCtrler.Server.Asked.{asked}
use sharded_kv.ShardCtrler.Server.Operations.{
  Appends, join_or_leave, move_one_shard, get_config_lem,
}
use sharded_kv.ShardCtrler.Server.Sessions.{retry_applied_twice}

-- Group 1 has all shards, and group 2 has just come.
abbrev one_owner : List ℕ
one_owner = replicate n_shards 1

abbrev two_groups : Groups
two_groups = (1, "a" ∷ []) ∷ (2, "b" ∷ []) ∷ []

abbrev evenly : List ℕ
evenly = 1 ∷ 1 ∷ 1 ∷ 1 ∷ 1 ∷ 2 ∷ 2 ∷ 2 ∷ 2 ∷ 2 ∷ []

abbrev join_op : Op
join_op = record {
  args_type = join_args_type;
  servers = two_groups;
  gids = [];
  shard = 0;
  gid = 0;
  num = pos 0;
  seq_num = 1;
  client_id = 7;
}

abbrev move_op : Op
move_op = record join_op { args_type = move_args_type; shard = 3; gid = 2 }

abbrev first_history : List Config
first_history = zero_config ∷ record { num = 1; shards = evenly; groups = two_groups } ∷ []

abbrev first_server : ShardCtrler
first_server = record start_server { configs = first_history }

first_history-IsHistory : IsHistory first_history
first_history-IsHistory = record {
  started = omega arith;
  numbered = (refl, refl, (refl, refl, tt));
}

start_server-IsHistory : IsHistory (zero_config ∷ [])
start_server-IsHistory = record { started = omega arith; numbered = (refl, refl, tt) }

rebalance-IsFair_example :
    (new_shards : List ℕ) × (moved : GoMap ℕ Bool) × (rebalance
        (get_gid_to_shards_map one_owner two_groups)
        one_owner
      ≡ some (new_shards, moved))
    × IsFair two_groups new_shards
unfolding has lookup
rebalance-IsFair_example = rebalance-IsFair one_owner two_groups 2 refl refl refl

join_or_leave_example :
    (c : Config) × (sc' : ShardCtrler) × (apply_to_state_machine join_op start_server ≡ some sc')
    × Appends start_server c sc'
    × (c.num ≡ 1)
    × ((gid : ℕ) → lookup gid c.groups ≡ asked join_op zero_config gid)
    × IsFair c.groups c.shards
unfolding lookup last_config
join_or_leave_example =
    join_or_leave join_op start_server zero_config 1 ("a" ∷ []) start_server-IsHistory refl tt
      (refl, (refl, tt)) (inl refl) refl refl

move_one_shard_example :
    (c : Config) × (sc' : ShardCtrler) × (apply_to_state_machine move_op first_server ≡ some sc')
    × Appends first_server c sc'
    × (c.num ≡ 2)
    × (c.groups ≡ two_groups)
    × (get_or c.shards 3 0 ≡ 2)
    × ((s : ℕ) → 3 ≢ s → get_or c.shards s 0 ≡ get_or evenly s 0)
unfolding last_config
move_one_shard_example =
    move_one_shard move_op first_server (record { num = 1; shards = evenly; groups = two_groups })
      first_history-IsHistory refl refl (omega arith)

get_config_lem_example :
    (c : Config) × (get_config (pos 1) first_server ≡ some c)
    × (c.num ≡ 1)
    × (get_config (negsuc 0) first_server ≡ last_config first_history)
get_config_lem_example = get_config_lem first_server 1 first_history-IsHistory

owner_of : (g : ℕ) → has g two_groups ≡ true → (g ≡ 1) ⊎ (g ≡ 2)
unfolding has lookup
owner_of g h = ground arith

owner_in : (s : ℕ) → (get_or evenly s 0 ≡ 1) ⊎ (get_or evenly s 0 ≡ 2) ⊎ (length evenly ≤ s)
owner_in zero = inl refl
owner_in (suc zero) = inl refl
owner_in (suc (suc zero)) = inl refl
owner_in (suc (suc (suc zero))) = inl refl
owner_in (suc (suc (suc (suc zero)))) = inl refl
owner_in (suc (suc (suc (suc (suc zero))))) = inr (inl refl)
owner_in (suc (suc (suc (suc (suc (suc zero)))))) = inr (inl refl)
owner_in (suc (suc (suc (suc (suc (suc (suc zero))))))) = inr (inl refl)
owner_in (suc (suc (suc (suc (suc (suc (suc (suc zero)))))))) = inr (inl refl)
owner_in (suc (suc (suc (suc (suc (suc (suc (suc (suc zero))))))))) = inr (inl refl)
owner_in (suc (suc (suc (suc (suc (suc (suc (suc (suc (suc s)))))))))) = inr (inr (omega arith))

evenly-IsFair : IsFair two_groups evenly
unfolding has lookup count
evenly-IsFair = record {
  array = refl;
  alive = λ s small. elim (owner_in s) [
    | inl e ↦ rw e refl
    | inr (inl e) ↦ rw e refl
    | inr (inr large) ↦ absurd (omega (arith, small, large))
  ];
  even = λ g h one other. elim (owner_of g one) [
    | inl e ↦ elim (owner_of h other) [
      | inl d ↦ rw (e, d) (omega arith)
      | inr d ↦ rw (e, d) (omega arith)
    ]
    | inr e ↦ elim (owner_of h other) [
      | inl d ↦ rw (e, d) (omega arith)
      | inr d ↦ rw (e, d) (omega arith)
    ]
  ];
}

rebalance_stable_example :
    rebalance (get_gid_to_shards_map evenly two_groups) evenly ≡ some (evenly, [])
unfolding has lookup
rebalance_stable_example = rebalance_stable evenly two_groups 1 refl refl evenly-IsFair

-- Two rounds of the apply loop, at one and the same Move.
abbrev moved_config_1 : Config
moved_config_1 = record {
  num = 1;
  shards = 0 ∷ 0 ∷ 0 ∷ 2 ∷ 0 ∷ 0 ∷ 0 ∷ 0 ∷ 0 ∷ 0 ∷ [];
  groups = [];
}

abbrev moved_once : ShardCtrler
moved_once = record {
  configs = zero_config ∷ moved_config_1 ∷ [];
  wait_chan = [];
  client_seq = (7, 0) ∷ [];
}

abbrev moved_twice : ShardCtrler
moved_twice = record moved_once {
  configs = zero_config ∷ moved_config_1 ∷ record moved_config_1 { num = 2 } ∷ [];
}

once : apply_handler true 1 move_op start_server ≡ some moved_once
unfolding apply_handler index has put
once = refl

twice : apply_handler true 2 move_op moved_once ≡ some moved_twice
unfolding apply_handler index has
twice = refl

-- The Join of two groups, as the first operation.
abbrev joined_once : ShardCtrler
joined_once = record moved_once {
  configs =
      zero_config
      ∷ record { num = 1; shards = 1 ∷ 2 ∷ 1 ∷ 2 ∷ 1 ∷ 2 ∷ 1 ∷ 2 ∷ 1 ∷ 2 ∷ []; groups = two_groups }
      ∷ [];
}

joins : apply_handler true 1 join_op start_server ≡ some joined_once
unfolding apply_handler rebalance get_gid_to_shards_map get_group_map_copy index has put delete
joins = refl

configs-IsShared_example :
    (c : Config) × (get_elem? joined_once.configs 1 ≡ some c) × (c.num ≡ 1) × IsShared c
unfolding run lookup
configs-IsShared_example =
    configs-IsShared (record { command_valid = true; command_index = 1; op = join_op } ∷ [])
      joined_once 1 (rw (joins, run) refl) (((λ e. ground arith), refl), tt) (omega arith)

retry_applied_twice_example : length moved_twice.configs ≡ length start_server.configs + 2
unfolding index lookup
retry_applied_twice_example =
    retry_applied_twice 1 2 move_op start_server moved_once moved_twice (inr (inr refl))
      (omega arith) once twice

apply_handler-IsHistory_example :
    IsHistory moved_once.configs × Grows start_server.configs moved_once.configs
apply_handler-IsHistory_example =
    apply_handler-IsHistory true 1 move_op start_server moved_once start_server-IsHistory once

abbrev turned_groups : Groups
turned_groups = (2, "b" ∷ []) ∷ (1, "a" ∷ []) ∷ []

rebalance_any_order_example :
    rebalance (get_gid_to_shards_map one_owner two_groups) one_owner
    ≡ rebalance (get_gid_to_shards_map one_owner turned_groups) one_owner
unfolding has lookup
rebalance_any_order_example =
    rebalance_any_order one_owner two_groups turned_groups (λ g. ground arith)
