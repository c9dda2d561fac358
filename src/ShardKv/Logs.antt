-- ===== src/ShardKv/Logs.antt =====
-- src/shardkv/server.go: the states of the shards after a whole log, in one group and in two.
use sharded_kv.Prelude.{
  ◌⊎◌, ◌+◌, ℕ, zero, suc, ◌≡◌, refl, sym, ap, ◌∙◌, inl, inr, Bool, true, false, ◌||◌, List, [], ◌∷◌,
  get_or, replicate, ◌≢◌, arith, nat_eq, bytes_eq, Bool-cases, ==_iff,
}
use sharded_kv.ShardKv.Common.{ShardState, no_serving, is_serving, is_pulling, CommandMsg}
use sharded_kv.ShardKv.Server.{
  ShardKv, empty_server, state_of, update_shards_state, apply_config, merge_shard_data,
  merge_client_seq_num, apply_to_state_machine, open_session, apply_op, apply_shard_request,
  apply_shard_confirm,
}
use sharded_kv.ShardKv.Apply.{apply_command}
use sharded_kv.ShardKv.Placement.{fits, owns, IsPlaced, IsNumbered, apply_command-IsPlaced}

-- The commands of a log, applied in turn, with the index of the first.
abbrev pub apply_all : ℕ → List CommandMsg → ShardKv → ShardKv
apply_all i [] kv = kv
apply_all i (command ∷ rest) kv = apply_all (suc i) rest (apply_command i command kv).0

abbrev pub AllNumbered : List CommandMsg → Type 0
AllNumbered [] = Unit {0}
AllNumbered (command ∷ rest) = IsNumbered command × AllNumbered rest

apply_all-IsPlaced :
    (i : ℕ) (log : List CommandMsg) (kv : ShardKv)
    → AllNumbered log
    → IsPlaced kv
    → IsPlaced (apply_all i log kv)
apply_all-IsPlaced i [] kv n p = p
apply_all-IsPlaced i (command ∷ rest) kv n p =
    apply_all-IsPlaced (suc i) rest (apply_command i command kv).0 n.1
      (apply_command-IsPlaced i command kv n.0 p)

all_no_serving : (n shard : ℕ) → get_or (replicate n no_serving) shard no_serving ≡ no_serving
all_no_serving zero shard = refl
all_no_serving (suc n) zero = refl
all_no_serving (suc n) (suc shard) = all_no_serving n shard

empty_server-IsPlaced : (gid : ℕ) → IsPlaced (empty_server gid)
empty_server-IsPlaced gid =
    ((λ shard. rw (all_no_serving 10 shard) refl), λ z shard. all_no_serving 10 shard)

-- A group has only what its configurations give it. A server that starts empty and applies any log
-- whose configurations have numbers other than 0 is in a state where a shard that it serves or
-- pulls is its own in the current configuration, a shard that it pulls was not its own in the
-- previous one, and a shard that waits to be pulled was its own then and is not now.
pub log-IsPlaced :
    (gid : ℕ) (i : ℕ) (log : List CommandMsg)
    → AllNumbered log
    → IsPlaced (apply_all i log (empty_server gid))
log-IsPlaced gid i log n = apply_all-IsPlaced i log (empty_server gid) n (empty_server-IsPlaced gid)

active_owns :
    (s : ShardState) (now before : Bool)
    → fits s now before ≡ true
    → (is_serving s || is_pulling s) ≡ true
    → now ≡ true
active_owns s now before = ground arith

apply_command_gid :
    (i : ℕ) (command : CommandMsg) (kv : ShardKv) → (apply_command i command kv).0.gid ≡ kv.gid
unfolding apply_command apply_op apply_to_state_machine open_session apply_config
    update_shards_state apply_shard_request merge_shard_data merge_client_seq_num
    apply_shard_confirm
apply_command_gid i command kv = ground arith

apply_all_gid : (i : ℕ) (log : List CommandMsg) (kv : ShardKv) → (apply_all i log kv).gid ≡ kv.gid
apply_all_gid i [] kv = refl
apply_all_gid i (command ∷ rest) kv =
    apply_all_gid (suc i) rest (apply_command i command kv).0 ∙ apply_command_gid i command kv

owner_of_active :
    (gid i : ℕ) (log : List CommandMsg) (shard : ℕ)
    → AllNumbered log
    → (is_serving (state_of (apply_all i log (empty_server gid)) shard)
        || is_pulling (state_of (apply_all i log (empty_server gid)) shard))
      ≡ true
    → get_or (apply_all i log (empty_server gid)).config.shards shard 0 ≡ gid
owner_of_active gid i log shard n active =
    let kv = apply_all i log (empty_server gid) in
    (==_iff (get_or kv.config.shards shard 0) kv.gid).0 (
      active_owns (state_of kv shard) (owns kv.config kv shard) (owns kv.prev_config kv shard)
        ((log-IsPlaced gid i log n).0 shard) active)
    ∙ apply_all_gid i log (empty_server gid)

-- No two groups serve one shard. Take servers of two different groups that start empty and apply
-- their logs, whose configurations have numbers other than 0, until both are in the same
-- configuration: if one serves or pulls a shard, then the other neither serves nor pulls it.
pub one_group_serves :
    (g h i j : ℕ) (log others : List CommandMsg) (shard : ℕ)
    → AllNumbered log
    → AllNumbered others
    → g ≢ h
    → (apply_all i log (empty_server g)).config ≡ (apply_all j others (empty_server h)).config
    → (is_serving (state_of (apply_all i log (empty_server g)) shard)
        || is_pulling (state_of (apply_all i log (empty_server g)) shard))
      ≡ true
    → (is_serving (state_of (apply_all j others (empty_server h)) shard)
        || is_pulling (state_of (apply_all j others (empty_server h)) shard))
      ≡ false
one_group_serves g h i j log others shard n m differ same active =
    elim (Bool-cases (
      is_serving (state_of (apply_all j others (empty_server h)) shard)
      || is_pulling (state_of (apply_all j others (empty_server h)) shard))) [
        | inr idle ↦ idle
        | inl both ↦ absurd (
            differ (
              sym (owner_of_active g i log shard n active)
              ∙ ap (λ config. get_or config.shards shard 0) same
              ∙ owner_of_active h j others shard m both))
      ]

-- A group that has left configuration 0 skips no configuration. Whatever command is applied at
-- whatever index, either the current and the previous configuration stay as they are, or the
-- current one becomes the previous one, and the new one has the next number, unless the group had
-- configuration 0, from which it may go to any number.
pub config_steps :
    (i : ℕ) (command : CommandMsg) (kv : ShardKv)
    → let after = (apply_command i command kv).0 in
      ((after.config ≡ kv.config) × (after.prev_config ≡ kv.prev_config))
      ⊎ ((after.prev_config ≡ kv.config)
          × ((kv.config.num ≡ 0) ⊎ (after.config.num ≡ kv.config.num + 1)))
unfolding apply_command apply_op apply_to_state_machine open_session apply_config
    update_shards_state apply_shard_request merge_shard_data merge_client_seq_num
    apply_shard_confirm
config_steps i command kv = ground arith
