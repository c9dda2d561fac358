-- ===== src/ShardKv/Tests.antt =====
-- Runs of a replica group, src/shardkv/server.go, on small inputs.
use sharded_kv.Prelude.{
  ℕ, Bytes, ltb, ◌⊎◌, ◌+◌, Option, ◌==◌, ◌≡◌, ◌≢◌, refl, true, false, ◌||◌, none, some, List, [],
  ◌∷◌, index, lookup, nat_eq, bytes_eq, bytes_beq, arith, if◌then◌else◌, replicate, set,
}
use sharded_kv.ShardCtrler.Common.{n_shards, Config}
use sharded_kv.ShardKv.Common.{
  key2shard, serving, no_serving, pulling, be_pulled, is_serving, is_pulling, put_value, Op,
  ShardConfirmMsg, CommandMsg, kv_operation, config_operation, shard_request_operation,
}
use sharded_kv.ShardKv.Server.{ShardKv, empty_server, state_of}
use sharded_kv.ShardKv.Apply.{apply_command}
use sharded_kv.Raft.Messages.{ApplyMsg, plain_codec}
use sharded_kv.ShardKv.Server.{Saved}
use sharded_kv.ShardKv.Apply.{persist_data, apply_handler}
use sharded_kv.ShardKv.Snapshots.{install-IsPlaced}
use sharded_kv.ShardKv.Rpc.{ShardRequestArgs, shards_request_handler, pulled}
use sharded_kv.ShardKv.Migration.{handoff, or_else, request_ignores_leader}
use sharded_kv.ShardKv.Sessions.{retry_after_handoff}
use sharded_kv.ShardKv.Placement.{IsPlaced, IsNumbered}
use sharded_kv.ShardKv.Logs.{config_steps, apply_all, AllNumbered, log-IsPlaced, one_group_serves}

-- Group 1 owns every shard in the first configuration, and group 2 shard 7 in the second.
abbrev config_1 : Config
config_1 = record { num = 1; shards = replicate n_shards 1; groups = [] }

abbrev config_2 : Config
config_2 = record { num = 2; shards = set (replicate n_shards 1) 7 2; groups = [] }

abbrev log : List CommandMsg
log = config_operation config_1 ∷ config_operation config_2 ∷ []

config_operation-IsNumbered : (c : Config) → c.num ≢ 0 → IsNumbered (config_operation c)
config_operation-IsNumbered c h new e = λ z. h (ground arith)

log-AllNumbered : AllNumbered log
log-AllNumbered = (
  config_operation-IsNumbered config_1 (λ e. ground arith),
  (config_operation-IsNumbered config_2 (λ e. ground arith), tt),
)

log-IsPlaced_example : IsPlaced (apply_all 1 log (empty_server 2))
log-IsPlaced_example = log-IsPlaced 2 1 log log-AllNumbered

one_group_serves_example :
    (is_serving (state_of (apply_all 1 log (empty_server 1)) 7)
      || is_pulling (state_of (apply_all 1 log (empty_server 1)) 7))
    ≡ false
unfolding apply_command
one_group_serves_example =
    one_group_serves 2 1 1 1 log log 7 log-AllNumbered log-AllNumbered (λ e. ground arith) refl refl

-- The key "a" is in shard 7, and "b" in shard 8.
abbrev source : ShardKv
source = record (empty_server 1) {
  config = config_2;
  prev_config = config_1;
  current_state = (97 ∷ [], 5 ∷ []) ∷ (98 ∷ [], 6 ∷ []) ∷ [];
  client_seq = (4, 3) ∷ [];
  shards_state = set (replicate n_shards serving) 7 be_pulled;
}

abbrev target : ShardKv
target = record (empty_server 2) {
  config = config_2;
  prev_config = config_1;
  shards_state = set (replicate n_shards no_serving) 7 pulling;
}

abbrev request : ShardRequestArgs
request = record { config_num = 2; shard_index = 7; gid = 2 }

abbrev arrival : CommandMsg
arrival = shard_request_operation (record {
  config_num = 2;
  shard_index = 7;
  gid = 2;
  shard_data = (97 ∷ [], 5 ∷ []) ∷ [];
  client_seq_num = (4, 3) ∷ [];
})

arrives : pulled request true (shards_request_handler true request source) target ≡ some arrival
unfolding pulled shards_request_handler key2shard
arrives = refl

abbrev arrived : ShardKv
arrived = (apply_command 9 arrival target).0

handoff_example :
    ((key : Bytes)
      → lookup key arrived.current_state ≡ (
          if key2shard key == 7
          then or_else (lookup key source.current_state) (lookup key target.current_state)
          else lookup key target.current_state))
    × (state_of arrived 7 ≡ serving)
    × ((shard : ℕ) → 7 ≢ shard → state_of arrived shard ≡ state_of target shard)
    × ((client : ℕ)
        → index arrived.client_seq client 0 ≡ (
            if ltb (index target.client_seq client 0) (index source.client_seq client 0)
            then index source.client_seq client 0
            else index target.client_seq client 0))
    × (arrived ≡ record target {
      current_state = arrived.current_state;
      shards_state = arrived.shards_state;
      client_seq = arrived.client_seq;
    })
unfolding lookup bytes_beq
handoff_example =
    handoff true true request source target target arrival 9 (refl, (refl, tt)) (refl, tt) arrives
      refl refl

abbrev retried : Op
retried = record { client_id = 4; seq_num = 3; key = 97 ∷ []; value = 8 ∷ []; optype = put_value }

-- The next configuration comes before the retry.
abbrev later_commands : List CommandMsg
later_commands = config_operation (record config_2 { num = 3 }) ∷ []

retry_after_handoff_example :
    (apply_command 12 (kv_operation retried) (apply_all 10 later_commands arrived)).0.current_state
    ≡ (apply_all 10 later_commands arrived).current_state
unfolding index lookup
retry_after_handoff_example =
    retry_after_handoff true true request source target target arrival 9 12 later_commands retried
      arrives refl refl (omega arith)

abbrev confirmation : ShardConfirmMsg
confirmation = record { config_num = 2; shard_index = 7; shard_state = serving }

request_ignores_leader_example :
    shards_request_handler false request source ≡ shards_request_handler true request source
request_ignores_leader_example = request_ignores_leader false request source

-- A server of group 2 that has applied nothing installs what another has after the log.
abbrev ahead : ShardKv
ahead = apply_all 1 log (empty_server 2)

abbrev offered : ApplyMsg CommandMsg (Option Saved)
offered = record {
  command_valid = false;
  command = none;
  command_index = 0;
  snapshot_valid = true;
  snapshot = persist_data plain_codec ahead;
  snapshot_term = 1;
  snapshot_index = 2;
}

ahead-IsPlaced : IsPlaced ahead
ahead-IsPlaced = log-IsPlaced 2 1 log log-AllNumbered

install-IsPlaced_example :
    (kv' : ShardKv) × (apply_handler plain_codec none 0 true offered (empty_server 2)
      ≡ some (kv', none))
    × IsPlaced kv'
    × (kv'.current_state ≡ ahead.current_state)
    × (kv'.client_seq ≡ ahead.client_seq)
    × (kv'.shards_state ≡ ahead.shards_state)
    × (kv'.config ≡ ahead.config)
    × (kv'.prev_config ≡ ahead.prev_config)
    × (kv'.last_included_index ≡ 2)
unfolding apply_command
install-IsPlaced_example =
    install-IsPlaced plain_codec none 0 offered ahead (empty_server 2) refl refl refl ahead-IsPlaced

config_steps_example :
    let after = (apply_command 3 (config_operation config_2) ahead).0 in
    ((after.config ≡ ahead.config) × (after.prev_config ≡ ahead.prev_config))
    ⊎ ((after.prev_config ≡ ahead.config)
        × ((ahead.config.num ≡ 0) ⊎ (after.config.num ≡ ahead.config.num + 1)))
config_steps_example = config_steps 3 (config_operation config_2) ahead
