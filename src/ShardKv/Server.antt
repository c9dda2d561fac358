-- ===== src/ShardKv/Server.antt =====
-- src/shardkv/server.go: the state of a group's server, and what one command does to it.
use sharded_kv.Prelude.{
  ℕ, suc, ◌+◌, ◌==◌, ◌&&◌, ◌||◌, not, Option, List, [], ◌∷◌, ◌++◌, leb, ltb, if◌then◌else◌,
  replicate, get_or, set, Bytes, GoMap, keys, index, has, put, delete, nat_eq, bytes_eq,
}
use sharded_kv.ShardCtrler.Common.{n_shards, Config, zero_config}
use sharded_kv.ShardKv.Common.{
  key2shard, ShardState, serving, no_serving, pulling, be_pulled, is_pulling, is_be_pulled, get,
  put_value, append, other, Op, ShardRequestMsg, ShardConfirmMsg, CommandMsg,
}

-- A channel of capacity 1, by what it buffers.
abbrev pub Channel : Type 0
Channel = Option CommandMsg

-- What a snapshot holds.
pub record Saved : Type 0 where
  pub current_state : GoMap Bytes Bytes
  pub client_seq : GoMap ℕ ℕ
  pub shards_state : List ShardState
  pub config : Config
  pub prev_config : Config

pub record ShardKv : Type 0 where
  pub gid : ℕ
  pub current_state : GoMap Bytes Bytes
  pub wait_chan : GoMap ℕ Channel
  pub client_seq : GoMap ℕ ℕ
  pub last_included_index : ℕ
  pub config : Config
  pub prev_config : Config
  pub shards_state : List ShardState

-- StartServer, before a snapshot is read
abbrev pub empty_server : ℕ → ShardKv
empty_server gid = record {
  gid = gid;
  current_state = [];
  wait_chan = [];
  client_seq = [];
  last_included_index = 0;
  config = zero_config;
  prev_config = zero_config;
  shards_state = replicate n_shards no_serving;
}

abbrev pub state_of : ShardKv → ℕ → ShardState
state_of kv shard = get_or kv.shards_state shard no_serving

-- mergeShardData, its loop
unfoldable pub merge_data : GoMap Bytes Bytes → GoMap Bytes Bytes → GoMap Bytes Bytes
merge_data [] state = state
merge_data ((key, value) ∷ rest) state = merge_data rest (put key value state)

unfoldable pub merge_shard_data : ℕ → GoMap Bytes Bytes → ShardKv → ShardKv
unfolding merge_data
merge_shard_data shard shard_data kv = record kv {
  current_state = merge_data shard_data kv.current_state;
  shards_state = set kv.shards_state shard serving;
}

-- mergeClientSeqNum
unfoldable pub merge_seq : GoMap ℕ ℕ → GoMap ℕ ℕ → GoMap ℕ ℕ
merge_seq [] seq = seq
merge_seq ((client, n) ∷ rest) seq =
    merge_seq rest (if ltb (index seq client 0) n then put client n seq else seq)

unfoldable pub merge_client_seq_num : GoMap ℕ ℕ → ShardKv → ShardKv
unfolding merge_seq
merge_client_seq_num client_seq_num kv = record kv {
  client_seq = merge_seq client_seq_num kv.client_seq;
}

-- The body of the loops of updateShardsState.
unfoldable pub next_shard_state : ℕ → Config → Config → ℕ → ShardState → ShardState
next_shard_state gid prev config shard old =
    let was = get_or prev.shards shard 0 == gid in
    let is = get_or config.shards shard 0 == gid in
    if prev.num == 0
    then (if is then serving else old)
    else if was && is
    then serving
    else if not was && is
    then pulling
    else if was && not is
    then be_pulled
    else no_serving

unfoldable pub next_shard_states : ℕ → Config → Config → ℕ → List ShardState → List ShardState
unfolding next_shard_state
next_shard_states gid prev config shard [] = []
next_shard_states gid prev config shard (old ∷ rest) =
    next_shard_state gid prev config shard old ∷ next_shard_states gid prev config (suc shard) rest

unfoldable pub update_shards_state : ShardKv → ShardKv
unfolding next_shard_states
update_shards_state kv = record kv {
  shards_state = next_shard_states kv.gid kv.prev_config kv.config 0 kv.shards_state;
}

-- The switch of applyToStateMachine.
unfoldable pub execute : Op → GoMap Bytes Bytes → GoMap Bytes Bytes
execute op state = elim op.optype [
  | get ↦ state
  | put_value ↦ put op.key op.value state
  | append ↦ put op.key (index state op.key [] ++ op.value) state
  | other ↦ state
]

unfoldable pub apply_to_state_machine : Op → ShardKv → ShardKv
unfolding execute
apply_to_state_machine op kv = record kv {
  client_seq = put op.client_id op.seq_num kv.client_seq;
  current_state = execute op kv.current_state;
}

unfoldable pub answer : Op → ShardKv → Op
answer op kv = elim op.optype [
  | get ↦ record op { value = index kv.current_state op.key [] }
  | put_value ↦ op
  | append ↦ op
  | other ↦ op
]

unfoldable pub open_session : ℕ → ShardKv → ShardKv
open_session client kv =
    if has client kv.client_seq then kv else record kv { client_seq = put client 0 kv.client_seq }

-- The KVOperation case, for a shard that is served.
unfoldable pub apply_op : Op → ShardKv → ShardKv × Op
unfolding apply_to_state_machine answer open_session
apply_op op kv =
    let kv1 = open_session op.client_id kv in
    let applied = answer op kv1 in
    if leb op.seq_num (index kv1.client_seq op.client_id 0)
    then (kv1, applied)
    else (apply_to_state_machine applied kv1, applied)

-- The ConfigOperation case: the next configuration, or any if there is none yet.
unfoldable pub apply_config : Config → ShardKv → ShardKv
unfolding update_shards_state
apply_config new kv =
    if kv.config.num == 0 || new.num == kv.config.num + 1
    then update_shards_state (record kv { prev_config = kv.config; config = new })
    else kv

-- The ShardRequestOperation case, in the right configuration.
unfoldable pub apply_shard_request : ShardRequestMsg → ShardKv → ShardKv
unfolding merge_shard_data merge_client_seq_num
apply_shard_request msg kv =
    if is_pulling (state_of kv msg.shard_index)
    then merge_client_seq_num msg.client_seq_num
        (merge_shard_data msg.shard_index msg.shard_data kv)
    else kv

-- for key, _ := range kv.currentState: the keys of the shard are deleted.
unfoldable pub delete_shard : List Bytes → ℕ → GoMap Bytes Bytes → GoMap Bytes Bytes
delete_shard [] shard state = state
delete_shard (key ∷ rest) shard state =
    delete_shard rest shard (if key2shard key == shard then delete key state else state)

-- The ShardConfirmOperation case, in the right configuration.
unfoldable pub apply_shard_confirm : ShardConfirmMsg → ShardKv → ShardKv
unfolding delete_shard
apply_shard_confirm msg kv =
    if is_be_pulled (state_of kv msg.shard_index)
    then record kv {
      shards_state = set kv.shards_state msg.shard_index no_serving;
      current_state = delete_shard (keys kv.current_state) msg.shard_index kv.current_state;
    }
    else kv
