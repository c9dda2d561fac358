-- ===== src/ShardKv/Rpc.antt =====
-- src/shardkv/server.go: the RPC handlers, and what the background loops send.
-- Raft's answers (`GetState`, `Start`) and what a wait on a channel ends with are arguments.
use sharded_kv.Prelude.{
  ℕ, suc, ◌+◌, ◌==◌, Bool, true, false, ◌&&◌, ◌||◌, not, Option, none, some, ◌⊎◌, inl, inr, List,
  [], ◌∷◌, String, leb, ltb, if◌then◌else◌, get_or, Bytes, GoMap, lookup, delete, nat_eq, bytes_eq,
}
use sharded_kv.ShardCtrler.Common.{Config}
use sharded_kv.ShardCtrler.Rebalance.{get_group_map_copy}
use sharded_kv.ShardKv.Common.{
  key2shard, ShardState, serving, no_serving, is_serving, is_no_serving, is_be_pulled, CommandMsg,
  kv_operation, config_operation, shard_request_operation, shard_confirm_operation, no_operation,
  unknown, Err, empty, ok, err_no_key, err_wrong_group, err_wrong_leader, err_config,
}
use sharded_kv.ShardKv.Server.{ShardKv, state_of}
use sharded_kv.ShardKv.Apply.{get_wait_ch}

pub record ShardRequestArgs : Type 0 where
  pub config_num : ℕ
  pub shard_index : ℕ
  pub gid : ℕ

pub record ShardRequestReply : Type 0 where
  pub err : Err
  pub config_num : ℕ
  pub shard_index : ℕ
  pub shard_data : GoMap Bytes Bytes
  pub client_seq_num : GoMap ℕ ℕ

abbrev pub error_reply : Err → ShardRequestReply
error_reply e = record {
  err = e;
  config_num = 0;
  shard_index = 0;
  shard_data = [];
  client_seq_num = [];
}

-- The loop over kv.currentState that copies the shard.
unfoldable pub shard_data_of : ℕ → GoMap Bytes Bytes → GoMap Bytes Bytes
shard_data_of shard [] = []
shard_data_of shard ((key, value) ∷ rest) =
    let later = shard_data_of shard rest in
    if key2shard key == shard then (key, value) ∷ later else later

-- ShardsRequestHandler. The branch for a server that does not lead sets reply.Err and goes on.
unfoldable pub shards_request_handler : Bool → ShardRequestArgs → ShardKv → ShardRequestReply
unfolding shard_data_of
shards_request_handler leads args kv =
    let reply = if leads then error_reply empty else error_reply err_wrong_leader in
    if not (args.config_num == kv.config.num)
    then record reply { err = err_config }
    else if is_be_pulled (state_of kv args.shard_index)
    then record reply {
      err = ok;
      config_num = args.config_num;
      shard_index = args.shard_index;
      shard_data = shard_data_of args.shard_index kv.current_state;
      client_seq_num = kv.client_seq;
    }
    else record reply { err = err_wrong_group }

pub record ShardConfirmReply : Type 0 where
  pub err : Err
  pub config_num : ℕ
  pub shard_index : ℕ
  pub shard_state : ShardState

-- An error reply; the zero ShardState of such a reply is never read.
abbrev pub confirm_error : Err → ShardConfirmReply
confirm_error e = record { err = e; config_num = 0; shard_index = 0; shard_state = no_serving }

-- ShardsConfirmHandler, with the arguments ConfigNum and ShardIndex.
unfoldable pub shards_confirm_handler : Bool → ℕ → ℕ → ShardKv → ShardConfirmReply
shards_confirm_handler false config_num shard kv = confirm_error err_wrong_leader
shards_confirm_handler true config_num shard kv =
    if ltb kv.config.num config_num
    then confirm_error err_config
    else if (kv.config.num == config_num && is_serving (state_of kv shard))
        || ltb config_num kv.config.num
    then record { err = ok; config_num = kv.config.num; shard_index = shard; shard_state = serving }
    else confirm_error err_wrong_leader

-- The indices of the shards in a state, from `shard` on.
unfoldable pub shards_in : (ShardState → Bool) → ℕ → List ShardState → List ℕ
shards_in test shard [] = []
shards_in test shard (s ∷ rest) =
    let later = shards_in test (suc shard) rest in if test s then shard ∷ later else later

-- What ShardsRequester does for one shard: the servers of its owner in the previous configuration,
-- and the arguments for them; `none` where that owner is no group. The number of the configuration is
-- read after the mutex is given back, in the state `later`.
unfoldable pub pull_from : ShardKv → ShardKv → ℕ → Option (List String × ShardRequestArgs)
pull_from kv later shard =
    elim (lookup (get_or kv.prev_config.shards shard 0)
      (get_group_map_copy kv.prev_config.groups)) [
        | none ↦ none
        | some servers ↦
            some
              (servers, record { config_num = later.config.num; shard_index = shard; gid = kv.gid })
      ]

-- What ShardsConfirm does for one shard: the servers of its owner in the current configuration, and
-- ConfigNum and ShardIndex for them. ConfigNum is read in the state `later`, as above.
unfoldable pub confirm_with : ShardKv → ShardKv → ℕ → Option (List String × ℕ × ℕ)
confirm_with kv later shard =
    elim (lookup (get_or kv.config.shards shard 0) (get_group_map_copy kv.config.groups)) [
      | none ↦ none
      | some servers ↦ some (servers, later.config.num, shard)
    ]

-- ShardsRequester, when a server answers: the command that goes to Raft.
unfoldable pub pulled : ShardRequestArgs → Bool → ShardRequestReply → ShardKv → Option CommandMsg
pulled args delivered reply kv = elim reply.err [
  | ok ↦
      if delivered && reply.config_num == kv.config.num && reply.shard_index == args.shard_index
      then some (
          shard_request_operation (record {
            config_num = args.config_num;
            shard_index = args.shard_index;
            gid = args.gid;
            shard_data = reply.shard_data;
            client_seq_num = reply.client_seq_num;
          }))
      else none
  | empty ↦ none
  | err_no_key ↦ none
  | err_wrong_group ↦ none
  | err_wrong_leader ↦ none
  | err_config ↦ none
]

-- ShardsConfirm, when a server answers.
unfoldable pub confirmed : ℕ → ℕ → Bool → ShardConfirmReply → ShardKv → Option CommandMsg
confirmed config_num shard delivered reply kv = elim reply.err [
  | ok ↦
      if delivered && leb kv.config.num reply.config_num
      then some (
          shard_confirm_operation (record {
            config_num = config_num;
            shard_index = shard;
            shard_state = reply.shard_state;
          }))
      else none
  | empty ↦ none
  | err_no_key ↦ none
  | err_wrong_group ↦ none
  | err_wrong_leader ↦ none
  | err_config ↦ none
]

-- shardsStateReady
unfoldable pub shards_state_ready : List ShardState → Bool
shards_state_ready [] = true
shards_state_ready (s ∷ rest) =
    let later = shards_state_ready rest in
    if not (is_no_serving s) && not (is_serving s) then false else later

-- getLastConfig: with the newest configuration, the number of the one to query next, if the group
-- is to move on.
unfoldable pub wants_config : Bool → Config → ShardKv → Option ℕ
unfolding shards_state_ready
wants_config leads newest kv =
    let ready = shards_state_ready kv.shards_state || kv.config.num == 0 in
    if ltb kv.config.num newest.num && ready && leads then some (kv.config.num + 1) else none

-- RaftLogChecker, for which one value is ever sent on its channel: the command that it starts, at
-- NeedEmptyLogEntry's answer.
unfoldable pub raft_log_checker : Bool → Option CommandMsg
raft_log_checker need_empty_log = if need_empty_log then some no_operation else none

-- isWrongGroup
unfoldable pub is_wrong_group : ℕ → ShardKv → Bool
is_wrong_group shard kv = not (get_or kv.config.shards shard 0 == kv.gid)

-- Get and PutAppend up to their `select`: GetState's answer, Start's index and answer, and the
-- state that the second test of the group reads.
unfoldable pub request_begin : Bool → ℕ × Bool → Bytes → ShardKv → ShardKv → ShardKv × (Err ⊎ ℕ)
unfolding is_wrong_group get_wait_ch
request_begin false started key kv later = (later, inl err_wrong_leader)
request_begin true (i, accepted) key kv later =
    if is_wrong_group (key2shard key) kv
    then (later, inl err_wrong_group)
    else if not accepted
    then (later, inl err_wrong_leader)
    else if is_wrong_group (key2shard key) later
    then (later, inl err_wrong_group)
    else (get_wait_ch i later, inr i)

-- How the `select` ends.
pub data Wake : Type 0 where
  timeout closed : Wake
  received : CommandMsg → Wake

-- Get after its `select`: the error and the value.
unfoldable pub request_finish : ℕ → ℕ → Wake → Err × Bytes
request_finish client seq timeout = (err_wrong_leader, [])
request_finish client seq closed = (err_wrong_leader, [])
request_finish client seq (received msg) = elim msg [
  | kv_operation op ↦
      if op.seq_num == seq && op.client_id == client then (ok, op.value) else (err_wrong_leader, [])
  | config_operation c ↦ (err_wrong_leader, [])
  | shard_request_operation m ↦ (err_wrong_leader, [])
  | shard_confirm_operation m ↦ (err_wrong_leader, [])
  | no_operation ↦ (err_wrong_leader, [])
  | unknown ↦ (err_wrong_leader, [])
]

-- PutAppend after its `select`.
unfoldable pub put_append_finish : ℕ → ℕ → Wake → Err
put_append_finish client seq timeout = err_wrong_leader
put_append_finish client seq closed = err_wrong_leader
put_append_finish client seq (received msg) = elim msg [
  | kv_operation op ↦ if op.seq_num == seq && op.client_id == client then ok else err_wrong_leader
  | config_operation c ↦ err_wrong_leader
  | shard_request_operation m ↦ err_wrong_leader
  | shard_confirm_operation m ↦ err_wrong_leader
  | no_operation ↦ err_wrong_leader
  | unknown ↦ err_wrong_leader
]

-- The goroutine that a handler leaves behind: close(waitCh); delete(kv.waitChan, index).
-- `closed` tells whether another handler that waits on the same channel has closed it already;
-- closing it again is a panic, `none`.
unfoldable pub release : Bool → ℕ → ShardKv → Option ShardKv
release true i kv = none
release false i kv = some (record kv { wait_chan = delete i kv.wait_chan })
