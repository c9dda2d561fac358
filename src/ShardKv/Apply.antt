-- ===== src/ShardKv/Apply.antt =====
-- src/shardkv/server.go: the apply loop of a group's server, its snapshots and its start.
-- Raft's answers (`CondInstallSnapshot`, `GetStateSize`) are arguments.
use sharded_kv.Prelude.{
  ℕ, ◌==◌, Bool, ◌||◌, not, Option, none, some, leb, ltb, if◌then◌else◌, index, has, put, nat_eq,
  bytes_eq,
}
use sharded_kv.Raft.Messages.{ApplyMsg, Codec}
use sharded_kv.ShardKv.Common.{
  key2shard, is_serving, CommandMsg, kv_operation, config_operation, shard_request_operation,
  shard_confirm_operation, no_operation, unknown,
}
use sharded_kv.ShardKv.Server.{
  Saved, ShardKv, empty_server, state_of, apply_op, apply_config, apply_shard_request,
  apply_shard_confirm,
}

-- The switch of applyHandler: the state, and the message for the waiting RPC, or `none` where the
-- loop goes on at once (`continue`).
unfoldable pub apply_command : ℕ → CommandMsg → ShardKv → ShardKv × Option CommandMsg
unfolding apply_op apply_config apply_shard_request apply_shard_confirm
apply_command i (kv_operation op) kv =
    if leb i kv.last_included_index || not (is_serving (state_of kv (key2shard op.key)))
    then (kv, none)
    else let (kv', applied) = apply_op op kv in (kv', some (kv_operation applied))
apply_command i (config_operation new) kv =
    if leb i kv.last_included_index
    then (kv, none)
    else (apply_config new kv, some (config_operation new))
apply_command i (shard_request_operation msg) kv =
    if msg.config_num == kv.config.num
    then (apply_shard_request msg kv, some (shard_request_operation msg))
    else (kv, none)
apply_command i (shard_confirm_operation msg) kv =
    if msg.config_num == kv.config.num
    then (apply_shard_confirm msg kv, some (shard_confirm_operation msg))
    else (kv, none)
apply_command i no_operation kv = (kv, none)
apply_command i unknown kv = (kv, some unknown)

-- `case waitChan <- msg`, or the timeout if the buffer stays full.
unfoldable pub deliver : ℕ → CommandMsg → ShardKv → ShardKv
deliver command_index msg kv =
    if has command_index kv.wait_chan
    then elim (index kv.wait_chan command_index none) [
      | none ↦ record kv { wait_chan = put command_index (some msg) kv.wait_chan }
      | some waiting ↦ kv
    ]
    else kv

module _ {Blob : Type 0} (codec : Codec Saved Blob) where
  -- getServerPersistData
  unfoldable pub persist_data : ShardKv → Blob
  persist_data kv = codec.encode (record {
    current_state = kv.current_state;
    client_seq = kv.client_seq;
    shards_state = kv.shards_state;
    config = kv.config;
    prev_config = kv.prev_config;
  })

  -- readServerPersistData
  unfoldable pub read_persist_data : Blob → ShardKv → ShardKv
  read_persist_data blob kv = if codec.is_empty blob then kv else elim (codec.decode blob) [
    | none ↦ kv
    | some saved ↦ record kv {
      current_state = saved.current_state;
      client_seq = saved.client_seq;
      shards_state = saved.shards_state;
      config = saved.config;
      prev_config = saved.prev_config;
    }
  ]

  -- One round of applyHandler: the new state, and the call of rf.Snapshot if there is one.
  -- `installed` is CondInstallSnapshot's answer; `max_raft_state` is `none` for -1. A command that
  -- is no CommandMsg is a panic of the type assertion: `none`.
  unfoldable pub apply_handler :
      Option ℕ
      → ℕ
      → Bool
      → ApplyMsg CommandMsg Blob
      → ShardKv
      → Option (ShardKv × Option (ℕ × Blob))
  unfolding apply_command deliver persist_data read_persist_data
  apply_handler max_raft_state state_size installed msg kv =
      if msg.snapshot_valid
      then (if installed
          then some (
            record (read_persist_data msg.snapshot kv) { last_included_index = msg.snapshot_index },
            none,
          )
          else some (kv, none))
      else elim msg.command [
        | none ↦ none
        | some command ↦ elim (apply_command msg.command_index command kv).1 [
          | none ↦ some ((apply_command msg.command_index command kv).0, none)
          | some reply ↦
              let kv' = (apply_command msg.command_index command kv).0 in
              some (
                deliver msg.command_index reply kv',
                elim max_raft_state [
                  | none ↦ none
                  | some limit ↦
                      if ltb limit state_size
                      then some (msg.command_index, persist_data kv')
                      else none
                ],
              )
        ]
      ]

  -- StartServer, with the snapshot that Raft's persister holds.
  unfoldable pub start_server : ℕ → Blob → ShardKv
  unfolding read_persist_data
  start_server gid snapshot =
      if codec.is_empty snapshot
      then empty_server gid
      else read_persist_data snapshot (empty_server gid)

-- getWaitCh
unfoldable pub get_wait_ch : ℕ → ShardKv → ShardKv
get_wait_ch i kv =
    if has i kv.wait_chan then kv else record kv { wait_chan = put i none kv.wait_chan }
