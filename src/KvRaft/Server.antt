-- ===== src/KvRaft/Server.antt =====
-- src/kvraft/server.go: the state machine, the apply loop, the RPC handlers and the snapshots.
-- Raft's answers (`GetState`, `Start`, `CondInstallSnapshot`, `GetStateSize`) are arguments.
use sharded_kv.Prelude.{
  ℕ, Bool, ◌&&◌, Option, none, some, [], ◌++◌, leb, ltb, not, if◌then◌else◌, Bytes, GoMap, index,
  has, put, nat_eq, bytes_eq,
}
use sharded_kv.Raft.Messages.{ApplyMsg, Codec}

-- The strings of `Op.Optype` that the code tests for; any other is `other`.
pub data Optype : Type 0 where
  get put_value append other : Optype

pub record Op : Type 0 where
  pub client_id : ℕ
  pub seq_num : ℕ
  pub key : Bytes
  pub value : Bytes
  pub optype : Optype

-- The zero value, which `op, _ := applyMsg.Command.(Op)` gives where the command is no Op.
abbrev pub zero_op : Op
zero_op = record { client_id = 0; seq_num = 0; key = []; value = []; optype = other }

-- What a snapshot holds.
pub record Saved : Type 0 where
  pub current_state : GoMap Bytes Bytes
  pub client_seq : GoMap ℕ ℕ

-- A channel of capacity 1, by what it buffers.
abbrev pub Channel : Type 0
Channel = Option Op

pub record KvServer : Type 0 where
  pub current_state : GoMap Bytes Bytes
  pub wait_chan : GoMap ℕ Channel
  pub client_seq : GoMap ℕ ℕ
  pub last_included_index : ℕ

abbrev pub empty_server : KvServer
empty_server = record {
  current_state = [];
  wait_chan = [];
  client_seq = [];
  last_included_index = 0;
}

-- The switch of applyToStateMachine.
unfoldable pub execute : Op → GoMap Bytes Bytes → GoMap Bytes Bytes
execute op state = elim op.optype [
  | get ↦ state
  | put_value ↦ put op.key op.value state
  | append ↦ put op.key (index state op.key [] ++ op.value) state
  | other ↦ state
]

unfoldable pub apply_to_state_machine : Op → KvServer → KvServer
unfolding execute
apply_to_state_machine op kv = record kv {
  client_seq = put op.client_id op.seq_num kv.client_seq;
  current_state = execute op kv.current_state;
}

-- `if appliedOp.Optype == "Get" { appliedOp.Value = kv.currentState[appliedOp.Key] }`
unfoldable pub answer : Op → KvServer → Op
answer op kv = elim op.optype [
  | get ↦ record op { value = index kv.current_state op.key [] }
  | put_value ↦ op
  | append ↦ op
  | other ↦ op
]

unfoldable pub open_session : ℕ → KvServer → KvServer
open_session client kv =
    if has client kv.client_seq then kv else record kv { client_seq = put client 0 kv.client_seq }

-- The duplicate test of applyHandler, and what follows from it.
unfoldable pub apply_op : Op → KvServer → KvServer × Op
unfolding apply_to_state_machine answer open_session
apply_op op kv =
    let kv1 = open_session op.client_id kv in
    let applied = answer op kv1 in
    if leb op.seq_num (index kv1.client_seq op.client_id 0)
    then (kv1, applied)
    else (apply_to_state_machine applied kv1, applied)

-- `case waitChan <- appliedOp`, or the timeout if the buffer stays full.
unfoldable pub deliver : ℕ → Op → KvServer → KvServer
deliver command_index op kv =
    if has command_index kv.wait_chan
    then elim (index kv.wait_chan command_index none) [
      | none ↦ record kv { wait_chan = put command_index (some op) kv.wait_chan }
      | some waiting ↦ kv
    ]
    else kv

-- The command branch of applyHandler; a command that a snapshot covers is skipped.
unfoldable pub apply_command : ℕ → Op → KvServer → KvServer
unfolding apply_op deliver
apply_command command_index op kv =
    if leb command_index kv.last_included_index
    then kv
    else let (kv', applied) = apply_op op kv in deliver command_index applied kv'

module _ {Blob : Type 0} (codec : Codec Saved Blob) where
  -- getServerPersistData
  unfoldable pub persist_data : KvServer → Blob
  persist_data kv =
      codec.encode (record { current_state = kv.current_state; client_seq = kv.client_seq })

  -- readServerPersistData
  unfoldable pub read_persist_data : Blob → KvServer → KvServer
  read_persist_data blob kv = if codec.is_empty blob then kv else elim (codec.decode blob) [
    | none ↦ kv
    | some saved ↦ record kv { current_state = saved.current_state; client_seq = saved.client_seq }
  ]

  -- The snapshot branch of applyHandler; `installed` is CondInstallSnapshot's answer.
  unfoldable pub apply_snapshot : Bool → ApplyMsg Op Blob → KvServer → KvServer
  unfolding read_persist_data
  apply_snapshot installed msg kv =
      if installed
      then record (read_persist_data msg.snapshot kv) { last_included_index = msg.snapshot_index }
      else kv

  -- `kv.rf.Snapshot(applyMsg.CommandIndex, snapshotData)`, where the log has grown too big; `none`
  -- as `max_raft_state` is -1.
  unfoldable pub take_snapshot : Option ℕ → ℕ → ℕ → KvServer → Option (ℕ × Blob)
  unfolding persist_data
  take_snapshot none state_size command_index kv = none
  take_snapshot (some max_raft_state) state_size command_index kv =
      if ltb max_raft_state state_size then some (command_index, persist_data kv) else none

  -- One round of applyHandler: the new state, and the call of rf.Snapshot if there is one.
  unfoldable pub apply_handler :
      Option ℕ → ℕ → Bool → ApplyMsg Op Blob → KvServer → KvServer × Option (ℕ × Blob)
  unfolding apply_snapshot take_snapshot apply_command
  apply_handler max_raft_state state_size installed msg kv =
      if not msg.command_valid && msg.snapshot_valid
      then (apply_snapshot installed msg kv, none)
      else let op : Op = elim msg.command [ none ↦ zero_op | some op ↦ op ] in
        if leb msg.command_index kv.last_included_index then (kv, none) else (
          apply_command msg.command_index op kv,
          take_snapshot max_raft_state state_size msg.command_index (apply_op op kv).0,
        )

  -- StartKVServer, with the snapshot that Raft's persister holds.
  unfoldable pub start_kv_server : Blob → KvServer
  unfolding read_persist_data
  start_kv_server snapshot =
      if codec.is_empty snapshot then empty_server else read_persist_data snapshot empty_server

-- getWaitCh
unfoldable pub get_wait_ch : ℕ → KvServer → KvServer
get_wait_ch i kv =
    if has i kv.wait_chan then kv else record kv { wait_chan = put i none kv.wait_chan }
