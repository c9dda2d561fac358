-- ===== src/ShardCtrler/Server.antt =====
-- src/shardctrler/server.go: the replicated state of the controller, its apply loop and its RPC.
-- Raft's answers (`GetState`, `Start`) and what a wait on a channel ends with are arguments here.
mod Configs
pub mod Asked
pub mod Fairness
pub mod History
pub mod Operations
pub mod Sessions
use sharded_kv.Prelude.{
  ℕ, zero, suc, ◌+◌, ◌-◌, ◌==◌, Bool, true, false, ◌&&◌, ◌||◌, Option, none, some, ◌⊎◌, inl, inr,
  List, [], ◌∷◌, ◌++◌, leb, ltb, if◌then◌else◌, length, get_elem?, set, GoMap, index, has, put,
  delete, nat_eq, ℤ, pos, negsuc,
}
use sharded_kv.ShardCtrler.Common.{
  n_shards, Groups, Config, zero_config, Op, join_args_type, leave_args_type, move_args_type,
  query_args_type,
}
use sharded_kv.ShardCtrler.Rebalance.{get_group_map_copy, get_gid_to_shards_map, rebalance}

-- A channel of capacity 1, by what it buffers.
abbrev pub Channel : Type 0
Channel = Option Op

pub record ShardCtrler : Type 0 where
  pub configs : List Config  -- indexed by config num
  pub wait_chan : GoMap ℕ Channel
  pub client_seq : GoMap ℕ ℕ

-- StartServer
abbrev pub start_server : ShardCtrler
start_server = record { configs = zero_config ∷ []; wait_chan = []; client_seq = [] }

-- sc.configs[len(sc.configs)-1]; `none` is the panic at an empty history.
unfoldable pub last_config : List Config → Option Config
last_config configs = get_elem? configs (length configs - 1)

-- The range over copyNewServer.
unfoldable pub join_groups : Groups → Groups → Groups
join_groups copy_map [] = copy_map
join_groups copy_map ((gid, values) ∷ rest) =
    join_groups (put gid values (if has gid copy_map then delete gid copy_map else copy_map)) rest

-- The range over appliedOp.GIDs.
unfoldable pub leave_groups : Groups → List ℕ → Groups
leave_groups copy_map [] = copy_map
leave_groups copy_map (gid ∷ rest) = leave_groups (delete gid copy_map) rest

-- The end of the Join and Leave cases: the next configuration, over the groups `copy_map`.
unfoldable pub rebalanced : Config → Groups → Option Config
rebalanced old copy_map = elim (rebalance (get_gid_to_shards_map old.shards copy_map) old.shards) [
  | none ↦ none
  | some (new_shards, moved) ↦
      some (record { num = old.num + 1; shards = new_shards; groups = copy_map })
]

-- `none` is the panic at an index out of range.
unfoldable pub moved_config : Config → Op → Option Config
moved_config old op =
    if ltb op.shard n_shards
    then some
        (record { num = old.num + 1; shards = set old.shards op.shard op.gid; groups = old.groups })
    else none

abbrev pub appended : Option Config → Option (Option Config)
appended none = none
appended (some c) = some (some c)

-- What an operation appends to the history: `none` is a panic, `some none` nothing.
unfoldable pub next_config : Config → Op → Option (Option Config)
unfolding join_groups leave_groups rebalanced moved_config
next_config old op =
    if op.args_type == join_args_type
    then appended (
        rebalanced old
          (join_groups (get_group_map_copy old.groups) (get_group_map_copy op.servers)))
    else if op.args_type == leave_args_type
    then appended (rebalanced old (leave_groups (get_group_map_copy old.groups) op.gids))
    else if op.args_type == move_args_type
    then appended (moved_config old op)
    else some none

unfoldable pub apply_to_state_machine : Op → ShardCtrler → Option ShardCtrler
unfolding last_config next_config
apply_to_state_machine op sc = elim (last_config sc.configs) [
  | none ↦ none
  | some old ↦ elim (next_config old op) [
    | none ↦ none
    | some none ↦ some sc
    | some (some c) ↦ some (record sc { configs = sc.configs ++ c ∷ [] })
  ]
]

-- `case waitChan <- appliedOp`, or the timeout if the buffer stays full.
unfoldable pub deliver : ℕ → Op → ShardCtrler → ShardCtrler
deliver command_index op sc =
    if has command_index sc.wait_chan
    then elim (index sc.wait_chan command_index none) [
      | none ↦ record sc { wait_chan = put command_index (some op) sc.wait_chan }
      | some waiting ↦ sc
    ]
    else sc

-- The session of a client that is not known yet.
unfoldable pub open_session : ℕ → ShardCtrler → ShardCtrler
open_session client sc =
    if has client sc.client_seq then sc else record sc { client_seq = put client 0 sc.client_seq }

-- One round of applyHandler, at a message from Raft.
unfoldable pub apply_handler : Bool → ℕ → Op → ShardCtrler → Option ShardCtrler
unfolding apply_to_state_machine deliver open_session
apply_handler false command_index op sc = some sc
apply_handler true command_index op sc =
    let sc1 = open_session op.client_id sc in
    elim (leb op.seq_num (index sc1.client_seq op.client_id 0)) [
      | true ↦ some (deliver command_index op sc1)
      | false ↦ elim (apply_to_state_machine op sc1) [
        | none ↦ none
        | some sc2 ↦ some (deliver command_index op sc2)
      ]
    ]

-- getConfig; `none` is the panic at an index below -1.
unfoldable pub get_config : ℤ → ShardCtrler → Option Config
unfolding last_config
get_config (negsuc zero) sc = last_config sc.configs
get_config (negsuc (suc n)) sc = none
get_config (pos i) sc =
    if leb (length sc.configs) i then last_config sc.configs else get_elem? sc.configs i

-- getWaitCh
unfoldable pub get_wait_ch : ℕ → ShardCtrler → ShardCtrler
get_wait_ch i sc =
    if has i sc.wait_chan then sc else record sc { wait_chan = put i none sc.wait_chan }

pub data Err : Type 0 where
  empty ok err_wrong_leader : Err

pub record CommandReply : Type 0 where
  pub wrong_leader : Bool
  pub err : Err
  pub config : Config

abbrev pub wrong_leader_reply : CommandReply
wrong_leader_reply = record { wrong_leader = true; err = err_wrong_leader; config = zero_config }

-- How the `select` of RequestHandler ends.
pub data Wake : Type 0 where
  timeout closed : Wake
  received : Op → Wake

-- RequestHandler up to its `select`: `leader` is GetState's answer, `started` is Start's, with the
-- index; the answer is the reply, or the index to wait at.
unfoldable pub request_begin : Bool → ℕ × Bool → ShardCtrler → ShardCtrler × (CommandReply ⊎ ℕ)
unfolding get_wait_ch
request_begin false started sc = (sc, inl wrong_leader_reply)
request_begin true (i, false) sc = (sc, inl wrong_leader_reply)
request_begin true (i, true) sc = (get_wait_ch i sc, inr i)

-- RequestHandler after its `select`; `none` is a panic in getConfig.
unfoldable pub request_finish : Op → Wake → ShardCtrler → Option CommandReply
unfolding get_config
request_finish args timeout sc = some wrong_leader_reply
request_finish args closed sc = some wrong_leader_reply
request_finish args (received op) sc =
    if op.seq_num == args.seq_num && op.client_id == args.client_id
    then (if op.args_type == query_args_type
        then elim (get_config args.num sc) [
          | none ↦ none
          | some c ↦ some (record {
            wrong_leader = false;
            err = ok;
            config = record {
              num = c.num;
              shards = c.shards;
              groups = get_group_map_copy c.groups;
            };
          })
        ]
        else some (record { wrong_leader = false; err = ok; config = zero_config }))
    else some wrong_leader_reply

-- The goroutine that RequestHandler leaves behind: close(waitCh); delete(sc.waitChan, index).
-- `closed` tells whether another handler that waits on the same channel has closed it already;
-- closing it again is a panic, `none`.
unfoldable pub release : Bool → ℕ → ShardCtrler → Option ShardCtrler
release true i sc = none
release false i sc = some (record sc { wait_chan = delete i sc.wait_chan })
