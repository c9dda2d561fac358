-- ===== src/ShardKv/Clerk.antt =====
-- src/shardkv/client.go: the clerk, which asks the controller's clerk for configurations. Its loops
-- run on the answers of the calls that they make; `none` is a loop that has not returned when there
-- are no more answers. A server is called by its name, of which make_end makes the end to call.
pub mod Owners
pub mod Calls
pub mod Tests
use sharded_kv.Prelude.{
  ℕ, zero, ◌+◌, Bool, true, false, ◌||◌, Option, none, some, List, [], ◌∷◌, ◌++◌, String,
  if◌then◌else◌, called, get_or, index, has, Bytes, negsuc, nat_eq,
}
use sharded_kv.ShardCtrler.Common.{Config}
use sharded_kv.ShardCtrler.Server.{CommandReply}
use sharded_kv.ShardCtrler.Clerk.{Turn, query}
use sharded_kv.ShardKv.Common.{
  key2shard, Optype, Err, empty, ok, err_no_key, err_wrong_group, err_wrong_leader, err_config,
}

pub record Clerk : Type 0 where
  pub sm : sharded_kv.ShardCtrler.Clerk.Clerk
  pub config : Config
  pub client_id : ℕ
  pub seq_num : ℕ

-- MakeClerk, with the numbers that nrand gives and the answers to its Query(-1); `none` if that
-- query does not return.
unfoldable pub make_clerk : ℕ → ℕ → ℕ → List (Turn CommandReply) → Option Clerk
unfolding query
make_clerk ctrlers ctrl_nrand nrand turns =
    elim (query (negsuc zero) turns
      (sharded_kv.ShardCtrler.Clerk.make_clerk ctrlers ctrl_nrand)).1 [
        | none ↦ none
        | some (sm, config) ↦
            some (record { sm = sm; config = config; client_id = nrand; seq_num = 1 })
      ]

pub record GetArgs : Type 0 where
  pub key : Bytes
  pub client_id : ℕ
  pub seq_num : ℕ

pub record GetReply : Type 0 where
  pub err : Err
  pub value : Bytes

pub record PutAppendArgs : Type 0 where
  pub key : Bytes
  pub value : Bytes
  pub op : Optype
  pub client_id : ℕ
  pub seq_num : ℕ

-- What the loop over the servers does after a reply.
pub data After (R : Type 0) : Type 0 where
  returns : R → After R
  break go_on : After R

abbrev pub after_get : GetReply → After Bytes
after_get reply = elim reply.err [
  | ok ↦ returns reply.value
  | err_no_key ↦ returns reply.value
  | err_wrong_group ↦ break
  | empty ↦ go_on
  | err_wrong_leader ↦ go_on
  | err_config ↦ go_on
]

abbrev pub after_put_append : Err → After Unit
after_put_append ok = returns tt
after_put_append err_wrong_group = break
after_put_append empty = go_on
after_put_append err_no_key = go_on
after_put_append err_wrong_leader = go_on
after_put_append err_config = go_on

-- How the loop over the servers ends: with the call's result, at a `break` or the last server, or
-- not at all.
pub data Tried (R : Type 0) : Type 0 where
  done : R → Tried R
  left waiting : Tried R

-- The loop over the servers of a group.
unfoldable pub try_servers :
    {Reply R Args : Type 0}
    → (Reply → After R)
    → Args
    → List String
    → List (Turn Reply)
    → List (String × Args) × Tried R
try_servers after args [] turns = ([], left)
try_servers after args (srv ∷ servers) [] = ([], waiting)
try_servers after args (srv ∷ servers) (t ∷ ts) =
    let rest = try_servers after args servers ts in
    if t.through
    then elim (after t.reply) [
      | returns r ↦ ((srv, args) ∷ [], done r)
      | break ↦ ((srv, args) ∷ [], left)
      | go_on ↦ called srv args rest
    ]
    else called srv args rest

-- One round of the outer loop: the answers of the group's servers, and those of the controllers.
pub record Round (Reply : Type 0) : Type 0 where
  pub turns : List (Turn Reply)
  pub ctrl_turns : List (Turn CommandReply)

-- ck.config.Groups[ck.config.Shards[key2shard(key)]]; `none` if there is no such group.
unfoldable pub owners : Bytes → Config → Option (List String)
unfolding has index key2shard
owners key config =
    let gid = get_or config.shards (key2shard key) 0 in
    if has gid config.groups then some (index config.groups gid []) else none

-- What the outer loop tries in a round.
unfoldable pub try_owners :
    {Reply R Args : Type 0}
    → (Reply → After R)
    → Args
    → Bytes
    → List (Turn Reply)
    → Clerk
    → List (String × Args) × Tried R
unfolding owners try_servers
try_owners after args key turns ck = elim (owners key ck.config) [
  | none ↦ ([], left)
  | some servers ↦ try_servers after args servers turns
]

abbrev pub and_called : {Call Result : Type 0} → List Call → List Call × Result → List Call × Result
and_called first (later, result) = (first ++ later, result)

-- The outer loop, which the key's value for Get, and nothing for PutAppend, leaves.
unfoldable pub call_loop :
    {Reply R Args : Type 0}
    → (Reply → After R)
    → Args
    → Bytes
    → List (Round Reply)
    → Clerk
    → List (String × Args) × Option (Clerk × R)
unfolding try_owners query
call_loop after args key [] ck = ([], none)
call_loop after args key (round ∷ rounds) ck =
    let (calls, tried) = try_owners after args key round.turns ck in
    elim tried [
      | done r ↦ (calls, some (record ck { seq_num = ck.seq_num + 1 }, r))
      | waiting ↦ (calls, none)
      | left ↦ elim (query (negsuc zero) round.ctrl_turns ck.sm).1 [
        | none ↦ (calls, none)
        | some (sm, config) ↦
            and_called calls
              (call_loop after args key rounds (record ck { sm = sm; config = config }))
      ]
    ]

abbrev pub get_args : Bytes → Clerk → GetArgs
get_args key ck = record { key = key; client_id = ck.client_id; seq_num = ck.seq_num }

abbrev pub put_append_args : Bytes → Bytes → Optype → Clerk → PutAppendArgs
put_append_args key value op ck = record {
  key = key;
  value = value;
  op = op;
  client_id = ck.client_id;
  seq_num = ck.seq_num;
}

-- Get and PutAppend; Put and Append are PutAppend with their name as `op`.
unfoldable pub get :
    Bytes → List (Round GetReply) → Clerk → List (String × GetArgs) × Option (Clerk × Bytes)
unfolding call_loop
get key rounds ck = call_loop after_get (get_args key ck) key rounds ck

unfoldable pub put_append :
    Bytes
    → Bytes
    → Optype
    → List (Round Err)
    → Clerk
    → List (String × PutAppendArgs) × Option {0} (Clerk × Unit)
unfolding call_loop
put_append key value op rounds ck =
    call_loop after_put_append (put_append_args key value op ck) key rounds ck
