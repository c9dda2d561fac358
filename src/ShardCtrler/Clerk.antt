-- ===== src/ShardCtrler/Clerk.antt =====
-- src/shardctrler/client.go: the clerk. Its loop runs on the answers of the calls that it makes, in
-- order; `none` is a loop that has not returned when there are no more answers.
pub mod Answers
pub mod Tests
use sharded_kv.Prelude.{
  ℕ, zero, ◌+◌, ◌==◌, Bool, true, false, ◌&&◌, not, Option, none, some, List, [], ◌∷◌,
  if◌then◌else◌, called, ℤ, pos,
}
use sharded_kv.ShardCtrler.Common.{
  Groups, Config, Op, join_args_type, leave_args_type, move_args_type, query_args_type,
}
use sharded_kv.ShardCtrler.Server.{CommandReply}

-- `servers` is len(ck.servers), and `leader_id` is `none` for -1.
pub record Clerk : Type 0 where
  pub servers : ℕ
  pub client_id : ℕ
  pub seq_num : ℕ
  pub leader_id : Option ℕ

-- MakeClerk, with the number that nrand gives.
abbrev pub make_clerk : ℕ → ℕ → Clerk
make_clerk servers nrand = record {
  servers = servers;
  client_id = nrand;
  seq_num = 1;
  leader_id = none;
}

-- One call: whether it gets through, and the reply.
pub record Turn (Reply : Type 0) : Type 0 where
  pub through : Bool
  pub reply : Reply

-- The range over ck.servers, which the loop around it begins again.
abbrev pub next_server : ℕ → Clerk → ℕ
next_server server ck = if server + 1 == ck.servers then 0 else server + 1

abbrev pub is_answer : Turn CommandReply → Bool
is_answer t = t.through && not t.reply.wrong_leader

unfoldable pub request_from :
    ℕ → Op → List (Turn CommandReply) → Clerk → List (ℕ × Op) × Option (Clerk × CommandReply)
request_from server args [] ck = ([], none)
request_from server args (t ∷ ts) ck =
    let retry = request_from (next_server server ck) args ts ck in
    if is_answer t
    then ((server, args) ∷ [], some (record ck { seq_num = ck.seq_num + 1 }, t.reply))
    else called server args retry

-- Request. With no servers it calls nobody and does not return.
unfoldable pub request :
    Op → List (Turn CommandReply) → Clerk → List (ℕ × Op) × Option (Clerk × CommandReply)
unfolding request_from
request args turns ck = if ck.servers == 0 then ([], none) else request_from 0 args turns ck

-- The arguments that no field is given for are zero.
abbrev pub command_args : ℕ → Clerk → Op
command_args args_type ck = record {
  args_type = args_type;
  servers = [];
  gids = [];
  shard = 0;
  gid = 0;
  num = pos 0;
  seq_num = ck.seq_num;
  client_id = ck.client_id;
}

abbrev pub query_args : ℤ → Clerk → Op
query_args num ck = record (command_args query_args_type ck) { num = num }

abbrev pub join_args : Groups → Clerk → Op
join_args servers ck = record (command_args join_args_type ck) { servers = servers }

abbrev pub leave_args : List ℕ → Clerk → Op
leave_args gids ck = record (command_args leave_args_type ck) { gids = gids }

abbrev pub move_args : ℕ → ℕ → Clerk → Op
move_args shard gid ck = record (command_args move_args_type ck) { shard = shard; gid = gid }

abbrev pub config_of : Option (Clerk × CommandReply) → Option (Clerk × Config)
config_of none = none
config_of (some (ck, reply)) = some (ck, reply.config)

-- Query; Join, Leave and Move give no result.
unfoldable pub query :
    ℤ → List (Turn CommandReply) → Clerk → List (ℕ × Op) × Option (Clerk × Config)
unfolding request
query num turns ck =
    let (calls, result) = request (query_args num ck) turns ck in (calls, config_of result)

abbrev pub clerk_of : Option (Clerk × CommandReply) → Option Clerk
clerk_of none = none
clerk_of (some (ck, reply)) = some ck

unfoldable pub join : Groups → List (Turn CommandReply) → Clerk → List (ℕ × Op) × Option Clerk
unfolding request
join servers turns ck =
    let (calls, result) = request (join_args servers ck) turns ck in (calls, clerk_of result)

unfoldable pub leave : List ℕ → List (Turn CommandReply) → Clerk → List (ℕ × Op) × Option Clerk
unfolding request
leave gids turns ck =
    let (calls, result) = request (leave_args gids ck) turns ck in (calls, clerk_of result)

unfoldable pub move : ℕ → ℕ → List (Turn CommandReply) → Clerk → List (ℕ × Op) × Option Clerk
unfolding request
move shard gid turns ck =
    let (calls, result) = request (move_args shard gid ck) turns ck in (calls, clerk_of result)
