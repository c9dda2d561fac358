-- ===== src/ShardKv/Clerk/Calls.antt =====
-- src/shardkv/client.go: what holds when Get or PutAppend returns.
use sharded_kv.Prelude.{zero, ◌+◌, ◌≡◌, ◌⊎◌, Option, some, List, String, AllCarry, Bytes, negsuc}
use mathlib.Core.List.{Memᴰ}
use sharded_kv.ShardCtrler.Common.{Config}
use sharded_kv.ShardCtrler.Clerk.{query}
use sharded_kv.ShardKv.Common.{Err, ok, err_no_key}
use sharded_kv.ShardKv.Clerk.{Clerk, GetReply, Round, owners}
use sharded_kv.ShardKv.Clerk.Owners.{Answered}

-- The configuration is one that a Query(-1) of some round has given.
abbrev pub IsQueried : {Reply : Type 0} → List (Round Reply) → Config → Type 0
IsQueried {Reply} rounds config =
    (round : Round Reply) × (sm sm' : sharded_kv.ShardCtrler.Clerk.Clerk) × Memᴰ round rounds
    × ((query (negsuc zero) round.ctrl_turns sm).1 ≡ some (sm', config))

-- The call has returned `r` to the clerk `ck`, which is then `ck'`.
pub record Returned {Reply R Args : Type 0} (Answers : Reply → R → Type 0) (args : Args)
    (key : Bytes) (rounds : List (Round Reply)) (ck ck' : Clerk) (calls : List (String × Args))
    (r : R) : Type 0 where
  pub servers : List String
  pub owned : owners key ck'.config ≡ some servers
  pub round : Round Reply
  pub among : Memᴰ round rounds
  pub answered : Answered Answers args servers round.turns calls r
  pub known : (ck'.config ≡ ck.config) ⊎ IsQueried rounds ck'.config
  pub numbered : ck'.seq_num ≡ ck.seq_num + 1
  pub carried : AllCarry args calls

-- What the two calls take for their answer: OK, and for Get also ErrNoKey, with its value.
abbrev pub IsGetAnswer : GetReply → Bytes → Type 0
IsGetAnswer reply value = ((reply.err ≡ ok) ⊎ (reply.err ≡ err_no_key)) × (reply.value ≡ value)

abbrev pub IsPutAnswer : Err → Unit {0} → Type 0
IsPutAnswer reply r = reply ≡ ok
