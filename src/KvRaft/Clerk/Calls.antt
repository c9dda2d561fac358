-- ===== src/KvRaft/Clerk/Calls.antt =====
-- src/kvraft/client.go and src/kvraft/server.go: a clerk, the commands that it has sent, and the
-- log of the servers, with the steps that they take in any order.
use sharded_kv.Prelude.{ℕ, ◌≡◌, ◌≢◌, some, false, List, [], ◌∷◌, ◌++◌, Bytes}
use mathlib.Core.List.{Memᴰ}
use sharded_kv.KvRaft.Server.{Optype, Op, KvServer, answer}
use sharded_kv.KvRaft.Handlers.{
  Err, GetArgs, GetReply, PutAppendArgs, received, get_op, put_append_op, get_finish,
  put_append_finish,
}
use sharded_kv.KvRaft.Clerk.{
  Clerk, Turn, make_clerk, get_args, put_append_args, get_loop, put_append_loop,
}
use sharded_kv.KvRaft.Clerk.Loops.{IsFinalGet, IsFinalPut}

-- The call that the clerk is in.
pub data Doing : Type 0 where
  nothing : Doing
  getting : GetArgs → Doing
  putting : PutAppendArgs → Doing

-- `sent` are the commands that servers may make of the clerk's calls, at any time and any number of
-- times; `log` is the log that the servers apply.
pub record World : Type 0 where
  pub clerk : Clerk
  pub doing : Doing
  pub sent : List Op
  pub log : List Op

-- A handler's reply comes from a command of the log that a server has applied, in some state.
abbrev pub IsGetReply : GetArgs → List Op → GetReply → Type 0
IsGetReply args log reply =
    (op : Op) × (kv : KvServer) × Memᴰ op log × (reply ≡ get_finish args (received (answer op kv)))

abbrev pub IsPutReply : PutAppendArgs → List Op → Err → Type 0
IsPutReply args log reply =
    (op : Op) × (kv : KvServer) × Memᴰ op log
    × (reply ≡ put_append_finish args (received (answer op kv)))

pub data Act (w : World) : World → Type 0 where
  begin_get :
      (key : Bytes)
      → w.doing ≡ nothing
      → Act w (record w {
        doing = getting (get_args key w.clerk);
        sent = get_op (get_args key w.clerk) ∷ w.sent;
      })
  begin_put :
      (key value : Bytes) (op : Optype)
      → w.doing ≡ nothing
      → Act w (record w {
        doing = putting (put_append_args key value op w.clerk);
        sent = put_append_op (put_append_args key value op w.clerk) ∷ w.sent;
      })
  -- A command of the clerk, or of another client, gets into the log.
  logged : (op : Op) → Memᴰ op w.sent → Act w (record w { log = w.log ++ op ∷ [] })
  logged_other :
      (op : Op) → op.client_id ≢ w.clerk.client_id → Act w (record w { log = w.log ++ op ∷ [] })
  -- The loop of the call returns; the calls at which it may do so have been answered by servers.
  got :
      (args : GetArgs) (turns : List (Turn GetReply)) (ck : Clerk) (value : Bytes)
      → w.doing ≡ getting args
      → (get_loop args false turns w.clerk).1 ≡ some (ck, value)
      → ((t : Turn GetReply) → Memᴰ t turns → IsFinalGet t → IsGetReply args w.log t.reply)
      → Act w (record w { clerk = ck; doing = nothing })
  put_done :
      (args : PutAppendArgs) (turns : List (Turn Err)) (ck : Clerk)
      → w.doing ≡ putting args
      → (put_append_loop args false turns w.clerk).1 ≡ some ck
      → ((t : Turn Err) → Memᴰ t turns → IsFinalPut t → IsPutReply args w.log t.reply)
      → Act w (record w { clerk = ck; doing = nothing })

pub data Acts (w : World) : World → Type 0 where
  at_rest : Acts w w
  and_then : {w' w'' : World} → Acts w w' → Act w' w'' → Acts w w''

-- A clerk that has just been made, and an empty log.
abbrev pub first_world : ℕ → ℕ → World
first_world servers nrand = record {
  clerk = make_clerk servers nrand;
  doing = nothing;
  sent = [];
  log = [];
}
