-- ===== src/KvRaft/Handlers.antt =====
-- src/kvraft/server.go: the RPC handlers, before and after they wait; src/kvraft/common.go.
use sharded_kv.Prelude.{
  ℕ, ◌==◌, Bool, true, false, ◌&&◌, Option, none, some, [], if◌then◌else◌, Bytes, delete, nat_eq,
}
use sharded_kv.KvRaft.Server.{Optype, get, Op, KvServer, get_wait_ch}

pub data Err : Type 0 where
  empty ok err_no_key err_wrong_leader : Err

pub record GetArgs : Type 0 where
  pub key : Bytes
  pub client_id : ℕ
  pub seq_num : ℕ

pub record GetReply : Type 0 where
  pub err : Err
  pub value : Bytes

pub record PutAppendArgs : Type 0 where
  pub key : Bytes
  pub value : Bytes
  pub op : Optype
  pub client_id : ℕ
  pub seq_num : ℕ

-- How a `select` on a wait channel ends.
pub data Wake : Type 0 where
  timeout closed : Wake
  received : Op → Wake

abbrev pub get_op : GetArgs → Op
get_op args = record {
  client_id = args.client_id;
  seq_num = args.seq_num;
  key = args.key;
  value = [];
  optype = get;
}

abbrev pub put_append_op : PutAppendArgs → Op
put_append_op args = record {
  client_id = args.client_id;
  seq_num = args.seq_num;
  key = args.key;
  value = args.value;
  optype = args.op;
}

-- A handler up to its `select`: GetState's answer, Start's index and answer; then the index to wait
-- at, or `none` where the handler replies ErrWrongLeader at once.
unfoldable pub request_begin : Bool → ℕ × Bool → KvServer → KvServer × Option ℕ
request_begin false started kv = (kv, none)
request_begin true (i, false) kv = (kv, none)
request_begin true (i, true) kv = (get_wait_ch i kv, some i)

-- Get after its `select`.
unfoldable pub get_finish : GetArgs → Wake → GetReply
get_finish args timeout = record { err = err_wrong_leader; value = [] }
get_finish args closed = record { err = err_wrong_leader; value = [] }
get_finish args (received op) =
    if op.seq_num == args.seq_num && op.client_id == args.client_id
    then record { err = ok; value = op.value }
    else record { err = err_wrong_leader; value = [] }

-- PutAppend after its `select`.
unfoldable pub put_append_finish : PutAppendArgs → Wake → Err
put_append_finish args timeout = err_wrong_leader
put_append_finish args closed = err_wrong_leader
put_append_finish args (received op) =
    if op.seq_num == args.seq_num && op.client_id == args.client_id then ok else err_wrong_leader

-- The goroutine that a handler leaves behind: close(waitCh); delete(kv.waitChan, index).
-- `closed` tells whether another handler that waits on the same channel has closed it already;
-- closing it again is a panic, `none`.
unfoldable pub release : Bool → ℕ → KvServer → Option KvServer
release true i kv = none
release false i kv = some (record kv { wait_chan = delete i kv.wait_chan })
