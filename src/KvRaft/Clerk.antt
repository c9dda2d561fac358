-- ===== src/KvRaft/Clerk.antt =====
-- src/kvraft/client.go: the clerk. Its loops run on the answers of the calls that they make, in
-- order; `none` is a loop that has not returned when there are no more answers.
pub mod Loops
pub mod Calls
pub mod Numbers
pub mod Acknowledged
pub mod Tests
use sharded_kv.Prelude.{
  ℕ, ◌+◌, ◌%◌, Bool, true, false, ◌||◌, not, Option, none, some, List, [], ◌∷◌, if◌then◌else◌,
  Bytes, called,
}
use sharded_kv.KvRaft.Server.{Optype}
use sharded_kv.KvRaft.Handlers.{
  Err, empty, ok, err_no_key, err_wrong_leader, GetArgs, GetReply, PutAppendArgs,
}

-- `servers` is len(ck.servers), and `leader_id` is `none` for -1.
pub record Clerk : Type 0 where
  pub servers : ℕ
  pub client_id : ℕ
  pub seq_num : ℕ
  pub leader_id : Option ℕ

-- MakeClerk, with the number that nrand gives.
abbrev pub make_clerk : ℕ → ℕ → Clerk
make_clerk servers nrand = record {
  servers = servers;
  client_id = nrand;
  seq_num = 1;
  leader_id = none;
}

-- One turn of a loop: what nrand would give, whether the call gets through, and the reply.
pub record Turn (Reply : Type 0) : Type 0 where
  pub nrand : ℕ
  pub through : Bool
  pub reply : Reply

-- The server that is called; the random one is getRandServer.
abbrev pub server_for : Bool → ℕ → Clerk → ℕ
server_for last_reply_err_leader nrand ck =
    let other = nrand % ck.servers in
    elim ck.leader_id [
      | none ↦ other
      | some leader ↦ if last_reply_err_leader then other else leader
    ]

abbrev pub is_wrong_leader : Err → Bool
is_wrong_leader empty = false
is_wrong_leader ok = false
is_wrong_leader err_no_key = false
is_wrong_leader err_wrong_leader = true

abbrev pub is_ok : Err → Bool
is_ok empty = false
is_ok ok = true
is_ok err_no_key = false
is_ok err_wrong_leader = false

abbrev pub is_no_key : Err → Bool
is_no_key empty = false
is_no_key ok = false
is_no_key err_no_key = true
is_no_key err_wrong_leader = false

-- The end of a call that is answered.
abbrev pub answered : ℕ → Clerk → Clerk
answered leader ck = record ck { seq_num = ck.seq_num + 1; leader_id = some leader }

abbrev pub get_args : Bytes → Clerk → GetArgs
get_args key ck = record { key = key; client_id = ck.client_id; seq_num = ck.seq_num }

abbrev pub put_append_args : Bytes → Bytes → Optype → Clerk → PutAppendArgs
put_append_args key value op ck = record {
  key = key;
  value = value;
  op = op;
  client_id = ck.client_id;
  seq_num = ck.seq_num;
}

-- The loop of Get.
unfoldable pub get_loop :
    GetArgs → Bool → List (Turn GetReply) → Clerk → List (ℕ × GetArgs) × Option (Clerk × Bytes)
get_loop args last_err [] ck = ([], none)
get_loop args last_err (t ∷ ts) ck =
    let server = server_for last_err t.nrand ck in
    let retry = get_loop args true ts ck in
    let again = get_loop args last_err ts ck in
    if not t.through || is_wrong_leader t.reply.err
    then called server args retry
    else if is_ok t.reply.err
    then ((server, args) ∷ [], some (answered server ck, t.reply.value))
    else if is_no_key t.reply.err
    then ((server, args) ∷ [], some (answered server ck, []))
    else called server args again

-- The loop of PutAppend.
unfoldable pub put_append_loop :
    PutAppendArgs → Bool → List (Turn Err) → Clerk → List (ℕ × PutAppendArgs) × Option Clerk
put_append_loop args last_err [] ck = ([], none)
put_append_loop args last_err (t ∷ ts) ck =
    let server = server_for last_err t.nrand ck in
    let retry = put_append_loop args true ts ck in
    let again = put_append_loop args last_err ts ck in
    if not t.through || is_wrong_leader t.reply
    then called server args retry
    else if is_ok t.reply
    then ((server, args) ∷ [], some (answered server ck))
    else called server args again

-- Get and PutAppend; Put and Append are PutAppend with their name as `op`.
unfoldable pub get :
    Bytes → List (Turn GetReply) → Clerk → List (ℕ × GetArgs) × Option (Clerk × Bytes)
unfolding get_loop
get key turns ck = get_loop (get_args key ck) false turns ck

unfoldable pub put_append :
    Bytes → Bytes → Optype → List (Turn Err) → Clerk → List (ℕ × PutAppendArgs) × Option Clerk
unfolding put_append_loop
put_append key value op turns ck = put_append_loop (put_append_args key value op ck) false turns ck
