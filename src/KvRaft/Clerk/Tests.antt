-- ===== src/KvRaft/Clerk/Tests.antt =====
-- Runs of a clerk, src/kvraft/client.go, on small inputs.
use sharded_kv.Prelude.{inr, ℕ, ◌≡◌, refl, true, false, some, List, [], ◌∷◌, Bytes, arith, AllCarry}
use mathlib.Core.List.{Memᴰ}
use sharded_kv.KvRaft.Server.{Op, append, empty_server, answer}
use sharded_kv.KvRaft.ExactlyOnce.{view, seen, meaning_of, effective, occurrences, apply_ops}
use sharded_kv.KvRaft.Handlers.{
  Err, ok, err_no_key, err_wrong_leader, GetReply, PutAppendArgs, put_append_op, put_append_finish,
}
use sharded_kv.KvRaft.Clerk.{
  is_ok, Clerk, Turn, make_clerk, answered, get_args, put_append_args, put_append, get,
  put_append_loop,
}
use sharded_kv.KvRaft.Clerk.Loops.{IsLastCall, AnswersPut, IsValueOf, IsFinalPut, call_returns}
use sharded_kv.KvRaft.Clerk.Calls.{
  IsPutReply, World, Acts, first_world, begin_put, logged, put_done, at_rest, and_then,
}
use sharded_kv.KvRaft.Clerk.Acknowledged.{acknowledged_once}

-- A clerk of three servers, with number 7, appends the byte 120 to the key 97. The first call goes
-- to server 2, which does not lead; the second is lost; the third gets to server 1, and is done.
abbrev clerk : Clerk
clerk = make_clerk 3 7

abbrev last_turn : Turn Err
last_turn = record { nrand = 10; through = true; reply = ok }

abbrev turns : List (Turn Err)
turns =
    record { nrand = 5; through = true; reply = err_wrong_leader }
    ∷ record { nrand = 6; through = false; reply = ok }
    ∷ last_turn
    ∷ []

abbrev args : PutAppendArgs
args = put_append_args (97 ∷ []) (120 ∷ []) append clerk

appended :
    put_append (97 ∷ []) (120 ∷ []) append turns clerk
    ≡ ((2, args) ∷ (0, args) ∷ (1, args) ∷ [], some (answered 1 clerk))
unfolding put_append
appended = refl

-- A Get that is lost once, and then finds no key.
abbrev no_key : Turn GetReply
no_key = record { nrand = 4; through = true; reply = record { err = err_no_key; value = [] } }

abbrev get_turns : List (Turn GetReply)
get_turns = record no_key { through = false } ∷ no_key ∷ []

call_returns_example :
    ((t : Turn Err) × (server : ℕ) × ((put_append (97 ∷ []) (120 ∷ []) append turns clerk).1
        ≡ some (record clerk { seq_num = 2; leader_id = some server }))
      × IsLastCall args server t turns (put_append (97 ∷ []) (120 ∷ []) append turns clerk).0
      × AnswersPut t
      × AllCarry args (put_append (97 ∷ []) (120 ∷ []) append turns clerk).0)
    × ((t : Turn GetReply) × (server : ℕ) × (v : Bytes) × ((get (97 ∷ []) get_turns clerk).1
          ≡ some (record clerk { seq_num = 2; leader_id = some server }, v))
        × IsLastCall (get_args (97 ∷ []) clerk) server t get_turns (get (97 ∷ []) get_turns clerk).0
        × (t.through ≡ true)
        × IsValueOf t.reply v
        × AllCarry (get_args (97 ∷ []) clerk) (get (97 ∷ []) get_turns clerk).0)
call_returns_example =
    call_returns (97 ∷ []) (120 ∷ []) append clerk turns last_turn get_turns no_key
      (Memᴰ.tail (Memᴰ.tail (Memᴰ.head refl))) (refl, refl) (Memᴰ.tail (Memᴰ.head refl))
      (refl, inr refl)

-- Two of the calls get into the log.
abbrev op : Op
op = put_append_op args

abbrev done : World
done = record (first_world 3 7) { clerk = answered 1 clerk; sent = op ∷ []; log = op ∷ op ∷ [] }

is_ok_lem : (e : Err) → is_ok e ≡ true → e ≡ ok
is_ok_lem e h = ground arith

replied : (t : Turn Err) → Memᴰ t turns → IsFinalPut t → IsPutReply args (op ∷ op ∷ []) t.reply
unfolding put_append_finish answer
replied t m final = (op, empty_server, Memᴰ.head refl, is_ok_lem t.reply final.1)

to_done : Acts (first_world 3 7) done
unfolding put_append_loop
to_done =
    and_then
      (and_then
        (and_then (and_then at_rest (begin_put (97 ∷ []) (120 ∷ []) append refl))
          (logged op (Memᴰ.head refl)))
        (logged op (Memᴰ.head refl)))
      (put_done args turns (answered 1 clerk) refl refl replied)

acknowledged_once_example :
    ((key : Bytes)
      → view (apply_ops done.log empty_server) key
        ≡ meaning_of (effective done.log (seen empty_server)) (view empty_server) key)
    × (occurrences 7 1 (effective done.log (seen empty_server)) ≡ 1)
acknowledged_once_example = acknowledged_once 3 7 done to_done 1 (omega arith) (omega arith)
