-- ===== src/KvRaft/Clerk/Acknowledged.antt =====
-- src/kvraft/client.go and src/kvraft/server.go: the commands that a clerk's calls have returned
-- from, in the log and in the store.
use sharded_kv.Prelude.{
  ℕ, ◌+◌, ◌≤◌, ◌<◌, ◌==◌, ◌≡◌, ◌≢◌, refl, sym, ap, ◌∙◌, ◌⊎◌, inl, inr, true, false, ◌&&◌, ◌||◌, [],
  ◌∷◌, ◌++◌, index, lookup, Bytes, arith, Bool-cases, ==_iff,
}
use mathlib.Core.List.{Memᴰ}
use sharded_kv.KvRaft.Server.{Op, answer, empty_server}
use sharded_kv.KvRaft.ExactlyOnce.{
  InOrder, seen, view, meaning_of, effective, occurrences, apply_ops, exactly_once, client-answer,
}
use sharded_kv.KvRaft.Handlers.{
  Err, GetArgs, GetReply, PutAppendArgs, received, get_op, put_append_op, get_finish,
  put_append_finish,
}
use sharded_kv.KvRaft.Clerk.{get_args, put_append_args, is_ok, is_no_key, answered}
use sharded_kv.KvRaft.Clerk.Loops.{get_loop_final, put_append_loop_final}
use sharded_kv.KvRaft.Clerk.Calls.{
  Doing, nothing, getting, putting, World, Act, Acts, begin_get, begin_put, logged, logged_other,
  got, put_done, at_rest, and_then, first_world,
}
use sharded_kv.KvRaft.Clerk.Numbers.{
  IsBelow, IsBelow-snoc, IsBelow-mono, IsBelow-member, InOrder-append, InOrder-next,
}

-- Every number below the clerk's stands in order; of the current one this holds once it is there,
-- and nothing is numbered higher.
record IsTold (w : World) : Type 0 where
  pub sent_below :
      (op : Op)
      → Memᴰ op w.sent
      → (op.client_id ≡ w.clerk.client_id)
        × (op.seq_num ≤ w.clerk.seq_num)
        × (w.doing ≡ nothing → op.seq_num < w.clerk.seq_num)
  pub past : (n : ℕ) → 1 ≤ n → n < w.clerk.seq_num → InOrder w.clerk.client_id n w.log
  pub current :
      IsBelow w.clerk.client_id w.clerk.seq_num w.log
      ⊎ InOrder w.clerk.client_id w.clerk.seq_num w.log
  pub below : IsBelow w.clerk.client_id (w.clerk.seq_num + 1) w.log
  pub doing_get :
      (args : GetArgs)
      → w.doing ≡ getting args
      → (args.client_id ≡ w.clerk.client_id) × (args.seq_num ≡ w.clerk.seq_num)
  pub doing_put :
      (args : PutAppendArgs)
      → w.doing ≡ putting args
      → (args.client_id ≡ w.clerk.client_id) × (args.seq_num ≡ w.clerk.seq_num)

logged-IsTold :
    (w : World) (op : Op)
    → IsTold w
    → (op.client_id ≡ w.clerk.client_id → op.seq_num ≤ w.clerk.seq_num)
    → IsTold (record w { log = w.log ++ op ∷ [] })
logged-IsTold w op h small =
    let c = w.clerk.client_id in
    let s = w.clerk.seq_num in
    record {
      sent_below = h.sent_below;
      past = λ n one lt. InOrder-append c n w.log (op ∷ []) (h.past n one lt);
      current = elim h.current [
        | inr there ↦ inr (InOrder-append c s w.log (op ∷ []) there)
        | inl below ↦ elim (Bool-cases (op.client_id == c && op.seq_num == s)) [
          | inl is ↦ inr (InOrder-next c s w.log op below (ground arith) (ground arith))
          | inr other ↦
              inl (IsBelow-snoc c s w.log op below (λ same. let le = small same in ground arith))
        ]
      ];
      below = IsBelow-snoc c (s + 1) w.log op h.below (λ same. omega (arith, small same));
      doing_get = h.doing_get;
      doing_put = h.doing_put;
    }

returned-IsTold :
    (w : World) (server : ℕ) (op : Op)
    → IsTold w
    → Memᴰ op w.log
    → op.client_id ≡ w.clerk.client_id
    → op.seq_num ≡ w.clerk.seq_num
    → IsTold (record w { clerk = answered server w.clerk; doing = nothing })
returned-IsTold w server op h m same number =
    let c = w.clerk.client_id in
    let s = w.clerk.seq_num in
    let there : InOrder c s w.log = elim h.current [
      | inl below ↦ absurd (let lt = IsBelow-member c s w.log op below m same in omega arith)
      | inr there ↦ there
    ] in
    record {
      sent_below = λ o sent.
          let (client, le, _) = h.sent_below o sent in
          (client, omega (arith, le), λ e. omega (arith, le));
      past = λ n one lt. elim (Bool-cases (n == s)) [
        | inl is ↦ let e = (==_iff n s).0 is in rw e there
        | inr other ↦ h.past n one (ground arith)
      ];
      current = inl h.below;
      below = IsBelow-mono c (s + 1) (s + 1 + 1) w.log (omega arith) h.below;
      doing_get = λ args e. absurd (ground arith);
      doing_put = λ args e. absurd (ground arith);
    }

get_reply_lem :
    (args : GetArgs) (op : Op) (reply : GetReply)
    → reply ≡ get_finish args (received op)
    → (is_ok reply.err || is_no_key reply.err) ≡ true
    → (op.seq_num ≡ args.seq_num) × (op.client_id ≡ args.client_id)
unfolding get_finish
get_reply_lem args op reply e final = (ground arith, ground arith)

put_reply_lem :
    (args : PutAppendArgs) (op : Op) (reply : Err)
    → reply ≡ put_append_finish args (received op)
    → is_ok reply ≡ true
    → (op.seq_num ≡ args.seq_num) × (op.client_id ≡ args.client_id)
unfolding put_append_finish
put_reply_lem args op reply e final = (ground arith, ground arith)

begun-IsTold :
    (w : World) (doing : Doing) (op : Op)
    → IsTold w
    → w.doing ≡ nothing
    → doing ≢ nothing
    → (op.client_id ≡ w.clerk.client_id) × (op.seq_num ≡ w.clerk.seq_num)
    → ((args : GetArgs)
        → doing ≡ getting args
        → (args.client_id ≡ w.clerk.client_id) × (args.seq_num ≡ w.clerk.seq_num))
    → ((args : PutAppendArgs)
        → doing ≡ putting args
        → (args.client_id ≡ w.clerk.client_id) × (args.seq_num ≡ w.clerk.seq_num))
    → IsTold (record w { doing = doing; sent = op ∷ w.sent })
begun-IsTold w doing op h idle busy (client, number) gets puts = record {
  sent_below = sent_below;
  past = h.past;
  current = h.current;
  below = h.below;
  doing_get = gets;
  doing_put = puts;
}
  where
    sent_below :
        (o : Op)
        → Memᴰ o (op ∷ w.sent)
        → (o.client_id ≡ w.clerk.client_id)
          × (o.seq_num ≤ w.clerk.seq_num)
          × (doing ≡ nothing → o.seq_num < w.clerk.seq_num)
    sent_below o (Memᴰ.head e) = (
      ap (λ (o : Op). o.client_id) e ∙ client,
      omega (arith, ap (λ (o : Op). o.seq_num) e, number),
      λ rests. absurd (busy rests),
    )
    sent_below o (Memᴰ.tail m) =
        let (same, le, lt) = h.sent_below o m in (same, le, λ rests. absurd (busy rests))

Act-IsTold : {w w' : World} → Act w w' → IsTold w → IsTold w'
Act-IsTold {w} (begin_get key idle) h =
    begun-IsTold w (getting (get_args key w.clerk)) (get_op (get_args key w.clerk)) h idle
      (λ e. ground arith) (refl, refl) (λ args e. ground arith) (λ args e. absurd (ground arith))
Act-IsTold {w} (begin_put key value op idle) h =
    let args = put_append_args key value op w.clerk in
    begun-IsTold w (putting args) (put_append_op args) h idle (λ e. ground arith) (refl, refl)
      (λ args e. absurd (ground arith)) (λ args e. ground arith)
Act-IsTold {w} (logged op sent) h =
    let (client, le, _) = h.sent_below op sent in logged-IsTold w op h (λ same. le)
Act-IsTold {w} (logged_other op other) h = logged-IsTold w op h (λ same. absurd (other same))
Act-IsTold {w} (got args turns ck value is returns replied) h =
    let (t, server, m, final, same) = get_loop_final args false turns w.clerk (ck, value) returns in
    let (op, kv, there, reply) = replied t m final in
    let (number, client) = get_reply_lem args (answer op kv) t.reply reply final.1 in
    let (client_of, seq_of) = client-answer op kv in
    let (its_client, its_number) = h.doing_get args is in
    rw same (
      returned-IsTold w server op h there (sym client_of ∙ client ∙ its_client)
        (sym seq_of ∙ number ∙ its_number))
Act-IsTold {w} (put_done args turns ck is returns replied) h =
    let (t, server, m, final, same) = put_append_loop_final args false turns w.clerk ck returns in
    let (op, kv, there, reply) = replied t m final in
    let (number, client) = put_reply_lem args (answer op kv) t.reply reply final.1 in
    let (client_of, seq_of) = client-answer op kv in
    let (its_client, its_number) = h.doing_put args is in
    rw same (
      returned-IsTold w server op h there (sym client_of ∙ client ∙ its_client)
        (sym seq_of ∙ number ∙ its_number))

first-IsTold : (servers nrand : ℕ) → IsTold (first_world servers nrand)
first-IsTold servers nrand = record {
  sent_below = λ op m. elim m [ ];
  past = λ n one lt. absurd (omega arith);
  current = inl tt;
  below = tt;
  doing_get = λ args e. absurd (ground arith);
  doing_put = λ args e. absurd (ground arith);
}

Acts-IsTold : {w w' : World} → Acts w w' → IsTold w → IsTold w'
Acts-IsTold at_rest h = h
Acts-IsTold (and_then acts act) h = Act-IsTold act (Acts-IsTold acts h)

-- Whatever a clerk and the servers do, with calls that are lost, retried, or put into the log late
-- and several times: after the log of the servers, the store shows what the commands mean that were
-- new when they were reached, and each of the clerk's commands whose call has returned (they are
-- numbered from 1 to below the clerk's number) is among those exactly once.
pub acknowledged_once :
    (servers nrand : ℕ) (w : World)
    → Acts (first_world servers nrand) w
    → (n : ℕ) → 1 ≤ n
    → n < w.clerk.seq_num
    → ((key : Bytes)
        → view (apply_ops w.log empty_server) key
          ≡ meaning_of (effective w.log (seen empty_server)) (view empty_server) key)
      × (occurrences w.clerk.client_id n (effective w.log (seen empty_server)) ≡ 1)
unfolding index lookup
acknowledged_once servers nrand w acts n one lt =
    let told = Acts-IsTold acts (first-IsTold servers nrand) in
    exactly_once w.clerk.client_id n w.log empty_server (omega (arith, one)) (told.past n one lt)
