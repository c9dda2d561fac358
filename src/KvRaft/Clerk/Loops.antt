-- ===== src/KvRaft/Clerk/Loops.antt =====
-- src/kvraft/client.go: when the loops of a clerk return, and what they have called.
use sharded_kv.Prelude.{
  ℕ, ◌≡◌, ◌≢◌, sym, ap, ap₂, ◌+◌, ◌++◌, ◌⊎◌, subst, length, get_elem?, refl, inl, inr, Bool, true,
  false, ◌||◌, not, some, List, [], ◌∷◌, Bytes, arith, Bool-cases, AllCarry,
}
use mathlib.Core.List.{Memᴰ}
use mathlib.Core.Option.{some_inj}
use sharded_kv.KvRaft.Handlers.{Err, ok, err_no_key, GetArgs, GetReply, PutAppendArgs}
use sharded_kv.KvRaft.Server.{Optype}
use sharded_kv.KvRaft.Clerk.{
  get, put_append, get_args, put_append_args, Clerk, Turn, server_for, is_wrong_leader, is_ok,
  is_no_key, answered, get_loop, put_append_loop,
}

-- The answers at which PutAppend and Get return.
abbrev pub IsFinalPut : Turn Err → Type 0
IsFinalPut t = (t.through ≡ true) × (is_ok t.reply ≡ true)

abbrev pub IsFinalGet : Turn GetReply → Type 0
IsFinalGet t = (t.through ≡ true) × ((is_ok t.reply.err || is_no_key t.reply.err) ≡ true)

later : {A : Type 0} (t t' : A) (ts : List A) → Memᴰ t (t' ∷ ts) → t ≢ t' → Memᴰ t ts
later t t' ts (Memᴰ.head e) other = absurd (other e)
later t t' ts (Memᴰ.tail m) other = m

put_append_loop-AllCarry :
    (args : PutAppendArgs) (last_err : Bool) (turns : List (Turn Err)) (ck : Clerk)
    → AllCarry args (put_append_loop args last_err turns ck).0
unfolding put_append_loop
put_append_loop-AllCarry args last_err [] ck = tt
put_append_loop-AllCarry args last_err (t' ∷ ts) ck =
    let retry = put_append_loop-AllCarry args true ts ck in
    let again = put_append_loop-AllCarry args last_err ts ck in
    elim (Bool-cases (not t'.through || is_wrong_leader t'.reply)) [
      | inl retries ↦ rw retries (refl, retry)
      | inr there ↦ elim (Bool-cases (is_ok t'.reply)) [
        | inl is ↦ rw (there, is) (refl, tt)
        | inr other ↦ rw (there, other) (refl, again)
      ]
    ]

-- Turns at which PutAppend and Get have their answer, and the value of Get's.
abbrev pub AnswersPut : Turn Err → Type 0
AnswersPut t = (t.through ≡ true) × (t.reply ≡ ok)

abbrev pub AnswersGet : Turn GetReply → Type 0
AnswersGet t = (t.through ≡ true) × ((t.reply.err ≡ ok) ⊎ (t.reply.err ≡ err_no_key))

abbrev pub IsValueOf : GetReply → Bytes → Type 0
IsValueOf reply value =
    ((reply.err ≡ ok) × (value ≡ reply.value)) ⊎ ((reply.err ≡ err_no_key) × (value ≡ []))

-- The last of the calls goes to `server`, and `t` is the turn in which it was made.
abbrev pub IsLastCall :
    {Args Reply : Type 0} → Args → ℕ → Turn Reply → List (Turn Reply) → List (ℕ × Args) → Type 0
IsLastCall {Args} {Reply} args server t turns calls =
    (front : List (ℕ × Args)) × (calls ≡ front ++ (server, args) ∷ [])
    × (get_elem? turns (length front) ≡ some t)

later_call :
    {Args Reply : Type 0} (args : Args) (server first : ℕ) (t t' : Turn Reply)
    (turns : List (Turn Reply)) (calls : List (ℕ × Args))
    → IsLastCall args server t turns calls
    → IsLastCall args server t (t' ∷ turns) ((first, args) ∷ calls)
later_call args server first t t' turns calls (front, last, at) =
    ((first, args) ∷ front, ap (λ (cs : List (ℕ × _)). (first, args) ∷ cs) last, at)

is_ok_lem : (e : Err) → is_ok e ≡ true → e ≡ ok
is_ok_lem e h = ground arith

is_no_key_lem : (e : Err) → is_no_key e ≡ true → e ≡ err_no_key
is_no_key_lem e h = ground arith

there_lem : (through wrong : Bool) → (not through || wrong) ≡ false → through ≡ true
there_lem through wrong h = ground arith

put_here :
    (t : Turn Err)
    → AnswersPut t
    → ((not t.through || is_wrong_leader t.reply) ≡ false) × (is_ok t.reply ≡ true)
put_here t (through, is) = (ap₂ (λ a e. not a || is_wrong_leader e) through is, ap is_ok is)

get_here :
    (t : Turn GetReply)
    → AnswersGet t
    → ((not t.through || is_wrong_leader t.reply.err) ≡ false)
      × ((is_ok t.reply.err ≡ true) ⊎ (is_no_key t.reply.err ≡ true))
get_here t (through, inl is) =
    (ap₂ (λ a e. not a || is_wrong_leader e) through is, inl (ap is_ok is))
get_here t (through, inr is) =
    (ap₂ (λ a e. not a || is_wrong_leader e) through is, inr (ap is_no_key is))

-- It returns at the first turn that has the answer.
put_append_loop_returns :
    (args : PutAppendArgs) (last_err : Bool) (turns : List (Turn Err)) (ck : Clerk) (t : Turn Err)
    → Memᴰ t turns
    → AnswersPut t
    → (t' : Turn Err) × (server : ℕ) × ((put_append_loop args last_err turns ck).1
        ≡ some (answered server ck))
      × IsLastCall args server t' turns (put_append_loop args last_err turns ck).0
      × AnswersPut t'
unfolding put_append_loop
put_append_loop_returns args last_err [] ck t m final = elim m [ ]
put_append_loop_returns args last_err (t' ∷ ts) ck t m final =
    let server = server_for last_err t'.nrand ck in
    elim (Bool-cases (not t'.through || is_wrong_leader t'.reply)) [
      | inl retries ↦
          let (a, s, returns, last, is) =
            put_append_loop_returns args true ts ck t
              (later t t' ts m
                (λ e. ground (arith, retries, put_here t' (subst AnswersPut e final))))
              final in
          (a, s, rw retries returns, rw retries (later_call args s server a t' ts _ last), is)
      | inr there ↦ elim (Bool-cases (is_ok t'.reply)) [
        | inl is ↦ (
          t',
          server,
          rw (there, is) refl,
          rw (there, is) ([], refl, refl),
          (there_lem t'.through (is_wrong_leader t'.reply) there, is_ok_lem t'.reply is),
        )
        | inr other ↦
            let (a, s, returns, last, is) =
              put_append_loop_returns args last_err ts ck t
                (later t t' ts m
                  (λ e. ground (arith, other, put_here t' (subst AnswersPut e final))))
                final in
            (
              a,
              s,
              rw (there, other) returns,
              rw (there, other) (later_call args s server a t' ts _ last),
              is,
            )
      ]
    ]

-- And only there.
pub put_append_loop_final :
    (args : PutAppendArgs) (last_err : Bool) (turns : List (Turn Err)) (ck : Clerk) (r : Clerk)
    → (put_append_loop args last_err turns ck).1 ≡ some r
    → (t : Turn Err) × (server : ℕ) × Memᴰ t turns × IsFinalPut t × (r ≡ answered server ck)
unfolding put_append_loop
put_append_loop_final args last_err [] ck r returns = absurd (ground arith)
put_append_loop_final args last_err (t' ∷ ts) ck r returns =
    elim (Bool-cases (not t'.through || is_wrong_leader t'.reply)) [
      | inl retries ↦
          let (t, server, m, final, is) =
            put_append_loop_final args true ts ck r (rw retries at returns) in
          (t, server, Memᴰ.tail m, final, is)
      | inr there ↦ elim (Bool-cases (is_ok t'.reply)) [
        | inl is ↦
            let same = some_inj.0 (rw (there, is) at returns) in
            (t', server_for last_err t'.nrand ck, Memᴰ.head refl, ground arith, sym same)
        | inr other ↦
            let (t, server, m, final, is) =
              put_append_loop_final args last_err ts ck r (rw (there, other) at returns) in
            (t, server, Memᴰ.tail m, final, is)
      ]
    ]

get_loop-AllCarry :
    (args : GetArgs) (last_err : Bool) (turns : List (Turn GetReply)) (ck : Clerk)
    → AllCarry args (get_loop args last_err turns ck).0
unfolding get_loop
get_loop-AllCarry args last_err [] ck = tt
get_loop-AllCarry args last_err (t' ∷ ts) ck =
    let retry = get_loop-AllCarry args true ts ck in
    let again = get_loop-AllCarry args last_err ts ck in
    elim (Bool-cases (not t'.through || is_wrong_leader t'.reply.err)) [
      | inl retries ↦ rw retries (refl, retry)
      | inr there ↦ elim (Bool-cases (is_ok t'.reply.err)) [
        | inl is ↦ rw (there, is) (refl, tt)
        | inr other ↦ elim (Bool-cases (is_no_key t'.reply.err)) [
          | inl is ↦ rw (there, other, is) (refl, tt)
          | inr unknown ↦ rw (there, other, unknown) (refl, again)
        ]
      ]
    ]

-- It returns at the first turn that has the answer.
get_loop_returns :
    (args : GetArgs) (last_err : Bool) (turns : List (Turn GetReply)) (ck : Clerk)
    (t : Turn GetReply)
    → Memᴰ t turns
    → AnswersGet t
    → (t' : Turn GetReply) × (server : ℕ) × (value : Bytes) × ((get_loop args last_err turns ck).1
        ≡ some (answered server ck, value))
      × IsLastCall args server t' turns (get_loop args last_err turns ck).0
      × (t'.through ≡ true)
      × IsValueOf t'.reply value
unfolding get_loop
get_loop_returns args last_err [] ck t m final = elim m [ ]
get_loop_returns args last_err (t' ∷ ts) ck t m final =
    let server = server_for last_err t'.nrand ck in
    elim (Bool-cases (not t'.through || is_wrong_leader t'.reply.err)) [
      | inl retries ↦
          let (a, s, v, returns, last, is, of) =
            get_loop_returns args true ts ck t
              (later t t' ts m
                (λ e. ground (arith, retries, get_here t' (subst AnswersGet e final))))
              final in
          (
            a,
            s,
            v,
            rw retries returns,
            rw retries (later_call args s server a t' ts _ last),
            is,
            of,
          )
      | inr there ↦
          let through = there_lem t'.through (is_wrong_leader t'.reply.err) there in
          elim (Bool-cases (is_ok t'.reply.err)) [
            | inl is ↦ (
              t',
              server,
              t'.reply.value,
              rw (there, is) refl,
              rw (there, is) ([], refl, refl),
              through,
              inl (is_ok_lem t'.reply.err is, refl),
            )
            | inr other ↦ elim (Bool-cases (is_no_key t'.reply.err)) [
              | inl is ↦ (
                t',
                server,
                [],
                rw (there, other, is) refl,
                rw (there, other, is) ([], refl, refl),
                through,
                inr (is_no_key_lem t'.reply.err is, refl),
              )
              | inr unknown ↦
                  let (a, s, v, returns, last, is, of) =
                    get_loop_returns args last_err ts ck t
                      (later t t' ts m (λ e.
                        ground (arith, other, unknown, get_here t' (subst AnswersGet e final))))
                      final in
                  (
                    a,
                    s,
                    v,
                    rw (there, other, unknown) returns,
                    rw (there, other, unknown) (later_call args s server a t' ts _ last),
                    is,
                    of,
                  )
            ]
          ]
    ]

-- And only there.
pub get_loop_final :
    (args : GetArgs) (last_err : Bool) (turns : List (Turn GetReply)) (ck : Clerk)
    (r : Clerk × Bytes)
    → (get_loop args last_err turns ck).1 ≡ some r
    → (t : Turn GetReply) × (server : ℕ) × Memᴰ t turns × IsFinalGet t × (r.0 ≡ answered server ck)
unfolding get_loop
get_loop_final args last_err [] ck r returns = absurd (ground arith)
get_loop_final args last_err (t' ∷ ts) ck r returns =
    elim (Bool-cases (not t'.through || is_wrong_leader t'.reply.err)) [
      | inl retries ↦
          let (t, server, m, final, is) =
            get_loop_final args true ts ck r (rw retries at returns) in
          (t, server, Memᴰ.tail m, final, is)
      | inr there ↦ elim (Bool-cases (is_ok t'.reply.err)) [
        | inl is ↦
            let same = some_inj.0 (rw (there, is) at returns) in
            (
              t',
              server_for last_err t'.nrand ck,
              Memᴰ.head refl,
              ground arith,
              sym (ap (λ (p : Clerk × Bytes). p.0) same),
            )
        | inr other ↦ elim (Bool-cases (is_no_key t'.reply.err)) [
          | inl is ↦
              let same = some_inj.0 (rw (there, other, is) at returns) in
              (
                t',
                server_for last_err t'.nrand ck,
                Memᴰ.head refl,
                ground arith,
                sym (ap (λ (p : Clerk × Bytes). p.0) same),
              )
          | inr unknown ↦
              let (t, server, m, final, is) =
                get_loop_final args last_err ts ck r (rw (there, other, unknown) at returns) in
              (t, server, Memᴰ.tail m, final, is)
        ]
      ]
    ]

-- PutAppend and Get return as soon as one of their calls gets through to a server that answers OK
-- (for Get, also ErrNoKey), whatever came before. The last call that they make is then to a server
-- that gives such an answer: that server becomes the leader that the clerk calls next, the clerk's
-- number is one higher, and Get's value is the one in the answer, or empty at ErrNoKey. Every call
-- that they make carries the same arguments, with the number that the clerk had.
pub call_returns :
    (key value : Bytes) (op : Optype) (ck : Clerk) (put_turns : List (Turn Err)) (put : Turn Err)
    (get_turns : List (Turn GetReply)) (got : Turn GetReply)
    → Memᴰ put put_turns
    → AnswersPut put
    → Memᴰ got get_turns
    → AnswersGet got
    → ((t : Turn Err) × (server : ℕ) × ((put_append key value op put_turns ck).1
          ≡ some (record ck { seq_num = ck.seq_num + 1; leader_id = some server }))
        × IsLastCall
            (put_append_args key value op ck)
            server
            t
            put_turns
            (put_append key value op put_turns ck).0
        × AnswersPut t
        × AllCarry (put_append_args key value op ck) (put_append key value op put_turns ck).0)
      × ((t : Turn GetReply) × (server : ℕ) × (v : Bytes) × ((get key get_turns ck).1
            ≡ some (record ck { seq_num = ck.seq_num + 1; leader_id = some server }, v))
          × IsLastCall (get_args key ck) server t get_turns (get key get_turns ck).0
          × (t.through ≡ true)
          × IsValueOf t.reply v
          × AllCarry (get_args key ck) (get key get_turns ck).0)
unfolding put_append get
call_returns key value op ck put_turns put get_turns got m is_put m' is_get =
    let args = put_append_args key value op ck in
    let (t, server, returns, last, is) =
      put_append_loop_returns args false put_turns ck put m is_put in
    let args' = get_args key ck in
    let (t', server', v, returns', last', through, of) =
      get_loop_returns args' false get_turns ck got m' is_get in
    (
      (t, server, returns, last, is, put_append_loop-AllCarry args false put_turns ck),
      (t', server', v, returns', last', through, of, get_loop-AllCarry args' false get_turns ck),
    )
