-- ===== src/ShardCtrler/Server/Sessions.antt =====
-- src/shardctrler/server.go: the table of sessions, `clientSeq`, over the apply loop.
use sharded_kv.Prelude.{
  ℕ, ◌+◌, ◌<◌, ◌≡◌, ◌≢◌, ap, ◌⊎◌, inl, inr, Bool, true, false, none, some, [], ◌∷◌, leb, length,
  length-append, has, index, lookup, nat_eq, arith, index-put, ==_iff, Bool-cases, Option-cases,
}
use sharded_kv.ShardCtrler.Common.{Config, Op, move_args_type, join_args_type, leave_args_type}
use sharded_kv.ShardCtrler.Server.{
  ShardCtrler, last_config, next_config, apply_to_state_machine, deliver, open_session,
  apply_handler,
}
use sharded_kv.ShardCtrler.Server.History.{configs-deliver, configs-open_session}

seq-deliver : (i : ℕ) (op : Op) (sc : ShardCtrler) → (deliver i op sc).client_seq ≡ sc.client_seq
unfolding deliver
seq-deliver i op sc = ground arith

seq-open_session :
    (client c : ℕ) (sc : ShardCtrler)
    → index (open_session client sc).client_seq c 0 ≡ index sc.client_seq c 0
unfolding open_session has index
seq-open_session client c sc = elim (Option-cases (lookup client sc.client_seq)) [
  | inl none_yet ↦ ground (
    arith,
    index-put client c 0 0 sc.client_seq,
    ==_iff client c,
    ap (λ k. lookup k sc.client_seq) {x = client} {y = c},
  )
  | inr (v, there) ↦ ground arith
]

seq-apply_to_state_machine :
    (op : Op) (sc sc' : ShardCtrler)
    → apply_to_state_machine op sc ≡ some sc'
    → sc'.client_seq ≡ sc.client_seq
unfolding apply_to_state_machine
seq-apply_to_state_machine op sc sc' run = ground arith

-- No message that is handled without a panic changes the sequence number recorded for any client.
pub seq-apply_handler :
    (valid : Bool) (i : ℕ) (op : Op) (sc sc' : ShardCtrler) (client : ℕ)
    → apply_handler valid i op sc ≡ some sc'
    → index sc'.client_seq client 0 ≡ index sc.client_seq client 0
unfolding apply_handler
seq-apply_handler false i op sc sc' client run = ground arith
seq-apply_handler true i op sc sc' client run =
    let sc1 = open_session op.client_id sc in
    elim (Bool-cases (leb op.seq_num (index sc1.client_seq op.client_id 0))) [
      | inl old ↦ ground (arith, seq-open_session op.client_id client sc, seq-deliver i op sc1)
      | inr fresh ↦ elim (Option-cases (apply_to_state_machine op sc1)) [
        | inl q ↦ cc (rw (fresh, q, apply_handler) at run)
        | inr (sc2, q) ↦ ground (
          arith,
          rw (fresh, q, apply_handler) at run,
          seq-deliver i op sc2,
          seq-apply_to_state_machine op sc1 sc2 q,
          seq-open_session op.client_id client sc,
        )
      ]
    ]

abbrev pub ChangesConfig : Op → Type 0
ChangesConfig op =
    (op.args_type ≡ join_args_type)
    ⊎ (op.args_type ≡ leave_args_type)
    ⊎ (op.args_type ≡ move_args_type)

next_config_of_change : (old : Config) (op : Op) → ChangesConfig op → next_config old op ≢ some none
unfolding next_config
next_config_of_change old op kind = ground arith

appends_one :
    (op : Op) (sc sc' : ShardCtrler)
    → ChangesConfig op
    → apply_to_state_machine op sc ≡ some sc'
    → length sc'.configs ≡ length sc.configs + 1
unfolding apply_to_state_machine
appends_one op sc sc' kind run = elim (Option-cases (last_config sc.configs)) [
  | inl q ↦ cc (rw (q, apply_to_state_machine) at run)
  | inr (old, q) ↦ elim (Option-cases (next_config old op)) [
    | inl r ↦ cc (rw (q, r, apply_to_state_machine) at run)
    | inr (none, r) ↦ absurd (next_config_of_change old op kind r)
    | inr (some c, r) ↦
        ground (arith, rw (q, r, apply_to_state_machine) at run, length-append sc.configs (c ∷ []))
  ]
]

handled_once :
    (i : ℕ) (op : Op) (sc sc' : ShardCtrler)
    → ChangesConfig op
    → index sc.client_seq op.client_id 0 < op.seq_num
    → apply_handler true i op sc ≡ some sc'
    → length sc'.configs ≡ length sc.configs + 1
unfolding apply_handler
handled_once i op sc sc' kind fresh run =
    let sc1 = open_session op.client_id sc in
    let later : leb op.seq_num (index sc1.client_seq op.client_id 0) ≡ false =
      ground (arith, seq-open_session op.client_id op.client_id sc) in
    elim (Option-cases (apply_to_state_machine op sc1)) [
      | inl q ↦ cc (rw (later, q, apply_handler) at run)
      | inr (sc2, q) ↦ ground (
        arith,
        rw (later, q, apply_handler) at run,
        ap length (configs-deliver i op sc2),
        appends_one op sc1 sc2 kind q,
        ap length (configs-open_session op.client_id sc),
      )
    ]

-- Take a Join, Leave or Move with a sequence number above the one recorded for its client. If Raft
-- hands it over twice, as after a client's retry, and neither time panics, then the history is two
-- configurations longer: the retry is applied a second time.
pub retry_applied_twice :
    (i j : ℕ) (op : Op) (sc sc1 sc2 : ShardCtrler)
    → ChangesConfig op
    → index sc.client_seq op.client_id 0 < op.seq_num
    → apply_handler true i op sc ≡ some sc1
    → apply_handler true j op sc1 ≡ some sc2
    → length sc2.configs ≡ length sc.configs + 2
retry_applied_twice i j op sc sc1 sc2 kind fresh first second = omega (
  arith,
  handled_once i op sc sc1 kind fresh first,
  handled_once j op sc1 sc2 kind (rw (seq-apply_handler true i op sc sc1 op.client_id first) fresh)
      second,
)
