-- ===== src/ShardCtrler/Clerk/Answers.antt =====
-- src/shardctrler/client.go with RequestHandler of src/shardctrler/server.go: what a clerk learns
-- from the answers to its query.
use sharded_kv.Prelude.{
  ℕ, ◌+◌, ◌==◌, ◌≡◌, refl, sym, ap, ◌∙◌, ◌⊎◌, inl, inr, true, false, ◌&&◌, some, List, [], ◌∷◌,
  arith, AllCarry, Bool-cases, Option-cases, ℤ,
}
use mathlib.Core.List.{Memᴰ}
use mathlib.Core.Option.{some_inj}
use sharded_kv.ShardCtrler.Common.{Config, Op}
use sharded_kv.ShardCtrler.Rebalance.{get_group_map_copy}
use sharded_kv.ShardCtrler.Server.{ShardCtrler, CommandReply, received, request_finish, get_config}
use sharded_kv.ShardCtrler.Clerk.{
  Clerk, Turn, is_answer, next_server, request_from, request, query_args, query,
}

-- A handler replies that it does not lead, or it has waited for a command that some server state
-- has applied. Of the commands with the clerk's name and number there is only the one it has sent.
abbrev pub IsReplyTo : Op → List ShardCtrler → CommandReply → Type 0
IsReplyTo args states reply =
    (reply.wrong_leader ≡ true)
    ⊎ ((op : Op) × (sc : ShardCtrler) × Memᴰ sc states
        × ((op.seq_num == args.seq_num && op.client_id == args.client_id) ≡ true → op ≡ args)
        × (request_finish args (received op) sc ≡ some reply))

-- The configuration `c` with its map of groups copied.
abbrev pub copied : Config → Config
copied c = record c { groups = get_group_map_copy c.groups }

request_from_final :
    (server : ℕ) (args : Op) (turns : List (Turn CommandReply)) (ck ck' : Clerk)
    (reply : CommandReply)
    → (request_from server args turns ck).1 ≡ some (ck', reply)
    → (t : Turn CommandReply) × Memᴰ t turns
      × (is_answer t ≡ true)
      × (t.reply ≡ reply)
      × (ck' ≡ record ck { seq_num = ck.seq_num + 1 })
      × AllCarry args (request_from server args turns ck).0
unfolding request_from
request_from_final server args [] ck ck' reply returns = absurd (ground arith)
request_from_final server args (t ∷ ts) ck ck' reply returns = elim (Bool-cases (is_answer t)) [
  | inl is ↦
      let same = some_inj.0 (rw is at returns) in
      (
        t,
        Memᴰ.head refl,
        is,
        ap (λ (p : Clerk × CommandReply). p.1) same,
        sym (ap (λ (p : Clerk × CommandReply). p.0) same),
        rw is (refl, tt),
      )
  | inr isnt ↦
      let (t', m, is, same, next, carry) =
        request_from_final (next_server server ck) args ts ck ck' reply (rw isnt at returns) in
      (t', Memᴰ.tail m, is, same, next, rw isnt (refl, carry))
]

request_finish-query :
    (num : ℤ) (ck : Clerk) (states : List ShardCtrler) (reply : CommandReply)
    → IsReplyTo (query_args num ck) states reply
    → reply.wrong_leader ≡ false
    → (sc : ShardCtrler) × (c : Config) × Memᴰ sc states
      × (get_config num sc ≡ some c)
      × (reply.config ≡ copied c)
unfolding request_finish
request_finish-query num ck states reply (inl wrong) leads = absurd (ground (arith, wrong, leads))
request_finish-query num ck states reply (inr (op, sc, m, own, finish)) leads =
    let args = query_args num ck in
    elim (Bool-cases (op.seq_num == args.seq_num && op.client_id == args.client_id)) [
      | inr other ↦
          let same = some_inj.0 (rw other at finish) in
          absurd (ground (arith, ap (λ (r : CommandReply). r.wrong_leader) same, leads))
      | inl is ↦ elim (Option-cases (get_config num sc)) [
        | inl q ↦
            absurd (ground (arith, rw (is, ap (λ (o : Op). o.args_type) (own is), q) at finish))
        | inr (c, q) ↦
            let same = some_inj.0 (rw (is, ap (λ (o : Op). o.args_type) (own is), q) at finish) in
            (sc, c, m, q, sym (ap (λ (r : CommandReply). r.config) same))
      ]
    ]

-- A Query that returns gives the configuration that its number asks for in a state which some
-- server had: what getConfig gives there, with its groups copied. This holds whatever calls were
-- lost and whatever servers did not lead, if each reply that got through comes from a handler and
-- the clerk's name and number belong to its query alone. All attempts of the query carry the same
-- arguments, and the clerk's number is one higher afterwards.
pub query_answer :
    (num : ℤ) (turns : List (Turn CommandReply)) (ck ck' : Clerk) (config : Config)
    (states : List ShardCtrler)
    → ((t : Turn CommandReply)
        → Memᴰ t turns
        → t.through ≡ true
        → IsReplyTo (query_args num ck) states t.reply)
    → (query num turns ck).1 ≡ some (ck', config)
    → (sc : ShardCtrler) × (c : Config) × Memᴰ sc states
      × (get_config num sc ≡ some c)
      × (config ≡ copied c)
      × (ck' ≡ record ck { seq_num = ck.seq_num + 1 })
      × AllCarry (query_args num ck) (query num turns ck).0
unfolding query request
query_answer num turns ck ck' config states replies returns = elim (Bool-cases (ck.servers == 0)) [
  | inl nobody ↦ absurd (ground (arith, rw nobody at returns))
  | inr some_server ↦
      let args = query_args num ck in
      elim (Option-cases (request_from 0 args turns ck).1) [
        | inl q ↦ absurd (ground (arith, rw (some_server, q) at returns))
        | inr ((ck1, reply), q) ↦
            let same = some_inj.0 (rw (some_server, q) at returns) in
            let (t, m, is, reply_is, next, carry) =
              request_from_final 0 args turns ck ck1 reply q in
            let (sc, c, m', get, config_is) =
              request_finish-query num ck states t.reply (replies t m (ground (arith, is)))
                (ground (arith, is)) in
            (
              sc,
              c,
              m',
              get,
              sym (ap (λ (p : Clerk × Config). p.1) same)
                  ∙ sym (ap (λ (r : CommandReply). r.config) reply_is)
                  ∙ config_is,
              sym (ap (λ (p : Clerk × Config). p.0) same) ∙ next,
              rw some_server carry,
            )
      ]
]
