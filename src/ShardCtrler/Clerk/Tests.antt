-- ===== src/ShardCtrler/Clerk/Tests.antt =====
-- Runs of the controller's clerk, src/shardctrler/client.go, on small inputs.
use sharded_kv.Prelude.{
  ℕ, zero, ◌+◌, ◌≡◌, refl, sym, ap, ◌∙◌, inl, inr, true, false, some, Option, List, [], ◌∷◌, arith,
  AllCarry, negsuc,
}
use mathlib.Core.List.{Memᴰ}
use sharded_kv.ShardCtrler.Common.{Config, zero_config, Op}
use sharded_kv.ShardCtrler.Rebalance.{get_group_map_copy}
use sharded_kv.ShardCtrler.Server.{
  ok, ShardCtrler, start_server, CommandReply, wrong_leader_reply, received, request_finish,
  get_config,
}
use sharded_kv.ShardCtrler.Clerk.{Clerk, Turn, make_clerk, query_args, query}
use sharded_kv.ShardCtrler.Clerk.Answers.{IsReplyTo, copied, query_answer}

-- A clerk of two servers asks for the last configuration. Its first call is lost, the second gets
-- to a server that does not lead, and the third to one that has just started.
abbrev clerk : Clerk
clerk = make_clerk 2 7

abbrev args : Op
args = query_args (negsuc zero) clerk

abbrev found : CommandReply
found = record wrong_leader_reply { wrong_leader = false; err = ok }

abbrev turns : List (Turn CommandReply)
turns =
    record { through = false; reply = found }
    ∷ record { through = true; reply = wrong_leader_reply }
    ∷ record { through = true; reply = found }
    ∷ []

abbrev asked : Clerk
asked = record clerk { seq_num = 2 }

queried :
    query (negsuc zero) turns clerk
    ≡ ((0, args) ∷ (1, args) ∷ (0, args) ∷ [], some (asked, zero_config))
unfolding query
queried = refl

handled : request_finish args (received args) start_server ≡ some found
unfolding request_finish get_config get_group_map_copy
handled = refl

replied :
    (t : Turn CommandReply)
    → Memᴰ t turns
    → t.through ≡ true
    → IsReplyTo args (start_server ∷ []) t.reply
replied t (Memᴰ.head e) there =
    absurd (ground (arith, ap (λ (t : Turn CommandReply). t.through) e, there))
replied t (Memᴰ.tail (Memᴰ.head e)) there =
    inl (ap (λ (t : Turn CommandReply). t.reply.wrong_leader) e)
replied t (Memᴰ.tail (Memᴰ.tail (Memᴰ.head e))) there = inr (
  args,
  start_server,
  Memᴰ.head refl,
  λ h. refl,
  handled ∙ ap (λ (t : Turn CommandReply). some t.reply) (sym e),
)
replied t (Memᴰ.tail (Memᴰ.tail (Memᴰ.tail m))) there = elim m [ ]

query_answer_example :
    (sc : ShardCtrler) × (c : Config) × Memᴰ sc (start_server ∷ [])
    × (get_config (negsuc zero) sc ≡ some c)
    × (zero_config ≡ copied c)
    × (asked ≡ record clerk { seq_num = clerk.seq_num + 1 })
    × AllCarry args (query (negsuc zero) turns clerk).0
query_answer_example =
    query_answer (negsuc zero) turns clerk asked zero_config (start_server ∷ []) replied
      (ap (λ (p : List (ℕ × Op) × Option (Clerk × Config)). p.1) queried)
