-- ===== src/ShardCtrler/Server/Fairness.antt =====
-- src/shardctrler/server.go: the owners of the shards over a whole log without a Move.
use sharded_kv.Prelude.{
  ℕ, zero, suc, ◌-◌, ◌<◌, ◌==◌, ◌≡◌, ◌≢◌, refl, sym, ap, ◌∙◌, inl, inr, Bool, true, false, none,
  some, List, [], ◌∷◌, ◌++◌, leb, length, get_elem?, lookup, index, has, put, delete, lookup-put,
  lookup-delete, nat_eq, arith, ==_iff, subst, if◌then◌else◌, Bool-cases, Option-cases,
}
use mathlib.Core.Option.{some_inj}
use sharded_kv.ShardCtrler.Common.{
  n_shards, Groups, Config, Op, join_args_type, leave_args_type, move_args_type,
}
use sharded_kv.ShardCtrler.Rebalance.{copy_into, get_group_map_copy}
use sharded_kv.ShardCtrler.Rebalance.Spec.{IsFair}
use sharded_kv.ShardCtrler.Server.{
  ShardCtrler, start_server, join_groups, leave_groups, rebalanced, appended, last_config,
  next_config, apply_to_state_machine, open_session, apply_handler,
}
use sharded_kv.ShardCtrler.Server.Configs.{
  joined, left, next_config-join, next_config-leave, rebalanced_parts, rebalanced-IsFair,
}
use sharded_kv.ShardCtrler.Server.History.{
  IsHistory, IsHistory-start_server, last_config_lem, apply_cases, configs-deliver,
  configs-open_session, apply_handler-IsHistory, Message, run, configs_numbered,
}

-- No group is called 0, and if there is a group then the shards are shared out fairly.
abbrev pub IsShared : Config → Type 0
IsShared c =
    (lookup 0 c.groups ≡ none) × ((x : ℕ) → has x c.groups ≡ true → IsFair c.groups c.shards)

abbrev AllShared : List Config → Type 0
AllShared [] = Unit {0}
AllShared (c ∷ cs) = IsShared c × AllShared cs

-- An operation that is no Move and names no group 0.
abbrev pub IsPlain : Op → Type 0
IsPlain op = (op.args_type ≢ move_args_type) × (lookup 0 op.servers ≡ none)

abbrev pub AllPlain : List Message → Type 0
AllPlain [] = Unit {0}
AllPlain (m ∷ log) = IsPlain m.op × AllPlain log

Shared-get :
    (cs : List Config) (i : ℕ) (c : Config) → AllShared cs → get_elem? cs i ≡ some c → IsShared c
Shared-get [] i c a e = absurd (ground arith)
Shared-get (d ∷ cs) zero c a e = subst IsShared (some_inj.0 e) a.0
Shared-get (d ∷ cs) (suc i) c a e = Shared-get cs i c a.1 e

Shared-append :
    (cs : List Config) (c : Config) → AllShared cs → IsShared c → AllShared (cs ++ c ∷ [])
Shared-append [] c a s = (s, tt)
Shared-append (d ∷ cs) c a s = (a.0, Shared-append cs c a.1 s)

absent-copy_into :
    (copy original : Groups) (g : ℕ)
    → lookup g copy ≡ none
    → lookup g original ≡ none
    → lookup g (copy_into copy original) ≡ none
unfolding copy_into lookup
absent-copy_into copy [] g a b = a
absent-copy_into copy ((k, servers) ∷ rest) g a b =
    absent-copy_into (put k servers copy) rest g
      (lookup-put k g servers copy ∙ ground (arith, a, b)) (ground (arith, b))

absent-join_groups :
    (m added : Groups) (g : ℕ)
    → lookup g m ≡ none
    → lookup g added ≡ none
    → lookup g (join_groups m added) ≡ none
unfolding join_groups lookup
absent-join_groups m [] g a b = a
absent-join_groups m ((k, servers) ∷ rest) g a b =
    absent-join_groups (put k servers (if has k m then delete k m else m)) rest g
      (ground (
        arith,
        lookup-put k g servers (if has k m then delete k m else m),
        lookup-delete k g m,
        a,
        b,
      ))
      (ground (arith, b))

absent-leave_groups :
    (m : Groups) (gids : List ℕ) (g : ℕ) → lookup g m ≡ none → lookup g (leave_groups m gids) ≡ none
unfolding leave_groups
absent-leave_groups m [] g a = a
absent-leave_groups m (k ∷ rest) g a =
    absent-leave_groups (delete k m) rest g (lookup-delete k g m ∙ ground (arith, a))

absent-has : (g : ℕ) (m : Groups) → lookup g m ≡ none → has g m ≡ false
unfolding has
absent-has g m h = rw (h, has) refl

rebalanced-IsShared :
    (old c : Config) (groups : Groups)
    → length old.shards ≡ n_shards
    → lookup 0 groups ≡ none
    → appended (rebalanced old groups) ≡ some (some c)
    → IsShared c
rebalanced-IsShared old c groups full absent made = elim (Option-cases (rebalanced old groups)) [
  | inl q ↦ absurd (ground (arith, rw q at made))
  | inr (d, q) ↦
      let same : d ≡ c = some_inj.0 (some_inj.0 (rw q at made)) in
      let e = rebalanced_parts old d groups q in
      subst IsShared same (
        ap (lookup 0) e.2 ∙ absent,
        λ x there.
            subst (λ (g : Groups). IsFair g d.shards) (sym e.2)
              (rebalanced-IsFair old d groups x full (absent-has 0 groups absent)
                (sym (ap (has x) e.2) ∙ there) q),
      )
]

next_config-IsShared :
    (old c : Config) (op : Op)
    → length old.shards ≡ n_shards
    → IsShared old
    → IsPlain op
    → next_config old op ≡ some (some c)
    → IsShared c
unfolding next_config get_group_map_copy lookup
next_config-IsShared old c op full shared plain made =
    let copy = absent-copy_into [] old.groups 0 refl shared.0 in
    elim (Bool-cases (op.args_type == join_args_type)) [
      | inl join ↦
          rebalanced-IsShared old c (joined old op) full
            (absent-join_groups (get_group_map_copy old.groups) (get_group_map_copy op.servers) 0
              copy (absent-copy_into [] op.servers 0 refl plain.1))
            (sym (next_config-join old op ((==_iff op.args_type join_args_type).0 join)) ∙ made)
      | inr other ↦ elim (Bool-cases (op.args_type == leave_args_type)) [
        | inl leave ↦
            rebalanced-IsShared old c (left old op) full
              (absent-leave_groups (get_group_map_copy old.groups) op.gids 0 copy)
              (sym (next_config-leave old op ((==_iff op.args_type leave_args_type).0 leave))
                ∙ made)
        | inr neither ↦ elim (Bool-cases (op.args_type == move_args_type)) [
          | inl move ↦ absurd (plain.0 ((==_iff op.args_type move_args_type).0 move))
          | inr query ↦ absurd (ground (arith, rw (other, neither, query, next_config) at made))
        ]
      ]
    ]

apply_to_state_machine-AllShared :
    (op : Op) (sc sc' : ShardCtrler)
    → IsHistory sc.configs
    → AllShared sc.configs
    → IsPlain op
    → apply_to_state_machine op sc ≡ some sc'
    → AllShared sc'.configs
unfolding last_config apply_to_state_machine
apply_to_state_machine-AllShared op sc sc' h a plain made =
    let (old, q, e, full) = last_config_lem sc.configs h in
    elim (Option-cases (next_config old op)) [
      | inl r ↦ absurd (ground (arith, rw (q, r, apply_to_state_machine) at made))
      | inr (none, r) ↦
          subst AllShared
            (ap (λ (s : ShardCtrler). s.configs)
              (some_inj.0 (sym (apply_cases op sc old none q r) ∙ made)))
            a
      | inr (some c, r) ↦
          subst AllShared
            (ap (λ (s : ShardCtrler). s.configs)
              (some_inj.0 (sym (apply_cases op sc old (some c) q r) ∙ made)))
            (Shared-append sc.configs c a (
              next_config-IsShared old c op full
                (Shared-get sc.configs (length sc.configs - 1) old a q) plain r))
    ]

apply_handler-AllShared :
    (valid : Bool) (i : ℕ) (op : Op) (sc sc' : ShardCtrler)
    → IsHistory sc.configs
    → AllShared sc.configs
    → IsPlain op
    → apply_handler valid i op sc ≡ some sc'
    → AllShared sc'.configs
unfolding apply_handler
apply_handler-AllShared false i op sc sc' h a plain made =
    subst AllShared (ap (λ (s : ShardCtrler). s.configs) (some_inj.0 made)) a
apply_handler-AllShared true i op sc sc' h a plain made =
    let sc1 = open_session op.client_id sc in
    let opened = configs-open_session op.client_id sc in
    elim (Bool-cases (leb op.seq_num (index sc1.client_seq op.client_id 0))) [
      | inl old ↦
          subst AllShared
            (sym opened
              ∙ sym (configs-deliver i op sc1)
              ∙ ap (λ (s : ShardCtrler). s.configs) (some_inj.0 (rw (old, apply_handler) at made)))
            a
      | inr fresh ↦ elim (Option-cases (apply_to_state_machine op sc1)) [
        | inl q ↦ absurd (ground (arith, rw (fresh, q, apply_handler) at made))
        | inr (sc2, q) ↦
            subst AllShared
              (sym (configs-deliver i op sc2)
                ∙ ap (λ (s : ShardCtrler). s.configs)
                    (some_inj.0 (rw (fresh, q, apply_handler) at made)))
              (apply_to_state_machine-AllShared op sc1 sc2 (subst IsHistory (sym opened) h)
                (subst AllShared (sym opened) a) plain q)
      ]
    ]

run-AllShared :
    (log : List Message) (sc sc' : ShardCtrler)
    → IsHistory sc.configs
    → AllShared sc.configs
    → AllPlain log
    → run log sc ≡ some sc'
    → AllShared sc'.configs
unfolding run
run-AllShared [] sc sc' h a plain e =
    subst AllShared (ap (λ (s : ShardCtrler). s.configs) (some_inj.0 e)) a
run-AllShared (m ∷ rest) sc sc' h a plain e =
    elim (Option-cases (apply_handler m.command_valid m.command_index m.op sc)) [
      | inl q ↦ cc (rw (q, run) at e)
      | inr (sc1, q) ↦
          run-AllShared rest sc1 sc'
            (apply_handler-IsHistory m.command_valid m.command_index m.op sc sc1 h q).0
            (apply_handler-AllShared m.command_valid m.command_index m.op sc sc1 h a plain.0 q)
            plain.1 (rw (q, run) at e)
    ]

-- Let the controller have applied any log of messages since its start without a panic, in which
-- there is no Move and no Join of a group called 0. Then for every n below the length of the
-- history the configuration with number n stands at index n; it has no group 0; and if it has a
-- group at all, then each shard is with one of its groups, and the numbers of shards of two groups
-- differ by at most one.
pub configs-IsShared :
    (log : List Message) (sc : ShardCtrler) (n : ℕ)
    → run log start_server ≡ some sc
    → AllPlain log
    → n < length sc.configs
    → (c : Config) × (get_elem? sc.configs n ≡ some c) × (c.num ≡ n) × IsShared c
unfolding lookup has
configs-IsShared log sc n e plain h =
    let (c, q, num, full) = configs_numbered log sc n e h in
    let shared =
      run-AllShared log start_server sc IsHistory-start_server
        ((refl, λ x there. absurd (ground (arith, there))), tt) plain e in
    (c, q, num, Shared-get sc.configs n c shared q)
