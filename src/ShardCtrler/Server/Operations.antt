-- ===== src/ShardCtrler/Server/Operations.antt =====
-- src/shardctrler/server.go: Join, Leave, Move and Query on a history.
use sharded_kv.Prelude.{
  ℕ, ◌+◌, ◌-◌, ◌<◌, ◌==◌, ◌≡◌, refl, sym, subst, ap, none, List, String, HasDistinctKeys, lookup,
  ◌∙◌, ◌⊎◌, inl, inr, true, false, some, [], ◌∷◌, ◌++◌, ltb, if◌then◌else◌, length, get_or,
  get_or-set_self, get_or-set_ne, ◌≢◌, has, nat_eq, arith, Bool-cases, pos, negsuc,
}
use sharded_kv.ShardCtrler.Common.{
  n_shards, Groups, Config, Op, move_args_type, join_args_type, leave_args_type,
}
use sharded_kv.ShardCtrler.Rebalance.Spec.{IsFair}
use sharded_kv.ShardCtrler.Server.{
  ShardCtrler, last_config, rebalanced, appended, next_config, apply_to_state_machine, get_config,
}
use sharded_kv.ShardCtrler.Server.Configs.{
  joined, left, next_config-move, next_config-join, next_config-leave, rebalanced_total,
  rebalanced_parts, rebalanced-IsFair,
}
use sharded_kv.ShardCtrler.Server.Asked.{asked, lookup-joined, lookup-left}
use sharded_kv.ShardCtrler.Server.History.{IsHistory, last_config_lem, Numbered-get, apply_cases}

-- `sc'` has one configuration more than `sc`: `c`.
abbrev pub Appends : ShardCtrler → Config → ShardCtrler → Type 0
Appends sc c sc' =
    (sc'.configs ≡ sc.configs ++ c ∷ [])
    × (sc'.client_seq ≡ sc.client_seq)
    × (sc'.wait_chan ≡ sc.wait_chan)

appends :
    (op : Op) (sc : ShardCtrler) (old c : Config)
    → last_config sc.configs ≡ some old
    → next_config old op ≡ some (some c)
    → (sc' : ShardCtrler) × (apply_to_state_machine op sc ≡ some sc') × Appends sc c sc'
appends op sc old c q r = (
  record sc { configs = sc.configs ++ c ∷ [] },
  apply_cases op sc old (some c) q r,
  (refl, refl, refl),
)

-- The groups that a Join or a Leave leaves.
abbrev groups_after : Config → Op → Groups
groups_after old op = if op.args_type == join_args_type then joined old op else left old op

next_config-rebalanced :
    (old : Config) (op : Op)
    → (op.args_type ≡ join_args_type) ⊎ (op.args_type ≡ leave_args_type)
    → next_config old op ≡ appended (rebalanced old (groups_after old op))
next_config-rebalanced old op (inl kind) = ground (arith, next_config-join old op kind)
next_config-rebalanced old op (inr kind) = ground (arith, next_config-leave old op kind)

lookup-groups_after :
    (old : Config) (op : Op) (gid : ℕ)
    → HasDistinctKeys old.groups
    → HasDistinctKeys op.servers
    → lookup gid (groups_after old op) ≡ asked op old gid
lookup-groups_after old op gid d d' = elim (Bool-cases (op.args_type == join_args_type)) [
  | inl join ↦ rw join (lookup-joined old op gid d d')
  | inr leave ↦ rw leave (lookup-left old op gid d)
]

has-none : (gid : ℕ) (m : Groups) → lookup gid m ≡ none → has gid m ≡ false
unfolding has
has-none gid m h = rw (h, has) refl

has-some :
    (gid : ℕ) (m : Groups) (servers : List String) → lookup gid m ≡ some servers → has gid m ≡ true
unfolding has
has-some gid m servers h = rw (h, has) refl

-- On a well-formed history whose last configuration is `old`, a Join or a Leave, which asks for
-- some group and for none called 0, appends one configuration and changes nothing else. Its number
-- is the next one. After a Join a group has the servers that the Join names for it, or if there are
-- none those that it had; after a Leave the groups that it names are gone, and the others have the
-- servers that they had. Each shard is with one of these groups, and the numbers of shards of two
-- groups differ by at most one. No map has a key twice.
pub join_or_leave :
    (op : Op) (sc : ShardCtrler) (old : Config) (x : ℕ) (servers : List String)
    → IsHistory sc.configs
    → last_config sc.configs ≡ some old
    → HasDistinctKeys old.groups
    → HasDistinctKeys op.servers
    → (op.args_type ≡ join_args_type) ⊎ (op.args_type ≡ leave_args_type)
    → asked op old 0 ≡ none
    → asked op old x ≡ some servers
    → (c : Config) × (sc' : ShardCtrler) × (apply_to_state_machine op sc ≡ some sc')
      × Appends sc c sc'
      × (c.num ≡ old.num + 1)
      × ((gid : ℕ) → lookup gid c.groups ≡ asked op old gid)
      × IsFair c.groups c.shards
join_or_leave op sc old x servers h q d d' kind none_0 some_x =
    let no_zero : has 0 (groups_after old op) ≡ false =
      has-none 0 (groups_after old op) (lookup-groups_after old op 0 d d' ∙ none_0) in
    let alive : has x (groups_after old op) ≡ true =
      has-some x (groups_after old op) servers (lookup-groups_after old op x d d' ∙ some_x) in
    let full = last_full sc old h q in
    let (c, r) = rebalanced_total old (groups_after old op) full no_zero in
    let (num, size, groups) = rebalanced_parts old c (groups_after old op) r in
    let (sc', run, grown) =
      appends op sc old c q (next_config-rebalanced old op kind ∙ ap appended r) in
    (
      c,
      sc',
      run,
      grown,
      num,
      λ gid. ap (lookup gid) groups ∙ lookup-groups_after old op gid d d',
      subst (λ (g : Groups). IsFair g c.shards) (sym groups)
          (rebalanced-IsFair old c (groups_after old op) x full no_zero alive r),
    )
  where
    last_full :
        (sc : ShardCtrler) (old : Config)
        → IsHistory sc.configs
        → last_config sc.configs ≡ some old
        → length old.shards ≡ n_shards
    last_full sc old h q = let (d, r, e, f) = last_config_lem sc.configs h in ground arith

-- On a well-formed history whose last configuration is `old`, a Move of a shard below ten appends
-- one configuration and changes nothing else: its number is the next one, that shard is with the
-- group named, and every other shard and the groups are as they were.
pub move_one_shard :
    (op : Op) (sc : ShardCtrler) (old : Config)
    → IsHistory sc.configs
    → last_config sc.configs ≡ some old
    → op.args_type ≡ move_args_type
    → op.shard < n_shards
    → (c : Config) × (sc' : ShardCtrler) × (apply_to_state_machine op sc ≡ some sc')
      × Appends sc c sc'
      × (c.num ≡ old.num + 1)
      × (c.groups ≡ old.groups)
      × (get_or c.shards op.shard 0 ≡ op.gid)
      × ((s : ℕ) → op.shard ≢ s → get_or c.shards s 0 ≡ get_or old.shards s 0)
move_one_shard op sc old h q kind small =
    let (d, r, e, f) = last_config_lem sc.configs h in
    let full : length old.shards ≡ n_shards = ground arith in
    let (sc', run, grown) = appends op sc old _ q (next_config-move old op kind small) in
    (
      _,
      sc',
      run,
      grown,
      refl,
      refl,
      get_or-set_self old.shards op.shard op.gid 0 (omega (arith, full)),
      λ s apart. get_or-set_ne old.shards op.shard s op.gid 0 apart,
    )

-- On a well-formed history, a query for a number in the history gets the configuration of that
-- number, a query for a number that is not there yet gets the last number's, and a query for -1
-- gets the last configuration.
pub get_config_lem :
    (sc : ShardCtrler) (n : ℕ)
    → IsHistory sc.configs
    → (c : Config) × (get_config (pos n) sc ≡ some c)
      × (c.num ≡ (if ltb n (length sc.configs) then n else length sc.configs - 1))
      × (get_config (negsuc 0) sc ≡ last_config sc.configs)
unfolding get_config
get_config_lem sc n h = elim (Bool-cases (ltb n (length sc.configs))) [
  | inl there ↦
      let (c, q, num, full) = Numbered-get 0 sc.configs n h.numbered (ground arith) in
      (c, ground arith, ground arith, refl)
  | inr beyond ↦
      let (c, q, num, full) = last_config_lem sc.configs h in (c, ground arith, ground arith, refl)
]
