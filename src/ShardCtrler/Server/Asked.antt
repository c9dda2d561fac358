-- ===== src/ShardCtrler/Server/Asked.antt =====
-- src/shardctrler/server.go and common.go: the groups after a Join and after a Leave, key by key.
use sharded_kv.Prelude.{
  ℕ, ◌==◌, ◌≡◌, refl, sym, ap, ◌∙◌, inl, inr, Option, none, some, List, [], ◌∷◌, String,
  if◌then◌else◌, HasDistinctKeys, lookup, has, put, delete, lookup-put, lookup-delete, nat_eq,
  arith, ==_iff, Bool-cases,
}
use sharded_kv.ShardCtrler.Common.{Groups, Config, Op, join_args_type}
use sharded_kv.ShardCtrler.Rebalance.{copy_into, get_group_map_copy}
use sharded_kv.ShardCtrler.Rebalance.Total.{contains}
use sharded_kv.ShardCtrler.Server.{join_groups, leave_groups}
use sharded_kv.ShardCtrler.Server.Configs.{joined, left}

abbrev pub or_else : Option (List String) → Option (List String) → Option (List String)
or_else none b = b
or_else (some a) b = some a

-- The servers that group `gid` is to have after a Join, or else a Leave.
abbrev pub asked : Op → Config → ℕ → Option (List String)
asked op old gid =
    if op.args_type == join_args_type
    then or_else (lookup gid op.servers) (lookup gid old.groups)
    else if contains op.gids gid
    then none
    else lookup gid old.groups

lookup-copy_into :
    (copy original : Groups) (gid : ℕ)
    → HasDistinctKeys original
    → lookup gid (copy_into copy original) ≡ or_else (lookup gid original) (lookup gid copy)
unfolding copy_into lookup
lookup-copy_into copy [] gid d = refl
lookup-copy_into copy ((g, servers) ∷ rest) gid d = ground (
  arith,
  lookup-copy_into (put g servers copy) rest gid d.1,
  lookup-put g gid servers copy,
  d.0,
  ap (λ x. lookup x rest) {x = g} {y = gid},
)

Distinct-put :
    (g : ℕ) (servers : List String) (m : Groups)
    → HasDistinctKeys m
    → HasDistinctKeys (put g servers m)
unfolding put lookup
Distinct-put g servers [] d = (refl, tt)
Distinct-put g servers ((j, w) ∷ m) d = elim (Bool-cases (j == g)) [
  | inl same ↦ rw (same, put) (sym (ap (λ k. lookup k m) ((==_iff j g).0 same)) ∙ d.0, d.1)
  | inr other ↦
      rw (other, put)
        (lookup-put g j servers m ∙ ground (arith, other, d.0), Distinct-put g servers m d.1)
]

Distinct-copy_into :
    (copy original : Groups) → HasDistinctKeys copy → HasDistinctKeys (copy_into copy original)
unfolding copy_into
Distinct-copy_into copy [] d = d
Distinct-copy_into copy ((g, servers) ∷ rest) d =
    Distinct-copy_into (put g servers copy) rest (Distinct-put g servers copy d)

or_else-none : (o : Option (List String)) → or_else o none ≡ o
or_else-none none = refl
or_else-none (some x) = refl

lookup-get_group_map_copy :
    (m : Groups) (gid : ℕ) → HasDistinctKeys m → lookup gid (get_group_map_copy m) ≡ lookup gid m
unfolding get_group_map_copy lookup
lookup-get_group_map_copy m gid d = lookup-copy_into [] m gid d ∙ or_else-none (lookup gid m)

lookup-join_groups :
    (m added : Groups) (gid : ℕ)
    → HasDistinctKeys added
    → lookup gid (join_groups m added) ≡ or_else (lookup gid added) (lookup gid m)
unfolding join_groups lookup
lookup-join_groups m [] gid d = refl
lookup-join_groups m ((g, servers) ∷ rest) gid d = ground (
  arith,
  lookup-join_groups (put g servers (if has g m then delete g m else m)) rest gid d.1,
  lookup-put g gid servers (if has g m then delete g m else m),
  lookup-delete g gid m,
  d.0,
  ap (λ x. lookup x rest) {x = g} {y = gid},
)

lookup-leave_groups :
    (m : Groups) (gids : List ℕ) (gid : ℕ)
    → lookup gid (leave_groups m gids) ≡ (if contains gids gid then none else lookup gid m)
unfolding leave_groups contains lookup
lookup-leave_groups m [] gid = refl
lookup-leave_groups m (g ∷ rest) gid =
    ground (arith, lookup-leave_groups (delete g m) rest gid, lookup-delete g gid m)

pub lookup-joined :
    (old : Config) (op : Op) (gid : ℕ)
    → HasDistinctKeys old.groups
    → HasDistinctKeys op.servers
    → lookup gid (joined old op) ≡ or_else (lookup gid op.servers) (lookup gid old.groups)
unfolding get_group_map_copy
lookup-joined old op gid d d' =
    lookup-join_groups (get_group_map_copy old.groups) (get_group_map_copy op.servers) gid
      (Distinct-copy_into [] op.servers tt)
    ∙ rw (lookup-get_group_map_copy op.servers gid d', lookup-get_group_map_copy old.groups gid d)
        refl

pub lookup-left :
    (old : Config) (op : Op) (gid : ℕ)
    → HasDistinctKeys old.groups
    → lookup gid (left old op) ≡ (if contains op.gids gid then none else lookup gid old.groups)
lookup-left old op gid d =
    lookup-leave_groups (get_group_map_copy old.groups) op.gids gid
    ∙ rw (lookup-get_group_map_copy old.groups gid d) refl
