-- ===== src/ShardCtrler/Rebalance/Stable.antt =====
-- src/shardctrler/server.go: `rebalance` at its two ends, with no group left and with an
-- assignment that is fair already.
use sharded_kv.Prelude.{
  ℕ, zero, suc, ◌+◌, ◌≤◌, ◌<◌, ◌≡◌, refl, sym, ap, ◌∙◌, inl, inr, Bool, true, false, some, List, [],
  ◌∷◌, length, get_or, replicate, GoMap, index, has, put, nat_eq, arith, ==_iff, Option-cases,
}
use sharded_kv.ShardCtrler.Common.{n_shards, Groups}
use sharded_kv.ShardCtrler.Rebalance.{
  GidToShards, add_shards, no_extremes, scan, is_close, free_shards, sort_ints, balance,
  write_groups, rebalance, rebalance_fuel, get_gid_to_shards_map,
}
use sharded_kv.ShardCtrler.Rebalance.Total.{contains, Distinct, count, total}
use sharded_kv.ShardCtrler.Rebalance.Scan.{load, scan_max}
use sharded_kv.ShardCtrler.Rebalance.Moves.{least_found}
use sharded_kv.ShardCtrler.Rebalance.Loop.{balance_done}
use sharded_kv.ShardCtrler.Rebalance.Owners
use sharded_kv.ShardCtrler.Rebalance.Owners.{assigns, in_range}
use sharded_kv.ShardCtrler.Rebalance.Written.{length-write_groups}
use sharded_kv.ShardCtrler.Rebalance.Spec.{
  IsPartition, IsFair, result, assigned_to, count-result, rebalance_done, map_of, live_of, has-map,
  contains-live, Distinct-live,
}

balance_no_groups :
    (fuel : ℕ) (free : List ℕ) (m : GidToShards) (moved : GoMap ℕ Bool)
    → length free < fuel
    → (moved' : GoMap ℕ Bool) × (balance fuel [] free m moved ≡ some (m, moved'))
unfolding balance
balance_no_groups zero free m moved h = elim h [ ]
balance_no_groups (suc fuel) [] m moved h = (moved, refl)
balance_no_groups (suc fuel) (shard ∷ free) m moved h =
    balance_no_groups fuel free m (put shard true moved) (omega arith)

length-free_shards :
    (i : ℕ) (shards : List ℕ) (m : GidToShards) → length (free_shards i shards m) ≤ length shards
unfolding free_shards
length-free_shards i [] m = omega arith
length-free_shards i (x ∷ rest) m = ground (arith, length-free_shards (i + 1) rest m)

add_shards_none : (i : ℕ) (shards : List ℕ) → add_shards i shards [] [] ≡ []
unfolding has add_shards
add_shards_none i [] = refl
add_shards_none i (x ∷ rest) = add_shards_none (i + 1) rest

-- When no group is left, `rebalance` returns for any array of ten shards, and every shard goes
-- back to the invalid group 0.
pub rebalance_no_groups :
    (shards : List ℕ)
    → length shards ≡ n_shards
    → (moved : GoMap ℕ Bool) × (rebalance (get_gid_to_shards_map shards []) shards
        ≡ some (replicate n_shards 0, moved))
unfolding get_gid_to_shards_map sort_ints write_groups
rebalance_no_groups shards full =
    let (moved, q) =
      balance_no_groups rebalance_fuel (free_shards 0 shards []) [] []
        (omega (arith, length-free_shards 0 shards [])) in
    (moved, rw (add_shards_none 0 shards) (rebalance_done [] [] shards moved q))

-- Shards of live groups leave none free.
all_alive :
    (i : ℕ) (shards : List ℕ) (m : GidToShards)
    → has 0 m ≡ false
    → ((s : ℕ) → s < length shards → has (get_or shards s 0) m ≡ true)
    → free_shards i shards m ≡ []
unfolding free_shards
all_alive i [] m no_zero alive = refl
all_alive i (x ∷ rest) m no_zero alive = ground (
  arith,
  alive 0 (omega arith),
  all_alive (i + 1) rest m no_zero (λ s h. alive (suc s) (omega arith)),
  ==_iff x 0,
)

close_of_loads :
    (m : GidToShards) (live : List ℕ) (x : ℕ)
    → contains live x ≡ true
    → total length live m ≤ n_shards
    → ((g h : ℕ) → contains live g ≡ true → contains live h ≡ true → load m g ≤ load m h + 1)
    → is_close (scan m no_extremes live) ≡ true
unfolding is_close
close_of_loads m live x h small even =
    let (gn, qn, en, n_live) = least_found m live x h small in
    elim (Option-cases (scan m no_extremes live).max) [
      | inl q ↦ rw (q, is_close)
      | inr ((a, gx), q) ↦ elim (scan_max m no_extremes live a gx q) [
        | inl absent ↦ cc
        | inr (ea, x_live) ↦ ground (arith, even gx gn x_live n_live)
      ]
    ]

assigns_self :
    (i : ℕ) (shards : List ℕ) (s : ℕ)
    → s < length shards
    → 0 < assigns i shards (i + s) (get_or shards s 0)
unfolding assigns
assigns_self i [] s h = elim h [ ]
assigns_self i (x ∷ rest) zero h = ground arith
assigns_self i (x ∷ rest) (suc s) h =
    let e : i + suc s ≡ i + 1 + s = omega arith in
    rw e (omega (arith, assigns_self (i + 1) rest s (omega arith)))

list_ext :
    (xs ys : List ℕ)
    → length xs ≡ length ys
    → ((s : ℕ) → s < length ys → get_or xs s 0 ≡ get_or ys s 0)
    → xs ≡ ys
list_ext [] [] h same = refl
list_ext [] (y ∷ ys) h same = absurd (omega arith)
list_ext (x ∷ xs) [] h same = absurd (omega arith)
list_ext (x ∷ xs) (y ∷ ys) h same =
    cc (same 0 (omega arith), list_ext xs ys (omega arith) (λ s lt. same (suc s) (omega arith)))

add_nothing : (n s : ℕ) → n ≡ n + count s []
unfolding count
add_nothing n s = omega arith

assigned_once :
    (shards : List ℕ) (s : ℕ) → s < length shards → 0 < assigns 0 shards s (get_or shards s 0)
assigned_once shards s h = let e : 0 + s ≡ s = omega arith in rw e at (assigns_self 0 shards s h)

-- Where there is a group and none is called 0, an assignment that is fair already stays as it is,
-- and no shard is marked as moved.
pub rebalance_stable :
    (shards : List ℕ) (groups : Groups) (x : ℕ)
    → has 0 groups ≡ false
    → has x groups ≡ true
    → IsFair groups shards
    → rebalance (get_gid_to_shards_map shards groups) shards ≡ some (shards, [])
rebalance_stable shards groups x no_zero x_alive fair =
    rebalance_done m m shards [] (rw none_free (balance_done 199 live m [] settled))
    ∙ ap (λ (r : List ℕ). some (r, [])) unchanged
  where
    live : List ℕ
    live = live_of shards groups

    m : GidToShards
    m = map_of shards groups

    alive : (g : ℕ) → contains live g ≡ has g groups
    alive = contains-live shards groups

    same : (g : ℕ) → has g groups ≡ contains live g
    same g = sym (alive g)

    distinct : Distinct live
    distinct = Distinct-live shards groups

    none_free : free_shards 0 shards m ≡ []
    none_free =
        all_alive 0 shards m (has-map shards groups 0 ∙ no_zero)
          (λ s h. has-map shards groups _ ∙ fair.alive s (omega (arith, fair.array)))

    part : IsPartition live m
    part s =
        nothing_free
        ∙ Owners.start_counts shards groups live distinct same (alive 0 ∙ no_zero) s
        ∙ ap (λ n. in_range 0 n s) fair.array
      where
        nothing_free :
            total (count s) live m ≡ total (count s) live m + count s (free_shards 0 shards m)
        nothing_free = rw none_free (add_nothing (total (count s) live m) s)

    unchanged : result live m ≡ shards
    unchanged =
        list_ext (result live m) shards
          (length-write_groups live m (replicate n_shards 0) ∙ sym fair.array)
          (λ s h.
            let below : s < n_shards = omega (arith, fair.array) in
            assigned_to live m part s (get_or shards s 0) below (alive _ ∙ fair.alive s below)
              (held s h (fair.alive s below)))
      where
        held :
            (s : ℕ)
            → s < length shards
            → has (get_or shards s 0) groups ≡ true
            → 0 < count s (index m (get_or shards s 0) [])
        held s h a =
            rw (Owners.count-get_gid_to_shards_map shards groups s (get_or shards s 0), a)
              (assigned_once shards s h)

    settled : is_close (scan m no_extremes live) ≡ true
    settled =
        close_of_loads m live x (alive x ∙ x_alive)
          (omega (
            arith,
            Owners.start_loads shards groups live distinct same (alive 0 ∙ no_zero),
            fair.array,
          ))
          (λ g h gl hl. omega (
            arith,
            count-result live m part g gl,
            count-result live m part h hl,
            ap (count g) unchanged,
            ap (count h) unchanged,
            fair.even g h (same g ∙ gl) (same h ∙ hl),
          ))
