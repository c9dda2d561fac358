-- ===== src/ShardCtrler/Rebalance/Spec.antt =====
-- src/shardctrler/server.go: `rebalance` against what a client may rely on.
use sharded_kv.Prelude.{
  ℕ, ◌+◌, ◌≤◌, ◌<◌, ◌==◌, ◌≡◌, sym, ap, ◌∙◌, inl, inr, Bool, true, false, some, List, [], ltb,
  if◌then◌else◌, length, get_or, replicate, GoMap, keys, index, has, nat_eq, arith, ==_iff,
  Bool-cases, Option-cases,
}
use sharded_kv.ShardCtrler.Common.{n_shards, Groups}
use sharded_kv.ShardCtrler.Rebalance.{
  GidToShards, free_shards, sort_ints, balance, write_groups, rebalance, rebalance_fuel,
  get_gid_to_shards_map,
}
use sharded_kv.ShardCtrler.Rebalance.Total.{contains, Distinct, count, total}
use sharded_kv.ShardCtrler.Rebalance.Scan.{load}
use sharded_kv.ShardCtrler.Rebalance.Moves.{le_total}
use sharded_kv.ShardCtrler.Rebalance.Loop.{balance_lem, Settles}
use sharded_kv.ShardCtrler.Rebalance.Owners
use sharded_kv.ShardCtrler.Rebalance.Owners.{in_range}
use sharded_kv.ShardCtrler.Rebalance.Written.{
  length-write_groups, write_groups_in, holder, count_of_shards,
}

-- Every shard below `n_shards` is counted once, and no other number.
abbrev pub IsPartition : List ℕ → GidToShards → Type 0
IsPartition live m = (s : ℕ) → total (count s) live m ≡ in_range 0 n_shards s

abbrev pub result : List ℕ → GidToShards → List ℕ
result live m = write_groups live m (replicate n_shards 0)

module _ (live : List ℕ) (m : GidToShards) (part : IsPartition live m) where
  pub assigned_to :
      (s g : ℕ)
      → s < n_shards
      → contains live g ≡ true
      → 0 < count s (index m g [])
      → get_or (result live m) s 0 ≡ g
  assigned_to s g h c p =
      write_groups_in live m (replicate n_shards 0) s g h c p (ground (arith, part s))

  pub assigned_live : (s : ℕ) → s < n_shards → contains live (get_or (result live m) s 0) ≡ true
  assigned_live s h =
      let (g, c, p) = holder live m s (ground (arith, part s)) in rw (assigned_to s g h c p) c

  inside :
      (g : ℕ)
      → contains live g ≡ true
      → (s : ℕ) → s < n_shards
      → count s (index m g []) ≡ (if get_or (result live m) s 0 == g then 1 else 0)
  inside g c s h =
      let (k, kc, kp) = holder live m s (ground (arith, part s)) in
      elim (Bool-cases (ltb 0 (count s (index m g [])))) [
        | inl held ↦
            ground
              (arith, assigned_to s g h c (ground arith), le_total (count s) live m g c, part s)
        | inr free ↦ ground (
          arith,
          assigned_to s k h kc kp,
          ==_iff k g,
          ap (λ t. count s (index m t [])) {x = k} {y = g},
        )
      ]

  pub count-result : (g : ℕ) → contains live g ≡ true → count g (result live m) ≡ load m g
  count-result g c =
      count_of_shards 0 (result live m) (index m g []) g
        (λ s h. zero_plus s g ∙ inside g c s (rw (length-write_groups) at h))
        (λ s h. absurd (omega arith))
        (λ s h. ground (
          arith,
          part s,
          le_total (count s) live m g c,
          length-write_groups live m (replicate n_shards 0),
        ))
    where
      zero_plus : (s g : ℕ) → count (0 + s) (index m g []) ≡ count s (index m g [])
      zero_plus s g = ap (λ t. count t (index m g [])) (omega arith)

abbrev pub map_of : List ℕ → Groups → GidToShards
map_of = get_gid_to_shards_map

abbrev pub live_of : List ℕ → Groups → List ℕ
live_of shards groups = sort_ints (keys (map_of shards groups))

module _ (shards : List ℕ) (groups : Groups) where
  pub has-map : (g : ℕ) → has g (map_of shards groups) ≡ has g groups
  has-map g = Owners.has-get_gid_to_shards_map shards groups g

  pub contains-live : (g : ℕ) → contains (live_of shards groups) g ≡ has g groups
  contains-live g =
      Owners.contains-sort_ints (keys (map_of shards groups)) g
      ∙ Owners.contains-keys (map_of shards groups) g
      ∙ has-map g

  pub Distinct-live : Distinct (live_of shards groups)
  Distinct-live = Owners.Distinct-sort_ints _ (Owners.Distinct-get_gid_to_shards_map shards groups)

-- What a client may rely on in the new assignment of shards.
pub record IsFair (groups : Groups) (new_shards : List ℕ) : Type 0 where
  pub array : length new_shards ≡ n_shards
  pub alive : (s : ℕ) → s < n_shards → has (get_or new_shards s 0) groups ≡ true
  pub even :
      (g h : ℕ)
      → has g groups ≡ true
      → has h groups ≡ true
      → count g new_shards ≤ count h new_shards + 1

pub rebalance_done :
    (m m' : GidToShards) (shards : List ℕ) (moved : GoMap ℕ Bool)
    → balance rebalance_fuel (sort_ints (keys m)) (free_shards 0 shards m) m [] ≡ some (m', moved)
    → rebalance m shards ≡ some (result (sort_ints (keys m)) m', moved)
unfolding rebalance
rebalance_done m m' shards moved h = rw (h, rebalance)

-- The array returned has its full length, whatever the groups.
pub length-rebalance :
    (m : GidToShards) (shards new_shards : List ℕ) (moved : GoMap ℕ Bool)
    → rebalance m shards ≡ some (new_shards, moved)
    → length new_shards ≡ n_shards
unfolding rebalance
length-rebalance m shards new_shards moved h =
    elim (Option-cases
      (balance rebalance_fuel (sort_ints (keys m)) (free_shards 0 shards m) m [])) [
        | inl q ↦ cc (rw (q, rebalance) at h)
        | inr ((m', moved'), q) ↦
            let e = rw (q, rebalance) at h in
            ground (arith, length-write_groups (sort_ints (keys m)) m' (replicate n_shards 0))
      ]

-- For an array of ten shards, and groups of which there is at least one and none is called 0,
-- `rebalance` returns on the map of the groups that live on: the fuel is enough and nothing
-- panics. In the new array every shard goes to a live group, and the loads of two groups differ by
-- at most one.
pub rebalance-IsFair :
    (shards : List ℕ) (groups : Groups) (x : ℕ)
    → length shards ≡ n_shards
    → has 0 groups ≡ false
    → has x groups ≡ true
    → (new_shards : List ℕ) × (moved : GoMap ℕ Bool) × (rebalance
          (get_gid_to_shards_map shards groups)
          shards
        ≡ some (new_shards, moved))
      × IsFair groups new_shards
rebalance-IsFair shards groups x full no_zero x_alive = (
  write_groups live settled.0 (replicate n_shards 0),
  settled.1,
  rebalance_done m settled.0 shards settled.1 settled.2,
  record {
    array = length-write_groups live settled.0 (replicate n_shards 0);
    alive = λ s h. sym (alive _) ∙ assigned_live live settled.0 part s h;
    even = λ g h ag ah. omega (
      arith,
      count-result live settled.0 part g (alive g ∙ ag),
      count-result live settled.0 part h (alive h ∙ ah),
      settled.3.close g h (alive g ∙ ag) (alive h ∙ ah),
    );
  },
)
  where
    live : List ℕ
    live = live_of shards groups

    m : GidToShards
    m = map_of shards groups

    alive : (g : ℕ) → contains live g ≡ has g groups
    alive = contains-live shards groups

    settled : Settles rebalance_fuel live (free_shards 0 shards m) m []
    settled =
        balance_lem live x (Distinct-live shards groups) (alive x ∙ x_alive) rebalance_fuel
          (free_shards 0 shards m) m [] (omega (arith, loads)) (omega (arith, loads))
      where
        loads : total length live m + length (free_shards 0 shards m) ≡ length shards
        loads =
            Owners.start_loads shards groups live (Distinct-live shards groups) (λ g. sym (alive g))
              (alive 0 ∙ no_zero)

    part : IsPartition live settled.0
    part s =
        settled.3.counts s
        ∙ Owners.start_counts shards groups live (Distinct-live shards groups) (λ g. sym (alive g))
            (alive 0 ∙ no_zero) s
        ∙ ap (λ n. in_range 0 n s) full
