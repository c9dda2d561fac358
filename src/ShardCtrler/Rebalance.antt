-- ===== src/ShardCtrler/Rebalance.antt =====
-- src/shardctrler/server.go: `getGIDtoShardsMap` and `rebalance`, and the copies of maps.
pub mod Total
mod Scan
mod Moves
mod Loop
mod Owners
mod Written
pub mod Spec
pub mod Stable
pub mod Replicas
use sharded_kv.Prelude.{
  ℕ, zero, suc, ◌+◌, ◌==◌, Bool, true, false, ◌||◌, not, Option, none, some, List, [], ◌∷◌, ◌++◌,
  ltb, leb, if◌then◌else◌, length, set, replicate, GoMap, keys, index, has, put, nat_eq,
}
use sharded_kv.ShardCtrler.Common.{n_shards, Groups}

-- gid -> shards[]
abbrev pub GidToShards : Type 0
GidToShards = GoMap ℕ (List ℕ)

unfoldable pub copy_into : Groups → Groups → Groups
copy_into copy [] = copy
copy_into copy ((gid, servers) ∷ rest) = copy_into (put gid servers copy) rest

-- GetGroupMapCopy
unfoldable pub get_group_map_copy : Groups → Groups
unfolding copy_into
get_group_map_copy original = copy_into [] original

-- for gid := range newMap { gitToShards[gid] = make([]int, 0) }
pub init_gids : List ℕ → GidToShards → GidToShards
init_gids [] m = m
init_gids (gid ∷ rest) m = init_gids rest (put gid [] m)

-- for shardIndex, gid := range shards
pub add_shards : ℕ → List ℕ → Groups → GidToShards → GidToShards
add_shards shard_index [] new_map m = m
add_shards shard_index (gid ∷ rest) new_map m =
    add_shards (shard_index + 1) rest new_map
      (if has gid new_map then put gid (index m gid [] ++ shard_index ∷ []) m else m)

unfoldable pub get_gid_to_shards_map : List ℕ → Groups → GidToShards
unfolding init_gids add_shards
get_gid_to_shards_map shards new_map = add_shards 0 shards new_map (init_gids (keys new_map) [])

-- sort.Ints
pub insert_sorted : ℕ → List ℕ → List ℕ
insert_sorted x [] = x ∷ []
insert_sorted x (y ∷ ys) = if leb x y then x ∷ y ∷ ys else y ∷ insert_sorted x ys

pub sort_ints : List ℕ → List ℕ
unfolding insert_sorted
sort_ints [] = []
sort_ints (x ∷ xs) = insert_sorted x (sort_ints xs)

-- for shardIndex, gid := range oldShards: the shards of no live group
pub free_shards : ℕ → List ℕ → GidToShards → List ℕ
free_shards shard_index [] m = []
free_shards shard_index (gid ∷ rest) m =
    let later = free_shards (shard_index + 1) rest m in
    if gid == 0 || not (has gid m) then shard_index ∷ later else later

-- `none` stands for the initial maxShards = -1 and maxGID = -1, and for minGID = -1.
pub record Extremes : Type 0 where
  pub max : Option (ℕ × ℕ)
  pub min_shards : ℕ
  pub min_gid : Option ℕ

abbrev pub no_extremes : Extremes
no_extremes = record { max = none; min_shards = n_shards + 1; min_gid = none }

pub is_above : ℕ → Option (ℕ × ℕ) → Bool
is_above n none = true
is_above n (some (max_shards, max_gid)) = ltb max_shards n

pub visit : GidToShards → Extremes → ℕ → Extremes
unfolding is_above
visit m e gid =
    let n = length (index m gid []) in
    record {
      max = if is_above n e.max then some (n, gid) else e.max;
      min_shards = if ltb n e.min_shards then n else e.min_shards;
      min_gid = if ltb n e.min_shards then some gid else e.min_gid;
    }

-- for _, gid := range liveGroup
pub scan : GidToShards → Extremes → List ℕ → Extremes
unfolding visit
scan m e [] = e
scan m e (gid ∷ rest) = scan m (visit m e gid) rest

-- maxShards-minShards <= 1
pub is_close : Extremes → Bool
is_close e = elim e.max [
  | none ↦ true
  | some (max_shards, max_gid) ↦ leb max_shards (e.min_shards + 1)
]

-- gitToShards[minGID] = append(gitToShards[minGID], shard); under the key -1 nothing is ever read.
pub give : Option ℕ → ℕ → GidToShards → GidToShards
give none shard m = m
give (some gid) shard m = put gid (index m gid [] ++ shard ∷ []) m

-- A slice without its last element, and that element; `none` is the panic at an empty slice.
pub split_last : List ℕ → Option (List ℕ × ℕ)
split_last [] = none
split_last (x ∷ []) = some ([], x)
split_last (x ∷ y ∷ ys) = elim (split_last (y ∷ ys)) [
  | none ↦ none
  | some (front, last) ↦ some (x ∷ front, last)
]

-- Moves the last shard of maxGID to minGID; the shard moved is returned too.
pub move_one : Extremes → GidToShards → Option (GidToShards × ℕ)
unfolding split_last give
move_one e m = elim e.max [
  | none ↦ none
  | some (max_shards, max_gid) ↦ elim (split_last (index m max_gid [])) [
    | none ↦ none
    | some (front, shard) ↦ some (give e.min_gid shard (put max_gid front m), shard)
  ]
]

-- The `for` loop, on fuel; `free` holds freeShards from freeShardsIndex on. `none` means that the
-- fuel ran out or that the code panics.
pub balance : ℕ → List ℕ → List ℕ → GidToShards → GoMap ℕ Bool → Option (GidToShards × GoMap ℕ Bool)
unfolding scan is_close move_one give
balance zero live free m moved = none
balance (suc fuel) live (shard ∷ free) m moved =
    balance fuel live free (give (scan m no_extremes live).min_gid shard m) (put shard true moved)
balance (suc fuel) live [] m moved =
    let e = scan m no_extremes live in
    elim (is_close e) [
      | true ↦ some (m, moved)
      | false ↦ elim (move_one e m) [
        | none ↦ none
        | some (m', shard) ↦ balance fuel live [] m' (put shard true moved)
      ]
    ]

-- newShards[shardsIndex] = gid
pub write_shards : ℕ → List ℕ → List ℕ → List ℕ
write_shards gid [] new_shards = new_shards
write_shards gid (shard ∷ rest) new_shards = write_shards gid rest (set new_shards shard gid)

pub write_groups : List ℕ → GidToShards → List ℕ → List ℕ
unfolding write_shards
write_groups [] m new_shards = new_shards
write_groups (gid ∷ rest) m new_shards =
    write_groups rest m (write_shards gid (index m gid []) new_shards)

-- A round for each of ten free shards at most; and a move lowers the sum of the squares of the
-- loads, which is 100 at most.
abbrev pub rebalance_fuel : ℕ
rebalance_fuel = 200

unfoldable pub rebalance : GidToShards → List ℕ → Option (List ℕ × GoMap ℕ Bool)
unfolding sort_ints free_shards balance write_groups
rebalance m old_shards =
    let live = sort_ints (keys m) in
    elim (balance rebalance_fuel live (free_shards 0 old_shards m) m []) [
      | none ↦ none
      | some (m', moved) ↦ some (write_groups live m' (replicate n_shards 0), moved)
    ]
