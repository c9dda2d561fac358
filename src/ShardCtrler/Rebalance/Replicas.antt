-- ===== src/ShardCtrler/Rebalance/Replicas.antt =====
-- src/shardctrler/server.go: `rebalance` on two maps that hold the same groups in another order, as
-- two servers may have them.
use sharded_kv.Prelude.{
  ℕ, zero, suc, ◌+◌, ◌≤◌, ◌≡◌, refl, sym, ap, ap₂, ◌∙◌, ◌⊎◌, inl, inr, Bool, true, false, Option,
  none, some, List, [], ◌∷◌, ◌++◌, leb, GoMap, keys, index, has, put, nat_eq, arith, index-put,
  has-put, Bool-cases, Option-cases, replicate,
}
use sharded_kv.ShardCtrler.Common.{Groups, n_shards}
use sharded_kv.ShardCtrler.Rebalance.{
  GidToShards, Extremes, no_extremes, add_shards, free_shards, get_gid_to_shards_map, insert_sorted,
  sort_ints, init_gids, visit, scan, give, split_last, move_one, is_close, balance, write_groups,
  rebalance, rebalance_fuel,
}
use sharded_kv.ShardCtrler.Rebalance.Total.{contains, Distinct}
use sharded_kv.ShardCtrler.Rebalance.Loop.{balance_done, balance_step}
use sharded_kv.ShardCtrler.Rebalance.Spec.{rebalance_done}
use sharded_kv.ShardCtrler.Rebalance.Owners.{
  contains-keys, contains-sort_ints, Distinct-sort_ints, Distinct-get_gid_to_shards_map, has-start,
  empty_start,
}

-- Two maps that no reading tells apart.
abbrev Same : GidToShards → GidToShards → Type 0
Same m n = (g : ℕ) → (has g m ≡ has g n) × (index m g [] ≡ index n g [])

put-Same : (m n : GidToShards) (k : ℕ) (v : List ℕ) → Same m n → Same (put k v m) (put k v n)
put-Same m n k v s g = (
  ground (arith, has-put k g v m, has-put k g v n, (s g).0),
  ground (arith, index-put k g v [] m, index-put k g v [] n, (s g).1),
)

give-Same :
    (gid : Option ℕ) (shard : ℕ) (m n : GidToShards)
    → Same m n
    → Same (give gid shard m) (give gid shard n)
unfolding give
give-Same none shard m n s = s
give-Same (some gid) shard m n s =
    rw ((s gid).1) (put-Same m n gid (index n gid [] ++ shard ∷ []) s)

visit-Same : (m n : GidToShards) (e : Extremes) (gid : ℕ) → Same m n → visit m e gid ≡ visit n e gid
unfolding visit
visit-Same m n e gid s = rw ((s gid).1) refl

scan-Same :
    (m n : GidToShards) (e : Extremes) (live : List ℕ) → Same m n → scan m e live ≡ scan n e live
unfolding scan
scan-Same m n e [] s = refl
scan-Same m n e (gid ∷ live) s =
    scan-Same m n (visit m e gid) live s ∙ ap (λ x. scan n x live) (visit-Same m n e gid s)

-- Two results of a step that differ in nothing but the order of the map.
abbrev Alike : {A : Type 0} → Option (GidToShards × A) → Option (GidToShards × A) → Type 0
Alike {A = A} a b =
    ((a ≡ none) × (b ≡ none))
    ⊎ ((m : GidToShards) × (n : GidToShards) × (x : A) × (a ≡ some (m, x))
        × (b ≡ some (n, x))
        × Same m n)

move_one-Alike : (e : Extremes) (m n : GidToShards) → Same m n → Alike (move_one e m) (move_one e n)
unfolding move_one
move_one-Alike e m n s = elim (Option-cases e.max) [
  | inl gone ↦ inl (rw gone refl, rw gone refl)
  | inr ((max_shards, max_gid), there) ↦ elim (Option-cases (split_last (index n max_gid []))) [
    | inl empty ↦
        inl (rw (there, (s max_gid).1, empty, move_one) refl, rw (there, empty, move_one) refl)
    | inr ((front, shard), parts) ↦ inr (
      give e.min_gid shard (put max_gid front m),
      give e.min_gid shard (put max_gid front n),
      shard,
      rw (there, (s max_gid).1, parts, move_one) refl,
      rw (there, parts, move_one) refl,
      give-Same e.min_gid shard (put max_gid front m) (put max_gid front n)
          (put-Same m n max_gid front s),
    )
  ]
]

balance_panics :
    (fuel : ℕ) (live : List ℕ) (m : GidToShards) (moved : GoMap ℕ Bool)
    → is_close (scan m no_extremes live) ≡ false
    → move_one (scan m no_extremes live) m ≡ none
    → balance (suc fuel) live [] m moved ≡ none
unfolding balance
balance_panics fuel live m moved c q = rw (c, q, balance)

balance-Alike :
    (fuel : ℕ) (live free : List ℕ) (m n : GidToShards) (moved : GoMap ℕ Bool)
    → Same m n
    → Alike (balance fuel live free m moved) (balance fuel live free n moved)
unfolding balance
balance-Alike zero live free m n moved s = inl (refl, refl)
balance-Alike (suc fuel) live (shard ∷ free) m n moved s = rw (scan-Same m n no_extremes live s) (
    balance-Alike fuel live free (give (scan n no_extremes live).min_gid shard m)
      (give (scan n no_extremes live).min_gid shard n) (put shard true moved)
      (give-Same (scan n no_extremes live).min_gid shard m n s))
balance-Alike (suc fuel) live [] m n moved s =
    let e : scan m no_extremes live ≡ scan n no_extremes live = scan-Same m n no_extremes live s in
    elim (Bool-cases (is_close (scan n no_extremes live))) [
      | inl done ↦ inr (
        m,
        n,
        moved,
        balance_done fuel live m moved (ap is_close e ∙ done),
        balance_done fuel live n moved done,
        s,
      )
      | inr more ↦ elim (move_one-Alike (scan n no_extremes live) m n s) [
        | inl (a, b) ↦ inl (
          balance_panics fuel live m moved (ap is_close e ∙ more) (ap (λ x. move_one x m) e ∙ a),
          balance_panics fuel live n moved more b,
        )
        | inr (m', n', shard, a, b, s') ↦
            rw
              (
                balance_step fuel live m m' moved shard (ap is_close e ∙ more)
                    (ap (λ x. move_one x m) e ∙ a),
                balance_step fuel live n n' moved shard more b,
              )
              (balance-Alike fuel live [] m' n' (put shard true moved) s')
      ]
    ]

write_groups-Same :
    (live : List ℕ) (m n : GidToShards) (new_shards : List ℕ)
    → Same m n
    → write_groups live m new_shards ≡ write_groups live n new_shards
unfolding write_groups
write_groups-Same [] m n new_shards s = refl
write_groups-Same (gid ∷ live) m n new_shards s = rw ((s gid).1) (write_groups-Same live m n _ s)

free_shards-Same :
    (i : ℕ) (shards : List ℕ) (m n : GidToShards)
    → Same m n
    → free_shards i shards m ≡ free_shards i shards n
unfolding free_shards
free_shards-Same i [] m n s = refl
free_shards-Same i (gid ∷ shards) m n s = rw ((s gid).0, free_shards-Same (i + 1) shards m n s) refl

add_shards-Same :
    (i : ℕ) (shards : List ℕ) (groups others : Groups) (m n : GidToShards)
    → ((g : ℕ) → has g groups ≡ has g others)
    → Same m n
    → Same (add_shards i shards groups m) (add_shards i shards others n)
unfolding add_shards
add_shards-Same i [] groups others m n h s = s
add_shards-Same i (gid ∷ shards) groups others m n h s = elim (Bool-cases (has gid others)) [
  | inl alive ↦
      rw (h gid, alive, (s gid).1)
        (add_shards-Same (i + 1) shards groups others _ _ h
          (put-Same m n gid (index n gid [] ++ i ∷ []) s))
  | inr dead ↦ rw (h gid, dead) (add_shards-Same (i + 1) shards groups others m n h s)
]

-- Sorted lists.
abbrev Above : ℕ → List ℕ → Type 0
Above x [] = Unit {0}
Above x (y ∷ ys) = (x ≤ y) × Above x ys

abbrev Sorted : List ℕ → Type 0
Sorted [] = Unit {0}
Sorted (x ∷ xs) = Above x xs × Sorted xs

Above-lower : (x y : ℕ) (ys : List ℕ) → x ≤ y → Above y ys → Above x ys
Above-lower x y [] h a = tt
Above-lower x y (z ∷ ys) h a = (omega (arith, h, a), Above-lower x y ys h a.1)

Above-insert_sorted : (y x : ℕ) (ys : List ℕ) → y ≤ x → Above y ys → Above y (insert_sorted x ys)
unfolding insert_sorted
Above-insert_sorted y x [] h a = (h, tt)
Above-insert_sorted y x (z ∷ ys) h a = elim (Bool-cases (leb x z)) [
  | inl first ↦ rw first (h, a)
  | inr later ↦ rw later (a.0, Above-insert_sorted y x ys h a.1)
]

Sorted-insert_sorted : (x : ℕ) (ys : List ℕ) → Sorted ys → Sorted (insert_sorted x ys)
unfolding insert_sorted
Sorted-insert_sorted x [] s = (tt, tt)
Sorted-insert_sorted x (y ∷ ys) s = elim (Bool-cases (leb x y)) [
  | inl first ↦
      let low : x ≤ y = ground (arith, first) in rw first ((low, Above-lower x y ys low s.0), s)
  | inr later ↦
      rw later
        (Above-insert_sorted y x ys (ground (arith, later)) s.0, Sorted-insert_sorted x ys s.1)
]

Sorted-sort_ints : (xs : List ℕ) → Sorted (sort_ints xs)
unfolding sort_ints
Sorted-sort_ints [] = tt
Sorted-sort_ints (x ∷ xs) = Sorted-insert_sorted x (sort_ints xs) (Sorted-sort_ints xs)

Above-contains : (x g : ℕ) (xs : List ℕ) → Above x xs → contains xs g ≡ true → x ≤ g
unfolding contains
Above-contains x g [] a h = absurd (ground (arith, h))
Above-contains x g (y ∷ xs) a h = ground (arith, h, a, Above-contains x g xs a.1)

Sorted-contains :
    (xs ys : List ℕ)
    → Sorted xs
    → Sorted ys
    → Distinct xs
    → Distinct ys
    → ((g : ℕ) → contains xs g ≡ contains ys g)
    → xs ≡ ys
unfolding contains
Sorted-contains [] [] s t d e h = refl
Sorted-contains [] (y ∷ ys) s t d e h = absurd (ground (arith, h y))
Sorted-contains (x ∷ xs) [] s t d e h = absurd (ground (arith, h x))
Sorted-contains (x ∷ xs) (y ∷ ys) s t d e h =
    let same : x ≡ y =
      ground (arith, h x, h y, Above-contains x y xs s.0, Above-contains y x ys t.0) in
    let rest : (g : ℕ) → contains xs g ≡ contains ys g = λ g. ground (
      arith,
      h g,
      same,
      d.0,
      e.0,
      ap (contains xs) {x = x} {y = g},
      ap (contains ys) {x = y} {y = g},
    ) in
    ap₂ (λ a others. a ∷ others) same (Sorted-contains xs ys s.1 t.1 d.1 e.1 rest)

rebalance_fails :
    (m : GidToShards) (shards : List ℕ)
    → balance rebalance_fuel (sort_ints (keys m)) (free_shards 0 shards m) m [] ≡ none
    → rebalance m shards ≡ none
unfolding rebalance
rebalance_fails m shards h = rw (h, rebalance)

rebalance-Same :
    (m n : GidToShards) (shards : List ℕ)
    → Same m n
    → Distinct (keys m)
    → Distinct (keys n)
    → rebalance m shards ≡ rebalance n shards
rebalance-Same m n shards s d e =
    let live : sort_ints (keys m) ≡ sort_ints (keys n) =
      Sorted-contains (sort_ints (keys m)) (sort_ints (keys n)) (Sorted-sort_ints (keys m))
        (Sorted-sort_ints (keys n)) (Distinct-sort_ints (keys m) d) (Distinct-sort_ints (keys n) e)
        (λ g.
          contains-sort_ints (keys m) g
          ∙ contains-keys m g
          ∙ (s g).0
          ∙ sym (contains-keys n g)
          ∙ sym (contains-sort_ints (keys n) g)) in
    let start : balance rebalance_fuel (sort_ints (keys m)) (free_shards 0 shards m) m []
        ≡ balance rebalance_fuel (sort_ints (keys n)) (free_shards 0 shards n) m [] =
      ap₂ (λ l f. balance rebalance_fuel l f m []) live (free_shards-Same 0 shards m n s) in
    elim (balance-Alike rebalance_fuel (sort_ints (keys n)) (free_shards 0 shards n) m n [] s) [
      | inl (a, b) ↦ rebalance_fails m shards (start ∙ a) ∙ sym (rebalance_fails n shards b)
      | inr (m', n', moved, a, b, s') ↦
          rebalance_done m m' shards moved (start ∙ a)
          ∙ ap₂ (λ l r. some (write_groups l r (replicate n_shards 0), moved)) live refl
          ∙ ap (λ a. some (a, moved))
              (write_groups-Same (sort_ints (keys n)) m' n' (replicate n_shards 0) s')
          ∙ sym (rebalance_done n n' shards moved b)
    ]

-- Servers agree on the assignment although Go gives a map no order: for groups that are the same as
-- a map, in whatever order `range` yields them, and any array of shards, `rebalance` returns the
-- same array and the same moved shards, or neither returns.
pub rebalance_any_order :
    (shards : List ℕ) (groups others : Groups)
    → ((g : ℕ) → has g groups ≡ has g others)
    → rebalance (get_gid_to_shards_map shards groups) shards
      ≡ rebalance (get_gid_to_shards_map shards others) shards
unfolding get_gid_to_shards_map
rebalance_any_order shards groups others h =
    rebalance-Same (get_gid_to_shards_map shards groups) (get_gid_to_shards_map shards others)
      shards
      (add_shards-Same 0 shards groups others (init_gids (keys groups) [])
        (init_gids (keys others) []) h
        (λ g. (
          sym (has-start shards groups g) ∙ h g ∙ has-start shards others g,
          empty_start shards groups g ∙ sym (empty_start shards others g),
        )))
      (Distinct-get_gid_to_shards_map shards groups) (Distinct-get_gid_to_shards_map shards others)
