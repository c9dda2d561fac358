-- ===== src/ShardCtrler/Rebalance/Moves.antt =====
-- src/shardctrler/server.go: one move of a shard in `rebalance`.
use sharded_kv.Prelude.{
  ℕ, ◌+◌, ◌*◌, ◌≤◌, ◌<◌, ◌≡◌, refl, ap, ◌∙◌, ◌≢◌, inl, inr, true, false, Option, none, some, List,
  [], ◌∷◌, ◌++◌, length, index, put, nat_eq, arith, index-put, ==_iff, Option-cases, length-append,
}
use sharded_kv.ShardCtrler.Common.{n_shards}
use sharded_kv.ShardCtrler.Rebalance.{
  GidToShards, Extremes, no_extremes, scan, is_close, give, split_last, move_one,
}
use sharded_kv.ShardCtrler.Rebalance.Total.{
  contains, Distinct, count, count-append, total, total-put,
}
use sharded_kv.ShardCtrler.Rebalance.Scan.{load, scan_bounds, scan_max, scan_min}

abbrev pub square : List ℕ → ℕ
square xs = length xs * length xs

pub le_total :
    (f : List ℕ → ℕ) (live : List ℕ) (m : GidToShards) (g : ℕ)
    → contains live g ≡ true
    → f (index m g []) ≤ total f live m
unfolding contains total
le_total f [] m g h = cc
le_total f (x ∷ live) m g h = ground (arith, le_total f live m g, ==_iff x g)

pub square-total :
    (live : List ℕ) (m : GidToShards)
    → total square live m ≤ total length live m * total length live m
unfolding total
square-total [] m = omega arith
square-total (x ∷ live) m = grind (arith, square-total live m)

split_last_lem :
    (xs : List ℕ)
    → 0 < length xs
    → (front : List ℕ) × (x : ℕ) × (split_last xs ≡ some (front, x)) × (xs ≡ front ++ x ∷ [])
unfolding split_last
split_last_lem [] h = elim h [ ]
split_last_lem (x ∷ []) h = ([], x, refl, refl)
split_last_lem (x ∷ y ∷ ys) h =
    let (front, z, e, p) = split_last_lem (y ∷ ys) (omega arith) in
    (x ∷ front, z, rw e, ap (λ t. x ∷ t) p)

-- With a group there, and loads that add up to at most n_shards, the scan finds a least loaded one.
pub least_found :
    (m : GidToShards) (live : List ℕ) (x : ℕ)
    → contains live x ≡ true
    → total length live m ≤ n_shards
    → (gid : ℕ) × ((scan m no_extremes live).min_gid ≡ some gid)
      × ((scan m no_extremes live).min_shards ≡ load m gid)
      × (contains live gid ≡ true)
least_found m live x h small = elim (scan_min m no_extremes live) [
  | inr found ↦ found
  | inl (a, b) ↦
      absurd (omega (arith, b, (scan_bounds m no_extremes live x h).1, le_total length live m x h))
]

pub total-give :
    (f : List ℕ → ℕ) (m : GidToShards) (live : List ℕ) (gid shard : ℕ)
    → Distinct live
    → contains live gid ≡ true
    → total f live (give (some gid) shard m) + f (index m gid [])
      ≡ total f live m + f (index m gid [] ++ shard ∷ [])
unfolding give
total-give f m live gid shard d h = total-put f live m gid _ h d

squares_fall :
    (before after b k : ℕ)
    → b + 1 < k + 1
    → after + b * b + (k + 1) * (k + 1) ≡ before + k * k + (b + 1) * (b + 1)
    → after < before
squares_fall before after b k h e = omega arith

module _ (m : GidToShards) (live : List ℕ) (distinct : Distinct live) (gx gn shard : ℕ)
    (front : List ℕ) (x_live : contains live gx ≡ true) (n_live : contains live gn ≡ true)
    (apart : gx ≢ gn) (split : index m gx [] ≡ front ++ shard ∷ []) where
  total-swap :
      (f : List ℕ → ℕ)
      → total f live (give (some gn) shard (put gx front m)) + f (index m gn []) + f (index m gx [])
        ≡ total f live m + f front + f (index m gn [] ++ shard ∷ [])
  total-swap f =
      let e : index (put gx front m) gn [] ≡ index m gn [] =
        ground (arith, index-put gx gn front [] m, ==_iff gx gn) in
      omega (
        arith,
        rw e at (total-give f (put gx front m) live gn shard distinct n_live),
        total-put f live m gx front x_live distinct,
      )

  swap_counts :
      (s : ℕ)
      → total (count s) live (give (some gn) shard (put gx front m)) ≡ total (count s) live m
  swap_counts s = omega (
    arith,
    total-swap (count s),
    ap (count s) split,
    count-append s front (shard ∷ []),
    count-append s (index m gn []) (shard ∷ []),
  )

  swap_loads : total length live (give (some gn) shard (put gx front m)) ≡ total length live m
  swap_loads = omega (
    arith,
    total-swap length,
    ap length split,
    length-append front (shard ∷ []),
    length-append (index m gn []) (shard ∷ []),
  )

  swap_squares :
      load m gn + 1 < load m gx
      → total square live (give (some gn) shard (put gx front m)) < total square live m
  swap_squares h =
      squares_fall _ _ (load m gn) (length front)
        (rw (ap length split ∙ length-append front (shard ∷ [])) at h)
        (rw (ap length split, length-append, length-append) at (total-swap square))

abbrev pub Above : ℕ → Option (ℕ × ℕ) → ℕ → Type 0
Above n none b = ⊥
Above n (some (a, g)) b = b + 1 < a

not_close :
    (e : Extremes)
    → is_close e ≡ false
    → (a : ℕ) × (g : ℕ) × (e.max ≡ some (a, g)) × (e.min_shards + 1 < a)
unfolding is_close
not_close e h = elim (Option-cases e.max) [
  | inl q ↦ cc (rw (q, is_close) at h)
  | inr ((a, g), q) ↦ (a, g, q, ground arith)
]

move_one_found :
    (e : Extremes) (m : GidToShards) (a gx gn shard : ℕ) (front : List ℕ)
    → e.max ≡ some (a, gx)
    → e.min_gid ≡ some gn
    → split_last (index m gx []) ≡ some (front, shard)
    → move_one e m ≡ some (give (some gn) shard (put gx front m), shard)
unfolding move_one
move_one_found e m a gx gn shard front qx qn es = ground arith

-- A move keeps the count of every shard, and lowers the sum of the squares of the loads.
pub move_one_lem :
    (m : GidToShards) (live : List ℕ) (x : ℕ)
    → Distinct live
    → contains live x ≡ true
    → total length live m ≤ n_shards
    → is_close (scan m no_extremes live) ≡ false
    → (m' : GidToShards) × (shard : ℕ) × (move_one (scan m no_extremes live) m ≡ some (m', shard))
      × ((s : ℕ) → total (count s) live m' ≡ total (count s) live m)
      × (total length live m' ≡ total length live m)
      × (total square live m' < total square live m)
move_one_lem m live x distinct x_live small open_gap =
    let (gn, qn, en, n_live) = least_found m live x x_live small in
    let (a, gx, qx, gap) = not_close (scan m no_extremes live) open_gap in
    elim (scan_max m no_extremes live a gx qx) [
      | inl absent ↦ cc
      | inr (ea, gx_live) ↦
          let (front, shard, es, split) = split_last_lem (index m gx []) (omega (arith, ea, gap)) in
          let apart : gx ≢ gn = λ same. absurd (omega (arith, ea, gap, en, ap (load m) same)) in
          (
            give (some gn) shard (put gx front m),
            shard,
            move_one_found _ m a gx gn shard front qx qn es,
            swap_counts m live distinct gx gn shard front gx_live n_live apart split,
            swap_loads m live distinct gx gn shard front gx_live n_live apart split,
            swap_squares m live distinct gx gn shard front gx_live n_live apart split
                (omega (arith, ea, gap, en)),
          )
    ]

-- A free shard goes to a live group: its count and the sum of the loads grow by one.
pub give_least :
    (m : GidToShards) (live : List ℕ) (x shard : ℕ)
    → Distinct live
    → contains live x ≡ true
    → total length live m ≤ n_shards
    → (f : List ℕ → ℕ) (gain : ℕ) → ((xs : List ℕ) → f (xs ++ shard ∷ []) ≡ f xs + gain)
    → total f live (give (scan m no_extremes live).min_gid shard m) ≡ total f live m + gain
give_least m live x shard distinct x_live small f gain grows =
    let (gn, qn, en, n_live) = least_found m live x x_live small in
    rw qn (omega (arith, total-give f m live gn shard distinct n_live, grows (index m gn [])))
