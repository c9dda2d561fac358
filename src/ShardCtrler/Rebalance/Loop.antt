-- ===== src/ShardCtrler/Rebalance/Loop.antt =====
-- src/shardctrler/server.go: the loop of `rebalance`, with the measure that bounds it.
use sharded_kv.Prelude.{
  ℕ, zero, suc, ◌+◌, ◌*◌, ◌≤◌, ◌<◌, ◌≡◌, ap, ◌∙◌, inl, inr, Bool, true, false, some, List, [], ◌∷◌,
  length, GoMap, put, nat_eq, arith, Bool-cases, length-append,
}
use sharded_kv.ShardCtrler.Common.{n_shards}
use sharded_kv.ShardCtrler.Rebalance.{
  GidToShards, Extremes, no_extremes, scan, is_close, give, move_one, balance,
}
use sharded_kv.ShardCtrler.Rebalance.Total.{contains, Distinct, count, count-append, total}
use sharded_kv.ShardCtrler.Rebalance.Scan.{load, above, scan_bounds}
use sharded_kv.ShardCtrler.Rebalance.Moves.{square, square-total, give_least, move_one_lem}

-- What the loop promises of the map that it ends with, from the map `m` and the shards `free`.
pub record IsBalanced (live free : List ℕ) (m m' : GidToShards) : Type 0 where
  pub counts : (s : ℕ) → total (count s) live m' ≡ total (count s) live m + count s free
  pub loads : total length live m' ≡ total length live m + length free
  pub close :
      (g h : ℕ) → contains live g ≡ true → contains live h ≡ true → load m' g ≤ load m' h + 1

abbrev pub Settles : ℕ → List ℕ → List ℕ → GidToShards → GoMap ℕ Bool → Type 0
Settles fuel live free m moved =
    (m' : GidToShards) × (moved' : GoMap ℕ Bool) × (balance fuel live free m moved
      ≡ some (m', moved'))
    × IsBalanced live free m m'

close_bounds : (e : Extremes) → is_close e ≡ true → above e.max ≤ e.min_shards + 2
unfolding is_close
close_bounds e h = ground arith

close_loads :
    (m : GidToShards) (live : List ℕ)
    → is_close (scan m no_extremes live) ≡ true
    → (g h : ℕ) → contains live g ≡ true
    → contains live h ≡ true
    → load m g ≤ load m h + 1
close_loads m live c g h g_live h_live = omega (
  arith,
  close_bounds _ c,
  scan_bounds m no_extremes live g g_live,
  scan_bounds m no_extremes live h h_live,
)

square_le_hundred : (n : ℕ) → n ≤ 10 → n * n ≤ 100
square_le_hundred n h = grind arith

pub balance_done :
    (fuel : ℕ) (live : List ℕ) (m : GidToShards) (moved : GoMap ℕ Bool)
    → is_close (scan m no_extremes live) ≡ true
    → balance (suc fuel) live [] m moved ≡ some (m, moved)
unfolding balance
balance_done fuel live m moved c = rw (c, balance)

pub balance_step :
    (fuel : ℕ) (live : List ℕ) (m m1 : GidToShards) (moved : GoMap ℕ Bool) (shard : ℕ)
    → is_close (scan m no_extremes live) ≡ false
    → move_one (scan m no_extremes live) m ≡ some (m1, shard)
    → balance (suc fuel) live [] m moved ≡ balance fuel live [] m1 (put shard true moved)
unfolding balance
balance_step fuel live m m1 moved shard c q = rw (c, q, balance)

module _ (live : List ℕ) (x : ℕ) (distinct : Distinct live) (x_live : contains live x ≡ true) where
  pub balance_moves :
      (fuel : ℕ) (m : GidToShards) (moved : GoMap ℕ Bool)
      → total length live m ≤ n_shards
      → total square live m < fuel
      → Settles fuel live [] m moved
  unfolding count
  balance_moves zero m moved small enough = absurd (omega arith)
  balance_moves (suc fuel) m moved small enough =
      elim (Bool-cases (is_close (scan m no_extremes live))) [
        | inl c ↦ (
          m,
          moved,
          balance_done fuel live m moved c,
          record { counts = λ s. omega arith; loads = omega arith; close = close_loads m live c },
        )
        | inr c ↦
            let (m1, shard, q, counts, loads, falls) =
              move_one_lem m live x distinct x_live small c in
            let (m', moved', r, b) =
              balance_moves fuel m1 (put shard true moved) (omega (arith, loads))
                (omega (arith, falls)) in
            (
              m',
              moved',
              balance_step fuel live m m1 moved shard c q ∙ r,
              record {
                counts = λ s. b.counts s ∙ ap (λ t. t + 0) (counts s);
                loads = b.loads ∙ ap (λ t. t + 0) loads;
                close = b.close;
              },
            )
      ]

  -- From any free shards: one round for each, and at most 100 moves after them.
  pub balance_lem :
      (fuel : ℕ) (free : List ℕ) (m : GidToShards) (moved : GoMap ℕ Bool)
      → total length live m + length free ≤ n_shards
      → length free + 101 ≤ fuel
      → Settles fuel live free m moved
  unfolding balance
  balance_lem fuel [] m moved small enough =
      balance_moves fuel m moved (omega arith) (omega (arith, square-total live m, hundred))
    where
      hundred : total length live m * total length live m ≤ 100
      hundred = square_le_hundred (total length live m) (omega arith)
  balance_lem zero (shard ∷ free) m moved small enough = absurd (omega arith)
  balance_lem (suc fuel) (shard ∷ free) m moved small enough =
      let m1 = give (scan m no_extremes live).min_gid shard m in
      let gain = give_least m live x shard distinct x_live (omega arith) in
      let more : total length live m1 ≡ total length live m + 1 =
        gain length 1 (λ xs. length-append xs (shard ∷ [])) in
      let (m', moved', r, b) =
        balance_lem fuel free m1 (put shard true moved) (omega (arith, more)) (omega arith) in
      (
        m',
        moved',
        r,
        record {
          counts = λ s. omega (
            arith,
            b.counts s,
            gain (count s) (count s (shard ∷ [])) (λ xs. count-append s xs (shard ∷ [])),
            count-append s (shard ∷ []) free,
          );
          loads = omega (arith, more, b.loads);
          close = b.close;
        },
      )
