-- ===== src/ShardCtrler/Rebalance/Scan.antt =====
-- src/shardctrler/server.go: the scan of the live groups in `rebalance`.
use sharded_kv.Prelude.{
  ℕ, suc, ◌≤◌, ◌<◌, ◌==◌, ◌≡◌, refl, ◌∙◌, ◌⊎◌, inl, inr, true, Option, none, some, List, [], ◌∷◌,
  length, index, nat_eq, arith, ==_iff, Bool-cases,
}
use sharded_kv.ShardCtrler.Rebalance.{GidToShards, Extremes, visit, scan}
use sharded_kv.ShardCtrler.Rebalance.Total.{contains}

-- How many shards a group holds.
abbrev pub load : GidToShards → ℕ → ℕ
load m g = length (index m g [])

-- maxShards + 1
abbrev pub above : Option (ℕ × ℕ) → ℕ
above none = 0
above (some (n, g)) = suc n

visit_bounds :
    (m : GidToShards) (e : Extremes) (g : ℕ)
    → (load m g < above (visit m e g).max)
      × (above e.max ≤ above (visit m e g).max)
      × ((visit m e g).min_shards ≤ load m g)
      × ((visit m e g).min_shards ≤ e.min_shards)
unfolding visit
visit_bounds m e g = ground arith

scan_mono :
    (m : GidToShards) (e : Extremes) (live : List ℕ)
    → (above e.max ≤ above (scan m e live).max) × ((scan m e live).min_shards ≤ e.min_shards)
unfolding scan
scan_mono m e [] = omega arith
scan_mono m e (g ∷ live) = omega (arith, visit_bounds m e g, scan_mono m (visit m e g) live)

pub scan_bounds :
    (m : GidToShards) (e : Extremes) (live : List ℕ) (g : ℕ)
    → contains live g ≡ true
    → (load m g < above (scan m e live).max) × ((scan m e live).min_shards ≤ load m g)
unfolding scan contains
scan_bounds m e [] g h = cc
scan_bounds m e (x ∷ live) g h = elim (Bool-cases (x == g)) [
  | inl same ↦
      rw (← (==_iff x g).0 same) (omega (arith, visit_bounds m e x, scan_mono m (visit m e x) live))
  | inr other ↦ scan_bounds m (visit m e x) live g (rw other at h)
]

visit_max :
    (m : GidToShards) (e : Extremes) (g n gid : ℕ)
    → (visit m e g).max ≡ some (n, gid)
    → (e.max ≡ some (n, gid)) ⊎ ((n ≡ load m gid) × (gid ≡ g))
unfolding visit
visit_max m e g n gid h = ground arith

pub scan_max :
    (m : GidToShards) (e : Extremes) (live : List ℕ) (n gid : ℕ)
    → (scan m e live).max ≡ some (n, gid)
    → (e.max ≡ some (n, gid)) ⊎ ((n ≡ load m gid) × (contains live gid ≡ true))
unfolding scan contains
scan_max m e [] n gid h = inl h
scan_max m e (x ∷ live) n gid h =
    ground (arith, scan_max m (visit m e x) live n gid h, visit_max m e x n gid)

visit_min :
    (m : GidToShards) (e : Extremes) (g : ℕ)
    → (((visit m e g).min_gid ≡ e.min_gid) × ((visit m e g).min_shards ≡ e.min_shards))
      ⊎ (((visit m e g).min_gid ≡ some g) × ((visit m e g).min_shards ≡ load m g))
unfolding visit
visit_min m e g = ground arith

pub scan_min :
    (m : GidToShards) (e : Extremes) (live : List ℕ)
    → (((scan m e live).min_gid ≡ e.min_gid) × ((scan m e live).min_shards ≡ e.min_shards))
      ⊎ ((gid : ℕ) × ((scan m e live).min_gid ≡ some gid)
          × ((scan m e live).min_shards ≡ load m gid)
          × (contains live gid ≡ true))
unfolding scan contains
scan_min m e [] = inl (refl, refl)
scan_min m e (x ∷ live) = elim (scan_min m (visit m e x) live) [
  | inr (gid, a, b, c) ↦ inr (gid, a, b, ground arith)
  | inl (a, b) ↦ elim (visit_min m e x) [
    | inl (c, d) ↦ inl (a ∙ c, b ∙ d)
    | inr (c, d) ↦ inr (x, a ∙ c, b ∙ d, ground arith)
  ]
]
