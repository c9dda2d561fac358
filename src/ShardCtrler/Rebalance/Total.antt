-- ===== src/ShardCtrler/Rebalance/Total.antt =====
-- Sums over the live groups, for counting shards in `rebalance` of src/shardctrler/server.go.
use sharded_kv.Prelude.{
  ℕ, ◌+◌, ◌==◌, ◌≡◌, refl, Bool, true, false, ◌||◌, List, [], ◌∷◌, ◌++◌, GoMap, index, put, nat_eq,
  arith, if◌then◌else◌, index-put, ==_iff,
}

unfoldable pub contains : List ℕ → ℕ → Bool
contains [] g = false
contains (x ∷ xs) g = x == g || contains xs g

abbrev pub Distinct : List ℕ → Type 0
Distinct [] = Unit
Distinct (x ∷ xs) = (contains xs x ≡ false) × Distinct xs

unfoldable pub count : ℕ → List ℕ → ℕ
count s [] = 0
count s (x ∷ xs) = if x == s then count s xs + 1 else count s xs

pub count-append : (s : ℕ) (xs ys : List ℕ) → count s (xs ++ ys) ≡ count s xs + count s ys
unfolding count
count-append s [] ys = omega arith
count-append s (x ∷ xs) ys = ground (arith, count-append s xs ys)

module _ (f : List ℕ → ℕ) where
  unfoldable pub total : List ℕ → GoMap ℕ (List ℕ) → ℕ
  total [] m = 0
  total (g ∷ live) m = f (index m g []) + total live m

  pub total-put_out :
      (live : List ℕ) (m : GoMap ℕ (List ℕ)) (g : ℕ) (v : List ℕ)
      → contains live g ≡ false
      → total live (put g v m) ≡ total live m
  unfolding total contains
  total-put_out [] m g v h = refl
  total-put_out (x ∷ live) m g v h = ground (arith, index-put g x v [] m, total-put_out live m g v)

  pub total-put :
      (live : List ℕ) (m : GoMap ℕ (List ℕ)) (g : ℕ) (v : List ℕ)
      → contains live g ≡ true
      → Distinct live
      → total live (put g v m) + f (index m g []) ≡ total live m + f v
  unfolding total contains
  total-put [] m g v h d = cc
  total-put (x ∷ live) m g v h d = ground (
    arith,
    index-put g x v [] m,
    total-put live m g v,
    total-put_out live m g v,
    ==_iff x g,
    ==_iff g x,
  )
