-- ===== src/ShardCtrler/Rebalance/Written.antt =====
-- src/shardctrler/server.go: the array that `rebalance` writes at its end.
use sharded_kv.Prelude.{
  ℕ, suc, ◌+◌, ◌≤◌, ◌<◌, ◌==◌, ◌≡◌, refl, sym, ap, ◌∙◌, inl, inr, true, List, [], ◌∷◌, ltb,
  if◌then◌else◌, length, set, get_or, length-set, get_or-set_self, get_or-set_ne, index, nat_eq,
  arith, ==_iff, Bool-cases,
}
use sharded_kv.ShardCtrler.Rebalance.{GidToShards, write_shards, write_groups}
use sharded_kv.ShardCtrler.Rebalance.Total.{contains, count, total}

length-write_shards : (g : ℕ) (xs arr : List ℕ) → length (write_shards g xs arr) ≡ length arr
unfolding write_shards
length-write_shards g [] arr = refl
length-write_shards g (x ∷ xs) arr = length-write_shards g xs (set arr x g) ∙ length-set arr x g

pub length-write_groups :
    (live : List ℕ) (m : GidToShards) (arr : List ℕ) → length (write_groups live m arr) ≡ length arr
unfolding write_groups
length-write_groups [] m arr = refl
length-write_groups (x ∷ live) m arr =
    length-write_groups live m (write_shards x (index m x []) arr)
    ∙ length-write_shards x (index m x []) arr

-- A write at another place, or at the place itself.
get_or-set :
    (arr : List ℕ) (i s v : ℕ)
    → s < length arr
    → get_or (set arr i v) s 0 ≡ (if i == s then v else get_or arr s 0)
get_or-set arr i s v h = elim (Bool-cases (i == s)) [
  | inl same ↦ rw same (rw ((==_iff i s).0 same) (get_or-set_self arr s v 0 h))
  | inr other ↦ rw other (get_or-set_ne arr i s v 0 (λ e. ground arith))
]

get_or-write_shards :
    (g : ℕ) (xs arr : List ℕ) (s : ℕ)
    → s < length arr
    → get_or (write_shards g xs arr) s 0 ≡ (if ltb 0 (count s xs) then g else get_or arr s 0)
unfolding write_shards count
get_or-write_shards g [] arr s h = refl
get_or-write_shards g (x ∷ xs) arr s h =
    ground
      (arith, get_or-write_shards g xs (set arr x g) s (rw length-set h), get_or-set arr x s g h)

write_groups_out :
    (live : List ℕ) (m : GidToShards) (arr : List ℕ) (s : ℕ)
    → s < length arr
    → total (count s) live m ≡ 0
    → get_or (write_groups live m arr) s 0 ≡ get_or arr s 0
unfolding write_groups total
write_groups_out [] m arr s h z = refl
write_groups_out (x ∷ live) m arr s h z = ground (
  arith,
  write_groups_out live m (write_shards x (index m x []) arr) s (rw length-write_shards h),
  get_or-write_shards x (index m x []) arr s h,
)

-- The group that holds a shard, where one alone does.
pub write_groups_in :
    (live : List ℕ) (m : GidToShards) (arr : List ℕ) (s g : ℕ)
    → s < length arr
    → contains live g ≡ true
    → 0 < count s (index m g [])
    → total (count s) live m ≤ 1
    → get_or (write_groups live m arr) s 0 ≡ g
unfolding write_groups total contains
write_groups_in [] m arr s g h c p z = cc
write_groups_in (x ∷ live) m arr s g h c p z = elim (Bool-cases (x == g)) [
  | inl same ↦ ground (
    arith,
    (==_iff x g).0 same,
    write_groups_out live m (write_shards x (index m x []) arr) s (rw length-write_shards h),
    get_or-write_shards x (index m x []) arr s h,
  )
  | inr other ↦
      write_groups_in live m (write_shards x (index m x []) arr) s g (rw length-write_shards h)
        (ground arith) p (ground arith)
]

-- Some group holds a shard that is counted.
pub holder :
    (live : List ℕ) (m : GidToShards) (s : ℕ)
    → 0 < total (count s) live m
    → (g : ℕ) × (contains live g ≡ true) × (0 < count s (index m g []))
unfolding total contains
holder [] m s h = elim h [ ]
holder (x ∷ live) m s h = elim (Bool-cases (ltb 0 (count s (index m x [])))) [
  | inl here ↦ (x, ground arith, ground arith)
  | inr there ↦ let (g, c, p) = holder live m s (ground arith) in (g, ground arith, p)
]

-- `xs` without the number `i`.
i_plus_zero : (i : ℕ) → i + 0 ≡ i
i_plus_zero i = omega arith

remove : ℕ → List ℕ → List ℕ
remove i [] = []
remove i (x ∷ xs) = if x == i then remove i xs else x ∷ remove i xs

length-remove : (i : ℕ) (xs : List ℕ) → length xs ≡ length (remove i xs) + count i xs
unfolding remove count
length-remove i [] = refl
length-remove i (x ∷ xs) = ground (arith, length-remove i xs)

count-remove : (i s : ℕ) (xs : List ℕ) → count s (remove i xs) ≡ (if i == s then 0 else count s xs)
unfolding remove count
count-remove i s [] = ground arith
count-remove i s (x ∷ xs) = ground (arith, count-remove i s xs)

empty_of_counts : (xs : List ℕ) → ((s : ℕ) → count s xs ≡ 0) → length xs ≡ 0
unfolding count
empty_of_counts [] h = refl
empty_of_counts (x ∷ xs) h = absurd (ground (arith, h x))

-- An array that gives `g` exactly the shards of `xs`, each once, gives it as many.
pub count_of_shards :
    (i : ℕ) (arr xs : List ℕ) (g : ℕ)
    → ((s : ℕ) → s < length arr → count (i + s) xs ≡ (if get_or arr s 0 == g then 1 else 0))
    → ((s : ℕ) → s < i → count s xs ≡ 0)
    → ((s : ℕ) → i + length arr ≤ s → count s xs ≡ 0)
    → count g arr ≡ length xs
unfolding count
count_of_shards i [] xs g inside below beyond = sym (
    empty_of_counts xs λ s. elim (Bool-cases (ltb s i)) [
      | inl b ↦ below s (ground arith)
      | inr b ↦ beyond s (ground arith)
    ])
count_of_shards i (x ∷ arr) xs g inside below beyond = ground (
  arith,
  length-remove i xs,
  ap (λ t. count t xs) (i_plus_zero i),
  inside 0 (omega arith),
  count_of_shards (suc i) arr (remove i xs) g inside' below' beyond',
)
  where
    inside' :
        (s : ℕ)
        → s < length arr
        → count (suc i + s) (remove i xs) ≡ (if get_or arr s 0 == g then 1 else 0)
    inside' s h =
        let e : suc i + s ≡ i + suc s = omega arith in
        ground (
          arith,
          count-remove i (suc i + s) xs,
          ap (λ t. count t xs) e,
          inside (suc s) (omega arith),
        )

    below' : (s : ℕ) → s < suc i → count s (remove i xs) ≡ 0
    below' s h = elim (Bool-cases (ltb s i)) [
      | inl b ↦ ground (arith, count-remove i s xs, below s (ground arith))
      | inr b ↦ ground (arith, count-remove i s xs)
    ]

    beyond' : (s : ℕ) → suc i + length arr ≤ s → count s (remove i xs) ≡ 0
    beyond' s h = ground (arith, count-remove i s xs, beyond s (omega arith))
