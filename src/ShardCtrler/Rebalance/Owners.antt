-- ===== src/ShardCtrler/Rebalance/Owners.antt =====
-- src/shardctrler/server.go: the map from groups to shards that `rebalance` starts from.
use sharded_kv.Prelude.{
  ℕ, ◌+◌, ◌==◌, ◌≡◌, refl, sym, ap, ◌∙◌, inl, inr, true, false, ◌||◌, ◌&&◌, List, [], ◌∷◌, ◌++◌,
  ltb, leb, if◌then◌else◌, length, GoMap, keys, index, has, put, nat_eq, arith, index-put, has-put,
  ==_iff, Bool-cases, length-append,
}
use sharded_kv.ShardCtrler.Common.{Groups}
use sharded_kv.ShardCtrler.Rebalance.{
  GidToShards, init_gids, add_shards, free_shards, get_gid_to_shards_map, insert_sorted, sort_ints,
}
use sharded_kv.ShardCtrler.Rebalance.Total.{
  contains, Distinct, count, count-append, total, total-put,
}

pub contains-keys : {V : Type 0} (m : GoMap ℕ V) (g : ℕ) → contains (keys m) g ≡ has g m
unfolding contains has
contains-keys [] g = refl
contains-keys ((k, v) ∷ m) g = ground (arith, contains-keys m g)

pub Distinct-put :
    {V : Type 0} (m : GoMap ℕ V) (k : ℕ) (v : V) → Distinct (keys m) → Distinct (keys (put k v m))
unfolding put contains
Distinct-put [] k v d = (refl, tt)
Distinct-put ((j, w) ∷ m) k v d = elim (Bool-cases (j == k)) [
  | inl same ↦ rw same (rw ((==_iff j k).0 same) at d)
  | inr other ↦ rw other (
    ground (arith, contains-keys m j, contains-keys (put k v m) j, has-put k j v m, ==_iff k j),
    Distinct-put m k v d.1,
  )
]

contains-insert_sorted :
    (x : ℕ) (ys : List ℕ) (g : ℕ) → contains (insert_sorted x ys) g ≡ (x == g || contains ys g)
unfolding contains insert_sorted
contains-insert_sorted x [] g = refl
contains-insert_sorted x (y ∷ ys) g = ground (arith, contains-insert_sorted x ys g)

pub contains-sort_ints : (xs : List ℕ) (g : ℕ) → contains (sort_ints xs) g ≡ contains xs g
unfolding contains sort_ints
contains-sort_ints [] g = refl
contains-sort_ints (x ∷ xs) g =
    contains-insert_sorted x (sort_ints xs) g ∙ ap (λ b. x == g || b) (contains-sort_ints xs g)

Distinct-insert_sorted :
    (x : ℕ) (ys : List ℕ) → contains ys x ≡ false → Distinct ys → Distinct (insert_sorted x ys)
unfolding contains insert_sorted
Distinct-insert_sorted x [] h d = (refl, tt)
Distinct-insert_sorted x (y ∷ ys) h d = elim (Bool-cases (leb x y)) [
  | inl first ↦ rw first (h, d)
  | inr later ↦ rw later (
    ground (arith, contains-insert_sorted x ys y, ==_iff x y),
    Distinct-insert_sorted x ys (ground arith) d.1,
  )
]

pub Distinct-sort_ints : (xs : List ℕ) → Distinct xs → Distinct (sort_ints xs)
unfolding sort_ints
Distinct-sort_ints [] d = tt
Distinct-sort_ints (x ∷ xs) d =
    Distinct-insert_sorted x (sort_ints xs) (contains-sort_ints xs x ∙ d.0)
      (Distinct-sort_ints xs d.1)

has-init_gids :
    (ks : List ℕ) (m : GidToShards) (g : ℕ) → has g (init_gids ks m) ≡ (contains ks g || has g m)
unfolding contains init_gids
has-init_gids [] m g = refl
has-init_gids (k ∷ ks) m g = ground (arith, has-init_gids ks (put k [] m) g, has-put k g [] m)

index-init_gids :
    (ks : List ℕ) (m : GidToShards) (g : ℕ) → index m g [] ≡ [] → index (init_gids ks m) g [] ≡ []
unfolding init_gids
index-init_gids [] m g h = h
index-init_gids (k ∷ ks) m g h =
    index-init_gids ks (put k [] m) g (ground (arith, index-put k g [] [] m))

Distinct-init_gids :
    (ks : List ℕ) (m : GidToShards) → Distinct (keys m) → Distinct (keys (init_gids ks m))
unfolding init_gids
Distinct-init_gids [] m d = d
Distinct-init_gids (k ∷ ks) m d = Distinct-init_gids ks (put k [] m) (Distinct-put m k [] d)

-- 1 if shard `s` stands in the array that begins at index `i`, with length `n`.
abbrev pub in_range : ℕ → ℕ → ℕ → ℕ
in_range i n s = if leb i s && ltb s (i + n) then 1 else 0

-- 1 if the array `shards`, whose first index is `i`, gives shard `s` to group `g`.
unfoldable pub assigns : ℕ → List ℕ → ℕ → ℕ → ℕ
assigns i [] s g = 0
assigns i (x ∷ rest) s g = (if i == s && x == g then 1 else 0) + assigns (i + 1) rest s g

pub count-add_shards :
    (i : ℕ) (shards : List ℕ) (groups : Groups) (m : GidToShards) (s g : ℕ)
    → count s (index (add_shards i shards groups m) g [])
      ≡ count s (index m g []) + (if has g groups then assigns i shards s g else 0)
unfolding add_shards assigns count
count-add_shards i [] groups m s g = ground arith
count-add_shards i (x ∷ rest) groups m s g = elim (Bool-cases (has x groups)) [
  | inl alive ↦ rw alive (
      ground (
        arith,
        count-add_shards (i + 1) rest groups (put x (index m x [] ++ i ∷ []) m) s g,
        index-put x g (index m x [] ++ i ∷ []) [] m,
        count-append s (index m x []) (i ∷ []),
        ==_iff x g,
      ))
  | inr gone ↦ rw gone (ground (arith, count-add_shards (i + 1) rest groups m s g, ==_iff x g))
]

pub has-add_shards :
    (i : ℕ) (shards : List ℕ) (groups : Groups) (m : GidToShards)
    → ((g : ℕ) → has g groups ≡ has g m)
    → (g : ℕ) → has g (add_shards i shards groups m) ≡ has g m
unfolding add_shards
has-add_shards i [] groups m same g = refl
has-add_shards i (x ∷ rest) groups m same g = elim (Bool-cases (has x groups)) [
  | inl alive ↦
      let m1 = put x (index m x [] ++ i ∷ []) m in
      let kept =
        λ (j : ℕ). has-add_shards-put m x (index m x [] ++ i ∷ []) j (sym (same x) ∙ alive) in
      rw alive (has-add_shards (i + 1) rest groups m1 (λ j. same j ∙ sym (kept j)) g ∙ kept g)
  | inr gone ↦ rw gone (has-add_shards (i + 1) rest groups m same g)
]
  where
    has-add_shards-put :
        (m : GidToShards) (x : ℕ) (v : List ℕ) (j : ℕ)
        → has x m ≡ true
        → has j (put x v m) ≡ has j m
    has-add_shards-put m x v j h = ground (arith, has-put x j v m, ==_iff x j)

Distinct-add_shards :
    (i : ℕ) (shards : List ℕ) (groups : Groups) (m : GidToShards)
    → Distinct (keys m)
    → Distinct (keys (add_shards i shards groups m))
unfolding add_shards
Distinct-add_shards i [] groups m d = d
Distinct-add_shards i (x ∷ rest) groups m d = elim (Bool-cases (has x groups)) [
  | inl alive ↦ rw alive (Distinct-add_shards (i + 1) rest groups _ (Distinct-put m x _ d))
  | inr gone ↦ rw gone (Distinct-add_shards (i + 1) rest groups m d)
]

-- Each shard is either with a live group or free.
pub placed_or_free :
    (i : ℕ) (shards : List ℕ) (groups : Groups) (m full : GidToShards) (live : List ℕ) (s : ℕ)
    → Distinct live
    → ((g : ℕ) → has g groups ≡ contains live g)
    → ((g : ℕ) → has g full ≡ contains live g)
    → contains live 0 ≡ false
    → total (count s) live (add_shards i shards groups m) + count s (free_shards i shards full)
      ≡ total (count s) live m + in_range i (length shards) s
unfolding add_shards free_shards count
placed_or_free i [] groups m full live s d hg hf no_zero = ground arith
placed_or_free i (x ∷ rest) groups m full live s d hg hf no_zero =
    elim (Bool-cases (contains live x)) [
      | inl alive ↦
          rw (hg x ∙ alive, hf x ∙ alive)
            (ground (
              arith,
              placed_or_free (i + 1) rest groups (put x (index m x [] ++ i ∷ []) m) full live s d hg
                  hf no_zero,
              total-put (count s) live m x (index m x [] ++ i ∷ []) alive d,
              count-append s (index m x []) (i ∷ []),
              ==_iff x 0,
            ))
      | inr gone ↦
          rw (hg x ∙ gone, hf x ∙ gone)
            (ground (arith, placed_or_free (i + 1) rest groups m full live s d hg hf no_zero))
    ]

total_empty :
    (f : List ℕ → ℕ) (live : List ℕ) (m : GidToShards)
    → f [] ≡ 0
    → ((g : ℕ) → index m g [] ≡ [])
    → total f live m ≡ 0
unfolding total
total_empty f [] m z h = refl
total_empty f (x ∷ live) m z h = omega (arith, ap f (h x), z, total_empty f live m z h)

pub loads_and_free :
    (i : ℕ) (shards : List ℕ) (groups : Groups) (m full : GidToShards) (live : List ℕ)
    → Distinct live
    → ((g : ℕ) → has g groups ≡ contains live g)
    → ((g : ℕ) → has g full ≡ contains live g)
    → contains live 0 ≡ false
    → total length live (add_shards i shards groups m) + length (free_shards i shards full)
      ≡ total length live m + length shards
unfolding add_shards free_shards
loads_and_free i [] groups m full live d hg hf no_zero = refl
loads_and_free i (x ∷ rest) groups m full live d hg hf no_zero =
    elim (Bool-cases (contains live x)) [
      | inl alive ↦
          rw (hg x ∙ alive, hf x ∙ alive)
            (ground (
              arith,
              loads_and_free (i + 1) rest groups (put x (index m x [] ++ i ∷ []) m) full live d hg
                  hf no_zero,
              total-put length live m x (index m x [] ++ i ∷ []) alive d,
              length-append (index m x []) (i ∷ []),
              ==_iff x 0,
            ))
      | inr gone ↦
          rw (hg x ∙ gone, hf x ∙ gone)
            (ground (arith, loads_and_free (i + 1) rest groups m full live d hg hf no_zero))
    ]

-- The same facts of the whole map.
module _ (shards : List ℕ) (groups : Groups) where
  pub has-start : (g : ℕ) → has g groups ≡ has g (init_gids (keys groups) [])
  unfolding has
  has-start g = ground (arith, has-init_gids (keys groups) [] g, contains-keys groups g)

  pub has-get_gid_to_shards_map :
      (g : ℕ) → has g (get_gid_to_shards_map shards groups) ≡ has g groups
  unfolding get_gid_to_shards_map
  has-get_gid_to_shards_map g = has-add_shards 0 shards groups _ has-start g ∙ sym (has-start g)

  pub Distinct-get_gid_to_shards_map : Distinct (keys (get_gid_to_shards_map shards groups))
  unfolding get_gid_to_shards_map
  Distinct-get_gid_to_shards_map =
      Distinct-add_shards 0 shards groups _ (Distinct-init_gids (keys groups) [] tt)

  pub empty_start : (g : ℕ) → index (init_gids (keys groups) []) g [] ≡ []
  unfolding index
  empty_start g = index-init_gids (keys groups) [] g refl

  pub count-get_gid_to_shards_map :
      (s g : ℕ)
      → count s (index (get_gid_to_shards_map shards groups) g [])
        ≡ (if has g groups then assigns 0 shards s g else 0)
  unfolding get_gid_to_shards_map count
  count-get_gid_to_shards_map s g =
      count-add_shards 0 shards groups (init_gids (keys groups) []) s g
      ∙ ap (λ xs. count s xs + (if has g groups then assigns 0 shards s g else 0)) (empty_start g)
      ∙ omega arith

  module _ (live : List ℕ) (distinct : Distinct live)
      (same : (g : ℕ) → has g groups ≡ contains live g) (no_zero : contains live 0 ≡ false) where
    pub start_counts :
        (s : ℕ)
        → total (count s) live (get_gid_to_shards_map shards groups)
            + count s (free_shards 0 shards (get_gid_to_shards_map shards groups))
          ≡ in_range 0 (length shards) s
    unfolding get_gid_to_shards_map count
    start_counts s =
        placed_or_free 0 shards groups (init_gids (keys groups) [])
          (get_gid_to_shards_map shards groups) live s distinct same
          (λ g. has-get_gid_to_shards_map g ∙ same g) no_zero
        ∙ ap (λ t. t + in_range 0 (length shards) s) (total_empty (count s) live _ refl empty_start)
        ∙ omega arith

    pub start_loads :
        total length live (get_gid_to_shards_map shards groups)
          + length (free_shards 0 shards (get_gid_to_shards_map shards groups))
        ≡ length shards
    unfolding get_gid_to_shards_map
    start_loads =
        loads_and_free 0 shards groups (init_gids (keys groups) [])
          (get_gid_to_shards_map shards groups) live distinct same
          (λ g. has-get_gid_to_shards_map g ∙ same g) no_zero
        ∙ ap (λ t. t + length shards) (total_empty length live _ refl empty_start)
        ∙ omega arith
