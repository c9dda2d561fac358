-- ===== src/MapReduce/Worker/Sorting.antt =====
-- src/mr/worker.go: one way of sorting by key.
use sharded_kv.Prelude.{
  ◌≡◌, refl, inl, inr, true, false, List, [], ◌∷◌, arith, Bool-cases, if◌then◌else◌, Bytes,
}
use mathlib.Core.List.{Perm}
use mathlib.Core.List.Perm
use sharded_kv.MapReduce.Worker.{KeyValue, SortByKey, bytes_leb, IsBelow, IsAscending}

bytes_leb_total : (a b : Bytes) → bytes_leb a b ≡ false → bytes_leb b a ≡ true
unfolding bytes_leb
bytes_leb_total [] b h = absurd (ground arith)
bytes_leb_total (x ∷ xs) [] h = refl
bytes_leb_total (x ∷ xs) (y ∷ ys) h = ground (arith, bytes_leb_total xs ys)

bytes_leb_trans :
    (a b c : Bytes) → bytes_leb a b ≡ true → bytes_leb b c ≡ true → bytes_leb a c ≡ true
unfolding bytes_leb
bytes_leb_trans [] b c h k = refl
bytes_leb_trans (x ∷ xs) [] c h k = absurd (ground arith)
bytes_leb_trans (x ∷ xs) (y ∷ ys) [] h k = absurd (ground arith)
bytes_leb_trans (x ∷ xs) (y ∷ ys) (z ∷ zs) h k = ground (arith, bytes_leb_trans xs ys zs)

unfoldable pub insert : KeyValue → List KeyValue → List KeyValue
insert kv [] = kv ∷ []
insert kv (x ∷ xs) =
    let rest = insert kv xs in if bytes_leb kv.key x.key then kv ∷ x ∷ xs else x ∷ rest

unfoldable pub insertion_sort : List KeyValue → List KeyValue
unfolding insert
insertion_sort [] = []
insertion_sort (kv ∷ kva) = insert kv (insertion_sort kva)

insert-Perm : (kv : KeyValue) (xs : List KeyValue) → Perm (insert kv xs) (kv ∷ xs)
unfolding insert
insert-Perm kv [] = Perm.rfl
insert-Perm kv (x ∷ xs) = elim (Bool-cases (bytes_leb kv.key x.key)) [
  | inl le ↦ rw le Perm.rfl
  | inr gt ↦ rw gt (Perm.trans (Perm.cons' refl (insert-Perm kv xs)) (Perm.swap kv x xs))
]

pub insertion_sort-Perm : (kva : List KeyValue) → Perm (insertion_sort kva) kva
unfolding insertion_sort
insertion_sort-Perm [] = Perm.rfl
insertion_sort-Perm (kv ∷ kva) =
    Perm.trans (insert-Perm kv (insertion_sort kva)) (Perm.cons' refl (insertion_sort-Perm kva))

IsBelow-insert :
    (k : Bytes) (kv : KeyValue) (xs : List KeyValue)
    → bytes_leb k kv.key ≡ true
    → IsBelow k xs
    → IsBelow k (insert kv xs)
unfolding insert
IsBelow-insert k kv [] le below = (le, tt)
IsBelow-insert k kv (x ∷ xs) le (first, below) = elim (Bool-cases (bytes_leb kv.key x.key)) [
  | inl here ↦ rw here (le, (first, below))
  | inr later ↦ rw later (first, IsBelow-insert k kv xs le below)
]

IsBelow-weaken :
    (k l : Bytes) (xs : List KeyValue) → bytes_leb k l ≡ true → IsBelow l xs → IsBelow k xs
IsBelow-weaken k l [] le below = tt
IsBelow-weaken k l (x ∷ xs) le (first, below) =
    (bytes_leb_trans k l x.key le first, IsBelow-weaken k l xs le below)

insert-IsAscending :
    (kv : KeyValue) (xs : List KeyValue) → IsAscending xs → IsAscending (insert kv xs)
unfolding insert
insert-IsAscending kv [] up = (tt, tt)
insert-IsAscending kv (x ∷ xs) (above, up) = elim (Bool-cases (bytes_leb kv.key x.key)) [
  | inl le ↦ rw le ((le, IsBelow-weaken kv.key x.key xs le above), (above, up))
  | inr gt ↦ rw gt (
    IsBelow-insert x.key kv xs (bytes_leb_total kv.key x.key gt) above,
    insert-IsAscending kv xs up,
  )
]

pub insertion_sort-IsAscending : (kva : List KeyValue) → IsAscending (insertion_sort kva)
unfolding insertion_sort
insertion_sort-IsAscending [] = tt
insertion_sort-IsAscending (kv ∷ kva) =
    insert-IsAscending kv (insertion_sort kva) (insertion_sort-IsAscending kva)

abbrev pub insertion : SortByKey
insertion = record {
  sort = insertion_sort;
  sort-Perm = insertion_sort-Perm;
  sort-IsAscending = insertion_sort-IsAscending;
}
