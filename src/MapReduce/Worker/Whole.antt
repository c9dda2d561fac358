-- ===== src/MapReduce/Worker/Whole.antt =====
-- src/mr/worker.go and src/main/mrsequential.go: a whole job, by many workers and by one program.
use sharded_kv.Prelude.{
  ℕ, zero, suc, ◌+◌, ◌%◌, ◌<◌, ◌≡◌, ◌≢◌, refl, sym, ap, ap₂, map, ◌∙◌, ◌⊎◌, inl, inr, true, ◌==◌,
  ==_iff, Option, none, some, List, [], ◌∷◌, ◌++◌, arith, Bool-cases, if◌then◌else◌, ltb, Bytes,
  bytes_beq, get_or, replicate,
}
use mathlib.Core.List.{Memᴰ, Perm, filter_map, cons≢nil}
use mathlib.Core.List.Perm
use sharded_kv.MapReduce.Worker.{
  KeyValue, through_json, SortByKey, Files, ihash, write_files, distribute, exec_map, exec_maps,
  read_files, groups, reduce_groups, all_pairs, sequential_groups,
}
use sharded_kv.MapReduce.Worker.Groups.{values_of, groups_of, one_group, groups_of-groups}
use sharded_kv.MapReduce.Worker.Buckets.{
  AllKept, Kept-bucket, values_of-append, share, values_of-buckets,
}

abbrev pick : Bytes → KeyValue → Option Bytes
pick k kv = if bytes_beq kv.key k then some kv.value else none

values_of_lem : (k : Bytes) (kva : List KeyValue) → filter_map (pick k) kva ≡ values_of k kva
unfolding filter_map
values_of_lem k [] = refl
values_of_lem k (kv ∷ kva) = elim (Bool-cases (bytes_beq kv.key k)) [
  | inl this ↦ rw this (ap (λ vs. kv.value ∷ vs) (values_of_lem k kva))
  | inr other ↦ rw other (values_of_lem k kva)
]

values_of-Perm :
    (k : Bytes) (xs ys : List KeyValue) → Perm xs ys → Perm (values_of k xs) (values_of k ys)
values_of-Perm k xs ys p =
    rw (sym (values_of_lem k xs), sym (values_of_lem k ys)) (Perm.filter_map (pick k) p)

-- Both have no group, or one with the same values in some order.
abbrev pub AreSame : List (List Bytes) → List (List Bytes) → Type 0
AreSame a b =
    ((a ≡ []) × (b ≡ [])) ⊎ ((vs ws : List Bytes) × (a ≡ vs ∷ []) × (b ≡ ws ∷ []) × Perm vs ws)

one_group-AreSame : (vs ws : List Bytes) → Perm vs ws → AreSame (one_group vs) (one_group ws)
one_group-AreSame [] [] p = inl (refl, refl)
one_group-AreSame [] (w ∷ ws) p = absurd (cons≢nil (sym (Perm.nil-eq p)))
one_group-AreSame (v ∷ vs) [] p = absurd (cons≢nil (Perm.eq-nil p))
one_group-AreSame (v ∷ vs) (w ∷ ws) p = inr (v ∷ vs, w ∷ ws, refl, refl, p)

share-append :
    (n j : ℕ) (k : Bytes) (xs ys : List KeyValue)
    → share n j k (xs ++ ys) ≡ share n j k xs ++ share n j k ys
share-append n j k xs ys = elim (Bool-cases (ihash k % n == j)) [
  | inl same ↦ rw same (values_of-append k xs ys)
  | inr apart ↦ rw apart refl
]

-- The groups of a key in two sorted lists, of which the first holds what bucket `r` gets of the
-- second.
groups_of-share :
    (n r : ℕ) (k : Bytes) (sorter sorter' : SortByKey) (kva pairs : List KeyValue)
    → values_of k kva ≡ share n r k pairs
    → (ihash k % n ≡ r
        → AreSame
            (groups_of k (groups (sorter.sort kva)))
            (groups_of k (groups (sorter'.sort pairs))))
      × (ihash k % n ≢ r → groups_of k (groups (sorter.sort kva)) ≡ [])
groups_of-share n r k sorter sorter' kva pairs values =
    let mine = groups_of-groups k (sorter.sort kva) (sorter.sort-IsAscending kva) in
    let its = groups_of-groups k (sorter'.sort pairs) (sorter'.sort-IsAscending pairs) in
    let sorted = values_of-Perm k (sorter.sort kva) kva (sorter.sort-Perm kva) in
    let sorted' = values_of-Perm k (sorter'.sort pairs) pairs (sorter'.sort-Perm pairs) in
    (
      λ same.
          let this : (ihash k % n == r) ≡ true = (==_iff (ihash k % n) r).1 same in
          let equal : values_of k kva ≡ values_of k pairs = rw this at values in
          rw (mine, its)
            (one_group-AreSame (values_of k (sorter.sort kva)) (values_of k (sorter'.sort pairs))
              (Perm.trans (rw equal at sorted) (Perm.symm sorted'))),
      λ apart. elim (Bool-cases (ihash k % n == r)) [
        | inl this ↦ absurd (apart ((==_iff (ihash k % n) r).0 this))
        | inr other ↦
            let nothing : values_of k kva ≡ [] = rw other at values in
            mine ∙ ap one_group (Perm.eq-nil (rw nothing at sorted))
      ],
    )

module _ (utf8 : Bytes → Bytes) (mapf : Bytes → Bytes → List KeyValue) (n : ℕ)
    (name content : ℕ → Bytes) where
  -- What map task `m` writes for reduce task `r`.
  abbrev bucket : ℕ → ℕ → List KeyValue
  bucket m r =
      map (through_json utf8)
        (get_or (distribute (suc n) (mapf (name m) (content m)) (replicate (suc n) [])) r [])

  abbrev IsWritten : Files → ℕ → ℕ → Type 0
  IsWritten files m r = files m r ≡ some (bucket m r)

  abbrev written_by : ℕ → Files → Files
  written_by m =
      write_files utf8 m (suc n)
        (distribute (suc n) (mapf (name m) (content m)) (replicate (suc n) []))

  IsWritten-at :
      (files : Files) (m' m r : ℕ)
      → r < suc n
      → (m ≡ m') ⊎ IsWritten files m r
      → IsWritten (written_by m' files) m r
  IsWritten-at files m' m r lt h = elim (Bool-cases (m == m')) [
    | inl same ↦
        let e = (==_iff m m').0 same in
        let small : ltb r (suc n) ≡ true = ground arith in
        rw (same, small) (ap (λ m. some (bucket m r)) (sym e))
    | inr apart ↦
        rw apart (elim h [ inl e ↦ absurd (ground (arith, (==_iff m m').1 e)) | inr w ↦ w ])
  ]

  -- Every order, with any repeats, leaves the same files for the tasks that it holds.
  exec_maps_write :
      (order : List ℕ) (files : Files)
      → (files' : Files) × (exec_maps utf8 mapf (suc n) name content order files ≡ some files')
        × ((m r : ℕ) → r < suc n → Memᴰ m order ⊎ IsWritten files m r → IsWritten files' m r)
  unfolding exec_maps exec_map
  exec_maps_write [] files = (files, refl, λ m r lt h. elim h [ inl m ↦ elim m [ ] | inr w ↦ w ])
  exec_maps_write (m' ∷ order) files =
      let (files', ends, writes) = exec_maps_write order (written_by m' files) in
      (
        files',
        ends,
        λ m r lt h. elim h [
          | inl (Memᴰ.head e) ↦ writes m r lt (inr (IsWritten-at files m' m r lt (inl e)))
          | inl (Memᴰ.tail there) ↦ writes m r lt (inl there)
          | inr w ↦ writes m r lt (inr (IsWritten-at files m' m r lt (inr w)))
        ],
      )

  -- A reduce task reads the values of its own keys, and of these all.
  read_files_lem :
      (files : Files) (r : ℕ) (k : Bytes) (m count : ℕ)
      → ((i : ℕ) → i < m + count → AllKept utf8 (mapf (name i) (content i)))
      → ((i : ℕ) → i < m + count → IsWritten files i r)
      → (kva : List KeyValue) × (read_files files r m count ≡ some kva)
        × (values_of k kva ≡ share (suc n) r k (all_pairs mapf name content m count))
  unfolding read_files all_pairs
  read_files_lem files r k m zero kept written =
      ([], refl, elim (Bool-cases (ihash k % suc n == r)) [ inl e ↦ rw e refl | inr e ↦ rw e refl ])
  read_files_lem files r k m (suc count) kept written =
      let (later, reads, values) =
        read_files_lem files r k (m + 1) count (λ i lt. kept i (omega arith))
          (λ i lt. written i (omega arith)) in
      let here = written m (omega arith) in
      (
        bucket m r ++ later,
        rw (here, read_files, reads) refl,
        values_of-append k (bucket m r) later
            ∙ ap₂ ◌++◌
                (ap (values_of k)
                    (Kept-bucket utf8 (suc n) (mapf (name m) (content m)) r (kept m (omega arith)))
                  ∙ values_of-buckets n r k (mapf (name m) (content m)))
                values
            ∙ sym (
                share-append (suc n) r k (mapf (name m) (content m))
                  (all_pairs mapf name content (m + 1) count)),
      )

  -- Let the strings that the map function gives for the files be such as encoding/json keeps, which valid UTF-8 is.
  -- Map tasks are executed by any workers in any order, each at least once. Then every reduce task
  -- finds all of its files. For each key it calls the reduce function on the very values that the
  -- sequential program gives to it, in some order, and on no other values, if the key's hash is the
  -- number of the reduce task, and otherwise not at all. This holds for every way of sorting that
  -- puts the keys in order, by which each of the two programs may leave the values of a key in an
  -- order of its own.
  pub same_as_sequential :
      (sorter sorter' : SortByKey) (n_map : ℕ) (order : List ℕ) (files : Files)
      → ((m : ℕ) → m < n_map → AllKept utf8 (mapf (name m) (content m)))
      → ((m : ℕ) → m < n_map → Memᴰ m order)
      → (files' : Files) × (exec_maps utf8 mapf (suc n) name content order files ≡ some files')
        × ((r : ℕ) (k : Bytes)
            → r < suc n
            → (gs : List (Bytes × List Bytes)) × (reduce_groups sorter files' r n_map ≡ some gs)
              × (ihash k % suc n ≡ r
                  → AreSame
                      (groups_of k gs)
                      (groups_of k (sequential_groups mapf sorter' name content n_map)))
              × (ihash k % suc n ≢ r → groups_of k gs ≡ []))
  unfolding reduce_groups sequential_groups
  same_as_sequential sorter sorter' n_map order files kept all =
      let (files', ends, writes) = exec_maps_write order files in
      (
        files',
        ends,
        λ r k lt.
            let (kva, reads, values) =
              read_files_lem files' r k 0 n_map (λ i small. kept i (omega arith))
                (λ i small. writes i r lt (inl (all i (omega arith)))) in
            let (same, apart) =
              groups_of-share (suc n) r k sorter sorter' kva (all_pairs mapf name content 0 n_map)
                values in
            (groups (sorter.sort kva), rw (reads, reduce_groups) refl, same, apart),
      )
