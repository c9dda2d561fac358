-- ===== src/MapReduce/Worker/Groups.antt =====
-- src/mr/worker.go: the runs of equal keys in a sorted list.
use sharded_kv.Prelude.{
  ◌≡◌, refl, sym, ap, ◌∙◌, inl, inr, true, false, List, [], ◌∷◌, ◌++◌, arith, Bool-cases,
  if◌then◌else◌, Bytes, bytes_beq, bytes_beq_iff,
}
use mathlib.Core.List.{append-nil, append_assoc}
use sharded_kv.MapReduce.Worker.{KeyValue, bytes_leb, IsBelow, IsAscending, group_from, groups}

pub bytes_leb_antisymm : (a b : Bytes) → bytes_leb a b ≡ true → bytes_leb b a ≡ true → a ≡ b
unfolding bytes_leb
bytes_leb_antisymm [] [] h k = refl
bytes_leb_antisymm [] (y ∷ ys) h k = absurd (ground arith)
bytes_leb_antisymm (x ∷ xs) [] h k = absurd (ground arith)
bytes_leb_antisymm (x ∷ xs) (y ∷ ys) h k = ground (arith, bytes_leb_antisymm xs ys)

-- The values of a key, in their order.
abbrev pub values_of : Bytes → List KeyValue → List Bytes
values_of k [] = []
values_of k (kv ∷ kva) = if bytes_beq kv.key k then kv.value ∷ values_of k kva else values_of k kva

-- The groups of a key.
abbrev pub groups_of : Bytes → List (Bytes × List Bytes) → List (List Bytes)
groups_of k [] = []
groups_of k ((key, values) ∷ gs) =
    if bytes_beq key k then values ∷ groups_of k gs else groups_of k gs

-- One group, if there are any values.
abbrev pub one_group : List Bytes → List (List Bytes)
one_group [] = []
one_group (v ∷ vs) = (v ∷ vs) ∷ []

-- A key that is below all others, and is not the first, does not occur.
values_of_below :
    (k : Bytes) (kv : KeyValue) (kva : List KeyValue)
    → bytes_leb k kv.key ≡ true
    → bytes_beq kv.key k ≡ false
    → IsBelow kv.key kva
    → values_of k kva ≡ []
values_of_below k kv [] le other below = refl
values_of_below k kv (x ∷ kva) le other (first, below) = elim (Bool-cases (bytes_beq x.key k)) [
  | inl same ↦ absurd (
      let e = (bytes_beq_iff x.key k).0 same in
      let back : bytes_leb kv.key k ≡ true = rw (sym e) first in
      let both = (bytes_beq_iff kv.key k).1 (bytes_leb_antisymm kv.key k back le) in ground arith)
  | inr differ ↦ rw differ (values_of_below k kv kva le other below)
]

groups_of-group_from :
    (k key : Bytes) (values : List Bytes) (kva : List KeyValue)
    → IsBelow key kva
    → IsAscending kva
    → groups_of k (group_from key values kva)
      ≡ (if bytes_beq key k then (values ++ values_of k kva) ∷ [] else one_group (values_of k kva))
unfolding group_from
groups_of-group_from k key values [] below up = elim (Bool-cases (bytes_beq key k)) [
  | inl same ↦ rw same (ap (λ vs. vs ∷ []) (sym (append-nil values)))
  | inr differ ↦ rw differ refl
]
groups_of-group_from k key values (kv ∷ kva) (first, below) (above, up) =
    elim (Bool-cases (bytes_beq kv.key key)) [
      | inl same ↦
          let e = (bytes_beq_iff kv.key key).0 same in
          let rest = groups_of-group_from k key (values ++ kv.value ∷ []) kva below up in
          elim (Bool-cases (bytes_beq key k)) [
            | inl this ↦
                rw (same, group_from, e, this)
                  (rw this at rest
                    ∙ ap (λ vs. vs ∷ []) (append_assoc values (kv.value ∷ []) (values_of k kva)))
            | inr other ↦ rw (same, group_from, e, other) (rw other at rest)
          ]
      | inr differ ↦
          let rest = groups_of-group_from k kv.key (kv.value ∷ []) kva above up in
          elim (Bool-cases (bytes_beq key k)) [
            | inl this ↦
                let e = (bytes_beq_iff key k).0 this in
                let not_k : bytes_beq kv.key k ≡ false = rw (sym e) differ in
                let le : bytes_leb k kv.key ≡ true = rw (sym e) first in
                let none_of = values_of_below k kv kva le not_k above in
                rw (differ, group_from, this, not_k, none_of, append-nil values)
                  (ap (λ gs. values ∷ gs) (rw (not_k, none_of) at rest))
            | inr other ↦ elim (Bool-cases (bytes_beq kv.key k)) [
              | inl this ↦ rw (differ, group_from, other, this) (rw this at rest)
              | inr apart ↦ rw (differ, group_from, other, apart) (rw apart at rest)
            ]
          ]
    ]

-- In a sorted list each key that occurs has one group, which holds its values in their order.
pub groups_of-groups :
    (k : Bytes) (kva : List KeyValue)
    → IsAscending kva
    → groups_of k (groups kva) ≡ one_group (values_of k kva)
unfolding groups
groups_of-groups k [] up = refl
groups_of-groups k (kv ∷ kva) (above, up) =
    let rest = groups_of-group_from k kv.key (kv.value ∷ []) kva above up in
    elim (Bool-cases (bytes_beq kv.key k)) [
      | inl this ↦ rw this (rw this at rest)
      | inr apart ↦ rw apart (rw apart at rest)
    ]
