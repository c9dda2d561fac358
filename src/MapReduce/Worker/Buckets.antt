-- ===== src/MapReduce/Worker/Buckets.antt =====
-- src/mr/worker.go: where the pairs of a map task go.
use sharded_kv.Prelude.{
  ℕ, zero, suc, ◌%◌, ◌<◌, ◌≡◌, ◌≢◌, refl, sym, ap, ap₂, map, ◌∙◌, subst, inl, inr, true, false,
  ◌==◌, ==_iff, List, [], ◌∷◌, ◌++◌, arith, Bool-cases, if◌then◌else◌, Bytes, bytes_beq,
  bytes_beq_iff, length, get_or, set, replicate, get_or-set_self, get_or-set_ne, length-set,
  length-replicate,
}
use native.Mathlib.Nat.{mod-lt, zero-lt-suc}
use mathlib.Core.List.{append-nil, append_assoc}
use sharded_kv.MapReduce.Worker.{KeyValue, through_json, ihash, put_in, distribute}
use sharded_kv.MapReduce.Worker.Groups.{values_of}

pub values_of-append :
    (k : Bytes) (xs ys : List KeyValue) → values_of k (xs ++ ys) ≡ values_of k xs ++ values_of k ys
values_of-append k [] ys = refl
values_of-append k (x ∷ xs) ys = elim (Bool-cases (bytes_beq x.key k)) [
  | inl this ↦ rw this (ap (λ vs. x.value ∷ vs) (values_of-append k xs ys))
  | inr other ↦ rw other (values_of-append k xs ys)
]

-- What a list gives to bucket `j`.
abbrev pub share : ℕ → ℕ → Bytes → List KeyValue → List Bytes
share n j k kva = if ihash k % n == j then values_of k kva else []

share_here :
    (n : ℕ) (k : Bytes) (kv : KeyValue)
    → share n (ihash kv.key % n) k (kv ∷ []) ≡ values_of k (kv ∷ [])
share_here n k kv = elim (Bool-cases (bytes_beq kv.key k)) [
  | inl this ↦
      let e = (bytes_beq_iff kv.key k).0 this in
      let same : (ihash k % n == ihash kv.key % n) ≡ true =
        rw e ((==_iff (ihash k % n) (ihash k % n)).1 refl) in
      rw same refl
  | inr other ↦ elim (Bool-cases (ihash k % n == ihash kv.key % n)) [
    | inl same ↦ rw same refl
    | inr apart ↦ rw (other, apart) refl
  ]
]

share_there :
    (n j : ℕ) (k : Bytes) (kv : KeyValue)
    → (ihash kv.key % n == j) ≡ false
    → share n j k (kv ∷ []) ≡ []
share_there n j k kv there = elim (Bool-cases (bytes_beq kv.key k)) [
  | inl this ↦
      let e = (bytes_beq_iff kv.key k).0 this in
      let apart : (ihash k % n == j) ≡ false = rw (sym e) there in rw apart refl
  | inr other ↦ elim (Bool-cases (ihash k % n == j)) [
    | inl same ↦ rw (same, other) refl
    | inr apart ↦ rw apart refl
  ]
]

-- One pair more.
values_of-put_in :
    (n j : ℕ) (k : Bytes) (kv : KeyValue) (buckets : List (List KeyValue))
    → length buckets ≡ suc n
    → values_of k (get_or (put_in (suc n) kv buckets) j [])
      ≡ values_of k (get_or buckets j []) ++ share (suc n) j k (kv ∷ [])
values_of-put_in n j k kv buckets all =
    let bucket = ihash kv.key % suc n in
    let lt : bucket < length buckets = rw all (mod-lt (ihash kv.key) (zero-lt-suc n)) in
    let new = get_or buckets bucket [] ++ kv ∷ [] in
    elim (Bool-cases (bucket == j)) [
      | inl here ↦
          let e = (==_iff bucket j).0 here in
          subst
            (λ j.
              values_of k (get_or (set buckets bucket new) j [])
              ≡ values_of k (get_or buckets j []) ++ share (suc n) j k (kv ∷ []))
            e
            (ap (values_of k) (get_or-set_self buckets bucket new [] lt)
              ∙ values_of-append k (get_or buckets bucket []) (kv ∷ [])
              ∙ ap (λ vs. values_of k (get_or buckets bucket []) ++ vs)
                  (sym (share_here (suc n) k kv)))
      | inr there ↦
          let differ : bucket ≢ j = λ e. ground (arith, (==_iff bucket j).1 e) in
          ap (values_of k) (get_or-set_ne buckets bucket j new [] differ)
          ∙ sym (append-nil (values_of k (get_or buckets j [])))
          ∙ ap (λ vs. values_of k (get_or buckets j []) ++ vs)
              (sym (share_there (suc n) j k kv there))
    ]

share-cons :
    (n j : ℕ) (k : Bytes) (kv : KeyValue) (kva : List KeyValue)
    → share n j k (kv ∷ []) ++ share n j k kva ≡ share n j k (kv ∷ kva)
share-cons n j k kv kva = elim (Bool-cases (ihash k % n == j)) [
  | inl same ↦ rw same (sym (values_of-append k (kv ∷ []) kva))
  | inr apart ↦ rw apart refl
]

-- A bucket gets the values of the keys whose hash is its number, in their order, and no others.
pub values_of-distribute :
    (n j : ℕ) (k : Bytes) (kva : List KeyValue) (buckets : List (List KeyValue))
    → length buckets ≡ suc n
    → values_of k (get_or (distribute (suc n) kva buckets) j [])
      ≡ values_of k (get_or buckets j []) ++ share (suc n) j k kva
unfolding distribute
values_of-distribute n j k [] buckets all = elim (Bool-cases (ihash k % suc n == j)) [
  | inl same ↦ rw same (sym (append-nil (values_of k (get_or buckets j []))))
  | inr apart ↦ rw apart (sym (append-nil (values_of k (get_or buckets j []))))
]
values_of-distribute n j k (kv ∷ kva) buckets all =
    let b = get_or buckets j [] in
    let still =
      length-set buckets (ihash kv.key % suc n)
        (get_or buckets (ihash kv.key % suc n) [] ++ kv ∷ [])
      ∙ all in
    values_of-distribute n j k kva (put_in (suc n) kv buckets) still
    ∙ ap (λ vs. vs ++ share (suc n) j k kva) (values_of-put_in n j k kv buckets all)
    ∙ append_assoc (values_of k b) (share (suc n) j k (kv ∷ [])) (share (suc n) j k kva)
    ∙ ap (λ vs. values_of k b ++ vs) (share-cons (suc n) j k kv kva)

abbrev empty_bucket : List KeyValue
empty_bucket = []

get_or-replicate : (n j : ℕ) → get_or (replicate n empty_bucket) j [] ≡ []
get_or-replicate zero j = refl
get_or-replicate (suc n) zero = refl
get_or-replicate (suc n) (suc j) = get_or-replicate n j

pub values_of-buckets :
    (n j : ℕ) (k : Bytes) (kva : List KeyValue)
    → values_of k (get_or (distribute (suc n) kva (replicate (suc n) [])) j [])
      ≡ share (suc n) j k kva
values_of-buckets n j k kva =
    values_of-distribute n j k kva (replicate (suc n) []) (length-replicate (suc n) [])
    ∙ ap (λ b. values_of k b ++ share (suc n) j k kva) (get_or-replicate (suc n) j)

-- Strings that encoding/json keeps, as it does with valid UTF-8.
abbrev pub AllKept : (Bytes → Bytes) → List KeyValue → Type 0
AllKept utf8 [] = Unit
AllKept utf8 (kv ∷ kva) = (through_json utf8 kv ≡ kv) × AllKept utf8 kva

Kept-append :
    (utf8 : Bytes → Bytes) (xs ys : List KeyValue)
    → AllKept utf8 xs
    → AllKept utf8 ys
    → AllKept utf8 (xs ++ ys)
Kept-append utf8 [] ys a b = b
Kept-append utf8 (x ∷ xs) ys a b = (a.0, Kept-append utf8 xs ys a.1 b)

Kept-set :
    (utf8 : Bytes → Bytes) (buckets : List (List KeyValue)) (i : ℕ) (v : List KeyValue)
    → ((j : ℕ) → AllKept utf8 (get_or buckets j []))
    → AllKept utf8 v
    → (j : ℕ) → AllKept utf8 (get_or (set buckets i v) j [])
Kept-set utf8 [] i v all kept j = all j
Kept-set utf8 (b ∷ bs) zero v all kept zero = kept
Kept-set utf8 (b ∷ bs) zero v all kept (suc j) = all (suc j)
Kept-set utf8 (b ∷ bs) (suc i) v all kept zero = all zero
Kept-set utf8 (b ∷ bs) (suc i) v all kept (suc j) = Kept-set utf8 bs i v (λ k. all (suc k)) kept j

Kept-distribute :
    (utf8 : Bytes → Bytes) (n : ℕ) (kva : List KeyValue) (buckets : List (List KeyValue))
    → AllKept utf8 kva
    → ((j : ℕ) → AllKept utf8 (get_or buckets j []))
    → (j : ℕ) → AllKept utf8 (get_or (distribute n kva buckets) j [])
unfolding distribute
Kept-distribute utf8 n [] buckets kept all j = all j
Kept-distribute utf8 n (kv ∷ kva) buckets kept all j =
    let bucket = ihash kv.key % n in
    Kept-distribute utf8 n kva (put_in n kv buckets) kept.1
      (Kept-set utf8 buckets bucket (get_or buckets bucket [] ++ kv ∷ []) all
        (Kept-append utf8 (get_or buckets bucket []) (kv ∷ []) (all bucket) (kept.0, tt)))
      j

empty_buckets : (n j : ℕ) → get_or {A = List KeyValue} (replicate n []) j [] ≡ []
empty_buckets zero j = refl
empty_buckets (suc n) zero = refl
empty_buckets (suc n) (suc j) = empty_buckets n j

Kept-through_json :
    (utf8 : Bytes → Bytes) (kva : List KeyValue)
    → AllKept utf8 kva
    → map (through_json utf8) kva ≡ kva
Kept-through_json utf8 [] kept = refl
Kept-through_json utf8 (kv ∷ kva) kept = ap₂ ◌∷◌ kept.0 (Kept-through_json utf8 kva kept.1)

-- What is read back of a bucket is what was put in it.
pub Kept-bucket :
    (utf8 : Bytes → Bytes) (n : ℕ) (kva : List KeyValue) (j : ℕ)
    → AllKept utf8 kva
    → map (through_json utf8) (get_or (distribute n kva (replicate n [])) j [])
      ≡ get_or (distribute n kva (replicate n [])) j []
Kept-bucket utf8 n kva j kept =
    Kept-through_json utf8 (get_or (distribute n kva (replicate n [])) j []) (
      Kept-distribute utf8 n kva (replicate n []) kept
        (λ i. subst (AllKept utf8) (sym (empty_buckets n i)) tt) j)
