-- ===== src/Raft/Cluster/Tally.antt =====
-- src/raft/raft.go: the votes that a candidate has counted, as a set of peers, and its size.
use sharded_kv.Prelude.{
  ℕ, zero, suc, ◌+◌, ◌≤◌, ◌<◌, ◌≡◌, ◌≢◌, refl, inl, inr, Bool, true, false, ◌==◌, Bool-cases,
  ==_iff, arith,
}
use std.Path.{fun_ext}
use sharded_kv.Raft.Cluster.{at}

pub at-elim {ℓ ℓ'} :
    {A : Type ℓ} (P : ℕ → A → Type ℓ') (i : ℕ) {v : A} {f : ℕ → A}
    → P i v
    → ((j : ℕ) → P j (f j))
    → (j : ℕ) → P j (at i v f j)
at-elim P i {v} {f} new old j = elim (Bool-cases (j == i)) [
  | inl e ↦ let same = (==_iff j i).0 e in rw (e, same) new
  | inr e ↦ rw e (old j)
]

-- One entry of a table is changed.
pub at-elim_both {ℓ ℓ'} :
    {A : Type ℓ} (P : ℕ → ℕ → A → Type ℓ') (i k : ℕ) {v : A} {f : ℕ → ℕ → A}
    → P i k v
    → ((j l : ℕ) → P j l (f j l))
    → (j l : ℕ) → P j l (at i (at k v (f i)) f j l)
at-elim_both P i k {v} {f} new old j l = elim (Bool-cases (j == i)) [
  | inl e ↦ let same = (==_iff j i).0 e in rw (e, same) (at-elim (P i) k new (old i) l)
  | inr e ↦ rw e (old j l)
]

pub at_self {ℓ} : {A : Type ℓ} (i : ℕ) (v : A) (f : ℕ → A) → at i v f i ≡ v
at_self i v f = elim (Bool-cases (i == i)) [ inl e ↦ rw e refl | inr e ↦ ground arith ]

abbrev pub as_number : Bool → ℕ
as_number true = 1
as_number false = 0

-- How many of the first `n` peers are in the set.
unfoldable pub tally : ℕ → (ℕ → Bool) → ℕ
tally zero f = 0
tally (suc n) f = tally n f + as_number (f n)

pub tally_le :
    (n : ℕ) (f g : ℕ → Bool) → ((p : ℕ) → f p ≡ true → g p ≡ true) → tally n f ≤ tally n g
unfolding tally
tally_le zero f g sub = omega arith
tally_le (suc n) f g sub = ground (arith, tally_le n f g sub, sub n)

pub tally_disjoint :
    (n : ℕ) (f g : ℕ → Bool) → ((p : ℕ) → f p ≡ true → g p ≡ false) → tally n f + tally n g ≤ n
unfolding tally
tally_disjoint zero f g apart = omega arith
tally_disjoint (suc n) f g apart = ground (arith, tally_disjoint n f g apart, apart n)

tally-at_beyond : (n p : ℕ) (f : ℕ → Bool) → n ≤ p → tally n (at p true f) ≡ tally n f
unfolding tally
tally-at_beyond zero p f h = refl
tally-at_beyond (suc n) p f h = ground (arith, tally-at_beyond n p f)

pub tally-at :
    (n p : ℕ) (f : ℕ → Bool) → p < n → f p ≡ false → tally n (at p true f) ≡ tally n f + 1
unfolding tally
tally-at zero p f h new = elim h [ ]
tally-at (suc n) p f h new = elim (Bool-cases (n == p)) [
  | inl e ↦
      let same = (==_iff n p).0 e in
      let before = tally-at_beyond n p f (omega arith) in ground arith
  | inr e ↦ ground (arith, tally-at n p f)
]

tally_own_beyond : (n i : ℕ) → n ≤ i → tally n (λ p. p == i) ≡ 0
unfolding tally
tally_own_beyond zero i h = refl
tally_own_beyond (suc n) i h = ground (arith, tally_own_beyond n i)

pub tally_own : (n i : ℕ) → i < n → tally n (λ p. p == i) ≡ 1
unfolding tally
tally_own zero i h = elim h [ ]
tally_own (suc n) i h = elim (Bool-cases (n == i)) [
  | inl e ↦ let before = tally_own_beyond n i (omega (arith, (==_iff n i).0 e)) in ground arith
  | inr e ↦ ground (arith, tally_own n i)
]

pub at-same {ℓ} : {A : Type ℓ} (i : ℕ) (f : ℕ → A) → at i (f i) f ≡ f
at-same i f = fun_ext λ j. elim (Bool-cases (j == i)) [
  | inl e ↦ let same = (==_iff j i).0 e in rw (e, same) refl
  | inr e ↦ rw e refl
]

pub at-other {ℓ} : {A : Type ℓ} (i j : ℕ) (v : A) (f : ℕ → A) → j ≢ i → at i v f j ≡ f j
at-other i j v f other = elim (Bool-cases (j == i)) [
  | inl e ↦ absurd (other ((==_iff j i).0 e))
  | inr e ↦ rw e refl
]
