-- ===== src/ShardKv/Merging.antt =====
-- src/shardkv/server.go: mergeClientSeqNum.
use sharded_kv.Prelude.{
  ℕ, ◌≤◌, ◌==◌, ◌≡◌, refl, ap, inl, inr, [], ◌∷◌, if◌then◌else◌, arith, ltb, GoMap, HasDistinctKeys,
  lookup, index, put, index-put, nat_eq, Bool-cases,
}
use sharded_kv.ShardKv.Server.{merge_seq}

pub merge_seq_grows :
    (arrived seq : GoMap ℕ ℕ) (client : ℕ)
    → index seq client 0 ≤ index (merge_seq arrived seq) client 0
unfolding merge_seq
merge_seq_grows [] seq client = omega arith
merge_seq_grows ((c, n) ∷ rest) seq client = elim (Bool-cases (ltb (index seq c 0) n)) [
  | inl newer ↦ rw newer (
      ground (
        arith,
        merge_seq_grows rest (put c n seq) client,
        index-put c client n 0 seq,
        newer,
        ap (λ x. index seq x 0) {x = c} {y = client},
      ))
  | inr older ↦ rw older (merge_seq_grows rest seq client)
]

least : (n : ℕ) → 0 ≤ n
least n = omega arith

index_first :
    (c n client : ℕ) (rest : GoMap ℕ ℕ)
    → index ((c, n) ∷ rest) client 0 ≡ (if c == client then n else index rest client 0)
unfolding index lookup
index_first c n client rest = ground arith

pub merge_seq_covers :
    (arrived seq : GoMap ℕ ℕ) (client : ℕ)
    → index arrived client 0 ≤ index (merge_seq arrived seq) client 0
unfolding index merge_seq
merge_seq_covers [] seq client = least (index (merge_seq [] seq) client 0)
merge_seq_covers ((c, n) ∷ rest) seq client = elim (Bool-cases (ltb (index seq c 0) n)) [
  | inl newer ↦
      rw (newer, merge_seq)
        (ground (
          arith,
          merge_seq_covers rest (put c n seq) client,
          merge_seq_grows rest (put c n seq) client,
          index-put c client n 0 seq,
          index_first c n client rest,
        ))
  | inr older ↦
      rw (older, merge_seq)
        (ground (
          arith,
          merge_seq_covers rest seq client,
          merge_seq_grows rest seq client,
          index_first c n client rest,
          older,
          ap (λ x. index seq x 0) {x = c} {y = client},
        ))
]

-- The higher of the two numbers of a client is kept.
pub index-merge_seq :
    (arrived seq : GoMap ℕ ℕ) (client : ℕ)
    → HasDistinctKeys arrived
    → index (merge_seq arrived seq) client 0 ≡ (
        if ltb (index seq client 0) (index arrived client 0)
        then index arrived client 0
        else index seq client 0)
unfolding merge_seq index lookup
index-merge_seq [] seq client d = ground arith
index-merge_seq ((c, n) ∷ rest) seq client d =
    let absent : index rest c 0 ≡ 0 = rw (d.0, index) refl in
    elim (Bool-cases (ltb (index seq c 0) n)) [
      | inl newer ↦
          rw (newer, merge_seq)
            (ground (
              arith,
              index-merge_seq rest (put c n seq) client d.1,
              index-put c client n 0 seq,
              index_first c n client rest,
              absent,
              newer,
              ap (λ x. index seq x 0) {x = c} {y = client},
              ap (λ x. index rest x 0) {x = c} {y = client},
            ))
      | inr older ↦
          rw (older, merge_seq)
            (ground (
              arith,
              index-merge_seq rest seq client d.1,
              index_first c n client rest,
              absent,
              older,
              ap (λ x. index seq x 0) {x = c} {y = client},
              ap (λ x. index rest x 0) {x = c} {y = client},
            ))
    ]
