-- ===== src/Raft/Cluster/Marks.antt =====
-- src/raft/raft.go: a peer of a cluster when a vote has gone into its count.
use sharded_kv.Prelude.{
  ℕ, ◌+◌, ◌<◌, ◌≤◌, ◌≡◌, ◌≢◌, refl, sym, ap, ◌∙◌, inr, ◌⊎◌, Bool, true, false, Option, some, arith,
  ltb, ◌/◌,
}
use sharded_kv.Raft.State.{Raft, is_candidate, leader_state}
use sharded_kv.Raft.Cluster.{at}
use sharded_kv.Raft.Cluster.Tally.{at-elim, at_self, at-other, tally, tally_le, tally-at}
use sharded_kv.Raft.Cluster.Invariant.{IsMember}

-- The count of term `T` with the vote of `v`.
abbrev pub marked : ℕ → ℕ → (ℕ → ℕ → Bool) → ℕ → ℕ → Bool
marked T v counted = at T (at v true (counted T)) counted

pub marked_keeps :
    (T v : ℕ) (counted : ℕ → ℕ → Bool) (U p : ℕ)
    → counted U p ≡ true
    → marked T v counted U p ≡ true
marked_keeps T v counted U p e =
    at-elim (λ W (r : ℕ → Bool). counted W p ≡ true → r p ≡ true) T {f = counted}
      (λ e.
        at-elim (λ q (b : Bool). counted T q ≡ true → b ≡ true) v {f = counted T} (λ e. refl)
          (λ q e. e) p e)
      (λ W e. e) U e

pub marked_terms :
    (T v bound : ℕ) (counted : ℕ → ℕ → Bool)
    → T ≤ bound
    → ((U p : ℕ) → counted U p ≡ true → U ≤ bound)
    → (U p : ℕ) → marked T v counted U p ≡ true
    → U ≤ bound
marked_terms T v bound counted le old U p =
    at-elim (λ W (r : ℕ → Bool). r p ≡ true → W ≤ bound) T {f = counted} (λ e. le)
      (λ W e. old W p e) U

module _ {Command Blob : Type 0} (n : ℕ) where
  pub passed-IsMember :
      {ballots : ℕ → Option ℕ} {counted : ℕ → ℕ → Bool} {i : ℕ} {rf : Raft Command Blob} (T v : ℕ)
      → T ≤ rf.current_term
      → (is_candidate rf.role ≡ true → rf.current_term ≢ T)
      → IsMember n ballots counted i rf
      → IsMember n ballots (marked T v counted) i rf
  passed-IsMember {counted} {rf} T v le other m = record {
    is_me = m.is_me;
    all_peers = m.all_peers;
    durable = m.durable;
    own_vote = m.own_vote;
    settled = m.settled;
    counted_terms = marked_terms T v rf.current_term counted le m.counted_terms;
    standing = λ stands.
        rw (at-other T rf.current_term (at v true (counted T)) counted (other stands))
          (m.standing stands);
    leading = λ leads.
        let (own, most) = m.leading leads in
        (
          own,
          omega (
            arith,
            most,
            tally_le n (counted rf.current_term) (marked T v counted rf.current_term)
                (marked_keeps T v counted rf.current_term),
          ),
        );
  }

  -- The candidate has one vote more, in its state and in its count.
  one_more :
      {ballots : ℕ → Option ℕ} {counted : ℕ → ℕ → Bool} {i : ℕ} {rf : Raft Command Blob} (v : ℕ)
      → is_candidate rf.role ≡ true
      → v < n
      → v ≢ i
      → counted rf.current_term v ≡ false
      → IsMember n ballots counted i rf
      → (marked rf.current_term v counted rf.current_term i ≡ true)
        × (rf.get_votes_num + 1 ≡ tally n (marked rf.current_term v counted rf.current_term))
  one_more {counted} {i} {rf} v stands lt other new m =
      let T = rf.current_term in
      let (own, votes) = m.standing stands in
      (
        marked_keeps T v counted T i own,
        rw (at_self T (at v true (counted T)) counted, tally-at n v (counted T) lt new, votes) refl,
      )

  pub counted-IsMember :
      {ballots : ℕ → Option ℕ} {counted : ℕ → ℕ → Bool} {i : ℕ} {rf : Raft Command Blob} (v : ℕ)
      → is_candidate rf.role ≡ true
      → v < n
      → v ≢ i
      → counted rf.current_term v ≡ false
      → IsMember n ballots counted i rf
      → IsMember n ballots
          (marked rf.current_term v counted)
          i
          (record rf { get_votes_num = rf.get_votes_num + 1 })
  counted-IsMember {counted} {rf} v stands lt other new m = record {
    is_me = m.is_me;
    all_peers = m.all_peers;
    durable = m.durable;
    own_vote = m.own_vote;
    settled = m.settled;
    counted_terms =
        marked_terms rf.current_term v rf.current_term counted (omega arith) m.counted_terms;
    standing = λ stands. one_more v stands lt other new m;
    leading = λ leads. absurd (ground arith);
  }

  -- A candidate that has voted for itself has settled on no other peer.
  not_settled :
      {ballots : ℕ → Option ℕ} {counted : ℕ → ℕ → Bool} {i : ℕ} {rf : Raft Command Blob} (d : ℕ)
      → is_candidate rf.role ≡ true
      → IsMember n ballots counted i rf
      → ballots rf.current_term ≢ some d
  not_settled {rf} d stands m b = let held = m.settled rf.current_term d b in ground arith

  pub won_kept :
      {ballots : ℕ → Option ℕ} {counted : ℕ → ℕ → Bool} {i : ℕ} {rf : Raft Command Blob}
      → is_candidate rf.role ≡ true
      → IsMember n ballots counted i rf
      → (T d : ℕ) → ballots T ≡ some d
      → at rf.current_term (some i) ballots T ≡ some d
  won_kept {ballots} {i} {rf} stands m T d =
      at-elim (λ U (b : Option ℕ). ballots U ≡ some d → b ≡ some d) rf.current_term {f = ballots}
        (λ b. absurd (not_settled d stands m b)) (λ U b. b) T

  pub won-IsMember :
      {ballots : ℕ → Option ℕ} {counted : ℕ → ℕ → Bool} {i : ℕ} {rf : Raft Command Blob} (v : ℕ)
      → is_candidate rf.role ≡ true
      → v < n
      → v ≢ i
      → counted rf.current_term v ≡ false
      → ltb (rf.peers / 2) (rf.get_votes_num + 1) ≡ true
      → IsMember n ballots counted i rf
      → IsMember n
          (at rf.current_term (some i) ballots)
          (marked rf.current_term v counted)
          i
          (leader_state (record rf { get_votes_num = rf.get_votes_num + 1 }))
  unfolding leader_state
  won-IsMember {ballots} {counted} {i} {rf} v stands lt other new most m =
      let (own, votes) = one_more v stands lt other new m in
      let all = m.all_peers in
      let voted : rf.voted_for ≡ some i = ground (arith, m.own_vote, m.is_me) in
      record {
        is_me = m.is_me;
        all_peers = m.all_peers;
        durable = m.durable;
        own_vote = inr (voted ∙ ap some (sym m.is_me));
        settled =
            at-elim
              (λ U (b : Option ℕ).
                (d : ℕ)
                → b ≡ some d
                → (U < rf.current_term)
                  ⊎ ((rf.current_term ≡ U) × (rf.voted_for ≡ some d) × (false ≡ false)))
              rf.current_term {f = ballots} (λ d e. inr (refl, voted ∙ e, refl))
              (λ U d b. let held = m.settled U d b in ground arith);
        counted_terms =
            marked_terms rf.current_term v rf.current_term counted (omega arith) m.counted_terms;
        standing = λ stands. absurd (ground arith);
        leading = λ leads. (at_self rf.current_term (some i) ballots, ground arith);
      }
