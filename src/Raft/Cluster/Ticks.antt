-- ===== src/Raft/Cluster/Ticks.antt =====
-- src/raft/raft.go: a peer of a cluster stands for election.
use sharded_kv.Prelude.{
  ℕ, ◌+◌, ◌<◌, ◌*◌, ◌≢◌, ◌≤◌, Option, ◌≡◌, refl, inl, inr, ◌⊎◌, Bool, true, ◌==◌, not, ◌||◌,
  Bool-cases, ==_iff, arith, ◌∷◌,
}
use mathlib.Core.List.{Memᴰ}
use sharded_kv.Raft.State.{Raft, is_leader, persist, candidate_state}
use sharded_kv.Raft.Peer.Held.{IsHeld}
use sharded_kv.Raft.Vote.{tick, vote_request}
use sharded_kv.Raft.Cluster.{Cluster, at, do_tick}
use sharded_kv.Raft.Cluster.Tally.{at-elim, at_self, at-same, at-other, tally, tally_own}
use sharded_kv.Raft.Cluster.Invariant.{
  IsMember, IsSound, IsElected, IsRequested, IsBallot, moved-IsSound, moved,
}
use sharded_kv.Raft.Cluster.Votes.{new_or_old}

module _ {Command Blob : Type 0} (n : ℕ) where
  -- The peer as it stands for election.
  abbrev standing_peer : Raft Command Blob → Raft Command Blob
  standing_peer rf = candidate_state (record rf { clock = rf.clock + 1 })

  -- Its count of the new term holds its own vote.
  abbrev own_row : ℕ → Raft Command Blob → (ℕ → ℕ → Bool) → ℕ → ℕ → Bool
  own_row i rf counted = at (rf.current_term + 1) (λ p. p == i) counted

  standing-IsMember :
      {ballots : ℕ → Option ℕ} {counted : ℕ → ℕ → Bool} (i : ℕ) (rf : Raft Command Blob)
      → i < n
      → IsMember n ballots counted i rf
      → IsMember n ballots (own_row i rf counted) i (standing_peer rf)
  unfolding candidate_state persist
  standing-IsMember {ballots} {counted} i rf lt m =
      let row = own_row i rf counted in
      let own : row (rf.current_term + 1) ≡ (λ p. p == i) =
        at_self (rf.current_term + 1) (λ p. p == i) counted in
      record {
        is_me = m.is_me;
        all_peers = m.all_peers;
        durable = refl;
        own_vote = inr refl;
        settled = λ T c b. ground (arith, m.settled T c b);
        counted_terms = λ T p.
            at-elim (λ U (r : ℕ → Bool). r p ≡ true → U ≤ rf.current_term + 1) (rf.current_term + 1)
              {f = counted} (λ e. omega arith) (λ U e. omega (arith, m.counted_terms U p e)) T;
        standing = λ stands. (rw own ((==_iff i i).1 refl), rw (own, tally_own n i lt) refl);
        leading = λ leads. absurd (ground arith);
      }

  pub tick-IsSound :
      (i : ℕ) (expired : Bool) (s : Cluster Command Blob)
      → IsSound n s
      → i < n
      → IsSound n (do_tick i expired s)
  unfolding do_tick tick candidate_state persist
  tick-IsSound i expired s h lt =
      let rf = s.peer i in
      let m = h.members i in
      elim (Bool-cases (is_leader rf.role || not expired)) [
        | inl stays ↦ rw (stays, at-same i s.peer) h
        | inr stands ↦
            let rf' = standing_peer rf in
            let args = vote_request rf' in
            let row = own_row i rf (s.counted i) in
            let s' = moved n i rf' (args ∷ s.requests) s.answers (s.ballots i) row s in
            let sound =
              moved-IsSound n i rf' (args ∷ s.requests) s.answers (s.ballots i) row s h
                (standing-IsMember i rf lt m) (omega arith) (λ T c b. b)
                (new_or_old (IsRequested n s') (rw (m.is_me, (==_iff i i).1 refl) (lt, omega arith))
                  (λ a m. m))
                (λ a m. Memᴰ.tail m) (λ a m. inl m)
                (λ T p.
                  at-elim
                    (λ U (r : ℕ → Bool).
                      r p ≡ true → (s.counted i U p ≡ true) ⊎ IsBallot n s' i U p)
                    (rf.current_term + 1) {f = s.counted i} (λ e. inr (inl ((==_iff p i).0 e)))
                    (λ U e. inl e) T) in
            let there : IsSound n (record s' { ballots = s.ballots }) =
              rw (at-same i s.ballots) at sound in
            rw stands there
      ]

  -- It leaves what was counted in the terms before.
  pub tick_elected :
      (i : ℕ) (expired : Bool) (s : Cluster Command Blob)
      → IsSound n s
      → (c T : ℕ)
      → let s' = do_tick i expired s in
        IsElected n (s.ballots c) (s.counted c) c T → IsElected n (s'.ballots c) (s'.counted c) c T
  unfolding do_tick tick candidate_state persist
  tick_elected i expired s h c T (own, most) =
      elim (Bool-cases (is_leader (s.peer i).role || not expired)) [
        | inl stays ↦ rw stays (own, most)
        | inr stands ↦
            let held = (h.members c).settled T c own in
            let U = (s.peer i).current_term + 1 in
            let kept =
              at-elim (λ j (k : ℕ → ℕ → Bool). j ≡ c → n < 2 * tally n (k T)) i {f = s.counted}
                (λ e.
                  let here : IsHeld T c (s.peer i) = rw e held in
                  let past : T ≢ U = λ q. ground arith in
                  rw (at-other U T (λ p. p == i) (s.counted i) past, e) most)
                (λ j e. rw e most) c refl in
            rw stands (own, kept)
      ]
