-- ===== src/Raft/Cluster/Counts.antt =====
-- src/raft/raft.go: a candidate of a cluster counts a vote.
use sharded_kv.Prelude.{
  ℕ, ◌+◌, ◌*◌, ◌<◌, ◌≤◌, ◌≡◌, ◌≢◌, refl, inl, inr, ◌⊎◌, Bool, true, false, Option, some, ◌==◌, not,
  ◌&&◌, Bool-cases, arith, ltb, if◌then◌else◌, ◌/◌, by_test,
}
use mathlib.Core.List.{Memᴰ}
use sharded_kv.Raft.State.{Raft, is_leader, is_candidate, persist, follower_state, leader_state}
use sharded_kv.Raft.Vote.{RequestVoteArgs, RequestVoteReply, receive_vote, count_vote}
use sharded_kv.Raft.Peer.Durable.{step-IsDurable}
use sharded_kv.Raft.Peer.Held.{step-IsHeld}
use sharded_kv.Raft.Peer.OwnVote.{step-HasOwnVote}
use sharded_kv.Raft.Peer.{Event, vote_received, step}
use sharded_kv.Raft.Cluster.{Cluster, Answer, at, do_count}
use sharded_kv.Raft.Cluster.Calm.{IsCalm}
use sharded_kv.Raft.Cluster.Tally.{at-elim, at-other, tally, tally_le}
use sharded_kv.Raft.Cluster.Invariant.{
  moved-ballots, IsMember, IsSound, IsBallot, moved-IsSound, moved, IsElected, IsQuiet,
  quiet-IsMember,
}
use sharded_kv.Raft.Cluster.Marks.{
  marked, marked_keeps, passed-IsMember, counted-IsMember, won_kept, won-IsMember,
}

module _ {Command Blob : Type 0} where
  -- The answer is counted.
  abbrev pub IsCounted : RequestVoteArgs → RequestVoteReply → Raft Command Blob → Type 0
  IsCounted args reply rf =
      (reply.vote_granted ≡ true)
      × (is_candidate rf.role ≡ true)
      × (rf.current_term ≡ args.term)
      × (receive_vote args true reply rf ≡ count_vote rf)

  -- It is not, and a vote that it grants is not for the term in which the peer stands.
  abbrev pub IsPassed : RequestVoteArgs → RequestVoteReply → Raft Command Blob → Type 0
  IsPassed args reply rf =
      let rf' = receive_vote args true reply rf in
      IsCalm rf rf'
      × (reply.vote_granted ≡ true → is_candidate rf'.role ≡ true → rf'.current_term ≢ args.term)
      × ((is_leader rf'.role && not (is_leader rf.role)) ≡ false)

  pub receive_vote_cases :
      (args : RequestVoteArgs) (reply : RequestVoteReply) (rf : Raft Command Blob)
      → (reply.vote_granted ≡ true → reply.term ≡ args.term)
      → IsCounted args reply rf ⊎ IsPassed args reply rf
  unfolding receive_vote persist follower_state
  receive_vote_cases args reply rf same =
      elim (Bool-cases
        (reply.vote_granted && is_candidate rf.role && rf.current_term == args.term)) [
          | inl e ↦ inl (ground arith, ground arith, ground arith, ground arith)
          | inr e ↦ inr (ground arith, λ g c now. ground arith, ground arith)
        ]

module _ {Command Blob : Type 0} (n : ℕ) where
  -- What a candidate has counted and settled after an answer.
  abbrev counted_row : Answer → Cluster Command Blob → ℕ → ℕ → Bool
  counted_row a s =
      let counted = s.counted a.args.candidate_id in
      if a.reply.vote_granted then marked a.args.term a.voter counted else counted

  abbrev ballot_row : Raft Command Blob → Answer → Cluster Command Blob → ℕ → Option ℕ
  ballot_row rf a s =
      let ballots = s.ballots a.args.candidate_id in
      if is_leader rf.role && not (is_leader (s.peer a.args.candidate_id).role)
      then at rf.current_term (some a.args.candidate_id) ballots
      else ballots

  -- Both rows are right for the candidate's new state `rf`.
  abbrev IsCounting : Raft Command Blob → Answer → Cluster Command Blob → Type 0
  IsCounting rf a s =
      let c = a.args.candidate_id in
      IsMember n (ballot_row rf a s) (counted_row a s) c rf
      × ((T d : ℕ) → s.ballots c T ≡ some d → ballot_row rf a s T ≡ some d)
      × ((s.peer c).current_term ≤ rf.current_term)

  -- That is so if it leads after the vote and its own ballot is settled, or if it leads no more
  -- than before; and if a vote that is granted is in the count.
  IsCounting-rows :
      (rf : Raft Command Blob) (a : Answer) (s : Cluster Command Blob)
      → let c = a.args.candidate_id in
        let wins = is_leader rf.role && not (is_leader (s.peer c).role) in
        ((s.peer c).current_term ≤ rf.current_term)
        → (wins ≡ true
            → IsMember n (at rf.current_term (some c) (s.ballots c)) (counted_row a s) c rf
              × ((T d : ℕ)
                  → s.ballots c T ≡ some d
                  → at rf.current_term (some c) (s.ballots c) T ≡ some d))
        → (wins ≡ false → IsMember n (s.ballots c) (counted_row a s) c rf)
        → IsCounting rf a s
  IsCounting-rows rf a s mono won lost =
      let c = a.args.candidate_id in
      let wins = is_leader rf.role && not (is_leader (s.peer c).role) in
      (
        by_test (λ (b : ℕ → Option ℕ). IsMember n b (counted_row a s) c rf) wins (λ e. (won e).0)
            lost,
        by_test (λ (b : ℕ → Option ℕ). (T d : ℕ) → s.ballots c T ≡ some d → b T ≡ some d) wins
            (λ e. (won e).1) (λ e T d b. b),
        mono,
      )

  passed-IsCounting :
      (a : Answer) (s : Cluster Command Blob)
      → IsMember n
          (s.ballots a.args.candidate_id)
          (s.counted a.args.candidate_id)
          a.args.candidate_id
          (s.peer a.args.candidate_id)
      → a.args.term ≤ (s.peer a.args.candidate_id).current_term
      → IsPassed a.args a.reply (s.peer a.args.candidate_id)
      → IsCounting (receive_vote a.args true a.reply (s.peer a.args.candidate_id)) a s
  unfolding step
  passed-IsCounting a s m le (calm, away, same) =
      let c = a.args.candidate_id in
      let rf = s.peer c in
      let e : Event Command Blob = vote_received a.args true a.reply in
      let quiet : IsQuiet n rf (receive_vote a.args true a.reply rf) = record {
        calm = calm;
        durable = step-IsDurable e rf m.durable;
        own_vote = step-HasOwnVote e rf m.own_vote;
        held = λ T c. step-IsHeld T c e rf;
      } in
      let member = quiet-IsMember n quiet m in
      let above : a.args.term ≤ (receive_vote a.args true a.reply rf).current_term =
        omega (arith, le, calm.term_mono) in
      IsCounting-rows (receive_vote a.args true a.reply rf) a s calm.term_mono
        (λ wins. absurd (ground arith))
        (λ loses.
          by_test
            (λ (k : ℕ → ℕ → Bool).
              IsMember n (s.ballots c) k c (receive_vote a.args true a.reply rf))
            a.reply.vote_granted
            (λ grants. passed-IsMember n a.args.term a.voter above (away grants) member)
            (λ refuses. member))

  counted-IsCounting :
      (a : Answer) (s : Cluster Command Blob)
      → IsMember n
          (s.ballots a.args.candidate_id)
          (s.counted a.args.candidate_id)
          a.args.candidate_id
          (s.peer a.args.candidate_id)
      → a.voter < n
      → a.voter ≢ a.args.candidate_id
      → s.counted a.args.candidate_id a.args.term a.voter ≡ false
      → IsCounted a.args a.reply (s.peer a.args.candidate_id)
      → IsCounting (receive_vote a.args true a.reply (s.peer a.args.candidate_id)) a s
  unfolding count_vote leader_state
  counted-IsCounting a s m lt other new (grants, stands, same, counts) =
      let c = a.args.candidate_id in
      let rf = s.peer c in
      let fresh_vote : s.counted c rf.current_term a.voter ≡ false = rw same new in
      let was : is_leader rf.role ≡ false = ground arith in
      let row : counted_row a s ≡ marked rf.current_term a.voter (s.counted c) =
        rw (grants, same) refl in
      rw counts (elim (Bool-cases (ltb (rf.peers / 2) (rf.get_votes_num + 1))) [
        | inl most ↦
            let rf' = leader_state (record rf { get_votes_num = rf.get_votes_num + 1 }) in
            let counting : IsCounting rf' a s =
              IsCounting-rows rf' a s (omega arith)
                (λ wins. (
                  rw row (won-IsMember n a.voter stands lt other fresh_vote most m),
                  won_kept n stands m,
                ))
                (λ loses. absurd (ground arith)) in
            rw most counting
        | inr few ↦
            let rf' : Raft Command Blob = record rf { get_votes_num = rf.get_votes_num + 1 } in
            let counting : IsCounting rf' a s =
              IsCounting-rows rf' a s (omega arith) (λ wins. absurd (ground arith))
                (λ loses. rw row (counted-IsMember n a.voter stands lt other fresh_vote m)) in
            rw few counting
      ])

  answer-IsCounting :
      (a : Answer) (s : Cluster Command Blob)
      → IsSound n s
      → Memᴰ a s.answers
      → s.counted a.args.candidate_id a.args.term a.voter ≡ false
      → IsCounting (receive_vote a.args true a.reply (s.peer a.args.candidate_id)) a s
  answer-IsCounting a s h answers new =
      let m = h.members a.args.candidate_id in
      let (asked, lt, other, granted) = h.answered a answers in
      let (_, le) = h.requested a.args asked in
      elim (receive_vote_cases a.args a.reply (s.peer a.args.candidate_id) (λ g. (granted g).0)) [
        | inl counts ↦ counted-IsCounting a s m lt other new counts
        | inr passes ↦ passed-IsCounting a s m le passes
      ]

  pub count-IsSound :
      (a : Answer) (s : Cluster Command Blob)
      → IsSound n s
      → Memᴰ a s.answers
      → s.counted a.args.candidate_id a.args.term a.voter ≡ false
      → IsSound n (do_count a s)
  unfolding do_count
  count-IsSound a s h answers new =
      let c = a.args.candidate_id in
      let rf = receive_vote a.args true a.reply (s.peer c) in
      let (asked, lt, other, granted) = h.answered a answers in
      let (member, kept, mono) = answer-IsCounting a s h answers new in
      let s' = moved n c rf s.requests s.answers (ballot_row rf a s) (counted_row a s) s in
      moved-IsSound n c rf s.requests s.answers (ballot_row rf a s) (counted_row a s) s h member
        mono kept (λ a m. inl m) (λ a m. m) (λ a m. inl m)
        (λ T p.
          by_test
            (λ (row : ℕ → ℕ → Bool).
              row T p ≡ true → (s.counted c T p ≡ true) ⊎ IsBallot n s' c T p)
            a.reply.vote_granted
            (λ grants.
              at-elim
                (λ U (r : ℕ → Bool). r p ≡ true → (s.counted c U p ≡ true) ⊎ IsBallot n s' c U p)
                a.args.term {f = s.counted c}
                (at-elim
                  (λ q (b : Bool).
                    b ≡ true → (s.counted c a.args.term q ≡ true) ⊎ IsBallot n s' c a.args.term q)
                  a.voter {f = s.counted c a.args.term}
                  (λ e. inr (
                    inr (
                      rw (at-other c a.voter (ballot_row rf a s) s.ballots other)
                        (granted grants).1)))
                  (λ q e. inl e) p)
                (λ U e. inl e) T)
            (λ refuses e. inl e))

  pub count_elected :
      (a : Answer) (s : Cluster Command Blob)
      → IsSound n s
      → Memᴰ a s.answers
      → s.counted a.args.candidate_id a.args.term a.voter ≡ false
      → (c T : ℕ)
      → let s' = do_count a s in
        IsElected n (s.ballots c) (s.counted c) c T → IsElected n (s'.ballots c) (s'.counted c) c T
  unfolding do_count
  count_elected a s h answers new c T (own, most) =
      let i = a.args.candidate_id in
      let rf = receive_vote a.args true a.reply (s.peer i) in
      let (member, kept, mono) = answer-IsCounting a s h answers new in
      let keeps : (p : ℕ) → s.counted i T p ≡ true → counted_row a s T p ≡ true = λ p.
        by_test (λ (row : ℕ → ℕ → Bool). s.counted i T p ≡ true → row T p ≡ true)
          a.reply.vote_granted (λ grants. marked_keeps a.args.term a.voter (s.counted i) T p)
          (λ refuses e. e) in
      (
        moved-ballots i (ballot_row rf a s) s.ballots kept c T c own,
        at-elim (λ j (k : ℕ → ℕ → Bool). n < 2 * tally n (s.counted j T) → n < 2 * tally n (k T)) i
            {f = s.counted}
            (λ most. omega (arith, tally_le n (s.counted i T) (counted_row a s T) keeps)) (λ j m. m)
            c most,
      )
