-- ===== src/Raft/Elections.antt =====
-- src/raft/raft.go: `RequestVote` among all other events in the life of a peer.
use sharded_kv.Prelude.{
  ℕ, ◌+◌, ◌-◌, ◌*◌, ◌≤◌, ◌<◌, ◌≡◌, ◌≢◌, refl, ◌⊎◌, inl, true, none, some, arith,
}
use sharded_kv.Raft.State.{
  Raft, leader, candidate, persist, follower_state, last_log_index, last_log_term,
}
use sharded_kv.Raft.Vote.{
  RequestVoteArgs, RequestVoteReply, request_vote, catch_up, is_up_to_date, receive_vote,
  count_vote,
}
use sharded_kv.Raft.Append.{AppendEntriesArgs, append_entries, step_down, accept}
use sharded_kv.Raft.Peer.{fresh}
use sharded_kv.Raft.Peer.Crashes.{Later, Later-IsDurable, Later-HasOwnVote, Later-IsHeld}
use sharded_kv.Raft.Peer.Durable.{request_vote-IsDurable}
use sharded_kv.Raft.Peer.Held.{IsHeld}
use sharded_kv.Raft.Peer.OwnVote.{HasOwnVote}

module _ {Command Blob : Type 0} where
  abbrev pub Grants : RequestVoteArgs → Raft Command Blob → Type 0
  Grants args rf = (request_vote args rf).1.vote_granted ≡ true

  -- A vote that is granted is for the term that the peer is then in, which is no lower than
  -- before; it is recorded, in memory and with the persister; and the candidate's log is up to
  -- date: its last term is higher than the peer's, or the same with a last index no lower.
  pub granted_vote :
      (args : RequestVoteArgs) (rf : Raft Command Blob)
      → Grants args rf
      → let after = (request_vote args rf).0 in
        (after.current_term ≡ args.term)
        × (rf.current_term ≤ args.term)
        × (after.voted_for ≡ some args.candidate_id)
        × (after.stored.voted_for ≡ some args.candidate_id)
        × ((last_log_term rf < args.last_log_term)
            ⊎ ((args.last_log_term ≡ last_log_term rf) × (last_log_index rf ≤ args.last_log_index)))
  unfolding request_vote catch_up is_up_to_date persist follower_state last_log_term last_log_index
  granted_vote args rf g = (ground arith, ground arith, ground arith, ground arith, ground arith)

  pub request_vote-IsHeld_after :
      (args : RequestVoteArgs) (rf : Raft Command Blob)
      → HasOwnVote rf
      → args.candidate_id ≢ rf.me
      → Grants args rf
      → IsHeld args.term args.candidate_id (request_vote args rf).0
  unfolding request_vote catch_up persist follower_state
  request_vote-IsHeld_after args rf own other g = ground arith

  pub granted_if_held :
      (T c : ℕ) (args : RequestVoteArgs) (rf : Raft Command Blob)
      → IsHeld T c rf
      → args.term ≡ T
      → Grants args rf
      → args.candidate_id ≡ c
  unfolding request_vote catch_up persist follower_state
  granted_if_held T c args rf held same g = ground arith

  -- In the life of a peer, which starts fresh and may crash and be made again from what it saved at
  -- any time, let it vote for another peer. Then a vote that it gives later in the same term goes
  -- to that same peer, whatever events and crashes lie between the two requests.
  pub one_vote_per_term :
      (me peers : ℕ) (nil : Blob) (a b : RequestVoteArgs) (rf rf' : Raft Command Blob)
      → Later me peers nil (fresh me peers nil) rf
      → a.candidate_id ≢ rf.me
      → Grants a rf
      → Later me peers nil (request_vote a rf).0 rf'
      → b.term ≡ a.term
      → Grants b rf'
      → b.candidate_id ≡ a.candidate_id
  unfolding fresh
  one_vote_per_term me peers nil a b rf rf' life other first later same second =
      granted_if_held a.term a.candidate_id b rf'
        (Later-IsHeld me peers nil a.term a.candidate_id later
          (request_vote-IsDurable a rf (Later-IsDurable me peers nil life refl))
          (request_vote-IsHeld_after a rf (Later-HasOwnVote me peers nil life (inl refl)) other
            first))
        same second

  -- A candidate that is leader once it has handled the answer to a request for a vote was in the
  -- term of the request, which is the term of the answer; the vote was granted; and with it the
  -- candidate has more than half of the peers' votes.
  pub wins_with_majority :
      (args : RequestVoteArgs) (reply : RequestVoteReply) (rf : Raft Command Blob)
      → rf.role ≡ candidate
      → (receive_vote args true reply rf).role ≡ leader
      → (rf.current_term ≡ args.term)
        × (reply.term ≡ args.term)
        × (reply.vote_granted ≡ true)
        × (rf.peers < 2 * (rf.get_votes_num + 1))
  unfolding receive_vote count_vote follower_state persist
  wins_with_majority args reply rf stands wins =
      (ground arith, ground arith, ground arith, ground arith)

  accept_keeps :
      (args : AppendEntriesArgs Command) (real last : ℕ) (rf : Raft Command Blob)
      → ((accept args real last rf).current_term ≡ rf.current_term)
        × ((accept args real last rf).voted_for ≡ rf.voted_for)
  unfolding accept persist
  accept_keeps args real last rf = (ground arith, ground arith)

  vote_dropped :
      (append : AppendEntriesArgs Command) (rf : Raft Command Blob)
      → rf.role ≡ candidate
      → append.term ≡ rf.current_term
      → ((append_entries append rf).0.current_term ≡ rf.current_term)
        × ((append_entries append rf).0.voted_for ≡ none)
  unfolding append_entries step_down persist follower_state
  vote_dropped append rf stands same =
      let rf2 : Raft Command Blob = record (step_down append.term rf) {
        clock = (step_down append.term rf).clock + 1;
        broadcasts = (step_down append.term rf).broadcasts + 1;
      } in
      let kept =
        accept_keeps append (append.prev_log_index - rf2.last_included_index) (last_log_index rf2)
          rf2 in
      (ground arith, ground arith)

  -- A candidate that has voted for itself handles an AppendEntries of its own term, and then a
  -- request for a vote of that term from another peer whose log is up to date: it grants that
  -- vote, so that it has voted twice in the term.
  pub own_vote_given_away :
      (append : AppendEntriesArgs Command) (vote : RequestVoteArgs) (rf : Raft Command Blob)
      → rf.role ≡ candidate
      → rf.voted_for ≡ some rf.me
      → append.term ≡ rf.current_term
      → vote.term ≡ rf.current_term
      → vote.candidate_id ≢ rf.me
      → is_up_to_date vote (append_entries append rf).0 ≡ true
      → Grants vote (append_entries append rf).0
  unfolding request_vote catch_up
  own_vote_given_away append vote rf stands own same now other newer =
      let (term, dropped) = vote_dropped append rf stands same in ground arith
