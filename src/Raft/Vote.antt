-- ===== src/Raft/Vote.antt =====
-- src/raft/raft.go: `RequestVote`, and what a candidate does with the votes.
use sharded_kv.Prelude.{
  ℕ, ◌+◌, ◌/◌, ◌==◌, Bool, true, false, ◌&&◌, ◌||◌, not, Option, none, some, leb, ltb,
  if◌then◌else◌,
}
use sharded_kv.Raft.State.{
  Raft, is_candidate, is_leader, last_log_index, last_log_term, leader_state, follower_state,
  candidate_state, persist,
}

pub record RequestVoteArgs : Type 0 where
  pub term : ℕ
  pub candidate_id : ℕ
  pub last_log_index : ℕ
  pub last_log_term : ℕ

pub record RequestVoteReply : Type 0 where
  pub term : ℕ
  pub vote_granted : Bool

-- rf.votedFor == -1 || rf.votedFor == args.CandidateId
abbrev pub may_vote_for : ℕ → Option ℕ → Bool
may_vote_for candidate_id none = true
may_vote_for candidate_id (some c) = c == candidate_id

module _ {Command Blob : Type 0} where
  unfoldable pub is_up_to_date : RequestVoteArgs → Raft Command Blob → Bool
  is_up_to_date args rf =
      ltb (last_log_term rf) args.last_log_term
      || (args.last_log_term == last_log_term rf && leb (last_log_index rf) args.last_log_index)

  -- If the request holds a term T > currentTerm: set currentTerm = T, convert to follower.
  unfoldable pub catch_up : ℕ → Raft Command Blob → Raft Command Blob
  unfolding follower_state
  catch_up term rf = if ltb rf.current_term term then follower_state term rf else rf

  unfoldable pub request_vote :
      RequestVoteArgs → Raft Command Blob → Raft Command Blob × RequestVoteReply
  unfolding catch_up is_up_to_date persist
  request_vote args rf =
      let rf1 = catch_up args.term rf in
      if ltb args.term rf1.current_term
      then (persist rf1, record { term = rf1.current_term; vote_granted = false })
      else if may_vote_for args.candidate_id rf1.voted_for && is_up_to_date args rf1
      then (
        record (persist (record rf1 { voted_for = some args.candidate_id })) {
          clock = rf1.clock + 1;
        },
        record { term = rf1.current_term; vote_granted = true },
      )
      else (rf1, record { term = rf1.current_term; vote_granted = false })

  -- The request that candidateRequestVote sends to every other peer.
  abbrev pub vote_request : Raft Command Blob → RequestVoteArgs
  vote_request rf = record {
    term = rf.current_term;
    candidate_id = rf.me;
    last_log_index = last_log_index rf;
    last_log_term = last_log_term rf;
  }

  -- One round of the ticker: `expired` is the test of the election timeout. The peer stands for
  -- election, and the request goes out.
  unfoldable pub tick : Bool → Raft Command Blob → Raft Command Blob × Option RequestVoteArgs
  unfolding candidate_state
  tick expired rf =
      if is_leader rf.role || not expired
      then (rf, none)
      else let rf1 = candidate_state (record rf { clock = rf.clock + 1 }) in
        (rf1, some (vote_request rf1))

  -- A vote more, and the leadership with a majority.
  unfoldable pub count_vote : Raft Command Blob → Raft Command Blob
  unfolding leader_state
  count_vote rf =
      let rf1 = record rf { get_votes_num = rf.get_votes_num + 1 } in
      if ltb (rf.peers / 2) rf1.get_votes_num then leader_state rf1 else rf1

  -- What candidateRequestVote does with an answer; `ok` is false after four lost calls.
  unfoldable pub receive_vote :
      RequestVoteArgs → Bool → RequestVoteReply → Raft Command Blob → Raft Command Blob
  unfolding follower_state count_vote
  receive_vote args ok reply rf =
      if not ok
      then rf
      else if ltb rf.current_term reply.term
      then follower_state reply.term rf
      else if not (is_candidate rf.role) || not (rf.current_term == args.term)
      then rf
      else if reply.term == rf.current_term && reply.vote_granted
      then count_vote rf
      else rf
