-- ===== src/Raft/Tests.antt =====
-- Runs of a Raft peer, src/raft/raft.go, on small inputs.
use sharded_kv.Prelude.{
  length, ℕ, zero, suc, ◌+◌, ◌-◌, ◌*◌, ◌≤◌, ◌<◌, ◌≡◌, refl, ◌⊎◌, true, none, some, [], ◌∷◌,
  get_elem?, get_or, arith,
}
use sharded_kv.Raft.State.{
  Raft, LogEntry, Persisted, head_entry, follower, leader, candidate, persisted, last_log_index,
  last_log_term, get_log_at,
}
use sharded_kv.Raft.Vote.{
  RequestVoteArgs, RequestVoteReply, request_vote, receive_vote, is_up_to_date,
}
use sharded_kv.Raft.Append.{AppendEntriesArgs, AppendEntriesReply, zero_reply, append_entries}
use sharded_kv.Raft.Snapshots.{InstallSnapshotArgs}
use sharded_kv.Raft.Append.Merge.{Agrees}
use sharded_kv.Raft.Append.Success.{append_success}
use sharded_kv.Raft.Leader.{count_replica}
use sharded_kv.Raft.Leader.Commit.{
  log_term, HasSortedTerms, holders, count_replica_raises, commit_mono,
}
use sharded_kv.Raft.Peer.{fresh, make, step, vote_requested}
use sharded_kv.Raft.Peer.Crashes.{Later, now, event, crash, crash_recovery, log_never_empty}
use sharded_kv.Raft.Leader.{append, prepare, receive_append, receive_install}
use sharded_kv.Raft.Replication.{term_of, Holds, AreMatching, accepted_entries}
use sharded_kv.Raft.Elections.{
  Grants, one_vote_per_term, granted_vote, wins_with_majority, own_vote_given_away,
}

-- Peer 0 of 3, with numbers as commands and as blobs.
abbrev peer : Raft ℕ ℕ
peer = record {
  me = 0;
  peers = 3;
  role = follower;
  log = head_entry ∷ [];
  current_term = 0;
  voted_for = none;
  commit_index = 0;
  last_applied = 0;
  get_votes_num = 0;
  next_index = 1 ∷ 1 ∷ 1 ∷ [];
  match_index = some 0 ∷ some 0 ∷ some 0 ∷ [];
  last_included_index = 0;
  last_included_term = 0;
  snapshot = 0;
  clock = 0;
  broadcasts = 0;
  stored = record {
    current_term = 0;
    voted_for = none;
    log = head_entry ∷ [];
    last_included_index = 0;
    last_included_term = 0;
  };
  stored_snapshot = 0;
}

-- It is what Make makes without a persisted state.
peer_is_fresh : fresh 0 3 0 ≡ peer
unfolding fresh
peer_is_fresh = refl

abbrev first_vote : RequestVoteArgs
first_vote = record { term = 1; candidate_id = 1; last_log_index = 0; last_log_term = 0 }

first_vote-Grants : Grants first_vote peer
unfolding request_vote last_log_term last_log_index
first_vote-Grants = refl

granted_vote_example :
    ((request_vote first_vote peer).0.current_term ≡ 1)
    × (0 ≤ 1)
    × ((request_vote first_vote peer).0.voted_for ≡ some 1)
    × ((request_vote first_vote peer).0.stored.voted_for ≡ some 1)
    × ((last_log_term peer < 0) ⊎ ((0 ≡ last_log_term peer) × (last_log_index peer ≤ 0)))
granted_vote_example = granted_vote first_vote peer first_vote-Grants

-- What the peer saves when it votes, and what it is when it is made again after a crash.
abbrev voted : Persisted ℕ
voted = record peer.stored { current_term = 1; voted_for = some 1 }

abbrev restarted : Raft ℕ ℕ
restarted = record peer { current_term = 1; voted_for = some 1; stored = voted }

restarted-Later : Later 0 3 0 (request_vote first_vote peer).0 restarted
unfolding request_vote last_log_term last_log_index make
restarted-Later = crash now

second_vote : RequestVoteArgs
second_vote = record first_vote { last_log_index = 5; last_log_term = 1 }

second_vote-Grants : Grants second_vote restarted
unfolding second_vote request_vote last_log_term last_log_index
second_vote-Grants = refl

one_vote_per_term_example : second_vote.candidate_id ≡ first_vote.candidate_id
unfolding second_vote fresh
one_vote_per_term_example =
    one_vote_per_term 0 3 0 first_vote second_vote peer restarted now (λ e. ground arith)
      first_vote-Grants restarted-Later refl second_vote-Grants

abbrev made_again : Raft ℕ ℕ → Raft ℕ ℕ
made_again before = make 0 3 0 before.stored before.stored_snapshot

crash_recovery_example :
    (persisted (made_again restarted) ≡ persisted restarted)
    × ((made_again restarted).stored ≡ restarted.stored)
    × ((made_again restarted).commit_index ≡ restarted.last_included_index)
    × ((made_again restarted).last_applied ≡ restarted.last_included_index)
unfolding fresh request_vote last_log_term last_log_index make step
crash_recovery_example =
    crash_recovery 0 3 0 restarted (crash (event now (vote_requested first_vote)))

-- The peer stands in term 1 and has its own vote.
abbrev standing : Raft ℕ ℕ
standing = record peer { role = candidate; current_term = 1; voted_for = some 0; get_votes_num = 1 }

abbrev granted : RequestVoteReply
granted = record { term = 1; vote_granted = true }

abbrev own_request : RequestVoteArgs
own_request = record { term = 1; candidate_id = 0; last_log_index = 0; last_log_term = 0 }

won : (receive_vote own_request true granted standing).role ≡ leader
unfolding receive_vote
won = refl

wins_with_majority_example :
    (standing.current_term ≡ own_request.term)
    × (granted.term ≡ own_request.term)
    × (granted.vote_granted ≡ true)
    × (standing.peers < 2 * (standing.get_votes_num + 1))
wins_with_majority_example = wins_with_majority own_request granted standing refl won

abbrev entry : ℕ → ℕ → LogEntry ℕ
entry term index = record { term = term; command = some 9; index = index }

abbrev heartbeat : AppendEntriesArgs ℕ
heartbeat = record {
  term = 1;
  leader_id = 2;
  prev_log_index = 0;
  prev_log_term = some 0;
  entries = [];
  leader_commit = 0;
}

own_vote_given_away_example : Grants first_vote (append_entries heartbeat standing).0
unfolding is_up_to_date last_log_term append_entries last_log_index
own_vote_given_away_example =
    own_vote_given_away heartbeat first_vote standing refl refl refl refl (λ e. ground arith) refl

-- A follower whose second entry conflicts with the leader's.
abbrev behind : Raft ℕ ℕ
behind = record peer { log = head_entry ∷ entry 1 1 ∷ entry 1 2 ∷ []; current_term = 1 }

abbrev conflicting : AppendEntriesArgs ℕ
conflicting = record {
  term = 2;
  leader_id = 2;
  prev_log_index = 1;
  prev_log_term = some 1;
  entries = entry 2 2 ∷ entry 2 3 ∷ [];
  leader_commit = 1;
}

succeeds : (append_entries conflicting behind).1.success ≡ true
unfolding append_entries last_log_index
succeeds = refl

append_success_example :
    let after = (append_entries conflicting behind).0 in
    (after.current_term ≡ 2)
    × (0 ≤ 1)
    × (1 < 3)
    × ((j : ℕ) → j ≤ 1 → get_elem? after.log j ≡ get_elem? behind.log j)
    × Agrees conflicting.entries after.log 2
    × ((after.commit_index ≡ 0)
        ⊎ ((after.commit_index ≤ 1) × (after.commit_index ≤ last_log_index behind)))
append_success_example = append_success conflicting behind succeeds

-- A leader of term 1, whose second peer holds its last entry.
abbrev leading : Raft ℕ ℕ
leading = record behind { role = leader; match_index = some 0 ∷ some 2 ∷ some 0 ∷ [] }

leading-HasSortedTerms : HasSortedTerms leading
unfolding log_term get_log_at
leading-HasSortedTerms zero j le h = omega arith
leading-HasSortedTerms (suc i) zero le h = absurd (omega (arith, le))
leading-HasSortedTerms (suc zero) (suc zero) le h = omega arith
leading-HasSortedTerms (suc zero) (suc (suc zero)) le h = omega arith
leading-HasSortedTerms (suc zero) (suc (suc (suc j))) le h = absurd (omega (arith, h))
leading-HasSortedTerms (suc (suc zero)) (suc zero) le h = absurd (omega (arith, le))
leading-HasSortedTerms (suc (suc zero)) (suc (suc zero)) le h = omega arith
leading-HasSortedTerms (suc (suc zero)) (suc (suc (suc j))) le h = absurd (omega (arith, h))
leading-HasSortedTerms (suc (suc (suc i))) (suc j) le h = absurd (omega (arith, le, h))

raises : leading.commit_index < count_replica leading
unfolding count_replica last_log_term
raises = omega arith

count_replica_raises_example :
    (leading.peers < 2 * holders (count_replica leading) 0 0 leading.match_index)
    × (count_replica leading ≤ last_log_index leading)
    × (last_log_term leading ≡ leading.current_term)
    × (log_term (count_replica leading - leading.last_included_index) leading
        ≡ leading.current_term)
count_replica_raises_example =
    count_replica_raises leading (omega arith) (omega arith) leading-HasSortedTerms (omega arith)
      raises

-- A peer answers that it holds both entries, and that it has the snapshot.
abbrev success_reply : AppendEntriesReply
success_reply = record zero_reply { term = 1; success = true }

abbrev first_snapshot : InstallSnapshotArgs ℕ
first_snapshot = record {
  term = 1;
  leader_id = 0;
  last_included_index = 1;
  last_included_term = 1;
  snapshot = 0;
}

commit_mono_example :
    (leading.commit_index ≤ (receive_append 2 conflicting true success_reply leading).commit_index)
    × (leading.commit_index ≤ (receive_install 2 first_snapshot true 1 leading).commit_index)
commit_mono_example = commit_mono 2 conflicting true success_reply first_snapshot 1 leading

log_never_empty_example :
    (0 < length restarted.log)
    × (restarted.last_included_index ≤ restarted.commit_index)
    × (restarted.last_included_index ≤ last_log_index restarted)
unfolding fresh request_vote last_log_term last_log_index make step
log_never_empty_example =
    log_never_empty 0 3 0 restarted (crash (event now (vote_requested first_vote)))

-- The leader of term 1 sends both of its entries to the peer that has none.
abbrev sending : Raft ℕ ℕ
sending = record leading { next_index = 3 ∷ 1 ∷ 1 ∷ [] }

abbrev both_entries : AppendEntriesArgs ℕ
both_entries = record {
  term = 1;
  leader_id = 0;
  prev_log_index = 0;
  prev_log_term = some 0;
  entries = entry 1 1 ∷ entry 1 2 ∷ [];
  leader_commit = 0;
}

sends_both : (prepare 1 sending).1 ≡ append both_entries
unfolding prepare get_log_at last_log_index
sends_both = refl

accepts_both : (append_entries both_entries peer).1.success ≡ true
unfolding append_entries last_log_index
accepts_both = refl

-- They agree on the head of the log, which is all that the peer has.
sending-AreMatching : AreMatching sending peer
unfolding log_term get_log_at
sending-AreMatching zero zero le a b low low' e = refl
sending-AreMatching zero (suc j) le a b low low' e = absurd (omega (arith, le))
sending-AreMatching (suc i) j le a b low low' e = absurd (omega (arith, b.1))

recorded_2 :
    get_or
      (receive_append 1 both_entries true (append_entries both_entries peer).1 sending).match_index
      1
      none
    ≡ some 2
unfolding receive_append append_entries last_log_index count_replica last_log_term
recorded_2 = refl

accepted_entries_example :
    Holds 1 (append_entries both_entries peer).0
    × (term_of 1 (append_entries both_entries peer).0 ≡ term_of 1 sending)
accepted_entries_example =
    accepted_entries 1 sending peer sending both_entries 1 2 sends_both accepts_both
      sending-AreMatching refl refl (omega arith) recorded_2 (omega arith) (omega arith)
      (omega arith)
