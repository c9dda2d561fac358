-- ===== src/Raft/Peer/OwnVote.antt =====
-- src/raft/raft.go: the role of a peer against its vote, for every handler.
use sharded_kv.Prelude.{ℕ, ◌+◌, ◌-◌, ◌≡◌, ◌⊎◌, Bool, some, arith}
use sharded_kv.Raft.State.{
  Raft, follower, persist, follower_state, candidate_state, leader_state, save_state_and_snapshot,
  last_log_index,
}
use sharded_kv.Raft.Vote.{
  RequestVoteArgs, RequestVoteReply, request_vote, catch_up, tick, receive_vote, count_vote,
}
use sharded_kv.Raft.Append.{
  AppendEntriesArgs, AppendEntriesReply, step_down, accept, append_entries,
}
use sharded_kv.Raft.Snapshots.{
  InstallSnapshotArgs, install_snapshot, cond_install_snapshot, snapshot,
}
use sharded_kv.Raft.Leader.{
  prepare, receive_append, receive_install, handle_log_inconsistency, advance_commit, start,
}
use sharded_kv.Raft.Peer.{
  Event, step, no_args, vote_requested, append_requested, install_requested, snapshot_offered,
  snapshot_taken, started, ticked, vote_received, prepared, append_answered, install_answered,
  applied,
}

module _ {Command Blob : Type 0} where
  abbrev pub HasOwnVote : Raft Command Blob → Type 0
  HasOwnVote rf = (rf.role ≡ follower) ⊎ (rf.voted_for ≡ some rf.me)

  request_vote-HasOwnVote :
      (args : RequestVoteArgs) (rf : Raft Command Blob)
      → HasOwnVote rf
      → HasOwnVote (request_vote args rf).0
  unfolding request_vote catch_up persist follower_state
  request_vote-HasOwnVote args rf h = ground arith

  accept-HasOwnVote :
      (args : AppendEntriesArgs Command) (real last : ℕ) (rf : Raft Command Blob)
      → HasOwnVote rf
      → HasOwnVote (accept args real last rf)
  unfolding accept persist
  accept-HasOwnVote args real last rf h = ground arith

  step_down-HasOwnVote :
      (term : ℕ) (rf : Raft Command Blob) → HasOwnVote rf → HasOwnVote (step_down term rf)
  unfolding step_down follower_state persist
  step_down-HasOwnVote term rf h = ground arith

  append_entries-HasOwnVote :
      (args : AppendEntriesArgs Command) (rf : Raft Command Blob)
      → HasOwnVote rf
      → HasOwnVote (append_entries args rf).0
  unfolding append_entries
  append_entries-HasOwnVote args rf h =
      let rf1 = step_down args.term rf in
      let rf2 : Raft Command Blob = record rf1 {
        clock = rf1.clock + 1;
        broadcasts = rf1.broadcasts + 1;
      } in
      ground (
        arith,
        step_down-HasOwnVote args.term rf h,
        accept-HasOwnVote args (args.prev_log_index - rf2.last_included_index) (last_log_index rf2)
            rf2,
      )

  snapshots-HasOwnVote :
      (args : InstallSnapshotArgs Blob) (term index : ℕ) (blob : Blob) (rf : Raft Command Blob)
      → HasOwnVote rf
      → HasOwnVote (install_snapshot args rf).0
        × HasOwnVote (cond_install_snapshot term index blob rf).0
        × HasOwnVote (snapshot index blob rf)
  unfolding install_snapshot cond_install_snapshot snapshot save_state_and_snapshot follower_state
      persist
  snapshots-HasOwnVote args term index blob rf h = (ground arith, ground arith, ground arith)

  receive_vote-HasOwnVote :
      (args : RequestVoteArgs) (ok : Bool) (reply : RequestVoteReply) (rf : Raft Command Blob)
      → HasOwnVote rf
      → HasOwnVote (receive_vote args ok reply rf)
  unfolding receive_vote count_vote leader_state follower_state persist
  receive_vote-HasOwnVote args ok reply rf h = ground arith

  receive_append-HasOwnVote :
      (peer : ℕ) (args : AppendEntriesArgs Command) (ok : Bool) (reply : AppendEntriesReply)
      (rf : Raft Command Blob)
      → HasOwnVote rf
      → HasOwnVote (receive_append peer args ok reply rf)
  unfolding receive_append handle_log_inconsistency advance_commit follower_state persist
  receive_append-HasOwnVote peer args ok reply rf h = ground arith

  receive_install-HasOwnVote :
      (peer : ℕ) (args : InstallSnapshotArgs Blob) (ok : Bool) (term : ℕ) (rf : Raft Command Blob)
      → HasOwnVote rf
      → HasOwnVote (receive_install peer args ok term rf)
  unfolding receive_install advance_commit follower_state persist
  receive_install-HasOwnVote peer args ok term rf h = ground arith

  pub step-HasOwnVote :
      (e : Event Command Blob) (rf : Raft Command Blob) → HasOwnVote rf → HasOwnVote (step e rf)
  unfolding step start tick candidate_state persist prepare
  step-HasOwnVote (vote_requested args) rf h = request_vote-HasOwnVote args rf h
  step-HasOwnVote (append_requested args) rf h = append_entries-HasOwnVote args rf h
  step-HasOwnVote (install_requested args) rf h =
      (snapshots-HasOwnVote args 0 0 args.snapshot rf h).0
  step-HasOwnVote (snapshot_offered term index blob) rf h =
      (snapshots-HasOwnVote (no_args blob) term index blob rf h).1
  step-HasOwnVote (snapshot_taken index blob) rf h =
      (snapshots-HasOwnVote (no_args blob) 0 index blob rf h).2
  step-HasOwnVote (started killed command) rf h = ground arith
  step-HasOwnVote (ticked expired) rf h = ground arith
  step-HasOwnVote (vote_received args ok reply) rf h = receive_vote-HasOwnVote args ok reply rf h
  step-HasOwnVote (prepared peer) rf h = ground arith
  step-HasOwnVote (append_answered peer args ok reply) rf h =
      receive_append-HasOwnVote peer args ok reply rf h
  step-HasOwnVote (install_answered peer args ok term) rf h =
      receive_install-HasOwnVote peer args ok term rf h
  step-HasOwnVote (applied upto) rf h = ground arith
