-- ===== src/Raft/Peer/Held.antt =====
-- src/raft/raft.go: a vote that a peer has given and that is settled, for every handler.
use sharded_kv.Prelude.{ℕ, ◌+◌, ◌-◌, ◌<◌, ◌≡◌, ◌⊎◌, Bool, false, some, arith}
use sharded_kv.Raft.State.{
  Raft, is_candidate, persist, follower_state, candidate_state, leader_state,
  save_state_and_snapshot, last_log_index,
}
use sharded_kv.Raft.Vote.{
  RequestVoteArgs, RequestVoteReply, request_vote, catch_up, tick, receive_vote, count_vote,
}
use sharded_kv.Raft.Append.{
  AppendEntriesArgs, AppendEntriesReply, step_down, accept, append_entries,
}
use sharded_kv.Raft.Snapshots.{
  InstallSnapshotArgs, install_snapshot, cond_install_snapshot, snapshot,
}
use sharded_kv.Raft.Leader.{
  prepare, receive_append, receive_install, handle_log_inconsistency, advance_commit, start,
}
use sharded_kv.Raft.Peer.{
  Event, step, no_args, vote_requested, append_requested, install_requested, snapshot_offered,
  snapshot_taken, started, ticked, vote_received, prepared, append_answered, install_answered,
  applied,
}

module _ {Command Blob : Type 0} (T c : ℕ) where
  -- The vote of term `T` has gone to `c`, and the peer is no candidate of that term.
  abbrev pub IsHeld : Raft Command Blob → Type 0
  IsHeld rf =
      (T < rf.current_term)
      ⊎ ((rf.current_term ≡ T) × (rf.voted_for ≡ some c) × (is_candidate rf.role ≡ false))

  request_vote-IsHeld :
      (args : RequestVoteArgs) (rf : Raft Command Blob)
      → IsHeld rf
      → IsHeld (request_vote args rf).0
  unfolding request_vote catch_up persist follower_state
  request_vote-IsHeld args rf h = ground arith

  accept-IsHeld :
      (args : AppendEntriesArgs Command) (real last : ℕ) (rf : Raft Command Blob)
      → IsHeld rf
      → IsHeld (accept args real last rf)
  unfolding accept persist
  accept-IsHeld args real last rf h = ground arith

  step_down-IsHeld : (term : ℕ) (rf : Raft Command Blob) → IsHeld rf → IsHeld (step_down term rf)
  unfolding step_down follower_state persist
  step_down-IsHeld term rf h = ground arith

  append_entries-IsHeld :
      (args : AppendEntriesArgs Command) (rf : Raft Command Blob)
      → IsHeld rf
      → IsHeld (append_entries args rf).0
  unfolding append_entries
  append_entries-IsHeld args rf h =
      let rf1 = step_down args.term rf in
      let rf2 : Raft Command Blob = record rf1 {
        clock = rf1.clock + 1;
        broadcasts = rf1.broadcasts + 1;
      } in
      ground (
        arith,
        step_down-IsHeld args.term rf h,
        accept-IsHeld args (args.prev_log_index - rf2.last_included_index) (last_log_index rf2) rf2,
      )

  snapshots-IsHeld :
      (args : InstallSnapshotArgs Blob) (term index : ℕ) (blob : Blob) (rf : Raft Command Blob)
      → IsHeld rf
      → IsHeld (install_snapshot args rf).0
        × IsHeld (cond_install_snapshot term index blob rf).0
        × IsHeld (snapshot index blob rf)
  unfolding install_snapshot cond_install_snapshot snapshot save_state_and_snapshot follower_state
      persist
  snapshots-IsHeld args term index blob rf h = (ground arith, ground arith, ground arith)

  receive_vote-IsHeld :
      (args : RequestVoteArgs) (ok : Bool) (reply : RequestVoteReply) (rf : Raft Command Blob)
      → IsHeld rf
      → IsHeld (receive_vote args ok reply rf)
  unfolding receive_vote count_vote leader_state follower_state persist
  receive_vote-IsHeld args ok reply rf h = ground arith

  receive_append-IsHeld :
      (peer : ℕ) (args : AppendEntriesArgs Command) (ok : Bool) (reply : AppendEntriesReply)
      (rf : Raft Command Blob)
      → IsHeld rf
      → IsHeld (receive_append peer args ok reply rf)
  unfolding receive_append handle_log_inconsistency advance_commit follower_state persist
  receive_append-IsHeld peer args ok reply rf h = ground arith

  receive_install-IsHeld :
      (peer : ℕ) (args : InstallSnapshotArgs Blob) (ok : Bool) (term : ℕ) (rf : Raft Command Blob)
      → IsHeld rf
      → IsHeld (receive_install peer args ok term rf)
  unfolding receive_install advance_commit follower_state persist
  receive_install-IsHeld peer args ok term rf h = ground arith

  pub step-IsHeld :
      (e : Event Command Blob) (rf : Raft Command Blob) → IsHeld rf → IsHeld (step e rf)
  unfolding step start tick candidate_state persist prepare
  step-IsHeld (vote_requested args) rf h = request_vote-IsHeld args rf h
  step-IsHeld (append_requested args) rf h = append_entries-IsHeld args rf h
  step-IsHeld (install_requested args) rf h = (snapshots-IsHeld args 0 0 args.snapshot rf h).0
  step-IsHeld (snapshot_offered term index blob) rf h =
      (snapshots-IsHeld (no_args blob) term index blob rf h).1
  step-IsHeld (snapshot_taken index blob) rf h =
      (snapshots-IsHeld (no_args blob) 0 index blob rf h).2
  step-IsHeld (started killed command) rf h = ground arith
  step-IsHeld (ticked expired) rf h = ground arith
  step-IsHeld (vote_received args ok reply) rf h = receive_vote-IsHeld args ok reply rf h
  step-IsHeld (prepared peer) rf h = ground arith
  step-IsHeld (append_answered peer args ok reply) rf h =
      receive_append-IsHeld peer args ok reply rf h
  step-IsHeld (install_answered peer args ok term) rf h =
      receive_install-IsHeld peer args ok term rf h
  step-IsHeld (applied upto) rf h = ground arith
