-- ===== src/Raft/Cluster/Calm.antt =====
-- src/raft/raft.go: what every handler but the ticker's and the count of votes leaves as it is.
use sharded_kv.Prelude.{ℕ, ◌+◌, ◌-◌, ◌≤◌, ◌≡◌, Bool, false, true, ap, arith}
use sharded_kv.Raft.State.{
  Raft, is_candidate, is_leader, persist, follower_state, save_state_and_snapshot, last_log_index,
}
use sharded_kv.Raft.Vote.{RequestVoteArgs, request_vote, catch_up, receive_vote}
use sharded_kv.Raft.Append.{
  AppendEntriesArgs, AppendEntriesReply, step_down, accept, append_entries,
}
use sharded_kv.Raft.Snapshots.{
  InstallSnapshotArgs, install_snapshot, cond_install_snapshot, snapshot,
}
use sharded_kv.Raft.State.{Persisted, restore}
use sharded_kv.Raft.Peer.Durable.{IsDurable}
use sharded_kv.Raft.Cluster.{is_internal}
use sharded_kv.Raft.Leader.{
  prepare, receive_append, receive_install, handle_log_inconsistency, advance_commit, start,
}
use sharded_kv.Raft.Peer.{
  Event, step, make, fresh, no_args, vote_requested, append_requested, install_requested,
  snapshot_offered, snapshot_taken, started, ticked, vote_received, prepared, append_answered,
  install_answered, applied, batch_sent,
}

module _ {Command Blob : Type 0} where
  -- The peer is the same one, its term does not fall, and a candidate or a leader that it is
  -- afterwards it was before, in the same term and with the same votes.
  pub record IsCalm (rf rf' : Raft Command Blob) : Type 0 where
    pub same_me : rf'.me ≡ rf.me
    pub same_peers : rf'.peers ≡ rf.peers
    pub term_mono : rf.current_term ≤ rf'.current_term
    pub was_candidate :
        is_candidate rf'.role ≡ true
        → (is_candidate rf.role ≡ true)
          × (rf'.current_term ≡ rf.current_term)
          × (rf'.get_votes_num ≡ rf.get_votes_num)
    pub was_leader :
        is_leader rf'.role ≡ true
        → (is_leader rf.role ≡ true) × (rf'.current_term ≡ rf.current_term)

  pub request_vote-IsCalm :
      (args : RequestVoteArgs) (rf : Raft Command Blob) → IsCalm rf (request_vote args rf).0
  unfolding request_vote catch_up persist follower_state
  request_vote-IsCalm args rf = ground arith

  accept-IsCalm :
      (args : AppendEntriesArgs Command) (real last : ℕ) (rf : Raft Command Blob)
      → IsCalm rf (accept args real last rf)
  unfolding accept persist
  accept-IsCalm args real last rf = ground arith

  step_down-IsCalm : (term : ℕ) (rf : Raft Command Blob) → IsCalm rf (step_down term rf)
  unfolding step_down follower_state persist
  step_down-IsCalm term rf = ground arith

  append_entries-IsCalm :
      (args : AppendEntriesArgs Command) (rf : Raft Command Blob)
      → IsCalm rf (append_entries args rf).0
  unfolding append_entries
  append_entries-IsCalm args rf =
      let rf1 = step_down args.term rf in
      let rf2 : Raft Command Blob = record rf1 {
        clock = rf1.clock + 1;
        broadcasts = rf1.broadcasts + 1;
      } in
      ground (
        arith,
        step_down-IsCalm args.term rf,
        accept-IsCalm args (args.prev_log_index - rf2.last_included_index) (last_log_index rf2) rf2,
      )

  snapshots-IsCalm :
      (args : InstallSnapshotArgs Blob) (term index : ℕ) (blob : Blob) (rf : Raft Command Blob)
      → IsCalm rf (install_snapshot args rf).0
        × IsCalm rf (cond_install_snapshot term index blob rf).0
        × IsCalm rf (snapshot index blob rf)
  unfolding install_snapshot cond_install_snapshot snapshot save_state_and_snapshot follower_state
      persist
  snapshots-IsCalm args term index blob rf = (ground arith, ground arith, ground arith)

  receive_append-IsCalm :
      (peer : ℕ) (args : AppendEntriesArgs Command) (ok : Bool) (reply : AppendEntriesReply)
      (rf : Raft Command Blob)
      → IsCalm rf (receive_append peer args ok reply rf)
  unfolding receive_append handle_log_inconsistency advance_commit follower_state persist
  receive_append-IsCalm peer args ok reply rf = ground arith

  receive_install-IsCalm :
      (peer : ℕ) (args : InstallSnapshotArgs Blob) (ok : Bool) (term : ℕ) (rf : Raft Command Blob)
      → IsCalm rf (receive_install peer args ok term rf)
  unfolding receive_install advance_commit follower_state persist
  receive_install-IsCalm peer args ok term rf = ground arith

  pub step-IsCalm :
      (e : Event Command Blob) (rf : Raft Command Blob)
      → is_internal e ≡ true
      → IsCalm rf (step e rf)
  unfolding step start prepare persist batch_sent receive_vote
  step-IsCalm (vote_requested args) rf h = ground arith
  step-IsCalm (append_requested args) rf h = append_entries-IsCalm args rf
  step-IsCalm (install_requested args) rf h = (snapshots-IsCalm args 0 0 args.snapshot rf).0
  step-IsCalm (snapshot_offered term index blob) rf h =
      (snapshots-IsCalm (no_args blob) term index blob rf).1
  step-IsCalm (snapshot_taken index blob) rf h = (snapshots-IsCalm (no_args blob) 0 index blob rf).2
  step-IsCalm (started killed command) rf h = ground arith
  step-IsCalm (ticked expired) rf h = ground arith
  step-IsCalm (vote_received args true reply) rf h = ground arith
  step-IsCalm (vote_received args false reply) rf h = ground arith
  step-IsCalm (prepared peer) rf h = ground arith
  step-IsCalm (append_answered peer args ok reply) rf h =
      receive_append-IsCalm peer args ok reply rf
  step-IsCalm (install_answered peer args ok term) rf h =
      receive_install-IsCalm peer args ok term rf
  step-IsCalm (applied upto) rf h = ground arith

  -- Made again after a crash, from what it saved last.
  pub crash-IsCalm :
      (me peers : ℕ) (nil : Blob) (rf : Raft Command Blob)
      → rf.me ≡ me
      → rf.peers ≡ peers
      → IsDurable rf
      → IsCalm rf (make me peers nil rf.stored rf.stored_snapshot)
  unfolding make restore fresh
  crash-IsCalm me peers nil rf is_me are_peers durable =
      ground (arith, ap (λ (p : Persisted Command). p.current_term) durable)
