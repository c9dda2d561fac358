-- ===== src/Raft/Peer/Durable.antt =====
-- src/raft/raft.go: a peer's state against what it has saved, for every handler.
use sharded_kv.Prelude.{
  ℕ, ◌+◌, ◌-◌, ◌≡◌, refl, inl, inr, Bool, true, false, List, [], ◌∷◌, ◌++◌, leb, length, arith,
  Bool-cases,
}
use sharded_kv.Raft.State.{
  Raft, LogEntry, persisted, persist, follower_state, candidate_state, leader_state,
  save_state_and_snapshot, last_log_index,
}
use sharded_kv.Raft.Vote.{
  RequestVoteArgs, RequestVoteReply, request_vote, catch_up, tick, receive_vote, count_vote,
}
use sharded_kv.Raft.Append.{
  AppendEntriesArgs, AppendEntriesReply, cut_conflict, extend, append_new, merge, step_down, accept,
  append_entries,
}
use sharded_kv.Raft.Snapshots.{
  InstallSnapshotArgs, install_snapshot, cond_install_snapshot, snapshot,
}
use sharded_kv.Raft.Leader.{
  prepare, receive_append, receive_install, handle_log_inconsistency, advance_commit, start,
}
use sharded_kv.Raft.Peer.{
  Event, step, vote_requested, append_requested, install_requested, snapshot_offered,
  snapshot_taken, started, ticked, vote_received, prepared, append_answered, install_answered,
  applied,
}

module _ {Command : Type 0} where
  extend_unchanged :
      (at : ℕ) (es log : List (LogEntry Command)) (changed : Bool)
      → (extend at es log changed).1 ≡ false
      → ((extend at es log changed).0 ≡ log) × (changed ≡ false)
  unfolding extend
  extend_unchanged at [] log changed h = (refl, h)
  extend_unchanged at (e ∷ es) log changed h = elim (Bool-cases (leb (length log) at)) [
    | inl grows ↦ ground (arith, extend_unchanged (at + 1) es (log ++ e ∷ []) true)
    | inr stays ↦ ground (arith, extend_unchanged (at + 1) es log changed)
  ]

  pub merge_unchanged :
      (real : ℕ) (entries log : List (LogEntry Command))
      → (merge real entries log).1 ≡ false
      → (merge real entries log).0 ≡ log
  unfolding merge append_new cut_conflict
  merge_unchanged real entries log h =
      let (log1, cut) = cut_conflict entries log (real + 1) in
      ground (arith, extend_unchanged (real + 1) entries log1 cut)

module _ {Command Blob : Type 0} where
  -- The persister's state is the state that persist() would save.
  abbrev pub IsDurable : Raft Command Blob → Type 0
  IsDurable rf = rf.stored ≡ persisted rf

  pub request_vote-IsDurable :
      (args : RequestVoteArgs) (rf : Raft Command Blob)
      → IsDurable rf
      → IsDurable (request_vote args rf).0
  unfolding request_vote catch_up persist follower_state
  request_vote-IsDurable args rf h = ground arith

  accept-IsDurable :
      (args : AppendEntriesArgs Command) (real last : ℕ) (rf : Raft Command Blob)
      → IsDurable rf
      → IsDurable (accept args real last rf)
  unfolding accept persist
  accept-IsDurable args real last rf h = ground (arith, merge_unchanged real args.entries rf.log)

  step_down-IsDurable :
      (term : ℕ) (rf : Raft Command Blob) → IsDurable rf → IsDurable (step_down term rf)
  unfolding step_down follower_state persist
  step_down-IsDurable term rf h = ground arith

  append_entries-IsDurable :
      (args : AppendEntriesArgs Command) (rf : Raft Command Blob)
      → IsDurable rf
      → IsDurable (append_entries args rf).0
  unfolding append_entries
  append_entries-IsDurable args rf h =
      let rf1 = step_down args.term rf in
      let rf2 : Raft Command Blob = record rf1 {
        clock = rf1.clock + 1;
        broadcasts = rf1.broadcasts + 1;
      } in
      ground (
        arith,
        step_down-IsDurable args.term rf h,
        accept-IsDurable args (args.prev_log_index - rf2.last_included_index) (last_log_index rf2)
            rf2,
      )

  install_snapshot-IsDurable :
      (args : InstallSnapshotArgs Blob) (rf : Raft Command Blob)
      → IsDurable rf
      → IsDurable (install_snapshot args rf).0
  unfolding install_snapshot follower_state persist
  install_snapshot-IsDurable args rf h = ground arith

  cond_install_snapshot-IsDurable :
      (term index : ℕ) (blob : Blob) (rf : Raft Command Blob)
      → IsDurable rf
      → IsDurable (cond_install_snapshot term index blob rf).0
  unfolding cond_install_snapshot save_state_and_snapshot
  cond_install_snapshot-IsDurable term index blob rf h = ground arith

  snapshot-IsDurable :
      (index : ℕ) (blob : Blob) (rf : Raft Command Blob)
      → IsDurable rf
      → IsDurable (snapshot index blob rf)
  unfolding snapshot save_state_and_snapshot
  snapshot-IsDurable index blob rf h = ground arith

  receive_vote-IsDurable :
      (args : RequestVoteArgs) (ok : Bool) (reply : RequestVoteReply) (rf : Raft Command Blob)
      → IsDurable rf
      → IsDurable (receive_vote args ok reply rf)
  unfolding receive_vote count_vote leader_state follower_state persist
  receive_vote-IsDurable args ok reply rf h = ground arith

  prepare-IsDurable :
      (peer : ℕ) (rf : Raft Command Blob) → IsDurable rf → IsDurable (prepare peer rf).0
  unfolding prepare
  prepare-IsDurable peer rf h = ground arith

  receive_append-IsDurable :
      (peer : ℕ) (args : AppendEntriesArgs Command) (ok : Bool) (reply : AppendEntriesReply)
      (rf : Raft Command Blob)
      → IsDurable rf
      → IsDurable (receive_append peer args ok reply rf)
  unfolding receive_append handle_log_inconsistency advance_commit follower_state persist
  receive_append-IsDurable peer args ok reply rf h = ground arith

  receive_install-IsDurable :
      (peer : ℕ) (args : InstallSnapshotArgs Blob) (ok : Bool) (term : ℕ) (rf : Raft Command Blob)
      → IsDurable rf
      → IsDurable (receive_install peer args ok term rf)
  unfolding receive_install advance_commit follower_state persist
  receive_install-IsDurable peer args ok term rf h = ground arith

  pub step-IsDurable :
      (e : Event Command Blob) (rf : Raft Command Blob) → IsDurable rf → IsDurable (step e rf)
  unfolding step start tick candidate_state persist
  step-IsDurable (vote_requested args) rf h = request_vote-IsDurable args rf h
  step-IsDurable (append_requested args) rf h = append_entries-IsDurable args rf h
  step-IsDurable (install_requested args) rf h = install_snapshot-IsDurable args rf h
  step-IsDurable (snapshot_offered term index blob) rf h =
      cond_install_snapshot-IsDurable term index blob rf h
  step-IsDurable (snapshot_taken index blob) rf h = snapshot-IsDurable index blob rf h
  step-IsDurable (started killed command) rf h = ground arith
  step-IsDurable (ticked expired) rf h = ground arith
  step-IsDurable (vote_received args ok reply) rf h = receive_vote-IsDurable args ok reply rf h
  step-IsDurable (prepared peer) rf h = prepare-IsDurable peer rf h
  step-IsDurable (append_answered peer args ok reply) rf h =
      receive_append-IsDurable peer args ok reply rf h
  step-IsDurable (install_answered peer args ok term) rf h =
      receive_install-IsDurable peer args ok term rf h
  step-IsDurable (applied upto) rf h = ground arith
