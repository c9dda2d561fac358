-- ===== src/Raft/Peer/Whole.antt =====
-- src/raft/raft.go: the log and the indices of a peer, for every handler.
use sharded_kv.Prelude.{
  ◌||◌, not, leb, ◌==◌, ◌∙◌, inl, inr, List, [], ◌∷◌, get_elem?, get_elem?-in, Bool-cases,
  Option-cases, length-append, zero, suc, ◌<◌, ◌≤◌, length, ℕ, ◌+◌, ◌-◌, ◌≡◌, Bool, some, arith,
}
use sharded_kv.Raft.State.{
  LogEntry, get_log_at, is_leader, Raft, persist, follower_state, candidate_state, leader_state,
  save_state_and_snapshot, last_log_index,
}
use sharded_kv.Raft.Vote.{
  RequestVoteArgs, RequestVoteReply, request_vote, catch_up, tick, receive_vote, count_vote,
}
use sharded_kv.Raft.Append.Merge.{merge_keeps}
use sharded_kv.Raft.Append.Success.{last_log_index_lem}
use sharded_kv.Raft.Append.{
  merge, heard, AppendEntriesArgs, AppendEntriesReply, step_down, accept, append_entries,
}
use sharded_kv.Raft.Snapshots.{
  find_entry, InstallSnapshotArgs, install_snapshot, cond_install_snapshot, snapshot,
}
use sharded_kv.Raft.Leader.{
  prepare, receive_append, receive_install, handle_log_inconsistency, advance_commit, start,
}
use sharded_kv.Raft.Peer.{
  Event, step, no_args, vote_requested, append_requested, install_requested, snapshot_offered,
  snapshot_taken, started, ticked, vote_received, prepared, append_answered, install_answered,
  applied,
}

module _ {Command : Type 0} where
  some_inside :
      (log : List (LogEntry Command)) (e : LogEntry Command)
      → get_elem? log 0 ≡ some e
      → 0 < length log
  some_inside [] e h = absurd (ground (arith, h))
  some_inside (x ∷ log) e h = omega arith

  merge_nonempty :
      (real : ℕ) (es log : List (LogEntry Command))
      → real < length log
      → 0 < length (merge real es log).0
  merge_nonempty real es log h =
      let (e, there) = get_elem?-in log 0 (omega (arith, h)) in
      some_inside (merge real es log).0 e (merge_keeps real es log 0 h (omega arith) ∙ there)

module _ {Command Blob : Type 0} where
  abbrev pub IsWhole : Raft Command Blob → Type 0
  IsWhole rf = (0 < length rf.log) × (rf.last_included_index ≤ rf.commit_index)

  log_at_index :
      (i : ℕ) (rf : Raft Command Blob) (index term : ℕ)
      → get_log_at i rf ≡ some (index, term)
      → index ≡ rf.last_included_index + i
  unfolding get_log_at
  log_at_index i rf index term h = ground (arith, h)

  log_at_inside :
      (i : ℕ) (rf : Raft Command Blob) (x : ℕ × ℕ) → get_log_at i rf ≡ some x → i < length rf.log
  unfolding get_log_at
  log_at_inside i rf x h = ground (arith, h)

  find_entry_low :
      (index i n e t : ℕ) (rf : Raft Command Blob)
      → rf.last_included_index + i ≤ index
      → e ≤ index
      → (find_entry index i n e t rf).0 ≤ index
  unfolding find_entry
  find_entry_low index i zero e t rf low small = small
  find_entry_low index i (suc n) e t rf low small = elim (Option-cases (get_log_at i rf)) [
    | inl gone ↦ rw (gone, find_entry) small
    | inr ((entry_index, entry_term), there) ↦
        let at : entry_index ≡ rf.last_included_index + i =
          log_at_index i rf entry_index entry_term there in
        elim (Bool-cases (entry_index == index)) [
          | inl found ↦ rw (there, found, find_entry) (omega (arith, at, low))
          | inr further ↦
              rw (there, further, find_entry)
                (find_entry_low index (i + 1) n entry_index entry_term rf
                  (ground (arith, at, low, further)) (omega (arith, at, low)))
        ]
  ]

  request_vote-IsWhole :
      (args : RequestVoteArgs) (rf : Raft Command Blob)
      → IsWhole rf
      → IsWhole (request_vote args rf).0
  unfolding request_vote catch_up persist follower_state
  request_vote-IsWhole args rf h = ground arith

  accept-IsWhole :
      (args : AppendEntriesArgs Command) (real last : ℕ) (rf : Raft Command Blob)
      → real < length rf.log
      → rf.last_included_index ≤ last
      → IsWhole rf
      → IsWhole (accept args real last rf)
  unfolding accept persist
  accept-IsWhole args real last rf inside up h =
      ground (arith, merge_nonempty real args.entries rf.log)

  step_down-IsWhole : (term : ℕ) (rf : Raft Command Blob) → IsWhole rf → IsWhole (step_down term rf)
  unfolding step_down follower_state persist
  step_down-IsWhole term rf h = ground arith

  append_entries-IsWhole :
      (args : AppendEntriesArgs Command) (rf : Raft Command Blob)
      → IsWhole rf
      → IsWhole (append_entries args rf).0
  unfolding append_entries
  append_entries-IsWhole args rf h =
      let rf2 = heard (step_down args.term rf) in
      let real = args.prev_log_index - rf2.last_included_index in
      let whole : IsWhole rf2 = step_down-IsWhole args.term rf h in
      ground (
        arith,
        whole,
        step_down-IsWhole args.term rf h,
        accept-IsWhole args real (last_log_index rf2) rf2,
        last_log_index_lem rf2 whole.0,
        log_at_inside real rf2,
      )

  snapshot-IsWhole :
      (index : ℕ) (blob : Blob) (rf : Raft Command Blob)
      → IsWhole rf
      → IsWhole (snapshot index blob rf)
  unfolding snapshot save_state_and_snapshot
  snapshot-IsWhole index blob rf h = elim (Bool-cases (leb index rf.last_included_index)) [
    | inl old ↦ rw old h
    | inr new ↦
        rw new (omega arith, ground (arith, h, new, find_entry_low index 0 (length rf.log) 0 0 rf))
  ]

  snapshots-IsWhole :
      (args : InstallSnapshotArgs Blob) (term index : ℕ) (blob : Blob) (rf : Raft Command Blob)
      → IsWhole rf
      → IsWhole (install_snapshot args rf).0 × IsWhole (cond_install_snapshot term index blob rf).0
  unfolding install_snapshot cond_install_snapshot save_state_and_snapshot follower_state persist
  snapshots-IsWhole args term index blob rf h = (ground arith, ground arith)

  receive_vote-IsWhole :
      (args : RequestVoteArgs) (ok : Bool) (reply : RequestVoteReply) (rf : Raft Command Blob)
      → IsWhole rf
      → IsWhole (receive_vote args ok reply rf)
  unfolding receive_vote count_vote leader_state follower_state persist
  receive_vote-IsWhole args ok reply rf h = ground arith

  receive_append-IsWhole :
      (peer : ℕ) (args : AppendEntriesArgs Command) (ok : Bool) (reply : AppendEntriesReply)
      (rf : Raft Command Blob)
      → IsWhole rf
      → IsWhole (receive_append peer args ok reply rf)
  unfolding receive_append handle_log_inconsistency advance_commit follower_state persist
  receive_append-IsWhole peer args ok reply rf h = ground arith

  receive_install-IsWhole :
      (peer : ℕ) (args : InstallSnapshotArgs Blob) (ok : Bool) (term : ℕ) (rf : Raft Command Blob)
      → IsWhole rf
      → IsWhole (receive_install peer args ok term rf)
  unfolding receive_install advance_commit follower_state persist
  receive_install-IsWhole peer args ok term rf h = ground arith

  start-IsWhole :
      (killed : Bool) (command : Command) (rf : Raft Command Blob)
      → IsWhole rf
      → IsWhole (start killed command rf).0
  unfolding start persist
  start-IsWhole killed command rf h = elim (Bool-cases (killed || not (is_leader rf.role))) [
    | inl refused ↦ rw refused h
    | inr taken ↦ rw taken (omega (arith, h, length-append rf.log), h.1)
  ]

  pub step-IsWhole :
      (e : Event Command Blob) (rf : Raft Command Blob) → IsWhole rf → IsWhole (step e rf)
  unfolding step start tick candidate_state persist prepare
  step-IsWhole (vote_requested args) rf h = request_vote-IsWhole args rf h
  step-IsWhole (append_requested args) rf h = append_entries-IsWhole args rf h
  step-IsWhole (install_requested args) rf h = (snapshots-IsWhole args 0 0 args.snapshot rf h).0
  step-IsWhole (snapshot_offered term index blob) rf h =
      (snapshots-IsWhole (no_args blob) term index blob rf h).1
  step-IsWhole (snapshot_taken index blob) rf h = snapshot-IsWhole index blob rf h
  step-IsWhole (started killed command) rf h = start-IsWhole killed command rf h
  step-IsWhole (ticked expired) rf h = ground arith
  step-IsWhole (vote_received args ok reply) rf h = receive_vote-IsWhole args ok reply rf h
  step-IsWhole (prepared peer) rf h = ground arith
  step-IsWhole (append_answered peer args ok reply) rf h =
      receive_append-IsWhole peer args ok reply rf h
  step-IsWhole (install_answered peer args ok term) rf h =
      receive_install-IsWhole peer args ok term rf h
  step-IsWhole (applied upto) rf h = ground arith
