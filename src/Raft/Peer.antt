-- ===== src/Raft/Peer.antt =====
-- src/raft/raft.go: `Make`, `applyChecker`, and one peer as a state machine: the events that its
-- RPC handlers and goroutines react to.
pub mod Crashes
pub mod Durable
pub mod Held
pub mod OwnVote
pub mod Whole
use sharded_kv.Prelude.{
  ◌++◌, ℕ, zero, suc, ◌+◌, ◌-◌, Bool, true, false, Option, none, some, List, [], ◌∷◌, map, leb, ltb,
  if◌then◌else◌, length, replicate, take, drop, ◌||◌,
}
use sharded_kv.Raft.Messages.{ApplyMsg}
use sharded_kv.Raft.State.{Raft, Role, follower, LogEntry, Persisted, head_entry, restore}
use sharded_kv.Raft.Vote.{RequestVoteArgs, RequestVoteReply, request_vote, tick, receive_vote}
use sharded_kv.Raft.Append.{AppendEntriesArgs, AppendEntriesReply, append_entries}
use sharded_kv.Raft.Snapshots.{
  InstallSnapshotArgs, install_snapshot, cond_install_snapshot, snapshot,
}
use sharded_kv.Raft.Leader.{prepare, receive_append, receive_install, start}

-- What applyChecker has taken out of the log, to be sent before lastApplied moves.
pub record Batch (Command Blob : Type 0) : Type 0 where
  pub upto : ℕ  -- commitIndex as it was
  pub messages : List (ApplyMsg Command Blob)

-- The events of one peer; for an event that is a handler's call, with its arguments.
pub data Event (Command Blob : Type 0) : Type 0 where
  vote_requested : RequestVoteArgs → Event Command Blob
  append_requested : AppendEntriesArgs Command → Event Command Blob
  install_requested : InstallSnapshotArgs Blob → Event Command Blob
  snapshot_offered : ℕ → ℕ → Blob → Event Command Blob  -- CondInstallSnapshot
  snapshot_taken : ℕ → Blob → Event Command Blob  -- Snapshot
  started : Bool → Command → Event Command Blob  -- Start
  ticked : Bool → Event Command Blob  -- the ticker
  vote_received : RequestVoteArgs → Bool → RequestVoteReply → Event Command Blob
  prepared : ℕ → Event Command Blob  -- leaderAppendEntries, for a peer
  append_answered : ℕ → AppendEntriesArgs Command → Bool → AppendEntriesReply → Event Command Blob
  install_answered : ℕ → InstallSnapshotArgs Blob → Bool → ℕ → Event Command Blob
  applied : ℕ → Event Command Blob  -- applyChecker has sent a batch

-- Arguments for the place of any.
abbrev pub no_args : {Blob : Type 0} → Blob → InstallSnapshotArgs Blob
no_args blob = record {
  term = 0;
  leader_id = 0;
  last_included_index = 0;
  last_included_term = 0;
  snapshot = blob;
}

module _ {Command Blob : Type 0} where
  -- Make, without a persisted state: `nil` is the empty blob.
  unfoldable pub fresh : ℕ → ℕ → Blob → Raft Command Blob
  fresh me peers nil = record {
    me = me;
    peers = peers;
    role = follower;
    log = head_entry ∷ [];
    current_term = 0;
    voted_for = none;
    commit_index = 0;
    last_applied = 0;
    get_votes_num = 0;
    next_index = replicate peers 1;
    match_index = replicate peers (some 0);
    last_included_index = 0;
    last_included_term = 0;
    snapshot = nil;
    clock = 0;
    broadcasts = 0;
    stored = record {
      current_term = 0;
      voted_for = none;
      log = head_entry ∷ [];
      last_included_index = 0;
      last_included_term = 0;
    };
    stored_snapshot = nil;
  }

  -- Make, after a crash: the persister holds the state and the snapshot saved last.
  unfoldable pub make : ℕ → ℕ → Blob → Persisted Command → Blob → Raft Command Blob
  unfolding fresh restore
  make me peers nil stored stored_snapshot =
      restore stored
        (record (fresh me peers nil) { stored = stored; stored_snapshot = stored_snapshot })

  -- The message for an entry that is applied.
  unfoldable pub apply_msg : Blob → LogEntry Command → ApplyMsg Command Blob
  apply_msg nil entry = record {
    command_valid = true;
    command = entry.command;
    command_index = entry.index;
    snapshot_valid = false;
    snapshot = nil;
    snapshot_term = 0;
    snapshot_index = 0;
  }

  -- The part of applyChecker before it sends: `none` while there is nothing to apply, or at the
  -- panic of a slice out of range. Go checks the slice against the capacity of the log, which goes
  -- beyond its length by the cells `spare` of its array.
  unfoldable pub take_batch :
      Blob → List (LogEntry Command) → Raft Command Blob → Option (Batch Command Blob)
  unfolding apply_msg
  take_batch nil spare rf =
      if leb rf.commit_index rf.last_applied
        || ltb (rf.last_applied + 1) rf.last_included_index
        || ltb (rf.last_included_index + length (rf.log ++ spare)) (rf.commit_index + 1)
      then none
      else some (record {
        upto = rf.commit_index;
        messages = map (apply_msg nil) (
            take (rf.commit_index - rf.last_applied)
              (drop (rf.last_applied + 1 - rf.last_included_index) (rf.log ++ spare)));
      })

  -- The part after it has sent.
  unfoldable pub batch_sent : ℕ → Raft Command Blob → Raft Command Blob
  batch_sent upto rf = if ltb rf.last_applied upto then record rf { last_applied = upto } else rf

  -- The state after an event.
  unfoldable pub step : Event Command Blob → Raft Command Blob → Raft Command Blob
  unfolding batch_sent
  step (vote_requested args) rf = (request_vote args rf).0
  step (append_requested args) rf = (append_entries args rf).0
  step (install_requested args) rf = (install_snapshot args rf).0
  step (snapshot_offered term index blob) rf = (cond_install_snapshot term index blob rf).0
  step (snapshot_taken index blob) rf = snapshot index blob rf
  step (started killed command) rf = (start killed command rf).0
  step (ticked expired) rf = (tick expired rf).0
  step (vote_received args ok reply) rf = receive_vote args ok reply rf
  step (prepared peer) rf = (prepare peer rf).0
  step (append_answered peer args ok reply) rf = receive_append peer args ok reply rf
  step (install_answered peer args ok term) rf = receive_install peer args ok term rf
  step (applied upto) rf = batch_sent upto rf
