-- ===== src/Raft/Snapshots.antt =====
-- src/raft/raft.go: `InstallSnapshot`, `CondInstallSnapshot` and `Snapshot`.
use sharded_kv.Prelude.{
  ℕ, zero, suc, ◌+◌, ◌==◌, Bool, true, false, ◌&&◌, Option, none, some, ◌∷◌, leb, ltb,
  if◌then◌else◌, length, drop,
}
use sharded_kv.Raft.Messages.{ApplyMsg}
use sharded_kv.Raft.State.{Raft, head_entry, get_log_at, follower_state, save_state_and_snapshot}

pub record InstallSnapshotArgs (Blob : Type 0) : Type 0 where
  pub term : ℕ
  pub leader_id : ℕ
  pub last_included_index : ℕ
  pub last_included_term : ℕ
  pub snapshot : Blob

abbrev pub max : ℕ → ℕ → ℕ
max a b = if ltb a b then b else a

module _ {Command Blob : Type 0} where
  -- The handler, with the reply's term and the message that goes to the service.
  unfoldable pub install_snapshot :
      InstallSnapshotArgs Blob
      → Raft Command Blob
      → Raft Command Blob × ℕ × Option (ApplyMsg Command Blob)
  unfolding follower_state
  install_snapshot args rf =
      if ltb args.term rf.current_term
      then (rf, rf.current_term, none)
      else let rf1 = if ltb rf.current_term args.term then follower_state args.term rf else rf in
        let rf2 = record rf1 { clock = rf1.clock + 1 } in
        if leb args.last_included_index rf2.commit_index then (rf2, rf2.current_term, none) else (
          record rf2 { snapshot = args.snapshot },
          rf2.current_term,
          some (record {
            command_valid = false;
            command = none;
            command_index = 0;
            snapshot_valid = true;
            snapshot = args.snapshot;
            snapshot_term = args.last_included_term;
            snapshot_index = args.last_included_index;
          }),
        )

  -- The loop of CondInstallSnapshot, over the real indices below `n`: one past the entry with this
  -- term and index, or the length of the log.
  unfoldable pub trim_index : ℕ → ℕ → ℕ → Raft Command Blob → ℕ
  trim_index term index zero rf = length rf.log
  trim_index term index (suc i) rf =
      let rest = trim_index term index i rf in
      elim (get_log_at i rf) [
        | none ↦ rest
        | some (entry_index, entry_term) ↦
            if entry_term == term && entry_index == index then i + 1 else rest
      ]

  unfoldable pub cond_install_snapshot : ℕ → ℕ → Blob → Raft Command Blob → Raft Command Blob × Bool
  unfolding trim_index save_state_and_snapshot
  cond_install_snapshot term index snapshot rf =
      if leb index rf.commit_index
      then (rf, false)
      else let rf1 = record rf {
        log = head_entry ∷ drop (trim_index term index (length rf.log) rf) rf.log;
        last_included_index = index;
        last_included_term = term;
        commit_index = max rf.commit_index index;
        last_applied = max rf.last_applied index;
      } in
        (save_state_and_snapshot snapshot rf1, true)

  -- The loop of Snapshot from real index `i`, over `n` entries: entryIndex, entryTerm and realIndex.
  unfoldable pub find_entry : ℕ → ℕ → ℕ → ℕ → ℕ → Raft Command Blob → ℕ × ℕ × ℕ
  find_entry index i zero entry_index entry_term rf = (entry_index, entry_term, 0)
  find_entry index i (suc n) entry_index entry_term rf = elim (get_log_at i rf) [
    | none ↦ (entry_index, entry_term, 0)
    | some (e, t) ↦ elim (e == index) [
      | true ↦ (e, t, i)
      | false ↦ find_entry index (i + 1) n e t rf
    ]
  ]

  unfoldable pub snapshot : ℕ → Blob → Raft Command Blob → Raft Command Blob
  unfolding find_entry save_state_and_snapshot
  snapshot index blob rf =
      if leb index rf.last_included_index
      then rf
      else let (entry_index, entry_term, real_index) = find_entry index 0 (length rf.log) 0 0 rf in
        save_state_and_snapshot blob (record rf {
          last_included_index = entry_index;
          last_included_term = entry_term;
          last_applied = max rf.last_applied index;
          commit_index = max rf.commit_index index;
          log = head_entry ∷ drop (real_index + 1) rf.log;
        })
