-- ===== src/Raft/Leader.antt =====
-- src/raft/raft.go: what a leader does: `Start`, `countReplica`, `leaderAppendEntries` before and
-- after its calls, and `handleLogInconsistency`.
pub mod Commit
use sharded_kv.Prelude.{
  ℕ, zero, suc, ◌+◌, ◌-◌, ◌/◌, ◌==◌, Bool, true, false, ◌&&◌, ◌||◌, not, Option, none, some, List,
  [], ◌∷◌, ◌++◌, leb, ltb, if◌then◌else◌, length, get_or, set, drop,
}
use sharded_kv.Raft.State.{
  Raft, LogEntry, is_leader, get_log_at, last_log_index, last_log_term, follower_state, persist,
}
use sharded_kv.Raft.Append.{AppendEntriesArgs, AppendEntriesReply}
use sharded_kv.Raft.Snapshots.{InstallSnapshotArgs, max}

-- rf.matchIndex[j] >= n, and rf.matchIndex[j] <= n; `none` is -1.
abbrev pub has_replica : ℕ → Option ℕ → Bool
has_replica n none = false
has_replica n (some i) = leb n i

abbrev pub is_at_most : ℕ → Option ℕ → Bool
is_at_most n none = true
is_at_most n (some i) = leb i n

-- The peers other than `me` that have replicated up to `n`; `j` is the index of the first.
unfoldable pub count_others : ℕ → ℕ → ℕ → List (Option ℕ) → ℕ
count_others me n j [] = 0
count_others me n j (m ∷ rest) =
    (if not (j == me) && has_replica n m then 1 else 0) + count_others me n (j + 1) rest

-- What goes out to one peer.
pub data Outgoing (Command Blob : Type 0) : Type 0 where
  nothing : Outgoing Command Blob
  append : AppendEntriesArgs Command → Outgoing Command Blob
  install : InstallSnapshotArgs Blob → Outgoing Command Blob

module _ {Command Blob : Type 0} where
  -- replica > len(rf.peers)/2, for the entry of logical index `n`.
  unfoldable pub has_majority : ℕ → Raft Command Blob → Bool
  unfolding count_others
  has_majority n rf = ltb (rf.peers / 2) (1 + count_others rf.me n 0 rf.match_index)

  -- The first loop of countReplica, from real index `i` over `n` entries.
  unfoldable pub first_of_term : ℕ → ℕ → Raft Command Blob → ℕ
  first_of_term i zero rf = length rf.log - 1
  first_of_term i (suc n) rf =
      let rest = first_of_term (i + 1) n rf in
      elim (get_log_at i rf) [
        | none ↦ rest
        | some (index, term) ↦
            if term == rf.current_term then index - rf.last_included_index else rest
      ]

  -- The second loop, down from real index `i`.
  unfoldable pub search_down : ℕ → ℕ → Raft Command Blob → ℕ
  unfolding has_majority
  search_down start zero rf =
      if ltb rf.commit_index rf.last_included_index && leb start 0
      then (if has_majority rf.last_included_index rf
          then rf.last_included_index
          else rf.commit_index)
      else rf.commit_index
  search_down start (suc i) rf =
      let rest = search_down start i rf in
      let n = suc i + rf.last_included_index in
      if ltb rf.commit_index n && leb start (suc i)
      then (if has_majority n rf then n else rest)
      else rf.commit_index

  unfoldable pub count_replica : Raft Command Blob → ℕ
  unfolding first_of_term search_down
  count_replica rf =
      if not (last_log_term rf == rf.current_term)
      then max rf.commit_index rf.last_included_index
      else max (search_down (first_of_term 0 (length rf.log) rf) (length rf.log - 1) rf)
          rf.last_included_index

  -- `rf.commitIndex = rf.countReplica()`, and the wake-up of the apply checker.
  unfoldable pub advance_commit : Raft Command Blob → Raft Command Blob
  unfolding count_replica
  advance_commit rf = record rf { commit_index = count_replica rf; broadcasts = rf.broadcasts + 1 }

  unfoldable pub append_args : ℕ → Raft Command Blob → AppendEntriesArgs Command
  append_args next rf = record {
    term = rf.current_term;
    leader_id = rf.me;
    prev_log_index = next - 1;
    prev_log_term = elim (get_log_at (next - 1 - rf.last_included_index) rf) [
      | none ↦ none
      | some (index, term) ↦ some term
    ];
    entries =
        if leb next (last_log_index rf) then drop (next - rf.last_included_index) rf.log else [];
    leader_commit = rf.commit_index;
  }

  -- The goroutine of leaderAppendEntries for `peer`, up to its call. A peer whose next entry is in
  -- the snapshot (PrevLogIndex < lastIncludedIndex) gets the snapshot.
  unfoldable pub prepare : ℕ → Raft Command Blob → Raft Command Blob × Outgoing Command Blob
  unfolding append_args
  prepare peer rf =
      let next = get_or rf.next_index peer 0 in
      if ltb next (rf.last_included_index + 1)
      then (
        rf,
        if is_leader rf.role
            then install (record {
              term = rf.current_term;
              leader_id = rf.me;
              last_included_index = rf.last_included_index;
              last_included_term = rf.last_included_term;
              snapshot = rf.stored_snapshot;
            })
            else nothing,
      )
      else (
        record rf {
          next_index = set rf.next_index rf.me (last_log_index rf + 1);
          match_index = set rf.match_index rf.me (some (last_log_index rf));
        },
        if is_leader rf.role then append (append_args next rf) else nothing,
      )

  -- The loop of handleLogInconsistency, over the real indices below `n` and above 0.
  unfoldable pub after_term : ℕ → ℕ → ℕ → Raft Command Blob → ℕ
  after_term term x_index zero rf = x_index
  after_term term x_index (suc zero) rf = x_index
  after_term term x_index (suc (suc i)) rf =
      let rest = after_term term x_index (suc i) rf in
      elim (get_log_at (suc i) rf) [
        | none ↦ rest
        | some (entry_index, entry_term) ↦ if entry_term == term then entry_index + 1 else rest
      ]

  unfoldable pub handle_log_inconsistency :
      ℕ → AppendEntriesReply → Raft Command Blob → Raft Command Blob
  unfolding after_term
  handle_log_inconsistency peer reply rf = elim reply.x_term [
    | none ↦ record rf {
      next_index = set rf.next_index peer (elim (get_or rf.match_index peer none) [
        | none ↦ reply.x_index
        | some m ↦ if leb reply.x_index m then m + 1 else reply.x_index
      ]);
    }
    | some term ↦ record rf {
      next_index = set rf.next_index peer (after_term term reply.x_index (length rf.log) rf);
    }
  ]

  -- The rest of that goroutine, when AppendEntries has been answered.
  unfoldable pub receive_append :
      ℕ
      → AppendEntriesArgs Command
      → Bool
      → AppendEntriesReply
      → Raft Command Blob
      → Raft Command Blob
  unfolding follower_state handle_log_inconsistency advance_commit
  receive_append peer args ok reply rf =
      if not ok
      then rf
      else if ltb rf.current_term reply.term
      then follower_state reply.term rf
      else if not (is_leader rf.role) || not (rf.current_term == args.term)
      then rf
      else if reply.success
      then advance_commit (record rf {
        match_index = set rf.match_index peer (some (args.prev_log_index + length args.entries));
        next_index = set rf.next_index peer (args.prev_log_index + length args.entries + 1);
      })
      else if reply.log_inconsistency
      then advance_commit (handle_log_inconsistency peer reply rf)
      else advance_commit rf

  -- And when InstallSnapshot has been answered.
  unfoldable pub receive_install :
      ℕ → InstallSnapshotArgs Blob → Bool → ℕ → Raft Command Blob → Raft Command Blob
  unfolding follower_state advance_commit
  receive_install peer args ok reply_term rf =
      if ltb rf.current_term reply_term
      then follower_state reply_term rf
      else if not (is_leader rf.role) || not ok
      then rf
      else if reply_term == rf.current_term
          && is_at_most args.last_included_index (get_or rf.match_index peer none)
      then advance_commit (record rf {
        match_index = set rf.match_index peer (some args.last_included_index);
        next_index = set rf.next_index peer (args.last_included_index + 1);
      })
      else advance_commit rf

  -- Start: the new state, and (index, term), or `none` for a peer that is dead or no leader. The
  -- calls of leaderAppendEntries that follow are `prepare`, for each peer.
  unfoldable pub start : Bool → Command → Raft Command Blob → Raft Command Blob × Option (ℕ × ℕ)
  unfolding persist
  start killed command rf = if killed || not (is_leader rf.role) then (rf, none) else (
    persist (record rf {
      log =
          rf.log
          ++ record {
            term = rf.current_term;
            command = some command;
            index = rf.last_included_index + length rf.log;
          }
            ∷ [];
    }),
    some (last_log_index rf + 1, rf.current_term),
  )
