-- ===== src/Raft/State.antt =====
-- src/raft/raft.go: a peer's state, its log, and the changes of role.
-- -1 is `none` in `voted_for` and `match_index`. `clock` counts the resets of lastTimeHeared, and
-- `broadcasts` the wake-ups of applyCond.
use sharded_kv.Prelude.{
  ℕ, zero, suc, ◌+◌, ◌-◌, ◌==◌, Bool, true, false, Option, none, some, List, leb, if◌then◌else◌,
  length, get_or, replicate, ◌&&◌, not,
}

-- UNKNOWN is the zero value, and no peer is ever in it.
pub data Role : Type 0 where
  unknown leader follower candidate : Role

pub record LogEntry (Command : Type 0) : Type 0 where
  pub term : ℕ
  pub command : Option Command
  pub index : ℕ

-- `make([]LogEntry, 1)`: the entry that stands for all that a snapshot covers.
abbrev pub head_entry : {Command : Type 0} → LogEntry Command
head_entry = record { term = 0; command = none; index = 0 }

-- What getStatePersistData encodes.
pub record Persisted (Command : Type 0) : Type 0 where
  pub current_term : ℕ
  pub voted_for : Option ℕ
  pub log : List (LogEntry Command)
  pub last_included_index : ℕ
  pub last_included_term : ℕ

pub record Raft (Command Blob : Type 0) : Type 0 where
  pub me : ℕ
  pub peers : ℕ  -- len(rf.peers)
  pub role : Role
  pub log : List (LogEntry Command)
  pub current_term : ℕ
  pub voted_for : Option ℕ
  pub commit_index : ℕ
  pub last_applied : ℕ
  pub get_votes_num : ℕ
  pub next_index : List ℕ
  pub match_index : List (Option ℕ)
  pub last_included_index : ℕ
  pub last_included_term : ℕ
  pub snapshot : Blob
  pub clock : ℕ
  pub broadcasts : ℕ
  pub stored : Persisted Command  -- the persister's raftstate
  pub stored_snapshot : Blob  -- the persister's snapshot

abbrev pub is_leader : Role → Bool
is_leader leader = true
is_leader unknown = false
is_leader follower = false
is_leader candidate = false

abbrev pub is_candidate : Role → Bool
is_candidate candidate = true
is_candidate unknown = false
is_candidate follower = false
is_candidate leader = false

module _ {Command : Type 0} where
  -- rf.Log[i].Term
  abbrev pub term_at : List (LogEntry Command) → ℕ → ℕ
  term_at log i = (get_or log i head_entry).term

  -- getSameTermFirst: the loop goes down from `i`.
  unfoldable pub same_term_down : List (LogEntry Command) → ℕ → ℕ → ℕ
  same_term_down log term zero = 0
  same_term_down log term (suc i) =
      let rest = same_term_down log term i in if term_at log i == term then rest else suc i

module _ {Command Blob : Type 0} where
  -- getStatePersistData
  abbrev pub persisted : Raft Command Blob → Persisted Command
  persisted rf = record {
    current_term = rf.current_term;
    voted_for = rf.voted_for;
    log = rf.log;
    last_included_index = rf.last_included_index;
    last_included_term = rf.last_included_term;
  }

  -- persist
  unfoldable pub persist : Raft Command Blob → Raft Command Blob
  persist rf = record rf { stored = persisted rf }

  -- persister.SaveStateAndSnapshot
  unfoldable pub save_state_and_snapshot : Blob → Raft Command Blob → Raft Command Blob
  save_state_and_snapshot snapshot rf = record rf {
    stored = persisted rf;
    stored_snapshot = snapshot;
  }

  -- getLogAt: (index, term), and `none` for (false, -1, -1).
  unfoldable pub get_log_at : ℕ → Raft Command Blob → Option (ℕ × ℕ)
  get_log_at zero rf =
      if leb (length rf.log) 0 then none else some (rf.last_included_index, rf.last_included_term)
  get_log_at (suc i) rf =
      if leb (length rf.log) (suc i)
      then none
      else some (rf.last_included_index + suc i, term_at rf.log (suc i))

  -- getLastLogIndex, of a log that has its head entry.
  unfoldable pub last_log_index : Raft Command Blob → ℕ
  unfolding get_log_at
  last_log_index rf = elim (get_log_at (length rf.log - 1) rf) [ none ↦ 0 | some (i, term) ↦ i ]

  -- getLastLogTerm
  unfoldable pub last_log_term : Raft Command Blob → ℕ
  unfolding get_log_at
  last_log_term rf = elim (get_log_at (length rf.log - 1) rf) [ none ↦ 0 | some (i, term) ↦ term ]

  -- getSameTermFirst
  unfoldable pub get_same_term_first : ℕ → Raft Command Blob → ℕ
  unfolding same_term_down get_log_at
  get_same_term_first zero rf = 0
  get_same_term_first (suc i) rf = elim (get_log_at (suc i) rf) [
    | none ↦ suc i
    | some (index, term) ↦ same_term_down rf.log term (suc i)
  ]

  -- LeaderState
  unfoldable pub leader_state : Raft Command Blob → Raft Command Blob
  unfolding last_log_index
  leader_state rf = record rf {
    role = leader;
    next_index = replicate rf.peers (last_log_index rf + 1);
    match_index = replicate rf.peers none;
  }

  -- FollowerState
  unfoldable pub follower_state : ℕ → Raft Command Blob → Raft Command Blob
  unfolding persist
  follower_state new_term rf =
      persist (record rf {
        role = follower;
        current_term = new_term;
        voted_for = none;
        get_votes_num = 0;
      })

  -- CandidateState
  unfoldable pub candidate_state : Raft Command Blob → Raft Command Blob
  unfolding persist
  candidate_state rf = persist (record rf {
    role = candidate;
    current_term = rf.current_term + 1;
    voted_for = some rf.me;
    get_votes_num = 1;
  })

  -- GetState
  abbrev pub get_state : Raft Command Blob → ℕ × Bool
  get_state rf = (rf.current_term, is_leader rf.role)

  -- NeedEmptyLogEntry
  unfoldable pub need_empty_log_entry : Raft Command Blob → Bool
  unfolding last_log_term
  need_empty_log_entry rf = is_leader rf.role && not (last_log_term rf == rf.current_term)

  -- readPersist, once the decoding has succeeded
  unfoldable pub restore : Persisted Command → Raft Command Blob → Raft Command Blob
  restore p rf = record rf {
    current_term = p.current_term;
    voted_for = p.voted_for;
    log = p.log;
    last_included_index = p.last_included_index;
    last_included_term = p.last_included_term;
    last_applied = p.last_included_index;
    commit_index = p.last_included_index;
  }
