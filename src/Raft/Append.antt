-- ===== src/Raft/Append.antt =====
-- src/raft/raft.go: `AppendEntries`.
pub mod Merge
pub mod Success
use sharded_kv.Prelude.{
  ℕ, zero, suc, ◌+◌, ◌-◌, ◌==◌, Bool, true, false, ◌&&◌, ◌||◌, not, Option, none, some, List, [],
  ◌∷◌, ◌++◌, leb, ltb, if◌then◌else◌, length, take,
}
use sharded_kv.Raft.State.{
  Raft, LogEntry, is_candidate, term_at, get_log_at, last_log_index, get_same_term_first,
  follower_state, persist,
}

-- `prev_log_term` is `none` for -1.
pub record AppendEntriesArgs (Command : Type 0) : Type 0 where
  pub term : ℕ
  pub leader_id : ℕ
  pub prev_log_index : ℕ
  pub prev_log_term : Option ℕ
  pub entries : List (LogEntry Command)
  pub leader_commit : ℕ

-- `x_term` is `none` for -1.
pub record AppendEntriesReply : Type 0 where
  pub term : ℕ
  pub success : Bool
  pub log_inconsistency : Bool
  pub x_term : Option ℕ
  pub x_index : ℕ
  pub x_len : ℕ

abbrev pub zero_reply : AppendEntriesReply
zero_reply = record {
  term = 0;
  success = false;
  log_inconsistency = false;
  x_term = some 0;
  x_index = 0;
  x_len = 0;
}

abbrev pub same_term : ℕ → Option ℕ → Bool
same_term term none = false
same_term term (some t) = term == t

module _ {Command : Type 0} where
  -- The loop that looks for an entry of the log that conflicts with a new one.
  unfoldable pub find_conflict : List (LogEntry Command) → List (LogEntry Command) → ℕ → Option ℕ
  find_conflict [] log j = none
  find_conflict (e ∷ es) log j =
      let rest = find_conflict es log (j + 1) in
      if leb (length log) j then none else if e.term == term_at log j then rest else some j

  abbrev pub cut_at : Option ℕ → List (LogEntry Command) → List (LogEntry Command) × Bool
  cut_at none log = (log, false)
  cut_at (some k) log = (take k log, true)

  -- rf.Log = rf.Log[:j], and whether it was cut.
  unfoldable pub cut_conflict :
      List (LogEntry Command) → List (LogEntry Command) → ℕ → List (LogEntry Command) × Bool
  unfolding find_conflict
  cut_conflict entries log j = cut_at (find_conflict entries log j) log

  -- The loop that appends the entries beyond the end of the log, and whether there were any.
  unfoldable pub extend :
      ℕ → List (LogEntry Command) → List (LogEntry Command) → Bool → List (LogEntry Command) × Bool
  extend at [] log changed = (log, changed)
  extend at (e ∷ es) log changed =
      extend (at + 1) es (if leb (length log) at then log ++ e ∷ [] else log)
        (leb (length log) at || changed)

  unfoldable pub append_new :
      ℕ → List (LogEntry Command) → List (LogEntry Command) → Bool → List (LogEntry Command) × Bool
  unfolding extend
  append_new start entries log changed =
      if leb (length log) start then (log ++ entries, true) else extend start entries log changed

  -- The new log, and needPersist; `real` is the real index of the entry before the new ones.
  unfoldable pub merge :
      ℕ → List (LogEntry Command) → List (LogEntry Command) → List (LogEntry Command) × Bool
  unfolding cut_conflict append_new
  merge real entries log =
      let (log1, cut) = cut_conflict entries log (real + 1) in
      append_new (real + 1) entries log1 cut

module _ {Command Blob : Type 0} where
  -- The first lines of the handler: a new term, or a leader of the candidate's own term.
  unfoldable pub step_down : ℕ → Raft Command Blob → Raft Command Blob
  unfolding follower_state
  step_down term rf =
      if ltb rf.current_term term || (term == rf.current_term && is_candidate rf.role)
      then follower_state term rf
      else rf

  -- The last lines: the log is merged and saved, and the commit index moves up to `last`, the last
  -- index of the log as it was.
  unfoldable pub accept : AppendEntriesArgs Command → ℕ → ℕ → Raft Command Blob → Raft Command Blob
  unfolding merge persist
  accept args real last rf =
      let (log, need_persist) = merge real args.entries rf.log in
      let rf1 = record rf { log = log } in
      let rf2 = if need_persist then persist rf1 else rf1 in
      if ltb rf.commit_index args.leader_commit
      then record rf2 {
        commit_index = if ltb args.leader_commit last then args.leader_commit else last;
      }
      else rf2

  -- The timer is reset, and the apply checker woken.
  abbrev pub heard : Raft Command Blob → Raft Command Blob
  heard rf = record rf { clock = rf.clock + 1; broadcasts = rf.broadcasts + 1 }

  unfoldable pub append_entries :
      AppendEntriesArgs Command → Raft Command Blob → Raft Command Blob × AppendEntriesReply
  unfolding step_down accept
  append_entries args rf =
      let rf1 = step_down args.term rf in
      if ltb args.term rf1.current_term
      then (rf1, record zero_reply { term = rf1.current_term })
      else let rf2 = heard rf1 in
        let first = rf2.last_included_index in
        let last = last_log_index rf2 in
        if ltb args.prev_log_index first
        then (
          rf2,
          record zero_reply {
            term = rf2.current_term;
            log_inconsistency = true;
            x_term = none;
            x_index = first + 1;
          },
        )
        else let real = args.prev_log_index - first in
          let found : Option (ℕ × ℕ) =
            if ltb last args.prev_log_index then none else get_log_at real rf2 in
          elim found [
            | none ↦ (
              rf2,
              record zero_reply {
                term = rf2.current_term;
                log_inconsistency = true;
                x_term = none;
                x_index = last + 1;
              },
            )
            | some (prev_index, prev_term) ↦
                if not (same_term prev_term args.prev_log_term)
                then (
                  rf2,
                  record zero_reply {
                    term = rf2.current_term;
                    log_inconsistency = true;
                    x_term = some prev_term;
                    x_index = get_same_term_first real rf2 + first;
                  },
                )
                else (
                  accept args real last rf2,
                  record zero_reply { term = rf2.current_term; success = true },
                )
          ]
