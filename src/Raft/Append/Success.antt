-- ===== src/Raft/Append/Success.antt =====
-- src/raft/raft.go: what an `AppendEntries` that succeeds means for the follower.
use sharded_kv.Prelude.{
  ℕ, zero, suc, ◌+◌, ◌-◌, ◌≤◌, ◌<◌, ◌≡◌, sym, ap, ap₂, subst, ◌∙◌, ◌⊎◌, inl, inr, true, Option,
  none, some, List, refl, length, get_elem?, arith, Option-cases,
}
use sharded_kv.Raft.State.{
  Raft, LogEntry, term_at, get_log_at, last_log_index, persist, follower_state,
}
use sharded_kv.Raft.Append.{
  AppendEntriesArgs, same_term, heard, step_down, accept, append_entries, merge,
}
use sharded_kv.Raft.Append.Merge.{Agrees, merge-Agrees, merge_keeps}

module _ {Command Blob : Type 0} where
  -- The peer as it is when the log is looked at.
  abbrev pub follower_of : AppendEntriesArgs Command → Raft Command Blob → Raft Command Blob
  follower_of args rf = heard (step_down args.term rf)

  abbrev pub real_index : AppendEntriesArgs Command → Raft Command Blob → ℕ
  real_index args rf = args.prev_log_index - rf.last_included_index

  step_down_keeps :
      (term : ℕ) (rf : Raft Command Blob)
      → ((step_down term rf).log ≡ rf.log)
        × ((step_down term rf).last_included_index ≡ rf.last_included_index)
        × ((step_down term rf).last_included_term ≡ rf.last_included_term)
        × ((step_down term rf).commit_index ≡ rf.commit_index)
        × (rf.current_term ≤ (step_down term rf).current_term)
        × (term ≤ (step_down term rf).current_term)
  unfolding step_down follower_state persist
  step_down_keeps term rf =
      (ground arith, ground arith, ground arith, ground arith, ground arith, ground arith)

  pub get_log_at-some :
      (i : ℕ) (rf : Raft Command Blob)
      → i < length rf.log
      → (t : ℕ) × (get_log_at i rf ≡ some (rf.last_included_index + i, t))
  unfolding get_log_at
  get_log_at-some zero rf h = (rf.last_included_term, ground arith)
  get_log_at-some (suc i) rf h = (term_at rf.log (suc i), ground arith)

  pub last_log_index_lem :
      (rf : Raft Command Blob)
      → 0 < length rf.log
      → last_log_index rf ≡ rf.last_included_index + (length rf.log - 1)
  unfolding last_log_index
  last_log_index_lem rf h =
      let (t, q) = get_log_at-some (length rf.log - 1) rf (omega arith) in rw (q, last_log_index)

  success_cases :
      (args : AppendEntriesArgs Command) (rf : Raft Command Blob)
      → (append_entries args rf).1.success ≡ true
      → ((append_entries args rf).0
          ≡ accept args
              (real_index args (step_down args.term rf))
              (last_log_index (follower_of args rf))
              (follower_of args rf))
        × ((step_down args.term rf).current_term ≤ args.term)
        × ((step_down args.term rf).last_included_index ≤ args.prev_log_index)
        × ((i : ℕ) × (t : ℕ) × (get_log_at
                (real_index args (step_down args.term rf))
                (follower_of args rf)
              ≡ some (i, t))
            × (same_term t args.prev_log_term ≡ true))
  unfolding append_entries
  success_cases args rf h =
      elim (Option-cases
        (get_log_at (real_index args (step_down args.term rf)) (follower_of args rf))) [
          | inl q ↦ absurd (ground arith)
          | inr ((i, t), q) ↦ (ground arith, ground arith, ground arith, (i, t, q, ground arith))
        ]

  get_log_at_in :
      (real i t : ℕ) (rf : Raft Command Blob)
      → get_log_at real rf ≡ some (i, t)
      → (real < length rf.log) × (i ≡ rf.last_included_index + real)
  unfolding get_log_at
  get_log_at_in zero i t rf h = (ground arith, ground arith)
  get_log_at_in (suc real) i t rf h = (ground arith, ground arith)

  accept_parts :
      (args : AppendEntriesArgs Command) (real last : ℕ) (rf : Raft Command Blob)
      → ((accept args real last rf).log ≡ (merge real args.entries rf.log).0)
        × ((accept args real last rf).current_term ≡ rf.current_term)
        × ((accept args real last rf).last_included_index ≡ rf.last_included_index)
        × (rf.commit_index ≤ (accept args real last rf).commit_index ⊎ last < rf.commit_index)
        × (((accept args real last rf).commit_index ≡ rf.commit_index)
            ⊎ (((accept args real last rf).commit_index ≤ args.leader_commit)
                × ((accept args real last rf).commit_index ≤ last)))
  unfolding accept persist
  accept_parts args real last rf =
      (ground arith, ground arith, ground arith, ground arith, ground arith)

  -- If an AppendEntries succeeds, the follower is then in the leader's term; it held an entry at
  -- prevLogIndex, and keeps its log up to there; from there on its log has entries of the terms of
  -- the new ones; and its commit index is what it was, or no higher than the leader's and than the
  -- end that the log had before.
  pub append_success :
      (args : AppendEntriesArgs Command) (rf : Raft Command Blob)
      → (append_entries args rf).1.success ≡ true
      → let after = (append_entries args rf).0 in
        let real = args.prev_log_index - rf.last_included_index in
        (after.current_term ≡ args.term)
        × (rf.last_included_index ≤ args.prev_log_index)
        × (real < length rf.log)
        × ((j : ℕ) → j ≤ real → get_elem? after.log j ≡ get_elem? rf.log j)
        × Agrees args.entries after.log (real + 1)
        × ((after.commit_index ≡ rf.commit_index)
            ⊎ ((after.commit_index ≤ args.leader_commit)
                × (after.commit_index ≤ last_log_index rf)))
  append_success args rf h =
      let (log, idx, trm, cmt, ge, le) = step_down_keeps args.term rf in
      let (run, upto, base, (i, t, found, agree)) = success_cases args rf h in
      let peer = follower_of args rf in
      let real = real_index args (step_down args.term rf) in
      let same_real : real ≡ real_index args rf = ap (λ n. args.prev_log_index - n) idx in
      let inside' : real < length peer.log = (get_log_at_in real i t peer found).0 in
      let inside : real < length rf.log = rw log at inside' in
      let (merged, term, idx', grows, commit) = accept_parts args real (last_log_index peer) peer in
      let at_end : last_log_index peer ≡ last_log_index rf =
        last_log_index_lem peer (rw log (omega (arith, inside)))
        ∙ ap₂ (λ n (l : List (LogEntry Command)). n + (length l - 1)) idx log
        ∙ sym (last_log_index_lem rf (omega (arith, inside))) in
      rw run (
        omega (arith, term, upto, le),
        omega (arith, base, idx),
        omega (arith, inside, same_real),
        (λ j lt.
            ap (λ (l : List (LogEntry Command)). get_elem? l j) merged
            ∙ merge_keeps real args.entries peer.log j inside' (omega (arith, same_real))
            ∙ ap (λ (l : List (LogEntry Command)). get_elem? l j) log),
        subst (λ (l : List (LogEntry Command)). Agrees args.entries l (real_index args rf + 1))
            (sym merged)
            (subst (λ n. Agrees args.entries (merge real args.entries peer.log).0 (n + 1)) same_real
              (merge-Agrees real args.entries peer.log inside')),
        elim commit [ inl e ↦ inl (e ∙ cmt) | inr (a, b) ↦ inr (a, omega (arith, b, at_end)) ],
      )

  -- The entry before the new ones has the term that the leader has there, and the reply has a term
  -- no higher than the leader's.
  pub success_prev :
      (args : AppendEntriesArgs Command) (rf : Raft Command Blob)
      → (append_entries args rf).1.success ≡ true
      → (i t : ℕ) × (get_log_at (real_index args rf) rf ≡ some (i, t))
        × (args.prev_log_term ≡ some t)
  unfolding get_log_at
  success_prev args rf h =
      let (log, idx, trm, cmt, ge, le) = step_down_keeps args.term rf in
      let (run, upto, base, (i, t, found, agree)) = success_cases args rf h in
      (
        i,
        t,
        same_entry args rf (real_index args rf)
            ∙ ap (λ n. get_log_at n (follower_of args rf))
                (ap (λ n. args.prev_log_index - n) (sym idx))
            ∙ found,
        same_term_lem t args.prev_log_term agree,
      )
    where
      same_entry :
          (args : AppendEntriesArgs Command) (rf : Raft Command Blob) (n : ℕ)
          → get_log_at n rf ≡ get_log_at n (follower_of args rf)
      same_entry args rf zero = ground (arith, step_down_keeps args.term rf)
      same_entry args rf (suc n) =
          let (log, idx, trm, cmt, ge, le) = step_down_keeps args.term rf in rw (log, idx) refl

      same_term_lem : (t : ℕ) (prev : Option ℕ) → same_term t prev ≡ true → prev ≡ some t
      same_term_lem t none h = absurd (ground arith)
      same_term_lem t (some p) h = ground arith

  pub success_reply :
      (args : AppendEntriesArgs Command) (rf : Raft Command Blob)
      → (append_entries args rf).1.success ≡ true
      → (append_entries args rf).1.term ≤ args.term
  unfolding append_entries
  success_reply args rf h =
      elim (Option-cases
        (get_log_at (real_index args (step_down args.term rf)) (follower_of args rf))) [
          | inl q ↦ absurd (ground arith)
          | inr ((i, t), q) ↦ ground arith
        ]

  pub append_keeps_snapshot :
      (args : AppendEntriesArgs Command) (rf : Raft Command Blob)
      → (append_entries args rf).1.success ≡ true
      → ((append_entries args rf).0.last_included_index ≡ rf.last_included_index)
        × ((append_entries args rf).0.last_included_term ≡ rf.last_included_term)
  unfolding accept persist
  append_keeps_snapshot args rf h =
      let (log, idx, trm, cmt, ge, le) = step_down_keeps args.term rf in
      let (run, upto, base, prev) = success_cases args rf h in
      rw run (ground (arith, idx), ground (arith, trm))
