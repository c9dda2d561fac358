-- ===== src/Raft/Replication.antt =====
-- src/raft/raft.go: an AppendEntries from the leader that sends it to the follower that accepts it.
use sharded_kv.Prelude.{
  ℕ, zero, suc, ◌+◌, ◌-◌, ◌≤◌, ◌<◌, ◌≡◌, refl, sym, ap, ap₂, subst, ◌∙◌, inl, inr, true, none, some,
  ◌==◌, if◌then◌else◌, get_elem?, get_or-set_self, List, [], ◌∷◌, length, get_or, drop, leb, ltb,
  Bool-cases, Option-cases, arith,
}
use mathlib.Core.Option.{some_inj}
use sharded_kv.Raft.State.{
  head_entry, Raft, LogEntry, term_at, last_log_index, get_log_at, is_leader,
}
use sharded_kv.Raft.Append.{AppendEntriesArgs, append_entries}
use sharded_kv.Raft.Append.Merge.{Agrees}
use sharded_kv.Raft.Append.Success.{
  append_success, success_prev, success_reply, append_keeps_snapshot,
}
use sharded_kv.Raft.Leader.{append, prepare, append_args, receive_append, advance_commit}
use sharded_kv.Raft.Leader.Commit.{log_term}

module _ {A : Type 0} where
  get_or-get_elem? :
      (xs ys : List A) (i : ℕ) (d : A)
      → get_elem? xs i ≡ get_elem? ys i
      → get_or xs i d ≡ get_or ys i d
  get_or-get_elem? [] [] i d h = refl
  get_or-get_elem? [] (y ∷ ys) zero d h = absurd (cc)
  get_or-get_elem? [] (y ∷ ys) (suc i) d h = get_or-get_elem? [] ys i d h
  get_or-get_elem? (x ∷ xs) [] zero d h = absurd (cc)
  get_or-get_elem? (x ∷ xs) [] (suc i) d h = get_or-get_elem? xs [] i d h
  get_or-get_elem? (x ∷ xs) (y ∷ ys) zero d h = some_inj.0 h
  get_or-get_elem? (x ∷ xs) (y ∷ ys) (suc i) d h = get_or-get_elem? xs ys i d h

  get_elem?_inside :
      (xs ys : List A) (i : ℕ) → get_elem? xs i ≡ get_elem? ys i → i < length ys → i < length xs
  get_elem?_inside xs [] i h lt = absurd (omega (arith, lt))
  get_elem?_inside [] (y ∷ ys) zero h lt = absurd (cc)
  get_elem?_inside [] (y ∷ ys) (suc i) h lt =
      let ih = get_elem?_inside [] ys i h (omega (arith, lt)) in absurd (omega (arith, ih))
  get_elem?_inside (x ∷ xs) (y ∷ ys) zero h lt = omega arith
  get_elem?_inside (x ∷ xs) (y ∷ ys) (suc i) h lt =
      let ih = get_elem?_inside xs ys i h (omega (arith, lt)) in omega (arith, ih)

  get_or_beyond : (xs : List A) (i : ℕ) (d : A) → length xs ≤ i → get_or xs i d ≡ d
  get_or_beyond [] i d h = refl
  get_or_beyond (x ∷ xs) zero d h = absurd (omega (arith, h))
  get_or_beyond (x ∷ xs) (suc i) d h = get_or_beyond xs i d (omega (arith, h))

module _ {Command : Type 0} where
  Agrees-at :
      (es log : List (LogEntry Command)) (k d : ℕ)
      → Agrees es log k
      → d < length es
      → (k + d < length log) × (term_at log (k + d) ≡ term_at es d)
  Agrees-at [] log k d a h = absurd (omega (arith, h))
  Agrees-at (e ∷ es) log k zero a h =
      subst (λ n. (n < length log) × (term_at log n ≡ e.term)) (omega arith) (a.0, a.1)
  Agrees-at (e ∷ es) log k (suc d) a h =
      subst (λ n. (n < length log) × (term_at log n ≡ term_at es d)) {x = k + 1 + d} (omega arith)
        (Agrees-at es log (k + 1) d a.2 (omega arith))

  term_at-drop :
      (n d : ℕ) (log : List (LogEntry Command)) → term_at (drop n log) d ≡ term_at log (n + d)
  term_at-drop zero d log = ap (term_at log) {x = d} {y = zero + d} (omega arith)
  term_at-drop (suc n) d [] = refl
  term_at-drop (suc n) d (x ∷ log) =
      term_at-drop n d log ∙ ap (term_at (x ∷ log)) {x = suc (n + d)} {y = suc n + d} (omega arith)

module _ {Command Blob : Type 0} where
  prepared_args :
      (peer : ℕ) (rf : Raft Command Blob) (args : AppendEntriesArgs Command)
      → (prepare peer rf).1 ≡ append args
      → (args ≡ append_args (get_or rf.next_index peer 0) rf)
        × (rf.last_included_index + 1 ≤ get_or rf.next_index peer 0)
  unfolding prepare
  prepared_args peer rf args h =
      elim (Bool-cases (ltb (get_or rf.next_index peer 0) (rf.last_included_index + 1))) [
        | inl old ↦ ground (arith, h, old)
        | inr new ↦ ground (arith, h, new)
      ]

  sent_entry :
      (next d : ℕ) (rf : Raft Command Blob)
      → d < length (append_args next rf).entries
      → rf.last_included_index + 1 ≤ next
      → term_at (append_args next rf).entries d ≡ term_at rf.log (next + d - rf.last_included_index)
  unfolding append_args
  sent_entry next d rf h up = elim (Bool-cases (leb next (last_log_index rf))) [
    | inl some_left ↦ rw some_left (
        term_at-drop (next - rf.last_included_index) d rf.log
        ∙ ap (term_at rf.log) {x = next - rf.last_included_index + d}
            {y = next + d - rf.last_included_index} (omega (arith, up)))
    | inr none_left ↦ absurd (omega (arith, rw none_left at h))
  ]

  -- The entries that were sent.
  sent_entries :
      (peer : ℕ) (leading following : Raft Command Blob) (args : AppendEntriesArgs Command) (i : ℕ)
      → (prepare peer leading).1 ≡ append args
      → (append_entries args following).1.success ≡ true
      → args.prev_log_index < i
      → i ≤ args.prev_log_index + length args.entries
      → let log = (append_entries args following).0.log in
        (i - following.last_included_index < length log)
        × (term_at log (i - following.last_included_index)
            ≡ term_at leading.log (i - leading.last_included_index))
  unfolding append_args
  sent_entries peer leading following args i sent done low high =
      let (same, up) = prepared_args peer leading args sent in
      let next = get_or leading.next_index peer 0 in
      let accepted = append_success args following done in
      let real = args.prev_log_index - following.last_included_index in
      let d = i - args.prev_log_index - 1 in
      let (inside, agree) =
        Agrees-at args.entries (append_entries args following).0.log (real + 1) d accepted.4
          (omega (arith, low, high)) in
      let place : real + 1 + d ≡ i - following.last_included_index =
        omega (arith, accepted.1, low) in
      let log = (append_entries args following).0.log in
      let prev : args.prev_log_index ≡ next - 1 =
        ap (λ (a : AppendEntriesArgs Command). a.prev_log_index) same in
      let many : length args.entries ≡ length (append_args next leading).entries =
        ap (λ (a : AppendEntriesArgs Command). length a.entries) same in
      (
        subst (λ n. n < length log) place inside,
        ap (term_at log) (sym place)
            ∙ agree
            ∙ ap (λ (a : AppendEntriesArgs Command). term_at a.entries d) same
            ∙ sent_entry next d leading (omega (arith, many, low, high)) up
            ∙ ap (term_at leading.log) {x = next + d - leading.last_included_index}
                {y = i - leading.last_included_index} (omega (arith, prev, low, up)),
      )

  -- The term that a peer's log has at logical index `i`.
  abbrev pub term_of : ℕ → Raft Command Blob → ℕ
  term_of i rf = log_term (i - rf.last_included_index) rf

  -- `rf` has an entry, or the end of its snapshot, at logical index `i`.
  abbrev pub Holds : ℕ → Raft Command Blob → Type 0
  Holds i rf = (rf.last_included_index ≤ i) × (i - rf.last_included_index < length rf.log)

  -- Log Matching: two logs that agree on the term at an index agree on all terms before it.
  abbrev pub AreMatching : Raft Command Blob → Raft Command Blob → Type 0
  AreMatching a b =
      (i j : ℕ)
      → j ≤ i
      → Holds i a
      → Holds i b
      → a.last_included_index ≤ j
      → b.last_included_index ≤ j
      → term_of i a ≡ term_of i b
      → term_of j a ≡ term_of j b

  log_term_in :
      (i : ℕ) (rf : Raft Command Blob)
      → i < length rf.log
      → log_term i rf ≡ (if i == 0 then rf.last_included_term else term_at rf.log i)
  unfolding log_term get_log_at
  log_term_in zero rf h = ground arith
  log_term_in (suc i) rf h = ground arith

  log_term_pos : (i : ℕ) (rf : Raft Command Blob) → 1 ≤ i → log_term i rf ≡ term_at rf.log i
  unfolding log_term get_log_at
  log_term_pos zero rf h = absurd (omega (arith, h))
  log_term_pos (suc i) rf h = elim (Bool-cases (leb (length rf.log) (suc i))) [
    | inl beyond ↦
        rw (beyond, log_term)
          (sym (
            ap (λ (e : LogEntry Command). e.term)
              (get_or_beyond rf.log (suc i) head_entry (ground arith))))
    | inr inside ↦ rw (inside, log_term) refl
  ]

  log_term-get_log_at :
      (i n t : ℕ) (rf : Raft Command Blob) → get_log_at i rf ≡ some (n, t) → log_term i rf ≡ t
  unfolding log_term
  log_term-get_log_at i n t rf q = rw (q, log_term) refl

  get_log_at_inside :
      (i n t : ℕ) (rf : Raft Command Blob) → get_log_at i rf ≡ some (n, t) → i < length rf.log
  unfolding get_log_at
  get_log_at_inside zero n t rf q = ground arith
  get_log_at_inside (suc i) n t rf q = ground arith

  -- What an AppendEntries that succeeds keeps.
  kept_term :
      (args : AppendEntriesArgs Command) (following : Raft Command Blob) (i : ℕ)
      → (append_entries args following).1.success ≡ true
      → following.last_included_index ≤ i
      → i ≤ args.prev_log_index
      → Holds i (append_entries args following).0
        × (term_of i (append_entries args following).0 ≡ term_of i following)
  kept_term args following i done low high =
      let (term, base, inside, kept, agrees, commit) = append_success args following done in
      let (idx, trm) = append_keeps_snapshot args following done in
      let after = (append_entries args following).0 in
      let n = i - following.last_included_index in
      let same : get_elem? after.log n ≡ get_elem? following.log n = kept n (omega arith) in
      let there : n < length following.log = omega (arith, inside, high) in
      let there' : n < length after.log = get_elem?_inside after.log following.log n same there in
      let place : i - after.last_included_index ≡ n = ap (λ (k : ℕ). i - k) idx in
      let terms : term_at after.log n ≡ term_at following.log n =
        ap (λ (e : LogEntry Command). e.term)
          (get_or-get_elem? after.log following.log n head_entry same) in
      (
        (omega (arith, idx, low), omega (arith, place, there')),
        ap (λ k. log_term k after) place
            ∙ log_term_in n after there'
            ∙ ap₂ (λ a b. if n == 0 then a else b) trm terms
            ∙ sym (log_term_in n following there),
      )

  prev_entry :
      (peer : ℕ) (leading following : Raft Command Blob) (args : AppendEntriesArgs Command)
      → (prepare peer leading).1 ≡ append args
      → (append_entries args following).1.success ≡ true
      → Holds args.prev_log_index leading
        × Holds args.prev_log_index following
        × (term_of args.prev_log_index leading ≡ term_of args.prev_log_index following)
  unfolding append_args
  prev_entry peer leading following args sent done =
      let (same, up) = prepared_args peer leading args sent in
      let next = get_or leading.next_index peer 0 in
      let prev : args.prev_log_index ≡ next - 1 =
        ap (λ (a : AppendEntriesArgs Command). a.prev_log_index) same in
      let accepted = append_success args following done in
      let (i, t, found, prev_term) = success_prev args following done in
      let sent_term =
        sym (ap (λ (a : AppendEntriesArgs Command). a.prev_log_term) same) ∙ prev_term in
      elim (Option-cases (get_log_at (next - 1 - leading.last_included_index) leading)) [
        | inl q ↦ absurd (ground (arith, rw (q, append_args) at sent_term))
        | inr ((j, t'), q) ↦
            let equal : t' ≡ t = some_inj.0 (rw (q, append_args) at sent_term) in
            let place : args.prev_log_index - leading.last_included_index
                ≡ next - 1 - leading.last_included_index =
              ap (λ k. k - leading.last_included_index) prev in
            (
              (
                omega (arith, prev, up),
                omega (
                  arith,
                  place,
                  get_log_at_inside (next - 1 - leading.last_included_index) j t' leading q,
                ),
              ),
              (accepted.1, accepted.2),
              ap (λ k. log_term k leading) place
                  ∙ log_term-get_log_at (next - 1 - leading.last_included_index) j t' leading q
                  ∙ equal
                  ∙ sym (
                      log_term-get_log_at (args.prev_log_index - following.last_included_index) i t
                        following found),
            )
      ]

  recorded_match :
      (peer : ℕ) (args : AppendEntriesArgs Command) (following now : Raft Command Blob)
      → (append_entries args following).1.success ≡ true
      → is_leader now.role ≡ true
      → now.current_term ≡ args.term
      → peer < length now.match_index
      → get_or
          (receive_append peer args true (append_entries args following).1 now).match_index
          peer
          none
        ≡ some (args.prev_log_index + length args.entries)
  unfolding receive_append advance_commit
  recorded_match peer args following now done leads term known = ground (
    arith,
    done,
    leads,
    term,
    success_reply args following done,
    get_or-set_self now.match_index peer (some (args.prev_log_index + length args.entries)) none
        known,
  )

  -- What a leader counts as replicated is replicated. Let a leader send an AppendEntries to a peer,
  -- and let that peer's handler report success, each in any state of its own; let the answer reach
  -- the leader when it still leads in that term. Then for every index up to the match index that it
  -- records for the peer, down to the ends of the two snapshots, the follower's log holds an entry
  -- with the term that the leader's log had there when it sent. That the two logs agree before an
  -- entry on which they agree, Raft's Log Matching, is taken of the logs as they were before.
  pub accepted_entries :
      (peer : ℕ) (leading following now : Raft Command Blob) (args : AppendEntriesArgs Command)
      (i m : ℕ)
      → (prepare peer leading).1 ≡ append args
      → (append_entries args following).1.success ≡ true
      → AreMatching leading following
      → is_leader now.role ≡ true
      → now.current_term ≡ args.term
      → peer < length now.match_index
      → get_or
          (receive_append peer args true (append_entries args following).1 now).match_index
          peer
          none
        ≡ some m
      → leading.last_included_index ≤ i
      → following.last_included_index ≤ i
      → i ≤ m
      → Holds i (append_entries args following).0
        × (term_of i (append_entries args following).0 ≡ term_of i leading)
  accepted_entries peer leading following now args i m sent done matching leads term known recorded
        low low' high =
      let (lead_holds, follow_holds, agree) = prev_entry peer leading following args sent done in
      let upto : m ≡ args.prev_log_index + length args.entries =
        some_inj.0 (sym recorded ∙ recorded_match peer args following now done leads term known) in
      elim (Bool-cases (ltb args.prev_log_index i)) [
        | inl new ↦
            let (inside, same) =
              sent_entries peer leading following args i sent done (ground (arith, new))
                (omega (arith, upto, high)) in
            let (idx, trm) = append_keeps_snapshot args following done in
            let after = (append_entries args following).0 in
            let place : i - after.last_included_index ≡ i - following.last_included_index =
              ap (λ (k : ℕ). i - k) idx in
            let above : args.prev_log_index < i = ground (arith, new) in
            (
              (omega (arith, idx, low'), omega (arith, place, inside)),
              ap (λ k. log_term k after) place
                  ∙ log_term_pos (i - following.last_included_index) after
                      (omega (arith, above, follow_holds.0))
                  ∙ same
                  ∙ sym (
                      log_term_pos (i - leading.last_included_index) leading
                        (omega (arith, above, lead_holds.0))),
            )
        | inr old ↦
            let before : i ≤ args.prev_log_index = ground (arith, old) in
            let (holds, kept) = kept_term args following i done low' before in
            (
              holds,
              kept
                  ∙ sym (
                      matching args.prev_log_index i before lead_holds follow_holds low low' agree),
            )
      ]
