-- ===== src/Raft/Leader/Commit.antt =====
-- src/raft/raft.go, `countReplica`: what the leader's commit index may become.
use sharded_kv.Prelude.{
  ℕ, zero, suc, ◌+◌, ◌*◌, Option, List, [], ◌∷◌, Bool, set, ltb, ◌-◌, ◌≤◌, ◌<◌, ◌==◌, ◌≡◌, refl,
  sym, ap, ◌∙◌, ◌⊎◌, inl, inr, true, none, some, if◌then◌else◌, length, arith, Bool-cases,
}
use sharded_kv.Raft.Snapshots.{InstallSnapshotArgs}
use sharded_kv.Raft.Append.{AppendEntriesArgs, AppendEntriesReply}
use sharded_kv.Raft.State.{follower_state, persist, Raft, get_log_at, last_log_index, last_log_term}
use sharded_kv.Raft.Append.Success.{get_log_at-some, last_log_index_lem}
use sharded_kv.Raft.Leader.{
  advance_commit, receive_append, receive_install, handle_log_inconsistency, count_others,
  has_majority, first_of_term, search_down, count_replica,
}

-- Of the peers from index `j` on, with these match indices: how many are `me`, or have a match index
-- that is not below `n`.
abbrev pub holders : ℕ → ℕ → ℕ → List (Option ℕ) → ℕ
holders n me j [] = 0
holders n me j (none ∷ rest) = (if j == me then 1 else 0) + holders n me (j + 1) rest
holders n me j (some i ∷ rest) =
    (if j == me then 1 else if ltb i n then 0 else 1) + holders n me (j + 1) rest

holders_others :
    (n me j : ℕ) (ms : List (Option ℕ))
    → (me < j → holders n me j ms ≡ count_others me n j ms)
      × (j ≤ me → me < j + length ms → holders n me j ms ≡ 1 + count_others me n j ms)
unfolding count_others
holders_others n me j [] = ((λ h. refl), (λ h lt. absurd (omega (arith, h, lt))))
holders_others n me j (none ∷ rest) =
    let ih = holders_others n me (j + 1) rest in
    (
      λ h. ground (arith, h, ih.0 (omega (arith, h))),
      λ h lt. elim (Bool-cases (j == me)) [
        | inl own ↦ ground (arith, own, ih.0 (ground (arith, own)))
        | inr other ↦ ground (arith, other, ih.1 (ground (arith, other, h)) (omega (arith, lt)))
      ],
    )
holders_others n me j (some i ∷ rest) =
    let ih = holders_others n me (j + 1) rest in
    (
      λ h. ground (arith, h, ih.0 (omega (arith, h))),
      λ h lt. elim (Bool-cases (j == me)) [
        | inl own ↦ ground (arith, own, ih.0 (ground (arith, own)))
        | inr other ↦ ground (arith, other, ih.1 (ground (arith, other, h)) (omega (arith, lt)))
      ],
    )

module _ {Command Blob : Type 0} where
  majority_holds :
      (rf : Raft Command Blob) (n : ℕ)
      → rf.me < length rf.match_index
      → has_majority n rf ≡ true
      → rf.peers < 2 * holders n rf.me 0 rf.match_index
  unfolding has_majority
  majority_holds rf n among majority =
      let same = (holders_others n rf.me 0 rf.match_index).1 (omega arith) (omega (arith, among)) in
      ground (arith, same, majority)

  -- The term of the entry at a real index.
  unfoldable pub log_term : ℕ → Raft Command Blob → ℕ
  log_term i rf = elim (get_log_at i rf) [ none ↦ 0 | some (index, term) ↦ term ]

  -- Terms do not fall along the log.
  abbrev pub HasSortedTerms : Raft Command Blob → Type 0
  HasSortedTerms rf = (i j : ℕ) → i ≤ j → j < length rf.log → log_term i rf ≤ log_term j rf

  search_down_cases :
      (start i : ℕ) (rf : Raft Command Blob)
      → (search_down start i rf ≡ rf.commit_index)
        ⊎ ((rf.commit_index < search_down start i rf)
            × (has_majority (search_down start i rf) rf ≡ true)
            × (rf.last_included_index + start ≤ search_down start i rf)
            × (search_down start i rf ≤ rf.last_included_index + i))
  unfolding search_down
  search_down_cases start zero rf = ground arith
  search_down_cases start (suc i) rf = ground (arith, search_down_cases start i rf)

  log_term-some :
      (i n t : ℕ) (rf : Raft Command Blob) → get_log_at i rf ≡ some (n, t) → log_term i rf ≡ t
  unfolding log_term
  log_term-some i n t rf q = rw (q, log_term)

  first_of_term_step :
      (i n t : ℕ) (rf : Raft Command Blob)
      → get_log_at i rf ≡ some (rf.last_included_index + i, t)
      → first_of_term i (suc n) rf
        ≡ (if t == rf.current_term then i else first_of_term (i + 1) n rf)
  unfolding first_of_term
  first_of_term_step i n t rf q = rw (q, first_of_term) (ground arith)

  first_of_term_lem :
      (i n : ℕ) (rf : Raft Command Blob)
      → i + n ≡ length rf.log
      → (first_of_term i n rf ≡ length rf.log - 1)
        ⊎ ((first_of_term i n rf < length rf.log)
            × (log_term (first_of_term i n rf) rf ≡ rf.current_term))
  unfolding first_of_term
  first_of_term_lem i zero rf h = inl refl
  first_of_term_lem i (suc n) rf h =
      let (t, q) = get_log_at-some i rf (omega arith) in
      elim (Bool-cases (t == rf.current_term)) [
        | inl same ↦
            let at : first_of_term i (suc n) rf ≡ i =
              first_of_term_step i n t rf q ∙ ground arith in
            inr (
              omega (arith, at),
              ap (λ k. log_term k rf) at ∙ log_term-some i _ t rf q ∙ ground arith,
            )
        | inr other ↦
            let next : first_of_term i (suc n) rf ≡ first_of_term (i + 1) n rf =
              first_of_term_step i n t rf q ∙ ground arith in
            rw next (first_of_term_lem (i + 1) n rf (omega arith))
      ]

  last_term : (rf : Raft Command Blob) → last_log_term rf ≡ log_term (length rf.log - 1) rf
  unfolding log_term last_log_term
  last_term rf = refl

  raised_parts :
      (rf : Raft Command Blob)
      → rf.last_included_index ≤ rf.commit_index
      → rf.commit_index < count_replica rf
      → let start = first_of_term 0 (length rf.log) rf in
        (last_log_term rf ≡ rf.current_term)
        × (count_replica rf ≡ search_down start (length rf.log - 1) rf)
        × (has_majority (count_replica rf) rf ≡ true)
        × (rf.last_included_index + start ≤ count_replica rf)
        × (count_replica rf ≤ rf.last_included_index + (length rf.log - 1))
  unfolding count_replica
  raised_parts rf base raised =
      let start = first_of_term 0 (length rf.log) rf in
      let cases = search_down_cases start (length rf.log - 1) rf in
      (
        ground (arith, cases),
        ground (arith, cases),
        ground (arith, cases),
        ground (arith, cases),
        ground (arith, cases),
      )

  -- From the first entry of the last term on, all entries are of that term.
  between :
      (rf : Raft Command Blob) (i : ℕ)
      → 0 < length rf.log
      → HasSortedTerms rf
      → last_log_term rf ≡ rf.current_term
      → first_of_term 0 (length rf.log) rf ≤ i
      → i ≤ length rf.log - 1
      → log_term i rf ≡ rf.current_term
  between rf i nonempty sorted own low high =
      let start = first_of_term 0 (length rf.log) rf in
      let at_start : log_term start rf ≡ rf.current_term =
        elim (first_of_term_lem 0 (length rf.log) rf (omega arith)) [
          | inl end ↦ ap (λ k. log_term k rf) end ∙ sym (last_term rf) ∙ own
          | inr (lt, same) ↦ same
        ] in
      omega (
        arith,
        at_start,
        sorted start i low (omega arith),
        sorted i (length rf.log - 1) high (omega arith),
        last_term rf,
        own,
      )

  -- Where the log is not empty, the commit index is no lower than the snapshot's, terms do not fall
  -- along the log, and the leader is one of the peers that it keeps match indices for: if
  -- `countReplica` answers more than the commit index, then the answer is the index of an entry in
  -- the leader's log; the leader and the peers whose match index is no lower than it are more than
  -- half of the peers; and the entry and the last one are of the leader's current term.
  pub count_replica_raises :
      (rf : Raft Command Blob)
      → 0 < length rf.log
      → rf.last_included_index ≤ rf.commit_index
      → HasSortedTerms rf
      → rf.me < length rf.match_index
      → rf.commit_index < count_replica rf
      → (rf.peers < 2 * holders (count_replica rf) rf.me 0 rf.match_index)
        × (count_replica rf ≤ last_log_index rf)
        × (last_log_term rf ≡ rf.current_term)
        × (log_term (count_replica rf - rf.last_included_index) rf ≡ rf.current_term)
  unfolding has_majority
  count_replica_raises rf nonempty base sorted among raised =
      let (own, at, majority, low, high) = raised_parts rf base raised in
      (
        majority_holds rf (count_replica rf) among majority,
        omega (arith, high, last_log_index_lem rf nonempty),
        own,
        between rf (count_replica rf - rf.last_included_index) nonempty sorted own
            (omega (arith, low)) (omega (arith, high, low)),
      )

  -- `countReplica` never answers less than the commit index.
  count_replica_mono : (rf : Raft Command Blob) → rf.commit_index ≤ count_replica rf
  unfolding count_replica
  count_replica_mono rf =
      ground (arith, search_down_cases (first_of_term 0 (length rf.log) rf) (length rf.log - 1) rf)

  advance_commit_mono :
      (rf : Raft Command Blob) → rf.commit_index ≤ (advance_commit rf).commit_index
  unfolding advance_commit
  advance_commit_mono rf = count_replica_mono rf

  handle_log_inconsistency_commit :
      (peer : ℕ) (reply : AppendEntriesReply) (rf : Raft Command Blob)
      → (handle_log_inconsistency peer reply rf).commit_index ≡ rf.commit_index
  unfolding handle_log_inconsistency
  handle_log_inconsistency_commit peer reply rf = ground arith

  -- The commit index does not fall when a peer's answer to an AppendEntries or to an
  -- InstallSnapshot is handled, whatever the answer says and whether or not the peer still leads.
  pub commit_mono :
      (peer : ℕ) (args : AppendEntriesArgs Command) (ok : Bool) (reply : AppendEntriesReply)
      (snapshot : InstallSnapshotArgs Blob) (reply_term : ℕ) (rf : Raft Command Blob)
      → (rf.commit_index ≤ (receive_append peer args ok reply rf).commit_index)
        × (rf.commit_index ≤ (receive_install peer snapshot ok reply_term rf).commit_index)
  unfolding receive_append receive_install follower_state persist
  commit_mono peer args ok reply snapshot reply_term rf =
      let matched = args.prev_log_index + length args.entries in
      (
        ground (
          arith,
          advance_commit_mono (record rf {
            match_index = set rf.match_index peer (some matched);
            next_index = set rf.next_index peer (matched + 1);
          }),
          advance_commit_mono (handle_log_inconsistency peer reply rf),
          handle_log_inconsistency_commit peer reply rf,
          advance_commit_mono rf,
        ),
        ground (
          arith,
          advance_commit_mono (record rf {
            match_index = set rf.match_index peer (some snapshot.last_included_index);
            next_index = set rf.next_index peer (snapshot.last_included_index + 1);
          }),
          advance_commit_mono rf,
        ),
      )
