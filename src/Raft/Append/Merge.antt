-- ===== src/Raft/Append/Merge.antt =====
-- src/raft/raft.go, `AppendEntries`: what the loops over the entries make of the log.
use sharded_kv.Prelude.{
  ℕ, zero, suc, ◌+◌, ◌≤◌, ◌<◌, ◌==◌, ◌≡◌, refl, sym, ap, ◌∙◌, ◌⊎◌, inl, inr, Bool, true, false,
  Option, none, some, List, [], ◌∷◌, ◌++◌, leb, length, take, length-append, length-take, get_elem?,
  get_elem?-take_lt, get_elem?-append_lt, arith, Bool-cases, Option-cases,
}
use mathlib.Core.List.{append-nil, append_assoc}
use sharded_kv.Raft.State.{LogEntry, term_at}
use sharded_kv.Raft.Append.{find_conflict, cut_at, cut_conflict, extend, append_new, merge}

module _ {Command : Type 0} where
  -- From real index `j` on, the log has the terms of `entries`.
  abbrev pub Agrees : List (LogEntry Command) → List (LogEntry Command) → ℕ → Type 0
  Agrees [] log j = Unit {0}
  Agrees (e ∷ es) log j = (j < length log) × (term_at log j ≡ e.term) × Agrees es log (j + 1)

  -- As far as the log goes.
  abbrev AgreesWithin : List (LogEntry Command) → List (LogEntry Command) → ℕ → Type 0
  AgreesWithin [] log j = Unit {0}
  AgreesWithin (e ∷ es) log j =
      (length log ≤ j) ⊎ ((term_at log j ≡ e.term) × AgreesWithin es log (j + 1))

  term_at-take :
      (k j : ℕ) (log : List (LogEntry Command)) → j < k → term_at (take k log) j ≡ term_at log j
  term_at-take zero j log h = elim h [ ]
  term_at-take (suc k) j [] h = refl
  term_at-take (suc k) zero (x ∷ log) h = refl
  term_at-take (suc k) (suc j) (x ∷ log) h = term_at-take k j log (omega arith)

  term_at-append :
      (log more : List (LogEntry Command)) (j : ℕ)
      → j < length log
      → term_at (log ++ more) j ≡ term_at log j
  term_at-append [] more j h = elim h [ ]
  term_at-append (x ∷ log) more zero h = refl
  term_at-append (x ∷ log) more (suc j) h = term_at-append log more j (omega arith)

  term_at-end :
      (log more : List (LogEntry Command)) (e : LogEntry Command)
      → term_at (log ++ e ∷ more) (length log) ≡ e.term
  term_at-end [] more e = refl
  term_at-end (x ∷ log) more e = term_at-end log more e

  within-beyond :
      (es log : List (LogEntry Command)) (j : ℕ) → length log ≤ j → AgreesWithin es log j
  within-beyond [] log j h = tt
  within-beyond (e ∷ es) log j h = inl h

  conflict_none :
      (es log : List (LogEntry Command)) (j : ℕ)
      → find_conflict es log j ≡ none
      → AgreesWithin es log j
  unfolding find_conflict
  conflict_none [] log j h = tt
  conflict_none (e ∷ es) log j h = elim (Bool-cases (leb (length log) j)) [
    | inl beyond ↦ inl (ground arith)
    | inr inside ↦ inr (ground arith, conflict_none es log (j + 1) (ground arith))
  ]

  -- The conflict found lies within the log, and all before it agrees.
  conflict_some :
      (es log : List (LogEntry Command)) (j k : ℕ)
      → find_conflict es log j ≡ some k
      → (j ≤ k) × (k < length log) × AgreesWithin es (take k log) j
  unfolding find_conflict
  conflict_some [] log j k h = cc
  conflict_some (e ∷ es) log j k h = elim (Bool-cases (leb (length log) j)) [
    | inl beyond ↦ cc (rw (beyond, find_conflict) at h)
    | inr inside ↦ elim (Bool-cases (e.term == term_at log j)) [
      | inl same ↦
          let (le, lt, rest) = conflict_some es log (j + 1) k (ground arith) in
          (omega arith, lt, inr (ground (arith, term_at-take k j log (omega arith)), rest))
      | inr differs ↦
          let at : j ≡ k = ground arith in
          (omega arith, ground arith, inl (omega (arith, length-take k log (ground arith))))
    ]
  ]

  extend_grows :
      (at : ℕ) (e : LogEntry Command) (es log : List (LogEntry Command)) (changed : Bool)
      → leb (length log) at ≡ true
      → extend at (e ∷ es) log changed ≡ extend (at + 1) es (log ++ e ∷ []) true
  unfolding extend
  extend_grows at e es log changed h = rw (h, extend)

  extend_stays :
      (at : ℕ) (e : LogEntry Command) (es log : List (LogEntry Command)) (changed : Bool)
      → leb (length log) at ≡ false
      → extend at (e ∷ es) log changed ≡ extend (at + 1) es log changed
  unfolding extend
  extend_stays at e es log changed h = rw (h, extend)

  extend_keeps :
      (at : ℕ) (es log : List (LogEntry Command)) (changed : Bool) (j : ℕ)
      → j < length log
      → (length log ≤ length (extend at es log changed).0)
        × (term_at (extend at es log changed).0 j ≡ term_at log j)
        × (get_elem? (extend at es log changed).0 j ≡ get_elem? log j)
  unfolding extend
  extend_keeps at [] log changed j h = (omega arith, refl, refl)
  extend_keeps at (e ∷ es) log changed j h = elim (Bool-cases (leb (length log) at)) [
    | inl grows ↦
        let longer : length (log ++ e ∷ []) ≡ length log + 1 = length-append log (e ∷ []) in
        let (le, t, g) = extend_keeps (at + 1) es (log ++ e ∷ []) true j (omega (arith, longer)) in
        rw (extend_grows at e es log changed grows) (
          omega (arith, longer, le),
          t ∙ term_at-append log (e ∷ []) j h,
          g ∙ get_elem?-append_lt log (e ∷ []) j h,
        )
    | inr stays ↦
        rw (extend_stays at e es log changed stays) (extend_keeps (at + 1) es log changed j h)
  ]

  extend-Agrees :
      (at : ℕ) (es log : List (LogEntry Command)) (changed : Bool)
      → at ≤ length log
      → AgreesWithin es log at
      → Agrees es (extend at es log changed).0 at
  unfolding extend
  extend-Agrees at [] log changed h w = tt
  extend-Agrees at (e ∷ es) log changed h w = elim (Bool-cases (leb (length log) at)) [
    | inl grows ↦
        let longer : length (log ++ e ∷ []) ≡ length log + 1 = length-append log (e ∷ []) in
        let end : at ≡ length log = ground arith in
        let (le, t, g) =
          extend_keeps (at + 1) es (log ++ e ∷ []) true at (omega (arith, longer, end)) in
        rw (extend_grows at e es log changed grows) (
          omega (arith, longer, end, le),
          t ∙ ap (term_at (log ++ e ∷ [])) end ∙ term_at-end log [] e,
          extend-Agrees (at + 1) es (log ++ e ∷ []) true (omega (arith, longer, end))
              (within-beyond es (log ++ e ∷ []) (at + 1) (omega (arith, longer, end))),
        )
    | inr stays ↦ elim w [
      | inl beyond ↦ absurd (ground arith)
      | inr (same, rest) ↦
          let (le, t, g) = extend_keeps (at + 1) es log changed at (ground arith) in
          rw (extend_stays at e es log changed stays) (
            ground (arith, le),
            t ∙ same,
            extend-Agrees (at + 1) es log changed (ground arith) rest,
          )
    ]
  ]

  extend_end :
      (at : ℕ) (es log : List (LogEntry Command)) (changed : Bool)
      → at ≡ length log
      → (extend at es log changed).0 ≡ log ++ es
  unfolding extend
  extend_end at [] log changed h = sym (append-nil log)
  extend_end at (e ∷ es) log changed h =
      let grows : leb (length log) at ≡ true = ground arith in
      rw (extend_grows at e es log changed grows) (
        extend_end (at + 1) es (log ++ e ∷ []) true (omega (arith, length-append log (e ∷ [])))
        ∙ append_assoc log (e ∷ []) es)

  append_new-extend :
      (start : ℕ) (es log : List (LogEntry Command)) (changed : Bool)
      → start ≤ length log
      → (append_new start es log changed).0 ≡ (extend start es log changed).0
  unfolding append_new
  append_new-extend start es log changed h = elim (Bool-cases (leb (length log) start)) [
    | inl end ↦ rw end (sym (extend_end start es log changed (ground arith)))
    | inr inside ↦ rw inside
  ]

  -- The log after the cut: long enough, agreeing as far as it goes, and a prefix of what it was.
  cut_facts :
      (es log : List (LogEntry Command)) (real j : ℕ)
      → real < length log
      → j ≤ real
      → let log1 = (cut_conflict es log (real + 1)).0 in
        (real + 1 ≤ length log1)
        × AgreesWithin es log1 (real + 1)
        × (get_elem? log1 j ≡ get_elem? log j)
  unfolding cut_conflict
  cut_facts es log real j h le = elim (Option-cases (find_conflict es log (real + 1))) [
    | inl q ↦ rw (q, cut_conflict) (omega arith, conflict_none es log (real + 1) q, refl)
    | inr (k, q) ↦
        let (start, lt, w) = conflict_some es log (real + 1) k q in
        rw (q, cut_conflict)
          (
            omega (arith, length-take k log (omega arith)),
            w,
            get_elem?-take_lt k log j (omega arith),
          )
  ]

  merge-extend :
      (real : ℕ) (es log : List (LogEntry Command))
      → real < length log
      → (merge real es log).0
        ≡ (extend
            (real + 1)
            es
            (cut_conflict es log (real + 1)).0
            (cut_conflict es log (real + 1)).1).0
  unfolding merge
  merge-extend real es log h =
      append_new-extend (real + 1) es (cut_conflict es log (real + 1)).0
        (cut_conflict es log (real + 1)).1 (cut_facts es log real 0 h (omega arith)).0

  pub merge-Agrees :
      (real : ℕ) (es log : List (LogEntry Command))
      → real < length log
      → Agrees es (merge real es log).0 (real + 1)
  merge-Agrees real es log h =
      let (long, w, same) = cut_facts es log real 0 h (omega arith) in
      rw (merge-extend real es log h)
        (extend-Agrees (real + 1) es (cut_conflict es log (real + 1)).0 _ long w)

  pub merge_keeps :
      (real : ℕ) (es log : List (LogEntry Command)) (j : ℕ)
      → real < length log
      → j ≤ real
      → get_elem? (merge real es log).0 j ≡ get_elem? log j
  merge_keeps real es log j h le =
      let (long, w, same) = cut_facts es log real j h le in
      rw (merge-extend real es log h) (
        (extend_keeps (real + 1) es (cut_conflict es log (real + 1)).0 _ j (omega (arith, long))).2
        ∙ same)

  agreeing_no_conflict :
      (es log : List (LogEntry Command)) (j : ℕ) → Agrees es log j → find_conflict es log j ≡ none
  unfolding find_conflict
  agreeing_no_conflict [] log j a = refl
  agreeing_no_conflict (e ∷ es) log j a = ground (arith, agreeing_no_conflict es log (j + 1) a.2)

  agreeing_extend :
      (es log : List (LogEntry Command)) (j : ℕ) (changed : Bool)
      → Agrees es log j
      → extend j es log changed ≡ (log, changed)
  unfolding extend
  agreeing_extend [] log j changed a = refl
  agreeing_extend (e ∷ es) log j changed a =
      extend_stays j e es log changed (ground arith) ∙ agreeing_extend es log (j + 1) changed a.2

  -- Entries whose terms the log has already, from the place after prevLogIndex on, leave the log
  -- as it is, so that a repeated or late AppendEntries cuts nothing off.
  pub merge_agreeing :
      (real : ℕ) (es log : List (LogEntry Command))
      → real < length log
      → Agrees es log (real + 1)
      → (merge real es log).0 ≡ log
  unfolding cut_conflict
  merge_agreeing real es log h a =
      let q = agreeing_no_conflict es log (real + 1) a in
      merge-extend real es log h
      ∙ ap (λ (o : Option ℕ). (extend (real + 1) es (cut_at o log).0 (cut_at o log).1).0) q
      ∙ ap (λ (r : List (LogEntry Command) × Bool). r.0) (agreeing_extend es log (real + 1) false a)
