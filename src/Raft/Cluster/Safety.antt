-- ===== src/Raft/Cluster/Safety.antt =====
-- src/raft/raft.go: at most one leader in each term, whatever the peers of a cluster do and in
-- whatever order.
use sharded_kv.Prelude.{
  ℕ, ◌≡◌, refl, sym, ◌∙◌, inl, inr, true, false, some, ◌==◌, Bool-cases, ==_iff, arith,
}
use mathlib.Core.Option.{some_inj}
use sharded_kv.Raft.State.{is_leader}
use sharded_kv.Raft.Peer.{fresh, step}
use sharded_kv.Raft.Cluster.{
  Cluster, Step, Reaches, do_vote, started_cluster, internal, ticks, votes, counts, crashes, here,
  then_step,
}
use sharded_kv.Raft.Cluster.Tally.{tally_disjoint}
use sharded_kv.Raft.Cluster.Invariant.{IsSound, IsElected, moved-ballots, quiet-IsSound}
use sharded_kv.Raft.Cluster.Votes.{
  vote_row, vote_row_kept, internal-IsQuiet, crash-IsQuiet, vote-IsSound,
}
use sharded_kv.Raft.Cluster.Ticks.{tick-IsSound, tick_elected}
use sharded_kv.Raft.Cluster.Counts.{count-IsSound, count_elected}

module _ {Command Blob : Type 0} (n : ℕ) (nil : Blob) where
  pub started-IsSound : IsSound {Command = Command} n (started_cluster n nil)
  unfolding fresh
  started-IsSound = record {
    members = λ i. record {
      is_me = refl;
      all_peers = refl;
      durable = refl;
      own_vote = inl refl;
      settled = λ T c b. absurd (ground arith);
      counted_terms = λ T p e. absurd (ground arith);
      standing = λ e. absurd (ground arith);
      leading = λ e. absurd (ground arith);
    };
    requested = λ args m. elim m [ ];
    answered = λ a m. elim m [ ];
    counted_ballots = λ c T p e. absurd (ground arith);
  }

  pub Step-IsSound : {s s' : Cluster Command Blob} → Step n nil s s' → IsSound n s → IsSound n s'
  Step-IsSound {s} (internal i e is lt) h =
      let m = h.members i in
      quiet-IsSound n i (step e (s.peer i)) s h
        (internal-IsQuiet n e (s.peer i) is m.durable m.own_vote)
  Step-IsSound {s} (ticks i expired lt) h = tick-IsSound n i expired s h lt
  Step-IsSound {s} (votes p args asked lt other) h = vote-IsSound n p args s h asked lt other
  Step-IsSound {s} (counts a answers new) h = count-IsSound n a s h answers new
  Step-IsSound {s} (crashes i lt) h =
      let m = h.members i in
      quiet-IsSound n i _ s h (crash-IsQuiet n i nil (s.peer i) m.is_me m.all_peers m.durable)

  pub Reaches-IsSound :
      {s s' : Cluster Command Blob} → Reaches n nil s s' → IsSound n s → IsSound n s'
  Reaches-IsSound here h = h
  Reaches-IsSound (then_step r t) h = Step-IsSound t (Reaches-IsSound r h)

  -- Whoever has been elected in a term stays so.
  elected_after :
      {s s' : Cluster Command Blob} (c T : ℕ)
      → Step n nil s s'
      → IsSound n s
      → IsElected n (s.ballots c) (s.counted c) c T
      → IsElected n (s'.ballots c) (s'.counted c) c T
  unfolding do_vote
  elected_after c T (internal i e is lt) h elected = elected
  elected_after {s} c T (ticks i expired lt) h elected = tick_elected n i expired s h c T elected
  elected_after {s} c T (votes p args asked lt other) h (own, most) =
      (moved-ballots p (vote_row n p args s) s.ballots (vote_row_kept n p args s h) c T c own, most)
  elected_after {s} c T (counts a answers new) h elected =
      count_elected n a s h answers new c T elected
  elected_after c T (crashes i lt) h elected = elected

  elected_later :
      {s s' : Cluster Command Blob} (c T : ℕ)
      → Reaches n nil s s'
      → IsSound n s
      → IsElected n (s.ballots c) (s.counted c) c T
      → IsElected n (s'.ballots c) (s'.counted c) c T
  elected_later c T here h elected = elected
  elected_later c T (then_step r t) h elected =
      elected_after c T t (Reaches-IsSound r h) (elected_later c T r h elected)

  -- Every vote in the count of a peer that has been elected is settled on it.
  elected_ballots :
      (s : Cluster Command Blob) (c T p : ℕ)
      → IsSound n s
      → IsElected n (s.ballots c) (s.counted c) c T
      → s.counted c T p ≡ true
      → s.ballots p T ≡ some c
  elected_ballots s c T p h (own, most) e = elim (h.counted_ballots c T p e) [
    | inl same ↦ rw same own
    | inr settled ↦ settled
  ]

  elected_once :
      (s : Cluster Command Blob) (c c' T : ℕ)
      → IsSound n s
      → IsElected n (s.ballots c) (s.counted c) c T
      → IsElected n (s.ballots c') (s.counted c') c' T
      → c ≡ c'
  elected_once s c c' T h first second = elim (Bool-cases (c == c')) [
    | inl e ↦ (==_iff c c').0 e
    | inr e ↦ absurd (
        let apart : (p : ℕ) → s.counted c T p ≡ true → s.counted c' T p ≡ false = λ p yes_c.
          elim (Bool-cases (s.counted c' T p)) [
            | inl both ↦ absurd (
                let same = some_inj.0 (
                  sym (elected_ballots s c T p h first yes_c)
                  ∙ elected_ballots s c' T p h second both) in
                ground arith)
            | inr none_c ↦ none_c
          ] in
        omega (arith, first.1, second.1, tally_disjoint n (s.counted c T) (s.counted c' T) apart))
  ]

  -- In a cluster that starts with nothing saved, let peer c lead in one state, and peer c' in a
  -- state that comes later or is the same, both in the same term. Then they are one peer, whatever
  -- the peers do in between and in whatever order: any calls of all handlers with any arguments,
  -- crashes and restarts, and requests for votes and answers that are lost, late or handled twice,
  -- provided that requests and answers were really sent and that a candidate counts one answer of a
  -- peer in a term.
  pub one_leader_per_term :
      (s s' : Cluster Command Blob) (c c' : ℕ)
      → Reaches n nil (started_cluster n nil) s
      → Reaches n nil s s'
      → is_leader (s.peer c).role ≡ true
      → is_leader (s'.peer c').role ≡ true
      → (s.peer c).current_term ≡ (s'.peer c').current_term
      → c ≡ c'
  one_leader_per_term s s' c c' past later leads leads' same =
      let h = Reaches-IsSound past started-IsSound in
      let h' = Reaches-IsSound later h in
      let T = (s.peer c).current_term in
      elected_once s' c c' T h' (elected_later c T later h ((h.members c).leading leads))
        (rw same ((h'.members c').leading leads'))
