-- ===== src/Raft/Cluster/Invariant.antt =====
-- src/raft/raft.go: what holds of a cluster between any two steps.
use sharded_kv.Prelude.{
  ℕ, ◌*◌, ◌≤◌, ◌<◌, ◌≡◌, ◌≢◌, refl, ◌⊎◌, inl, inr, Bool, true, Option, some, ◌==◌, Bool-cases,
  arith, ◌∙◌, subst, List, ==_iff,
}
use mathlib.Core.List.{Memᴰ}
use sharded_kv.Raft.State.{Raft, is_candidate, is_leader}
use sharded_kv.Raft.Vote.{RequestVoteArgs}
use sharded_kv.Raft.Peer.Durable.{IsDurable}
use sharded_kv.Raft.Peer.Held.{IsHeld}
use sharded_kv.Raft.Peer.OwnVote.{HasOwnVote}
use sharded_kv.Raft.Cluster.{Cluster, Answer, at, with_peer}
use sharded_kv.Raft.Cluster.Calm.{IsCalm}
use sharded_kv.Raft.Cluster.Tally.{at-elim, tally}

module _ (n : ℕ) where
  -- A peer that has settled its own vote, and has counted more than half of all.
  abbrev pub IsElected : (ℕ → Option ℕ) → (ℕ → ℕ → Bool) → ℕ → ℕ → Type 0
  IsElected ballots counted i T = (ballots T ≡ some i) × (n < 2 * tally n (counted T))

pub moved-ballots :
    (i : ℕ) (row : ℕ → Option ℕ) (ballots : ℕ → ℕ → Option ℕ)
    → ((T c : ℕ) → ballots i T ≡ some c → row T ≡ some c)
    → (p T c : ℕ) → ballots p T ≡ some c
    → at i row ballots p T ≡ some c
moved-ballots i row ballots mono p T c =
    at-elim (λ j (r : ℕ → Option ℕ). ballots j T ≡ some c → r T ≡ some c) i {f = ballots} (mono T c)
      (λ j b. b) p

module _ {Command Blob : Type 0} (n : ℕ) where
  -- The state of peer `i` against the votes that it has settled and counted.
  pub record IsMember (ballots : ℕ → Option ℕ) (counted : ℕ → ℕ → Bool) (i : ℕ)
      (rf : Raft Command Blob) : Type 0 where
    pub is_me : rf.me ≡ i
    pub all_peers : rf.peers ≡ n
    pub durable : IsDurable rf
    pub own_vote : HasOwnVote rf
    pub settled : (T c : ℕ) → ballots T ≡ some c → IsHeld T c rf
    pub counted_terms : (T p : ℕ) → counted T p ≡ true → T ≤ rf.current_term
    pub standing :
        is_candidate rf.role ≡ true
        → (counted rf.current_term i ≡ true)
          × (rf.get_votes_num ≡ tally n (counted rf.current_term))
    pub leading : is_leader rf.role ≡ true → IsElected n ballots counted i rf.current_term

  abbrev pub IsAnswered : Cluster Command Blob → Answer → Type 0
  IsAnswered s a =
      Memᴰ a.args s.requests
      × (a.voter < n)
      × (a.voter ≢ a.args.candidate_id)
      × (a.reply.vote_granted ≡ true
          → (a.reply.term ≡ a.args.term)
            × (s.ballots a.voter a.args.term ≡ some a.args.candidate_id))

  -- What is counted is the candidate's own vote, or one that its voter has settled.
  abbrev pub IsBallot : Cluster Command Blob → ℕ → ℕ → ℕ → Type 0
  IsBallot s c T p = (p ≡ c) ⊎ (s.ballots p T ≡ some c)

  abbrev pub IsRequested : Cluster Command Blob → RequestVoteArgs → Type 0
  IsRequested s args =
      (args.candidate_id < n) × (args.term ≤ (s.peer args.candidate_id).current_term)

  pub record IsSound (s : Cluster Command Blob) : Type 0 where
    pub members : (i : ℕ) → IsMember (s.ballots i) (s.counted i) i (s.peer i)
    pub requested : (args : RequestVoteArgs) → Memᴰ args s.requests → IsRequested s args
    pub answered : (a : Answer) → Memᴰ a s.answers → IsAnswered s a
    pub counted_ballots : (c T p : ℕ) → s.counted c T p ≡ true → IsBallot s c T p

  -- What a step of a peer leaves of the peer's place in the cluster, if nothing else changes.
  pub record IsQuiet (rf rf' : Raft Command Blob) : Type 0 where
    pub calm : IsCalm rf rf'
    pub durable : IsDurable rf'
    pub own_vote : HasOwnVote rf'
    pub held : (T c : ℕ) → IsHeld T c rf → IsHeld T c rf'

  pub quiet-IsMember :
      {ballots : ℕ → Option ℕ} {counted : ℕ → ℕ → Bool} {i : ℕ} {rf rf' : Raft Command Blob}
      → IsQuiet rf rf'
      → IsMember ballots counted i rf
      → IsMember ballots counted i rf'
  quiet-IsMember quiet m = record {
    is_me = quiet.calm.same_me ∙ m.is_me;
    all_peers = quiet.calm.same_peers ∙ m.all_peers;
    durable = quiet.durable;
    own_vote = quiet.own_vote;
    settled = λ T c b. quiet.held T c (m.settled T c b);
    counted_terms = λ T p e. omega (arith, m.counted_terms T p e, quiet.calm.term_mono);
    standing = λ stands.
        let (was, same, votes) = quiet.calm.was_candidate stands in
        rw (same, votes) (m.standing was);
    leading = λ leads. let (was, same) = quiet.calm.was_leader leads in rw same (m.leading was);
  }

  -- One peer has moved: its state, the votes that it has settled and counted, and what it sends.
  abbrev pub moved :
      ℕ
      → Raft Command Blob
      → List RequestVoteArgs
      → List Answer
      → (ℕ → Option ℕ)
      → (ℕ → ℕ → Bool)
      → Cluster Command Blob
      → Cluster Command Blob
  moved i rf requests answers ballots counted s = record {
    peer = at i rf s.peer;
    requests = requests;
    answers = answers;
    ballots = at i ballots s.ballots;
    counted = at i counted s.counted;
  }

  IsRequested-after :
      (i : ℕ) (rf : Raft Command Blob) (s : Cluster Command Blob) (args : RequestVoteArgs)
      → (s.peer i).current_term ≤ rf.current_term
      → IsRequested s args
      → IsRequested (with_peer i rf s) args
  IsRequested-after i rf s args mono (lt, le) =
      let at_most : (j : ℕ) → args.candidate_id ≡ j → args.term ≤ (s.peer j).current_term =
        λ j e. subst (λ j. args.term ≤ (s.peer j).current_term) e le in
      (
        lt,
        at-elim (λ j (r : Raft Command Blob). args.candidate_id ≡ j → args.term ≤ r.current_term) i
            {f = s.peer} (λ e. omega (arith, at_most i e, mono)) at_most args.candidate_id refl,
      )

  pub moved-IsSound :
      (i : ℕ) (rf : Raft Command Blob) (requests : List RequestVoteArgs) (answers : List Answer)
      (ballots : ℕ → Option ℕ) (counted : ℕ → ℕ → Bool) (s : Cluster Command Blob)
      → let s' = moved i rf requests answers ballots counted s in
        IsSound s
        → IsMember ballots counted i rf
        → (s.peer i).current_term ≤ rf.current_term
        → ((T c : ℕ) → s.ballots i T ≡ some c → ballots T ≡ some c)
        → ((args : RequestVoteArgs)
            → Memᴰ args requests
            → Memᴰ args s.requests ⊎ IsRequested s' args)
        → ((args : RequestVoteArgs) → Memᴰ args s.requests → Memᴰ args requests)
        → ((a : Answer) → Memᴰ a answers → Memᴰ a s.answers ⊎ IsAnswered s' a)
        → ((T p : ℕ) → counted T p ≡ true → (s.counted i T p ≡ true) ⊎ IsBallot s' i T p)
        → IsSound s'
  moved-IsSound i rf requests answers ballots counted s h member mono kept asks keeps answer
        counts =
      let s' = moved i rf requests answers ballots counted s in
      let later = moved-ballots i ballots s.ballots kept in
      let old : (c T p : ℕ) → s.counted c T p ≡ true → IsBallot s' c T p = λ c T p e.
        elim (h.counted_ballots c T p e) [
          | inl own ↦ inl own
          | inr settled ↦ inr (later p T c settled)
        ] in
      record {
        members = λ j. elim (Bool-cases (j == i)) [
          | inl e ↦ let same = (==_iff j i).0 e in rw (e, same) member
          | inr e ↦ rw e (h.members j)
        ];
        requested = λ args m. elim (asks args m) [
          | inl old ↦ IsRequested-after i rf s args mono (h.requested args old)
          | inr new ↦ new
        ];
        answered = λ a m. elim (answer a m) [
          | inl old ↦
              let (asked, lt, other, granted) = h.answered a old in
              (
                keeps a.args asked,
                lt,
                other,
                λ g.
                    let (same, settled) = granted g in
                    (same, later a.voter a.args.term a.args.candidate_id settled),
              )
          | inr new ↦ new
        ];
        counted_ballots =
            at-elim (λ c (row : ℕ → ℕ → Bool). (T p : ℕ) → row T p ≡ true → IsBallot s' c T p) i
              {f = s.counted}
              (λ T p e. elim (counts T p e) [ inl was ↦ old i T p was | inr new ↦ new ]) old;
      }

  pub quiet-IsSound :
      (i : ℕ) (rf : Raft Command Blob) (s : Cluster Command Blob)
      → IsSound s
      → IsQuiet (s.peer i) rf
      → IsSound (with_peer i rf s)
  quiet-IsSound i rf s h quiet = record {
    members =
        at-elim (λ j (r : Raft Command Blob). IsMember (s.ballots j) (s.counted j) j r) i
          {f = s.peer} (quiet-IsMember quiet (h.members i)) h.members;
    requested = λ args m. IsRequested-after i rf s args quiet.calm.term_mono (h.requested args m);
    answered = h.answered;
    counted_ballots = h.counted_ballots;
  }
