-- ===== src/Raft/Cluster/Votes.antt =====
-- src/raft/raft.go: every step of a cluster, and what is sound of it.
use sharded_kv.Prelude.{
  ℕ, ◌<◌, ◌≡◌, ◌≢◌, refl, ◌⊎◌, inl, inr, Bool, true, Option, some, if◌then◌else◌, Bool-cases, arith,
  ◌∙◌, subst, List, ◌∷◌, ap, sym,
}
use mathlib.Core.List.{Memᴰ}
use mathlib.Core.Option.{some_inj}
use sharded_kv.Raft.State.{Raft, Persisted, restore, persist, follower_state}
use sharded_kv.Raft.Vote.{RequestVoteArgs, request_vote, catch_up}
use sharded_kv.Raft.Peer.{Event, step, fresh, make, vote_requested}
use sharded_kv.Raft.Peer.Durable.{IsDurable, step-IsDurable}
use sharded_kv.Raft.Peer.Held.{IsHeld, step-IsHeld}
use sharded_kv.Raft.Peer.OwnVote.{HasOwnVote, step-HasOwnVote}
use sharded_kv.Raft.Elections.{Grants, request_vote-IsHeld_after, granted_if_held}
use sharded_kv.Raft.Cluster.{Cluster, Answer, at, do_vote, is_internal}
use sharded_kv.Raft.Cluster.Calm.{step-IsCalm, crash-IsCalm, request_vote-IsCalm}
use sharded_kv.Raft.Cluster.Tally.{at-elim, at_self, at-same}
use sharded_kv.Raft.Cluster.Invariant.{
  IsMember, IsSound, IsAnswered, IsQuiet, quiet-IsMember, moved-IsSound, moved,
}

pub new_or_old :
    {A : Type 0} {P : A → Type 0} (Q : A → Type 0) {b : A} {l : List A}
    → Q b
    → ((a : A) → Memᴰ a l → P a)
    → (a : A) → Memᴰ a (b ∷ l)
    → P a ⊎ Q a
new_or_old Q new old a (Memᴰ.head e) = inr (subst Q (sym e) new)
new_or_old Q new old a (Memᴰ.tail m) = inl (old a m)

module _ {Command Blob : Type 0} (n : ℕ) where
  pub internal-IsQuiet :
      (e : Event Command Blob) (rf : Raft Command Blob)
      → is_internal e ≡ true
      → IsDurable rf
      → HasOwnVote rf
      → IsQuiet n rf (step e rf)
  internal-IsQuiet e rf is durable own = record {
    calm = step-IsCalm e rf is;
    durable = step-IsDurable e rf durable;
    own_vote = step-HasOwnVote e rf own;
    held = λ T c. step-IsHeld T c e rf;
  }

  request_vote-IsQuiet :
      (args : RequestVoteArgs) (rf : Raft Command Blob)
      → IsDurable rf
      → HasOwnVote rf
      → IsQuiet n rf (request_vote args rf).0
  unfolding step
  request_vote-IsQuiet args rf durable own = record {
    calm = request_vote-IsCalm args rf;
    durable = step-IsDurable (vote_requested args) rf durable;
    own_vote = step-HasOwnVote (vote_requested args) rf own;
    held = λ T c. step-IsHeld T c (vote_requested args) rf;
  }

  pub crash-IsQuiet :
      (i : ℕ) (nil : Blob) (rf : Raft Command Blob)
      → rf.me ≡ i
      → rf.peers ≡ n
      → IsDurable rf
      → IsQuiet n rf (make i n nil rf.stored rf.stored_snapshot)
  unfolding make restore fresh
  crash-IsQuiet i nil rf is_me all_peers durable = record {
    calm = crash-IsCalm i n nil rf is_me all_peers durable;
    durable = refl;
    own_vote = inl refl;
    held = λ T c h. ground (
      arith,
      ap (λ (p : Persisted Command). p.current_term) durable,
      ap (λ (p : Persisted Command). p.voted_for) durable,
    );
  }

  pub settle-IsMember :
      {ballots : ℕ → Option ℕ} {counted : ℕ → ℕ → Bool} {i : ℕ} {rf : Raft Command Blob} (T c : ℕ)
      → ((U d : ℕ) → ballots U ≡ some d → at T (some c) ballots U ≡ some d)
      → IsHeld T c rf
      → IsMember n ballots counted i rf
      → IsMember n (at T (some c) ballots) counted i rf
  settle-IsMember {ballots} {rf} T c kept held m = record {
    is_me = m.is_me;
    all_peers = m.all_peers;
    durable = m.durable;
    own_vote = m.own_vote;
    settled =
        at-elim (λ U (b : Option ℕ). (d : ℕ) → b ≡ some d → IsHeld U d rf) T {f = ballots}
          (λ d e. subst (λ d. IsHeld T d rf) (some_inj.0 e) held) m.settled;
    counted_terms = m.counted_terms;
    standing = m.standing;
    leading = λ leads. let (own, most) = m.leading leads in (kept _ _ own, most);
  }

  abbrev answer : ℕ → RequestVoteArgs → Cluster Command Blob → Answer
  answer p args s = record { voter = p; args = args; reply = (request_vote args (s.peer p)).1 }

  -- The answer to a request, if it grants the vote, tells what the voter has settled on.
  answer-IsAnswered :
      (p : ℕ) (args : RequestVoteArgs) (s s' : Cluster Command Blob)
      → Memᴰ args s'.requests
      → p < n
      → p ≢ args.candidate_id
      → (Grants args (s.peer p) → s'.ballots p args.term ≡ some args.candidate_id)
      → IsAnswered n s' (answer p args s)
  unfolding request_vote catch_up follower_state persist
  answer-IsAnswered p args s s' asked lt other settles =
      (asked, lt, other, λ grants. (ground arith, settles grants))

  -- What the voter has settled on after it has answered.
  abbrev pub vote_row : ℕ → RequestVoteArgs → Cluster Command Blob → ℕ → Option ℕ
  vote_row p args s =
      if (request_vote args (s.peer p)).1.vote_granted
      then at args.term (some args.candidate_id) (s.ballots p)
      else s.ballots p

  -- A vote that is granted changes no ballot that is settled.
  pub vote_row_kept :
      (p : ℕ) (args : RequestVoteArgs) (s : Cluster Command Blob)
      → IsSound n s
      → (T c : ℕ) → s.ballots p T ≡ some c
      → vote_row p args s T ≡ some c
  vote_row_kept p args s h T c b = elim (Bool-cases (request_vote args (s.peer p)).1.vote_granted) [
    | inl grants ↦ rw grants (
        at-elim (λ U (x : Option ℕ). s.ballots p U ≡ some c → x ≡ some c) args.term
          {f = s.ballots p}
          (λ b. ap some (
            granted_if_held args.term c args (s.peer p) ((h.members p).settled args.term c b) refl
              grants))
          (λ U b. b) T b)
    | inr refuses ↦ rw refuses b
  ]

  vote_row-IsMember :
      (p : ℕ) (args : RequestVoteArgs) (s : Cluster Command Blob)
      → IsSound n s
      → p ≢ args.candidate_id
      → IsMember n (vote_row p args s) (s.counted p) p (request_vote args (s.peer p)).0
  vote_row-IsMember p args s h other =
      let m = h.members p in
      let member = quiet-IsMember n (request_vote-IsQuiet args (s.peer p) m.durable m.own_vote) m in
      let kept = vote_row_kept p args s h in
      elim (Bool-cases (request_vote args (s.peer p)).1.vote_granted) [
        | inl grants ↦
            let held =
              request_vote-IsHeld_after args (s.peer p) m.own_vote (λ e. other (sym (e ∙ m.is_me)))
                grants in
            rw grants (settle-IsMember args.term args.candidate_id (rw grants at kept) held member)
        | inr refuses ↦ rw refuses member
      ]

  pub vote-IsSound :
      (p : ℕ) (args : RequestVoteArgs) (s : Cluster Command Blob)
      → IsSound n s
      → Memᴰ args s.requests
      → p < n
      → p ≢ args.candidate_id
      → IsSound n (do_vote p args s)
  unfolding do_vote
  vote-IsSound p args s h asked lt other =
      let rf = (request_vote args (s.peer p)).0 in
      let answers = answer p args s ∷ s.answers in
      let row = vote_row p args s in
      let s' = moved n p rf s.requests answers row (s.counted p) s in
      let settles : Grants args (s.peer p)
          → at p row s.ballots p args.term ≡ some args.candidate_id =
        λ grants.
          rw (at_self p row s.ballots, grants)
            (at_self args.term (some args.candidate_id) (s.ballots p)) in
      let sound =
        moved-IsSound n p rf s.requests answers row (s.counted p) s h
          (vote_row-IsMember p args s h other) (request_vote-IsCalm args (s.peer p)).term_mono
          (vote_row_kept p args s h) (λ a m. inl m) (λ a m. m)
          (new_or_old (IsAnswered n s') (answer-IsAnswered p args s s' asked lt other settles)
            (λ a m. m))
          (λ T q e. inl e) in
      rw (at-same p s.counted) at sound
