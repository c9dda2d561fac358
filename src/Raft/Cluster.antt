-- ===== src/Raft/Cluster.antt =====
-- src/raft/raft.go: all peers of a Raft cluster, what is on the network between them, and the
-- steps that they take in any order.
pub mod Calm
pub mod Tally
pub mod Invariant
pub mod Safety
pub mod Alone
pub mod Votes
pub mod Counts
pub mod Marks
pub mod Tests
pub mod Ticks
use sharded_kv.Prelude.{
  ℕ, ◌<◌, ◌≡◌, ◌≢◌, Bool, true, false, Option, none, some, List, [], ◌∷◌, ◌++◌, ◌==◌, ◌&&◌, not,
  if◌then◌else◌,
}
use mathlib.Core.List.{Memᴰ}
use sharded_kv.Raft.State.{Raft, is_leader}
use sharded_kv.Raft.Vote.{RequestVoteArgs, RequestVoteReply, request_vote, tick, receive_vote}
use sharded_kv.Raft.Peer.{
  Event, step, fresh, make, vote_requested, append_requested, install_requested, snapshot_offered,
  snapshot_taken, started, ticked, vote_received, prepared, append_answered, install_answered,
  applied,
}

-- The function that is `v` at `i` and `f` elsewhere.
abbrev pub at {ℓ} : {A : Type ℓ} → ℕ → A → (ℕ → A) → ℕ → A
at i v f j = if j == i then v else f j

-- An answer to a request for a vote, with the peer that gave it.
pub record Answer : Type 0 where
  pub voter : ℕ
  pub args : RequestVoteArgs
  pub reply : RequestVoteReply

-- `requests` and `answers` are all that were ever sent. The last two fields are no state of the
-- code but a record of the past: `ballots p T` is the candidate that peer p has settled on in term
-- T, and `counted c T p` tells that peer c has p's vote in its count for term T.
pub record Cluster (Command Blob : Type 0) : Type 0 where
  pub peer : ℕ → Raft Command Blob
  pub requests : List RequestVoteArgs
  pub answers : List Answer
  pub ballots : ℕ → ℕ → Option ℕ
  pub counted : ℕ → ℕ → ℕ → Bool

-- The events that have nothing to do with votes, and a call for a vote that fails.
abbrev pub is_internal : {Command Blob : Type 0} → Event Command Blob → Bool
is_internal (vote_requested args) = false
is_internal (append_requested args) = true
is_internal (install_requested args) = true
is_internal (snapshot_offered term index blob) = true
is_internal (snapshot_taken index blob) = true
is_internal (started killed command) = true
is_internal (ticked expired) = false
is_internal (vote_received args true reply) = false
is_internal (vote_received args false reply) = true
is_internal (prepared peer) = true
is_internal (append_answered peer args ok reply) = true
is_internal (install_answered peer args ok term) = true
is_internal (applied upto) = true

module _ {Command Blob : Type 0} where
  abbrev pub with_peer : ℕ → Raft Command Blob → Cluster Command Blob → Cluster Command Blob
  with_peer i rf s = record s { peer = at i rf s.peer }

  -- The goroutine of the ticker: its request, if it stands for election, goes to every other peer,
  -- and its own vote is counted.
  abbrev pub tick_sent : ℕ → Option RequestVoteArgs → Cluster Command Blob → Cluster Command Blob
  tick_sent i none s = s
  tick_sent i (some args) s = record s {
    requests = args ∷ s.requests;
    counted = at i (at args.term (λ p. p == i) (s.counted i)) s.counted;
  }

  unfoldable pub do_tick : ℕ → Bool → Cluster Command Blob → Cluster Command Blob
  do_tick i expired s =
      let (rf, request) = tick expired (s.peer i) in tick_sent i request (with_peer i rf s)

  -- `p` handles a request for a vote, and its answer is on the way.
  unfoldable pub do_vote : ℕ → RequestVoteArgs → Cluster Command Blob → Cluster Command Blob
  do_vote p args s =
      let (rf, reply) = request_vote args (s.peer p) in
      record (with_peer p rf s) {
        answers = record { voter = p; args = args; reply = reply } ∷ s.answers;
        ballots =
            at p
              (if reply.vote_granted
                then at args.term (some args.candidate_id) (s.ballots p)
                else s.ballots p)
              s.ballots;
      }

  -- The candidate handles an answer; that it now leads settles its own vote.
  unfoldable pub do_count : Answer → Cluster Command Blob → Cluster Command Blob
  do_count a s =
      let c = a.args.candidate_id in
      let rf = receive_vote a.args true a.reply (s.peer c) in
      record (with_peer c rf s) {
        counted =
            at c
              (if a.reply.vote_granted
                then at a.args.term (at a.voter true (s.counted c a.args.term)) (s.counted c)
                else s.counted c)
              s.counted;
        ballots =
            at c
              (if is_leader rf.role && not (is_leader (s.peer c).role)
                then at rf.current_term (some c) (s.ballots c)
                else s.ballots c)
              s.ballots;
      }

module _ {Command Blob : Type 0} (n : ℕ) (nil : Blob) where
  -- All peers made without a persisted state, and nothing sent.
  abbrev pub started_cluster : Cluster Command Blob
  started_cluster = record {
    peer = λ i. fresh i n nil;
    requests = [];
    answers = [];
    ballots = λ p T. none;
    counted = λ c T p. false;
  }

  -- A step of one peer. A request goes only to the other peers, and the goroutine of a candidate
  -- for one peer counts at most one answer of it.
  pub data Step (s : Cluster Command Blob) : Cluster Command Blob → Type 0 where
    internal :
        (i : ℕ) (e : Event Command Blob)
        → is_internal e ≡ true
        → i < n
        → Step s (with_peer i (step e (s.peer i)) s)
    ticks : (i : ℕ) (expired : Bool) → i < n → Step s (do_tick i expired s)
    votes :
        (p : ℕ) (args : RequestVoteArgs)
        → Memᴰ args s.requests
        → p < n
        → p ≢ args.candidate_id
        → Step s (do_vote p args s)
    counts :
        (a : Answer)
        → Memᴰ a s.answers
        → s.counted a.args.candidate_id a.args.term a.voter ≡ false
        → Step s (do_count a s)
    crashes :
        (i : ℕ)
        → i < n
        → Step s (with_peer i (make i n nil (s.peer i).stored (s.peer i).stored_snapshot) s)

  -- What a cluster may be after any steps.
  pub data Reaches (s : Cluster Command Blob) : Cluster Command Blob → Type 0 where
    here : Reaches s s
    then_step : {s' s'' : Cluster Command Blob} → Reaches s s' → Step s' s'' → Reaches s s''
