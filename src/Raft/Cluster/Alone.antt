-- ===== src/Raft/Cluster/Alone.antt =====
-- src/raft/raft.go: a cluster of one peer.
use sharded_kv.Prelude.{ℕ, ◌≡◌, refl, inl, inr, false, not, ◌||◌, Bool-cases, arith}
use sharded_kv.Raft.State.{Raft, is_leader, candidate_state, persist}
use sharded_kv.Raft.Vote.{tick}
use sharded_kv.Raft.Peer.{fresh, step}
use sharded_kv.Raft.Cluster.{
  Cluster, Step, Reaches, at, do_tick, do_vote, started_cluster, internal, ticks, votes, counts,
  crashes, here, then_step,
}
use sharded_kv.Raft.Cluster.Tally.{at-elim}
use sharded_kv.Raft.Cluster.Invariant.{IsSound}
use sharded_kv.Raft.Cluster.Calm.{IsCalm, step-IsCalm, request_vote-IsCalm, crash-IsCalm}
use sharded_kv.Raft.Cluster.Safety.{Reaches-IsSound, started-IsSound}

module _ {Command Blob : Type 0} (nil : Blob) where
  abbrev HasNoLeader : Cluster Command Blob → Type 0
  HasNoLeader s = (i : ℕ) → is_leader (s.peer i).role ≡ false

  calm_stays :
      (rf rf' : Raft Command Blob)
      → IsCalm rf rf'
      → is_leader rf.role ≡ false
      → is_leader rf'.role ≡ false
  calm_stays rf rf' calm no_leader = elim (Bool-cases (is_leader rf'.role)) [
    | inl leads ↦ let was = calm.was_leader leads in ground arith
    | inr still ↦ still
  ]

  moved_stays :
      (i : ℕ) (rf : Raft Command Blob) (s : Cluster Command Blob)
      → HasNoLeader s
      → IsCalm (s.peer i) rf
      → (j : ℕ) → is_leader (at i rf s.peer j).role ≡ false
  moved_stays i rf s h calm =
      at-elim (λ j (r : Raft Command Blob). is_leader r.role ≡ false) i {f = s.peer}
        (calm_stays (s.peer i) rf calm (h i)) h

  Step-HasNoLeader :
      {s s' : Cluster Command Blob} → Step 1 nil s s' → IsSound 1 s → HasNoLeader s → HasNoLeader s'
  unfolding do_vote do_tick tick candidate_state persist
  Step-HasNoLeader {s} (internal i e is lt) sound h =
      moved_stays i (step e (s.peer i)) s h (step-IsCalm e (s.peer i) is)
  Step-HasNoLeader {s} (ticks i expired lt) sound h =
      elim (Bool-cases (is_leader (s.peer i).role || not expired)) [
        | inl stays ↦
            rw stays (
              at-elim (λ j (r : Raft Command Blob). is_leader r.role ≡ false) i {f = s.peer} (h i)
                h)
        | inr stands ↦
            rw stands (
              at-elim (λ j (r : Raft Command Blob). is_leader r.role ≡ false) i {f = s.peer} refl h)
      ]
  Step-HasNoLeader {s} (votes p args asked lt other) sound h =
      moved_stays p _ s h (request_vote-IsCalm args (s.peer p))
  Step-HasNoLeader {s} (counts a answers new) sound h =
      let (asked, lt, other, granted) = sound.answered a answers in
      let (there, _) = sound.requested a.args asked in absurd (other (omega arith))
  Step-HasNoLeader {s} (crashes i lt) sound h =
      let m = sound.members i in
      moved_stays i _ s h (crash-IsCalm i 1 nil (s.peer i) m.is_me m.all_peers m.durable)

  -- The only peer of a cluster of one never becomes the leader, whatever happens: it stands for
  -- election, but the votes are only compared with the majority when another peer has answered.
  pub lone_peer_never_leads :
      (s : Cluster Command Blob)
      → Reaches 1 nil (started_cluster 1 nil) s
      → (i : ℕ) → is_leader (s.peer i).role ≡ false
  unfolding fresh
  lone_peer_never_leads s here = λ i. refl
  lone_peer_never_leads s (then_step r t) =
      Step-HasNoLeader t (Reaches-IsSound 1 nil r (started-IsSound 1 nil))
        (lone_peer_never_leads _ r)
