-- ===== src/Raft/Cluster/Tests.antt =====
-- Runs of a Raft cluster, src/raft/raft.go, on small inputs.
use sharded_kv.Prelude.{ℕ, ◌≡◌, refl, true, false, arith}
use mathlib.Core.List.{Memᴰ}
use sharded_kv.Raft.State.{is_leader, last_log_index, last_log_term}
use sharded_kv.Raft.Vote.{RequestVoteArgs, request_vote, receive_vote, tick}
use sharded_kv.Raft.Peer.{fresh, started, step}
use sharded_kv.Raft.Leader.{start}
use sharded_kv.Raft.Cluster.{
  Cluster, Answer, Reaches, started_cluster, do_tick, do_vote, do_count, with_peer, internal, ticks,
  votes, counts, here, then_step,
}
use sharded_kv.Raft.Cluster.Safety.{one_leader_per_term}
use sharded_kv.Raft.Cluster.Alone.{lone_peer_never_leads}

-- Of three peers, with numbers as commands and as blobs, peer 0 stands for election, peer 1 votes
-- for it, and peer 0 counts the vote.
abbrev begun : Cluster ℕ ℕ
begun = started_cluster 3 0

abbrev stood : Cluster ℕ ℕ
stood = do_tick 0 true begun

abbrev request : RequestVoteArgs
request = record { term = 1; candidate_id = 0; last_log_index = 0; last_log_term = 0 }

abbrev voted : Cluster ℕ ℕ
voted = do_vote 1 request stood

abbrev answer : Answer
answer = record { voter = 1; args = request; reply = record { term = 1; vote_granted = true } }

abbrev led : Cluster ℕ ℕ
led = do_count answer voted

leads : is_leader (led.peer 0).role ≡ true
unfolding do_count do_vote do_tick tick fresh request_vote receive_vote last_log_index last_log_term
leads = refl

-- The command 7 comes to the leader.
abbrev busy : Cluster ℕ ℕ
busy = with_peer 0 (step (started false 7) (led.peer 0)) led

leads_on : is_leader (busy.peer 0).role ≡ true
unfolding step start do_count do_vote do_tick tick fresh request_vote receive_vote last_log_index
    last_log_term
leads_on = refl

same_term : (led.peer 0).current_term ≡ (busy.peer 0).current_term
unfolding step start do_count do_vote do_tick tick fresh request_vote receive_vote last_log_index
    last_log_term
same_term = refl

to_led : Reaches 3 0 begun led
unfolding do_count do_vote do_tick tick fresh request_vote receive_vote last_log_index last_log_term
to_led =
    then_step
      (then_step (then_step here (ticks 0 true (omega arith)))
        (votes 1 request (Memᴰ.head refl) (omega arith) (λ e. absurd (omega arith))))
      (counts answer (Memᴰ.head refl) refl)

to_busy : Reaches 3 0 led busy
to_busy = then_step here (internal 0 (started false 7) refl (omega arith))

abbrev the_leader : ℕ
the_leader = 0

one_leader_per_term_example : the_leader ≡ 0
one_leader_per_term_example =
    one_leader_per_term 3 0 led busy 0 0 to_led to_busy leads leads_on same_term

-- A cluster of one peer, which stands for election twice.
abbrev lone : Cluster ℕ ℕ
lone = do_tick 0 true (do_tick 0 true (started_cluster 1 0))

to_lone : Reaches 1 0 (started_cluster 1 0) lone
to_lone = then_step (then_step here (ticks 0 true (omega arith))) (ticks 0 true (omega arith))

lone_peer_never_leads_example : is_leader (lone.peer 0).role ≡ false
lone_peer_never_leads_example = lone_peer_never_leads 0 lone to_lone 0
