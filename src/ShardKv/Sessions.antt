-- ===== src/ShardKv/Sessions.antt =====
-- src/shardkv/server.go: mergeClientSeqNum and the test of a sequence number, when a shard moves.
use sharded_kv.Prelude.{
  suc, List, ℕ, ◌≤◌, ◌≡◌, refl, sym, ap, inl, inr, Bool, true, false, ◌||◌, not, some, [], ◌∷◌,
  arith, leb, GoMap, index, has, put, index-put, nat_eq, bytes_eq, beq_self, Bool-cases,
}
use sharded_kv.ShardKv.Common.{
  key2shard, is_serving, is_pulling, Op, ShardRequestMsg, CommandMsg, kv_operation,
  config_operation, shard_request_operation, shard_confirm_operation, no_operation, unknown,
}
use sharded_kv.ShardKv.Server.{
  ShardKv, state_of, merge_shard_data, merge_client_seq_num, apply_to_state_machine, open_session,
  apply_op, apply_shard_request, answer, apply_config, update_shards_state, apply_shard_confirm,
}
use sharded_kv.ShardKv.Apply.{apply_command}
use sharded_kv.ShardKv.Rpc.{ShardRequestArgs, shards_request_handler, pulled}
use sharded_kv.ShardKv.Merging.{merge_seq_grows, merge_seq_covers}
use sharded_kv.ShardKv.Logs.{apply_all}
use sharded_kv.ShardKv.Migration.{pulled_ok}

not_has : (client : ℕ) (seq : GoMap ℕ ℕ) → has client seq ≡ false → index seq client 0 ≡ 0
unfolding has index
not_has client seq h = ground (arith, h)

leb_of_le : (a b : ℕ) → a ≤ b → leb a b ≡ true
leb_of_le a b h = ground arith

retried_op :
    (op : Op) (kv : ShardKv)
    → op.seq_num ≤ index kv.client_seq op.client_id 0
    → (apply_op op kv).0.current_state ≡ kv.current_state
unfolding apply_op apply_to_state_machine open_session
retried_op op kv h = elim (Bool-cases (has op.client_id kv.client_seq)) [
  | inl known ↦ rw (known, (leb_of_le op.seq_num (index kv.client_seq op.client_id 0) h)) refl
  | inr unknown_client ↦
      rw
        (
          unknown_client,
          index-put op.client_id op.client_id 0 0 kv.client_seq,
          beq_self op.client_id,
          leb_of_le op.seq_num 0
              (ground (arith, h, not_has op.client_id kv.client_seq unknown_client)),
        )
        refl
]

retried_command :
    (j : ℕ) (op : Op) (kv : ShardKv)
    → op.seq_num ≤ index kv.client_seq op.client_id 0
    → (apply_command j (kv_operation op) kv).0.current_state ≡ kv.current_state
unfolding apply_command
retried_command j op kv h =
    elim (Bool-cases
      (leb j kv.last_included_index || not (is_serving (state_of kv (key2shard op.key))))) [
        | inl skipped ↦ rw skipped refl
        | inr run ↦ rw run (retried_op op kv h)
      ]

apply_op_seq :
    (op : Op) (kv : ShardKv) (client : ℕ)
    → index kv.client_seq client 0 ≤ index (apply_op op kv).0.client_seq client 0
unfolding apply_op apply_to_state_machine open_session answer
apply_op_seq op kv client = ground (
  arith,
  index-put op.client_id client 0 0 kv.client_seq,
  index-put op.client_id client op.seq_num 0 kv.client_seq,
  index-put op.client_id client op.seq_num 0 (put op.client_id 0 kv.client_seq),
  index-put op.client_id op.client_id 0 0 kv.client_seq,
  not_has op.client_id kv.client_seq,
  ap (λ x. index kv.client_seq x 0) {x = op.client_id} {y = client},
)

shard_request_seq :
    (msg : ShardRequestMsg) (kv : ShardKv) (client : ℕ)
    → index kv.client_seq client 0 ≤ index (apply_shard_request msg kv).client_seq client 0
unfolding apply_shard_request merge_shard_data merge_client_seq_num
shard_request_seq msg kv client =
    ground (arith, merge_seq_grows msg.client_seq_num kv.client_seq client)

-- No command lowers the number recorded for a client.
apply_command_seq :
    (i : ℕ) (command : CommandMsg) (kv : ShardKv) (client : ℕ)
    → index kv.client_seq client 0 ≤ index (apply_command i command kv).0.client_seq client 0
unfolding apply_command apply_config update_shards_state apply_shard_confirm
apply_command_seq i (kv_operation op) kv client = ground (arith, apply_op_seq op kv client)
apply_command_seq i (config_operation c) kv client = ground arith
apply_command_seq i (shard_request_operation msg) kv client =
    ground (arith, shard_request_seq msg kv client)
apply_command_seq i (shard_confirm_operation msg) kv client = ground arith
apply_command_seq i no_operation kv client = ground arith
apply_command_seq i unknown kv client = ground arith

apply_all_seq :
    (i : ℕ) (log : List CommandMsg) (kv : ShardKv) (client : ℕ)
    → index kv.client_seq client 0 ≤ index (apply_all i log kv).client_seq client 0
apply_all_seq i [] kv client = omega arith
apply_all_seq i (command ∷ rest) kv client = omega (
  arith,
  apply_command_seq i command kv client,
  apply_all_seq (suc i) rest (apply_command i command kv).0 client,
)

arrived_seq :
    (leads delivered : Bool) (args : ShardRequestArgs) (source asking target : ShardKv)
    (command : CommandMsg) (i client : ℕ)
    → pulled args delivered (shards_request_handler leads args source) asking ≡ some command
    → target.config.num ≡ args.config_num
    → is_pulling (state_of target args.shard_index) ≡ true
    → index source.client_seq client 0
      ≤ index (apply_command i command target).0.client_seq client 0
unfolding apply_command index
arrived_seq leads delivered args source asking target command i client h same pulls =
    rw
      (
        pulled_ok leads delivered args source asking command h,
        sym same,
        beq_self target.config.num,
        pulls,
        apply_command,
        apply_shard_request,
        merge_shard_data,
        merge_client_seq_num,
      )
      (merge_seq_covers source.client_seq target.client_seq client)

-- A command is executed once although its shard moves. The old owner `source` answers a request
-- for a shard, and the new owner applies the command that this makes in a state `target` that is
-- in the configuration of the request and still pulls the shard, and after that any further
-- commands, changes of the configuration among them. Then a command whose sequence number is not
-- above the last one that the source had executed for its client, applied next at any index,
-- leaves the new owner's data as they are.
pub retry_after_handoff :
    (leads delivered : Bool) (args : ShardRequestArgs) (source asking target : ShardKv)
    (command : CommandMsg) (i j : ℕ) (later : List CommandMsg) (op : Op)
    → pulled args delivered (shards_request_handler leads args source) asking ≡ some command
    → target.config.num ≡ args.config_num
    → is_pulling (state_of target args.shard_index) ≡ true
    → op.seq_num ≤ index source.client_seq op.client_id 0
    → let then_on = apply_all (suc i) later (apply_command i command target).0 in
      (apply_command j (kv_operation op) then_on).0.current_state ≡ then_on.current_state
retry_after_handoff leads delivered args source asking target command i j later op h same pulls
      retried =
    let start = (apply_command i command target).0 in
    retried_command j op (apply_all (suc i) later start) (
      omega (
        arith,
        retried,
        arrived_seq leads delivered args source asking target command i op.client_id h same pulls,
        apply_all_seq (suc i) later start op.client_id,
      ))
