-- ===== src/ShardKv/Migration.antt =====
-- src/shardkv/server.go: a shard on its way from one group to another, from `ShardsRequestHandler`
-- at the old owner to the ShardRequestOperation in applyHandler at the new one.
use sharded_kv.Prelude.{
  ℕ, zero, suc, ◌<◌, ◌==◌, ◌≡◌, refl, sym, ap, ◌∙◌, inl, inr, Bool, true, false, Option, none, some,
  List, [], ◌∷◌, if◌then◌else◌, length, get_or, get_or-set_self, get_or-set_ne, ltb, ◌≢◌, Bytes,
  bytes_beq_iff, GoMap, HasDistinctKeys, index, lookup, put, nat_eq, bytes_eq, arith, beq_self,
  lookup-put, Bool-cases,
}
use sharded_kv.ShardKv.Common.{
  key2shard, ShardState, serving, no_serving, pulling, be_pulled, is_pulling, is_be_pulled,
  CommandMsg, shard_request_operation,
}
use sharded_kv.ShardKv.Server.{
  ShardKv, state_of, merge_data, merge_shard_data, merge_client_seq_num, apply_shard_request,
}
use sharded_kv.ShardKv.Apply.{apply_command}
use sharded_kv.ShardKv.Merging.{index-merge_seq}
use sharded_kv.ShardKv.Rpc.{ShardRequestArgs, shard_data_of, shards_request_handler, pulled}

abbrev pub or_else : Option Bytes → Option Bytes → Option Bytes
or_else none b = b
or_else (some a) b = some a

lookup-shard_data_of :
    (shard : ℕ) (state : GoMap Bytes Bytes) (key : Bytes)
    → lookup key (shard_data_of shard state)
      ≡ (if key2shard key == shard then lookup key state else none)
unfolding lookup shard_data_of
lookup-shard_data_of shard [] key = ground arith
lookup-shard_data_of shard ((k, v) ∷ rest) key = ground (
  arith,
  lookup-shard_data_of shard rest key,
  bytes_beq_iff k key,
  ap key2shard {x = k} {y = key},
)

lookup-merge_data :
    (shard_data state : GoMap Bytes Bytes) (key : Bytes)
    → HasDistinctKeys shard_data
    → lookup key (merge_data shard_data state) ≡ or_else (lookup key shard_data) (lookup key state)
unfolding lookup merge_data
lookup-merge_data [] state key d = refl
lookup-merge_data ((k, v) ∷ rest) state key d = ground (
  arith,
  lookup-merge_data rest (put k v state) key d.1,
  lookup-put k key v state,
  bytes_beq_iff k key,
  d.0,
  ap (λ x. lookup x rest) {x = k} {y = key},
)

Distinct-shard_data_of :
    (shard : ℕ) (state : GoMap Bytes Bytes)
    → HasDistinctKeys state
    → HasDistinctKeys (shard_data_of shard state)
unfolding shard_data_of
Distinct-shard_data_of shard [] d = tt
Distinct-shard_data_of shard ((k, v) ∷ rest) d = elim (Bool-cases (key2shard k == shard)) [
  | inl own ↦ rw own (
    lookup-shard_data_of shard rest k ∙ ground (arith, d.0),
    Distinct-shard_data_of shard rest d.1,
  )
  | inr other ↦ rw other (Distinct-shard_data_of shard rest d.1)
]

has_shard :
    (states : List ShardState) (shard : ℕ)
    → get_or states shard no_serving ≢ no_serving
    → shard < length states
has_shard [] shard h = absurd (h refl)
has_shard (s ∷ states) zero h = omega arith
has_shard (s ∷ states) (suc shard) h = ground (arith, has_shard states shard h)

pulling_is : (s : ShardState) → is_pulling s ≡ true → s ≢ no_serving
pulling_is serving h = λ e. ground arith
pulling_is no_serving h = λ e. ground arith
pulling_is pulling h = λ e. ground arith
pulling_is be_pulled h = λ e. ground arith

merged_lookup :
    (shard : ℕ) (source target : GoMap Bytes Bytes) (key : Bytes)
    → HasDistinctKeys source
    → lookup key (merge_data (shard_data_of shard source) target) ≡ (
        if key2shard key == shard
        then or_else (lookup key source) (lookup key target)
        else lookup key target)
merged_lookup shard source target key d = ground (
  arith,
  lookup-merge_data (shard_data_of shard source) target key (Distinct-shard_data_of shard source d),
  lookup-shard_data_of shard source key,
)

-- What the old owner answers when it is asked for a shard, and what the new owner makes of it: the
-- command that goes through the new owner's log.
pub pulled_ok :
    (leads delivered : Bool) (args : ShardRequestArgs) (source asking : ShardKv)
    (command : CommandMsg)
    → pulled args delivered (shards_request_handler leads args source) asking ≡ some command
    → command
      ≡ shard_request_operation (record {
        config_num = args.config_num;
        shard_index = args.shard_index;
        gid = args.gid;
        shard_data = shard_data_of args.shard_index source.current_state;
        client_seq_num = source.client_seq;
      })
unfolding pulled shards_request_handler
pulled_ok leads delivered args source asking command h =
    elim (Bool-cases (args.config_num == source.config.num)) [
      | inl same ↦ elim (Bool-cases (is_be_pulled (state_of source args.shard_index))) [
        | inl leaving ↦ ground (arith, h, same, leaving)
        | inr stays ↦ ground (arith, h, same, stays)
      ]
      | inr differs ↦ ground (arith, h, differs)
    ]

-- A shard is handed over with its data and its sessions. A group in state `asking` pulls a shard
-- from its old owner `source`, and the command that this makes is applied in a state `target` that
-- is in the configuration of the request and still pulls the shard. If the source's maps have no
-- key twice, then from there on every key of the shard has the value that the source has for it, or
-- the target's own where the source has none; the other keys keep theirs; the shard is served, and
-- the states of all other shards, the configurations, and the rest of the state but the sessions
-- are as they were; and each client has the higher of the two sequence numbers.
pub handoff :
    (leads delivered : Bool) (args : ShardRequestArgs) (source asking target : ShardKv)
    (command : CommandMsg) (i : ℕ)
    → HasDistinctKeys source.current_state
    → HasDistinctKeys source.client_seq
    → pulled args delivered (shards_request_handler leads args source) asking ≡ some command
    → target.config.num ≡ args.config_num
    → is_pulling (state_of target args.shard_index) ≡ true
    → let after = (apply_command i command target).0 in
      ((key : Bytes)
        → lookup key after.current_state ≡ (
            if key2shard key == args.shard_index
            then or_else (lookup key source.current_state) (lookup key target.current_state)
            else lookup key target.current_state))
      × (state_of after args.shard_index ≡ serving)
      × ((shard : ℕ) → args.shard_index ≢ shard → state_of after shard ≡ state_of target shard)
      × ((client : ℕ)
          → index after.client_seq client 0 ≡ (
              if ltb (index target.client_seq client 0) (index source.client_seq client 0)
              then index source.client_seq client 0
              else index target.client_seq client 0))
      × (after ≡ record target {
        current_state = after.current_state;
        shards_state = after.shards_state;
        client_seq = after.client_seq;
      })
unfolding apply_command apply_shard_request merge_shard_data merge_client_seq_num
handoff leads delivered args source asking target command i d d' h same pulls =
    rw
      (
        pulled_ok leads delivered args source asking command h,
        sym same,
        beq_self target.config.num,
        pulls,
      )
      (
        λ key. merged_lookup args.shard_index source.current_state target.current_state key d,
        get_or-set_self target.shards_state args.shard_index serving no_serving (
            has_shard target.shards_state args.shard_index
              (pulling_is (state_of target args.shard_index) pulls)),
        λ shard apart.
            get_or-set_ne target.shards_state args.shard_index shard serving no_serving apart,
        λ client. index-merge_seq source.client_seq target.client_seq client d',
        refl,
      )

-- Whether a server leads makes no difference to how it answers a request for a shard. The reply to
-- `ShardsRequestHandler` is the same: the branch that sets the error for a server that does not
-- lead is not followed by a return, and every later branch sets the error again.
pub request_ignores_leader :
    (leads : Bool) (args : ShardRequestArgs) (kv : ShardKv)
    → shards_request_handler leads args kv ≡ shards_request_handler true args kv
unfolding shards_request_handler
request_ignores_leader true args kv = refl
request_ignores_leader false args kv = ground arith
