-- ===== src/ShardKv/Placement.antt =====
-- src/shardkv/server.go: the states of the shards against the configurations, over
-- updateShardsState and all commands of applyHandler.
use sharded_kv.Prelude.{
  ℕ, zero, suc, ◌+◌, ◌==◌, ◌≡◌, refl, sym, ap, ◌∙◌, ◌⊎◌, inl, inr, Bool, true, ◌&&◌, ◌||◌, not,
  List, [], ◌∷◌, get_or, set, ◌≢◌, arith, leb, has, put, index, nat_eq, bytes_eq, Bool-cases,
  ==_iff,
}
use sharded_kv.ShardCtrler.Common.{Config}
use sharded_kv.ShardKv.Common.{
  Op, ShardRequestMsg, ShardConfirmMsg, key2shard, ShardState, serving, no_serving, pulling,
  be_pulled, is_serving, is_pulling, is_be_pulled, CommandMsg, kv_operation, config_operation,
  shard_request_operation, shard_confirm_operation, no_operation, unknown,
}
use sharded_kv.ShardKv.Server.{
  ShardKv, state_of, next_shard_state, next_shard_states, update_shards_state, apply_config,
  merge_shard_data, merge_client_seq_num, apply_to_state_machine, open_session, apply_op,
  apply_shard_request, apply_shard_confirm,
}
use sharded_kv.ShardKv.Apply.{apply_command}

-- What a state says of the owners of the shard: `now` and `before` tell whether the group owns it
-- in the current and in the previous configuration.
abbrev pub fits : ShardState → Bool → Bool → Bool
fits serving now before = now
fits no_serving now before = true
fits pulling now before = now && not before
fits be_pulled now before = not now && before

abbrev pub owns : Config → ShardKv → ℕ → Bool
owns config kv shard = get_or config.shards shard 0 == kv.gid

abbrev pub IsPlaced : ShardKv → Type 0
IsPlaced kv =
    ((shard : ℕ)
      → fits (state_of kv shard) (owns kv.config kv shard) (owns kv.prev_config kv shard) ≡ true)
    × (kv.config.num ≡ 0 → (shard : ℕ) → state_of kv shard ≡ no_serving)

next_states_at :
    (gid : ℕ) (prev config : Config) (k : ℕ) (states : List ShardState) (shard : ℕ)
    → ((get_or (next_shard_states gid prev config k states) shard no_serving
          ≡ next_shard_state gid prev config (k + shard) (get_or states shard no_serving))
        ⊎ (get_or (next_shard_states gid prev config k states) shard no_serving ≡ no_serving))
unfolding next_shard_states
next_states_at gid prev config k [] shard = inr refl
next_states_at gid prev config k (s ∷ states) zero =
    inl (ap (λ n. next_shard_state gid prev config n s) (omega arith))
next_states_at gid prev config k (s ∷ states) (suc shard) =
    ground (arith, next_states_at gid prev config (suc k) states shard)

the_shard : (shard : ℕ) → 0 + shard ≡ shard
the_shard shard = omega arith

next_state_fits :
    (gid : ℕ) (prev config : Config) (shard : ℕ) (old : ShardState)
    → (prev.num ≡ 0 → old ≡ no_serving)
    → fits
        (next_shard_state gid prev config shard old)
        (get_or config.shards shard 0 == gid)
        (get_or prev.shards shard 0 == gid)
      ≡ true
unfolding next_shard_state
next_state_fits gid prev config shard old h = elim (Bool-cases (prev.num == 0)) [
  | inl first ↦ rw (first, h ((==_iff prev.num 0).0 first)) (ground arith)
  | inr later ↦ rw later (ground arith)
]

apply_config-IsPlaced :
    (new : Config) (kv : ShardKv) → new.num ≢ 0 → IsPlaced kv → IsPlaced (apply_config new kv)
unfolding apply_config update_shards_state
apply_config-IsPlaced new kv nonzero p =
    elim (Bool-cases (kv.config.num == 0 || new.num == kv.config.num + 1)) [
      | inl taken ↦ rw taken (
        (λ shard. elim (next_states_at kv.gid kv.config new 0 kv.shards_state shard) [
          | inl e ↦
              rw (e, the_shard shard)
                (next_state_fits kv.gid kv.config new shard (state_of kv shard) (λ z. p.1 z shard))
          | inr e ↦ rw e refl
        ]),
        λ z. absurd (nonzero z),
      )
      | inr kept ↦ rw kept p
    ]

set_state :
    (states : List ShardState) (i shard : ℕ) (s : ShardState)
    → (i ≡ shard) × (get_or (set states i s) shard no_serving ≡ s)
      ⊎ (get_or (set states i s) shard no_serving ≡ get_or states shard no_serving)
set_state [] i shard s = inr refl
set_state (t ∷ states) zero zero s = inl (refl, refl)
set_state (t ∷ states) zero (suc shard) s = inr refl
set_state (t ∷ states) (suc i) zero s = inr refl
set_state (t ∷ states) (suc i) (suc shard) s = ground (arith, set_state states i shard s)

arrived_fits :
    (old : ShardState) (now before : Bool)
    → is_pulling old ≡ true
    → fits old now before ≡ true
    → fits serving now before ≡ true
arrived_fits old now before = ground arith

leaving_is_some : (old : ShardState) → is_be_pulled old ≡ true → old ≢ no_serving
leaving_is_some old = ground arith

pulling_is_some : (old : ShardState) → is_pulling old ≡ true → old ≢ no_serving
pulling_is_some old = ground arith

apply_shard_request-IsPlaced :
    (msg : ShardRequestMsg) (kv : ShardKv) → IsPlaced kv → IsPlaced (apply_shard_request msg kv)
unfolding apply_shard_request merge_shard_data merge_client_seq_num
apply_shard_request-IsPlaced msg kv p =
    elim (Bool-cases (is_pulling (state_of kv msg.shard_index))) [
      | inr stays ↦ rw stays p
      | inl pulls ↦ rw pulls (
        (λ shard. elim (set_state kv.shards_state msg.shard_index shard serving) [
          | inl (same, e) ↦ rw e (
              arrived_fits (state_of kv shard) (owns kv.config kv shard)
                (owns kv.prev_config kv shard)
                (ap (λ n. is_pulling (state_of kv n)) (sym same) ∙ pulls) (p.0 shard))
          | inr e ↦ rw e (p.0 shard)
        ]),
        λ z. absurd (pulling_is_some (state_of kv msg.shard_index) pulls (p.1 z msg.shard_index)),
      )
    ]

apply_shard_confirm-IsPlaced :
    (msg : ShardConfirmMsg) (kv : ShardKv) → IsPlaced kv → IsPlaced (apply_shard_confirm msg kv)
unfolding apply_shard_confirm
apply_shard_confirm-IsPlaced msg kv p =
    elim (Bool-cases (is_be_pulled (state_of kv msg.shard_index))) [
      | inr stays ↦ rw stays p
      | inl leaves ↦ rw leaves (
        (λ shard. elim (set_state kv.shards_state msg.shard_index shard no_serving) [
          | inl (same, e) ↦ rw e refl
          | inr e ↦ rw e (p.0 shard)
        ]),
        λ z. absurd (leaving_is_some (state_of kv msg.shard_index) leaves (p.1 z msg.shard_index)),
      )
    ]

apply_op-IsPlaced : (op : Op) (kv : ShardKv) → IsPlaced kv → IsPlaced (apply_op op kv).0
unfolding apply_op apply_to_state_machine open_session
apply_op-IsPlaced op kv p = elim (Bool-cases (has op.client_id kv.client_seq)) [
  | inl known ↦ rw known (elim (Bool-cases (leb op.seq_num (index kv.client_seq op.client_id 0))) [
    | inl old ↦ rw old p
    | inr new ↦ rw new p
  ])
  | inr fresh ↦
      rw fresh
        (elim (Bool-cases
          (leb op.seq_num (index (put op.client_id 0 kv.client_seq) op.client_id 0))) [
            | inl old ↦ rw old p
            | inr new ↦ rw new p
          ])
]

-- A command that does not hand out the configuration with number 0.
abbrev pub IsNumbered : CommandMsg → Type 0
IsNumbered command = (new : Config) → command ≡ config_operation new → new.num ≢ 0

pub apply_command-IsPlaced :
    (i : ℕ) (command : CommandMsg) (kv : ShardKv)
    → IsNumbered command
    → IsPlaced kv
    → IsPlaced (apply_command i command kv).0
unfolding apply_command
apply_command-IsPlaced i (kv_operation op) kv n p =
    elim (Bool-cases
      (leb i kv.last_included_index || not (is_serving (state_of kv (key2shard op.key))))) [
        | inl skipped ↦ rw skipped p
        | inr run ↦ rw run (apply_op-IsPlaced op kv p)
      ]
apply_command-IsPlaced i (config_operation new) kv n p =
    elim (Bool-cases (leb i kv.last_included_index)) [
      | inl skipped ↦ rw skipped p
      | inr run ↦ rw run (apply_config-IsPlaced new kv (n new refl) p)
    ]
apply_command-IsPlaced i (shard_request_operation msg) kv n p =
    elim (Bool-cases (msg.config_num == kv.config.num)) [
      | inl same ↦ rw same (apply_shard_request-IsPlaced msg kv p)
      | inr differs ↦ rw differs p
    ]
apply_command-IsPlaced i (shard_confirm_operation msg) kv n p =
    elim (Bool-cases (msg.config_num == kv.config.num)) [
      | inl same ↦ rw same (apply_shard_confirm-IsPlaced msg kv p)
      | inr differs ↦ rw differs p
    ]
apply_command-IsPlaced i no_operation kv n p = p
apply_command-IsPlaced i unknown kv n p = p
