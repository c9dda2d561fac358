-- ===== src/KvRaft/Tests.antt =====
-- Runs of the key/value server, src/kvraft/server.go, on small inputs.
use sharded_kv.Prelude.{
  ◌≡◌, refl, true, false, Option, none, List, [], ◌∷◌, index, lookup, nat_eq, arith, Bytes,
}
use sharded_kv.Raft.Messages.{ApplyMsg, plain_codec}
use sharded_kv.KvRaft.Server.{
  put_value, append, Op, Saved, empty_server, persist_data, apply_snapshot,
}
use sharded_kv.KvRaft.ExactlyOnce.{
  view, seen, meaning_of, effective, apply_ops, occurrences, InOrder, exactly_once,
}
use sharded_kv.KvRaft.Snapshots.{saved_part, apply_commands, snapshot_catches_up}

abbrev first_put : Op
first_put = record { client_id = 4; seq_num = 1; key = 97 ∷ []; value = 1 ∷ []; optype = put_value }

abbrev then_append : Op
then_append = record { client_id = 4; seq_num = 2; key = 97 ∷ []; value = 2 ∷ []; optype = append }

-- The append is in the log twice.
abbrev log : List Op
log = first_put ∷ then_append ∷ then_append ∷ []

exactly_once_example :
    ((key : Bytes)
      → view (apply_ops log empty_server) key
        ≡ meaning_of (effective log (seen empty_server)) (view empty_server) key)
    × (occurrences 4 2 (effective log (seen empty_server)) ≡ 1)
unfolding index lookup InOrder
exactly_once_example = exactly_once 4 2 log empty_server (omega arith) refl

abbrev snapshot_of_two : Option Saved
snapshot_of_two =
    persist_data plain_codec (apply_commands 1 (first_put ∷ then_append ∷ []) empty_server)

abbrev snapshot_msg : ApplyMsg Op (Option Saved)
snapshot_msg = record {
  command_valid = false;
  command = none;
  command_index = 0;
  snapshot_valid = true;
  snapshot = snapshot_of_two;
  snapshot_term = 1;
  snapshot_index = 2;
}

snapshot_catches_up_example :
    saved_part (apply_commands 1 log (apply_snapshot plain_codec true snapshot_msg empty_server))
    ≡ saved_part (apply_commands 1 log empty_server)
snapshot_catches_up_example =
    snapshot_catches_up plain_codec (first_put ∷ then_append ∷ []) (then_append ∷ []) empty_server
      snapshot_msg refl refl
