-- ===== src/KvRaft/Snapshots.antt =====
-- src/kvraft/server.go: a replica that installs a snapshot and is then handed commands again.
use sharded_kv.Prelude.{
  ℕ, suc, ◌+◌, ◌≤◌, ◌<◌, ◌≡◌, refl, sym, ap, ◌∙◌, true, List, [], ◌∷◌, ◌++◌, length, nat_eq,
  bytes_eq, arith,
}
use sharded_kv.Raft.Messages.{ApplyMsg, Codec}
use sharded_kv.KvRaft.Server.{
  Op, Saved, KvServer, empty_server, apply_to_state_machine, answer, open_session, apply_op,
  deliver, apply_command, persist_data, read_persist_data, apply_snapshot,
}

-- The parts of a server that a snapshot holds.
abbrev pub saved_part : KvServer → Saved
saved_part kv = record { current_state = kv.current_state; client_seq = kv.client_seq }

saved-deliver : (i : ℕ) (op : Op) (kv : KvServer) → saved_part (deliver i op kv) ≡ saved_part kv
unfolding deliver
saved-deliver i op kv = ground arith

last-deliver :
    (i : ℕ) (op : Op) (kv : KvServer)
    → (deliver i op kv).last_included_index ≡ kv.last_included_index
unfolding deliver
last-deliver i op kv = ground arith

last-apply_op :
    (op : Op) (kv : KvServer) → (apply_op op kv).0.last_included_index ≡ kv.last_included_index
unfolding apply_op apply_to_state_machine open_session
last-apply_op op kv = ground arith

restored : Saved → KvServer
restored s = record {
  current_state = s.current_state;
  client_seq = s.client_seq;
  wait_chan = [];
  last_included_index = 0;
}

saved_step : Op → Saved → Saved
unfolding restored
saved_step op s = saved_part (apply_op op (restored s)).0

saved-apply_op :
    (op : Op) (kv : KvServer) → saved_part (apply_op op kv).0 ≡ saved_step op (saved_part kv)
unfolding saved_step apply_op apply_to_state_machine answer open_session
saved-apply_op op kv = ground arith

saved-apply_command :
    (i : ℕ) (op : Op) (kv : KvServer)
    → kv.last_included_index < i
    → saved_part (apply_command i op kv) ≡ saved_step op (saved_part kv)
unfolding apply_command
saved-apply_command i op kv h =
    ground (arith, saved-apply_op op kv, saved-deliver i (apply_op op kv).1 (apply_op op kv).0)

last-apply_command :
    (i : ℕ) (op : Op) (kv : KvServer)
    → (apply_command i op kv).last_included_index ≡ kv.last_included_index
unfolding apply_command
last-apply_command i op kv =
    ground (arith, last-apply_op op kv, last-deliver i (apply_op op kv).1 (apply_op op kv).0)

skip_command :
    (i : ℕ) (op : Op) (kv : KvServer) → i ≤ kv.last_included_index → apply_command i op kv ≡ kv
unfolding apply_command
skip_command i op kv h = ground arith

-- Commands numbered from `i` on.
pub apply_commands : ℕ → List Op → KvServer → KvServer
apply_commands i [] kv = kv
apply_commands i (op ∷ ops) kv = apply_commands (suc i) ops (apply_command i op kv)

skip_commands :
    (i : ℕ) (done rest : List Op) (kv : KvServer)
    → i + length done ≤ kv.last_included_index + 1
    → apply_commands i (done ++ rest) kv ≡ apply_commands (i + length done) rest kv
unfolding apply_commands
skip_commands i [] rest kv h = ap (λ n. apply_commands n rest kv) (omega arith)
skip_commands i (op ∷ done) rest kv h =
    ap (apply_commands (suc i) (done ++ rest)) (skip_command i op kv (omega arith))
    ∙ skip_commands (suc i) done rest kv (omega arith)
    ∙ ap (λ n. apply_commands n rest kv) (omega arith)

same_commands :
    (i : ℕ) (ops : List Op) (a b : KvServer)
    → a.last_included_index < i
    → b.last_included_index < i
    → saved_part a ≡ saved_part b
    → saved_part (apply_commands i ops a) ≡ saved_part (apply_commands i ops b)
unfolding apply_commands
same_commands i [] a b ha hb same = same
same_commands i (op ∷ ops) a b ha hb same =
    same_commands (suc i) ops (apply_command i op a) (apply_command i op b)
      (omega (arith, last-apply_command i op a)) (omega (arith, last-apply_command i op b))
      (saved-apply_command i op a ha
        ∙ ap (saved_step op) same
        ∙ sym (saved-apply_command i op b hb))

last-apply_commands :
    (i : ℕ) (ops : List Op) (kv : KvServer)
    → (apply_commands i ops kv).last_included_index ≡ kv.last_included_index
unfolding apply_commands
last-apply_commands i [] kv = refl
last-apply_commands i (op ∷ ops) kv =
    last-apply_commands (suc i) ops (apply_command i op kv) ∙ last-apply_command i op kv

split_commands :
    (i : ℕ) (done rest : List Op) (kv : KvServer)
    → apply_commands i (done ++ rest) kv
      ≡ apply_commands (i + length done) rest (apply_commands i done kv)
unfolding apply_commands
split_commands i [] rest kv = ap (λ n. apply_commands n rest kv) (omega arith)
split_commands i (op ∷ done) rest kv =
    split_commands (suc i) done rest (apply_command i op kv)
    ∙ ap (λ n. apply_commands n rest (apply_commands (suc i) done (apply_command i op kv)))
        (omega arith)

module _ {Blob : Type 0} (codec : Codec Saved Blob) where
  pub read-persist :
      (a b : KvServer)
      → saved_part (read_persist_data codec (persist_data codec a) b) ≡ saved_part a
  unfolding read_persist_data persist_data
  read-persist a b = rw (codec.is_empty-encode, codec.decode-encode)

  -- A replica in any state accepts a snapshot that a server took after applying the commands
  -- `done`, with their number as its index, and is then handed the whole log from its first
  -- command: it has the data and the sessions of a server that applied the log itself.
  pub snapshot_catches_up :
      (done rest : List Op) (lagging : KvServer) (msg : ApplyMsg Op Blob)
      → msg.snapshot ≡ persist_data codec (apply_commands 1 done empty_server)
      → msg.snapshot_index ≡ length done
      → saved_part (apply_commands 1 (done ++ rest) (apply_snapshot codec true msg lagging))
        ≡ saved_part (apply_commands 1 (done ++ rest) empty_server)
  unfolding apply_snapshot
  snapshot_catches_up done rest lagging msg taken at_index =
      let r = apply_snapshot codec true msg lagging in
      let source = apply_commands 1 done empty_server in
      ap saved_part (skip_commands 1 done rest r (omega (arith, at_index)))
      ∙ same_commands (1 + length done) rest r source (omega (arith, at_index))
          (omega (arith, last-apply_commands 1 done empty_server))
          (ap (λ blob. saved_part (read_persist_data codec blob lagging)) taken
            ∙ read-persist source lagging)
      ∙ ap saved_part (sym (split_commands 1 done rest empty_server))
