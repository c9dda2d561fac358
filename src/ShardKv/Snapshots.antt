-- ===== src/ShardKv/Snapshots.antt =====
-- src/shardkv/server.go: snapshots, at a restart and when one is installed.
use sharded_kv.Prelude.{ℕ, ◌≡◌, refl, true, Option, none, some, []}
use sharded_kv.Raft.Messages.{ApplyMsg, Codec}
use sharded_kv.ShardKv.Common.{CommandMsg}
use sharded_kv.ShardKv.Server.{Saved, ShardKv}
use sharded_kv.ShardKv.Apply.{persist_data, read_persist_data, apply_handler, start_server}
use sharded_kv.ShardKv.Placement.{IsPlaced}

module _ {Blob : Type 0} (codec : Codec Saved Blob) where
  read_what_was_saved :
      (saved kv : ShardKv)
      → read_persist_data codec (persist_data codec saved) kv ≡ record kv {
        current_state = saved.current_state;
        client_seq = saved.client_seq;
        shards_state = saved.shards_state;
        config = saved.config;
        prev_config = saved.prev_config;
      }
  unfolding read_persist_data persist_data
  read_what_was_saved saved kv = rw (codec.is_empty-encode _, codec.decode-encode _) refl

  -- A server that starts with the snapshot that a server of its group has taken has that server's
  -- data, sessions, states of shards and configurations; no request waits, and the index of the
  -- snapshot is not known to it.
  pub restart_from_snapshot :
      (saved : ShardKv)
      → start_server codec saved.gid (persist_data codec saved)
        ≡ record saved { wait_chan = []; last_included_index = 0 }
  unfolding start_server read_persist_data persist_data
  restart_from_snapshot saved = rw (codec.is_empty-encode _, codec.decode-encode _) refl

  -- A server that installs a snapshot which a server of its group has taken, in a state where the
  -- states of the shards fit the configurations, handles the message without a panic: it then has the
  -- data, the sessions, the states of shards and both configurations of the snapshot, and the
  -- snapshot's index for its last included one; and the states of shards fit the configurations.
  pub install-IsPlaced :
      (limit : Option ℕ) (size : ℕ) (msg : ApplyMsg CommandMsg Blob) (saved kv : ShardKv)
      → msg.snapshot_valid ≡ true
      → msg.snapshot ≡ persist_data codec saved
      → saved.gid ≡ kv.gid
      → IsPlaced saved
      → (kv' : ShardKv) × (apply_handler codec limit size true msg kv ≡ some (kv', none))
        × IsPlaced kv'
        × (kv'.current_state ≡ saved.current_state)
        × (kv'.client_seq ≡ saved.client_seq)
        × (kv'.shards_state ≡ saved.shards_state)
        × (kv'.config ≡ saved.config)
        × (kv'.prev_config ≡ saved.prev_config)
        × (kv'.last_included_index ≡ msg.snapshot_index)
  unfolding apply_handler
  install-IsPlaced limit size msg saved kv valid same group p =
      let installed : ShardKv = record kv {
        current_state = saved.current_state;
        client_seq = saved.client_seq;
        shards_state = saved.shards_state;
        config = saved.config;
        prev_config = saved.prev_config;
        last_included_index = msg.snapshot_index;
      } in
      (
        installed,
        rw (valid, same, read_what_was_saved saved kv) refl,
        rw group at p,
        refl,
        refl,
        refl,
        refl,
        refl,
        refl,
      )
