-- ===== src/Raft/Messages.antt =====
-- src/raft/raft.go: `ApplyMsg`, what Raft sends to a service; and src/labgob as a parameter.
use sharded_kv.Prelude.{ℕ, ◌≡◌, refl, Bool, true, false, Option, none, some}

-- The command is `none` where the interface value holds none of the service's type.
pub record ApplyMsg (Command Blob : Type 0) : Type 0 where
  pub command_valid : Bool
  pub command : Option Command
  pub command_index : ℕ
  pub snapshot_valid : Bool
  pub snapshot : Blob
  pub snapshot_term : ℕ
  pub snapshot_index : ℕ

-- labgob, which wraps Go's encoding/gob: what has been encoded is decoded to what it was, and is
-- not empty. `is_empty` is the test `data == nil || len(data) < 1`.
pub record Codec (A Blob : Type 0) : Type 0 where
  pub encode : A → Blob
  pub decode : Blob → Option A
  pub is_empty : Blob → Bool
  pub decode-encode : (a : A) → decode (encode a) ≡ some a
  pub is_empty-encode : (a : A) → is_empty (encode a) ≡ false

-- A codec that stores the value itself, and has one empty blob.
abbrev pub plain_codec : {A : Type 0} → Codec A (Option A)
plain_codec = record {
  encode = some;
  decode = λ blob. blob;
  is_empty = elim [ none ↦ true | some a ↦ false ];
  decode-encode = λ a. refl;
  is_empty-encode = λ a. refl;
}
