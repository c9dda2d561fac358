-- ===== src/KvRaft.antt =====
-- src/kvraft: the replicated key/value service without shards.
pub mod Server
pub mod ExactlyOnce
pub mod Snapshots
pub mod Handlers
pub mod Clerk
pub mod Tests
