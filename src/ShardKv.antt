-- ===== src/ShardKv.antt =====
-- src/shardkv: the sharded key/value service, one replica group.
pub mod Common
pub mod Server
pub mod Apply
pub mod Rpc
pub mod Dropped
pub mod Merging
pub mod Migration
pub mod Placement
pub mod Logs
pub mod Sessions
pub mod Snapshots
pub mod Clerk
pub mod Tests
