-- ===== src/ShardCtrler.antt =====
-- src/shardctrler: the controller that assigns shards to replica groups.
pub mod Common
pub mod Rebalance
pub mod Server
pub mod Clerk
pub mod Tests
