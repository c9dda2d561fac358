-- ===== src/Raft.antt =====
-- src/raft: the consensus module.
pub mod Messages
pub mod State
pub mod Vote
pub mod Append
pub mod Cluster
pub mod Snapshots
pub mod Leader
pub mod Peer
pub mod Elections
pub mod Replication
pub mod Tests
