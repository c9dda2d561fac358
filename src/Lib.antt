-- ===== src/Lib.antt =====
-- A verification library for Sharded-KV: a sharded, replicated key/value store in Go.
--
-- The program is built in layers. Raft (src/raft/raft.go) replicates a log among the servers of
-- a group and hands committed commands to a service through a channel of ApplyMsg. Three
-- services stand on it: a key/value server (src/kvraft/server.go), the shard controller
-- (src/shardctrler/server.go), which keeps the history of configurations, and the sharded
-- key/value server (src/shardkv/server.go), whose groups follow the controller's configurations
-- and hand shards to each other by RPC. Beside these stands a MapReduce program (src/mr), whose
-- coordinator hands out tasks to workers. Each service applies the commands of its log in one
-- loop, applyHandler; its RPC handlers put a command into the log by Start and wait for it on a
-- channel.
--
-- What each file models:
--
-- - Prelude.antt and Prelude/: Boolean tests, lists, Go's maps as association lists (Maps.antt),
--   signed integers. A map's `range` follows the list, so what holds for every list holds for
--   every order.
-- - Raft/State.antt: the record Raft has the fields of the struct Raft that hold data, and the
--   persister's two values as `stored` and `stored_snapshot`; persist, getLogAt,
--   getSameTermFirst, LeaderState, FollowerState, CandidateState, readPersist. Raft/Vote.antt:
--   RequestVote, one round of ticker, candidateRequestVote before and after the RPC.
--   Raft/Append.antt: AppendEntries. Raft/Leader.antt: Start, countReplica,
--   handleLogInconsistency, and leaderAppendEntries split at its RPCs into prepare,
--   receive_append and receive_install. Raft/Snapshots.antt: InstallSnapshot,
--   CondInstallSnapshot, Snapshot. Raft/Peer.antt: Make, applyChecker before and after it sends,
--   and a step function over the events of a peer. Raft/Messages.antt: ApplyMsg.
-- - Raft/Append/, Raft/Leader/Commit.antt, Raft/Peer/, Raft/Elections.antt and
--   Raft/Replication.antt hold the proofs. Raft/Peer/Crashes.antt has the relation of a state to
--   the states that events and crashes lead to.
-- - Raft/Cluster.antt: all peers of a cluster, the requests for votes and the answers on the
--   network, and the steps of the peers in any order (the goroutines of ticker and
--   candidateRequestVote, RequestVote, every other handler, crashes). Requests and answers are
--   never taken off the network, so they may be handled late, again or never; what is not
--   modelled of the network is that it invents messages. The proofs are in Raft/Cluster/.
-- - ShardCtrler/Common.antt: Config and Op. ShardCtrler/Rebalance.antt: getGIDtoShardsMap and
--   rebalance. ShardCtrler/Server.antt: applyToStateMachine, applyHandler, getConfig,
--   RequestHandler before and after it waits. The proofs are in ShardCtrler/Rebalance/ and
--   ShardCtrler/Server/.
-- - KvRaft/Server.antt: applyHandler and its parts, the snapshots, StartKVServer.
--   KvRaft/Handlers.antt: Get and PutAppend. KvRaft/ExactlyOnce.antt and KvRaft/Snapshots.antt
--   hold the proofs.
-- - ShardKv/Common.antt: the messages, and key2shard of src/shardkv/client.go.
--   ShardKv/Server.antt: the state of a server and the four kinds of command, updateShardsState,
--   mergeShardData, mergeClientSeqNum. ShardKv/Apply.antt: applyHandler, the snapshots,
--   StartServer. ShardKv/Rpc.antt: ShardsRequestHandler, ShardsConfirmHandler, Get and
--   PutAppend, RaftLogChecker, and what ShardsRequester, ShardsConfirm and getLastConfig send
--   and make of the answers. The proofs are in ShardKv/Migration.antt, Merging.antt,
--   Dropped.antt, Sessions.antt, Placement.antt, Logs.antt and Snapshots.antt.
-- - KvRaft/Clerk.antt, ShardCtrler/Clerk.antt and ShardKv/Clerk.antt: the clerks of
--   src/kvraft/client.go, src/shardctrler/client.go and src/shardkv/client.go, whose loops run
--   on the answers that they get. The clerk of the sharded server makes its Query with that of
--   the controller. KvRaft/Clerk/Calls.antt puts a clerk beside the log of the servers. The
--   proofs are in the folders beside these files.
-- - MapReduce/Coordinator.antt: the coordinator of src/mr/coordinator.go with the messages of
--   src/mr/rpc.go. MapReduce/Rounds.antt: the loop of Worker against it. MapReduce/Worker.antt:
--   ihash, execMap and execReduce of src/mr/worker.go, and what src/main/mrsequential.go
--   computes. The proofs are in the folders beside these files.
-- - The Tests.antt of each part hold concrete runs.
--
-- State is passed explicitly: an operation takes the record and returns it with its answer. A
-- critical section is one operation, since the program holds its mutex throughout. What a lock
-- is released around is split in two operations, and all that may happen between is any sequence
-- of other operations. A crash happens between two operations. A panic of the program (an index
-- out of range, a failed type assertion) is `none`. Numbers are natural numbers: terms, indices,
-- group and client numbers are never negative in the program, apart from the sentinel -1, which
-- is `none` of an Option; Query's number is signed. Go's int has 64 bits, and no overflow is
-- modelled. Strings are lists of bytes.
--
-- The loop of rebalance runs on fuel, `rebalance_fuel`, which is 200: a round places one of at
-- most ten free shards, or moves a shard from a group with the most to a group with the fewest,
-- which lowers the sum of the squares of the loads, at most 100, by at least two. That the loop
-- ends within it is part of the theorems about rebalance. All other loops are structural
-- recursion.
--
-- Code that is not modelled is a parameter: the encoding of src/labgob is the record Codec,
-- which decodes what it has encoded and never encodes to the empty blob (Raft's own persister
-- holds its values as they are, which takes its decoding to succeed); the answers of Raft that a
-- service asks for (GetState, Start, CondInstallSnapshot, GetStateSize) are arguments of the
-- service's operations, as is the way in which a wait ends. The state size is an argument
-- wherever it is read. A reading of the clock is an argument too. Sorting by sort.Sort is the
-- record SortByKey, which puts the keys in order and leaves the order of equal keys open. What
-- encoding/json makes of a string is the function `utf8`; the comparison with the sequential
-- program takes it to keep the strings that the map function gives. The cells of a slice's array
-- beyond its length are an argument, `spare`, where Go's bounds check lets them be read. Whether
-- the channel that a handler closes has been closed before is an argument of `release`. That the
-- log of a leader and that of a follower match, Raft's Log Matching property, is a hypothesis of
-- Raft.Replication.accepted_entries alone.
--
-- Not modelled: timers and sleeps (an expired timer is an event), Kill, logging and the String
-- methods, the controller's unused snapshot functions, the simulated network src/labrpc, the
-- plugins and command lines in src/mrapps and src/main, the unused reassignTask of
-- src/mr/coordinator.go, and the linearizability checker src/porcupine with src/models, which
-- only the tests use.
pub mod KvRaft
pub mod MapReduce
pub mod Prelude
pub mod Raft
pub mod ShardCtrler
pub mod ShardKv
