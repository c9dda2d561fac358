-- ===== src/MapReduce.antt =====
-- src/mr: the MapReduce program, a coordinator that hands out tasks and the workers that do them.
pub mod Coordinator
pub mod Rounds
pub mod Worker
pub mod Tests
