-- ===== src/MapReduce/Rounds.antt =====
-- src/mr/worker.go: `Worker`, the loop of a worker, against the coordinator.
pub mod Progress
pub mod Late
use sharded_kv.Prelude.{ℕ, zero, suc, ◌+◌, Bool, true, false, Option, none, some, if◌then◌else◌}
use sharded_kv.MapReduce.Coordinator.{
  Coordinator, TaskInfo, RpcType, rpc_map, rpc_reduce, rpc_request, rpc_workdone, rpc_fail,
  rpc_alldone, zero_info, handlers,
}

-- requestTask
abbrev pub request_args : TaskInfo
request_args = record zero_info { rpc_type = rpc_request }

-- reportTask
abbrev pub report_args : TaskInfo → TaskInfo
report_args t = record zero_info {
  rpc_type = rpc_workdone;
  task_id = t.task_id;
  start_time = t.start_time;
}

-- Is the task one to execute and to report?
abbrev pub is_work : RpcType → Bool
is_work rpc_map = true
is_work rpc_reduce = true
is_work rpc_request = false
is_work rpc_workdone = false
is_work rpc_fail = false
is_work rpc_alldone = false

-- One round of the loop, as the coordinator sees it: a request, and the report of the task that it
-- has handed out, if any.
unfoldable pub worker_round : (ℕ → ℕ) → ℕ → Coordinator → Option Coordinator
worker_round clock now c = elim (handlers clock now request_args c) [
  | none ↦ none
  | some (c1, reply) ↦
      if is_work reply.rpc_type
      then elim (handlers clock now (report_args reply) c1) [
        | none ↦ none
        | some (c2, answer) ↦ some c2
      ]
      else some c1
]

-- `rounds` of them; `clock r` and `now r` are the readings in the round before which `r` are left.
unfoldable pub worker_rounds : ℕ → (ℕ → ℕ → ℕ) → (ℕ → ℕ) → Coordinator → Option Coordinator
unfolding worker_round
worker_rounds zero clock now c = some c
worker_rounds (suc r) clock now c = elim (worker_round (clock r) (now r) c) [
  | none ↦ none
  | some c1 ↦ worker_rounds r clock now c1
]
