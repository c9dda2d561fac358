-- ===== src/MapReduce/Coordinator.antt =====
-- src/mr/coordinator.go and src/mr/rpc.go: the coordinator of a job. A time is a number of
-- nanoseconds; `clock i` is the reading for task i in the loop over the tasks, and `now` the one
-- at which a task is handed out. A panic is `none`.
pub mod Order
pub mod Tasks
pub mod Numbers
pub mod Kept
use sharded_kv.Prelude.{
  ℕ, zero, suc, ◌+◌, ◌-◌, Bool, true, false, Option, none, some, List, [], ◌∷◌, ltb, if◌then◌else◌,
  length, get_or, set, Bytes,
}

pub data Stage : Type 0 where
  assign_map mapping reducing finished : Stage

pub data Status : Type 0 where
  idle working complete : Status

pub data RpcType : Type 0 where
  rpc_map rpc_reduce rpc_request rpc_workdone rpc_fail rpc_alldone : RpcType

pub record Task : Type 0 where
  pub task_id : ℕ
  pub file_name : Bytes
  pub start_time : ℕ
  pub status : Status

pub record Coordinator : Type 0 where
  pub n_reduce : ℕ
  pub n_map : ℕ
  pub stage : Stage
  pub map_files : List Bytes
  pub map_task : List Task
  pub reduce_task : List Task

pub record TaskInfo : Type 0 where
  pub rpc_type : RpcType
  pub task_id : ℕ
  pub filename : Bytes
  pub n_map : ℕ
  pub n_reduce : ℕ
  pub start_time : ℕ

-- Taskinfo{}: the zero value of the type of call is RPC_MAP.
abbrev pub zero_info : TaskInfo
zero_info = record {
  rpc_type = rpc_map;
  task_id = 0;
  filename = [];
  n_map = 0;
  n_reduce = 0;
  start_time = 0;
}

abbrev pub fail_info : TaskInfo
fail_info = record zero_info { rpc_type = rpc_fail }

abbrev pub is_idle : Status → Bool
is_idle idle = true
is_idle working = false
is_idle complete = false

abbrev pub is_working : Status → Bool
is_working idle = false
is_working working = true
is_working complete = false

abbrev pub is_complete : Status → Bool
is_complete idle = false
is_complete working = false
is_complete complete = true

abbrev pub time_limit : ℕ
time_limit = 10000000000

-- findIdleTask, from index `i` on.
unfoldable pub find_idle_task : ℕ → List Task → Option ℕ
find_idle_task i [] = none
find_idle_task i (t ∷ ts) =
    let rest = find_idle_task (i + 1) ts in if is_idle t.status then some i else rest

-- finduncompletedTask, which is true if no task is uncompleted.
unfoldable pub find_uncompleted_task : List Task → Bool
find_uncompleted_task [] = true
find_uncompleted_task (t ∷ ts) =
    let rest = find_uncompleted_task ts in if is_complete t.status then rest else false

abbrev pub timed_out : ℕ → Task → Task
timed_out now t =
    if is_working t.status
    then (if ltb time_limit (now - t.start_time) then record t { status = idle } else t)
    else t

-- timeOutTask, from index `i` on.
unfoldable pub time_out_task : (ℕ → ℕ) → ℕ → List Task → List Task
time_out_task clock i [] = []
time_out_task clock i (t ∷ ts) = timed_out (clock i) t ∷ time_out_task clock (i + 1) ts

abbrev pub no_task : Task
no_task = record { task_id = 0; file_name = []; start_time = 0; status = idle }

-- The end of assignTask: the task is handed out.
abbrev pub task_info : RpcType → ℕ → ℕ → Coordinator → Task → TaskInfo
task_info kind i now c t = record {
  rpc_type = kind;
  task_id = t.task_id;
  filename = t.file_name;
  n_map = c.n_map;
  n_reduce = c.n_reduce;
  start_time = now;
}

abbrev pub started : ℕ → Task → Task
started now t = record t { status = working; start_time = now }

-- `task.Status = TASK_WORKING; task.StartTime = time.Now()`, if a task has been found.
unfoldable pub hand_out : RpcType → ℕ → Coordinator → List Task → List Task × TaskInfo
unfolding find_idle_task
hand_out kind now c tasks = elim (find_idle_task 0 tasks) [
  | none ↦ (tasks, fail_info)
  | some i ↦
      let t = get_or tasks i no_task in (set tasks i (started now t), task_info kind i now c t)
]

unfoldable pub assign_mapping : (ℕ → ℕ) → ℕ → Coordinator → Coordinator × TaskInfo
unfolding time_out_task find_uncompleted_task hand_out
assign_mapping clock now c =
    let tasks = time_out_task clock 0 c.map_task in
    if find_uncompleted_task tasks
    then (record c { map_task = tasks; stage = reducing }, fail_info)
    else let (tasks1, reply) = hand_out rpc_map now c tasks in
      (record c { map_task = tasks1 }, reply)

unfoldable pub assign_reducing : (ℕ → ℕ) → ℕ → Coordinator → Coordinator × TaskInfo
unfolding time_out_task find_uncompleted_task hand_out
assign_reducing clock now c =
    let tasks = time_out_task clock 0 c.reduce_task in
    if find_uncompleted_task tasks
    then (record c { reduce_task = tasks; stage = finished }, fail_info)
    else let (tasks1, reply) = hand_out rpc_reduce now c tasks in
      (record c { reduce_task = tasks1 }, reply)

-- assignTask
unfoldable pub assign_task : (ℕ → ℕ) → ℕ → Coordinator → Coordinator × TaskInfo
unfolding assign_mapping assign_reducing
assign_task clock now c = elim c.stage [
  | assign_map ↦ (c, fail_info)
  | mapping ↦ assign_mapping clock now c
  | reducing ↦ assign_reducing clock now c
  | finished ↦ (c, record zero_info { rpc_type = rpc_alldone })
]

abbrev pub reported : Task → Task
reported t = if is_working t.status then record t { status = complete } else t

-- A task is marked, at an index that may be out of range.
unfoldable pub mark_task : ℕ → List Task → Option (List Task)
mark_task i [] = none
mark_task zero (t ∷ ts) = some (reported t ∷ ts)
mark_task (suc i) (t ∷ ts) = elim (mark_task i ts) [ none ↦ none | some ts1 ↦ some (t ∷ ts1) ]

-- checkTask
unfoldable pub check_task : TaskInfo → Coordinator → Option (Coordinator × TaskInfo)
unfolding mark_task
check_task args c = elim c.stage [
  | assign_map ↦ some (c, zero_info)
  | mapping ↦ elim (mark_task args.task_id c.map_task) [
    | none ↦ none
    | some tasks ↦
        some (record c { map_task = tasks }, record zero_info { rpc_type = rpc_workdone })
  ]
  | reducing ↦ elim (mark_task args.task_id c.reduce_task) [
    | none ↦ none
    | some tasks ↦
        some (record c { reduce_task = tasks }, record zero_info { rpc_type = rpc_workdone })
  ]
  | finished ↦ some (c, zero_info)
]

-- Handlers
unfoldable pub handlers : (ℕ → ℕ) → ℕ → TaskInfo → Coordinator → Option (Coordinator × TaskInfo)
unfolding assign_task check_task
handlers clock now args c = elim args.rpc_type [
  | rpc_map ↦ some (c, zero_info)
  | rpc_reduce ↦ some (c, zero_info)
  | rpc_request ↦ some (assign_task clock now c)
  | rpc_workdone ↦ check_task args c
  | rpc_fail ↦ some (c, zero_info)
  | rpc_alldone ↦ some (c, zero_info)
]

-- Done
abbrev pub done : Coordinator → Bool
done c = elim c.stage [ assign_map ↦ false | mapping ↦ false | reducing ↦ false | finished ↦ true ]

-- The loops of MakeCoordinator, from index `i` on.
unfoldable pub map_tasks : ℕ → List Bytes → List Task
map_tasks i [] = []
map_tasks i (f ∷ fs) =
    record { task_id = i; file_name = f; start_time = 0; status = idle } ∷ map_tasks (i + 1) fs

unfoldable pub reduce_tasks : ℕ → ℕ → List Task
reduce_tasks i zero = []
reduce_tasks i (suc n) =
    record { task_id = i; file_name = []; start_time = 0; status = idle } ∷ reduce_tasks (i + 1) n

unfoldable pub make_coordinator : List Bytes → ℕ → Coordinator
unfolding map_tasks reduce_tasks
make_coordinator files n_reduce = record {
  n_reduce = n_reduce;
  n_map = length files;
  stage = mapping;
  map_files = files;
  map_task = map_tasks 0 files;
  reduce_task = reduce_tasks 0 n_reduce;
}
