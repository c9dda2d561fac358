-- ===== src/MapReduce/Rounds/Late.antt =====
-- src/mr/coordinator.go: a report that comes late, when the stage has changed.
use sharded_kv.Prelude.{ℕ, zero, suc, ◌+◌, ◌≡◌, refl, true, some, List, [], ◌∷◌, arith, get_elem?}
use sharded_kv.MapReduce.Coordinator.{
  Coordinator, reducing, finished, TaskInfo, Task, working, reported, mark_task, time_out_task,
  find_uncompleted_task, check_task, assign_task, assign_reducing, handlers, done, rpc_workdone,
  zero_info, fail_info,
}
use sharded_kv.MapReduce.Coordinator.Tasks.{undone}
use sharded_kv.MapReduce.Rounds.{request_args, report_args}

mark_task_working :
    (i : ℕ) (ts : List Task) (t : Task)
    → get_elem? ts i ≡ some t
    → t.status ≡ working
    → (ts' : List Task) × (mark_task i ts ≡ some ts') × (undone ts' + 1 ≡ undone ts)
unfolding mark_task
mark_task_working i [] t e is = absurd (ground arith)
mark_task_working zero (x ∷ ts) t e is = (reported x ∷ ts, refl, ground arith)
mark_task_working (suc i) (x ∷ ts) t e is =
    let (ts', marks, fewer) = mark_task_working i ts t e is in
    (x ∷ ts', rw marks refl, omega (arith, fewer))

all_complete :
    (clock : ℕ → ℕ) (k : ℕ) (ts : List Task)
    → undone ts ≡ 0
    → find_uncompleted_task (time_out_task clock k ts) ≡ true
unfolding time_out_task find_uncompleted_task
all_complete clock k [] none_left = refl
all_complete clock k (t ∷ ts) none_left = ground (arith, all_complete clock (k + 1) ts)

report_counts :
    (clock : ℕ → ℕ) (now : ℕ) (c : Coordinator) (given : TaskInfo) (ts : List Task)
    → c.stage ≡ reducing
    → mark_task given.task_id c.reduce_task ≡ some ts
    → handlers clock now (report_args given) c
      ≡ some (record c { reduce_task = ts }, record zero_info { rpc_type = rpc_workdone })
unfolding handlers check_task
report_counts clock now c given ts is marks = ground arith

request_ends :
    (clock : ℕ → ℕ) (now : ℕ) (c : Coordinator)
    → c.stage ≡ reducing
    → find_uncompleted_task (time_out_task clock 0 c.reduce_task) ≡ true
    → handlers clock now request_args c
      ≡ some (
        record c { reduce_task = time_out_task clock 0 c.reduce_task; stage = finished },
        fail_info,
      )
unfolding handlers assign_task assign_reducing
request_ends clock now c is all = ground arith

-- A report does not say whether it is about a map task or a reduce task, and its start time is not
-- looked at. Let the last reduce task be in work, and let a report with its number come that is
-- about any task that was ever handed out, such as a map task whose time had run out. Then the
-- report completes the reduce task, and with the next request the job is done.
pub late_report_ends_job :
    (clock : ℕ → ℕ) (now : ℕ) (c : Coordinator) (given : TaskInfo) (t : Task)
    → c.stage ≡ reducing
    → undone c.reduce_task ≡ 1
    → get_elem? c.reduce_task given.task_id ≡ some t
    → t.status ≡ working
    → (c1 c2 : Coordinator) × (answer reply : TaskInfo) × (handlers clock now (report_args given) c
        ≡ some (c1, answer))
      × (handlers clock now request_args c1 ≡ some (c2, reply))
      × (done c2 ≡ true)
late_report_ends_job clock now c given t is last there working_t =
    let (ts', marks, fewer) = mark_task_working given.task_id c.reduce_task t there working_t in
    let all = all_complete clock 0 ts' (omega (arith, fewer, last)) in
    let c1 = record c { reduce_task = ts' } in
    (
      c1,
      record c1 { reduce_task = time_out_task clock 0 ts'; stage = finished },
      record zero_info { rpc_type = rpc_workdone },
      fail_info,
      report_counts clock now c given ts' is marks,
      request_ends clock now c1 is all,
      refl,
    )
