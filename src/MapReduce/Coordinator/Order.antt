-- ===== src/MapReduce/Coordinator/Order.antt =====
-- src/mr/coordinator.go: the stages of a job over every sequence of calls.
use sharded_kv.Prelude.{
  [], ◌∷◌, zero, suc, sym, ap, ◌∙◌, get_elem?, ℕ, ◌≡◌, ◌≢◌, refl, ◌⊎◌, inl, inr, true, false, some,
  Bool-cases, List, Bytes, arith, Option-cases,
}
use mathlib.Core.Option.{some_inj}
use sharded_kv.MapReduce.Coordinator.{
  complete, Status, is_complete, Coordinator, TaskInfo, Task, Stage, assign_map, mapping, reducing,
  finished, RpcType, rpc_reduce, rpc_map, rpc_fail, rpc_request, rpc_workdone, rpc_alldone,
  find_uncompleted_task, hand_out, time_out_task, assign_mapping, assign_reducing, assign_task,
  check_task, handlers, done, make_coordinator, mark_task,
}

-- The stages come in order, and each is left when all of its tasks are complete.
abbrev pub IsOrdered : Coordinator → Type 0
IsOrdered c =
    (c.stage ≡ mapping)
    ⊎ ((find_uncompleted_task c.map_task ≡ true)
        × ((c.stage ≡ reducing)
            ⊎ ((c.stage ≡ finished) × (find_uncompleted_task c.reduce_task ≡ true))))

-- What the coordinator may be after calls that it has answered.
pub data Serves (c : Coordinator) : Coordinator → Type 0 where
  none_yet : Serves c c
  call :
      {c' c'' : Coordinator} {reply : TaskInfo}
      → Serves c c'
      → (clock : ℕ → ℕ) (now : ℕ) (args : TaskInfo) → handlers clock now args c' ≡ some (c'', reply)
      → Serves c c''

assign_task-IsOrdered :
    (clock : ℕ → ℕ) (now : ℕ) (c : Coordinator)
    → IsOrdered c
    → IsOrdered (assign_task clock now c).0
unfolding assign_task assign_mapping assign_reducing
assign_task-IsOrdered clock now c h = ground arith

check_task-IsOrdered :
    (args : TaskInfo) (c c' : Coordinator) (reply : TaskInfo)
    → check_task args c ≡ some (c', reply)
    → IsOrdered c
    → IsOrdered c'
unfolding check_task
check_task-IsOrdered args c c' reply e h = ground arith

handlers-IsOrdered :
    (clock : ℕ → ℕ) (now : ℕ) (args : TaskInfo) (c c' : Coordinator) (reply : TaskInfo)
    → handlers clock now args c ≡ some (c', reply)
    → IsOrdered c
    → IsOrdered c'
unfolding handlers
handlers-IsOrdered clock now args c c' reply e h =
    ground (arith, assign_task-IsOrdered clock now c h, check_task-IsOrdered args c c' reply)

pub Serves-IsOrdered : {c c' : Coordinator} → Serves c c' → IsOrdered c → IsOrdered c'
Serves-IsOrdered none_yet h = h
Serves-IsOrdered (call s clock now args e) h =
    handlers-IsOrdered clock now args _ _ _ e (Serves-IsOrdered s h)

hand_out_kind :
    (kind : RpcType) (now : ℕ) (c : Coordinator) (tasks : List Task)
    → ((hand_out kind now c tasks).1.rpc_type ≡ kind)
      ⊎ ((hand_out kind now c tasks).1.rpc_type ≡ rpc_fail)
unfolding hand_out
hand_out_kind kind now c tasks = ground arith

hands_out_reduce :
    (clock : ℕ → ℕ) (now : ℕ) (args : TaskInfo) (c c' : Coordinator) (reply : TaskInfo)
    → handlers clock now args c ≡ some (c', reply)
    → reply.rpc_type ≡ rpc_reduce
    → IsOrdered c
    → find_uncompleted_task c.map_task ≡ true
unfolding handlers check_task assign_task assign_mapping assign_reducing
hands_out_reduce clock now args c c' reply e reduces ordered =
    ground (arith, hand_out_kind rpc_map now c (time_out_task clock 0 c.map_task))

-- Every task of the list is complete.
abbrev pub AllComplete : List Task → Type 0
AllComplete tasks = (i : ℕ) (t : Task) → get_elem? tasks i ≡ some t → t.status ≡ complete

is_complete_lem : (s : Status) → is_complete s ≡ true → s ≡ complete
is_complete_lem s h = ground arith

find_uncompleted_task-AllComplete :
    (tasks : List Task) → find_uncompleted_task tasks ≡ true → AllComplete tasks
unfolding find_uncompleted_task
find_uncompleted_task-AllComplete [] h i t e = absurd (ground arith)
find_uncompleted_task-AllComplete (x ∷ tasks) h zero t e =
    ap (λ (t : Task). t.status) (sym (some_inj.0 e)) ∙ is_complete_lem x.status (ground (arith, h))
find_uncompleted_task-AllComplete (x ∷ tasks) h (suc i) t e =
    find_uncompleted_task-AllComplete tasks (ground (arith, h)) i t e

rpc_reduce_cases : (kind : RpcType) → (kind ≡ rpc_reduce) ⊎ (kind ≢ rpc_reduce)
rpc_reduce_cases rpc_reduce = inl refl
rpc_reduce_cases rpc_map = inr (λ e. cc)
rpc_reduce_cases rpc_request = inr (λ e. cc)
rpc_reduce_cases rpc_workdone = inr (λ e. cc)
rpc_reduce_cases rpc_fail = inr (λ e. cc)
rpc_reduce_cases rpc_alldone = inr (λ e. cc)

-- A job whose coordinator says that it is done has completed all of its map tasks and all of its
-- reduce tasks; and a call whose reply hands out a reduce task is answered only when all map tasks
-- are complete. This holds after every sequence of calls.
pub job_in_order :
    (files : List Bytes) (n_reduce : ℕ) (c c' : Coordinator) (clock : ℕ → ℕ) (now : ℕ)
    (args reply : TaskInfo)
    → Serves (make_coordinator files n_reduce) c
    → handlers clock now args c ≡ some (c', reply)
    → ((done c ≡ false) ⊎ (AllComplete c.map_task × AllComplete c.reduce_task))
      × ((reply.rpc_type ≢ rpc_reduce) ⊎ AllComplete c.map_task)
unfolding make_coordinator
job_in_order files n_reduce c c' clock now args reply s e =
    let ordered = Serves-IsOrdered s (inl refl) in
    (
      elim (Bool-cases (done c)) [
        | inl is ↦ inr (
          find_uncompleted_task-AllComplete c.map_task (ground arith),
          find_uncompleted_task-AllComplete c.reduce_task (ground arith),
        )
        | inr isnt ↦ inl isnt
      ],
      elim (rpc_reduce_cases reply.rpc_type) [
        | inl is ↦ inr (
            find_uncompleted_task-AllComplete c.map_task
              (hands_out_reduce clock now args c c' reply e is ordered))
        | inr isnt ↦ inl isnt
      ],
    )

-- What a report makes of the coordinator, and what any call does.
pub check_task_cases :
    (args : TaskInfo) (c c' : Coordinator) (reply : TaskInfo)
    → check_task args c ≡ some (c', reply)
    → (c' ≡ c)
      ⊎ ((ts : List Task) × (mark_task args.task_id c.map_task ≡ some ts)
          × (c' ≡ record c { map_task = ts }))
      ⊎ ((ts : List Task) × (mark_task args.task_id c.reduce_task ≡ some ts)
          × (c' ≡ record c { reduce_task = ts }))
unfolding check_task
check_task_cases args c c' reply e = by_stage c.stage refl
  where
    by_stage :
        (stage : Stage)
        → c.stage ≡ stage
        → (c' ≡ c)
          ⊎ ((ts : List Task) × (mark_task args.task_id c.map_task ≡ some ts)
              × (c' ≡ record c { map_task = ts }))
          ⊎ ((ts : List Task) × (mark_task args.task_id c.reduce_task ≡ some ts)
              × (c' ≡ record c { reduce_task = ts }))
    by_stage assign_map is = inl (ground arith)
    by_stage mapping is = elim (Option-cases (mark_task args.task_id c.map_task)) [
      | inl fails ↦ absurd (ground arith)
      | inr (ts, marks) ↦ inr (inl (ts, marks, ground arith))
    ]
    by_stage reducing is = elim (Option-cases (mark_task args.task_id c.reduce_task)) [
      | inl fails ↦ absurd (ground arith)
      | inr (ts, marks) ↦ inr (inr (ts, marks, ground arith))
    ]
    by_stage finished is = inl (ground arith)

pub handlers_cases :
    (clock : ℕ → ℕ) (now : ℕ) (args : TaskInfo) (c c' : Coordinator) (reply : TaskInfo)
    → handlers clock now args c ≡ some (c', reply)
    → (c' ≡ c) ⊎ (c' ≡ (assign_task clock now c).0) ⊎ (check_task args c ≡ some (c', reply))
unfolding handlers
handlers_cases clock now args c c' reply e = ground arith
