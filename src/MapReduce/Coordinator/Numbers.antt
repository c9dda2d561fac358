-- ===== src/MapReduce/Coordinator/Numbers.antt =====
-- src/mr/coordinator.go: each task stands at the index that is its number.
use sharded_kv.Prelude.{
  ℕ, zero, suc, ◌+◌, ◌≡◌, refl, inl, inr, some, List, [], ◌∷◌, Bytes, arith, get_or, set,
  Option-cases, by_test,
}
use sharded_kv.MapReduce.Coordinator.{
  Coordinator, Stage, assign_map, mapping, reducing, finished, TaskInfo, RpcType, Task, no_task,
  started, reported, hand_out, mark_task, time_out_task, find_idle_task, find_uncompleted_task,
  assign_mapping, assign_reducing, assign_task, check_task, handlers, map_tasks, reduce_tasks,
  make_coordinator, rpc_map, rpc_reduce,
}
use sharded_kv.MapReduce.Coordinator.Order.{
  Serves, none_yet, call, check_task_cases, handlers_cases,
}
use sharded_kv.MapReduce.Coordinator.Tasks.{
  IsNumbered, IsNumbered-cons, IsNumbered-later, time_out_task-IsNumbered,
}

abbrev pub AreNumbered : Coordinator → Type 0
AreNumbered c = IsNumbered 0 c.map_task × IsNumbered 0 c.reduce_task

set-IsNumbered :
    (k : ℕ) (ts : List Task) (i now : ℕ)
    → IsNumbered k ts
    → IsNumbered k (set ts i (started now (get_or ts i no_task)))
set-IsNumbered k [] i now h = h
set-IsNumbered k (t ∷ ts) zero now h = IsNumbered-cons k t (started now t) ts refl h
set-IsNumbered k (t ∷ ts) (suc i) now h =
    IsNumbered-later k t ts (set ts i (started now (get_or ts i no_task)))
      (set-IsNumbered (k + 1) ts i now) h

hand_out-IsNumbered :
    (kind : RpcType) (now : ℕ) (c : Coordinator) (ts : List Task)
    → IsNumbered 0 ts
    → IsNumbered 0 (hand_out kind now c ts).0
unfolding hand_out
hand_out-IsNumbered kind now c ts h = elim (Option-cases (find_idle_task 0 ts)) [
  | inl e ↦ rw (e, hand_out) h
  | inr (i, e) ↦ rw (e, hand_out) (set-IsNumbered 0 ts i now h)
]

mark_task-IsNumbered :
    (k i : ℕ) (ts ts' : List Task) → mark_task i ts ≡ some ts' → IsNumbered k ts → IsNumbered k ts'
unfolding mark_task
mark_task-IsNumbered k i [] ts' e h = absurd (ground arith)
mark_task-IsNumbered k zero (t ∷ ts) ts' e h =
    let same : ts' ≡ reported t ∷ ts = ground arith in
    rw same (IsNumbered-cons k t (reported t) ts (ground arith) h)
mark_task-IsNumbered k (suc i) (t ∷ ts) ts' e h = elim (Option-cases (mark_task i ts)) [
  | inl fails ↦ absurd (ground arith)
  | inr (ts1, marks) ↦
      let same : ts' ≡ t ∷ ts1 = ground arith in
      rw same (IsNumbered-later k t ts ts1 (mark_task-IsNumbered (k + 1) i ts ts1 marks) h)
]

assign_mapping-AreNumbered :
    (clock : ℕ → ℕ) (now : ℕ) (c : Coordinator)
    → AreNumbered c
    → AreNumbered (assign_mapping clock now c).0
unfolding assign_mapping
assign_mapping-AreNumbered clock now c (maps, reduces) =
    let tasks = time_out_task clock 0 c.map_task in
    let numbers = time_out_task-IsNumbered clock c.map_task maps in
    by_test (λ (p : Coordinator × TaskInfo). AreNumbered p.0) (find_uncompleted_task tasks)
      (λ all. (numbers, reduces))
      (λ some_left. (hand_out-IsNumbered rpc_map now c tasks numbers, reduces))

assign_reducing-AreNumbered :
    (clock : ℕ → ℕ) (now : ℕ) (c : Coordinator)
    → AreNumbered c
    → AreNumbered (assign_reducing clock now c).0
unfolding assign_reducing
assign_reducing-AreNumbered clock now c (maps, reduces) =
    let tasks = time_out_task clock 0 c.reduce_task in
    let numbers = time_out_task-IsNumbered clock c.reduce_task reduces in
    by_test (λ (p : Coordinator × TaskInfo). AreNumbered p.0) (find_uncompleted_task tasks)
      (λ all. (maps, numbers))
      (λ some_left. (maps, hand_out-IsNumbered rpc_reduce now c tasks numbers))

assign_task-AreNumbered :
    (clock : ℕ → ℕ) (now : ℕ) (c : Coordinator)
    → AreNumbered c
    → AreNumbered (assign_task clock now c).0
unfolding assign_task
assign_task-AreNumbered clock now c h = by_stage c.stage refl
  where
    by_stage : (stage : Stage) → c.stage ≡ stage → AreNumbered (assign_task clock now c).0
    by_stage assign_map is = rw (is, assign_task) h
    by_stage mapping is = rw (is, assign_task) (assign_mapping-AreNumbered clock now c h)
    by_stage reducing is = rw (is, assign_task) (assign_reducing-AreNumbered clock now c h)
    by_stage finished is = rw (is, assign_task) h

check_task-AreNumbered :
    (args : TaskInfo) (c c' : Coordinator) (reply : TaskInfo)
    → check_task args c ≡ some (c', reply)
    → AreNumbered c
    → AreNumbered c'
check_task-AreNumbered args c c' reply e (maps, reduces) =
    elim (check_task_cases args c c' reply e) [
      | inl same ↦ rw same (maps, reduces)
      | inr (inl (ts, marks, same)) ↦
          rw same (mark_task-IsNumbered 0 args.task_id c.map_task ts marks maps, reduces)
      | inr (inr (ts, marks, same)) ↦
          rw same (maps, mark_task-IsNumbered 0 args.task_id c.reduce_task ts marks reduces)
    ]

map_tasks-IsNumbered : (k : ℕ) (files : List Bytes) → IsNumbered k (map_tasks k files)
unfolding map_tasks
map_tasks-IsNumbered k [] i t e = absurd (ground arith)
map_tasks-IsNumbered k (f ∷ fs) zero t e = ground arith
map_tasks-IsNumbered k (f ∷ fs) (suc i) t e =
    let rest = map_tasks-IsNumbered (k + 1) fs i t e in omega arith

reduce_tasks-IsNumbered : (k n : ℕ) → IsNumbered k (reduce_tasks k n)
unfolding reduce_tasks
reduce_tasks-IsNumbered k zero i t e = absurd (ground arith)
reduce_tasks-IsNumbered k (suc n) zero t e = ground arith
reduce_tasks-IsNumbered k (suc n) (suc i) t e =
    let rest = reduce_tasks-IsNumbered (k + 1) n i t e in omega arith

handlers-AreNumbered :
    (clock : ℕ → ℕ) (now : ℕ) (args : TaskInfo) (c c' : Coordinator) (reply : TaskInfo)
    → handlers clock now args c ≡ some (c', reply)
    → AreNumbered c
    → AreNumbered c'
handlers-AreNumbered clock now args c c' reply e h =
    elim (handlers_cases clock now args c c' reply e) [
      | inl same ↦ rw same h
      | inr (inl same) ↦ rw same (assign_task-AreNumbered clock now c h)
      | inr (inr checks) ↦ check_task-AreNumbered args c c' reply checks h
    ]

pub Serves-AreNumbered : {c c' : Coordinator} → Serves c c' → AreNumbered c → AreNumbered c'
Serves-AreNumbered none_yet h = h
Serves-AreNumbered (call s clock now args e) h =
    handlers-AreNumbered clock now args _ _ _ e (Serves-AreNumbered s h)

pub make_coordinator-AreNumbered :
    (files : List Bytes) (n_reduce : ℕ) → AreNumbered (make_coordinator files n_reduce)
unfolding make_coordinator
make_coordinator-AreNumbered files n_reduce =
    (map_tasks-IsNumbered 0 files, reduce_tasks-IsNumbered 0 n_reduce)
