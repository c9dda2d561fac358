-- ===== src/MapReduce/Coordinator/Kept.antt =====
-- src/mr/coordinator.go: a task that is complete, for every call.
use sharded_kv.Prelude.{
  ℕ, ◌+◌, ◌≡◌, refl, inl, inr, some, List, arith, get_elem?, get_or, Option-cases, by_test,
}
use sharded_kv.MapReduce.Coordinator.{
  Coordinator, Stage, assign_map, mapping, reducing, finished, TaskInfo, RpcType, Task, complete,
  timed_out, no_task, started, hand_out, time_out_task, find_idle_task, find_uncompleted_task,
  assign_mapping, assign_reducing, assign_task, handlers, rpc_map, rpc_reduce,
}
use sharded_kv.MapReduce.Coordinator.Order.{check_task_cases, handlers_cases}
use sharded_kv.MapReduce.Coordinator.Tasks.{
  get_elem?-time_out_task, find_idle_task_is_idle, set_keeps, mark_task_keeps,
}

module _ (i : ℕ) (t : Task) (complete_t : t.status ≡ complete) where
  -- Task `t` stands at index `i`.
  abbrev pub IsAt : List Task → Type 0
  IsAt ts = get_elem? ts i ≡ some t

  time_out_task-IsAt : (clock : ℕ → ℕ) (ts : List Task) → IsAt ts → IsAt (time_out_task clock 0 ts)
  time_out_task-IsAt clock ts h =
      let same : timed_out (clock (0 + i)) t ≡ t = ground arith in
      rw same at (get_elem?-time_out_task clock 0 ts i t h)

  hand_out-IsAt :
      (kind : RpcType) (now : ℕ) (c : Coordinator) (ts : List Task)
      → IsAt ts
      → IsAt (hand_out kind now c ts).0
  unfolding hand_out
  hand_out-IsAt kind now c ts h = elim (Option-cases (find_idle_task 0 ts)) [
    | inl e ↦ rw (e, hand_out) h
    | inr (k, e) ↦
        let (j, u, at_j, there, is) = find_idle_task_is_idle 0 ts k e in
        let same : k ≡ j = omega (arith, at_j) in
        let v = started now (get_or ts k no_task) in
        rw (e, hand_out)
          (rw same (set_keeps ts i j t u (started now (get_or ts j no_task)) h there complete_t is))
  ]

  abbrev Stays : Coordinator → Coordinator → Type 0
  Stays c c' = (IsAt c.map_task → IsAt c'.map_task) × (IsAt c.reduce_task → IsAt c'.reduce_task)

  assign_mapping-Stays :
      (clock : ℕ → ℕ) (now : ℕ) (c : Coordinator) → Stays c (assign_mapping clock now c).0
  unfolding assign_mapping
  assign_mapping-Stays clock now c =
      by_test (λ (p : Coordinator × TaskInfo). Stays c p.0)
        (find_uncompleted_task (time_out_task clock 0 c.map_task))
        (λ all. (time_out_task-IsAt clock c.map_task, λ h. h))
        (λ some_left. (
          λ h.
              hand_out-IsAt rpc_map now c (time_out_task clock 0 c.map_task)
                (time_out_task-IsAt clock c.map_task h),
          λ h. h,
        ))

  assign_reducing-Stays :
      (clock : ℕ → ℕ) (now : ℕ) (c : Coordinator) → Stays c (assign_reducing clock now c).0
  unfolding assign_reducing
  assign_reducing-Stays clock now c =
      by_test (λ (p : Coordinator × TaskInfo). Stays c p.0)
        (find_uncompleted_task (time_out_task clock 0 c.reduce_task))
        (λ all. (λ h. h, time_out_task-IsAt clock c.reduce_task))
        (λ some_left. (
          λ h. h,
          λ h.
              hand_out-IsAt rpc_reduce now c (time_out_task clock 0 c.reduce_task)
                (time_out_task-IsAt clock c.reduce_task h),
        ))

  assign_task-Stays :
      (clock : ℕ → ℕ) (now : ℕ) (c : Coordinator) → Stays c (assign_task clock now c).0
  unfolding assign_task
  assign_task-Stays clock now c = by_stage c.stage refl
    where
      by_stage : (stage : Stage) → c.stage ≡ stage → Stays c (assign_task clock now c).0
      by_stage assign_map is = rw (is, assign_task) (λ h. h, λ h. h)
      by_stage mapping is = rw (is, assign_task) (assign_mapping-Stays clock now c)
      by_stage reducing is = rw (is, assign_task) (assign_reducing-Stays clock now c)
      by_stage finished is = rw (is, assign_task) (λ h. h, λ h. h)

  -- A task that is complete, with all of its fields, stays where it is whatever call the coordinator
  -- answers; this holds of the map tasks and of the reduce tasks.
  pub complete_stays :
      (clock : ℕ → ℕ) (now : ℕ) (args : TaskInfo) (c c' : Coordinator) (reply : TaskInfo)
      → handlers clock now args c ≡ some (c', reply)
      → (get_elem? c.map_task i ≡ some t → get_elem? c'.map_task i ≡ some t)
        × (get_elem? c.reduce_task i ≡ some t → get_elem? c'.reduce_task i ≡ some t)
  complete_stays clock now args c c' reply e = elim (handlers_cases clock now args c c' reply e) [
    | inl same ↦ rw same (λ h. h, λ h. h)
    | inr (inl same) ↦ rw same (assign_task-Stays clock now c)
    | inr (inr checks) ↦ elim (check_task_cases args c c' reply checks) [
      | inl same ↦ rw same (λ h. h, λ h. h)
      | inr (inl (ts, marks, same)) ↦
          rw same (λ h. mark_task_keeps args.task_id c.map_task ts i t marks h complete_t, λ h. h)
      | inr (inr (ts, marks, same)) ↦
          rw same
            (λ h. h, λ h. mark_task_keeps args.task_id c.reduce_task ts i t marks h complete_t)
    ]
  ]
