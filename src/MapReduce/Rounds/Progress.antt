-- ===== src/MapReduce/Rounds/Progress.antt =====
-- src/mr/coordinator.go and src/mr/worker.go: that a worker brings a job to its end.
use sharded_kv.Prelude.{
  ℕ, zero, suc, ◌+◌, ◌<◌, ◌≡◌, ◌≢◌, subst, sym, refl, ◌⊎◌, inl, inr, true, false, some, List, Bytes,
  arith, get_or, set,
}
use sharded_kv.MapReduce.Coordinator.{
  Coordinator, TaskInfo, RpcType, rpc_map, rpc_reduce, rpc_workdone, zero_info, fail_info,
  task_info, Stage, Task, assign_map, mapping, reducing, finished, time_limit, find_idle_task,
  hand_out, time_out_task, assign_mapping, assign_reducing, assign_task, check_task, handlers, done,
  make_coordinator, mark_task, no_task, started,
}
use sharded_kv.MapReduce.Coordinator.Numbers.{Serves-AreNumbered, make_coordinator-AreNumbered}
use sharded_kv.MapReduce.Coordinator.Order.{Serves, Serves-IsOrdered}
use sharded_kv.MapReduce.Coordinator.Tasks.{undone, IsOld, IsNumbered, work_cases}
use sharded_kv.MapReduce.Rounds.{worker_round, worker_rounds, is_work, report_args, request_args}

-- The tasks are numbered, and all that is being worked on was handed out at `s` or before.
pub record IsReady (s : ℕ) (c : Coordinator) : Type 0 where
  pub old_maps : IsOld s c.map_task
  pub old_reduces : IsOld s c.reduce_task
  pub map_numbers : IsNumbered 0 c.map_task
  pub reduce_numbers : IsNumbered 0 c.reduce_task

-- The rounds that are left.
abbrev pub left_of : Stage → Coordinator → ℕ
left_of assign_map c = 0
left_of mapping c = undone c.map_task + undone c.reduce_task + 2
left_of reducing c = undone c.reduce_task + 1
left_of finished c = 0

abbrev pub left : Coordinator → ℕ
left c = left_of c.stage c

hand_out_lem :
    (kind : RpcType) (now : ℕ) (c : Coordinator) (ts : List Task) (i : ℕ) (t : Task)
    → find_idle_task 0 ts ≡ some i
    → get_or ts i no_task ≡ t
    → hand_out kind now c ts ≡ (set ts i (started now t), task_info kind i now c t)
unfolding hand_out
hand_out_lem kind now c ts i t found at_i = rw (found, hand_out, at_i) refl

round_without_work :
    (clock : ℕ → ℕ) (now : ℕ) (c c1 : Coordinator) (reply : TaskInfo)
    → handlers clock now request_args c ≡ some (c1, reply)
    → is_work reply.rpc_type ≡ false
    → worker_round clock now c ≡ some c1
unfolding worker_round
round_without_work clock now c c1 reply assigns idles = rw (assigns, worker_round, idles) refl

round_with_work :
    (clock : ℕ → ℕ) (now : ℕ) (c c1 c2 : Coordinator) (reply answer : TaskInfo)
    → handlers clock now request_args c ≡ some (c1, reply)
    → is_work reply.rpc_type ≡ true
    → handlers clock now (report_args reply) c1 ≡ some (c2, answer)
    → worker_round clock now c ≡ some c2
unfolding worker_round
round_with_work clock now c c1 c2 reply answer assigns works checks =
    rw (assigns, worker_round, works, checks) refl

-- A round brings the job one step further.
abbrev Advances : ℕ → (ℕ → ℕ) → ℕ → Coordinator → Type 0
Advances s clock now c =
    (c' : Coordinator) × (worker_round clock now c ≡ some c')
    × IsReady s c'
    × (c'.stage ≢ assign_map)
    × (left c' + 1 ≡ left c)

map_round :
    (s now : ℕ) (clock : ℕ → ℕ) (c : Coordinator)
    → ((i : ℕ) → s + time_limit < clock i)
    → IsReady s c
    → c.stage ≡ mapping
    → Advances s clock now c
unfolding handlers assign_task assign_mapping check_task
map_round s now clock c late ready is =
    let ts1 = time_out_task clock 0 c.map_task in
    elim (work_cases s now clock c.map_task late ready.old_maps ready.map_numbers) [
      | inl (all, none_left, old, numbers) ↦ (
        record c { map_task = ts1; stage = reducing },
        round_without_work clock now c _ fail_info (rw (is, all) refl) refl,
        record {
          old_maps = old;
          old_reduces = ready.old_reduces;
          map_numbers = numbers;
          reduce_numbers = ready.reduce_numbers;
        },
        λ e. absurd (ground arith),
        rw is (omega (arith, none_left)),
      )
      | inr (i, t, ts', some_left, found, at_i, number, marks, fewer, old, numbers) ↦
          let c1 = record c { map_task = set ts1 i (started now t) } in
          let reply = task_info rpc_map i now c t in
          let hands = hand_out_lem rpc_map now c ts1 i t found at_i in
          let assigns : handlers clock now request_args c ≡ some (c1, reply) =
            rw (is, some_left, hands) refl in
          let marked : mark_task t.task_id (set ts1 i (started now t)) ≡ some ts' =
            subst (λ j. mark_task j (set ts1 i (started now t)) ≡ some ts') (sym number) marks in
          let checks : handlers clock now (report_args reply) c1
              ≡ some (record c { map_task = ts' }, record zero_info { rpc_type = rpc_workdone }) =
            simp (is, marked) in
          (
            record c { map_task = ts' },
            round_with_work clock now c c1 _ reply _ assigns refl checks,
            record {
              old_maps = old;
              old_reduces = ready.old_reduces;
              map_numbers = numbers;
              reduce_numbers = ready.reduce_numbers;
            },
            λ e. absurd (ground arith),
            rw is (omega (arith, fewer)),
          )
    ]

reduce_round :
    (s now : ℕ) (clock : ℕ → ℕ) (c : Coordinator)
    → ((i : ℕ) → s + time_limit < clock i)
    → IsReady s c
    → c.stage ≡ reducing
    → Advances s clock now c
unfolding handlers assign_task assign_reducing check_task
reduce_round s now clock c late ready is =
    let ts1 = time_out_task clock 0 c.reduce_task in
    elim (work_cases s now clock c.reduce_task late ready.old_reduces ready.reduce_numbers) [
      | inl (all, none_left, old, numbers) ↦ (
        record c { reduce_task = ts1; stage = finished },
        round_without_work clock now c _ fail_info (rw (is, all) refl) refl,
        record {
          old_maps = ready.old_maps;
          old_reduces = old;
          map_numbers = ready.map_numbers;
          reduce_numbers = numbers;
        },
        λ e. absurd (ground arith),
        rw is (omega (arith, none_left)),
      )
      | inr (i, t, ts', some_left, found, at_i, number, marks, fewer, old, numbers) ↦
          let c1 = record c { reduce_task = set ts1 i (started now t) } in
          let reply = task_info rpc_reduce i now c t in
          let hands = hand_out_lem rpc_reduce now c ts1 i t found at_i in
          let assigns : handlers clock now request_args c ≡ some (c1, reply) =
            rw (is, some_left, hands) refl in
          let marked : mark_task t.task_id (set ts1 i (started now t)) ≡ some ts' =
            subst (λ j. mark_task j (set ts1 i (started now t)) ≡ some ts') (sym number) marks in
          let checks : handlers clock now (report_args reply) c1
              ≡ some
                  (record c { reduce_task = ts' }, record zero_info { rpc_type = rpc_workdone }) =
            simp (is, marked) in
          (
            record c { reduce_task = ts' },
            round_with_work clock now c c1 _ reply _ assigns refl checks,
            record {
              old_maps = ready.old_maps;
              old_reduces = old;
              map_numbers = ready.map_numbers;
              reduce_numbers = numbers;
            },
            λ e. absurd (ground arith),
            rw is (omega (arith, fewer)),
          )
    ]

round_lem :
    (s now : ℕ) (clock : ℕ → ℕ) (c : Coordinator)
    → ((i : ℕ) → s + time_limit < clock i)
    → IsReady s c
    → c.stage ≢ assign_map
    → (done c ≡ true) ⊎ Advances s clock now c
round_lem s now clock c late ready past = by_stage c.stage refl
  where
    by_stage : (stage : Stage) → c.stage ≡ stage → (done c ≡ true) ⊎ Advances s clock now c
    by_stage assign_map is = absurd (past is)
    by_stage mapping is = inr (map_round s now clock c late ready is)
    by_stage reducing is = inr (reduce_round s now clock c late ready is)
    by_stage finished is = inl (rw is refl)

finishes :
    (s r : ℕ) (clock : ℕ → ℕ → ℕ) (now : ℕ → ℕ) (c : Coordinator)
    → ((k i : ℕ) → s + time_limit < clock k i)
    → IsReady s c
    → c.stage ≢ assign_map
    → left c ≡ r
    → (c' : Coordinator) × (worker_rounds r clock now c ≡ some c') × (done c' ≡ true)
unfolding worker_rounds
finishes s zero clock now c late ready past is = (c, refl, over_of c.stage refl)
  where
    over_of : (stage : Stage) → c.stage ≡ stage → done c ≡ true
    over_of assign_map at_stage = absurd (past at_stage)
    over_of mapping at_stage = absurd (ground arith)
    over_of reducing at_stage = absurd (ground arith)
    over_of finished at_stage = rw at_stage refl
finishes s (suc r) clock now c late ready past is =
    elim (round_lem s (now r) (clock r) c (late r) ready past) [
      | inl over ↦ absurd (ground arith)
      | inr (c1, advances, ready1, past1, fewer) ↦
          let (c', ends, over) = finishes s r clock now c1 late ready1 past1 (omega arith) in
          (c', rw (advances, worker_rounds) ends, over)
    ]

-- Take any state of a job, in which any number of workers may have taken tasks and gone, and a time
-- `s` since which no task of the list has been handed out. A worker that comes after the time limit
-- has passed, and whose calls all get through, finishes the job: in as many rounds as there are
-- tasks not complete, and one for each change of stage that is left, it is done.
pub worker_finishes :
    (files : List Bytes) (n_reduce s : ℕ) (clock : ℕ → ℕ → ℕ) (now : ℕ → ℕ) (c : Coordinator)
    → Serves (make_coordinator files n_reduce) c
    → IsOld s c.map_task
    → IsOld s c.reduce_task
    → ((k i : ℕ) → s + time_limit < clock k i)
    → (c' : Coordinator) × (worker_rounds (left c) clock now c ≡ some c') × (done c' ≡ true)
unfolding make_coordinator
worker_finishes files n_reduce s clock now c served old_maps old_reduces late =
    let (map_numbers, reduce_numbers) =
      Serves-AreNumbered served (make_coordinator-AreNumbered files n_reduce) in
    let ready : IsReady s c = record {
      old_maps = old_maps;
      old_reduces = old_reduces;
      map_numbers = map_numbers;
      reduce_numbers = reduce_numbers;
    } in
    finishes s (left c) clock now c late ready
      (λ e. let ordered = Serves-IsOrdered served (inl refl) in ground arith) refl
