-- ===== src/MapReduce/Tests.antt =====
-- Runs of the MapReduce program, src/mr, on small inputs.
use sharded_kv.Prelude.{
  ℕ, zero, suc, ◌%◌, ◌<◌, ◌≡◌, ◌≢◌, refl, ◌⊎◌, true, false, none, some, List, [], ◌∷◌, arith, Bytes,
  bytes_beq, get_elem?, ltb, if◌then◌else◌,
}
use mathlib.Core.List.{Memᴰ}
use sharded_kv.MapReduce.Coordinator.{
  Coordinator, Task, TaskInfo, reducing, working, complete, rpc_reduce, rpc_map, zero_info,
  make_coordinator, handlers, assign_task, done,
}
use sharded_kv.MapReduce.Coordinator.Order.{AllComplete, Serves, none_yet, call, job_in_order}
use sharded_kv.MapReduce.Coordinator.Kept.{complete_stays}
use sharded_kv.MapReduce.Coordinator.Tasks.{IsOld}
use sharded_kv.MapReduce.Rounds.{request_args, report_args, worker_rounds}
use sharded_kv.MapReduce.Rounds.Progress.{left, worker_finishes}
use sharded_kv.MapReduce.Rounds.Late.{late_report_ends_job}
use sharded_kv.MapReduce.Worker.{
  KeyValue, bytes_leb, Files, ihash, exec_maps, reduce_groups, sequential_groups,
}
use sharded_kv.MapReduce.Worker.Groups.{groups_of}
use sharded_kv.MapReduce.Worker.Buckets.{AllKept}
use sharded_kv.MapReduce.Worker.Whole.{AreSame, same_as_sequential}
use sharded_kv.MapReduce.Worker.Sorting.{insertion, insertion_sort}

-- Two files, called 97 and 98, and one reduce task.
abbrev job : Coordinator
job = make_coordinator ((97 ∷ []) ∷ (98 ∷ []) ∷ []) 1

-- At time 5 a worker gets map task 0, and is not heard of again.
abbrev lost : Coordinator
lost = (assign_task (λ i. 5) 5 job).0

job_to_lost : Serves job lost
unfolding handlers
job_to_lost = call none_yet (λ i. 5) 5 request_args refl

abbrev later_clock : ℕ → ℕ
later_clock i = 20000000000

-- Another worker that starts later than the time limit does the whole job.
abbrev later : ℕ → ℕ → ℕ
later r i = 10000000006

rounds_left : left lost ≡ 5
unfolding assign_task make_coordinator
rounds_left = refl

lost_maps : IsOld 5 lost.map_task
unfolding assign_task make_coordinator
lost_maps zero t e w = ground arith
lost_maps (suc zero) t e w = ground arith
lost_maps (suc (suc i)) t e w = absurd (ground arith)

lost_reduces : IsOld 5 lost.reduce_task
unfolding assign_task make_coordinator
lost_reduces zero t e w = ground arith
lost_reduces (suc i) t e w = absurd (ground arith)

worker_finishes_example :
    (c : Coordinator) × (worker_rounds (left lost) later (λ r. 10000000006) lost ≡ some c)
    × (done c ≡ true)
worker_finishes_example =
    worker_finishes ((97 ∷ []) ∷ (98 ∷ []) ∷ []) 1 5 later (λ r. 10000000006) lost job_to_lost
      lost_maps lost_reduces (λ r i. omega arith)

job_in_order_example :
    let (next, reply) = assign_task later_clock 20000000000 lost in
    ((done lost ≡ false) ⊎ (AllComplete lost.map_task × AllComplete lost.reduce_task))
    × ((reply.rpc_type ≢ rpc_reduce) ⊎ AllComplete lost.map_task)
unfolding handlers
job_in_order_example =
    job_in_order ((97 ∷ []) ∷ (98 ∷ []) ∷ []) 1 lost (assign_task later_clock 20000000000 lost).0
      later_clock 20000000000 request_args (assign_task later_clock 20000000000 lost).1 job_to_lost
      refl

-- The coordinator when map task 0 is complete and map task 1 has just been handed out.
abbrev map_0 : Task
map_0 = record { task_id = 0; file_name = 97 ∷ []; start_time = 5; status = complete }

abbrev half : Coordinator
half = record job {
  map_task =
      map_0 ∷ record { task_id = 1; file_name = 98 ∷ []; start_time = 6; status = working } ∷ [];
}

complete_stays_example :
    (get_elem? half.map_task 0 ≡ some map_0
      → get_elem? (assign_task later_clock 20000000000 half).0.map_task 0 ≡ some map_0)
    × (get_elem? half.reduce_task 0 ≡ some map_0
        → get_elem? (assign_task later_clock 20000000000 half).0.reduce_task 0 ≡ some map_0)
unfolding handlers
complete_stays_example =
    complete_stays 0 map_0 refl later_clock 20000000000 request_args half
      (assign_task later_clock 20000000000 half).0 (assign_task later_clock 20000000000 half).1 refl

-- All map tasks are complete, and the only reduce task is in work; the worker that was given map
-- task 0 first now reports it.
abbrev reduce_0 : Task
reduce_0 = record { task_id = 0; file_name = []; start_time = 20000000000; status = working }

abbrev at_reduce : Coordinator
at_reduce = record job {
  stage = reducing;
  map_task =
      map_0 ∷ record { task_id = 1; file_name = 98 ∷ []; start_time = 6; status = complete } ∷ [];
  reduce_task = reduce_0 ∷ [];
}

abbrev given_map_0 : TaskInfo
given_map_0 = record zero_info {
  rpc_type = rpc_map;
  filename = 97 ∷ [];
  n_map = 2;
  n_reduce = 1;
  start_time = 5;
}

late_report_ends_job_example :
    (c1 c2 : Coordinator) × (answer reply : TaskInfo) × (handlers later_clock 20000000001
        (report_args given_map_0)
        at_reduce
      ≡ some (c1, answer))
    × (handlers later_clock 20000000001 request_args c1 ≡ some (c2, reply))
    × (done c2 ≡ true)
late_report_ends_job_example =
    late_report_ends_job later_clock 20000000001 at_reduce given_map_0 reduce_0 refl refl refl refl

-- A program that maps the content to one pair, whose key is the content, with the name as value.
abbrev mapf : Bytes → Bytes → List KeyValue
mapf name content = record { key = content; value = name } ∷ []

-- Three files of which two hold the byte 120 and one the byte 121.
abbrev name : ℕ → Bytes
name i = i ∷ []

abbrev content : ℕ → Bytes
content zero = 120 ∷ []
content (suc zero) = 121 ∷ []
content (suc (suc i)) = 120 ∷ []

abbrev no_files : Files
no_files m r = none

-- Task 1 is executed twice.
abbrev order : List ℕ
order = 1 ∷ 2 ∷ 1 ∷ 0 ∷ []

-- FNV-1a of the byte 97 is 3826002220.
hash_97 : ihash (97 ∷ []) ≡ 3826002220 % 2147483648
unfolding ihash
hash_97 = refl

hash_120 : ihash (120 ∷ []) % 2 ≡ 1
unfolding ihash
hash_120 = refl

sequential_120 :
    groups_of (120 ∷ []) (sequential_groups mapf insertion name content 3)
    ≡ ((0 ∷ []) ∷ (2 ∷ []) ∷ []) ∷ []
unfolding sequential_groups insertion_sort bytes_leb bytes_beq
sequential_120 = refl

all_in_order : (m : ℕ) → m < 3 → Memᴰ m order
all_in_order zero lt = Memᴰ.tail (Memᴰ.tail (Memᴰ.tail (Memᴰ.head refl)))
all_in_order (suc zero) lt = Memᴰ.head refl
all_in_order (suc (suc zero)) lt = Memᴰ.tail (Memᴰ.head refl)
all_in_order (suc (suc (suc m))) lt = absurd (omega arith)

-- A byte from 128 on, where it stands for no character, becomes U+FFFD.
abbrev ascii : Bytes → Bytes
ascii [] = []
ascii (b ∷ bs) = if ltb b 128 then b ∷ ascii bs else 239 ∷ 191 ∷ 189 ∷ ascii bs

all_kept : (m : ℕ) → m < 3 → AllKept ascii (mapf (name m) (content m))
all_kept zero lt = (refl, tt)
all_kept (suc zero) lt = (refl, tt)
all_kept (suc (suc zero)) lt = (refl, tt)
all_kept (suc (suc (suc m))) lt = absurd (omega arith)

same_as_sequential_example :
    (files : Files) × (exec_maps ascii mapf 2 name content order no_files ≡ some files)
    × ((r : ℕ) (k : Bytes)
        → r < 2
        → (gs : List (Bytes × List Bytes)) × (reduce_groups insertion files r 3 ≡ some gs)
          × (ihash k % 2 ≡ r
              → AreSame
                  (groups_of k gs)
                  (groups_of k (sequential_groups mapf insertion name content 3)))
          × (ihash k % 2 ≢ r → groups_of k gs ≡ []))
same_as_sequential_example =
    same_as_sequential ascii mapf 1 name content insertion insertion 3 order no_files all_kept
      all_in_order
