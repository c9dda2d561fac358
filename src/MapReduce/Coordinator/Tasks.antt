-- ===== src/MapReduce/Coordinator/Tasks.antt =====
-- src/mr/coordinator.go: the loops over a list of tasks.
use sharded_kv.Prelude.{
  ℕ, zero, suc, ◌+◌, ◌<◌, ◌≤◌, ◌≡◌, refl, sym, ap, ◌∙◌, ◌⊎◌, inl, inr, Bool, true, false, some,
  List, [], ◌∷◌, arith, Bool-cases, Option-cases, get_elem?, get_or, set, if◌then◌else◌,
}
use sharded_kv.MapReduce.Coordinator.{
  Task, idle, complete, is_idle, is_working, is_complete, time_limit, find_idle_task,
  find_uncompleted_task, timed_out, time_out_task, no_task, started, mark_task,
}

-- How many tasks are not complete.
abbrev pub undone : List Task → ℕ
undone [] = 0
undone (t ∷ ts) = (if is_complete t.status then 0 else 1) + undone ts

abbrev pub HasNoneWorking : List Task → Type 0
HasNoneWorking ts = (i : ℕ) (t : Task) → get_elem? ts i ≡ some t → is_working t.status ≡ false

-- Every task that is being worked on was handed out at `s` or before.
abbrev pub IsOld : ℕ → List Task → Type 0
IsOld s ts =
    (i : ℕ) (t : Task) → get_elem? ts i ≡ some t → is_working t.status ≡ true → t.start_time ≤ s

-- Task `i` is the one at index `i`; `k` is the index of the first.
abbrev pub IsNumbered : ℕ → List Task → Type 0
IsNumbered k ts = (i : ℕ) (t : Task) → get_elem? ts i ≡ some t → t.task_id ≡ k + i

pub get_elem?-time_out_task :
    (clock : ℕ → ℕ) (k : ℕ) (ts : List Task) (i : ℕ) (t : Task)
    → get_elem? ts i ≡ some t
    → get_elem? (time_out_task clock k ts) i ≡ some (timed_out (clock (k + i)) t)
unfolding time_out_task
get_elem?-time_out_task clock k [] i t e = absurd (ground arith)
get_elem?-time_out_task clock k (x ∷ ts) zero t e = ground arith
get_elem?-time_out_task clock k (x ∷ ts) (suc i) t e =
    let there = get_elem?-time_out_task clock (k + 1) ts i t e in
    let same : k + suc i ≡ k + 1 + i = omega arith in rw same there

-- And the other way round.
pub time_out_task_from :
    (clock : ℕ → ℕ) (k : ℕ) (ts : List Task) (i : ℕ) (t' : Task)
    → get_elem? (time_out_task clock k ts) i ≡ some t'
    → (t : Task) × (get_elem? ts i ≡ some t) × (timed_out (clock (k + i)) t ≡ t')
unfolding time_out_task
time_out_task_from clock k [] i t' e = absurd (ground arith)
time_out_task_from clock k (x ∷ ts) zero t' e = (x, refl, ground arith)
time_out_task_from clock k (x ∷ ts) (suc i) t' e =
    let (t, there, same) = time_out_task_from clock (k + 1) ts i t' e in
    let sum : k + suc i ≡ k + 1 + i = omega arith in (t, there, rw sum same)

pub undone-time_out_task :
    (clock : ℕ → ℕ) (k : ℕ) (ts : List Task) → undone (time_out_task clock k ts) ≡ undone ts
unfolding time_out_task
undone-time_out_task clock k [] = refl
undone-time_out_task clock k (t ∷ ts) = ground (arith, undone-time_out_task clock (k + 1) ts)

HasNoneWorking-cons :
    (t : Task) (ts : List Task)
    → is_working t.status ≡ false
    → HasNoneWorking ts
    → HasNoneWorking (t ∷ ts)
HasNoneWorking-cons t ts here there zero u e = ground arith
HasNoneWorking-cons t ts here there (suc i) u e = there i u e

-- Either all tasks are complete, or an idle one is found.
pub find_cases :
    (k : ℕ) (ts : List Task)
    → HasNoneWorking ts
    → ((find_uncompleted_task ts ≡ true) × (undone ts ≡ 0))
      ⊎ ((i : ℕ) × (t : Task) × (find_uncompleted_task ts ≡ false)
          × (find_idle_task k ts ≡ some (k + i))
          × (get_elem? ts i ≡ some t)
          × (t.status ≡ idle))
unfolding find_uncompleted_task find_idle_task
find_cases k [] h = inl (refl, refl)
find_cases k (t ∷ ts) h =
    let here = h zero t refl in
    elim (Bool-cases (is_idle t.status)) [
      | inl e ↦ inr (zero, t, ground arith, ground arith, refl, ground arith)
      | inr e ↦ elim (find_cases (k + 1) ts (λ i u f. h (suc i) u f)) [
        | inl (all, none_left) ↦ inl (ground arith, ground arith)
        | inr (i, u, some_left, found, there, is) ↦
            inr (suc i, u, ground arith, ground arith, there, is)
      ]
    ]

pub find_idle_task_is_idle :
    (k : ℕ) (ts : List Task) (i : ℕ)
    → find_idle_task k ts ≡ some i
    → (j : ℕ) × (t : Task) × (i ≡ k + j) × (get_elem? ts j ≡ some t) × (t.status ≡ idle)
unfolding find_idle_task
find_idle_task_is_idle k [] i e = absurd (ground arith)
find_idle_task_is_idle k (t ∷ ts) i e = elim (Bool-cases (is_idle t.status)) [
  | inl yes_idle ↦ (zero, t, ground arith, refl, ground arith)
  | inr not_idle ↦
      let (j, u, at_j, there, is) = find_idle_task_is_idle (k + 1) ts i (ground arith) in
      (suc j, u, omega (arith, at_j), there, is)
]

-- A complete task is not the one that is handed out.
pub set_keeps :
    (ts : List Task) (i j : ℕ) (t u v : Task)
    → get_elem? ts i ≡ some t
    → get_elem? ts j ≡ some u
    → t.status ≡ complete
    → u.status ≡ idle
    → get_elem? (set ts j v) i ≡ some t
set_keeps [] i j t u v e f c d = absurd (ground arith)
set_keeps (x ∷ ts) zero zero t u v e f c d = absurd (ground arith)
set_keeps (x ∷ ts) zero (suc j) t u v e f c d = e
set_keeps (x ∷ ts) (suc i) zero t u v e f c d = e
set_keeps (x ∷ ts) (suc i) (suc j) t u v e f c d = set_keeps ts i j t u v e f c d

pub mark_task_keeps :
    (j : ℕ) (ts ts' : List Task) (i : ℕ) (t : Task)
    → mark_task j ts ≡ some ts'
    → get_elem? ts i ≡ some t
    → t.status ≡ complete
    → get_elem? ts' i ≡ some t
unfolding mark_task
mark_task_keeps j [] ts' i t e f c = absurd (ground arith)
mark_task_keeps zero (x ∷ ts) ts' zero t e f c = ground arith
mark_task_keeps zero (x ∷ ts) ts' (suc i) t e f c = ground arith
mark_task_keeps (suc j) (x ∷ ts) ts' zero t e f c = ground arith
mark_task_keeps (suc j) (x ∷ ts) ts' (suc i) t e f c = elim (Option-cases (mark_task j ts)) [
  | inl fails ↦ absurd (ground arith)
  | inr (ts1, marks) ↦
      let rest = mark_task_keeps j ts ts1 i t marks f c in
      let same : ts' ≡ x ∷ ts1 = ground arith in rw same rest
]

pub IsNumbered-cons :
    (k : ℕ) (t t' : Task) (ts : List Task)
    → t'.task_id ≡ t.task_id
    → IsNumbered k (t ∷ ts)
    → IsNumbered k (t' ∷ ts)
IsNumbered-cons k t t' ts same h zero u e = let first = h zero t refl in ground arith
IsNumbered-cons k t t' ts same h (suc i) u e = h (suc i) u e

pub IsNumbered-later :
    (k : ℕ) (t : Task) (ts ts' : List Task)
    → (IsNumbered (k + 1) ts → IsNumbered (k + 1) ts')
    → IsNumbered k (t ∷ ts)
    → IsNumbered k (t ∷ ts')
IsNumbered-later k t ts ts' rest h zero u e = h zero u e
IsNumbered-later k t ts ts' rest h (suc i) u e =
    omega (arith, rest (λ j v f. omega (arith, h (suc j) v f)) i u e)

-- The task that was handed out is marked complete, and one task less is left.
pub mark_task_finishes :
    (ts : List Task) (i now : ℕ) (t : Task)
    → get_elem? ts i ≡ some t
    → t.status ≡ idle
    → HasNoneWorking ts
    → (ts' : List Task) × (mark_task i (set ts i (started now t)) ≡ some ts')
      × (undone ts' + 1 ≡ undone ts)
      × HasNoneWorking ts'
      × ((k : ℕ) → IsNumbered k ts → IsNumbered k ts')
unfolding mark_task
mark_task_finishes [] i now t e is none_working = absurd (ground arith)
mark_task_finishes (x ∷ ts) zero now t e is none_working = (
  record (started now t) { status = complete } ∷ ts,
  refl,
  ground arith,
  HasNoneWorking-cons _ ts refl (λ j u f. none_working (suc j) u f),
  λ k numbered.
      IsNumbered-cons k x (record (started now t) { status = complete }) ts (ground arith) numbered,
)
mark_task_finishes (x ∷ ts) (suc i) now t e is none_working =
    let (ts', marks, fewer, still, numbers) =
      mark_task_finishes ts i now t e is (λ j u f. none_working (suc j) u f) in
    (
      x ∷ ts',
      rw marks refl,
      omega (arith, fewer),
      HasNoneWorking-cons x ts' (none_working zero x refl) still,
      λ k numbered. IsNumbered-later k x ts ts' (numbers (k + 1)) numbered,
    )

pub get_or_at : (ts : List Task) (i : ℕ) (t d : Task) → get_elem? ts i ≡ some t → get_or ts i d ≡ t
get_or_at [] i t d e = absurd (ground arith)
get_or_at (x ∷ ts) zero t d e = ground arith
get_or_at (x ∷ ts) (suc i) t d e = get_or_at ts i t d e

-- Once the clock is past the limit for all that is being worked on, nothing is.
none_working_after :
    (s : ℕ) (clock : ℕ → ℕ) (ts : List Task)
    → ((i : ℕ) → s + time_limit < clock i)
    → IsOld s ts
    → HasNoneWorking (time_out_task clock 0 ts)
none_working_after s clock ts late old i t' e =
    let (t, there, same) = time_out_task_from clock 0 ts i t' e in
    let was = old i t there in
    let limit = late (0 + i) in
    elim (Bool-cases (is_working t.status)) [
      | inl w ↦ let start = was w in ground arith
      | inr f ↦ ground arith
    ]

pub time_out_task-IsNumbered :
    (clock : ℕ → ℕ) (ts : List Task) → IsNumbered 0 ts → IsNumbered 0 (time_out_task clock 0 ts)
time_out_task-IsNumbered clock ts numbered i t' e =
    let (t, there, same) = time_out_task_from clock 0 ts i t' e in
    let number = numbered i t there in ground arith

true_is_false : {b : Bool} → b ≡ false → b ≡ true → ⊥
true_is_false e w = ground arith

-- What an assignment finds, and what the report of the task makes of the list.
pub work_cases :
    (s now : ℕ) (clock : ℕ → ℕ) (ts : List Task)
    → ((i : ℕ) → s + time_limit < clock i)
    → IsOld s ts
    → IsNumbered 0 ts
    → let ts1 = time_out_task clock 0 ts in
      ((find_uncompleted_task ts1 ≡ true) × (undone ts ≡ 0) × IsOld s ts1 × IsNumbered 0 ts1)
      ⊎ ((i : ℕ) × (t : Task) × (ts' : List Task) × (find_uncompleted_task ts1 ≡ false)
          × (find_idle_task 0 ts1 ≡ some i)
          × (get_or ts1 i no_task ≡ t)
          × (t.task_id ≡ i)
          × (mark_task i (set ts1 i (started now t)) ≡ some ts')
          × (undone ts' + 1 ≡ undone ts)
          × IsOld s ts'
          × IsNumbered 0 ts')
work_cases s now clock ts late old numbered =
    let ts1 = time_out_task clock 0 ts in
    let none_left = none_working_after s clock ts late old in
    let numbers = time_out_task-IsNumbered clock ts numbered in
    let same = undone-time_out_task clock 0 ts in
    elim (find_cases 0 ts1 none_left) [
      | inl (all, zero_left) ↦ inl (
        all,
        sym same ∙ zero_left,
        λ i t e w. absurd (true_is_false (none_left i t e) w),
        numbers,
      )
      | inr (i, t, some_left, found, there, is) ↦
          let zero_add : 0 + i ≡ i = omega arith in
          let (ts', marks, fewer, still, kept) =
            mark_task_finishes ts1 i now t there is none_left in
          inr (
            i,
            t,
            ts',
            some_left,
            found ∙ ap some zero_add,
            get_or_at ts1 i t no_task there,
            numbers i t there ∙ zero_add,
            marks,
            omega (arith, fewer, same),
            λ j u e w. absurd (true_is_false (still j u e) w),
            kept 0 numbers,
          )
    ]
