-- ===== src/MapReduce/Worker.antt =====
-- src/mr/worker.go: what a worker does for a map task and for a reduce task. The file mr-m-r of the
-- pairs of map task m for reduce task r is `files m r`, and holds the pairs that its JSON text gives
-- back: `utf8` is what encoding/json makes of a string, in which it replaces the bytes that are not
-- UTF-8. A panic is `none`.
pub mod Groups
pub mod Buckets
pub mod Whole
pub mod Sorting
use sharded_kv.Prelude.{
  ℕ, zero, suc, ◌+◌, ◌*◌, ◌%◌, ◌==◌, ◌≡◌, Bool, true, false, ◌&&◌, ◌||◌, Option, none, some, List,
  [], ◌∷◌, ◌++◌, map, ltb, leb, if◌then◌else◌, get_or, set, replicate, Bytes, bytes_beq,
}
use Prim.Native.Nat.{bit_xor}
use mathlib.Core.List.{Perm}

pub record KeyValue : Type 0 where
  pub key : Bytes
  pub value : Bytes

-- FNV-1a of 32 bits, from the state `h`.
unfoldable pub fnv : ℕ → Bytes → ℕ
fnv h [] = h
fnv h (b ∷ bs) = fnv (bit_xor h b * 16777619 % 4294967296) bs

-- ihash
unfoldable pub ihash : Bytes → ℕ
unfolding fnv
ihash key = fnv 2166136261 key % 2147483648

-- Go's order of strings, in which ByKey.Less compares the keys.
unfoldable pub bytes_leb : Bytes → Bytes → Bool
bytes_leb [] ys = true
bytes_leb (x ∷ xs) [] = false
bytes_leb (x ∷ xs) (y ∷ ys) = ltb x y || (x == y && bytes_leb xs ys)

abbrev pub IsBelow : Bytes → List KeyValue → Type 0
IsBelow k [] = Unit
IsBelow k (kv ∷ rest) = (bytes_leb k kv.key ≡ true) × IsBelow k rest

abbrev pub IsAscending : List KeyValue → Type 0
IsAscending [] = Unit
IsAscending (kv ∷ rest) = IsBelow kv.key rest × IsAscending rest

-- `sort.Sort(ByKey(kva))`, which leaves open in which order pairs of the same key end up.
pub record SortByKey : Type 0 where
  pub sort : List KeyValue → List KeyValue
  pub sort-Perm : (kva : List KeyValue) → Perm (sort kva) kva
  pub sort-IsAscending : (kva : List KeyValue) → IsAscending (sort kva)

abbrev pub Files : Type 0
Files = ℕ → ℕ → Option (List KeyValue)

-- `intermediate[bucket] = append(intermediate[bucket], i)`
abbrev pub put_in : ℕ → KeyValue → List (List KeyValue) → List (List KeyValue)
put_in n_reduce kv intermediate =
    let bucket = ihash kv.key % n_reduce in
    set intermediate bucket (get_or intermediate bucket [] ++ kv ∷ [])

unfoldable pub distribute : ℕ → List KeyValue → List (List KeyValue) → List (List KeyValue)
distribute n_reduce [] intermediate = intermediate
distribute n_reduce (kv ∷ kva) intermediate =
    distribute n_reduce kva (put_in n_reduce kv intermediate)

-- enc.Encode(&kv), as dec.Decode reads it
abbrev pub through_json : (Bytes → Bytes) → KeyValue → KeyValue
through_json utf8 kv = record { key = utf8 kv.key; value = utf8 kv.value }

-- The files mr-m-i for every i below n_reduce are written.
abbrev pub write_files : (Bytes → Bytes) → ℕ → ℕ → List (List KeyValue) → Files → Files
write_files utf8 m n_reduce intermediate files task i =
    if task == m && ltb i n_reduce
    then some (map (through_json utf8) (get_or intermediate i []))
    else files task i

-- execMap, for a file that can be read: `mapf` has been given its name and its content. The
-- remainder by 0 is a panic, at the first pair.
unfoldable pub exec_map :
    (Bytes → Bytes) → (Bytes → Bytes → List KeyValue) → ℕ → ℕ → Bytes → Bytes → Files → Option Files
unfolding distribute
exec_map utf8 mapf m zero filename content files = elim (mapf filename content) [
  | [] ↦ some files
  | kv ∷ kva ↦ none
]
exec_map utf8 mapf m (suc n) filename content files = some (
    write_files utf8 m (suc n) (distribute (suc n) (mapf filename content) (replicate (suc n) []))
      files)

-- Map tasks executed in an order, in which any of them may come again: `name m` and `content m` are
-- those of the file of task m.
unfoldable pub exec_maps :
    (Bytes → Bytes)
    → (Bytes → Bytes → List KeyValue)
    → ℕ
    → (ℕ → Bytes)
    → (ℕ → Bytes)
    → List ℕ
    → Files
    → Option Files
unfolding exec_map
exec_maps utf8 mapf n_reduce name content [] files = some files
exec_maps utf8 mapf n_reduce name content (m ∷ order) files =
    elim (exec_map utf8 mapf m n_reduce (name m) (content m) files) [
      | none ↦ none
      | some files1 ↦ exec_maps utf8 mapf n_reduce name content order files1
    ]

-- The first loop of execReduce, from map task `m` on.
unfoldable pub read_files : Files → ℕ → ℕ → ℕ → Option (List KeyValue)
read_files files r m zero = some []
read_files files r m (suc n) =
    let rest = read_files files r (m + 1) n in
    elim (files m r) [
      | none ↦ none
      | some kva ↦ elim rest [ none ↦ none | some later ↦ some (kva ++ later) ]
    ]

-- The second loop: the values of each run of equal keys. `key` and `values` are those of the run
-- that has begun.
unfoldable pub group_from : Bytes → List Bytes → List KeyValue → List (Bytes × List Bytes)
group_from key values [] = (key, values) ∷ []
group_from key values (kv ∷ kva) =
    if bytes_beq kv.key key
    then group_from key (values ++ kv.value ∷ []) kva
    else (key, values) ∷ group_from kv.key (kv.value ∷ []) kva

unfoldable pub groups : List KeyValue → List (Bytes × List Bytes)
unfolding group_from
groups [] = []
groups (kv ∷ kva) = group_from kv.key (kv.value ∷ []) kva

-- fmt.Fprintf(ofile, "%v %v\n", key, output)
abbrev pub output_line : (Bytes → List Bytes → Bytes) → Bytes × List Bytes → Bytes
output_line reducef (key, values) = key ++ 32 ∷ reducef key values ++ 10 ∷ []

abbrev pub output_lines : (Bytes → List Bytes → Bytes) → List (Bytes × List Bytes) → Bytes
output_lines reducef [] = []
output_lines reducef (g ∷ gs) = output_line reducef g ++ output_lines reducef gs

-- What execReduce calls `reducef` on, for reduce task `r`, and the file mr-out-r.
unfoldable pub reduce_groups : SortByKey → Files → ℕ → ℕ → Option (List (Bytes × List Bytes))
unfolding read_files groups
reduce_groups sorter files r n_map = elim (read_files files r 0 n_map) [
  | none ↦ none
  | some kva ↦ some (groups (sorter.sort kva))
]

unfoldable pub exec_reduce : (Bytes → List Bytes → Bytes) → SortByKey → Files → ℕ → ℕ → Option Bytes
unfolding reduce_groups
exec_reduce reducef sorter files r n_map = elim (reduce_groups sorter files r n_map) [
  | none ↦ none
  | some gs ↦ some (output_lines reducef gs)
]

-- src/main/mrsequential.go: `intermediate`, the pairs of all files, from file `m` on.
unfoldable pub all_pairs :
    (Bytes → Bytes → List KeyValue) → (ℕ → Bytes) → (ℕ → Bytes) → ℕ → ℕ → List KeyValue
all_pairs mapf name content m zero = []
all_pairs mapf name content m (suc n) =
    mapf (name m) (content m) ++ all_pairs mapf name content (m + 1) n

-- What it calls `reducef` on, and the file mr-out-0.
unfoldable pub sequential_groups :
    (Bytes → Bytes → List KeyValue)
    → SortByKey
    → (ℕ → Bytes)
    → (ℕ → Bytes)
    → ℕ
    → List (Bytes × List Bytes)
unfolding all_pairs groups
sequential_groups mapf sorter name content n_files =
    groups (sorter.sort (all_pairs mapf name content 0 n_files))

unfoldable pub sequential :
    (Bytes → Bytes → List KeyValue)
    → (Bytes → List Bytes → Bytes)
    → SortByKey
    → (ℕ → Bytes)
    → (ℕ → Bytes)
    → ℕ
    → Bytes
unfolding sequential_groups
sequential mapf reducef sorter name content n_files =
    output_lines reducef (sequential_groups mapf sorter name content n_files)
