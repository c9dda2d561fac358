-- ===== src/KvRaft/Clerk/Numbers.antt =====
-- src/kvraft/client.go: the numbers of a client's commands in a log.
use sharded_kv.Prelude.{
  ℕ, ◌≤◌, ◌<◌, ◌==◌, ◌≡◌, sym, subst, inl, inr, true, false, ◌&&◌, List, [], ◌∷◌, ◌++◌, leb, arith,
  Bool-cases,
}
use mathlib.Core.List.{Memᴰ}
use sharded_kv.KvRaft.Server.{Op}
use sharded_kv.KvRaft.ExactlyOnce.{InOrder}

-- All commands of client `c` in the list are numbered below `n`.
abbrev pub IsBelow : ℕ → ℕ → List Op → Type 0
IsBelow c n [] = Unit
IsBelow c n (op ∷ ops) = (op.client_id ≡ c → op.seq_num < n) × IsBelow c n ops

pub IsBelow-snoc :
    (c n : ℕ) (ops : List Op) (op : Op)
    → IsBelow c n ops
    → (op.client_id ≡ c → op.seq_num < n)
    → IsBelow c n (ops ++ op ∷ [])
IsBelow-snoc c n [] op below new = (new, tt)
IsBelow-snoc c n (x ∷ ops) op (first, below) new = (first, IsBelow-snoc c n ops op below new)

pub IsBelow-mono : (c n m : ℕ) (ops : List Op) → n ≤ m → IsBelow c n ops → IsBelow c m ops
IsBelow-mono c n m [] le below = tt
IsBelow-mono c n m (op ∷ ops) le (first, below) =
    (λ same. omega (arith, first same, le), IsBelow-mono c n m ops le below)

pub IsBelow-member :
    (c n : ℕ) (ops : List Op) (op : Op)
    → IsBelow c n ops
    → Memᴰ op ops
    → op.client_id ≡ c
    → op.seq_num < n
IsBelow-member c n [] op below m same = elim m [ ]
IsBelow-member c n (x ∷ ops) op (first, below) (Memᴰ.head e) same =
    subst (λ (o : Op). o.client_id ≡ c → o.seq_num < n) (sym e) first same
IsBelow-member c n (x ∷ ops) op (first, below) (Memᴰ.tail m) same =
    IsBelow-member c n ops op below m same

pub InOrder-append : (c n : ℕ) (ops more : List Op) → InOrder c n ops → InOrder c n (ops ++ more)
unfolding InOrder
InOrder-append c n [] more h = absurd h
InOrder-append c n (op ∷ ops) more h = elim (Bool-cases (op.client_id == c && leb n op.seq_num)) [
  | inl here ↦ rw here (rw here at h)
  | inr later ↦ rw later (InOrder-append c n ops more (rw later at h))
]

pub InOrder-next :
    (c n : ℕ) (ops : List Op) (op : Op)
    → IsBelow c n ops
    → op.client_id ≡ c
    → op.seq_num ≡ n
    → InOrder c n (ops ++ op ∷ [])
unfolding InOrder
InOrder-next c n [] op below same number =
    let test : (op.client_id == c && leb n op.seq_num) ≡ true = ground arith in rw test number
InOrder-next c n (x ∷ ops) op (first, below) same number =
    let test : (x.client_id == c && leb n x.seq_num) ≡ false = ground arith in
    rw test (InOrder-next c n ops op below same number)
