-- ===== src/KvRaft/ExactlyOnce.antt =====
-- src/kvraft/server.go, `apply_op` of Server.antt: the store against a specification in which only
-- the commands that are new count.
use sharded_kv.Prelude.{
  ℕ, ◌+◌, ◌≤◌, ◌<◌, ◌==◌, ◌≡◌, refl, ap, ◌∙◌, inl, inr, Bool, ◌&&◌, List, [], ◌∷◌, ◌++◌, leb,
  if◌then◌else◌, Bytes, bytes_beq, lookup, index, has, nat_eq, bytes_eq, arith, index-put, ==_iff,
  Bool-cases, Option-cases,
}
use sharded_kv.KvRaft.Server.{
  get, put_value, append, other, Op, KvServer, execute, apply_to_state_machine, answer,
  open_session, apply_op,
}

-- The store as its clients see it.
abbrev pub Store : Type 0
Store = Bytes → Bytes

abbrev pub view : KvServer → Store
view kv key = index kv.current_state key []

abbrev pub seen : KvServer → ℕ → ℕ
seen kv client = index kv.client_seq client 0

abbrev pub note : ℕ → ℕ → (ℕ → ℕ) → ℕ → ℕ
note client seq last c = if client == c then seq else last c

-- What one command means.
abbrev pub meaning : Op → Store → Store
meaning op store key = elim op.optype [
  | get ↦ store key
  | put_value ↦ if bytes_beq op.key key then op.value else store key
  | append ↦ if bytes_beq op.key key then store op.key ++ op.value else store key
  | other ↦ store key
]

pub meaning_of : List Op → Store → Store
meaning_of [] store = store
meaning_of (op ∷ ops) store = meaning_of ops (meaning op store)

-- The commands of a log that are new when they are reached.
pub effective : List Op → (ℕ → ℕ) → List Op
effective [] last = []
effective (op ∷ ops) last =
    let rest = effective ops (note op.client_id op.seq_num last) in
    let skipped = effective ops last in
    if leb op.seq_num (last op.client_id) then skipped else op ∷ rest

pub apply_ops : List Op → KvServer → KvServer
apply_ops [] kv = kv
apply_ops (op ∷ ops) kv = apply_ops ops (apply_op op kv).0

seen-open_session : (client c : ℕ) (kv : KvServer) → seen (open_session client kv) c ≡ seen kv c
unfolding open_session has index
seen-open_session client c kv = elim (Option-cases (lookup client kv.client_seq)) [
  | inl none_yet ↦ ground (
    arith,
    index-put client c 0 0 kv.client_seq,
    ==_iff client c,
    ap (λ k. lookup k kv.client_seq) {x = client} {y = c},
  )
  | inr (v, there) ↦ ground arith
]

state-open_session :
    (client : ℕ) (kv : KvServer) → (open_session client kv).current_state ≡ kv.current_state
unfolding open_session
state-open_session client kv = ground arith

view-execute :
    (op : Op) (kv : KvServer) (key : Bytes)
    → index (execute op kv.current_state) key [] ≡ meaning op (view kv) key
unfolding execute
view-execute op kv key = ground (
  arith,
  index-put op.key key op.value [] kv.current_state,
  index-put op.key key (index kv.current_state op.key [] ++ op.value) [] kv.current_state,
)

meaning-answer :
    (op : Op) (kv : KvServer) (store : Store) (key : Bytes)
    → meaning (answer op kv) store key ≡ meaning op store key
unfolding answer
meaning-answer op kv store key = ground arith

abbrev is_old : Op → KvServer → Bool
is_old op kv = leb op.seq_num (seen kv op.client_id)

pub view-apply_op :
    (op : Op) (kv : KvServer) (key : Bytes)
    → view (apply_op op kv).0 key ≡ (if is_old op kv then view kv key else meaning op (view kv) key)
unfolding apply_op apply_to_state_machine
view-apply_op op kv key =
    let kv1 = open_session op.client_id kv in
    elim (Bool-cases (is_old op kv)) [
      | inl old ↦
          rw (old, seen-open_session op.client_id op.client_id kv, old)
            (ap (λ m. index m key []) (state-open_session op.client_id kv))
      | inr fresh ↦
          rw (fresh, seen-open_session op.client_id op.client_id kv, fresh)
            (view-execute (answer op kv1) kv1 key
              ∙ meaning-answer op kv1 (view kv1) key
              ∙ ap (λ m. meaning op (λ k. index m k []) key) (state-open_session op.client_id kv))
    ]

pub client-answer :
    (op : Op) (kv : KvServer)
    → ((answer op kv).client_id ≡ op.client_id) × ((answer op kv).seq_num ≡ op.seq_num)
unfolding answer
client-answer op kv = ground arith

pub seen-apply_op :
    (op : Op) (kv : KvServer) (c : ℕ)
    → seen (apply_op op kv).0 c
      ≡ (if is_old op kv then seen kv c else note op.client_id op.seq_num (seen kv) c)
unfolding apply_op apply_to_state_machine
seen-apply_op op kv c =
    let kv1 = open_session op.client_id kv in
    let (same_client, same_seq) = client-answer op kv1 in
    ground (
      arith,
      same_client,
      same_seq,
      seen-open_session op.client_id op.client_id kv,
      seen-open_session op.client_id c kv,
      index-put (answer op kv1).client_id c (answer op kv1).seq_num 0 kv1.client_seq,
    )

-- Every log of commands leaves the store that its new commands leave, each applied once in order.
apply_ops_refines :
    (ops : List Op) (kv : KvServer) (last : ℕ → ℕ) (store : Store)
    → ((c : ℕ) → seen kv c ≡ last c)
    → ((key : Bytes) → view kv key ≡ store key)
    → (key : Bytes) → view (apply_ops ops kv) key ≡ meaning_of (effective ops last) store key
unfolding apply_ops effective meaning_of
apply_ops_refines [] kv last store same_last same_store key = same_store key
apply_ops_refines (op ∷ ops) kv last store same_last same_store key =
    elim (Bool-cases (leb op.seq_num (last op.client_id))) [
      | inl old ↦ rw old (
          apply_ops_refines ops (apply_op op kv).0 last store
            (λ c. ground (arith, seen-apply_op op kv c, same_last c, same_last op.client_id))
            (λ k. ground (arith, view-apply_op op kv k, same_store k, same_last op.client_id)) key)
      | inr fresh ↦ rw fresh (
          apply_ops_refines ops (apply_op op kv).0 (note op.client_id op.seq_num last)
            (meaning op store)
            (λ c. ground (arith, seen-apply_op op kv c, same_last c, same_last op.client_id))
            (λ k. ground (
              arith,
              view-apply_op op kv k,
              same_store k,
              same_store op.key,
              same_last op.client_id,
            ))
            key)
    ]

-- After any log, what the server's store shows for a key is what the commands mean, one after the
-- other, that were new when they were reached: those whose sequence number was above the highest
-- of their client until then.
pub view-apply_ops :
    (ops : List Op) (kv : KvServer) (key : Bytes)
    → view (apply_ops ops kv) key ≡ meaning_of (effective ops (seen kv)) (view kv) key
view-apply_ops ops kv key = apply_ops_refines ops kv (seen kv) (view kv) (λ c. refl) (λ k. refl) key

-- How often command number `n` of client `c` stands in a list.
pub occurrences : ℕ → ℕ → List Op → ℕ
occurrences c n [] = 0
occurrences c n (op ∷ ops) =
    (if op.client_id == c && op.seq_num == n then 1 else 0) + occurrences c n ops

-- The first command of client `c` whose number is at least `n` has number `n`.
unfoldable pub InOrder : ℕ → ℕ → List Op → Type 0
InOrder c n [] = ⊥
InOrder c n (op ∷ ops) =
    if op.client_id == c && leb n op.seq_num then op.seq_num ≡ n else InOrder c n ops

none_after :
    (c n : ℕ) (ops : List Op) (last : ℕ → ℕ) → n ≤ last c → occurrences c n (effective ops last) ≡ 0
unfolding effective occurrences
none_after c n [] last h = refl
none_after c n (op ∷ ops) last h = ground (
  arith,
  none_after c n ops last h,
  none_after c n ops (note op.client_id op.seq_num last),
  ==_iff op.client_id c,
)

effective_once :
    (c n : ℕ) (ops : List Op) (last : ℕ → ℕ)
    → last c < n
    → InOrder c n ops
    → occurrences c n (effective ops last) ≡ 1
unfolding effective occurrences InOrder
effective_once c n [] last h o = absurd o
effective_once c n (op ∷ ops) last h o = elim (Bool-cases (op.client_id == c && leb n op.seq_num)) [
  | inl first ↦
      let number : op.seq_num ≡ n = rw first at o in
      ground (
        arith,
        ap last {x = op.client_id} {y = c},
        ==_iff op.client_id c,
        none_after c n ops (note op.client_id op.seq_num last),
      )
  | inr later ↦
      let o' : InOrder c n ops = rw later at o in
      let next : note op.client_id op.seq_num last c < n = ground arith in
      ground (
        arith,
        effective_once c n ops last h o',
        effective_once c n ops (note op.client_id op.seq_num last) next o',
        ==_iff op.client_id c,
      )
]

-- A client's command takes effect exactly once. Let a log hold the command that client `c` numbers
-- `n`, with every command of that client before it numbered lower, and let the server have seen
-- only lower numbers of the client. Then what the server's store shows after the log is what the
-- commands mean that were new when they were reached, and this one is among those once, however
-- often and wherever the log repeats it.
pub exactly_once :
    (c n : ℕ) (ops : List Op) (kv : KvServer)
    → seen kv c < n
    → InOrder c n ops
    → ((key : Bytes)
        → view (apply_ops ops kv) key ≡ meaning_of (effective ops (seen kv)) (view kv) key)
      × (occurrences c n (effective ops (seen kv)) ≡ 1)
exactly_once c n ops kv fresh ordered =
    ((λ key. view-apply_ops ops kv key), effective_once c n ops (seen kv) fresh ordered)

-- A command applied a second time, right after the first, changes neither what the store shows for
-- any key nor the sequence number of any client.
pub retry_changes_nothing :
    (op : Op) (kv : KvServer) (key : Bytes) (c : ℕ)
    → (view (apply_op op (apply_op op kv).0).0 key ≡ view (apply_op op kv).0 key)
      × (seen (apply_op op (apply_op op kv).0).0 c ≡ seen (apply_op op kv).0 c)
retry_changes_nothing op kv key c =
    let kv1 = (apply_op op kv).0 in
    (
      ground (arith, view-apply_op op kv1 key, seen-apply_op op kv op.client_id),
      ground (arith, seen-apply_op op kv1 c, seen-apply_op op kv op.client_id),
    )
