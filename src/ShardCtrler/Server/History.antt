-- ===== src/ShardCtrler/Server/History.antt =====
-- src/shardctrler/server.go: the history of configurations, over the apply loop.
use sharded_kv.Prelude.{
  ℕ, zero, suc, ◌+◌, ◌-◌, ◌<◌, ◌≡◌, refl, sym, ◌∙◌, ◌⊎◌, inl, inr, Bool, true, false, Option, none,
  some, List, [], ◌∷◌, ◌++◌, leb, length, length-append, get_elem?, index, nat_eq, arith,
  Bool-cases, Option-cases,
}
use sharded_kv.ShardCtrler.Common.{n_shards, Config, Op}
use sharded_kv.ShardCtrler.Server.{
  ShardCtrler, start_server, last_config, next_config, apply_to_state_machine, deliver,
  open_session, apply_handler,
}
use sharded_kv.ShardCtrler.Server.Configs.{next_config_parts}

-- Configurations numbered from `i` on, each with an array of ten shards.
abbrev pub Numbered : ℕ → List Config → Type 0
Numbered i [] = Unit {0}
Numbered i (c ∷ cs) = (c.num ≡ i) × (length c.shards ≡ n_shards) × Numbered (suc i) cs

pub record IsHistory (configs : List Config) : Type 0 where
  pub started : 0 < length configs
  pub numbered : Numbered 0 configs

pub Numbered-get :
    (k : ℕ) (cs : List Config) (i : ℕ)
    → Numbered k cs
    → i < length cs
    → (c : Config) × (get_elem? cs i ≡ some c) × (c.num ≡ k + i) × (length c.shards ≡ n_shards)
Numbered-get k [] i n h = elim h [ ]
Numbered-get k (c ∷ cs) zero n h = (c, refl, omega arith, n.1)
Numbered-get k (c ∷ cs) (suc i) n h =
    let (d, q, e, f) = Numbered-get (suc k) cs i n.2 (omega arith) in (d, q, omega (arith, e), f)

Numbered-append :
    (k : ℕ) (cs : List Config) (c : Config)
    → Numbered k cs
    → c.num ≡ k + length cs
    → length c.shards ≡ n_shards
    → Numbered k (cs ++ c ∷ [])
Numbered-append k [] c n e f = (omega arith, f, tt)
Numbered-append k (d ∷ cs) c n e f = (n.0, n.1, Numbered-append (suc k) cs c n.2 (omega arith) f)

pub last_config_lem :
    (configs : List Config)
    → IsHistory configs
    → (c : Config) × (last_config configs ≡ some c)
      × (c.num + 1 ≡ length configs)
      × (length c.shards ≡ n_shards)
unfolding last_config
last_config_lem configs h =
    let (c, q, e, f) =
      Numbered-get 0 configs (length configs - 1) h.numbered (omega (arith, h.started)) in
    (c, q, omega (arith, h.started), f)

IsHistory-append :
    (configs : List Config) (c : Config)
    → IsHistory configs
    → c.num ≡ length configs
    → length c.shards ≡ n_shards
    → IsHistory (configs ++ c ∷ [])
IsHistory-append configs c h e f = record {
  started = omega (arith, length-append configs (c ∷ []));
  numbered = Numbered-append 0 configs c h.numbered (omega arith) f;
}

-- What one operation does to the history.
abbrev pub Grows : List Config → List Config → Type 0
Grows before after = (after ≡ before) ⊎ ((c : Config) × (after ≡ before ++ c ∷ []))

pub apply_cases :
    (op : Op) (sc : ShardCtrler) (old : Config) (next : Option Config)
    → last_config sc.configs ≡ some old
    → next_config old op ≡ some next
    → apply_to_state_machine op sc
      ≡ some (elim next [ none ↦ sc | some c ↦ record sc { configs = sc.configs ++ c ∷ [] } ])
unfolding apply_to_state_machine
apply_cases op sc old none q r = rw (q, r, apply_to_state_machine)
apply_cases op sc old (some c) q r = rw (q, r, apply_to_state_machine)

pub configs-deliver : (i : ℕ) (op : Op) (sc : ShardCtrler) → (deliver i op sc).configs ≡ sc.configs
unfolding deliver
configs-deliver i op sc = ground arith

pub configs-open_session :
    (client : ℕ) (sc : ShardCtrler) → (open_session client sc).configs ≡ sc.configs
unfolding open_session
configs-open_session client sc = ground arith

apply_to_state_machine-IsHistory :
    (op : Op) (sc sc' : ShardCtrler)
    → IsHistory sc.configs
    → apply_to_state_machine op sc ≡ some sc'
    → IsHistory sc'.configs × Grows sc.configs sc'.configs
unfolding apply_to_state_machine
apply_to_state_machine-IsHistory op sc sc' h run =
    let (old, q, e, f) = last_config_lem sc.configs h in
    elim (Option-cases (next_config old op)) [
      | inl r ↦ cc (rw (q, r, apply_to_state_machine) at run)
      | inr (none, r) ↦
          let same : sc.configs ≡ sc'.configs = ground (arith, apply_cases op sc old none q r) in
          (rw same at h, inl (sym same))
      | inr (some c, r) ↦
          let grown : sc.configs ++ c ∷ [] ≡ sc'.configs =
            ground (arith, apply_cases op sc old (some c) q r) in
          let (num, full) = next_config_parts old c op f r in
          (rw grown at (IsHistory-append sc.configs c h (num ∙ e) full), inr (c, sym grown))
    ]

-- A message that is handled without a panic keeps a well-formed history well formed, and either
-- leaves it alone or appends one configuration to it: what is recorded never changes.
pub apply_handler-IsHistory :
    (valid : Bool) (i : ℕ) (op : Op) (sc sc' : ShardCtrler)
    → IsHistory sc.configs
    → apply_handler valid i op sc ≡ some sc'
    → IsHistory sc'.configs × Grows sc.configs sc'.configs
unfolding apply_handler
apply_handler-IsHistory false i op sc sc' h run =
    let same : sc.configs ≡ sc'.configs = ground arith in (rw same at h, inl (sym same))
apply_handler-IsHistory true i op sc sc' h run =
    let sc1 = open_session op.client_id sc in
    let h1 : IsHistory sc1.configs = rw configs-open_session h in
    elim (Bool-cases (leb op.seq_num (index sc1.client_seq op.client_id 0))) [
      | inl old ↦
          let same : sc.configs ≡ sc'.configs =
            ground (arith, configs-open_session op.client_id sc, configs-deliver i op sc1) in
          (rw same at h, inl (sym same))
      | inr fresh ↦ elim (Option-cases (apply_to_state_machine op sc1)) [
        | inl q ↦ cc (rw (fresh, q, apply_handler) at run)
        | inr (sc2, q) ↦
            let same : sc2.configs ≡ sc'.configs =
              ground (arith, rw (fresh, q, apply_handler) at run, configs-deliver i op sc2) in
            rw same at
              (rw configs-open_session at (apply_to_state_machine-IsHistory op sc1 sc2 h1 q))
      ]
    ]

-- A committed log, as Raft hands it over.
pub record Message : Type 0 where
  pub command_valid : Bool
  pub command_index : ℕ
  pub op : Op

unfoldable pub run : List Message → ShardCtrler → Option ShardCtrler
run [] sc = some sc
run (m ∷ rest) sc = elim (apply_handler m.command_valid m.command_index m.op sc) [
  | none ↦ none
  | some sc' ↦ run rest sc'
]

pub run-IsHistory :
    (log : List Message) (sc sc' : ShardCtrler)
    → IsHistory sc.configs
    → run log sc ≡ some sc'
    → IsHistory sc'.configs
unfolding run
run-IsHistory [] sc sc' h e = let same : sc.configs ≡ sc'.configs = ground arith in rw same at h
run-IsHistory (m ∷ rest) sc sc' h e =
    elim (Option-cases (apply_handler m.command_valid m.command_index m.op sc)) [
      | inl q ↦ cc (rw (q, run) at e)
      | inr (sc1, q) ↦
          run-IsHistory rest sc1 sc'
            (apply_handler-IsHistory m.command_valid m.command_index m.op sc sc1 h q).0
            (rw (q, run) at e)
    ]

pub IsHistory-start_server : IsHistory start_server.configs
IsHistory-start_server = record { started = omega arith; numbered = (refl, refl, tt) }

-- If the controller has applied any log of messages since its start without a panic, then
-- the configuration with number n stands at index n, for every n below the length of the history,
-- and its array of shards has ten entries.
pub configs_numbered :
    (log : List Message) (sc : ShardCtrler) (n : ℕ)
    → run log start_server ≡ some sc
    → n < length sc.configs
    → (c : Config) × (get_elem? sc.configs n ≡ some c) × (c.num ≡ n) × (length c.shards ≡ n_shards)
configs_numbered log sc n e h =
    let (c, q, num, full) =
      Numbered-get 0 sc.configs n
        (run-IsHistory log start_server sc IsHistory-start_server e).numbered h in
    (c, q, omega (arith, num), full)
