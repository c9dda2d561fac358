-- ===== src/ShardKv/Clerk/Owners.antt =====
-- src/shardkv/client.go: whose answer a call returns.
use sharded_kv.Prelude.{
  ℕ, suc, get_elem?, ◌≡◌, refl, sym, ap, subst, ◌∙◌, ◌⊎◌, inl, inr, true, false, some, List, [],
  ◌∷◌, ◌++◌, String, arith, AllCarry, Bool-cases, Option-cases, Bytes, called,
}
use sharded_kv.ShardCtrler.Clerk.{Turn}
use sharded_kv.ShardKv.Clerk.{
  Clerk, After, returns, break, go_on, Tried, done, left, waiting, try_servers, owners, try_owners,
}

-- The last of the calls, with `args`, goes to one of `servers`, and the turn in that server's place
-- is an answer that gives `r`.
pub record Answered {Reply R Args : Type 0} (Answers : Reply → R → Type 0) (args : Args)
    (servers : List String) (turns : List (Turn Reply)) (calls : List (String × Args)) (r : R)
    : Type 0 where
  pub srv : String
  pub front : List (String × Args)
  pub last : calls ≡ front ++ (srv, args) ∷ []
  pub turn : Turn Reply
  pub place : ℕ
  pub server_at : get_elem? servers place ≡ some srv
  pub turn_at : get_elem? turns place ≡ some turn
  pub got_through : turn.through ≡ true
  pub answer : Answers turn.reply r

abbrev pub AnswersBy : {Reply R : Type 0} → (Reply → After R) → Reply → R → Type 0
AnswersBy after reply r = after reply ≡ returns r

After-cases : {R : Type 0} (a : After R) → ((r : R) × (a ≡ returns r)) ⊎ ((a ≡ break) ⊎ (a ≡ go_on))
After-cases (returns r) = inl (r, refl)
After-cases break = inr (inl refl)
After-cases go_on = inr (inr refl)

pub done_inj : {R : Type 0} {r r' : R} → done r ≡ done r' → r ≡ r'
done_inj h = cc

later_answered :
    {Reply R Args : Type 0} {Answers : Reply → R → Type 0} {args : Args} {servers : List String}
    {turns : List (Turn Reply)} {calls : List (String × Args)} {r : R} (srv : String)
    (t : Turn Reply)
    → Answered Answers args servers turns calls r
    → Answered Answers args (srv ∷ servers) (t ∷ turns) ((srv, args) ∷ calls) r
later_answered {args = args} srv t a = record {
  srv = a.srv;
  front = (srv, args) ∷ a.front;
  last = ap (λ calls. (srv, args) ∷ calls) a.last;
  turn = a.turn;
  place = suc a.place;
  server_at = a.server_at;
  turn_at = a.turn_at;
  got_through = a.got_through;
  answer = a.answer;
}

-- A server whose answer is lost, or says that it does not lead, is passed over.
try_servers_skips :
    {Reply R Args : Type 0} (after : Reply → After R) (args : Args) (srv : String)
    (servers : List String) (t : Turn Reply) (ts : List (Turn Reply))
    → (t.through ≡ false) ⊎ ((t.through ≡ true) × (after t.reply ≡ go_on))
    → try_servers after args (srv ∷ servers) (t ∷ ts)
      ≡ called srv args (try_servers after args servers ts)
unfolding try_servers
try_servers_skips after args srv servers t ts (inl lost) = rw lost refl
try_servers_skips after args srv servers t ts (inr (there, q)) = rw (there, q) refl

try_servers_final :
    {Reply R Args : Type 0} (after : Reply → After R) (args : Args) (servers : List String)
    (turns : List (Turn Reply)) (r : R)
    → (try_servers after args servers turns).1 ≡ done r
    → Answered (AnswersBy after) args servers turns (try_servers after args servers turns).0 r
unfolding try_servers
try_servers_final after args [] turns r ends = absurd (ground arith)
try_servers_final after args (srv ∷ servers) [] r ends = absurd (ground arith)
try_servers_final {R = R} {Args = Args} after args (srv ∷ servers) (t ∷ ts) r ends =
    let skip : (t.through ≡ false) ⊎ ((t.through ≡ true) × (after t.reply ≡ go_on))
        → Answered (AnswersBy after) args (srv ∷ servers) (t ∷ ts)
            (try_servers after args (srv ∷ servers) (t ∷ ts)).0 r =
      λ is.
        let skips = try_servers_skips after args srv servers t ts is in
        subst
          (λ (p : List (String × Args) × Tried R).
            Answered (AnswersBy after) args (srv ∷ servers) (t ∷ ts) p.0 r)
          (sym skips)
          (later_answered srv t (
            try_servers_final after args servers ts r
              (sym (ap (λ (p : List (String × Args) × Tried R). p.1) skips) ∙ ends))) in
    elim (Bool-cases t.through) [
      | inr lost ↦ skip (inl lost)
      | inl there ↦ elim (After-cases (after t.reply)) [
        | inl (r', q) ↦
            let same = done_inj (rw (there, q) at ends) in
            record {
              srv = srv;
              front = [];
              last = rw (there, q) refl;
              turn = t;
              place = 0;
              server_at = refl;
              turn_at = refl;
              got_through = there;
              answer = q ∙ ap returns same;
            }
        | inr (inl q) ↦ absurd (ground (arith, rw (there, q) at ends))
        | inr (inr q) ↦ skip (inr (there, q))
      ]
    ]

try_servers-AllCarry :
    {Reply R Args : Type 0} (after : Reply → After R) (args : Args) (servers : List String)
    (turns : List (Turn Reply))
    → AllCarry args (try_servers after args servers turns).0
unfolding try_servers
try_servers-AllCarry after args [] turns = tt
try_servers-AllCarry after args (srv ∷ servers) [] = tt
try_servers-AllCarry after args (srv ∷ servers) (t ∷ ts) =
    let rest = try_servers-AllCarry after args servers ts in
    elim (Bool-cases t.through) [
      | inr lost ↦ rw lost (refl, rest)
      | inl there ↦ elim (After-cases (after t.reply)) [
        | inl (r, q) ↦ rw (there, q) (refl, tt)
        | inr (inl q) ↦ rw (there, q) (refl, tt)
        | inr (inr q) ↦ rw (there, q) (refl, rest)
      ]
    ]

pub AllCarry-append :
    {Args : Type 0} (args : Args) (first later : List (String × Args))
    → AllCarry args first
    → AllCarry args later
    → AllCarry args (first ++ later)
AllCarry-append args [] later a b = b
AllCarry-append args ((srv, x) ∷ first) later (same, a) b =
    (same, AllCarry-append args first later a b)

pub Tried-cases :
    {R : Type 0} (t : Tried R) → ((r : R) × (t ≡ done r)) ⊎ ((t ≡ left) ⊎ (t ≡ waiting))
Tried-cases (done r) = inl (r, refl)
Tried-cases left = inr (inl refl)
Tried-cases waiting = inr (inr refl)

pub try_owners_final :
    {Reply R Args : Type 0} (after : Reply → After R) (args : Args) (key : Bytes)
    (turns : List (Turn Reply)) (ck : Clerk) (r : R)
    → (try_owners after args key turns ck).1 ≡ done r
    → (servers : List String) × (owners key ck.config ≡ some servers)
      × Answered (AnswersBy after) args servers turns (try_owners after args key turns ck).0 r
unfolding try_owners
try_owners_final after args key turns ck r ends = elim (Option-cases (owners key ck.config)) [
  | inl q ↦ absurd (ground (arith, rw (q, try_owners) at ends))
  | inr (servers, q) ↦ (
    servers,
    q,
    rw (q, try_owners) (try_servers_final after args servers turns r (rw (q, try_owners) at ends)),
  )
]

pub try_owners-AllCarry :
    {Reply R Args : Type 0} (after : Reply → After R) (args : Args) (key : Bytes)
    (turns : List (Turn Reply)) (ck : Clerk)
    → AllCarry args (try_owners after args key turns ck).0
unfolding try_owners
try_owners-AllCarry after args key turns ck = elim (Option-cases (owners key ck.config)) [
  | inl q ↦ rw (q, try_owners) tt
  | inr (servers, q) ↦ rw (q, try_owners) (try_servers-AllCarry after args servers turns)
]
