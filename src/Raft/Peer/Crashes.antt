-- ===== src/Raft/Peer/Crashes.antt =====
-- src/raft/raft.go: the whole life of a peer, in which it may crash between any two events and be
-- made again from what it saved.
use sharded_kv.Prelude.{◌<◌, ◌≤◌, length, ℕ, ◌≡◌, refl, ap, inl, arith}
use sharded_kv.Raft.State.{Raft, Persisted, restore, persisted}
use sharded_kv.Raft.State.{last_log_index}
use sharded_kv.Raft.Append.Success.{last_log_index_lem}
use sharded_kv.Raft.Peer.Whole.{IsWhole, step-IsWhole}
use sharded_kv.Raft.Peer.{Event, step, fresh, make}
use sharded_kv.Raft.Peer.Durable.{IsDurable, step-IsDurable}
use sharded_kv.Raft.Peer.Held.{IsHeld, step-IsHeld}
use sharded_kv.Raft.Peer.OwnVote.{HasOwnVote, step-HasOwnVote}

module _ {Command Blob : Type 0} (me peers : ℕ) (nil : Blob) where
  -- From a state on: what a peer may be after events and crashes.
  pub data Later (rf : Raft Command Blob) : Raft Command Blob → Type 0 where
    now : Later rf rf
    event :
        {rf' : Raft Command Blob} → Later rf rf' → (e : Event Command Blob) → Later rf (step e rf')
    crash :
        {rf' : Raft Command Blob}
        → Later rf rf'
        → Later rf (make me peers nil rf'.stored rf'.stored_snapshot)

  pub Later-IsDurable : {rf rf' : Raft Command Blob} → Later rf rf' → IsDurable rf → IsDurable rf'
  unfolding make restore
  Later-IsDurable now h = h
  Later-IsDurable (event l e) h = step-IsDurable e _ (Later-IsDurable l h)
  Later-IsDurable (crash l) h = refl

  pub Later-HasOwnVote :
      {rf rf' : Raft Command Blob} → Later rf rf' → HasOwnVote rf → HasOwnVote rf'
  unfolding make restore fresh
  Later-HasOwnVote now h = h
  Later-HasOwnVote (event l e) h = step-HasOwnVote e _ (Later-HasOwnVote l h)
  Later-HasOwnVote (crash l) h = inl refl

  pub Later-IsHeld :
      (T c : ℕ) {rf rf' : Raft Command Blob}
      → Later rf rf'
      → IsDurable rf
      → IsHeld T c rf
      → IsHeld T c rf'
  unfolding make restore fresh
  Later-IsHeld T c now d h = h
  Later-IsHeld T c (event l e) d h = step-IsHeld T c e _ (Later-IsHeld T c l d h)
  Later-IsHeld T c (crash {rf'} l) d h = ground (
    arith,
    Later-IsHeld T c l d h,
    ap (λ (p : Persisted Command). p.current_term) (Later-IsDurable l d),
    ap (λ (p : Persisted Command). p.voted_for) (Later-IsDurable l d),
  )

  -- A peer that crashes at any point of its life, after any events and earlier crashes, and is made
  -- again from what it saved has the term, the vote, the log and the snapshot position that it had;
  -- what it had committed and applied starts from that position.
  pub crash_recovery :
      (before : Raft Command Blob)
      → Later (fresh me peers nil) before
      → let after = make me peers nil before.stored before.stored_snapshot in
        (persisted after ≡ persisted before)
        × (after.stored ≡ before.stored)
        × (after.commit_index ≡ before.last_included_index)
        × (after.last_applied ≡ before.last_included_index)
  unfolding make restore fresh
  crash_recovery before l =
      let d = Later-IsDurable l refl in
      (
        d,
        refl,
        ap (λ (p : Persisted Command). p.last_included_index) d,
        ap (λ (p : Persisted Command). p.last_included_index) d,
      )

  Later-IsWhole :
      {rf rf' : Raft Command Blob} → Later rf rf' → IsDurable rf → IsWhole rf → IsWhole rf'
  unfolding make restore fresh
  Later-IsWhole now d h = h
  Later-IsWhole (event l e) d h = step-IsWhole e _ (Later-IsWhole l d h)
  Later-IsWhole (crash {rf'} l) d h =
      let saved = ap (λ (p : Persisted Command). length p.log) (Later-IsDurable l d) in
      let whole = Later-IsWhole l d h in (omega (arith, saved, whole), omega arith)

  -- In the whole life of a peer, which starts fresh and may crash and be made again from what it
  -- saved at any time, the log is never empty: it keeps its head, which stands for the last entry of
  -- the snapshot. The commit index is never below the snapshot's, and neither is the last index.
  pub log_never_empty :
      (rf : Raft Command Blob)
      → Later (fresh me peers nil) rf
      → (0 < length rf.log)
        × (rf.last_included_index ≤ rf.commit_index)
        × (rf.last_included_index ≤ last_log_index rf)
  unfolding fresh
  log_never_empty rf l =
      let whole = Later-IsWhole l refl (omega arith, omega arith) in
      (whole.0, whole.1, omega (arith, last_log_index_lem rf whole.0))
