-- ===== src/Ofs/State/Crash.antt =====
-- `commit_txn` through crashes and restarts.
use openv.Common.{
  ℕ, ◌≤◌, ◌<◌, ◌≡◌, ◌⊎◌, inl, inr, refl, sym, ap, subst, ◌∙◌, Bool, true, false, List, [], ◌∷◌,
  length, ltb, Bool-cases, zero, suc, arith,
}
use openv.Ofs.Device.{Disk, Device}
use openv.Ofs.Journal.{journal_hdr_blk, Entry, is_committed, journal_replay, commit_entries}
use openv.Ofs.Journal.Recovery.{SameData, overlay, IsIdle}
use openv.Ofs.Journal.Replay.{restart, AllReadable, journal_replay-idle}
use openv.Ofs.Journal.Atomic.{
  restarts, commit_entries-atomic, commit_entries-durable, superblock-commit_entries,
  restarts-AllReadable, still_readable,
}
use openv.Ofs.State.{OfsState, pending_get, end_txn, is_empty, commit_txn}
use openv.Ofs.State.Pending.{shown, overlay-shown}
use openv.Ofs.State.View.{IsOpen, is_empty-pos, commit_txn-too_many}

-- The disk after any number of restarts in which the machine goes down again while the journal is
-- replayed, and one in which it does not: 33 writes are enough for all the slots and the header.
abbrev pub recovered : List ℕ → Device → Disk
recovered ks d = (journal_replay (restart 33 (restarts ks d))).blocks

end_txn-dev : (s : OfsState) (r : Bool × Device) → (end_txn s r).1.dev ≡ r.1
end_txn-dev s (true, d) = refl
end_txn-dev s (false, d) = refl

end_txn-outcome : (s : OfsState) (r : Bool × Device) → (end_txn s r).0 ≡ r.0
end_txn-outcome s (true, d) = refl
end_txn-outcome s (false, d) = refl

commit_txn_lem :
    (s : OfsState)
    → 1 ≤ length s.pending
    → length s.pending ≤ 32
    → commit_txn s ≡ end_txn s (commit_entries s.pending s.dev)
unfolding commit_txn
commit_txn_lem s pos room = ground (arith, is_empty-pos s.pending)

commit_txn-empty : (s : OfsState) → length s.pending ≡ 0 → commit_txn s ≡ (true, s)
unfolding commit_txn
commit_txn-empty s e = rw (is_empty-zero s.pending e) refl
  where
    is_empty-zero : (es : List Entry) → length es ≡ 0 → is_empty es ≡ true
    is_empty-zero [] e = refl
    is_empty-zero (x ∷ es) e = absurd (omega arith)

shown-empty : (es : List Entry) (d : Disk) (blk : ℕ) → length es ≡ 0 → shown es d blk ≡ d blk
unfolding pending_get
shown-empty [] d blk e = refl
shown-empty (x ∷ es) d blk e = absurd (omega arith)

-- A restart with an idle journal changes nothing.
recovered-idle :
    (start : Disk) (ks : List ℕ) (d : Device)
    → AllReadable d
    → IsIdle start d.blocks
    → SameData (recovered ks d) start
recovered-idle start [] d rd idle = λ blk at.
    ap (λ (r : Device). r.blocks blk) (journal_replay-idle start (restart 33 d) rd idle)
    ∙ idle.same blk at
recovered-idle start (k ∷ ks) d rd idle =
    subst (λ (r : Device). SameData (recovered ks r) start)
      (sym (journal_replay-idle start (restart k d) rd idle))
      (recovered-idle start ks (restart k d) rd idle)

restarts-idle :
    (start : Disk) (ks : List ℕ) (d : Device)
    → AllReadable d
    → IsIdle start d.blocks
    → (restarts ks d).blocks ≡ d.blocks
restarts-idle start [] d rd idle = refl
restarts-idle start (k ∷ ks) d rd idle =
    subst (λ (r : Device). (restarts ks r).blocks ≡ d.blocks)
      (sym (journal_replay-idle start (restart k d) rd idle))
      (restarts-idle start ks (restart k d) rd idle)

data Size : ℕ → Type 0 where
  none_pending : {n : ℕ} → n ≡ 0 → Size n
  some_pending : {n : ℕ} → 1 ≤ n → n ≤ 32 → Size n
  too_many : {n : ℕ} → 32 < n → Size n

Size-of : (n : ℕ) → Size n
Size-of zero = none_pending refl
Size-of (suc n) = elim (Bool-cases (ltb 32 (suc n))) [
  | inl many ↦ too_many (ground arith)
  | inr few ↦ some_pending (omega arith) (ground arith)
]

module _ (s : OfsState) (ks : List ℕ) (h : IsOpen s)
    (idle : is_committed (s.dev.blocks journal_hdr_blk) ≡ false) where
  unchanged :
      (commit_txn s).1.dev ≡ s.dev → SameData (recovered ks (commit_txn s).1.dev) s.dev.blocks
  unchanged e =
      rw e (
        recovered-idle s.dev.blocks ks s.dev h.readable
          (record { idle = idle; same = λ j k. refl }))

  commit-dev :
      1 ≤ length s.pending
      → length s.pending ≤ 32
      → (commit_txn s).1.dev ≡ (commit_entries s.pending s.dev).1
  commit-dev pos room =
      ap (λ (r : Bool × OfsState). r.1.dev) (commit_txn_lem s pos room)
      ∙ end_txn-dev s (commit_entries s.pending s.dev)

  to_shown :
      {d : Disk}
      → IsIdle (overlay s.pending s.dev.blocks) d
      → SameData d (shown s.pending s.dev.blocks)
  to_shown i blk at = i.same blk at ∙ overlay-shown s.pending s.dev.blocks blk h.sorted

  pub commit_txn-atomic :
      (SameData (recovered ks (commit_txn s).1.dev) s.dev.blocks)
      ⊎ (SameData (recovered ks (commit_txn s).1.dev) (shown s.pending s.dev.blocks))
  commit_txn-atomic = elim (Size-of (length s.pending)) [
    | none_pending e ↦
        inl (unchanged (ap (λ (r : Bool × OfsState). r.1.dev) (commit_txn-empty s e)))
    | too_many big ↦
        inl (unchanged (ap (λ (r : Bool × OfsState). r.1.dev) (commit_txn-too_many s big)))
    | some_pending pos room ↦
        rw (commit-dev pos room)
          (elim (commit_entries-atomic s.pending s.dev ks pos room h.targets h.readable idle) [
            | inl o ↦ inl o.same
            | inr n ↦ inr (to_shown n)
          ])
  ]

  -- When the journal is idle, every block can be read, the pending blocks are sorted and lie
  -- outside of the journal and the superblock, and `commit_txn` returns true, then after any
  -- number of interrupted replays and one that is not interrupted every block outside of the
  -- journal holds its pending contents, or what it held before if it was not pending.
  pub commit_txn-durable :
      (commit_txn s).0 ≡ true
      → SameData (recovered ks (commit_txn s).1.dev) (shown s.pending s.dev.blocks)
  commit_txn-durable ok = elim (Size-of (length s.pending)) [
    | none_pending e ↦ λ blk at.
        unchanged (ap (λ (r : Bool × OfsState). r.1.dev) (commit_txn-empty s e)) blk at
        ∙ sym (shown-empty s.pending s.dev.blocks blk e)
    | too_many big ↦ absurd (cc (ap (λ (r : Bool × OfsState). r.0) (commit_txn-too_many s big)))
    | some_pending pos room ↦ rw (commit-dev pos room) (
        to_shown (
          commit_entries-durable s.pending s.dev ks pos room h.targets h.readable idle (
            sym (
              ap (λ (r : Bool × OfsState). r.0) (commit_txn_lem s pos room)
              ∙ end_txn-outcome s (commit_entries s.pending s.dev))
            ∙ ok)))
  ]

  kept : (commit_txn s).1.dev ≡ s.dev → (restarts ks (commit_txn s).1.dev).blocks 0 ≡ s.dev.blocks 0
  kept e = rw e (
      ap (λ (c : Disk). c 0)
        (restarts-idle s.dev.blocks ks s.dev h.readable
          (record { idle = idle; same = λ j k. refl })))

  pub superblock-commit_txn : (restarts ks (commit_txn s).1.dev).blocks 0 ≡ s.dev.blocks 0
  superblock-commit_txn = elim (Size-of (length s.pending)) [
    | none_pending e ↦ kept (ap (λ (r : Bool × OfsState). r.1.dev) (commit_txn-empty s e))
    | too_many big ↦ kept (ap (λ (r : Bool × OfsState). r.1.dev) (commit_txn-too_many s big))
    | some_pending pos room ↦
        rw (commit-dev pos room)
          (superblock-commit_entries s.pending s.dev ks pos room h.targets h.readable idle)
  ]

  pub commit_txn-AllReadable : AllReadable (restarts ks (commit_txn s).1.dev)
  commit_txn-AllReadable = elim (Size-of (length s.pending)) [
    | none_pending e ↦ restarts-AllReadable ks _ (
        subst AllReadable (sym (ap (λ (r : Bool × OfsState). r.1.dev) (commit_txn-empty s e)))
          h.readable)
    | too_many big ↦ restarts-AllReadable ks _ (
        subst AllReadable (sym (ap (λ (r : Bool × OfsState). r.1.dev) (commit_txn-too_many s big)))
          h.readable)
    | some_pending pos room ↦ restarts-AllReadable ks _ (
        subst AllReadable (sym (commit-dev pos room))
          (still_readable s.pending s.dev ks pos room h.targets h.readable idle))
  ]
