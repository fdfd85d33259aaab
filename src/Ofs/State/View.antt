-- ===== src/Ofs/State/View.antt =====
-- What `read_blk` sees through writes and commits.
use openv.Common.{
  ℕ, ◌<◌, ◌≡◌, inl, inr, refl, sym, ap, subst, ◌∙◌, Bool, true, false, some, List, [], ◌∷◌, length,
  ◌==◌, ltb, if◌then◌else◌, Bool-cases, arith,
}
use openv.Ofs.Device.{Block, Disk, Device}
use openv.Ofs.Journal.{journal_hdr_blk, Entry, is_committed, commit_entries}
use openv.Ofs.Journal.Header.{IsTarget, AllTargets}
use openv.Ofs.Journal.Recovery.{IsData, SameData, overlay, overlay-SameData}
use openv.Ofs.Journal.Ends.{Ends}
use openv.Ofs.Journal.Commit.{
  IsDone, IsDurable, whole, new, IsRecoverable, old, durable, commit_entries-Ends,
}
use openv.Ofs.Journal.Replay.{AllReadable}
use openv.Ofs.State.{OfsState, write_blk, read_blk, end_txn, is_empty, commit_txn}
use openv.Ofs.State.Pending.{
  IsSorted, pending_insert-IsSorted, pending_insert-AllTargets, pending_get-insert,
  length-pending_insert, overlay-shown,
}

pub read_blk-write_blk :
    (s : OfsState) (blk j : ℕ) (b : Block)
    → read_blk (write_blk blk b s) j ≡ (if blk == j then some b else read_blk s j)
unfolding read_blk write_blk
read_blk-write_blk s blk j b = ground (arith, pending_get-insert blk j b s.pending)

-- A state whose pending blocks can be committed.
pub record IsOpen (s : OfsState) : Type 0 where
  pub sorted : IsSorted s.pending
  pub targets : AllTargets s.pending
  pub readable : AllReadable s.dev

pub write_blk-IsOpen :
    (s : OfsState) (blk : ℕ) (b : Block) → IsTarget blk → IsOpen s → IsOpen (write_blk blk b s)
unfolding write_blk
write_blk-IsOpen s blk b tg h = record {
  sorted = pending_insert-IsSorted blk b s.pending h.sorted;
  targets = pending_insert-AllTargets blk b s.pending tg h.targets;
  readable = h.readable;
}

read_blk-overlay :
    (s : OfsState) (blk : ℕ)
    → IsSorted s.pending
    → s.dev.readable blk ≡ true
    → read_blk s blk ≡ some (overlay s.pending s.dev.blocks blk)
unfolding read_blk
read_blk-overlay s blk h rd = ground (arith, overlay-shown s.pending s.dev.blocks blk h)

overlay_again :
    (es : List Entry) (d : Disk)
    → IsSorted es
    → (blk : ℕ) → overlay es (overlay es d) blk ≡ overlay es d blk
overlay_again es d h blk =
    ground (arith, overlay-shown es (overlay es d) blk h, overlay-shown es d blk h)

-- What a failed commit leaves shows the same blocks through the pending ones.
IsDurable-overlay :
    (es : List Entry) (start d : Disk)
    → IsSorted es
    → IsDurable es start d
    → SameData (overlay es d) (overlay es start)
IsDurable-overlay es start d h (whole w) = w.same
IsDurable-overlay es start d h (new n) =
    λ blk at. overlay-SameData es d (overlay es start) n.same blk at ∙ overlay_again es start h blk

IsRecoverable-overlay :
    (es : List Entry) (start d : Disk)
    → IsSorted es
    → IsRecoverable es start d
    → SameData (overlay es d) (overlay es start)
IsRecoverable-overlay es start d h (old o) = overlay-SameData es d start o.same
IsRecoverable-overlay es start d h (durable x) = IsDurable-overlay es start d h x

end_txn-read_blk :
    (s : OfsState) (r : Bool × Device)
    → IsOpen s
    → Ends s.dev.readable (IsDone s.pending s.dev.blocks) (IsRecoverable s.pending s.dev.blocks) r
    → (blk : ℕ) → IsData blk
    → read_blk (end_txn s r).1 blk ≡ some (overlay s.pending s.dev.blocks blk)
end_txn-read_blk s r h (Ends.done d e q) blk at =
    read_blk-overlay (record s { dev = d; pending = [] }) blk tt
      (ap (λ (f : ℕ → Bool). f blk) e ∙ h.readable blk)
    ∙ ap some (q.1 blk at)
end_txn-read_blk s r h (Ends.failed d e q) blk at =
    read_blk-overlay (record s { dev = d }) blk h.sorted
      (ap (λ (f : ℕ → Bool). f blk) e ∙ h.readable blk)
    ∙ ap some (IsRecoverable-overlay s.pending s.dev.blocks d.blocks h.sorted q blk at)

-- Whichever writes of the device fail, and whether the commit succeeds or not, `commit_txn`
-- changes no block outside of the journal that `read_blk` gives, when the pending blocks are
-- sorted, lie outside of the journal and the superblock, every block can be read and the journal
-- was idle.
pub read_blk-commit_txn :
    (s : OfsState) (blk : ℕ)
    → IsOpen s
    → is_committed (s.dev.blocks journal_hdr_blk) ≡ false
    → IsData blk
    → read_blk (commit_txn s).1 blk ≡ read_blk s blk
unfolding commit_txn
read_blk-commit_txn s blk h idle at = elim (Bool-cases (is_empty s.pending)) [
  | inl e ↦ rw e refl
  | inr e ↦ elim (Bool-cases (ltb 32 (length s.pending))) [
    | inl many ↦ rw (e, many) refl
    | inr few ↦
        rw (e, few)
          (end_txn-read_blk s (commit_entries s.pending s.dev) h
              (commit_entries-Ends s.pending s.dev.blocks (ground arith) h.targets s.dev
                (record { idle = idle; same = λ j k. refl }))
              blk at
            ∙ sym (read_blk-overlay s blk h.sorted (h.readable blk)))
  ]
]

-- What the file system does with blocks.
pub data BlockOp : Type 0 where
  write : ℕ → Block → BlockOp
  commit : BlockOp

abbrev pub run_ops : List BlockOp → OfsState → OfsState
run_ops [] s = s
run_ops (write blk b ∷ ops) s = run_ops ops (write_blk blk b s)
run_ops (commit ∷ ops) s = run_ops ops (commit_txn s).1

pub is_empty-pos : (es : List Entry) → 0 < length es → is_empty es ≡ false
is_empty-pos [] h = absurd (omega arith)
is_empty-pos (e ∷ es) h = refl

pub commit_txn-too_many : (s : OfsState) → 32 < length s.pending → commit_txn s ≡ (false, s)
unfolding commit_txn
commit_txn-too_many s h = ground (arith, is_empty-pos s.pending)

-- Once more than 32 blocks are pending, no sequence of writes and commits ever writes to the
-- device again, and a commit after it fails.
pub run_ops-too_many :
    (ops : List BlockOp) (s : OfsState)
    → 32 < length s.pending
    → ((run_ops ops s).dev ≡ s.dev) × ((commit_txn (run_ops ops s)).0 ≡ false)
unfolding write_blk
run_ops-too_many [] s h = (refl, ap (λ (r : Bool × OfsState). r.0) (commit_txn-too_many s h))
run_ops-too_many (write blk b ∷ ops) s h =
    run_ops-too_many ops (write_blk blk b s) (omega (arith, length-pending_insert blk b s.pending))
run_ops-too_many (commit ∷ ops) s h =
    let e : (commit_txn s).1 ≡ s = ap (λ (r : Bool × OfsState). r.1) (commit_txn-too_many s h) in
    subst (λ u. ((run_ops ops u).dev ≡ s.dev) × ((commit_txn (run_ops ops u)).0 ≡ false)) (sym e)
      (run_ops-too_many ops s h)
