-- ===== src/Ofs/Journal/Atomic.antt =====
-- A transaction through crashes: `commit_txn`, and `journal_replay` at every restart after it.
use openv.Common.{
  ℕ, ◌≤◌, ◌≡◌, ◌⊎◌, inl, inr, refl, sym, ap, subst, ◌∙◌, Bool, true, false, List, [], ◌∷◌, length,
  arith,
}
use openv.Ofs.Device.{Disk, Device}
use openv.Ofs.Journal.{journal_hdr_blk, Entry, is_committed, journal_replay, commit_entries}
use openv.Ofs.Journal.Header.{AllTargets}
use openv.Ofs.Journal.Recovery.{overlay, overlay_zero, IsIdle}
use openv.Ofs.Journal.Ends.{Ends}
use openv.Ofs.Journal.Commit.{
  IsDone, IsDurable, whole, new, IsRecoverable, old, durable, commit_entries-Ends,
}
use openv.Ofs.Journal.Replay.{
  restart, AllReadable, journal_replay-idle, replay-IsDurable, replay-IsIdle,
}
use openv.Ofs.Journal.Readable.{journal_replay-readable}

-- Restarts one after the other, each with the number of writes until the machine goes down again.
abbrev pub restarts : List ℕ → Device → Device
restarts [] d = d
restarts (k ∷ ks) d = restarts ks (journal_replay (restart k d))

journal_replay-AllReadable :
    (k : ℕ) (d : Device) → AllReadable d → AllReadable (journal_replay (restart k d))
journal_replay-AllReadable k d rd blk =
    ap (λ (f : ℕ → Bool). f blk) (journal_replay-readable (restart k d)) ∙ rd blk

module _ (es : List Entry) (start : Disk) (pos : 1 ≤ length es) (room : length es ≤ 32)
    (all : AllTargets es) where
  replay-IsDurable_any :
      (k : ℕ) (d : Device)
      → AllReadable d
      → IsDurable es start d.blocks
      → IsDurable es start (journal_replay (restart k d)).blocks
  replay-IsDurable_any k d rd (whole w) = replay-IsDurable es start pos room all k d rd w
  replay-IsDurable_any k d rd (new n) =
      subst (λ (r : Device). IsDurable es start r.blocks)
        (sym (journal_replay-idle (overlay es start) (restart k d) rd n)) (new n)

  replay-IsRecoverable :
      (k : ℕ) (d : Device)
      → AllReadable d
      → IsRecoverable es start d.blocks
      → IsRecoverable es start (journal_replay (restart k d)).blocks
  replay-IsRecoverable k d rd (old o) =
      subst (λ (r : Device). IsRecoverable es start r.blocks)
        (sym (journal_replay-idle start (restart k d) rd o)) (old o)
  replay-IsRecoverable k d rd (durable x) = durable (replay-IsDurable_any k d rd x)

  restarts-IsRecoverable :
      (ks : List ℕ) (d : Device)
      → AllReadable d
      → IsRecoverable es start d.blocks
      → IsRecoverable es start (restarts ks d).blocks
  restarts-IsRecoverable [] d rd x = x
  restarts-IsRecoverable (k ∷ ks) d rd x =
      restarts-IsRecoverable ks _ (journal_replay-AllReadable k d rd)
        (replay-IsRecoverable k d rd x)

  IsRecoverable-zero : {d : Disk} → IsRecoverable es start d → d 0 ≡ start 0
  IsRecoverable-zero (old o) = o.same 0 (inl (omega arith))
  IsRecoverable-zero {d} (durable (whole w)) =
      sym (overlay_zero es d all) ∙ w.same 0 (inl (omega arith)) ∙ overlay_zero es start all
  IsRecoverable-zero (durable (new n)) = n.same 0 (inl (omega arith)) ∙ overlay_zero es start all

  replay-done :
      (d : Device)
      → AllReadable d
      → IsDurable es start d.blocks
      → IsIdle (overlay es start) (journal_replay (restart 33 d)).blocks
  replay-done d rd (whole w) = replay-IsIdle es start pos room all 33 d rd w (omega arith)
  replay-done d rd (new n) =
      subst (λ (r : Device). IsIdle (overlay es start) r.blocks)
        (sym (journal_replay-idle (overlay es start) (restart 33 d) rd n)) n

  restarts-done :
      (ks : List ℕ) (d : Device)
      → AllReadable d
      → IsDurable es start d.blocks
      → IsIdle (overlay es start) (journal_replay (restart 33 (restarts ks d))).blocks
  restarts-done [] d rd x = replay-done d rd x
  restarts-done (k ∷ ks) d rd x =
      restarts-done ks _ (journal_replay-AllReadable k d rd) (replay-IsDurable_any k d rd x)

  restarts-old_or_new :
      (ks : List ℕ) (d : Device)
      → AllReadable d
      → IsRecoverable es start d.blocks
      → let final = (journal_replay (restart 33 (restarts ks d))).blocks in
        (IsIdle start final) ⊎ (IsIdle (overlay es start) final)
  restarts-old_or_new [] d rd (old o) = inl (
      subst (λ (r : Device). IsIdle start r.blocks)
        (sym (journal_replay-idle start (restart 33 d) rd o)) o)
  restarts-old_or_new [] d rd (durable x) = inr (replay-done d rd x)
  restarts-old_or_new (k ∷ ks) d rd x =
      restarts-old_or_new ks _ (journal_replay-AllReadable k d rd) (replay-IsRecoverable k d rd x)

pub restarts-AllReadable : (ks : List ℕ) (d : Device) → AllReadable d → AllReadable (restarts ks d)
restarts-AllReadable [] d rd = rd
restarts-AllReadable (k ∷ ks) d rd = restarts-AllReadable ks _ (journal_replay-AllReadable k d rd)

Ends-outcome :
    {ρ : ℕ → Bool} {es : List Entry} {start : Disk} {r : Bool × Device}
    → Ends ρ (IsDone es start) (IsRecoverable es start) r
    → IsRecoverable es start r.1.blocks
Ends-outcome (Ends.done d e q) = durable q.0
Ends-outcome (Ends.failed d e q) = q

Ends-readable :
    {ρ : ℕ → Bool} {Q R : Disk → Type 0} {r : Bool × Device} → Ends ρ Q R r → r.1.readable ≡ ρ
Ends-readable (Ends.done d e q) = e
Ends-readable (Ends.failed d e q) = e

Ends-true :
    {ρ : ℕ → Bool} {es : List Entry} {start : Disk} {r : Bool × Device}
    → Ends ρ (IsDone es start) (IsRecoverable es start) r
    → r.0 ≡ true
    → IsDurable es start r.1.blocks
Ends-true (Ends.done d e q) h = q.0
Ends-true (Ends.failed d e q) h = cc

module _ (es : List Entry) (d : Device) (ks : List ℕ) (pos : 1 ≤ length es) (room : length es ≤ 32)
    (all : AllTargets es) (rd : AllReadable d)
    (idle : is_committed (d.blocks journal_hdr_blk) ≡ false) where
  committed : Ends d.readable (IsDone es d.blocks) (IsRecoverable es d.blocks) (commit_entries es d)
  committed =
      commit_entries-Ends es d.blocks room all d (record { idle = idle; same = λ blk h. refl })

  pub still_readable : AllReadable (commit_entries es d).1
  still_readable blk = ap (λ (f : ℕ → Bool). f blk) (Ends-readable committed) ∙ rd blk

  pub commit_entries-atomic :
      let final = (journal_replay (restart 33 (restarts ks (commit_entries es d).1))).blocks in
      (IsIdle d.blocks final) ⊎ (IsIdle (overlay es d.blocks) final)
  commit_entries-atomic =
      restarts-old_or_new es d.blocks pos room all ks _ still_readable (Ends-outcome committed)

  pub commit_entries-durable :
      (commit_entries es d).0 ≡ true
      → IsIdle
          (overlay es d.blocks)
          (journal_replay (restart 33 (restarts ks (commit_entries es d).1))).blocks
  commit_entries-durable ok =
      restarts-done es d.blocks pos room all ks _ still_readable (Ends-true committed ok)

  pub superblock-commit_entries : (restarts ks (commit_entries es d).1).blocks 0 ≡ d.blocks 0
  superblock-commit_entries =
      IsRecoverable-zero es d.blocks pos room all (
        restarts-IsRecoverable es d.blocks pos room all ks _ still_readable
          (Ends-outcome committed))
