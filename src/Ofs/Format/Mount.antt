-- ===== src/Ofs/Format/Mount.antt =====
-- `OfsState::new` on a disk on which a transaction was interrupted.
use openv.Common.{ℕ, ◌≡◌, ◌⊎◌, inl, inr, refl, ap, ◌∙◌, Bool, true, false, some, List, [], arith}
use openv.Ofs.Device.{Block, Device}
use openv.Ofs.Buffer.{u32_le}
use openv.Ofs.Cache.{new_cache}
use openv.Ofs.Journal.{journal_hdr_blk, is_committed, journal_replay}
use openv.Ofs.Journal.Recovery.{IsData}
use openv.Ofs.Journal.Replay.{restart, AllReadable}
use openv.Ofs.Journal.Readable.{journal_replay-readable}
use openv.Ofs.Journal.Atomic.{restarts}
use openv.Ofs.State.{OfsState, pending_get, read_blk, commit_txn}
use openv.Ofs.State.Pending.{shown}
use openv.Ofs.State.View.{IsOpen}
use openv.Ofs.State.Crash.{commit_txn-atomic, superblock-commit_txn, commit_txn-AllReadable}
use openv.Ofs.Format.{is_formatted, mount, new_state}

-- The state that `new` makes of a formatted disk.
abbrev mounted : Device → OfsState
mounted d = record {
  dev = journal_replay d;
  total_blocks = u32_le (d.blocks 0) 8;
  pending = [];
  cache = new_cache;
}

new_state-mounted :
    (d : Device)
    → AllReadable d
    → is_formatted (d.blocks 0) ≡ true
    → new_state d ≡ some (some (mounted d))
unfolding new_state mount
new_state-mounted d rd e = rw (rd 0, new_state) (rw (e, mount) refl)

read_blk-mounted :
    (d : Device) (blk : ℕ)
    → AllReadable d
    → read_blk (mounted d) blk ≡ some ((journal_replay d).blocks blk)
unfolding read_blk pending_get
read_blk-mounted d blk rd =
    let e : (journal_replay d).readable blk ≡ true =
      ap (λ (f : ℕ → Bool). f blk) (journal_replay-readable d) ∙ rd blk in
    rw e refl

shown_read :
    (s : OfsState) (blk : ℕ)
    → s.dev.readable blk ≡ true
    → some (shown s.pending s.dev.blocks blk) ≡ read_blk s blk
unfolding read_blk
shown_read s blk rd = ground arith

module _ (s : OfsState) (ks : List ℕ) (h : IsOpen s)
    (idle : is_committed (s.dev.blocks journal_hdr_blk) ≡ false) where
  -- The device at the last restart.
  abbrev rebooted : Device
  rebooted = restart 33 (restarts ks (commit_txn s).1.dev)

  -- A commit of the pending blocks is atomic. Let the machine go down at any write of
  -- `commit_txn`, restart and go down again at any write of the replay, any number of times, and
  -- let then `new` replay the journal undisturbed. On a formatted disk with an idle journal, whose
  -- blocks can all be read, and with pending blocks that are sorted and lie outside of the journal
  -- and the superblock, `new` succeeds with the number of blocks of the superblock. Either every
  -- block outside of the journal reads as it was on the disk before the commit, or every one as
  -- the file system read it before the commit.
  pub new_state-commit_txn :
      is_formatted (s.dev.blocks 0) ≡ true
      → (s' : OfsState) × (new_state (restart 33 (restarts ks (commit_txn s).1.dev))
          ≡ some (some s'))
        × (s'.total_blocks ≡ u32_le (s.dev.blocks 0) 8)
        × (((blk : ℕ) → IsData blk → read_blk s' blk ≡ some (s.dev.blocks blk))
            ⊎ ((blk : ℕ) → IsData blk → read_blk s' blk ≡ read_blk s blk))
  new_state-commit_txn formatted =
      let rd = commit_txn-AllReadable s ks h idle in
      let zero_kept = superblock-commit_txn s ks h idle in
      (
        mounted rebooted,
        new_state-mounted rebooted rd (ap is_formatted zero_kept ∙ formatted),
        ap (λ (b : Block). u32_le b 8) zero_kept,
        elim (commit_txn-atomic s ks h idle) [
          | inl o ↦ inl (λ blk at. read_blk-mounted rebooted blk rd ∙ ap some (o blk at))
          | inr n ↦ inr (λ blk at.
              read_blk-mounted rebooted blk rd
              ∙ ap some (n blk at)
              ∙ shown_read s blk (h.readable blk))
        ],
      )
