-- ===== src/Ofs/Journal/Replay.antt =====
-- `journal_replay`, after a restart in which the machine may go down again.
use openv.Common.{
  ℕ, zero, suc, ◌+◌, ◌-◌, ◌*◌, ◌≤◌, ◌<◌, ◌≡◌, inl, inr, refl, sym, ap, subst, ◌∙◌, Bool, true,
  false, some, List, [], ◌∷◌, length, replicate, ltb, Bool-cases, arith,
}
use openv.Ofs.Buffer.{u32_le}
use openv.Ofs.Device.{Block, Disk, Device, put_block, read_block, write_block}
use openv.Ofs.Journal.{
  journal_hdr_blk, journal_data_blk, Entry, clear_header, clear_journal, replay_slot, replay_slots,
  journal_replay,
}
use openv.Ofs.Journal.Header.{HasTargets, AllTargets, HasWords-committed, clear_header-idle}
use openv.Ofs.Journal.Recovery.{
  overlay, HasSlots, AllNamed, AllNamed-self, HasSlots-put_block, IsIdle, IsWhole,
  put_header-IsIdle, put_target-IsWhole,
}
use openv.Ofs.Journal.Commit.{IsDurable, whole, new}

-- The device after a restart, if `k` more writes succeed before the machine goes down.
abbrev pub restart : ℕ → Device → Device
restart k d = record d { outcomes = replicate k true }

abbrev pub AllReadable : Device → Type 0
AllReadable d = (blk : ℕ) → d.readable blk ≡ true

read_block-AllReadable :
    (d : Device) (blk : ℕ) → AllReadable d → read_block d blk ≡ some (d.blocks blk)
read_block-AllReadable d blk h = rw (h blk) refl

-- A write of a restarted device: done, or the machine is down.
write_block-restart-suc :
    (k : ℕ) (d : Device) (blk : ℕ) (b : Block)
    → write_block blk b (restart (suc k) d)
      ≡ (true, restart k (record d { blocks = put_block d.blocks blk b }))
unfolding write_block
write_block-restart-suc k d blk b = refl

write_block-restart_zero :
    (d : Device) (blk : ℕ) (b : Block) → write_block blk b (restart 0 d) ≡ (false, restart 0 d)
unfolding write_block
write_block-restart_zero d blk b = refl

replay_slot_lem :
    (hdr : Block) (i : ℕ) (d : Device) (f : Entry)
    → AllReadable d
    → 0 < f.0
    → u32_le hdr (16 + i * 4) ≡ f.0
    → d.blocks (journal_data_blk + i) ≡ f.1
    → replay_slot hdr i d ≡ (write_block f.0 f.1 d).1
unfolding replay_slot
replay_slot_lem hdr i d f rd pos target slot =
    rw (rd (journal_data_blk + i), slot, target) (ground arith)

restart_zero : (n : ℕ) (d : Device) → restart (0 - n) d ≡ restart (0 - suc n) d
restart_zero n d = ap (λ (j : ℕ). restart j d) (omega arith)

restart_sub : (k n : ℕ) (d : Device) → restart (k - n) d ≡ restart (suc k - suc n) d
restart_sub k n d = ap (λ (j : ℕ). restart j d) (omega arith)

module _ (es : List Entry) (start : Disk) (hdr : Block) (room : length es ≤ 32)
    (all : AllTargets es) where
  -- The loop writes the entries, from slot `i` on, as long as the machine is up.
  replay_slots-restart :
      (k i : ℕ) (fs : List Entry) (d : Device)
      → i + length fs ≤ 32
      → AllReadable d
      → AllTargets fs
      → AllNamed fs es
      → HasTargets i fs hdr
      → HasSlots i fs d.blocks
      → IsWhole es start d.blocks
      → (c : Disk) × (replay_slots hdr (length fs) i (restart k d)
          ≡ restart (k - length fs) (record d { blocks = c }))
        × IsWhole es start c
        × (length fs ≤ k → c ≡ overlay fs d.blocks)
  unfolding replay_slots
  replay_slots-restart k i [] d fits rd tg named targets slots w =
      (d.blocks, ap (λ (j : ℕ). restart j d) (omega arith), w, λ h. refl)
  replay_slots-restart zero i (f ∷ fs) d fits rd tg named targets slots w =
      let (c, run, w', up) =
        replay_slots-restart zero (suc i) fs d (omega arith) rd tg.1 named.1 targets.1 slots.1 w in
      (
        c,
        ap (replay_slots hdr (length fs) (suc i)) (
              replay_slot_lem hdr i (restart 0 d) f rd tg.0.0 targets.0 slots.0
              ∙ ap (λ r. r.1) (write_block-restart_zero d f.0 f.1))
            ∙ run
            ∙ restart_zero (length fs) (record d { blocks = c }),
        w',
        λ h. absurd (omega arith),
      )
  replay_slots-restart (suc k) i (f ∷ fs) d fits rd tg named targets slots w =
      let d₁ : Device = record d { blocks = put_block d.blocks f.0 f.1 } in
      let (c, run, w', up) =
        replay_slots-restart k (suc i) fs d₁ (omega arith) rd tg.1 named.1 targets.1
          (HasSlots-put_block (suc i) fs d.blocks f.0 f.1 (omega arith) tg.0 slots.1)
          (put_target-IsWhole es start d.blocks f.0 f.1 room all named.0 w) in
      (
        c,
        ap (replay_slots hdr (length fs) (suc i)) (
              replay_slot_lem hdr i (restart (suc k) d) f rd tg.0.0 targets.0 slots.0
              ∙ ap (λ r. r.1) (write_block-restart-suc k d f.0 f.1))
            ∙ run
            ∙ restart_sub k (length fs) (record d { blocks = c }),
        w',
        λ h. up (omega arith),
      )

-- A replay with an idle header does nothing.
pub journal_replay-idle :
    (start : Disk) (d : Device) → AllReadable d → IsIdle start d.blocks → journal_replay d ≡ d
unfolding journal_replay
journal_replay-idle start d rd idle = rw (rd journal_hdr_blk, journal_replay, idle.idle) refl

clear_journal-restart_zero :
    (k : ℕ) (d : Device) → k ≡ 0 → (clear_journal (restart k d)).blocks ≡ d.blocks
clear_journal-restart_zero k d e = rw e (
    ap (λ (r : Bool × Device). r.1.blocks)
      (write_block-restart_zero d journal_hdr_blk clear_header))

clear_journal-restart_pos :
    (k : ℕ) (d : Device)
    → 0 < k
    → (clear_journal (restart k d)).blocks ≡ put_block d.blocks journal_hdr_blk clear_header
clear_journal-restart_pos zero d pos = absurd (omega arith)
clear_journal-restart_pos (suc k) d pos =
    ap (λ (r : Bool × Device). r.1.blocks)
      (write_block-restart-suc k d journal_hdr_blk clear_header)

module _ (es : List Entry) (start : Disk) (some_entries : 1 ≤ length es) (room : length es ≤ 32)
    (all : AllTargets es) where
  replay-IsWhole :
      (k : ℕ) (d : Device)
      → AllReadable d
      → IsWhole es start d.blocks
      → (c : Disk) × (journal_replay (restart k d)
          ≡ clear_journal (restart (k - length es) (record d { blocks = c })))
        × IsWhole es start c
        × (length es ≤ k → c ≡ overlay es d.blocks)
  unfolding journal_replay
  replay-IsWhole k d rd w =
      let (c, run, w', up) =
        replay_slots-restart es start (d.blocks journal_hdr_blk) room all k 0 es d (omega arith) rd
          all (AllNamed-self es) w.targets w.slots w in
      (
        c,
        rw
            (
              rd journal_hdr_blk,
              journal_replay,
              HasWords-committed w.words some_entries room,
              w.words.count,
            )
            (ap clear_journal run),
        w',
        up,
      )

  module _ (k : ℕ) (d : Device) (rd : AllReadable d) (w : IsWhole es start d.blocks) where
    -- Interrupted or not, the transaction stays whole or is done.
    pub replay-IsDurable : IsDurable es start (journal_replay (restart k d)).blocks
    replay-IsDurable =
        let (c, run, w', up) = replay-IsWhole k d rd w in
        let left : Device = record d { blocks = c } in
        let e = ap (λ (r : Device). r.blocks) run in
        elim (Bool-cases (ltb (length es) k)) [
          | inl enough ↦
              subst (IsDurable es start)
                (sym (e ∙ clear_journal-restart_pos (k - length es) left (ground arith)))
                (new (
                  put_header-IsIdle (overlay es start) c clear_header
                    (λ blk h. ap (λ (f : Disk). f blk) (up (ground arith)) ∙ w.same blk h)
                    clear_header-idle))
          | inr down ↦
              subst (IsDurable es start)
                (sym (e ∙ clear_journal-restart_zero (k - length es) left (ground arith)))
                (whole w')
        ]

    -- With writes enough for the entries and the header it is done.
    pub replay-IsIdle :
        length es < k → IsIdle (overlay es start) (journal_replay (restart k d)).blocks
    replay-IsIdle enough =
        let (c, run, w', up) = replay-IsWhole k d rd w in
        subst (IsIdle (overlay es start))
          (sym (
            ap (λ (r : Device). r.blocks) run
            ∙ clear_journal-restart_pos (k - length es) (record d { blocks = c }) (omega arith)))
          (put_header-IsIdle (overlay es start) c clear_header
            (λ blk h. ap (λ (f : Disk). f blk) (up (omega arith)) ∙ w.same blk h) clear_header-idle)
