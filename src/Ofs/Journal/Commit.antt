-- ===== src/Ofs/Journal/Commit.antt =====
-- `commit_txn` on a device whose writes fail at any point.
use openv.Common.{
  ℕ, suc, ◌+◌, ◌≤◌, ◌<◌, ◌≡◌, ◌⊎◌, inl, refl, sym, ap, subst, ◌∙◌, Bool, true, List, [], ◌∷◌,
  length, arith,
}
use openv.Ofs.Device.{Disk, Device, put_block, write_block}
use openv.Ofs.Journal.{
  journal_hdr_blk, journal_data_blk, Entry, is_committed, prepared_header, committed_header,
  clear_header, proceed, write_slots, apply_entries, clear_journal, commit_entries,
}
use openv.Ofs.Journal.Header.{
  AllTargets, prepared_header-idle, clear_header-idle, committed_header-HasWords,
  committed_header-HasTargets,
}
use openv.Ofs.Journal.Recovery.{
  SameData, overlay, HasSlots, AllNamed, AllNamed-self, HasSlots-put_header, IsIdle, IsWhole,
  put_header-IsIdle, put_target-IsWhole, overlay-SameData,
}
use openv.Ofs.Journal.Ends.{
  Ends, done, Ends-proceed, Ends-map, write_block-Ends, Ends_ignored, Ends_failing,
}

-- What the entries' slots hold, and that nothing else has changed since `start`.
pub record IsStaged (i : ℕ) (es : List Entry) (start d : Disk) : Type 0 where
  pub slots : HasSlots i es d
  pub frame : (blk : ℕ) → (blk < journal_data_blk + i) ⊎ (68 ≤ blk) → d blk ≡ start blk

IsStaged-put_block :
    {i : ℕ} {e : Entry} {es : List Entry} {start d : Disk}
    → i + suc (length es) ≤ 32
    → IsStaged (suc i) es (put_block start (journal_data_blk + i) e.1) d
    → IsStaged i (e ∷ es) start d
IsStaged-put_block {i} {e} {es} {start} {d} room s = record {
  slots = (s.frame (journal_data_blk + i) (inl (omega arith)) ∙ ground arith, s.slots);
  frame = λ blk h. s.frame blk (ground arith) ∙ ground arith;
}

module _ (start : Disk) where
  write_slots-Ends :
      {readable : ℕ → Bool} (i : ℕ) (es : List Entry) (d : Device)
      → i + length es ≤ 32
      → IsIdle start d.blocks
      → d.readable ≡ readable
      → Ends readable (IsStaged i es d.blocks) (IsIdle start) (write_slots i es d)
  unfolding write_slots
  write_slots-Ends i [] d room old er = done d er (record { slots = tt; frame = λ blk h. refl })
  write_slots-Ends i (e ∷ es) d room old er =
      let staged = put_block d.blocks (journal_data_blk + i) e.1 in
      let old₁ : IsIdle start staged = record {
        idle = ap is_committed (ground arith) ∙ old.idle;
        same = λ blk h. ground (arith, old.same blk h);
      } in
      Ends-proceed
        (write_block-Ends (λ x. x ≡ staged) (IsIdle start) (journal_data_blk + i) e.1 d er refl old)
        (λ d₁ er₁ q.
          Ends-map (λ d₂ s. IsStaged-put_block room (subst (λ x. IsStaged (suc i) es x d₂) q s))
            (write_slots-Ends (suc i) es d₁ (omega arith) (subst (IsIdle start) (sym q) old₁) er₁))

module _ (es : List Entry) (start : Disk) (room : length es ≤ 32) (all : AllTargets es) where
  apply_entries-Ends :
      {readable : ℕ → Bool} (fs : List Entry) (d : Device)
      → AllNamed fs es
      → IsWhole es start d.blocks
      → d.readable ≡ readable
      → Ends readable
          (λ x. IsWhole es start x × (x ≡ overlay fs d.blocks))
          (IsWhole es start)
          (apply_entries fs d)
  unfolding apply_entries
  apply_entries-Ends [] d named w er = done d er (w, refl)
  apply_entries-Ends (f ∷ fs) d named w er =
      let written = put_block d.blocks f.0 f.1 in
      let w₁ = put_target-IsWhole es start d.blocks f.0 f.1 room all named.0 w in
      Ends-proceed (write_block-Ends (λ x. x ≡ written) (IsWhole es start) f.0 f.1 d er refl w)
        (λ d₁ er₁ q.
          Ends-map (λ d₂ r. (r.0, r.1 ∙ ap (overlay fs) q))
            (apply_entries-Ends fs d₁ named.1 (subst (IsWhole es start) (sym q) w₁) er₁))

-- A transaction that is not lost: it is whole in the journal, or its data are in place.
pub data IsDurable (es : List Entry) (start d : Disk) : Type 0 where
  whole : IsWhole es start d → IsDurable es start d
  new : IsIdle (overlay es start) d → IsDurable es start d

-- What an interrupted `commit_txn` may leave behind.
pub data IsRecoverable (es : List Entry) (start d : Disk) : Type 0 where
  old : IsIdle start d → IsRecoverable es start d
  durable : IsDurable es start d → IsRecoverable es start d

-- Once the marker is on the disk the transaction is whole.
put_committed-IsWhole :
    (es : List Entry) (start d : Disk)
    → length es ≤ 32
    → AllTargets es
    → HasSlots 0 es d
    → SameData d start
    → IsWhole es start (put_block d journal_hdr_blk (committed_header es))
put_committed-IsWhole es start d room all slots same = record {
  words = committed_header-HasWords es room;
  targets = committed_header-HasTargets es room all;
  slots = HasSlots-put_header 0 es d (committed_header es) slots;
  same = overlay-SameData es _ start (λ blk h. ground (arith, same blk h));
}

-- What `commit_txn` leaves behind when it succeeds.
abbrev pub IsDone : List Entry → Disk → Disk → Type 0
IsDone es start d = IsDurable es start d × SameData d (overlay es start)

clear_journal-Ends :
    (es : List Entry) (start : Disk) (d : Device)
    → IsWhole es start d.blocks
    → SameData d.blocks (overlay es start)
    → Ends d.readable
        (IsIdle (overlay es start))
        (IsDone es start)
        (write_block journal_hdr_blk clear_header d)
clear_journal-Ends es start d w same =
    write_block-Ends _ _ journal_hdr_blk clear_header d refl
      (put_header-IsIdle (overlay es start) d.blocks clear_header same clear_header-idle)
      (whole w, same)

module _ (es : List Entry) (start : Disk) (room : length es ≤ 32) (all : AllTargets es) where
  -- Phases 4 and 5.
  finish-Ends :
      {readable : ℕ → Bool} (d : Device)
      → d.readable ≡ readable
      → IsWhole es start d.blocks
      → SameData d.blocks start
      → Ends readable
          (IsDone es start)
          (IsRecoverable es start)
          (proceed (apply_entries es d) (λ d₄. (true, clear_journal d₄)))
  finish-Ends d er w same =
      Ends-proceed
        (Ends_failing (λ x u. durable (whole u))
          (apply_entries-Ends es start room all es d (AllNamed-self es) w er))
        (λ d₄ er₄ r.
          subst (λ ρ. Ends ρ (IsDone es start) (IsRecoverable es start) (true, clear_journal d₄))
            er₄
            (Ends_ignored
              (clear_journal-Ends es start d₄ r.0 (λ blk h.
                ap (λ (f : Disk). f blk) r.1 ∙ overlay-SameData es d.blocks start same blk h))
              (λ x n. (new n, n.same)) (λ x u. u)))

  -- From phase 3 on.
  mark-Ends :
      {readable : ℕ → Bool} (d : Device)
      → d.readable ≡ readable
      → HasSlots 0 es d.blocks × IsIdle start d.blocks
      → Ends readable (IsDone es start) (IsRecoverable es start) (
          proceed
            (write_block journal_hdr_blk (committed_header es) d)
            (λ d₃. proceed (apply_entries es d₃) (λ d₄. (true, clear_journal d₄))))
  mark-Ends d er (slots, idle) =
      let marked = put_block d.blocks journal_hdr_blk (committed_header es) in
      let same : SameData marked start = λ blk h. ground (arith, idle.same blk h) in
      Ends-proceed
        (write_block-Ends (λ x. x ≡ marked) (IsRecoverable es start) journal_hdr_blk
          (committed_header es) d er refl (old idle))
        (λ d₃ er₃ q.
          finish-Ends d₃ er₃
            (subst (IsWhole es start) (sym q)
              (put_committed-IsWhole es start d.blocks room all slots idle.same))
            (subst (λ x. SameData x start) (sym q) same))

  pub commit_entries-Ends :
      (d : Device)
      → IsIdle start d.blocks
      → Ends d.readable (IsDone es start) (IsRecoverable es start) (commit_entries es d)
  unfolding commit_entries
  commit_entries-Ends d idle =
      Ends-proceed
        (Ends_failing (λ x o. old o) (write_slots-Ends start 0 es d (omega arith) idle refl))
        (λ d₁ er₁ st.
          let same : SameData d₁.blocks start =
            λ blk h. st.frame blk (ground arith) ∙ idle.same blk h in
          let idle₁ : IsIdle start d₁.blocks = record {
            idle = ap is_committed (st.frame journal_hdr_blk (inl (omega arith))) ∙ idle.idle;
            same = same;
          } in
          Ends-proceed
            (write_block-Ends (λ x. HasSlots 0 es x × IsIdle start x) (IsRecoverable es start)
              journal_hdr_blk (prepared_header es) d₁ er₁
              (
                HasSlots-put_header 0 es d₁.blocks (prepared_header es) st.slots,
                put_header-IsIdle start d₁.blocks (prepared_header es) same
                    (prepared_header-idle es room),
              )
              (old idle₁))
            mark-Ends)
