-- ===== src/Ofs/Journal/Recovery.antt =====
-- What a disk holds, as recovery sees it: the old data, the new data, or a whole journal.
use openv.Common.{
  ℕ, suc, ◌+◌, ◌≤◌, ◌<◌, ◌≡◌, ◌≢◌, ◌⊎◌, inl, inr, refl, sym, ap, fun_ext, ◌∙◌, false, List, [], ◌∷◌,
  length, ◌==◌, if◌then◌else◌, Bool-cases, arith,
}
use openv.Ofs.Device.{Block, Disk, put_block}
use openv.Ofs.Journal.{journal_hdr_blk, journal_data_blk, Entry, is_committed}
use openv.Ofs.Journal.Header.{HasWords, HasTargets, IsTarget, AllTargets}

-- The blocks outside the journal.
abbrev pub IsData : ℕ → Type 0
IsData blk = (blk < 35) ⊎ (68 ≤ blk)

abbrev pub SameData : Disk → Disk → Type 0
SameData c d = (blk : ℕ) → IsData blk → c blk ≡ d blk

-- All the entries written, in their order.
abbrev pub overlay : List Entry → Disk → Disk
overlay [] d = d
overlay (e ∷ es) d = overlay es (put_block d e.0 e.1)

-- The journal's slots, from `i` on, hold the entries' contents.
abbrev pub HasSlots : ℕ → List Entry → Disk → Type 0
HasSlots i [] d = Unit {0}
HasSlots i (e ∷ es) d = (d (journal_data_blk + i) ≡ e.1) × HasSlots (suc i) es d

abbrev pub Names : ℕ → List Entry → Type 0
Names t [] = ⊥
Names t (e ∷ es) = (e.0 ≡ t) ⊎ Names t es

abbrev pub AllNamed : List Entry → List Entry → Type 0
AllNamed [] es = Unit {0}
AllNamed (f ∷ fs) es = Names f.0 es × AllNamed fs es

AllNamed-later :
    (fs : List Entry) (e : Entry) (es : List Entry) → AllNamed fs es → AllNamed fs (e ∷ es)
AllNamed-later [] e es h = tt
AllNamed-later (f ∷ fs) e es h = (inr h.0, AllNamed-later fs e es h.1)

pub AllNamed-self : (es : List Entry) → AllNamed es es
AllNamed-self [] = tt
AllNamed-self (e ∷ es) = (inl refl, AllNamed-later es e es (AllNamed-self es))

pub put_block-same :
    (d : Disk) (t : ℕ) (b c : Block) → put_block (put_block d t b) t c ≡ put_block d t c
put_block-same d t b c = fun_ext λ blk. ground arith

put_block_comm :
    (d : Disk) (t u : ℕ) (b c : Block)
    → t ≢ u
    → put_block (put_block d t b) u c ≡ put_block (put_block d u c) t b
put_block_comm d t u b c ne = fun_ext λ blk. ground arith

-- What the entries overwrite does not matter.
pub overlay-put_block :
    (es : List Entry) (d : Disk) (t : ℕ) (b : Block)
    → Names t es
    → overlay es (put_block d t b) ≡ overlay es d
overlay-put_block [] d t b h = absurd h
overlay-put_block (e ∷ es) d t b (inl e₀) =
    ap (overlay es) (rw (sym e₀) (put_block-same d e.0 b e.1))
overlay-put_block (e ∷ es) d t b (inr later) = elim (Bool-cases (t == e.0)) [
  | inl same ↦ ap (overlay es) (fun_ext λ blk. ground arith)
  | inr other ↦
      ap (overlay es) (put_block_comm d t e.0 b e.1 (ground arith))
      ∙ overlay-put_block es (put_block d e.0 e.1) t b later
]

pub overlay-SameData :
    (es : List Entry) (c d : Disk) → SameData c d → SameData (overlay es c) (overlay es d)
overlay-SameData [] c d same = same
overlay-SameData (e ∷ es) c d same =
    overlay-SameData es _ _ (λ blk h. ap (λ x. if blk == e.0 then e.1 else x) (same blk h))

-- The superblock is no target.
pub overlay_zero : (es : List Entry) (d : Disk) → AllTargets es → overlay es d 0 ≡ d 0
overlay_zero [] d all = refl
overlay_zero (e ∷ es) d all = overlay_zero es (put_block d e.0 e.1) all.1 ∙ ground arith

Names-IsTarget : (es : List Entry) (t : ℕ) → AllTargets es → Names t es → IsTarget t
Names-IsTarget [] t all h = absurd h
Names-IsTarget (e ∷ es) t all (inl e₀) = ground arith
Names-IsTarget (e ∷ es) t all (inr later) = Names-IsTarget es t all.1 later

pub HasSlots-put_block :
    (i : ℕ) (es : List Entry) (d : Disk) (t : ℕ) (b : Block)
    → i + length es ≤ 32
    → IsTarget t
    → HasSlots i es d
    → HasSlots i es (put_block d t b)
HasSlots-put_block i [] d t b room tg h = tt
HasSlots-put_block i (e ∷ es) d t b room tg h =
    (ground arith, HasSlots-put_block (suc i) es d t b (omega arith) tg h.1)

-- Writes to the header touch no slot.
pub HasSlots-put_header :
    (i : ℕ) (es : List Entry) (d : Disk) (b : Block)
    → HasSlots i es d
    → HasSlots i es (put_block d journal_hdr_blk b)
HasSlots-put_header i [] d b h = tt
HasSlots-put_header i (e ∷ es) d b h = (ground arith, HasSlots-put_header (suc i) es d b h.1)

-- The data of `d` are those of `start`, and no transaction is in the journal.
pub record IsIdle (start d : Disk) : Type 0 where
  pub idle : is_committed (d journal_hdr_blk) ≡ false
  pub same : SameData d start

-- The whole transaction is in the journal, and makes of `d` what it makes of `start`.
pub record IsWhole (es : List Entry) (start d : Disk) : Type 0 where
  pub words : HasWords (length es) 1 (d journal_hdr_blk)
  pub targets : HasTargets 0 es (d journal_hdr_blk)
  pub slots : HasSlots 0 es d
  pub same : SameData (overlay es d) (overlay es start)

pub put_header-IsIdle :
    (start d : Disk) (b : Block)
    → SameData d start
    → is_committed b ≡ false
    → IsIdle start (put_block d journal_hdr_blk b)
put_header-IsIdle start d b same e = record { idle = e; same = λ blk h. ground (arith, same blk h) }

-- A write of one of the entries' targets keeps the transaction whole.
pub put_target-IsWhole :
    (es : List Entry) (start d : Disk) (t : ℕ) (b : Block)
    → length es ≤ 32
    → AllTargets es
    → Names t es
    → IsWhole es start d
    → IsWhole es start (put_block d t b)
put_target-IsWhole es start d t b room all named w =
    let tg = Names-IsTarget es t all named in
    let hdr : put_block d t b journal_hdr_blk ≡ d journal_hdr_blk = ground arith in
    record {
      words = rw hdr w.words;
      targets = rw hdr w.targets;
      slots = HasSlots-put_block 0 es d t b (omega arith) tg w.slots;
      same = λ blk h. ap (λ (f : Disk). f blk) (overlay-put_block es d t b named) ∙ w.same blk h;
    }
