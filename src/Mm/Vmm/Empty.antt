-- ===== src/Mm/Vmm/Empty.antt =====
-- An empty page table and free pages, for the tests.
use openv.Common.{
  ℕ, ◌+◌, ◌*◌, ◌<◌, ◌≡◌, refl, arith, [], ◌∷◌, ◌==◌, if◌then◌else◌, eq-cases, inl, inr, ==_ne, ap,
  subst,
}
use openv.Mm.Pmm.{Pmm, poison_word, page_index}
use openv.Mm.Pmm.Frames.{IsFrame, IsValid}
use openv.Mm.Vmm.{ok, walk_level}
use openv.Mm.Vmm.Tables.{top, other, IsDirectory, Owner, IsTree, IsReady}

-- An empty root table at 0x80004000 beside three free pages, at 0x80001000, 0x80003000 and
-- 0x80005000.
abbrev pub empty_root : Pmm
empty_root = record {
  ram_start = 0x8000_0000;
  head = 0x8000_1000;
  counts = λ j. if j == 4 then 1 else 0;
  mem = λ a i.
      if a == 0x8000_4000
      then 0
      else if i == 0
      then if a == 0x8000_1000 then 0x8000_3000 else if a == 0x8000_3000 then 0x8000_5000 else 0
      else poison_word;
}

ram-IsFrame : (k : ℕ) → k < 100 → IsFrame 0x8000_0000 (0x8000_0000 + k * 0x1000)
ram-IsFrame k h = record {
  above = omega arith;
  below = omega arith;
  aligned = omega arith;
  nonzero = omega arith;
}

empty_root-IsValid : IsValid empty_root (0x8000_1000 ∷ 0x8000_3000 ∷ 0x8000_5000 ∷ [])
unfolding page_index
empty_root-IsValid = record {
  chain = (refl, omega arith, (refl, omega arith, (refl, omega arith, refl)));
  unused = (
    (ram-IsFrame 1 (omega arith), refl, refl),
    ((ram-IsFrame 3 (omega arith), refl, refl), ((ram-IsFrame 5 (omega arith), refl, refl), tt)),
  );
  distinct = ((omega arith, (omega arith, tt)), ((omega arith, tt), (tt, tt)));
}

abbrev pub root_only : Owner
root_only a = if a == 0x8000_4000 then top else other

root_level : (pt i t : ℕ) → IsDirectory (root_only pt) → walk_level empty_root.mem pt i ≡ ok t → ⊥
unfolding walk_level
root_level pt i t d e = elim (eq-cases pt 0x8000_4000) [
  | inl at ↦ ground (arith, at)
  | inr ne ↦ subst IsDirectory (ap (λ b. if b then top else other) (==_ne pt 0x8000_4000 ne)) d
]

pub empty_root-IsTree : IsTree empty_root.mem 0x8000_4000 root_only
empty_root-IsTree = record {
  at_root = refl;
  links = λ pt i t d lt e. absurd (root_level pt i t d e);
  no_leaf = λ pt i t d lt e. absurd (root_level pt i t d e);
}

pub empty_root-IsReady : IsReady empty_root (0x8000_1000 ∷ 0x8000_3000 ∷ 0x8000_5000 ∷ []) root_only
empty_root-IsReady = record {
  valid = empty_root-IsValid;
  aligned = refl;
  bounded = omega arith;
  unowned = (refl, (refl, (refl, tt)));
}
