-- ===== src/Mm/Tests.antt =====
-- The memory management theorems on concrete data.
use openv.Common.{
  ℕ, ◌+◌, ◌*◌, ◌<◌, ◌≡◌, refl, arith, true, false, List, [], ◌∷◌, ◌==◌, if◌then◌else◌, some,
}
use mathlib.Core.List.{Mem}
use openv.Mm.Pmm.{Pmm, returns, poison_word, page_index, alloc_frame, decr_ref_and_maybe_free}
use openv.Mm.Pmm.Chain.{All, Apart}
use openv.Mm.Pmm.Frames.{
  IsFrame, IsValid, OnlyAt, Drops, alloc_frame_lem, decr_ref_and_maybe_free-IsValid,
  decr_ref_and_maybe_free-twice,
}
use openv.Mm.Pmm.Boot.{Regions, init}
use openv.Mm.Pmm.Boot.Valid.{IsUsable, init-IsValid}

-- RAM from 0x80000000 with two free pages, at 0x80001000 and 0x80003000. The page between them has
-- two references and the page at 0x80004000 has one.
abbrev two_free : Pmm
two_free = record {
  ram_start = 0x8000_0000;
  head = 0x8000_1000;
  counts = λ j. if j == 2 then 2 else if j == 4 then 1 else 0;
  mem = λ a i. if i == 0 then (if a == 0x8000_1000 then 0x8000_3000 else 0) else poison_word;
}

two_free-IsFrame : (k : ℕ) → k < 100 → IsFrame 0x8000_0000 (0x8000_0000 + k * 0x1000)
two_free-IsFrame k h = record {
  above = omega arith;
  below = omega arith;
  aligned = omega arith;
  nonzero = omega arith;
}

two_free-IsValid : IsValid two_free (0x8000_1000 ∷ 0x8000_3000 ∷ [])
unfolding page_index
two_free-IsValid = record {
  chain = (refl, omega arith, (refl, omega arith, refl));
  unused = (
    (two_free-IsFrame 1 (omega arith), refl, refl),
    ((two_free-IsFrame 3 (omega arith), refl, refl), tt),
  );
  distinct = ((omega arith, tt), (tt, tt));
}

alloc_frame_lem_example :
    (p' : Pmm) × (alloc_frame true two_free ≡ returns (some 0x8000_1000, p'))
    × IsValid p' (0x8000_3000 ∷ [])
    × Apart 0x8000_1000 (0x8000_3000 ∷ [])
    × (p'.counts (page_index 0x8000_0000 0x8000_1000) ≡ 1)
    × ((i : ℕ) → p'.mem 0x8000_1000 i ≡ 0)
    × OnlyAt 0x8000_1000 two_free p'
alloc_frame_lem_example =
    alloc_frame_lem true two_free 0x8000_1000 (0x8000_3000 ∷ []) two_free-IsValid

decr_ref_and_maybe_free-IsValid_example :
    Drops two_free 0x8000_2000
      (0x8000_1000 ∷ 0x8000_3000 ∷ [])
      (decr_ref_and_maybe_free two_free 0x8000_2000)
unfolding page_index
decr_ref_and_maybe_free-IsValid_example =
    decr_ref_and_maybe_free-IsValid two_free 0x8000_2000 (0x8000_1000 ∷ 0x8000_3000 ∷ [])
      two_free-IsValid (two_free-IsFrame 2 (omega arith)) (omega arith)

decr_ref_and_maybe_free-twice_example :
    (p₁ : Pmm) × (p₂ : Pmm) × (alloc_frame false (decr_ref_and_maybe_free two_free 0x8000_1000)
      ≡ returns (some 0x8000_1000, p₁))
    × (alloc_frame false p₁ ≡ returns (some 0x8000_1000, p₂))
decr_ref_and_maybe_free-twice_example =
    decr_ref_and_maybe_free-twice two_free 0x8000_1000 (0x8000_3000 ∷ []) two_free-IsValid

-- Ten pages of RAM with the kernel in the first two, the device tree in the fifth, and
-- the initial RAM disk in the seventh and the eighth.
abbrev ten_pages : Regions
ten_pages = record {
  ram_end = 0x8000_a000;
  fdt_start = 0x8000_4000;
  fdt_end = 0x8000_4100;
  initrd_start = 0x8000_6000;
  initrd_end = 0x8000_7200;
}

init-IsValid_example :
    (free : List ℕ) × IsValid (init 0x8000_0000 ten_pages 0x8000_2000 (λ a i. 0)) free
    × All (IsUsable ten_pages 0x8000_2000) free
    × ((a : ℕ) → IsUsable ten_pages 0x8000_2000 a → Mem a free)
init-IsValid_example =
    init-IsValid 0x8000_0000 ten_pages 0x8000_2000 (λ a i. 0)
      (record { above = omega arith; aligned = refl; positive = omega arith; small = omega arith })
