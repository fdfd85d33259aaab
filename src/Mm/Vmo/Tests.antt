-- ===== src/Mm/Vmo/Tests.antt =====
-- A memory object of two pages, with three pages free.
use openv.Common.{refl, Bool, true, false, [], ◌∷◌}
use openv.Mm.Pmm.{Pmm}
use openv.Mm.Vmm.Empty.{empty_root, empty_root-IsReady}
use openv.Mm.Vmo.Pages.{Creates, new-Creates}

abbrev nothing_to_evict : Pmm → Bool × Pmm
nothing_to_evict p = (false, p)

new-Creates_example :
    Creates true nothing_to_evict 5000 (0x8000_1000 ∷ 0x8000_3000 ∷ 0x8000_5000 ∷ []) empty_root
new-Creates_example =
    new-Creates true nothing_to_evict 5000 (0x8000_1000 ∷ 0x8000_3000 ∷ 0x8000_5000 ∷ []) empty_root
      (λ q v. refl) empty_root-IsReady.valid refl
