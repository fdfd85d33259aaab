-- ===== src/Mm/Vmm/Tests.antt =====
-- The page table theorems on concrete data.
use openv.Common.{ℕ, ◌+◌, ◌≤◌, ◌≡◌, refl, arith, true, List, [], ◌∷◌, length}
use openv.Mm.Pmm.{Pmm, returns}
use openv.Mm.Vmm.{ok, walk_level, walk_page_table, map_page}
use openv.Mm.Vmm.Tables.{Owner}
use openv.Mm.Vmm.Descend.{Untouched}
use openv.Mm.Vmm.Empty.{empty_root, root_only, empty_root-IsTree, empty_root-IsReady}
use openv.Mm.Vmm.Mapping.{Mapped, map_page_lem}

map_page_lem_example :
    (p' : Pmm) × (owner' : Owner) × (free' : List ℕ) × (map_page true 0x8000_4000 0x1_0000_2000
        0x8000_7000 6 empty_root
      ≡ returns (ok tt, p'))
    × Mapped empty_root p' 0x8000_4000 owner' free' 0x1_0000_2000 0x8000_7000 6
    × Untouched empty_root p' root_only owner' (0x8000_1000 ∷ 0x8000_3000 ∷ 0x8000_5000 ∷ []) free'
    × (3 ≤ 2 + length free')
unfolding walk_page_table walk_level
map_page_lem_example =
    map_page_lem true empty_root 0x8000_4000 root_only
      (0x8000_1000 ∷ 0x8000_3000 ∷ 0x8000_5000 ∷ []) 0x1_0000_2000 0x8000_7000 6 empty_root-IsTree
      empty_root-IsReady (omega arith) refl (refl, omega arith) (omega arith)
