-- ===== src/Mm/Vmm/Unmap/Tests.antt =====
-- `unmap_range` on concrete tables.
use openv.Common.{ℕ, ◌^◌, ◌<◌, ◌≡◌, refl, arith, some}
use openv.Mm.Pmm.{Pmm}
use openv.Mm.Vmm.{walk_page_table, walk_level, vpn₂, unmapped}
use openv.Mm.Vmm.Shared.{shared_page, roles, shared_page-IsTree, shared_page-UserLeaves}
use openv.Mm.Vmm.Unmap.{unmap_range}
use openv.Mm.Vmm.Unmap.Range.{Keeps, unmap_range-Keeps, unmap_range-skips}

-- The shared page at address 0 and the page after it.
unmap_range-Keeps_example :
    (p' : Pmm) × (unmap_range 3 0x8000_4000 0x123 0x1e00 shared_page ≡ some p')
    × Keeps shared_page p' 0x8000_4000 roles 0 0x1f23
unmap_range-Keeps_example =
    unmap_range-Keeps 2 shared_page 0x8000_4000 roles 0x123 0x1e00 shared_page-IsTree
      shared_page-UserLeaves (omega arith) (omega arith)

-- From the second half of the second gigabyte, which has no table.
unmap_range-skips_example :
    (p' : Pmm) × (unmap_range 4 0x8000_4000 0x6000_0000 0x2000 shared_page ≡ some p')
    × ((va : ℕ)
        → va < 0xa000_0000
        → va < 2 ^ 39
        → walk_page_table p'.mem 0x8000_4000 va ≡ walk_page_table shared_page.mem 0x8000_4000 va)
unfolding walk_level vpn₂
unmap_range-skips_example =
    unmap_range-skips 2 shared_page 0x8000_4000 roles 0x6000_0000 0x2000 unmapped shared_page-IsTree
      shared_page-UserLeaves refl (omega arith) (omega arith) (omega arith) refl
