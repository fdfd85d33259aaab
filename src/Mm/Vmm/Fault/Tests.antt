-- ===== src/Mm/Vmm/Fault/Tests.antt =====
-- The copy on write on concrete tables.
use openv.Common.{ℕ, suc, ◌≤◌, ◌≡◌, refl, arith, true, List, [], ◌∷◌, length}
use openv.Mm.Pmm.{Pmm, page_index, returns}
use openv.Mm.Vmm.{ok}
use openv.Mm.Vmm.Shared.{
  shared_page, roles, shared_page-IsTree, shared_page-IsReady, shared_walk, IsFrame-at,
}
use openv.Mm.Vmm.Fault.{handle_store_page_fault}
use openv.Mm.Vmm.Fault.Cow.{Copied, handle_store_page_fault_lem}

handle_store_page_fault_lem_example :
    (p' : Pmm) × (free' : List ℕ) × (f : ℕ) × (handle_store_page_fault true 0x8000_4000 0x123
        shared_page
      ≡ returns (ok tt, p'))
    × Copied shared_page p' 0x8000_4000 roles free' 0x123 0x8000_5000 0x113 f
    × (1 ≤ suc (length free'))
unfolding page_index
handle_store_page_fault_lem_example =
    handle_store_page_fault_lem true shared_page 0x8000_4000 roles (0x8000_1000 ∷ []) 0x123
      0x8000_5000 0x113 shared_page-IsTree shared_page-IsReady (omega arith) shared_walk refl
      (IsFrame-at 5 (omega arith)) refl (omega arith)
