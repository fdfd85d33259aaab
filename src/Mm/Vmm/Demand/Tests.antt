-- ===== src/Mm/Vmm/Demand/Tests.antt =====
-- Demand paging in an empty address space, for a process whose job is the root job.
use openv.Common.{
  ℕ, ◌≡◌, ◌<◌, refl, arith, Bool, true, false, none, some, List, [], ◌∷◌, ◌==◌, if◌then◌else◌,
}
use openv.Common.Bits.{bit_of}
use openv.Mm.Vmm.{walk_page_table, walk_level}
use openv.Mm.Vmm.Tables.{Owner}
use openv.Mm.Vmm.Empty.{empty_root, root_only, empty_root-IsTree, empty_root-IsReady}
use openv.Mm.Vmm.Demand.{Kernel, Fault, handled, fails, swap_failed, handle_user_page_fault}
use openv.Mm.Vmm.Demand.Maps.{fault_bit, Paged, handle_user_page_fault_lem}
use openv.Posix.Job.{
  Jobs, new, charge, charge_from, add_bytes, check_memory_limit, check_from, alloc_memory,
}

abbrev one_job : Jobs
one_job j = if j == 0 then some (new none) else none

abbrev idle_kernel : Kernel
idle_kernel = record { pmm = empty_root; jobs = one_job; allocated_pages = 5 }

abbrev never_swapped : ℕ → ℕ → Bool
never_swapped root va = false

abbrev no_swap_in : ℕ → ℕ → Kernel → Fault
no_swap_in root va k = fails swap_failed k

room : check_memory_limit 3 one_job 0 4096 ≡ some true
unfolding check_memory_limit check_from
room = refl

charged_once : alloc_memory 3 one_job 0 4096 ≡ some (charge (add_bytes 4096) one_job 0)
unfolding alloc_memory charge_from
charged_once = refl

handle_user_page_fault_lem_example :
    (k' : Kernel) × (owner' : Owner) × (free' : List ℕ) × (f : ℕ) × (flags : ℕ)
    × (handle_user_page_fault true never_swapped no_swap_in 3
          (some 0)
          0x8000_4000
          0x1_0000_2345
          8
          idle_kernel
        ≡ handled k')
    × Paged idle_kernel k' 0x8000_4000 owner' free' 0x1_0000_2000 flags f
    × (flags < 1024)
    × ((j : ℕ) → j < 10 → bit_of j flags ≡ fault_bit 8 j)
    × (k'.jobs ≡ charge (add_bytes 4096) one_job 0)
    × (k'.allocated_pages ≡ 6)
unfolding walk_page_table walk_level
handle_user_page_fault_lem_example =
    handle_user_page_fault_lem true never_swapped no_swap_in 3 0 0x8000_4000 0x1_0000_2345 8
      idle_kernel root_only (0x8000_1000 ∷ 0x8000_3000 ∷ 0x8000_5000 ∷ [])
      (charge (add_bytes 4096) one_job 0) empty_root-IsTree empty_root-IsReady (omega arith)
      (omega arith) (omega arith) refl refl (omega arith) room charged_once
