-- ===== src/Mm/Vmm/Demand.antt =====
-- Demand paging: `handle_user_page_fault` of src/mm/vmm.rs.
pub mod Maps
mod Tests
use openv.Common.{
  ℕ, ◌+◌, ◌-◌, ◌%◌, ◌^◌, bit_and, bit_or, Bool, true, false, not, ◌&&◌, Option, none, some, ◌==◌,
  leb, ltb, if◌then◌else◌,
}
use openv.Mm.Pmm.{Pmm, Outcome, returns, panics, decr_ref_and_maybe_free}
use openv.Mm.UserPointer.{user_start, user_end}
use openv.Mm.Vmm.{
  pte_r, pte_w, pte_x, pte_u, is_set, Result, ok, err, Step, alloc_or_fail, map_page,
}
use openv.Mm.Vmm.Unmap.{page_floor}
use openv.Posix.Job.{Jobs, check_memory_limit, alloc_memory}

-- What a fault may change: the memory, the jobs, and the current process's number of pages.
pub record Kernel : Type 0 where
  pub pmm : Pmm
  pub jobs : Jobs
  pub allocated_pages : ℕ

pub data FaultError : Type 0 where
  kernel_space : FaultError
  identity_map : FaultError
  swap_failed : FaultError
  memory_limit : FaultError
  out_of_memory : FaultError

-- `stuck` when the fuel of the loops over jobs does not last.
pub data Fault : Type 0 where
  handled : Kernel → Fault
  fails : FaultError → Kernel → Fault
  panicked : Fault
  stuck : Fault

-- The flags of the new page.
abbrev pub fault_flags : ℕ → ℕ
fault_flags extra_flags =
    let raw_flags : ℕ = bit_or (bit_or pte_r pte_u) extra_flags in
    let wants_w : Bool = bit_and extra_flags pte_w == 0 in
    let wants_x : Bool = is_set extra_flags pte_x in
    bit_or (bit_or raw_flags (if wants_x then pte_x else 0))
      (if wants_w && not wants_x then pte_w else 0)

-- The new page belongs to the process, whose job and ancestors pay for it.
unfoldable pub account : ℕ → Option ℕ → Kernel → Pmm → Fault
account fuel none k p = handled (record k { pmm = p })
account fuel (some job) k p = elim (alloc_memory fuel k.jobs job 4096) [
  | none ↦ stuck
  | some jobs ↦
      handled (record { pmm = p; jobs = jobs; allocated_pages = (k.allocated_pages + 1) % 2 ^ 64 })
]

-- From `map_page` on. When it fails the frame is dropped, and the fault counts as handled.
unfoldable pub map_fresh : Bool → ℕ → Option ℕ → ℕ → ℕ → ℕ → ℕ → Kernel → Pmm → Fault
map_fresh debug fuel job root page_va flags frame k p =
    elim (map_page debug root page_va frame flags p) [
      | panics ↦ panicked
      | returns (result, p') ↦ elim result [
        | ok done ↦ account fuel job k p'
        | err e ↦ handled (record k { pmm = decr_ref_and_maybe_free p' frame })
      ]
    ]

unfoldable pub demand_page : Bool → ℕ → Option ℕ → ℕ → ℕ → ℕ → Kernel → Fault
demand_page debug fuel job root page_va extra_flags k = elim (alloc_or_fail debug k.pmm) [
  | panics ↦ panicked
  | returns (result, p) ↦ elim result [
    | err e ↦ fails out_of_memory (record k { pmm = p })
    | ok frame ↦ map_fresh debug fuel job root page_va (fault_flags extra_flags) frame k p
  ]
]

unfoldable pub refuses_memory : ℕ → Option ℕ → Jobs → Option Bool
refuses_memory fuel none jobs = some false
refuses_memory fuel (some job) jobs = elim (check_memory_limit fuel jobs job 4096) [
  | none ↦ none
  | some allowed ↦ some (not allowed)
]

unfoldable pub limited_page : Bool → ℕ → Option ℕ → ℕ → ℕ → ℕ → Kernel → Fault
limited_page debug fuel job root page_va extra_flags k = elim (refuses_memory fuel job k.jobs) [
  | none ↦ stuck
  | some refused ↦
      if refused
      then fails memory_limit k
      else demand_page debug fuel job root page_va extra_flags k
]

-- `lookup_swap` and `swap_in` are those of src/mm/swap.rs; `job` is that of the current process, if there
-- is one.
unfoldable pub handle_user_page_fault :
    Bool → (ℕ → ℕ → Bool) → (ℕ → ℕ → Kernel → Fault) → ℕ → Option ℕ → ℕ → ℕ → ℕ → Kernel → Fault
handle_user_page_fault debug lookup_swap swap_in fuel job root fault_va extra_flags k =
    if leb user_end fault_va
    then fails kernel_space k
    else if ltb fault_va user_start
    then fails identity_map k
    else if lookup_swap root (page_floor fault_va)
    then swap_in root (page_floor fault_va) k
    else limited_page debug fuel job root (page_floor fault_va) extra_flags k
