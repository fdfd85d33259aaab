-- ===== src/Mm/Vmm/Fault.antt =====
-- The copy on a write to a shared page: `handle_store_page_fault` of src/mm/vmm.rs.
pub mod Flags
pub mod Cow
mod Tests
use openv.Common.{ℕ, ◌-◌, bit_and, bit_or, Bool, not, ◌==◌, if◌then◌else◌}
use openv.Mm.Pmm.{Pmm, Memory, Outcome, returns, decr_ref_and_maybe_free, is_managed_page}
use openv.Mm.Vmm.{
  pte_v, pte_w, pte_cow, is_set, frame_of, entry_of, vpn₂, vpn₁, vpn₀, Result, ok, err, unmapped,
  unmanaged_page, read_only, Step, and_then, walk_level, alloc_or_fail, put_entry,
}

-- `copy_nonoverlapping` of a page.
abbrev pub copy_page : Memory → ℕ → ℕ → Memory
copy_page mem from to a j = if a == to then mem from j else mem a j

-- `(flags & !PTE_COW) | PTE_W`
abbrev pub cow_flags : ℕ → ℕ
cow_flags flags = bit_or (flags - bit_and flags pte_cow) pte_w

abbrev pub cow_entry : ℕ → ℕ → ℕ
cow_entry frame flags = bit_or (bit_or (entry_of frame) (bit_and (cow_flags flags) 0x3ff)) pte_v

-- A level that a fault walks: its tests are those of `walk_page_table`.
abbrev pub fault_level : ℕ → ℕ → Step ℕ
fault_level pt i p = returns (walk_level p.mem pt i, p)

-- From the new frame on.
unfoldable pub replace_page : ℕ → ℕ → ℕ → ℕ → ℕ → Pmm → Pmm
replace_page l₀ i pa flags frame p =
    let copied : Pmm = record p { mem = copy_page p.mem pa frame } in
    decr_ref_and_maybe_free (put_entry l₀ i (cow_entry frame flags) copied) pa

unfoldable pub cow_page : Bool → ℕ → ℕ → ℕ → ℕ → Step (Unit {0})
cow_page debug l₀ i pa flags p =
    if not (is_managed_page p.ram_start pa)
    then returns (err unmanaged_page, p)
    else and_then (alloc_or_fail debug p)
        (λ frame p₁. returns (ok tt, replace_page l₀ i pa flags frame p₁))

unfoldable pub fault_leaf : Bool → ℕ → ℕ → Step (Unit {0})
fault_leaf debug l₀ i p =
    let entry : ℕ = p.mem l₀ i in
    if not (is_set entry pte_v)
    then returns (err unmapped, p)
    else if is_set (bit_and entry 0x3ff) pte_cow
    then cow_page debug l₀ i (frame_of entry) (bit_and entry 0x3ff) p
    else returns (err read_only, p)

unfoldable pub handle_store_page_fault : Bool → ℕ → ℕ → Step (Unit {0})
handle_store_page_fault debug root va p =
    and_then (fault_level root (vpn₂ va) p)
      (λ l₁ p₁. and_then (fault_level l₁ (vpn₁ va) p₁) (λ l₀. fault_leaf debug l₀ (vpn₀ va)))
