-- ===== src/Mm/Vmm/Unmap.antt =====
-- `unmap_range` of src/mm/vmm.rs.
pub mod Clear
pub mod Range
mod Tests
use openv.Common.{
  ℕ, zero, suc, ◌+◌, ◌-◌, ◌*◌, ◌%◌, ◌^◌, min, bit_and, Bool, true, false, Option, none, some, ltb,
  if◌then◌else◌,
}
use openv.Mm.Pmm.{Pmm, page_size, decr_ref_and_maybe_free}
use openv.Mm.UserPointer.{saturating_add}
use openv.Mm.Vmm.{pte_v, pte_u, is_set, frame_of, vpn₂, vpn₁, vpn₀, ok, err, walk_level, put_entry}

abbrev pub page_floor : ℕ → ℕ
page_floor va = va - va % page_size

abbrev pub drop_user_page : ℕ → Pmm → Pmm
drop_user_page entry p =
    if is_set (bit_and entry 0x3ff) pte_u then decr_ref_and_maybe_free p (frame_of entry) else p

unfoldable pub clear_leaf : ℕ → ℕ → Pmm → Pmm
clear_leaf l₀ i p =
    if is_set (p.mem l₀ i) pte_v then put_entry l₀ i 0 (drop_user_page (p.mem l₀ i) p) else p

-- One round of the loop: the next address and the state. The tests on the entries of the first two
-- levels are those of a walk.
unfoldable pub unmap_next : ℕ → ℕ → Pmm → ℕ × Pmm
unmap_next root va p = elim (walk_level p.mem root (vpn₂ va)) [
  | err e ↦ (page_floor (saturating_add va (2 ^ 30)), p)
  | ok l₁ ↦ elim (walk_level p.mem l₁ (vpn₁ va)) [
    | err e ↦ (page_floor (saturating_add va (2 ^ 21)), p)
    | ok l₀ ↦ ((va + page_size) % 2 ^ 64, clear_leaf l₀ (vpn₀ va) p)
  ]
]

unfoldable pub unmap_from : ℕ → ℕ → ℕ → ℕ → Pmm → Option Pmm
unmap_from zero root end va p = none
unmap_from (suc fuel) root end va p =
    let rest = unmap_from fuel root end (unmap_next root va p).0 (unmap_next root va p).1 in
    if ltb va end then rest else some p

-- The fuel bounds the rounds of the loop.
unfoldable pub unmap_range : ℕ → ℕ → ℕ → ℕ → Pmm → Option Pmm
unmap_range fuel root va_start len p =
    unmap_from fuel root (saturating_add va_start len) (page_floor va_start) p
