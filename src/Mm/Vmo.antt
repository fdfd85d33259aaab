-- ===== src/Mm/Vmo.antt =====
-- src/mm/vmo.rs: memory objects, the pages that back a region, over the physical memory manager.
pub mod Pages
mod Tests
use openv.Common.{ℕ, zero, suc, ◌+◌, ◌/◌, Bool, Option, none, some, List, [], ◌∷◌, ◌++◌}
use openv.Mm.Pmm.{Pmm, Outcome, returns, panics, alloc_page, free_page}

pub record Vmo : Type 0 where
  pub size_bytes : ℕ
  pub physical_pages : List ℕ

abbrev pub num_pages : ℕ → ℕ
num_pages size_bytes = (size_bytes + 4095) / 4096

-- `for p in pages { free_page(p) }`
unfoldable pub free_pages : Bool → List ℕ → Pmm → Outcome Pmm
free_pages debug [] p = returns p
free_pages debug (page ∷ pages) p = elim (free_page debug p page) [
  | panics ↦ panics
  | returns p' ↦ free_pages debug pages p'
]

-- The loop of `Vmo::new`, for so many pages more, with `try_evict_page` as an argument.
unfoldable pub alloc_pages :
    Bool → (Pmm → Bool × Pmm) → ℕ → List ℕ → Pmm → Outcome (Option (List ℕ) × Pmm)
alloc_pages debug evict zero pages p = returns (some pages, p)
alloc_pages debug evict (suc n) pages p = elim (alloc_page debug evict p) [
  | panics ↦ panics
  | returns (found, p') ↦ elim found [
    | some page ↦ alloc_pages debug evict n (pages ++ (page ∷ [])) p'
    | none ↦ elim (free_pages debug pages p') [
      | panics ↦ panics
      | returns p'' ↦ returns (none, p'')
    ]
  ]
]

-- `Vmo::new`
unfoldable pub new : Bool → (Pmm → Bool × Pmm) → ℕ → Pmm → Outcome (Option Vmo × Pmm)
new debug evict size_bytes p = elim (alloc_pages debug evict (num_pages size_bytes) [] p) [
  | panics ↦ panics
  | returns (found, p') ↦ elim found [
    | none ↦ returns (none, p')
    | some pages ↦ returns (some (record { size_bytes = size_bytes; physical_pages = pages }), p')
  ]
]

-- `Drop for Vmo`
abbrev pub drop_vmo : Bool → Vmo → Pmm → Outcome Pmm
drop_vmo debug vmo p = free_pages debug vmo.physical_pages p
