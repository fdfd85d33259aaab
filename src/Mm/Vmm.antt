-- ===== src/Mm/Vmm.antt =====
-- src/mm/vmm.rs: Sv39 page tables, in the memory of the physical memory manager. A page table is a page
-- of 512 words. `debug` says whether the build has debug assertions.
pub mod Entry
pub mod Tables
pub mod Extend
pub mod Descend
pub mod Mapping
pub mod Agree
pub mod Fault
pub mod Unmap
pub mod Demand
pub mod Shared
pub mod Empty
mod Tests
use openv.Common.{
  ℕ, ◌+◌, ◌-◌, ◌*◌, ◌/◌, ◌%◌, ◌^◌, bit_and, bit_or, Bool, true, false, not, ◌&&◌, ◌||◌, Option,
  none, some, ◌==◌, ltb, if◌then◌else◌,
}
use openv.Mm.Pmm.{
  Pmm, Memory, Outcome, returns, panics, write_word, alloc_frame, decr_ref_and_maybe_free,
  is_managed_page,
}

abbrev pub pte_v : ℕ
pte_v = 1

abbrev pub pte_r : ℕ
pte_r = 2

abbrev pub pte_w : ℕ
pte_w = 4

abbrev pub pte_x : ℕ
pte_x = 8

abbrev pub pte_u : ℕ
pte_u = 16

abbrev pub pte_cow : ℕ
pte_cow = 256

abbrev pub is_set : ℕ → ℕ → Bool
is_set entry mask = not (bit_and entry mask == 0)

-- `(entry >> 10) << 12` and `(pa >> 12) << 10`.
unfoldable pub frame_of : ℕ → ℕ
frame_of entry = entry / 1024 * 4096 % 2 ^ 64

unfoldable pub entry_of : ℕ → ℕ
entry_of pa = pa / 4096 * 1024 % 2 ^ 64

-- The indices of an address in the tables, from the root down.
unfoldable pub vpn₂ : ℕ → ℕ
vpn₂ va = bit_and (va / 2 ^ 30) 0x1ff

unfoldable pub vpn₁ : ℕ → ℕ
vpn₁ va = bit_and (va / 2 ^ 21) 0x1ff

unfoldable pub vpn₀ : ℕ → ℕ
vpn₀ va = bit_and (va / 2 ^ 12) 0x1ff

-- The messages of the functions below.
pub data VmmError : Type 0 where
  out_of_memory : VmmError
  megapage_conflict : VmmError
  already_mapped : VmmError
  unmapped : VmmError
  huge_page : VmmError
  unmanaged_page : VmmError
  read_only : VmmError

pub data Result {ℓ} (A : Type ℓ) : Type ℓ where
  ok : A → Result A
  err : VmmError → Result A

infixl 5 ◌>>=◌
abbrev pub ◌>>=◌ {ℓ κ} : {A : Type ℓ} {B : Type κ} → Result A → (A → Result B) → Result B
ok a >>= k = k a
err e >>= k = err e

-- A call that may change the memory, fail or panic.
abbrev pub Step : Type 0 → Type 0
Step A = Pmm → Outcome (Result A × Pmm)

abbrev pub and_then :
    {A B : Type 0} → Outcome (Result A × Pmm) → (A → Step B) → Outcome (Result B × Pmm)
and_then panics k = panics
and_then (returns (err e, p)) k = returns (err e, p)
and_then (returns (ok a, p)) k = k a p

-- One level of `walk_page_table`.
unfoldable pub walk_level : Memory → ℕ → ℕ → Result ℕ
walk_level mem pt i =
    if not (is_set (mem pt i) pte_v)
    then err unmapped
    else if is_set (mem pt i) (pte_r + pte_x)
    then err huge_page
    else ok (frame_of (mem pt i))

-- Its last level.
unfoldable pub walk_leaf : Memory → ℕ → ℕ → Result (ℕ × ℕ)
walk_leaf mem pt va =
    if not (is_set (mem pt (vpn₀ va)) pte_v)
    then err unmapped
    else ok
        (bit_or (frame_of (mem pt (vpn₀ va))) (bit_and va 0xfff), bit_and (mem pt (vpn₀ va)) 0x3ff)

unfoldable pub walk_page_table : Memory → ℕ → ℕ → Result (ℕ × ℕ)
walk_page_table mem root va = walk_level mem root (vpn₂ va) >>= λ l₁.
    walk_level mem l₁ (vpn₁ va) >>= λ l₀. walk_leaf mem l₀ va

-- `alloc_frame().ok_or(…)?`
unfoldable pub alloc_or_fail : Bool → Step ℕ
alloc_or_fail debug p = elim (alloc_frame debug p) [
  | panics ↦ panics
  | returns (found, p') ↦ elim found [
    | none ↦ returns (err out_of_memory, p')
    | some frame ↦ returns (ok frame, p')
  ]
]

abbrev pub put_entry : ℕ → ℕ → ℕ → Pmm → Pmm
put_entry pt i entry p = record p { mem = write_word p.mem pt i entry }

-- The start of a round of `map_page`: an entry that is not valid gets a new table.
unfoldable pub ensure_table : Bool → ℕ → ℕ → Step (Unit {0})
ensure_table debug pt i p =
    if not (is_set (p.mem pt i) pte_v)
    then and_then (alloc_or_fail debug p)
        (λ frame p'. returns (ok tt, put_entry pt i (bit_or (entry_of frame) pte_v) p'))
    else returns (ok tt, p)

-- The rest of the round: the next table, unless the entry is a leaf.
unfoldable pub next_table : ℕ → ℕ → Step ℕ
next_table pt i p =
    if is_set (p.mem pt i) (pte_r + pte_w + pte_x)
    then returns (err megapage_conflict, p)
    else returns (ok (frame_of (p.mem pt i)), p)

unfoldable pub descend : Bool → ℕ → ℕ → Step ℕ
descend debug pt i p = and_then (ensure_table debug pt i p) (λ _. next_table pt i)

abbrev pub leaf_entry : ℕ → ℕ → ℕ
leaf_entry pa flags = bit_or (bit_or (entry_of pa) pte_v) flags

unfoldable pub put_leaf : ℕ → ℕ → ℕ → ℕ → Step (Unit {0})
put_leaf pt i pa flags p =
    if is_set (p.mem pt i) pte_v
    then returns (err already_mapped, p)
    else returns (ok tt, put_entry pt i (leaf_entry pa flags) p)

unfoldable pub map_page : Bool → ℕ → ℕ → ℕ → ℕ → Step (Unit {0})
map_page debug root va pa flags p =
    and_then (descend debug root (vpn₂ va) p)
      (λ l₁ p₁. and_then (descend debug l₁ (vpn₁ va) p₁) (λ l₀. put_leaf l₀ (vpn₀ va) pa flags))

-- The entry of the level-1 table covers two megabytes.
unfoldable pub map_megapage : Bool → ℕ → ℕ → ℕ → ℕ → Step (Unit {0})
map_megapage debug root va pa flags p =
    and_then (descend debug root (vpn₂ va) p) (λ l₁. put_leaf l₁ (vpn₁ va) pa flags)
