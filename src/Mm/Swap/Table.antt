-- ===== src/Mm/Swap/Table.antt =====
-- The map of the swapped pages of src/mm/swap.rs, with its counters. The frames and the page tables are
-- an interface, `Frames`.
use openv.Common.{
  ℕ, ◌+◌, ◌-◌, ◌%◌, ◌^◌, Bool, true, false, not, ◌&&◌, Option, none, some, List, [], ◌∷◌, ◌==◌,
  if◌then◌else◌, length,
}
use openv.Mm.Swap.{compress_page, decompress_page}

pub record SwappedPage : Type 0 where
  pub bytes : List ℕ
  pub flags : ℕ

-- A key of `SWAP_MAP` and its value.
pub record Slot : Type 0 where
  pub root_pa : ℕ
  pub page_va : ℕ
  pub page : SwappedPage

-- `SWAP_MAP`, `SWAP_TOTAL_PAGES` and `SWAP_TOTAL_BYTES`.
pub record Swap : Type 0 where
  pub map : List Slot
  pub total_pages : ℕ
  pub total_bytes : ℕ

-- The counters are `usize` and wrap round.
unfoldable pub fetch_add : ℕ → ℕ → ℕ
fetch_add a b = (a + b) % 2 ^ 64

unfoldable pub fetch_sub : ℕ → ℕ → ℕ
fetch_sub a b = (a + (2 ^ 64 - b % 2 ^ 64)) % 2 ^ 64

abbrev pub is_slot : ℕ → ℕ → Slot → Bool
is_slot root_pa page_va s = s.root_pa == root_pa && s.page_va == page_va

unfoldable pub find_slot : ℕ → ℕ → List Slot → Option SwappedPage
find_slot root_pa page_va [] = none
find_slot root_pa page_va (s ∷ ss) =
    if is_slot root_pa page_va s then some s.page else find_slot root_pa page_va ss

unfoldable pub remove_slot : ℕ → ℕ → List Slot → List Slot
remove_slot root_pa page_va [] = []
remove_slot root_pa page_va (s ∷ ss) =
    let rest : List Slot = remove_slot root_pa page_va ss in
    if is_slot root_pa page_va s then rest else s ∷ rest

-- `BTreeMap::insert`: an old value of the key is replaced.
abbrev pub insert_slot : ℕ → ℕ → SwappedPage → List Slot → List Slot
insert_slot root_pa page_va page ss =
    record { root_pa = root_pa; page_va = page_va; page = page } ∷ remove_slot root_pa page_va ss

pub lookup_swap : ℕ → ℕ → List Slot → Bool
lookup_swap root_pa page_va ss = elim (find_slot root_pa page_va ss) [
  | none ↦ false
  | some p ↦ true
]

-- What `try_evict_page` does to the map and the counters for the page that it found.
unfoldable pub store_page : ℕ → ℕ → ℕ → List ℕ → Swap → Swap
store_page root_pa page_va pte page_data s =
    let compressed : List ℕ = compress_page page_data in
    let page : SwappedPage = record { bytes = compressed; flags = pte % 1024 } in
    record {
      map = insert_slot root_pa page_va page s.map;
      total_pages = fetch_add s.total_pages 1;
      total_bytes = fetch_add s.total_bytes (length compressed);
    }

-- The slots of a root, and those of the others.
unfoldable pub slots_of : ℕ → List Slot → List Slot
slots_of root_pa [] = []
slots_of root_pa (s ∷ ss) =
    let rest : List Slot = slots_of root_pa ss in if s.root_pa == root_pa then s ∷ rest else rest

unfoldable pub retain_others : ℕ → List Slot → List Slot
retain_others root_pa [] = []
retain_others root_pa (s ∷ ss) =
    let rest : List Slot = retain_others root_pa ss in
    if not (s.root_pa == root_pa) then s ∷ rest else rest

unfoldable pub sum_bytes : List Slot → ℕ
sum_bytes [] = 0
sum_bytes (s ∷ ss) = length s.page.bytes + sum_bytes ss

unfoldable pub evict_all : ℕ → Swap → Swap
evict_all root_pa s =
    let freed : ℕ = sum_bytes (slots_of root_pa s.map) in
    let count : ℕ = length (slots_of root_pa s.map) in
    record {
      map = retain_others root_pa s.map;
      total_pages = fetch_sub s.total_pages count;
      total_bytes = fetch_sub s.total_bytes freed;
    }

-- What `swap_in` calls: the frame allocator, the memory of a frame, `map_page` of a page table, which
-- may fail, and the drop of a frame.
pub record Frames (M : Type 0) : Type 0 where
  pub alloc_frame : M → Option ℕ × M
  pub read_frame : M → ℕ → List ℕ
  pub write_frame : ℕ → List ℕ → M → M
  pub map_page : ℕ → ℕ → ℕ → ℕ → M → Bool × M
  pub drop_frame : ℕ → M → M

pub data SwapIn : Type 0 where
  ok : SwapIn
  not_found : SwapIn
  out_of_memory : SwapIn
  not_mapped : SwapIn

module _ {M : Type 0} (frames : Frames M) where
  -- `swap_in` after the page is mapped, or not.
  unfoldable pub after_map : SwappedPage → Swap → ℕ → Bool × M → SwapIn × Swap × M
  after_map swapped s pa (true, m) = (
    ok,
    record s {
      total_pages = fetch_sub s.total_pages 1;
      total_bytes = fetch_sub s.total_bytes (length swapped.bytes);
    },
    m,
  )
  after_map swapped s pa (false, m) = (not_mapped, s, frames.drop_frame pa m)

  -- `swap_in` after the allocation.
  unfoldable pub after_alloc : ℕ → ℕ → SwappedPage → Swap → Option ℕ × M → SwapIn × Swap × M
  after_alloc root_pa page_va swapped s (none, m) = (out_of_memory, s, m)
  after_alloc root_pa page_va swapped s (some pa, m) = after_map swapped s pa (
      frames.map_page root_pa page_va pa swapped.flags
        (frames.write_frame pa (decompress_page swapped.bytes (frames.read_frame m pa)) m))

  -- `swap_in` from the allocation on, with the entry taken out of the map.
  unfoldable pub restore_page : ℕ → ℕ → SwappedPage → Swap → M → SwapIn × Swap × M
  restore_page root_pa page_va swapped s m =
      after_alloc root_pa page_va swapped s (frames.alloc_frame m)

  unfoldable pub swap_in : ℕ → ℕ → Swap → M → SwapIn × Swap × M
  swap_in root_pa page_va s m = elim (find_slot root_pa page_va s.map) [
    | none ↦ (not_found, s, m)
    | some swapped ↦
        restore_page root_pa page_va swapped (record s { map = remove_slot root_pa page_va s.map })
          m
  ]
