-- ===== src/Mm/Pmm.antt =====
-- src/mm/pmm.rs: the physical memory manager. Memory is a function from the address of a page and
-- the index of a 64-bit word in it to the word; the first word of a free page is the link of the
-- free list. `debug` says whether the build has debug assertions.
pub mod Chain
pub mod Frames
pub mod Boot
use openv.Common.{
  ℕ, zero, suc, ◌+◌, ◌-◌, ◌*◌, ◌/◌, ◌%◌, ◌^◌, Bool, true, false, not, ◌&&◌, ◌||◌, Option, none,
  some, ltb, leb, ◌==◌, if◌then◌else◌, min,
}

abbrev pub page_size : ℕ
page_size = 4096

-- Eight times `POISON_BYTE`.
abbrev pub poison_byte : ℕ
poison_byte = 0xcd

abbrev pub poison_word : ℕ
poison_word = 0xcdcd_cdcd_cdcd_cdcd

abbrev pub max_pages : ℕ
max_pages = 524288

abbrev pub Memory : Type 0
Memory = ℕ → ℕ → ℕ

-- `RAM_START`, `FREE_LIST`, `PAGE_REF_COUNTS` and the memory.
pub record Pmm : Type 0 where
  pub ram_start : ℕ
  pub head : ℕ
  pub counts : ℕ → ℕ
  pub mem : Memory

pub data Outcome {ℓ} (A : Type ℓ) : Type ℓ where
  returns : A → Outcome A
  panics : Outcome A

-- A volatile write of one word, and `write_bytes` over a whole page.
abbrev pub write_word : Memory → ℕ → ℕ → ℕ → Memory
write_word mem page i v a j = if a == page then (if j == i then v else mem a j) else mem a j

abbrev pub fill_page : Memory → ℕ → ℕ → Memory
fill_page mem page v a j = if a == page then v else mem a j

-- `write_bytes` of the poison over all but the first word.
abbrev pub poison : Memory → ℕ → Memory
poison mem page a j = if a == page then (if j == 0 then mem a j else poison_word) else mem a j

abbrev pub set_count : (ℕ → ℕ) → ℕ → ℕ → ℕ → ℕ
set_count counts idx v j = if j == idx then v else counts j

unfoldable pub page_index : ℕ → ℕ → ℕ
page_index base pa =
    if ltb pa base
    then max_pages
    else if ltb ((pa - base) / page_size) max_pages
    then (pa - base) / page_size
    else max_pages

unfoldable pub is_managed_page : ℕ → ℕ → Bool
is_managed_page base pa = leb base pa && ltb pa (base + max_pages * page_size)

-- `alloc_frame` once the head of the free list is known not to be 0.
unfoldable pub take_page : Pmm → Pmm
take_page p =
    let page : ℕ = p.head in
    let idx : ℕ = page_index p.ram_start page in
    record p {
      head = p.mem page 0;
      counts = if ltb idx max_pages then set_count p.counts idx 1 else p.counts;
      mem = fill_page p.mem page 0;
    }

-- The poison check looks at byte 8, the lowest of the second word.
unfoldable pub alloc_frame : Bool → Pmm → Outcome (Option ℕ × Pmm)
alloc_frame debug p =
    if p.head == 0
    then returns (none, p)
    else if debug && not (p.mem p.head 1 % 256 == poison_byte)
    then panics
    else returns (some p.head, take_page p)

-- `alloc_page`, with `try_evict_page` of src/mm/swap.rs as an argument.
unfoldable pub alloc_page : Bool → (Pmm → Bool × Pmm) → Pmm → Outcome (Option ℕ × Pmm)
alloc_page debug try_evict_page p = elim (alloc_frame debug p) [
  | panics ↦ panics
  | returns (found, p') ↦ elim found [
    | some page ↦ returns (some page, p')
    | none ↦
        let (evicted, p'') = try_evict_page p' in
        if evicted then alloc_frame debug p'' else returns (none, p'')
  ]
]

-- The page becomes the head of the free list, with its other words poisoned.
unfoldable pub push_page : Pmm → ℕ → Pmm
push_page p page = record p { head = page; mem = poison (write_word p.mem page 0 p.head) page }

unfoldable pub free_page : Bool → Pmm → ℕ → Outcome Pmm
free_page debug p page =
    let idx : ℕ = page_index p.ram_start page in
    if debug && not (page % page_size == 0)
    then panics
    else if leb max_pages idx
    then returns p
    else if debug && p.counts idx == 0
    then panics
    else returns (push_page (record p { counts = set_count p.counts idx 0 }) page)

-- The counts are `u16`.
unfoldable pub incr_ref : Pmm → ℕ → Pmm
incr_ref p page =
    let idx : ℕ = page_index p.ram_start page in
    if ltb idx max_pages
    then record p { counts = set_count p.counts idx (min (p.counts idx + 1) 65535) }
    else p

unfoldable pub decr_ref : Pmm → ℕ → ℕ × Pmm
decr_ref p page =
    let idx : ℕ = page_index p.ram_start page in
    if not (is_managed_page p.ram_start page)
    then (0, p)
    else if ltb idx max_pages
    then (if ltb 1 (p.counts idx)
        then (p.counts idx - 1, record p { counts = set_count p.counts idx (p.counts idx - 1) })
        else (0, record p { counts = set_count p.counts idx 0 }))
    else (0, p)

unfoldable pub decr_ref_and_maybe_free : Pmm → ℕ → Pmm
decr_ref_and_maybe_free p page =
    let idx : ℕ = page_index p.ram_start page in
    if leb max_pages idx || not (is_managed_page p.ram_start page)
    then p
    else if ltb 1 (p.counts idx)
    then record p { counts = set_count p.counts idx (p.counts idx - 1) }
    else push_page (record p { counts = set_count p.counts idx 0 }) page
