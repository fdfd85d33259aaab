-- ===== src/Ofs/Bitmap/Alloc.antt =====
-- What `bitmap_alloc` finds, and what it changes.
use openv.Common.{
  ℕ, zero, suc, ◌+◌, ◌-◌, ◌/◌, ◌≤◌, ◌<◌, ◌≡◌, ◌≢◌, inl, inr, refl, sym, ap, subst, ◌∙◌, Bool, true,
  false, not, ◌&&◌, ◌||◌, Option, none, some, ◌==◌, ltb, leb, if◌then◌else◌, Bool-cases, ==_ne,
  arith,
}
use openv.Ofs.Device.{Block}
use openv.Ofs.State.{OfsState, read_blk, write_blk}
use openv.Ofs.State.View.{read_blk-write_blk}
use openv.Ofs.Bitmap.{
  Scan, found, full, out_of_bounds, scan, end_scan, bit_at, set_bit, clear_bit, bitmap_set,
  bitmap_alloc, block_bitmap_blk, data_start, alloc_block, free_block,
}
use openv.Ofs.Bitmap.Bits.{IsBlock, bit_at-set_bit, bit_at-clear_bit, set_bit-IsBlock}

abbrev pub AllSet : Block → ℕ → ℕ → Type 0
AllSet buf first last = (j : ℕ) → first ≤ j → j < last → bit_at buf j ≡ true

-- What the loop over `n` bits from `i` on says of the buffer.
abbrev IsScan : Block → ℕ → ℕ → Scan → Type 0
IsScan buf i n (found k) =
    (i ≤ k) × (k < i + n) × (k < 32768) × (bit_at buf k ≡ false) × AllSet buf i k
IsScan buf i n full = AllSet buf i (i + n)
IsScan buf i n out_of_bounds = (32768 < i + n) × AllSet buf i 32768

AllSet-suc :
    (buf : Block) (i last : ℕ) → bit_at buf i ≡ true → AllSet buf (suc i) last → AllSet buf i last
AllSet-suc buf i last e all j lo hi = elim (Bool-cases (i == j)) [
  | inl same ↦ let ij : i ≡ j = ground arith in rw (sym ij) e
  | inr other ↦ all j (ground arith) hi
]

IsScan-suc :
    (buf : Block) (i n : ℕ) (r : Scan)
    → bit_at buf i ≡ true
    → IsScan buf (suc i) n r
    → IsScan buf i (suc n) r
IsScan-suc buf i n (found k) e (lo, hi, small, clear, all) =
    (omega arith, omega arith, small, clear, AllSet-suc buf i k e all)
IsScan-suc buf i n full e all = λ j lo hi. AllSet-suc buf i (suc i + n) e all j lo (omega arith)
IsScan-suc buf i n out_of_bounds e (over, all) = (omega arith, AllSet-suc buf i 32768 e all)

scan-IsScan : (buf : Block) (n i : ℕ) → i ≤ 32768 → IsScan buf i n (scan buf n i)
unfolding scan
scan-IsScan buf zero i h = λ j lo hi. absurd (omega arith)
scan-IsScan buf (suc n) i h = elim (Bool-cases (ltb (i / 8) 4096)) [
  | inl inside ↦ elim (Bool-cases (bit_at buf i)) [
    | inl set ↦
        rw (inside, set) (IsScan-suc buf i n _ set (scan-IsScan buf n (suc i) (ground arith)))
    | inr clear ↦
        rw (inside, clear)
          (omega arith, omega arith, ground arith, clear, λ j lo hi. absurd (omega arith))
  ]
  | inr outside ↦ rw outside (ground arith, λ j lo hi. absurd (ground arith))
]

-- What `bitmap_alloc` does to a state in which the bitmap reads as `buf`.
pub data IsAllocation (s : OfsState) (bitmap_blk : ℕ) (buf : Block) (start limit : ℕ)
    : Option (Option ℕ × OfsState) → Type 0 where
  allocated :
      (k : ℕ) (s' : OfsState)
      → (start ≤ k) × (k < limit) × (k < 32768) × (bit_at buf k ≡ false) × AllSet buf start k
      → ((blk : ℕ)
          → read_blk s' blk ≡ (if bitmap_blk == blk then some (set_bit buf k) else read_blk s blk))
      → ((j : ℕ) → bit_at (set_bit buf k) j ≡ (k == j || bit_at buf j))
      → IsAllocation s bitmap_blk buf start limit (some (some k, s'))
  no_room : AllSet buf start limit → IsAllocation s bitmap_blk buf start limit (some (none, s))
  panicked : 32768 < limit → AllSet buf start 32768 → IsAllocation s bitmap_blk buf start limit none

end_scan-IsAllocation :
    (s : OfsState) (bitmap_blk : ℕ) (buf : Block) (start limit : ℕ) (r : Scan)
    → IsBlock buf
    → start ≤ limit
    → IsScan buf start (limit - start) r
    → IsAllocation s bitmap_blk buf start limit (end_scan bitmap_blk buf r s)
end_scan-IsAllocation s bm buf start limit (found k) is h (lo, hi, small, clear, all) =
    allocated k (write_blk bm (set_bit buf k) s) (lo, omega arith, small, clear, all)
      (λ blk. read_blk-write_blk s bm blk (set_bit buf k)) (bit_at-set_bit buf k is small)
end_scan-IsAllocation s bm buf start limit full is h all =
    no_room (λ j lo hi. all j lo (omega arith))
end_scan-IsAllocation s bm buf start limit out_of_bounds is h (over, all) =
    panicked (omega arith) all

-- From a bitmap that reads as a block of 4096 bytes, and for a range that starts at 32768 at most
-- and does not end before it starts, `bitmap_alloc` takes the first clear bit of the range. The
-- bitmap then reads with that bit set and every other bit as before, and no other block changes. It
-- finds none, and changes nothing, only if every bit of the range is set. It panics only if the
-- range goes beyond 32768 and the bits below are set.
pub bitmap_alloc-IsAllocation :
    (s : OfsState) (bitmap_blk : ℕ) (buf : Block) (start limit : ℕ)
    → read_blk s bitmap_blk ≡ some buf
    → IsBlock buf
    → start ≤ limit
    → start ≤ 32768
    → IsAllocation s bitmap_blk buf start limit (bitmap_alloc bitmap_blk start limit s)
unfolding bitmap_alloc
bitmap_alloc-IsAllocation s bm buf start limit e is h small = rw e (
    end_scan-IsAllocation s bm buf start limit (scan buf (limit - start) start) is h
      (scan-IsScan buf (limit - start) start small))

module _ {s : OfsState} {bm : ℕ} {buf : Block} {start limit : ℕ} where
  -- The outcome with a result.
  pub allocation_found :
      {r : Option (Option ℕ × OfsState)} (k : ℕ) (s₁ : OfsState)
      → IsAllocation s bm buf start limit r
      → r ≡ some (some k, s₁)
      → ((start ≤ k) × (k < limit) × (k < 32768) × (bit_at buf k ≡ false) × AllSet buf start k)
        × ((blk : ℕ)
            → read_blk s₁ blk ≡ (if bm == blk then some (set_bit buf k) else read_blk s blk))
  allocation_found k s₁ (allocated j s' facts reads bits) e =
      let ej : j ≡ k = cc in
      let es : s' ≡ s₁ = cc in
      (
        subst
            (λ (x : ℕ).
              (start ≤ x) × (x < limit) × (x < 32768) × (bit_at buf x ≡ false) × AllSet buf start x)
            ej facts,
        λ blk.
            ap (λ u. read_blk u blk) (sym es)
            ∙ reads blk
            ∙ ap (λ (x : ℕ). if bm == blk then some (set_bit buf x) else read_blk s blk) ej,
      )
  allocation_found k s₁ (no_room all) e = absurd (cc)
  allocation_found k s₁ (panicked over all) e = absurd (cc)

-- A bit that was clear, set and cleared again.
clear_bit-set_bit :
    (buf : Block) (k j : ℕ)
    → IsBlock buf
    → k < 32768
    → bit_at buf k ≡ false
    → bit_at (clear_bit (set_bit buf k) k) j ≡ bit_at buf j
clear_bit-set_bit buf k j h small clear =
    bit_at-clear_bit (set_bit buf k) k (set_bit-IsBlock buf k h small) small j
    ∙ ap (λ b. not (k == j) && b) (bit_at-set_bit buf k h small j)
    ∙ elim (Bool-cases (k == j)) [
      | inl same ↦ let kj : k ≡ j = ground arith in rw same (sym clear ∙ ap (bit_at buf) kj)
      | inr other ↦ rw other refl
    ]

pub bitmap_set_lem :
    (s : OfsState) (bm bit : ℕ) (value : Bool) (buf : Block)
    → read_blk s bm ≡ some buf
    → bit < 32768
    → bitmap_set bm bit value s
      ≡ some (tt, write_blk bm (if value then set_bit buf bit else clear_bit buf bit) s)
unfolding bitmap_set
bitmap_set_lem s bm bit value buf e small =
    let inside : ltb (bit / 8) 4096 ≡ true = ground arith in rw (e, inside) refl

free_block_lem :
    (s : OfsState) (blk : ℕ)
    → data_start ≤ blk
    → free_block blk s ≡ bitmap_set block_bitmap_blk blk false s
unfolding free_block
free_block_lem s blk h = let e : leb data_start blk ≡ true = ground arith in rw e refl

-- When the bitmap can be read, has 4096 bytes, and there are at least 68 blocks, a block that
-- `alloc_block` gives can be freed at once by `free_block`. Every bit of the bitmap is then as
-- before, and so is every other block.
pub free_block-alloc_block :
    (s s₁ : OfsState) (buf : Block) (k : ℕ)
    → read_blk s block_bitmap_blk ≡ some buf
    → IsBlock buf
    → data_start ≤ s.total_blocks
    → alloc_block s ≡ some (some k, s₁)
    → (s₂ : OfsState) × (free_block k s₁ ≡ some (tt, s₂))
      × (buf₂ : Block) × (read_blk s₂ block_bitmap_blk ≡ some buf₂)
      × ((j : ℕ) → bit_at buf₂ j ≡ bit_at buf j)
      × ((blk : ℕ) → blk ≢ block_bitmap_blk → read_blk s₂ blk ≡ read_blk s blk)
unfolding alloc_block
free_block-alloc_block s s₁ buf k e h big run =
    let ((lo, hi, small, clear, all), reads) =
      allocation_found k s₁
        (bitmap_alloc-IsAllocation s block_bitmap_blk buf data_start s.total_blocks e h big
          (omega arith))
        run in
    let buf₂ : Block = clear_bit (set_bit buf k) k in
    let s₂ : OfsState = write_blk block_bitmap_blk buf₂ s₁ in
    (
      s₂,
      free_block_lem s₁ k lo
          ∙ bitmap_set_lem s₁ block_bitmap_blk k false (set_bit buf k) (reads block_bitmap_blk)
              small,
      buf₂,
      read_blk-write_blk s₁ block_bitmap_blk block_bitmap_blk buf₂,
      λ j. clear_bit-set_bit buf k j h small clear,
      λ blk ne.
          read_blk-write_blk s₁ block_bitmap_blk blk buf₂
          ∙ rw (==_ne block_bitmap_blk blk (λ x. ne (sym x)))
              (reads blk ∙ rw (==_ne block_bitmap_blk blk (λ x. ne (sym x))) refl),
    )
