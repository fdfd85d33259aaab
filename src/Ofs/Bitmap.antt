-- ===== src/Ofs/Bitmap.antt =====
-- The bitmaps of blocks and of inodes.
pub mod Bits
pub mod Alloc
use mathlib.Core.Option
use openv.Common.{
  ℕ, zero, suc, ◌-◌, ◌/◌, ◌%◌, ◌^◌, bit_and, bit_or, Bool, true, false, not, Option, none, some,
  List, [], ◌∷◌, ◌==◌, ltb, leb, if◌then◌else◌,
}
use openv.Common.Bytes.{byte_at}
use openv.Ofs.Device.{Block}
use openv.Ofs.Journal.{block_size}
use openv.Ofs.State.{OfsState}
use openv.Ofs.Run.{Run, pure, panic, ◌>>=◌, ◌>>◌, read_blk, write_blk, when_some}

abbrev pub block_bitmap_blk : ℕ
block_bitmap_blk = 1

abbrev pub inode_bitmap_blk : ℕ
inode_bitmap_blk = 2

abbrev pub data_start : ℕ
data_start = 68

abbrev pub max_inodes : ℕ
max_inodes = 1024

-- `buf[i] = v`, for an index inside the buffer.
unfoldable pub set_byte : List ℕ → ℕ → ℕ → List ℕ
set_byte [] i v = []
set_byte (b ∷ bs) zero v = v ∷ bs
set_byte (b ∷ bs) (suc i) v = b ∷ set_byte bs i v

-- `buf[i / 8] & (1 << (i % 8)) != 0`
unfoldable pub bit_at : Block → ℕ → Bool
bit_at buf i = not (bit_and (byte_at buf (i / 8)) (2 ^ (i % 8)) == 0)

-- `buf[i / 8] |= 1 << (i % 8)`
unfoldable pub set_bit : Block → ℕ → Block
set_bit buf i = set_byte buf (i / 8) (bit_or (byte_at buf (i / 8)) (2 ^ (i % 8)))

-- `buf[i / 8] &= !(1 << (i % 8))`
unfoldable pub clear_bit : Block → ℕ → Block
clear_bit buf i = set_byte buf (i / 8) (bit_and (byte_at buf (i / 8)) (255 - 2 ^ (i % 8)))

-- `bitmap_set`
unfoldable pub bitmap_set : ℕ → ℕ → Bool → Run (Unit {0})
bitmap_set bitmap_blk bit value = do
  r ← read_blk bitmap_blk
  when_some r (pure tt) λ buf.
      if ltb (bit / 8) block_size
      then write_blk bitmap_blk (if value then set_bit buf bit else clear_bit buf bit)
      else panic

-- The loop of `bitmap_alloc`: `found i`, or the end, or an index out of bounds.
pub data Scan : Type 0 where
  found : ℕ → Scan
  full : Scan
  out_of_bounds : Scan

unfoldable pub scan : Block → ℕ → ℕ → Scan
scan buf zero i = full
scan buf (suc n) i =
    let rest : Scan = scan buf n (suc i) in
    if ltb (i / 8) block_size then (if bit_at buf i then rest else found i) else out_of_bounds

abbrev pub end_scan : ℕ → Block → Scan → Run (Option ℕ)
end_scan bitmap_blk buf (found i) = do write_blk bitmap_blk (set_bit buf i); pure (some i)
end_scan bitmap_blk buf full = pure none
end_scan bitmap_blk buf out_of_bounds = panic

-- `bitmap_alloc`
unfoldable pub bitmap_alloc : ℕ → ℕ → ℕ → Run (Option ℕ)
bitmap_alloc bitmap_blk start limit = do
  r ← read_blk bitmap_blk
  when_some r (pure none) λ buf. end_scan bitmap_blk buf (scan buf (limit - start) start)

-- `alloc_block`
unfoldable pub alloc_block : Run (Option ℕ)
alloc_block s = bitmap_alloc block_bitmap_blk data_start s.total_blocks s

-- `free_block`
unfoldable pub free_block : ℕ → Run (Unit {0})
free_block blk = if leb data_start blk then bitmap_set block_bitmap_blk blk false else pure tt

-- `alloc_inode`
unfoldable pub alloc_inode : Run (Option ℕ)
alloc_inode = bitmap_alloc inode_bitmap_blk 1 max_inodes
