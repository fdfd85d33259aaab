-- ===== src/Ofs/Format.antt =====
-- `OfsState::new` and `mkfs`.
pub mod Mount
use openv.Common.{
  ℕ, zero, suc, ◌+◌, ◌-◌, ◌*◌, ◌^◌, Bool, true, false, not, ◌&&◌, Option, none, some, List, [], ◌∷◌,
  replicate, ◌==◌, ltb, if◌then◌else◌,
}
use openv.Ofs.Device.{Block, Device, read_block, write_block}
use openv.Ofs.Buffer.{u32_le, set_u32}
use openv.Ofs.Journal.{zeros, header_crc, journal_hdr_blk, clear_header, journal_replay}
use openv.Ofs.State.{OfsState}
use openv.Ofs.Inode.{empty_inode}
use openv.Ofs.Cache.{new_cache}
use openv.Ofs.Bitmap.{set_bit, bitmap_set, inode_bitmap_blk, block_bitmap_blk, data_start}
use openv.Ofs.Table.{inode_table_start, write_inode}
use openv.Ofs.File.{itype_dir}
use openv.Ofs.Run.{Run, pure, modify, ◌>>=◌, ◌>>◌, commit_txn}

abbrev pub ofs_magic : ℕ
ofs_magic = 0x4F56_4653

abbrev pub ofs_version : ℕ
ofs_version = 3

abbrev pub inode_table_blocks : ℕ
inode_table_blocks = 32

abbrev pub root_inode : ℕ
root_inode = 0

-- A write to the device that is not part of a transaction, and whose outcome is not looked at.
abbrev pub write_dev : ℕ → Block → Run (Unit {0})
write_dev blk b = modify (λ s. record s { dev = (write_block blk b s.dev).1 })

unfoldable pub superblock : ℕ → Block
superblock total =
    set_u32 (set_u32 (set_u32 (set_u32 zeros 0 ofs_magic) 4 ofs_version) 8 total) 12
      (header_crc ofs_magic ofs_version total)

-- The first `n` bits, from `i` on, of the bitmap.
abbrev pub set_bits : ℕ → ℕ → Block → Block
set_bits zero i buf = buf
set_bits (suc n) i buf = set_bits n (suc i) (set_bit buf i)

-- Zeros in `n` blocks.
abbrev pub clear_blocks : ℕ → ℕ → Run (Unit {0})
clear_blocks zero blk = pure tt
clear_blocks (suc n) blk = write_dev blk zeros >> clear_blocks n (suc blk)

-- `mkfs`
unfoldable pub mkfs : Run (Unit {0})
mkfs s =
    (do
      write_dev 0 (superblock s.total_blocks)
      write_dev block_bitmap_blk (set_bits data_start 0 zeros)
      write_dev inode_bitmap_blk zeros
      clear_blocks inode_table_blocks inode_table_start
      write_dev journal_hdr_blk clear_header
      bitmap_set inode_bitmap_blk 0 true
      write_inode root_inode (empty_inode itype_dir 1)
      commit_txn
      pure tt)
      s

-- The tests on the superblock.
unfoldable pub is_formatted : Block → Bool
is_formatted buf =
    u32_le buf 0 == ofs_magic
    && u32_le buf 4 == ofs_version
    && header_crc (u32_le buf 0) (u32_le buf 4) (u32_le buf 8) == u32_le buf 12

-- The state at the end of `new`, from the device after the replay.
unfoldable pub mount : Block → Device → Option (Unit {0} × OfsState)
mount buf d =
    let total : ℕ = u32_le buf 8 in
    if not (is_formatted buf)
    then mkfs (record {
      dev = d;
      total_blocks = if ltb 68 total then total else 2048;
      pending = [];
      cache = new_cache;
    })
    else some (tt, record { dev = d; total_blocks = total; pending = []; cache = new_cache })

-- `new`: `some none` is its `None`. The superblock is read before the journal is replayed.
unfoldable pub new_state : Device → Option (Option OfsState)
new_state d = elim (read_block d 0) [
  | none ↦ some none
  | some buf ↦ elim (mount buf (journal_replay d)) [ none ↦ none | some (u, s) ↦ some (some s) ]
]
