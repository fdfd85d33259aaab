-- ===== src/Ofs/Table.antt =====
-- The inode table: `read_inode`, `write_inode` and what is built on them.
pub mod Slots
pub mod Written
pub mod Access
use mathlib.Core.Option
use openv.Common.{
  ℕ, ◌+◌, ◌*◌, ◌/◌, ◌%◌, Bool, true, false, Option, none, some, List, leb, if◌then◌else◌, replicate,
}
use openv.Common.Bytes.{slice, write_at}
use openv.Ofs.State.{OfsState}
use openv.Ofs.Inode.{RawInode, empty_inode, raw_inode_read, raw_inode_write}
use openv.Ofs.Cache.{cache_get, cache_insert, cache_invalidate}
use openv.Ofs.Bitmap.{bitmap_set, alloc_inode, max_inodes, inode_bitmap_blk}
use openv.Ofs.Run.{Run, pure, modify, ◌>>=◌, ◌>>◌, read_blk, write_blk, when_some}

abbrev pub inode_size : ℕ
inode_size = 128

abbrev pub inodes_per_block : ℕ
inodes_per_block = 32

abbrev pub inode_table_start : ℕ
inode_table_start = 3

abbrev pub table_blk : ℕ → ℕ
table_blk ino = inode_table_start + ino / inodes_per_block

abbrev pub table_offset : ℕ → ℕ
table_offset ino = ino % inodes_per_block * inode_size

-- `read_inode` behind the cache: the inode is read from the table and cached.
unfoldable pub fetch_inode : ℕ → Run (Option RawInode)
fetch_inode ino = do
  r ← read_blk (table_blk ino)
  when_some r (pure none) λ buf. do
    let inode = raw_inode_read (slice (table_offset ino) inode_size buf)
    modify (λ s. record s { cache = cache_insert s.cache ino inode })
    pure (some inode)

-- `if let Some(cached) = cached { return Some(cached); }`
abbrev pub or_fetch : Option RawInode → Run (Option RawInode) → Run (Option RawInode)
or_fetch (some inode) m = pure (some inode)
or_fetch none m = m

-- `read_inode`
unfoldable pub read_inode : ℕ → Run (Option RawInode)
read_inode ino s =
    if leb max_inodes ino
    then some (none, s)
    else or_fetch (cache_get s.cache ino) (fetch_inode ino) s

-- `write_inode`
unfoldable pub write_inode : ℕ → RawInode → Run Bool
write_inode ino inode = if leb max_inodes ino then pure false else do
  modify (λ s. record s { cache = cache_invalidate s.cache ino })
  r ← read_blk (table_blk ino)
  when_some r (pure false) λ buf. do
    let entry = raw_inode_write (slice (table_offset ino) inode_size buf) inode
    write_blk (table_blk ino) (write_at buf (table_offset ino) entry)
    pure true

-- `free_inode`
unfoldable pub free_inode : ℕ → Run (Unit {0})
free_inode ino = do
  modify (λ s. record s { cache = cache_invalidate s.cache ino })
  bitmap_set inode_bitmap_blk ino false

-- `create_inode`
unfoldable pub create_inode : ℕ → Run (Option ℕ)
create_inode itype = do
  r ← alloc_inode
  when_some r (pure none) λ ino. do write_inode ino (empty_inode itype 1); pure (some ino)

-- `inode_info`: the type, the size and the number of links.
unfoldable pub inode_info : ℕ → Run (Option (ℕ × ℕ × ℕ))
inode_info ino = do
  r ← read_inode ino
  pure (Option.map (λ raw. (raw.itype, raw.size, raw.nlink)) r)
