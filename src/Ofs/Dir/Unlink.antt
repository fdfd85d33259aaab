-- ===== src/Ofs/Dir/Unlink.antt =====
-- `dir_unlink`
use openv.Common.{
  ℕ, zero, suc, ◌+◌, ◌-◌, ◌*◌, Bool, true, false, Option, none, some, List, ◌==◌, if◌then◌else◌,
}
use openv.Ofs.Device.{Block}
use openv.Ofs.Inode.{RawInode, empty_inode}
use openv.Ofs.Table.{read_inode, write_inode, free_inode}
use openv.Ofs.Blocks.{get_file_block}
use openv.Ofs.File.{file_truncate}
use openv.Ofs.Dirent.{direntry_size, direntries_per_block, dirent_clear}
use openv.Ofs.Run.{Run, pure, ◌>>=◌, ◌>>◌, read_blk, write_blk, commit_txn, when_some}
use openv.Ofs.Dir.{itype_dir_entry, div_ceil, search_slots, after_search}

-- What `dir_unlink` does to the inode whose entry is found.
unfoldable pub drop_link : ℕ → RawInode → Run (Unit {0})
drop_link child_ino child =
    if child.nlink - 1 == 0
    then (do file_truncate child_ino; free_inode child_ino)
    else (do write_inode child_ino (record child { nlink = child.nlink - 1 }); pure tt)

abbrev pub inode_or_default : Option RawInode → RawInode
inode_or_default none = empty_inode 0 0
inode_or_default (some inode) = inode

-- The entry is cleared last.
unfoldable pub unlink_at : ℕ → ℕ → Block → ℕ → ℕ → ℕ → Run Bool
unlink_at dir_ino blk buf slot child_ino etype = do
  c ← read_inode child_ino
  drop_link child_ino (inode_or_default c)
  (if etype == itype_dir_entry
      then (do
        r ← read_inode dir_ino
        when_some r (pure true)
            λ parent. write_inode dir_ino (record parent { nlink = parent.nlink - 1 }))
      else pure true)
  write_blk blk (dirent_clear buf (slot * direntry_size))
  commit_txn
  pure true

-- The loop of `dir_unlink` over the blocks of the directory.
unfoldable pub unlink_loop : ℕ → RawInode → ℕ → List ℕ → ℕ → ℕ → Run Bool
unlink_loop zero inode dir_ino name block_idx seen = pure false
unlink_loop (suc n) inode dir_ino name block_idx seen = do
  m ← get_file_block inode dir_ino block_idx false
  when_some m.0 (pure false) λ blk. do
    b ← read_blk blk
    when_some b (pure false) λ buf.
        after_search
          (search_slots buf name (div_ceil inode.size direntry_size) direntries_per_block 0 seen)
          (pure false) (λ slot ino etype. unlink_at dir_ino blk buf slot ino etype)
          (λ seen'. unlink_loop n inode dir_ino name (block_idx + 1) seen')

-- `dir_unlink`
unfoldable pub dir_unlink : ℕ → List ℕ → Run Bool
dir_unlink dir_ino name = do
  r ← read_inode dir_ino
  when_some r (pure false) λ inode.
      unlink_loop (div_ceil (div_ceil inode.size direntry_size) direntries_per_block) inode dir_ino
        name 0 0
