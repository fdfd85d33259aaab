-- ===== src/Ofs/File.antt =====
-- `file_read`, `file_write` and `file_truncate`, and the errors of block-based file systems.
pub mod Read
use openv.Common.{
  ℕ, zero, suc, ◌+◌, ◌-◌, ◌*◌, ◌/◌, ◌%◌, ◌^◌, Bool, true, false, not, ◌&&◌, ◌||◌, Option, none,
  some, List, [], ◌∷◌, ◌++◌, length, replicate, take, drop, min, ◌==◌, ltb, leb, if◌then◌else◌,
}
use openv.Common.Bytes.{slice, write_at}
use openv.Ofs.Device.{Block}
use openv.Ofs.Journal.{block_size, zeros}
use openv.Ofs.State.{OfsState}
use openv.Ofs.Inode.{RawInode}
use openv.Ofs.Table.{read_inode, write_inode}
use openv.Ofs.Bitmap.{free_block}
use openv.Ofs.Blocks.{get_file_block, free_indirect_blocks, each, Mapped}
use openv.Ofs.Run.{Run, pure, ◌>>=◌, ◌>>◌, read_blk, write_blk, commit_txn, when_some}

-- user/vfs-server/src/blockio.rs
pub data FsError : Type 0 where
  not_found : FsError
  not_file : FsError
  not_dir : FsError
  exists_already : FsError
  no_space : FsError
  bad_inode : FsError
  missing_block : FsError
  block_read : FsError
  block_write : FsError
  invalid_name : FsError
  cross_mount : FsError

pub data FsResult (A : Type 0) : Type 0 where
  ok : A → FsResult A
  err : FsError → FsResult A

abbrev pub itype_file : ℕ
itype_file = 1

abbrev pub itype_dir : ℕ
itype_dir = 2

abbrev pub itype_symlink : ℕ
itype_symlink = 3

abbrev pub has_content : RawInode → Bool
has_content inode = inode.itype == itype_file || inode.itype == itype_symlink

-- The bytes of one round of the loops, from `pos` on.
abbrev pub chunk_at : ℕ → ℕ → ℕ
chunk_at pos left = min left (block_size - pos % block_size)

-- The loop of `file_read`: the position, and the bytes left to read, of which a round reads one at
-- least, and those read before.
unfoldable pub read_loop : ℕ → RawInode → ℕ → ℕ → ℕ → List ℕ → Run (FsResult (List ℕ))
read_loop zero inode ino pos left out = pure (ok out)
read_loop (suc fuel) inode ino pos left out = elim (left == 0) [
  | true ↦ pure (ok out)
  | false ↦ do
    m ← get_file_block inode ino (pos / block_size % 2 ^ 32) false
    when_some m.0 (pure (err missing_block)) λ blk. do
      b ← read_blk blk
      when_some b (pure (err block_read)) λ buf.
          let chunk : ℕ = chunk_at pos left in
          read_loop fuel m.1 ino (pos + chunk) (left - chunk)
            (out ++ slice (pos % block_size) chunk buf)
]

-- `file_read` once the inode is there.
unfoldable pub read_from : ℕ → ℕ → ℕ → RawInode → Run (FsResult (List ℕ))
read_from ino offset len inode =
    let to_read : ℕ = min (inode.size - offset) len in
    if not (has_content inode)
    then pure (err not_file)
    else if leb inode.size offset
    then pure (ok [])
    else read_loop to_read inode ino offset to_read []

-- `file_read`: the bytes put into the buffer of `len` bytes.
unfoldable pub file_read : ℕ → ℕ → ℕ → Run (FsResult (List ℕ))
file_read ino offset len = do
  r ← read_inode ino
  when_some r (pure (err bad_inode)) (read_from ino offset len)

-- A block that is written whole is not read first.
abbrev pub old_block : ℕ → ℕ → ℕ → Run (Option Block)
old_block blk block_off chunk =
    if not (block_off == 0) || ltb chunk block_size then read_blk blk else pure (some zeros)

-- The loop of `file_write`: the position and the bytes left. It ends with the inode.
unfoldable pub write_loop : ℕ → RawInode → ℕ → ℕ → List ℕ → Run (FsResult RawInode)
write_loop zero inode ino pos bytes = pure (ok inode)
write_loop (suc fuel) inode ino pos bytes = elim (length bytes == 0) [
  | true ↦ pure (ok inode)
  | false ↦ do
    m ← get_file_block inode ino (pos / block_size % 2 ^ 32) true
    when_some m.0 (pure (err no_space)) λ blk. do
      b ← old_block blk (pos % block_size) (chunk_at pos (length bytes))
      when_some b (pure (err block_read)) λ buf. do
        let chunk = chunk_at pos (length bytes)
        write_blk blk (write_at buf (pos % block_size) (take chunk bytes))
        write_loop fuel m.1 ino (pos + chunk) (drop chunk bytes)
]

-- The end of `file_write`. Whether the commit succeeds is not looked at.
unfoldable pub end_write : ℕ → ℕ → ℕ → FsResult RawInode → Run (FsResult ℕ)
end_write ino offset n (err e) = pure (err e)
end_write ino offset n (ok inode) = do
  (if ltb inode.size (offset + n)
      then write_inode ino (record inode { size = (offset + n) % 2 ^ 32 })
      else pure true)
  commit_txn
  pure (ok n)

-- `file_write`
unfoldable pub file_write : ℕ → ℕ → List ℕ → Run (FsResult ℕ)
file_write ino offset bytes = do
  r ← read_inode ino
  when_some r (pure (err bad_inode)) λ inode.
      if not (has_content inode) then pure (err not_file) else do
        w ← write_loop (length bytes) inode ino offset bytes
        end_write ino offset (length bytes) w

-- `file_truncate`
unfoldable pub file_truncate : ℕ → Run (Unit {0})
file_truncate ino = do
  r ← read_inode ino
  when_some r (pure tt) λ inode. do
    each (λ blk. if blk == 0 then pure tt else free_block blk) inode.direct
    free_indirect_blocks 1 inode.indirect
    free_indirect_blocks 2 inode.double_indirect
    write_inode ino (record inode {
      direct = replicate 12 0;
      indirect = 0;
      double_indirect = 0;
      size = 0;
      used_blocks = 0;
    })
    commit_txn
    pure tt
