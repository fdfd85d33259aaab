-- ===== src/Ofs/Blocks.antt =====
-- The blocks of a file: `get_file_block`, and the freeing of a file's blocks.
pub mod Lookup
use openv.Common.{
  ℕ, zero, suc, ◌+◌, ◌-◌, ◌*◌, ◌/◌, ◌%◌, ◌^◌, Bool, true, false, not, Option, none, some, List, [],
  ◌∷◌, get_or, replicate, ◌==◌, ltb, leb, if◌then◌else◌,
}
use openv.Ofs.Device.{Block}
use openv.Ofs.Buffer.{u32_le, set_u32}
use openv.Ofs.Journal.{zeros}
use openv.Ofs.State.{OfsState}
use openv.Ofs.Inode.{RawInode, get_words}
use openv.Ofs.Bitmap.{set_byte, alloc_block, free_block}
use openv.Ofs.Table.{write_inode}
use openv.Ofs.Run.{Run, pure, ◌>>=◌, ◌>>◌, read_blk, write_blk, when_some}

-- `BLOCK_SIZE / 4`
abbrev pub nptrs : ℕ
nptrs = 1024

-- A result and the inode, which `get_file_block` changes in place.
abbrev pub Mapped : Type 0
Mapped = Option ℕ × RawInode

-- A new block, filled with zeros.
unfoldable pub fresh_block : Run (Option ℕ)
fresh_block = do
  r ← alloc_block
  when_some r (pure none) λ blk. do write_blk blk zeros; pure (some blk)

-- `inode.used_blocks += 1`
abbrev pub count_block : RawInode → RawInode
count_block inode = record inode { used_blocks = (inode.used_blocks + 1) % 2 ^ 32 }

-- A direct block.
unfoldable pub direct_block : RawInode → ℕ → ℕ → Bool → Run Mapped
direct_block inode ino idx alloc =
    let blk : ℕ = get_or inode.direct idx 0 in
    if not (blk == 0) then pure (some blk, inode) else if not alloc then pure (none, inode) else do
      r ← fresh_block
      when_some r (pure (none, inode)) λ new_blk. do
        let inode' = count_block (record inode { direct = set_byte inode.direct idx new_blk })
        write_inode ino inode'
        pure (some new_blk, inode')

-- The block of pointers that an inode names: allocated if there is none.
unfoldable pub pointer_root : ℕ → (ℕ → RawInode) → RawInode → ℕ → Bool → Run Mapped
pointer_root root set_root inode ino alloc =
    if not (root == 0)
    then pure (some root, inode)
    else if not alloc
    then pure (none, inode)
    else do
      r ← fresh_block
      when_some r (pure (none, inode)) λ new_blk. do
        let inode' = count_block (set_root new_blk)
        write_inode ino inode'
        pure (some new_blk, inode')

-- The block that a block of pointers names at an index: allocated if there is none.
unfoldable pub pointer_entry : ℕ → ℕ → RawInode → ℕ → Bool → Run Mapped
pointer_entry table idx inode ino alloc = do
  b ← read_blk table
  when_some b (pure (none, inode)) λ buf.
      let blk : ℕ = u32_le buf (idx * 4) in
      if not (blk == 0)
      then pure (some blk, inode)
      else if not alloc
      then pure (none, inode)
      else do
        r ← fresh_block
        when_some r (pure (none, inode)) λ new_blk. do
          write_blk table (set_u32 buf (idx * 4) new_blk)
          write_inode ino (count_block inode)
          pure (some new_blk, count_block inode)

-- A block that the single indirect block names.
unfoldable pub single_block : RawInode → ℕ → ℕ → Bool → Run Mapped
single_block inode ino idx alloc = do
  root ← pointer_root inode.indirect (λ b. record inode { indirect = b }) inode ino alloc
  when_some root.0 (pure (none, root.1)) λ table. pointer_entry table idx root.1 ino alloc

-- A block that the double indirect block leads to.
unfoldable pub double_block : RawInode → ℕ → ℕ → Bool → Run Mapped
double_block inode ino idx alloc = do
  root ←
      pointer_root inode.double_indirect (λ b. record inode { double_indirect = b }) inode ino alloc
  when_some root.0 (pure (none, root.1)) λ outer_table. do
    outer ← pointer_entry outer_table (idx / nptrs) root.1 ino alloc
    when_some outer.0 (pure (none, outer.1))
        λ table. pointer_entry table (idx % nptrs) outer.1 ino alloc

-- `get_file_block`
unfoldable pub get_file_block : RawInode → ℕ → ℕ → Bool → Run Mapped
get_file_block inode ino idx alloc =
    if ltb idx 12
    then direct_block inode ino idx alloc
    else if ltb (idx - 12) nptrs
    then single_block inode ino (idx - 12) alloc
    else if leb nptrs ((idx - 12 - nptrs) / nptrs)
    then pure (none, inode)
    else double_block inode ino (idx - 12 - nptrs) alloc

-- A loop over numbers.
abbrev pub each : (ℕ → Run (Unit {0})) → List ℕ → Run (Unit {0})
each f [] = pure tt
each f (b ∷ bs) = f b >> each f bs

-- `free_indirect_blocks`, by the depth.
unfoldable pub free_indirect_blocks : ℕ → ℕ → Run (Unit {0})
free_indirect_blocks zero blk = if blk == 0 then pure tt else free_block blk
free_indirect_blocks (suc depth) blk =
    let inner : ℕ → Run (Unit {0}) =
      λ b. if b == 0 then pure tt else free_indirect_blocks depth b in
    if blk == 0 then pure tt else do
      r ← read_blk blk
      when_some r (pure tt) λ buf. do each inner (get_words nptrs 0 buf); free_block blk
