-- ===== src/Ofs/Dir.antt =====
-- Directories: the search for a name, `dir_add_entry`, `dir_link_entry`, `init_dir`.
pub mod Unlink
pub mod Stuck
use openv.Common.{
  ℕ, zero, suc, ◌+◌, ◌-◌, ◌*◌, ◌/◌, ◌%◌, ◌^◌, min, Bool, true, false, not, ◌&&◌, ◌||◌, Option, none,
  some, List, [], ◌∷◌, length, replicate, ◌==◌, ltb, leb, if◌then◌else◌,
}
use openv.Ofs.Device.{Block}
use openv.Ofs.Journal.{block_size, zeros}
use openv.Ofs.State.{OfsState}
use openv.Ofs.Inode.{RawInode, empty_inode}
use openv.Ofs.Bitmap.{set_byte, alloc_block}
use openv.Ofs.Table.{read_inode, write_inode, free_inode}
use openv.Ofs.Blocks.{get_file_block}
use openv.Ofs.File.{itype_dir, file_truncate}
use openv.Ofs.Dirent.{
  direntry_size, direntries_per_block, dirent_read, dirent_write, dirent_name_eq, dirent_clear,
}
use openv.Ofs.Run.{Run, pure, panic, ◌>>=◌, ◌>>◌, read_blk, write_blk, commit_txn, when_some}

abbrev pub itype_dir_entry : ℕ
itype_dir_entry = 2

abbrev pub div_ceil : ℕ → ℕ → ℕ
div_ceil a b = (a + (b - 1)) / b

-- What a loop over the slots of a block ends with.
pub data Search : Type 0 where
  hit : ℕ → ℕ → ℕ → Search
  ended : Search
  next : ℕ → Search
  bad_name : Search

-- The loop over the slots: the rounds left, the slot, and the entries seen. A hit has the slot, the
-- inode and the type.
unfoldable pub search_slots : Block → List ℕ → ℕ → ℕ → ℕ → ℕ → Search
search_slots buf name total zero slot seen = next seen
search_slots buf name total (suc n) slot seen =
    let de : ℕ × ℕ × ℕ = dirent_read buf (slot * direntry_size) in
    let rest : Search = search_slots buf name total n (slot + 1) (seen + 1) in
    if leb total seen
    then ended
    else if de.1 == 0
    then rest
    else elim (dirent_name_eq buf (slot * direntry_size) de.1 name) [
      | none ↦ bad_name
      | some same ↦ if same then hit slot de.0 de.2 else rest
    ]

abbrev pub after_search : {A : Type 0} → Search → Run A → (ℕ → ℕ → ℕ → Run A) → (ℕ → Run A) → Run A
after_search (hit slot ino etype) stop found more = found slot ino etype
after_search ended stop found more = stop
after_search (next seen) stop found more = more seen
after_search bad_name stop found more = panic

-- The loop of `dir_lookup_inode` over the blocks of the directory.
unfoldable pub lookup_loop : ℕ → RawInode → ℕ → List ℕ → ℕ → ℕ → Run (Option (ℕ × ℕ))
lookup_loop zero inode dir_ino name block_idx seen = pure none
lookup_loop (suc n) inode dir_ino name block_idx seen = do
  m ← get_file_block inode dir_ino block_idx false
  when_some m.0 (pure none) λ blk. do
    b ← read_blk blk
    when_some b (pure none) λ buf.
        after_search
          (search_slots buf name (div_ceil inode.size direntry_size) direntries_per_block 0 seen)
          (pure none) (λ slot ino etype. pure (some (ino, etype)))
          (λ seen'. lookup_loop n inode dir_ino name (block_idx + 1) seen')

-- `dir_lookup_inode`: the loop runs while the block's offset is below the size.
unfoldable pub dir_lookup_inode : ℕ → List ℕ → Run (Option (ℕ × ℕ))
dir_lookup_inode dir_ino name = do
  r ← read_inode dir_ino
  when_some r (pure none) λ inode.
      if not (inode.itype == itype_dir) || ltb 55 (length name)
      then pure none
      else lookup_loop (div_ceil inode.size block_size) inode dir_ino name 0 0

-- The first free slot of a block: the rounds left and the slot.
unfoldable pub free_slot : Block → ℕ → ℕ → ℕ → ℕ → Option ℕ
free_slot buf coverage total zero slot = none
free_slot buf coverage total (suc n) slot =
    let rest : Option ℕ = free_slot buf coverage total n (slot + 1) in
    if leb total (coverage + slot)
    then none
    else if (dirent_read buf (slot * direntry_size)).1 == 0
    then some slot
    else rest

-- How the search for a free slot ends: with a slot of a block, with none, or not within the fuel.
pub data Place : Type 0 where
  place : ℕ → Block → ℕ → ℕ → Place
  append_block : Place
  running : Place

-- The loop of `dir_add_entry`. A block that cannot be read is tried again.
unfoldable pub place_loop : ℕ → RawInode → ℕ → ℕ → Run Place
place_loop zero inode dir_ino block_idx = pure running
place_loop (suc fuel) inode dir_ino block_idx =
    elim (leb (div_ceil inode.size direntry_size) (block_idx * direntries_per_block)) [
      | true ↦ pure append_block
      | false ↦ do
        m ← get_file_block inode dir_ino block_idx false
        when_some m.0 (place_loop fuel inode dir_ino (block_idx + 1)) λ blk. do
          b ← read_blk blk
          when_some b (place_loop fuel inode dir_ino block_idx) λ buf.
              when_some
                (free_slot buf (block_idx * direntries_per_block)
                  (div_ceil inode.size direntry_size) direntries_per_block 0)
                (place_loop fuel inode dir_ino (block_idx + 1))
                (λ slot. pure (place blk buf (block_idx * direntries_per_block) slot))
    ]

-- `if new_size > inode.size { inode.size = new_size; self.write_inode(..) }`
abbrev pub grow_dir : ℕ → RawInode → ℕ → Run Bool
grow_dir dir_ino inode new_size =
    if ltb inode.size new_size
    then write_inode dir_ino (record inode { size = new_size % 2 ^ 32 })
    else pure true

-- The link that the `..` of a new subdirectory is.
abbrev pub count_subdir : ℕ → ℕ → Run Bool
count_subdir dir_ino etype =
    if etype == itype_dir_entry
    then (do
      r ← read_inode dir_ino
      when_some r (pure true) λ parent.
          write_inode dir_ino (record parent { nlink = min (parent.nlink + 1) (2 ^ 32 - 1) }))
    else pure true

-- What follows the choice of a slot, or the new block.
unfoldable pub fill_slot : RawInode → ℕ → List ℕ → ℕ → ℕ → ℕ → Block → ℕ → ℕ → Run (Option Bool)
fill_slot inode dir_ino name child_ino etype blk buf coverage slot = do
  write_blk blk (dirent_write buf (slot * direntry_size) child_ino name etype)
  grow_dir dir_ino inode ((coverage + slot + 1) * direntry_size)
  count_subdir dir_ino etype
  done ← commit_txn
  pure (some done)

abbrev pub add_at : RawInode → ℕ → List ℕ → ℕ → ℕ → Place → Run (Option Bool)
add_at inode dir_ino name child_ino etype (place blk buf coverage slot) =
    fill_slot inode dir_ino name child_ino etype blk buf coverage slot
add_at inode dir_ino name child_ino etype append_block = do
  let next_idx = div_ceil inode.size block_size % 2 ^ 32
  m ← get_file_block inode dir_ino next_idx true
  when_some m.0 (pure (some false)) λ blk.
      if blk == 0
      then pure (some false)
      else fill_slot m.1 dir_ino name child_ino etype blk zeros (next_idx * direntries_per_block) 0
add_at inode dir_ino name child_ino etype running = pure none

-- `dir_add_entry` once the directory's inode is there.
unfoldable pub add_entry : ℕ → ℕ → List ℕ → ℕ → ℕ → RawInode → Run (Option Bool)
add_entry fuel dir_ino name child_ino etype inode =
    if not (inode.itype == itype_dir) || ltb 55 (length name)
    then pure (some false)
    else do p ← place_loop fuel inode dir_ino 0; add_at inode dir_ino name child_ino etype p

-- `dir_add_entry`, with fuel for its loop: `none` is a loop that is still running.
unfoldable pub dir_add_entry : ℕ → ℕ → List ℕ → ℕ → ℕ → Run (Option Bool)
dir_add_entry fuel dir_ino name child_ino etype = do
  r ← read_inode dir_ino
  when_some r (pure (some false)) (add_entry fuel dir_ino name child_ino etype)

-- The end of `dir_link_entry`: the link is taken back if there is no entry for it.
abbrev pub end_link : ℕ → RawInode → Option Bool → Run (Option Bool)
end_link child_ino child none = pure none
end_link child_ino child (some true) = pure (some true)
end_link child_ino child (some false) = do
  write_inode child_ino (record child { nlink = child.nlink - 1 })
  pure (some false)

-- `dir_link_entry`
unfoldable pub dir_link_entry : ℕ → ℕ → List ℕ → ℕ → ℕ → Run (Option Bool)
dir_link_entry fuel dir_ino name child_ino etype = do
  r ← read_inode child_ino
  when_some r (pure (some false)) λ old_child. do
    let child = record old_child { nlink = min (old_child.nlink + 1) (2 ^ 32 - 1) }
    write_inode child_ino child
    done ← dir_add_entry fuel dir_ino name child_ino etype
    end_link child_ino child done

-- `init_dir`. Whether the commit succeeds is not looked at.
unfoldable pub init_dir : ℕ → ℕ → Run Bool
init_dir ino parent_ino = do
  r ← read_inode ino
  when_some r (pure false) λ inode. if not (inode.itype == itype_dir) then pure false else do
    b ← alloc_block
    when_some b (pure false) λ blk. do
      let dot = dirent_write zeros 0 ino (b'.' ∷ []) itype_dir_entry
      let both = dirent_write dot direntry_size parent_ino (b'.' ∷ b'.' ∷ []) itype_dir_entry
      write_blk blk both
      write_inode ino (record inode {
        direct = set_byte inode.direct 0 blk;
        size = 2 * direntry_size;
        nlink = 2;
        used_blocks = 1;
      })
      commit_txn
      pure true
