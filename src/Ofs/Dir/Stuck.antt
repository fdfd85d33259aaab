-- ===== src/Ofs/Dir/Stuck.antt =====
-- `dir_add_entry` on a directory with a block that cannot be read.
use openv.Common.{
  ℕ, zero, suc, ◌*◌, ◌≤◌, ◌<◌, ◌≡◌, refl, ◌∙◌, false, not, ◌||◌, none, some, List, length, ◌==◌,
  ltb, leb, arith,
}
use openv.Ofs.State.{OfsState, read_blk}
use openv.Ofs.Inode.{RawInode}
use openv.Ofs.Table.{read_inode}
use openv.Ofs.Blocks.{Mapped, get_file_block}
use openv.Ofs.Blocks.Lookup.{block_at, get_file_block-lookup}
use openv.Ofs.Dir.{
  div_ceil, free_slot, Place, place, running, place_loop, add_at, add_entry, dir_add_entry,
}
use openv.Ofs.Run.{Run, pure, ◌>>=◌, ◌>>◌, when_some, >>=-some}
use openv.Ofs.Run

module _ (inode : RawInode) (dir_ino : ℕ) (s : OfsState) (blk : ℕ)
    (mapped : block_at s inode 0 ≡ some blk) (unreadable : read_blk s blk ≡ none)
    (filled : 0 < inode.size) where
  -- What follows the search for the block.
  abbrev on_block : ℕ → Mapped → Run Place
  on_block fuel m = when_some m.0 (place_loop fuel inode dir_ino 1) λ blk. Run.read_blk blk >>= λ b.
      when_some b (place_loop fuel inode dir_ino 0) λ buf.
        when_some (free_slot buf 0 (div_ceil inode.size 64) 64 0) (place_loop fuel inode dir_ino 1)
          (λ slot. pure (place blk buf 0 slot))

  place_loop-running : (fuel : ℕ) → place_loop fuel inode dir_ino 0 s ≡ some (running, s)
  unfolding place_loop
  place_loop-running zero = refl
  place_loop-running (suc fuel) =
      let more : leb (div_ceil inode.size 64) (0 * 64) ≡ false = ground arith in
      rw (more, place_loop)
        (>>=-some (get_file_block inode dir_ino 0 false) (on_block fuel) s
            (get_file_block-lookup inode dir_ino s 0)
          ∙ rw (mapped, unreadable) (place_loop-running fuel))

-- When `read_inode` gives a directory that is not empty, and its first block is mapped but cannot
-- be read, `dir_add_entry` of a name of at most 55 bytes has not returned after any number of
-- rounds.
pub dir_add_entry-running :
    (fuel dir_ino child_ino etype blk : ℕ) (name : List ℕ) (inode : RawInode) (s s₁ : OfsState)
    → read_inode dir_ino s ≡ some (some inode, s₁)
    → inode.itype ≡ 2
    → length name ≤ 55
    → 0 < inode.size
    → block_at s₁ inode 0 ≡ some blk
    → read_blk s₁ blk ≡ none
    → dir_add_entry fuel dir_ino name child_ino etype s ≡ some (none, s₁)
unfolding dir_add_entry add_entry
dir_add_entry-running fuel dir_ino child_ino etype blk name inode s s₁ found kind short filled
      mapped unreadable =
    let go : (not (inode.itype == 2) || ltb 55 (length name)) ≡ false = ground arith in
    >>=-some (read_inode dir_ino)
      (λ r. when_some r (pure (some false)) (add_entry fuel dir_ino name child_ino etype)) s found
    ∙ rw (go, add_entry)
        (>>=-some (place_loop fuel inode dir_ino 0) (add_at inode dir_ino name child_ino etype) s₁
          (place_loop-running inode dir_ino s₁ blk mapped unreadable filled fuel))
