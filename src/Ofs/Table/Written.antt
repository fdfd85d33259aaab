-- ===== src/Ofs/Table/Written.antt =====
-- What a write of an inode does to its block of the table.
use mathlib.Core.Option
use openv.Common.{
  ℕ, ◌+◌, ◌≤◌, ◌<◌, ◌≡◌, ◌≢◌, inl, inr, refl, sym, ap, ◌∙◌, true, false, Option, some, List, length,
  ◌==◌, leb, if◌then◌else◌, Bool-cases, eq-cases, ==_ne, ==_iff, arith, length-take, length-drop,
  drop,
}
use openv.Common.Bytes.{
  slice, write_at, slice-write_at_same, slice-write_at_before, slice-write_at_after,
}
use openv.Ofs.Device.{Block}
use openv.Ofs.State.{OfsState, read_blk, write_blk}
use openv.Ofs.State.View.{read_blk-write_blk}
use openv.Ofs.Inode.{RawInode, raw_inode_read, raw_inode_write}
use openv.Ofs.Inode.RoundTrip.{IsInode, length-raw_inode_write, raw_inode_read-write}
use openv.Ofs.Cache.{InodeCache, cache_invalidate}
use openv.Ofs.Table.{inode_size, table_blk, table_offset, write_inode}
use openv.Ofs.Table.Slots.{AllHonest}

-- What the table says of an inode, with no cache.
abbrev pub inode_at : OfsState → ℕ → Option RawInode
inode_at s ino =
    Option.map (λ buf. raw_inode_read (slice (table_offset ino) inode_size buf))
      (read_blk s (table_blk ino))

-- The cache agrees with the table.
abbrev pub IsCoherent : OfsState → Type 0
IsCoherent s = AllHonest (inode_at s) s.cache.entries

-- The blocks of the table have the size of a block.
abbrev pub HasBlocks : OfsState → Type 0
HasBlocks s = (blk : ℕ) (buf : Block) → read_blk s blk ≡ some buf → length buf ≡ 4096

module _ (buf : Block) (len : length buf ≡ 4096) (ino : ℕ) (bs : List ℕ)
    (size : length bs ≡ 128) where
  pub fits : table_offset ino + length bs ≤ length buf
  fits = omega arith

  -- The entry of another inode of the block.
  pub slice-write_entry :
      (j : ℕ)
      → table_blk j ≡ table_blk ino
      → slice (table_offset j) 128 (write_at buf (table_offset ino) bs)
        ≡ (if ino == j then bs else slice (table_offset j) 128 buf)
  slice-write_entry j same = elim (Bool-cases (ino == j)) [
    | inl e ↦
        let ij : ino ≡ j = ground arith in
        rw e (
          ap (λ (k : ℕ). slice (table_offset k) 128 (write_at buf (table_offset ino) bs)) (sym ij)
          ∙ slice-write_at_same buf (table_offset ino) bs fits 128 (sym size))
    | inr ne ↦ rw ne (elim (Bool-cases (leb (table_offset j + 128) (table_offset ino))) [
      | inl before ↦
          slice-write_at_before buf (table_offset ino) bs fits (table_offset j) 128 (ground arith)
      | inr behind ↦
          slice-write_at_after buf (table_offset ino) bs fits (table_offset j) 128 (ground arith)
    ])
  ]

pub read_blk-cache :
    (s : OfsState) (c : InodeCache) (blk : ℕ)
    → read_blk (record s { cache = c }) blk ≡ read_blk s blk
unfolding read_blk
read_blk-cache s c blk = refl

inode_at-cache : (s : OfsState) (c : InodeCache) → inode_at (record s { cache = c }) ≡ inode_at s
unfolding read_blk
inode_at-cache s c = refl

-- The state after `write_inode`.
abbrev pub written : ℕ → RawInode → Block → OfsState → OfsState
written ino inode buf s =
    write_blk (table_blk ino)
      (write_at buf (table_offset ino)
        (raw_inode_write (slice (table_offset ino) inode_size buf) inode))
      (record s { cache = cache_invalidate s.cache ino })

pub write_inode_lem :
    (s : OfsState) (ino : ℕ) (inode : RawInode) (buf : Block)
    → ino < 1024
    → read_blk s (table_blk ino) ≡ some buf
    → write_inode ino inode s ≡ some (true, written ino inode buf s)
unfolding write_inode
write_inode_lem s ino inode buf small e =
    let inside : leb 1024 ino ≡ false = ground arith in
    rw (inside, read_blk-cache s (cache_invalidate s.cache ino) (table_blk ino), e) refl

pub length-entry :
    (buf : Block) (ino : ℕ) → length buf ≡ 4096 → length (slice (table_offset ino) 128 buf) ≡ 128
unfolding slice
length-entry buf ino len =
    omega (arith, length-take 128 (drop (table_offset ino) buf), length-drop (table_offset ino) buf)

abbrev pub decode : ℕ → Block → RawInode
decode j buf = raw_inode_read (slice (table_offset j) inode_size buf)

module _ (s : OfsState) (ino : ℕ) (inode : RawInode) (buf : Block) (len : length buf ≡ 4096)
    (h : IsInode inode) (e : read_blk s (table_blk ino) ≡ some buf) where
  abbrev pub new_entry : List ℕ
  new_entry = raw_inode_write (slice (table_offset ino) inode_size buf) inode

  pub length_entry : length new_entry ≡ 128
  length_entry =
      length-raw_inode_write inode h (slice (table_offset ino) 128 buf) (length-entry buf ino len)

  pub read_blk-written :
      (blk : ℕ)
      → read_blk (written ino inode buf s) blk ≡ (
          if table_blk ino == blk
          then some (write_at buf (table_offset ino) new_entry)
          else read_blk s blk)
  read_blk-written blk =
      read_blk-write_blk (record s { cache = cache_invalidate s.cache ino }) (table_blk ino) blk
        (write_at buf (table_offset ino) new_entry)
      ∙ ap
          (λ o.
            if table_blk ino == blk then some (write_at buf (table_offset ino) new_entry) else o)
          (read_blk-cache s (cache_invalidate s.cache ino) blk)

  pub read_blk-written_same :
      (blk : ℕ)
      → blk ≡ table_blk ino
      → read_blk (written ino inode buf s) blk ≡ some (write_at buf (table_offset ino) new_entry)
  read_blk-written_same blk same =
      let t : (table_blk ino == blk) ≡ true = (==_iff _ _).1 (sym same) in
      read_blk-written blk ∙ rw t refl

  pub read_blk-written_other :
      (blk : ℕ) → blk ≢ table_blk ino → read_blk (written ino inode buf s) blk ≡ read_blk s blk
  read_blk-written_other blk other =
      read_blk-written blk ∙ rw (==_ne (table_blk ino) blk (λ x. other (sym x))) refl

  pub decode-written :
      (j : ℕ)
      → table_blk j ≡ table_blk ino
      → decode j (write_at buf (table_offset ino) new_entry)
        ≡ (if ino == j then inode else decode j buf)
  decode-written j same =
      ap raw_inode_read (slice-write_entry buf len ino new_entry length_entry j same)
      ∙ elim (Bool-cases (ino == j)) [
        | inl eq ↦ rw eq (
            raw_inode_read-write inode h (slice (table_offset ino) 128 buf)
              (length-entry buf ino len))
        | inr ne ↦ rw ne refl
      ]

  pub inode_at-written :
      (j : ℕ)
      → inode_at (written ino inode buf s) j ≡ (if ino == j then some inode else inode_at s j)
  inode_at-written j = elim (eq-cases (table_blk j) (table_blk ino)) [
    | inl same ↦
        ap (Option.map (decode j)) (read_blk-written_same (table_blk j) same)
        ∙ ap some (decode-written j same)
        ∙ elim (Bool-cases (ino == j)) [
          | inl eq ↦ rw eq refl
          | inr ne ↦ rw ne (sym (ap (Option.map (decode j)) (ap (read_blk s) same ∙ e)))
        ]
    | inr other ↦
        ap (Option.map (decode j)) (read_blk-written_other (table_blk j) other)
        ∙ rw (==_ne ino j (λ x. other (ap (λ (k : ℕ). table_blk k) (sym x)))) refl
  ]
