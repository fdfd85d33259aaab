-- ===== src/Ofs/Blocks/Lookup.antt =====
-- `get_file_block` where it allocates nothing.
use openv.Common.{
  ℕ, ◌-◌, ◌*◌, ◌/◌, ◌%◌, ◌≡◌, refl, inl, inr, ◌∙◌, true, false, Option, none, some, get_or, ◌==◌,
  ltb, leb, if◌then◌else◌, Bool-cases, Option-cases, arith,
}
use openv.Ofs.Device.{Block}
use openv.Ofs.Buffer.{u32_le}
use openv.Ofs.State.{OfsState, read_blk}
use openv.Ofs.Inode.{RawInode}
use openv.Ofs.Blocks.{
  Mapped, direct_block, pointer_root, pointer_entry, single_block, double_block, get_file_block,
}
use openv.Ofs.Run.{Run, pure, ◌>>=◌, when_some, >>=-some}

-- A pointer, where 0 is none.
abbrev pub nonzero : ℕ → Option ℕ
nonzero b = if b == 0 then none else some b

-- The pointer at an index of a block of pointers.
abbrev pub pointer_in : Option Block → ℕ → Option ℕ
pointer_in none idx = none
pointer_in (some buf) idx = nonzero (u32_le buf (idx * 4))

abbrev pub pointer_at : OfsState → Option ℕ → ℕ → Option ℕ
pointer_at s none idx = none
pointer_at s (some table) idx = pointer_in (read_blk s table) idx

-- The block of a file at an index: 12 direct ones, 1024 by one table, 1024 * 1024 by a table of
-- tables, and no more.
abbrev pub block_at : OfsState → RawInode → ℕ → Option ℕ
block_at s inode idx =
    if ltb idx 12
    then nonzero (get_or inode.direct idx 0)
    else if ltb idx 1036
    then pointer_at s (nonzero inode.indirect) (idx - 12)
    else if ltb idx 1049612
    then pointer_at s (pointer_at s (nonzero inode.double_indirect) ((idx - 1036) / 1024))
        ((idx - 1036) % 1024)
    else none

module _ (inode : RawInode) (ino : ℕ) (s : OfsState) where
  -- Nothing is changed.
  abbrev found : Option ℕ → Option (Mapped × OfsState)
  found r = some ((r, inode), s)

  direct_block-lookup :
      (idx : ℕ) → direct_block inode ino idx false s ≡ found (nonzero (get_or inode.direct idx 0))
  unfolding direct_block
  direct_block-lookup idx = elim (Bool-cases (get_or inode.direct idx 0 == 0)) [
    | inl e ↦ rw e refl
    | inr e ↦ rw e refl
  ]

  pointer_root-lookup :
      (root : ℕ) (f : ℕ → RawInode) → pointer_root root f inode ino false s ≡ found (nonzero root)
  unfolding pointer_root
  pointer_root-lookup root f = elim (Bool-cases (root == 0)) [
    | inl e ↦ rw e refl
    | inr e ↦ rw e refl
  ]

  pointer_entry-lookup :
      (table idx : ℕ)
      → pointer_entry table idx inode ino false s ≡ found (pointer_at s (some table) idx)
  unfolding pointer_entry
  pointer_entry-lookup table idx = elim (Option-cases (read_blk s table)) [
    | inl e ↦ rw e refl
    | inr (buf, e) ↦
        rw e
          (elim (Bool-cases (u32_le buf (idx * 4) == 0)) [ inl z ↦ rw z refl | inr z ↦ rw z refl ])
  ]

  -- The entry of a table that may be missing.
  entry_or_none :
      (root : Option ℕ) (idx : ℕ)
      → when_some root (pure (none, inode)) (λ table. pointer_entry table idx inode ino false) s
        ≡ found (pointer_at s root idx)
  entry_or_none none idx = refl
  entry_or_none (some table) idx = pointer_entry-lookup table idx

  single_block-lookup :
      (idx : ℕ)
      → single_block inode ino idx false s ≡ found (pointer_at s (nonzero inode.indirect) idx)
  unfolding single_block
  single_block-lookup idx =
      >>=-some (pointer_root inode.indirect (λ b. record inode { indirect = b }) inode ino false)
        (λ root.
          when_some root.0 (pure (none, root.1)) λ table. pointer_entry table idx root.1 ino false)
        s (pointer_root-lookup inode.indirect (λ b. record inode { indirect = b }))
      ∙ entry_or_none (nonzero inode.indirect) idx

  abbrev after_outer : ℕ → Mapped → Run Mapped
  after_outer idx outer =
      when_some outer.0 (pure (none, outer.1))
        λ table. pointer_entry table (idx % 1024) outer.1 ino false

  outer_or_none :
      (root : Option ℕ) (idx : ℕ)
      → when_some root
          (pure (none, inode))
          (λ outer_table.
            pointer_entry outer_table (idx / 1024) inode ino false >>= after_outer idx)
          s
        ≡ found (pointer_at s (pointer_at s root (idx / 1024)) (idx % 1024))
  outer_or_none none idx = refl
  outer_or_none (some table) idx =
      >>=-some (pointer_entry table (idx / 1024) inode ino false) (after_outer idx) s
        (pointer_entry-lookup table (idx / 1024))
      ∙ entry_or_none (pointer_at s (some table) (idx / 1024)) (idx % 1024)

  double_block-lookup :
      (idx : ℕ)
      → double_block inode ino idx false s
        ≡ found
            (pointer_at s (pointer_at s (nonzero inode.double_indirect) (idx / 1024)) (idx % 1024))
  unfolding double_block
  double_block-lookup idx =
      >>=-some
        (pointer_root inode.double_indirect (λ b. record inode { double_indirect = b }) inode ino
          false)
        (λ root. when_some root.0 (pure (none, root.1)) λ outer_table.
          pointer_entry outer_table (idx / 1024) root.1 ino false >>= after_outer idx)
        s (pointer_root-lookup inode.double_indirect (λ b. record inode { double_indirect = b }))
      ∙ outer_or_none (nonzero inode.double_indirect) idx

  -- Without the permission to allocate, `get_file_block` changes nothing and gives the block that
  -- the pointers lead to: the first 12 by the inode, 1024 by its table, 1024 times 1024 by a table
  -- of tables, and none beyond.
  pub get_file_block-lookup :
      (idx : ℕ) → get_file_block inode ino idx false s ≡ some ((block_at s inode idx, inode), s)
  unfolding get_file_block
  get_file_block-lookup idx =
      let shift : idx - 12 - 1024 ≡ idx - 1036 = omega arith in
      elim (Bool-cases (ltb idx 12)) [
        | inl direct ↦ rw direct (direct_block-lookup idx)
        | inr beyond ↦ elim (Bool-cases (ltb idx 1036)) [
          | inl single ↦
              let t : ltb (idx - 12) 1024 ≡ true = ground arith in
              rw (beyond, single, t) (single_block-lookup (idx - 12))
          | inr double ↦ elim (Bool-cases (ltb idx 1049612)) [
            | inl inside ↦
                let t : ltb (idx - 12) 1024 ≡ false = ground arith in
                let u : leb 1024 ((idx - 1036) / 1024) ≡ false = ground arith in
                rw (beyond, double, inside, t, shift, u) (double_block-lookup (idx - 1036))
            | inr over ↦
                let t : ltb (idx - 12) 1024 ≡ false = ground arith in
                let u : leb 1024 ((idx - 1036) / 1024) ≡ true = ground arith in
                rw (beyond, double, over, t, shift, u) refl
          ]
        ]
      ]
