-- ===== src/Ofs/Table/Access.antt =====
-- Inodes are read as they were written, through the cache.
use openv.Common.{
  ℕ, ◌<◌, ◌≡◌, inl, inr, refl, sym, ap, subst, ◌∙◌, true, false, none, some, ◌==◌, leb,
  if◌then◌else◌, ==_ne, arith, Option-cases,
}
use openv.Ofs.Device.{Block}
use openv.Ofs.State.{OfsState, read_blk, write_blk}
use openv.Ofs.Inode.{RawInode}
use openv.Ofs.Inode.RoundTrip.{IsInode}
use openv.Ofs.Cache.{cache_get, cache_insert, cache_invalidate}
use openv.Ofs.Table.{table_blk, fetch_inode, read_inode, write_inode}
use openv.Ofs.Table.Slots.{
  IsSingle, cache_get-AllHonest, cache_insert-AllHonest, cache_invalidate-AllHonest,
}
use openv.Ofs.Table.Written.{
  inode_at, IsCoherent, HasBlocks, read_blk-cache, written, write_inode_lem, decode,
  inode_at-written,
}

write_inode-missing :
    (s : OfsState) (ino : ℕ) (inode : RawInode)
    → ino < 1024
    → read_blk s (table_blk ino) ≡ none
    → write_inode ino inode s ≡ some (false, record s { cache = cache_invalidate s.cache ino })
unfolding write_inode
write_inode-missing s ino inode small e =
    let inside : leb 1024 ino ≡ false = ground arith in
    rw (inside, read_blk-cache s (cache_invalidate s.cache ino) (table_blk ino), e) refl

-- What a successful `write_inode` did.
write_inode-true :
    (s s₁ : OfsState) (ino : ℕ) (inode : RawInode)
    → ino < 1024
    → write_inode ino inode s ≡ some (true, s₁)
    → (buf : Block) × (read_blk s (table_blk ino) ≡ some buf) × (s₁ ≡ written ino inode buf s)
write_inode-true s s₁ ino inode small run = elim (Option-cases (read_blk s (table_blk ino))) [
  | inl missing ↦ absurd (cc (write_inode-missing s ino inode small missing))
  | inr (buf, e) ↦ (buf, e, cc (write_inode_lem s ino inode buf small e))
]

-- A written inode is read from the table, and the others are unchanged.
pub inode_at-write_inode :
    (s s₁ : OfsState) (ino : ℕ) (inode : RawInode) (j : ℕ)
    → ino < 1024
    → HasBlocks s
    → IsInode inode
    → write_inode ino inode s ≡ some (true, s₁)
    → inode_at s₁ j ≡ (if ino == j then some inode else inode_at s j)
inode_at-write_inode s s₁ ino inode j small blocks h run =
    let (buf, e, es) = write_inode-true s s₁ ino inode small run in
    ap (λ u. inode_at u j) es ∙ inode_at-written s ino inode buf (blocks _ buf e) h e j

-- The cache stays true to the table, if the inode is cached once at most.
pub write_inode-IsCoherent :
    (s s₁ : OfsState) (ino : ℕ) (inode : RawInode)
    → ino < 1024
    → HasBlocks s
    → IsInode inode
    → IsCoherent s
    → IsSingle ino s.cache.entries
    → write_inode ino inode s ≡ some (true, s₁)
    → IsCoherent s₁
unfolding write_blk
write_inode-IsCoherent s s₁ ino inode small blocks h co one run =
    let (buf, e, es) = write_inode-true s s₁ ino inode small run in
    subst IsCoherent (sym es) (
      cache_invalidate-AllHonest (inode_at s) (inode_at (written ino inode buf s)) s.cache ino
        (λ j ne.
          inode_at-written s ino inode buf (blocks _ buf e) h e j
          ∙ rw (==_ne ino j (λ x. ne (sym x))) refl)
        one co)

-- What `read_inode` returns, if the cache is coherent: the inode of the table. It changes no block.
pub read_inode-inode_at :
    (s : OfsState) (ino : ℕ)
    → ino < 1024
    → IsCoherent s
    → (s' : OfsState) × (read_inode ino s ≡ some (inode_at s ino, s'))
      × ((blk : ℕ) → read_blk s' blk ≡ read_blk s blk)
      × IsCoherent s'
unfolding read_inode fetch_inode read_blk
read_inode-inode_at s ino small co =
    let inside : leb 1024 ino ≡ false = ground arith in
    elim (Option-cases (cache_get s.cache ino)) [
      | inr (inode, hit) ↦ (
        s,
        rw (inside, hit) (rw (cache_get-AllHonest (inode_at s) s.cache ino co hit) refl),
        λ blk. refl,
        co,
      )
      | inl miss ↦ elim (Option-cases (read_blk s (table_blk ino))) [
        | inl gone ↦ (s, rw (inside, miss, gone) refl, λ blk. refl, co)
        | inr (buf, e) ↦
            let inode = decode ino buf in
            (
              record s { cache = cache_insert s.cache ino inode },
              rw (inside, miss, e) refl,
              λ blk. refl,
              cache_insert-AllHonest (inode_at s) s.cache ino inode (rw e refl) co,
            )
      ]
    ]

-- After a successful `write_inode`, `read_inode` of that inode gives what was written, and of any
-- other what the table said before. This holds for numbers below 1024, an inode whose fields fit
-- their types and blocks of 4096 bytes, when the cache agrees with the table and has the inode in
-- one filled slot at most, that of the first slot with its number, and the cache then still agrees
-- with the table.
pub read_inode-write_inode :
    (s s₁ : OfsState) (ino : ℕ) (inode : RawInode) (j : ℕ)
    → ino < 1024
    → j < 1024
    → HasBlocks s
    → IsInode inode
    → IsCoherent s
    → IsSingle ino s.cache.entries
    → write_inode ino inode s ≡ some (true, s₁)
    → (s₂ : OfsState) × (read_inode j s₁
        ≡ some ((if ino == j then some inode else inode_at s j), s₂))
      × IsCoherent s₂
read_inode-write_inode s s₁ ino inode j small small' blocks h co one run =
    let co₁ = write_inode-IsCoherent s s₁ ino inode small blocks h co one run in
    let (s₂, e, same, co₂) = read_inode-inode_at s₁ j small' co₁ in
    (s₂, e ∙ ap (λ r. some (r, s₂)) (inode_at-write_inode s s₁ ino inode j small blocks h run), co₂)
