-- ===== src/Ofs/Table/Slots.antt =====
-- The slots of the inode cache.
use openv.Common.{
  ℕ, zero, suc, ◌%◌, ◌≡◌, ◌≢◌, ◌⊎◌, inl, inr, refl, ◌∙◌, true, Option, none, some, List, [], ◌∷◌,
  ◌++◌, length, ◌==◌, ==_ne, ==_refl, arith,
}
use openv.Ofs.Inode.{RawInode}
use openv.Ofs.Cache.{
  CacheSlot, InodeCache, find_cached, set_slot, clear_slot, cache_get, cache_insert,
  cache_invalidate,
}

-- Every filled slot holds what `table` says of its inode.
abbrev pub IsHonest : (ℕ → Option RawInode) → CacheSlot → Type 0
IsHonest table (ino, none) = Unit {0}
IsHonest table (ino, some inode) = table ino ≡ some inode

abbrev pub AllHonest : (ℕ → Option RawInode) → List CacheSlot → Type 0
AllHonest table [] = Unit {0}
AllHonest table (e ∷ es) = IsHonest table e × AllHonest table es

-- No slot for the inode is filled.
abbrev pub NoneFilled : ℕ → List CacheSlot → Type 0
NoneFilled ino [] = Unit {0}
NoneFilled ino (e ∷ es) = ((e.0 ≢ ino) ⊎ (e.1 ≡ none)) × NoneFilled ino es

-- Behind the first slot for the inode no other is filled.
abbrev pub IsSingle : ℕ → List CacheSlot → Type 0
IsSingle ino [] = Unit {0}
IsSingle ino (e ∷ es) = ((e.0 ≡ ino) × NoneFilled ino es) ⊎ ((e.0 ≢ ino) × IsSingle ino es)

find_cached-AllHonest :
    (table : ℕ → Option RawInode) (ino : ℕ) (es : List CacheSlot) (inode : RawInode)
    → AllHonest table es
    → find_cached ino es ≡ some inode
    → table ino ≡ some inode
unfolding find_cached
find_cached-AllHonest table ino [] inode all e = cc
find_cached-AllHonest table ino ((k, none) ∷ es) inode all e =
    ground (arith, find_cached-AllHonest table ino es inode all.1)
find_cached-AllHonest table ino ((k, some v) ∷ es) inode all e =
    ground (arith, find_cached-AllHonest table ino es inode all.1)

pub cache_get-AllHonest :
    (table : ℕ → Option RawInode) (c : InodeCache) (ino : ℕ) {inode : RawInode}
    → AllHonest table c.entries
    → cache_get c ino ≡ some inode
    → table ino ≡ some inode
cache_get-AllHonest table c ino {inode} all e =
    find_cached-AllHonest table ino c.entries inode all e

set_slot-AllHonest :
    (table : ℕ → Option RawInode) (i : ℕ) (e : CacheSlot) (es : List CacheSlot)
    → IsHonest table e
    → AllHonest table es
    → AllHonest table (set_slot i e es)
set_slot-AllHonest table i e [] h all = tt
set_slot-AllHonest table zero e (f ∷ es) h all = (h, all.1)
set_slot-AllHonest table (suc i) e (f ∷ es) h all = (all.0, set_slot-AllHonest table i e es h all.1)

pub cache_insert-AllHonest :
    (table : ℕ → Option RawInode) (c : InodeCache) (ino : ℕ) (inode : RawInode)
    → table ino ≡ some inode
    → AllHonest table c.entries
    → AllHonest table (cache_insert c ino inode).entries
unfolding cache_insert
cache_insert-AllHonest table c ino inode h all =
    set_slot-AllHonest table (c.generation % 32) (ino, some inode) c.entries h all

-- A change of the table at an inode that no slot is filled for.
NoneFilled-AllHonest :
    (table changed : ℕ → Option RawInode) (ino : ℕ) (es : List CacheSlot)
    → ((j : ℕ) → j ≢ ino → changed j ≡ table j)
    → NoneFilled ino es
    → AllHonest table es
    → AllHonest changed es
NoneFilled-AllHonest table changed ino [] keep free all = tt
NoneFilled-AllHonest table changed ino ((k, none) ∷ es) keep free all =
    (tt, NoneFilled-AllHonest table changed ino es keep free.1 all.1)
NoneFilled-AllHonest table changed ino ((k, some v) ∷ es) keep free all = (
  elim free.0 [ inl ne ↦ keep k ne ∙ all.0 | inr e ↦ cc ],
  NoneFilled-AllHonest table changed ino es keep free.1 all.1,
)

IsHonest-keep :
    (table changed : ℕ → Option RawInode) (ino : ℕ) (e : CacheSlot)
    → ((j : ℕ) → j ≢ ino → changed j ≡ table j)
    → e.0 ≢ ino
    → IsHonest table e
    → IsHonest changed e
IsHonest-keep table changed ino (k, none) keep ne h = tt
IsHonest-keep table changed ino (k, some v) keep ne h = keep k ne ∙ h

clear_slot-AllHonest :
    (table changed : ℕ → Option RawInode) (ino : ℕ) (es : List CacheSlot)
    → ((j : ℕ) → j ≢ ino → changed j ≡ table j)
    → IsSingle ino es
    → AllHonest table es
    → AllHonest changed (clear_slot ino es)
unfolding clear_slot
clear_slot-AllHonest table changed ino [] keep one all = tt
clear_slot-AllHonest table changed ino (e ∷ es) keep (inl (same, free)) all =
    let t : (e.0 == ino) ≡ true = ground arith in
    rw t (tt, NoneFilled-AllHonest table changed ino es keep free all.1)
clear_slot-AllHonest table changed ino (e ∷ es) keep (inr (ne, one)) all = rw (==_ne e.0 ino ne) (
  IsHonest-keep table changed ino e keep ne all.0,
  clear_slot-AllHonest table changed ino es keep one all.1,
)

pub cache_invalidate-AllHonest :
    (table changed : ℕ → Option RawInode) (c : InodeCache) (ino : ℕ)
    → ((j : ℕ) → j ≢ ino → changed j ≡ table j)
    → IsSingle ino c.entries
    → AllHonest table c.entries
    → AllHonest changed (cache_invalidate c ino).entries
unfolding cache_invalidate
cache_invalidate-AllHonest table changed c ino keep one all =
    clear_slot-AllHonest table changed ino c.entries keep one all

find_cached-clear_slot :
    (ino : ℕ) (es : List CacheSlot) → find_cached ino (clear_slot ino es) ≡ none
unfolding find_cached clear_slot
find_cached-clear_slot ino [] = refl
find_cached-clear_slot ino (e ∷ es) = ground (arith, find_cached-clear_slot ino es)

-- After an invalidation the inode is not cached.
pub cache_get-invalidate :
    (c : InodeCache) (ino : ℕ) → cache_get (cache_invalidate c ino) ino ≡ none
unfolding cache_invalidate
cache_get-invalidate c ino = find_cached-clear_slot ino c.entries

-- No slot has the key of the inode.
abbrev pub NoKey : ℕ → List CacheSlot → Type 0
NoKey ino [] = Unit {0}
NoKey ino (e ∷ es) = (e.0 ≢ ino) × NoKey ino es

find_cached-exposed :
    (ino other : ℕ) (v : Option RawInode) (inode : RawInode) (pre post : List CacheSlot)
    → NoKey ino pre
    → other ≢ ino
    → find_cached ino
        (set_slot (length pre) (other, some inode) (clear_slot ino (pre ++ ((ino, v) ∷ post))))
      ≡ find_cached ino post
unfolding find_cached clear_slot
find_cached-exposed ino other v inode [] post free ne =
    rw (==_refl ino) (rw (==_ne other ino ne) refl)
find_cached-exposed ino other v inode (e ∷ pre) post free ne =
    rw (==_ne e.0 ino free.0)
      (rw (==_ne e.0 ino free.0) (find_cached-exposed ino other v inode pre post free.1 ne))

-- When a slot behind the first one for an inode is filled, and the first one is the next to be
-- reused, then after `invalidate` of the inode and `insert` of another the cache gives for the
-- inode what the later slot held.
pub cache_get-stale :
    (c : InodeCache) (ino other : ℕ) (v : Option RawInode) (inode stale : RawInode)
    (pre post : List CacheSlot)
    → c.entries ≡ pre ++ ((ino, v) ∷ post)
    → NoKey ino pre
    → find_cached ino post ≡ some stale
    → c.generation % 32 ≡ length pre
    → other ≢ ino
    → cache_get (cache_insert (cache_invalidate c ino) other inode) ino ≡ some stale
unfolding cache_insert cache_invalidate
cache_get-stale c ino other v inode stale pre post es free old at ne =
    rw (es, at) (find_cached-exposed ino other v inode pre post free ne ∙ old)
