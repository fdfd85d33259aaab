-- ===== src/Ofs/Cache.antt =====
-- `InodeCache`
use openv.Common.{
  ℕ, zero, suc, ◌+◌, ◌%◌, ◌^◌, Option, none, some, List, [], ◌∷◌, replicate, ◌==◌, if◌then◌else◌,
}
use openv.Ofs.Inode.{RawInode}

abbrev pub inode_cache_size : ℕ
inode_cache_size = 32

abbrev pub CacheSlot : Type 0
CacheSlot = ℕ × Option RawInode

pub record InodeCache : Type 0 where
  pub entries : List CacheSlot
  pub generation : ℕ

abbrev pub new_cache : InodeCache
new_cache = record { entries = replicate inode_cache_size (0, none); generation = 1 }

-- The first slot with the key decides, also if it is empty.
unfoldable pub find_cached : ℕ → List CacheSlot → Option RawInode
find_cached ino [] = none
find_cached ino (e ∷ es) = if e.0 == ino then e.1 else find_cached ino es

abbrev pub set_slot : ℕ → CacheSlot → List CacheSlot → List CacheSlot
set_slot i e [] = []
set_slot zero e (f ∷ fs) = e ∷ fs
set_slot (suc i) e (f ∷ fs) = f ∷ set_slot i e fs

unfoldable pub clear_slot : ℕ → List CacheSlot → List CacheSlot
clear_slot ino [] = []
clear_slot ino (e ∷ es) = if e.0 == ino then (e.0, none) ∷ es else e ∷ clear_slot ino es

-- `InodeCache::get`
abbrev pub cache_get : InodeCache → ℕ → Option RawInode
cache_get c ino = find_cached ino c.entries

-- `InodeCache::insert`
unfoldable pub cache_insert : InodeCache → ℕ → RawInode → InodeCache
cache_insert c ino inode = record {
  entries = set_slot (c.generation % inode_cache_size) (ino, some inode) c.entries;
  generation = (c.generation + 1) % 2 ^ 64;
}

-- `InodeCache::invalidate`
unfoldable pub cache_invalidate : InodeCache → ℕ → InodeCache
cache_invalidate c ino = record c { entries = clear_slot ino c.entries }
