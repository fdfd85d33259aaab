-- ===== src/Ofs/Tests.antt =====
-- The file system's theorems on small disks.
use openv.Common.{
  ℕ, zero, suc, ◌+◌, ◌/◌, ◌≤◌, ◌≡◌, ◌≢◌, ◌⊎◌, inl, inr, refl, ap, sym, ◌∙◌, true, false, not,
  Option, none, some, [], ◌∷◌, length, replicate, length-replicate, ◌==◌, if◌then◌else◌, arith,
}
use openv.Common.Bytes.{slice, write_at}
use openv.Common.Words.{to_le_bytes, from_le_bytes}
use openv.Ofs.Device.{Block, Disk, Device, write_block}
use openv.Ofs.Buffer.{u32_le, set_u32}
use openv.Ofs.Inode.{RawInode, empty_inode, raw_inode_read, raw_inode_write}
use openv.Ofs.Inode.Ranges.{AllBelow}
use openv.Ofs.Inode.RoundTrip.{IsInode, raw_inode_read-write}
use openv.Ofs.Cache.{InodeCache, new_cache, find_cached, cache_get, cache_insert, cache_invalidate}
use openv.Ofs.Journal.{zeros, clear_header, crc32, write_slots, apply_entries, commit_entries}
use openv.Ofs.Journal.Header.{clear_header-idle}
use openv.Ofs.Journal.Recovery.{IsData, SameData}
use openv.Ofs.Journal.Replay.{restart}
use openv.Ofs.Journal.Atomic.{restarts}
use openv.Ofs.State.{OfsState, read_blk, write_blk, pending_get, commit_txn}
use openv.Ofs.State.Pending.{shown}
use openv.Ofs.State.View.{IsOpen, read_blk-commit_txn, write, commit, run_ops, run_ops-too_many}
use openv.Ofs.State.Crash.{recovered, commit_txn-durable}
use openv.Ofs.Bitmap.{
  bit_at, set_bit, scan, bitmap_alloc, alloc_block, free_block, block_bitmap_blk,
}
use openv.Ofs.Bitmap.Bits.{IsBlock}
use openv.Ofs.Bitmap.Alloc.{IsAllocation, bitmap_alloc-IsAllocation, free_block-alloc_block}
use openv.Ofs.Table.{read_inode, write_inode}
use openv.Ofs.Table.Slots.{AllHonest, IsSingle, cache_get-stale}
use openv.Ofs.Table.Written.{inode_at, IsCoherent, HasBlocks}
use openv.Ofs.Table.Access.{read_inode-write_inode}
use openv.Ofs.Blocks.{get_file_block}
use openv.Ofs.Blocks.Lookup.{get_file_block-lookup}
use openv.Ofs.File.{ok, file_read}
use openv.Ofs.File.Read.{range, file_byte, IsBacked, file_read-range}
use openv.Ofs.Dirent.{dirent_read, dirent_write, dirent_name}
use openv.Ofs.Dirent.RoundTrip.{dirent_write_lem}
use openv.Ofs.Dir.{dir_add_entry}
use openv.Ofs.Dir.Stuck.{dir_add_entry-running}
use openv.Ofs.Format.{superblock, is_formatted, new_state}
use openv.Ofs.Format.Mount.{new_state-commit_txn}

-- A formatted disk, otherwise empty, on a device that takes some more writes.
abbrev test_disk : Disk
test_disk blk = if blk == 0 then superblock 2048 else clear_header

abbrev test_dev : ℕ → Device
test_dev n = record { blocks = test_disk; readable = λ blk. true; outcomes = replicate n true }

abbrev test_state : ℕ → OfsState
test_state n = record {
  dev = test_dev n;
  total_blocks = 2048;
  pending = (1, 7 ∷ []) ∷ (70, 8 ∷ []) ∷ [];
  cache = new_cache;
}

test-IsOpen : (n : ℕ) → IsOpen (test_state n)
test-IsOpen n = record {
  sorted = omega arith;
  targets = (
    (omega arith, omega arith, inl (omega arith)),
    ((omega arith, omega arith, inr (omega arith)), tt),
  );
  readable = λ blk. refl;
}

test_formatted : is_formatted (superblock 2048) ≡ true
unfolding is_formatted superblock set_u32 u32_le write_at slice to_le_bytes from_le_bytes crc32
test_formatted = refl

-- The machine goes down during the commit, and twice more during the replay.
new_state-commit_txn_example :
    (s' : OfsState) × (new_state
        (restart 33 (restarts (1 ∷ 0 ∷ []) (commit_txn (test_state 5)).1.dev))
      ≡ some (some s'))
    × (s'.total_blocks ≡ u32_le (superblock 2048) 8)
    × (((blk : ℕ) → IsData blk → read_blk s' blk ≡ some (test_disk blk))
        ⊎ ((blk : ℕ) → IsData blk → read_blk s' blk ≡ read_blk (test_state 5) blk))
new_state-commit_txn_example =
    new_state-commit_txn (test_state 5) (1 ∷ 0 ∷ []) (test-IsOpen 5) clear_header-idle
      test_formatted

test_commits : (commit_txn (test_state 9)).0 ≡ true
unfolding commit_txn commit_entries write_slots apply_entries write_block
test_commits = refl

commit_txn-durable_example :
    SameData
      (recovered (1 ∷ 0 ∷ []) (commit_txn (test_state 9)).1.dev)
      (shown (test_state 9).pending test_disk)
commit_txn-durable_example =
    commit_txn-durable (test_state 9) (1 ∷ 0 ∷ []) (test-IsOpen 9) clear_header-idle test_commits

read_blk-commit_txn_example : read_blk (commit_txn (test_state 6)).1 70 ≡ read_blk (test_state 6) 70
read_blk-commit_txn_example =
    read_blk-commit_txn (test_state 6) 70 (test-IsOpen 6) clear_header-idle (inr (omega arith))

abbrev full_state : OfsState
full_state = record (test_state 9) { pending = replicate 33 (70, 8 ∷ []) }

run_ops-too_many_example :
    ((run_ops (write 71 [] ∷ commit ∷ write 72 [] ∷ []) full_state).dev ≡ test_dev 9)
    × ((commit_txn (run_ops (write 71 [] ∷ commit ∷ write 72 [] ∷ []) full_state)).0 ≡ false)
run_ops-too_many_example =
    run_ops-too_many (write 71 [] ∷ commit ∷ write 72 [] ∷ []) full_state (omega arith)

-- A disk of zeros.
abbrev zero_state : OfsState
zero_state = record {
  dev = record { blocks = λ blk. zeros; readable = λ blk. true; outcomes = [] };
  total_blocks = 100;
  pending = [];
  cache = new_cache;
}

zero_read : (blk : ℕ) → read_blk zero_state blk ≡ some zeros
unfolding read_blk pending_get
zero_read blk = refl

replicate-AllBelow : (n : ℕ) → AllBelow 256 (replicate n 0)
replicate-AllBelow zero = tt
replicate-AllBelow (suc n) = (omega arith, replicate-AllBelow n)

zeros-IsBlock : IsBlock zeros
zeros-IsBlock = record { len = length-replicate {A = ℕ} 4096 0; bytes = replicate-AllBelow 4096 }

bitmap_alloc-IsAllocation_example :
    IsAllocation zero_state 1 zeros 68 100 (bitmap_alloc 1 68 100 zero_state)
bitmap_alloc-IsAllocation_example =
    bitmap_alloc-IsAllocation zero_state 1 zeros 68 100 (zero_read 1) zeros-IsBlock (omega arith)
      (omega arith)

abbrev allocated_state : OfsState
allocated_state = write_blk 1 (set_bit zeros 68) zero_state

test_alloc : alloc_block zero_state ≡ some (some 68, allocated_state)
unfolding alloc_block bitmap_alloc scan bit_at read_blk pending_get
test_alloc = refl

free_block-alloc_block_example :
    (s₂ : OfsState) × (free_block 68 allocated_state ≡ some (tt, s₂))
    × (buf₂ : Block) × (read_blk s₂ block_bitmap_blk ≡ some buf₂)
    × ((j : ℕ) → bit_at buf₂ j ≡ bit_at zeros j)
    × ((blk : ℕ) → blk ≢ block_bitmap_blk → read_blk s₂ blk ≡ read_blk zero_state blk)
free_block-alloc_block_example =
    free_block-alloc_block zero_state allocated_state zeros 68 (zero_read 1) zeros-IsBlock
      (omega arith) test_alloc

abbrev test_inode : RawInode
test_inode = record (empty_inode 1 1) { size = 5; used_blocks = 1; direct = 100 ∷ replicate 11 0 }

test_IsInode : IsInode test_inode
test_IsInode = record {
  itype = omega arith;
  pad = refl;
  size = omega arith;
  nlink = omega arith;
  used_blocks = omega arith;
  direct = (refl, omega arith);
  indirect = omega arith;
  double_indirect = omega arith;
  reserved = (refl, omega arith);
}

raw_inode_read-write_example :
    raw_inode_read (raw_inode_write (replicate 128 9) test_inode) ≡ test_inode
raw_inode_read-write_example = raw_inode_read-write test_inode test_IsInode (replicate 128 9) refl

abbrev written_state : OfsState
written_state =
    write_blk 3 (write_at zeros 640 (raw_inode_write (slice 640 128 zeros) test_inode))
      (record zero_state { cache = cache_invalidate zero_state.cache 5 })

test_write : write_inode 5 test_inode zero_state ≡ some (true, written_state)
unfolding write_inode read_blk pending_get
test_write = refl

zero_HasBlocks : HasBlocks zero_state
zero_HasBlocks blk buf e =
    let same : zeros ≡ buf = cc (zero_read blk) in
    ap length (sym same) ∙ length-replicate {A = ℕ} 4096 0

empty_honest : (table : ℕ → Option RawInode) (n : ℕ) → AllHonest table (replicate n (0, none))
empty_honest table zero = tt
empty_honest table (suc n) = (tt, empty_honest table n)

empty-IsSingle : (n : ℕ) → IsSingle 5 (replicate n (0, none))
empty-IsSingle zero = tt
empty-IsSingle (suc n) = inr (omega arith, empty-IsSingle n)

read_inode-write_inode_example :
    (s₂ : OfsState) × (read_inode 5 written_state ≡ some (some test_inode, s₂)) × IsCoherent s₂
read_inode-write_inode_example =
    read_inode-write_inode zero_state written_state 5 test_inode 5 (omega arith) (omega arith)
      zero_HasBlocks test_IsInode (empty_honest (inode_at zero_state) 32) (empty-IsSingle 32)
      test_write

-- The root inode is in the second slot, behind an empty slot that has its number.
abbrev root_cache : InodeCache
root_cache = record {
  entries = (0, none) ∷ (0, some (empty_inode 2 1)) ∷ replicate 30 (0, none);
  generation = 32;
}

cache_get-stale_example :
    cache_get (cache_insert (cache_invalidate root_cache 0) 7 test_inode) 0 ≡ some (empty_inode 2 1)
unfolding find_cached
cache_get-stale_example =
    cache_get-stale root_cache 0 7 none test_inode (empty_inode 2 1) []
      ((0, some (empty_inode 2 1)) ∷ replicate 30 (0, none)) refl tt refl refl (omega arith)

-- A file of five bytes whose inode is cached.
abbrev file_state : OfsState
file_state = record zero_state {
  pending = (100, replicate 4096 65) ∷ [];
  cache = record { entries = (5, some test_inode) ∷ []; generation = 1 };
}

test_found : read_inode 5 file_state ≡ some (some test_inode, file_state)
unfolding read_inode find_cached
test_found = refl

test_backed : IsBacked file_state test_inode 1 5
unfolding read_blk pending_get
test_backed = record {
  small = omega arith;
  block = λ pos lo hi.
      let e : pos / 4096 ≡ 0 = omega arith in
      (100, replicate 4096 65, rw e refl, refl, length-replicate {A = ℕ} 4096 65);
}

file_read-range_example :
    file_read 5 1 10 file_state
    ≡ some (ok (range (file_byte file_state test_inode) 1 4), file_state)
file_read-range_example =
    file_read-range file_state file_state 5 1 10 test_inode test_found refl test_backed

get_file_block-lookup_example :
    get_file_block test_inode 5 0 false file_state ≡ some ((some 100, test_inode), file_state)
get_file_block-lookup_example = get_file_block-lookup test_inode 5 file_state 0

dirent_write_lem_example :
    (dirent_read (dirent_write zeros 64 7 (b'a' ∷ b'b' ∷ []) 2) 64 ≡ (7, 2, 2))
    × (dirent_name (dirent_write zeros 64 7 (b'a' ∷ b'b' ∷ []) 2) 64 2 ≡ some (b'a' ∷ b'b' ∷ []))
    × ((o : ℕ)
        → (o + 64 ≤ 64) ⊎ (128 ≤ o)
        → dirent_read (dirent_write zeros 64 7 (b'a' ∷ b'b' ∷ []) 2) o ≡ dirent_read zeros o)
dirent_write_lem_example =
    dirent_write_lem zeros 64 7 (b'a' ∷ b'b' ∷ []) 2 (length-replicate {A = ℕ} 4096 0) (omega arith)
      (omega arith) (omega arith)

-- A directory with a block that cannot be read.
abbrev dir_inode : RawInode
dir_inode = record test_inode { itype = 2; size = 128 }

abbrev bad_state : OfsState
bad_state = record zero_state {
  dev = record { blocks = λ blk. zeros; readable = λ blk. not (blk == 100); outcomes = [] };
  cache = record { entries = (5, some dir_inode) ∷ []; generation = 1 };
}

test_dir : read_inode 5 bad_state ≡ some (some dir_inode, bad_state)
unfolding read_inode find_cached
test_dir = refl

test_unreadable : read_blk bad_state 100 ≡ none
unfolding read_blk pending_get
test_unreadable = refl

dir_add_entry-running_example :
    dir_add_entry 1000 5 (b'a' ∷ []) 7 1 bad_state ≡ some (none, bad_state)
dir_add_entry-running_example =
    dir_add_entry-running 1000 5 7 1 100 (b'a' ∷ []) dir_inode bad_state bad_state test_dir refl
      (omega arith) (omega arith) refl test_unreadable
