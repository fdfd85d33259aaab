-- ===== src/Ofs/Device.antt =====
-- The block device as the file system sees it (user/vfs-server/src/blockio.rs).
use openv.Common.{ℕ, Bool, true, false, Option, none, some, List, [], ◌∷◌, ◌==◌, if◌then◌else◌}

-- A block, as its bytes.
abbrev pub Block : Type 0
Block = List ℕ

abbrev pub Disk : Type 0
Disk = ℕ → Block

-- `readable` says which blocks can be read. `outcomes` says of the writes to come which of them
-- succeed; when it is used up, because the machine goes down, all fail.
pub record Device : Type 0 where
  pub blocks : Disk
  pub readable : ℕ → Bool
  pub outcomes : List Bool

abbrev pub put_block : Disk → ℕ → Block → Disk
put_block d blk b j = if j == blk then b else d j

-- `read_block`
abbrev pub read_block : Device → ℕ → Option Block
read_block d blk = if d.readable blk then some (d.blocks blk) else none

-- The end of a write: whether it succeeds.
abbrev pub finish_write : List Bool → ℕ → Block → Device → Bool × Device
finish_write [] blk b d = (false, d)
finish_write (false ∷ os) blk b d = (false, record d { outcomes = os })
finish_write (true ∷ os) blk b d =
    (true, record d { outcomes = os; blocks = put_block d.blocks blk b })

-- `write_block`. A block is written whole or not at all.
unfoldable pub write_block : ℕ → Block → Device → Bool × Device
write_block blk b d = finish_write d.outcomes blk b d
