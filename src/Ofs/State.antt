-- ===== src/Ofs/State.antt =====
-- `OfsState`: blocks read and written through the pending transaction, and its commit.
pub mod Pending
pub mod View
pub mod Crash
use openv.Common.{
  ℕ, zero, suc, Bool, true, false, Option, none, some, List, [], ◌∷◌, length, ◌==◌, ltb,
  if◌then◌else◌,
}
use openv.Ofs.Device.{Block, Device, read_block}
use openv.Ofs.Journal.{Entry, journal_slots, commit_entries}
use openv.Ofs.Cache.{InodeCache}

pub record OfsState : Type 0 where
  pub dev : Device
  pub total_blocks : ℕ
  pub pending : List Entry
  pub cache : InodeCache

-- The pending blocks are a `BTreeMap`: sorted by their numbers.
unfoldable pub pending_get : ℕ → List Entry → Option Block
pending_get blk [] = none
pending_get blk (e ∷ es) = if e.0 == blk then some e.1 else pending_get blk es

unfoldable pub pending_insert : ℕ → Block → List Entry → List Entry
pending_insert blk b [] = (blk, b) ∷ []
pending_insert blk b (e ∷ es) =
    if e.0 == blk
    then (blk, b) ∷ es
    else if ltb blk e.0
    then (blk, b) ∷ e ∷ es
    else e ∷ pending_insert blk b es

-- `write_blk`, which always succeeds.
unfoldable pub write_blk : ℕ → Block → OfsState → OfsState
write_blk blk b s = record s { pending = pending_insert blk b s.pending }

-- `read_blk`
unfoldable pub read_blk : OfsState → ℕ → Option Block
read_blk s blk = elim (pending_get blk s.pending) [ some b ↦ some b | none ↦ read_block s.dev blk ]

-- The end of `commit_txn`.
abbrev pub end_txn : OfsState → Bool × Device → Bool × OfsState
end_txn s (true, d) = (true, record s { dev = d; pending = [] })
end_txn s (false, d) = (false, record s { dev = d })

abbrev pub is_empty : List Entry → Bool
is_empty [] = true
is_empty (e ∷ es) = false

-- `commit_txn`, and `fsync`, which calls it.
unfoldable pub commit_txn : OfsState → Bool × OfsState
commit_txn s =
    if is_empty s.pending
    then (true, s)
    else if ltb journal_slots (length s.pending)
    then (false, s)
    else end_txn s (commit_entries s.pending s.dev)
