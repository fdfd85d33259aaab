-- ===== src/Ofs/Journal.antt =====
-- The journal: `crc32`, `journal_replay`, and the phases of `commit_txn`.
pub mod Header
pub mod Recovery
pub mod Ends
pub mod Commit
pub mod Replay
pub mod Readable
pub mod Atomic
use Prim.Native.Nat.{bit_xor}
use openv.Common.{
  ℕ, zero, suc, ◌+◌, ◌-◌, ◌*◌, ◌/◌, ◌%◌, ◌^◌, bit_and, Bool, true, false, ◌||◌, not, Option, none,
  some, List, [], ◌∷◌, ◌++◌, length, replicate, ◌==◌, ltb, if◌then◌else◌,
}
use openv.Common.Words.{to_le_bytes}
use openv.Ofs.Buffer.{u32_le, set_u32}
use openv.Ofs.Device.{Block, Disk, Device, put_block, read_block, write_block}

abbrev pub block_size : ℕ
block_size = 4096

abbrev pub journal_hdr_blk : ℕ
journal_hdr_blk = 35

abbrev pub journal_data_blk : ℕ
journal_data_blk = 36

abbrev pub journal_slots : ℕ
journal_slots = 32

abbrev pub journal_magic : ℕ
journal_magic = 0x4F4A_4C47

abbrev pub zeros : Block
zeros = replicate block_size 0

-- One bit, and one byte, of the checksum.
abbrev pub crc_bit : ℕ → ℕ
crc_bit crc = if bit_and crc 1 == 0 then crc / 2 else bit_xor (crc / 2) 0xEDB8_8320

abbrev pub crc_bits : ℕ → ℕ → ℕ
crc_bits zero crc = crc
crc_bits (suc n) crc = crc_bits n (crc_bit crc)

abbrev pub crc_bytes : List ℕ → ℕ → ℕ
crc_bytes [] crc = crc
crc_bytes (b ∷ bs) crc = crc_bytes bs (crc_bits 8 (bit_xor crc b))

unfoldable pub crc32 : List ℕ → ℕ
crc32 buf = (2 ^ 32 - 1) - crc_bytes buf (2 ^ 32 - 1)

-- The checksum of a header's first three words.
abbrev pub header_crc : ℕ → ℕ → ℕ → ℕ
header_crc magic n committed =
    crc32 (to_le_bytes 4 magic ++ (to_le_bytes 4 n ++ to_le_bytes 4 committed))

abbrev pub Entry : Type 0
Entry = ℕ × Block

abbrev pub put_targets : ℕ → List Entry → Block → Block
put_targets i [] hdr = hdr
put_targets i (e ∷ es) hdr = put_targets (suc i) es (set_u32 hdr (16 + i * 4) e.0)

-- The header before the commit marker.
unfoldable pub prepared_header : List Entry → Block
prepared_header entries =
    let n : ℕ = length entries in
    put_targets 0 entries (
      set_u32 (set_u32 (set_u32 (set_u32 zeros 0 journal_magic) 4 n) 8 0) 12
        (header_crc journal_magic n 0))

unfoldable pub committed_header : List Entry → Block
committed_header entries =
    set_u32 (set_u32 (prepared_header entries) 8 1) 12 (header_crc journal_magic (length entries) 1)

unfoldable pub clear_header : Block
clear_header = set_u32 zeros 0 journal_magic

-- `if !write { return false; }`
abbrev pub proceed : Bool × Device → (Device → Bool × Device) → Bool × Device
proceed (true, d) k = k d
proceed (false, d) k = (false, d)

-- Phase 1.
unfoldable pub write_slots : ℕ → List Entry → Device → Bool × Device
write_slots i [] d = (true, d)
write_slots i (e ∷ es) d =
    proceed (write_block (journal_data_blk + i) e.1 d) (write_slots (suc i) es)

-- Phase 4.
unfoldable pub apply_entries : List Entry → Device → Bool × Device
apply_entries [] d = (true, d)
apply_entries (e ∷ es) d = proceed (write_block e.0 e.1 d) (apply_entries es)

-- Phase 5, whose outcome is not looked at.
abbrev pub clear_journal : Device → Device
clear_journal d = (write_block journal_hdr_blk clear_header d).1

-- The five phases, for the entries of the pending map.
unfoldable pub commit_entries : List Entry → Device → Bool × Device
commit_entries entries d = proceed (write_slots 0 entries d) (λ d₁.
    proceed (write_block journal_hdr_blk (prepared_header entries) d₁) (λ d₂.
      proceed (write_block journal_hdr_blk (committed_header entries) d₂)
        (λ d₃. proceed (apply_entries entries d₃) (λ d₄. (true, clear_journal d₄)))))

-- One round of the loop of `journal_replay`.
unfoldable pub replay_slot : Block → ℕ → Device → Device
replay_slot hdr i d =
    let target : ℕ = u32_le hdr (16 + i * 4) in
    if target == 0 then d else elim (read_block d (journal_data_blk + i)) [
      | none ↦ d
      | some slot ↦ (write_block target slot d).1
    ]

-- The loop: the rounds left, and the round's number.
unfoldable pub replay_slots : Block → ℕ → ℕ → Device → Device
replay_slots hdr zero i d = d
replay_slots hdr (suc n) i d = replay_slots hdr n (suc i) (replay_slot hdr i d)

-- The tests on the header.
unfoldable pub is_committed : Block → Bool
is_committed hdr =
    if not (u32_le hdr 0 == journal_magic)
      || (not (u32_le hdr 8 == 1) || (u32_le hdr 4 == 0 || ltb journal_slots (u32_le hdr 4)))
    then false
    else header_crc (u32_le hdr 0) (u32_le hdr 4) 1 == u32_le hdr 12

unfoldable pub journal_replay : Device → Device
journal_replay d = elim (read_block d journal_hdr_blk) [
  | none ↦ d
  | some hdr ↦ if is_committed hdr then clear_journal (replay_slots hdr (u32_le hdr 4) 0 d) else d
]
