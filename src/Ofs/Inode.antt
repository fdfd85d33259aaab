-- ===== src/Ofs/Inode.antt =====
-- `RawInode`, and its bytes in the inode table.
pub mod Ranges
pub mod RoundTrip
use openv.Common.{
  ℕ, zero, suc, ◌+◌, ◌*◌, ◌≤◌, ◌<◌, ◌^◌, ◌≡◌, refl, sym, ap, ◌∙◌, List, [], ◌∷◌, ◌++◌, length,
  replicate, arith,
}
use openv.Common.Bytes.{slice, write_at, byte_at}
use openv.Common.Words.{to_le_bytes}
use openv.Ofs.Buffer.{u32_le}

pub record RawInode : Type 0 where
  pub itype : ℕ
  pub pad : List ℕ
  pub size : ℕ
  pub nlink : ℕ
  pub used_blocks : ℕ
  pub direct : List ℕ
  pub indirect : ℕ
  pub double_indirect : ℕ
  pub reserved : List ℕ

-- `RawInode::default()`, with a type and a number of links.
abbrev pub empty_inode : ℕ → ℕ → RawInode
empty_inode itype nlink = record {
  itype = itype;
  pad = replicate 3 0;
  size = 0;
  nlink = nlink;
  used_blocks = 0;
  direct = replicate 12 0;
  indirect = 0;
  double_indirect = 0;
  reserved = replicate 14 0;
}

-- `n` words from an offset on.
abbrev pub get_words : ℕ → ℕ → List ℕ → List ℕ
get_words zero off buf = []
get_words (suc n) off buf = u32_le buf off ∷ get_words n (off + 4) buf

abbrev pub word_bytes : List ℕ → List ℕ
word_bytes [] = []
word_bytes (w ∷ ws) = to_le_bytes 4 w ++ word_bytes ws

-- `raw_inode_read`
unfoldable pub raw_inode_read : List ℕ → RawInode
raw_inode_read buf = record {
  itype = byte_at buf 0;
  pad = byte_at buf 1 ∷ byte_at buf 2 ∷ byte_at buf 3 ∷ [];
  size = u32_le buf 4;
  nlink = u32_le buf 8;
  used_blocks = u32_le buf 12;
  direct = get_words 12 16 buf;
  indirect = u32_le buf 64;
  double_indirect = u32_le buf 68;
  reserved = get_words 14 72 buf;
}

-- Ranges of a buffer that are written one after the other: their offsets and bytes.
abbrev pub write_all : List (ℕ × List ℕ) → List ℕ → List ℕ
write_all [] buf = buf
write_all (w ∷ ws) buf = write_all ws (write_at buf w.0 w.1)

abbrev pub inode_ranges : RawInode → List (ℕ × List ℕ)
inode_ranges inode =
    (0, inode.itype ∷ [])
    ∷ (1, inode.pad)
    ∷ (4, to_le_bytes 4 inode.size)
    ∷ (8, to_le_bytes 4 inode.nlink)
    ∷ (12, to_le_bytes 4 inode.used_blocks)
    ∷ (16, word_bytes inode.direct)
    ∷ (64, to_le_bytes 4 inode.indirect)
    ∷ (68, to_le_bytes 4 inode.double_indirect)
    ∷ (72, word_bytes inode.reserved)
    ∷ []

-- `raw_inode_write`
unfoldable pub raw_inode_write : List ℕ → RawInode → List ℕ
raw_inode_write buf inode = write_all (inode_ranges inode) buf
