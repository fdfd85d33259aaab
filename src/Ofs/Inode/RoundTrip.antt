-- ===== src/Ofs/Inode/RoundTrip.antt =====
-- An inode that is written is read back, and the other inodes of its block are unchanged.
use openv.Common.{
  ℕ, ◌≤◌, ◌<◌, ◌^◌, ◌≡◌, refl, sym, ap, ◌∙◌, List, [], ◌∷◌, length, take, drop, arith,
}
use openv.Common.Bytes.{slice, byte_at}
use openv.Common.Words.{to_le_bytes, from_le_bytes, length-to_le_bytes, from_le_bytes-to_le_bytes}
use openv.Ofs.Buffer.{u32_le}
use openv.Ofs.Inode.{RawInode, get_words, word_bytes, raw_inode_read, inode_ranges, raw_inode_write}
use openv.Ofs.Inode.Ranges.{
  length-write_all, slice-write_all_same, AllBelow, length-word_bytes, get_words-word_bytes,
}

-- The fields of an inode, in the ranges of their types.
pub record IsInode (inode : RawInode) : Type 0 where
  pub itype : inode.itype < 256
  pub pad : length inode.pad ≡ 3
  pub size : inode.size < 2 ^ 32
  pub nlink : inode.nlink < 2 ^ 32
  pub used_blocks : inode.used_blocks < 2 ^ 32
  pub direct : (length inode.direct ≡ 12) × AllBelow (2 ^ 32) inode.direct
  pub indirect : inode.indirect < 2 ^ 32
  pub double_indirect : inode.double_indirect < 2 ^ 32
  pub reserved : (length inode.reserved ≡ 14) × AllBelow (2 ^ 32) inode.reserved

byte_at_zero : (buf : List ℕ) → 1 ≤ length buf → byte_at buf 0 ∷ [] ≡ slice 0 1 buf
unfolding slice
byte_at_zero [] h = absurd (omega arith)
byte_at_zero (a ∷ buf) h = refl

byte_at_pad :
    (buf : List ℕ)
    → 4 ≤ length buf
    → byte_at buf 1 ∷ byte_at buf 2 ∷ byte_at buf 3 ∷ [] ≡ slice 1 3 buf
unfolding slice
byte_at_pad [] h = absurd (omega arith)
byte_at_pad (a ∷ []) h = absurd (omega arith)
byte_at_pad (a ∷ b ∷ []) h = absurd (omega arith)
byte_at_pad (a ∷ b ∷ c ∷ []) h = absurd (omega arith)
byte_at_pad (a ∷ b ∷ c ∷ d ∷ buf) h = refl

u32_le-slice :
    (off v : ℕ) (buf : List ℕ)
    → v < 2 ^ 32
    → slice off (length (to_le_bytes 4 v)) buf ≡ to_le_bytes 4 v
    → u32_le buf off ≡ v
unfolding u32_le
u32_le-slice off v buf small e =
    ap (λ (k : ℕ). from_le_bytes (slice off k buf)) (sym (length-to_le_bytes 4 v))
    ∙ ap from_le_bytes e
    ∙ from_le_bytes-to_le_bytes 4 v small

get_words_list :
    (n off : ℕ) (ws buf : List ℕ)
    → length ws ≡ n
    → AllBelow (2 ^ 32) ws
    → slice off (length (word_bytes ws)) buf ≡ word_bytes ws
    → get_words n off buf ≡ ws
get_words_list n off ws buf len small e =
    ap (λ (k : ℕ). get_words k off buf) (sym len) ∙ get_words-word_bytes ws off buf small e

ruleset lengths = (arith, length-to_le_bytes, length-word_bytes)

module _ (inode : RawInode) (h : IsInode inode) (buf : List ℕ) (len : length buf ≡ 128) where
  abbrev IsPart : ℕ → List ℕ → Type 0
  IsPart o bs = slice o (length bs) (raw_inode_write buf inode) ≡ bs

  IsPart-itype : IsPart 0 (inode.itype ∷ [])
  unfolding raw_inode_write
  IsPart-itype =
      slice-write_all_same (take 0 (inode_ranges inode)) 0 (inode.itype ∷ [])
        (drop 1 (inode_ranges inode)) buf (omega lengths) (omega lengths) (omega lengths)

  IsPart-pad : IsPart 1 (inode.pad)
  unfolding raw_inode_write
  IsPart-pad =
      slice-write_all_same (take 1 (inode_ranges inode)) 1 (inode.pad) (drop 2 (inode_ranges inode))
        buf (omega lengths) (omega lengths) (omega lengths)

  IsPart-size : IsPart 4 (to_le_bytes 4 inode.size)
  unfolding raw_inode_write
  IsPart-size =
      slice-write_all_same (take 2 (inode_ranges inode)) 4 (to_le_bytes 4 inode.size)
        (drop 3 (inode_ranges inode)) buf (omega lengths) (omega lengths) (omega lengths)

  IsPart-nlink : IsPart 8 (to_le_bytes 4 inode.nlink)
  unfolding raw_inode_write
  IsPart-nlink =
      slice-write_all_same (take 3 (inode_ranges inode)) 8 (to_le_bytes 4 inode.nlink)
        (drop 4 (inode_ranges inode)) buf (omega lengths) (omega lengths) (omega lengths)

  IsPart-used : IsPart 12 (to_le_bytes 4 inode.used_blocks)
  unfolding raw_inode_write
  IsPart-used =
      slice-write_all_same (take 4 (inode_ranges inode)) 12 (to_le_bytes 4 inode.used_blocks)
        (drop 5 (inode_ranges inode)) buf (omega lengths) (omega lengths) (omega lengths)

  IsPart-direct : IsPart 16 (word_bytes inode.direct)
  unfolding raw_inode_write
  IsPart-direct =
      slice-write_all_same (take 5 (inode_ranges inode)) 16 (word_bytes inode.direct)
        (drop 6 (inode_ranges inode)) buf (omega lengths) (omega lengths) (omega lengths)

  IsPart-indirect : IsPart 64 (to_le_bytes 4 inode.indirect)
  unfolding raw_inode_write
  IsPart-indirect =
      slice-write_all_same (take 6 (inode_ranges inode)) 64 (to_le_bytes 4 inode.indirect)
        (drop 7 (inode_ranges inode)) buf (omega lengths) (omega lengths) (omega lengths)

  IsPart-double : IsPart 68 (to_le_bytes 4 inode.double_indirect)
  unfolding raw_inode_write
  IsPart-double =
      slice-write_all_same (take 7 (inode_ranges inode)) 68 (to_le_bytes 4 inode.double_indirect)
        (drop 8 (inode_ranges inode)) buf (omega lengths) (omega lengths) (omega lengths)

  IsPart-reserved : IsPart 72 (word_bytes inode.reserved)
  unfolding raw_inode_write
  IsPart-reserved =
      slice-write_all_same (take 8 (inode_ranges inode)) 72 (word_bytes inode.reserved)
        (drop 9 (inode_ranges inode)) buf (omega lengths) (omega lengths) (omega lengths)

  pub length-raw_inode_write : length (raw_inode_write buf inode) ≡ 128
  unfolding raw_inode_write
  length-raw_inode_write = length-write_all 0 (inode_ranges inode) buf (omega lengths) ∙ len

  -- What `raw_inode_write` writes of an inode whose fields fit their types into 128 bytes,
  -- `raw_inode_read` reads as that inode.
  pub raw_inode_read-write : raw_inode_read (raw_inode_write buf inode) ≡ inode
  unfolding raw_inode_read
  raw_inode_read-write =
      let b : List ℕ = raw_inode_write buf inode in
      let n = length-raw_inode_write in
      let p₁ : byte_at b 0 ≡ inode.itype =
        ap (λ l. byte_at l 0) (byte_at_zero b (omega arith) ∙ IsPart-itype) in
      let p₂ = byte_at_pad b (omega arith) ∙ ap (λ (k : ℕ). slice 1 k b) (sym h.pad) ∙ IsPart-pad in
      let p₃ = u32_le-slice 4 inode.size b h.size IsPart-size in
      let p₄ = u32_le-slice 8 inode.nlink b h.nlink IsPart-nlink in
      let p₅ = u32_le-slice 12 inode.used_blocks b h.used_blocks IsPart-used in
      let p₆ = get_words_list 12 16 inode.direct b h.direct.0 h.direct.1 IsPart-direct in
      let p₇ = u32_le-slice 64 inode.indirect b h.indirect IsPart-indirect in
      let p₈ = u32_le-slice 68 inode.double_indirect b h.double_indirect IsPart-double in
      let p₉ = get_words_list 14 72 inode.reserved b h.reserved.0 h.reserved.1 IsPart-reserved in
      λ i. record {
        itype = p₁ i;
        pad = p₂ i;
        size = p₃ i;
        nlink = p₄ i;
        used_blocks = p₅ i;
        direct = p₆ i;
        indirect = p₇ i;
        double_indirect = p₈ i;
        reserved = p₉ i;
      }
