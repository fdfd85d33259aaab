-- ===== src/Ofs/Buffer.antt =====
-- Numbers of 32 bits in a buffer.
use openv.Common.{ℕ, ◌+◌, ◌^◌, ◌≤◌, ◌<◌, ◌≡◌, sym, ap, ◌∙◌, List, length, arith}
use openv.Common.Bytes.{
  slice, write_at, length-write_at, slice-write_at_same, slice-write_at_before,
  slice-write_at_after,
}
use openv.Common.Words.{to_le_bytes, from_le_bytes, length-to_le_bytes, from_le_bytes-to_le_bytes}

-- `u32_le`
unfoldable pub u32_le : List ℕ → ℕ → ℕ
u32_le buf off = from_le_bytes (slice off 4 buf)

-- `buf[off..off + 4].copy_from_slice(&v.to_le_bytes())`
unfoldable pub set_u32 : List ℕ → ℕ → ℕ → List ℕ
set_u32 buf off v = write_at buf off (to_le_bytes 4 v)

module _ (buf : List ℕ) (off v : ℕ) (fits : off + 4 ≤ length buf) where
  room : off + length (to_le_bytes 4 v) ≤ length buf
  room = omega (arith, length-to_le_bytes 4 v)

  pub length-set_u32 : length (set_u32 buf off v) ≡ length buf
  unfolding set_u32
  length-set_u32 = length-write_at buf off (to_le_bytes 4 v) room

  pub u32_le-set_u32_same : v < 2 ^ 32 → u32_le (set_u32 buf off v) off ≡ v
  unfolding u32_le set_u32
  u32_le-set_u32_same small =
      ap from_le_bytes
        (slice-write_at_same buf off (to_le_bytes 4 v) room 4 (sym (length-to_le_bytes 4 v)))
      ∙ from_le_bytes-to_le_bytes 4 v small

  pub u32_le-set_u32_before : (o : ℕ) → o + 4 ≤ off → u32_le (set_u32 buf off v) o ≡ u32_le buf o
  unfolding u32_le set_u32
  u32_le-set_u32_before o h =
      ap from_le_bytes (slice-write_at_before buf off (to_le_bytes 4 v) room o 4 h)

  pub u32_le-set_u32_after : (o : ℕ) → off + 4 ≤ o → u32_le (set_u32 buf off v) o ≡ u32_le buf o
  unfolding u32_le set_u32
  u32_le-set_u32_after o h = ap from_le_bytes (
      slice-write_at_after buf off (to_le_bytes 4 v) room o 4
        (omega (arith, length-to_le_bytes 4 v)))
