-- ===== src/Ofs/Dirent/RoundTrip.antt =====
-- A directory entry that is written is read back, and the other entries of its block are unchanged.
use openv.Common.{
  ℕ, ◌+◌, ◌%◌, ◌^◌, ◌≤◌, ◌<◌, ◌≡◌, ◌⊎◌, inl, inr, refl, sym, ap, ◌∙◌, true, some, List, [], ◌∷◌,
  length, leb, drop, get_or-drop, get_or-take, arith,
}
use openv.Common.Bytes.{
  slice, write_at, byte_at, length-write_at, slice-write_at_same, slice-write_at_before,
  slice-write_at_after,
}
use openv.Common.Words.{to_le_bytes, from_le_bytes, length-to_le_bytes}
use openv.Ofs.Device.{Block}
use openv.Ofs.Buffer.{
  u32_le, set_u32, length-set_u32, u32_le-set_u32_same, u32_le-set_u32_before, u32_le-set_u32_after,
}
use openv.Ofs.Dirent.{dirent_read, dirent_write, dirent_name}

byte_at-slice : (off : ℕ) (buf : List ℕ) → byte_at (slice off 1 buf) 0 ≡ byte_at buf off
unfolding slice
byte_at-slice off buf =
    get_or-take 0 1 (drop off buf) 0 (omega arith)
    ∙ get_or-drop 0 off buf 0
    ∙ ap (λ (k : ℕ). byte_at buf k) (omega arith)

module _ (buf : List ℕ) (off : ℕ) (bs : List ℕ) (fits : off + length bs ≤ length buf) where
  byte_at-write_at_before : (o : ℕ) → o < off → byte_at (write_at buf off bs) o ≡ byte_at buf o
  byte_at-write_at_before o h =
      sym (byte_at-slice o (write_at buf off bs))
      ∙ ap (λ l. byte_at l 0) (slice-write_at_before buf off bs fits o 1 (omega arith))
      ∙ byte_at-slice o buf

  byte_at-write_at_after :
      (o : ℕ) → off + length bs ≤ o → byte_at (write_at buf off bs) o ≡ byte_at buf o
  byte_at-write_at_after o h =
      sym (byte_at-slice o (write_at buf off bs))
      ∙ ap (λ l. byte_at l 0) (slice-write_at_after buf off bs fits o 1 h)
      ∙ byte_at-slice o buf

byte_at-write_byte :
    (buf : List ℕ) (off v : ℕ) → off + 1 ≤ length buf → byte_at (write_at buf off (v ∷ [])) off ≡ v
byte_at-write_byte buf off v fits =
    sym (byte_at-slice off (write_at buf off (v ∷ [])))
    ∙ ap (λ l. byte_at l 0) (slice-write_at_same buf off (v ∷ []) fits 1 refl)

byte_at-set_u32_before :
    (buf : List ℕ) (off v : ℕ)
    → off + 4 ≤ length buf
    → (o : ℕ) → o < off
    → byte_at (set_u32 buf off v) o ≡ byte_at buf o
unfolding set_u32
byte_at-set_u32_before buf off v fits o h =
    byte_at-write_at_before buf off (to_le_bytes 4 v) (omega (arith, length-to_le_bytes 4 v)) o h

byte_at-set_u32_after :
    (buf : List ℕ) (off v : ℕ)
    → off + 4 ≤ length buf
    → (o : ℕ) → off + 4 ≤ o
    → byte_at (set_u32 buf off v) o ≡ byte_at buf o
unfolding set_u32
byte_at-set_u32_after buf off v fits o h =
    byte_at-write_at_after buf off (to_le_bytes 4 v) (omega (arith, length-to_le_bytes 4 v)) o
      (omega (arith, length-to_le_bytes 4 v))

u32_le-write_at_before :
    (buf : List ℕ) (off : ℕ) (bs : List ℕ) (o : ℕ)
    → off + length bs ≤ length buf
    → o + 4 ≤ off
    → u32_le (write_at buf off bs) o ≡ u32_le buf o
unfolding u32_le
u32_le-write_at_before buf off bs o fits h =
    ap from_le_bytes (slice-write_at_before buf off bs fits o 4 h)

u32_le-write_at_after :
    (buf : List ℕ) (off : ℕ) (bs : List ℕ) (o : ℕ)
    → off + length bs ≤ length buf
    → off + length bs ≤ o
    → u32_le (write_at buf off bs) o ≡ u32_le buf o
unfolding u32_le
u32_le-write_at_after buf off bs o fits h =
    ap from_le_bytes (slice-write_at_after buf off bs fits o 4 h)

module _ (buf : Block) (off ino : ℕ) (name : List ℕ) (etype : ℕ) (len : length buf ≡ 4096)
    (fits : off + 64 ≤ 4096) (short : length name ≤ 55) where
  abbrev b₁ : Block
  b₁ = set_u32 buf off ino

  abbrev b₂ : Block
  b₂ = write_at b₁ (off + 4) (length name % 256 ∷ [])

  abbrev b₃ : Block
  b₃ = write_at b₂ (off + 5) (etype ∷ [])

  len₁ : length b₁ ≡ 4096
  len₁ = length-set_u32 buf off ino (omega arith) ∙ len

  len₂ : length b₂ ≡ 4096
  len₂ = length-write_at b₁ (off + 4) (length name % 256 ∷ []) (omega (arith, len₁)) ∙ len₁

  len₃ : length b₃ ≡ 4096
  len₃ = length-write_at b₂ (off + 5) (etype ∷ []) (omega (arith, len₂)) ∙ len₂

  fits₂ : off + 4 + 1 ≤ length b₁
  fits₂ = omega (arith, len₁)

  fits₃ : off + 5 + 1 ≤ length b₂
  fits₃ = omega (arith, len₂)

  fits₄ : off + 8 + length name ≤ length b₃
  fits₄ = omega (arith, len₃)

  pub dirent_read-write :
      ino < 2 ^ 32
      → dirent_read (dirent_write buf off ino name etype) off ≡ (ino, length name, etype)
  unfolding dirent_read dirent_write
  dirent_read-write small = λ i. (p₁ i, p₂ i, p₃ i)
    where
      p₁ : u32_le (write_at b₃ (off + 8) name) off ≡ ino
      p₁ =
          u32_le-write_at_before b₃ (off + 8) name off fits₄ (omega arith)
          ∙ u32_le-write_at_before b₂ (off + 5) (etype ∷ []) off fits₃ (omega arith)
          ∙ u32_le-write_at_before b₁ (off + 4) (length name % 256 ∷ []) off fits₂ (omega arith)
          ∙ u32_le-set_u32_same buf off ino (omega arith) small

      p₂ : byte_at (write_at b₃ (off + 8) name) (off + 4) ≡ length name
      p₂ =
          byte_at-write_at_before b₃ (off + 8) name fits₄ (off + 4) (omega arith)
          ∙ byte_at-write_at_before b₂ (off + 5) (etype ∷ []) fits₃ (off + 4) (omega arith)
          ∙ byte_at-write_byte b₁ (off + 4) (length name % 256) fits₂
          ∙ omega arith

      p₃ : byte_at (write_at b₃ (off + 8) name) (off + 5) ≡ etype
      p₃ =
          byte_at-write_at_before b₃ (off + 8) name fits₄ (off + 5) (omega arith)
          ∙ byte_at-write_byte b₂ (off + 5) etype fits₃

  pub dirent_name-write :
      dirent_name (dirent_write buf off ino name etype) off (length name) ≡ some name
  unfolding dirent_name dirent_write
  dirent_name-write =
      let inside : leb (off + 8 + length name) 4096 ≡ true = ground arith in
      rw inside (ap some (slice-write_at_same b₃ (off + 8) name fits₄ (length name) refl))

  -- An entry that lies before, or behind.
  pub dirent_read-write_other :
      (o : ℕ)
      → (o + 64 ≤ off) ⊎ (off + 64 ≤ o)
      → dirent_read (dirent_write buf off ino name etype) o ≡ dirent_read buf o
  unfolding dirent_read dirent_write
  dirent_read-write_other o (inl before) =
      λ i. (word i, byte 4 (omega arith) i, byte 5 (omega arith) i)
    where
      word : u32_le (write_at b₃ (off + 8) name) o ≡ u32_le buf o
      word =
          u32_le-write_at_before b₃ (off + 8) name o fits₄ (omega arith)
          ∙ u32_le-write_at_before b₂ (off + 5) (etype ∷ []) o fits₃ (omega arith)
          ∙ u32_le-write_at_before b₁ (off + 4) (length name % 256 ∷ []) o fits₂ (omega arith)
          ∙ u32_le-set_u32_before buf off ino (omega arith) o (omega arith)

      byte : (k : ℕ) → k < 8 → byte_at (write_at b₃ (off + 8) name) (o + k) ≡ byte_at buf (o + k)
      byte k small =
          byte_at-write_at_before b₃ (off + 8) name fits₄ (o + k) (omega arith)
          ∙ byte_at-write_at_before b₂ (off + 5) (etype ∷ []) fits₃ (o + k) (omega arith)
          ∙ byte_at-write_at_before b₁ (off + 4) (length name % 256 ∷ []) fits₂ (o + k)
              (omega arith)
          ∙ byte_at-set_u32_before buf off ino (omega arith) (o + k) (omega arith)
  dirent_read-write_other o (inr behind) = λ i. (word i, byte 4 i, byte 5 i)
    where
      word : u32_le (write_at b₃ (off + 8) name) o ≡ u32_le buf o
      word =
          u32_le-write_at_after b₃ (off + 8) name o fits₄ (omega arith)
          ∙ u32_le-write_at_after b₂ (off + 5) (etype ∷ []) o fits₃ (omega arith)
          ∙ u32_le-write_at_after b₁ (off + 4) (length name % 256 ∷ []) o fits₂ (omega arith)
          ∙ u32_le-set_u32_after buf off ino (omega arith) o (omega arith)

      byte : (k : ℕ) → byte_at (write_at b₃ (off + 8) name) (o + k) ≡ byte_at buf (o + k)
      byte k =
          byte_at-write_at_after b₃ (off + 8) name fits₄ (o + k) (omega arith)
          ∙ byte_at-write_at_after b₂ (off + 5) (etype ∷ []) fits₃ (o + k) (omega arith)
          ∙ byte_at-write_at_after b₁ (off + 4) (length name % 256 ∷ []) fits₂ (o + k) (omega arith)
          ∙ byte_at-set_u32_after buf off ino (omega arith) (o + k) (omega arith)

  -- An entry that `dirent_write` puts into a block of 4096 bytes, with a number that fits 32 bits
  -- and a name of at most 55 bytes, is read back by `dirent_read` and `dirent_name`. The number,
  -- the length and the type of every entry that does not overlap it are as before.
  pub dirent_write_lem :
      ino < 2 ^ 32
      → (dirent_read (dirent_write buf off ino name etype) off ≡ (ino, length name, etype))
        × (dirent_name (dirent_write buf off ino name etype) off (length name) ≡ some name)
        × ((o : ℕ)
            → (o + 64 ≤ off) ⊎ (off + 64 ≤ o)
            → dirent_read (dirent_write buf off ino name etype) o ≡ dirent_read buf o)
  dirent_write_lem small = (dirent_read-write small, dirent_name-write, dirent_read-write_other)
