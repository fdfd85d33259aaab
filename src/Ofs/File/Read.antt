-- ===== src/Ofs/File/Read.antt =====
-- What `file_read` puts into the buffer.
use mathlib.Core.List.{append_assoc, append-nil}
use openv.Common.{
  ℕ, zero, suc, ◌+◌, ◌-◌, ◌/◌, ◌%◌, ◌^◌, ◌≤◌, ◌<◌, ◌≡◌, inl, inr, refl, sym, ap, ap₂, ◌∙◌, true,
  false, Option, none, some, List, [], ◌∷◌, ◌++◌, length, take, drop, min, ◌==◌, leb, Bool-cases,
  length-drop, get_or-drop, arith,
}
use openv.Common.Bytes.{slice, byte_at}
use openv.Ofs.Device.{Block}
use openv.Ofs.State.{OfsState, read_blk}
use openv.Ofs.Inode.{RawInode}
use openv.Ofs.Table.{read_inode}
use openv.Ofs.Blocks.{Mapped, get_file_block}
use openv.Ofs.Blocks.Lookup.{block_at, get_file_block-lookup}
use openv.Ofs.File.{
  FsResult, ok, err, bad_inode, missing_block, block_read, has_content, chunk_at, read_loop,
  read_from, file_read,
}
use openv.Ofs.Run.{Run, pure, ◌>>=◌, when_some, >>=-some}
use openv.Ofs.Run

-- The values of `f` at `n` positions from `pos` on.
abbrev pub range : (ℕ → ℕ) → ℕ → ℕ → List ℕ
range f pos zero = []
range f pos (suc n) = f pos ∷ range f (suc pos) n

range_ext :
    (f g : ℕ → ℕ) (i j n : ℕ)
    → ((k : ℕ) → k < n → f (i + k) ≡ g (j + k))
    → range f i n ≡ range g j n
range_ext f g i j zero h = refl
range_ext f g i j (suc n) h =
    ap₂ (λ (x : ℕ) (xs : List ℕ). x ∷ xs)
      (ap f (omega arith) ∙ h 0 (omega arith) ∙ ap g (omega arith))
      (range_ext f g (suc i) (suc j) n
        (λ k lt. ap f (omega arith) ∙ h (suc k) (omega arith) ∙ ap g (omega arith)))

range-add : (f : ℕ → ℕ) (i m n : ℕ) → range f i (m + n) ≡ range f i m ++ range f (i + m) n
range-add f i zero n = ap₂ (range f) (omega arith) (omega arith)
range-add f i (suc m) n =
    let e : suc m + n ≡ suc (m + n) = omega arith in
    let e' : suc i + m ≡ i + suc m = omega arith in
    ap (range f i) e
    ∙ ap (λ l. f i ∷ l)
        (range-add f (suc i) m n ∙ ap (λ (k : ℕ). range f (suc i) m ++ range f k n) e')

take-range : (n : ℕ) (buf : List ℕ) → n ≤ length buf → take n buf ≡ range (byte_at buf) 0 n
take-range zero buf h = refl
take-range (suc n) [] h = absurd (omega arith)
take-range (suc n) (b ∷ buf) h =
    ap (λ l. b ∷ l)
      (take-range n buf (omega arith)
        ∙ range_ext (byte_at buf) (byte_at (b ∷ buf)) 0 1 n (λ k lt.
          let e : 0 + k ≡ k = omega arith in
          let e' : suc k ≡ 1 + k = omega arith in ap (byte_at buf) e ∙ ap (byte_at (b ∷ buf)) e'))

slice-range :
    (o n : ℕ) (buf : List ℕ) → o + n ≤ length buf → slice o n buf ≡ range (byte_at buf) o n
unfolding slice
slice-range o n buf h =
    take-range n (drop o buf) (omega (arith, length-drop o buf))
    ∙ range_ext (byte_at (drop o buf)) (byte_at buf) 0 o n
        (λ k lt. get_or-drop (0 + k) o buf 0 ∙ ap (byte_at buf) (omega arith))

-- A byte of a file, by its position.
abbrev byte_in : Option Block → ℕ → ℕ
byte_in none k = 0
byte_in (some buf) k = byte_at buf k

abbrev block_of : OfsState → Option ℕ → Option Block
block_of s none = none
block_of s (some blk) = read_blk s blk

abbrev pub file_byte : OfsState → RawInode → ℕ → ℕ
file_byte s inode pos = byte_in (block_of s (block_at s inode (pos / 4096))) (pos % 4096)

-- Every block of a range of a file is there and can be read.
pub record IsBacked (s : OfsState) (inode : RawInode) (first last : ℕ) : Type 0 where
  pub small : last ≤ 2 ^ 32
  pub block :
      (pos : ℕ)
      → first ≤ pos
      → pos < last
      → (blk : ℕ) × (buf : Block) × (block_at s inode (pos / 4096) ≡ some blk)
        × (read_blk s blk ≡ some buf)
        × (length buf ≡ 4096)

module _ (s : OfsState) (inode : RawInode) (ino : ℕ) where
  abbrev on_block : ℕ → ℕ → ℕ → List ℕ → Mapped → Run (FsResult (List ℕ))
  on_block fuel pos left out m = when_some m.0 (pure (err missing_block)) λ blk.
      Run.read_blk blk >>= λ b. when_some b (pure (err block_read)) λ buf.
        let chunk : ℕ = chunk_at pos left in
        read_loop fuel m.1 ino (pos + chunk) (left - chunk) (out ++ slice (pos % 4096) chunk buf)

  chunk-range :
      (pos n blk : ℕ) (buf : Block)
      → block_at s inode (pos / 4096) ≡ some blk
      → read_blk s blk ≡ some buf
      → length buf ≡ 4096
      → pos % 4096 + n ≤ 4096
      → slice (pos % 4096) n buf ≡ range (file_byte s inode) pos n
  chunk-range pos n blk buf e r len h =
      slice-range (pos % 4096) n buf (omega arith)
      ∙ range_ext (byte_at buf) (file_byte s inode) (pos % 4096) pos n (λ k lt.
        let same : pos / 4096 ≡ (pos + k) / 4096 = omega arith in
        let at_k : pos % 4096 + k ≡ (pos + k) % 4096 = omega arith in
        ap (byte_at buf) at_k
        ∙ sym (
            ap (λ o. byte_in (block_of s o) ((pos + k) % 4096))
              (ap (block_at s inode) (sym same) ∙ e)
            ∙ ap (λ o. byte_in o ((pos + k) % 4096)) r))

  rest :
      {pos left : ℕ} (chunk : ℕ)
      → chunk ≤ left
      → IsBacked s inode pos (pos + left)
      → IsBacked s inode (pos + chunk) (pos + chunk + (left - chunk))
  rest chunk h b = record {
    small = omega (arith, b.small);
    block = λ p lo hi. b.block p (omega arith) (omega arith);
  }

  -- The bytes of a round, and those of the rounds after it.
  joined :
      (pos left chunk : ℕ) (out bytes : List ℕ)
      → chunk ≤ left
      → bytes ≡ range (file_byte s inode) pos chunk
      → (out ++ bytes) ++ range (file_byte s inode) (pos + chunk) (left - chunk)
        ≡ out ++ range (file_byte s inode) pos left
  joined pos left chunk out bytes h e =
      let f = file_byte s inode in
      let sum : chunk + (left - chunk) ≡ left = omega arith in
      append_assoc out bytes (range f (pos + chunk) (left - chunk))
      ∙ ap (λ l. out ++ l)
          (ap (λ l. l ++ range f (pos + chunk) (left - chunk)) e
            ∙ sym (range-add f pos chunk (left - chunk))
            ∙ ap (range f pos) sum)

  read_loop-range :
      (fuel pos left : ℕ) (out : List ℕ)
      → left ≤ fuel
      → IsBacked s inode pos (pos + left)
      → read_loop fuel inode ino pos left out s
        ≡ some (ok (out ++ range (file_byte s inode) pos left), s)
  unfolding read_loop
  read_loop-range zero pos left out enough h =
      let e : left ≡ 0 = omega arith in
      rw e (ap (λ (l : List ℕ). some (ok l, s)) (sym (append-nil out)))
  read_loop-range (suc fuel) pos left out enough h = elim (Bool-cases (left == 0)) [
    | inl done ↦
        let e : left ≡ 0 = ground arith in
        rw e (ap (λ (l : List ℕ). some (ok l, s)) (sym (append-nil out)))
    | inr more ↦
        let (blk, buf, e, r, len) = h.block pos (omega arith) (ground arith) in
        let chunk : ℕ = chunk_at pos left in
        let idx : pos / 4096 % 2 ^ 32 ≡ pos / 4096 = omega (arith, h.small) in
        rw (more, read_loop, idx)
          (>>=-some (get_file_block inode ino (pos / 4096) false) (on_block fuel pos left out) s
              (get_file_block-lookup inode ino s (pos / 4096))
            ∙ rw (e, r)
                (read_loop-range fuel (pos + chunk) (left - chunk)
                    (out ++ slice (pos % 4096) chunk buf) (ground arith)
                    (rest chunk (ground arith) h)
                  ∙ ap (λ (l : List ℕ). some (ok l, s))
                      (joined pos left chunk out (slice (pos % 4096) chunk buf) (ground arith)
                        (chunk-range pos chunk blk buf e r len (ground arith)))))
  ]

-- When an inode is that of a file or a symbolic link, and the blocks of the range, which ends
-- below 2 to the 32, are mapped, can be read and have 4096 bytes, `file_read` gives the bytes of
-- the file from the offset on, as many as were asked for or as there are up to the size, and
-- changes no state but that `read_inode` does.
pub file_read-range :
    (s s₁ : OfsState) (ino offset len : ℕ) (inode : RawInode)
    → read_inode ino s ≡ some (some inode, s₁)
    → has_content inode ≡ true
    → IsBacked s₁ inode offset (offset + min (inode.size - offset) len)
    → file_read ino offset len s
      ≡ some (ok (range (file_byte s₁ inode) offset (min (inode.size - offset) len)), s₁)
unfolding file_read read_from
file_read-range s s₁ ino offset len inode found kind h =
    >>=-some (read_inode ino) (λ r. when_some r (pure (err bad_inode)) (read_from ino offset len)) s
      found
    ∙ rw (kind, read_from)
        (elim (Bool-cases (leb inode.size offset)) [
          | inl beyond ↦
              let e : min (inode.size - offset) len ≡ 0 = ground arith in rw (beyond, e) refl
          | inr inside ↦ rw inside (
              read_loop-range s₁ inode ino (min (inode.size - offset) len) offset
                (min (inode.size - offset) len) [] (omega arith) h)
        ])
