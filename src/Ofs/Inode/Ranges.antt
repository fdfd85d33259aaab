-- ===== src/Ofs/Inode/Ranges.antt =====
-- Ranges of bytes and lists of words that are written into a buffer.
use openv.Common.{
  ℕ, ◌+◌, ◌-◌, ◌*◌, ◌≤◌, ◌<◌, ◌^◌, ◌≡◌, refl, sym, ap, ap₂, ◌∙◌, List, [], ◌∷◌, ◌++◌, length, take,
  drop, length-append, take-append, drop-append_ge, drop_eq, drop-take, drop-drop, take-take, arith,
}
use openv.Common.Bytes.{
  slice, write_at, length-write_at, slice-write_at_same, slice-write_at_before,
}
use openv.Common.Words.{to_le_bytes, from_le_bytes, length-to_le_bytes, from_le_bytes-to_le_bytes}
use openv.Ofs.Buffer.{u32_le}
use openv.Ofs.Inode.{get_words, word_bytes, write_all}

-- Ranges that fit a buffer of `n` bytes and lie from `o` on.
abbrev pub AllWithin : ℕ → ℕ → List (ℕ × List ℕ) → Type 0
AllWithin o n [] = Unit {0}
AllWithin o n (w ∷ ws) = (o ≤ w.0) × (w.0 + length w.1 ≤ n) × AllWithin o n ws

pub length-write_all :
    (o : ℕ) (ws : List (ℕ × List ℕ)) (buf : List ℕ)
    → AllWithin o (length buf) ws
    → length (write_all ws buf) ≡ length buf
length-write_all o [] buf h = refl
length-write_all o (w ∷ ws) buf h =
    let e = length-write_at buf w.0 w.1 (omega arith) in
    length-write_all o ws (write_at buf w.0 w.1) (rw e h.2) ∙ e

-- Later ranges do not touch what lies before them.
pub slice-write_all :
    (o n : ℕ) (ws : List (ℕ × List ℕ)) (buf : List ℕ)
    → AllWithin (o + n) (length buf) ws
    → slice o n (write_all ws buf) ≡ slice o n buf
slice-write_all o n [] buf h = refl
slice-write_all o n (w ∷ ws) buf h =
    slice-write_all o n ws (write_at buf w.0 w.1)
      (rw (length-write_at buf w.0 w.1 (omega arith)) h.2)
    ∙ slice-write_at_before buf w.0 w.1 (omega arith) o n h.0

-- One range of several, read back.
pub slice-write_all_same :
    (pre : List (ℕ × List ℕ)) (o : ℕ) (bs : List ℕ) (post : List (ℕ × List ℕ)) (buf : List ℕ)
    → AllWithin 0 (length buf) pre
    → o + length bs ≤ length buf
    → AllWithin (o + length bs) (length buf) post
    → slice o (length bs) (write_all (pre ++ ((o, bs) ∷ post)) buf) ≡ bs
slice-write_all_same [] o bs post buf hpre fits hpost =
    slice-write_all o (length bs) post (write_at buf o bs)
      (rw (length-write_at buf o bs fits) hpost)
    ∙ slice-write_at_same buf o bs fits (length bs) refl
slice-write_all_same (w ∷ pre) o bs post buf hpre fits hpost =
    let e = length-write_at buf w.0 w.1 (omega arith) in
    slice-write_all_same pre o bs post (write_at buf w.0 w.1) (rw e hpre.2) (rw e fits) (rw e hpost)

-- Every number of a list fits a width.
abbrev pub AllBelow : ℕ → List ℕ → Type 0
AllBelow m [] = Unit {0}
AllBelow m (x ∷ xs) = (x < m) × AllBelow m xs

pub length-word_bytes : (ws : List ℕ) → length (word_bytes ws) ≡ 4 * length ws
length-word_bytes [] = refl
length-word_bytes (w ∷ ws) = omega (
  arith,
  length-append (to_le_bytes 4 w) (word_bytes ws),
  length-to_le_bytes 4 w,
  length-word_bytes ws,
)

pub slice_head :
    (o m n : ℕ) (xs ys buf : List ℕ)
    → m ≡ length xs
    → slice o (m + n) buf ≡ xs ++ ys
    → slice o m buf ≡ xs
unfolding slice
slice_head o m n xs ys buf len e =
    sym (take-take m (m + n) (drop o buf) (omega arith)) ∙ ap (take m) e ∙ take-append xs ys m len

pub slice_tail :
    (o m n : ℕ) (xs ys buf : List ℕ)
    → m ≡ length xs
    → slice o (m + n) buf ≡ xs ++ ys
    → slice (o + m) n buf ≡ ys
unfolding slice
slice_tail o m n xs ys buf len e =
    ap (take n) (sym (drop-drop m o buf))
    ∙ ap (λ (k : ℕ). take k (drop m (drop o buf))) (omega arith)
    ∙ sym (drop-take m (m + n) (drop o buf) (omega arith))
    ∙ ap (drop m) e
    ∙ drop-append_ge xs ys m (omega arith)
    ∙ drop_eq (m - length xs) 0 ys (omega arith)

pub get_words-word_bytes :
    (ws : List ℕ) (off : ℕ) (buf : List ℕ)
    → AllBelow (2 ^ 32) ws
    → slice off (length (word_bytes ws)) buf ≡ word_bytes ws
    → get_words (length ws) off buf ≡ ws
unfolding u32_le
get_words-word_bytes [] off buf small e = refl
get_words-word_bytes (w ∷ ws) off buf small e =
    let four = sym (length-to_le_bytes 4 w) in
    let e' : slice off (4 + length (word_bytes ws)) buf ≡ to_le_bytes 4 w ++ word_bytes ws =
      ap (λ (k : ℕ). slice off k buf)
        (omega (arith, length-append (to_le_bytes 4 w) (word_bytes ws), four))
      ∙ e in
    ap₂ (λ (x : ℕ) (xs : List ℕ). x ∷ xs)
      (ap from_le_bytes (slice_head off 4 _ (to_le_bytes 4 w) (word_bytes ws) buf four e')
        ∙ from_le_bytes-to_le_bytes 4 w small.0)
      (get_words-word_bytes ws (off + 4) buf small.1
        (slice_tail off 4 _ (to_le_bytes 4 w) (word_bytes ws) buf four e'))
