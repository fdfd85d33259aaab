-- ===== src/Common/Bytes.antt =====
-- Byte buffers: sub-slices and `copy_from_slice`.
use Prim.Native.Nat.{ℕ, ◌+◌, ◌-◌, ◌≤◌}
use mathlib.Core.Path.{◌≡◌, refl, sym, ap, ap₂, ◌∙◌}
use mathlib.Core.List.{List, ◌++◌, append_assoc}
use native.Mathlib.Omega.{arith}
use openv.Common.Lists.{
  length, get_or, take, drop, length-append, length-take, length-drop, take-append, take-append_le,
  drop-append_ge, drop-append_le, drop-drop, drop_eq, drop-take, take-take,
}

-- `&buf[off..off + n]`, for a range inside the buffer.
unfoldable pub slice : ℕ → ℕ → List ℕ → List ℕ
slice off n buf = take n (drop off buf)

-- `buf[i]`, for an index inside the buffer.
abbrev pub byte_at : List ℕ → ℕ → ℕ
byte_at buf i = get_or buf i 0

-- `buf[off..off + bs.len()].copy_from_slice(bs)`, for a range inside the buffer.
unfoldable pub write_at : List ℕ → ℕ → List ℕ → List ℕ
write_at buf off bs = take off buf ++ (bs ++ drop (off + length bs) buf)

module _ (buf : List ℕ) (off : ℕ) (bs : List ℕ) (fits : off + length bs ≤ length buf) where
  pub length-write_at : length (write_at buf off bs) ≡ length buf
  unfolding write_at
  length-write_at = omega (
    arith,
    length-append (take off buf) (bs ++ drop (off + length bs) buf),
    length-append bs (drop (off + length bs) buf),
    length-take off buf,
    length-drop (off + length bs) buf,
  )

  length-take_off : length (take off buf) ≡ off
  length-take_off = omega (arith, length-take off buf)

  drop-write_at : drop off (write_at buf off bs) ≡ bs ++ drop (off + length bs) buf
  unfolding write_at
  drop-write_at =
      drop-append_ge (take off buf) _ off (omega (arith, length-take_off))
      ∙ drop_eq (off - length (take off buf)) 0 _ (omega (arith, length-take_off))

  -- What was written is read back.
  pub slice-write_at_same : (n : ℕ) → n ≡ length bs → slice off n (write_at buf off bs) ≡ bs
  unfolding slice
  slice-write_at_same n e = rw drop-write_at (take-append bs _ n e)

  -- A range before the written one is unchanged.
  pub slice-write_at_before :
      (o n : ℕ) → o + n ≤ off → slice o n (write_at buf off bs) ≡ slice o n buf
  unfolding slice write_at
  slice-write_at_before o n h =
      rw
        (drop-append_le (take off buf) (bs ++ drop (off + length bs) buf) o
          (omega (arith, length-take_off)))
        (rw
          (take-append_le (drop o (take off buf)) (bs ++ drop (off + length bs) buf) n
            (omega (arith, length-drop o (take off buf), length-take_off)))
          (rw (drop-take o off buf (omega arith))
            (take-take n (off - o) (drop o buf) (omega arith))))

  -- A range behind the written one is unchanged.
  pub slice-write_at_after :
      (o n : ℕ) → off + length bs ≤ o → slice o n (write_at buf off bs) ≡ slice o n buf
  unfolding slice write_at
  slice-write_at_after o n h = ap (take n) (
      drop-append_ge (take off buf) _ o (omega (arith, length-take_off))
      ∙ drop-append_ge bs _ (o - length (take off buf)) (omega (arith, length-take_off))
      ∙ drop-drop _ (off + length bs) buf
      ∙ drop_eq (off + length bs + (o - length (take off buf) - length bs)) o buf
          (omega (arith, length-take_off)))

-- A buffer that begins with `pre` and is unchanged from there on, after the next write behind `pre`.
pub write_at-append :
    (pre bs buf : List ℕ)
    → write_at (pre ++ drop (length pre) buf) (length pre) bs
      ≡ (pre ++ bs) ++ drop (length (pre ++ bs)) buf
unfolding write_at
write_at-append pre bs buf =
    ap₂ (λ xs ys. xs ++ (bs ++ ys)) (take-append pre (drop (length pre) buf) (length pre) refl)
      (drop-append_ge pre (drop (length pre) buf) (length pre + length bs) (omega arith)
        ∙ drop-drop (length pre + length bs - length pre) (length pre) buf
        ∙ drop_eq (length pre + (length pre + length bs - length pre)) (length (pre ++ bs)) buf
            (omega (arith, length-append pre bs)))
    ∙ sym (append_assoc pre bs (drop (length (pre ++ bs)) buf))

pub write_at_next :
    (pre bs buf b : List ℕ)
    → b ≡ pre ++ drop (length pre) buf
    → write_at b (length pre) bs ≡ (pre ++ bs) ++ drop (length (pre ++ bs)) buf
write_at_next pre bs buf b e = ap (λ x. write_at x (length pre) bs) e ∙ write_at-append pre bs buf
