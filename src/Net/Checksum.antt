-- ===== src/Net/Checksum.antt =====
-- `checksum16` of src/net/core.rs, the Internet checksum of RFC 1071.
pub mod Verify
use openv.Common.{
  ℕ, zero, suc, ◌+◌, ◌-◌, ◌*◌, ◌/◌, ◌%◌, ◌≤◌, ◌<◌, ◌≡◌, ◌≢◌, refl, sym, ap, ◌∙◌, Bool, true, false,
  not, List, [], ◌∷◌, ◌++◌, arith, ◌==◌, ==_ne, if◌then◌else◌, Bool-cases, inl, inr, length,
  length-append,
}
use openv.Common.Words.{to_be_bytes16, from_be_bytes16, from_be_bytes16-to_be_bytes16}

-- The two loops over the data, from a sum on; the sum is a `u32` that wraps round. A byte is less than
-- 256, so that `|` on a shifted byte and a byte adds them.
unfoldable pub add_words : ℕ → List ℕ → ℕ
add_words sum [] = sum
add_words sum (a ∷ []) = (sum + a * 256) % 0x1_0000_0000
add_words sum (a ∷ b ∷ bs) = add_words ((sum + from_be_bytes16 a b) % 0x1_0000_0000) bs

-- The loop that adds the carries, at most `n` times.
unfoldable pub fold_carries : ℕ → ℕ → ℕ
fold_carries zero sum = sum
fold_carries (suc n) sum =
    let rest : ℕ = fold_carries n (sum % 0x1_0000 + sum / 0x1_0000) in
    if not (sum / 0x1_0000 == 0) then rest else sum

-- `!` on a `u16`.
unfoldable pub checksum16 : List ℕ → ℕ
checksum16 bytes = 0xffff - fold_carries 3 (add_words 0 bytes) % 0x1_0000

-- The sum of the 16-bit words, without wrapping.
abbrev pub word_sum : List ℕ → ℕ
word_sum [] = 0
word_sum (a ∷ []) = a * 256
word_sum (a ∷ b ∷ bs) = a * 256 + b + word_sum bs

pub add_words_exact :
    (sum : ℕ) (bs : List ℕ)
    → sum + word_sum bs < 0x1_0000_0000
    → add_words sum bs ≡ sum + word_sum bs
unfolding add_words from_be_bytes16
add_words_exact sum [] h = omega arith
add_words_exact sum (a ∷ []) h = omega arith
add_words_exact sum (a ∷ b ∷ bs) h =
    ap (λ s. add_words s bs) (omega arith)
    ∙ add_words_exact (sum + (a * 256 + b)) bs (omega arith)
    ∙ omega arith

pub fold_carries-step :
    (n sum : ℕ)
    → 65536 ≤ sum
    → fold_carries (suc n) sum ≡ fold_carries n (sum % 0x1_0000 + sum / 0x1_0000)
unfolding fold_carries
fold_carries-step n sum big = ground arith

pub fold_carries-done : (n sum : ℕ) → sum < 65536 → fold_carries n sum ≡ sum
unfolding fold_carries
fold_carries-done zero sum small = refl
fold_carries-done (suc n) sum small = ground arith
