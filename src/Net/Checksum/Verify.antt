-- ===== src/Net/Checksum/Verify.antt =====
-- The checksum is what makes a packet that holds it sum up to all ones.
use openv.Common.{
  ℕ, suc, ◌+◌, ◌-◌, ◌*◌, ◌/◌, ◌%◌, ◌≤◌, ◌<◌, ◌≡◌, refl, ap, ◌∙◌, List, [], ◌∷◌, ◌++◌, arith, length,
}
use native.Mathlib.Decide.{dec_lt}
use openv.Common.Words.{to_be_bytes16}
use openv.Net.Checksum.{
  add_words, fold_carries, checksum16, word_sum, add_words_exact, fold_carries-step,
  fold_carries-done,
}

-- The carries are folded into 16 bits: the sum modulo 65535 is kept, and a sum that is not 0 stays so.
abbrev IsFold : ℕ → ℕ → Type 0
IsFold sum r = (r < 65536) × (r % 65535 ≡ sum % 65535) × (0 < sum → 0 < r)

fold_carries-two : (n sum : ℕ) → sum ≤ 131070 → IsFold sum (fold_carries (suc n) sum)
fold_carries-two n sum le = elim (dec_lt sum 65536) [
  | yes small ↦ rw (fold_carries-done (suc n) sum small) (small, refl, λ h. h)
  | no big ↦ rw (fold_carries-step n sum (omega arith)) (
      rw (fold_carries-done n (sum % 0x1_0000 + sum / 0x1_0000) (omega arith))
        (omega arith, omega arith, λ h. omega arith))
]

-- Three rounds are enough for a sum of 32 bits.
fold_carries_lem : (sum : ℕ) → sum < 0x1_0000_0000 → IsFold sum (fold_carries 3 sum)
fold_carries_lem sum lt = elim (dec_lt sum 65536) [
  | yes small ↦ rw (fold_carries-done 3 sum small) (small, refl, λ h. h)
  | no big ↦
      let next : ℕ = sum % 0x1_0000 + sum / 0x1_0000 in
      let (small, same, positive) = fold_carries-two 1 next (omega arith) in
      rw (fold_carries-step 2 sum (omega arith))
        (small, same ∙ omega arith, λ h. positive (omega arith))
]

abbrev pub IsBytes : List ℕ → Type 0
IsBytes [] = Unit {0}
IsBytes (b ∷ bs) = (b < 256) × IsBytes bs

word_sum-bound : (bs : List ℕ) → IsBytes bs → word_sum bs ≤ 65536 * length bs
word_sum-bound [] h = omega arith
word_sum-bound (a ∷ []) h = omega arith
word_sum-bound (a ∷ b ∷ bs) h = omega (arith, h.0, h.1.0, word_sum-bound bs h.1.1)

word_sum-append :
    (front back : List ℕ)
    → length front % 2 ≡ 0
    → word_sum (front ++ back) ≡ word_sum front + word_sum back
word_sum-append [] back even = omega arith
word_sum-append (a ∷ []) back even = absurd (omega arith)
word_sum-append (a ∷ b ∷ front) back even = omega (arith, word_sum-append front back (omega arith))

checksum16-fold :
    (bytes : List ℕ)
    → word_sum bytes < 0x1_0000_0000
    → checksum16 bytes ≡ 65535 - fold_carries 3 (word_sum bytes)
unfolding checksum16
checksum16-fold bytes small =
    let sum : add_words 0 bytes ≡ word_sum bytes =
      add_words_exact 0 bytes (omega arith) ∙ omega arith in
    rw sum (omega (arith, (fold_carries_lem (word_sum bytes) small).0))

-- The sum of a packet with a field of two bytes behind an even number of bytes.
word_sum-field :
    (front back : List ℕ) (c : ℕ)
    → length front % 2 ≡ 0
    → c < 65536
    → word_sum (front ++ (to_be_bytes16 c ++ back)) ≡ word_sum front + (c + word_sum back)
unfolding to_be_bytes16
word_sum-field front back c even small =
    word_sum-append front (to_be_bytes16 c ++ back) even ∙ omega arith

-- The checksum, by the sum without the field.
checksum16-field :
    (front back : List ℕ) (c : ℕ)
    → length front % 2 ≡ 0
    → c < 65536
    → word_sum front + word_sum back ≤ 65536 * 65000
    → checksum16 (front ++ (to_be_bytes16 c ++ back))
      ≡ 65535 - fold_carries 3 (word_sum front + word_sum back + c)
checksum16-field front back c even small bound =
    checksum16-fold (front ++ (to_be_bytes16 c ++ back))
      (omega (arith, word_sum-field front back c even small))
    ∙ ap (λ s. 65535 - fold_carries 3 s) (word_sum-field front back c even small ∙ omega arith)

-- What is left of a sum and of the complement of its folded sum.
fold_carries-complement :
    (sum : ℕ)
    → sum ≤ 65536 * 65000
    → fold_carries 3 (sum + (65535 - fold_carries 3 (sum + 0))) ≡ 65535
fold_carries-complement sum bound = elim (dec_lt 0 sum) [
  | no zero_sum ↦
      let none : fold_carries 3 (sum + 0) ≡ 0 =
        fold_carries-done 3 (sum + 0) (omega arith) ∙ omega arith in
      rw none (fold_carries-done 3 (sum + 65535) (omega arith) ∙ omega arith)
  | yes some_sum ↦
      let (small, same, positive) = fold_carries_lem (sum + 0) (omega arith) in
      let c : ℕ = 65535 - fold_carries 3 (sum + 0) in
      let (small', same', positive') = fold_carries_lem (sum + c) (omega arith) in
      omega (arith, positive (omega arith), positive' (omega arith))
]

-- Take a packet of at most 65,000 bytes beside a checksum field that is 0 and lies at an even
-- offset: its checksum fits 16 bits, and put into the field in network order it makes the packet's
-- checksum 0.
pub checksum16-verifies :
    (front back : List ℕ)
    → length front % 2 ≡ 0
    → IsBytes front
    → IsBytes back
    → length front + length back ≤ 65000
    → let c = checksum16 (front ++ (to_be_bytes16 0 ++ back)) in
      (c ≤ 65535) × (checksum16 (front ++ (to_be_bytes16 c ++ back)) ≡ 0)
checksum16-verifies front back even bytes bytes' len =
    let bound : word_sum front + word_sum back ≤ 65536 * 65000 =
      omega (arith, word_sum-bound front bytes, word_sum-bound back bytes', len) in
    let sum : ℕ = word_sum front + word_sum back in
    let zeroed = checksum16-field front back 0 even (omega arith) bound in
    (
      rw zeroed (omega arith),
      rw zeroed (
          checksum16-field front back (65535 - fold_carries 3 (sum + 0)) even (omega arith) bound
          ∙ ap (λ r. 65535 - r) (fold_carries-complement sum bound)),
    )
