-- ===== src/Mm/Vmm/Fault/Flags.antt =====
-- The flags of the entry that a copy on write makes.
use openv.Common.{
  ℕ, zero, suc, ◌<◌, ◌≡◌, refl, bit_or, bit_and, Bool, true, false, not, ◌&&◌, ◌==◌, arith,
}
use openv.Mm.Vmm.{pte_w, pte_cow, is_set}
use openv.Mm.Vmm.Fault.{cow_flags}

-- The flags of the new entry.
abbrev pub new_flags : ℕ → ℕ
new_flags flags = bit_or (bit_and (cow_flags flags) 0x3ff) 1

all_below : ℕ → (ℕ → Bool) → Bool
all_below zero test = true
all_below (suc n) test = test n && all_below n test

all_below_sound :
    (n : ℕ) (test : ℕ → Bool) (x : ℕ) → all_below n test ≡ true → x < n → test x ≡ true
unfolding all_below
all_below_sound zero test x h lt = absurd (omega arith)
all_below_sound (suc n) test x h lt = ground (arith, all_below_sound n test x)

-- Writable, no longer to be copied, valid, and otherwise as they were; over all ten bits.
abbrev is_writable : ℕ → Bool
is_writable flags =
    is_set (new_flags flags) pte_w
    && not (is_set (new_flags flags) pte_cow)
    && bit_and (new_flags flags) 762 == bit_and flags 762

writable_table : all_below 1024 is_writable ≡ true
unfolding all_below
writable_table = refl

pub new_flags-IsWritable :
    (flags : ℕ)
    → flags < 1024
    → (is_set (new_flags flags) pte_w ≡ true)
      × (is_set (new_flags flags) pte_cow ≡ false)
      × (bit_and (new_flags flags) 762 ≡ bit_and flags 762)
new_flags-IsWritable flags small =
    let h : is_writable flags ≡ true =
      all_below_sound 1024 is_writable flags writable_table small in
    ground arith
