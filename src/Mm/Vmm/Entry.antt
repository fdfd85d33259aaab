-- ===== src/Mm/Vmm/Entry.antt =====
-- The fields of page table entries.
use openv.Common.{
  ℕ, ◌+◌, ◌*◌, ◌/◌, ◌%◌, ◌^◌, ◌<◌, ◌≡◌, refl, ap, ◌∙◌, bit_and, bit_or, true, false, not, ◌==◌,
  arith,
}
use openv.Common.Bits.{
  bit_and_low, bit_and_fields, bit_or_below, bit_or_fields, bit_or-lt, bit_or-odd, odd-bit_or,
}
use openv.Mm.Vmm.{frame_of, entry_of, leaf_entry, vpn₂, vpn₁, is_set}

pub vpn₂-lt : (va : ℕ) → vpn₂ va < 512
unfolding vpn₂
vpn₂-lt va = omega (arith, bit_and_low 9 (va / 2 ^ 30))

pub vpn₁-lt : (va : ℕ) → vpn₁ va < 512
unfolding vpn₁
vpn₁-lt va = omega (arith, bit_and_low 9 (va / 2 ^ 21))

-- What a page's address has to be, to fit an entry.
abbrev pub IsPage : ℕ → Type 0
IsPage pa = (pa % 4096 ≡ 0) × (pa < 2 ^ 56)

entry_of_exact : (pa : ℕ) → IsPage pa → entry_of pa ≡ pa / 4096 * 1024
unfolding entry_of
entry_of_exact pa h = omega arith

table_entry_exact : (pa : ℕ) → IsPage pa → bit_or (entry_of pa) 1 ≡ pa / 4096 * 1024 + 1
table_entry_exact pa h =
    ap (λ e. bit_or e 1) (entry_of_exact pa h) ∙ bit_or_below 10 (pa / 4096) 1 (omega arith)

frame_of_exact : (pa r : ℕ) → IsPage pa → r < 1024 → frame_of (pa / 4096 * 1024 + r) ≡ pa
unfolding frame_of
frame_of_exact pa r h small = omega arith

pub frame_of-table_entry : (pa : ℕ) → IsPage pa → frame_of (bit_or (entry_of pa) 1) ≡ pa
frame_of-table_entry pa h =
    ap frame_of (table_entry_exact pa h) ∙ frame_of_exact pa 1 h (omega arith)

leaf_entry_exact :
    (pa flags : ℕ)
    → IsPage pa
    → flags < 1024
    → leaf_entry pa flags ≡ pa / 4096 * 1024 + bit_or 1 flags
leaf_entry_exact pa flags h small =
    ap (λ e. bit_or e flags) (table_entry_exact pa h)
    ∙ bit_or_fields 10 (pa / 4096) 1 flags (omega arith) small

pub frame_of-leaf_entry :
    (pa flags : ℕ) → IsPage pa → flags < 1024 → frame_of (leaf_entry pa flags) ≡ pa
frame_of-leaf_entry pa flags h small =
    ap frame_of (leaf_entry_exact pa flags h small)
    ∙ frame_of_exact pa (bit_or 1 flags) h (bit_or-lt 10 1 flags (omega arith) small)

pub flags-leaf_entry :
    (pa flags : ℕ) → IsPage pa → flags < 1024 → bit_and (leaf_entry pa flags) 0x3ff ≡ bit_or 1 flags
flags-leaf_entry pa flags h small = omega (
  arith,
  bit_and_low 10 (leaf_entry pa flags),
  leaf_entry_exact pa flags h small,
  bit_or-lt 10 1 flags (omega arith) small,
)

-- The tests on entries, as arithmetic.
pub is_valid_odd : (e : ℕ) → e % 2 ≡ 1 → is_set e 1 ≡ true
is_valid_odd e h = ground (arith, bit_and_low 1 e)

pub zero_not_valid : is_set 0 1 ≡ false
zero_not_valid = refl

pub leaf_entry_valid :
    (pa flags : ℕ) → IsPage pa → flags < 1024 → is_set (leaf_entry pa flags) 1 ≡ true
leaf_entry_valid pa flags h small =
    is_valid_odd (leaf_entry pa flags)
      (omega (arith, leaf_entry_exact pa flags h small, bit_or-odd flags))

pub table_entry_valid : (pa : ℕ) → IsPage pa → is_set (bit_or (entry_of pa) 1) 1 ≡ true
table_entry_valid pa h =
    is_valid_odd (bit_or (entry_of pa) 1) (omega (arith, table_entry_exact pa h))

pub offset_of : (pa va : ℕ) → IsPage pa → bit_or pa (bit_and va 0xfff) ≡ pa + va % 4096
offset_of pa va h =
    ap (bit_or pa) (bit_and_low 12 va)
    ∙ ap (λ x. bit_or x (va % 4096)) (omega arith)
    ∙ bit_or_below 12 (pa / 4096) (va % 4096) (omega arith)
    ∙ omega arith

-- A table entry has none of the bits that make a leaf.
pub table_entry_no_leaf :
    (pa : ℕ)
    → IsPage pa
    → (is_set (bit_or (entry_of pa) 1) 10 ≡ false) × (is_set (bit_or (entry_of pa) 1) 14 ≡ false)
table_entry_no_leaf pa h = (no_bits 10 (omega arith) refl, no_bits 14 (omega arith) refl)
  where
    no_bits : (m : ℕ) → m < 1024 → bit_and 1 m ≡ 0 → is_set (bit_or (entry_of pa) 1) m ≡ false
    no_bits m small none =
        ap (λ (x : ℕ). not (x == 0))
          (ap (λ e. bit_and e m) (table_entry_exact pa h)
            ∙ bit_and_fields 10 (pa / 4096) 1 m (omega arith) small
            ∙ none)

-- The entry that a copy on write makes.
pub cow_entry-parts :
    (pa flags : ℕ)
    → IsPage pa
    → flags < 1024
    → (frame_of (bit_or (bit_or (entry_of pa) flags) 1) ≡ pa)
      × (bit_and (bit_or (bit_or (entry_of pa) flags) 1) 0x3ff ≡ bit_or flags 1)
      × (is_set (bit_or (bit_or (entry_of pa) flags) 1) 1 ≡ true)
cow_entry-parts pa flags h small =
    let exact : bit_or (bit_or (entry_of pa) flags) 1 ≡ pa / 4096 * 1024 + bit_or flags 1 =
      ap (λ e. bit_or (bit_or e flags) 1) (entry_of_exact pa h)
      ∙ ap (λ e. bit_or e 1) (bit_or_below 10 (pa / 4096) flags small)
      ∙ bit_or_fields 10 (pa / 4096) flags 1 small (omega arith) in
    let low : bit_or flags 1 < 1024 = bit_or-lt 10 flags 1 small (omega arith) in
    (
      ap frame_of exact ∙ frame_of_exact pa (bit_or flags 1) h low,
      omega (arith, bit_and_low 10 (bit_or (bit_or (entry_of pa) flags) 1), exact, low),
      is_valid_odd (bit_or (bit_or (entry_of pa) flags) 1) (omega (arith, exact, odd-bit_or flags)),
    )
