-- ===== src/Mm/Vmm/Unmap/Range.antt =====
-- `unmap_range` leaves alone what lies outside its range, and more.
use openv.Common.{
  ℕ, zero, suc, ◌+◌, ◌*◌, ◌/◌, ◌%◌, ◌^◌, ◌≤◌, ◌<◌, ◌≡◌, ◌⊎◌, refl, subst, ap, ◌∙◌, true, false,
  some, arith, inl, inr, ltb,
}
use native.Mathlib.Decide.{dec_lt}
use openv.Common.Bits.{bit_and_low}
use openv.Mm.Pmm.{Pmm, page_size}
use openv.Mm.Vmm.{err, VmmError, vpn₂, vpn₁, vpn₀, walk_level, walk_page_table}
use openv.Mm.Vmm.Tables.{Owner, IsTree}
use openv.Mm.Vmm.Mapping.{SamePage}
use openv.Mm.UserPointer.{saturating_add}
use openv.Mm.Vmm.Unmap.{page_floor, unmap_next, unmap_from, unmap_range}
use openv.Mm.Vmm.Unmap.Clear.{UserLeaves, Clears, unmap_next-Clears}

-- Addresses below 2 to the 39 with the same indices are in the same page.
SamePage-page :
    (va va' : ℕ) → va < 2 ^ 39 → va' < 2 ^ 39 → SamePage va va' → va / page_size ≡ va' / page_size
unfolding vpn₂ vpn₁ vpn₀
SamePage-page va va' small small' (e₂, e₁, e₀) = omega (
  arith,
  e₂,
  e₁,
  e₀,
  bit_and_low 9 (va / 2 ^ 30),
  bit_and_low 9 (va / 2 ^ 21),
  bit_and_low 9 (va / 2 ^ 12),
  bit_and_low 9 (va' / 2 ^ 30),
  bit_and_low 9 (va' / 2 ^ 21),
  bit_and_low 9 (va' / 2 ^ 12),
)

-- Outside of the pages from `start` up to `end`.
abbrev pub IsOutside : ℕ → ℕ → ℕ → Type 0
IsOutside start end va = (va < 2 ^ 39) × ((va < start) ⊎ (end ≤ page_floor va))

pub record Keeps (p p' : Pmm) (root : ℕ) (owner : Owner) (start end : ℕ) : Type 0 where
  pub tree : IsTree p'.mem root owner
  pub leaves : UserLeaves p'.mem owner
  pub outside :
      (va : ℕ)
      → IsOutside start end va
      → walk_page_table p'.mem root va ≡ walk_page_table p.mem root va

away :
    (start end va : ℕ)
    → start % page_size ≡ 0
    → start < end
    → start < 2 ^ 39
    → IsOutside start end va
    → SamePage start va
    → ⊥
away start end va aligned lt small (small', inl below) same =
    absurd (omega (arith, SamePage-page start va small small' same))
away start end va aligned lt small (small', inr above) same =
    absurd (omega (arith, above, SamePage-page start va small small' same))

IsOutside-later :
    (start next end va : ℕ) → start ≤ next → IsOutside start end va → IsOutside next end va
IsOutside-later start next end va le (small, inl below) = (small, inl (omega arith))
IsOutside-later start next end va le (small, inr above) = (small, inr above)

Keeps-step :
    (p p₁ p' : Pmm) (root : ℕ) (owner : Owner) (va next end : ℕ)
    → Clears p p₁ root owner va
    → Keeps p₁ p' root owner next end
    → va % page_size ≡ 0
    → va < end
    → va < 2 ^ 39
    → va ≤ next
    → Keeps p p' root owner va end
Keeps-step p p₁ p' root owner va next end step rest aligned lt small le = record {
  tree = rest.tree;
  leaves = rest.leaves;
  outside = λ va' out.
      rest.outside va' (IsOutside-later va next end va' le out)
      ∙ step.others va' (away va end va' aligned lt small out);
}

unmap_from-done :
    (fuel : ℕ) (root end va : ℕ) (p : Pmm)
    → ltb va end ≡ false
    → unmap_from (suc fuel) root end va p ≡ some p
unfolding unmap_from
unmap_from-done fuel root end va p e = rw e refl

unmap_from-round :
    (fuel : ℕ) (root end va : ℕ) (p : Pmm)
    → ltb va end ≡ true
    → unmap_from (suc fuel) root end va p
      ≡ unmap_from fuel root end (unmap_next root va p).0 (unmap_next root va p).1
unfolding unmap_from
unmap_from-round fuel root end va p e = rw e refl

unmap_from-Keeps :
    (fuel : ℕ) (p : Pmm) (root : ℕ) (owner : Owner) (end va : ℕ)
    → IsTree p.mem root owner
    → UserLeaves p.mem owner
    → va % page_size ≡ 0
    → end ≤ 2 ^ 39
    → end ≤ va + fuel * page_size
    → (p' : Pmm) × (unmap_from (suc fuel) root end va p ≡ some p') × Keeps p p' root owner va end
unmap_from-Keeps zero p root owner end va tree leaves aligned bounded enough = (
  p,
  unmap_from-done zero root end va p (ground (arith, enough)),
  record { tree = tree; leaves = leaves; outside = λ va' out. refl },
)
unmap_from-Keeps (suc n) p root owner end va tree leaves aligned bounded enough =
    elim (dec_lt va end) [
      | no over ↦ (
        p,
        unmap_from-done (suc n) root end va p (ground (arith, over)),
        record { tree = tree; leaves = leaves; outside = λ va' out. refl },
      )
      | yes lt ↦
          let small : va < 2 ^ 39 = omega arith in
          let (step, further, aligned') =
            unmap_next-Clears p root owner va tree leaves aligned small in
          let (p', run, rest) =
            unmap_from-Keeps n (unmap_next root va p).1 root owner end (unmap_next root va p).0
              step.tree step.leaves aligned' bounded (omega (arith, enough, further)) in
          (
            p',
            unmap_from-round (suc n) root end va p (ground (arith, lt)) ∙ run,
            Keeps-step p (unmap_next root va p).1 p' root owner va (unmap_next root va p).0 end step
                rest aligned lt small (omega arith),
          )
    ]

-- For a range that ends at 2 to the 39 at most, one round more than the range has pages lets the loop
-- of `unmap_range` end. The tables stay a tree, and every address outside of the pages of the range
-- leads to what it led to before.
pub unmap_range-Keeps :
    (fuel : ℕ) (p : Pmm) (root : ℕ) (owner : Owner) (va_start len : ℕ)
    → IsTree p.mem root owner
    → UserLeaves p.mem owner
    → va_start + len ≤ 2 ^ 39
    → va_start + len ≤ page_floor va_start + fuel * page_size
    → (p' : Pmm) × (unmap_range (suc fuel) root va_start len p ≡ some p')
      × Keeps p p' root owner (page_floor va_start) (va_start + len)
unfolding unmap_range
unmap_range-Keeps fuel p root owner va_start len tree leaves bounded enough =
    let exact : saturating_add va_start len ≡ va_start + len = omega arith in
    let (p', run, keeps) =
      unmap_from-Keeps fuel p root owner (saturating_add va_start len) (page_floor va_start) tree
        leaves (omega arith) (omega arith) (omega arith) in
    (p', run, subst (Keeps p p' root owner (page_floor va_start)) exact keeps)

unmap_next-skips :
    (p : Pmm) (root va : ℕ) (e : VmmError)
    → va % page_size ≡ 0
    → va < 2 ^ 39
    → walk_level p.mem root (vpn₂ va) ≡ err e
    → (unmap_next root va p).0 ≡ va + 2 ^ 30
unfolding unmap_next
unmap_next-skips p root va e aligned small gap = rw (gap, unmap_next) (omega arith)

unmap_next-same :
    (p : Pmm) (root va : ℕ) (e : VmmError)
    → walk_level p.mem root (vpn₂ va) ≡ err e
    → (unmap_next root va p).1 ≡ p
unfolding unmap_next
unmap_next-same p root va e gap = rw (gap, unmap_next) refl

-- When the root entry of the first page of a range has no table, `unmap_range` leaves every address of
-- the gigabyte that starts at this page as it is. When the page is not at the start of a gigabyte of the
-- root's, these are also addresses under the next entry of the root.
pub unmap_range-skips :
    (fuel : ℕ) (p : Pmm) (root : ℕ) (owner : Owner) (va_start len : ℕ) (e : VmmError)
    → IsTree p.mem root owner
    → UserLeaves p.mem owner
    → va_start % page_size ≡ 0
    → va_start + len ≤ 2 ^ 39
    → 0 < len
    → va_start + len ≤ va_start + fuel * page_size
    → walk_level p.mem root (vpn₂ va_start) ≡ err e
    → (p' : Pmm) × (unmap_range (suc (suc fuel)) root va_start len p ≡ some p')
      × ((va : ℕ)
          → va < va_start + 2 ^ 30
          → va < 2 ^ 39
          → walk_page_table p'.mem root va ≡ walk_page_table p.mem root va)
unfolding unmap_range
unmap_range-skips fuel p root owner va_start len e tree leaves aligned bounded some_len enough gap =
    let end : ℕ = saturating_add va_start len in
    let exact : end ≡ va_start + len = omega arith in
    let floor : page_floor va_start ≡ va_start = omega arith in
    let next : (unmap_next root va_start p).0 ≡ va_start + 2 ^ 30 =
      unmap_next-skips p root va_start e aligned (omega arith) gap in
    let (p', run, keeps) =
      unmap_from-Keeps fuel p root owner end (va_start + 2 ^ 30) tree leaves (omega arith)
        (omega arith) (omega arith) in
    (
      p',
      ap (λ (v : ℕ). unmap_from (suc (suc fuel)) root end v p) floor
          ∙ unmap_from-round (suc fuel) root end va_start p (ground (arith, exact))
          ∙ ap (λ (v : ℕ). unmap_from (suc fuel) root end v (unmap_next root va_start p).1) next
          ∙ ap (unmap_from (suc fuel) root end (va_start + 2 ^ 30))
              (unmap_next-same p root va_start e gap)
          ∙ run,
      λ va below small. keeps.outside va (small, inl below),
    )
