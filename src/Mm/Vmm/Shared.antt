-- ===== src/Mm/Vmm/Shared.antt =====
-- Concrete tables with a shared page, for the tests.
use openv.Common.{
  ℕ, ◌+◌, ◌*◌, ◌<◌, ◌≡◌, ◌≢◌, ◌⊎◌, refl, sym, subst, ap, ◌∙◌, arith, Bool, true, false, [], ◌∷◌,
  ◌==◌, if◌then◌else◌, eq-cases, inl, inr, ==_ne,
}
use openv.Mm.Pmm.{Pmm, Memory, poison_word, page_index}
use openv.Mm.Pmm.Frames.{IsFrame}
use openv.Mm.Vmm.{
  Result, ok, err, unmapped, frame_of, walk_level, walk_leaf, walk_page_table, vpn₂, vpn₁, vpn₀,
  is_set,
}
use openv.Mm.Vmm.Tables.{top, mid, low, other, child, IsDirectory, Owner, IsTree, IsReady}
use openv.Mm.Vmm.Extend.{walk_level-zero}
use openv.Mm.Vmm.Unmap.Clear.{UserLeaves}

-- The root at 0x80004000 leads over 0x80006000 and 0x80007000 to the shared page at 0x80005000, for the
-- addresses of page 0. The page at 0x80001000 is free.
abbrev pub shared_word : Memory
shared_word a i =
    if i == 0
    then if a == 0x8000_4000
      then 0x2000_1801
      else if a == 0x8000_6000
      then 0x2000_1c01
      else if a == 0x8000_7000
      then 0x2000_1513
      else 0
    else if a == 0x8000_1000
    then poison_word
    else 0

abbrev pub shared_page : Pmm
shared_page = record {
  ram_start = 0x8000_0000;
  head = 0x8000_1000;
  counts = λ j. if j == 1 then 0 else 2;
  mem = shared_word;
}

abbrev pub roles : Owner
roles a =
    if a == 0x8000_4000
    then top
    else if a == 0x8000_6000
    then mid 0
    else if a == 0x8000_7000
    then low 0 0
    else other

ok-injective : (a b : ℕ) → ◌≡◌ {A = Result ℕ} (ok a) (ok b) → a ≡ b
ok-injective a b e = cc

ok-not-unmapped : (t : ℕ) → ◌≡◌ {A = Result ℕ} (ok t) (err unmapped) → ⊥
ok-not-unmapped t e = cc

-- An entry of a word 0 leads nowhere, so only entry 0 leads on.
only_entry : (a i t : ℕ) → (i ≢ 0 → shared_word a i ≡ 0) → walk_level shared_word a i ≡ ok t → i ≡ 0
only_entry a i t empty e = elim (eq-cases i 0) [
  | inl at ↦ at
  | inr ne ↦ absurd (ok-not-unmapped t (sym e ∙ walk_level-zero shared_word a i (empty ne)))
]

link_at :
    (a i t t' : ℕ)
    → walk_level shared_word a 0 ≡ ok t'
    → (i ≢ 0 → shared_word a i ≡ 0)
    → walk_level shared_word a i ≡ ok t
    → (i ≡ 0) × (t' ≡ t)
link_at a i t t' first empty e =
    let at : i ≡ 0 = only_entry a i t empty e in
    (at, ok-injective t' t (sym first ∙ sym (ap (walk_level shared_word a) at) ∙ e))

root_first : walk_level shared_word 0x8000_4000 0 ≡ ok 0x8000_6000
unfolding walk_level frame_of
root_first = refl

mid_first : walk_level shared_word 0x8000_6000 0 ≡ ok 0x8000_7000
unfolding walk_level frame_of
mid_first = refl

-- The two tables whose entries lead on.
directory-cases : (a : ℕ) → IsDirectory (roles a) → (a ≡ 0x8000_4000) ⊎ (a ≡ 0x8000_6000)
directory-cases a d = elim (eq-cases a 0x8000_4000) [
  | inl at ↦ inl at
  | inr ne ↦ elim (eq-cases a 0x8000_6000) [
    | inl at ↦ inr at
    | inr ne' ↦ absurd (
        no_directory (a == 0x8000_7000)
          (subst IsDirectory (rw (==_ne a 0x8000_4000 ne, ==_ne a 0x8000_6000 ne') refl) d))
  ]
]
  where
    no_directory : (b : Bool) → IsDirectory (if b then low 0 0 else other) → ⊥
    no_directory true d = d
    no_directory false d = d

root_links :
    (i t : ℕ)
    → walk_level shared_word 0x8000_4000 i ≡ ok t
    → (roles t ≡ mid i) × (is_set (shared_word 0x8000_4000 i) 14 ≡ false)
root_links i t e =
    let (at, to) =
      link_at 0x8000_4000 i t 0x8000_6000 root_first (λ ne. rw (==_ne i 0 ne) refl) e in
    (ap roles (sym to) ∙ ap mid (sym at), ap (λ k. is_set (shared_word 0x8000_4000 k) 14) at)

mid_links :
    (i t : ℕ)
    → walk_level shared_word 0x8000_6000 i ≡ ok t
    → (roles t ≡ low 0 i) × (is_set (shared_word 0x8000_6000 i) 14 ≡ false)
mid_links i t e =
    let (at, to) = link_at 0x8000_6000 i t 0x8000_7000 mid_first (λ ne. rw (==_ne i 0 ne) refl) e in
    (ap roles (sym to) ∙ ap (low 0) (sym at), ap (λ k. is_set (shared_word 0x8000_6000 k) 14) at)

table_links :
    (a i t : ℕ)
    → IsDirectory (roles a)
    → walk_level shared_word a i ≡ ok t
    → (roles t ≡ child (roles a) i) × (is_set (shared_word a i) 14 ≡ false)
table_links a i t d e = elim (directory-cases a d) [
  | inl at ↦
      let (r, l) = root_links i t (sym (ap (λ k. walk_level shared_word k i) at) ∙ e) in
      (r ∙ sym (ap (λ k. child (roles k) i) at), ap (λ k. is_set (shared_word k i) 14) at ∙ l)
  | inr at ↦
      let (r, l) = mid_links i t (sym (ap (λ k. walk_level shared_word k i) at) ∙ e) in
      (r ∙ sym (ap (λ k. child (roles k) i) at), ap (λ k. is_set (shared_word k i) 14) at ∙ l)
]

pub shared_page-IsTree : IsTree shared_page.mem 0x8000_4000 roles
shared_page-IsTree = record {
  at_root = refl;
  links = λ a i t d lt e. (table_links a i t d e).0;
  no_leaf = λ a i t d lt e. (table_links a i t d e).1;
}

pub IsFrame-at : (k : ℕ) → k < 100 → IsFrame 0x8000_0000 (0x8000_0000 + k * 0x1000)
IsFrame-at k h = record {
  above = omega arith;
  below = omega arith;
  aligned = omega arith;
  nonzero = omega arith;
}

pub shared_page-IsReady : IsReady shared_page (0x8000_1000 ∷ []) roles
unfolding page_index
shared_page-IsReady = record {
  valid = record {
    chain = (refl, omega arith, refl);
    unused = ((IsFrame-at 1 (omega arith), refl, refl), tt);
    distinct = (tt, tt);
  };
  aligned = refl;
  bounded = omega arith;
  unowned = (refl, tt);
}

pub shared_walk : walk_page_table shared_page.mem 0x8000_4000 0x123 ≡ ok (0x8000_5123, 0x113)
unfolding walk_page_table walk_level walk_leaf frame_of vpn₂ vpn₁ vpn₀
shared_walk = refl

low-cases : (a i j : ℕ) → roles a ≡ low i j → a ≡ 0x8000_7000
low-cases a i j e = elim (eq-cases a 0x8000_4000) [
  | inl at ↦ absurd (top-not-low i j (sym (ap roles at) ∙ e))
  | inr ne ↦ elim (eq-cases a 0x8000_6000) [
    | inl at ↦ absurd (mid-not-low i j (sym (ap roles at) ∙ e))
    | inr ne' ↦ elim (eq-cases a 0x8000_7000) [
      | inl at ↦ at
      | inr ne'' ↦ absurd (
          other-not-low i j (
            sym
              (rw (==_ne a 0x8000_4000 ne, ==_ne a 0x8000_6000 ne', ==_ne a 0x8000_7000 ne'') refl)
            ∙ e))
    ]
  ]
]
  where
    top-not-low : (i j : ℕ) → top ≡ low i j → ⊥
    top-not-low i j e = cc

    mid-not-low : (i j : ℕ) → mid 0 ≡ low i j → ⊥
    mid-not-low i j e = cc

    other-not-low : (i j : ℕ) → other ≡ low i j → ⊥
    other-not-low i j e = cc

zero_word : (a i : ℕ) → i ≢ 0 → a ≡ 0x8000_7000 → shared_word a i ≡ 0
zero_word a i ne at = ap (λ k. shared_word k i) at ∙ rw (==_ne i 0 ne) refl

-- The one user page is no table.
pub shared_page-UserLeaves : UserLeaves shared_page.mem roles
unfolding frame_of
shared_page-UserLeaves l₀ i a b own valid user = elim (eq-cases i 0) [
  | inl first ↦
      ap (λ w. roles (frame_of w))
        (ap (λ k. shared_word k i) (low-cases l₀ a b own) ∙ ap (shared_word 0x8000_7000) first)
  | inr ne ↦
      absurd (never (sym (ap (λ w. is_set w 1) (zero_word l₀ i ne (low-cases l₀ a b own))) ∙ valid))
]
  where
    never : is_set 0 1 ≡ true → ⊥
    never e = cc
