-- ===== src/Mm/Vmm/Unmap/Clear.antt =====
-- A round of `unmap_range` clears at most the entry of its own page.
use openv.Common.{
  ℕ, ◌+◌, ◌-◌, ◌%◌, ◌^◌, ◌≤◌, ◌<◌, ◌≡◌, ◌≢◌, refl, sym, subst, ap, ◌∙◌, bit_and, Bool, true, false,
  not, ◌&&◌, ◌||◌, leb, ◌==◌, ==_ne, arith, if◌then◌else◌, ltb,
}
use openv.Mm.Pmm.{
  Pmm, Memory, page_size, page_index, max_pages, set_count, push_page, decr_ref_and_maybe_free,
  is_managed_page, write_word,
}
use openv.Mm.Vmm.{
  pte_v, pte_u, is_set, frame_of, Result, ok, err, vpn₂, vpn₁, vpn₀, walk_level, walk_page_table,
  put_entry,
}
use openv.Mm.Vmm.Entry.{vpn₂-lt, vpn₁-lt}
use openv.Mm.Vmm.Tables.{
  mid, low, other, child, IsDirectory, Owner, IsTree, agree-IsTree, low-not-other,
}
use openv.Mm.Vmm.Mapping.{SamePage, leaf-IsTree, walk-leaf_other}
use openv.Mm.Vmm.Agree.{agree-level, agree-walk}
use openv.Mm.UserPointer.{saturating_add}
use openv.Mm.Vmm.Unmap.{page_floor, drop_user_page, clear_leaf, unmap_next}

-- Entries of user pages do not lead to tables.
abbrev pub UserLeaves : Memory → Owner → Type 0
UserLeaves mem owner =
    (l₀ i a b : ℕ)
    → owner l₀ ≡ low a b
    → is_set (mem l₀ i) pte_v ≡ true
    → is_set (bit_and (mem l₀ i) 0x3ff) pte_u ≡ true
    → owner (frame_of (mem l₀ i)) ≡ other

-- What a step over the page of `va` may do to the tables.
pub record Clears (p p' : Pmm) (root : ℕ) (owner : Owner) (va : ℕ) : Type 0 where
  pub tree : IsTree p'.mem root owner
  pub leaves : UserLeaves p'.mem owner
  pub others :
      (va' : ℕ)
      → (SamePage va va' → ⊥)
      → walk_page_table p'.mem root va' ≡ walk_page_table p.mem root va'

push_page-mem : (p : Pmm) (pa a j : ℕ) → a ≢ pa → (push_page p pa).mem a j ≡ p.mem a j
unfolding push_page
push_page-mem p pa a j ne = rw (==_ne a pa ne) refl

-- Dropping a reference writes at most to the page itself.
decr_ref_and_maybe_free-mem :
    (p : Pmm) (pa a j : ℕ) → a ≢ pa → (decr_ref_and_maybe_free p pa).mem a j ≡ p.mem a j
unfolding decr_ref_and_maybe_free
decr_ref_and_maybe_free-mem p pa a j ne =
    branches (leb max_pages idx || not (is_managed_page p.ram_start pa)) (ltb 1 (p.counts idx))
  where
    idx : ℕ
    idx = page_index p.ram_start pa

    branches :
        (b c : Bool)
        → (if b
              then p
              else if c
              then record p { counts = set_count p.counts idx (p.counts idx - 1) }
              else push_page (record p { counts = set_count p.counts idx 0 }) pa).mem
            a j
          ≡ p.mem a j
    branches true c = refl
    branches false true = refl
    branches false false = push_page-mem (record p { counts = set_count p.counts idx 0 }) pa a j ne

-- Memory that agrees on the tables keeps the entries of user pages.
agree-UserLeaves :
    (mem mem' : Memory) (owner : Owner)
    → ((a j : ℕ) → owner a ≢ other → mem' a j ≡ mem a j)
    → UserLeaves mem owner
    → UserLeaves mem' owner
agree-UserLeaves mem mem' owner same leaves l₀ i a b own valid user =
    let at : mem' l₀ i ≡ mem l₀ i = same l₀ i (low-not-other a b (owner l₀) own) in
    ap (λ e. owner (frame_of e)) at
    ∙ leaves l₀ i a b own (ap (λ e. is_set e pte_v) (sym at) ∙ valid)
        (ap (λ e. is_set (bit_and e 0x3ff) pte_u) (sym at) ∙ user)

write-UserLeaves :
    (mem : Memory) (owner : Owner) (pt k : ℕ)
    → UserLeaves mem owner
    → UserLeaves (write_word mem pt k 0) owner
write-UserLeaves mem owner pt k leaves l₀ i a b own valid user =
    entry (l₀ == pt && i == k) (write_word-cases mem pt k l₀ i)
  where
    zero-not-valid : is_set 0 pte_v ≡ true → ⊥
    zero-not-valid e = cc

    write_word-cases :
        (mem : Memory) (pt k l₀ i : ℕ)
        → write_word mem pt k 0 l₀ i ≡ (if l₀ == pt && i == k then 0 else mem l₀ i)
    write_word-cases mem pt k l₀ i = both (l₀ == pt) (i == k)
      where
        both :
            (x y : Bool)
            → (if x then (if y then 0 else mem l₀ i) else mem l₀ i)
              ≡ (if x && y then 0 else mem l₀ i)
        both true y = refl
        both false y = refl

    entry :
        (x : Bool)
        → write_word mem pt k 0 l₀ i ≡ (if x then 0 else mem l₀ i)
        → owner (frame_of (write_word mem pt k 0 l₀ i)) ≡ other
    entry true e = absurd (zero-not-valid (ap (λ w. is_set w pte_v) (sym e) ∙ valid))
    entry false e =
        ap (λ w. owner (frame_of w)) e
        ∙ leaves l₀ i a b own (ap (λ w. is_set w pte_v) (sym e) ∙ valid)
            (ap (λ w. is_set (bit_and w 0x3ff) pte_u) (sym e) ∙ user)

module _ (p : Pmm) (root : ℕ) (owner : Owner) (va : ℕ) (tree : IsTree p.mem root owner)
    (leaves : UserLeaves p.mem owner) where
  same-Clears : Clears p p root owner va
  same-Clears = record { tree = tree; leaves = leaves; others = λ va' away. refl }

  module _ (l₁ l₀ : ℕ) (e₁ : walk_level p.mem root (vpn₂ va) ≡ ok l₁)
      (e₀ : walk_level p.mem l₁ (vpn₁ va) ≡ ok l₀) where
    root_dir : IsDirectory (owner root)
    root_dir = subst IsDirectory (sym tree.at_root) tt

    own₁ : owner l₁ ≡ mid (vpn₂ va)
    own₁ =
        tree.links root (vpn₂ va) l₁ root_dir (vpn₂-lt va) e₁
        ∙ ap (λ r. child r (vpn₂ va)) tree.at_root

    dir₁ : IsDirectory (owner l₁)
    dir₁ = subst IsDirectory (sym own₁) tt

    own₀ : owner l₀ ≡ low (vpn₂ va) (vpn₁ va)
    own₀ = tree.links l₁ (vpn₁ va) l₀ dir₁ (vpn₁-lt va) e₀ ∙ ap (λ r. child r (vpn₁ va)) own₁

    abbrev entry : ℕ
    entry = p.mem l₀ (vpn₀ va)

    module _ (p₁ : Pmm) (same : (a j : ℕ) → owner a ≢ other → p₁.mem a j ≡ p.mem a j) where
      cleared-Clears : Clears p (put_entry l₀ (vpn₀ va) 0 p₁) root owner va
      cleared-Clears =
          let tree₁ = agree-IsTree p.mem p₁.mem root owner tree same in
          let c₁ : walk_level p₁.mem root (vpn₂ va) ≡ ok l₁ =
            agree-level p.mem p₁.mem root owner tree same root (vpn₂ va) root_dir ∙ e₁ in
          let c₀ : walk_level p₁.mem l₁ (vpn₁ va) ≡ ok l₀ =
            agree-level p.mem p₁.mem root owner tree same l₁ (vpn₁ va) dir₁ ∙ e₀ in
          record {
            tree = leaf-IsTree p₁.mem root owner tree₁ l₁ l₀ va 0 c₁ c₀ own₀;
            leaves =
                write-UserLeaves p₁.mem owner l₀ (vpn₀ va)
                  (agree-UserLeaves p.mem p₁.mem owner same leaves);
            others = λ va' away.
                walk-leaf_other p₁.mem root owner tree₁ l₁ l₀ va 0 c₁ c₀ own₀ va' away
                ∙ agree-walk p.mem p₁.mem root owner tree same va';
          }

    dropped_same :
        is_set entry pte_v ≡ true
        → (a j : ℕ) → owner a ≢ other
        → (drop_user_page entry p).mem a j ≡ p.mem a j
    dropped_same valid a j ne = either (is_set (bit_and entry 0x3ff) pte_u) refl
      where
        either :
            (b : Bool)
            → is_set (bit_and entry 0x3ff) pte_u ≡ b
            → (if b then decr_ref_and_maybe_free p (frame_of entry) else p).mem a j ≡ p.mem a j
        either false e = refl
        either true e =
            decr_ref_and_maybe_free-mem p (frame_of entry) a j
              (λ at. ne (ap owner at ∙ leaves l₀ (vpn₀ va) (vpn₂ va) (vpn₁ va) own₀ valid e))

    clear_leaf-Clears : Clears p (clear_leaf l₀ (vpn₀ va) p) root owner va
    unfolding clear_leaf
    clear_leaf-Clears = either (is_set entry pte_v) refl
      where
        either :
            (b : Bool)
            → is_set entry pte_v ≡ b
            → Clears p
                (if b then put_entry l₀ (vpn₀ va) 0 (drop_user_page entry p) else p)
                root
                owner
                va
        either false e = same-Clears
        either true e = cleared-Clears (drop_user_page entry p) (dropped_same e)

-- A round at an address on a page boundary below the end of user memory goes on at least to the next
-- page, on a page boundary, and clears at most the entry of the page.
pub unmap_next-Clears :
    (p : Pmm) (root : ℕ) (owner : Owner) (va : ℕ)
    → IsTree p.mem root owner
    → UserLeaves p.mem owner
    → va % page_size ≡ 0
    → va < 2 ^ 39
    → Clears p (unmap_next root va p).1 root owner va
      × (va + page_size ≤ (unmap_next root va p).0)
      × ((unmap_next root va p).0 % page_size ≡ 0)
unfolding unmap_next
unmap_next-Clears p root owner va tree leaves aligned small =
    first (walk_level p.mem root (vpn₂ va)) refl
  where
    second :
        (l₁ : ℕ) (r : Result ℕ)
        → walk_level p.mem root (vpn₂ va) ≡ ok l₁
        → walk_level p.mem l₁ (vpn₁ va) ≡ r
        → let next = (elim r as (λ _. ℕ × Pmm) [
          | err e ↦ (page_floor (saturating_add va (2 ^ 21)), p)
          | ok l₀ ↦ ((va + page_size) % 2 ^ 64, clear_leaf l₀ (vpn₀ va) p)
        ]) in
          Clears p next.1 root owner va × (va + page_size ≤ next.0) × (next.0 % page_size ≡ 0)
    second l₁ (err e) e₁ e₀ = (same-Clears p root owner va tree leaves, omega arith, omega arith)
    second l₁ (ok l₀) e₁ e₀ =
        (clear_leaf-Clears p root owner va tree leaves l₁ l₀ e₁ e₀, omega arith, omega arith)

    first :
        (r : Result ℕ)
        → walk_level p.mem root (vpn₂ va) ≡ r
        → let next = (elim r as (λ _. ℕ × Pmm) [
          | err e ↦ (page_floor (saturating_add va (2 ^ 30)), p)
          | ok l₁ ↦ elim (walk_level p.mem l₁ (vpn₁ va)) [
            | err e ↦ (page_floor (saturating_add va (2 ^ 21)), p)
            | ok l₀ ↦ ((va + page_size) % 2 ^ 64, clear_leaf l₀ (vpn₀ va) p)
          ]
        ]) in
          Clears p next.1 root owner va × (va + page_size ≤ next.0) × (next.0 % page_size ≡ 0)
    first (err e) e₁ = (same-Clears p root owner va tree leaves, omega arith, omega arith)
    first (ok l₁) e₁ = second l₁ (walk_level p.mem l₁ (vpn₁ va)) e₁ refl
