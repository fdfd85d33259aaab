-- ===== src/Mm/Vmm/Agree.antt =====
-- Memories that agree on the page tables translate addresses alike.
use openv.Common.{
  ℕ, ◌+◌, ◌%◌, ◌≡◌, ◌≢◌, refl, sym, subst, ap, ◌∙◌, bit_or, bit_and, true, ◌/◌, arith,
}
use openv.Common.Bits.{bit_and_low, bit_or_below}
use openv.Mm.Pmm.{Memory}
use openv.Mm.Vmm.{
  pte_v, is_set, frame_of, Result, ok, err, ◌>>=◌, walk_level, walk_leaf, walk_page_table, vpn₂,
  vpn₁, vpn₀,
}
use openv.Mm.Vmm.Entry.{vpn₂-lt, vpn₁-lt}
use openv.Mm.Vmm.Tables.{
  mid, low, other, child, IsDirectory, Owner, IsTree, directory-not-other, low-not-other,
}
use openv.Mm.Vmm.Extend.{walk_level_eq, walk_leaf_eq, bind_cong}

module _ (mem mem' : Memory) (root : ℕ) (owner : Owner) (tree : IsTree mem root owner)
    (same : (a j : ℕ) → owner a ≢ other → mem' a j ≡ mem a j) where
  pub agree-level : (a j : ℕ) → IsDirectory (owner a) → walk_level mem' a j ≡ walk_level mem a j
  agree-level a j d = walk_level_eq mem mem' a j (same a j (directory-not-other (owner a) d))

  agree-from_mid :
      (a va : ℕ)
      → owner a ≡ mid (vpn₂ va)
      → (walk_level mem' a (vpn₁ va) >>= λ t. walk_leaf mem' t va)
        ≡ (walk_level mem a (vpn₁ va) >>= λ t. walk_leaf mem t va)
  agree-from_mid a va own =
      let d : IsDirectory (owner a) = subst IsDirectory (sym own) tt in
      bind_cong (walk_level mem a (vpn₁ va)) (walk_level mem' a (vpn₁ va)) _ _
        (agree-level a (vpn₁ va) d)
        (λ t e.
          let link : owner t ≡ low (vpn₂ va) (vpn₁ va) =
            tree.links a (vpn₁ va) t d (vpn₁-lt va) e ∙ ap (λ r. child r (vpn₁ va)) own in
          walk_leaf_eq mem mem' t va
            (same t (vpn₀ va) (low-not-other (vpn₂ va) (vpn₁ va) (owner t) link)))

  pub agree-walk : (va : ℕ) → walk_page_table mem' root va ≡ walk_page_table mem root va
  unfolding walk_page_table
  agree-walk va =
      let d : IsDirectory (owner root) = subst IsDirectory (sym tree.at_root) tt in
      bind_cong (walk_level mem root (vpn₂ va)) (walk_level mem' root (vpn₂ va)) _ _
        (agree-level root (vpn₂ va) d)
        (λ t e.
          agree-from_mid t va (
            tree.links root (vpn₂ va) t d (vpn₂-lt va) e
            ∙ ap (λ r. child r (vpn₂ va)) tree.at_root))

-- What a walk that succeeds passes.
pub bind-ok :
    {A B : Type 0} (r : Result A) (k : A → Result B) (b : B)
    → (r >>= k) ≡ ok b
    → (a : A) × (r ≡ ok a) × (k a ≡ ok b)
bind-ok (ok a) k b e = (a, refl, e)
bind-ok (err x) k b e = absurd cc

pub walk-parts :
    (mem : Memory) (root va pa flags : ℕ)
    → walk_page_table mem root va ≡ ok (pa, flags)
    → (l₁ : ℕ) × (l₀ : ℕ) × (walk_level mem root (vpn₂ va) ≡ ok l₁)
      × (walk_level mem l₁ (vpn₁ va) ≡ ok l₀)
      × (walk_leaf mem l₀ va ≡ ok (pa, flags))
unfolding walk_page_table
walk-parts mem root va pa flags e =
    let (l₁, e₁, r₁) = bind-ok (walk_level mem root (vpn₂ va)) _ (pa, flags) e in
    let (l₀, e₀, r₀) =
      bind-ok (walk_level mem l₁ (vpn₁ va)) (λ l₀. walk_leaf mem l₀ va) (pa, flags) r₁ in
    (l₁, l₀, e₁, e₀, r₀)

frame_offset : (e va : ℕ) → bit_or (frame_of e) (bit_and va 0xfff) ≡ frame_of e + va % 4096
unfolding frame_of
frame_offset e va =
    ap (bit_or (frame_of e)) (bit_and_low 12 va)
    ∙ ap (λ x. bit_or x (va % 4096)) (omega arith)
    ∙ bit_or_below 12 (frame_of e / 4096) (va % 4096) (omega arith)
    ∙ omega arith

leaf-valid :
    (mem : Memory) (l₀ va a flags : ℕ)
    → walk_leaf mem l₀ va ≡ ok (a, flags)
    → (is_set (mem l₀ (vpn₀ va)) pte_v ≡ true)
      × (bit_or (frame_of (mem l₀ (vpn₀ va))) (bit_and va 0xfff) ≡ a)
      × (bit_and (mem l₀ (vpn₀ va)) 0x3ff ≡ flags)
unfolding walk_leaf
leaf-valid mem l₀ va a flags e = ground arith

pub leaf-parts :
    (mem : Memory) (l₀ va pa flags : ℕ)
    → walk_leaf mem l₀ va ≡ ok (pa + va % 4096, flags)
    → (is_set (mem l₀ (vpn₀ va)) pte_v ≡ true)
      × (frame_of (mem l₀ (vpn₀ va)) ≡ pa)
      × (bit_and (mem l₀ (vpn₀ va)) 0x3ff ≡ flags)
unfolding walk_leaf
leaf-parts mem l₀ va pa flags e =
    let (valid, addr, bits) = leaf-valid mem l₀ va (pa + va % 4096) flags e in
    (valid, omega (arith, addr, frame_offset (mem l₀ (vpn₀ va)) va), bits)
