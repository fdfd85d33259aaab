-- ===== src/Mm/Vmm/Mapping.antt =====
-- `map_page` changes what one page of addresses is mapped to, and nothing else.
use openv.Common.{
  ℕ, ◌+◌, ◌%◌, ◌≤◌, ◌<◌, ◌≡◌, ◌≢◌, ◌⊎◌, refl, sym, subst, ap, ◌∙◌, bit_or, Bool, false, List, arith,
  inl, inr, eq-cases, ==_ne, length,
}
use openv.Mm.Pmm.{Pmm, Memory, returns, write_word}
use openv.Mm.Vmm.{
  pte_v, is_set, Result, ok, err, VmmError, unmapped, ◌>>=◌, walk_level, walk_leaf, walk_page_table,
  vpn₂, vpn₁, vpn₀, put_entry, leaf_entry, descend, put_leaf, map_page,
}
use openv.Mm.Vmm.Entry.{
  IsPage, vpn₂-lt, vpn₁-lt, leaf_entry_valid, frame_of-leaf_entry, flags-leaf_entry, offset_of,
}
use openv.Mm.Vmm.Tables.{
  top, mid, low, other, child, IsDirectory, Owner, IsTree, IsReady, put_entry-IsValid, owned-Apart,
  directory-not-other,
}
use openv.Mm.Vmm.Extend.{walk_level_eq, walk_leaf_eq, bind_cong}
use openv.Mm.Vmm.Descend.{Untouched, descend_lem}

-- The addresses of one page of four kilobytes.
abbrev pub SamePage : ℕ → ℕ → Type 0
SamePage va va' = (vpn₂ va ≡ vpn₂ va') × (vpn₁ va ≡ vpn₁ va') × (vpn₀ va ≡ vpn₀ va')

-- A walk over tables that are known.
pub walk_path :
    (mem : Memory) (root l₁ l₀ va : ℕ)
    → walk_level mem root (vpn₂ va) ≡ ok l₁
    → walk_level mem l₁ (vpn₁ va) ≡ ok l₀
    → walk_page_table mem root va ≡ walk_leaf mem l₀ va
unfolding walk_page_table
walk_path mem root l₁ l₀ va e₁ e₀ = rw (e₁, e₀) refl

-- A new entry in a table of level 0.
module _ (mem : Memory) (root : ℕ) (owner : Owner) (tree : IsTree mem root owner)
    (l₁ l₀ va entry : ℕ) (path₁ : walk_level mem root (vpn₂ va) ≡ ok l₁)
    (path₀ : walk_level mem l₁ (vpn₁ va) ≡ ok l₀) (own : owner l₀ ≡ low (vpn₂ va) (vpn₁ va)) where
  abbrev pub mem' : Memory
  mem' = write_word mem l₀ (vpn₀ va) entry

  level_kept : (a j : ℕ) → IsDirectory (owner a) → walk_level mem' a j ≡ walk_level mem a j
  level_kept a j d =
      walk_level_eq mem mem' a j
        (rw (==_ne a l₀ (λ e. subst IsDirectory (ap owner e ∙ own) d)) refl)

  pub leaf-IsTree : IsTree mem' root owner
  leaf-IsTree = record {
    at_root = tree.at_root;
    links = λ a j t d lt e. tree.links a j t d lt (sym (level_kept a j d) ∙ e);
    no_leaf = λ a j t d lt e.
        ap (λ w. is_set w 14) (rw (==_ne a l₀ (λ e'. subst IsDirectory (ap owner e' ∙ own) d)) refl)
        ∙ tree.no_leaf a j t d lt (sym (level_kept a j d) ∙ e);
  }

  pub leaf_at : (va' : ℕ) → vpn₀ va ≡ vpn₀ va' → mem' l₀ (vpn₀ va') ≡ entry
  leaf_at va' e = ground (arith, e)

  -- From a table of level 1 on.
  leaf_other :
      (a va' : ℕ)
      → owner a ≡ mid (vpn₂ va')
      → (SamePage va va' → ⊥)
      → (walk_level mem' a (vpn₁ va') >>= λ t. walk_leaf mem' t va')
        ≡ (walk_level mem a (vpn₁ va') >>= λ t. walk_leaf mem t va')
  leaf_other a va' own' away =
      let d : IsDirectory (owner a) = subst IsDirectory (sym own') tt in
      bind_cong (walk_level mem a (vpn₁ va')) (walk_level mem' a (vpn₁ va')) _ _
        (level_kept a (vpn₁ va') d)
        (λ t e.
          let link : owner t ≡ low (vpn₂ va') (vpn₁ va') =
            tree.links a (vpn₁ va') t d (vpn₁-lt va') e ∙ ap (λ r. child r (vpn₁ va')) own' in
          walk_leaf_eq mem mem' t va' (word t va' link away))
    where
      word :
          (t va' : ℕ)
          → owner t ≡ low (vpn₂ va') (vpn₁ va')
          → (SamePage va va' → ⊥)
          → mem' t (vpn₀ va') ≡ mem t (vpn₀ va')
      word t va' link away = elim (eq-cases t l₀) [
        | inr ne ↦ rw (==_ne t l₀ ne) refl
        | inl e ↦
            let same : low (vpn₂ va) (vpn₁ va) ≡ low (vpn₂ va') (vpn₁ va') =
              sym own ∙ sym (ap owner e) ∙ link in
            let ne : vpn₀ va' ≢ vpn₀ va = λ e'. away (cc, cc, sym e') in ground (arith, ne)
      ]

  pub walk-leaf_other :
      (va' : ℕ)
      → (SamePage va va' → ⊥)
      → walk_page_table mem' root va' ≡ walk_page_table mem root va'
  unfolding walk_page_table
  walk-leaf_other va' away =
      let d : IsDirectory (owner root) = subst IsDirectory (sym tree.at_root) tt in
      bind_cong (walk_level mem root (vpn₂ va')) (walk_level mem' root (vpn₂ va')) _ _
        (level_kept root (vpn₂ va') d)
        (λ t e.
          leaf_other t va'
            (tree.links root (vpn₂ va') t d (vpn₂-lt va') e
              ∙ ap (λ r. child r (vpn₂ va')) tree.at_root)
            away)

  pub walk-leaf_same :
      (own₁ : IsDirectory (owner l₁)) (va' : ℕ)
      → SamePage va va'
      → walk_page_table mem' root va' ≡ walk_leaf mem' l₀ va'
  walk-leaf_same own₁ va' (e₂, e₁, e₀) =
      walk_path mem' root l₁ l₀ va'
        (level_kept root (vpn₂ va') (subst IsDirectory (sym tree.at_root) tt)
          ∙ ap (walk_level mem root) (sym e₂)
          ∙ path₁)
        (level_kept l₁ (vpn₁ va') own₁ ∙ ap (walk_level mem l₁) (sym e₁) ∙ path₀)

walk_leaf-entry :
    (mem : Memory) (l₀ va pa flags : ℕ)
    → mem l₀ (vpn₀ va) ≡ leaf_entry pa flags
    → IsPage pa
    → flags < 1024
    → walk_leaf mem l₀ va ≡ ok (pa + va % 4096, bit_or 1 flags)
unfolding walk_leaf
walk_leaf-entry mem l₀ va pa flags e page small =
    rw
      (
        e,
        leaf_entry_valid pa flags page small,
        frame_of-leaf_entry pa flags page small,
        offset_of pa va page,
        flags-leaf_entry pa flags page small,
      )
      refl

bind-unmapped :
    {A B : Type 0} (r : Result A) (k : A → Result B)
    → (r >>= k) ≡ err unmapped
    → ((a : A) × (r ≡ ok a)) ⊎ (r ≡ err unmapped)
bind-unmapped (ok a) k e = inl (a, refl)
bind-unmapped {A} {B} (err x) k e = inr (err_cong x e)
  where
    err_cong :
        (x : VmmError)
        → ◌≡◌ {A = Result B} (err x) (err unmapped)
        → ◌≡◌ {A = Result A} (err x) (err unmapped)
    err_cong x e = cc

walk_leaf-unmapped :
    (mem : Memory) (l₀ va : ℕ)
    → walk_leaf mem l₀ va ≡ err unmapped
    → is_set (mem l₀ (vpn₀ va)) pte_v ≡ false
unfolding walk_leaf
walk_leaf-unmapped mem l₀ va e = ground arith

put_leaf-free :
    (pt i pa flags : ℕ) (p : Pmm)
    → is_set (p.mem pt i) pte_v ≡ false
    → put_leaf pt i pa flags p ≡ returns (ok tt, put_entry pt i (leaf_entry pa flags) p)
unfolding put_leaf
put_leaf-free pt i pa flags p e = rw e refl

-- What a walk without a mapping says of its levels.
root-cases :
    (mem : Memory) (root va : ℕ)
    → walk_page_table mem root va ≡ err unmapped
    → ((t : ℕ) × (walk_level mem root (vpn₂ va) ≡ ok t))
      ⊎ (walk_level mem root (vpn₂ va) ≡ err unmapped)
unfolding walk_page_table
root-cases mem root va e = bind-unmapped (walk_level mem root (vpn₂ va)) _ e

mid-cases :
    (mem : Memory) (root l₁ va : ℕ)
    → walk_page_table mem root va ≡ err unmapped
    → walk_level mem root (vpn₂ va) ≡ ok l₁
    → ((t : ℕ) × (walk_level mem l₁ (vpn₁ va) ≡ ok t))
      ⊎ (walk_level mem l₁ (vpn₁ va) ≡ err unmapped)
unfolding walk_page_table
mid-cases mem root l₁ va e e₁ =
    bind-unmapped (walk_level mem l₁ (vpn₁ va)) (λ l₀. walk_leaf mem l₀ va)
      (sym (ap (λ r. r >>= λ t. walk_level mem t (vpn₁ va) >>= λ l₀. walk_leaf mem l₀ va) e₁) ∙ e)

-- The state after a new leaf.
pub record Mapped (p p' : Pmm) (root : ℕ) (owner : Owner) (free : List ℕ) (va pa flags : ℕ)
    : Type 0 where
  pub tree : IsTree p'.mem root owner
  pub ready : IsReady p' free owner
  pub mapped :
      (va' : ℕ)
      → SamePage va va'
      → walk_page_table p'.mem root va' ≡ ok (pa + va' % 4096, bit_or 1 flags)
  pub others :
      (va' : ℕ)
      → (SamePage va va' → ⊥)
      → walk_page_table p'.mem root va' ≡ walk_page_table p.mem root va'

put_leaf-Mapped :
    (p : Pmm) (root : ℕ) (owner : Owner) (free : List ℕ) (l₁ l₀ va pa flags : ℕ)
    → IsTree p.mem root owner
    → IsReady p free owner
    → walk_level p.mem root (vpn₂ va) ≡ ok l₁
    → walk_level p.mem l₁ (vpn₁ va) ≡ ok l₀
    → owner l₁ ≡ mid (vpn₂ va)
    → owner l₀ ≡ low (vpn₂ va) (vpn₁ va)
    → IsPage pa
    → flags < 1024
    → Mapped p (put_entry l₀ (vpn₀ va) (leaf_entry pa flags) p) root owner free va pa flags
put_leaf-Mapped p root owner free l₁ l₀ va pa flags tree ready e₁ e₀ own₁ own page small =
    let entry : ℕ = leaf_entry pa flags in
    record {
      tree = leaf-IsTree p.mem root owner tree l₁ l₀ va entry e₁ e₀ own;
      ready = record {
        valid =
            put_entry-IsValid p free l₀ (vpn₀ va) entry ready.valid
              (owned-Apart owner l₀ free (λ o. cc) ready.unowned);
        aligned = ready.aligned;
        bounded = ready.bounded;
        unowned = ready.unowned;
      };
      mapped = λ va' same.
          walk-leaf_same p.mem root owner tree l₁ l₀ va entry e₁ e₀ own
            (subst IsDirectory (sym own₁) tt) va' same
          ∙ walk_leaf-entry (write_word p.mem l₀ (vpn₀ va) entry) l₀ va' pa flags
              (leaf_at p.mem root owner tree l₁ l₀ va entry e₁ e₀ own va' same.2) page small;
      others = λ va' away. walk-leaf_other p.mem root owner tree l₁ l₀ va entry e₁ e₀ own va' away;
    }

top-not-mid : (i : ℕ) → top ≡ mid i → ⊥
top-not-mid i e = cc

other-not-low : (i j : ℕ) → other ≡ low i j → ⊥
other-not-low i j e = cc

-- The three parts of `map_page`, one after the other.
map_page-runs :
    (debug : Bool) (root va pa flags : ℕ) (p p₁ p₂ p₃ : Pmm) (l₁ l₀ : ℕ)
    → descend debug root (vpn₂ va) p ≡ returns (ok l₁, p₁)
    → descend debug l₁ (vpn₁ va) p₁ ≡ returns (ok l₀, p₂)
    → put_leaf l₀ (vpn₀ va) pa flags p₂ ≡ returns (ok tt, p₃)
    → map_page debug root va pa flags p ≡ returns (ok tt, p₃)
unfolding map_page
map_page-runs debug root va pa flags p p₁ p₂ p₃ l₁ l₀ run₁ run₂ run₃ = rw run₁ (rw run₂ run₃)

-- With two frames to spare, `map_page` on an address that is not mapped succeeds and takes at most
-- two frames. It refines a map from pages to frames with one entry replaced: afterwards every address
-- of the page leads to its place in the new frame, with the flags and the valid bit, and every other
-- address leads to what it led to before. The tables stay a tree, the free list stays valid, and the
-- pages that are neither tables nor free keep their contents.
pub map_page_lem :
    (debug : Bool) (p : Pmm) (root : ℕ) (owner : Owner) (free : List ℕ) (va pa flags : ℕ)
    → IsTree p.mem root owner
    → IsReady p free owner
    → 1 < length free
    → walk_page_table p.mem root va ≡ err unmapped
    → IsPage pa
    → flags < 1024
    → (p' : Pmm) × (owner' : Owner) × (free' : List ℕ) × (map_page debug root va pa flags p
        ≡ returns (ok tt, p'))
      × Mapped p p' root owner' free' va pa flags
      × Untouched p p' owner owner' free free'
      × (length free ≤ 2 + length free')
map_page_lem debug p root owner free va pa flags tree ready frames gap page small =
    let (l₁, p₁, owner₁, free₁, run₁, d₁, still₁, spent₁) =
      descend_lem debug p root owner root (vpn₂ va) free tree
        (subst IsDirectory (sym tree.at_root) tt) (vpn₂-lt va) ready (omega arith)
        (root-cases p.mem root va gap) in
    let own₁ : owner₁ l₁ ≡ mid (vpn₂ va) = d₁.role ∙ ap (λ r. child r (vpn₂ va)) tree.at_root in
    let dir₁ : IsDirectory (owner₁ l₁) = subst IsDirectory (sym own₁) tt in
    let gap₁ : walk_page_table p₁.mem root va ≡ err unmapped = d₁.walks va ∙ gap in
    let (l₀, p₂, owner₂, free₂, run₂, d₂, still₂, spent₂) =
      descend_lem debug p₁ root owner₁ l₁ (vpn₁ va) free₁ d₁.tree dir₁ (vpn₁-lt va) d₁.ready
        (omega arith) (mid-cases p₁.mem root l₁ va gap₁ d₁.path) in
    let path₁ : walk_level p₂.mem root (vpn₂ va) ≡ ok l₁ =
      d₂.levels root (vpn₂ va) (subst IsDirectory (sym d₁.tree.at_root) tt)
        (inl (λ e. top-not-mid (vpn₂ va) (sym d₁.tree.at_root ∙ ap owner₁ e ∙ own₁)))
      ∙ d₁.path in
    let own₂ : owner₂ l₁ ≡ mid (vpn₂ va) =
      d₂.kept l₁ (directory-not-other (owner₁ l₁) dir₁) ∙ own₁ in
    let own₀ : owner₂ l₀ ≡ low (vpn₂ va) (vpn₁ va) = d₂.role ∙ ap (λ r. child r (vpn₁ va)) own₁ in
    let empty : is_set (p₂.mem l₀ (vpn₀ va)) pte_v ≡ false =
      walk_leaf-unmapped p₂.mem l₀ va
        (sym (walk_path p₂.mem root l₁ l₀ va path₁ d₂.path) ∙ d₂.walks va ∙ gap₁) in
    let m =
      put_leaf-Mapped p₂ root owner₂ free₂ l₁ l₀ va pa flags d₂.tree d₂.ready path₁ d₂.path own₂
        own₀ page small in
    (
      put_entry l₀ (vpn₀ va) (leaf_entry pa flags) p₂,
      owner₂,
      free₂,
      map_page-runs debug root va pa flags p p₁ p₂ _ l₁ l₀ run₁ run₂
          (put_leaf-free l₀ (vpn₀ va) pa flags p₂ empty),
      record {
        tree = m.tree;
        ready = m.ready;
        mapped = m.mapped;
        others = λ va' away. m.others va' away ∙ d₂.walks va' ∙ d₁.walks va';
      },
      λ a o off.
          let (o₁, off₁, same₁) = still₁ a o off in
          let (o₂, off₂, same₂) = still₂ a o₁ off₁ in
          let ne : a ≢ l₀ = λ e. other-not-low (vpn₂ va) (vpn₁ va) (sym o₂ ∙ ap owner₂ e ∙ own₀) in
          (o₂, off₂, λ j. rw (==_ne a l₀ ne) refl ∙ same₂ j ∙ same₁ j),
      omega arith,
    )
