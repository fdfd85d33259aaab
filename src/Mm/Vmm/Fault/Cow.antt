-- ===== src/Mm/Vmm/Fault/Cow.antt =====
-- A write to a shared page gives the writer a page of its own.
use openv.Common.{
  ℕ, suc, ◌+◌, ◌-◌, ◌%◌, ◌≤◌, ◌<◌, ◌≡◌, ◌≢◌, refl, sym, subst, ap, ◌∙◌, bit_and, Bool, true, false,
  List, [], ◌∷◌, arith, inl, inr, ==_ne, ==_refl, length,
}
use openv.Common.Bits.{bit_and_low}
use openv.Mm.Pmm.{
  Pmm, Memory, returns, page_index, page_size, is_managed_page, decr_ref_and_maybe_free,
}
use openv.Mm.Pmm.Chain.{All, Apart}
use openv.Mm.Pmm.Frames.{
  IsFrame, IsValid, OnlyAt, Drops, alloc_frame_lem, decr_ref_and_maybe_free-IsValid,
  is_managed_frame, page_index_injective,
}
use openv.Mm.Vmm.{
  pte_v, pte_w, pte_cow, is_set, frame_of, vpn₂, vpn₁, vpn₀, ok, walk_level, walk_leaf,
  walk_page_table, alloc_or_fail, put_entry,
}
use openv.Mm.Vmm.Entry.{IsPage, cow_entry-parts, offset_of, vpn₂-lt, vpn₁-lt}
use openv.Mm.Vmm.Tables.{
  mid, low, other, child, IsDirectory, Owner, IsTree, IsReady, IsFrame-IsPage, change-IsValid,
  put_entry-IsValid, owned-Apart, agree-IsTree, low-not-other,
}
use openv.Mm.Vmm.Mapping.{SamePage, leaf-IsTree, leaf_at, walk-leaf_other, walk-leaf_same}
use openv.Mm.Vmm.Agree.{agree-level, agree-walk, walk-parts, leaf-parts}
use openv.Mm.Vmm.Descend.{alloc_or_fail-some}
use openv.Mm.Vmm.Fault.{
  copy_page, cow_flags, cow_entry, replace_page, cow_page, fault_leaf, handle_store_page_fault,
}
use openv.Mm.Vmm.Fault.Flags.{new_flags, new_flags-IsWritable}

-- The state after the copy of page `pa` to the frame `f`.
pub record Copied (p p' : Pmm) (root : ℕ) (owner : Owner) (free : List ℕ) (va pa flags f : ℕ)
    : Type 0 where
  pub tree : IsTree p'.mem root owner
  pub ready : IsReady p' free owner
  pub mapped :
      (va' : ℕ)
      → SamePage va va'
      → walk_page_table p'.mem root va' ≡ ok (f + va' % 4096, new_flags flags)
  pub others :
      (va' : ℕ)
      → (SamePage va va' → ⊥)
      → walk_page_table p'.mem root va' ≡ walk_page_table p.mem root va'
  pub writable :
      (is_set (new_flags flags) pte_w ≡ true)
      × (is_set (new_flags flags) pte_cow ≡ false)
      × (bit_and (new_flags flags) 762 ≡ bit_and flags 762)
  pub contents : (j : ℕ) → p'.mem f j ≡ p.mem pa j
  pub counted : p'.counts (page_index p.ram_start f) ≡ 1
  pub dropped : p'.counts (page_index p.ram_start pa) ≡ p.counts (page_index p.ram_start pa) - 1

walk_leaf-cow :
    (mem : Memory) (l₀ va f flags : ℕ)
    → mem l₀ (vpn₀ va) ≡ cow_entry f flags
    → IsPage f
    → bit_and (cow_flags flags) 0x3ff < 1024
    → walk_leaf mem l₀ va ≡ ok (f + va % 4096, new_flags flags)
unfolding walk_leaf
walk_leaf-cow mem l₀ va f flags e page small =
    let (frame, bits, valid) = cow_entry-parts f (bit_and (cow_flags flags) 0x3ff) page small in
    rw (e, valid, frame, offset_of f va page, bits) refl

module _ (debug : Bool) (p : Pmm) (root : ℕ) (owner : Owner) (f : ℕ) (free : List ℕ)
    (va pa flags l₁ l₀ : ℕ) (tree : IsTree p.mem root owner) (ready : IsReady p (f ∷ free) owner)
    (frame : IsFrame p.ram_start pa) (spare : owner pa ≡ other)
    (used : 0 < p.counts (page_index p.ram_start pa)) (e₁ : walk_level p.mem root (vpn₂ va) ≡ ok l₁)
    (e₀ : walk_level p.mem l₁ (vpn₁ va) ≡ ok l₀) (p₁ : Pmm) (v : IsValid p₁ free)
    (apart : Apart f free) (count : p₁.counts (page_index p.ram_start f) ≡ 1) (only : OnlyAt f p p₁)
    (small : flags < 1024) where
  f-IsFrame : IsFrame p.ram_start f
  f-IsFrame = ready.valid.unused.0.0

  f-IsPage : IsPage f
  f-IsPage = IsFrame-IsPage p f ready.aligned ready.bounded f-IsFrame

  f_ne_pa : f ≢ pa
  f_ne_pa e =
      absurd (
        omega
          (arith, used, ready.valid.unused.0.1, ap (λ k. p.counts (page_index p.ram_start k)) e))

  owned_ne : (a : ℕ) → owner a ≢ other → a ≢ f
  owned_ne a ne e = ne (ap owner e ∙ ready.unowned.0)

  abbrev copied : Pmm
  copied = record p₁ { mem = copy_page p₁.mem pa f }

  copied_same : (a j : ℕ) → owner a ≢ other → copied.mem a j ≡ p.mem a j
  copied_same a j ne =
      let away : a ≢ f = owned_ne a ne in rw (==_ne a f away) (only.2 a (λ e. away (sym e)) j)

  copied-IsTree : IsTree copied.mem root owner
  copied-IsTree = agree-IsTree p.mem copied.mem root owner tree copied_same

  copied-IsValid : IsValid copied free
  copied-IsValid =
      change-IsValid p₁ free f (copy_page p₁.mem pa f) v apart (λ a j ne. rw (==_ne a f ne) refl)

  root_dir : IsDirectory (owner root)
  root_dir = subst IsDirectory (sym tree.at_root) tt

  own₁ : owner l₁ ≡ mid (vpn₂ va)
  own₁ =
      tree.links root (vpn₂ va) l₁ root_dir (vpn₂-lt va) e₁
      ∙ ap (λ r. child r (vpn₂ va)) tree.at_root

  dir₁ : IsDirectory (owner l₁)
  dir₁ = subst IsDirectory (sym own₁) tt

  own₀ : owner l₀ ≡ low (vpn₂ va) (vpn₁ va)
  own₀ = tree.links l₁ (vpn₁ va) l₀ dir₁ (vpn₁-lt va) e₀ ∙ ap (λ r. child r (vpn₁ va)) own₁

  l₀_owned : owner l₀ ≢ other
  l₀_owned = low-not-other (vpn₂ va) (vpn₁ va) (owner l₀) own₀

  c₁ : walk_level copied.mem root (vpn₂ va) ≡ ok l₁
  c₁ = agree-level p.mem copied.mem root owner tree copied_same root (vpn₂ va) root_dir ∙ e₁

  c₀ : walk_level copied.mem l₁ (vpn₁ va) ≡ ok l₀
  c₀ = agree-level p.mem copied.mem root owner tree copied_same l₁ (vpn₁ va) dir₁ ∙ e₀

  abbrev linked : Pmm
  linked = put_entry l₀ (vpn₀ va) (cow_entry f flags) copied

  linked-IsTree : IsTree linked.mem root owner
  linked-IsTree =
      leaf-IsTree copied.mem root owner copied-IsTree l₁ l₀ va (cow_entry f flags) c₁ c₀ own₀

  linked-IsValid : IsValid linked free
  linked-IsValid =
      put_entry-IsValid copied free l₀ (vpn₀ va) (cow_entry f flags) copied-IsValid
        (owned-Apart owner l₀ free l₀_owned ready.unowned.1)

  linked_count : linked.counts (page_index p.ram_start pa) ≡ p.counts (page_index p.ram_start pa)
  linked_count =
      only.1 (page_index p.ram_start pa)
        (page_index_injective p.ram_start f pa f-IsFrame frame f_ne_pa)

  linked-Drops : Drops linked pa free (decr_ref_and_maybe_free linked pa)
  linked-Drops =
      decr_ref_and_maybe_free-IsValid linked pa free linked-IsValid
        (subst (λ b. IsFrame b pa) (sym only.0) frame)
        (omega (arith, used, linked_count, ap (λ b. linked.counts (page_index b pa)) only.0))

  abbrev after : Pmm
  after = decr_ref_and_maybe_free linked pa

  after_same : (a j : ℕ) → owner a ≢ other → after.mem a j ≡ linked.mem a j
  after_same a j ne = linked-Drops.1.2 a (λ e. ne (ap owner (sym e) ∙ spare)) j

  after_start : after.ram_start ≡ p.ram_start
  after_start = linked-Drops.1.0 ∙ only.0

  -- The frames that are free afterwards.
  after_free : (free' : List ℕ) × IsReady after free' owner × (length free ≤ length free')
  after_free = elim linked-Drops.2 [
    | inl (many, valid, kept) ↦ (free, all_ready free valid ready.unowned.1, omega arith)
    | inr (last, valid) ↦
        (pa ∷ free, all_ready (pa ∷ free) valid (spare, ready.unowned.1), omega arith)
  ]
    where
      all_ready :
          (xs : List ℕ) → IsValid after xs → All (λ a. owner a ≡ other) xs → IsReady after xs owner
      all_ready xs valid unowned = record {
        valid = valid;
        aligned = ap (λ b. b % page_size) after_start ∙ ready.aligned;
        bounded = omega (arith, after_start, ready.bounded);
        unowned = unowned;
      }

  after-walk : (va' : ℕ) → walk_page_table after.mem root va' ≡ walk_page_table linked.mem root va'
  after-walk = agree-walk linked.mem after.mem root owner linked-IsTree after_same

  -- From the copy on.
  after-Copied :
      (free' : List ℕ) → IsReady after free' owner → Copied p after root owner free' va pa flags f
  after-Copied free' ready' = record {
    tree = agree-IsTree linked.mem after.mem root owner linked-IsTree after_same;
    ready = ready';
    mapped = λ va' same.
        after-walk va'
        ∙ walk-leaf_same copied.mem root owner copied-IsTree l₁ l₀ va (cow_entry f flags) c₁ c₀ own₀
            dir₁ va' same
        ∙ walk_leaf-cow linked.mem l₀ va' f flags
            (leaf_at copied.mem root owner copied-IsTree l₁ l₀ va (cow_entry f flags) c₁ c₀ own₀ va'
              same.2)
            f-IsPage (omega (arith, bit_and_low 10 (cow_flags flags)));
    others = λ va' away.
        after-walk va'
        ∙ walk-leaf_other copied.mem root owner copied-IsTree l₁ l₀ va (cow_entry f flags) c₁ c₀
            own₀ va' away
        ∙ agree-walk p.mem copied.mem root owner tree copied_same va';
    writable = new_flags-IsWritable flags small;
    contents = λ j.
        linked-Drops.1.2 f (λ e. f_ne_pa (sym e)) j
        ∙ rw (==_ne f l₀ (λ e. owned_ne l₀ l₀_owned (sym e)), ==_refl f) refl
        ∙ only.2 pa f_ne_pa j;
    counted =
        linked-Drops.1.1 (page_index p.ram_start f) (λ e.
          page_index_injective p.ram_start f pa f-IsFrame frame f_ne_pa
            (sym e ∙ ap (λ b. page_index b pa) only.0))
        ∙ count;
    dropped =
        ap (λ b. after.counts (page_index b pa)) (sym only.0)
        ∙ linked-Drops.0
        ∙ omega (arith, linked_count, ap (λ b. linked.counts (page_index b pa)) only.0);
  }

-- The branches of the handler that lead to the copy.
handle_store_page_fault-runs :
    (debug : Bool) (root va pa flags l₁ l₀ f : ℕ) (p p₁ : Pmm)
    → walk_level p.mem root (vpn₂ va) ≡ ok l₁
    → walk_level p.mem l₁ (vpn₁ va) ≡ ok l₀
    → is_set (p.mem l₀ (vpn₀ va)) pte_v ≡ true
    → frame_of (p.mem l₀ (vpn₀ va)) ≡ pa
    → bit_and (p.mem l₀ (vpn₀ va)) 0x3ff ≡ flags
    → is_set flags pte_cow ≡ true
    → is_managed_page p.ram_start pa ≡ true
    → alloc_or_fail debug p ≡ returns (ok f, p₁)
    → handle_store_page_fault debug root va p
      ≡ returns (ok tt, replace_page l₀ (vpn₀ va) pa flags f p₁)
unfolding handle_store_page_fault fault_leaf cow_page
handle_store_page_fault-runs debug root va pa flags l₁ l₀ f p p₁ e₁ e₀ valid at bits cow managed
      alloc =
    rw (e₁, e₀, valid, at, bits, cow, managed, alloc) refl

-- When an address leads to a frame in use, be it by this page alone, with the copy-on-write bit and
-- a frame is free, the handler of a store fault succeeds: the addresses of the page then lead to a
-- frame with count 1 and the same contents, whose flags allow writes and no longer ask for a copy;
-- one reference to the old frame is dropped; every other address leads to what it led to before;
-- the tables stay a tree and the free list stays valid.
pub handle_store_page_fault_lem :
    (debug : Bool) (p : Pmm) (root : ℕ) (owner : Owner) (free : List ℕ) (va pa flags : ℕ)
    → IsTree p.mem root owner
    → IsReady p free owner
    → 0 < length free
    → walk_page_table p.mem root va ≡ ok (pa + va % 4096, flags)
    → is_set flags pte_cow ≡ true
    → IsFrame p.ram_start pa
    → owner pa ≡ other
    → 0 < p.counts (page_index p.ram_start pa)
    → (p' : Pmm) × (free' : List ℕ) × (f : ℕ) × (handle_store_page_fault debug root va p
        ≡ returns (ok tt, p'))
      × Copied p p' root owner free' va pa flags f
      × (length free ≤ suc (length free'))
unfolding replace_page
handle_store_page_fault_lem debug p root owner [] va pa flags tree ready frames walk cow frame spare
      used =
    absurd (omega arith)
handle_store_page_fault_lem debug p root owner (f ∷ free) va pa flags tree ready frames walk cow
      frame spare used =
    let (l₁, l₀, e₁, e₀, leaf) = walk-parts p.mem root va (pa + va % 4096) flags walk in
    let (valid, at, bits) = leaf-parts p.mem l₀ va pa flags leaf in
    let (p₁, alloc, v, apart, count, zero_page, only) =
      alloc_frame_lem debug p f free ready.valid in
    let small : flags < 1024 = omega (arith, bits, bit_and_low 10 (p.mem l₀ (vpn₀ va))) in
    let (free', ready', many) =
      after_free debug p root owner f free va pa flags l₁ l₀ tree ready frame spare used e₁ e₀ p₁ v
        apart count only small in
    (
      after debug p root owner f free va pa flags l₁ l₀ tree ready frame spare used e₁ e₀ p₁ v apart
          count only small,
      free',
      f,
      handle_store_page_fault-runs debug root va pa flags l₁ l₀ f p p₁ e₁ e₀ valid at bits cow
          (is_managed_frame p.ram_start pa frame) (alloc_or_fail-some debug p p₁ f alloc),
      after-Copied debug p root owner f free va pa flags l₁ l₀ tree ready frame spare used e₁ e₀ p₁
          v apart count only small free' ready',
      omega arith,
    )
