-- ===== src/Mm/Vmm/Descend.antt =====
-- One round of `map_page`: the next table is there, or a frame becomes it.
use openv.Common.{
  ℕ, suc, ◌%◌, ◌≤◌, ◌<◌, ◌≡◌, ◌≢◌, ◌⊎◌, refl, sym, ap, ◌∙◌, bit_or, Bool, true, false, some, List,
  [], ◌∷◌, arith, inl, inr, ==_ne, ==_refl, length,
}
use openv.Mm.Pmm.{Pmm, Memory, returns, page_size, alloc_frame}
use openv.Mm.Pmm.Chain.{All, Apart}
use openv.Mm.Pmm.Frames.{IsValid, OnlyAt, alloc_frame_lem}
use openv.Mm.Vmm.{
  pte_v, is_set, frame_of, entry_of, ok, err, unmapped, walk_level, walk_page_table, alloc_or_fail,
  and_then, put_entry, ensure_table, next_table, descend,
}
use openv.Mm.Vmm.Entry.{IsPage, frame_of-table_entry, table_entry_valid, table_entry_no_leaf}
use openv.Mm.Vmm.Tables.{
  Role, other, child, IsDirectory, Owner, IsTree, IsReady, IsFrame-IsPage, put_entry-IsValid,
  owned-Apart, directory-not-other,
}
use openv.Mm.Vmm.Extend.{Extends, Extends-IsTree, walk-Extends, level_same, give}

pub walk_level-ok :
    (mem : Memory) (pt i t : ℕ)
    → walk_level mem pt i ≡ ok t
    → (is_set (mem pt i) pte_v ≡ true) × (frame_of (mem pt i) ≡ t)
unfolding walk_level
walk_level-ok mem pt i t e = ground arith

pub walk_level-unmapped :
    (mem : Memory) (pt i : ℕ) → walk_level mem pt i ≡ err unmapped → is_set (mem pt i) pte_v ≡ false
unfolding walk_level
walk_level-unmapped mem pt i e = ground arith

level_of_entry :
    (mem : Memory) (pt i f : ℕ)
    → IsPage f
    → mem pt i ≡ bit_or (entry_of f) 1
    → walk_level mem pt i ≡ ok f
unfolding walk_level
level_of_entry mem pt i f page e =
    rw (e, table_entry_valid f page, (table_entry_no_leaf f page).0, frame_of-table_entry f page)
      refl

pub alloc_or_fail-some :
    (debug : Bool) (p p₁ : Pmm) (f : ℕ)
    → alloc_frame debug p ≡ returns (some f, p₁)
    → alloc_or_fail debug p ≡ returns (ok f, p₁)
unfolding alloc_or_fail
alloc_or_fail-some debug p p₁ f e = rw (e, alloc_or_fail) refl

-- The pages that are neither tables nor free are left alone.
abbrev pub Untouched : Pmm → Pmm → Owner → Owner → List ℕ → List ℕ → Type 0
Untouched p p' owner owner' free free' =
    (a : ℕ)
    → owner a ≡ other
    → Apart a free
    → (owner' a ≡ other) × Apart a free' × ((j : ℕ) → p'.mem a j ≡ p.mem a j)

-- The state after a round whose table is `t`.
pub record Descended (p p' : Pmm) (root : ℕ) (owner owner' : Owner) (free' : List ℕ) (pt i t : ℕ)
    : Type 0 where
  pub tree : IsTree p'.mem root owner'
  pub ready : IsReady p' free' owner'
  pub role : owner' t ≡ child (owner pt) i
  pub kept : (a : ℕ) → owner a ≢ other → owner' a ≡ owner a
  pub walks : (va : ℕ) → walk_page_table p'.mem root va ≡ walk_page_table p.mem root va
  pub path : walk_level p'.mem pt i ≡ ok t
  pub levels :
      (a j : ℕ)
      → IsDirectory (owner a)
      → (a ≢ pt) ⊎ (j ≢ i)
      → walk_level p'.mem a j ≡ walk_level p.mem a j

module _ (debug : Bool) (p : Pmm) (root : ℕ) (owner : Owner) (pt i : ℕ)
    (tree : IsTree p.mem root owner) (dir : IsDirectory (owner pt)) (lt : i < 512) where
  descend-present :
      (t : ℕ) → walk_level p.mem pt i ≡ ok t → descend debug pt i p ≡ returns (ok t, p)
  unfolding descend ensure_table next_table
  descend-present t e =
      let (valid, frame) = walk_level-ok p.mem pt i t e in
      rw (valid, tree.no_leaf pt i t dir lt e, frame) refl

  present-Descended :
      (free : List ℕ) (t : ℕ)
      → IsReady p free owner
      → walk_level p.mem pt i ≡ ok t
      → Descended p p root owner owner free pt i t
  present-Descended free t ready e = record {
    tree = tree;
    ready = ready;
    role = tree.links pt i t dir lt e;
    kept = λ a ne. refl;
    walks = λ va. refl;
    path = e;
    levels = λ a j d away. refl;
  }

  module _ (f : ℕ) (fs : List ℕ) (ready : IsReady p (f ∷ fs) owner)
      (gap : walk_level p.mem pt i ≡ err unmapped) where
    abbrev child_role : Role
    child_role = child (owner pt) i

    f-IsPage : IsPage f
    f-IsPage = IsFrame-IsPage p f ready.aligned ready.bounded ready.valid.unused.0.0

    pt_ne : f ≢ pt
    pt_ne e = directory-not-other (owner pt) dir (ap owner (sym e) ∙ ready.unowned.0)

    module _ (p₁ : Pmm) (alloc : alloc_frame debug p ≡ returns (some f, p₁)) (v : IsValid p₁ fs)
        (apart : Apart f fs) (zero_page : (j : ℕ) → p₁.mem f j ≡ 0) (only : OnlyAt f p p₁) where
      abbrev after : Pmm
      after = put_entry pt i (bit_or (entry_of f) 1) p₁

      at_entry : after.mem pt i ≡ bit_or (entry_of f) 1
      at_entry = ground arith

      after-Extends : Extends p.mem after.mem pt i f
      after-Extends = record {
        same = λ a j ne away. still a j ne away;
        fresh = λ j. rw (==_ne f pt pt_ne) (zero_page j);
        linked = level_of_entry after.mem pt i f f-IsPage at_entry;
        plain = ap (λ e. is_set e 14) at_entry ∙ (table_entry_no_leaf f f-IsPage).1;
        was = gap;
      }
        where
          still : (a j : ℕ) → a ≢ f → (a ≢ pt) ⊎ (j ≢ i) → after.mem a j ≡ p.mem a j
          still a j ne (inl away) = rw (==_ne a pt away) (only.2 a (λ e. ne (sym e)) j)
          still a j ne (inr away) =
              let same : p₁.mem a j ≡ p.mem a j = only.2 a (λ e. ne (sym e)) j in
              ground (arith, same)

      ensure_table-absent : ensure_table debug pt i p ≡ returns (ok tt, after)
      unfolding ensure_table
      ensure_table-absent =
          rw (walk_level-unmapped p.mem pt i gap, alloc_or_fail-some debug p p₁ f alloc) refl

      next_table-after : next_table pt i after ≡ returns (ok f, after)
      unfolding next_table
      next_table-after =
          rw (after-Extends.plain, (walk_level-ok after.mem pt i f after-Extends.linked).1) refl

      descend-absent : descend debug pt i p ≡ returns (ok f, after)
      unfolding descend
      descend-absent =
          ap (λ o. and_then o (λ _. next_table pt i)) ensure_table-absent ∙ next_table-after

      still_unowned :
          (xs : List ℕ)
          → Apart f xs
          → All (λ a. owner a ≡ other) xs
          → All (λ a. give owner f child_role a ≡ other) xs
      still_unowned [] d u = tt
      still_unowned (x ∷ xs) d u = (rw (==_ne x f (λ e. d.0 (sym e))) u.0, still_unowned xs d.1 u.1)

      absent-Descended : Descended p after root owner (give owner f child_role) fs pt i f
      absent-Descended = record {
        tree =
            Extends-IsTree p.mem after.mem root pt i f owner tree ready.unowned.0 dir after-Extends;
        ready = record {
          valid =
              put_entry-IsValid p₁ fs pt i (bit_or (entry_of f) 1) v
                (owned-Apart owner pt fs (directory-not-other (owner pt) dir) ready.unowned.1);
          aligned = ap (λ b. b % page_size) only.0 ∙ ready.aligned;
          bounded = omega (arith, only.0, ready.bounded);
          unowned = still_unowned fs apart ready.unowned.1;
        };
        role = rw (==_refl f) refl;
        kept = λ a owned. rw (==_ne a f (λ e. owned (ap owner e ∙ ready.unowned.0))) refl;
        walks =
            walk-Extends p.mem after.mem root pt i f owner tree ready.unowned.0 dir after-Extends;
        path = after-Extends.linked;
        levels =
            level_same p.mem after.mem root pt i f owner tree ready.unowned.0 dir after-Extends;
      }

      absent-Untouched : Untouched p after owner (give owner f child_role) (f ∷ fs) fs
      absent-Untouched a own (ne, off) =
          let away : a ≢ pt = λ e. directory-not-other (owner pt) dir (ap owner (sym e) ∙ own) in
          (rw (==_ne a f ne) own, off, λ j. rw (==_ne a pt away) (only.2 a (λ e. ne (sym e)) j))

-- With a frame to spare, a round at an entry that is a table or not valid gives the next table, keeps
-- the tree and what every address maps to, and takes at most one frame.
pub descend_lem :
    (debug : Bool) (p : Pmm) (root : ℕ) (owner : Owner) (pt i : ℕ) (free : List ℕ)
    → IsTree p.mem root owner
    → IsDirectory (owner pt)
    → i < 512
    → IsReady p free owner
    → 0 < length free
    → ((t : ℕ) × (walk_level p.mem pt i ≡ ok t)) ⊎ (walk_level p.mem pt i ≡ err unmapped)
    → (t : ℕ) × (p' : Pmm) × (owner' : Owner) × (free' : List ℕ) × (descend debug pt i p
        ≡ returns (ok t, p'))
      × Descended p p' root owner owner' free' pt i t
      × Untouched p p' owner owner' free free'
      × (length free ≤ suc (length free'))
descend_lem debug p root owner pt i free tree dir lt ready some_free (inl (t, e)) = (
  t,
  p,
  owner,
  free,
  descend-present debug p root owner pt i tree dir lt t e,
  present-Descended debug p root owner pt i tree dir lt free t ready e,
  λ a own off. (own, off, λ j. refl),
  omega arith,
)
descend_lem debug p root owner pt i [] tree dir lt ready some_free (inr gap) = absurd (omega arith)
descend_lem debug p root owner pt i (f ∷ fs) tree dir lt ready some_free (inr gap) =
    let (p₁, alloc, v, apart, count, zero_page, only) = alloc_frame_lem debug p f fs ready.valid in
    (
      f,
      after debug p root owner pt i tree dir lt f fs ready gap p₁ alloc v apart zero_page only,
      give owner f (child (owner pt) i),
      fs,
      descend-absent debug p root owner pt i tree dir lt f fs ready gap p₁ alloc v apart zero_page
          only,
      absent-Descended debug p root owner pt i tree dir lt f fs ready gap p₁ alloc v apart zero_page
          only,
      absent-Untouched debug p root owner pt i tree dir lt f fs ready gap p₁ alloc v apart zero_page
          only,
      omega arith,
    )
