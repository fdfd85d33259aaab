-- ===== src/Mm/Vmm/Tables.antt =====
-- Page tables that do not share pages: what each page of the memory serves as.
use openv.Common.{
  ℕ, ◌+◌, ◌*◌, ◌%◌, ◌^◌, ◌≤◌, ◌<◌, ◌≡◌, ◌≢◌, refl, sym, ap, ◌∙◌, false, List, [], ◌∷◌, arith, ==_ne,
}
use openv.Mm.Pmm.{Pmm, Memory, write_word, page_size, max_pages}
use openv.Mm.Pmm.Chain.{All, Apart, Chain-frame}
use openv.Mm.Pmm.Frames.{IsFrame, IsFree, IsValid}
use openv.Mm.Vmm.{is_set, ok, walk_level, put_entry}
use openv.Mm.Vmm.Entry.{IsPage}

-- The root of the tables, a table of level 1 or of level 0 with the indices that lead to it, or a page
-- that is no table.
pub data Role : Type 0 where
  top : Role
  mid : ℕ → Role
  low : ℕ → ℕ → Role
  other : Role

-- What an entry of a table leads to.
abbrev pub child : Role → ℕ → Role
child top i = mid i
child (mid i) j = low i j
child (low i j) k = other
child other k = other

abbrev pub IsDirectory : Role → Type 0
IsDirectory top = Unit {0}
IsDirectory (mid i) = Unit {0}
IsDirectory (low i j) = ⊥
IsDirectory other = ⊥

abbrev pub Owner : Type 0
Owner = ℕ → Role

-- The tables under `root`: each entry that leads on leads to a page that serves as just this table, and
-- has no bit of a leaf.
pub record IsTree (mem : Memory) (root : ℕ) (owner : Owner) : Type 0 where
  pub at_root : owner root ≡ top
  pub links :
      (pt i t : ℕ)
      → IsDirectory (owner pt)
      → i < 512
      → walk_level mem pt i ≡ ok t
      → owner t ≡ child (owner pt) i
  pub no_leaf :
      (pt i t : ℕ)
      → IsDirectory (owner pt)
      → i < 512
      → walk_level mem pt i ≡ ok t
      → is_set (mem pt i) 14 ≡ false

-- The physical memory is valid, its frames fit entries, and no free page serves as a table.
pub record IsReady (p : Pmm) (free : List ℕ) (owner : Owner) : Type 0 where
  pub valid : IsValid p free
  pub aligned : p.ram_start % page_size ≡ 0
  pub bounded : p.ram_start + max_pages * page_size ≤ 2 ^ 56
  pub unowned : All (λ a. owner a ≡ other) free

pub IsFrame-IsPage :
    (p : Pmm) (a : ℕ)
    → p.ram_start % page_size ≡ 0
    → p.ram_start + max_pages * page_size ≤ 2 ^ 56
    → IsFrame p.ram_start a
    → IsPage a
IsFrame-IsPage p a aligned bounded f = (omega (arith, f.aligned, f.above), omega (arith, f.below))

-- A change of memory at a page that is not free keeps the physical memory valid.
pub change-IsValid :
    (p : Pmm) (free : List ℕ) (x : ℕ) (mem : Memory)
    → IsValid p free
    → Apart x free
    → ((a j : ℕ) → a ≢ x → mem a j ≡ p.mem a j)
    → IsValid (record p { mem = mem }) free
change-IsValid p free x mem v apart same = record {
  chain = Chain-frame p.mem mem x p.head free apart (λ a ne. same a 0 (λ e. ne (sym e))) v.chain;
  unused = still free apart v.unused;
  distinct = v.distinct;
}
  where
    still :
        (xs : List ℕ) → Apart x xs → All (IsFree p) xs → All (IsFree (record p { mem = mem })) xs
    still [] d u = tt
    still (y ∷ ys) d u = ((u.0.0, u.0.1, same y 1 (λ e. d.0 (sym e)) ∙ u.0.2), still ys d.1 u.1)

-- A write to a page that is not free keeps the physical memory valid.
pub put_entry-IsValid :
    (p : Pmm) (free : List ℕ) (pt i e : ℕ)
    → IsValid p free
    → Apart pt free
    → IsValid (put_entry pt i e p) free
put_entry-IsValid p free pt i e v apart =
    change-IsValid p free pt (write_word p.mem pt i e) v apart (λ a j ne. rw (==_ne a pt ne) refl)

-- A table is no free page.
pub owned-Apart :
    (owner : Owner) (x : ℕ) (xs : List ℕ)
    → owner x ≢ other
    → All (λ a. owner a ≡ other) xs
    → Apart x xs
owned-Apart owner x [] ne u = tt
owned-Apart owner x (a ∷ xs) ne u = (λ e. ne (ap owner e ∙ u.0), owned-Apart owner x xs ne u.1)

pub directory-not-other : (r : Role) → IsDirectory r → r ≢ other
directory-not-other top d e = cc
directory-not-other (mid i) d e = cc
directory-not-other (low i j) d e = d
directory-not-other other d e = d

-- A table of level 0 is a table.
pub low-not-other : (i j : ℕ) (r : Role) → r ≡ low i j → r ≢ other
low-not-other i j r e o = cc

-- Memory that agrees on the tables has the same tree, and walks in it are the same.
module _ (mem mem' : Memory) (root : ℕ) (owner : Owner) (tree : IsTree mem root owner)
    (same : (a j : ℕ) → owner a ≢ other → mem' a j ≡ mem a j) where
  level_agrees : (a j : ℕ) → owner a ≢ other → walk_level mem' a j ≡ walk_level mem a j
  unfolding walk_level
  level_agrees a j owned = rw (same a j owned) refl

  pub agree-IsTree : IsTree mem' root owner
  agree-IsTree = record {
    at_root = tree.at_root;
    links = λ a j t d lt e.
        tree.links a j t d lt (sym (level_agrees a j (directory-not-other (owner a) d)) ∙ e);
    no_leaf = λ a j t d lt e.
        ap (λ w. is_set w 14) (same a j (directory-not-other (owner a) d))
        ∙ tree.no_leaf a j t d lt (sym (level_agrees a j (directory-not-other (owner a) d)) ∙ e);
  }
