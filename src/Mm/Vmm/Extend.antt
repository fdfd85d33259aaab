-- ===== src/Mm/Vmm/Extend.antt =====
-- A new table under an entry that was not valid: the tree stays one, and no address is mapped by it.
use openv.Common.{
  ℕ, ◌<◌, ◌≡◌, ◌≢◌, ◌⊎◌, refl, sym, subst, ap, ◌∙◌, false, ◌==◌, if◌then◌else◌, eq-cases, inl, inr,
  ==_ne, ==_refl,
}
use openv.Mm.Pmm.{Memory}
use openv.Mm.Vmm.{
  is_set, Result, ok, err, unmapped, ◌>>=◌, walk_level, walk_leaf, walk_page_table, vpn₂, vpn₁,
  vpn₀,
}
use openv.Mm.Vmm.Entry.{vpn₂-lt, vpn₁-lt}
use openv.Mm.Vmm.Tables.{
  Role, top, mid, low, other, child, IsDirectory, Owner, IsTree, directory-not-other,
}

pub record Extends (mem mem' : Memory) (pt i f : ℕ) : Type 0 where
  pub same : (a j : ℕ) → a ≢ f → (a ≢ pt) ⊎ (j ≢ i) → mem' a j ≡ mem a j
  pub fresh : (j : ℕ) → mem' f j ≡ 0
  pub linked : walk_level mem' pt i ≡ ok f
  pub plain : is_set (mem' pt i) 14 ≡ false
  pub was : walk_level mem pt i ≡ err unmapped

pub walk_level_eq :
    (mem mem' : Memory) (a j : ℕ) → mem' a j ≡ mem a j → walk_level mem' a j ≡ walk_level mem a j
unfolding walk_level
walk_level_eq mem mem' a j e = rw e refl

pub walk_leaf_eq :
    (mem mem' : Memory) (a va : ℕ)
    → mem' a (vpn₀ va) ≡ mem a (vpn₀ va)
    → walk_leaf mem' a va ≡ walk_leaf mem a va
unfolding walk_leaf
walk_leaf_eq mem mem' a va e = rw e refl

pub walk_level-zero : (mem : Memory) (a j : ℕ) → mem a j ≡ 0 → walk_level mem a j ≡ err unmapped
unfolding walk_level
walk_level-zero mem a j e = rw e refl

walk_leaf-zero : (mem : Memory) (a va : ℕ) → mem a (vpn₀ va) ≡ 0 → walk_leaf mem a va ≡ err unmapped
unfolding walk_leaf
walk_leaf-zero mem a va e = rw e refl

pub child-not-other : (r : Role) (i : ℕ) → IsDirectory r → child r i ≢ other
child-not-other top i d e = cc
child-not-other (mid j) i d e = cc
child-not-other (low j k) i d e = d
child-not-other other i d e = d

ok-injective : (t u : ℕ) → ok t ≡ ok u → t ≡ u
ok-injective t u e = cc

-- Whether a word is the entry that changes.
pub entry-cases : (pt i a j : ℕ) → ((a ≡ pt) × (j ≡ i)) ⊎ ((a ≢ pt) ⊎ (j ≢ i))
entry-cases pt i a j = elim (eq-cases a pt) [
  | inr ne ↦ inr (inl ne)
  | inl e ↦ elim (eq-cases j i) [ inl e' ↦ inl (e, e') | inr ne ↦ inr (inr ne) ]
]

abbrev pub give : Owner → ℕ → Role → Owner
give owner f c a = if a == f then c else owner a

give_self : (owner : Owner) (f : ℕ) (c : Role) → give owner f c f ≡ c
give_self owner f c = rw (==_refl f) refl

give_other : (owner : Owner) (f a : ℕ) (c : Role) → a ≢ f → give owner f c a ≡ owner a
give_other owner f a c ne = rw (==_ne a f ne) refl

pub bind_cong :
    {A B : Type 0} (r r' : Result A) (k k' : A → Result B)
    → r' ≡ r
    → ((a : A) → r ≡ ok a → k' a ≡ k a)
    → (r' >>= k') ≡ (r >>= k)
bind_cong (ok a) r' k k' e h = ap (λ x. x >>= k') e ∙ h a refl
bind_cong (err x) r' k k' e h = ap (λ x. x >>= k') e

module _ (mem mem' : Memory) (root pt i f : ℕ) (owner : Owner) (tree : IsTree mem root owner)
    (free : owner f ≡ other) (dir : IsDirectory (owner pt)) (ext : Extends mem mem' pt i f) where
  owned_ne : (a : ℕ) → owner a ≢ other → a ≢ f
  owned_ne a ne e = ne (ap owner e ∙ free)

  directory_ne : (a : ℕ) → IsDirectory (owner a) → a ≢ f
  directory_ne a d = owned_ne a (directory-not-other (owner a) d)

  pub level_same :
      (a j : ℕ)
      → IsDirectory (owner a)
      → (a ≢ pt) ⊎ (j ≢ i)
      → walk_level mem' a j ≡ walk_level mem a j
  level_same a j d away = walk_level_eq mem mem' a j (ext.same a j (directory_ne a d) away)

  -- What an entry of the new tree leads to.
  new_links :
      (a j t : ℕ)
      → IsDirectory (give owner f (child (owner pt) i) a)
      → j < 512
      → walk_level mem' a j ≡ ok t
      → (give owner f (child (owner pt) i) t ≡ child (give owner f (child (owner pt) i) a) j)
        × (is_set (mem' a j) 14 ≡ false)
  new_links a j t d lt e = elim (eq-cases a f) [
    | inl at ↦ cc (walk_level-zero mem' a j (ap (λ k. mem' k j) at ∙ ext.fresh j), e)
    | inr ne ↦
        let own : give owner f (child (owner pt) i) a ≡ owner a =
          give_other owner f a (child (owner pt) i) ne in
        let d' : IsDirectory (owner a) = subst IsDirectory own d in
        elim (entry-cases pt i a j) [
          | inl (ea, ej) ↦
              let at_f : t ≡ f = ok-injective t f (
                sym e
                ∙ ap (λ k. walk_level mem' k j) ea
                ∙ ap (walk_level mem' pt) ej
                ∙ ext.linked) in
              (
                ap (give owner f (child (owner pt) i)) at_f
                    ∙ give_self owner f (child (owner pt) i)
                    ∙ sym (
                        ap (λ r. child r j) own
                        ∙ ap (λ k. child (owner k) j) ea
                        ∙ ap (child (owner pt)) ej),
                ap (λ k. is_set (mem' k j) 14) ea ∙ ap (λ k. is_set (mem' pt k) 14) ej ∙ ext.plain,
              )
          | inr away ↦
              let e' : walk_level mem a j ≡ ok t = sym (level_same a j d' away) ∙ e in
              let link : owner t ≡ child (owner a) j = tree.links a j t d' lt e' in
              let ne' : t ≢ f = owned_ne t (λ o. child-not-other (owner a) j d' (sym link ∙ o)) in
              (
                give_other owner f t (child (owner pt) i) ne'
                    ∙ link
                    ∙ ap (λ r. child r j) (sym own),
                ap (λ w. is_set w 14) (ext.same a j ne away) ∙ tree.no_leaf a j t d' lt e',
              )
        ]
  ]

  pub Extends-IsTree : IsTree mem' root (give owner f (child (owner pt) i))
  Extends-IsTree = record {
    at_root =
        give_other owner f root (child (owner pt) i)
          (owned_ne root (λ o. directory-not-other top tt (sym tree.at_root ∙ o)))
        ∙ tree.at_root;
    links = λ a j t d lt e. (new_links a j t d lt e).0;
    no_leaf = λ a j t d lt e. (new_links a j t d lt e).1;
  }

  -- The rest of a walk, from a table of level 0 on.
  leaf_same : (a va : ℕ) → owner a ≢ other → a ≢ pt → walk_leaf mem' a va ≡ walk_leaf mem a va
  leaf_same a va owned ne =
      walk_leaf_eq mem mem' a va (ext.same a (vpn₀ va) (owned_ne a owned) (inl ne))

  from_low :
      (a va : ℕ)
      → owner a ≡ mid (vpn₂ va)
      → (walk_level mem' a (vpn₁ va) >>= λ l₀. walk_leaf mem' l₀ va)
        ≡ (walk_level mem a (vpn₁ va) >>= λ l₀. walk_leaf mem l₀ va)
  from_low a va own = elim (entry-cases pt i a (vpn₁ va)) [
    | inl (ea, ej) ↦
        ap (λ r. r >>= λ l₀. walk_leaf mem' l₀ va)
          (ap (λ k. walk_level mem' k (vpn₁ va)) ea ∙ ap (walk_level mem' pt) ej ∙ ext.linked)
        ∙ walk_leaf-zero mem' f va (ext.fresh (vpn₀ va))
        ∙ sym (
            ap (λ r. r >>= λ l₀. walk_leaf mem l₀ va)
              (ap (λ k. walk_level mem k (vpn₁ va)) ea ∙ ap (walk_level mem pt) ej ∙ ext.was))
    | inr away ↦
        let d : IsDirectory (owner a) = subst IsDirectory (sym own) tt in
        bind_cong (walk_level mem a (vpn₁ va)) (walk_level mem' a (vpn₁ va)) _ _
          (level_same a (vpn₁ va) d away)
          (λ t e.
            let link : owner t ≡ low (vpn₂ va) (vpn₁ va) =
              tree.links a (vpn₁ va) t d (vpn₁-lt va) e ∙ ap (λ r. child r (vpn₁ va)) own in
            leaf_same t va (λ o. cc) (λ at. subst IsDirectory (ap owner (sym at) ∙ link) dir))
  ]

  pub walk-Extends : (va : ℕ) → walk_page_table mem' root va ≡ walk_page_table mem root va
  unfolding walk_page_table
  walk-Extends va = elim (entry-cases pt i root (vpn₂ va)) [
    | inl (ea, ej) ↦
        ap (λ r. r >>= λ l₁. walk_level mem' l₁ (vpn₁ va) >>= λ l₀. walk_leaf mem' l₀ va)
          (ap (λ k. walk_level mem' k (vpn₂ va)) ea ∙ ap (walk_level mem' pt) ej ∙ ext.linked)
        ∙ ap (λ r. r >>= λ l₀. walk_leaf mem' l₀ va)
            (walk_level-zero mem' f (vpn₁ va) (ext.fresh (vpn₁ va)))
        ∙ sym (
            ap (λ r. r >>= λ l₁. walk_level mem l₁ (vpn₁ va) >>= λ l₀. walk_leaf mem l₀ va)
              (ap (λ k. walk_level mem k (vpn₂ va)) ea ∙ ap (walk_level mem pt) ej ∙ ext.was))
    | inr away ↦
        let d : IsDirectory (owner root) = subst IsDirectory (sym tree.at_root) tt in
        bind_cong (walk_level mem root (vpn₂ va)) (walk_level mem' root (vpn₂ va)) _ _
          (level_same root (vpn₂ va) d away)
          (λ t e. from_low t va (
            tree.links root (vpn₂ va) t d (vpn₂-lt va) e
            ∙ ap (λ r. child r (vpn₂ va)) tree.at_root))
  ]
