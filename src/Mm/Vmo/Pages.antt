-- ===== src/Mm/Vmo/Pages.antt =====
-- What a memory object takes from the free list and gives back to it.
use openv.Common.{
  ℕ, zero, suc, ◌+◌, ◌*◌, ◌%◌, ◌≤◌, ◌<◌, ◌≡◌, ◌≢◌, ◌⊎◌, refl, sym, subst, ap, ◌∙◌, Bool, false,
  none, some, List, [], ◌∷◌, ◌++◌, length, take, drop, arith, inl, inr, if◌then◌else◌,
}
use openv.Mm.Pmm.{Pmm, returns, alloc_frame, alloc_page, page_index, page_size}
use openv.Mm.Pmm.Chain.{All, Apart, Distinct}
use openv.Mm.Pmm.Frames.{
  IsFrame, IsFree, IsValid, OnlyAt, alloc_frame_lem, alloc_frame-empty, free_page-IsValid,
  in_use-Apart, page_index_injective,
}
use openv.Mm.Vmo.{Vmo, num_pages, free_pages, alloc_pages, new, drop_vmo}

-- These pages in front of the others, the last first.
abbrev pub push_pages : List ℕ → List ℕ → List ℕ
push_pages [] free = free
push_pages (x ∷ xs) free = push_pages xs (x ∷ free)

-- Pages with one reference.
abbrev pub IsHeld : Pmm → ℕ → Type 0
IsHeld p a = IsFrame p.ram_start a × (p.counts (page_index p.ram_start a) ≡ 1)

IsHeld-other :
    (p p' : Pmm) (x a : ℕ)
    → IsFrame p.ram_start x
    → x ≢ a
    → OnlyAt x p p'
    → IsHeld p a
    → IsHeld p' a
IsHeld-other p p' x a fx ne only (f, one) = (
  subst (λ b. IsFrame b a) (sym only.0) f,
  ap (λ b. p'.counts (page_index b a)) only.0
      ∙ only.1 (page_index p.ram_start a) (page_index_injective p.ram_start x a fx f ne)
      ∙ one,
)

All-IsHeld-other :
    (p p' : Pmm) (x : ℕ) (xs : List ℕ)
    → IsFrame p.ram_start x
    → Apart x xs
    → OnlyAt x p p'
    → All (IsHeld p) xs
    → All (IsHeld p') xs
All-IsHeld-other p p' x [] fx apart only held = tt
All-IsHeld-other p p' x (a ∷ rest) fx apart only held = (
  IsHeld-other p p' x a fx apart.0 only held.0,
  All-IsHeld-other p p' x rest fx apart.1 only held.1,
)

-- Held pages are freed one after the other.
pub free_pages_lem :
    (debug : Bool) (pages free : List ℕ) (p : Pmm)
    → IsValid p free
    → p.ram_start % page_size ≡ 0
    → All (IsHeld p) pages
    → Distinct pages
    → (p' : Pmm) × (free_pages debug pages p ≡ returns p') × IsValid p' (push_pages pages free)
unfolding free_pages
free_pages_lem debug [] free p v base held distinct = (p, refl, v)
free_pages_lem debug (x ∷ xs) free p v base held distinct =
    let (p₁, run, v₁, only) =
      free_page-IsValid debug p x free v held.0.0 base (omega (arith, held.0.1)) in
    let (p', run', v') =
      free_pages_lem debug xs (x ∷ free) p₁ v₁ (ap (λ b. b % page_size) only.0 ∙ base)
        (All-IsHeld-other p p₁ x xs held.0.0 distinct.0 only held.1) distinct.1 in
    (p', rw (run, free_pages) run', v')

alloc_page-frame :
    (debug : Bool) (evict : Pmm → Bool × Pmm) (p p' : Pmm) (x : ℕ)
    → alloc_frame debug p ≡ returns (some x, p')
    → alloc_page debug evict p ≡ returns (some x, p')
unfolding alloc_page
alloc_page-frame debug evict p p' x e = rw (e, alloc_page) refl

alloc_page-none :
    (debug : Bool) (evict : Pmm → Bool × Pmm) (p : Pmm)
    → alloc_frame debug p ≡ returns (none, p)
    → evict p ≡ (false, p)
    → alloc_page debug evict p ≡ returns (none, p)
unfolding alloc_page
alloc_page-none debug evict p e none_left =
    rw (e, alloc_page)
      (ap (λ r. if r.0 then alloc_frame debug r.1 else returns (none, r.1)) none_left)

append_nil : (xs : List ℕ) → xs ++ [] ≡ xs
append_nil [] = refl
append_nil (x ∷ xs) = ap (λ l. x ∷ l) (append_nil xs)

append_snoc : (xs ys : List ℕ) (x : ℕ) → (xs ++ (x ∷ [])) ++ ys ≡ xs ++ (x ∷ ys)
append_snoc [] ys x = refl
append_snoc (a ∷ xs) ys x = ap (λ l. a ∷ l) (append_snoc xs ys x)

-- A page of the free list is none of those that are held.
free-Apart :
    (p : Pmm) (pages : List ℕ) (x : ℕ) (xs : List ℕ)
    → All (IsFree p) (x ∷ xs)
    → All (IsHeld p) pages
    → Apart x pages
free-Apart p [] x xs unused held = tt
free-Apart p (a ∷ rest) x xs unused held = (
  λ e. (in_use-Apart p a (x ∷ xs) (omega (arith, held.0.1)) unused).0 (sym e),
  free-Apart p rest x xs unused held.1,
)

Apart-snoc : (a : ℕ) (xs : List ℕ) (x : ℕ) → Apart a xs → a ≢ x → Apart a (xs ++ (x ∷ []))
Apart-snoc a [] x apart ne = (ne, tt)
Apart-snoc a (b ∷ xs) x apart ne = (apart.0, Apart-snoc a xs x apart.1 ne)

Distinct-snoc : (xs : List ℕ) (x : ℕ) → Distinct xs → Apart x xs → Distinct (xs ++ (x ∷ []))
Distinct-snoc [] x d apart = (tt, tt)
Distinct-snoc (a ∷ xs) x d apart =
    (Apart-snoc a xs x d.0 (λ e. apart.0 (sym e)), Distinct-snoc xs x d.1 apart.1)

IsHeld-snoc :
    (p : Pmm) (xs : List ℕ) (x : ℕ)
    → All (IsHeld p) xs
    → IsHeld p x
    → All (IsHeld p) (xs ++ (x ∷ []))
IsHeld-snoc p [] x held h = (h, tt)
IsHeld-snoc p (a ∷ xs) x held h = (held.0, IsHeld-snoc p xs x held.1 h)

-- The loop of `Vmo::new`: all pages are taken, or none.
abbrev pub Allocates : Bool → (Pmm → Bool × Pmm) → ℕ → List ℕ → List ℕ → Pmm → Type 0
Allocates debug evict n pages free p =
    (p' : Pmm) × (((n ≤ length free)
        × (alloc_pages debug evict n pages p ≡ returns (some (pages ++ take n free), p'))
        × IsValid p' (drop n free)
        × All (IsHeld p') (pages ++ take n free)
        × Distinct (pages ++ take n free)
        × (p'.ram_start ≡ p.ram_start))
      ⊎ ((length free < n)
          × (alloc_pages debug evict n pages p ≡ returns (none, p'))
          × IsValid p' (push_pages (pages ++ free) [])))

alloc_pages-some :
    (debug : Bool) (evict : Pmm → Bool × Pmm) (n : ℕ) (pages : List ℕ) (x : ℕ) (p p₁ : Pmm)
    → alloc_page debug evict p ≡ returns (some x, p₁)
    → alloc_pages debug evict (suc n) pages p ≡ alloc_pages debug evict n (pages ++ (x ∷ [])) p₁
unfolding alloc_pages
alloc_pages-some debug evict n pages x p p₁ run = rw (run, alloc_pages) refl

Allocates-suc :
    (debug : Bool) (evict : Pmm → Bool × Pmm) (n : ℕ) (pages : List ℕ) (x : ℕ) (xs : List ℕ)
    (p p₁ : Pmm)
    → alloc_page debug evict p ≡ returns (some x, p₁)
    → p₁.ram_start ≡ p.ram_start
    → Allocates debug evict n (pages ++ (x ∷ [])) xs p₁
    → Allocates debug evict (suc n) pages (x ∷ xs) p
Allocates-suc debug evict n pages x xs p p₁ run start
      (p', inl (fits, rest, v, held, distinct, same)) =
    let move = append_snoc pages (take n xs) x in
    (
      p',
      inl (
        omega arith,
        alloc_pages-some debug evict n pages x p p₁ run
            ∙ rest
            ∙ ap (λ l. returns (some l, p')) move,
        v,
        subst (All (IsHeld p')) move held,
        subst Distinct move distinct,
        same ∙ start,
      ),
    )
Allocates-suc debug evict n pages x xs p p₁ run start (p', inr (over, rest, v)) = (
  p',
  inr (
    omega arith,
    alloc_pages-some debug evict n pages x p p₁ run ∙ rest,
    subst (λ l. IsValid p' (push_pages l [])) (append_snoc pages xs x) v,
  ),
)

alloc_pages-Allocates :
    (debug : Bool) (evict : Pmm → Bool × Pmm) (n : ℕ) (pages free : List ℕ) (p : Pmm)
    → ((q : Pmm) → IsValid q [] → evict q ≡ (false, q))
    → IsValid p free
    → p.ram_start % page_size ≡ 0
    → All (IsHeld p) pages
    → Distinct pages
    → Allocates debug evict n pages free p
unfolding alloc_pages
alloc_pages-Allocates debug evict zero pages free p no_more v base held distinct =
    let nil = append_nil pages in
    (
      p,
      inl (
        omega arith,
        ap (λ l. returns (some l, p)) (sym nil),
        v,
        subst (All (IsHeld p)) (sym nil) held,
        subst Distinct (sym nil) distinct,
        refl,
      ),
    )
alloc_pages-Allocates debug evict (suc n) pages [] p no_more v base held distinct =
    let run = alloc_page-none debug evict p (alloc_frame-empty debug p v) (no_more p v) in
    let (p', freed, v') = free_pages_lem debug pages [] p v base held distinct in
    (
      p',
      inr (
        omega arith,
        rw (run, alloc_pages) (rw (freed, alloc_pages) refl),
        subst (λ l. IsValid p' (push_pages l [])) (sym (append_nil pages)) v',
      ),
    )
alloc_pages-Allocates debug evict (suc n) pages (x ∷ xs) p no_more v base held distinct =
    let (p₁, run, v₁, apart, count, zeros, only) = alloc_frame_lem debug p x xs v in
    let off : Apart x pages = free-Apart p pages x xs v.unused held in
    let here : IsHeld p₁ x = (
      subst (λ b. IsFrame b x) (sym only.0) v.unused.0.0,
      ap (λ b. p₁.counts (page_index b x)) only.0 ∙ count,
    ) in
    Allocates-suc debug evict n pages x xs p p₁ (alloc_page-frame debug evict p p₁ x run) only.0 (
      alloc_pages-Allocates debug evict n (pages ++ (x ∷ [])) xs p₁ no_more v₁
        (ap (λ b. b % page_size) only.0 ∙ base)
        (IsHeld-snoc p₁ pages x (All-IsHeld-other p p₁ x pages v.unused.0.0 off only held) here)
        (Distinct-snoc pages x distinct off))

new-pages :
    (debug : Bool) (evict : Pmm → Bool × Pmm) (size : ℕ) (pages : List ℕ) (p p' : Pmm)
    → alloc_pages debug evict (num_pages size) [] p ≡ returns (some pages, p')
    → new debug evict size p
      ≡ returns (some (record { size_bytes = size; physical_pages = pages }), p')
unfolding new
new-pages debug evict size pages p p' e = rw (e, new) refl

new-none :
    (debug : Bool) (evict : Pmm → Bool × Pmm) (size : ℕ) (p p' : Pmm)
    → alloc_pages debug evict (num_pages size) [] p ≡ returns (none, p')
    → new debug evict size p ≡ returns (none, p')
unfolding new
new-none debug evict size p p' e = rw (e, new) refl

-- What `new` does with enough free pages for `n`, and dropping the object after it; and without
-- enough.
abbrev pub TakesPages : Bool → (Pmm → Bool × Pmm) → ℕ → ℕ → List ℕ → Pmm → Type 0
TakesPages debug evict size n free p =
    let vmo : Vmo = record { size_bytes = size; physical_pages = take n free } in
    (p' : Pmm) × (((n ≤ length free)
        × (new debug evict size p ≡ returns (some vmo, p'))
        × IsValid p' (drop n free)
        × All (IsHeld p') (take n free)
        × Distinct (take n free)
        × ((p'' : Pmm) × (drop_vmo debug vmo p' ≡ returns p'')
            × IsValid p'' (push_pages (take n free) (drop n free))))
      ⊎ ((length free < n)
          × (new debug evict size p ≡ returns (none, p'))
          × IsValid p' (push_pages free [])))

-- The number of pages is the smallest that the size fits into.
abbrev pub Creates : Bool → (Pmm → Bool × Pmm) → ℕ → List ℕ → Pmm → Type 0
Creates debug evict size free p =
    (n : ℕ) × (size ≤ n * 4096) × (n * 4096 < size + 4096) × TakesPages debug evict size n free p

-- When nothing can be evicted from memory, creating an object takes all of its pages or none: the
-- smallest number of pages of 4096 bytes that the size fits into. With enough free pages it gets
-- that many from the front of the free list, distinct and with one reference each, and dropping it
-- puts them back. Otherwise creating fails, and every page that was free is free again. The free
-- list stays valid throughout.
pub new-Creates :
    (debug : Bool) (evict : Pmm → Bool × Pmm) (size : ℕ) (free : List ℕ) (p : Pmm)
    → ((q : Pmm) → IsValid q [] → evict q ≡ (false, q))
    → IsValid p free
    → p.ram_start % page_size ≡ 0
    → Creates debug evict size free p
new-Creates debug evict size free p no_more v base = (
  num_pages size,
  omega arith,
  omega arith,
  outcome (alloc_pages-Allocates debug evict (num_pages size) [] free p no_more v base tt tt),
)
  where
    outcome :
        Allocates debug evict (num_pages size) [] free p
        → TakesPages debug evict size (num_pages size) free p
    outcome (p', inl (fits, run, valid, held, distinct, start)) =
        let dropped =
          free_pages_lem debug (take (num_pages size) free) (drop (num_pages size) free) p' valid
            (ap (λ b. b % page_size) start ∙ base) held distinct in
        (
          p',
          inl (
            fits,
            new-pages debug evict size (take (num_pages size) free) p p' run,
            valid,
            held,
            distinct,
            dropped,
          ),
        )
    outcome (p', inr (over, run, valid)) =
        (p', inr (over, new-none debug evict size p p' run, valid))
