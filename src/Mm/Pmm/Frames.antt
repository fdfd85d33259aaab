-- ===== src/Mm/Pmm/Frames.antt =====
-- What allocation and release do to the free list and to the reference counts.
use openv.Common.{
  ℕ, ◌+◌, ◌-◌, ◌*◌, ◌/◌, ◌%◌, ◌≤◌, ◌<◌, ◌≡◌, refl, ◌∙◌, ap, ◌≢◌, ◌⊎◌, inl, inr, Bool, true, false,
  none, some, List, [], ◌∷◌, arith,
}
use native.Mathlib.Decide.{dec_lt}
use openv.Mm.Pmm.{
  Pmm, returns, page_size, max_pages, poison_word, page_index, is_managed_page, take_page,
  alloc_frame, push_page, free_page, decr_ref_and_maybe_free, set_count,
}
use openv.Mm.Pmm.Chain.{Chain, All, Apart, Distinct, Chain-frame}

-- A page that the manager tracks.
pub record IsFrame (base a : ℕ) : Type 0 where
  pub above : base ≤ a
  pub below : a < base + max_pages * page_size
  pub aligned : (a - base) % page_size ≡ 0
  pub nonzero : a ≢ 0

abbrev pub IsFree : Pmm → ℕ → Type 0
IsFree p a =
    IsFrame p.ram_start a × (p.counts (page_index p.ram_start a) ≡ 0) × (p.mem a 1 ≡ poison_word)

-- The free list is the chain of these pages, all of them free and no two the same.
pub record IsValid (p : Pmm) (free : List ℕ) : Type 0 where
  pub chain : Chain p.mem p.head free
  pub unused : All (IsFree p) free
  pub distinct : Distinct free

page_index-frame : (base a : ℕ) → IsFrame base a → page_index base a ≡ (a - base) / page_size
unfolding page_index
page_index-frame base a f = ground arith

pub page_index_injective :
    (base a b : ℕ) → IsFrame base a → IsFrame base b → a ≢ b → page_index base a ≢ page_index base b
page_index_injective base a b f g ne e =
    ne (omega (arith, page_index-frame base a f, page_index-frame base b g))

page_index-lt : (base a : ℕ) → IsFrame base a → page_index base a < max_pages
page_index-lt base a f = omega (arith, page_index-frame base a f)

pub is_managed_frame : (base a : ℕ) → IsFrame base a → is_managed_page base a ≡ true
unfolding is_managed_page
is_managed_frame base a f = ground arith

-- A page stays free when another page's count and memory change.
IsFree-other :
    (p p' : Pmm) (x a : ℕ)
    → IsFrame p.ram_start x
    → x ≢ a
    → p'.ram_start ≡ p.ram_start
    → ((j : ℕ) → page_index p.ram_start x ≢ j → p'.counts j ≡ p.counts j)
    → ((b : ℕ) → x ≢ b → (i : ℕ) → p'.mem b i ≡ p.mem b i)
    → IsFree p a
    → IsFree p' a
IsFree-other p p' x a fx ne base counts mem (f, c, m) = (
  rw base f,
  rw base (counts _ (page_index_injective p.ram_start x a fx f ne) ∙ c),
  mem a ne 1 ∙ m,
)

-- What changes at page `x` alone.
abbrev pub OnlyAt : ℕ → Pmm → Pmm → Type 0
OnlyAt x p p' =
    (p'.ram_start ≡ p.ram_start)
    × ((j : ℕ) → page_index p.ram_start x ≢ j → p'.counts j ≡ p.counts j)
    × ((b : ℕ) → x ≢ b → (i : ℕ) → p'.mem b i ≡ p.mem b i)

others-IsFree :
    (p p' : Pmm) (x : ℕ) (xs : List ℕ)
    → IsFrame p.ram_start x
    → OnlyAt x p p'
    → Apart x xs
    → All (IsFree p) xs
    → All (IsFree p') xs
others-IsFree p p' x [] fx only d u = tt
others-IsFree p p' x (a ∷ xs) fx only d u =
    (IsFree-other p p' x a fx d.0 only.0 only.1 only.2 u.0, others-IsFree p p' x xs fx only d.1 u.1)

take_page-OnlyAt : (p : Pmm) (x : ℕ) → p.head ≡ x → OnlyAt x p (take_page p)
unfolding take_page
take_page-OnlyAt p x e =
    (refl, λ j ne. ground (arith, ap (page_index p.ram_start) e), λ b ne i. ground arith)

alloc_frame-nonempty :
    (debug : Bool) (p : Pmm) (x : ℕ)
    → p.head ≡ x
    → x ≢ 0
    → p.mem x 1 ≡ poison_word
    → alloc_frame debug p ≡ returns (some x, take_page p)
unfolding alloc_frame
alloc_frame-nonempty debug p x e nz m =
    let low : p.mem p.head 1 % 256 ≡ 0xcd = rw (ap (λ k. p.mem k 1) e) (rw m refl) in
    ground (arith, low)

head-take_page : (p : Pmm) (x : ℕ) → p.head ≡ x → (take_page p).head ≡ p.mem x 0
unfolding take_page
head-take_page p x e = ap (λ k. p.mem k 0) e

counts-take_page :
    (p : Pmm) (x : ℕ)
    → p.head ≡ x
    → IsFrame p.ram_start x
    → (take_page p).counts (page_index p.ram_start x) ≡ 1
unfolding take_page
counts-take_page p x e f =
    ground (arith, ap (page_index p.ram_start) e, page_index-lt p.ram_start x f)

mem-take_page : (p : Pmm) (x : ℕ) → p.head ≡ x → (i : ℕ) → (take_page p).mem x i ≡ 0
unfolding take_page
mem-take_page p x e i = ground arith

-- From a valid state with a free page, `alloc_frame` returns the first page of the list, zeroed
-- and with count 1, and leaves a valid state whose free list is the rest. The page is not among
-- the rest, and nothing else changes. The poison check does not fail.
pub alloc_frame_lem :
    (debug : Bool) (p : Pmm) (x : ℕ) (xs : List ℕ)
    → IsValid p (x ∷ xs)
    → (p' : Pmm) × (alloc_frame debug p ≡ returns (some x, p'))
      × IsValid p' xs
      × Apart x xs
      × (p'.counts (page_index p.ram_start x) ≡ 1)
      × ((i : ℕ) → p'.mem x i ≡ 0)
      × OnlyAt x p p'
alloc_frame_lem debug p x xs v =
    let only : OnlyAt x p (take_page p) = take_page-OnlyAt p x v.chain.0 in
    (
      take_page p,
      alloc_frame-nonempty debug p x v.chain.0 v.chain.1 v.unused.0.2,
      record {
        chain = rw (head-take_page p x v.chain.0) (
            Chain-frame p.mem (take_page p).mem x (p.mem x 0) xs v.distinct.0
              (λ a ne. only.2 a ne 0) v.chain.2);
        unused = others-IsFree p (take_page p) x xs v.unused.0.0 only v.distinct.0 v.unused.1;
        distinct = v.distinct.1;
      },
      v.distinct.0,
      counts-take_page p x v.chain.0 v.unused.0.0,
      mem-take_page p x v.chain.0,
      only,
    )

-- With an empty free list `alloc_frame` returns nothing and changes nothing.
pub alloc_frame-empty :
    (debug : Bool) (p : Pmm) → IsValid p [] → alloc_frame debug p ≡ returns (none, p)
unfolding alloc_frame
alloc_frame-empty debug p v = ground (arith, v.chain)

-- The new state of a release: the count is 0 and the page is at the head of the free list.
abbrev pub released : Pmm → ℕ → Pmm
released p x = push_page (record p { counts = set_count p.counts (page_index p.ram_start x) 0 }) x

released-OnlyAt : (p : Pmm) (x : ℕ) → OnlyAt x p (released p x)
unfolding push_page
released-OnlyAt p x = (refl, λ j ne. ground arith, λ b ne i. ground arith)

-- A page with a positive count is on no valid free list.
pub in_use-Apart :
    (p : Pmm) (x : ℕ) (xs : List ℕ)
    → 0 < p.counts (page_index p.ram_start x)
    → All (IsFree p) xs
    → Apart x xs
in_use-Apart p x [] used u = tt
in_use-Apart p x (a ∷ xs) used u = (
  λ e. absurd (omega (arith, u.0.1, ap (λ k. p.counts (page_index p.ram_start k)) e)),
  in_use-Apart p x xs used u.1,
)

released_self :
    (p : Pmm) (x : ℕ)
    → ((released p x).head ≡ x)
      × ((released p x).mem x 0 ≡ p.head)
      × ((released p x).mem x 1 ≡ poison_word)
      × ((released p x).counts (page_index p.ram_start x) ≡ 0)
unfolding push_page
released_self p x = (refl, ground arith, ground arith, ground arith)

-- Putting a page that is in use on the free list keeps the state valid.
released-IsValid :
    (p : Pmm) (x : ℕ) (xs : List ℕ)
    → IsValid p xs
    → IsFrame p.ram_start x
    → 0 < p.counts (page_index p.ram_start x)
    → IsValid (released p x) (x ∷ xs)
unfolding push_page
released-IsValid p x xs v f used =
    let only : OnlyAt x p (released p x) = released-OnlyAt p x in
    let apart : Apart x xs = in_use-Apart p x xs used v.unused in
    let (h, link, poisoned, free) = released_self p x in
    record {
      chain = (
        h,
        f.nonzero,
        rw link (
            Chain-frame p.mem (released p x).mem x p.head xs apart (λ a ne. only.2 a ne 0) v.chain),
      );
      unused = (
        (rw only.0 f, free, poisoned),
        others-IsFree p (released p x) x xs f only apart v.unused,
      );
      distinct = (apart, v.distinct);
    }

free_page-released :
    (debug : Bool) (p : Pmm) (x : ℕ)
    → IsFrame p.ram_start x
    → p.ram_start % page_size ≡ 0
    → 0 < p.counts (page_index p.ram_start x)
    → free_page debug p x ≡ returns (released p x)
unfolding free_page
free_page-released debug p x f base used =
    let aligned : x % page_size ≡ 0 = omega arith in
    ground (arith, aligned, page_index-lt p.ram_start x f)

-- In a valid state whose RAM starts on a page boundary, `free_page` on a page with a positive
-- count does not panic and puts it on the free list. The state stays valid, and no other page
-- changes.
pub free_page-IsValid :
    (debug : Bool) (p : Pmm) (x : ℕ) (xs : List ℕ)
    → IsValid p xs
    → IsFrame p.ram_start x
    → p.ram_start % page_size ≡ 0
    → 0 < p.counts (page_index p.ram_start x)
    → (p' : Pmm) × (free_page debug p x ≡ returns p') × IsValid p' (x ∷ xs) × OnlyAt x p p'
free_page-IsValid debug p x xs v f base used = (
  released p x,
  free_page-released debug p x f base used,
  released-IsValid p x xs v f used,
  released-OnlyAt p x,
)

-- The new state when other references remain.
abbrev pub counted : Pmm → ℕ → Pmm
counted p x = record p {
  counts = set_count p.counts (page_index p.ram_start x) (p.counts (page_index p.ram_start x) - 1);
}

decr_ref_and_maybe_free-shared :
    (p : Pmm) (x : ℕ)
    → IsFrame p.ram_start x
    → 1 < p.counts (page_index p.ram_start x)
    → decr_ref_and_maybe_free p x ≡ counted p x
unfolding decr_ref_and_maybe_free
decr_ref_and_maybe_free-shared p x f many =
    ground (arith, page_index-lt p.ram_start x f, is_managed_frame p.ram_start x f)

-- The branch of the last reference is also taken at count 0.
decr_ref_and_maybe_free-last :
    (p : Pmm) (x : ℕ)
    → IsFrame p.ram_start x
    → p.counts (page_index p.ram_start x) ≤ 1
    → decr_ref_and_maybe_free p x ≡ released p x
unfolding decr_ref_and_maybe_free
decr_ref_and_maybe_free-last p x f one =
    ground (arith, page_index-lt p.ram_start x f, is_managed_frame p.ram_start x f)

counted_self :
    (p : Pmm) (x : ℕ)
    → (counted p x).counts (page_index p.ram_start x) ≡ p.counts (page_index p.ram_start x) - 1
counted_self p x = ground arith

counted-OnlyAt : (p : Pmm) (x : ℕ) → OnlyAt x p (counted p x)
counted-OnlyAt p x = (refl, λ j ne. ground arith, λ b ne i. refl)

counted-IsValid :
    (p : Pmm) (x : ℕ) (xs : List ℕ)
    → IsValid p xs
    → IsFrame p.ram_start x
    → 0 < p.counts (page_index p.ram_start x)
    → IsValid (counted p x) xs
counted-IsValid p x xs v f used = record {
  chain = v.chain;
  unused =
      others-IsFree p (counted p x) x xs f (counted-OnlyAt p x) (in_use-Apart p x xs used v.unused)
        v.unused;
  distinct = v.distinct;
}

abbrev pub Drops : Pmm → ℕ → List ℕ → Pmm → Type 0
Drops p x xs p' =
    let count = p.counts (page_index p.ram_start x) in
    (p'.counts (page_index p.ram_start x) ≡ count - 1)
    × OnlyAt x p p'
    × (((1 < count) × IsValid p' xs × (p'.mem ≡ p.mem)) ⊎ ((count ≡ 1) × IsValid p' (x ∷ xs)))

-- In a valid state, dropping one of several references to a page of RAM only counts it down, and
-- dropping the last one puts the page on the free list. Both leave a valid state, and no other
-- page changes.
pub decr_ref_and_maybe_free-IsValid :
    (p : Pmm) (x : ℕ) (xs : List ℕ)
    → IsValid p xs
    → IsFrame p.ram_start x
    → 0 < p.counts (page_index p.ram_start x)
    → Drops p x xs (decr_ref_and_maybe_free p x)
decr_ref_and_maybe_free-IsValid p x xs v f used =
    let count = p.counts (page_index p.ram_start x) in
    elim (dec_lt 1 count) [
      | yes many ↦
          rw (decr_ref_and_maybe_free-shared p x f many) (
            counted_self p x,
            counted-OnlyAt p x,
            inl (many, counted-IsValid p x xs v f used, refl),
          )
      | no one ↦ rw (decr_ref_and_maybe_free-last p x f (omega arith)) (
        (released_self p x).3 ∙ omega arith,
        released-OnlyAt p x,
        inr (omega arith, released-IsValid p x xs v f used),
      )
    ]

alloc_frame-head :
    (p : Pmm) (x : ℕ) → p.head ≡ x → x ≢ 0 → alloc_frame false p ≡ returns (some x, take_page p)
unfolding alloc_frame
alloc_frame-head p x e nz = ground arith

-- Dropping a reference to the first page of a valid free list, which has none, makes the page its
-- own successor: in a build without debug assertions the next two allocations both return it.
pub decr_ref_and_maybe_free-twice :
    (p : Pmm) (x : ℕ) (xs : List ℕ)
    → IsValid p (x ∷ xs)
    → let p' = decr_ref_and_maybe_free p x in
      (p₁ : Pmm) × (p₂ : Pmm) × (alloc_frame false p' ≡ returns (some x, p₁))
      × (alloc_frame false p₁ ≡ returns (some x, p₂))
decr_ref_and_maybe_free-twice p x xs v =
    let p' = released p x in
    let freed : decr_ref_and_maybe_free p x ≡ p' =
      decr_ref_and_maybe_free-last p x v.unused.0.0 (omega (arith, v.unused.0.1)) in
    let again : (take_page p').head ≡ x =
      head-take_page p' x (released_self p x).0 ∙ (released_self p x).1 ∙ v.chain.0 in
    (
      take_page p',
      take_page (take_page p'),
      rw freed (alloc_frame-head p' x (released_self p x).0 v.chain.1),
      alloc_frame-head (take_page p') x again v.chain.1,
    )
