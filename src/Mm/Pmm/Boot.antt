-- ===== src/Mm/Pmm/Boot.antt =====
-- `init` of src/mm/pmm.rs: the free list that is built at boot, before other harts run. The regions
-- come from the device tree, which a third-party crate parses: they are arguments here.
pub mod Valid
use openv.Common.{
  ℕ, zero, suc, ◌+◌, ◌-◌, ◌*◌, ◌/◌, ◌%◌, ◌≤◌, ◌<◌, ◌≡◌, refl, sym, subst, ◌∙◌, ap, ==_ne, ◌≢◌, Bool,
  true, false, not, ◌&&◌, ◌||◌, List, [], ◌∷◌, ◌++◌, arith, ltb, leb, ◌==◌, if◌then◌else◌,
  Bool-cases, inl, inr,
}
use openv.Mm.Pmm.{Pmm, Memory, write_word, poison, poison_word, page_size}
use openv.Mm.Pmm.Chain.{Chain, All, Apart, Distinct, Chain-frame}

pub record Regions : Type 0 where
  pub ram_end : ℕ
  pub fdt_start : ℕ
  pub fdt_end : ℕ
  pub initrd_start : ℕ
  pub initrd_end : ℕ

-- The test of the loop on the page at `curr`.
unfoldable pub is_reserved : Regions → ℕ → Bool
is_reserved r curr =
    (ltb curr r.fdt_end && ltb r.fdt_start (curr + page_size))
    || (ltb 0 r.initrd_start && ltb curr r.initrd_end && ltb r.initrd_start (curr + page_size))

-- `head`, `prev` and the memory.
pub record Builder : Type 0 where
  pub head : ℕ
  pub prev : ℕ
  pub mem : Memory

-- The body of the loop for a page that is not reserved. `write_bytes` poisons bytes 8 to 4095.
link_page : Builder → ℕ → Builder
link_page b curr =
    let mem' : Memory = poison b.mem curr in
    if b.head == 0
    then record { head = curr; prev = curr; mem = mem' }
    else record { head = b.head; prev = curr; mem = write_word mem' b.prev 0 curr }

-- The loop, with at most `n` more pages.
unfoldable pub build : ℕ → Regions → ℕ → Builder → Builder
unfolding is_reserved link_page
build zero r curr b = b
build (suc n) r curr b =
    let next : Builder =
      build n r (curr + page_size) (if is_reserved r curr then b else link_page b curr) in
    if leb (curr + page_size) r.ram_end then next else b

-- The last page, if there is one, is given the link 0.
unfoldable pub terminate : Builder → Builder
terminate b = if not (b.prev == 0) then record b { mem = write_word b.mem b.prev 0 0 } else b

unfoldable pub init_free_list : Regions → ℕ → Memory → Builder
init_free_list r kernel_end mem =
    terminate
      (build (r.ram_end / page_size) r kernel_end (record { head = 0; prev = 0; mem = mem }))

-- `init`. The counts are zero in the image of the kernel.
unfoldable pub init : ℕ → Regions → ℕ → Memory → Pmm
init start r kernel_end mem =
    let b : Builder = init_free_list r kernel_end mem in
    record { ram_start = start; head = b.head; counts = λ j. 0; mem = b.mem }

-- The pages that boot means to hand out, in ascending order.
unfoldable pub usable : ℕ → Regions → ℕ → List ℕ
usable zero r curr = []
usable (suc n) r curr =
    let rest : List ℕ = usable n r (curr + page_size) in
    if leb (curr + page_size) r.ram_end
    then (if is_reserved r curr then rest else curr ∷ rest)
    else []

-- A list put in reverse before another.
unfoldable pub rev_onto : List ℕ → List ℕ → List ℕ
rev_onto [] acc = acc
rev_onto (x ∷ xs) acc = rev_onto xs (x ∷ acc)

-- The list under construction, last page first: each page is linked from the one before, which
-- lies lower, and is poisoned.
abbrev pub Linked : Memory → ℕ → ℕ → List ℕ → Type 0
Linked mem head x [] = (head ≡ x) × (x ≢ 0) × (mem x 1 ≡ poison_word)
Linked mem head x (y ∷ ys) =
    (mem y 0 ≡ x) × (y < x) × (x ≢ 0) × (mem x 1 ≡ poison_word) × Linked mem head y ys

abbrev pub Built : Builder → ℕ → List ℕ → Type 0
Built b curr [] = (b.head ≡ 0) × (b.prev ≡ 0)
Built b curr (x ∷ ys) = (b.head ≢ 0) × (b.prev ≡ x) × (x < curr) × Linked b.mem b.head x ys

pub Linked-frame :
    (mem mem' : Memory) (head x : ℕ) (ys : List ℕ)
    → ((a : ℕ) → a < x → mem' a 0 ≡ mem a 0)
    → ((a : ℕ) → a ≤ x → mem' a 1 ≡ mem a 1)
    → Linked mem head x ys
    → Linked mem' head x ys
Linked-frame mem mem' head x [] link fill l = (l.0, l.1, fill x (omega arith) ∙ l.2)
Linked-frame mem mem' head x (y ∷ ys) link fill l = (
  link y l.1 ∙ l.0,
  l.1,
  l.2,
  fill x (omega arith) ∙ l.3,
  Linked-frame mem mem' head y ys (λ a h. link a (omega arith)) (λ a h. fill a (omega arith)) l.4,
)

abbrev linked : Builder → ℕ → ℕ → Builder
linked b x curr = record {
  head = b.head;
  prev = curr;
  mem = write_word (poison b.mem curr) x 0 curr;
}

link_page-linked :
    (b : Builder) (x curr : ℕ) → b.head ≢ 0 → b.prev ≡ x → link_page b curr ≡ linked b x curr
unfolding link_page
link_page-linked b x curr nz e = rw (==_ne b.head 0 nz) (rw e refl)

-- A page that is linked becomes the last one.
link_page-Built :
    (b : Builder) (curr : ℕ) (rev : List ℕ)
    → 0 < curr
    → Built b curr rev
    → Built (link_page b curr) (curr + page_size) (curr ∷ rev)
unfolding link_page
link_page-Built b curr [] nz (h, p) = ground arith
link_page-Built b curr (x ∷ ys) nz (h, p, lt, l) =
    subst (λ b'. Built b' (curr + page_size) (curr ∷ x ∷ ys)) (sym (link_page-linked b x curr h p))
      (
        h,
        refl,
        omega arith,
        (
          ground arith,
          lt,
          omega arith,
          ground arith,
          Linked-frame b.mem (linked b x curr).mem b.head x ys (λ a small. ground arith)
              (λ a small. ground arith) l,
        ),
      )

Built-later :
    (b : Builder) (curr curr' : ℕ) (rev : List ℕ)
    → curr ≤ curr'
    → Built b curr rev
    → Built b curr' rev
Built-later b curr curr' [] le l = l
Built-later b curr curr' (x ∷ ys) le (h, p, lt, l) = (h, p, omega arith, l)

pub build-Built :
    (n : ℕ) (r : Regions) (curr : ℕ) (b : Builder) (rev : List ℕ)
    → 0 < curr
    → Built b curr rev
    → (last : ℕ) × Built (build n r curr b) last (rev_onto (usable n r curr) rev)
unfolding build usable rev_onto
build-Built zero r curr b rev nz l = (curr, l)
build-Built (suc n) r curr b rev nz l = elim (Bool-cases (leb (curr + page_size) r.ram_end)) [
  | inr e ↦ rw e (curr, l)
  | inl e ↦ elim (Bool-cases (is_reserved r curr)) [
    | inl e' ↦
        rw (e, e')
          (build-Built n r (curr + page_size) b rev (omega arith)
            (Built-later b curr (curr + page_size) rev (omega arith) l))
    | inr e' ↦
        rw (e, e')
          (build-Built n r (curr + page_size) (link_page b curr) (curr ∷ rev) (omega arith)
            (link_page-Built b curr rev nz l))
  ]
]
