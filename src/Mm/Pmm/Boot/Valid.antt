-- ===== src/Mm/Pmm/Boot/Valid.antt =====
-- The state after `init` of src/mm/pmm.rs.
use openv.Common.{
  ◌⊎◌, ℕ, zero, suc, ◌+◌, ◌-◌, ◌*◌, ◌/◌, ◌%◌, ◌≤◌, ◌<◌, ◌≡◌, refl, sym, subst, ◌∙◌, ap, ◌≢◌, true,
  false, List, [], ◌∷◌, arith, leb, ==_ne, eq-cases, Bool-cases, inl, inr, leb→le,
}
use openv.Mm.Pmm.{Pmm, Memory, write_word, poison_word, page_size, max_pages}
use mathlib.Core.List.{Mem, mem-cons_self, mem-cons_of_mem}
use openv.Mm.Pmm.Chain.{Chain, All, Distinct}
use openv.Mm.Pmm.Frames.{IsFrame, IsValid}
use openv.Mm.Pmm.Boot.{
  Regions, Builder, is_reserved, build, terminate, init_free_list, init, usable, rev_onto, Linked,
  Built, Linked-frame, build-Built,
}

abbrev IsPoisoned : Memory → ℕ → Type 0
IsPoisoned mem a = mem a 1 ≡ poison_word

rev_onto-rev_onto : (xs acc : List ℕ) → rev_onto (rev_onto xs acc) [] ≡ rev_onto acc xs
unfolding rev_onto
rev_onto-rev_onto [] acc = refl
rev_onto-rev_onto (x ∷ xs) acc = rev_onto-rev_onto xs (x ∷ acc)

-- A list under construction, read from its head.
Linked-Chain :
    (mem : Memory) (head x : ℕ) (ys acc : List ℕ)
    → Linked mem head x ys
    → Chain mem (mem x 0) acc × All (IsPoisoned mem) acc
    → Chain mem head (rev_onto ys (x ∷ acc)) × All (IsPoisoned mem) (rev_onto ys (x ∷ acc))
unfolding rev_onto
Linked-Chain mem head x [] acc l (c, fills) = ((l.0, l.1, c), (l.2, fills))
Linked-Chain mem head x (y ∷ ys) acc l (c, fills) =
    Linked-Chain mem head y ys (x ∷ acc) l.4 ((l.0, l.2, c), (l.3, fills))

Linked-nonzero : (mem : Memory) (head x : ℕ) (ys : List ℕ) → Linked mem head x ys → x ≢ 0
Linked-nonzero mem head x [] l = l.1
Linked-nonzero mem head x (y ∷ ys) l = l.2

abbrev Listed : Builder → List ℕ → Type 0
Listed b xs = Chain b.mem b.head xs × All (IsPoisoned b.mem) xs

terminate-empty : (b : Builder) → b.prev ≡ 0 → terminate b ≡ b
unfolding terminate
terminate-empty b e = rw e refl

terminate-last :
    (b : Builder) (x : ℕ)
    → b.prev ≡ x
    → x ≢ 0
    → terminate b ≡ record b { mem = write_word b.mem x 0 0 }
unfolding terminate
terminate-last b x e nz = rw e (rw (==_ne x 0 nz) refl)

terminate-Listed :
    (b : Builder) (last : ℕ) (rev : List ℕ)
    → Built b last rev
    → Listed (terminate b) (rev_onto rev [])
unfolding rev_onto
terminate-Listed b last [] (h, p) = rw (terminate-empty b p) (h, tt)
terminate-Listed b last (x ∷ ys) (h, p, lt, l) =
    let mem' : Memory = write_word b.mem x 0 0 in
    let l' : Linked mem' b.head x ys =
      Linked-frame b.mem mem' b.head x ys (λ a small. ground arith) (λ a small. ground arith) l in
    rw (terminate-last b x p (Linked-nonzero b.mem b.head x ys l))
      (Linked-Chain mem' b.head x ys [] l' (ground arith, tt))

init_free_list-Listed :
    (r : Regions) (kernel_end : ℕ) (mem : Memory)
    → 0 < kernel_end
    → Listed (init_free_list r kernel_end mem) (usable (r.ram_end / page_size) r kernel_end)
unfolding init_free_list rev_onto usable
init_free_list-Listed r kernel_end mem nz =
    let n : ℕ = r.ram_end / page_size in
    let b : Builder = record { head = 0; prev = 0; mem = mem } in
    let (last, built) = build-Built n r kernel_end b [] nz (refl, refl) in
    subst (Listed (terminate (build n r kernel_end b)))
      (rev_onto-rev_onto (usable n r kernel_end) [])
      (terminate-Listed (build n r kernel_end b) last _ built)

-- What the loop hands out: a whole page of RAM, a number of pages behind the first, not reserved.
abbrev IsOffered : Regions → ℕ → ℕ → Type 0
IsOffered r curr a =
    (curr ≤ a)
    × ((a - curr) % page_size ≡ 0)
    × (a + page_size ≤ r.ram_end)
    × (is_reserved r a ≡ false)

usable-All :
    (P : ℕ → Type 0) (n : ℕ) (r : Regions) (curr : ℕ)
    → ((a : ℕ) → IsOffered r curr a → P a)
    → All P (usable n r curr)
unfolding usable
usable-All P zero r curr h = tt
usable-All P (suc n) r curr h =
    let rest : All P (usable n r (curr + page_size)) =
      usable-All P n r (curr + page_size) (λ a u. h a (omega arith, omega arith, u.2, u.3)) in
    elim (Bool-cases (leb (curr + page_size) r.ram_end)) [
      | inr e ↦ rw e tt
      | inl e ↦ elim (Bool-cases (is_reserved r curr)) [
        | inl e' ↦ rw (e, e') rest
        | inr e' ↦
            rw (e, e')
              (
                h curr (
                  omega arith,
                  omega arith,
                  omega (arith, leb→le (curr + page_size) r.ram_end e),
                  e',
                ),
                rest,
              )
      ]
    ]

usable-Distinct : (n : ℕ) (r : Regions) (curr : ℕ) → Distinct (usable n r curr)
unfolding usable
usable-Distinct zero r curr = tt
usable-Distinct (suc n) r curr =
    let rest : Distinct (usable n r (curr + page_size)) = usable-Distinct n r (curr + page_size) in
    elim (Bool-cases (leb (curr + page_size) r.ram_end)) [
      | inr e ↦ rw e tt
      | inl e ↦ elim (Bool-cases (is_reserved r curr)) [
        | inl e' ↦ rw (e, e') rest
        | inr e' ↦
            rw (e, e')
              (usable-All (λ a. curr ≢ a) n r (curr + page_size) (λ a u. omega arith), rest)
      ]
    ]

-- The fuel of `init_free_list` is enough: no usable page is left out.
IsOffered-Mem :
    (n : ℕ) (r : Regions) (curr a : ℕ)
    → IsOffered r curr a
    → a < curr + n * page_size
    → Mem a (usable n r curr)
unfolding usable
IsOffered-Mem zero r curr a u fuel = absurd (omega arith)
IsOffered-Mem (suc n) r curr a u fuel =
    let inside : leb (curr + page_size) r.ram_end ≡ true = ground arith in
    elim (eq-cases curr a) [
      | inl e ↦
          rw (inside, ap (is_reserved r) e ∙ u.3)
            (subst (λ k. Mem a (k ∷ usable n r (curr + page_size))) (sym e) mem-cons_self)
      | inr ne ↦
          let rest : Mem a (usable n r (curr + page_size)) =
            IsOffered-Mem n r (curr + page_size) a (omega arith, omega arith, u.2, u.3)
              (omega arith) in
          elim (Bool-cases (is_reserved r curr)) [
            | inl e ↦ rw (inside, e) rest
            | inr e ↦ rw (inside, e) (mem-cons_of_mem curr rest)
          ]
    ]

-- `init`, when the kernel ends on a page boundary of a RAM of at most 2 GB.
pub record IsBootable (start : ℕ) (r : Regions) (kernel_end : ℕ) : Type 0 where
  pub above : start ≤ kernel_end
  pub aligned : (kernel_end - start) % page_size ≡ 0
  pub positive : 0 < kernel_end
  pub small : r.ram_end ≤ start + max_pages * page_size

init-Listed :
    (start : ℕ) (r : Regions) (kernel_end : ℕ) (mem : Memory)
    → 0 < kernel_end
    → let p = init start r kernel_end mem in
      Chain p.mem p.head (usable (r.ram_end / page_size) r kernel_end)
      × All (IsPoisoned p.mem) (usable (r.ram_end / page_size) r kernel_end)
unfolding init
init-Listed start r kernel_end mem nz = init_free_list-Listed r kernel_end mem nz

init-ram_start :
    (start : ℕ) (r : Regions) (kernel_end : ℕ) (mem : Memory)
    → (init start r kernel_end mem).ram_start ≡ start
unfolding init
init-ram_start start r kernel_end mem = refl

init-counts :
    (start : ℕ) (r : Regions) (kernel_end : ℕ) (mem : Memory) (j : ℕ)
    → (init start r kernel_end mem).counts j ≡ 0
unfolding init
init-counts start r kernel_end mem j = refl

IsOffered-IsFrame :
    (start : ℕ) (r : Regions) (kernel_end a : ℕ)
    → IsBootable start r kernel_end
    → IsOffered r kernel_end a
    → IsFrame start a
IsOffered-IsFrame start r kernel_end a boot u = record {
  above = omega (arith, boot.above);
  below = omega (arith, boot.small);
  aligned = omega (arith, boot.aligned, boot.above);
  nonzero = omega (arith, boot.positive);
}

All-map : {P Q : ℕ → Type 0} (xs : List ℕ) → ((a : ℕ) → P a → Q a) → All P xs → All Q xs
All-map [] f u = tt
All-map (x ∷ xs) f u = (f x u.0, All-map xs f u.1)

All-and : (P Q : ℕ → Type 0) (xs : List ℕ) → All P xs → All Q xs → All (λ a. P a × Q a) xs
All-and P Q [] u v = tt
All-and P Q (x ∷ xs) u v = ((u.0, v.0), All-and P Q xs u.1 v.1)

-- The page at `a` and the bytes from `first` to `last` have none in common.
abbrev pub IsApart : ℕ → ℕ → ℕ → Type 0
IsApart a first last = (last ≤ a) ⊎ (a + 4096 ≤ first)

-- A whole page of RAM, a number of pages behind the first, that overlaps neither the device tree nor
-- the initial RAM disk, which is absent when it starts at 0.
abbrev pub IsUsable : Regions → ℕ → ℕ → Type 0
IsUsable r curr a =
    (curr ≤ a)
    × ((a - curr) % 4096 ≡ 0)
    × (a + 4096 ≤ r.ram_end)
    × IsApart a r.fdt_start r.fdt_end
    × (0 < r.initrd_start → IsApart a r.initrd_start r.initrd_end)

le-or-lt : (a b : ℕ) → (a ≤ b) ⊎ (b < a)
le-or-lt a b = elim (Bool-cases (leb a b)) [
  | inl e ↦ inl (leb→le a b e)
  | inr e ↦ inr (ground (arith, e))
]

IsApart-of : (a first last : ℕ) → (a < last → first < a + 4096 → ⊥) → IsApart a first last
IsApart-of a first last h = elim (le-or-lt last a) [
  | inl low ↦ inl low
  | inr over ↦ elim (le-or-lt (a + 4096) first) [
    | inl high ↦ inr high
    | inr under ↦ absurd (h over under)
  ]
]

IsOffered-IsUsable : (r : Regions) (curr a : ℕ) → IsOffered r curr a → IsUsable r curr a
unfolding is_reserved
IsOffered-IsUsable r curr a (low, whole, high, free) = (
  low,
  whole,
  high,
  IsApart-of a r.fdt_start r.fdt_end (λ p q. absurd (ground (arith, free))),
  λ there. IsApart-of a r.initrd_start r.initrd_end (λ p q. absurd (ground (arith, free))),
)

not_reserved :
    (r : Regions) (a : ℕ)
    → IsApart a r.fdt_start r.fdt_end
    → (0 < r.initrd_start → IsApart a r.initrd_start r.initrd_end)
    → is_reserved r a ≡ false
unfolding is_reserved
not_reserved r a fdt initrd = elim (le-or-lt r.initrd_start 0) [
  | inl absent ↦ elim fdt [ inl p ↦ ground arith | inr p ↦ ground arith ]
  | inr there ↦ elim fdt [
    | inl p ↦ elim (initrd there) [ inl q ↦ ground arith | inr q ↦ ground arith ]
    | inr p ↦ elim (initrd there) [ inl q ↦ ground arith | inr q ↦ ground arith ]
  ]
]

-- After `init` the state is valid: the free list in memory is a chain of distinct free pages of
-- RAM. They are exactly the whole pages between the end of the kernel, a page boundary in a RAM of
-- at most 2 GB, and the end of RAM that overlap neither the device tree nor the initial RAM disk,
-- which is absent when it starts at 0.
pub init-IsValid :
    (start : ℕ) (r : Regions) (kernel_end : ℕ) (mem : Memory)
    → IsBootable start r kernel_end
    → (free : List ℕ) × IsValid (init start r kernel_end mem) free
      × All (IsUsable r kernel_end) free
      × ((a : ℕ) → IsUsable r kernel_end a → Mem a free)
init-IsValid start r kernel_end mem boot =
    let n : ℕ = r.ram_end / page_size in
    let p : Pmm = init start r kernel_end mem in
    let free : List ℕ = usable n r kernel_end in
    let (chain, fills) = init-Listed start r kernel_end mem boot.positive in
    let all : All (IsOffered r kernel_end) free =
      usable-All (IsOffered r kernel_end) n r kernel_end (λ a u. u) in
    (
      free,
      record {
        chain = chain;
        unused =
            All-map free
              (λ a (u, poisoned). (
                rw (init-ram_start start r kernel_end mem)
                    (IsOffered-IsFrame start r kernel_end a boot u),
                init-counts start r kernel_end mem _,
                poisoned,
              ))
              (All-and _ _ free all fills);
        distinct = usable-Distinct n r kernel_end;
      },
      All-map free (IsOffered-IsUsable r kernel_end) all,
      λ a u.
          IsOffered-Mem n r kernel_end a (u.0, u.1, u.2, not_reserved r a u.3 u.4)
            (omega (arith, u.2)),
    )
