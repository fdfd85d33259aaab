-- ===== src/Mm/Vmm/Demand/Maps.antt =====
-- A fault on an address that is not mapped gets a page of zeros.
use openv.Common.{
  ◌||◌, ==_iff, ℕ, ◌+◌, ◌%◌, ◌^◌, ◌≤◌, ◌<◌, ◌≡◌, ◌≢◌, refl, sym, ap, ◌∙◌, bit_and, bit_or, Bool,
  true, false, not, ◌&&◌, some, List, [], ◌∷◌, length, ◌==◌, leb, ltb, arith, if◌then◌else◌,
}
use openv.Common.Bits.{bit_of, bit_or-lt}
use openv.Common.Table.{all_below, all_below_sound}
use openv.Mm.Pmm.{Pmm, returns, page_size}
use openv.Mm.Pmm.Frames.{alloc_frame_lem}
use openv.Mm.UserPointer.{user_start, user_end}
use openv.Mm.Vmm.{
  pte_r, pte_w, pte_x, pte_u, is_set, ok, err, unmapped, alloc_or_fail, walk_page_table, map_page,
}
use openv.Mm.Vmm.Tables.{other, Owner, IsTree, IsReady, IsFrame-IsPage, agree-IsTree}
use openv.Mm.Vmm.Agree.{agree-walk}
use openv.Mm.Vmm.Mapping.{SamePage, map_page_lem}
use openv.Mm.Vmm.Unmap.{page_floor}
use openv.Mm.Vmm.Descend.{alloc_or_fail-some}
use openv.Mm.Vmm.Demand.{
  Kernel, Fault, handled, fault_flags, account, map_fresh, demand_page, refuses_memory,
  limited_page, handle_user_page_fault,
}
use openv.Posix.Job.{Jobs, check_memory_limit, alloc_memory}

-- The new page: its addresses lead to the frame, which holds zeros; the rest is as before.
pub record Paged (k k' : Kernel) (root : ℕ) (owner : Owner) (free : List ℕ) (va flags f : ℕ)
    : Type 0 where
  pub tree : IsTree k'.pmm.mem root owner
  pub ready : IsReady k'.pmm free owner
  pub mapped :
      (va' : ℕ)
      → SamePage va va'
      → walk_page_table k'.pmm.mem root va' ≡ ok (f + va' % 4096, bit_or 1 flags)
  pub others :
      (va' : ℕ)
      → (SamePage va va' → ⊥)
      → walk_page_table k'.pmm.mem root va' ≡ walk_page_table k.pmm.mem root va'
  pub zeros : (j : ℕ) → k'.pmm.mem f j ≡ 0
  pub unshared : owner f ≡ other

-- What a bit of the new page's flags is: the page can be read by the user; it can be written if that was
-- asked for or it is not to be executed; the other bits are those that were asked for.
abbrev pub fault_bit : ℕ → ℕ → ℕ
fault_bit extra j =
    if j == 1 || j == 4
    then 1
    else if j == 2
    then (if bit_of 3 extra == 0 then 1 else bit_of 2 extra)
    else bit_of j extra

fault_flags_table :
    all_below 1024 (λ e. all_below 10 (λ (j : ℕ). bit_of j (fault_flags e) == fault_bit e j)) ≡ true
unfolding all_below
fault_flags_table = refl

fault_flags-bits :
    (extra j : ℕ) → extra < 1024 → j < 10 → bit_of j (fault_flags extra) ≡ fault_bit extra j
fault_flags-bits extra j small inside =
    (==_iff (bit_of j (fault_flags extra)) (fault_bit extra j)).0 (
      all_below_sound 10 (λ (i : ℕ). bit_of i (fault_flags extra) == fault_bit extra i) j
        (all_below_sound 1024
          (λ (e : ℕ). all_below 10 (λ (i : ℕ). bit_of i (fault_flags e) == fault_bit e i)) extra
          fault_flags_table small)
        inside)

fault_flags-lt : (extra : ℕ) → extra < 1024 → fault_flags extra < 1024
fault_flags-lt extra small =
    bit_or-lt 10
      (bit_or (bit_or (bit_or pte_r pte_u) extra) (if is_set extra pte_x then pte_x else 0))
      (if bit_and extra pte_w == 0 && not (is_set extra pte_x) then pte_w else 0)
      (bit_or-lt 10 (bit_or (bit_or pte_r pte_u) extra) (if is_set extra pte_x then pte_x else 0)
        (bit_or-lt 10 18 extra (omega arith) small) (choice (is_set extra pte_x) 8 (omega arith)))
      (choice (bit_and extra pte_w == 0 && not (is_set extra pte_x)) 4 (omega arith))
  where
    choice : (b : Bool) (n : ℕ) → n < 1024 → (if b then n else 0) < 1024
    choice true n h = h
    choice false n h = omega arith

account-charges :
    (fuel job : ℕ) (k : Kernel) (p : Pmm) (jobs : Jobs)
    → alloc_memory fuel k.jobs job 4096 ≡ some jobs
    → account fuel (some job) k p
      ≡ handled
          (record { pmm = p; jobs = jobs; allocated_pages = (k.allocated_pages + 1) % 2 ^ 64 })
unfolding account
account-charges fuel job k p jobs e = rw (e, account) refl

demand_page-runs :
    (debug : Bool) (fuel job root page_va extra f : ℕ) (k : Kernel) (p₁ p₂ : Pmm)
    → alloc_or_fail debug k.pmm ≡ returns (ok f, p₁)
    → map_page debug root page_va f (fault_flags extra) p₁ ≡ returns (ok tt, p₂)
    → demand_page debug fuel (some job) root page_va extra k ≡ account fuel (some job) k p₂
unfolding demand_page map_fresh
demand_page-runs debug fuel job root page_va extra f k p₁ p₂ alloc mapped =
    rw (alloc, demand_page) (rw (mapped, map_fresh) refl)

limited_page-runs :
    (debug : Bool) (fuel job root page_va extra f : ℕ) (k : Kernel) (p₁ p₂ : Pmm) (jobs : Jobs)
    → check_memory_limit fuel k.jobs job 4096 ≡ some true
    → alloc_memory fuel k.jobs job 4096 ≡ some jobs
    → alloc_or_fail debug k.pmm ≡ returns (ok f, p₁)
    → map_page debug root page_va f (fault_flags extra) p₁ ≡ returns (ok tt, p₂)
    → limited_page debug fuel (some job) root page_va extra k
      ≡ handled
          (record { pmm = p₂; jobs = jobs; allocated_pages = (k.allocated_pages + 1) % 2 ^ 64 })
unfolding limited_page refuses_memory
limited_page-runs debug fuel job root page_va extra f k p₁ p₂ jobs allowed charged alloc mapped =
    rw (allowed, refuses_memory, limited_page)
      (demand_page-runs debug fuel job root page_va extra f k p₁ p₂ alloc mapped
        ∙ account-charges fuel job k p₂ jobs charged)

-- The branches of the handler that lead to the page.
handle_user_page_fault-runs :
    (debug : Bool) (lookup_swap : ℕ → ℕ → Bool) (swap_in : ℕ → ℕ → Kernel → Fault)
    (fuel job root fault_va extra f : ℕ) (k : Kernel) (p₁ p₂ : Pmm) (jobs : Jobs)
    → user_start ≤ fault_va
    → fault_va < user_end
    → lookup_swap root (page_floor fault_va) ≡ false
    → check_memory_limit fuel k.jobs job 4096 ≡ some true
    → alloc_memory fuel k.jobs job 4096 ≡ some jobs
    → alloc_or_fail debug k.pmm ≡ returns (ok f, p₁)
    → map_page debug root (page_floor fault_va) f (fault_flags extra) p₁ ≡ returns (ok tt, p₂)
    → handle_user_page_fault debug lookup_swap swap_in fuel (some job) root fault_va extra k
      ≡ handled
          (record { pmm = p₂; jobs = jobs; allocated_pages = (k.allocated_pages + 1) % 2 ^ 64 })
unfolding handle_user_page_fault
handle_user_page_fault-runs debug lookup_swap swap_in fuel job root fault_va extra f k p₁ p₂ jobs
      low high swapped allowed charged alloc mapped =
    let above : leb user_end fault_va ≡ false = ground (arith, high) in
    let below : ltb fault_va user_start ≡ false = ground (arith, low) in
    rw (above, below, swapped, handle_user_page_fault)
      (limited_page-runs debug fuel job root (page_floor fault_va) extra f k p₁ p₂ jobs allowed
        charged alloc mapped)

-- When a fault in user memory is at an address that is neither mapped nor swapped out, three frames
-- are free, and the jobs of the process allow a page, the handler succeeds and charges the jobs:
-- the addresses of the page then lead to a frame of zeros, which is no table. The user may read the
-- page. It may be executed just if `extra_flags` ask for that, and written if they ask for that or
-- do not ask for executing, so that it is both only if they ask for both. Every other address leads
-- to what it led to before; the tables stay a tree and the free list stays valid.
pub handle_user_page_fault_lem :
    (debug : Bool) (lookup_swap : ℕ → ℕ → Bool) (swap_in : ℕ → ℕ → Kernel → Fault)
    (fuel job root fault_va extra : ℕ) (k : Kernel) (owner : Owner) (free : List ℕ) (jobs : Jobs)
    → IsTree k.pmm.mem root owner
    → IsReady k.pmm free owner
    → 2 < length free
    → user_start ≤ fault_va
    → fault_va < user_end
    → lookup_swap root (page_floor fault_va) ≡ false
    → walk_page_table k.pmm.mem root (page_floor fault_va) ≡ err unmapped
    → extra < 1024
    → check_memory_limit fuel k.jobs job 4096 ≡ some true
    → alloc_memory fuel k.jobs job 4096 ≡ some jobs
    → (k' : Kernel) × (owner' : Owner) × (free' : List ℕ) × (f : ℕ) × (flags : ℕ)
      × (handle_user_page_fault debug lookup_swap swap_in fuel (some job) root fault_va extra k
          ≡ handled k')
      × Paged k k' root owner' free' (page_floor fault_va) flags f
      × (flags < 1024)
      × ((j : ℕ) → j < 10 → bit_of j flags ≡ fault_bit extra j)
      × (k'.jobs ≡ jobs)
      × (k'.allocated_pages ≡ (k.allocated_pages + 1) % 2 ^ 64)
handle_user_page_fault_lem debug lookup_swap swap_in fuel job root fault_va extra k owner [] jobs
      tree ready frames low high swapped gap small allowed charged =
    absurd (omega arith)
handle_user_page_fault_lem debug lookup_swap swap_in fuel job root fault_va extra k owner (f ∷ free)
      jobs tree ready frames low high swapped gap small allowed charged =
    let (p₁, alloc, v, apart, count, zeros, only) =
      alloc_frame_lem debug k.pmm f free ready.valid in
    let same : (a j : ℕ) → owner a ≢ other → p₁.mem a j ≡ k.pmm.mem a j =
      λ a j ne. only.2 a (λ e. ne (ap owner (sym e) ∙ ready.unowned.0)) j in
    let ready₁ : IsReady p₁ free owner = record {
      valid = v;
      aligned = ap (λ b. b % page_size) only.0 ∙ ready.aligned;
      bounded = omega (arith, only.0, ready.bounded);
      unowned = ready.unowned.1;
    } in
    let page = IsFrame-IsPage k.pmm f ready.aligned ready.bounded ready.valid.unused.0.0 in
    let (p₂, owner', free', run, m, still, spent) =
      map_page_lem debug p₁ root owner free (page_floor fault_va) f (fault_flags extra)
        (agree-IsTree k.pmm.mem p₁.mem root owner tree same) ready₁ (omega arith)
        (agree-walk k.pmm.mem p₁.mem root owner tree same (page_floor fault_va) ∙ gap) page
        (fault_flags-lt extra small) in
    let (role, off, kept) = still f ready.unowned.0 apart in
    (
      record { pmm = p₂; jobs = jobs; allocated_pages = (k.allocated_pages + 1) % 2 ^ 64 },
      owner',
      free',
      f,
      fault_flags extra,
      handle_user_page_fault-runs debug lookup_swap swap_in fuel job root fault_va extra f k p₁ p₂
          jobs low high swapped allowed charged (alloc_or_fail-some debug k.pmm p₁ f alloc) run,
      record {
        tree = m.tree;
        ready = m.ready;
        mapped = m.mapped;
        others =
            λ va' away. m.others va' away ∙ agree-walk k.pmm.mem p₁.mem root owner tree same va';
        zeros = λ j. kept j ∙ zeros j;
        unshared = role;
      },
      fault_flags-lt extra small,
      λ j. fault_flags-bits extra j small,
      refl,
      refl,
    )
