-- ===== src/Posix/Job/Accounts.antt =====
-- The memory that jobs account for stays within their limits.
use openv.Common.{
  ℕ, zero, suc, ◌+◌, ◌≤◌, ◌<◌, ◌≡◌, ◌%◌, ◌^◌, refl, sym, subst, ap, ◌∙◌, Bool, true, false, Option,
  none, some, List, [], ◌∷◌, length, arith, eq-cases, inl, inr, ◌⊎◌,
}
use openv.Posix.Job.{
  Job, Jobs, usize_max, upgrade, exceeds, check_from, check_memory_limit, add_bytes, recount,
  alloc_memory,
}
use openv.Posix.Job.Line.{IsLine, IsForest, elem, IsLine-of, charged, charge_from-line}

check_from-some :
    (fuel bytes : ℕ) (jobs : Jobs) (id : ℕ) (job : Job)
    → jobs id ≡ some job
    → check_from (suc fuel) bytes jobs (some id) ≡ (elim (exceeds bytes job) [
      | true ↦ some false
      | false ↦ check_from fuel bytes jobs (upgrade jobs job.parent)
    ])
unfolding check_from
check_from-some fuel bytes jobs id job e =
    ap
      (λ (o : Option Job). elim o [
        | none ↦ some true
        | some job' ↦ elim (exceeds bytes job') [
          | true ↦ some false
          | false ↦ check_from fuel bytes jobs (upgrade jobs job'.parent)
        ]
      ])
      e

-- All jobs of the line have room for the bytes, or one has not.
abbrev pub AllAllow : ℕ → Jobs → List ℕ → Type 0
AllAllow bytes jobs ids =
    (j : ℕ) (job : Job) → elem j ids ≡ true → jobs j ≡ some job → exceeds bytes job ≡ false

abbrev pub OneRefuses : ℕ → Jobs → List ℕ → Type 0
OneRefuses bytes jobs ids =
    (j : ℕ) × (job : Job) × (elem j ids ≡ true)
    × (jobs j ≡ some job)
    × (job.max_memory < usize_max)
    × (job.max_memory < job.current_memory + bytes)

abbrev pub Checks : Option Bool → ℕ → Jobs → List ℕ → Type 0
Checks answer bytes jobs ids =
    ((answer ≡ some true) × AllAllow bytes jobs ids)
    ⊎ ((answer ≡ some false) × OneRefuses bytes jobs ids)

elem-tail : (j id : ℕ) (ids : List ℕ) → elem j ids ≡ true → elem j (id ∷ ids) ≡ true
elem-tail j id ids h = ground arith

some-job : (j k : Job) → some j ≡ some k → j ≡ k
some-job j k e = cc

check_from-line :
    (fuel bytes : ℕ) (jobs : Jobs) (curr : Option ℕ) (ids : List ℕ)
    → IsLine jobs curr ids
    → length ids < fuel
    → Checks (check_from fuel bytes jobs curr) bytes jobs ids
unfolding check_from
check_from-line zero bytes jobs curr ids line enough = absurd (omega arith)
check_from-line (suc fuel) bytes jobs curr [] line enough =
    inl (ap (check_from (suc fuel) bytes jobs) line, λ j job e. absurd (ground (arith, e)))
check_from-line (suc fuel) bytes jobs curr (id ∷ ids) (job, at, e, line) enough =
    subst (λ o. Checks o bytes jobs (id ∷ ids))
      (sym (ap (check_from (suc fuel) bytes jobs) at ∙ check_from-some fuel bytes jobs id job e))
      (first (exceeds bytes job) refl (check_from-line fuel bytes jobs _ ids line (omega arith)))
  where
    rest : Option Bool
    rest = check_from fuel bytes jobs (upgrade jobs job.parent)

    first :
        (b : Bool)
        → exceeds bytes job ≡ b
        → Checks rest bytes jobs ids
        → Checks (elim b [ true ↦ some false | false ↦ rest ]) bytes jobs (id ∷ ids)
    first true over h =
        inr (refl, (id, job, ground arith, e, ground (arith, over), ground (arith, over)))
    first false room (inr (answer, (j, job', on, e', small, over))) =
        inr (answer, (j, job', elem-tail j id ids on, e', small, over))
    first false room (inl (answer, all)) = inl (
      answer,
      λ j job' on e'. elim (eq-cases j id) [
        | inl same ↦ ap (exceeds bytes) (some-job job' job (sym e' ∙ ap jobs same ∙ e)) ∙ room
        | inr ne ↦ all j job' (ground (arith, on, ne)) e'
      ],
    )

-- What the counters are after the bytes have been added.
abbrev pub WithinLimits : ℕ → Jobs → Jobs → List ℕ → Type 0
WithinLimits bytes jobs jobs' ids =
    (j : ℕ) (job : Job)
    → elem j ids ≡ true
    → jobs j ≡ some job
    → (jobs' j ≡ some (record job { current_memory = (job.current_memory + bytes) % 2 ^ 64 }))
      × (job.max_memory < usize_max → job.current_memory + bytes ≤ job.max_memory)

pub recount-some :
    (f : ℕ → ℕ) (job : Job) (n : ℕ)
    → f job.current_memory ≡ n
    → recount f (some job) ≡ some (record job { current_memory = n })
recount-some f job n e = ap (λ (k : ℕ). some (record job { current_memory = k })) e

allowed-room :
    (bytes : ℕ) (job : Job)
    → exceeds bytes job ≡ false
    → job.max_memory < usize_max
    → job.current_memory + bytes ≤ job.max_memory
allowed-room bytes job h small = ground (arith, h)

allowed-WithinLimits :
    (bytes : ℕ) (jobs jobs' : Jobs) (ids : List ℕ)
    → AllAllow bytes jobs ids
    → ((j : ℕ) → jobs' j ≡ charged (add_bytes bytes) jobs ids j)
    → WithinLimits bytes jobs jobs' ids
allowed-WithinLimits bytes jobs jobs' ids all after j job on e =
    (after j ∙ rw on (ap (recount (add_bytes bytes)) e), allowed-room bytes job (all j job on e))

-- Fuel beyond the job's number lets the loops over a job and its ancestors that are alive end, when
-- the number of a parent is smaller than the child's. `check_memory_limit` refuses only if the
-- bytes would bring one of these jobs over its limit, which is below the largest `usize`. When it
-- allows, `alloc_memory` adds the bytes, modulo 2 to the 64, to each of them once and to no other
-- job, and each with a limit below the largest `usize` stays within it.
pub check_memory_limit-alloc_memory :
    (fuel : ℕ) (jobs : Jobs) (id : ℕ) (job : Job) (bytes : ℕ)
    → IsForest jobs
    → jobs id ≡ some job
    → suc id < fuel
    → (ids : List ℕ) × (jobs' : Jobs) × IsLine jobs (some id) ids
      × (alloc_memory fuel jobs id bytes ≡ some jobs')
      × ((j : ℕ) → elem j ids ≡ false → jobs' j ≡ jobs j)
      × (((check_memory_limit fuel jobs id bytes ≡ some true) × WithinLimits bytes jobs jobs' ids)
          ⊎ ((check_memory_limit fuel jobs id bytes ≡ some false) × OneRefuses bytes jobs ids))
unfolding alloc_memory check_memory_limit
check_memory_limit-alloc_memory fuel jobs id job bytes forest e enough =
    let (ids, line, falls, short) = IsLine-of (suc id) jobs id job forest e (omega arith) in
    let (jobs', run, after) =
      charge_from-line fuel (suc id) (add_bytes bytes) jobs (some id) (id ∷ ids) line falls
        (omega (arith, short)) in
    (
      id ∷ ids,
      jobs',
      line,
      run,
      λ j off. after j ∙ rw off refl,
      verdict (id ∷ ids) jobs' after
          (check_from-line fuel bytes jobs (some id) (id ∷ ids) line (omega (arith, short))),
    )
  where
    verdict :
        (ids : List ℕ) (jobs' : Jobs)
        → ((j : ℕ) → jobs' j ≡ charged (add_bytes bytes) jobs ids j)
        → Checks (check_from fuel bytes jobs (some id)) bytes jobs ids
        → (((check_from fuel bytes jobs (some id) ≡ some true) × WithinLimits bytes jobs jobs' ids)
            ⊎ ((check_from fuel bytes jobs (some id) ≡ some false) × OneRefuses bytes jobs ids))
    verdict ids jobs' after (inl (answer, all)) =
        inl (answer, allowed-WithinLimits bytes jobs jobs' ids all after)
    verdict ids jobs' after (inr refused) = inr refused
