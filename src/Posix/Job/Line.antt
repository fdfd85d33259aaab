-- ===== src/Posix/Job/Line.antt =====
-- The line of jobs from a job up to the last ancestor that is alive, and the loops over it.
use openv.Common.{
  ℕ, zero, suc, ◌≤◌, ◌<◌, ◌≡◌, ◌⊎◌, refl, sym, subst, ap, ◌∙◌, Bool, true, false, Option, none,
  some, List, [], ◌∷◌, length, ◌==◌, ==_ne, ==_refl, arith, if◌then◌else◌, eq-cases, inl, inr,
}
use openv.Posix.Job.{Job, Jobs, upgrade, recount, charge, charge_from}

abbrev pub IsLine : Jobs → Option ℕ → List ℕ → Type 0
IsLine jobs curr [] = curr ≡ none
IsLine jobs curr (id ∷ ids) =
    (job : Job) × (curr ≡ some id)
    × (jobs id ≡ some job)
    × IsLine jobs (upgrade jobs job.parent) ids

-- Jobs are created below jobs that exist: the parent's number is the smaller one.
abbrev pub IsForest : Jobs → Type 0
IsForest jobs = (id p : ℕ) (job : Job) → jobs id ≡ some job → job.parent ≡ some p → p < id

abbrev pub Falls : ℕ → List ℕ → Type 0
Falls n [] = Unit {0}
Falls n (id ∷ ids) = (id < n) × Falls id ids

abbrev pub elem : ℕ → List ℕ → Bool
elem j [] = false
elem j (id ∷ ids) = if j == id then true else elem j ids

pub Falls-elem : (n j : ℕ) (ids : List ℕ) → Falls n ids → n ≤ j → elem j ids ≡ false
Falls-elem n j [] falls le = refl
Falls-elem n j (id ∷ ids) falls le = ground (arith, Falls-elem id j ids falls.1 (omega arith))

upgrade-cases :
    (jobs : Jobs) (parent : Option ℕ)
    → (upgrade jobs parent ≡ none)
      ⊎ ((p : ℕ) × (job : Job) × (parent ≡ some p)
          × (jobs p ≡ some job)
          × (upgrade jobs parent ≡ some p))
upgrade-cases jobs none = inl refl
upgrade-cases jobs (some p) = alive (jobs p) refl
  where
    alive :
        (o : Option Job)
        → jobs p ≡ o
        → (upgrade jobs (some p) ≡ none)
          ⊎ ((p' : ℕ) × (job : Job) × (some p ≡ some p')
              × (jobs p' ≡ some job)
              × (upgrade jobs (some p) ≡ some p'))
    alive none e = inl (rw (e, upgrade) refl)
    alive (some job) e = inr (p, job, refl, e, rw (e, upgrade) refl)

-- A job that is alive has such a line, of at most as many jobs as have numbers up to its own.
pub IsLine-of :
    (n : ℕ) (jobs : Jobs) (id : ℕ) (job : Job)
    → IsForest jobs
    → jobs id ≡ some job
    → id < n
    → (ids : List ℕ) × IsLine jobs (some id) (id ∷ ids)
      × Falls n (id ∷ ids)
      × (length (id ∷ ids) ≤ n)
IsLine-of zero jobs id job forest e lt = absurd (omega arith)
IsLine-of (suc n) jobs id job forest e lt = elim (upgrade-cases jobs job.parent) [
  | inl top ↦ ([], (job, refl, e, top), (lt, tt), omega arith)
  | inr (p, job', at, e', up) ↦
      let smaller : p < id = forest id p job e at in
      let (ids, line, falls, short) = IsLine-of n jobs p job' forest e' (omega arith) in
      (
        p ∷ ids,
        (job, refl, e, (line.0, up, line.2, line.3)),
        (lt, (smaller, falls.1)),
        omega (arith, short),
      )
]

-- The jobs' parents, which charging does not change.
abbrev pub parents : Option Job → Option (Option ℕ)
parents none = none
parents (some job) = some job.parent

abbrev pub SameParents : Jobs → Jobs → Type 0
SameParents jobs jobs' = (j : ℕ) → parents (jobs' j) ≡ parents (jobs j)

upgrade-same :
    (jobs jobs' : Jobs) (parent : Option ℕ)
    → SameParents jobs jobs'
    → upgrade jobs' parent ≡ upgrade jobs parent
upgrade-same jobs jobs' none same = refl
upgrade-same jobs jobs' (some p) same = alive (jobs' p) (jobs p) (same p)
  where
    alive :
        (o' o : Option Job)
        → parents o' ≡ parents o
        → ◌≡◌ {A = Option ℕ}
            (elim o' [ none ↦ none | some job ↦ some p ])
            (elim o [ none ↦ none | some job ↦ some p ])
    alive none none e = refl
    alive none (some job) e = absurd cc
    alive (some job) none e = absurd cc
    alive (some job) (some job') e = refl

same-parent :
    (o' : Option Job) (job : Job)
    → parents o' ≡ some job.parent
    → (job' : Job) × (o' ≡ some job') × (job'.parent ≡ job.parent)
same-parent none job e = absurd cc
same-parent (some job') job e = (job', refl, cc)

pub IsLine-same :
    (jobs jobs' : Jobs) (curr : Option ℕ) (ids : List ℕ)
    → SameParents jobs jobs'
    → IsLine jobs curr ids
    → IsLine jobs' curr ids
IsLine-same jobs jobs' curr [] same line = line
IsLine-same jobs jobs' curr (id ∷ ids) same (job, at, e, line) =
    let (job', e', p) = same-parent (jobs' id) job (same id ∙ ap parents e) in
    (
      job',
      at,
      e',
      subst (λ (c : Option ℕ). IsLine jobs' c ids)
          (sym (ap (upgrade jobs') p ∙ upgrade-same jobs jobs' job.parent same))
          (IsLine-same jobs jobs' (upgrade jobs job.parent) ids same line),
    )

parents-recount : (f : ℕ → ℕ) (o : Option Job) → parents (recount f o) ≡ parents o
parents-recount f none = refl
parents-recount f (some job) = refl

pub charge-SameParents : (f : ℕ → ℕ) (jobs : Jobs) (id : ℕ) → SameParents jobs (charge f jobs id)
charge-SameParents f jobs id j = elim (eq-cases j id) [
  | inl e ↦ rw e (rw (==_refl id) (parents-recount f (jobs id)))
  | inr ne ↦ rw (==_ne j id ne) refl
]

-- What is left after the loop.
abbrev pub charged : (ℕ → ℕ) → Jobs → List ℕ → Jobs
charged f jobs ids j = if elem j ids then recount f (jobs j) else jobs j

charge_from-some :
    (fuel : ℕ) (f : ℕ → ℕ) (jobs : Jobs) (id : ℕ) (job : Job)
    → jobs id ≡ some job
    → charge_from (suc fuel) f jobs (some id)
      ≡ charge_from fuel f (charge f jobs id) (upgrade (charge f jobs id) job.parent)
unfolding charge_from
charge_from-some fuel f jobs id job e =
    ap
      (λ (o : Option Job). elim o [
        | none ↦ some jobs
        | some job' ↦ charge_from fuel f (charge f jobs id) (upgrade (charge f jobs id) job'.parent)
      ])
      e

-- With fuel beyond the length of the line, the loop ends, with each job on it charged once.
pub charge_from-line :
    (fuel n : ℕ) (f : ℕ → ℕ) (jobs : Jobs) (curr : Option ℕ) (ids : List ℕ)
    → IsLine jobs curr ids
    → Falls n ids
    → length ids < fuel
    → (jobs' : Jobs) × (charge_from fuel f jobs curr ≡ some jobs')
      × ((j : ℕ) → jobs' j ≡ charged f jobs ids j)
unfolding charge_from
charge_from-line zero n f jobs curr ids line falls enough = absurd (omega arith)
charge_from-line (suc fuel) n f jobs curr [] line falls enough = (jobs, rw line refl, λ j. refl)
charge_from-line (suc fuel) n f jobs curr (id ∷ ids) (job, at, e, line) falls enough =
    let jobs₁ : Jobs = charge f jobs id in
    let same = charge-SameParents f jobs id in
    let line₁ : IsLine jobs₁ (upgrade jobs₁ job.parent) ids =
      subst (λ (c : Option ℕ). IsLine jobs₁ c ids) (sym (upgrade-same jobs jobs₁ job.parent same))
        (IsLine-same jobs jobs₁ (upgrade jobs job.parent) ids same line) in
    let (jobs', run, all) =
      charge_from-line fuel id f jobs₁ (upgrade jobs₁ job.parent) ids line₁ falls.1 (omega arith) in
    (
      jobs',
      ap (charge_from (suc fuel) f jobs) at ∙ charge_from-some fuel f jobs id job e ∙ run,
      λ j. all j ∙ once j,
    )
  where
    once : (j : ℕ) → charged f (charge f jobs id) ids j ≡ charged f jobs (id ∷ ids) j
    once j = elim (eq-cases j id) [
      | inl eq ↦ ground (arith, Falls-elem id j ids falls.1 (omega arith))
      | inr ne ↦ rw (==_ne j id ne) refl
    ]
