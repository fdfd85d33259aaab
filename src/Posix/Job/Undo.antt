-- ===== src/Posix/Job/Undo.antt =====
-- Giving memory back restores what the jobs account for.
use openv.Common.{
  ℕ, suc, ◌^◌, ◌<◌, ◌≡◌, refl, ap, ◌∙◌, Bool, true, false, Option, none, some, List, ◌∷◌, arith,
  if◌then◌else◌,
}
use openv.Posix.Job.{Job, Jobs, add_bytes, sub_bytes, recount, alloc_memory, dealloc_memory}
use openv.Posix.Job.Line.{
  IsLine, IsForest, elem, IsLine-of, parents, SameParents, IsLine-same, charged, charge_from-line,
}
use openv.Posix.Job.Accounts.{recount-some}

-- Counters that fit 64 bits.
abbrev pub AllWords : Jobs → Type 0
AllWords jobs = (j : ℕ) (job : Job) → jobs j ≡ some job → job.current_memory < 2 ^ 64

add-sub : (bytes n : ℕ) → n < 2 ^ 64 → sub_bytes bytes (add_bytes bytes n) ≡ n
add-sub bytes n h = omega arith

recount-undo :
    (bytes : ℕ) (o : Option Job)
    → ((job : Job) → o ≡ some job → job.current_memory < 2 ^ 64)
    → recount (sub_bytes bytes) (recount (add_bytes bytes) o) ≡ o
recount-undo bytes none h = refl
recount-undo bytes (some job) h =
    recount-some (λ n. sub_bytes bytes (add_bytes bytes n)) job job.current_memory
      (add-sub bytes job.current_memory (h job refl))

charged-SameParents :
    (f : ℕ → ℕ) (jobs jobs' : Jobs) (ids : List ℕ)
    → ((j : ℕ) → jobs' j ≡ charged f jobs ids j)
    → SameParents jobs jobs'
charged-SameParents f jobs jobs' ids after j = ap parents (after j) ∙ either (elem j ids) (jobs j)
  where
    either : (b : Bool) (o : Option Job) → parents (if b then recount f o else o) ≡ parents o
    either true none = refl
    either true (some job) = refl
    either false o = refl

undone :
    (bytes : ℕ) (b : Bool) (o : Option Job)
    → ((job : Job) → o ≡ some job → job.current_memory < 2 ^ 64)
    → (if b
        then recount (sub_bytes bytes) (if b then recount (add_bytes bytes) o else o)
        else if b
        then recount (add_bytes bytes) o
        else o)
      ≡ o
undone bytes true o h = recount-undo bytes o h
undone bytes false o h = refl

-- With such fuel `dealloc_memory` undoes `alloc_memory` of as many bytes: every job is as it was. The
-- counters may wrap round in between.
pub dealloc_memory-alloc_memory :
    (fuel : ℕ) (jobs : Jobs) (id : ℕ) (job : Job) (bytes : ℕ)
    → IsForest jobs
    → AllWords jobs
    → jobs id ≡ some job
    → suc id < fuel
    → (jobs' : Jobs) × (jobs'' : Jobs) × (alloc_memory fuel jobs id bytes ≡ some jobs')
      × (dealloc_memory fuel jobs' id bytes ≡ some jobs'')
      × ((j : ℕ) → jobs'' j ≡ jobs j)
unfolding alloc_memory dealloc_memory
dealloc_memory-alloc_memory fuel jobs id job bytes forest words e enough =
    let (ids, line, falls, short) = IsLine-of (suc id) jobs id job forest e (omega arith) in
    let (jobs', run, after) =
      charge_from-line fuel (suc id) (add_bytes bytes) jobs (some id) (id ∷ ids) line falls
        (omega (arith, short)) in
    let line' : IsLine jobs' (some id) (id ∷ ids) =
      IsLine-same jobs jobs' (some id) (id ∷ ids)
        (charged-SameParents (add_bytes bytes) jobs jobs' (id ∷ ids) after) line in
    let (jobs'', run', after') =
      charge_from-line fuel (suc id) (sub_bytes bytes) jobs' (some id) (id ∷ ids) line' falls
        (omega (arith, short)) in
    (
      jobs',
      jobs'',
      run,
      run',
      λ j.
          after' j
          ∙ ap (λ o. if elem j (id ∷ ids) then recount (sub_bytes bytes) o else o) (after j)
          ∙ undone bytes (elem j (id ∷ ids)) (jobs j) (words j),
    )
