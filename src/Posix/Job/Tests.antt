-- ===== src/Posix/Job/Tests.antt =====
-- The theorems on jobs, on a root job and a job below it.
use openv.Common.{
  ℕ, zero, suc, ◌^◌, ◌<◌, ◌≡◌, ◌⊎◌, refl, ap, ◌∙◌, arith, true, false, Option, none, some, List, [],
  ◌∷◌,
}
use openv.Posix.Job.{Job, Jobs, new, check_memory_limit, alloc_memory, dealloc_memory}
use openv.Posix.Job.Line.{IsLine, IsForest, elem}
use openv.Posix.Job.Accounts.{OneRefuses, WithinLimits, check_memory_limit-alloc_memory}
use openv.Posix.Job.Undo.{AllWords, dealloc_memory-alloc_memory}

abbrev root_job : Job
root_job = new none

abbrev child_job : Job
child_job = record {
  parent = some 0;
  children = [];
  processes = 7 ∷ [];
  max_memory = 0x10000;
  current_memory = 0x3000;
}

abbrev two_jobs : Jobs
two_jobs zero = some root_job
two_jobs (suc zero) = some child_job
two_jobs (suc (suc j)) = none

some-job : (j k : Job) → some j ≡ some k → j ≡ k
some-job j k e = cc

abbrev parent_of : Job → Option ℕ
parent_of job = job.parent

zero_lt : (p : ℕ) → some 0 ≡ some p → p < 1
zero_lt p e = let q : 0 ≡ p = cc in omega arith

small : (j k : Job) → some j ≡ some k → j.current_memory < 2 ^ 64 → k.current_memory < 2 ^ 64
small j k e h = omega (arith, h, ap (λ (i : Job). i.current_memory) (some-job j k e))

two_jobs-IsForest : IsForest two_jobs
two_jobs-IsForest zero p job e at = absurd cc
two_jobs-IsForest (suc zero) p job e at =
    let q : some 0 ≡ some p = ap parent_of (some-job child_job job e) ∙ at in zero_lt p q
two_jobs-IsForest (suc (suc j)) p job e at = absurd cc

two_jobs-AllWords : AllWords two_jobs
two_jobs-AllWords zero job e = small root_job job e (omega arith)
two_jobs-AllWords (suc zero) job e = small child_job job e (omega arith)
two_jobs-AllWords (suc (suc j)) job e = absurd cc

check_memory_limit-alloc_memory_example :
    (ids : List ℕ) × (jobs' : Jobs) × IsLine two_jobs (some 1) ids
    × (alloc_memory 3 two_jobs 1 4096 ≡ some jobs')
    × ((j : ℕ) → elem j ids ≡ false → jobs' j ≡ two_jobs j)
    × (((check_memory_limit 3 two_jobs 1 4096 ≡ some true) × WithinLimits 4096 two_jobs jobs' ids)
        ⊎ ((check_memory_limit 3 two_jobs 1 4096 ≡ some false) × OneRefuses 4096 two_jobs ids))
check_memory_limit-alloc_memory_example =
    check_memory_limit-alloc_memory 3 two_jobs 1 child_job 4096 two_jobs-IsForest refl (omega arith)

dealloc_memory-alloc_memory_example :
    (jobs' : Jobs) × (jobs'' : Jobs) × (alloc_memory 3 two_jobs 1 4096 ≡ some jobs')
    × (dealloc_memory 3 jobs' 1 4096 ≡ some jobs'')
    × ((j : ℕ) → jobs'' j ≡ two_jobs j)
dealloc_memory-alloc_memory_example =
    dealloc_memory-alloc_memory 3 two_jobs 1 child_job 4096 two_jobs-IsForest two_jobs-AllWords refl
      (omega arith)
