-- ===== src/Posix/Job.antt =====
-- src/posix/job.rs: jobs, which limit the memory of their processes and of the jobs below them. A job
-- that other jobs refer to is a number; a dropped job is `none`, so that a weak reference to it does
-- not upgrade.
pub mod Line
pub mod Accounts
pub mod Undo
mod Tests
use openv.Common.{
  ℕ, zero, suc, ◌+◌, ◌-◌, ◌%◌, ◌^◌, min, Bool, true, false, Option, none, some, List, [], ◌==◌, ltb,
  if◌then◌else◌,
}

pub record Job : Type 0 where
  pub parent : Option ℕ
  pub children : List ℕ
  pub processes : List ℕ
  pub max_memory : ℕ
  pub current_memory : ℕ

abbrev pub Jobs : Type 0
Jobs = ℕ → Option Job

abbrev pub usize_max : ℕ
usize_max = 2 ^ 64 - 1

-- `Job::new`
abbrev pub new : Option ℕ → Job
new parent = record {
  parent = parent;
  children = [];
  processes = [];
  max_memory = usize_max;
  current_memory = 0;
}

-- `as_ref().and_then(|w| w.upgrade())`
abbrev pub upgrade : Jobs → Option ℕ → Option ℕ
upgrade jobs none = none
upgrade jobs (some id) = elim (jobs id) [ none ↦ none | some job ↦ some id ]

-- `current.saturating_add(bytes) > limit`
abbrev pub exceeds : ℕ → Job → Bool
exceeds bytes job = ltb job.max_memory (min (job.current_memory + bytes) usize_max)

-- The loop of `check_memory_limit`. The job itself, which the code tests before the loop, is the first.
-- The fuel bounds the number of jobs on the way up.
unfoldable pub check_from : ℕ → ℕ → Jobs → Option ℕ → Option Bool
check_from zero bytes jobs curr = none
check_from (suc fuel) bytes jobs none = some true
check_from (suc fuel) bytes jobs (some id) = elim (jobs id) [
  | none ↦ some true
  | some job ↦ elim (exceeds bytes job) [
    | true ↦ some false
    | false ↦ check_from fuel bytes jobs (upgrade jobs job.parent)
  ]
]

unfoldable pub check_memory_limit : ℕ → Jobs → ℕ → ℕ → Option Bool
check_memory_limit fuel jobs id bytes = check_from fuel bytes jobs (some id)

-- `fetch_add` and `fetch_sub` on the counter of a job.
abbrev pub add_bytes : ℕ → ℕ → ℕ
add_bytes bytes current = (current + bytes) % 2 ^ 64

abbrev pub sub_bytes : ℕ → ℕ → ℕ
sub_bytes bytes current = (current + 2 ^ 64 - bytes % 2 ^ 64) % 2 ^ 64

abbrev pub recount : (ℕ → ℕ) → Option Job → Option Job
recount f none = none
recount f (some job) = some (record job { current_memory = f job.current_memory })

abbrev pub charge : (ℕ → ℕ) → Jobs → ℕ → Jobs
charge f jobs id j = if j == id then recount f (jobs j) else jobs j

-- The loops of `alloc_memory` and of `dealloc_memory`, with the job itself as the first.
unfoldable pub charge_from : ℕ → (ℕ → ℕ) → Jobs → Option ℕ → Option Jobs
charge_from zero f jobs curr = none
charge_from (suc fuel) f jobs none = some jobs
charge_from (suc fuel) f jobs (some id) = elim (jobs id) [
  | none ↦ some jobs
  | some job ↦ charge_from fuel f (charge f jobs id) (upgrade (charge f jobs id) job.parent)
]

unfoldable pub alloc_memory : ℕ → Jobs → ℕ → ℕ → Option Jobs
alloc_memory fuel jobs id bytes = charge_from fuel (add_bytes bytes) jobs (some id)

unfoldable pub dealloc_memory : ℕ → Jobs → ℕ → ℕ → Option Jobs
dealloc_memory fuel jobs id bytes = charge_from fuel (sub_bytes bytes) jobs (some id)
