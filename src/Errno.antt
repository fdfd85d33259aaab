-- ===== src/Errno.antt =====
-- src/errno.rs: the error codes that the system calls return in `a0`, as `usize` values.
use openv.Common.{ℕ, ◌-◌, ◌^◌}

-- `usize::MAX`, which the calls also return for an error with no code.
abbrev pub failed : ℕ
failed = 2 ^ 64 - 1

abbrev pub eperm : ℕ
eperm = 2 ^ 64 - 1

abbrev pub esrch : ℕ
esrch = 2 ^ 64 - 1 - 2

abbrev pub ebadf : ℕ
ebadf = 2 ^ 64 - 1 - 8

abbrev pub eacces : ℕ
eacces = 2 ^ 64 - 1 - 12

abbrev pub efault : ℕ
efault = 2 ^ 64 - 1 - 13

abbrev pub einval : ℕ
einval = 2 ^ 64 - 1 - 21
