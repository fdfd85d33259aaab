-- ===== src/Mm/UserPointer.antt =====
-- src/mm/vmm.rs: the test of the pointers that a system call receives.
use openv.Common.{
  ℕ, ◌+◌, ◌*◌, ◌^◌, ◌-◌, ◌≤◌, ◌<◌, ◌≡◌, Bool, true, false, ◌&&◌, leb, ◌==◌, if◌then◌else◌, min,
  arith,
}

-- `usize::saturating_add` and `usize::saturating_mul`.
abbrev pub saturating_add : ℕ → ℕ → ℕ
saturating_add a b = min (a + b) (2 ^ 64 - 1)

abbrev pub saturating_mul : ℕ → ℕ → ℕ
saturating_mul a b = min (a * b) (2 ^ 64 - 1)

-- The user half of the address space starts above the kernel's identity map.
abbrev pub user_start : ℕ
user_start = 0x1_0000_0000

abbrev pub user_end : ℕ
user_end = 0x8000_0000_0000

-- `is_user_pointer_valid::<T>(ptr, count)` for a type `T` of `size` bytes.
unfoldable pub is_user_pointer_valid : ℕ → ℕ → ℕ → Bool
is_user_pointer_valid size ptr count =
    if ptr == 0
    then false
    else leb user_start ptr && leb (saturating_add ptr (saturating_mul size count)) user_end

-- For a pointer that `is_user_pointer_valid` accepts, every byte of the elements lies in the user
-- half of the address space, whatever their size: the sum does not wrap round.
pub is_user_pointer_valid_range :
    (size ptr count i : ℕ)
    → is_user_pointer_valid size ptr count ≡ true
    → i < size * count
    → (user_start ≤ ptr + i) × (ptr + i < user_end)
unfolding is_user_pointer_valid
is_user_pointer_valid_range size ptr count i h p = ground arith
