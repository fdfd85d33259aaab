-- ===== src/Ipc/Object.antt =====
-- src/ipc/handle.rs: kernel objects, rights and the entries of a handle table.
use openv.Common.{ℕ, bit_and, Bool, Option, ◌==◌}

-- `ResourceSpec`.
pub record ResourceSpec : Type 0 where
  pub pa : ℕ
  pub pa_size : ℕ
  pub irq : Option ℕ

-- `KernelObject`. A reference-counted payload is named by a number, the object's identity: the
-- table only moves and clones the reference.
pub data KernelObject : Type 0 where
  vmo channel tty pipe_read pipe_write vfs_file port job epoll_instance : ℕ → KernelObject
  res : ResourceSpec → KernelObject

-- `Rights`, a set of bits.
abbrev pub read_right : ℕ
read_right = 1

abbrev pub write_right : ℕ
write_right = 2

abbrev pub duplicate_right : ℕ
duplicate_right = 4

abbrev pub transfer_right : ℕ
transfer_right = 8

-- `Rights::all()`.
abbrev pub all_rights : ℕ
all_rights = 15

-- `Rights::contains`.
unfoldable pub contains : ℕ → ℕ → Bool
contains rights required = bit_and rights required == required

-- `Rights::from_bits_truncate`.
unfoldable pub from_bits_truncate : ℕ → ℕ
from_bits_truncate bits = bit_and bits all_rights

-- `HandleEntry`.
pub record HandleEntry : Type 0 where
  pub object : KernelObject
  pub rights : ℕ
  pub generation : ℕ
