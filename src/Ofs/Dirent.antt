-- ===== src/Ofs/Dirent.antt =====
-- Directory entries in a block: `dirent_read`, `dirent_write`, `dirent_name`, `dirent_clear`.
pub mod RoundTrip
use openv.Common.{
  ℕ, ◌+◌, ◌%◌, Bool, true, false, not, ◌&&◌, Option, none, some, List, [], ◌∷◌, length, replicate,
  ◌==◌, leb, if◌then◌else◌,
}
use openv.Common.Bytes.{slice, write_at, byte_at}
use openv.Ofs.Device.{Block}
use openv.Ofs.Buffer.{u32_le, set_u32}
use openv.Ofs.Journal.{block_size}

abbrev pub direntry_size : ℕ
direntry_size = 64

abbrev pub direntries_per_block : ℕ
direntries_per_block = 64

-- `dirent_read`: the inode's number, the length of the name and the type.
unfoldable pub dirent_read : Block → ℕ → ℕ × ℕ × ℕ
dirent_read buf off = (u32_le buf off, byte_at buf (off + 4), byte_at buf (off + 5))

-- `dirent_write`
unfoldable pub dirent_write : Block → ℕ → ℕ → List ℕ → ℕ → Block
dirent_write buf off ino name etype =
    write_at
      (write_at (write_at (set_u32 buf off ino) (off + 4) (length name % 256 ∷ [])) (off + 5)
        (etype ∷ []))
      (off + 8) name

-- `dirent_name`: `none` is the panic on a name that reaches over the end of the block.
unfoldable pub dirent_name : Block → ℕ → ℕ → Option (List ℕ)
dirent_name buf off name_len =
    if leb (off + 8 + name_len) block_size then some (slice (off + 8) name_len buf) else none

abbrev pub eq_bytes : List ℕ → List ℕ → Bool
eq_bytes [] [] = true
eq_bytes [] (y ∷ ys) = false
eq_bytes (x ∷ xs) [] = false
eq_bytes (x ∷ xs) (y ∷ ys) = x == y && eq_bytes xs ys

-- `dirent_name_eq`
unfoldable pub dirent_name_eq : Block → ℕ → ℕ → List ℕ → Option Bool
dirent_name_eq buf off name_len name =
    if not (name_len == length name) then some false else elim (dirent_name buf off name_len) [
      | none ↦ none
      | some found ↦ some (eq_bytes found name)
    ]

-- `dirent_clear`
unfoldable pub dirent_clear : Block → ℕ → Block
dirent_clear buf off = write_at buf off (replicate direntry_size 0)
