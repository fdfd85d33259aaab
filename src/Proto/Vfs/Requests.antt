-- ===== src/Proto/Vfs/Requests.antt =====
-- What a server unpacks is what its client packed.
use openv.Common.{
  ℕ, ◌<◌, ◌^◌, ◌≡◌, refl, ap, ap₂, Bool, true, false, not, List, [], ◌∷◌, arith, length, get_or,
  ◌==◌, if◌then◌else◌,
}
use openv.Common.Bytes.{write_at}
use openv.Proto.Fields.{put_uint, get_all-put_all}
use openv.Proto.Vfs.{
  put_u32, put_u64, get_u32, get_u64, pack_path_req, unpack_path_req, pack_rw_req, unpack_rw_req,
  pack_futimens_req, unpack_futimens_req, pack_getdents_req, unpack_getdents_req, pack_rename_req,
  unpack_rename_req, pack_two_paths_req, unpack_two_paths_req, pack_close_req, unpack_close_req,
  pack_fstat_req, unpack_fstat_req, pack_u32_reply, unpack_u32_reply, pack_u64_reply,
  unpack_u64_reply, pack_ftruncate_req, unpack_ftruncate_req, pack_lseek_req, unpack_lseek_req,
  pack_fpath_req, unpack_fpath_req, pack_fallocate_req, unpack_fallocate_req, pack_stat_reply,
  unpack_stat_reply,
}

-- A request on a path, whose length fits 32 bits, is unpacked as it was packed.
unpack_path_req-pack_path_req :
    (msg : List ℕ) (flags path_ptr path_len ns_id : ℕ)
    → flags < 2 ^ 32
    → path_ptr < 2 ^ 64
    → path_len < 2 ^ 32
    → ns_id < 2 ^ 32
    → unpack_path_req (pack_path_req msg flags path_ptr path_len ns_id)
      ≡ (flags, path_ptr, path_len, ns_id)
unfolding pack_path_req unpack_path_req put_u32 put_u64 get_u32 get_u64
unpack_path_req-pack_path_req msg flags path_ptr path_len ns_id h0 h1 h2 h3 =
    ap (λ vs. (get_or vs 0 0, get_or vs 1 0, get_or vs 2 0, get_or vs 3 0))
      (get_all-put_all ((4, flags) ∷ (8, path_ptr) ∷ (4, path_len) ∷ (4, ns_id) ∷ []) msg 0
        (omega arith) (h0, (h1, (h2, (h3, tt)))))

-- A read or write request, whose length fits 32 bits, is unpacked as it was packed.
unpack_rw_req-pack_rw_req :
    (msg : List ℕ) (fd offset buf_ptr len : ℕ)
    → fd < 2 ^ 32
    → offset < 2 ^ 64
    → buf_ptr < 2 ^ 64
    → len < 2 ^ 32
    → unpack_rw_req (pack_rw_req msg fd offset buf_ptr len) ≡ (fd, offset, buf_ptr, len)
unfolding pack_rw_req unpack_rw_req put_u32 put_u64 get_u32 get_u64
unpack_rw_req-pack_rw_req msg fd offset buf_ptr len h0 h1 h2 h3 =
    ap (λ vs. (get_or vs 0 0, get_or vs 1 0, get_or vs 2 0, get_or vs 3 0))
      (get_all-put_all ((4, fd) ∷ (8, offset) ∷ (8, buf_ptr) ∷ (4, len) ∷ []) msg 0 (omega arith)
        (h0, (h1, (h2, (h3, tt)))))

-- A request to set times is unpacked as it was packed.
unpack_futimens_req-pack_futimens_req :
    (msg : List ℕ) (fd ats atns mts mtns : ℕ)
    → fd < 2 ^ 32
    → ats < 2 ^ 64
    → atns < 2 ^ 64
    → mts < 2 ^ 64
    → mtns < 2 ^ 64
    → unpack_futimens_req (pack_futimens_req msg fd ats atns mts mtns) ≡ (fd, ats, atns, mts, mtns)
unfolding pack_futimens_req unpack_futimens_req put_u32 put_u64 get_u32 get_u64
unpack_futimens_req-pack_futimens_req msg fd ats atns mts mtns h0 h1 h2 h3 h4 =
    ap (λ vs. (get_or vs 0 0, get_or vs 1 0, get_or vs 2 0, get_or vs 3 0, get_or vs 4 0))
      (get_all-put_all ((4, fd) ∷ (8, ats) ∷ (8, atns) ∷ (8, mts) ∷ (8, mtns) ∷ []) msg 0
        (omega arith) (h0, (h1, (h2, (h3, (h4, tt))))))

-- The requests with two pointers and two lengths of 32 bits are unpacked as they were packed.
unpack_two_pointers-pack_two_pointers :
    (msg : List ℕ) (ptr₁ len₁ ptr₂ len₂ : ℕ)
    → ptr₁ < 2 ^ 64
    → len₁ < 2 ^ 32
    → ptr₂ < 2 ^ 64
    → len₂ < 2 ^ 32
    → (unpack_getdents_req (pack_getdents_req msg ptr₁ len₁ ptr₂ len₂) ≡ (ptr₁, len₁, ptr₂, len₂))
      × (unpack_rename_req (pack_rename_req msg ptr₁ len₁ ptr₂ len₂) ≡ (ptr₁, len₁, ptr₂, len₂))
      × (unpack_two_paths_req (pack_two_paths_req msg ptr₁ len₁ ptr₂ len₂)
          ≡ (ptr₁, len₁, ptr₂, len₂))
unfolding pack_getdents_req unpack_getdents_req pack_rename_req unpack_rename_req pack_two_paths_req
    unpack_two_paths_req put_u32 put_u64 get_u32 get_u64
unpack_two_pointers-pack_two_pointers msg ptr₁ len₁ ptr₂ len₂ h₁ h₂ h₃ h₄ =
    let fields =
      ap (λ vs. (get_or vs 0 0, get_or vs 1 0, get_or vs 2 0, get_or vs 3 0))
        (get_all-put_all ((8, ptr₁) ∷ (4, len₁) ∷ (8, ptr₂) ∷ (4, len₂) ∷ []) msg 0 (omega arith)
          (h₁, (h₂, (h₃, (h₄, tt))))) in
    (fields, fields, fields)

-- The requests with pointers, on a path, on two paths, to read or write, to list and to rename, and the
-- request to set times are unpacked as they were packed, when the numbers fit their widths.
unpack_pointers-pack_pointers :
    (msg : List ℕ) (ptr₁ len₁ ptr₂ len₂ flags ns_id ns₂ : ℕ)
    → ptr₁ < 2 ^ 64
    → len₁ < 2 ^ 32
    → ptr₂ < 2 ^ 64
    → len₂ < 2 ^ 32
    → flags < 2 ^ 32
    → ns_id < 2 ^ 32
    → ns₂ < 2 ^ 64
    → (unpack_path_req (pack_path_req msg flags ptr₁ len₁ ns_id) ≡ (flags, ptr₁, len₁, ns_id))
      × (unpack_rw_req (pack_rw_req msg flags ptr₁ ptr₂ len₂) ≡ (flags, ptr₁, ptr₂, len₂))
      × (unpack_futimens_req (pack_futimens_req msg flags ptr₁ len₁ ptr₂ ns₂)
          ≡ (flags, ptr₁, len₁, ptr₂, ns₂))
      × (unpack_getdents_req (pack_getdents_req msg ptr₁ len₁ ptr₂ len₂) ≡ (ptr₁, len₁, ptr₂, len₂))
      × (unpack_rename_req (pack_rename_req msg ptr₁ len₁ ptr₂ len₂) ≡ (ptr₁, len₁, ptr₂, len₂))
      × (unpack_two_paths_req (pack_two_paths_req msg ptr₁ len₁ ptr₂ len₂)
          ≡ (ptr₁, len₁, ptr₂, len₂))
unpack_pointers-pack_pointers msg ptr₁ len₁ ptr₂ len₂ flags ns_id ns₂ h₁ h₂ h₃ h₄ h₅ h₆ h₇ =
    let (getdents, rename, two_paths) =
      unpack_two_pointers-pack_two_pointers msg ptr₁ len₁ ptr₂ len₂ h₁ h₂ h₃ h₄ in
    (
      unpack_path_req-pack_path_req msg flags ptr₁ len₁ ns_id h₅ h₁ h₂ h₆,
      unpack_rw_req-pack_rw_req msg flags ptr₁ ptr₂ len₂ h₅ h₁ h₃ h₄,
      unpack_futimens_req-pack_futimens_req msg flags ptr₁ len₁ ptr₂ ns₂ h₅ h₁ (omega arith) h₃ h₇,
      getdents,
      rename,
      two_paths,
    )

-- The requests on a descriptor and the replies with one number, in numbers that fit their widths,
-- are unpacked as they were packed.
unpack_descriptor-pack_descriptor :
    (msg : List ℕ) (fd a b n : ℕ)
    → fd < 2 ^ 32
    → a < 2 ^ 64
    → b < 2 ^ 64
    → n < 2 ^ 32
    → (unpack_close_req (pack_close_req msg fd) ≡ fd)
      × (unpack_fstat_req (pack_fstat_req msg fd) ≡ fd)
      × (unpack_u32_reply (pack_u32_reply msg fd) ≡ fd)
      × (unpack_u64_reply (pack_u64_reply msg a) ≡ a)
      × (unpack_ftruncate_req (pack_ftruncate_req msg fd a) ≡ (fd, a))
      × (unpack_lseek_req (pack_lseek_req msg fd a n) ≡ (fd, a, n))
      × (unpack_fpath_req (pack_fpath_req msg fd a n) ≡ (fd, a, n))
      × (unpack_fallocate_req (pack_fallocate_req msg fd a b) ≡ (fd, a, b))
unfolding pack_close_req unpack_close_req pack_fstat_req unpack_fstat_req pack_u32_reply
    unpack_u32_reply pack_u64_reply unpack_u64_reply pack_ftruncate_req unpack_ftruncate_req
    pack_lseek_req unpack_lseek_req pack_fpath_req unpack_fpath_req pack_fallocate_req
    unpack_fallocate_req put_u32 put_u64 get_u32 get_u64
unpack_descriptor-pack_descriptor msg fd a b n h₁ h₂ h₃ h₄ =
    let s4 =
      ap (λ vs. get_or vs 0 0) (get_all-put_all ((4, fd) ∷ []) msg 0 (omega arith) (h₁, tt)) in
    let s8 =
      ap (λ vs. get_or vs 0 0) (get_all-put_all ((8, a) ∷ []) msg 0 (omega arith) (h₂, tt)) in
    let s48 =
      ap (λ vs. (get_or vs 0 0, get_or vs 1 0))
        (get_all-put_all ((4, fd) ∷ (8, a) ∷ []) msg 0 (omega arith) (h₁, (h₂, tt))) in
    let s484 =
      ap (λ vs. (get_or vs 0 0, get_or vs 1 0, get_or vs 2 0))
        (get_all-put_all ((4, fd) ∷ (8, a) ∷ (4, n) ∷ []) msg 0 (omega arith)
          (h₁, (h₂, (h₄, tt)))) in
    let s488 =
      ap (λ vs. (get_or vs 0 0, get_or vs 1 0, get_or vs 2 0))
        (get_all-put_all ((4, fd) ∷ (8, a) ∷ (8, b) ∷ []) msg 0 (omega arith)
          (h₁, (h₂, (h₃, tt)))) in
    (s4, s4, s4, s8, s48, s484, s484, s488)

flag_Bool : (b : Bool) → not ((if b then 1 else 0) == 0) ≡ b
flag_Bool true = refl
flag_Bool false = refl

-- A reply on the state of a file, in a message of 56 bytes, is unpacked as it was packed.
pub unpack_stat_reply-pack_stat_reply :
    (msg : List ℕ) (is_dir : Bool) (size : ℕ)
    → length msg ≡ 56
    → size < 2 ^ 64
    → unpack_stat_reply (pack_stat_reply msg is_dir size) ≡ (is_dir, size)
unfolding pack_stat_reply unpack_stat_reply put_u64 get_u64 put_uint write_at
unpack_stat_reply-pack_stat_reply [] is_dir size len small = absurd (omega arith)
unpack_stat_reply-pack_stat_reply (m ∷ ms) is_dir size len small =
    let flag : ℕ = if is_dir then 1 else 0 in
    ap₂ (λ (d : Bool) (n : ℕ). (d, n)) (flag_Bool is_dir)
      (ap (λ vs. get_or vs 0 0)
        (get_all-put_all ((8, size) ∷ []) (flag ∷ ms) 1 (omega arith) (small, tt)))

-- The requests to the file server and the replies with one number are unpacked as they were packed,
-- when the numbers fit their widths: on a path, on two paths, to read or write, to list, to rename, to
-- set times, and on a descriptor.
pub unpack_requests-pack_requests :
    (msg : List ℕ) (ptr₁ len₁ ptr₂ len₂ flags ns_id ns₂ : ℕ)
    → ptr₁ < 2 ^ 64
    → len₁ < 2 ^ 32
    → ptr₂ < 2 ^ 64
    → len₂ < 2 ^ 32
    → flags < 2 ^ 32
    → ns_id < 2 ^ 32
    → ns₂ < 2 ^ 64
    → (unpack_path_req (pack_path_req msg flags ptr₁ len₁ ns_id) ≡ (flags, ptr₁, len₁, ns_id))
      × (unpack_rw_req (pack_rw_req msg flags ptr₁ ptr₂ len₂) ≡ (flags, ptr₁, ptr₂, len₂))
      × (unpack_futimens_req (pack_futimens_req msg flags ptr₁ len₁ ptr₂ ns₂)
          ≡ (flags, ptr₁, len₁, ptr₂, ns₂))
      × (unpack_getdents_req (pack_getdents_req msg ptr₁ len₁ ptr₂ len₂) ≡ (ptr₁, len₁, ptr₂, len₂))
      × (unpack_rename_req (pack_rename_req msg ptr₁ len₁ ptr₂ len₂) ≡ (ptr₁, len₁, ptr₂, len₂))
      × (unpack_two_paths_req (pack_two_paths_req msg ptr₁ len₁ ptr₂ len₂)
          ≡ (ptr₁, len₁, ptr₂, len₂))
      × (unpack_close_req (pack_close_req msg flags) ≡ flags)
      × (unpack_fstat_req (pack_fstat_req msg flags) ≡ flags)
      × (unpack_u32_reply (pack_u32_reply msg flags) ≡ flags)
      × (unpack_u64_reply (pack_u64_reply msg ptr₁) ≡ ptr₁)
      × (unpack_ftruncate_req (pack_ftruncate_req msg flags ptr₁) ≡ (flags, ptr₁))
      × (unpack_lseek_req (pack_lseek_req msg flags ptr₁ len₁) ≡ (flags, ptr₁, len₁))
      × (unpack_fpath_req (pack_fpath_req msg flags ptr₁ len₁) ≡ (flags, ptr₁, len₁))
      × (unpack_fallocate_req (pack_fallocate_req msg flags ptr₁ ptr₂) ≡ (flags, ptr₁, ptr₂))
unpack_requests-pack_requests msg ptr₁ len₁ ptr₂ len₂ flags ns_id ns₂ h₁ h₂ h₃ h₄ h₅ h₆ h₇ =
    let (path, rw_req, futimens, getdents, rename, two_paths) =
      unpack_pointers-pack_pointers msg ptr₁ len₁ ptr₂ len₂ flags ns_id ns₂ h₁ h₂ h₃ h₄ h₅ h₆ h₇ in
    let (close, fstat, u32, u64, ftruncate, lseek, fpath, fallocate) =
      unpack_descriptor-pack_descriptor msg flags ptr₁ ptr₂ len₁ h₅ h₁ h₃ h₂ in
    (
      path, rw_req, futimens, getdents, rename, two_paths, close, fstat, u32, u64, ftruncate, lseek,
      fpath, fallocate,
    )
