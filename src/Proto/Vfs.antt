-- ===== src/Proto/Vfs.antt =====
-- user/vfs-proto/src/lib.rs: the requests and replies of the file server, in 56 bytes of a message. A
-- number that is signed in the source is its 64-bit pattern here.
pub mod Requests
mod Tests
use openv.Common.{ℕ, ◌+◌, ◌%◌, ◌^◌, Bool, true, false, not, List, [], ◌∷◌, ◌==◌, if◌then◌else◌}
use openv.Common.Bytes.{byte_at, write_at}
use openv.Proto.Fields.{Cursor, put_uint, get_uint}

unfoldable pub put_u32 : ℕ → Cursor → Cursor
put_u32 v c = put_uint 4 v c

unfoldable pub put_u64 : ℕ → Cursor → Cursor
put_u64 v c = put_uint 8 v c

unfoldable pub get_u32 : List ℕ → ℕ → ℕ × ℕ
get_u32 buf off = (get_uint 4 buf off, off + 4)

unfoldable pub get_u64 : List ℕ → ℕ → ℕ × ℕ
get_u64 buf off = (get_uint 8 buf off, off + 8)

unfoldable pub pack_path_req : List ℕ → ℕ → ℕ → ℕ → ℕ → List ℕ
pack_path_req msg flags path_ptr path_len ns_id =
    (put_u32 ns_id (put_u32 path_len (put_u64 path_ptr (put_u32 flags (msg, 0))))).0

unfoldable pub unpack_path_req : List ℕ → ℕ × ℕ × ℕ × ℕ
unpack_path_req msg =
    let (flags, o0) = get_u32 msg 0 in
    let (path_ptr, o1) = get_u64 msg o0 in
    let (path_len, o2) = get_u32 msg o1 in
    let (ns_id, o3) = get_u32 msg o2 in (flags, path_ptr, path_len, ns_id)

unfoldable pub pack_rw_req : List ℕ → ℕ → ℕ → ℕ → ℕ → List ℕ
pack_rw_req msg fd offset buf_ptr len =
    (put_u32 len (put_u64 buf_ptr (put_u64 offset (put_u32 fd (msg, 0))))).0

unfoldable pub unpack_rw_req : List ℕ → ℕ × ℕ × ℕ × ℕ
unpack_rw_req msg =
    let (fd, o0) = get_u32 msg 0 in
    let (offset, o1) = get_u64 msg o0 in
    let (buf_ptr, o2) = get_u64 msg o1 in
    let (len, o3) = get_u32 msg o2 in (fd, offset, buf_ptr, len)

unfoldable pub pack_getdents_req : List ℕ → ℕ → ℕ → ℕ → ℕ → List ℕ
pack_getdents_req msg path_ptr path_len buf_ptr buf_len =
    (put_u32 buf_len (put_u64 buf_ptr (put_u32 path_len (put_u64 path_ptr (msg, 0))))).0

unfoldable pub unpack_getdents_req : List ℕ → ℕ × ℕ × ℕ × ℕ
unpack_getdents_req msg =
    let (path_ptr, o0) = get_u64 msg 0 in
    let (path_len, o1) = get_u32 msg o0 in
    let (buf_ptr, o2) = get_u64 msg o1 in
    let (buf_len, o3) = get_u32 msg o2 in (path_ptr, path_len, buf_ptr, buf_len)

unfoldable pub pack_close_req : List ℕ → ℕ → List ℕ
pack_close_req msg fd = (put_u32 fd (msg, 0)).0

unfoldable pub unpack_close_req : List ℕ → ℕ
unpack_close_req msg = (get_u32 msg 0).0

unfoldable pub pack_rename_req : List ℕ → ℕ → ℕ → ℕ → ℕ → List ℕ
pack_rename_req msg old_ptr old_len new_ptr new_len =
    (put_u32 new_len (put_u64 new_ptr (put_u32 old_len (put_u64 old_ptr (msg, 0))))).0

unfoldable pub unpack_rename_req : List ℕ → ℕ × ℕ × ℕ × ℕ
unpack_rename_req msg =
    let (old_ptr, o0) = get_u64 msg 0 in
    let (old_len, o1) = get_u32 msg o0 in
    let (new_ptr, o2) = get_u64 msg o1 in
    let (new_len, o3) = get_u32 msg o2 in (old_ptr, old_len, new_ptr, new_len)

unfoldable pub pack_two_paths_req : List ℕ → ℕ → ℕ → ℕ → ℕ → List ℕ
pack_two_paths_req msg p1_ptr p1_len p2_ptr p2_len =
    (put_u32 p2_len (put_u64 p2_ptr (put_u32 p1_len (put_u64 p1_ptr (msg, 0))))).0

unfoldable pub unpack_two_paths_req : List ℕ → ℕ × ℕ × ℕ × ℕ
unpack_two_paths_req msg =
    let (p1_ptr, o0) = get_u64 msg 0 in
    let (p1_len, o1) = get_u32 msg o0 in
    let (p2_ptr, o2) = get_u64 msg o1 in
    let (p2_len, o3) = get_u32 msg o2 in (p1_ptr, p1_len, p2_ptr, p2_len)

unfoldable pub pack_ftruncate_req : List ℕ → ℕ → ℕ → List ℕ
pack_ftruncate_req msg fd length = (put_u64 length (put_u32 fd (msg, 0))).0

unfoldable pub unpack_ftruncate_req : List ℕ → ℕ × ℕ
unpack_ftruncate_req msg =
    let (fd, o0) = get_u32 msg 0 in let (length, o1) = get_u64 msg o0 in (fd, length)

unfoldable pub pack_lseek_req : List ℕ → ℕ → ℕ → ℕ → List ℕ
pack_lseek_req msg fd offset whence = (put_u32 whence (put_u64 offset (put_u32 fd (msg, 0)))).0

unfoldable pub unpack_lseek_req : List ℕ → ℕ × ℕ × ℕ
unpack_lseek_req msg =
    let (fd, o0) = get_u32 msg 0 in
    let (offset, o1) = get_u64 msg o0 in let (whence, o2) = get_u32 msg o1 in (fd, offset, whence)

unfoldable pub pack_fpath_req : List ℕ → ℕ → ℕ → ℕ → List ℕ
pack_fpath_req msg fd buf_ptr buf_len = (put_u32 buf_len (put_u64 buf_ptr (put_u32 fd (msg, 0)))).0

unfoldable pub unpack_fpath_req : List ℕ → ℕ × ℕ × ℕ
unpack_fpath_req msg =
    let (fd, o0) = get_u32 msg 0 in
    let (buf_ptr, o1) = get_u64 msg o0 in
    let (buf_len, o2) = get_u32 msg o1 in (fd, buf_ptr, buf_len)

unfoldable pub pack_futimens_req : List ℕ → ℕ → ℕ → ℕ → ℕ → ℕ → List ℕ
pack_futimens_req msg fd ats atns mts mtns =
    (put_u64 mtns (put_u64 mts (put_u64 atns (put_u64 ats (put_u32 fd (msg, 0)))))).0

unfoldable pub unpack_futimens_req : List ℕ → ℕ × ℕ × ℕ × ℕ × ℕ
unpack_futimens_req msg =
    let (fd, o0) = get_u32 msg 0 in
    let (ats, o1) = get_u64 msg o0 in
    let (atns, o2) = get_u64 msg o1 in
    let (mts, o3) = get_u64 msg o2 in let (mtns, o4) = get_u64 msg o3 in (fd, ats, atns, mts, mtns)

unfoldable pub pack_fstat_req : List ℕ → ℕ → List ℕ
pack_fstat_req msg fd = (put_u32 fd (msg, 0)).0

unfoldable pub unpack_fstat_req : List ℕ → ℕ
unpack_fstat_req msg = (get_u32 msg 0).0

unfoldable pub pack_fallocate_req : List ℕ → ℕ → ℕ → ℕ → List ℕ
pack_fallocate_req msg fd offset length = (put_u64 length (put_u64 offset (put_u32 fd (msg, 0)))).0

unfoldable pub unpack_fallocate_req : List ℕ → ℕ × ℕ × ℕ
unpack_fallocate_req msg =
    let (fd, o0) = get_u32 msg 0 in
    let (offset, o1) = get_u64 msg o0 in let (length, o2) = get_u64 msg o1 in (fd, offset, length)

unfoldable pub pack_u32_reply : List ℕ → ℕ → List ℕ
pack_u32_reply msg val = (put_u32 val (msg, 0)).0

unfoldable pub unpack_u32_reply : List ℕ → ℕ
unpack_u32_reply msg = (get_u32 msg 0).0

unfoldable pub pack_u64_reply : List ℕ → ℕ → List ℕ
pack_u64_reply msg val = (put_u64 val (msg, 0)).0

unfoldable pub unpack_u64_reply : List ℕ → ℕ
unpack_u64_reply msg = (get_u64 msg 0).0

unfoldable pub pack_stat_reply : List ℕ → Bool → ℕ → List ℕ
pack_stat_reply msg is_dir size =
    (put_u64 size (write_at msg 0 ((if is_dir then 1 else 0) ∷ []), 1)).0

unfoldable pub unpack_stat_reply : List ℕ → Bool × ℕ
unpack_stat_reply msg = (not (byte_at msg 0 == 0), (get_u64 msg 1).0)
