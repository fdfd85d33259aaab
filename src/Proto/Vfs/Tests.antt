-- ===== src/Proto/Vfs/Tests.antt =====
-- The theorems on requests on concrete data.
use openv.Common.{ℕ, ◌≡◌, refl, arith, List, length, replicate}
use openv.Proto.Vfs.Requests.{unpack_requests-pack_requests}
use openv.Proto.Vfs.{
  pack_path_req, unpack_path_req, pack_rw_req, unpack_rw_req, pack_futimens_req,
  unpack_futimens_req, pack_getdents_req, unpack_getdents_req, pack_rename_req, unpack_rename_req,
  pack_two_paths_req, unpack_two_paths_req, pack_close_req, unpack_close_req, pack_fstat_req,
  unpack_fstat_req, pack_u32_reply, unpack_u32_reply, pack_u64_reply, unpack_u64_reply,
  pack_ftruncate_req, unpack_ftruncate_req, pack_lseek_req, unpack_lseek_req, pack_fpath_req,
  unpack_fpath_req, pack_fallocate_req, unpack_fallocate_req,
}

abbrev message : List ℕ
message = replicate 56 0

length-message : length message ≡ 56
length-message = refl

unpack_requests-pack_requests_example :
    (unpack_path_req (pack_path_req message 5 4096 9 3) ≡ (5, 4096, 9, 3))
    × (unpack_rw_req (pack_rw_req message 5 4096 8192 7) ≡ (5, 4096, 8192, 7))
    × (unpack_futimens_req (pack_futimens_req message 5 4096 9 8192 2) ≡ (5, 4096, 9, 8192, 2))
    × (unpack_getdents_req (pack_getdents_req message 4096 9 8192 7) ≡ (4096, 9, 8192, 7))
    × (unpack_rename_req (pack_rename_req message 4096 9 8192 7) ≡ (4096, 9, 8192, 7))
    × (unpack_two_paths_req (pack_two_paths_req message 4096 9 8192 7) ≡ (4096, 9, 8192, 7))
    × (unpack_close_req (pack_close_req message 5) ≡ 5)
    × (unpack_fstat_req (pack_fstat_req message 5) ≡ 5)
    × (unpack_u32_reply (pack_u32_reply message 5) ≡ 5)
    × (unpack_u64_reply (pack_u64_reply message 4096) ≡ 4096)
    × (unpack_ftruncate_req (pack_ftruncate_req message 5 4096) ≡ (5, 4096))
    × (unpack_lseek_req (pack_lseek_req message 5 4096 9) ≡ (5, 4096, 9))
    × (unpack_fpath_req (pack_fpath_req message 5 4096 9) ≡ (5, 4096, 9))
    × (unpack_fallocate_req (pack_fallocate_req message 5 4096 8192) ≡ (5, 4096, 8192))
unpack_requests-pack_requests_example =
    unpack_requests-pack_requests message 4096 9 8192 7 5 3 2 (omega arith) (omega arith)
      (omega arith) (omega arith) (omega arith) (omega arith) (omega arith)
