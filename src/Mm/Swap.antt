-- ===== src/Mm/Swap.antt =====
-- src/mm/swap.rs: the compression of pages that are swapped out.
pub mod RoundTrip
pub mod Table
pub mod Accounts
pub mod Restore
mod Tests
use openv.Common.{
  ℕ, zero, suc, ◌+◌, ◌-◌, ◌%◌, Bool, ◌&&◌, List, [], ◌∷◌, ltb, ◌==◌, if◌then◌else◌, min, replicate,
}
use openv.Common.Bytes.{byte_at, write_at}

abbrev pub page_bytes : ℕ
page_bytes = 4096

-- The loop that extends a run of `b` at `i`, with at most `n` more bytes.
unfoldable pub extend_run : ℕ → List ℕ → ℕ → ℕ → ℕ → ℕ
extend_run zero src b i run = run
extend_run (suc n) src b i run =
    let more : ℕ = extend_run n src b i (run + 1) in
    if ltb (i + run) page_bytes && byte_at src (i + run) == b && ltb run 255 then more else run

unfoldable pub run_at : List ℕ → ℕ → ℕ
run_at src i = extend_run 255 src (byte_at src i) i 1

-- The loop of `compress_page` from `i` on, with at most `n` more runs.
unfoldable pub compress_from : ℕ → List ℕ → ℕ → List ℕ
compress_from zero src i = []
compress_from (suc n) src i =
    let rest : List ℕ = compress_from n src (i + run_at src i) in
    if ltb i page_bytes then byte_at src i ∷ run_at src i % 256 ∷ rest else []

unfoldable pub compress_page : List ℕ → List ℕ
compress_page src = compress_from page_bytes src 0

-- `fill` from `out_pos` to `end`.
abbrev pub fill : List ℕ → ℕ → ℕ → ℕ → List ℕ
fill dst out_pos end b = write_at dst out_pos (replicate (end - out_pos) b)

-- The loop of `decompress_page`: `src` is what it has not read yet.
unfoldable pub decompress_from : List ℕ → List ℕ → ℕ → List ℕ
decompress_from [] dst out_pos = dst
decompress_from (b ∷ []) dst out_pos = dst
decompress_from (b ∷ run ∷ src) dst out_pos =
    let end : ℕ = min (out_pos + run) page_bytes in
    let rest : List ℕ = decompress_from src (fill dst out_pos end b) end in
    if ltb out_pos page_bytes then rest else dst

unfoldable pub decompress_page : List ℕ → List ℕ → List ℕ
decompress_page src dst = decompress_from src dst 0
