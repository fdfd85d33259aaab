-- ===== src/Proto/Process.antt =====
-- user/pm-proto/src/lib.rs: the requests of the process manager. A number that is signed in the source
-- is its 32-bit pattern here. A path is its bytes, and `is_utf8` is the test of the core library's
-- `from_utf8`.
use openv.Common.{
  ℕ, ◌+◌, ◌≤◌, ◌<◌, ◌^◌, ◌≡◌, sym, ap, ap₂, ◌∙◌, Bool, List, [], arith, length, take, min,
  if◌then◌else◌, take_all, length-take,
}
use native.Mathlib.Decide.{dec_lt}
use openv.Common.Bytes.{
  slice, write_at, length-write_at, slice-write_at_same, slice-write_at_before,
}
use openv.Common.Words.{to_le_bytes, from_le_bytes, length-to_le_bytes, from_le_bytes-to_le_bytes}

unfoldable pub pack_waitpid_req : List ℕ → ℕ → ℕ → List ℕ
pack_waitpid_req msg target options =
    write_at (write_at msg 0 (to_le_bytes 4 target)) 4 (to_le_bytes 4 options)

unfoldable pub unpack_waitpid_req : List ℕ → ℕ × ℕ
unpack_waitpid_req msg = (from_le_bytes (slice 0 4 msg), from_le_bytes (slice 4 4 msg))

unfoldable pub pack_exit_req : List ℕ → ℕ → List ℕ
pack_exit_req msg status = write_at msg 0 (to_le_bytes 4 status)

unfoldable pub unpack_exit_req : List ℕ → ℕ
unpack_exit_req msg = from_le_bytes (slice 0 4 msg)

unfoldable pub pack_reply_u32 : List ℕ → ℕ → List ℕ
pack_reply_u32 msg val = write_at msg 0 (to_le_bytes 4 val)

unfoldable pub unpack_reply_u32 : List ℕ → ℕ
unpack_reply_u32 msg = from_le_bytes (slice 0 4 msg)

-- A path is cut to 52 bytes.
unfoldable pub pack_exec_req : List ℕ → List ℕ → List ℕ
pack_exec_req msg path =
    let len : ℕ = min (length path) 52 in
    write_at (write_at msg 0 (to_le_bytes 4 len)) 4 (take len path)

unfoldable pub unpack_exec_req : (List ℕ → Bool) → List ℕ → List ℕ
unpack_exec_req is_utf8 msg =
    let path : List ℕ = slice 4 (from_le_bytes (slice 0 4 msg)) msg in
    if is_utf8 path then path else []

module _ (msg : List ℕ) (whole : length msg ≡ 56) where
  fits : (v : ℕ) → 0 + length (to_le_bytes 4 v) ≤ length msg
  fits v = omega (arith, length-to_le_bytes 4 v)

  first_field :
      (v : ℕ) → v < 2 ^ 32 → from_le_bytes (slice 0 4 (write_at msg 0 (to_le_bytes 4 v))) ≡ v
  first_field v small =
      ap from_le_bytes
        (slice-write_at_same msg 0 (to_le_bytes 4 v) (fits v) 4 (sym (length-to_le_bytes 4 v)))
      ∙ from_le_bytes-to_le_bytes 4 v small

  -- The second field, of at most 52 bytes, behind a first one of four.
  module _ (v : ℕ) (bs : List ℕ) (room : length bs ≤ 52) where
    room_behind : 4 + length bs ≤ length (write_at msg 0 (to_le_bytes 4 v))
    room_behind = omega (arith, length-write_at msg 0 (to_le_bytes 4 v) (fits v))

    first_of_two :
        v < 2 ^ 32
        → from_le_bytes (slice 0 4 (write_at (write_at msg 0 (to_le_bytes 4 v)) 4 bs)) ≡ v
    first_of_two small =
        ap from_le_bytes (
          slice-write_at_before (write_at msg 0 (to_le_bytes 4 v)) 4 bs room_behind 0 4
            (omega arith))
        ∙ first_field v small

    second_of_two :
        (n : ℕ) → n ≡ length bs → slice 4 n (write_at (write_at msg 0 (to_le_bytes 4 v)) 4 bs) ≡ bs
    second_of_two n e = slice-write_at_same (write_at msg 0 (to_le_bytes 4 v)) 4 bs room_behind n e

take-min : (n : ℕ) (xs : List ℕ) → take (min (length xs) n) xs ≡ take n xs
take-min n xs = elim (dec_lt n (length xs)) [
  | yes long ↦ ap (λ (k : ℕ). take k xs) (omega arith)
  | no short ↦ take_all (min (length xs) n) xs (omega arith) ∙ sym (take_all n xs (omega arith))
]

-- The path of a request to execute, in a message of 56 bytes, is unpacked as its first 52 bytes,
-- and as the empty path when these are not UTF-8.
unpack_exec_req-pack_exec_req :
    (is_utf8 : List ℕ → Bool) (msg path : List ℕ)
    → length msg ≡ 56
    → unpack_exec_req is_utf8 (pack_exec_req msg path)
      ≡ (if is_utf8 (take 52 path) then take 52 path else [])
unfolding pack_exec_req unpack_exec_req
unpack_exec_req-pack_exec_req is_utf8 msg path whole =
    let len : ℕ = min (length path) 52 in
    let bs : List ℕ = take len path in
    let size : length bs ≡ len = omega (arith, length-take len path) in
    ap (λ p. if is_utf8 p then p else [])
      (ap (λ (n : ℕ). slice 4 n (write_at (write_at msg 0 (to_le_bytes 4 len)) 4 bs))
          (first_of_two msg whole len bs (omega (arith, size)) (omega arith))
        ∙ second_of_two msg whole len bs (omega (arith, size)) len (sym size)
        ∙ take-min 52 path)

-- A request to wait, to exit and a reply, in a message of 56 bytes, are unpacked as they were packed.
-- The path of a request to execute is unpacked as its first 52 bytes, and as the empty path when these
-- are not UTF-8.
pub unpack_process_req-pack_process_req :
    (is_utf8 : List ℕ → Bool) (msg path : List ℕ) (target options : ℕ)
    → length msg ≡ 56
    → target < 2 ^ 32
    → options < 2 ^ 32
    → (unpack_waitpid_req (pack_waitpid_req msg target options) ≡ (target, options))
      × (unpack_exit_req (pack_exit_req msg target) ≡ target)
      × (unpack_reply_u32 (pack_reply_u32 msg target) ≡ target)
      × (unpack_exec_req is_utf8 (pack_exec_req msg path)
          ≡ (if is_utf8 (take 52 path) then take 52 path else []))
unfolding pack_waitpid_req unpack_waitpid_req pack_exit_req unpack_exit_req pack_reply_u32
    unpack_reply_u32
unpack_process_req-pack_process_req is_utf8 msg path target options whole h₁ h₂ =
    let room : length (to_le_bytes 4 options) ≤ 52 = omega (arith, length-to_le_bytes 4 options) in
    (
      ap₂ (λ (a b : ℕ). (a, b)) (first_of_two msg whole target (to_le_bytes 4 options) room h₁)
          (ap from_le_bytes (
              second_of_two msg whole target (to_le_bytes 4 options) room 4
                (sym (length-to_le_bytes 4 options)))
            ∙ from_le_bytes-to_le_bytes 4 options h₂),
      first_field msg whole target h₁,
      first_field msg whole target h₁,
      unpack_exec_req-pack_exec_req is_utf8 msg path whole,
    )
