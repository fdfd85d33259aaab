-- ===== src/Mm/Swap/RoundTrip.antt =====
-- What is swapped out comes back as it was, and how large it is in between.
use openv.Common.{
  ℕ, zero, suc, ◌+◌, ◌-◌, ◌*◌, ◌%◌, ◌≤◌, ◌<◌, ◌≡◌, refl, sym, ap, ap₂, ◌∙◌, inl, inr, ◌&&◌, List,
  [], ◌∷◌, ◌++◌, arith, ltb, ◌==◌, if◌then◌else◌, Bool-cases, eq-cases, take_add, min, replicate,
  length, get_or, take, drop, get_or-drop, length-replicate, length-drop, take_all, ltb→lt, lt→ltb,
  ltb→le,
}
use openv.Common.Bytes.{
  byte_at, write_at, slice, length-write_at, slice-write_at_same, slice-write_at_before,
}
use openv.Mm.Swap.{
  page_bytes, extend_run, run_at, compress_from, compress_page, decompress_from, decompress_page,
}

-- The bytes from `i` on are `run` times `b`.
abbrev IsRun : List ℕ → ℕ → ℕ → ℕ → Type 0
IsRun src b i run =
    (run ≤ 255) × (i + run ≤ page_bytes) × ((j : ℕ) → i ≤ j → j < i + run → byte_at src j ≡ b)

at_most_last :
    (src : List ℕ) (b i run j : ℕ)
    → ((j : ℕ) → i ≤ j → j < i + run → byte_at src j ≡ b)
    → byte_at src (i + run) ≡ b
    → i ≤ j
    → j < i + (run + 1)
    → byte_at src j ≡ b
at_most_last src b i run j before last lo hi = elim (eq-cases j (i + run)) [
  | inl e ↦ ap (byte_at src) e ∙ last
  | inr ne ↦ before j lo (omega arith)
]

extend_run-IsRun :
    (n : ℕ) (src : List ℕ) (b i run : ℕ)
    → IsRun src b i run
    → IsRun src b i (extend_run n src b i run) × (run ≤ extend_run n src b i run)
unfolding extend_run
extend_run-IsRun zero src b i run r = (r, omega arith)
extend_run-IsRun (suc n) src b i run r =
    elim (Bool-cases (ltb (i + run) page_bytes && byte_at src (i + run) == b && ltb run 255)) [
      | inr e ↦ rw e (r, omega arith)
      | inl e ↦
          let (longer, le) = extend_run-IsRun n src b i (run + 1) (
            ground arith,
            ground arith,
            (λ j lo hi. at_most_last src b i run j r.2 (ground arith) lo hi),
          ) in
          rw e (longer, omega arith)
    ]

run_at-IsRun :
    (src : List ℕ) (i : ℕ)
    → i < page_bytes
    → IsRun src (byte_at src i) i (run_at src i) × (1 ≤ run_at src i)
unfolding run_at
run_at-IsRun src i lt =
    extend_run-IsRun 255 src (byte_at src i) i 1
      (omega arith, omega arith, λ j lo hi. ap (byte_at src) (omega arith))

take-replicate :
    (n : ℕ) (xs : List ℕ) (b : ℕ)
    → n ≤ length xs
    → ((j : ℕ) → j < n → get_or xs j 0 ≡ b)
    → take n xs ≡ replicate n b
take-replicate zero xs b le h = refl
take-replicate (suc n) [] b le h = absurd (omega arith)
take-replicate (suc n) (x ∷ xs) b le h =
    ap₂ (λ y l. y ∷ l) (h 0 (omega arith))
      (take-replicate n xs b (omega arith) (λ j lt. h (suc j) (omega arith)))

slice-run :
    (src : List ℕ) (b i run : ℕ)
    → length src ≡ page_bytes
    → IsRun src b i run
    → slice i run src ≡ replicate run b
unfolding slice
slice-run src b i run len r =
    take-replicate run (drop i src) b (omega (arith, length-drop i src, r.1))
      (λ j lt. get_or-drop j i src 0 ∙ r.2 (i + j) (omega arith) (omega arith))

-- What the loops have in common when both stand at `i`.
abbrev Agrees : List ℕ → List ℕ → ℕ → Type 0
Agrees src dst i = (length dst ≡ page_bytes) × (take i dst ≡ take i src)

fill-Agrees :
    (src dst : List ℕ) (b i run : ℕ)
    → length src ≡ page_bytes
    → IsRun src b i run
    → Agrees src dst i
    → Agrees src (write_at dst i (replicate run b)) (i + run)
unfolding slice
fill-Agrees src dst b i run len r (len', same) =
    let dst' : List ℕ = write_at dst i (replicate run b) in
    let fits : i + length (replicate run b) ≤ length dst =
      omega (arith, length-replicate run b, r.1) in
    (
      length-write_at dst i (replicate run b) fits ∙ len',
      take_add i run dst'
          ∙ ap₂ (λ xs ys. xs ++ ys)
              (slice-write_at_before dst i (replicate run b) fits 0 i (omega arith) ∙ same)
              (slice-write_at_same dst i (replicate run b) fits run (sym (length-replicate run b))
                ∙ sym (slice-run src b i run len r))
          ∙ sym (take_add i run src),
    )

Agrees-end :
    (src dst : List ℕ) (i : ℕ)
    → length src ≡ page_bytes
    → page_bytes ≤ i
    → Agrees src dst i
    → dst ≡ src
Agrees-end src dst i len end (len', same) =
    sym (take_all i dst (omega arith)) ∙ same ∙ take_all i src (omega arith)

decompress_from-run :
    (b r i : ℕ) (rest dst : List ℕ)
    → i < page_bytes
    → r ≤ 255
    → i + r ≤ page_bytes
    → decompress_from (b ∷ r % 256 ∷ rest) dst i
      ≡ decompress_from rest (write_at dst i (replicate r b)) (i + r)
unfolding decompress_from
decompress_from-run b r i rest dst lt small le =
    let end : min (i + r % 256) page_bytes ≡ i + r = omega arith in
    let run : i + r - i ≡ r = omega arith in rw (lt→ltb i page_bytes lt, end, run) refl

decompress_from-compress_from :
    (n : ℕ) (src dst : List ℕ) (i : ℕ)
    → length src ≡ page_bytes
    → i ≤ page_bytes
    → page_bytes ≤ i + n
    → Agrees src dst i
    → decompress_from (compress_from n src i) dst i ≡ src
unfolding compress_from decompress_from
decompress_from-compress_from zero src dst i len le fuel same =
    Agrees-end src dst i len (omega arith) same
decompress_from-compress_from (suc n) src dst i len le fuel same =
    let b : ℕ = byte_at src i in
    let run : ℕ = run_at src i in
    elim (Bool-cases (ltb i page_bytes)) [
      | inr e ↦ rw e (Agrees-end src dst i len (ltb→le i page_bytes e) same)
      | inl e ↦
          let lt : i < page_bytes = ltb→lt i page_bytes e in
          let (r, positive) = run_at-IsRun src i lt in
          ap
            (λ t.
              decompress_from (if t then b ∷ run % 256 ∷ compress_from n src (i + run) else []) dst
                i)
            e
          ∙ decompress_from-run b run i (compress_from n src (i + run)) dst lt r.0 r.1
          ∙ decompress_from-compress_from n src (write_at dst i (replicate run b)) (i + run) len r.1
              (omega (arith, positive)) (fill-Agrees src dst b i run len r same)
    ]

-- A page of 4096 bytes that was compressed is decompressed to what it was, whatever the frame of
-- 4096 bytes held before; the fuel of the loop is enough.
pub decompress_page-compress_page :
    (src dst : List ℕ)
    → length src ≡ page_bytes
    → length dst ≡ page_bytes
    → decompress_page (compress_page src) dst ≡ src
unfolding compress_page decompress_page
decompress_page-compress_page src dst len len' =
    decompress_from-compress_from page_bytes src dst 0 len (omega arith) (omega arith) (len', refl)

length-compress_from :
    (n : ℕ) (src : List ℕ) (i : ℕ)
    → i ≤ page_bytes
    → length (compress_from n src i) ≤ 2 * (page_bytes - i)
unfolding compress_from
length-compress_from zero src i le = omega arith
length-compress_from (suc n) src i le = elim (Bool-cases (ltb i page_bytes)) [
  | inr e ↦ rw e (omega arith)
  | inl e ↦
      let (r, positive) = run_at-IsRun src i (ltb→lt i page_bytes e) in
      rw e (omega (arith, positive, r.1, length-compress_from n src (i + run_at src i) r.1))
]

-- A compressed page has at most 8192 bytes, twice those of the page, whatever the page holds.
pub length-compress_page : (src : List ℕ) → length (compress_page src) ≤ 2 * page_bytes
unfolding compress_page
length-compress_page src = length-compress_from page_bytes src 0 (omega arith)
