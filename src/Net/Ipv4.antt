-- ===== src/Net/Ipv4.antt =====
-- `Ipv4Header` of src/net/core.rs.
use openv.Common.{
  ◌⊎◌, ◌%◌, subst, get_or-take, get_or-drop, ℕ, ◌+◌, ◌-◌, ◌*◌, ◌≤◌, ◌<◌, ◌≡◌, refl, ap, ◌∙◌, true,
  ◌&&◌, Option, none, some, List, arith, ltb, leb, if◌then◌else◌, length, drop, bit_and, le→ltb,
  lt→ltb, Bool-cases, inl, inr, length-take, length-drop,
}
use openv.Common.Bits.{bit_and_low}
use openv.Common.Bytes.{byte_at, slice}
use openv.Common.Words.{from_be_bytes16}
use openv.Net.{Ipv4Addr, read_ip}

pub record Ipv4Header : Type 0 where
  pub ihl : ℕ
  pub tos : ℕ
  pub total_len : ℕ
  pub id : ℕ
  pub flags_fragment : ℕ
  pub ttl : ℕ
  pub protocol : ℕ
  pub checksum : ℕ
  pub src : Ipv4Addr
  pub dst : Ipv4Addr

abbrev pub min_len : ℕ
min_len = 20

abbrev pub header_len : List ℕ → ℕ
header_len buf = bit_and (byte_at buf 0) 0x0f * 4

-- The fields that `parse` reads, all of them in the first 20 bytes.
unfoldable pub read_header : List ℕ → Ipv4Header
read_header buf = record {
  ihl = bit_and (byte_at buf 0) 0x0f;
  tos = byte_at buf 1;
  total_len = from_be_bytes16 (byte_at buf 2) (byte_at buf 3);
  id = from_be_bytes16 (byte_at buf 4) (byte_at buf 5);
  flags_fragment = from_be_bytes16 (byte_at buf 6) (byte_at buf 7);
  ttl = byte_at buf 8;
  protocol = byte_at buf 9;
  checksum = from_be_bytes16 (byte_at buf 10) (byte_at buf 11);
  src = read_ip (slice 12 4 buf);
  dst = read_ip (slice 16 4 buf);
}

-- The total length bounds the payload if it lies between the header's length and the buffer's.
unfoldable pub payload_of : ℕ → ℕ → List ℕ → List ℕ
payload_of header total buf =
    if leb header total && leb total (length buf)
    then slice header (total - header) buf
    else drop header buf

unfoldable pub parse : List ℕ → Option (Ipv4Header × List ℕ)
parse buf =
    if ltb (length buf) min_len
    then none
    else if ltb (length buf) (header_len buf)
    then none
    else some (read_header buf, payload_of (header_len buf) (read_header buf).total_len buf)

payload_of_exact :
    (header total : ℕ) (buf : List ℕ)
    → header ≤ total
    → total ≤ length buf
    → payload_of header total buf ≡ slice header (total - header) buf
unfolding payload_of
payload_of_exact header total buf low high =
    let e : leb header total && leb total (length buf) ≡ true = ground arith in rw e refl

length-slice : (off n : ℕ) (buf : List ℕ) → off + n ≤ length buf → length (slice off n buf) ≡ n
unfolding slice
length-slice off n buf le = omega (arith, length-take n (drop off buf), length-drop off buf)

parse-short : (buf : List ℕ) → length buf < min_len → parse buf ≡ none
unfolding parse
parse-short buf short = rw (lt→ltb (length buf) min_len short) refl

parse-cut : (buf : List ℕ) → length buf < header_len buf → parse buf ≡ none
unfolding parse
parse-cut buf short = elim (Bool-cases (ltb (length buf) min_len)) [
  | inl e ↦ rw e refl
  | inr e ↦ rw (e, lt→ltb (length buf) (header_len buf) short) refl
]

parse-some :
    (buf : List ℕ)
    → min_len ≤ length buf
    → header_len buf ≤ length buf
    → parse buf
      ≡ some (read_header buf, payload_of (header_len buf) (read_header buf).total_len buf)
unfolding parse
parse-some buf fits whole =
    rw (le→ltb (length buf) min_len fits, le→ltb (length buf) (header_len buf) whole) refl

-- The length of the header that the low half of the first byte announces, in words of four bytes.
abbrev pub announced : List ℕ → ℕ
announced buf = byte_at buf 0 % 16 * 4

header_len-announced : (buf : List ℕ) → header_len buf ≡ announced buf
header_len-announced buf = ap (λ (n : ℕ). n * 4) (bit_and_low 4 (byte_at buf 0))

abbrev pub IsAddressAt : List ℕ → ℕ → Ipv4Addr → Type 0
IsAddressAt buf off a =
    (a.a₀ ≡ byte_at buf off)
    × (a.a₁ ≡ byte_at buf (off + 1))
    × (a.a₂ ≡ byte_at buf (off + 2))
    × (a.a₃ ≡ byte_at buf (off + 3))

-- The fields by their places in the buffer, the first of two bytes the higher.
abbrev pub IsHeaderOf : List ℕ → Ipv4Header → Type 0
IsHeaderOf buf h =
    (h.ihl ≡ byte_at buf 0 % 16)
    × (h.tos ≡ byte_at buf 1)
    × (h.total_len ≡ byte_at buf 2 * 256 + byte_at buf 3)
    × (h.id ≡ byte_at buf 4 * 256 + byte_at buf 5)
    × (h.flags_fragment ≡ byte_at buf 6 * 256 + byte_at buf 7)
    × (h.ttl ≡ byte_at buf 8)
    × (h.protocol ≡ byte_at buf 9)
    × (h.checksum ≡ byte_at buf 10 * 256 + byte_at buf 11)
    × IsAddressAt buf 12 h.src
    × IsAddressAt buf 16 h.dst

-- The bytes from `start` on, up to `total` if that lies in the buffer behind `start`, and else all.
abbrev pub IsPayloadOf : List ℕ → ℕ → ℕ → List ℕ → Type 0
IsPayloadOf buf start total payload =
    ((i : ℕ) → i < length payload → byte_at payload i ≡ byte_at buf (start + i))
    × (start + length payload ≤ length buf)
    × (start ≤ total → total ≤ length buf → start + length payload ≡ total)
    × ((total < start) ⊎ (length buf < total) → start + length payload ≡ length buf)

byte_at-slice :
    (buf : List ℕ) (off n i : ℕ) → i < n → byte_at (slice off n buf) i ≡ byte_at buf (off + i)
unfolding slice
byte_at-slice buf off n i h = get_or-take i n (drop off buf) 0 h ∙ get_or-drop i off buf 0

read_ip-IsAddressAt : (buf : List ℕ) (off : ℕ) → IsAddressAt buf off (read_ip (slice off 4 buf))
read_ip-IsAddressAt buf off = (
  byte_at-slice buf off 4 0 (omega arith) ∙ ap (byte_at buf) (omega arith),
  byte_at-slice buf off 4 1 (omega arith),
  byte_at-slice buf off 4 2 (omega arith),
  byte_at-slice buf off 4 3 (omega arith),
)

read_header-IsHeaderOf : (buf : List ℕ) → IsHeaderOf buf (read_header buf)
unfolding read_header from_be_bytes16
read_header-IsHeaderOf buf = (
  bit_and_low 4 (byte_at buf 0),
  refl,
  refl,
  refl,
  refl,
  refl,
  refl,
  refl,
  read_ip-IsAddressAt buf 12,
  read_ip-IsAddressAt buf 16,
)

payload_of-IsPayloadOf :
    (start total : ℕ) (buf : List ℕ)
    → start ≤ length buf
    → IsPayloadOf buf start total (payload_of start total buf)
unfolding payload_of
payload_of-IsPayloadOf start total buf le =
    elim (Bool-cases (leb start total && leb total (length buf))) [
      | inl e ↦
          let low : start ≤ total = ground (arith, e) in
          let high : total ≤ length buf = ground (arith, e) in
          let len = length-slice start (total - start) buf (omega arith) in
          rw e (
            λ i h. byte_at-slice buf start (total - start) i (omega (arith, len)),
            omega (arith, len),
            λ l h. omega (arith, len),
            λ out. absurd (elim out [ inl a ↦ omega arith | inr b ↦ omega arith ]),
          )
      | inr e ↦
          let len = length-drop start buf in
          rw e (
            λ i h. get_or-drop i start buf 0,
            omega (arith, len),
            λ low high. absurd (ground (arith, e)),
            λ out. omega (arith, len),
          )
    ]

-- `Ipv4Header::parse` refuses the buffers that are shorter than 20 bytes or than the header that
-- they announce. For every other buffer it succeeds, and each field of the header is read from its
-- place in the first 20 bytes. The payload is the bytes behind the announced header, up to the
-- total length if that lies between the header's length and the buffer's, and else up to the end of
-- the buffer.
pub parse_lem :
    (buf : List ℕ)
    → (length buf < 20 → parse buf ≡ none)
      × (length buf < announced buf → parse buf ≡ none)
      × (20 ≤ length buf
          → announced buf ≤ length buf
          → (h : Ipv4Header) × (payload : List ℕ) × (parse buf ≡ some (h, payload))
            × IsHeaderOf buf h
            × IsPayloadOf buf (announced buf) h.total_len payload)
parse_lem buf =
    let total : ℕ = (read_header buf).total_len in
    let same = header_len-announced buf in
    (
      parse-short buf,
      λ short. parse-cut buf (omega (arith, same)),
      λ fits whole. (
        read_header buf,
        payload_of (header_len buf) total buf,
        parse-some buf fits (omega (arith, same)),
        read_header-IsHeaderOf buf,
        subst (λ (n : ℕ). IsPayloadOf buf n total (payload_of (header_len buf) total buf)) same
            (payload_of-IsPayloadOf (header_len buf) total buf (omega (arith, same))),
      ),
    )

-- An IPv4 header that announces fewer than its 20 fixed bytes is accepted, and with a total length
-- of 20 its payload is the rest of the fixed header.
pub parse-overlap :
    (buf : List ℕ)
    → min_len ≤ length buf
    → header_len buf < min_len
    → (read_header buf).total_len ≡ min_len
    → (h : Ipv4Header) × (payload : List ℕ) × (parse buf ≡ some (h, payload))
      × (payload ≡ slice (header_len buf) (min_len - header_len buf) buf)
      × (0 < length payload)
parse-overlap buf fits short total =
    let header : ℕ = header_len buf in
    let payload : List ℕ = payload_of header (read_header buf).total_len buf in
    let exact : payload ≡ slice header (min_len - header) buf =
      ap (λ t. payload_of header t buf) total
      ∙ payload_of_exact header min_len buf (omega arith) fits in
    (
      read_header buf,
      payload,
      parse-some buf fits (omega arith),
      exact,
      omega (
        arith,
        ap (λ l. length l) exact,
        length-slice header (min_len - header) buf (omega arith),
      ),
    )
