-- ===== src/Net/Ethernet.antt =====
-- `EthHeader` of src/net/core.rs. A buffer that a call writes is passed on beside its result.
use openv.Common.{
  ℕ, ◌≤◌, ◌<◌, ◌≡◌, refl, ap, ◌∙◌, Option, none, some, List, [], ◌++◌, arith, ltb, if◌then◌else◌,
  length, drop, le→ltb,
}
use openv.Common.Bytes.{byte_at, slice, write_at, write_at-append}
use openv.Common.Words.{to_be_bytes16, from_be_bytes16, from_be_bytes16-to_be_bytes16}
use openv.Net.{MacAddr, mac_bytes, read_mac}

pub record EthHeader : Type 0 where
  pub dst : MacAddr
  pub src : MacAddr
  pub ethertype : ℕ

abbrev pub eth_len : ℕ
eth_len = 14

unfoldable pub parse : List ℕ → Option (EthHeader × List ℕ)
parse buf =
    if ltb (length buf) eth_len
    then none
    else some (
      record {
        dst = read_mac (slice 0 6 buf);
        src = read_mac (slice 6 6 buf);
        ethertype = from_be_bytes16 (byte_at buf 12) (byte_at buf 13);
      },
      drop eth_len buf,
    )

-- The three copies of `write_into` and of `build_eth_header`.
unfoldable pub put_header : MacAddr → MacAddr → ℕ → List ℕ → List ℕ
put_header dst src ethertype buf =
    write_at (write_at (write_at buf 0 (mac_bytes dst)) 6 (mac_bytes src)) 12
      (to_be_bytes16 ethertype)

unfoldable pub write_into : EthHeader → List ℕ → Option ℕ × List ℕ
write_into h buf =
    if ltb (length buf) eth_len
    then (none, buf)
    else (some eth_len, put_header h.dst h.src h.ethertype buf)

unfoldable pub build_eth_header : MacAddr → MacAddr → ℕ → List ℕ → Option ℕ × List ℕ
build_eth_header dst src ethertype out =
    if ltb (length out) eth_len
    then (none, out)
    else (some eth_len, put_header dst src ethertype out)

abbrev header_bytes : EthHeader → List ℕ
header_bytes h = (mac_bytes h.dst ++ mac_bytes h.src) ++ to_be_bytes16 h.ethertype

put_header-append :
    (h : EthHeader) (buf : List ℕ)
    → put_header h.dst h.src h.ethertype buf ≡ header_bytes h ++ drop eth_len buf
unfolding put_header to_be_bytes16
put_header-append h buf =
    ap (λ b. write_at (write_at b 6 (mac_bytes h.src)) 12 (to_be_bytes16 h.ethertype))
      (write_at-append [] (mac_bytes h.dst) buf)
    ∙ ap (λ b. write_at b 12 (to_be_bytes16 h.ethertype))
        (write_at-append (mac_bytes h.dst) (mac_bytes h.src) buf)
    ∙ write_at-append (mac_bytes h.dst ++ mac_bytes h.src) (to_be_bytes16 h.ethertype) buf

parse-header_bytes :
    (h : EthHeader) (rest : List ℕ)
    → h.ethertype < 65536
    → parse (header_bytes h ++ rest) ≡ some (h, rest)
unfolding parse to_be_bytes16 slice
parse-header_bytes h rest small =
    rw (le→ltb (length (header_bytes h ++ rest)) eth_len (omega arith))
      (rw (from_be_bytes16-to_be_bytes16 h.ethertype small) refl)

write_into-append :
    (h : EthHeader) (buf : List ℕ)
    → eth_len ≤ length buf
    → write_into h buf ≡ (some eth_len, header_bytes h ++ drop eth_len buf)
unfolding write_into
write_into-append h buf fits =
    rw (le→ltb (length buf) eth_len fits) (ap (λ b. (some eth_len, b)) (put_header-append h buf))

-- An Ethernet header whose type fits two bytes, written into a buffer of at least 14 bytes, is
-- read back, the bytes behind it are the payload that was there before, and `build_eth_header`
-- writes the same.
pub parse-write_into :
    (h : EthHeader) (buf : List ℕ)
    → h.ethertype < 65536
    → eth_len ≤ length buf
    → (parse (write_into h buf).1 ≡ some (h, drop eth_len buf))
      × ((write_into h buf).0 ≡ some eth_len)
      × (build_eth_header h.dst h.src h.ethertype buf ≡ write_into h buf)
unfolding build_eth_header write_into
parse-write_into h buf small fits = (
  ap (λ w. parse w.1) (write_into-append h buf fits)
      ∙ parse-header_bytes h (drop eth_len buf) small,
  ap (λ w. w.0) (write_into-append h buf fits),
  refl,
)
