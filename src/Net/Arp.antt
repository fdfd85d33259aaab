-- ===== src/Net/Arp.antt =====
-- `ArpPacket` of src/net/core.rs.
use openv.Common.{
  ℕ, ◌≤◌, ◌<◌, ◌≡◌, refl, ap, ◌∙◌, Option, none, some, List, [], ◌∷◌, ◌++◌, arith, ltb,
  if◌then◌else◌, length, drop, le→ltb, lt→ltb,
}
use openv.Common.Bytes.{byte_at, slice, write_at, write_at_next}
use openv.Common.Words.{to_be_bytes16, from_be_bytes16, from_be_bytes16-to_be_bytes16}
use openv.Net.{MacAddr, mac_bytes, read_mac, Ipv4Addr, ip_bytes, read_ip}

pub record ArpPacket : Type 0 where
  pub htype : ℕ
  pub ptype : ℕ
  pub hlen : ℕ
  pub plen : ℕ
  pub oper : ℕ
  pub sha : MacAddr
  pub spa : Ipv4Addr
  pub tha : MacAddr
  pub tpa : Ipv4Addr

abbrev pub arp_len : ℕ
arp_len = 28

unfoldable pub parse : List ℕ → Option ArpPacket
parse buf =
    if ltb (length buf) arp_len
    then none
    else some (record {
      htype = from_be_bytes16 (byte_at buf 0) (byte_at buf 1);
      ptype = from_be_bytes16 (byte_at buf 2) (byte_at buf 3);
      hlen = byte_at buf 4;
      plen = byte_at buf 5;
      oper = from_be_bytes16 (byte_at buf 6) (byte_at buf 7);
      sha = read_mac (slice 8 6 buf);
      spa = read_ip (slice 14 4 buf);
      tha = read_mac (slice 18 6 buf);
      tpa = read_ip (slice 24 4 buf);
    })

-- The nine writes of `write_into`.
unfoldable pub put_packet : ArpPacket → List ℕ → List ℕ
put_packet p out =
    let o₁ : List ℕ = write_at out 0 (to_be_bytes16 p.htype) in
    let o₂ : List ℕ = write_at o₁ 2 (to_be_bytes16 p.ptype) in
    let o₃ : List ℕ = write_at o₂ 4 (p.hlen ∷ []) in
    let o₄ : List ℕ = write_at o₃ 5 (p.plen ∷ []) in
    let o₅ : List ℕ = write_at o₄ 6 (to_be_bytes16 p.oper) in
    let o₆ : List ℕ = write_at o₅ 8 (mac_bytes p.sha) in
    let o₇ : List ℕ = write_at o₆ 14 (ip_bytes p.spa) in
    let o₈ : List ℕ = write_at o₇ 18 (mac_bytes p.tha) in write_at o₈ 24 (ip_bytes p.tpa)

unfoldable pub write_into : ArpPacket → List ℕ → Option ℕ × List ℕ
write_into p out =
    if ltb (length out) arp_len then (none, out) else (some arp_len, put_packet p out)

abbrev header_bytes : ArpPacket → List ℕ
unfolding to_be_bytes16
header_bytes p =
    to_be_bytes16 p.htype
    ++ to_be_bytes16 p.ptype
    ++ (p.hlen ∷ [])
    ++ (p.plen ∷ [])
    ++ to_be_bytes16 p.oper

-- The bytes on the wire.
abbrev packet_bytes : ArpPacket → List ℕ
packet_bytes p =
    header_bytes p ++ mac_bytes p.sha ++ ip_bytes p.spa ++ mac_bytes p.tha ++ ip_bytes p.tpa

put_packet-append :
    (p : ArpPacket) (out : List ℕ) → put_packet p out ≡ packet_bytes p ++ drop arp_len out
unfolding put_packet to_be_bytes16
put_packet-append p out =
    let a₁ : List ℕ = to_be_bytes16 p.htype in
    let a₂ : List ℕ = a₁ ++ to_be_bytes16 p.ptype in
    let a₃ : List ℕ = a₂ ++ (p.hlen ∷ []) in
    let a₄ : List ℕ = a₃ ++ (p.plen ∷ []) in
    let a₅ : List ℕ = a₄ ++ to_be_bytes16 p.oper in
    let a₆ : List ℕ = a₅ ++ mac_bytes p.sha in
    let a₇ : List ℕ = a₆ ++ ip_bytes p.spa in
    let a₈ : List ℕ = a₇ ++ mac_bytes p.tha in
    let e₁ = write_at_next [] a₁ out out refl in
    let e₂ = write_at_next a₁ (to_be_bytes16 p.ptype) out _ e₁ in
    let e₃ = write_at_next a₂ (p.hlen ∷ []) out _ e₂ in
    let e₄ = write_at_next a₃ (p.plen ∷ []) out _ e₃ in
    let e₅ = write_at_next a₄ (to_be_bytes16 p.oper) out _ e₄ in
    let e₆ = write_at_next a₅ (mac_bytes p.sha) out _ e₅ in
    let e₇ = write_at_next a₆ (ip_bytes p.spa) out _ e₆ in
    let e₈ = write_at_next a₇ (mac_bytes p.tha) out _ e₇ in
    write_at_next a₈ (ip_bytes p.tpa) out _ e₈

-- The two-byte fields fit two bytes.
pub record IsPacket (p : ArpPacket) : Type 0 where
  pub htype_small : p.htype < 65536
  pub ptype_small : p.ptype < 65536
  pub oper_small : p.oper < 65536

parse-packet_bytes :
    (p : ArpPacket) (rest : List ℕ) → IsPacket p → parse (packet_bytes p ++ rest) ≡ some p
unfolding parse to_be_bytes16 slice
parse-packet_bytes p rest small =
    rw (le→ltb (length (packet_bytes p ++ rest)) arp_len (omega arith)) (
      rw
        (
          from_be_bytes16-to_be_bytes16 p.htype small.htype_small,
          from_be_bytes16-to_be_bytes16 p.ptype small.ptype_small,
          from_be_bytes16-to_be_bytes16 p.oper small.oper_small,
        )
        refl)

write_into-append :
    (p : ArpPacket) (out : List ℕ)
    → arp_len ≤ length out
    → write_into p out ≡ (some arp_len, packet_bytes p ++ drop arp_len out)
unfolding write_into
write_into-append p out fits =
    rw (le→ltb (length out) arp_len fits) (ap (λ b. (some arp_len, b)) (put_packet-append p out))

write_into-short :
    (p : ArpPacket) (out : List ℕ) → length out < arp_len → write_into p out ≡ (none, out)
unfolding write_into
write_into-short p out short = rw (lt→ltb (length out) arp_len short) refl

-- An ARP packet whose two-byte fields fit, written into a buffer of at least 28 bytes, is read
-- back, and the bytes behind it are unchanged. A shorter buffer is refused and left as it is.
pub parse-write_into_packet :
    (p : ArpPacket) (out : List ℕ)
    → IsPacket p
    → (arp_len ≤ length out
        → (parse (write_into p out).1 ≡ some p)
          × (drop arp_len (write_into p out).1 ≡ drop arp_len out)
          × ((write_into p out).0 ≡ some arp_len))
      × (length out < arp_len → write_into p out ≡ (none, out))
unfolding to_be_bytes16
parse-write_into_packet p out small = (
  λ fits.
      let e = write_into-append p out fits in
      (
        ap (λ w. parse w.1) e ∙ parse-packet_bytes p (drop arp_len out) small,
        ap (λ w. drop arp_len w.1) e,
        ap (λ w. w.0) e,
      ),
  write_into-short p out,
)
