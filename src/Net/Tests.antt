-- ===== src/Net/Tests.antt =====
-- The network theorems on concrete data.
use openv.Common.{ℕ, ◌≤◌, ◌<◌, ◌≡◌, refl, arith, none, some, List, [], ◌∷◌, ◌++◌, length, replicate}
use openv.Common.Bytes.{slice}
use openv.Common.Words.{to_be_bytes16, from_be_bytes16}
use openv.Net.{MacAddr}
use openv.Net.Ethernet.{EthHeader}
use openv.Net.Arp.{ArpPacket}
use openv.Net.Ipv4.{IsHeaderOf, IsPayloadOf, Ipv4Header, header_len, read_header}
use openv.Net.Ipv4 as Ipv4
use openv.Net.Checksum.{add_words, fold_carries, checksum16}
use openv.Net.Checksum.Verify.{checksum16-verifies}

abbrev broadcast : MacAddr
broadcast = record { m₀ = 255; m₁ = 255; m₂ = 255; m₃ = 255; m₄ = 255; m₅ = 255 }

abbrev host : MacAddr
host = record { m₀ = 0x52; m₁ = 0x54; m₂ = 0; m₃ = 0x12; m₄ = 0x34; m₅ = 0x56 }

abbrev arp_header : EthHeader
arp_header = record { dst = broadcast; src = host; ethertype = 0x0806 }

abbrev frame : List ℕ
frame = replicate 20 1

abbrev who_has : ArpPacket
who_has = record {
  htype = 1;
  ptype = 0x0800;
  hlen = 6;
  plen = 4;
  oper = 1;
  sha = host;
  spa = record { a₀ = 10; a₁ = 0; a₂ = 2; a₃ = 15 };
  tha = broadcast;
  tpa = record { a₀ = 10; a₁ = 0; a₂ = 2; a₃ = 2 };
}

abbrev wide_frame : List ℕ
wide_frame = replicate 30 1

-- Version 4, five words of header and 22 bytes in total, and the same with the length 0 of the header.
abbrev datagram : ℕ → ℕ → List ℕ
datagram vihl total =
    vihl ∷ 0 ∷ 0 ∷ total ∷ 0 ∷ 1 ∷ 0 ∷ 0 ∷ 64 ∷ 17 ∷ 0 ∷ 0 ∷ 10 ∷ 0 ∷ 2 ∷ 15 ∷ 10 ∷ 0 ∷ 2 ∷ 2 ∷ 7
    ∷ 8 ∷ 9 ∷ []

parse_lem_example :
    let buf = datagram 0x45 22 in
    (length buf < 20 → Ipv4.parse buf ≡ none)
    × (length buf < 20 → Ipv4.parse buf ≡ none)
    × (20 ≤ length buf
        → 20 ≤ length buf
        → (h : Ipv4Header) × (payload : List ℕ) × (Ipv4.parse buf ≡ some (h, payload))
          × IsHeaderOf buf h
          × IsPayloadOf buf 20 h.total_len payload)
parse_lem_example = Ipv4.parse_lem (datagram 0x45 22)

parse-overlap_example :
    (h : Ipv4Header) × (payload : List ℕ) × (Ipv4.parse (datagram 0x40 20) ≡ some (h, payload))
    × (payload ≡ slice 0 20 (datagram 0x40 20))
    × (0 < length payload)
unfolding read_header from_be_bytes16
parse-overlap_example = Ipv4.parse-overlap (datagram 0x40 20) (omega arith) (omega arith) refl

checksum16-verifies_example :
    let c = checksum16 ((0x45 ∷ 0 ∷ []) ++ (to_be_bytes16 0 ++ (10 ∷ 15 ∷ 2 ∷ []))) in
    (c ≤ 65535) × (checksum16 ((0x45 ∷ 0 ∷ []) ++ (to_be_bytes16 c ++ (10 ∷ 15 ∷ 2 ∷ []))) ≡ 0)
checksum16-verifies_example =
    checksum16-verifies (0x45 ∷ 0 ∷ []) (10 ∷ 15 ∷ 2 ∷ []) refl (omega arith, (omega arith, tt))
      (omega arith, (omega arith, (omega arith, tt))) (omega arith)

checksum16_known : checksum16 (0x45 ∷ 0 ∷ 0xff ∷ []) ≡ 0xbbfe
unfolding checksum16 add_words fold_carries from_be_bytes16
checksum16_known = refl
