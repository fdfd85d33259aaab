-- ===== src/Net.antt =====
-- The kernel's network code: src/net.
pub mod Ethernet
pub mod Arp
pub mod Ipv4
pub mod Checksum
pub mod Virtqueue
mod Tests
use openv.Common.{ℕ, List, [], ◌∷◌}
use openv.Common.Bytes.{byte_at}

-- `MacAddr`, an array of six bytes.
pub record MacAddr : Type 0 where
  pub m₀ : ℕ
  pub m₁ : ℕ
  pub m₂ : ℕ
  pub m₃ : ℕ
  pub m₄ : ℕ
  pub m₅ : ℕ

abbrev pub mac_bytes : MacAddr → List ℕ
mac_bytes a = a.m₀ ∷ a.m₁ ∷ a.m₂ ∷ a.m₃ ∷ a.m₄ ∷ a.m₅ ∷ []

abbrev pub read_mac : List ℕ → MacAddr
read_mac bs = record {
  m₀ = byte_at bs 0;
  m₁ = byte_at bs 1;
  m₂ = byte_at bs 2;
  m₃ = byte_at bs 3;
  m₄ = byte_at bs 4;
  m₅ = byte_at bs 5;
}

-- An IPv4 address, an array of four bytes.
pub record Ipv4Addr : Type 0 where
  pub a₀ : ℕ
  pub a₁ : ℕ
  pub a₂ : ℕ
  pub a₃ : ℕ

abbrev pub ip_bytes : Ipv4Addr → List ℕ
ip_bytes a = a.a₀ ∷ a.a₁ ∷ a.a₂ ∷ a.a₃ ∷ []

abbrev pub read_ip : List ℕ → Ipv4Addr
read_ip bs = record { a₀ = byte_at bs 0; a₁ = byte_at bs 1; a₂ = byte_at bs 2; a₃ = byte_at bs 3 }
