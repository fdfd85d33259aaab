-- ===== src/Proto/Driver.antt =====
-- user/driver-abi/src/lib.rs: the descriptor that a driver registers with. A name is its bytes, and
-- `is_utf8` is the test of the core library's `from_utf8`. A reader gets the bytes that are not read yet.
pub mod RoundTrip
use openv.Common.{
  ℕ, zero, suc, ◌+◌, ◌%◌, ◌^◌, Bool, true, false, not, Option, none, some, List, [], ◌∷◌, ◌++◌,
  length, take, drop, leb, ◌==◌, if◌then◌else◌,
}
use openv.Common.Words.{to_le_bytes, from_le_bytes}

pub data ResourceKind : Type 0 where
  mmio : ℕ → ℕ → ResourceKind
  irq : ℕ → ResourceKind
  dma : ℕ → ResourceKind

pub record ResourceReq : Type 0 where
  pub kind : ResourceKind
  pub name : List ℕ

pub record DriverDesc : Type 0 where
  pub name : List ℕ
  pub version_major : ℕ
  pub version_minor : ℕ
  pub version_patch : ℕ
  pub required_caps : ℕ
  pub resources : List ResourceReq

abbrev pub magic : ℕ
magic = 0x44524956

-- The tag and the two parameters of a resource.
abbrev pub tag_of : ResourceKind → ℕ
tag_of (mmio base size) = 0
tag_of (irq n) = 1
tag_of (dma size) = 2

abbrev pub param₀ : ResourceKind → ℕ
param₀ (mmio base size) = base
param₀ (irq n) = n
param₀ (dma size) = size

abbrev pub param₁ : ResourceKind → ℕ
param₁ (mmio base size) = size
param₁ (irq n) = 0
param₁ (dma size) = 0

unfoldable pub resource_bytes : List ResourceReq → List ℕ
resource_bytes [] = []
resource_bytes (r ∷ rs) =
    to_le_bytes 4 (tag_of r.kind)
    ++ (to_le_bytes 8 (param₀ r.kind)
        ++ (to_le_bytes 8 (param₁ r.kind)
            ++ (to_le_bytes 2 (length r.name) ++ (r.name ++ resource_bytes rs))))

unfoldable pub serialize : DriverDesc → List ℕ
serialize d =
    to_le_bytes 4 magic
    ++ (to_le_bytes 2 (length d.name)
        ++ (d.name
            ++ (to_le_bytes 2 d.version_major
                ++ (to_le_bytes 2 d.version_minor
                    ++ (to_le_bytes 2 d.version_patch
                        ++ (to_le_bytes 8 d.required_caps
                            ++ (to_le_bytes 4 (length d.resources)
                                ++ resource_bytes d.resources)))))))

abbrev pub with_some : {A B : Type 0} → Option A → (A → Option B) → Option B
with_some none k = none
with_some (some a) k = k a

-- `data.get(off..off + n)?`, and what is behind it.
unfoldable pub read_bytes : ℕ → List ℕ → Option (List ℕ × List ℕ)
read_bytes n bytes = if leb n (length bytes) then some (take n bytes, drop n bytes) else none

unfoldable pub read_uint : ℕ → List ℕ → Option (ℕ × List ℕ)
read_uint n bytes = with_some (read_bytes n bytes) (λ (bs, rest). some (from_le_bytes bs, rest))

-- A name behind its length, if it is UTF-8.
unfoldable pub read_name : (List ℕ → Bool) → List ℕ → Option (List ℕ × List ℕ)
read_name is_utf8 bytes = with_some (read_uint 2 bytes) (λ (n, b).
    with_some (read_bytes n b) (λ (name, rest). if is_utf8 name then some (name, rest) else none))

-- An interrupt number is cut to 32 bits.
unfoldable pub kind_of : ℕ → ℕ → ℕ → Option ResourceKind
kind_of tag p₀ p₁ =
    if tag == 0
    then some (mmio p₀ p₁)
    else if tag == 1
    then some (irq (p₀ % 2 ^ 32))
    else if tag == 2
    then some (dma p₀)
    else none

unfoldable pub read_resources : (List ℕ → Bool) → ℕ → List ℕ → Option (List ResourceReq)
read_resources is_utf8 zero bytes = some []
read_resources is_utf8 (suc n) bytes = with_some (read_uint 4 bytes) (λ (tag, b₁).
    with_some (read_uint 8 b₁) (λ (p₀, b₂). with_some (read_uint 8 b₂) (λ (p₁, b₃).
      with_some (kind_of tag p₀ p₁) (λ kind. with_some (read_name is_utf8 b₃) (λ (name, b₄).
        with_some (read_resources is_utf8 n b₄)
          (λ rs. some (record { kind = kind; name = name } ∷ rs)))))))

unfoldable pub deserialize : (List ℕ → Bool) → List ℕ → Option DriverDesc
deserialize is_utf8 bytes = with_some (read_uint 4 bytes) (λ (found, b₁).
    if not (found == magic)
    then none
    else with_some (read_name is_utf8 b₁) (λ (name, b₂). with_some (read_uint 2 b₂) (λ (v₀, b₃).
      with_some (read_uint 2 b₃) (λ (v₁, b₄). with_some (read_uint 2 b₄) (λ (v₂, b₅).
        with_some (read_uint 8 b₅) (λ (caps, b₆). with_some (read_uint 4 b₆) (λ (n, b₇).
          with_some (read_resources is_utf8 n b₇) (λ rs. some (record {
            name = name;
            version_major = v₀;
            version_minor = v₁;
            version_patch = v₂;
            required_caps = caps;
            resources = rs;
          })))))))))
