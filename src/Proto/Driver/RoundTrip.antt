-- ===== src/Proto/Driver/RoundTrip.antt =====
-- The registry reads the descriptor that the driver wrote.
use openv.Common.{
  ℕ, ◌-◌, ◌^◌, ◌<◌, ◌≡◌, refl, sym, ap, ◌∙◌, Bool, true, some, List, [], ◌∷◌, ◌++◌, length, leb,
  arith, take-append, drop-append_ge, drop_eq, length-append,
}
use openv.Common.Words.{to_le_bytes, length-to_le_bytes, from_le_bytes-to_le_bytes}
use openv.Proto.Driver.{
  ResourceKind, mmio, irq, dma, ResourceReq, DriverDesc, magic, tag_of, param₀, param₁,
  resource_bytes, serialize, read_bytes, read_uint, read_name, kind_of, read_resources, deserialize,
}

read_bytes-append :
    (n : ℕ) (bs rest : List ℕ) → n ≡ length bs → read_bytes n (bs ++ rest) ≡ some (bs, rest)
unfolding read_bytes
read_bytes-append n bs rest e =
    let enough : leb n (length (bs ++ rest)) ≡ true = ground (arith, length-append bs rest) in
    rw
      (
        enough,
        take-append bs rest n e,
        drop-append_ge bs rest n (omega arith) ∙ drop_eq (n - length bs) 0 rest (omega arith),
      )
      refl

read_uint-append :
    (n v : ℕ) (rest : List ℕ) → v < 256 ^ n → read_uint n (to_le_bytes n v ++ rest) ≡ some (v, rest)
unfolding read_uint
read_uint-append n v rest small =
    rw (read_bytes-append n (to_le_bytes n v) rest (sym (length-to_le_bytes n v)))
      (ap (λ x. some (x, rest)) (from_le_bytes-to_le_bytes n v small))

read_name-append :
    (is_utf8 : List ℕ → Bool) (name rest : List ℕ)
    → length name < 65536
    → is_utf8 name ≡ true
    → read_name is_utf8 (to_le_bytes 2 (length name) ++ (name ++ rest)) ≡ some (name, rest)
unfolding read_name
read_name-append is_utf8 name rest small text =
    rw
      (
        read_uint-append 2 (length name) (name ++ rest) small,
        read_bytes-append (length name) name rest refl,
        text,
      )
      refl

-- The numbers of a resource fit their widths, and its name is UTF-8.
abbrev pub KindFits : ResourceKind → Type 0
KindFits (mmio base size) = (base < 2 ^ 64) × (size < 2 ^ 64)
KindFits (irq n) = n < 2 ^ 32
KindFits (dma size) = size < 2 ^ 64

abbrev pub NameFits : (List ℕ → Bool) → List ℕ → Type 0
NameFits is_utf8 name = (length name < 65536) × (is_utf8 name ≡ true)

abbrev pub ResourcesFit : (List ℕ → Bool) → List ResourceReq → Type 0
ResourcesFit is_utf8 [] = Unit {0}
ResourcesFit is_utf8 (r ∷ rs) =
    (KindFits r.kind × NameFits is_utf8 r.name) × ResourcesFit is_utf8 rs

kind_of-params :
    (kind : ResourceKind)
    → KindFits kind
    → (kind_of (tag_of kind) (param₀ kind) (param₁ kind) ≡ some kind)
      × (tag_of kind < 256 ^ 4)
      × (param₀ kind < 256 ^ 8)
      × (param₁ kind < 256 ^ 8)
unfolding kind_of
kind_of-params (mmio base size) fit = (refl, omega arith, fit.0, fit.1)
kind_of-params (irq n) fit =
    (ap (λ k. some (irq k)) (omega arith), omega arith, omega arith, omega arith)
kind_of-params (dma size) fit = (refl, omega arith, fit, omega arith)

read_resources-resource_bytes :
    (is_utf8 : List ℕ → Bool) (rs : List ResourceReq)
    → ResourcesFit is_utf8 rs
    → read_resources is_utf8 (length rs) (resource_bytes rs) ≡ some rs
unfolding read_resources resource_bytes
read_resources-resource_bytes is_utf8 [] fit = refl
read_resources-resource_bytes is_utf8 (r ∷ rs) ((kind_fits, name_fits), fit) =
    let (kind, tag, p₀, p₁) = kind_of-params r.kind kind_fits in
    rw
      (
        read_uint-append 4 (tag_of r.kind) _ tag,
        read_uint-append 8 (param₀ r.kind) _ p₀,
        read_uint-append 8 (param₁ r.kind) _ p₁,
        kind,
        read_name-append is_utf8 r.name (resource_bytes rs) name_fits.0 name_fits.1,
        read_resources-resource_bytes is_utf8 rs fit,
      )
      refl

-- A descriptor whose numbers fit their widths and whose names are UTF-8.
pub record Fits (is_utf8 : List ℕ → Bool) (d : DriverDesc) : Type 0 where
  pub name_fits : NameFits is_utf8 d.name
  pub major_small : d.version_major < 65536
  pub minor_small : d.version_minor < 65536
  pub patch_small : d.version_patch < 65536
  pub caps_small : d.required_caps < 2 ^ 64
  pub count_small : length d.resources < 2 ^ 32
  pub resources_fit : ResourcesFit is_utf8 d.resources

-- What `serialize` writes of a descriptor whose numbers fit their widths and whose names are UTF-8
-- and shorter than 65536 bytes, `deserialize` reads as that descriptor.
pub deserialize-serialize :
    (is_utf8 : List ℕ → Bool) (d : DriverDesc)
    → Fits is_utf8 d
    → deserialize is_utf8 (serialize d) ≡ some d
unfolding deserialize serialize
deserialize-serialize is_utf8 d fit =
    rw
      (
        read_uint-append 4 magic _ (omega arith),
        read_name-append is_utf8 d.name _ fit.name_fits.0 fit.name_fits.1,
        read_uint-append 2 d.version_major _ fit.major_small,
        read_uint-append 2 d.version_minor _ fit.minor_small,
        read_uint-append 2 d.version_patch _ fit.patch_small,
        read_uint-append 8 d.required_caps _ fit.caps_small,
        read_uint-append 4 (length d.resources) _ fit.count_small,
        read_resources-resource_bytes is_utf8 d.resources fit.resources_fit,
      )
      refl
