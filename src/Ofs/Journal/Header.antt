-- ===== src/Ofs/Journal/Header.antt =====
-- What the journal's headers say, word by word.
use openv.Common.{
  ℕ, suc, ◌+◌, ◌*◌, ◌^◌, ◌≤◌, ◌<◌, ◌≡◌, ◌⊎◌, refl, ◌∙◌, true, false, List, [], ◌∷◌, length,
  length-replicate, arith,
}
use openv.Common.Bytes.{slice}
use openv.Common.Words.{from_le_bytes}
use openv.Ofs.Buffer.{
  u32_le, set_u32, length-set_u32, u32_le-set_u32_same, u32_le-set_u32_before, u32_le-set_u32_after,
}
use openv.Ofs.Device.{Block}
use openv.Ofs.Journal.{
  journal_magic, zeros, crc32, header_crc, Entry, put_targets, prepared_header, committed_header,
  clear_header, is_committed,
}

-- A block that the journal may be asked to write: not the superblock, and not the journal itself.
abbrev pub IsTarget : ℕ → Type 0
IsTarget t = (0 < t) × (t < 2 ^ 32) × ((t < 35) ⊎ (68 ≤ t))

abbrev pub AllTargets : List Entry → Type 0
AllTargets [] = Unit {0}
AllTargets (e ∷ es) = IsTarget e.0 × AllTargets es

-- The header names the targets of the entries, from slot `i` on.
abbrev pub HasTargets : ℕ → List Entry → Block → Type 0
HasTargets i [] hdr = Unit {0}
HasTargets i (e ∷ es) hdr = (u32_le hdr (16 + i * 4) ≡ e.0) × HasTargets (suc i) es hdr

header_crc-lt : (m n c : ℕ) → header_crc m n c < 2 ^ 32
unfolding crc32
header_crc-lt m n c = omega arith

length-zeros : length zeros ≡ 4096
length-zeros = length-replicate {A = ℕ} 4096 0

length-put_targets :
    (i : ℕ) (es : List Entry) (hdr : Block)
    → i + length es ≤ 32
    → length hdr ≡ 4096
    → length (put_targets i es hdr) ≡ 4096
length-put_targets i [] hdr room h = h
length-put_targets i (e ∷ es) hdr room h =
    length-put_targets (suc i) es _ (omega arith)
      (length-set_u32 hdr (16 + i * 4) e.0 (omega arith) ∙ h)

u32_le-put_targets :
    (i : ℕ) (es : List Entry) (hdr : Block) (o : ℕ)
    → i + length es ≤ 32
    → length hdr ≡ 4096
    → o + 4 ≤ 16 + i * 4
    → u32_le (put_targets i es hdr) o ≡ u32_le hdr o
u32_le-put_targets i [] hdr o room h before = refl
u32_le-put_targets i (e ∷ es) hdr o room h before =
    u32_le-put_targets (suc i) es _ o (omega arith)
      (length-set_u32 hdr (16 + i * 4) e.0 (omega arith) ∙ h) (omega arith)
    ∙ u32_le-set_u32_before hdr (16 + i * 4) e.0 (omega arith) o before

put_targets-HasTargets :
    (i : ℕ) (es : List Entry) (hdr : Block)
    → i + length es ≤ 32
    → length hdr ≡ 4096
    → AllTargets es
    → HasTargets i es (put_targets i es hdr)
put_targets-HasTargets i [] hdr room h all = tt
put_targets-HasTargets i (e ∷ es) hdr room h all =
    let len = length-set_u32 hdr (16 + i * 4) e.0 (omega arith) ∙ h in
    (
      u32_le-put_targets (suc i) es _ (16 + i * 4) (omega arith) len (omega arith)
          ∙ u32_le-set_u32_same hdr (16 + i * 4) e.0 (omega arith) (omega arith),
      put_targets-HasTargets (suc i) es _ (omega arith) len all.1,
    )

-- A word before the targets does not touch them.
HasTargets-set_u32 :
    (i : ℕ) (es : List Entry) (hdr : Block) (off v : ℕ)
    → off ≤ 12
    → length hdr ≡ 4096
    → HasTargets i es hdr
    → HasTargets i es (set_u32 hdr off v)
HasTargets-set_u32 i [] hdr off v h len has = tt
HasTargets-set_u32 i (e ∷ es) hdr off v h len has = (
  u32_le-set_u32_after hdr off v (omega arith) (16 + i * 4) (omega arith) ∙ has.0,
  HasTargets-set_u32 (suc i) es hdr off v h len has.1,
)

-- The words of a header for `n` entries.
pub record HasWords (n committed : ℕ) (hdr : Block) : Type 0 where
  pub len : length hdr ≡ 4096
  pub magic : u32_le hdr 0 ≡ journal_magic
  pub count : u32_le hdr 4 ≡ n
  pub marker : u32_le hdr 8 ≡ committed
  pub crc : u32_le hdr 12 ≡ header_crc journal_magic n committed

-- The marker and the checksum, written into a header that has the first two words.
mark-HasWords :
    (n c : ℕ) (hdr : Block)
    → c < 2 ^ 32
    → length hdr ≡ 4096
    → u32_le hdr 0 ≡ journal_magic
    → u32_le hdr 4 ≡ n
    → HasWords n c (set_u32 (set_u32 hdr 8 c) 12 (header_crc journal_magic n c))
mark-HasWords n c hdr small len magic count =
    let len₁ = length-set_u32 hdr 8 c (omega arith) ∙ len in
    let fits : 12 + 4 ≤ length (set_u32 hdr 8 c) = omega arith in
    let keep = λ (o : ℕ) (h : o + 4 ≤ 12).
      u32_le-set_u32_before (set_u32 hdr 8 c) 12 (header_crc journal_magic n c) fits o h in
    let old = λ (o : ℕ) (h : o + 4 ≤ 8). u32_le-set_u32_before hdr 8 c (omega arith) o h in
    record {
      len = length-set_u32 (set_u32 hdr 8 c) 12 (header_crc journal_magic n c) fits ∙ len₁;
      magic = keep 0 (omega arith) ∙ old 0 (omega arith) ∙ magic;
      count = keep 4 (omega arith) ∙ old 4 (omega arith) ∙ count;
      marker = keep 8 (omega arith) ∙ u32_le-set_u32_same hdr 8 c (omega arith) small;
      crc =
          u32_le-set_u32_same (set_u32 hdr 8 c) 12 (header_crc journal_magic n c) fits
            (header_crc-lt journal_magic n c);
    }

put_targets-HasWords :
    {n c : ℕ} (i : ℕ) (es : List Entry) (hdr : Block)
    → i + length es ≤ 32
    → HasWords n c hdr
    → HasWords n c (put_targets i es hdr)
put_targets-HasWords i es hdr room w =
    let keep = λ (o : ℕ) (h : o + 4 ≤ 16 + i * 4). u32_le-put_targets i es hdr o room w.len h in
    record {
      len = length-put_targets i es hdr room w.len;
      magic = keep 0 (omega arith) ∙ w.magic;
      count = keep 4 (omega arith) ∙ w.count;
      marker = keep 8 (omega arith) ∙ w.marker;
      crc = keep 12 (omega arith) ∙ w.crc;
    }

-- The header of a transaction before its targets are written.
abbrev header_words : ℕ → Block
header_words n =
    set_u32 (set_u32 (set_u32 (set_u32 zeros 0 journal_magic) 4 n) 8 0) 12
      (header_crc journal_magic n 0)

header_words-HasWords : (n : ℕ) → n ≤ 32 → HasWords n 0 (header_words n)
header_words-HasWords n small =
    let m = set_u32 zeros 0 journal_magic in
    let len₁ : length m ≡ 4096 =
      length-set_u32 zeros 0 journal_magic (omega (arith, length-zeros)) ∙ length-zeros in
    mark-HasWords n 0 (set_u32 m 4 n) (omega arith) (length-set_u32 m 4 n (omega arith) ∙ len₁)
      (u32_le-set_u32_before m 4 n (omega arith) 0 (omega arith)
        ∙ u32_le-set_u32_same zeros 0 journal_magic (omega (arith, length-zeros)) (omega arith))
      (u32_le-set_u32_same m 4 n (omega arith) (omega arith))

module _ (es : List Entry) (room : length es ≤ 32) where
  pub prepared_header-HasWords : HasWords (length es) 0 (prepared_header es)
  unfolding prepared_header
  prepared_header-HasWords =
      put_targets-HasWords 0 es _ (omega arith) (header_words-HasWords (length es) room)

  pub committed_header-HasWords : HasWords (length es) 1 (committed_header es)
  unfolding committed_header
  committed_header-HasWords =
      let w = prepared_header-HasWords in
      mark-HasWords (length es) 1 (prepared_header es) (omega arith) w.len w.magic w.count

  pub committed_header-HasTargets : AllTargets es → HasTargets 0 es (committed_header es)
  unfolding committed_header prepared_header
  committed_header-HasTargets all =
      let w = prepared_header-HasWords in
      let hdr = prepared_header es in
      HasTargets-set_u32 0 es _ 12 _ (omega arith) (length-set_u32 hdr 8 1 (omega arith) ∙ w.len) (
        HasTargets-set_u32 0 es hdr 8 1 (omega arith) w.len (
          put_targets-HasTargets 0 es _ (omega arith) (header_words-HasWords (length es) room).len
            all))

pub HasWords-committed :
    {n : ℕ} {hdr : Block} → HasWords n 1 hdr → 1 ≤ n → n ≤ 32 → is_committed hdr ≡ true
unfolding is_committed
HasWords-committed {n} {hdr} w pos small = rw (w.magic, w.count, w.marker, w.crc) (ground arith)

not_committed : (hdr : Block) → u32_le hdr 8 ≡ 0 → is_committed hdr ≡ false
unfolding is_committed
not_committed hdr e = ground arith

pub prepared_header-idle :
    (es : List Entry) → length es ≤ 32 → is_committed (prepared_header es) ≡ false
prepared_header-idle es room = not_committed _ (prepared_header-HasWords es room).marker

zeros_word : u32_le zeros 8 ≡ 0
unfolding u32_le slice from_le_bytes
zeros_word = refl

pub clear_header-idle : is_committed clear_header ≡ false
unfolding clear_header
clear_header-idle = not_committed _ (
    u32_le-set_u32_after zeros 0 journal_magic (omega (arith, length-zeros)) 8 (omega arith)
    ∙ zeros_word)
