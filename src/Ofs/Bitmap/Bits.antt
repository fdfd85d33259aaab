-- ===== src/Ofs/Bitmap/Bits.antt =====
-- The bits of a byte, by evaluation, and of a buffer.
use openv.Common.{
  ℕ, zero, suc, ◌-◌, ◌/◌, ◌%◌, ◌^◌, ◌<◌, ◌≡◌, ◌≢◌, refl, sym, ap, ap₂, ◌∙◌, bit_and, bit_or, Bool,
  true, false, not, ◌&&◌, ◌||◌, List, [], ◌∷◌, length, ◌==◌, ltb, eq-cases, ==_ne, inl, inr, ltb→lt,
  arith,
}
use openv.Common.Table.{all_below, all_below_sound}
use openv.Common.Bytes.{byte_at}
use openv.Ofs.Device.{Block}
use openv.Ofs.Inode.Ranges.{AllBelow}
use openv.Ofs.Bitmap.{set_byte, bit_at, set_bit, clear_bit}

abbrev same_bool : Bool → Bool → Bool
same_bool true b = b
same_bool false b = not b

same_bool_sound : (a b : Bool) → same_bool a b ≡ true → a ≡ b
same_bool_sound true true h = refl
same_bool_sound true false h = cc
same_bool_sound false true h = cc
same_bool_sound false false h = refl

abbrev byte_bit : ℕ → ℕ → Bool
byte_bit b j = not (bit_and b (2 ^ j) == 0)

-- What setting and clearing bit `k` of a byte does to bit `j`.
abbrev byte_law : ℕ → ℕ → ℕ → Bool
byte_law b k j =
    same_bool (byte_bit (bit_or b (2 ^ k)) j) (k == j || byte_bit b j)
    && same_bool (byte_bit (bit_and b (255 - 2 ^ k)) j) (not (k == j) && byte_bit b j)
    && ltb (bit_or b (2 ^ k)) 256
    && ltb (bit_and b (255 - 2 ^ k)) 256

byte_table : all_below 256 (λ b. all_below 8 (λ k. all_below 8 (byte_law b k))) ≡ true
unfolding all_below
byte_table = refl

byte_law_holds : (b k j : ℕ) → b < 256 → k < 8 → j < 8 → byte_law b k j ≡ true
byte_law_holds b k j hb hk hj =
    all_below_sound 8 (byte_law b k) j
      (all_below_sound 8 (λ (k : ℕ). all_below 8 (byte_law b k)) k
        (all_below_sound 256 (λ (b : ℕ). all_below 8 (λ (k : ℕ). all_below 8 (byte_law b k))) b
          byte_table hb)
        hk)
      hj

and_true : (a b : Bool) → (a && b) ≡ true → (a ≡ true) × (b ≡ true)
and_true true b h = (refl, h)
and_true false b h = cc

module _ (b k j : ℕ) (hb : b < 256) (hk : k < 8) (hj : j < 8) where
  byte_law-set : byte_bit (bit_or b (2 ^ k)) j ≡ (k == j || byte_bit b j)
  byte_law-set =
      same_bool_sound _ _
        (and_true _ _ (and_true _ _ (and_true _ _ (byte_law_holds b k j hb hk hj)).0).0).0

  byte_law-clear : byte_bit (bit_and b (255 - 2 ^ k)) j ≡ (not (k == j) && byte_bit b j)
  byte_law-clear =
      same_bool_sound _ _
        (and_true _ _ (and_true _ _ (and_true _ _ (byte_law_holds b k j hb hk hj)).0).0).1

  byte_law-lt : (bit_or b (2 ^ k) < 256) × (bit_and b (255 - 2 ^ k) < 256)
  byte_law-lt =
      let h = byte_law_holds b k j hb hk hj in
      (ltb→lt _ _ (and_true _ _ (and_true _ _ h).0).1, ltb→lt _ _ (and_true _ _ h).1)

length-set_byte : (bs : List ℕ) (i v : ℕ) → length (set_byte bs i v) ≡ length bs
unfolding set_byte
length-set_byte [] i v = refl
length-set_byte (b ∷ bs) zero v = refl
length-set_byte (b ∷ bs) (suc i) v = ap suc (length-set_byte bs i v)

byte_at-set_byte_same : (bs : List ℕ) (i v : ℕ) → i < length bs → byte_at (set_byte bs i v) i ≡ v
unfolding set_byte
byte_at-set_byte_same [] i v h = absurd (omega arith)
byte_at-set_byte_same (b ∷ bs) zero v h = refl
byte_at-set_byte_same (b ∷ bs) (suc i) v h = byte_at-set_byte_same bs i v (omega arith)

byte_at-set_byte_other :
    (bs : List ℕ) (i j v : ℕ) → i ≢ j → byte_at (set_byte bs i v) j ≡ byte_at bs j
unfolding set_byte
byte_at-set_byte_other [] i j v ne = refl
byte_at-set_byte_other (b ∷ bs) zero zero v ne = absurd (ne refl)
byte_at-set_byte_other (b ∷ bs) zero (suc j) v ne = refl
byte_at-set_byte_other (b ∷ bs) (suc i) zero v ne = refl
byte_at-set_byte_other (b ∷ bs) (suc i) (suc j) v ne =
    byte_at-set_byte_other bs i j v (λ e. ne (ap suc e))

set_byte-AllBelow :
    (bs : List ℕ) (i v : ℕ) → v < 256 → AllBelow 256 bs → AllBelow 256 (set_byte bs i v)
unfolding set_byte
set_byte-AllBelow [] i v h all = tt
set_byte-AllBelow (b ∷ bs) zero v h all = (h, all.1)
set_byte-AllBelow (b ∷ bs) (suc i) v h all = (all.0, set_byte-AllBelow bs i v h all.1)

byte_at-lt : (bs : List ℕ) (i : ℕ) → AllBelow 256 bs → byte_at bs i < 256
byte_at-lt [] i all = omega arith
byte_at-lt (b ∷ bs) zero all = all.0
byte_at-lt (b ∷ bs) (suc i) all = byte_at-lt bs i all.1

-- A block of bytes.
pub record IsBlock (buf : Block) : Type 0 where
  pub len : length buf ≡ 4096
  pub bytes : AllBelow 256 buf

eq_of_parts : (i j : ℕ) → i / 8 ≡ j / 8 → (i == j) ≡ (i % 8 == j % 8)
eq_of_parts i j e = ground arith

module _ (buf : Block) (i : ℕ) (h : IsBlock buf) (small : i < 32768) where
  pub bit_at-set_bit : (j : ℕ) → bit_at (set_bit buf i) j ≡ (i == j || bit_at buf j)
  unfolding bit_at set_bit
  bit_at-set_bit j = elim (eq-cases (i / 8) (j / 8)) [
    | inl e ↦
        ap
          (λ (q : ℕ).
            byte_bit (byte_at (set_byte buf (i / 8) (bit_or (byte_at buf (i / 8)) (2 ^ (i % 8)))) q)
              (j % 8))
          (sym e)
        ∙ ap (λ (b : ℕ). byte_bit b (j % 8))
            (byte_at-set_byte_same buf (i / 8) (bit_or (byte_at buf (i / 8)) (2 ^ (i % 8)))
              (omega (arith, h.len)))
        ∙ byte_law-set (byte_at buf (i / 8)) (i % 8) (j % 8) (byte_at-lt buf (i / 8) h.bytes)
            (omega arith) (omega arith)
        ∙ ap₂ (λ (x y : Bool). x || y) (sym (eq_of_parts i j e))
            (ap (λ (q : ℕ). byte_bit (byte_at buf q) (j % 8)) e)
    | inr ne ↦
        ap (λ (b : ℕ). byte_bit b (j % 8))
          (byte_at-set_byte_other buf (i / 8) (j / 8) (bit_or (byte_at buf (i / 8)) (2 ^ (i % 8)))
            ne)
        ∙ rw (==_ne i j (λ e. ne (ap (λ (x : ℕ). x / 8) e))) refl
  ]

  pub bit_at-clear_bit : (j : ℕ) → bit_at (clear_bit buf i) j ≡ (not (i == j) && bit_at buf j)
  unfolding bit_at clear_bit
  bit_at-clear_bit j = elim (eq-cases (i / 8) (j / 8)) [
    | inl e ↦
        ap
          (λ (q : ℕ).
            byte_bit
              (byte_at (set_byte buf (i / 8) (bit_and (byte_at buf (i / 8)) (255 - 2 ^ (i % 8)))) q)
              (j % 8))
          (sym e)
        ∙ ap (λ (b : ℕ). byte_bit b (j % 8))
            (byte_at-set_byte_same buf (i / 8) (bit_and (byte_at buf (i / 8)) (255 - 2 ^ (i % 8)))
              (omega (arith, h.len)))
        ∙ byte_law-clear (byte_at buf (i / 8)) (i % 8) (j % 8) (byte_at-lt buf (i / 8) h.bytes)
            (omega arith) (omega arith)
        ∙ ap₂ (λ (x y : Bool). not x && y) (sym (eq_of_parts i j e))
            (ap (λ (q : ℕ). byte_bit (byte_at buf q) (j % 8)) e)
    | inr ne ↦
        ap (λ (b : ℕ). byte_bit b (j % 8))
          (byte_at-set_byte_other buf (i / 8) (j / 8)
            (bit_and (byte_at buf (i / 8)) (255 - 2 ^ (i % 8))) ne)
        ∙ rw (==_ne i j (λ e. ne (ap (λ (x : ℕ). x / 8) e))) refl
  ]

  pub set_bit-IsBlock : IsBlock (set_bit buf i)
  unfolding set_bit
  set_bit-IsBlock = record {
    len = length-set_byte buf (i / 8) _ ∙ h.len;
    bytes =
        set_byte-AllBelow buf (i / 8) _
          (byte_law-lt (byte_at buf (i / 8)) (i % 8) 0 (byte_at-lt buf (i / 8) h.bytes)
            (omega arith) (omega arith)).0
          h.bytes;
  }

  pub clear_bit-IsBlock : IsBlock (clear_bit buf i)
  unfolding clear_bit
  clear_bit-IsBlock = record {
    len = length-set_byte buf (i / 8) _ ∙ h.len;
    bytes =
        set_byte-AllBelow buf (i / 8) _
          (byte_law-lt (byte_at buf (i / 8)) (i % 8) 0 (byte_at-lt buf (i / 8) h.bytes)
            (omega arith) (omega arith)).1
          h.bytes;
  }
