-- ===== src/Proto/Fields.antt =====
-- Integers of fixed width that are written one behind the other into a buffer, and read back.
use openv.Common.{
  ℕ, ◌+◌, ◌-◌, ◌≤◌, ◌<◌, ◌^◌, ◌≡◌, refl, sym, ap, ap₂, ◌∙◌, List, [], ◌∷◌, ◌++◌, arith, length,
  drop, take, take-append, take-append-drop, length-take, length-append, drop-append_ge, drop_eq,
}
use mathlib.Core.List.{append_assoc}
use openv.Common.Bytes.{slice, write_at, write_at_next}
use openv.Common.Words.{to_le_bytes, from_le_bytes, length-to_le_bytes, from_le_bytes-to_le_bytes}

-- A buffer and the offset at which the next field goes.
abbrev pub Cursor : Type 0
Cursor = List ℕ × ℕ

unfoldable pub put_uint : ℕ → ℕ → Cursor → Cursor
put_uint n v (buf, off) = (write_at buf off (to_le_bytes n v), off + n)

unfoldable pub get_uint : ℕ → List ℕ → ℕ → ℕ
get_uint n buf off = from_le_bytes (slice off n buf)

-- Fields: their widths in bytes and their values.
abbrev pub put_all : List (ℕ × ℕ) → Cursor → Cursor
put_all [] c = c
put_all (f ∷ fs) c = put_all fs (put_uint f.0 f.1 c)

-- The values of fields of the same widths.
abbrev pub get_all : List (ℕ × ℕ) → List ℕ → ℕ → List ℕ
get_all [] buf off = []
get_all (f ∷ fs) buf off = get_uint f.0 buf off ∷ get_all fs buf (off + f.0)

abbrev pub values : List (ℕ × ℕ) → List ℕ
values [] = []
values (f ∷ fs) = f.1 ∷ values fs

-- Every value fits its width.
abbrev pub Fit : List (ℕ × ℕ) → Type 0
Fit [] = Unit {0}
Fit (f ∷ fs) = (f.1 < 256 ^ f.0) × Fit fs

abbrev bytes_of : List (ℕ × ℕ) → List ℕ
bytes_of [] = []
bytes_of (f ∷ fs) = to_le_bytes f.0 f.1 ++ bytes_of fs

length-append_field :
    (pre : List ℕ) (n v off : ℕ) → off ≡ length pre → off + n ≡ length (pre ++ to_le_bytes n v)
length-append_field pre n v off at =
    omega (arith, length-append pre (to_le_bytes n v), length-to_le_bytes n v)

put_all-append :
    (fs : List (ℕ × ℕ)) (pre buf b : List ℕ) (off : ℕ)
    → off ≡ length pre
    → b ≡ pre ++ drop (length pre) buf
    → (rest : List ℕ) × ((put_all fs (b, off)).0 ≡ pre ++ (bytes_of fs ++ rest))
unfolding put_uint
put_all-append [] pre buf b off at e = (drop (length pre) buf, e)
put_all-append (f ∷ fs) pre buf b off at e =
    let bs : List ℕ = to_le_bytes f.0 f.1 in
    let (rest, e') =
      put_all-append fs (pre ++ bs) buf (write_at b off bs) (off + f.0)
        (length-append_field pre f.0 f.1 off at)
        (ap (λ (o : ℕ). write_at b o bs) at ∙ write_at_next pre bs buf b e) in
    (
      rest,
      e'
          ∙ append_assoc pre bs (bytes_of fs ++ rest)
          ∙ ap (λ t. pre ++ t) (sym (append_assoc bs (bytes_of fs) rest)),
    )

get_uint-append :
    (pre rest : List ℕ) (n v off : ℕ)
    → off ≡ length pre
    → v < 256 ^ n
    → get_uint n (pre ++ (to_le_bytes n v ++ rest)) off ≡ v
unfolding get_uint slice
get_uint-append pre rest n v off at small =
    let bs : List ℕ = to_le_bytes n v in
    let tail : drop off (pre ++ (bs ++ rest)) ≡ bs ++ rest =
      drop-append_ge pre (bs ++ rest) off (omega arith)
      ∙ drop_eq (off - length pre) 0 (bs ++ rest) (omega arith) in
    ap (λ t. from_le_bytes (take n t)) tail
    ∙ ap from_le_bytes (take-append bs rest n (sym (length-to_le_bytes n v)))
    ∙ from_le_bytes-to_le_bytes n v small

get_all-append :
    (fs : List (ℕ × ℕ)) (pre rest b : List ℕ) (off : ℕ)
    → off ≡ length pre
    → Fit fs
    → b ≡ pre ++ (bytes_of fs ++ rest)
    → get_all fs b off ≡ values fs
get_all-append [] pre rest b off at fit e = refl
get_all-append (f ∷ fs) pre rest b off at fit e =
    let bs : List ℕ = to_le_bytes f.0 f.1 in
    let e' : b ≡ pre ++ (bs ++ (bytes_of fs ++ rest)) =
      e ∙ ap (λ t. pre ++ t) (append_assoc bs (bytes_of fs) rest) in
    ap₂ (λ x xs. x ∷ xs)
      (ap (λ c. get_uint f.0 c off) e'
        ∙ get_uint-append pre (bytes_of fs ++ rest) f.0 f.1 off at fit.0)
      (get_all-append fs (pre ++ bs) rest b (off + f.0) (length-append_field pre f.0 f.1 off at)
        fit.1 (e' ∙ sym (append_assoc pre bs (bytes_of fs ++ rest))))

-- Fields that fit their widths are read back as they were written.
pub get_all-put_all :
    (fs : List (ℕ × ℕ)) (buf : List ℕ) (off : ℕ)
    → off ≤ length buf
    → Fit fs
    → get_all fs (put_all fs (buf, off)).0 off ≡ values fs
get_all-put_all fs buf off inside fit =
    let len : length (take off buf) ≡ off = omega (arith, length-take off buf) in
    let whole : buf ≡ take off buf ++ drop (length (take off buf)) buf =
      sym (take-append-drop off buf)
      ∙ ap (λ t. take off buf ++ t) (drop_eq off (length (take off buf)) buf (sym len)) in
    let (rest, e) = put_all-append fs (take off buf) buf buf off (sym len) whole in
    get_all-append fs (take off buf) rest _ off (sym len) fit e
