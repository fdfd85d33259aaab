-- ===== src/Net/Virtqueue/Counts.antt =====
-- How often an id is in a list of ids.
use openv.Common.{
  ℕ, zero, suc, ◌+◌, ◌≤◌, ◌≡◌, refl, ap, List, [], ◌∷◌, ◌++◌, length, ◌==◌, arith, if◌then◌else◌,
  ltb,
}
use openv.Net.Virtqueue.{ids_below, pop_ids, push_ids}

abbrev pub count : ℕ → List ℕ → ℕ
count i [] = 0
count i (x ∷ xs) = (if i == x then 1 else 0) + count i xs

pub count-append : (i : ℕ) (xs ys : List ℕ) → count i (xs ++ ys) ≡ count i xs + count i ys
count-append i [] ys = omega arith
count-append i (x ∷ xs) ys = omega (arith, count-append i xs ys)

pub count-push_ids : (i : ℕ) (xs ys : List ℕ) → count i (push_ids xs ys) ≡ count i xs + count i ys
count-push_ids i [] ys = omega arith
count-push_ids i (x ∷ xs) ys = omega (arith, count-push_ids i xs (x ∷ ys))

pub length-push_ids : (xs ys : List ℕ) → length (push_ids xs ys) ≡ length xs + length ys
length-push_ids [] ys = omega arith
length-push_ids (x ∷ xs) ys = omega (arith, length-push_ids xs (x ∷ ys))

-- The new free list has each id below the size once.
pub count-ids_below : (i n : ℕ) → count i (ids_below n) ≡ (if ltb i n then 1 else 0)
count-ids_below i zero = ground arith
count-ids_below i (suc n) = ground (arith, count-ids_below i n)

pub length-ids_below : (n : ℕ) → length (ids_below n) ≡ n
length-ids_below zero = refl
length-ids_below (suc n) = ap suc (length-ids_below n)

-- With enough ids, what is popped and what stays is the list.
pub pop_ids-append :
    (n : ℕ) (xs : List ℕ)
    → n ≤ length xs
    → ((pop_ids n xs).0 ++ (pop_ids n xs).1 ≡ xs) × (length (pop_ids n xs).0 ≡ n)
pop_ids-append zero xs h = (refl, refl)
pop_ids-append (suc n) [] h = absurd (omega arith)
pop_ids-append (suc n) (x ∷ xs) h =
    let (all, len) = pop_ids-append n xs (omega arith) in (ap (λ l. x ∷ l) all, ap suc len)
