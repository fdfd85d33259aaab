-- ===== src/Mm/Pmm/Chain.antt =====
-- The free list as a linked list in memory.
use openv.Common.{ℕ, ◌≡◌, ◌≢◌, List, [], ◌∷◌}
use openv.Mm.Pmm.{Memory}

-- The pages of a free list that starts at `head`.
abbrev pub Chain : Memory → ℕ → List ℕ → Type 0
Chain mem head [] = head ≡ 0
Chain mem head (x ∷ xs) = (head ≡ x) × (x ≢ 0) × Chain mem (mem x 0) xs

abbrev pub All {κ} : (ℕ → Type κ) → List ℕ → Type κ
All P [] = Unit
All P (x ∷ xs) = P x × All P xs

abbrev pub Apart : ℕ → List ℕ → Type 0
Apart x = All (λ y. x ≢ y)

abbrev pub Distinct : List ℕ → Type 0
Distinct [] = Unit {0}
Distinct (x ∷ xs) = Apart x xs × Distinct xs

-- Memory that agrees on the pages of a chain has the same chain.
pub Chain-frame :
    (mem mem' : Memory) (x head : ℕ) (xs : List ℕ)
    → Apart x xs
    → ((a : ℕ) → x ≢ a → mem' a 0 ≡ mem a 0)
    → Chain mem head xs
    → Chain mem' head xs
Chain-frame mem mem' x head [] d same c = c
Chain-frame mem mem' x head (y ∷ ys) d same c =
    (c.0, c.1, rw (same y d.0) (Chain-frame mem mem' x (mem y 0) ys d.1 same c.2))
