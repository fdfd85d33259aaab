-- ===== src/Mm/Swap/Accounts.antt =====
-- The counters of the swap map agree with the map.
use openv.Common.{
  ℕ, ◌+◌, ◌^◌, ◌<◌, ◌≡◌, refl, sym, ap, ◌∙◌, true, none, some, List, [], ◌∷◌, ◌==◌, if◌then◌else◌,
  length, arith, Bool-cases, inl, inr,
}
use openv.Mm.Swap.Table.{
  SwappedPage, Slot, Swap, fetch_add, fetch_sub, is_slot, find_slot, remove_slot, insert_slot,
  slots_of, retain_others, sum_bytes, evict_all,
}

-- The counters hold the number of the swapped pages and the sum of their compressed sizes, without
-- having wrapped round.
pub record IsAccounted (s : Swap) : Type 0 where
  pub pages : s.total_pages ≡ length s.map
  pub bytes : s.total_bytes ≡ sum_bytes s.map
  pub pages_small : length s.map < 2 ^ 64
  pub bytes_small : sum_bytes s.map < 2 ^ 64

fetch_sub_exact : (a b c : ℕ) → a ≡ b + c → a < 2 ^ 64 → fetch_sub a b ≡ c
unfolding fetch_sub
fetch_sub_exact a b c e small = omega arith

length-split :
    (root_pa : ℕ) (ss : List Slot)
    → length ss ≡ length (slots_of root_pa ss) + length (retain_others root_pa ss)
unfolding slots_of retain_others
length-split root_pa [] = refl
length-split root_pa (s ∷ ss) = elim (Bool-cases (s.root_pa == root_pa)) [
  | inl e ↦ rw e (omega (arith, length-split root_pa ss))
  | inr e ↦ rw e (omega (arith, length-split root_pa ss))
]

sum_bytes-split :
    (root_pa : ℕ) (ss : List Slot)
    → sum_bytes ss ≡ sum_bytes (slots_of root_pa ss) + sum_bytes (retain_others root_pa ss)
unfolding slots_of retain_others sum_bytes
sum_bytes-split root_pa [] = refl
sum_bytes-split root_pa (s ∷ ss) = elim (Bool-cases (s.root_pa == root_pa)) [
  | inl e ↦ rw e (omega (arith, sum_bytes-split root_pa ss))
  | inr e ↦ rw e (omega (arith, sum_bytes-split root_pa ss))
]

find_slot-retain_others :
    (root_pa root va : ℕ) (ss : List Slot)
    → find_slot root va (retain_others root_pa ss)
      ≡ (if root == root_pa then none else find_slot root va ss)
unfolding find_slot retain_others
find_slot-retain_others root_pa root va [] = ground arith
find_slot-retain_others root_pa root va (s ∷ ss) =
    ground (arith, find_slot-retain_others root_pa root va ss)

evict_all-IsAccounted : (root_pa : ℕ) (s : Swap) → IsAccounted s → IsAccounted (evict_all root_pa s)
unfolding evict_all
evict_all-IsAccounted root_pa s a = record {
  pages =
      fetch_sub_exact s.total_pages _ _ (a.pages ∙ length-split root_pa s.map)
        (omega (arith, a.pages, a.pages_small));
  bytes =
      fetch_sub_exact s.total_bytes _ _ (a.bytes ∙ sum_bytes-split root_pa s.map)
        (omega (arith, a.bytes, a.bytes_small));
  pages_small = omega (arith, length-split root_pa s.map, a.pages_small);
  bytes_small = omega (arith, sum_bytes-split root_pa s.map, a.bytes_small);
}

-- `evict_all` removes every page of the root, keeps the pages of every other root, and keeps the
-- counters in agreement with the map.
pub evict_all_lem :
    (root_pa : ℕ) (s : Swap)
    → IsAccounted s
    → IsAccounted (evict_all root_pa s)
      × ((root va : ℕ)
          → find_slot root va (evict_all root_pa s).map
            ≡ (if root == root_pa then none else find_slot root va s.map))
unfolding evict_all
evict_all_lem root_pa s a =
    (evict_all-IsAccounted root_pa s a, λ root va. find_slot-retain_others root_pa root va s.map)

pub fetch_sub-fetch_add : (a b : ℕ) → a < 2 ^ 64 → fetch_sub (fetch_add a b) b ≡ a
unfolding fetch_sub fetch_add
fetch_sub-fetch_add a b small = omega arith

is_slot_self :
    (root va : ℕ) (page : SwappedPage)
    → is_slot root va (record { root_pa = root; page_va = va; page = page }) ≡ true
is_slot_self root va page = ground arith

pub find_slot-insert_slot :
    (root va : ℕ) (page : SwappedPage) (ss : List Slot)
    → find_slot root va (insert_slot root va page ss) ≡ some page
unfolding find_slot
find_slot-insert_slot root va page ss = rw (is_slot_self root va page) refl

remove_slot-absent :
    (root va : ℕ) (ss : List Slot) → find_slot root va ss ≡ none → remove_slot root va ss ≡ ss
unfolding find_slot remove_slot
remove_slot-absent root va [] e = refl
remove_slot-absent root va (s ∷ ss) e = elim (Bool-cases (is_slot root va s)) [
  | inl t ↦ absurd (ground (arith, t))
  | inr f ↦ rw f (
      ap (λ l. s ∷ l)
        (remove_slot-absent root va ss
          (sym (ap (λ c. if c then some s.page else find_slot root va ss) f) ∙ e)))
]

pub remove_slot-insert_slot :
    (root va : ℕ) (page : SwappedPage) (ss : List Slot)
    → find_slot root va ss ≡ none
    → remove_slot root va (insert_slot root va page ss) ≡ ss
unfolding remove_slot
remove_slot-insert_slot root va page ss absent = rw (is_slot_self root va page) (
    ap (remove_slot root va) (remove_slot-absent root va ss absent)
    ∙ remove_slot-absent root va ss absent)

pub find_slot-remove_slot :
    (root va : ℕ) (ss : List Slot) → find_slot root va (remove_slot root va ss) ≡ none
unfolding find_slot remove_slot
find_slot-remove_slot root va [] = refl
find_slot-remove_slot root va (s ∷ ss) = elim (Bool-cases (is_slot root va s)) [
  | inl t ↦ rw t (find_slot-remove_slot root va ss)
  | inr f ↦ rw f (rw f (find_slot-remove_slot root va ss))
]
