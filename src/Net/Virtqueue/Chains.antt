-- ===== src/Net/Virtqueue/Chains.antt =====
-- The chain of descriptors that a list of buffers becomes, and the loops over it.
use openv.Common.{
  ℕ, zero, suc, ◌≤◌, ◌<◌, ◌≡◌, refl, ap, ◌∙◌, bit_and, bit_or, Bool, true, false, some, List, [],
  ◌∷◌, map, length, ◌==◌, ==_refl, arith, if◌then◌else◌,
}
use openv.Net.Virtqueue.{
  Buffer, Descriptors, descriptor_of, desc_write, desc_next, put, populate, has_next, read_chain,
  chain_ids,
}
use openv.Net.Virtqueue.Counts.{count}

-- The descriptors with these ids are the chain of these buffers.
abbrev pub IsChain : Descriptors → List ℕ → List Buffer → Type 0
IsChain desc [] [] = Unit {0}
IsChain desc [] (b ∷ bs) = ⊥
IsChain desc (i ∷ is) [] = ⊥
IsChain desc (i ∷ is) (b ∷ bs) = (desc i ≡ descriptor_of b is) × IsChain desc is bs

pub IsChain-same :
    (desc desc' : Descriptors) (ids : List ℕ) (bs : List Buffer)
    → ((i : ℕ) → 0 < count i ids → desc' i ≡ desc i)
    → IsChain desc ids bs
    → IsChain desc' ids bs
IsChain-same desc desc' [] [] same c = tt
IsChain-same desc desc' [] (b ∷ bs) same c = c
IsChain-same desc desc' (i ∷ is) [] same c = c
IsChain-same desc desc' (i ∷ is) (b ∷ bs) same c =
    (same i (ground arith) ∙ c.0, IsChain-same desc desc' is bs (λ j h. same j (omega arith)) c.1)

-- Only the descriptors with the ids are written.
pub populate-other :
    (desc : Descriptors) (ids : List ℕ) (bs : List Buffer) (j : ℕ)
    → count j ids ≡ 0
    → populate desc ids bs j ≡ desc j
populate-other desc [] bs j h = refl
populate-other desc (i ∷ is) [] j h = refl
populate-other desc (i ∷ is) (b ∷ bs) j h =
    populate-other (put desc i (descriptor_of b is)) is bs j (omega arith) ∙ ground arith

pub populate-IsChain :
    (desc : Descriptors) (ids : List ℕ) (bs : List Buffer)
    → length ids ≡ length bs
    → ((i : ℕ) → count i ids ≤ 1)
    → IsChain (populate desc ids bs) ids bs
populate-IsChain desc [] [] len once = tt
populate-IsChain desc [] (b ∷ bs) len once = omega arith
populate-IsChain desc (i ∷ is) [] len once = omega arith
populate-IsChain desc (i ∷ is) (b ∷ bs) len once =
    let away : count i is ≡ 0 = ground (arith, once i) in
    (
      populate-other (put desc i (descriptor_of b is)) is bs i away ∙ rw (==_refl i) refl,
      populate-IsChain (put desc i (descriptor_of b is)) is bs (omega arith)
          (λ j. omega (arith, once j)),
    )

-- The flag that says whether the chain goes on.
has_next-last : (b : Buffer) → has_next (descriptor_of b []) ≡ false
has_next-last b = flag b.write
  where
    flag :
        (w : Bool)
        → (if bit_and (if w then desc_write else 0) desc_next == 0 then false else true) ≡ false
    flag true = refl
    flag false = refl

has_next-inner : (b : Buffer) (i : ℕ) (is : List ℕ) → has_next (descriptor_of b (i ∷ is)) ≡ true
has_next-inner b i is = flag b.write
  where
    flag :
        (w : Bool)
        → (if bit_and (bit_or (if w then desc_write else 0) desc_next) desc_next == 0
            then false
            else true)
          ≡ true
    flag true = refl
    flag false = refl

abbrev pub span : Buffer → ℕ × ℕ
span b = (b.pa, b.len)

-- With as much fuel as there are buffers, the loop ends and gives them back.
pub read_chain-IsChain :
    (fuel : ℕ) (desc : Descriptors) (i : ℕ) (is : List ℕ) (bs : List Buffer)
    → IsChain desc (i ∷ is) bs
    → length (i ∷ is) ≤ fuel
    → read_chain fuel desc i ≡ some (map span bs)
unfolding read_chain
read_chain-IsChain fuel desc i is [] c enough = absurd c
read_chain-IsChain zero desc i is (b ∷ bs) c enough = absurd (omega arith)
read_chain-IsChain (suc fuel) desc i [] (b ∷ []) c enough = rw (c.0, has_next-last b) refl
read_chain-IsChain (suc fuel) desc i [] (b ∷ b' ∷ bs) c enough = absurd c.1
read_chain-IsChain (suc fuel) desc i (j ∷ js) (b ∷ bs) c enough =
    rw (c.0, has_next-inner b j js, read_chain-IsChain fuel desc j js bs c.1 (omega arith))
      (ap (λ d. some ((d.addr, d.len) ∷ map span bs)) c.0)

pub chain_ids-IsChain :
    (fuel : ℕ) (desc : Descriptors) (i : ℕ) (is : List ℕ) (bs : List Buffer)
    → IsChain desc (i ∷ is) bs
    → length (i ∷ is) ≤ fuel
    → chain_ids fuel desc i ≡ some (i ∷ is)
unfolding chain_ids
chain_ids-IsChain fuel desc i is [] c enough = absurd c
chain_ids-IsChain zero desc i is (b ∷ bs) c enough = absurd (omega arith)
chain_ids-IsChain (suc fuel) desc i [] (b ∷ bs) c enough = rw (c.0, has_next-last b) refl
chain_ids-IsChain (suc fuel) desc i (j ∷ js) (b ∷ bs) c enough =
    rw (c.0, has_next-inner b j js, chain_ids-IsChain fuel desc j js bs c.1 (omega arith)) refl
