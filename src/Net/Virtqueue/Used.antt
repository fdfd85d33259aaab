-- ===== src/Net/Virtqueue/Used.antt =====
-- The loop over the used ring.
use openv.Common.{
  inl, inr, Bool-cases, Option-cases, ◌==◌, ℕ, zero, suc, ◌+◌, ◌-◌, ◌%◌, ◌^◌, ◌<◌, ◌≡◌, refl, ap,
  none, some, List, [], ◌∷◌, length, arith, ==_ne, ==_refl,
}
use openv.Net.Virtqueue.{UsedElem, VirtQueue, completion, advance, pop_used, pop_one_used}

-- How many completions the driver has not seen.
abbrev pub pending : VirtQueue → ℕ
pending q = (q.used_idx + 2 ^ 16 - q.last_used_idx % 2 ^ 16) % 2 ^ 16

-- The completions that the device has left in its ring of `size` elements, from index `i` on, where the
-- ring goes round: the number of the chain, cut to 16 bits, and the bytes written.
abbrev pub AreCompletions : (ℕ → UsedElem) → ℕ → ℕ → List (ℕ × ℕ) → Type 0
AreCompletions ring size i [] = Unit {0}
AreCompletions ring size i ((id, len) ∷ es) =
    (slot : ℕ) × (slot < size)
    × (slot ≡ i % size)
    × (id ≡ (ring slot).id % 2 ^ 16)
    × (len ≡ (ring slot).len)
    × AreCompletions ring size ((i + 1) % 2 ^ 32) es

-- So many completions, one by one with `pop_one_used`.
abbrev pub Pops : VirtQueue → List (ℕ × ℕ) → VirtQueue → Type 0
Pops q [] q' = (pop_one_used q ≡ some none) × (q' ≡ q)
Pops q (e ∷ es) q' = (pop_one_used q ≡ some (some (e, advance q))) × Pops (advance q) es q'

pending-zero :
    (q : VirtQueue) → q.used_idx < 2 ^ 16 → pending q ≡ 0 → q.last_used_idx % 2 ^ 16 ≡ q.used_idx
pending-zero q h e = omega arith

pending-suc :
    (q : VirtQueue) (n : ℕ)
    → q.used_idx < 2 ^ 16
    → pending q ≡ suc n
    → (pending (advance q) ≡ n) × (q.last_used_idx % 2 ^ 16 ≡ q.used_idx → ⊥)
pending-suc q n h e = (omega arith, λ same. absurd (omega arith))

-- The element of the used ring that is next.
abbrev next_elem : VirtQueue → UsedElem
next_elem q = q.used_ring (q.last_used_idx % q.size)

completion-some :
    (q : VirtQueue)
    → 0 < q.size
    → completion q ≡ some ((next_elem q).id % 2 ^ 16, (next_elem q).len)
unfolding completion
completion-some q nz = rw (==_ne q.size 0 (λ e. absurd (omega arith))) refl

-- When the queue has elements, less than 2 to the 16 completions are pending, and one more round of
-- fuel than these lets the loop end without a panic. It gives as many completions as were pending:
-- those of the used ring from the last index that was seen on, going round at the size of the
-- queue, which are those that `pop_one_used` gives one by one until it gives none.
pub pop_used_lem :
    (n fuel : ℕ) (q : VirtQueue)
    → 0 < q.size
    → q.used_idx < 2 ^ 16
    → pending q ≡ n
    → n < fuel
    → (out : List (ℕ × ℕ)) × (q' : VirtQueue) × (pop_used fuel q ≡ some (out, q'))
      × (length out ≡ n)
      × AreCompletions q.used_ring q.size q.last_used_idx out
      × Pops q out q'
unfolding pop_used pop_one_used
pop_used_lem n zero q nz h e lt = absurd (omega arith)
pop_used_lem zero (suc fuel) q nz h e lt =
    let same : q.last_used_idx % 2 ^ 16 ≡ q.used_idx = pending-zero q h e in
    (
      [],
      q,
      rw same (rw (==_refl q.used_idx) refl),
      refl,
      tt,
      (rw same (rw (==_refl q.used_idx) refl), refl),
    )
pop_used_lem (suc n) (suc fuel) q nz h e lt =
    let (fewer, ne) = pending-suc q n h e in
    let (out, q', run, len, all, pops) = pop_used_lem n fuel (advance q) nz h fewer (omega arith) in
    (
      ((next_elem q).id % 2 ^ 16, (next_elem q).len) ∷ out,
      q',
      rw (==_ne (q.last_used_idx % 2 ^ 16) q.used_idx ne, completion-some q nz, run) refl,
      ap suc len,
      (q.last_used_idx % q.size, ground arith, refl, refl, refl, all),
      (rw (==_ne (q.last_used_idx % 2 ^ 16) q.used_idx ne, completion-some q nz) refl, pops),
    )

-- The loop changes the driver's index alone.
abbrev pub seen_up_to : VirtQueue → ℕ → VirtQueue
seen_up_to q i = record q { last_used_idx = i }

pub pop_used-only :
    (fuel : ℕ) (q q' : VirtQueue) (out : List (ℕ × ℕ))
    → pop_used fuel q ≡ some (out, q')
    → (i : ℕ) × (q' ≡ seen_up_to q i)
unfolding pop_used
pop_used-only zero q q' out h = absurd cc
pop_used-only (suc fuel) q q' out h = elim (Bool-cases (q.last_used_idx % 2 ^ 16 == q.used_idx)) [
  | inl e ↦ (q.last_used_idx, ground (arith, e))
  | inr e ↦ elim (Option-cases (completion q)) [
    | inl bad ↦ absurd (ground (arith, e, bad))
    | inr (c, good) ↦ elim (Option-cases (pop_used fuel (advance q))) [
      | inl stuck ↦ absurd (ground (arith, e, good, stuck))
      | inr ((rest, q''), run) ↦
          let (i, only) = pop_used-only fuel (advance q) q'' rest run in
          (i, ground (arith, e, good, run, only))
    ]
  ]
]
