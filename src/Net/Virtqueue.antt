-- ===== src/Net/Virtqueue.antt =====
-- src/net/virtqueue.rs: the queue of buffers shared with a device. The page is modelled by its fields:
-- the descriptor table, the rings and their indices. `free_list` has the end of the vector first.
pub mod Counts
pub mod Chains
pub mod Flight
pub mod Used
pub mod Steps
pub mod Layout
mod Tests
use openv.Common.{
  ℕ, zero, suc, ◌+◌, ◌-◌, ◌*◌, ◌%◌, ◌^◌, ◌<◌, bit_and, bit_or, Bool, true, false, Option, none,
  some, List, [], ◌∷◌, ◌++◌, length, ◌==◌, ltb, if◌then◌else◌,
}

abbrev pub desc_next : ℕ
desc_next = 1

abbrev pub desc_write : ℕ
desc_write = 2

pub record Descriptor : Type 0 where
  pub addr : ℕ
  pub len : ℕ
  pub flags : ℕ
  pub next : ℕ

pub record UsedElem : Type 0 where
  pub id : ℕ
  pub len : ℕ

-- `(physical_address, length, write)`
pub record Buffer : Type 0 where
  pub pa : ℕ
  pub len : ℕ
  pub write : Bool

abbrev pub Descriptors : Type 0
Descriptors = ℕ → Descriptor

pub record VirtQueue : Type 0 where
  pub size : ℕ
  pub desc : Descriptors
  pub avail_idx : ℕ
  pub avail_ring : ℕ → ℕ
  pub used_idx : ℕ
  pub used_ring : ℕ → UsedElem
  pub free_list : List ℕ
  pub last_used_idx : ℕ

-- The ids of `0..n`, the last first.
abbrev pub ids_below : ℕ → List ℕ
ids_below zero = []
ids_below (suc n) = n ∷ ids_below n

-- `VirtQueue::new`, on a page with contents of its own.
unfoldable pub new : Descriptors → ℕ → (ℕ → ℕ) → ℕ → (ℕ → UsedElem) → ℕ → VirtQueue
new desc avail_idx avail_ring used_idx used_ring size = record {
  size = size;
  desc = desc;
  avail_idx = avail_idx;
  avail_ring = avail_ring;
  used_idx = used_idx;
  used_ring = used_ring;
  free_list = ids_below (size % 2 ^ 16);
  last_used_idx = 0;
}

-- `ids.push(free.pop().unwrap_or(0))`, so many times: the ids and the rest of the list.
abbrev pub pop_ids : ℕ → List ℕ → List ℕ × List ℕ
pop_ids zero free = ([], free)
pop_ids (suc n) [] = let (ids, rest) = pop_ids n [] in (0 ∷ ids, rest)
pop_ids (suc n) (x ∷ free) = let (ids, rest) = pop_ids n free in (x ∷ ids, rest)

-- The descriptor of a buffer, given the ids after its own, as many as there are buffers after it.
abbrev pub descriptor_of : Buffer → List ℕ → Descriptor
descriptor_of b [] = record {
  addr = b.pa;
  len = b.len;
  flags = if b.write then desc_write else 0;
  next = 0;
}
descriptor_of b (id ∷ ids) = record {
  addr = b.pa;
  len = b.len;
  flags = bit_or (if b.write then desc_write else 0) desc_next;
  next = id;
}

abbrev pub put {ℓ} : {A : Type ℓ} → (ℕ → A) → ℕ → A → ℕ → A
put f i a j = if j == i then a else f j

abbrev pub populate : Descriptors → List ℕ → List Buffer → Descriptors
populate desc [] buffers = desc
populate desc (id ∷ ids) [] = desc
populate desc (id ∷ ids) (b ∷ buffers) = populate (put desc id (descriptor_of b ids)) ids buffers

pub data Enqueued : Type 0 where
  queued : ℕ → VirtQueue → Enqueued
  full : Enqueued
  panics : Enqueued

-- Puts the head into the available ring. A size of 0 is a division by zero.
abbrev pub publish : VirtQueue → ℕ → Enqueued
publish q head =
    if q.size == 0
    then panics
    else queued head (record q {
      avail_ring = put q.avail_ring (q.avail_idx % q.size) head;
      avail_idx = (q.avail_idx + 1) % 2 ^ 16;
    })

-- With the ids popped. `ids[0]` panics when there are no buffers.
abbrev pub enqueue_ids : List ℕ → List ℕ → List Buffer → VirtQueue → Enqueued
enqueue_ids [] rest buffers q = panics
enqueue_ids (head ∷ tail) rest buffers q =
    publish (record q { free_list = rest; desc = populate q.desc (head ∷ tail) buffers }) head

unfoldable pub enqueue_chain : List Buffer → VirtQueue → Enqueued
enqueue_chain buffers q =
    if ltb (length q.free_list) (length buffers)
    then full
    else enqueue_ids (pop_ids (length buffers) q.free_list).0
        (pop_ids (length buffers) q.free_list).1 buffers q

abbrev pub enqueue : Buffer → VirtQueue → Enqueued
enqueue b q = enqueue_chain (b ∷ []) q

abbrev pub has_next : Descriptor → Bool
has_next d = if bit_and d.flags desc_next == 0 then false else true

-- `read_chain`. The fuel bounds the loop, which does not end on a chain with a cycle.
unfoldable pub read_chain : ℕ → Descriptors → ℕ → Option (List (ℕ × ℕ))
read_chain zero desc cur = none
read_chain (suc fuel) desc cur =
    let rest = read_chain fuel desc (desc cur).next in
    if has_next (desc cur)
    then elim rest [ none ↦ none | some out ↦ some (((desc cur).addr, (desc cur).len) ∷ out) ]
    else some (((desc cur).addr, (desc cur).len) ∷ [])

-- The walk of `free_chain`.
unfoldable pub chain_ids : ℕ → Descriptors → ℕ → Option (List ℕ)
chain_ids zero desc cur = none
chain_ids (suc fuel) desc cur =
    let rest = chain_ids fuel desc (desc cur).next in
    if has_next (desc cur)
    then elim rest [ none ↦ none | some freed ↦ some (cur ∷ freed) ]
    else some (cur ∷ [])

abbrev pub push_ids : List ℕ → List ℕ → List ℕ
push_ids [] free = free
push_ids (id ∷ ids) free = push_ids ids (id ∷ free)

unfoldable pub free_chain : ℕ → ℕ → VirtQueue → Option (List ℕ × VirtQueue)
free_chain fuel start q = elim (chain_ids fuel q.desc start) [
  | none ↦ none
  | some freed ↦ some (freed, record q { free_list = push_ids freed q.free_list })
]

-- `(ue.id as u16, ue.len)` at the position of the last used index. The remainder by a size of 0 panics,
-- which is `none`.
unfoldable pub completion : VirtQueue → Option (ℕ × ℕ)
completion q =
    if q.size == 0
    then none
    else some (
      (q.used_ring (q.last_used_idx % q.size)).id % 2 ^ 16,
      (q.used_ring (q.last_used_idx % q.size)).len,
    )

abbrev pub advance : VirtQueue → VirtQueue
advance q = record q { last_used_idx = (q.last_used_idx + 1) % 2 ^ 32 }

-- The outer `none` is the panic, the inner one an empty ring.
unfoldable pub pop_one_used : VirtQueue → Option (Option ((ℕ × ℕ) × VirtQueue))
pop_one_used q =
    if q.last_used_idx % 2 ^ 16 == q.used_idx
    then some none
    else elim (completion q) [ none ↦ none | some e ↦ some (some (e, advance q)) ]

-- The loop, `none` when it panics or the fuel does not last.
unfoldable pub pop_used : ℕ → VirtQueue → Option (List (ℕ × ℕ) × VirtQueue)
pop_used zero q = none
pop_used (suc fuel) q =
    let rest = pop_used fuel (advance q) in
    if q.last_used_idx % 2 ^ 16 == q.used_idx then some ([], q) else elim (completion q) [
      | none ↦ none
      | some e ↦ elim rest [ none ↦ none | some (out, q') ↦ some (e ∷ out, q') ]
    ]

-- Where `VirtQueue::new` puts the available ring's header, its elements, the used ring's header and its
-- elements in the page, and where they end.
unfoldable pub avail_offset : ℕ → ℕ
avail_offset size = (size * 16 + 1) - (size * 16 + 1) % 2

unfoldable pub used_offset : ℕ → ℕ
used_offset size =
    let unaligned : ℕ = avail_offset size + 2 * 2 + size * 2 in
    (unaligned + 3) - (unaligned + 3) % 4

abbrev pub used_ring_offset : ℕ → ℕ
used_ring_offset size = used_offset size + 4
