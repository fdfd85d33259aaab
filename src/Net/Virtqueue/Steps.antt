-- ===== src/Net/Virtqueue/Steps.antt =====
-- Any sequence of chains enqueued, completions read, and chains freed.
use openv.Common.{
  ℕ, ◌%◌, ◌^◌, ◌≤◌, ◌<◌, ◌≡◌, ap, sym, subst, ◌∙◌, some, List, [], ◌∷◌, ◌++◌, drop, length, ltb,
  arith, if◌then◌else◌, Option,
}
use openv.Net.Virtqueue.{
  Buffer, Descriptors, UsedElem, VirtQueue, queued, new, pop_ids, enqueue_chain, free_chain,
  pop_used,
}
use openv.Net.Virtqueue.Counts.{count-ids_below, length-ids_below}
use openv.Net.Virtqueue.Flight.{Chain, IsQueue, enqueue_chain_lem, Holds, in_flight-Holds, ids_of}
use openv.Net.Virtqueue.Used.{pop_used-only}

-- The chain that `enqueue_chain` makes of some buffers.
abbrev pub chain_of : VirtQueue → List Buffer → ℕ → Chain
chain_of q buffers head = record {
  head = head;
  tail = drop 1 (pop_ids (length buffers) q.free_list).0;
  buffers = buffers;
}

pub data Step : VirtQueue → List Chain → VirtQueue → List Chain → Type 0 where
  enqueues :
      (q q' : VirtQueue) (flight : List Chain) (b : Buffer) (bs : List Buffer) (head : ℕ)
      → enqueue_chain (b ∷ bs) q ≡ queued head q'
      → Step q flight q' (chain_of q (b ∷ bs) head ∷ flight)
  uses :
      (q : VirtQueue) (flight : List Chain) (used_idx : ℕ) (used_ring : ℕ → UsedElem)
      → used_idx < 2 ^ 16
      → Step q flight (record q { used_idx = used_idx; used_ring = used_ring }) flight
  collects :
      (q q' : VirtQueue) (flight : List Chain) (out : List (ℕ × ℕ))
      → q.used_idx < 2 ^ 16
      → pop_used (2 ^ 16) q ≡ some (out, q')
      → Step q flight q' flight
  frees :
      (q q' : VirtQueue) (before after : List Chain) (c : Chain) (freed : List ℕ)
      → free_chain q.size c.head q ≡ some (freed, q')
      → Step q (before ++ (c ∷ after)) q' (before ++ after)

pub data Steps : VirtQueue → List Chain → VirtQueue → List Chain → Type 0 where
  done : (q : VirtQueue) (flight : List Chain) → Steps q flight q flight
  and_then :
      (q q₁ q' : VirtQueue) (flight flight₁ flight' : List Chain)
      → Step q flight q₁ flight₁
      → Steps q₁ flight₁ q' flight'
      → Steps q flight q' flight'

queued_parts : (h h' : ℕ) (q q' : VirtQueue) → queued h q ≡ queued h' q' → (h ≡ h') × (q ≡ q')
queued_parts h h' q q' e = (cc, cc)

some_queue :
    {A : Type 0} (a a' : A) (q q' : VirtQueue)
    → ◌≡◌ {A = Option (A × VirtQueue)} (some (a, q)) (some (a', q'))
    → q ≡ q'
some_queue a a' q q' e = cc

-- A call that succeeds had as many free descriptors as buffers.
queued-fits :
    (q q' : VirtQueue) (bs : List Buffer) (head : ℕ)
    → enqueue_chain bs q ≡ queued head q'
    → length bs ≤ length q.free_list
unfolding enqueue_chain
queued-fits q q' bs head e = ground arith

-- A step that reads completions, or the device makes, keeps the chains.
other_fields-IsQueue :
    (q : VirtQueue) (flight : List Chain) (used_idx : ℕ) (used_ring : ℕ → UsedElem) (last : ℕ)
    → IsQueue q flight
    → IsQueue (record q { used_idx = used_idx; used_ring = used_ring; last_used_idx = last }) flight
other_fields-IsQueue q flight used_idx used_ring last v = record {
  positive = v.positive;
  once = v.once;
  total = v.total;
  chains = v.chains;
}

enqueues-IsQueue :
    (q q' : VirtQueue) (flight : List Chain) (b : Buffer) (bs : List Buffer) (head : ℕ)
    → IsQueue q flight
    → enqueue_chain (b ∷ bs) q ≡ queued head q'
    → IsQueue q' (chain_of q (b ∷ bs) head ∷ flight)
enqueues-IsQueue q q' flight b bs head v e =
    let (h, tail, q'', did) =
      enqueue_chain_lem q flight (b ∷ bs) v (omega arith) (queued-fits q q' (b ∷ bs) head e) in
    let (same_head, same) = queued_parts h head q'' q' (sym did.runs ∙ e) in
    let chain : record { head = h; tail = tail; buffers = b ∷ bs } ≡ chain_of q (b ∷ bs) head =
      ap (λ k. record { head = k; tail = tail; buffers = b ∷ bs }) same_head
      ∙ ap (λ ids. record { head = head; tail = drop 1 ids; buffers = b ∷ bs }) (sym did.popped) in
    subst (λ s. IsQueue s (chain_of q (b ∷ bs) head ∷ flight)) same
      (subst (λ c. IsQueue q'' (c ∷ flight)) chain did.valid)

collects-IsQueue :
    (q q' : VirtQueue) (flight : List Chain) (out : List (ℕ × ℕ))
    → IsQueue q flight
    → q.used_idx < 2 ^ 16
    → pop_used (2 ^ 16) q ≡ some (out, q')
    → IsQueue q' flight
collects-IsQueue q q' flight out v small e =
    let (i, only) = pop_used-only (2 ^ 16) q q' out e in
    subst (λ s. IsQueue s flight) (sym only)
      (other_fields-IsQueue q flight q.used_idx q.used_ring i v)

Step-IsQueue :
    (q q' : VirtQueue) (flight flight' : List Chain)
    → Step q flight q' flight'
    → IsQueue q flight
    → IsQueue q' flight'
Step-IsQueue _ _ _ _ (enqueues q q' flight b bs head e) v =
    enqueues-IsQueue q q' flight b bs head v e
Step-IsQueue _ _ _ _ (uses q flight used_idx used_ring small) v =
    other_fields-IsQueue q flight used_idx used_ring q.last_used_idx v
Step-IsQueue _ _ _ _ (collects q q' flight out small e) v =
    collects-IsQueue q q' flight out v small e
Step-IsQueue _ _ _ _ (frees q q' before after c freed e) v =
    let (q'', run, valid, counts) = (in_flight-Holds q before after c v).freed in
    subst (λ s. IsQueue s (before ++ after)) (some_queue (ids_of c) freed q'' q' (sym run ∙ e))
      valid

Steps-IsQueue :
    (q q' : VirtQueue) (flight flight' : List Chain)
    → Steps q flight q' flight'
    → IsQueue q flight
    → IsQueue q' flight'
Steps-IsQueue _ _ _ _ (done q flight) v = v
Steps-IsQueue _ _ _ _ (and_then q q₁ q' flight flight₁ flight' s ss) v =
    Steps-IsQueue q₁ q' flight₁ flight' ss (Step-IsQueue q q₁ flight flight₁ s v)

new-IsQueue :
    (desc : Descriptors) (avail_idx : ℕ) (avail_ring : ℕ → ℕ) (used_idx : ℕ)
    (used_ring : ℕ → UsedElem) (size : ℕ)
    → 0 < size
    → size < 2 ^ 16
    → IsQueue (new desc avail_idx avail_ring used_idx used_ring size) []
unfolding new
new-IsQueue desc avail_idx avail_ring used_idx used_ring size pos small =
    let same : size % 2 ^ 16 ≡ size = omega arith in
    record {
      positive = pos;
      once = λ i. omega (
        arith,
        count-ids_below i (size % 2 ^ 16),
        ap {B = ℕ} (λ (n : ℕ). if ltb i n then 1 else 0) same,
      );
      total = omega (arith, length-ids_below (size % 2 ^ 16), same);
      chains = tt;
    }

-- After any steps of driver and device from a new queue of 1 to 65535 descriptors, each descriptor is
-- free or in one chain in flight, once. Any chain in flight can be read and freed in as many rounds as
-- there are descriptors: `read_chain` gives the buffers it was enqueued with, and `free_chain` its ids.
pub Steps-Holds :
    (desc : Descriptors) (avail_idx : ℕ) (avail_ring : ℕ → ℕ) (used_idx : ℕ)
    (used_ring : ℕ → UsedElem) (size : ℕ) (q : VirtQueue) (before after : List Chain) (c : Chain)
    → 0 < size
    → size < 2 ^ 16
    → Steps (new desc avail_idx avail_ring used_idx used_ring size) [] q (before ++ (c ∷ after))
    → IsQueue q (before ++ (c ∷ after)) × Holds q before c after
Steps-Holds desc avail_idx avail_ring used_idx used_ring size q before after c pos small steps =
    let v =
      Steps-IsQueue (new desc avail_idx avail_ring used_idx used_ring size) q []
        (before ++ (c ∷ after)) steps
        (new-IsQueue desc avail_idx avail_ring used_idx used_ring size pos small) in
    (v, in_flight-Holds q before after c v)
