-- ===== src/Net/Virtqueue/Flight.antt =====
-- What `enqueue_chain`, `read_chain` and `free_chain` do to the chains that the device has.
use openv.Common.{
  ℕ, ◌+◌, ◌%◌, ◌^◌, ◌≤◌, ◌<◌, ◌≡◌, refl, ap, sym, ◌∙◌, some, List, [], ◌∷◌, ◌++◌, map, length,
  length-append, ==_ne, ==_refl, ltb, arith, if◌then◌else◌,
}
use openv.Net.Virtqueue.{
  Buffer, Descriptors, VirtQueue, queued, pop_ids, populate, publish, put, enqueue_ids,
  enqueue_chain, read_chain, free_chain, push_ids,
}
use openv.Net.Virtqueue.Counts.{
  count, count-append, count-push_ids, length-push_ids, pop_ids-append,
}
use openv.Net.Virtqueue.Chains.{
  IsChain, IsChain-same, populate-other, populate-IsChain, span, read_chain-IsChain,
  chain_ids-IsChain,
}

-- A chain that the device has: its head, its other ids and its buffers.
pub record Chain : Type 0 where
  pub head : ℕ
  pub tail : List ℕ
  pub buffers : List Buffer

abbrev pub ids_of : Chain → List ℕ
ids_of c = c.head ∷ c.tail

abbrev pub in_flight : ℕ → List Chain → ℕ
in_flight i [] = 0
in_flight i (c ∷ cs) = count i (ids_of c) + in_flight i cs

abbrev pub flight_length : List Chain → ℕ
flight_length [] = 0
flight_length (c ∷ cs) = length (ids_of c) + flight_length cs

abbrev pub AllChains : Descriptors → List Chain → Type 0
AllChains desc [] = Unit {0}
AllChains desc (c ∷ cs) = IsChain desc (ids_of c) c.buffers × AllChains desc cs

-- Each id below the size is free or in one chain in flight, once; and each chain holds its buffers.
pub record IsQueue (q : VirtQueue) (flight : List Chain) : Type 0 where
  pub positive : 0 < q.size
  pub once : (i : ℕ) → count i q.free_list + in_flight i flight ≡ (if ltb i q.size then 1 else 0)
  pub total : length q.free_list + flight_length flight ≡ q.size
  pub chains : AllChains q.desc flight

in_flight-append :
    (i : ℕ) (xs ys : List Chain) → in_flight i (xs ++ ys) ≡ in_flight i xs + in_flight i ys
in_flight-append i [] ys = omega arith
in_flight-append i (c ∷ cs) ys = omega (arith, in_flight-append i cs ys)

flight_length-append :
    (xs ys : List Chain) → flight_length (xs ++ ys) ≡ flight_length xs + flight_length ys
flight_length-append [] ys = omega arith
flight_length-append (c ∷ cs) ys = omega (arith, flight_length-append cs ys)

AllChains-same :
    (desc desc' : Descriptors) (flight : List Chain)
    → ((i : ℕ) → 0 < in_flight i flight → desc' i ≡ desc i)
    → AllChains desc flight
    → AllChains desc' flight
AllChains-same desc desc' [] same h = tt
AllChains-same desc desc' (c ∷ cs) same h = (
  IsChain-same desc desc' (ids_of c) c.buffers (λ i p. same i (omega arith)) h.0,
  AllChains-same desc desc' cs (λ i p. same i (omega arith)) h.1,
)

-- The parts of a list of chains around one of them.
AllChains-parts :
    (desc : Descriptors) (xs ys : List Chain) (c : Chain)
    → AllChains desc (xs ++ (c ∷ ys))
    → IsChain desc (ids_of c) c.buffers × AllChains desc (xs ++ ys)
AllChains-parts desc [] ys c h = h
AllChains-parts desc (x ∷ xs) ys c h =
    let (at, rest) = AllChains-parts desc xs ys c h.1 in (at, (h.0, rest))

at_most_once : (i n : ℕ) → (if ltb i n then 1 else 0) ≤ 1
at_most_once i n = ground arith

-- What `enqueue_chain` leaves when it succeeds.
abbrev enqueued : VirtQueue → ℕ → List ℕ → List ℕ → List Buffer → VirtQueue
enqueued q head tail rest buffers = record q {
  free_list = rest;
  desc = populate q.desc (head ∷ tail) buffers;
  avail_ring = put q.avail_ring (q.avail_idx % q.size) head;
  avail_idx = (q.avail_idx + 1) % 2 ^ 16;
}

enqueued-IsQueue :
    (q : VirtQueue) (flight : List Chain) (head : ℕ) (tail rest : List ℕ) (bs : List Buffer)
    → IsQueue q flight
    → (head ∷ tail) ++ rest ≡ q.free_list
    → length (head ∷ tail) ≡ length bs
    → IsQueue
        (enqueued q head tail rest bs)
        (record { head = head; tail = tail; buffers = bs } ∷ flight)
enqueued-IsQueue q flight head tail rest bs v all len =
    let ids : List ℕ = head ∷ tail in
    let split : (i : ℕ) → count i q.free_list ≡ count i ids + count i rest =
      λ i. ap (count i) (sym all) ∙ count-append i ids rest in
    record {
      positive = v.positive;
      once = λ i. omega (arith, v.once i, split i);
      total = omega (arith, v.total, ap length (sym all), length-append ids rest);
      chains = (
        populate-IsChain q.desc ids bs len
            (λ i. omega (arith, v.once i, split i, at_most_once i q.size)),
        AllChains-same q.desc (populate q.desc ids bs) flight
            (λ i used.
              populate-other q.desc ids bs i
                (omega (arith, v.once i, split i, at_most_once i q.size)))
            v.chains,
      );
    }

enqueue_chain-fits :
    (q : VirtQueue) (bs : List Buffer)
    → length bs ≤ length q.free_list
    → enqueue_chain bs q
      ≡ enqueue_ids (pop_ids (length bs) q.free_list).0 (pop_ids (length bs) q.free_list).1 bs q
unfolding enqueue_chain
enqueue_chain-fits q bs fits = ground arith

publish-queued :
    (q : VirtQueue) (head : ℕ)
    → 0 < q.size
    → publish q head
      ≡ queued head (record q {
        avail_ring = put q.avail_ring (q.avail_idx % q.size) head;
        avail_idx = (q.avail_idx + 1) % 2 ^ 16;
      })
publish-queued q head pos = rw (==_ne q.size 0 (λ e. omega arith)) refl

-- What `enqueue_chain` did.
pub record Enqueues (q q' : VirtQueue) (flight : List Chain) (buffers : List Buffer) (head : ℕ)
    (tail : List ℕ) : Type 0 where
  pub popped : (pop_ids (length buffers) q.free_list).0 ≡ head ∷ tail
  pub runs : enqueue_chain buffers q ≡ queued head q'
  pub valid : IsQueue q' (record { head = head; tail = tail; buffers = buffers } ∷ flight)
  pub taken : (head ∷ tail) ++ q'.free_list ≡ q.free_list
  pub published : q'.avail_ring (q.avail_idx % q.size) ≡ head
  pub advanced : q'.avail_idx ≡ (q.avail_idx + 1) % 2 ^ 16

enqueue_ids-Enqueues :
    (q : VirtQueue) (flight : List Chain) (bs : List Buffer) (ids rest : List ℕ)
    → IsQueue q flight
    → (pop_ids (length bs) q.free_list).0 ≡ ids
    → enqueue_chain bs q ≡ enqueue_ids ids rest bs q
    → ids ++ rest ≡ q.free_list
    → length ids ≡ length bs
    → 0 < length bs
    → (head : ℕ) × (tail : List ℕ) × (q' : VirtQueue) × Enqueues q q' flight bs head tail
enqueue_ids-Enqueues q flight bs [] rest v popped run all len some_bs = absurd (omega arith)
enqueue_ids-Enqueues q flight bs (head ∷ tail) rest v popped run all len some_bs = (
  head,
  tail,
  enqueued q head tail rest bs,
  record {
    popped = popped;
    runs =
        run
        ∙ publish-queued (record q { free_list = rest; desc = populate q.desc (head ∷ tail) bs })
            head v.positive;
    valid = enqueued-IsQueue q flight head tail rest bs v all len;
    taken = all;
    published = rw (==_refl (q.avail_idx % q.size)) refl;
    advanced = refl;
  },
)

-- In a valid queue with at least as many free descriptors as there are buffers, and at least one
-- buffer, `enqueue_chain` takes that many ids, adds the chain to those in flight, whose descriptors it
-- leaves alone, and puts its head at the old position of the available ring.
pub enqueue_chain_lem :
    (q : VirtQueue) (flight : List Chain) (bs : List Buffer)
    → IsQueue q flight
    → 0 < length bs
    → length bs ≤ length q.free_list
    → (head : ℕ) × (tail : List ℕ) × (q' : VirtQueue) × Enqueues q q' flight bs head tail
enqueue_chain_lem q flight bs v some_bs fits =
    let (all, len) = pop_ids-append (length bs) q.free_list fits in
    enqueue_ids-Enqueues q flight bs (pop_ids (length bs) q.free_list).0
      (pop_ids (length bs) q.free_list).1 v refl (enqueue_chain-fits q bs fits) all len some_bs

-- Freeing a chain in flight.
abbrev freed_queue : VirtQueue → Chain → VirtQueue
freed_queue q c = record q { free_list = push_ids (ids_of c) q.free_list }

freed-IsQueue :
    (q : VirtQueue) (before after : List Chain) (c : Chain)
    → IsQueue q (before ++ (c ∷ after))
    → IsQueue (freed_queue q c) (before ++ after)
freed-IsQueue q before after c v = record {
  positive = v.positive;
  once = λ i. omega (
    arith,
    v.once i,
    in_flight-append i before (c ∷ after),
    in_flight-append i before after,
    count-push_ids i (ids_of c) q.free_list,
  );
  total = omega (
    arith,
    v.total,
    flight_length-append before (c ∷ after),
    flight_length-append before after,
    length-push_ids (ids_of c) q.free_list,
  );
  chains = (AllChains-parts q.desc before after c v.chains).1;
}

-- What a chain in flight reads as, and what freeing it does.
pub record Holds (q : VirtQueue) (before : List Chain) (c : Chain) (after : List Chain)
    : Type 0 where
  pub reads : read_chain q.size q.desc c.head ≡ some (map span c.buffers)
  pub freed :
      (q' : VirtQueue) × (free_chain q.size c.head q ≡ some (ids_of c, q'))
      × IsQueue q' (before ++ after)
      × ((i : ℕ) → count i q'.free_list ≡ count i (ids_of c) + count i q.free_list)

-- In a valid queue the loops over a chain in flight end within as many rounds as the queue has
-- descriptors. `read_chain` gives the buffers of the chain, and `free_chain` its ids, which become free,
-- once each; the other chains stay in flight.
pub in_flight-Holds :
    (q : VirtQueue) (before after : List Chain) (c : Chain)
    → IsQueue q (before ++ (c ∷ after))
    → Holds q before c after
unfolding free_chain
in_flight-Holds q before after c v =
    let chain : IsChain q.desc (ids_of c) c.buffers =
      (AllChains-parts q.desc before after c v.chains).0 in
    let enough : length (ids_of c) ≤ q.size =
      omega (arith, v.total, flight_length-append before (c ∷ after)) in
    record {
      reads = read_chain-IsChain q.size q.desc c.head c.tail c.buffers chain enough;
      freed = (
        freed_queue q c,
        rw (chain_ids-IsChain q.size q.desc c.head c.tail c.buffers chain enough, free_chain) refl,
        freed-IsQueue q before after c v,
        λ i. count-push_ids i (ids_of c) q.free_list,
      );
    }
