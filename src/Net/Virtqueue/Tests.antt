-- ===== src/Net/Virtqueue/Tests.antt =====
-- The theorems on queues, on concrete data.
use openv.Common.{ℕ, ◌≡◌, refl, arith, false, some, List, [], ◌∷◌, length}
use openv.Net.Virtqueue.{
  Buffer, Descriptor, UsedElem, VirtQueue, Enqueued, queued, full, panics, new, enqueue_chain,
  pop_used,
}
use openv.Net.Virtqueue.Flight.{IsQueue, Holds}
use openv.Net.Virtqueue.Used.{AreCompletions, Pops, pop_used_lem}
use openv.Net.Virtqueue.Steps.{enqueues, done, and_then, chain_of, Steps-Holds}

abbrev blank_descriptor : Descriptor
blank_descriptor = record { addr = 0; len = 0; flags = 0; next = 0 }

abbrev blank_elem : UsedElem
blank_elem = record { id = 0; len = 0 }

abbrev four_free : VirtQueue
four_free = new (λ i. blank_descriptor) 0 (λ i. 0) 0 (λ i. blank_elem) 4

abbrev header_and_frame : List Buffer
header_and_frame =
    record { pa = 0x1000; len = 12; write = false }
    ∷ record { pa = 0x2000; len = 1514; write = false }
    ∷ []

abbrev queue_of : Enqueued → VirtQueue
queue_of (queued head q) = q
queue_of full = four_free
queue_of panics = four_free

abbrev one_chain : VirtQueue
one_chain = queue_of (enqueue_chain header_and_frame four_free)

one_chain_runs : enqueue_chain header_and_frame four_free ≡ queued 3 one_chain
unfolding enqueue_chain new
one_chain_runs = refl

-- Two completions at the wrap of the 16-bit index.
abbrev wrapped : VirtQueue
wrapped = record {
  size = 4;
  desc = λ i. blank_descriptor;
  avail_idx = 1;
  avail_ring = λ i. 0;
  used_idx = 1;
  used_ring = λ i. record { id = i; len = 64 };
  free_list = [];
  last_used_idx = 0xffff;
}

Steps-Holds_example :
    IsQueue one_chain (chain_of four_free header_and_frame 3 ∷ [])
    × Holds one_chain [] (chain_of four_free header_and_frame 3) []
Steps-Holds_example =
    Steps-Holds (λ i. blank_descriptor) 0 (λ i. 0) 0 (λ i. blank_elem) 4 one_chain [] []
      (chain_of four_free header_and_frame 3) (omega arith) (omega arith)
      (and_then four_free one_chain one_chain [] (chain_of four_free header_and_frame 3 ∷ [])
        (chain_of four_free header_and_frame 3 ∷ [])
        (enqueues four_free one_chain [] (record { pa = 0x1000; len = 12; write = false })
          (record { pa = 0x2000; len = 1514; write = false } ∷ []) 3 one_chain_runs)
        (done one_chain (chain_of four_free header_and_frame 3 ∷ [])))

pop_used_lem_example :
    (out : List (ℕ × ℕ)) × (q' : VirtQueue) × (pop_used 3 wrapped ≡ some (out, q'))
    × (length out ≡ 2)
    × AreCompletions (λ i. record { id = i; len = 64 }) 4 0xffff out
    × Pops wrapped out q'
pop_used_lem_example = pop_used_lem 2 3 wrapped (omega arith) (omega arith) refl (omega arith)
