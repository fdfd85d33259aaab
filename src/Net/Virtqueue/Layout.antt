-- ===== src/Net/Virtqueue/Layout.antt =====
-- The layout of the page of a queue.
use openv.Common.{ℕ, ◌+◌, ◌*◌, ◌%◌, ◌≤◌, ◌≡◌, ◌↔◌, arith}
use openv.Net.Virtqueue.{avail_offset, used_offset, used_ring_offset}

-- The descriptor table, the available ring and the used ring follow each other without overlap, at
-- offsets that fit their elements, and they fit a page of 4096 bytes just when there are at most 157
-- descriptors.
pub offsets_lem :
    (size : ℕ)
    → (size * 16 ≤ avail_offset size)
      × (avail_offset size % 2 ≡ 0)
      × (avail_offset size + 4 + size * 2 ≤ used_offset size)
      × (used_ring_offset size % 4 ≡ 0)
      × ((used_ring_offset size + size * 8 ≤ 4096) ↔ (size ≤ 157))
unfolding avail_offset used_offset
offsets_lem size =
    (omega arith, omega arith, omega arith, omega arith, (λ h. omega arith, λ h. omega arith))
