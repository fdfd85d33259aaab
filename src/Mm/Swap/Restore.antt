-- ===== src/Mm/Swap/Restore.antt =====
-- `swap_in`: a page that was swapped out is restored, or lost.
use openv.Common.{ℕ, ◌%◌, ◌^◌, ◌<◌, ◌≡◌, refl, ap, ◌∙◌, true, none, some, List, length}
use openv.Mm.Swap.{page_bytes, compress_page, decompress_page}
use openv.Mm.Swap.RoundTrip.{decompress_page-compress_page}
use openv.Mm.Swap.Table.{
  SwappedPage, Swap, fetch_sub, find_slot, remove_slot, store_page, Frames, ok, out_of_memory,
  after_map, after_alloc, restore_page, swap_in,
}
use openv.Mm.Swap.Accounts.{
  fetch_sub-fetch_add, find_slot-insert_slot, remove_slot-insert_slot, find_slot-remove_slot,
}

module _ {M : Type 0} (frames : Frames M) where
  swap_in-found :
      (root va : ℕ) (page : SwappedPage) (s : Swap) (m : M)
      → find_slot root va s.map ≡ some page
      → swap_in frames root va s m
        ≡ restore_page frames root va page (record s { map = remove_slot root va s.map }) m
  unfolding swap_in
  swap_in-found root va page s m e = rw (e, swap_in) refl

  restore_page-ok :
      (root va pa : ℕ) (page : SwappedPage) (page_data : List ℕ) (s : Swap) (m m₁ m₃ : M)
      → frames.alloc_frame m ≡ (some pa, m₁)
      → decompress_page page.bytes (frames.read_frame m₁ pa) ≡ page_data
      → frames.map_page root va pa page.flags (frames.write_frame pa page_data m₁) ≡ (true, m₃)
      → restore_page frames root va page s m ≡ (
        ok,
        record s {
          total_pages = fetch_sub s.total_pages 1;
          total_bytes = fetch_sub s.total_bytes (length page.bytes);
        },
        m₃,
      )
  unfolding restore_page after_alloc after_map
  restore_page-ok root va pa page page_data s m m₁ m₃ alloc same mapped =
      ap (after_alloc frames root va page s) alloc
      ∙ ap
          (λ bs.
            after_map frames page s pa
              (frames.map_page root va pa page.flags (frames.write_frame pa bs m₁)))
          same
      ∙ ap (after_map frames page s pa) mapped

  -- A page of which there was no copy yet, swapped out and then in again: the frame that the
  -- allocator gives is mapped at the page's address, with the flags of its old entry and with
  -- exactly the bytes that the page had, and the map and its counters are what they were before.
  -- The allocation and the mapping are taken to succeed, and a frame to have 4096 bytes.
  pub swap_in-store_page :
      (root va pte pa : ℕ) (page_data : List ℕ) (s : Swap) (m m₁ m₃ : M)
      → length page_data ≡ page_bytes
      → find_slot root va s.map ≡ none
      → s.total_pages < 2 ^ 64
      → s.total_bytes < 2 ^ 64
      → frames.alloc_frame m ≡ (some pa, m₁)
      → length (frames.read_frame m₁ pa) ≡ page_bytes
      → frames.map_page root va pa (pte % 1024) (frames.write_frame pa page_data m₁) ≡ (true, m₃)
      → swap_in frames root va (store_page root va pte page_data s) m ≡ (ok, s, m₃)
  unfolding store_page
  swap_in-store_page root va pte pa page_data s m m₁ m₃ len absent pages bytes alloc len' mapped =
      let page : SwappedPage = record { bytes = compress_page page_data; flags = pte % 1024 } in
      swap_in-found root va page (store_page root va pte page_data s) m
        (find_slot-insert_slot root va page s.map)
      ∙ restore_page-ok root va pa page page_data _ m m₁ m₃ alloc
          (decompress_page-compress_page page_data (frames.read_frame m₁ pa) len len') mapped
      ∙ rw
          (
            remove_slot-insert_slot root va page s.map absent,
            fetch_sub-fetch_add s.total_pages 1 pages,
            fetch_sub-fetch_add s.total_bytes (length (compress_page page_data)) bytes,
          )
          refl

  restore_page-out_of_memory :
      (root va : ℕ) (page : SwappedPage) (s : Swap) (m m₁ : M)
      → frames.alloc_frame m ≡ (none, m₁)
      → restore_page frames root va page s m ≡ (out_of_memory, s, m₁)
  unfolding restore_page after_alloc after_map
  restore_page-out_of_memory root va page s m m₁ alloc =
      ap (after_alloc frames root va page s) alloc

  -- When there is no frame for a page that was swapped out, `swap_in` fails, the copy of the page
  -- is gone, and the counters still count it.
  pub swap_in-out_of_memory :
      (root va : ℕ) (page : SwappedPage) (s : Swap) (m m₁ : M)
      → find_slot root va s.map ≡ some page
      → frames.alloc_frame m ≡ (none, m₁)
      → (s' : Swap) × (swap_in frames root va s m ≡ (out_of_memory, s', m₁))
        × (find_slot root va s'.map ≡ none)
        × (s'.total_pages ≡ s.total_pages)
        × (s'.total_bytes ≡ s.total_bytes)
  swap_in-out_of_memory root va page s m m₁ found alloc = (
    record s { map = remove_slot root va s.map },
    swap_in-found root va page s m found ∙ restore_page-out_of_memory root va page _ m m₁ alloc,
    find_slot-remove_slot root va s.map,
    refl,
    refl,
  )
