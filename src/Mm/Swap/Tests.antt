-- ===== src/Mm/Swap/Tests.antt =====
-- The theorems on swapped pages on concrete data.
use openv.Common.{
  ℕ, ◌≡◌, refl, arith, true, none, some, List, [], ◌∷◌, length, replicate, length-replicate,
}
use openv.Common.Bytes.{write_at}
use openv.Mm.Swap.{page_bytes, compress_page, decompress_from, decompress_page}
use openv.Mm.Swap.RoundTrip.{decompress_page-compress_page}
use openv.Mm.Swap.Table.{Swap, Frames, store_page, find_slot, sum_bytes, swap_in, ok, out_of_memory}
use openv.Mm.Swap.Accounts.{IsAccounted}
use openv.Mm.Swap.Restore.{swap_in-store_page, swap_in-out_of_memory}

abbrev page_of : ℕ → List ℕ
page_of b = replicate page_bytes b

length-page_of : (b : ℕ) → length (page_of b) ≡ page_bytes
length-page_of b = length-replicate page_bytes b

decompress_page-compress_page_example :
    decompress_page (compress_page (page_of 7)) (page_of 0) ≡ page_of 7
decompress_page-compress_page_example =
    decompress_page-compress_page (page_of 7) (page_of 0) (length-page_of 7) (length-page_of 0)

decompress_two_runs :
    decompress_from (7 ∷ 2 ∷ 9 ∷ 1 ∷ []) (0 ∷ 0 ∷ 0 ∷ 0 ∷ []) 0 ≡ (7 ∷ 7 ∷ 9 ∷ 0 ∷ [])
unfolding decompress_from write_at
decompress_two_runs = refl

abbrev empty_swap : Swap
empty_swap = record { map = []; total_pages = 0; total_bytes = 0 }

-- A page of the root 0x80005000 and one of 0x80006000.
abbrev two_pages : Swap
two_pages = record {
  map =
      record {
        root_pa = 0x8000_5000;
        page_va = 0x1_0000_0000;
        page = record { bytes = 7 ∷ 255 ∷ []; flags = 31 };
      }
      ∷ record {
        root_pa = 0x8000_6000;
        page_va = 0x1_0000_0000;
        page = record { bytes = 1 ∷ 2 ∷ 3 ∷ 4 ∷ []; flags = 31 };
      }
      ∷ [];
  total_pages = 2;
  total_bytes = 6;
}

two_pages-IsAccounted : IsAccounted two_pages
unfolding sum_bytes
two_pages-IsAccounted = record {
  pages = refl;
  bytes = refl;
  pages_small = omega arith;
  bytes_small = omega arith;
}

-- A machine of one frame.
abbrev one_frame : Frames (List ℕ)
one_frame = record {
  alloc_frame = λ m. (some 0x8000_1000, m);
  read_frame = λ m pa. m;
  write_frame = λ pa bs m. bs;
  map_page = λ root va pa flags m. (true, m);
  drop_frame = λ pa m. m;
}

abbrev no_frame : Frames (List ℕ)
no_frame = record one_frame { alloc_frame = λ m. (none, m) }

swap_in-store_page_example :
    swap_in one_frame 0x8000_5000 0x1_0000_0000
      (store_page 0x8000_5000 0x1_0000_0000 0x2000_041f (page_of 7) empty_swap)
      (page_of 0)
    ≡ (ok, empty_swap, page_of 7)
unfolding find_slot
swap_in-store_page_example =
    swap_in-store_page one_frame 0x8000_5000 0x1_0000_0000 0x2000_041f 0x8000_1000 (page_of 7)
      empty_swap (page_of 0) (page_of 0) (page_of 7) (length-page_of 7) refl (omega arith)
      (omega arith) refl (length-page_of 0) refl

swap_in-out_of_memory_example :
    (s' : Swap) × (swap_in no_frame 0x8000_5000 0x1_0000_0000 two_pages []
      ≡ (out_of_memory, s', []))
    × (find_slot 0x8000_5000 0x1_0000_0000 s'.map ≡ none)
    × (s'.total_pages ≡ 2)
    × (s'.total_bytes ≡ 6)
unfolding find_slot
swap_in-out_of_memory_example =
    swap_in-out_of_memory no_frame 0x8000_5000 0x1_0000_0000
      (record { bytes = 7 ∷ 255 ∷ []; flags = 31 }) two_pages [] [] refl refl
