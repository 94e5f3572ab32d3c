-- ===== src/Pmm/High.antt =====
-- Frames that lie too high for lib/pmm.c: its helpers take an `int`, and `set_frame` refuses
-- addresses from 3 GiB on.
use raxzus_heap_research.Base.{done, fault, u32, ℕ, ◌+◌, ◌*◌, ◌^◌, ◌≤◌, ◌<◌, ◌≡◌, arith}
use raxzus_heap_research.Pmm.{
  Frames, set_frame, increment_used_frames, claim, get_next_free_process_frame,
}
use raxzus_heap_research.Pmm.Search.{process_search-Finds}
use raxzus_heap_research.Pmm.Alloc.{IsFirstFree, found_first}

-- From 2 GiB to 3 GiB the index computed from a negative `int` lies outside the bitmap.
set_frame_fault : (f : Frames) (a : ℕ) → 2 ^ 31 ≤ a → a < 0xC0000000 → set_frame a f ≡ fault
unfolding set_frame
set_frame_fault f a lo hi = ground arith

-- With the first free frame between 2 GiB and 3 GiB, the process search writes outside the bitmap.
pub get_next_free_process_frame_fault :
    (f : Frames) (k : ℕ)
    → f.bitmap 0 ≡ 0xFFFFFFFF
    → IsFirstFree f 0 k
    → 2 ^ 19 ≤ k
    → k < 0xC0000
    → get_next_free_process_frame f ≡ fault
unfolding get_next_free_process_frame claim
get_next_free_process_frame_fault f k full first lo hi =
    rw (found_first f k 0 _ first (omega arith) (process_search-Finds f full))
      (rw (set_frame_fault f (k * 4096) (omega arith) (omega arith)))

-- With the first free frame at 3 GiB or above, the process search returns its address and leaves
-- the bitmap as it was.
pub get_next_free_process_frame_unmarked :
    (f : Frames) (k : ℕ)
    → f.bitmap 0 ≡ 0xFFFFFFFF
    → IsFirstFree f 0 k
    → 0xC0000 ≤ k
    → k < 2 ^ 20
    → get_next_free_process_frame f
      ≡ done (k * 4096) (record f { used_frames = u32 (f.used_frames + 1) })
unfolding get_next_free_process_frame claim set_frame increment_used_frames
get_next_free_process_frame_unmarked f k full first lo hi =
    rw (found_first f k 0 _ first hi (process_search-Finds f full)) (ground arith)
