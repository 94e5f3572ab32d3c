-- ===== src/Examples/FrameRuns.antt =====
-- lib/pmm.c on small bitmaps.
use raxzus_heap_research.Base.{
  ltb, ◌==◌, if◌then◌else◌, bit, bit-zero, bit-ones, done, hang, fault, ℕ, ◌+◌, ◌*◌, ◌/◌, ◌%◌, ◌^◌,
  ◌<◌, ◌≡◌, refl, true, false, arith,
}
use raxzus_heap_research.Pmm.{Frames, get_next_free_process_frame, init_pmm}
use raxzus_heap_research.Pmm.Marks.{mark}
use raxzus_heap_research.Pmm.Alloc.{
  IsFirstFree, Claimed, get_next_free_process_frame-Claimed, AllUsed,
  get_next_free_process_frame_hang,
}
use raxzus_heap_research.Pmm.Init.{init_pmm_lem}
use raxzus_heap_research.Pmm.High.{
  get_next_free_process_frame_fault, get_next_free_process_frame_unmarked,
}
use raxzus_heap_research.Pmm.Release.{alloc_clear_alloc, clear_frame_reuse}

-- The frames in the first `words` words of the bitmap are in use.
abbrev pub low_used : ℕ → Frames
low_used words = record {
  bitmap = λ i. if ltb i words then 0xFFFFFFFF else 0;
  used_frames = 32 * words;
}

abbrev all_used : Frames
all_used = record { bitmap = λ i. 0xFFFFFFFF; used_frames = 2 ^ 20 }

ones_mark : (j : ℕ) → bit 0xFFFFFFFF (j % 32) ≡ 1
ones_mark j = bit-ones 32 (j % 32) (omega arith)

pub low_used-IsFirstFree : (words : ℕ) → IsFirstFree (low_used words) 0 (words * 32)
low_used-IsFirstFree words = record {
  from = omega arith;
  is_free =
      (let i : ltb (words * 32 / 32) words ≡ false = ground arith in
        rw i (bit-zero (words * 32 % 32)));
  before = λ j a b. (let i : ltb (j / 32) words ≡ true = ground arith in rw i (ones_mark j));
}

low_used-IsFirstFree_from : (words : ℕ) → IsFirstFree (low_used words) (words * 32) (words * 32)
low_used-IsFirstFree_from words = record {
  from = omega arith;
  is_free = (low_used-IsFirstFree words).is_free;
  before = λ j a b. absurd (omega arith);
}

all_used-AllUsed : AllUsed all_used 0
all_used-AllUsed j a b = ones_mark j

get_next_free_process_frame-Claimed_example :
    Claimed (low_used 1) 32 (get_next_free_process_frame (low_used 1))
get_next_free_process_frame-Claimed_example =
    get_next_free_process_frame-Claimed (low_used 1) 32 refl (low_used-IsFirstFree 1) (omega arith)

get_next_free_process_frame_hang_example : get_next_free_process_frame (low_used 0) ≡ hang
get_next_free_process_frame_hang_example =
    get_next_free_process_frame_hang (low_used 0) (λ e. absurd (omega (arith, e)))

get_next_free_process_frame_fault_example : get_next_free_process_frame (low_used 16384) ≡ fault
get_next_free_process_frame_fault_example =
    get_next_free_process_frame_fault (low_used 16384) 0x80000 refl (low_used-IsFirstFree 16384)
      (omega arith) (omega arith)

get_next_free_process_frame_unmarked_example :
    get_next_free_process_frame (low_used 24576)
    ≡ done 0xC0000000 (record (low_used 24576) { used_frames = 786433 })
get_next_free_process_frame_unmarked_example =
    get_next_free_process_frame_unmarked (low_used 24576) 0xC0000 refl (low_used-IsFirstFree 24576)
      (omega arith) (omega arith)

clear_frame_reuse_example :
    (g : Frames) × (alloc_clear_alloc (low_used 1) ≡ done 0x20000 g)
    × ((j : ℕ) → mark g j ≡ (if 32 == j then 1 else mark (low_used 1) j))
    × (g.used_frames ≡ 34)
clear_frame_reuse_example =
    clear_frame_reuse (low_used 1) 32 refl (low_used-IsFirstFree 1) (omega arith)

init_pmm_lem_example :
    (g : Frames) × (init_pmm 0xC0001234 all_used ≡ done tt g)
    × (g.used_frames ≡ 2 ^ 20 + 2)
    × ((j : ℕ) → j < 2 ^ 20 → mark g j ≡ (if ltb j 2 then 1 else 0))
init_pmm_lem_example = init_pmm_lem all_used 0xC0001234 (omega arith) (omega arith) (omega arith)
