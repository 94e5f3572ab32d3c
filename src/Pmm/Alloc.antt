-- ===== src/Pmm/Alloc.antt =====
-- The frame allocators of lib/pmm.c: which frame they hand out, and what they record.
use raxzus_heap_research.Base.{
  ◌==◌, if◌then◌else◌, lt-or-le, eq-or-ne, clear_bit_of_ne, bit_or-lt, Run, done, hang, u32, update,
  ℕ, ◌+◌, ◌-◌, ◌*◌, ◌/◌, ◌%◌, ◌^◌, ◌≤◌, ◌<◌, bit_or, ◌≡◌, refl, ap, ◌≢◌, inl, inr, arith,
}
use raxzus_heap_research.Pmm.{
  Frames, increment_used_frames, Scan, found, next, stuck, claim, safe_start,
  get_next_free_kernel_frame, get_next_free_process_frame,
}
use raxzus_heap_research.Pmm.Marks.{mark, IsBitmap, pow-lt-u32, mark-set, set_frame-eq, update-lt}
use raxzus_heap_research.Pmm.Search.{
  Finds, process_search-Finds, process_search_stuck, kernel_search-Finds,
}

-- Frame `k` is free, and every frame from `lo` up to `k` is in use.
pub record IsFirstFree (f : Frames) (lo k : ℕ) : Type 0 where
  pub from : lo ≤ k
  pub is_free : mark f k ≡ 0
  pub before : (j : ℕ) → lo ≤ j → j < k → mark f j ≡ 1

-- What handing out frame `k` does: its address is returned, the counter grows, its bit alone is set.
pub record Claimed (f : Frames) (k : ℕ) (r : Run Frames ℕ) : Type 0 where
  pub after : Frames
  pub returns : r ≡ done (k * 4096) after
  pub counted : after.used_frames ≡ u32 (f.used_frames + 1)
  pub marked : (j : ℕ) → mark after j ≡ (if k == j then 1 else mark f j)
  pub others : (i : ℕ) → i ≢ k / 32 → after.bitmap i ≡ f.bitmap i
  pub words : IsBitmap f → IsBitmap after

module _ (f : Frames) (k : ℕ) where
  frame_word : ℕ
  frame_word = bit_or (f.bitmap (k / 32)) (2 ^ (k % 32))

  claim-Claimed : k < 2 ^ 19 → Claimed f k (claim (found (k * 4096)) f)
  unfolding claim increment_used_frames frame_word
  claim-Claimed h =
      let e : k * 4096 / 4096 ≡ k = omega arith in
      rw (set_frame-eq f (k * 4096) (omega arith), e)
        (record {
          after = record f {
            bitmap = update f.bitmap (k / 32) frame_word;
            used_frames = u32 (f.used_frames + 1);
          };
          returns = refl;
          counted = refl;
          marked = λ j. mark-set f k j;
          others = λ i ne. ground arith;
          words = λ w i.
              update-lt f k frame_word i w
                (bit_or-lt 32 _ _ (w (k / 32)) (pow-lt-u32 (k % 32) (omega arith)));
        })

  -- A scan that finds the frame that is known to be the first free one.
  pub found_first :
      (lo : ℕ) (s : Scan)
      → IsFirstFree f lo k
      → k < 2 ^ 20
      → Finds f lo (2 ^ 20) s
      → s ≡ found (k * 4096)
  found_first lo (found a) first h (k', l, u, e, m, all) = elim (lt-or-le k k') [
    | inl above ↦ absurd (omega (arith, all k first.from above, first.is_free))
    | inr below ↦ elim (lt-or-le k' k) [
      | inl lower ↦ absurd (omega (arith, first.before k' l lower))
      | inr same ↦ ap found (omega arith)
    ]
  ]
  found_first lo next first h all = absurd (omega (arith, all k first.from h, first.is_free))
  found_first lo stuck first h no_scan = absurd no_scan

  -- The outcome of a search that ends in the first free frame, by where that frame lies.
  claim_first :
      (lo : ℕ) (s : Scan)
      → IsFirstFree f lo k
      → k < 2 ^ 19
      → Finds f lo (2 ^ 20) s
      → Claimed f k (claim s f)
  claim_first lo s first low fs = rw (found_first lo s first (omega arith) fs) (claim-Claimed low)

  -- With word 0 full and a first free frame below 2 GiB, `get_next_free_process_frame` returns the
  -- address of that frame, counts it, sets its bit and no other.
  pub get_next_free_process_frame-Claimed :
      f.bitmap 0 ≡ 0xFFFFFFFF
      → IsFirstFree f 0 k
      → k < 2 ^ 19
      → Claimed f k (get_next_free_process_frame f)
  unfolding get_next_free_process_frame
  get_next_free_process_frame-Claimed full first low =
      claim_first 0 _ first low (process_search-Finds f full)

  -- For a page-aligned kernel end in the upper gigabyte, every frame from there up to frame `k` in
  -- use, and frame `k` free and below 2 GiB, `get_next_free_kernel_frame` returns the address of
  -- frame `k`, counts it, sets its bit and no other.
  pub get_next_free_kernel_frame-Claimed :
      (heap_start : ℕ)
      → 0xC0000000 ≤ heap_start
      → heap_start < 2 ^ 32
      → heap_start % 4096 ≡ 0
      → IsFirstFree f ((heap_start - 0xC0000000) / 4096) k
      → k < 2 ^ 19
      → Claimed f k (get_next_free_kernel_frame heap_start f)
  unfolding get_next_free_kernel_frame
  get_next_free_kernel_frame-Claimed heap_start high word aligned first low =
      claim_first ((heap_start - 0xC0000000) / 4096) _ first low (
        kernel_search-Finds f (safe_start heap_start) ((heap_start - 0xC0000000) / 4096)
          (unfold safe_start in omega arith) (omega arith))

-- Every frame from `lo` on is in use.
abbrev pub AllUsed : Frames → ℕ → Type 0
AllUsed f lo = (j : ℕ) → lo ≤ j → j < 2 ^ 20 → mark f j ≡ 1

none_found :
    (f : Frames) (lo : ℕ) (s : Scan) → AllUsed f lo → Finds f lo (2 ^ 20) s → claim s f ≡ done 0 f
unfolding claim
none_found f lo (found a) all (k, l, u, e, m, before) = absurd (omega (arith, all k l u))
none_found f lo next all fs = refl
none_found f lo stuck all no_scan = absurd no_scan

-- With every frame in use the first word is full.
first_word_full : (f : Frames) → IsBitmap f → AllUsed f 0 → f.bitmap 0 ≡ 0xFFFFFFFF
first_word_full f words all = elim (eq-or-ne (f.bitmap 0) 0xFFFFFFFF) [
  | inl full ↦ full
  | inr ne ↦
      let (j, l, clear) = clear_bit_of_ne 32 (f.bitmap 0) (words 0) ne in
      let taken : mark f j ≡ 1 = all j (omega arith) (omega arith) in
      let q : j / 32 ≡ 0 = omega arith in
      let r : j % 32 ≡ j = omega arith in absurd (omega (arith, clear, (rw (q, r) at taken)))
]

pub process_frame_full :
    (f : Frames) → IsBitmap f → AllUsed f 0 → get_next_free_process_frame f ≡ done 0 f
unfolding get_next_free_process_frame
process_frame_full f words all =
    none_found f 0 _ all (process_search-Finds f (first_word_full f words all))

-- With every frame in use, and a page-aligned kernel end in the upper gigabyte, both searches
-- return 0 and change nothing.
get_next_free_frame_full :
    (f : Frames) (heap_start : ℕ)
    → IsBitmap f
    → AllUsed f 0
    → 0xC0000000 ≤ heap_start
    → heap_start < 2 ^ 32
    → heap_start % 4096 ≡ 0
    → (get_next_free_process_frame f ≡ done 0 f)
      × (get_next_free_kernel_frame heap_start f ≡ done 0 f)
unfolding get_next_free_kernel_frame
get_next_free_frame_full f heap_start words all high word aligned = (
  process_frame_full f words all,
  none_found f ((heap_start - 0xC0000000) / 4096) _ (λ j l u. all j (omega arith) u)
      (kernel_search-Finds f (safe_start heap_start) ((heap_start - 0xC0000000) / 4096)
        (unfold safe_start in omega arith) (omega arith)),
)

-- With frame 0's word not full, the process search never returns.
pub get_next_free_process_frame_hang :
    (f : Frames) → f.bitmap 0 ≢ 0xFFFFFFFF → get_next_free_process_frame f ≡ hang
unfolding get_next_free_process_frame claim
get_next_free_process_frame_hang f ne = rw (process_search_stuck f ne)
