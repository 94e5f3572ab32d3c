-- ===== src/Pmm/Release.antt =====
-- `clear_frame` of lib/pmm.c, and what it does to a frame that was handed out.
use raxzus_heap_research.Base.{
  ◌==◌, if◌then◌else◌, lt-or-le, bit-ones, bit_and-lt, Run, done, Cmd, ◌>>=◌, u32, ℕ, ◌+◌, ◌*◌, ◌/◌,
  ◌%◌, ◌^◌, ◌≤◌, ◌<◌, ◌≡◌, refl, ◌≢◌, inl, inr, arith,
}
use raxzus_heap_research.Pmm.{Frames, clear_frame, get_next_free_process_frame}
use raxzus_heap_research.Pmm.Marks.{mark, IsBitmap, mark-clear, clear_frame-eq, update-lt}
use raxzus_heap_research.Pmm.Alloc.{IsFirstFree, get_next_free_process_frame-Claimed}

-- The outcome of clearing frame `k`: its bit alone is reset, and the counter is not touched.
pub record Released (f : Frames) (k : ℕ) (r : Run Frames ℕ) : Type 0 where
  pub word : ℕ
  pub after : Frames
  pub returns : r ≡ done word after
  pub counted : after.used_frames ≡ f.used_frames
  pub marked : (j : ℕ) → mark after j ≡ (if k == j then 0 else mark f j)
  pub others : (i : ℕ) → i ≢ k / 32 → after.bitmap i ≡ f.bitmap i
  pub words : IsBitmap f → IsBitmap after

-- Below 2 GiB `clear_frame` resets the bit of the frame that holds the address, no other bit, and
-- not the counter of frames in use.
clear_frame-Released : (f : Frames) (a : ℕ) → a < 2 ^ 31 → Released f (a / 4096) (clear_frame a f)
clear_frame-Released f a h = record {
  word = _;
  after = _;
  returns = clear_frame-eq f a h;
  counted = refl;
  marked = λ j. mark-clear f (a / 4096) j;
  others = λ i ne. ground arith;
  words = λ w i. update-lt f (a / 4096) _ i w (bit_and-lt 32 _ _ (w (a / 4096 / 32)));
}

-- The first free frame lies behind a full first word.
pub first_free_high : (f : Frames) (k : ℕ) → f.bitmap 0 ≡ 0xFFFFFFFF → IsFirstFree f 0 k → 32 ≤ k
first_free_high f k full first = elim (lt-or-le k 32) [
  | inl below ↦
      let m : mark f k ≡ 1 =
        (let q : k / 32 ≡ 0 = omega arith in rw (q, full) (bit-ones 32 (k % 32) (omega arith))) in
      absurd (omega (arith, first.is_free))
  | inr high ↦ high
]

-- Hand out a frame, clear it, and ask again.
abbrev pub alloc_clear_alloc : Cmd Frames ℕ
alloc_clear_alloc = do
  address ← get_next_free_process_frame
  word ← clear_frame address
  get_next_free_process_frame

-- With word 0 full and a first free frame below 2 GiB: that frame is handed out, cleared and handed
-- out again; it is then the only frame in use beyond those at the start, and has been counted
-- twice.
pub clear_frame_reuse :
    (f : Frames) (k : ℕ)
    → f.bitmap 0 ≡ 0xFFFFFFFF
    → IsFirstFree f 0 k
    → k < 2 ^ 19
    → (g : Frames) × (alloc_clear_alloc f ≡ done (k * 4096) g)
      × ((j : ℕ) → mark g j ≡ (if k == j then 1 else mark f j))
      × (g.used_frames ≡ u32 (u32 (f.used_frames + 1) + 1))
clear_frame_reuse f k full first low =
    let one = get_next_free_process_frame-Claimed f k full first low in
    let e : k * 4096 / 4096 ≡ k = omega arith in
    let back : Released one.after k (clear_frame (k * 4096) one.after) =
      rw e at (clear_frame-Released one.after (k * 4096) (omega arith)) in
    let high = first_free_high f k full first in
    let same : (j : ℕ) → mark back.after j ≡ mark f j =
      λ j. ground (arith, back.marked j, one.marked j, first.is_free) in
    let first' : IsFirstFree back.after 0 k = record {
      from = omega arith;
      is_free = rw (same k) first.is_free;
      before = λ j x y. rw (same j) (first.before j x y);
    } in
    let full' : back.after.bitmap 0 ≡ 0xFFFFFFFF =
      rw (back.others 0 (omega arith), one.others 0 (omega arith)) full in
    let two = get_next_free_process_frame-Claimed back.after k full' first' low in
    (
      two.after,
      rw (one.returns, back.returns) two.returns,
      λ j. ground (arith, two.marked j, same j),
      omega (arith, two.counted, back.counted, one.counted),
    )
