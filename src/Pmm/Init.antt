-- ===== src/Pmm/Init.antt =====
-- `init_pmm` of lib/pmm.c: the frames of the kernel's image are in use, and no others.
use raxzus_heap_research.Base.{
  ltb, leb, if◌then◌else◌, bit-zero, Run, done, u32, sub32, update, ℕ, zero, suc, ◌+◌, ◌-◌, ◌*◌,
  ◌/◌, ◌%◌, ◌^◌, ◌≤◌, ◌<◌, bit_or, ◌≡◌, refl, sym, subst, true, ◌&&◌, arith,
}
use raxzus_heap_research.Pmm.{bitmap_size, Frames, mark_kernel, init_pmm}
use raxzus_heap_research.Pmm.Marks.{mark, mark-set, set_frame_page}

-- The outcome of setting the frames from `k` up to `top` in turn.
record Marked (f : Frames) (k top : ℕ) (r : Run Frames (Unit {0})) : Type 0 where
  after : Frames
  returns : r ≡ done tt after
  counted : after.used_frames ≡ u32 (f.used_frames + (top - k))
  marked : (j : ℕ) → mark after j ≡ (if leb k j && ltb j top then 1 else mark f j)

mark_kernel-Marked :
    (left k top addr : ℕ) (f : Frames)
    → addr ≡ k * 4096
    → k + left ≡ top
    → top ≤ 2 ^ 19
    → f.used_frames < 2 ^ 32
    → Marked f k top (mark_kernel left addr f)
unfolding mark_kernel
mark_kernel-Marked zero k top addr f at_page e h c = record {
  after = f;
  returns = refl;
  counted = omega arith;
  marked = λ j. ground arith;
}
mark_kernel-Marked (suc left) k top addr f at_page e h c =
    let word = bit_or (f.bitmap (k / 32)) (2 ^ (k % 32)) in
    let g : Frames = record f {
      bitmap = update f.bitmap (k / 32) word;
      used_frames = u32 (f.used_frames + 1);
    } in
    let rest =
      mark_kernel-Marked left (k + 1) top (addr + 4096) g (omega arith) (omega arith) h
        (omega arith) in
    record {
      after = rest.after;
      returns = rw (set_frame_page f k addr at_page (omega arith)) rest.returns;
      counted = omega (arith, rest.counted);
      marked = λ j. ground (arith, rest.marked j, mark-set f k j);
    }

-- The number of pages that the kernel's image takes, up to `_heap_start`.
abbrev pub kernel_pages : ℕ → ℕ
kernel_pages heap_start = (heap_start - 0xC0000000 + 4095) / 4096

-- For a kernel that ends in the upper gigabyte, `init_pmm` leaves the frames of the kernel's image
-- in use and all others free, and adds their number to the counter.
pub init_pmm_lem :
    (f : Frames) (heap_start : ℕ)
    → 0xC0000000 ≤ heap_start
    → heap_start < 2 ^ 32
    → f.used_frames < 2 ^ 32
    → (g : Frames) × (init_pmm heap_start f ≡ done tt g)
      × (g.used_frames ≡ u32 (f.used_frames + kernel_pages heap_start))
      × ((j : ℕ) → j < 2 ^ 20 → mark g j ≡ (if ltb j (kernel_pages heap_start) then 1 else 0))
unfolding init_pmm
init_pmm_lem f heap_start high word counter =
    let blank : Frames = record f { bitmap = λ i. if ltb i bitmap_size then 0 else f.bitmap i } in
    let n : (sub32 heap_start 0xC0000000 + 4095) / 4096 ≡ kernel_pages heap_start = omega arith in
    let m =
      mark_kernel-Marked (kernel_pages heap_start) 0 (kernel_pages heap_start) 0 blank refl
        (omega arith) (omega arith) counter in
    (
      m.after,
      subst (λ t. mark_kernel t 0 blank ≡ done tt m.after) (sym n) m.returns,
      omega (arith, m.counted),
      λ j below.
          (let clear : mark blank j ≡ 0 =
              (let i : ltb (j / 32) bitmap_size ≡ true = ground arith in
                rw i (bit-zero (j % 32))) in
            ground (arith, m.marked j, clear)),
    )
