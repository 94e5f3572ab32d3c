-- ===== src/Memtest/Commands.antt =====
-- `cmd_memtest_v2` of lib/memtest.c: two large buffers are written and verified, and allocations of
-- one, eight and 256 pages are timed. `cli` and `sti` have no counterpart: nothing interrupts here.
use Prim.Native.Nat.{bit_xor}
use raxzus_heap_research.Base.{
  ltb, ◌==◌, if◌then◌else◌, Cmd, pure, ◌>>=◌, ◌>>◌, sub32, codes, ℕ, ◌*◌, ◌/◌, ◌%◌, ◌^◌, ◌||◌, List,
  [], ◌∷◌,
}
use raxzus_heap_research.Machine.{Layout}
use raxzus_heap_research.Heap.Domain.{null}
use raxzus_heap_research.Heap.Route.{kmalloc, kfree_heap}
use raxzus_heap_research.Console.Print.{Arg, int, kprintf}
use raxzus_heap_research.Console.Boxes.{in_color}
use raxzus_heap_research.Memtest.Bench.{Bench, with_kernel, with_machine, with_screen, rdtsc}
use raxzus_heap_research.Memtest.Buffers.{fill_buffer, count_bad}
use raxzus_heap_research.Memtest.Fragments.{yellow, red, bright_green}

abbrev pub white : ℕ
white = 0x0F

-- The patterns of the two buffers, as bytes.
abbrev pub low_byte : ℕ → ℕ
low_byte i = i % 2 ^ 8

abbrev pub mixed : ℕ → ℕ
mixed i = bit_xor i (i / 2 ^ 8) % 2 ^ 8

abbrev pub tell : ℕ → List ℕ → List Arg → Cmd Bench (Unit {0})
tell color text args = with_screen (in_color color text args)

abbrev pub write : List ℕ → List Arg → Cmd Bench (Unit {0})
write text args = with_screen (kprintf text args)

-- The gap between the buffers, where both were given.
unfoldable pub report_gap : (buf64k buf1m : ℕ) → Cmd Bench (Unit {0})
unfolding kprintf in_color
report_gap buf64k buf1m = if buf64k == null || buf1m == null then pure tt else (do
  write (codes "\n  Address gap between 64K and 1MB regions: %d bytes\n")
      (int (sub32 buf1m buf64k) ∷ [])
  if ltb buf64k buf1m
      then tell bright_green
          (codes "  PASS: Regions are non-overlapping and virtually contiguous\n") []
      else tell red (codes "  FAIL: Region addresses overlap!\n") [])

module _ (l : Layout) where
  -- The test of one buffer, with the lines that it prints.
  unfoldable pub test_buffer :
      (size : ℕ) (pattern : ℕ → ℕ) (missing pass failed : List ℕ) → (buf : ℕ) → Cmd Bench (Unit {0})
  unfolding kprintf in_color fill_buffer count_bad
  test_buffer size pattern missing pass failed buf =
      if buf == null then tell red missing [] else (do
        write (codes "  Got pointer: 0x%x\n") (int buf ∷ [])
        with_machine (fill_buffer l pattern size 0 buf)
        bad ← with_machine (count_bad l pattern size 0 buf 0)
        if bad == 0 then tell bright_green pass [] else tell red failed (int bad ∷ []))

  module _ (tsc : ℕ → ℕ) where
    -- `t1 - t0` around one `kmalloc`.
    unfoldable pub time_alloc : (size : ℕ) → Cmd Bench (ℕ × ℕ)
    unfolding kmalloc rdtsc
    time_alloc size = do
      t0 ← rdtsc tsc
      p ← with_kernel (kmalloc l size)
      t1 ← rdtsc tsc
      pure (p, sub32 t1 t0)

    unfoldable pub time_pages : Cmd Bench (ℕ × ℕ × ℕ)
    unfolding time_alloc kprintf in_color
    time_pages = do
      tell yellow (codes "\n  Timing: kmalloc cost per page\n") []
      (tbuf, d) ← time_alloc 4096
      write (codes "    1 page  (4 KB) : %d cycles\n") (int d ∷ [])
      (tbuf8, d8) ← time_alloc (8 * 4096)
      write (codes "    8 pages (32 KB): %d cycles  (per-page: %d)\n") (int d8 ∷ int (d8 / 8) ∷ [])
      (tbig, d256) ← time_alloc (1024 * 1024)
      write (codes "    256 pages (1MB): %d cycles  (per-page: %d)\n")
          (int d256 ∷ int (d256 / 256) ∷ [])
      pure (tbuf, tbuf8, tbig)

    unfoldable pub cmd_memtest_v2 : Cmd Bench (Unit {0})
    unfolding kmalloc kfree_heap test_buffer report_gap time_pages in_color kprintf
    cmd_memtest_v2 = do
      tell white (codes "\n========================================\n") []
      tell white (codes "   RAXZUS HEAP - MEMTEST 2 (LARGE ALLOC)\n") []
      tell white (codes "========================================\n\n") []
      tell yellow (codes "[PHASE 3] Large Allocation Test (kmalloc)\n") []
      write (codes "  Allocates N contiguous 4KB pages as a single region.\n") []
      write (codes "  Verifies virtual contiguity and write/read correctness.\n\n") []
      write (codes "  Allocating 64 KB (16 pages)...\n") []
      buf64k ← with_kernel (kmalloc l (64 * 1024))
      test_buffer (64 * 1024) low_byte (codes "  FAIL: kmalloc(64K) returned NULL\n")
          (codes "  PASS: 64 KB written and verified (65536 bytes, zero errors)\n")
          (codes "  FAIL: %d bytes corrupted in 64 KB region\n") buf64k
      write (codes "\n  Allocating 1 MB (256 pages)...\n") []
      buf1m ← with_kernel (kmalloc l (1024 * 1024))
      test_buffer (1024 * 1024) mixed (codes "  FAIL: kmalloc(1MB) returned NULL\n")
          (codes "  PASS: 1 MB written and verified (1048576 bytes, zero errors)\n")
          (codes "  FAIL: %d bytes corrupted in 1 MB region\n") buf1m
      report_gap buf64k buf1m
      (tbuf, tbuf8, tbig) ← time_pages
      with_kernel (kfree_heap l tbig)
      with_kernel (kfree_heap l tbuf)
      with_kernel (kfree_heap l tbuf8)
      if buf64k == null then pure tt else with_kernel (kfree_heap l buf64k)
      if buf1m == null then pure tt else with_kernel (kfree_heap l buf1m)
      tell white (codes "\n========================================\n") []
      tell white (codes "   MEMTEST 2 COMPLETE\n") []
      tell white (codes "========================================\n\n") []
