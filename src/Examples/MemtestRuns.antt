-- ===== src/Examples/MemtestRuns.antt =====
-- The benchmarks of lib/memtest.c on the machine with one heap page, in a white screen.
use raxzus_heap_research.Heap.Chain.{has}
use raxzus_heap_research.Base.{
  codes, ℕ, zero, suc, ◌+◌, ◌*◌, ◌/◌, ◌%◌, ◌≤◌, ◌<◌, ◌≡◌, refl, ◌⊎◌, true, some, List, [], ◌∷◌,
  arith,
}
use raxzus_heap_research.Machine.{Machine}
use raxzus_heap_research.Machine.Bytes.{byte, word_base}
use raxzus_heap_research.Memtest.Sqrt.{isqrt, isqrt_lem}
use raxzus_heap_research.Memtest.Samples.{
  no_samples, add_samples, average, total, Within, average_lem,
}
use raxzus_heap_research.Memtest.Bench.{Bench}
use raxzus_heap_research.Examples.HeapRuns.{one_page, kernel}
use raxzus_heap_research.Examples.PrintRuns.{white_screen}

abbrev thousand : ℕ
thousand = 1000

isqrt_lem_example :
    (r : ℕ) × (isqrt thousand ≡ some r)
    × (((thousand ≡ 2) × (r ≡ 2)) ⊎ ((r * r ≤ thousand) × (thousand < (r + 1) * (r + 1))))
isqrt_lem_example = isqrt_lem thousand (omega arith)

-- Timings of 301 ticks and up.
abbrev timings_of : ℕ → List ℕ
timings_of zero = []
timings_of (suc left) = (301 + left) ∷ timings_of left

abbrev timings : List ℕ
timings = timings_of 32

average_lem_example :
    let s = add_samples timings no_samples in
    (has s.least timings ≡ true)
    × (has s.greatest timings ≡ true)
    × Within s.least s.greatest timings
    × (average s ≡ total timings / 32)
    × (s.least ≤ average s)
    × (average s ≤ s.greatest)
average_lem_example = average_lem timings refl (omega arith)

abbrev bench : Bench
bench = record { kernel = kernel; screen = white_screen; reads = 0 }

abbrev pass_line : List ℕ
pass_line = codes "  PASS\n"

-- The bytes of the page.
abbrev page_byte : ℕ → ℕ
page_byte j = let v = 0x10000000 + j in byte (one_page (0x300000 + word_base v % 4096)) (v % 4)
