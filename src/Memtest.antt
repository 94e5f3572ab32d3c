-- ===== src/Memtest.antt =====
-- lib/memtest.c: the benchmarks of the heap.
pub mod Bench
pub mod Sqrt
pub mod Samples
pub mod Buffers
pub mod Fragments
pub mod Commands
pub mod Verdicts
