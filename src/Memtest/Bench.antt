-- ===== src/Memtest/Bench.antt =====
-- The state that the benchmarks of lib/memtest.c work on: the kernel with its heap, the screen, and
-- the processor's time-stamp counter.
use raxzus_heap_research.Base.{Run, done, hang, fault, Cmd, u32, ℕ, ◌+◌}
use raxzus_heap_research.Machine.{Machine}
use raxzus_heap_research.Heap.Route.{Kernel}
use raxzus_heap_research.Console.Screen.{Screen}

-- `reads` counts the readings of the counter.
pub record Bench : Type 0 where
  pub kernel : Kernel
  pub screen : Screen
  pub reads : ℕ

abbrev pub on_kernel_state : {A : Type 0} → Run Kernel A → Cmd Bench A
on_kernel_state (done a k) b = done a (record b { kernel = k })
on_kernel_state hang b = hang
on_kernel_state fault b = fault

abbrev pub with_kernel : {A : Type 0} → Cmd Kernel A → Cmd Bench A
with_kernel c b = on_kernel_state (c b.kernel) b

abbrev pub on_machine_state : {A : Type 0} → Run Machine A → Cmd Bench A
on_machine_state (done a m) b = done a (record b { kernel = record b.kernel { machine = m } })
on_machine_state hang b = hang
on_machine_state fault b = fault

abbrev pub with_machine : {A : Type 0} → Cmd Machine A → Cmd Bench A
with_machine c b = on_machine_state (c b.kernel.machine) b

abbrev pub on_screen_state : {A : Type 0} → Run Screen A → Cmd Bench A
on_screen_state (done a s) b = done a (record b { screen = s })
on_screen_state hang b = hang
on_screen_state fault b = fault

abbrev pub with_screen : {A : Type 0} → Cmd Screen A → Cmd Bench A
with_screen c b = on_screen_state (c b.screen) b

-- `rdtsc_start` and `rdtsc_end`: the low word of the counter at the next reading.
unfoldable pub rdtsc : (tsc : ℕ → ℕ) → Cmd Bench ℕ
rdtsc tsc b = done (u32 (tsc b.reads)) (record b { reads = b.reads + 1 })
