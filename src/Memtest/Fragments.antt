-- ===== src/Memtest/Fragments.antt =====
-- `cmd_memtest_v1` of lib/memtest.c: 40000 blocks of five sizes are filled, checked, freed in a
-- pattern of holes, and checked again, with timings in between.
use raxzus_heap_research.Heap.Domain.{null}
use raxzus_heap_research.Console.Print.{Arg, int, kprintf}
use raxzus_heap_research.Console.Boxes.{in_color}
use raxzus_heap_research.Memtest.Sqrt.{isqrt}
use raxzus_heap_research.Memtest.Samples.{no_samples, add_samples, average, variance}
use raxzus_heap_research.Base.{
  ◌==◌, if◌then◌else◌, done, fault, Cmd, pure, ◌>>=◌, ◌>>◌, u32, sub32, codes, ℕ, zero, suc, ◌+◌,
  ◌*◌, ◌%◌, Bool, true, false, Option, none, some, List, [], ◌∷◌,
}
use raxzus_heap_research.Machine.{Layout, load, store}
use raxzus_heap_research.Heap.Route.{kmalloc, kfree_heap}
use raxzus_heap_research.Memtest.Bench.{Bench, with_kernel, with_machine, with_screen, rdtsc}

abbrev pub frag_n : ℕ
frag_n = 40000

abbrev pub yellow : ℕ
yellow = 0x0E

abbrev pub red : ℕ
red = 0x04

abbrev pub bright_green : ℕ
bright_green = 0x02

-- One of the five kinds of blocks: its array of pointers, the size and the factor of its values.
pub record Kind : Type 0 where
  pub array : ℕ
  pub size : ℕ
  pub factor : ℕ

-- `(i + 1) * factor`, as a word.
abbrev pub expected : Kind → ℕ → ℕ
expected kind i = u32 ((i + 1) * kind.factor)

-- `&s64[i]` and the like.
abbrev pub slot : Kind → ℕ → ℕ
slot kind i = u32 (kind.array + 4 * i)

-- A check that goes on, or ends the command.
abbrev pub continue_if : Bool → Cmd Bench Bool → Cmd Bench Bool
continue_if true rest = rest
continue_if false rest = pure false

module _ (l : Layout) where
  -- `s[i] = kmalloc(size); *(uint32_t*)s[i] = (i+1)*factor;`
  unfoldable pub fill_slot : (i : ℕ) → Kind → Cmd Bench (Unit {0})
  unfolding kmalloc store load
  fill_slot i kind = do
    p ← with_kernel (kmalloc l kind.size)
    with_machine (store l (slot kind i) p)
    q ← with_machine (load l (slot kind i))
    with_machine (store l q (expected kind i))

  unfoldable pub fill_slots : (i : ℕ) → List Kind → Cmd Bench (Unit {0})
  unfolding fill_slot
  fill_slots i [] = pure tt
  fill_slots i (kind ∷ kinds) = do fill_slot i kind; fill_slots i kinds

  -- The rounds from `i` on.
  unfoldable pub fill_rounds : (left i : ℕ) → List Kind → Cmd Bench (Unit {0})
  unfolding fill_slots
  fill_rounds zero i kinds = pure tt
  fill_rounds (suc left) i kinds = do fill_slots i kinds; fill_rounds left (i + 1) kinds

  -- Whether the values of round `i` are still there; the first that is not ends the command.
  unfoldable pub check_slots : (i : ℕ) → List Kind → Cmd Bench Bool
  unfolding load
  check_slots i [] = pure true
  check_slots i (kind ∷ kinds) = do
    p ← with_machine (load l (slot kind i))
    x ← with_machine (load l p)
    continue_if (x == expected kind i) (check_slots i kinds)

  -- The rounds from `i` on, with the kinds that a round checks.
  unfoldable pub check_rounds : (left i : ℕ) → (ℕ → List Kind) → Cmd Bench Bool
  unfolding check_slots
  check_rounds zero i kinds = pure true
  check_rounds (suc left) i kinds = do
    ok ← check_slots i (kinds i)
    continue_if ok (check_rounds left (i + 1) kinds)

  -- `kfree(s[i])`: the macro also sets the pointer to NULL.
  unfoldable pub free_slot : (i : ℕ) → Kind → Cmd Bench (Unit {0})
  unfolding kfree_heap load store
  free_slot i kind = do
    p ← with_machine (load l (slot kind i))
    with_kernel (kfree_heap l p)
    with_machine (store l (slot kind i) null)

  -- Every other block of a kind.
  unfoldable pub free_even : (left i : ℕ) → Kind → Cmd Bench (Unit {0})
  unfolding free_slot
  free_even zero i kind = pure tt
  free_even (suc left) i kind = do
    if i % 2 == 0 then free_slot i kind else pure tt
    free_even left (i + 1) kind

  unfoldable pub free_slots : (i : ℕ) → List Kind → Cmd Bench (Unit {0})
  unfolding free_slot
  free_slots i [] = pure tt
  free_slots i (kind ∷ kinds) = do free_slot i kind; free_slots i kinds

  unfoldable pub free_rounds : (left i : ℕ) → List Kind → Cmd Bench (Unit {0})
  unfolding free_slots
  free_rounds zero i kinds = pure tt
  free_rounds (suc left) i kinds = do free_slots i kinds; free_rounds left (i + 1) kinds

  -- `kfree` of the arrays themselves.
  unfoldable pub free_arrays : List Kind → Cmd Bench (Unit {0})
  unfolding kfree_heap
  free_arrays [] = pure tt
  free_arrays (kind ∷ kinds) = do with_kernel (kfree_heap l kind.array); free_arrays kinds

  module _ (tsc : ℕ → ℕ) where
    -- One timing: a block of 1024 bytes is taken, written and given back.
    unfoldable pub time_block : Cmd Bench ℕ
    unfolding kmalloc kfree_heap store rdtsc
    time_block = do
      t1 ← rdtsc tsc
      p ← with_kernel (kmalloc l 1024)
      with_machine (store l p 42)
      with_kernel (kfree_heap l p)
      t2 ← rdtsc tsc
      pure (sub32 t2 t1)

    unfoldable pub time_blocks : (left : ℕ) → Cmd Bench (List ℕ)
    unfolding time_block
    time_blocks zero = pure []
    time_blocks (suc left) = do d ← time_block; rest ← time_blocks left; pure (d ∷ rest)

    -- `kprintf_yellow(text)` and the other colours.
    abbrev tell : ℕ → List ℕ → List Arg → Cmd Bench (Unit {0})
    tell color text args = with_screen (in_color color text args)

    abbrev panic : Cmd Bench (Unit {0})
    panic = tell red (codes "One of the blocks has been corrupted, PANIC!!") []

    abbrev some_result : Option ℕ → Cmd Bench ℕ
    some_result none b = fault
    some_result (some r) b = done r b

    -- The line of a series of 32 timings, and its average.
    unfoldable pub report_samples : (front : List ℕ) → List ℕ → Cmd Bench ℕ
    unfolding add_samples average variance isqrt kprintf
    report_samples front samples =
        let s = add_samples samples no_samples in
        let avg = average s in
        do
          root ← some_result (isqrt (variance samples avg))
          with_screen (kprintf front (int s.least ∷ int s.greatest ∷ int avg ∷ int root ∷ []))
          pure avg

    -- The part behind the second check.
    unfoldable pub measure : List Kind → List Kind → Cmd Bench (Unit {0})
    unfolding time_blocks free_rounds report_samples kfree_heap rdtsc kprintf
    measure kinds arrays = do
      fragmented ← time_blocks 32
      frag_avg ←
          report_samples (codes "FRAGMENTED  min=%d max=%d avg=%d stddev=%d cycles\n") fragmented
      free_rounds frag_n 0 kinds
      free_arrays arrays
      clean ← time_blocks 32
      tid1 ← rdtsc tsc
      tid2 ← rdtsc tsc
      with_screen (kprintf (codes "The empty call is %d\n") (int (sub32 tid2 tid1) ∷ []))
      clean_avg ← report_samples (codes "CLEAN       min=%d max=%d avg=%d stddev=%d cycles\n") clean
      with_screen
          (kprintf (codes "O(1) delta (avg): %d cycles\n") (int (sub32 frag_avg clean_avg) ∷ []))

    -- The part behind the first check.
    unfoldable pub punch_holes : (k64 k128 k256 k512 k1024 : Kind) → Cmd Bench (Unit {0})
    unfolding free_even check_rounds measure in_color
    punch_holes k64 k128 k256 k512 k1024 = do
      tell bright_green
          (codes
            "Allocation of all blocks finished successfully with no corruption, now comensing swish cheese\n")
          []
      tell yellow (codes "Freeing every other 64 block:\n") []
      free_even frag_n 0 k64
      free_even frag_n 0 k256
      tell bright_green
          (codes "The swiss cheese has been done successfully, Now checking heap data corruption\n")
          []
      kept ← check_rounds frag_n 0 (λ i.
          if i % 2 == 0 then k128 ∷ k512 ∷ k1024 ∷ [] else k64 ∷ k256 ∷ k128 ∷ k512 ∷ k1024 ∷ [])
      elim kept [
        | false ↦ panic
        | true ↦
            measure (k64 ∷ k128 ∷ k256 ∷ k512 ∷ k1024 ∷ []) (k64 ∷ k256 ∷ k512 ∷ k128 ∷ k1024 ∷ [])
      ]

    unfoldable pub cmd_memtest_v1 : Cmd Bench (Unit {0})
    unfolding kmalloc fill_rounds check_rounds punch_holes in_color
    cmd_memtest_v1 = do
      s64 ← with_kernel (kmalloc l (frag_n * 4))
      s128 ← with_kernel (kmalloc l (frag_n * 4))
      s256 ← with_kernel (kmalloc l (frag_n * 4))
      s512 ← with_kernel (kmalloc l (frag_n * 4))
      s1024 ← with_kernel (kmalloc l (frag_n * 4))
      tell yellow (codes "\nNow allocating %d different types of blocks\n") (int frag_n ∷ [])
      let k64 : Kind = record { array = s64; size = 50; factor = 3 }
      let k128 : Kind = record { array = s128; size = 100; factor = 7 }
      let k256 : Kind = record { array = s256; size = 200; factor = 11 }
      let k512 : Kind = record { array = s512; size = 500; factor = 13 }
      let k1024 : Kind = record { array = s1024; size = 1000; factor = 17 }
      let kinds = k64 ∷ k128 ∷ k256 ∷ k512 ∷ k1024 ∷ []
      fill_rounds frag_n 0 kinds
      tell yellow
          (codes
            "Testing if the newly allocated blocks keep the correct values or if they are corrupted\n")
          []
      intact ← check_rounds frag_n 0 (λ i. kinds)
      elim intact [ false ↦ panic | true ↦ punch_holes k64 k128 k256 k512 k1024 ]
