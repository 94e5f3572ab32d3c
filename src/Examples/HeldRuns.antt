-- ===== src/Examples/HeldRuns.antt =====
-- Histories of lib/heap_domain.c on the machine with one heap page: block 0 is held, the blocks 1
-- and 2 are free.
use raxzus_heap_research.Heap.Domain.{Domain, null}
use raxzus_heap_research.Heap.Lifo.{HasFree}
use raxzus_heap_research.Heap.Classes.{InRegion}
use raxzus_heap_research.Heap.RoundTrip.{kmalloc-Popped}
use raxzus_heap_research.Base.{
  ◌==◌, ==→eq, done, ℕ, ◌+◌, ◌%◌, ◌≤◌, ◌<◌, ◌≡◌, refl, sym, subst, ◌≢◌, ◌⊎◌, true, false, some,
  List, [], ◌∷◌, arith,
}
use raxzus_heap_research.Machine.{dir_index, table_index, translate}
use raxzus_heap_research.Machine.Access.{peek}
use raxzus_heap_research.Heap.Route.{
  SizeClass, heap_64, heap_128, heap_256, heap_512, heap_1k, heap_2k, heap_4k, class_size,
  class_base, small, owner_of_size, owner_of_address, Kernel, get_domain, set_domain, kmalloc,
}
use raxzus_heap_research.Heap.Chain.{has, nil, FreeList}
use raxzus_heap_research.Heap.Live.{Held, taken, allocates, Steps, stop, step, IsBlock, IsHeap}
use raxzus_heap_research.Heap.Histories.{Valid, held_data_lem, allocates_fresh}
use raxzus_heap_research.Examples.HeapRuns.{
  layout, one_page, one_page-IsApart, machine, blocks_1_2, kernel, peek_block, machine-HasFree,
}

pub leads_one :
    (v : ℕ)
    → 0x10000000 ≤ v
    → v < 0x10001000
    → translate one_page 0x200000 v ≡ some (0x300000 + v % 4096)
unfolding translate
leads_one v lo hi =
    let top : dir_index v ≡ 64 = omega arith in
    let low : table_index v ≡ 0 = omega arith in rw (top, low) refl

pub mapped_one :
    (v : ℕ) → 0x10000000 ≤ v → v < 0x10001000 → (x : ℕ) × (peek layout one_page v ≡ some x)
mapped_one v lo hi =
    (one_page (0x300000 + v % 4096), peek_block v _ (omega arith) (leads_one v lo hi) refl)

multiple-IsBlock :
    (p : ℕ) → 0x10000000 ≤ p → p + 64 ≤ 0x10001000 → p % 64 ≡ 0 → IsBlock layout one_page heap_64 p
unfolding class_base class_size
multiple-IsBlock p lo hi al = record {
  inside = (lo, omega arith);
  aligned = al;
  mapped = λ o h four. mapped_one (p + o) (omega arith) (omega arith);
}

abbrev held_0 : Held
held_0 a = a == 0x10000000

abbrev free_lists : SizeClass → List ℕ
free_lists heap_64 = blocks_1_2
free_lists heap_128 = []
free_lists heap_256 = []
free_lists heap_512 = []
free_lists heap_1k = []
free_lists heap_2k = []
free_lists heap_4k = []

chains :
    (c : SizeClass)
    → FreeList (peek layout one_page) (get_domain c kernel).next_free_block (free_lists c)
unfolding get_domain
chains heap_64 = machine-HasFree.chain
chains heap_128 = nil
chains heap_256 = nil
chains heap_512 = nil
chains heap_1k = nil
chains heap_2k = nil
chains heap_4k = nil

free_cases :
    (c : SizeClass) (p : ℕ)
    → has p (free_lists c) ≡ true
    → (c ≡ heap_64) × ((p ≡ 0x10000040) ⊎ (p ≡ 0x10000080))
free_cases heap_64 p i = (refl, ground arith)
free_cases heap_128 p i = cc
free_cases heap_256 p i = cc
free_cases heap_512 p i = cc
free_cases heap_1k p i = cc
free_cases heap_2k p i = cc
free_cases heap_4k p i = cc

kernel-IsHeap : IsHeap layout kernel held_0 free_lists
kernel-IsHeap = record {
  apart = one_page-IsApart;
  chain = chains;
  free_block = λ c p i.
      let (e, at) = free_cases c p i in
      subst (λ t. IsBlock layout one_page t p) (sym e)
        (multiple-IsBlock p (ground arith) (ground arith) (ground arith));
  live_block = λ p h.
      let e = ==→eq p 0x10000000 h in
      (heap_64, multiple-IsBlock p (omega arith) (omega arith) (omega arith));
  not_held = λ c p i. let (e, at) = free_cases c p i in ground arith;
}

kernel-Valid : Valid layout kernel held_0
kernel-Valid = (free_lists, kernel-IsHeap)

abbrev with_block_1 : Held
with_block_1 = taken 0x10000040 held_0

allocation :
    (d : Domain) × (kmalloc layout 48 kernel
      ≡ done 0x10000040 (set_domain heap_64 kernel machine d))
    × HasFree layout machine d (0x10000080 ∷ [])
allocation =
    kmalloc-Popped layout kernel heap_64 48 0x10000040 (0x10000080 ∷ [])
      (unfold owner_of_size in refl) (unfold get_domain in machine-HasFree)

head_not_null : (get_domain heap_64 kernel).next_free_block ≢ null
unfolding get_domain
head_not_null e = absurd (omega (arith, e))

abbrev after_allocation : Kernel
after_allocation = set_domain heap_64 kernel machine allocation.0

-- A history: an allocation of 48 bytes while block 0 is held.
abbrev history : Steps layout kernel held_0 after_allocation with_block_1
history =
    step (allocates heap_64 48 0x10000040 (unfold owner_of_size in refl) head_not_null allocation.1)
      stop

held_data_lem_example :
    (with_block_1 0x10000000 ≡ true)
    × ((o : ℕ)
        → o < class_size heap_64
        → peek layout after_allocation.machine.ram (0x10000000 + o)
          ≡ peek layout kernel.machine.ram (0x10000000 + o))
held_data_lem_example =
    held_data_lem heap_64 0x10000000 history kernel-Valid refl (unfold owner_of_address in refl)
      (tt, tt)

allocates_fresh_example :
    (p : ℕ) × (k' : Kernel) × (kmalloc layout 48 kernel ≡ done p k')
    × (held_0 p ≡ false)
    × InRegion heap_64 p
    × (p % class_size heap_64 ≡ 0)
    × (48 ≤ class_size heap_64)
    × ((q o o' : ℕ) (c' : SizeClass)
        → held_0 q ≡ true
        → owner_of_address q ≡ small c'
        → o < class_size heap_64
        → o' < class_size c'
        → p + o ≢ q + o')
    × Valid layout k' (taken p held_0)
allocates_fresh_example =
    allocates_fresh heap_64 48 kernel-Valid (unfold owner_of_size in refl) head_not_null
