-- ===== src/Examples/GrownRuns.antt =====
-- A history of lib/heap_domain.c on the machine with no heap page: the class of 64 bytes grows, and
-- the block that it gives is freed again.
use raxzus_heap_research.Heap.NewBlocks.{grows-IsHeap}
use raxzus_heap_research.Heap.Held.{frees-IsHeap}
use raxzus_heap_research.Heap.Rebuild.{replaced}
use raxzus_heap_research.Heap.Histories.{Valid, Steps-Valid}
use raxzus_heap_research.Base.{done, ℕ, ◌<◌, ◌≡◌, refl, false, Option, none, some, List, [], arith}
use raxzus_heap_research.Machine.{resolve}
use raxzus_heap_research.Machine.Access.{kernel_base, peek}
use raxzus_heap_research.Heap.Domain.{null}
use raxzus_heap_research.Heap.Route.{
  SizeClass, heap_64, heap_128, heap_256, heap_512, heap_1k, heap_2k, heap_4k, class_size,
  class_base, small, owner_of_size, owner_of_address, Kernel, get_domain, kmalloc, kfree_heap,
}
use raxzus_heap_research.Heap.Chain.{nil, FreeList}
use raxzus_heap_research.Heap.PageView.{CanGrow}
use raxzus_heap_research.Heap.Owned.{owner-IsBlock}
use raxzus_heap_research.Heap.Live.{
  Held, taken, released, HasRoom, grows, frees, Steps, stop, step, IsBlock, IsHeap,
}
use raxzus_heap_research.Examples.FrameRuns.{low_used-IsFirstFree}
use raxzus_heap_research.Examples.HeapRuns.{layout, kernel}
use raxzus_heap_research.Examples.PageRuns.{two_tables, domain_1k, before}
use raxzus_heap_research.Examples.GrowthRuns.{nothing_mapped, ready}

-- The kernel whose domains have no block; the class of 64 bytes has page tables.
abbrev bare : Kernel
bare = record kernel {
  machine = before;
  heap_64 = record domain_1k { block_size = 64; blocks_per_page = 64 };
}

abbrev nobody_holds : Held
nobody_holds a = false

abbrev no_blocks : SizeClass → List ℕ
no_blocks c = []

no_chain :
    (c : SizeClass) → FreeList (peek layout two_tables) (get_domain c bare).next_free_block []
unfolding get_domain
no_chain heap_64 = nil
no_chain heap_128 = nil
no_chain heap_256 = nil
no_chain heap_512 = nil
no_chain heap_1k = nil
no_chain heap_2k = nil
no_chain heap_4k = nil

bare-IsHeap : IsHeap layout bare nobody_holds no_blocks
bare-IsHeap = record {
  apart = (ready 64 64).apart;
  chain = no_chain;
  free_block = λ c p i. cc;
  live_block = λ p h. cc;
  not_held = λ c p i. refl;
}

unmapped : (v : ℕ) → v < kernel_base → resolve layout two_tables v ≡ none
unmapped v user = go (resolve layout two_tables v) refl
  where
    go : (o : Option ℕ) → resolve layout two_tables v ≡ o → resolve layout two_tables v ≡ none
    go none e = e
    go (some pa) e = absurd (nothing_mapped v pa user e)

can : CanGrow layout before (get_domain heap_64 bare)
unfolding get_domain
can = record {
  ddir = 0x202000;
  frame = 768;
  full = refl;
  first = low_used-IsFirstFree 24;
  low = omega arith;
  ready = ready 64 64;
  table_apart = λ v pa user e same. nothing_mapped v pa user e;
  not_mapped = λ v user same. unmapped v user;
}

fit : HasRoom heap_64 (get_domain heap_64 bare)
unfolding get_domain class_size class_base
fit = record {
  block_size = refl;
  blocks_per_page = refl;
  from_base = omega arith;
  to_end = omega arith;
}

empty : (get_domain heap_64 bare).next_free_block ≡ null
unfolding get_domain
empty = refl

first_block : (get_domain heap_64 bare).next_virt_addr ≡ 0x10000000
unfolding get_domain
first_block = refl

for_48 : owner_of_size 48 ≡ small heap_64
for_48 = unfold owner_of_size in refl

abbrev grown_kernel : Kernel
grown_kernel = (grows-IsHeap layout bare-IsHeap heap_64 empty can fit 48 for_48).0

abbrev one_held : Held
one_held = taken 0x10000000 nobody_holds

grown : (kmalloc layout 48 bare ≡ done 0x10000000 grown_kernel) × Valid layout grown_kernel one_held
unfolding get_domain
grown =
    let g = grows-IsHeap layout bare-IsHeap heap_64 empty can fit 48 for_48 in
    (g.1, (replaced heap_64 _ no_blocks, g.4))

first-IsBlock : IsBlock layout grown_kernel.machine.ram heap_64 0x10000000
first-IsBlock =
    owner-IsBlock layout grown.1.1 heap_64 0x10000000 refl (unfold owner_of_address in refl)

freed : (k' : Kernel) × (kfree_heap layout 0x10000000 grown_kernel ≡ done tt k')
freed = let f = frees-IsHeap layout grown.1.1 heap_64 0x10000000 refl first-IsBlock in (f.0, f.1)

-- 48 bytes are asked for with no block free, and given back.
abbrev growth_history : Steps layout bare nobody_holds freed.0 (released 0x10000000 one_held)
growth_history =
    step (grows heap_64 48 0x10000000 for_48 empty can fit grown.0)
      (step (frees 0x10000000 refl freed.1) stop)

Steps-Valid_example : Valid layout freed.0 (released 0x10000000 one_held)
Steps-Valid_example = Steps-Valid growth_history (no_blocks, bare-IsHeap)
