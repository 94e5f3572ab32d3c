-- ===== src/Examples/GrowthRuns.antt =====
-- A size class of lib/heap_domain.c that takes its first page.
use raxzus_heap_research.Pmm.Marks.{mark}
use raxzus_heap_research.Examples.FrameRuns.{low_used, low_used-IsFirstFree}
use raxzus_heap_research.Base.{
  ◌==◌, if◌then◌else◌, done, ℕ, ◌*◌, ◌<◌, ◌≡◌, refl, sym, ◌∙◌, ◌≢◌, some, arith,
}
use raxzus_heap_research.Machine.{Machine, resolve}
use raxzus_heap_research.Machine.Access.{kernel_base, resolve-user}
use raxzus_heap_research.Machine.Walk.{translate-Walk}
use raxzus_heap_research.Paging.Present.{IsTables}
use raxzus_heap_research.Heap.Domain.{heap_domain_alloc}
use raxzus_heap_research.Heap.Lifo.{HasFree}
use raxzus_heap_research.Heap.Link.{blocks}
use raxzus_heap_research.Heap.Growth.{IsReady, heap_domain_alloc_lem}
use raxzus_heap_research.Examples.HeapRuns.{layout}
use raxzus_heap_research.Examples.PageRuns.{two_tables, domain_1k, before}
use raxzus_heap_research.Examples.MapRuns.{tables}

domain_tables : IsTables two_tables 0x202000
domain_tables = record {
  directory = omega arith;
  direct = λ v h p. ground arith;
  off_directory = λ v w h h' p e. absurd (ground arith);
  disjoint = λ v w h h' p p' e. ground arith;
}

-- No page is mapped yet.
pub nothing_mapped : (v pa : ℕ) → v < kernel_base → resolve layout two_tables v ≢ some pa
nothing_mapped v pa user e =
    let w =
      translate-Walk two_tables 0x200000 v pa (sym (resolve-user layout two_tables v user) ∙ e) in
    absurd (ground (arith, w.has_table, w.has_page))

-- The domain with blocks of another size is as ready for the frame.
pub ready :
    (size count : ℕ)
    → IsReady layout two_tables
        (record domain_1k { block_size = size; blocks_per_page = count })
        0x202000
        (768 * 4096)
ready size count = record {
  kernel_high = omega arith;
  kernel_word = omega arith;
  directory = refl;
  aligned = refl;
  not_null = λ e. absurd (omega (arith, e));
  user = omega arith;
  kernel_tables = tables;
  kernel_present = refl;
  domain_tables = domain_tables;
  domain_present = refl;
  outside = record {
    not_directory = λ w h e. absurd (omega arith);
    not_tables = λ w h p e. absurd (ground arith);
  };
  apart = record {
    off_directory = λ v w pa p p' e. absurd (nothing_mapped v pa p e);
    off_tables = λ v w pa p p' e. absurd (nothing_mapped v pa p e);
    injective = λ v w pa p p' e. absurd (nothing_mapped v pa p e);
  };
  unused = record {
    off_directory = λ o w h h' e. absurd (omega arith);
    off_tables = λ o w h h' p e. absurd (ground arith);
    unmapped = λ o v pa h h' e. absurd (nothing_mapped v pa h' e);
  };
}

heap_domain_alloc_lem_example :
    (g : Machine) × (head : ℕ) × (heap_domain_alloc layout domain_1k before
      ≡ done
          (record domain_1k { next_free_block = head; next_virt_addr = 0x10001000 }, 0x10000000)
          g)
    × HasFree layout g
        (record domain_1k { next_free_block = head; next_virt_addr = 0x10001000 })
        (blocks 3 1 0x10000000 1024)
    × ((j : ℕ) → mark g.frames j ≡ (if 768 == j then 1 else mark (low_used 24) j))
heap_domain_alloc_lem_example =
    heap_domain_alloc_lem layout before domain_1k 0x202000 768 3 refl (low_used-IsFirstFree 24)
      (omega arith) (ready 1024 4) refl refl (omega arith) (omega arith)
