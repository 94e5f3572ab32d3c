-- ===== src/Examples/MapRuns.antt =====
-- `map_page` of lib/pmm.c on the kernel's directory, which has one table.
use raxzus_heap_research.Pmm.Marks.{mark}
use raxzus_heap_research.Machine.{Machine, translate}
use raxzus_heap_research.Paging.Direct.{IsPlaced}
use raxzus_heap_research.Paging.DirectMap.{map_kernel_memory_lem}
use raxzus_heap_research.Base.{
  ◌==◌, if◌then◌else◌, done, u32, ℕ, ◌+◌, ◌-◌, ◌*◌, ◌^◌, ◌≤◌, ◌<◌, ◌≡◌, refl, some, arith,
}
use raxzus_heap_research.Pmm.{get_next_free_kernel_frame}
use raxzus_heap_research.Pmm.Alloc.{Claimed, get_next_free_kernel_frame-Claimed}
use raxzus_heap_research.Paging.{map_page, map_kernel_memory}
use raxzus_heap_research.Paging.Present.{pde, IsTables, PageMapped, map_page-PageMapped}
use raxzus_heap_research.Paging.Fresh.{IsFresh, map_page_fresh-PageMapped}
use raxzus_heap_research.Examples.FrameRuns.{low_used, low_used-IsFirstFree}
use raxzus_heap_research.Examples.HeapRuns.{layout}
use raxzus_heap_research.Examples.PageRuns.{two_tables, before}

pub tables : IsTables two_tables 0x200000
tables = record {
  directory = omega arith;
  direct = λ v h p. ground arith;
  off_directory = λ v w h h' p e. absurd (ground arith);
  disjoint = λ v w h h' p p' e. ground arith;
}

map_page-PageMapped_example :
    PageMapped before 0x200000 0x10005000 0x300000
      (map_page layout 0xC0200000 0x10005000 0x300000 3 before)
map_page-PageMapped_example =
    map_page-PageMapped layout before 0x200000 0x10005000 0x300000 3 tables (omega arith) refl
      (omega arith) refl (omega arith) refl

kernel_frame_768 : Claimed (low_used 24) 768 (get_next_free_kernel_frame 0xC0200000 (low_used 24))
kernel_frame_768 =
    let first = low_used-IsFirstFree 24 in
    get_next_free_kernel_frame-Claimed (low_used 24) 768 0xC0200000 (omega arith) (omega arith) refl
      (record {
        from = omega arith;
        is_free = first.is_free;
        before = λ j a b. first.before j (omega arith) b;
      })
      (omega arith)

frame_768-IsFresh : IsFresh two_tables 0x200000 (768 * 4096)
frame_768-IsFresh = record {
  aligned = refl;
  direct = omega arith;
  off_directory = λ v w h h' e. absurd (omega arith);
  off_tables = λ v w h h' p e. absurd (ground arith);
  clean = λ v h. ground arith;
}

map_page_fresh-PageMapped_example :
    (mapped : PageMapped before 0x200000 0x20005000 0x400000
      (map_page layout 0xC0200000 0x20005000 0x400000 3 before))
    × (mapped.after.ram (pde 0x200000 0x20005000) ≡ 768 * 4096 + 3)
    × ((j : ℕ) → mark mapped.after.frames j ≡ (if 768 == j then 1 else mark (low_used 24) j))
    × (mapped.after.frames.used_frames ≡ u32 (32 * 24 + 1))
map_page_fresh-PageMapped_example =
    map_page_fresh-PageMapped layout before 0x200000 0x20005000 0x400000 3 768 tables (omega arith)
      refl refl kernel_frame_768 frame_768-IsFresh (omega arith) refl (omega arith) refl

layout-IsPlaced : IsPlaced layout 0x200000 0x400000
layout-IsPlaced = record {
  directory_at = refl;
  tables_at = refl;
  dir_aligned = refl;
  tables_aligned = refl;
  in_order = omega arith;
  in_memory = omega arith;
}

map_kernel_memory_lem_example :
    (g : Machine) × (map_kernel_memory layout before ≡ done tt g)
    × (g.frames ≡ low_used 24)
    × ((v : ℕ) → 0xC0000000 ≤ v → v < 2 ^ 32 → translate g.ram 0x200000 v ≡ some (v - 0xC0000000))
map_kernel_memory_lem_example =
    map_kernel_memory_lem layout 0x200000 0x400000 layout-IsPlaced before
