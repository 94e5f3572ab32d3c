-- ===== src/Examples/PageRuns.antt =====
-- A new page of a size class of lib/heap_domain.c, mapped at 0x10000000 in the domain's directory
-- and in the kernel's.
use raxzus_heap_research.Base.{
  ◌==◌, if◌then◌else◌, update, ℕ, ◌+◌, ◌%◌, ◌≤◌, ◌<◌, ◌≡◌, refl, sym, ap, ◌∙◌, ◌≢◌, some, arith,
}
use raxzus_heap_research.Pmm.{get_next_free_process_frame}
use raxzus_heap_research.Pmm.Alloc.{Claimed, get_next_free_process_frame-Claimed}
use raxzus_heap_research.Machine.{Machine, translate, resolve}
use raxzus_heap_research.Machine.Access.{kernel_base, word_at, peek, IsApart, resolve-user}
use raxzus_heap_research.Machine.Walk.{translate-Walk}
use raxzus_heap_research.Heap.Domain.{Domain, null}
use raxzus_heap_research.Heap.Link.{blocks, AllMapped}
use raxzus_heap_research.Examples.FrameRuns.{low_used, low_used-IsFirstFree}
use raxzus_heap_research.Examples.HeapRuns.{layout}

-- Both directories have a table for 0x10000000, with no page yet.
abbrev pub two_tables : ℕ → ℕ
two_tables a = if a == 0x200100 then 0x201003 else if a == 0x202100 then 0x203003 else 0

-- The domain of blocks of 1 KiB, with an empty free list.
abbrev pub domain_1k : Domain
domain_1k = record {
  page_directory = 0xC0202000;
  block_size = 1024;
  blocks_per_page = 4;
  next_free_block = null;
  next_virt_addr = 0x10000000;
}

abbrev pub before : Machine
before = record { frames = low_used 24; ram = two_tables }

frame_768 : Claimed (low_used 24) 768 (get_next_free_process_frame (low_used 24))
frame_768 =
    get_next_free_process_frame-Claimed (low_used 24) 768 refl (low_used-IsFirstFree 24)
      (omega arith)

-- The machine once the frame is mapped in both.
abbrev mapped : Machine
mapped = record {
  frames = frame_768.after;
  ram = update (update two_tables 0x203000 0x300003) 0x201000 0x300003;
}

resolve_mapped :
    (v pa : ℕ)
    → v < kernel_base
    → resolve layout mapped.ram v ≡ some pa
    → (0x10000000 ≤ v) × (v < 0x10001000) × (pa ≡ 0x300000 + v % 4096)
resolve_mapped v pa user e =
    let w =
      translate-Walk mapped.ram 0x200000 v pa (sym (resolve-user layout mapped.ram v user) ∙ e) in
    (
      ground (arith, w.has_table),
      ground (arith, w.has_table, w.has_page),
      ground (arith, w.has_table, w.has_page, w.leads),
    )

mapped-IsApart : IsApart layout mapped.ram
mapped-IsApart = record {
  off_directory =
      λ v w pa p p' e same. let (lo, hi, at_page) = resolve_mapped v pa p e in absurd (omega arith);
  off_tables = λ v w pa p p' e pr same.
      let (lo, hi, at_page) = resolve_mapped v pa p e in absurd (ground arith);
  injective = λ v w pa p p' e e'.
      let (lo, hi, at_page) = resolve_mapped v pa p e in
      let (lo', hi', at_page') = resolve_mapped w pa p' e' in omega arith;
}

peek_mapped :
    (v : ℕ)
    → v < kernel_base
    → translate mapped.ram 0x200000 v ≡ some (0x300000 + v % 4096)
    → mapped.ram (0x300000 + v % 4096) ≡ 0
    → peek layout mapped.ram v ≡ some 0
unfolding peek
peek_mapped v user e w =
    ap (word_at mapped.ram) (resolve-user layout mapped.ram v user ∙ e) ∙ ap some w

blocks_mapped : AllMapped (peek layout mapped.ram) (blocks 4 0 0x10000000 1024)
unfolding translate
blocks_mapped =
    let ne : (a : ℕ) → 0 < a → a ≢ 0 = λ a h e. absurd (omega arith) in
    ((
      (0, peek_mapped 0x10000000 (omega arith) refl refl),
      ne _ (omega arith),
      omega arith,
      (
        (0, peek_mapped 0x10000400 (omega arith) refl refl),
        ne _ (omega arith),
        omega arith,
        (
          (0, peek_mapped 0x10000800 (omega arith) refl refl),
          ne _ (omega arith),
          omega arith,
          (
            (0, peek_mapped 0x10000C00 (omega arith) refl refl),
            ne _ (omega arith),
            omega arith,
            tt,
          ),
        ),
      ),
    ))
