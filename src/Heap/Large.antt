-- ===== src/Heap/Large.antt =====
-- Allocations above 4 KiB of lib/heap_domain.c: whole pages with a page count in front, and a
-- list of freed slots that is kept in the first page of each.
use raxzus_heap_research.Base.{
  leb, ◌==◌, if◌then◌else◌, Cmd, pure, ◌>>=◌, ◌>>◌, u32, sub32, page_base, ℕ, zero, suc, ◌+◌, ◌-◌,
  ◌*◌, ◌/◌, Bool, true, false,
}
use raxzus_heap_research.Pmm.{clear_frame, get_next_free_process_frame}
use raxzus_heap_research.Machine.{
  Layout, Machine, to_virt, dir_index, table_index, is_present, with_frames, load, store,
}
use raxzus_heap_research.Paging.{page_kernel, map_page}
use raxzus_heap_research.Heap.Domain.{null, new_directory}

-- `LARGE_VIRT_BASE`.
abbrev pub large_virt_base : ℕ
large_virt_base = 0x80000000

-- `large_domain_t`.
pub record LargeDomain : Type 0 where
  pub page_directory : ℕ
  pub next_virt_addr : ℕ
  pub next_free_virt : ℕ

-- The pages for `size` bytes and the 4-byte header, as `uint32_t`.
unfoldable pub pages_for : ℕ → ℕ
pages_for size = u32 (size + 4 + 4095) / 4096

module _ (l : Layout) where
  -- Clears the entry for `virt` in one directory, if it has a table there; `release` is called
  -- with the old entry's frame first.
  clear_entry : (directory virt : ℕ) → (ℕ → Cmd Machine (Unit {0})) → Cmd Machine (Unit {0})
  clear_entry directory virt release = do
    pde ← load l (u32 (directory + 4 * dir_index virt))
    if is_present pde
        then (do
          let entry = u32 (to_virt (page_base pde) + 4 * table_index virt)
          pte ← load l entry
          release (page_base pte)
          store l entry 0)
        else pure tt

  unfoldable pub large_unmap_page :
      LargeDomain → (virt : ℕ) → (free_frame : Bool) → Cmd Machine (Unit {0})
  unfolding clear_entry
  large_unmap_page d virt free_frame = do
    clear_entry d.page_directory virt (λ _. pure tt)
    clear_entry l.kernel_page_dir virt (λ frame.
        if free_frame then (with_frames (clear_frame frame) >>= λ _. pure tt) else pure tt)

  -- Where the allocation starts: the first freed slot if it has enough pages, else fresh space.
  unfoldable pub place : LargeDomain → (pages : ℕ) → Cmd Machine (LargeDomain × ℕ)
  unfolding large_unmap_page
  place d pages =
      let fresh = record d { next_virt_addr = u32 (d.next_virt_addr + pages * 4096) } in
      if d.next_free_virt == null then pure (fresh, d.next_virt_addr) else (do
        let candidate = d.next_free_virt
        freed_pages ← load l (u32 (candidate + 4))
        if leb pages freed_pages
            then (do
              after ← load l candidate
              large_unmap_page (record d { next_free_virt = after }) candidate true
              pure (record d { next_free_virt = after }, candidate))
            else pure (fresh, d.next_virt_addr))

  -- Maps the pages from the `i`th on; false when there is no frame.
  unfoldable pub map_pages : LargeDomain → (left i virt_start : ℕ) → Cmd Machine Bool
  map_pages d zero i virt_start = pure true
  map_pages d (suc left) i virt_start = do
    phys ← with_frames get_next_free_process_frame
    if phys == 0 then pure false else (do
      map_page l d.page_directory (u32 (virt_start + i * 4096)) phys page_kernel
      map_page l l.kernel_page_dir (u32 (virt_start + i * 4096)) phys page_kernel
      map_pages d left (i + 1) virt_start)

  unfoldable pub kmalloc_large : LargeDomain → (size : ℕ) → Cmd Machine (LargeDomain × ℕ)
  unfolding pages_for place map_pages
  kmalloc_large d size =
      let pages = pages_for size in
      if size == 0 then pure (d, null) else (do
        (d', virt_start) ← place d pages
        mapped ← map_pages d' pages 0 virt_start
        if mapped
            then (do store l virt_start pages; pure (d', u32 (virt_start + 4)))
            else pure (d', null))

  -- Unmaps pages `i` on; the first page stays for the list.
  unmap_pages : LargeDomain → (left i real_start : ℕ) → Cmd Machine (Unit {0})
  unfolding large_unmap_page
  unmap_pages d zero i real_start = pure tt
  unmap_pages d (suc left) i real_start = do
    large_unmap_page d (u32 (real_start + i * 4096)) true
    unmap_pages d left (i + 1) real_start

  unfoldable pub kfree_large : LargeDomain → ℕ → Cmd Machine LargeDomain
  unfolding unmap_pages
  kfree_large d ptr = if ptr == null then pure d else (do
    let real_start = sub32 ptr 4
    pages ← load l real_start
    unmap_pages d (pages - 1) 1 real_start
    store l real_start d.next_free_virt
    store l (u32 (real_start + 4)) pages
    pure (record d { next_free_virt = real_start }))

  unfoldable pub init_large_domain : Cmd Machine LargeDomain
  init_large_domain = do
    directory ← new_directory l
    pure (record {
      page_directory = directory;
      next_virt_addr = large_virt_base;
      next_free_virt = null;
    })
