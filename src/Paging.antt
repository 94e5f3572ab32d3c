-- ===== src/Paging.antt =====
-- `map_page` and `allocate_page` of lib/pmm.c, and lib/paging_manager.c without the control
-- registers: page directories and tables in physical memory.
pub mod Present
pub mod Fresh
pub mod Direct
pub mod DirectMap
pub mod Private
use raxzus_heap_research.Base.{
  ◌==◌, if◌then◌else◌, Cmd, pure, ◌>>=◌, ◌>>◌, u32, page_base, ℕ, zero, suc, ◌+◌, ◌-◌, ◌*◌, bit_or,
  ◌&&◌,
}
use raxzus_heap_research.Pmm.{is_physical, get_next_free_kernel_frame, get_next_free_process_frame}
use raxzus_heap_research.Machine.{
  Layout, Machine, to_virt, to_phys, is_virtual, dir_index, table_index, is_present, with_frames,
  load, store, fill, copy,
}

-- `PAGE_KERNEL` and `PAGE_GLOBAL`.
abbrev pub page_kernel : ℕ
page_kernel = 0x3

abbrev pub page_user : ℕ
page_user = 0x7

abbrev pub page_global : ℕ
page_global = 0x100

module _ (l : Layout) where
  -- The page table for `virt`: the one that is there, the static one, or a new frame. A new
  -- frame is entered in the directory, and is not cleared.
  unfoldable pub page_table : ℕ → ℕ → ℕ → Cmd Machine ℕ
  page_table process_dir virt flags = do
    entry ← load l (u32 (process_dir + 4 * dir_index virt))
    if is_present entry
        then pure (to_virt (page_base entry))
        else if process_dir == l.kernel_page_dir && dir_index virt == 0
        then (do
          store l (u32 (process_dir + 4 * dir_index virt))
              (bit_or (to_phys l.kernel_page_table) flags)
          pure l.kernel_page_table)
        else (do
          phys ← with_frames (get_next_free_kernel_frame l.heap_start)
          store l (u32 (process_dir + 4 * dir_index virt)) (bit_or phys flags)
          pure (to_virt phys))

  -- A failed assertion prints a message and returns.
  unfoldable pub map_page : ℕ → ℕ → ℕ → ℕ → Cmd Machine (Unit {0})
  unfolding page_table
  map_page process_dir virt phys flags =
      if is_virtual process_dir && is_physical phys
      then (do
        table ← page_table process_dir virt flags
        store l (u32 (table + 4 * table_index virt)) (bit_or phys flags))
      else pure tt

  unfoldable pub allocate_page : ℕ → ℕ → ℕ → Cmd Machine ℕ
  unfolding map_page
  allocate_page process_dir virt flags =
      if is_virtual process_dir
      then (do
        address ← with_frames get_next_free_process_frame
        if address == 0
            then pure 0
            else (map_page process_dir virt address flags >> pure (to_virt address)))
      else pure 0

  -- Clears the directory and the static table, entry by entry.
  setup_loop : ℕ → ℕ → Cmd Machine (Unit {0})
  setup_loop zero i = pure tt
  setup_loop (suc left) i = do
    store l (u32 (l.kernel_page_dir + 4 * i)) 0
    store l (u32 (l.kernel_page_table + 4 * i)) 0
    setup_loop left (i + 1)

  unfoldable pub setup_entries : Cmd Machine (Unit {0})
  unfolding setup_loop
  setup_entries = setup_loop 1024 0

  -- The loop of `map_kernel_memory`: `left` pages are left from `addr` on.
  unfoldable pub map_kernel_loop : ℕ → ℕ → ℕ → ℕ → Cmd Machine (Unit {0})
  map_kernel_loop zero addr table last_dir_index = pure tt
  map_kernel_loop (suc left) addr table last_dir_index =
      let virt = to_virt addr in
      let index = dir_index virt in
      let slot_table = u32 (l.kernel_page_tables_base + (index - 768) * 4096) in
      if index == last_dir_index
      then (do
        store l (u32 (table + 4 * table_index virt)) (bit_or addr (bit_or page_kernel page_global))
        map_kernel_loop left (addr + 4096) table last_dir_index)
      else (do
        store l (u32 (l.kernel_page_dir + 4 * index)) (bit_or (to_phys slot_table) page_kernel)
        store l (u32 (slot_table + 4 * table_index virt))
            (bit_or addr (bit_or page_kernel page_global))
        map_kernel_loop left (addr + 4096) slot_table index)

  unfoldable pub map_kernel_memory : Cmd Machine (Unit {0})
  map_kernel_memory = map_kernel_loop 0x40000 0 0 0xFFFFFFFF

  -- A fresh directory with the kernel's upper entries. The frame is not checked.
  unfoldable pub create_process_page_directory : Cmd Machine ℕ
  create_process_page_directory = do
    phys ← with_frames (get_next_free_kernel_frame l.heap_start)
    fill l 1024 (to_virt phys) 0 0
    copy l 256 (to_virt phys) l.kernel_page_dir 768
    pure (to_virt phys)
