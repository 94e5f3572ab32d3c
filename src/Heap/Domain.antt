-- ===== src/Heap/Domain.antt =====
-- One size class of lib/heap_domain.c: `init_heap_domain`, `heap_domain_alloc`,
-- `heap_domain_free`. A domain is passed by value and returned. `invlpg` has no counterpart: the
-- model's loads and stores always walk the tables.
use raxzus_heap_research.Base.{
  ◌==◌, if◌then◌else◌, hang, Cmd, pure, ◌>>=◌, ◌>>◌, u32, ℕ, zero, suc, ◌+◌, ◌-◌, ◌*◌, ◌/◌,
}
use raxzus_heap_research.Pmm.{get_next_free_kernel_frame, get_next_free_process_frame}
use raxzus_heap_research.Machine.{Layout, Machine, to_virt, with_frames, load, store, fill, copy}
use raxzus_heap_research.Paging.{page_kernel, map_page}

-- `heap_domain_t`; its last field is not used by the code.
pub record Domain : Type 0 where
  pub page_directory : ℕ
  pub block_size : ℕ
  pub blocks_per_page : ℕ
  pub next_free_block : ℕ
  pub next_virt_addr : ℕ

abbrev pub null : ℕ
null = 0

abbrev pub premap_pages : ℕ
premap_pages = 256

module _ (l : Layout) where
  -- Block `i` of a page links to block `i + 1`: `left` of these links are left.
  unfoldable pub link_blocks : (left i virt block_size : ℕ) → Cmd Machine (Unit {0})
  link_blocks zero i virt block_size = pure tt
  link_blocks (suc left) i virt block_size = do
    store l (u32 (virt + i * block_size)) (u32 (virt + (i + 1) * block_size))
    link_blocks left (i + 1) virt block_size

  -- The free list inside a page: the last block links to `tail`.
  unfoldable pub link_page : Domain → (virt tail : ℕ) → Cmd Machine (Unit {0})
  unfolding link_blocks
  link_page d virt tail = do
    link_blocks (d.blocks_per_page - 1) 0 virt d.block_size
    store l (u32 (virt + (d.blocks_per_page - 1) * d.block_size)) tail

  -- A new page of the domain, mapped in its directory and in the kernel's.
  unfoldable pub double_map : Domain → (virt phys : ℕ) → Cmd Machine (Unit {0})
  double_map d virt phys = do
    map_page l d.page_directory virt phys page_kernel
    map_page l l.kernel_page_dir virt phys page_kernel

  -- Takes the head of the list: its first word is the next block.
  unfoldable pub pop : Domain → Cmd Machine (Domain × ℕ)
  pop d = do
    after ← load l d.next_free_block
    pure (record d { next_free_block = after }, d.next_free_block)

  -- The slow path: one more page, linked and put in front.
  unfoldable pub expand : Domain → Cmd Machine (Domain × ℕ)
  unfolding link_page double_map pop
  expand d = do
    phys ← with_frames get_next_free_process_frame
    if phys == 0 then pure (d, null) else (do
      double_map d d.next_virt_addr phys
      link_page d d.next_virt_addr null
      pop (record d {
        next_free_block = d.next_virt_addr;
        next_virt_addr = u32 (d.next_virt_addr + 4096);
      }))

  unfoldable pub heap_domain_alloc : Domain → Cmd Machine (Domain × ℕ)
  unfolding expand pop
  heap_domain_alloc d = if d.next_free_block == null then expand d else pop d

  unfoldable pub heap_domain_free : Domain → ℕ → Cmd Machine Domain
  heap_domain_free d ptr =
      if ptr == null
      then pure d
      else (do store l ptr d.next_free_block; pure (record d { next_free_block = ptr }))

  -- The pages that a domain starts with; without a frame the kernel stops.
  premap : ℕ → Domain → Cmd Machine Domain
  unfolding link_page double_map
  premap zero d = pure d
  premap (suc left) d = do
    phys ← with_frames get_next_free_process_frame
    if phys == 0 then (λ _. hang) else (do
      double_map d d.next_virt_addr phys
      link_page d d.next_virt_addr d.next_free_block
      premap left (record d {
        next_free_block = d.next_virt_addr;
        next_virt_addr = u32 (d.next_virt_addr + 4096);
      }))

  -- A zeroed page directory with the kernel's upper entries.
  unfoldable pub new_directory : Cmd Machine ℕ
  new_directory = do
    phys_dir ← with_frames (get_next_free_kernel_frame l.heap_start)
    if phys_dir == 0 then (λ _. hang) else (do
      fill l 1024 (to_virt phys_dir) 0 0
      copy l 256 (to_virt phys_dir) l.kernel_page_dir 768
      pure (to_virt phys_dir))

  unfoldable pub init_heap_domain : (block_size virt_base : ℕ) → Cmd Machine Domain
  unfolding premap new_directory
  init_heap_domain block_size virt_base = do
    directory ← new_directory
    premap premap_pages (record {
      page_directory = directory;
      block_size = block_size;
      blocks_per_page = 4096 / block_size;
      next_free_block = null;
      next_virt_addr = virt_base;
    })
