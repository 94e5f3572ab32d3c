-- ===== src/Heap/Growth.antt =====
-- `heap_domain_alloc` of lib/heap_domain.c with an empty free list, from the state before the frame is
-- taken: the bitmap, the two directories and the tables.
use raxzus_heap_research.Heap.Chain.{◌∉◌, FreeList}
use raxzus_heap_research.Pmm.Marks.{mark}
use raxzus_heap_research.Pmm.Release.{first_free_high}
use raxzus_heap_research.Pmm.{free, get_next_free_process_frame}
use raxzus_heap_research.Pmm.Alloc.{IsFirstFree, Claimed, get_next_free_process_frame-Claimed}
use raxzus_heap_research.Paging.{page_kernel, map_page}
use raxzus_heap_research.Heap.Lifo.{HasFree}
use raxzus_heap_research.Heap.Expand.{heap_domain_alloc-Grown}
use raxzus_heap_research.Base.{
  ◌==◌, if◌then◌else◌, done, u32, page_base, update, ℕ, zero, suc, ◌+◌, ◌*◌, ◌/◌, ◌%◌, ◌^◌, ◌≤◌,
  ◌<◌, bit_or, ◌≡◌, ap, ◌∙◌, subst, ◌≢◌, true, some, arith,
}
use raxzus_heap_research.Machine.{Layout, Machine, to_virt, to_phys, is_present, resolve}
use raxzus_heap_research.Machine.Access.{kernel_base, word_at, peek, pde_at, IsApart}
use raxzus_heap_research.Paging.Present.{pde, pte, IsTables, entry_sum, map_page_present}
use raxzus_heap_research.Heap.Domain.{Domain, null, double_map, heap_domain_alloc}
use raxzus_heap_research.Heap.Link.{blocks, AllMapped}
use raxzus_heap_research.Heap.NewPage.{IsUnused, here, IsApart-paged}
use raxzus_heap_research.Heap.Outside.{
  IsOutside, present_same, IsTables-written, IsApart-outside, IsUnused-outside,
}

-- The two directories have a table for the domain's next page, the domain's table is not in the way of
-- the kernel's walks, and the frame at `phys` is not in use by them.
pub record IsReady (l : Layout) (ram : ℕ → ℕ) (d : Domain) (ddir phys : ℕ) : Type 0 where
  pub kernel_high : 0xC0000000 ≤ l.kernel_page_dir
  pub kernel_word : l.kernel_page_dir < 2 ^ 32
  pub directory : d.page_directory ≡ to_virt ddir
  pub aligned : d.next_virt_addr % 4096 ≡ 0
  pub not_null : d.next_virt_addr ≢ 0
  pub user : d.next_virt_addr + 4096 ≤ kernel_base
  pub kernel_tables : IsTables ram (to_phys l.kernel_page_dir)
  pub kernel_present : is_present (ram (pde_at l d.next_virt_addr)) ≡ true
  pub domain_tables : IsTables ram ddir
  pub domain_present : is_present (ram (pde ddir d.next_virt_addr)) ≡ true
  pub outside : IsOutside ram (to_phys l.kernel_page_dir) (pte ram ddir d.next_virt_addr)
  pub apart : IsApart l ram
  pub unused : IsUnused l ram phys

-- The blocks of a mapped page.
page-AllMapped :
    (l : Layout) (ram : ℕ → ℕ) (virt size phys : ℕ)
    → virt % 4096 ≡ 0
    → virt ≢ 0
    → virt + 4096 ≤ kernel_base
    → 0 < size
    → ((v : ℕ)
        → v < kernel_base
        → v / 4096 ≡ virt / 4096
        → resolve l ram v ≡ some (phys + v % 4096))
    → (count i : ℕ) → (i + count) * size ≤ 4096
    → AllMapped (peek l ram) (blocks count i virt size)
unfolding peek
page-AllMapped l ram virt size phys al ne user pos leads zero i h = tt
page-AllMapped l ram virt size phys al ne user pos leads (suc count) i h =
    let below : i * size + size ≤ 4096 = grind arith in
    let a = virt + i * size in
    (
      (ram (phys + a % 4096), ap (word_at ram) (leads a (omega arith) (omega arith))),
      (λ z. ne (omega arith)),
      omega arith,
      page-AllMapped l ram virt size phys al ne user pos leads count (i + 1) (omega arith),
    )

module _ (l : Layout) (m : Machine) (d : Domain) (ddir k : ℕ)
    (claimed : Claimed m.frames k (get_next_free_process_frame m.frames)) (some_frame : 0 < k)
    (low : k < 0xC0000) (ready : IsReady l m.ram d ddir (k * 4096)) where
  abbrev pub virt : ℕ
  virt = d.next_virt_addr

  abbrev pub kernel_directory : ℕ
  kernel_directory = to_phys l.kernel_page_dir

  abbrev pub word : ℕ
  word = bit_or (k * 4096) page_kernel

  word_sum : word ≡ k * 4096 + 3
  word_sum = entry_sum (k * 4096) 3 (omega arith) (omega arith)

  -- Memory with the page in the domain's directory, and then in the kernel's.
  abbrev pub in_domain : ℕ → ℕ
  in_domain = update m.ram (pte m.ram ddir virt) word

  abbrev pub in_both : ℕ → ℕ
  in_both = update in_domain (pte in_domain kernel_directory virt) word

  pub tables' : IsTables in_domain kernel_directory
  tables' =
      IsTables-written m.ram kernel_directory (pte m.ram ddir virt) word ready.outside
        ready.kernel_tables

  pub present' : is_present (in_domain (pde kernel_directory virt)) ≡ true
  present' =
      let u = ready.user in
      present_same m.ram kernel_directory (pte m.ram ddir virt) word ready.outside virt
        (omega arith)
      ∙ ready.kernel_present

  mapped_machine : Machine
  mapped_machine = record { frames = claimed.after; ram = in_both }

  maps :
      double_map l d virt (k * 4096) (record m { frames = claimed.after }) ≡ done tt mapped_machine
  unfolding double_map mapped_machine
  maps =
      let u = ready.user in
      let hi = ready.kernel_high in
      let w = ready.kernel_word in
      let first =
        map_page_present l (record m { frames = claimed.after }) ddir virt (k * 4096) page_kernel
          ready.domain_tables (omega arith) ready.domain_present (omega arith) in
      let second =
        map_page_present l (record { frames = claimed.after; ram = in_domain }) kernel_directory
          virt (k * 4096) page_kernel tables' (omega arith) present' (omega arith) in
      let back : to_virt kernel_directory ≡ l.kernel_page_dir = omega arith in
      let second' =
        subst
          (λ t.
            map_page l t virt (k * 4096) page_kernel
              (record { frames = claimed.after; ram = in_domain })
            ≡ done tt (record { frames = claimed.after; ram = in_both }))
          back second in
      rw (ready.directory, first) second'

  pub both_user : virt < kernel_base
  both_user = let u = ready.user in omega arith

  pub odd : word % 2 ≡ 1
  odd = omega (arith, word_sum)

  pub base : page_base word ≡ k * 4096
  base = omega (arith, word_sum)

  both-IsApart : IsApart l in_both
  both-IsApart =
      IsApart-paged l in_domain virt (k * 4096) word tables' both_user present' odd base
        (IsApart-outside l m.ram (pte m.ram ddir virt) word ready.outside ready.apart)
        (IsUnused-outside l m.ram (pte m.ram ddir virt) word ready.outside (k * 4096) ready.unused)

  -- The same from the frame that is claimed.
  pub heap_domain_alloc_claimed :
      (left : ℕ)
      → d.next_free_block ≡ null
      → d.blocks_per_page ≡ suc left
      → 0 < d.block_size
      → (0 + suc left) * d.block_size ≤ 4096
      → (g : Machine) × (head : ℕ) × (heap_domain_alloc l d m
          ≡ done (record d { next_free_block = head; next_virt_addr = u32 (virt + 4096) }, virt) g)
        × HasFree l g
            (record d { next_free_block = head; next_virt_addr = u32 (virt + 4096) })
            (blocks left 1 virt d.block_size)
        × (g.frames ≡ claimed.after)
        × FreeList (peek l g.ram) virt (blocks (suc left) 0 virt d.block_size)
        × ((w : ℕ)
            → w < kernel_base
            → w ∉ blocks (suc left) 0 virt d.block_size
            → peek l g.ram w ≡ peek l in_both w)
  unfolding mapped_machine
  heap_domain_alloc_claimed left empty room pos fits =
      let u = ready.user in
      let all =
        page-AllMapped l in_both virt d.block_size (k * 4096) ready.aligned ready.not_null
          ready.user pos (here l in_domain virt (k * 4096) word tables' both_user present' odd base)
          (suc left) 0 fits in
      let r =
        heap_domain_alloc-Grown l m d empty k claimed some_frame mapped_machine maps left room pos
          (let below : left * d.block_size ≤ 4096 = grind arith in omega arith) both-IsApart all in
      (r.after, r.head, r.returns, r.free, r.frames, r.page, r.kept)

-- With word 0 of the bitmap full, a first free frame below 2 GiB that nothing uses, an empty free
-- list, and a table for the next page in the domain's and in the kernel's directory, apart from
-- each other and from the data (IsReady), `heap_domain_alloc` takes that frame and no other, and
-- returns the first block of the new page; the other blocks are the free list, in order, and the
-- next page is one further.
pub heap_domain_alloc_lem :
    (l : Layout) (m : Machine) (d : Domain) (ddir k left : ℕ)
    → m.frames.bitmap 0 ≡ 0xFFFFFFFF
    → IsFirstFree m.frames 0 k
    → k < 2 ^ 19
    → IsReady l m.ram d ddir (k * 4096)
    → d.next_free_block ≡ null
    → d.blocks_per_page ≡ suc left
    → 0 < d.block_size
    → (0 + suc left) * d.block_size ≤ 4096
    → (g : Machine) × (head : ℕ) × (heap_domain_alloc l d m
        ≡ done
            (
              record d { next_free_block = head; next_virt_addr = u32 (d.next_virt_addr + 4096) },
              d.next_virt_addr,
            )
            g)
      × HasFree l g
          (record d { next_free_block = head; next_virt_addr = u32 (d.next_virt_addr + 4096) })
          (blocks left 1 d.next_virt_addr d.block_size)
      × ((j : ℕ) → mark g.frames j ≡ (if k == j then 1 else mark m.frames j))
heap_domain_alloc_lem l m d ddir k left full first low ready empty room pos fits =
    let high = first_free_high m.frames k full first in
    let c = get_next_free_process_frame-Claimed m.frames k full first low in
    let (g, head, returns, free, frames, page, kept) =
      heap_domain_alloc_claimed l m d ddir k c (omega arith) (omega arith) ready left empty room pos
        fits in
    (g, head, returns, free, λ j. ap (λ t. mark t j) frames ∙ c.marked j)
