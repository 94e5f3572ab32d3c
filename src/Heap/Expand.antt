-- ===== src/Heap/Expand.antt =====
-- `heap_domain_alloc` of lib/heap_domain.c with an empty free list.
use raxzus_heap_research.Heap.Chain.{◌∉◌, nil, FreeList}
use raxzus_heap_research.Heap.Lifo.{HasFree, Popped, pop-Popped}
use raxzus_heap_research.Heap.Link.{blocks, AllMapped}
use raxzus_heap_research.Machine.Access.{kernel_base, peek, IsApart, with_frames-done}
use raxzus_heap_research.Heap.LinkPage.{PageLinked, link_page-PageLinked}
use raxzus_heap_research.Pmm.{get_next_free_process_frame}
use mathlib.Core.List.{append-nil}
use raxzus_heap_research.Base.{
  ◌==◌, eq→==, Run, done, u32, ℕ, suc, ◌+◌, ◌*◌, ◌^◌, ◌<◌, ◌≡◌, refl, ◌∙◌, subst, false, List, [],
  arith,
}
use raxzus_heap_research.Pmm.Marks.{IsBitmap}
use raxzus_heap_research.Pmm.Alloc.{Claimed, AllUsed, process_frame_full}
use raxzus_heap_research.Machine.{Layout, Machine}
use raxzus_heap_research.Heap.Domain.{
  Domain, null, link_page, double_map, pop, expand, heap_domain_alloc,
}

module _ (l : Layout) (m : Machine) (d : Domain) (empty : d.next_free_block ≡ null) where
  alloc_expand : heap_domain_alloc l d m ≡ expand l d m
  unfolding heap_domain_alloc
  alloc_expand = rw (eq→== d.next_free_block null empty)

  -- With no free block and no free frame, the allocation returns NULL and changes nothing.
  pub heap_domain_alloc_exhausted :
      IsBitmap m.frames → AllUsed m.frames 0 → heap_domain_alloc l d m ≡ done (d, null) m
  unfolding expand
  heap_domain_alloc_exhausted words all =
      alloc_expand
      ∙ rw (with_frames-done get_next_free_process_frame m (process_frame_full m.frames words all))

  -- The domain once its next page is in use, with its list at `head`.
  abbrev pub grown : ℕ → Domain
  grown head = record d { next_free_block = head; next_virt_addr = u32 (d.next_virt_addr + 4096) }

  module _ (k : ℕ) (claimed : Claimed m.frames k (get_next_free_process_frame m.frames))
      (some_frame : 0 < k) (mapped : Machine)
      (maps : double_map l d d.next_virt_addr (k * 4096) (record m { frames = claimed.after })
        ≡ done tt mapped) where
    -- The outcome: the page's first block is returned, and the others are the free list.
    pub record Grown (left : ℕ) (r : Run Machine (Domain × ℕ)) : Type 0 where
      pub after : Machine
      pub head : ℕ
      pub returns : r ≡ done (grown head, d.next_virt_addr) after
      pub free : HasFree l after (grown head) (blocks left 1 d.next_virt_addr d.block_size)
      pub frames : after.frames ≡ mapped.frames
      pub page :
          FreeList
            (peek l after.ram)
            d.next_virt_addr
            (blocks (suc left) 0 d.next_virt_addr d.block_size)
      pub kept :
          (w : ℕ)
          → w < kernel_base
          → w ∉ blocks (suc left) 0 d.next_virt_addr d.block_size
          → peek l after.ram w ≡ peek l mapped.ram w

    expand-pop :
        (xs : List ℕ)
        → (p : PageLinked l mapped d.next_virt_addr xs []
            (link_page l d d.next_virt_addr null mapped))
        → expand l d m ≡ pop l (grown d.next_virt_addr) p.after
    unfolding expand
    expand-pop xs p =
        let ne : (k * 4096 == 0) ≡ false = ground arith in
        rw (with_frames-done get_next_free_process_frame m claimed.returns, ne, maps, p.returns)

    Grown-pop :
        (left : ℕ) (g : Machine) (p : ℕ)
        → g.frames ≡ mapped.frames
        → p ≡ d.next_virt_addr
        → heap_domain_alloc l d m ≡ pop l (grown d.next_virt_addr) g
        → Popped l g
            (grown d.next_virt_addr)
            p
            (blocks left 1 d.next_virt_addr d.block_size)
            (pop l (grown d.next_virt_addr) g)
        → FreeList
            (peek l g.ram)
            d.next_virt_addr
            (blocks (suc left) 0 d.next_virt_addr d.block_size)
        → ((w : ℕ)
            → w < kernel_base
            → w ∉ blocks (suc left) 0 d.next_virt_addr d.block_size
            → peek l g.ram w ≡ peek l mapped.ram w)
        → Grown left (heap_domain_alloc l d m)
    Grown-pop left g p same_frames same steps popped page kept = record {
      page = page;
      kept = kept;
      after = g;
      head = popped.after;
      returns =
          subst (λ t. heap_domain_alloc l d m ≡ done (grown popped.after, t) g) same
            (steps ∙ popped.returns);
      free = popped.free;
      frames = same_frames;
    }

    -- With an empty free list and a free frame whose page the two calls of `map_page` make
    -- readable apart from the page tables, `heap_domain_alloc` returns the first block of the new
    -- page; the other blocks of the page are the free list, and the next page is one further.
    pub heap_domain_alloc-Grown :
        (left : ℕ)
        → d.blocks_per_page ≡ suc left
        → 0 < d.block_size
        → d.next_virt_addr + left * d.block_size < 2 ^ 32
        → IsApart l mapped.ram
        → AllMapped (peek l mapped.ram) (blocks (suc left) 0 d.next_virt_addr d.block_size)
        → Grown left (heap_domain_alloc l d m)
    heap_domain_alloc-Grown left room pos fits apart all =
        let xs = blocks (suc left) 0 d.next_virt_addr d.block_size in
        let p =
          link_page-PageLinked l d d.next_virt_addr null left mapped [] pos room apart all nil
            (λ a i. refl) fits in
        let page : FreeList (peek l p.after.ram) d.next_virt_addr xs =
          subst (FreeList (peek l p.after.ram) d.next_virt_addr) (append-nil xs) p.chain in
        let popped = (pop-Popped l (grown d.next_virt_addr) p.apart page refl).0 in
        Grown-pop left p.after (d.next_virt_addr + 0 * d.block_size) p.frames (omega arith)
          (alloc_expand ∙ expand-pop xs p) popped page p.kept
