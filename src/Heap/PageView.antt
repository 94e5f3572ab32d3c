-- ===== src/Heap/PageView.antt =====
-- What a client of lib/heap_domain.c sees of the memory when a size class grows by a page.
use raxzus_heap_research.Base.{
  Bool-cases, eq-or-ne, Run, done, u32, ℕ, zero, suc, ◌+◌, ◌*◌, ◌/◌, ◌%◌, ◌^◌, ◌≤◌, ◌<◌, ◌≡◌, refl,
  ap, ◌∙◌, subst, ◌≢◌, inl, inr, true, Option, none, some, List, ◌∷◌, arith,
}
use raxzus_heap_research.Pmm.{free, get_next_free_process_frame}
use raxzus_heap_research.Pmm.Alloc.{IsFirstFree, Claimed, get_next_free_process_frame-Claimed}
use raxzus_heap_research.Machine.{Layout, Machine, resolve}
use raxzus_heap_research.Machine.Access.{kernel_base, word_at, peek}
use raxzus_heap_research.Paging.Present.{pte}
use raxzus_heap_research.Heap.Domain.{Domain, null, heap_domain_alloc}
use raxzus_heap_research.Heap.Chain.{View, has, ◌∉◌, Segment, cons, Segment-mapped}
use raxzus_heap_research.Heap.NewPage.{here, elsewhere}
use raxzus_heap_research.Heap.Outside.{resolve_same, IsApart-outside}
use raxzus_heap_research.Pmm.Release.{first_free_high}
use raxzus_heap_research.Heap.Lifo.{HasFree}
use raxzus_heap_research.Heap.Link.{blocks}
use raxzus_heap_research.Heap.Growth.{
  IsReady, virt, word, in_domain, in_both, tables', present', both_user, odd, base,
  heap_domain_alloc_claimed,
}

-- A class that can grow: its next page is not mapped yet, the directories are ready for it with the
-- first free frame, below 2 GiB, and the class's own page table is no part of the mapped data.
pub record CanGrow (l : Layout) (m : Machine) (d : Domain) : Type 0 where
  pub ddir : ℕ
  pub frame : ℕ
  pub full : m.frames.bitmap 0 ≡ 0xFFFFFFFF
  pub first : IsFirstFree m.frames 0 frame
  pub low : frame < 2 ^ 19
  pub ready : IsReady l m.ram d ddir (frame * 4096)
  pub table_apart :
      (v pa : ℕ)
      → v < kernel_base
      → resolve l m.ram v ≡ some pa
      → pte m.ram ddir d.next_virt_addr ≢ pa
  pub not_mapped :
      (v : ℕ) → v < kernel_base → v / 4096 ≡ d.next_virt_addr / 4096 → resolve l m.ram v ≡ none

-- Every address of the blocks of a page lies in the page.
pub blocks_in_page :
    (count i virt size a : ℕ)
    → 0 < size
    → virt % 4096 ≡ 0
    → (i + count) * size ≤ 4096
    → has a (blocks count i virt size) ≡ true
    → a / 4096 ≡ virt / 4096
blocks_in_page zero i virt size a pos al fits on = cc
blocks_in_page (suc count) i virt size a pos al fits on = elim (eq-or-ne a (virt + i * size)) [
  | inl same ↦ let below : i * size + size ≤ 4096 = grind arith in omega arith
  | inr other ↦ blocks_in_page count (i + 1) virt size a pos al (omega arith) (ground arith)
]

module _ (l : Layout) (m : Machine) (d : Domain) (can : CanGrow l m d) (left : ℕ)
    (empty : d.next_free_block ≡ null) (room : d.blocks_per_page ≡ suc left)
    (pos : 0 < d.block_size) (fits : (0 + suc left) * d.block_size ≤ 4096) where
  page_blocks : List ℕ
  page_blocks = blocks (suc left) 0 d.next_virt_addr d.block_size

  -- The outcome of an allocation that grows the class: the words of the other pages keep their
  -- values, and all words of the new page are mapped.
  pub record GrownView (r : Run Machine (Domain × ℕ)) : Type 0 where
    pub after : Machine
    pub head : ℕ
    pub returns :
        r
        ≡ done
            (
              record d { next_free_block = head; next_virt_addr = u32 (d.next_virt_addr + 4096) },
              d.next_virt_addr,
            )
            after
    pub free :
        HasFree l after
          (record d { next_free_block = head; next_virt_addr = u32 (d.next_virt_addr + 4096) })
          (blocks left 1 d.next_virt_addr d.block_size)
    pub first_out : d.next_virt_addr ∉ blocks left 1 d.next_virt_addr d.block_size
    pub kept :
        (w : ℕ)
        → w < kernel_base
        → w / 4096 ≢ d.next_virt_addr / 4096
        → peek l after.ram w ≡ peek l m.ram w
    pub fresh :
        (w : ℕ)
        → w < kernel_base
        → w / 4096 ≡ d.next_virt_addr / 4096
        → (x : ℕ) × (peek l after.ram w ≡ some x)
    pub unmapped :
        (w : ℕ) → w < kernel_base → w / 4096 ≡ d.next_virt_addr / 4096 → peek l m.ram w ≡ none

  first_of : {view : View} {stop p x : ℕ} {xs : List ℕ} → Segment view stop p (x ∷ xs) → x ∉ xs
  first_of (cons ne user e out s) = out

  module _ (some_frame : 0 < can.frame) (below : can.frame < 0xC0000)
      (claimed : Claimed m.frames can.frame (get_next_free_process_frame m.frames)) where
    abbrev ram1 : ℕ → ℕ
    ram1 = in_domain l m d can.ddir can.frame claimed some_frame below can.ready

    abbrev ram2 : ℕ → ℕ
    ram2 = in_both l m d can.ddir can.frame claimed some_frame below can.ready

    -- Outside the new page addresses lead where they did.
    resolve_both :
        (w : ℕ)
        → w < kernel_base
        → w / 4096 ≢ d.next_virt_addr / 4096
        → resolve l ram2 w ≡ resolve l m.ram w
    resolve_both w user ne =
        let r = can.ready in
        let k = can.frame in
        elsewhere l ram1 d.next_virt_addr (k * 4096)
          (word l m d can.ddir k claimed some_frame below r)
          (tables' l m d can.ddir k claimed some_frame below r)
          (both_user l m d can.ddir k claimed some_frame below r)
          (present' l m d can.ddir k claimed some_frame below r)
          (odd l m d can.ddir k claimed some_frame below r)
          (base l m d can.ddir k claimed some_frame below r) w user ne
        ∙ resolve_same l m.ram (pte m.ram can.ddir d.next_virt_addr)
            (word l m d can.ddir k claimed some_frame below r) r.outside w user

    -- The two entries that are written are no mapped data.
    word_both : (w pa : ℕ) → w < kernel_base → resolve l m.ram w ≡ some pa → ram2 pa ≡ m.ram pa
    word_both w pa user e =
        let r = can.ready in
        let k = can.frame in
        let q = pte m.ram can.ddir d.next_virt_addr in
        let z = word l m d can.ddir k claimed some_frame below r in
        let p = present' l m d can.ddir k claimed some_frame below r in
        let v = both_user l m d can.ddir k claimed some_frame below r in
        let apart1 = IsApart-outside l m.ram q z r.outside r.apart in
        let off1 = can.table_apart w pa user e in
        let off2 =
          apart1.off_tables w d.next_virt_addr pa user v
            (resolve_same l m.ram q z r.outside w user ∙ e) p in
        ground (arith, off1, off2)

    -- The word behind a pointer is the same in the memory with the page.
    peek_both :
        (w : ℕ)
        → w < kernel_base
        → w / 4096 ≢ d.next_virt_addr / 4096
        → peek l ram2 w ≡ peek l m.ram w
    unfolding peek
    peek_both w user ne = ap (word_at ram2) (resolve_both w user ne) ∙ go (resolve l m.ram w) refl
      where
        go : (o : Option ℕ) → resolve l m.ram w ≡ o → word_at ram2 o ≡ word_at m.ram o
        go none e = refl
        go (some pa) e = ap some (word_both w pa user e)

    -- A word outside the page is in no block of it.
    off_blocks : (w : ℕ) → w / 4096 ≢ d.next_virt_addr / 4096 → w ∉ page_blocks
    unfolding page_blocks
    off_blocks w ne = elim (Bool-cases (has w page_blocks)) [
      | inr out ↦ out
      | inl on ↦ absurd (
          ne (
            blocks_in_page (suc left) 0 d.next_virt_addr d.block_size w pos can.ready.aligned fits
              on))
    ]

    -- Every word of the page is mapped once it is in both directories.
    peek_page :
        (w : ℕ)
        → w < kernel_base
        → w / 4096 ≡ d.next_virt_addr / 4096
        → (x : ℕ) × (peek l ram2 w ≡ some x)
    unfolding peek
    peek_page w user same =
        let r = can.ready in
        let k = can.frame in
        let leads =
          here l ram1 d.next_virt_addr (k * 4096) (word l m d can.ddir k claimed some_frame below r)
            (tables' l m d can.ddir k claimed some_frame below r)
            (both_user l m d can.ddir k claimed some_frame below r)
            (present' l m d can.ddir k claimed some_frame below r)
            (odd l m d can.ddir k claimed some_frame below r)
            (base l m d can.ddir k claimed some_frame below r) w user same in
        (ram2 (k * 4096 + w % 4096), ap (word_at ram2) leads)

  -- Growth as the client sees it.
  pub heap_domain_alloc-GrownView : GrownView (heap_domain_alloc l d m)
  unfolding peek page_blocks
  heap_domain_alloc-GrownView =
      let u = can.ready.user in
      let k = can.frame in
      let high = first_free_high m.frames k can.full can.first in
      let c = get_next_free_process_frame-Claimed m.frames k can.full can.first can.low in
      let some_frame : 0 < k = omega arith in
      let low : k < 0xC0000 = let h = can.low in omega arith in
      let (g, head, returns, free, frames, page, kept) =
        heap_domain_alloc_claimed l m d can.ddir k c some_frame low can.ready left empty room pos
          fits in
      record {
        after = g;
        head = head;
        returns = returns;
        free = free;
        first_out =
            subst (λ t. t ∉ blocks left 1 d.next_virt_addr d.block_size) (omega arith)
              (first_of page);
        kept = λ w user ne.
            kept w user (off_blocks some_frame low c w ne) ∙ peek_both some_frame low c w user ne;
        fresh = λ w user same. elim (Bool-cases (has w page_blocks)) [
          | inl on ↦ let (q, e, ne, below) = Segment-mapped w page on in (q, e)
          | inr out ↦
              let (x, e) = peek_page some_frame low c w user same in (x, kept w user out ∙ e)
        ];
        unmapped = λ w user same. ap (word_at m.ram) (can.not_mapped w user same);
      }
