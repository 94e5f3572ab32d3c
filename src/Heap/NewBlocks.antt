-- ===== src/Heap/NewBlocks.antt =====
-- A size class of lib/heap_domain.c that grows by a page, in a heap of which clients hold blocks.
use raxzus_heap_research.Heap.Expand.{heap_domain_alloc_exhausted}
use raxzus_heap_research.Pmm.Marks.{IsBitmap}
use raxzus_heap_research.Pmm.Alloc.{AllUsed}
use raxzus_heap_research.Heap.Rebuild.{replaced, not_taken, rebuild}
use raxzus_heap_research.Machine.{Layout}
use raxzus_heap_research.Machine.Access.{kernel_base, peek}
use raxzus_heap_research.Heap.Domain.{Domain, null}
use raxzus_heap_research.Heap.PageView.{CanGrow, blocks_in_page, heap_domain_alloc-GrownView}
use raxzus_heap_research.Heap.RoundTrip.{
  machine-set, set-get, serve_small, kmalloc_small, region_lt,
}
use raxzus_heap_research.Heap.InPage.{page_count, block_number, IsPlaced, placed, one_page}
use raxzus_heap_research.Heap.Live.{
  Held, taken, HasRoom, IsBlock, IsHeap, word-InRegion, size-positive,
}
use raxzus_heap_research.Base.{
  ◌==◌, ==→eq, Bool-cases, done, u32, ℕ, suc, ◌+◌, ◌*◌, ◌/◌, ◌≤◌, ◌<◌, ◌≡◌, refl, sym, ap, ◌∙◌,
  subst, ◌≢◌, inl, inr, true, false, Option, none, some, List, arith,
}
use raxzus_heap_research.Heap.Route.{
  SizeClass, class_size, small, owner_of_size, Kernel, get_domain, set_domain, kmalloc,
}
use raxzus_heap_research.Heap.Chain.{has, Segment-frame, Segment-mapped, ne_of_has}
use raxzus_heap_research.Heap.Link.{blocks}

-- A block stays one when the mapped words keep their values.
IsBlock-same :
    {l : Layout} {ram ram' : ℕ → ℕ} {c : SizeClass} {p : ℕ}
    → IsBlock l ram c p
    → ((w x : ℕ) → w < kernel_base → peek l ram w ≡ some x → peek l ram' w ≡ some x)
    → IsBlock l ram' c p
IsBlock-same {c} {p} b kept = record {
  inside = b.inside;
  aligned = b.aligned;
  mapped = λ o h four.
      let (x, e) = b.mapped o h four in
      let (pos, user) = region_lt c (p + o) (word-InRegion c p o b.inside b.aligned h) in
      (x, kept (p + o) x user e);
}

some-none : {x : ℕ} {o : Option ℕ} → o ≡ some x → o ≡ none → ⊥
some-none e n = cc

module _ (l : Layout) {k : Kernel} {live : Held} {free : SizeClass → List ℕ}
    (heap : IsHeap l k live free) (c : SizeClass) (empty : (get_domain c k).next_free_block ≡ null)
    (can : CanGrow l k.machine (get_domain c k)) (fit : HasRoom c (get_domain c k)) where
  abbrev d : Domain
  d = get_domain c k

  abbrev virt : ℕ
  virt = d.next_virt_addr

  abbrev left : ℕ
  left = (page_count c).0

  room : d.blocks_per_page ≡ suc left
  room = fit.blocks_per_page ∙ (page_count c).1

  pos : 0 < d.block_size
  pos = subst (λ s. 0 < s) (sym fit.block_size) (size-positive c)

  fits : (0 + suc left) * d.block_size ≤ 4096
  fits = subst (λ s. (0 + suc left) * s ≤ 4096) (sym fit.block_size) (page_count c).2

  at_number : (a j : ℕ) → a ≡ virt + j * d.block_size → a / 4096 ≡ virt / 4096 → IsPlaced c virt a
  at_number a j e same =
      placed c virt a j fit.from_base fit.to_end can.ready.aligned
        (subst (λ s. a ≡ virt + j * s) fit.block_size e) same

  others_in_page : (a : ℕ) → has a (blocks left 1 virt d.block_size) ≡ true → IsPlaced c virt a
  others_in_page a on =
      let (j, e) = block_number left 1 virt d.block_size a on in
      at_number a j e (
        blocks_in_page left 1 virt d.block_size a pos can.ready.aligned
          (subst (λ t. t * d.block_size ≤ 4096) (omega arith) fits) on)

  first_in_page : IsPlaced c virt virt
  first_in_page = at_number virt 0 (omega arith) refl

  -- A block of the page is no block that was there.
  was_no_block :
      {c' : SizeClass} {q : ℕ} (a : ℕ)
      → IsPlaced c virt a
      → ((w : ℕ) → w < kernel_base → w / 4096 ≡ virt / 4096 → peek l k.machine.ram w ≡ none)
      → IsBlock l k.machine.ram c' q
      → q ≢ a
  was_no_block {c'} {q} a at un b e =
      let (x, is) = b.mapped 0 (size-positive c') (omega arith) in
      let user = (region_lt c a at.inside).1 in
      let page : a / 4096 ≡ virt / 4096 =
        subst (λ t. t / 4096 ≡ virt / 4096) (omega arith) (at.in_page 0 (size-positive c)) in
      some-none is
        (un (q + 0) (omega arith) (subst (λ t. t / 4096 ≡ virt / 4096) (omega (arith, e)) page))

  -- The words of a block that was there are outside the page.
  pub off_page :
      {c' : SizeClass} {p : ℕ} (o : ℕ)
      → ((w : ℕ) → w < kernel_base → w / 4096 ≡ virt / 4096 → peek l k.machine.ram w ≡ none)
      → IsBlock l k.machine.ram c' p
      → o < class_size c'
      → (p + o) / 4096 ≢ virt / 4096
  off_page {c'} {p} o un b h same =
      let (x, is) = b.mapped 0 (size-positive c') (omega arith) in
      let user = (region_lt c' p b.inside).1 in
      let page = one_page c' p o b.aligned h in
      some-none is (un (p + 0) (omega arith) (omega arith))

  placed-IsBlock :
      {ram' : ℕ → ℕ} {a : ℕ}
      → IsPlaced c virt a
      → ((w : ℕ) → w < kernel_base → w / 4096 ≡ virt / 4096 → (x : ℕ) × (peek l ram' w ≡ some x))
      → IsBlock l ram' c a
  placed-IsBlock {a} at fresh = record {
    inside = at.inside;
    aligned = at.aligned;
    mapped = λ o h four.
        fresh (a + o) (region_lt c (a + o) (word-InRegion c a o at.inside at.aligned h)).1
          (at.in_page o h);
  }

  -- An allocation for which the class grows: it returns the first block of the new page, which
  -- nobody holds, the other blocks of the page are the free list of the class, and the words of the other
  -- pages keep their values.
  pub grows-IsHeap :
      (size : ℕ)
      → owner_of_size size ≡ small c
      → (k' : Kernel) × (kmalloc l size k ≡ done virt k')
        × (live virt ≡ false)
        × IsPlaced c virt virt
        × IsHeap l k' (taken virt live) (replaced c (blocks left 1 virt d.block_size) free)
        × ((w : ℕ)
            → w < kernel_base
            → w / 4096 ≢ virt / 4096
            → peek l k'.machine.ram w ≡ peek l k.machine.ram w)
        × ((w : ℕ) → w < kernel_base → w / 4096 ≡ virt / 4096 → peek l k.machine.ram w ≡ none)
  grows-IsHeap size class =
      let g = heap_domain_alloc-GrownView l k.machine d can left empty room pos fits in
      let m = g.after in
      let ram = k.machine.ram in
      let d' : Domain = record d { next_free_block = g.head; next_virt_addr = u32 (virt + 4096) } in
      let kept : (w x : ℕ) → w < kernel_base → peek l ram w ≡ some x → peek l m.ram w ≡ some x =
        λ w x u e. g.kept w u (λ same. some-none e (g.unmapped w u same)) ∙ e in
      let free_before : (a : ℕ) → IsPlaced c virt a → live a ≡ false = λ a at.
        elim (Bool-cases (live a)) [
          | inr out ↦ out
          | inl held ↦ absurd (was_no_block a at g.unmapped (heap.live_block a held).1 refl)
        ] in
      (
        set_domain c k m d',
        kmalloc_small l k c size class ∙ serve_small l k c size g.returns,
        free_before virt first_in_page,
        first_in_page,
        rebuild l k c m d' (taken virt live) free (blocks left 1 virt d.block_size) g.free
            (λ c' _. Segment-frame (heap.chain c') (λ a u i.
              let (q, e, nn, below) = Segment-mapped a (heap.chain c') i in kept a q u e ∙ sym e))
            (λ q i.
              let at = others_in_page q i in
              (
                placed-IsBlock at g.fresh,
                not_taken live q (λ e. ne_of_has _ g.first_out i (sym e)) (free_before q at),
              ))
            (λ c' _ q i.
              let b = heap.free_block c' q i in
              (
                IsBlock-same b kept,
                not_taken live q (was_no_block virt first_in_page g.unmapped b)
                    (heap.not_held c' q i),
              ))
            (λ q i. elim (Bool-cases (q == virt)) [
              | inl same ↦ (
                c,
                subst (IsBlock l m.ram c) (sym (==→eq q virt same))
                    (placed-IsBlock first_in_page g.fresh),
              )
              | inr apart ↦
                  let (c', b) = heap.live_block q (ground arith) in (c', IsBlock-same b kept)
            ]),
        λ w u ne. ap (λ t. peek l t.ram w) (machine-set c k m d') ∙ g.kept w u ne,
        g.unmapped,
      )

-- An allocation that finds no free frame changes nothing.
pub fails-same :
    (l : Layout) (k : Kernel) (c : SizeClass) (size : ℕ)
    → owner_of_size size ≡ small c
    → (get_domain c k).next_free_block ≡ null
    → IsBitmap k.machine.frames
    → AllUsed k.machine.frames 0
    → kmalloc l size k ≡ done null k
fails-same l k c size class empty words all =
    kmalloc_small l k c size class
    ∙ serve_small l k c size
        (heap_domain_alloc_exhausted l k.machine (get_domain c k) empty words all)
    ∙ ap (done null) (set-get c k k.machine)
