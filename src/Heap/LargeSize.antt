-- ===== src/Heap/LargeSize.antt =====
-- The page count of `kmalloc_large` of lib/heap_domain.c, and where it wraps.
use raxzus_heap_research.Base.{
  ◌==◌, fault, ℕ, ◌+◌, ◌-◌, ◌*◌, ◌^◌, ◌≤◌, ◌<◌, ◌≡◌, refl, true, false, none, arith,
}
use raxzus_heap_research.Machine.{Layout, Machine, resolve, store}
use raxzus_heap_research.Heap.Domain.{null}
use raxzus_heap_research.Heap.Large.{LargeDomain, pages_for, place, map_pages, kmalloc_large}

-- Up to 4100 bytes below 4 GiB the pages hold the header and the bytes, and one page less would not;
-- for a larger size the sum wraps, and there is at most one page.
pub pages_for_lem :
    (size : ℕ)
    → size < 2 ^ 32
    → (size ≤ 2 ^ 32 - 4100
        → (size + 4 ≤ pages_for size * 4096) × (pages_for size * 4096 < size + 4 + 4096))
      × (2 ^ 32 - 4100 < size → pages_for size ≤ 1)
unfolding pages_for
pages_for_lem size h = ((λ small. (omega arith, omega arith)), (λ big. omega arith))

no_pages : (size : ℕ) → 2 ^ 32 - 4100 < size → size < 2 ^ 32 - 3 → pages_for size ≡ 0
unfolding pages_for
no_pages size big h = omega arith

store_unmapped :
    (l : Layout) (m : Machine) (v word : ℕ) → resolve l m.ram v ≡ none → store l v word m ≡ fault
unfolding store
store_unmapped l m v word e = rw (e, store) refl

-- A size whose sum wraps to less than a page: with no freed slot and with the next address not
-- mapped, `kmalloc_large` maps nothing, and writes the header to that address, which is a page
-- fault.
kmalloc_large_fault :
    (l : Layout) (m : Machine) (d : LargeDomain) (size : ℕ)
    → 2 ^ 32 - 4100 < size
    → size < 2 ^ 32 - 3
    → d.next_free_virt ≡ null
    → resolve l m.ram d.next_virt_addr ≡ none
    → kmalloc_large l d size m ≡ fault
unfolding kmalloc_large map_pages place
kmalloc_large_fault l m d size big h empty gap =
    let zero_pages : pages_for size ≡ 0 = no_pages size big h in
    let some_bytes : (size == 0) ≡ false = ground arith in
    let no_slot : (d.next_free_virt == null) ≡ true = ground arith in
    rw (zero_pages, some_bytes, no_slot, store_unmapped l m d.next_virt_addr 0 gap) refl
