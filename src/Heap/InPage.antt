-- ===== src/Heap/InPage.antt =====
-- Where the blocks of a page lie, for each size class of lib/heap_domain.c.
use raxzus_heap_research.Base.{
  eq-or-ne, ℕ, zero, suc, ◌+◌, ◌*◌, ◌/◌, ◌%◌, ◌≤◌, ◌<◌, ◌≡◌, refl, inl, inr, true, arith,
}
use raxzus_heap_research.Heap.Route.{
  SizeClass, heap_64, heap_128, heap_256, heap_512, heap_1k, heap_2k, heap_4k, class_size,
  class_base,
}
use raxzus_heap_research.Heap.Chain.{has}
use raxzus_heap_research.Heap.Link.{blocks}
use raxzus_heap_research.Heap.Classes.{InRegion}

-- The blocks of a page of each class.
pub page_count :
    (c : SizeClass)
    → (left : ℕ) × (4096 / class_size c ≡ suc left) × ((0 + suc left) * class_size c ≤ 4096)
unfolding class_size
page_count heap_64 = (63, refl, omega arith)
page_count heap_128 = (31, refl, omega arith)
page_count heap_256 = (15, refl, omega arith)
page_count heap_512 = (7, refl, omega arith)
page_count heap_1k = (3, refl, omega arith)
page_count heap_2k = (1, refl, omega arith)
page_count heap_4k = (0, refl, omega arith)

-- The number of a block in its page.
pub block_number :
    (count i virt size a : ℕ)
    → has a (blocks count i virt size) ≡ true
    → (j : ℕ) × (a ≡ virt + j * size)
block_number zero i virt size a on = cc
block_number (suc count) i virt size a on = elim (eq-or-ne a (virt + i * size)) [
  | inl same ↦ (i, same)
  | inr other ↦ block_number count (i + 1) virt size a (ground arith)
]

-- Where a block of a page lies.
pub record IsPlaced (c : SizeClass) (virt a : ℕ) : Type 0 where
  pub inside : InRegion c a
  pub aligned : a % class_size c ≡ 0
  pub in_page : (o : ℕ) → o < class_size c → (a + o) / 4096 ≡ virt / 4096

pub placed :
    (c : SizeClass) (virt a j : ℕ)
    → class_base c ≤ virt
    → virt + 4096 ≤ class_base c + 0x10000000
    → virt % 4096 ≡ 0
    → a ≡ virt + j * class_size c
    → a / 4096 ≡ virt / 4096
    → IsPlaced c virt a
unfolding class_size class_base
placed heap_64 virt a j lo hi al e pg = record {
  inside = (omega arith, omega arith);
  aligned = omega arith;
  in_page = λ o h. omega arith;
}
placed heap_128 virt a j lo hi al e pg = record {
  inside = (omega arith, omega arith);
  aligned = omega arith;
  in_page = λ o h. omega arith;
}
placed heap_256 virt a j lo hi al e pg = record {
  inside = (omega arith, omega arith);
  aligned = omega arith;
  in_page = λ o h. omega arith;
}
placed heap_512 virt a j lo hi al e pg = record {
  inside = (omega arith, omega arith);
  aligned = omega arith;
  in_page = λ o h. omega arith;
}
placed heap_1k virt a j lo hi al e pg = record {
  inside = (omega arith, omega arith);
  aligned = omega arith;
  in_page = λ o h. omega arith;
}
placed heap_2k virt a j lo hi al e pg = record {
  inside = (omega arith, omega arith);
  aligned = omega arith;
  in_page = λ o h. omega arith;
}
placed heap_4k virt a j lo hi al e pg = record {
  inside = (omega arith, omega arith);
  aligned = omega arith;
  in_page = λ o h. omega arith;
}

-- A block lies in one page.
pub one_page :
    (c : SizeClass) (p o : ℕ) → p % class_size c ≡ 0 → o < class_size c → (p + o) / 4096 ≡ p / 4096
unfolding class_size
one_page heap_64 p o al h = omega arith
one_page heap_128 p o al h = omega arith
one_page heap_256 p o al h = omega arith
one_page heap_512 p o al h = omega arith
one_page heap_1k p o al h = omega arith
one_page heap_2k p o al h = omega arith
one_page heap_4k p o al h = omega arith
