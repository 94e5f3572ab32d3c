-- ===== src/Heap/Classes.antt =====
-- Which size class `kmalloc` of lib/heap_domain.c picks, and which one `kfree_heap` goes to.
use raxzus_heap_research.Base.{leb, if_cases, ℕ, ◌+◌, ◌*◌, ◌^◌, ◌≤◌, ◌<◌, ◌≡◌, ◌↔◌, arith}
use raxzus_heap_research.Heap.Route.{
  SizeClass, heap_64, heap_128, heap_256, heap_512, heap_1k, heap_2k, heap_4k, class_size,
  class_base, Owner, small, large, nobody, owner_of_size, owner_of_address,
}

-- What the choice of an owner means for a request of `size` bytes.
abbrev pub Serves : ℕ → Owner → Type 0
Serves size (small c) = (size ≤ class_size c) × (64 < size → class_size c < 2 * size)
Serves size large = 4096 < size
Serves size nobody = ⊥

-- A request is served by a class whose blocks hold it and waste less than half of a block, from
-- 65 bytes on; only requests above 4 KiB are large, and every request is served.
pub owner_of_size-Serves : (size : ℕ) → Serves size (owner_of_size size)
unfolding owner_of_size class_size
owner_of_size-Serves size =
    if_cases (Serves size) (leb size 64) _ _ (λ a. (ground arith, ground arith))
      λ a.
        if_cases (Serves size) (leb size 128) _ _ (λ b. (ground arith, ground arith))
          λ b.
            if_cases (Serves size) (leb size 256) _ _ (λ c. (ground arith, ground arith))
              λ c.
                if_cases (Serves size) (leb size 512) _ _ (λ d. (ground arith, ground arith))
                  λ d.
                    if_cases (Serves size) (leb size 1024) _ _ (λ e. (ground arith, ground arith))
                      λ e.
                        if_cases (Serves size) (leb size 2048) _ _
                          (λ f. (ground arith, ground arith))
                          λ f.
                            if_cases (Serves size) (leb size 4096) _ _
                              (λ g. (ground arith, ground arith)) λ g. ground arith

-- The virtual region of a class: 256 MiB from its base.
abbrev pub InRegion : SizeClass → ℕ → Type 0
InRegion c addr = (class_base c ≤ addr) × (addr < class_base c + 2 ^ 28)

-- A pointer goes to a size class exactly when it lies in the region of that class.
pub owner_of_address_iff :
    (c : SizeClass) (addr : ℕ) → (owner_of_address addr ≡ small c) ↔ InRegion c addr
unfolding owner_of_address class_base
owner_of_address_iff heap_64 addr = (ground arith, ground arith)
owner_of_address_iff heap_128 addr = (ground arith, ground arith)
owner_of_address_iff heap_256 addr = (ground arith, ground arith)
owner_of_address_iff heap_512 addr = (ground arith, ground arith)
owner_of_address_iff heap_1k addr = (ground arith, ground arith)
owner_of_address_iff heap_2k addr = (ground arith, ground arith)
owner_of_address_iff heap_4k addr = (ground arith, ground arith)
