-- ===== src/Heap/Owned.antt =====
-- The blocks of lib/heap_domain.c that clients hold: their class, and where their words lie.
use raxzus_heap_research.Base.{ℕ, ◌+◌, ◌<◌, ◌≡◌, sym, subst, ◌≢◌, true, List}
use raxzus_heap_research.Machine.{Layout}
use raxzus_heap_research.Machine.Access.{kernel_base}
use raxzus_heap_research.Heap.Route.{SizeClass, class_size, small, owner_of_address, Kernel}
use raxzus_heap_research.Heap.Classes.{owner_of_address_iff}
use raxzus_heap_research.Heap.RoundTrip.{region_lt}
use raxzus_heap_research.Heap.Live.{
  Held, IsBlock, IsHeap, word-InRegion, region_class, blocks_apart,
}

-- The class of a held block.
pub owner-IsBlock :
    (l : Layout) {k : Kernel} {live : Held} {free : SizeClass → List ℕ}
    → IsHeap l k live free
    → (c : SizeClass) (p : ℕ) → live p ≡ true
    → owner_of_address p ≡ small c
    → IsBlock l k.machine.ram c p
owner-IsBlock l {k} heap c p held class =
    let (c', b) = heap.live_block p held in
    let same = region_class c' c p b.inside ((owner_of_address_iff c p).0 class) in
    subst (λ t. IsBlock l k.machine.ram t p) same b

-- Where a word of a block lies: below the kernel, and in no other block.
pub word_user :
    {l : Layout} {ram : ℕ → ℕ} {c : SizeClass} {p : ℕ} (o : ℕ)
    → IsBlock l ram c p
    → o < class_size c
    → p + o < kernel_base
word_user {c} {p} o b h = (region_lt c (p + o) (word-InRegion c p o b.inside b.aligned h)).1

pub other_word :
    {l : Layout} {ram : ℕ → ℕ} {c c' : SizeClass} (p q o o' : ℕ)
    → IsBlock l ram c p
    → IsBlock l ram c' q
    → o < class_size c
    → o' < class_size c'
    → q ≢ p
    → q + o' ≢ p + o
other_word p q o o' b b' h h' ne e = ne (sym (blocks_apart p q o o' b b' h h' (sym e)).1)
