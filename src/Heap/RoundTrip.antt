-- ===== src/Heap/RoundTrip.antt =====
-- `kmalloc` and `kfree_heap` of lib/heap_domain.c on the free list of a size class.
use raxzus_heap_research.Machine.Access.{kernel_base, peek}
use raxzus_heap_research.Heap.Chain.{◌∉◌}
use raxzus_heap_research.Heap.Classes.{InRegion, owner_of_address_iff}
use raxzus_heap_research.Base.{
  done, Cmd, ◌>>◌, ℕ, ◌<◌, ◌≡◌, refl, ap, ◌∙◌, ◌≢◌, some, List, ◌∷◌, arith,
}
use raxzus_heap_research.Machine.{Layout, Machine}
use raxzus_heap_research.Heap.Domain.{Domain, null, heap_domain_alloc, heap_domain_free}
use raxzus_heap_research.Heap.Route.{
  SizeClass, heap_64, heap_128, heap_256, heap_512, heap_1k, heap_2k, heap_4k, class_base, small,
  owner_of_size, owner_of_address, Kernel, get_domain, set_domain, serve, kmalloc, take_back,
  kfree_heap,
}
use raxzus_heap_research.Heap.Lifo.{
  HasFree, heap_domain_alloc-Popped, heap_domain_free-Pushed, realloc-Pushed,
}

pub get-set_self :
    (c : SizeClass) (k : Kernel) (m : Machine) (d : Domain) → get_domain c (set_domain c k m d) ≡ d
unfolding get_domain set_domain
get-set_self heap_64 k m d = refl
get-set_self heap_128 k m d = refl
get-set_self heap_256 k m d = refl
get-set_self heap_512 k m d = refl
get-set_self heap_1k k m d = refl
get-set_self heap_2k k m d = refl
get-set_self heap_4k k m d = refl

pub machine-set :
    (c : SizeClass) (k : Kernel) (m : Machine) (d : Domain) → (set_domain c k m d).machine ≡ m
unfolding set_domain
machine-set heap_64 k m d = refl
machine-set heap_128 k m d = refl
machine-set heap_256 k m d = refl
machine-set heap_512 k m d = refl
machine-set heap_1k k m d = refl
machine-set heap_2k k m d = refl
machine-set heap_4k k m d = refl

set-set :
    (c : SizeClass) (k : Kernel) (m m' : Machine) (d d' : Domain)
    → set_domain c (set_domain c k m d) m' d' ≡ set_domain c k m' d'
unfolding set_domain
set-set heap_64 k m m' d d' = refl
set-set heap_128 k m m' d d' = refl
set-set heap_256 k m m' d d' = refl
set-set heap_512 k m m' d d' = refl
set-set heap_1k k m m' d d' = refl
set-set heap_2k k m m' d d' = refl
set-set heap_4k k m m' d d' = refl

pub set-get :
    (c : SizeClass) (k : Kernel) (m : Machine)
    → set_domain c k m (get_domain c k) ≡ record k { machine = m }
unfolding get_domain set_domain
set-get heap_64 k m = refl
set-get heap_128 k m = refl
set-get heap_256 k m = refl
set-get heap_512 k m = refl
set-get heap_1k k m = refl
set-get heap_2k k m = refl
set-get heap_4k k m = refl

module _ (l : Layout) (k : Kernel) (c : SizeClass) where
  pub serve_small :
      (size : ℕ) {d : Domain} {p : ℕ} {m : Machine}
      → heap_domain_alloc l (get_domain c k) k.machine ≡ done (d, p) m
      → serve l (small c) size k ≡ done p (set_domain c k m d)
  unfolding serve
  serve_small size e = rw e

  pub take_back_small :
      (p : ℕ) {d : Domain} {m : Machine}
      → heap_domain_free l (get_domain c k) p k.machine ≡ done d m
      → take_back l (small c) p k ≡ done tt (set_domain c k m d)
  unfolding take_back
  take_back_small p e = rw e

  pub kmalloc_small :
      (size : ℕ) → owner_of_size size ≡ small c → kmalloc l size k ≡ serve l (small c) size k
  unfolding kmalloc
  kmalloc_small size class = rw class

  pub kfree_small :
      (p : ℕ) → owner_of_address p ≡ small c → kfree_heap l p k ≡ take_back l (small c) p k
  unfolding kfree_heap
  kfree_small p class = rw class

  -- While its class has free blocks, `kmalloc` takes the first of them from that class; the other
  -- classes and the memory stay as they are.
  pub kmalloc-Popped :
      (size p : ℕ) (xs : List ℕ)
      → owner_of_size size ≡ small c
      → HasFree l k.machine (get_domain c k) (p ∷ xs)
      → (d : Domain) × (kmalloc l size k ≡ done p (set_domain c k k.machine d))
        × HasFree l k.machine d xs
  kmalloc-Popped size p xs class h =
      let popped = heap_domain_alloc-Popped l (get_domain c k) h in
      (
        record (get_domain c k) { next_free_block = popped.after },
        kmalloc_small size class ∙ serve_small size popped.returns,
        popped.free,
      )

-- `kfree_heap(p)`, then `kmalloc(size)`.
abbrev pub free_then_alloc : Layout → (p size : ℕ) → Cmd Kernel ℕ
free_then_alloc l p size = do kfree_heap l p; kmalloc l size

pub region_lt : (c : SizeClass) (p : ℕ) → InRegion c p → (p ≢ null) × (p < kernel_base)
unfolding class_base
region_lt heap_64 p h = (ground arith, omega arith)
region_lt heap_128 p h = (ground arith, omega arith)
region_lt heap_256 p h = (ground arith, omega arith)
region_lt heap_512 p h = (ground arith, omega arith)
region_lt heap_1k p h = (ground arith, omega arith)
region_lt heap_2k p h = (ground arith, omega arith)
region_lt heap_4k p h = (ground arith, omega arith)

module _ (l : Layout) (k : Kernel) (c : SizeClass) where
  -- A block that lies in the region of a class, is mapped and is not on the free list of the class:
  -- freeing it and then asking for a size of that class gives the same block back, and leaves all
  -- domains as they were, with the same free blocks.
  pub free_then_alloc_lem :
      (p size old : ℕ) (xs : List ℕ)
      → InRegion c p
      → owner_of_size size ≡ small c
      → HasFree l k.machine (get_domain c k) xs
      → peek l k.machine.ram p ≡ some old
      → p ∉ xs
      → (g : Machine) × (free_then_alloc l p size k ≡ done p (record k { machine = g }))
        × HasFree l g (get_domain c k) xs
        × (g.frames ≡ k.machine.frames)
  free_then_alloc_lem p size old xs inside class h e out =
      let d = get_domain c k in
      let (ne, user) = region_lt c p inside in
      let pushed = heap_domain_free-Pushed l d p old h ne user e out in
      let d' : Domain = record d { next_free_block = p } in
      let k' = set_domain c k pushed.after d' in
      let freed : kfree_heap l p k ≡ done tt k' =
        kfree_small l k c p ((owner_of_address_iff c p).1 inside)
        ∙ take_back_small l k c p pushed.returns in
      let taken : heap_domain_alloc l (get_domain c k') k'.machine ≡ done (d, p) pushed.after =
        rw (get-set_self c k pushed.after d', machine-set c k pushed.after d')
          (realloc-Pushed l d p ne pushed) in
      let back : kmalloc l size k' ≡ done p (record k { machine = pushed.after }) =
        kmalloc_small l k' c size class
        ∙ serve_small l k' c size taken
        ∙ ap (λ t. done p t)
            (set-set c k pushed.after pushed.after d' d ∙ set-get c k pushed.after) in
      (pushed.after, rw freed back, pushed.below, pushed.frames)

-- `kfree_heap` of an address below the heap's regions, NULL among them, does nothing.
pub kfree_heap_nobody :
    (l : Layout) (k : Kernel) (p : ℕ) → p < 0x10000000 → kfree_heap l p k ≡ done tt k
unfolding kfree_heap owner_of_address take_back
kfree_heap_nobody l k p h = ground arith
