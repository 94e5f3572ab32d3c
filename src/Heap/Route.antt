-- ===== src/Heap/Route.antt =====
-- `kmalloc`, `kfree_heap` and `init_all_heaps` of lib/heap_domain.c: which size class serves a
-- request, and which one takes a pointer back.
use raxzus_heap_research.Base.{
  ltb, leb, if◌then◌else◌, Run, done, hang, fault, Cmd, pure, ◌>>=◌, ℕ, ◌&&◌,
}
use raxzus_heap_research.Machine.{Layout, Machine}
use raxzus_heap_research.Heap.Domain.{
  Domain, null, heap_domain_alloc, heap_domain_free, init_heap_domain,
}
use raxzus_heap_research.Heap.Large.{LargeDomain, kmalloc_large, kfree_large, init_large_domain}

-- The seven global domains.
pub data SizeClass : Type 0 where
  heap_64 heap_128 heap_256 heap_512 heap_1k heap_2k heap_4k : SizeClass

-- The first two arguments of the calls in `init_all_heaps`.
unfoldable pub class_size : SizeClass → ℕ
class_size heap_64 = 64
class_size heap_128 = 128
class_size heap_256 = 256
class_size heap_512 = 512
class_size heap_1k = 1024
class_size heap_2k = 2048
class_size heap_4k = 4096

unfoldable pub class_base : SizeClass → ℕ
class_base heap_64 = 0x10000000
class_base heap_128 = 0x20000000
class_base heap_256 = 0x30000000
class_base heap_512 = 0x40000000
class_base heap_1k = 0x50000000
class_base heap_2k = 0x60000000
class_base heap_4k = 0x70000000

-- Who serves a request or owns a pointer: a size class, the large domain, or nobody.
pub data Owner : Type 0 where
  small : SizeClass → Owner
  large : Owner
  nobody : Owner

-- The tests of `kmalloc`.
unfoldable pub owner_of_size : ℕ → Owner
owner_of_size size =
    if leb size 64
    then small heap_64
    else if leb size 128
    then small heap_128
    else if leb size 256
    then small heap_256
    else if leb size 512
    then small heap_512
    else if leb size 1024
    then small heap_1k
    else if leb size 2048
    then small heap_2k
    else if leb size 4096
    then small heap_4k
    else large

-- The tests of `kfree_heap`.
unfoldable pub owner_of_address : ℕ → Owner
owner_of_address addr =
    if leb 0x10000000 addr && ltb addr 0x20000000
    then small heap_64
    else if leb 0x20000000 addr && ltb addr 0x30000000
    then small heap_128
    else if leb 0x30000000 addr && ltb addr 0x40000000
    then small heap_256
    else if leb 0x40000000 addr && ltb addr 0x50000000
    then small heap_512
    else if leb 0x50000000 addr && ltb addr 0x60000000
    then small heap_1k
    else if leb 0x60000000 addr && ltb addr 0x70000000
    then small heap_2k
    else if leb 0x70000000 addr && ltb addr 0x80000000
    then small heap_4k
    else if leb 0x80000000 addr
    then large
    else nobody

-- The machine with the eight domains of the heap.
pub record Kernel : Type 0 where
  pub machine : Machine
  pub heap_64 : Domain
  pub heap_128 : Domain
  pub heap_256 : Domain
  pub heap_512 : Domain
  pub heap_1k : Domain
  pub heap_2k : Domain
  pub heap_4k : Domain
  pub large_domain : LargeDomain

-- `&heap_64` and the others: the domain behind the name, and the kernel after a write to it.
unfoldable pub get_domain : SizeClass → Kernel → Domain
get_domain heap_64 k = k.heap_64
get_domain heap_128 k = k.heap_128
get_domain heap_256 k = k.heap_256
get_domain heap_512 k = k.heap_512
get_domain heap_1k k = k.heap_1k
get_domain heap_2k k = k.heap_2k
get_domain heap_4k k = k.heap_4k

unfoldable pub set_domain : SizeClass → Kernel → Machine → Domain → Kernel
set_domain heap_64 k m d = record k { machine = m; heap_64 = d }
set_domain heap_128 k m d = record k { machine = m; heap_128 = d }
set_domain heap_256 k m d = record k { machine = m; heap_256 = d }
set_domain heap_512 k m d = record k { machine = m; heap_512 = d }
set_domain heap_1k k m d = record k { machine = m; heap_1k = d }
set_domain heap_2k k m d = record k { machine = m; heap_2k = d }
set_domain heap_4k k m d = record k { machine = m; heap_4k = d }

-- A command on the machine that also returns new domains, as a command on the kernel.
abbrev lift : {A B : Type 0} → Run Machine A → (A → Machine → Run Kernel B) → Run Kernel B
lift (done a m) back = back a m
lift hang back = hang
lift fault back = fault

module _ (l : Layout) where
  -- The call in each branch of `kmalloc`.
  unfoldable pub serve : Owner → (size : ℕ) → Cmd Kernel ℕ
  serve (small c) size k =
      lift (heap_domain_alloc l (get_domain c k) k.machine)
        (λ (d, ptr) m. done ptr (set_domain c k m d))
  serve large size k =
      lift (kmalloc_large l k.large_domain size k.machine)
        (λ (d, ptr) m. done ptr (record k { machine = m; large_domain = d }))
  serve nobody size k = done null k

  unfoldable pub kmalloc : ℕ → Cmd Kernel ℕ
  kmalloc size = serve (owner_of_size size) size

  -- The call in each branch of `kfree_heap`.
  unfoldable pub take_back : Owner → (ptr : ℕ) → Cmd Kernel (Unit {0})
  take_back (small c) ptr k =
      lift (heap_domain_free l (get_domain c k) ptr k.machine) (λ d m. done tt (set_domain c k m d))
  take_back large ptr k =
      lift (kfree_large l k.large_domain ptr k.machine)
        (λ d m. done tt (record k { machine = m; large_domain = d }))
  take_back nobody ptr k = done tt k

  unfoldable pub kfree_heap : ℕ → Cmd Kernel (Unit {0})
  kfree_heap ptr = take_back (owner_of_address ptr) ptr

  init_class : SizeClass → Cmd Machine Domain
  init_class c = init_heap_domain l (class_size c) (class_base c)

  unfoldable pub init_all_heaps : Machine → Run Kernel (Unit {0})
  unfolding init_class
  init_all_heaps = λ m.
      lift
        ((do
          a ← init_class heap_64
          b ← init_class heap_128
          c ← init_class heap_256
          d ← init_class heap_512
          e ← init_class heap_1k
          f ← init_class heap_2k
          g ← init_class heap_4k
          big ← init_large_domain l
          pure (a, b, c, d, e, f, g, big))
          m)
        (λ (a, b, c, d, e, f, g, big) m'. done tt (record {
          machine = m';
          heap_64 = a;
          heap_128 = b;
          heap_256 = c;
          heap_512 = d;
          heap_1k = e;
          heap_2k = f;
          heap_4k = g;
          large_domain = big;
        }))
