-- ===== src/Heap/Live.antt =====
-- The heap of lib/heap_domain.c with the blocks that its clients hold: allocations from the size
-- classes, releases, and the writes of the clients, in any order.
use raxzus_heap_research.Heap.PageView.{CanGrow}
use raxzus_heap_research.Pmm.Marks.{IsBitmap}
use raxzus_heap_research.Pmm.Alloc.{AllUsed}
use raxzus_heap_research.Heap.RoundTrip.{region_lt}
use raxzus_heap_research.Base.{
  ◌==◌, if◌then◌else◌, Bool-cases, done, ℕ, ◌+◌, ◌/◌, ◌%◌, ◌≤◌, ◌<◌, ◌≡◌, refl, sym, ◌∙◌, subst,
  ◌≢◌, ◌⊎◌, inl, inr, Bool, true, false, not, ◌&&◌, ◌||◌, some, List, arith,
}
use raxzus_heap_research.Machine.{Layout, Machine, store}
use raxzus_heap_research.Machine.Access.{kernel_base, peek, IsApart}
use raxzus_heap_research.Heap.Domain.{Domain, null}
use raxzus_heap_research.Heap.Route.{
  SizeClass, heap_64, heap_128, heap_256, heap_512, heap_1k, heap_2k, heap_4k, class_size,
  class_base, small, owner_of_size, owner_of_address, Kernel, get_domain, set_domain, kmalloc,
  kfree_heap,
}
use raxzus_heap_research.Heap.Chain.{has, FreeList}
use raxzus_heap_research.Heap.Classes.{InRegion, owner_of_address_iff}

-- The set of blocks that clients hold.
abbrev pub Held : Type 0
Held = ℕ → Bool

abbrev pub taken : ℕ → Held → Held
taken p live a = (a == p) || live a

abbrev pub released : ℕ → Held → Held
released p live a = live a && not (a == p)

-- A domain as `init_all_heaps` sets it up for its class, with room in its region for one more page.
pub record HasRoom (c : SizeClass) (d : Domain) : Type 0 where
  pub block_size : d.block_size ≡ class_size c
  pub blocks_per_page : d.blocks_per_page ≡ 4096 / class_size c
  pub from_base : class_base c ≤ d.next_virt_addr
  pub to_end : d.next_virt_addr + 4096 ≤ class_base c + 0x10000000

-- One call or one write of a client: an allocation from the free list of a class, one for which the
-- class grows by a page whose tables are there, one that finds no free frame, a release, or a write
-- to a word of a block that the client holds.
pub data Step (l : Layout) : Kernel → Held → Kernel → Held → Type 0 where
  allocates :
      {k k' : Kernel} {live : Held} (c : SizeClass) (size p : ℕ)
      → owner_of_size size ≡ small c
      → (get_domain c k).next_free_block ≢ null
      → kmalloc l size k ≡ done p k'
      → Step l k live k' (taken p live)
  grows :
      {k k' : Kernel} {live : Held} (c : SizeClass) (size p : ℕ)
      → owner_of_size size ≡ small c
      → (get_domain c k).next_free_block ≡ null
      → CanGrow l k.machine (get_domain c k)
      → HasRoom c (get_domain c k)
      → kmalloc l size k ≡ done p k'
      → Step l k live k' (taken p live)
  fails :
      {k k' : Kernel} {live : Held} (c : SizeClass) (size p : ℕ)
      → owner_of_size size ≡ small c
      → (get_domain c k).next_free_block ≡ null
      → IsBitmap k.machine.frames
      → AllUsed k.machine.frames 0
      → kmalloc l size k ≡ done p k'
      → Step l k live k' live
  frees :
      {k k' : Kernel} {live : Held} (p : ℕ)
      → live p ≡ true
      → kfree_heap l p k ≡ done tt k'
      → Step l k live k' (released p live)
  writes :
      {k : Kernel} {m : Machine} {live : Held} (c : SizeClass) (p o word : ℕ)
      → live p ≡ true
      → owner_of_address p ≡ small c
      → o < class_size c
      → o % 4 ≡ 0
      → store l (p + o) word k.machine ≡ done tt m
      → Step l k live (record k { machine = m }) live

pub data Steps (l : Layout) : Kernel → Held → Kernel → Held → Type 0 where
  stop : {k : Kernel} {live : Held} → Steps l k live k live
  step :
      {k k' k'' : Kernel} {live live' live'' : Held}
      → Step l k live k' live'
      → Steps l k' live' k'' live''
      → Steps l k live k'' live''

-- A block of a class: in the region of the class, aligned to its size, and mapped.
pub record IsBlock (l : Layout) (ram : ℕ → ℕ) (c : SizeClass) (p : ℕ) : Type 0 where
  pub inside : InRegion c p
  pub aligned : p % class_size c ≡ 0
  pub mapped : (o : ℕ) → o < class_size c → o % 4 ≡ 0 → (x : ℕ) × (peek l ram (p + o) ≡ some x)

-- The free blocks of each class form its free list, and no free block is held.
pub record IsHeap (l : Layout) (k : Kernel) (live : Held) (free : SizeClass → List ℕ) : Type 0 where
  pub apart : IsApart l k.machine.ram
  pub chain :
      (c : SizeClass) → FreeList (peek l k.machine.ram) (get_domain c k).next_free_block (free c)
  pub free_block : (c : SizeClass) (p : ℕ) → has p (free c) ≡ true → IsBlock l k.machine.ram c p
  pub live_block : (p : ℕ) → live p ≡ true → (c : SizeClass) × IsBlock l k.machine.ram c p
  pub not_held : (c : SizeClass) (p : ℕ) → has p (free c) ≡ true → live p ≡ false

pub get-set_other :
    (c c' : SizeClass) (k : Kernel) (m : Machine) (d : Domain)
    → c ≢ c'
    → get_domain c' (set_domain c k m d) ≡ get_domain c' k
unfolding get_domain set_domain
get-set_other c c' k m d ne = ground arith

-- Whether two classes are the same.
pub same-class : (c c' : SizeClass) → (c ≡ c') ⊎ (c ≢ c')
same-class c c' = ground arith

-- Where the words of a block lie.
pub word-InRegion :
    (c : SizeClass) (p o : ℕ)
    → InRegion c p
    → p % class_size c ≡ 0
    → o < class_size c
    → InRegion c (p + o)
unfolding class_size class_base
word-InRegion heap_64 p o (lo, hi) al h = (omega arith, omega arith)
word-InRegion heap_128 p o (lo, hi) al h = (omega arith, omega arith)
word-InRegion heap_256 p o (lo, hi) al h = (omega arith, omega arith)
word-InRegion heap_512 p o (lo, hi) al h = (omega arith, omega arith)
word-InRegion heap_1k p o (lo, hi) al h = (omega arith, omega arith)
word-InRegion heap_2k p o (lo, hi) al h = (omega arith, omega arith)
word-InRegion heap_4k p o (lo, hi) al h = (omega arith, omega arith)

same-start :
    (c : SizeClass) (p q o o' : ℕ)
    → p % class_size c ≡ 0
    → q % class_size c ≡ 0
    → o < class_size c
    → o' < class_size c
    → p + o ≡ q + o'
    → p ≡ q
unfolding class_size
same-start heap_64 p q o o' a b h h' e = omega arith
same-start heap_128 p q o o' a b h h' e = omega arith
same-start heap_256 p q o o' a b h h' e = omega arith
same-start heap_512 p q o o' a b h h' e = omega arith
same-start heap_1k p q o o' a b h h' e = omega arith
same-start heap_2k p q o o' a b h h' e = omega arith
same-start heap_4k p q o o' a b h h' e = omega arith

small_inj : {c c' : SizeClass} → small c ≡ small c' → c ≡ c'
small_inj e = cc

-- Regions of two classes share no address.
pub region_class : (c c' : SizeClass) (a : ℕ) → InRegion c a → InRegion c' a → c ≡ c'
region_class c c' a h h' =
    small_inj (sym ((owner_of_address_iff c a).1 h) ∙ (owner_of_address_iff c' a).1 h')

-- Two blocks that share an address are one.
pub blocks_apart :
    {l : Layout} {ram : ℕ → ℕ} {c c' : SizeClass} (p q o o' : ℕ)
    → IsBlock l ram c p
    → IsBlock l ram c' q
    → o < class_size c
    → o' < class_size c'
    → p + o ≡ q + o'
    → (c ≡ c') × (p ≡ q)
blocks_apart {c} {c'} p q o o' b b' h h' e =
    let here = word-InRegion c p o b.inside b.aligned h in
    let there = word-InRegion c' q o' b'.inside b'.aligned h' in
    let same : c ≡ c' = region_class c c' (p + o) here (subst (InRegion c') (sym e) there) in
    (
      same,
      same-start c p q o o' b.aligned (subst (λ t. q % class_size t ≡ 0) (sym same) b'.aligned) h
          (subst (λ t. o' < class_size t) (sym same) h') e,
    )

pub size-positive : (c : SizeClass) → 0 < class_size c
unfolding class_size
size-positive c = ground arith

-- A block stays one as long as its words stay mapped.
pub IsBlock-kept :
    {l : Layout} {ram ram' : ℕ → ℕ} {c : SizeClass} {p : ℕ} (v word : ℕ)
    → IsBlock l ram c p
    → ((w : ℕ) → w < kernel_base → peek l ram' w ≡ (if v == w then some word else peek l ram w))
    → IsBlock l ram' c p
IsBlock-kept {l} {ram} {ram'} {c} {p} v word b view = record {
  inside = b.inside;
  aligned = b.aligned;
  mapped = λ o h four.
      let (x, e) = b.mapped o h four in
      let (pos, user) = region_lt c (p + o) (word-InRegion c p o b.inside b.aligned h) in
      elim (Bool-cases (v == p + o)) [
        | inl same ↦ (word, view (p + o) user ∙ rw same refl)
        | inr other ↦ (x, view (p + o) user ∙ rw other e)
      ];
}
