-- ===== src/Heap/Histories.antt =====
-- Histories of the heap of lib/heap_domain.c: allocations, releases and writes in any order.
use mathlib.Core.Bool.{false≢true}
use raxzus_heap_research.Heap.Domain.{null}
use raxzus_heap_research.Heap.NewBlocks.{off_page, grows-IsHeap, fails-same}
use raxzus_heap_research.Base.{
  ne→==, done, ℕ, ◌+◌, ◌%◌, ◌≤◌, ◌<◌, ◌≡◌, refl, sym, ap, ◌∙◌, subst, ◌≢◌, true, false, List, ◌∷◌,
  arith,
}
use raxzus_heap_research.Machine.{Layout}
use raxzus_heap_research.Machine.Access.{peek}
use raxzus_heap_research.Heap.Route.{
  SizeClass, class_size, small, owner_of_size, owner_of_address, Kernel, get_domain, kmalloc,
}
use raxzus_heap_research.Heap.Classes.{Serves, owner_of_size-Serves, InRegion}
use raxzus_heap_research.Heap.Owned.{owner-IsBlock, word_user, other_word}
use raxzus_heap_research.Heap.Live.{
  Held, taken, released, Step, allocates, grows, fails, frees, writes, Steps, stop, step, IsBlock,
  IsHeap, size-positive,
}
use raxzus_heap_research.Heap.Rebuild.{replaced}
use raxzus_heap_research.Heap.Held.{done_inj, tail, allocates-IsHeap, writes-IsHeap, frees-IsHeap}

-- Some lists of free blocks make the kernel's heap one beside the blocks that are held.
abbrev pub Valid : Layout → Kernel → Held → Type 0
Valid l k live = (free : SizeClass → List ℕ) × IsHeap l k live free

-- What a step leaves of a block that it neither frees nor writes.
record Spared (l : Layout) (k k' : Kernel) (live' : Held) (c : SizeClass) (p : ℕ) : Type 0 where
  still : live' p ≡ true
  data_kept :
      (o : ℕ) → o < class_size c → peek l k'.machine.ram (p + o) ≡ peek l k.machine.ram (p + o)

-- The block that a step frees or writes.
abbrev pub Spares :
    ℕ → {l : Layout} {k k' : Kernel} {live live' : Held} → Step l k live k' live' → Type 0
Spares a (allocates c size p class ne e) = Unit {0}
Spares a (grows c size p class empty can fit e) = Unit {0}
Spares a (fails c size p class empty words all e) = Unit {0}
Spares a (frees p held e) = p ≢ a
Spares a (writes c p o word held class h four e) = p ≢ a

abbrev pub AllSpare :
    ℕ → {l : Layout} {k k' : Kernel} {live live' : Held} → Steps l k live k' live' → Type 0
AllSpare a stop = Unit {0}
AllSpare a (step s steps) = Spares a s × AllSpare a steps

Step-Valid :
    {l : Layout} {k k' : Kernel} {live live' : Held}
    → Step l k live k' live'
    → Valid l k live
    → Valid l k' live'
Step-Valid {l} {k} {k'} {live} (allocates c size p class ne e) (free, heap) =
    let (k'', e', fresh, b, same, heap') = allocates-IsHeap l heap c size class ne in
    let (at, to) = done_inj (sym e' ∙ e) in
    let v : Valid l k'' (taken (get_domain c k).next_free_block live) =
      (replaced c (tail (free c)) free, heap') in
    subst (λ t. Valid l t (taken p live)) to (subst (λ t. Valid l k'' (taken t live)) at v)
Step-Valid {l} {k} {k'} {live} (grows c size p class empty can fit e) (free, heap) =
    let (k'', e', fresh, at, heap', kept, un) = grows-IsHeap l heap c empty can fit size class in
    let (here, to) = done_inj (sym e' ∙ e) in
    subst (λ t. Valid l t (taken p live)) to
      (subst (λ t. Valid l k'' (taken t live)) here (replaced c _ free, heap'))
Step-Valid {l} {k} {k'} {live} (fails c size p class empty words all e) v =
    subst (λ t. Valid l t live) (done_inj (sym (fails-same l k c size class empty words all) ∙ e)).1
      v
Step-Valid {l} {k} {k'} {live} (frees p held e) (free, heap) =
    let (c, b) = heap.live_block p held in
    let (k'', e', heap', kept) = frees-IsHeap l heap c p held b in
    subst (λ t. Valid l t (released p live)) (done_inj (sym e' ∙ e)).1
      (replaced c (p ∷ free c) free, heap')
Step-Valid {l} {k} {k'} {live} (writes c p o word held class h four e) (free, heap) =
    let b = owner-IsBlock l heap c p held class in
    let (m, e', heap', view) = writes-IsHeap l heap c p o word held b h four in
    (
      free,
      subst (λ t. IsHeap l (record k { machine = t }) live free) (done_inj (sym e' ∙ e)).1 heap',
    )

-- The invariant of the heap: after any history, from a valid heap, of allocations from the size
-- classes, frees and writes of held blocks, the free lists of the classes and the held blocks are
-- apart, each a block of its class. An allocation takes a block from the free list of its
-- class; or the list is empty, the next page of the class is in its region and not mapped, and the
-- class grows by the first free frame, which is below 2 GiB and unused, with word 0 of the bitmap
-- full and both tables of the page there, apart from each other and from the data; or every frame is
-- in use and NULL is returned. Growth that first needs a new page table and large allocations are no
-- part of a history.
pub Steps-Valid :
    {l : Layout} {k k' : Kernel} {live live' : Held}
    → Steps l k live k' live'
    → Valid l k live
    → Valid l k' live'
Steps-Valid stop v = v
Steps-Valid (step s steps) v = Steps-Valid steps (Step-Valid s v)

Step-Spared :
    {l : Layout} {k k' : Kernel} {live live' : Held} (c : SizeClass) (p : ℕ)
    (s : Step l k live k' live')
    → Valid l k live
    → live p ≡ true
    → IsBlock l k.machine.ram c p
    → Spares p s
    → Spared l k k' live' c p
Step-Spared {l} {k} {k'} {live} c p (allocates c' size q class ne e) (free, heap) held b spares =
    let (k'', e', fresh, b', same, heap') = allocates-IsHeap l heap c' size class ne in
    let same' : k'.machine ≡ k.machine =
      ap (λ t. t.machine) (sym (done_inj (sym e' ∙ e)).1) ∙ same in
    record { still = ground arith; data_kept = λ o h. ap (λ t. peek l t.ram (p + o)) same' }
Step-Spared {l} {k} {k'} {live} c p (grows c' size q class empty can fit e) (free, heap) held b
      spares =
    let (k'', e', fresh, at, heap', kept, un) = grows-IsHeap l heap c' empty can fit size class in
    let to = (done_inj (sym e' ∙ e)).1 in
    record {
      still = ground arith;
      data_kept = λ o h.
          ap (λ t. peek l t.machine.ram (p + o)) (sym to)
          ∙ kept (p + o) (word_user o b h) (off_page l heap c' empty can fit o un b h);
    }
Step-Spared {l} {k} {k'} {live} c p (fails c' size q class empty words all e) v held b spares =
    let same = (done_inj (sym (fails-same l k c' size class empty words all) ∙ e)).1 in
    record { still = held; data_kept = λ o h. ap (λ t. peek l t.machine.ram (p + o)) (sym same) }
Step-Spared {l} {k} {k'} {live} c p (frees q held' e) (free, heap) held b spares =
    let (c', b') = heap.live_block q held' in
    let (k'', e', heap', kept) = frees-IsHeap l heap c' q held' b' in
    let to = (done_inj (sym e' ∙ e)).1 in
    record {
      still = ground arith;
      data_kept = λ o h.
          let apart : q ≢ p + o =
            λ same. other_word p q o 0 b b' h (size-positive c') spares (omega arith) in
          ap (λ t. peek l t.machine.ram (p + o)) (sym to) ∙ kept (p + o) (word_user o b h) apart;
    }
Step-Spared {l} {k} {k'} {live} c p (writes c' q o word held' class h four e) (free, heap) held b
      spares =
    let b' = owner-IsBlock l heap c' q held' class in
    let (m, e', heap', view) = writes-IsHeap l heap c' q o word held' b' h four in
    let to = (done_inj (sym e' ∙ e)).1 in
    record {
      still = held;
      data_kept = λ o' h'.
          let apart = other_word p q o' o b b' h' h spares in
          ap (λ t. peek l t.ram (p + o')) (sym to)
          ∙ view (p + o') (word_user o' b h')
          ∙ rw (ne→== (q + o) (p + o') apart) refl;
    }

-- Over any history, from a valid heap, of allocations from the size classes, frees and writes of held
-- blocks, a held block that nobody frees or writes stays held and every word of it keeps its value.
-- An allocation takes a block from the free list of its
-- class; or the list is empty, the next page of the class is in its region and not mapped, and the
-- class grows by the first free frame, which is below 2 GiB and unused, with word 0 of the bitmap
-- full and both tables of the page there, apart from each other and from the data; or every frame is
-- in use and NULL is returned. Growth that first needs a new page table and large allocations are no
-- part of a history.
pub held_data_lem :
    {l : Layout} {k k' : Kernel} {live live' : Held} (c : SizeClass) (p : ℕ)
    (steps : Steps l k live k' live')
    → Valid l k live
    → live p ≡ true
    → owner_of_address p ≡ small c
    → AllSpare p steps
    → (live' p ≡ true)
      × ((o : ℕ) → o < class_size c → peek l k'.machine.ram (p + o) ≡ peek l k.machine.ram (p + o))
held_data_lem c p stop v held class spare = (held, λ o h. refl)
held_data_lem {l} c p (step s steps) v held class (here, later) =
    let b = owner-IsBlock l v.1 c p held class in
    let spared = Step-Spared c p s v held b here in
    let (held', kept) = held_data_lem c p steps (Step-Valid s v) spared.still class later in
    (held', λ o h. kept o h ∙ spared.data_kept o h)

-- In a valid heap an allocation from a class that has free blocks returns a block of that class,
-- aligned to its size, which nobody holds and which shares no address with a block that is held.
pub allocates_fresh :
    {l : Layout} {k : Kernel} {live : Held} (c : SizeClass) (size : ℕ)
    → Valid l k live
    → owner_of_size size ≡ small c
    → (get_domain c k).next_free_block ≢ null
    → (p : ℕ) × (k' : Kernel) × (kmalloc l size k ≡ done p k')
      × (live p ≡ false)
      × InRegion c p
      × (p % class_size c ≡ 0)
      × (size ≤ class_size c)
      × ((q o o' : ℕ) (c' : SizeClass)
          → live q ≡ true
          → owner_of_address q ≡ small c'
          → o < class_size c
          → o' < class_size c'
          → p + o ≢ q + o')
      × Valid l k' (taken p live)
allocates_fresh {l} {k} {live} c size (free, heap) class ne =
    let (k', e, fresh, b, same, heap') = allocates-IsHeap l heap c size class ne in
    let p = (get_domain c k).next_free_block in
    let room : size ≤ class_size c = (subst (Serves size) class (owner_of_size-Serves size)).0 in
    (
      p,
      k',
      e,
      fresh,
      b.inside,
      b.aligned,
      room,
      (λ q o o' c' held at h h' meet.
          let b' = owner-IsBlock l heap c' q held at in
          let other : q ≢ p = λ is. false≢true (sym fresh ∙ ap live (sym is) ∙ held) in
          other_word p q o o' b b' h h' other (sym meet)),
      (replaced c (tail (free c)) free, heap'),
    )
