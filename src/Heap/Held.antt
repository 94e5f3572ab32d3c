-- ===== src/Heap/Held.antt =====
-- The heap of lib/heap_domain.c keeps its free blocks and the blocks that are held apart.
use raxzus_heap_research.Heap.Classes.{owner_of_address_iff}
use mathlib.Core.Bool.{false≢true}
use raxzus_heap_research.Base.{
  ◌==◌, if◌then◌else◌, ==→eq, eq→==, ne→==, Bool-cases, eq-or-ne, done, ℕ, ◌+◌, ◌%◌, ◌<◌, ◌≡◌, refl,
  sym, ap, ◌∙◌, subst, ◌≢◌, inl, inr, true, false, Option, some, List, [], ◌∷◌, arith,
}
use raxzus_heap_research.Machine.{Layout, Machine, store}
use raxzus_heap_research.Machine.Access.{kernel_base, peek, store-Written}
use raxzus_heap_research.Heap.Domain.{null}
use raxzus_heap_research.Heap.Route.{
  SizeClass, class_size, small, owner_of_size, Kernel, get_domain, set_domain, kmalloc, kfree_heap,
}
use raxzus_heap_research.Heap.Chain.{has, ◌∉◌, nil, cons, FreeList, ne_of_has, FreeList-write}
use raxzus_heap_research.Heap.Lifo.{HasFree, heap_domain_free-Pushed}
use raxzus_heap_research.Heap.RoundTrip.{
  machine-set, take_back_small, kfree_small, kmalloc-Popped, region_lt,
}
use raxzus_heap_research.Heap.Live.{
  Held, taken, released, IsBlock, IsHeap, word-InRegion, blocks_apart, size-positive, IsBlock-kept,
}
use raxzus_heap_research.Heap.Rebuild.{replaced, not_taken, rebuild}

pub done_inj : {S A : Type 0} {a b : A} {s t : S} → done a s ≡ done b t → (a ≡ b) × (s ≡ t)
done_inj e = (cc, cc)

abbrev pub tail : List ℕ → List ℕ
tail [] = []
tail (x ∷ xs) = xs

-- A list whose head is not NULL has a first block.
first_block :
    {view : ℕ → Option ℕ} {p : ℕ} (xs : List ℕ)
    → FreeList view p xs
    → p ≢ null
    → (xs ≡ p ∷ tail xs) × (p ∉ tail xs)
first_block [] nil ne = absurd (ne refl)
first_block (x ∷ xs) (cons ne' user e out s) ne = (refl, out)

not_released : (p : ℕ) (live : Held) (q : ℕ) → live q ≡ false → released p live q ≡ false
not_released p live q h = rw h refl

pub same_chain :
    (c : SizeClass) (k : Kernel) (m : Machine)
    → get_domain c (record k { machine = m }) ≡ get_domain c k
unfolding get_domain
same_chain c k m = ground arith

module _ (l : Layout) {k : Kernel} {live : Held} {free : SizeClass → List ℕ}
    (heap : IsHeap l k live free) where
  -- A block of another class is another block.
  other_block :
      {c c' : SizeClass} {p q : ℕ}
      → IsBlock l k.machine.ram c p
      → IsBlock l k.machine.ram c' q
      → c ≢ c'
      → q ≢ p
  other_block {c} {c'} {p} {q} b b' ne e =
      ne (blocks_apart p q 0 0 b b' (size-positive c) (size-positive c') (omega arith)).0

  -- An allocation from a class with free blocks: it returns the first of them, which nobody holds.
  pub allocates-IsHeap :
      (c : SizeClass) (size : ℕ)
      → owner_of_size size ≡ small c
      → (get_domain c k).next_free_block ≢ null
      → let p = (get_domain c k).next_free_block in
        (k' : Kernel) × (kmalloc l size k ≡ done p k')
        × (live p ≡ false)
        × IsBlock l k.machine.ram c p
        × (k'.machine ≡ k.machine)
        × IsHeap l k' (taken p live) (replaced c (tail (free c)) free)
  allocates-IsHeap c size class ne =
      let p = (get_domain c k).next_free_block in
      let (whole, out) = first_block (free c) (heap.chain c) ne in
      let h : HasFree l k.machine (get_domain c k) (p ∷ tail (free c)) = record {
        apart = heap.apart;
        chain = subst (FreeList _ p) whole (heap.chain c);
      } in
      let (d, returns, rest) = kmalloc-Popped l k c size p (tail (free c)) class h in
      let among : has p (free c) ≡ true = ap (has p) whole ∙ ground arith in
      let block = heap.free_block c p among in
      let in_tail : (q : ℕ) → has q (tail (free c)) ≡ true → (has q (free c) ≡ true) × (q ≢ p) =
        λ q i. (ap (has q) whole ∙ ground arith, λ e. ne_of_has (tail (free c)) out i (sym e)) in
      (
        set_domain c k k.machine d,
        returns,
        heap.not_held c p among,
        block,
        machine-set c k k.machine d,
        rebuild l k c k.machine d (taken p live) free (tail (free c)) rest (λ c' _. heap.chain c')
            (λ q i.
              let (all, other) = in_tail q i in
              (heap.free_block c q all, not_taken live q other (heap.not_held c q all)))
            (λ c' other q i.
              let b = heap.free_block c' q i in
              (b, not_taken live q (other_block block b other) (heap.not_held c' q i)))
            (λ q i. elim (Bool-cases (q == p)) [
              | inl same ↦ (c, subst (IsBlock l k.machine.ram c) (sym (==→eq q p same)) block)
              | inr apart ↦ heap.live_block q (ground arith)
            ]),
      )

  -- A block that is held is on no free list.
  held_off_list :
      (p o : ℕ) (c c' : SizeClass)
      → live p ≡ true
      → IsBlock l k.machine.ram c p
      → o < class_size c
      → (p + o) ∉ free c'
  held_off_list p o c c' held b h = elim (Bool-cases (has (p + o) (free c'))) [
    | inr out ↦ out
    | inl i ↦
        let b' = heap.free_block c' (p + o) i in
        let (same, start) = blocks_apart p (p + o) o 0 b b' h (size-positive c') (omega arith) in
        let at_start : has p (free c') ≡ true = subst (λ t. has t (free c') ≡ true) (sym start) i in
        absurd (false≢true (sym (heap.not_held c' p at_start) ∙ held))
  ]

  -- A write of a client to a word of a block that it holds.
  pub writes-IsHeap :
      (c : SizeClass) (p o word : ℕ)
      → live p ≡ true
      → IsBlock l k.machine.ram c p
      → o < class_size c
      → o % 4 ≡ 0
      → (m : Machine) × (store l (p + o) word k.machine ≡ done tt m)
        × IsHeap l (record k { machine = m }) live free
        × ((w : ℕ)
            → w < kernel_base
            → peek l m.ram w ≡ (if p + o == w then some word else peek l k.machine.ram w))
  writes-IsHeap c p o word held b h four =
      let (x, e) = b.mapped o h four in
      let (pos, user) = region_lt c (p + o) (word-InRegion c p o b.inside b.aligned h) in
      let w = store-Written l k.machine (p + o) x word heap.apart user e in
      (
        w.after,
        w.returns,
        record {
          apart = w.apart;
          chain = λ c'.
              subst (λ t. FreeList (peek l w.after.ram) t (free c'))
                (sym (ap (λ t. t.next_free_block) (same_chain c' k w.after)))
                (FreeList-write (p + o) word (heap.chain c') w.view
                  (held_off_list p o c c' held b h));
          free_block = λ c' q i. IsBlock-kept (p + o) word (heap.free_block c' q i) w.view;
          live_block = λ q i.
              let (c', b') = heap.live_block q i in (c', IsBlock-kept (p + o) word b' w.view);
          not_held = heap.not_held;
        },
        w.view,
      )

  off_lists :
      (p : ℕ) (c : SizeClass)
      → live p ≡ true
      → IsBlock l k.machine.ram c p
      → (c' : SizeClass) → p ∉ free c'
  off_lists p c held b c' =
      subst (λ t. t ∉ free c') (omega arith) (held_off_list p 0 c c' held b (size-positive c))

  -- The release of a block that is held: it is put in front of the list of its class.
  pub frees-IsHeap :
      (c : SizeClass) (p : ℕ)
      → live p ≡ true
      → IsBlock l k.machine.ram c p
      → (k' : Kernel) × (kfree_heap l p k ≡ done tt k')
        × IsHeap l k' (released p live) (replaced c (p ∷ free c) free)
        × ((w : ℕ) → w < kernel_base → p ≢ w → peek l k'.machine.ram w ≡ peek l k.machine.ram w)
  frees-IsHeap c p held b =
      let d = get_domain c k in
      let (ne, user) = region_lt c p b.inside in
      let (x, e) = b.mapped 0 (size-positive c) (omega arith) in
      let out = off_lists p c held b in
      let h : HasFree l k.machine d (free c) = record {
        apart = heap.apart;
        chain = heap.chain c;
      } in
      let pushed =
        heap_domain_free-Pushed l d p x h ne user
          (subst (λ t. peek l k.machine.ram t ≡ some x) (omega arith) e) (out c) in
      let m = pushed.after in
      let view : (w : ℕ)
          → w < kernel_base
          → peek l m.ram w ≡ (if p == w then some d.next_free_block else peek l k.machine.ram w) =
        λ w u. elim (eq-or-ne p w) [
          | inl same ↦ rw (eq→== p w same) (ap (peek l m.ram) (sym same) ∙ pushed.linked)
          | inr other ↦ rw (ne→== p w other) (pushed.kept w u other)
        ] in
      let kept : (c' : SizeClass) (q : ℕ) → IsBlock l k.machine.ram c' q → IsBlock l m.ram c' q =
        λ c' q b'. IsBlock-kept p d.next_free_block b' view in
      (
        set_domain c k m (record d { next_free_block = p }),
        kfree_small l k c p ((owner_of_address_iff c p).1 b.inside)
            ∙ take_back_small l k c p pushed.returns,
        rebuild l k c m (record d { next_free_block = p }) (released p live) free (p ∷ free c)
            pushed.free (λ c' _. FreeList-write p d.next_free_block (heap.chain c') view (out c'))
            (λ q i. elim (eq-or-ne q p) [
              | inl same ↦ (subst (IsBlock l m.ram c) (sym same) (kept c p b), ground arith)
              | inr other ↦
                  let j : has q (free c) ≡ true = ground arith in
                  (kept c q (heap.free_block c q j), not_released p live q (heap.not_held c q j))
            ])
            (λ c' _ q i.
              (kept c' q (heap.free_block c' q i), not_released p live q (heap.not_held c' q i)))
            (λ q i. let (c', b') = heap.live_block q (ground arith) in (c', kept c' q b')),
        λ w u other.
            ap (λ t. peek l t.ram w) (machine-set c k m (record d { next_free_block = p }))
            ∙ pushed.kept w u other,
      )
