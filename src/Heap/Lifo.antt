-- ===== src/Heap/Lifo.antt =====
-- `heap_domain_alloc` and `heap_domain_free` of lib/heap_domain.c on their free list: a stack.
use raxzus_heap_research.Base.{
  eq→==, ne→==, Run, done, Cmd, ◌>>=◌, ℕ, ◌<◌, ◌≡◌, refl, sym, ap, ◌∙◌, subst, ◌≢◌, some, List, ◌∷◌,
}
use raxzus_heap_research.Machine.{Layout, Machine, store}
use raxzus_heap_research.Machine.Access.{kernel_base, peek, IsApart, load-peek, store-Written}
use raxzus_heap_research.Heap.Domain.{Domain, null, pop, heap_domain_alloc, heap_domain_free}
use raxzus_heap_research.Heap.Chain.{◌∉◌, Segment, cons, FreeList, FreeList-write}

-- The domain's free list, read through the kernel's page directory.
pub record HasFree (l : Layout) (m : Machine) (d : Domain) (xs : List ℕ) : Type 0 where
  pub apart : IsApart l m.ram
  pub chain : FreeList (peek l m.ram) d.next_free_block xs

-- The outcome of taking block `p` off the list: the memory is not touched.
pub record Popped (l : Layout) (m : Machine) (d : Domain) (p : ℕ) (xs : List ℕ)
    (r : Run Machine (Domain × ℕ)) : Type 0 where
  pub after : ℕ
  pub returns : r ≡ done (record d { next_free_block = after }, p) m
  pub free : HasFree l m (record d { next_free_block = after }) xs

-- The outcome of putting block `p` in front: nothing but its first word is written.
pub record Pushed (l : Layout) (m : Machine) (d : Domain) (p : ℕ) (xs : List ℕ)
    (r : Run Machine Domain) : Type 0 where
  pub after : Machine
  pub returns : r ≡ done (record d { next_free_block = p }) after
  pub frames : after.frames ≡ m.frames
  pub free : HasFree l after (record d { next_free_block = p }) (p ∷ xs)
  pub linked : peek l after.ram p ≡ some d.next_free_block
  pub below : HasFree l after d xs
  pub kept : (w : ℕ) → w < kernel_base → p ≢ w → peek l after.ram w ≡ peek l m.ram w

alloc_pop :
    (l : Layout) (m : Machine) (d : Domain)
    → d.next_free_block ≢ null
    → heap_domain_alloc l d m ≡ pop l d m
unfolding heap_domain_alloc
alloc_pop l m d ne = rw (ne→== d.next_free_block null ne)

module _ (l : Layout) {m : Machine} where
  pop_head :
      (d : Domain) (q : ℕ)
      → peek l m.ram d.next_free_block ≡ some q
      → pop l d m ≡ done (record d { next_free_block = q }, d.next_free_block) m
  unfolding pop
  pop_head d q e = rw (load-peek l m d.next_free_block q e)

  pub pop-Popped :
      {head p : ℕ} {xs : List ℕ} (d : Domain)
      → IsApart l m.ram
      → Segment (peek l m.ram) null head (p ∷ xs)
      → d.next_free_block ≡ head
      → Popped l m d p xs (pop l d m) × (d.next_free_block ≢ null)
  pop-Popped {xs} d apart (cons {p} {q} ne user e out s) same = (
    record {
      after = q;
      returns =
          subst (λ t. pop l d m ≡ done (record d { next_free_block = q }, t) m) same
            (pop_head d q (ap (peek l m.ram) same ∙ e));
      free = record { apart = apart; chain = s };
    },
    λ z. ne (sym same ∙ z),
  )

  -- While the free list has blocks, `heap_domain_alloc` returns the first of them, the rest are
  -- left, and no memory is written and no frame is taken.
  pub heap_domain_alloc-Popped :
      {p : ℕ} {xs : List ℕ} (d : Domain)
      → HasFree l m d (p ∷ xs)
      → Popped l m d p xs (heap_domain_alloc l d m)
  heap_domain_alloc-Popped {p} {xs} d h =
      let (popped, ne) = pop-Popped d h.apart h.chain refl in
      subst (Popped l m d p xs) (sym (alloc_pop l m d ne)) popped

  -- A block that is mapped and not on the list is put in front of it by `heap_domain_free`, which
  -- writes nothing but the first word of the block.
  pub heap_domain_free-Pushed :
      {xs : List ℕ} (d : Domain) (p old : ℕ)
      → HasFree l m d xs
      → p ≢ null
      → p < kernel_base
      → peek l m.ram p ≡ some old
      → p ∉ xs
      → Pushed l m d p xs (heap_domain_free l d p m)
  unfolding heap_domain_free
  heap_domain_free-Pushed {xs} d p old h ne user e out =
      let w = store-Written l m p old d.next_free_block h.apart user e in
      let rest = FreeList-write p d.next_free_block h.chain w.view out in
      let link : peek l w.after.ram p ≡ some d.next_free_block =
        w.view p user ∙ rw (eq→== p p refl) in
      record {
        after = w.after;
        returns = rw (ne→== p null ne, w.returns);
        frames = w.frames;
        free = record { apart = w.apart; chain = cons ne user link out rest };
        linked = link;
        below = record { apart = w.apart; chain = rest };
        kept = λ a u other. w.view a u ∙ rw (ne→== p a other);
      }

-- The block that was put in front is the next one to be taken, and the domain is as before.
pub realloc-Pushed :
    (l : Layout) {m : Machine} {xs : List ℕ} (d : Domain) (p : ℕ)
    → p ≢ null
    → (pushed : Pushed l m d p xs (heap_domain_free l d p m))
    → heap_domain_alloc l (record d { next_free_block = p }) pushed.after ≡ done (d, p) pushed.after
realloc-Pushed l d p ne pushed =
    alloc_pop l pushed.after (record d { next_free_block = p }) ne
    ∙ pop_head l (record d { next_free_block = p }) d.next_free_block pushed.linked

-- Free a block, then allocate.
abbrev pub free_alloc : Layout → Domain → ℕ → Cmd Machine (Domain × ℕ)
free_alloc l d p = do d' ← heap_domain_free l d p; heap_domain_alloc l d'

-- Last in, first out: a block that is freed is the next one to be allocated, and the domain is
-- then as it was before, with the same free blocks.
pub free_alloc_lem :
    (l : Layout) (m : Machine) (d : Domain) (xs : List ℕ) (p old : ℕ)
    → HasFree l m d xs
    → p ≢ null
    → p < kernel_base
    → peek l m.ram p ≡ some old
    → p ∉ xs
    → (g : Machine) × (free_alloc l d p m ≡ done (d, p) g)
      × HasFree l g d xs
      × (g.frames ≡ m.frames)
free_alloc_lem l m d xs p old h ne user e out =
    let pushed = heap_domain_free-Pushed l d p old h ne user e out in
    (pushed.after, rw pushed.returns (realloc-Pushed l d p ne pushed), pushed.below, pushed.frames)

-- The same pointer freed twice in a row.
abbrev pub free_free : Layout → Domain → ℕ → Cmd Machine Domain
free_free l d p = do d' ← heap_domain_free l d p; heap_domain_free l d' p

free_store :
    (l : Layout) (m after : Machine) (d : Domain) (p : ℕ)
    → p ≢ null
    → store l p d.next_free_block m ≡ done tt after
    → heap_domain_free l d p m ≡ done (record d { next_free_block = p }) after
unfolding heap_domain_free
free_store l m after d p ne e = rw (ne→== p null ne, e)

-- After a double free of a mapped block that was not on the list, the block links to itself, and is
-- handed out again and again: the domain is unchanged by an allocation that returns it.
pub double_free_lem :
    (l : Layout) (m : Machine) (d : Domain) (xs : List ℕ) (p old : ℕ)
    → HasFree l m d xs
    → p ≢ null
    → p < kernel_base
    → peek l m.ram p ≡ some old
    → p ∉ xs
    → (g : Machine) × (free_free l d p m ≡ done (record d { next_free_block = p }) g)
      × (heap_domain_alloc l (record d { next_free_block = p }) g
          ≡ done (record d { next_free_block = p }, p) g)
double_free_lem l m d xs p old h ne user e out =
    let pushed = heap_domain_free-Pushed l d p old h ne user e out in
    let w =
      store-Written l pushed.after p d.next_free_block p pushed.free.apart user pushed.linked in
    let d' : Domain = record d { next_free_block = p } in
    (
      w.after,
      rw pushed.returns (free_store l pushed.after w.after d' p ne w.returns),
      alloc_pop l w.after d' ne ∙ pop_head l d' p (w.view p user ∙ rw (eq→== p p refl)),
    )
