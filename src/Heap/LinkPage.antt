-- ===== src/Heap/LinkPage.antt =====
-- The free list that lib/heap_domain.c lays inside a new page, put in front of an older list.
use mathlib.Core.Bool.{false≢true}
use raxzus_heap_research.Base.{
  eq→==, ne→==, Bool-cases, eq-or-ne, Run, done, u32, ℕ, zero, suc, ◌+◌, ◌-◌, ◌*◌, ◌^◌, ◌<◌, ◌≡◌,
  refl, sym, ap, ◌∙◌, subst, ◌≢◌, inl, inr, true, List, [], ◌∷◌, ◌++◌, arith,
}
use raxzus_heap_research.Machine.{Layout, Machine, store}
use raxzus_heap_research.Machine.Access.{kernel_base, peek, IsApart, Written, store-Written}
use raxzus_heap_research.Heap.Domain.{Domain, null, link_blocks, link_page}
use raxzus_heap_research.Heap.Chain.{
  View, has, ◌∉◌, cons, FreeList, Segment-frame, ne_of_has, FreeList-write, has-append,
  Segment-append,
}
use raxzus_heap_research.Heap.Link.{blocks, AllMapped, Linked, link_blocks-Linked}

blocks-snoc :
    (left i virt size : ℕ)
    → blocks (suc left) i virt size ≡ blocks left i virt size ++ (virt + (i + left) * size) ∷ []
blocks-snoc zero i virt size = let e : i ≡ i + 0 = omega arith in rw (← e)
blocks-snoc (suc left) i virt size =
    let e : i + 1 + left ≡ i + suc left = omega arith in
    ap (λ t. (virt + i * size) ∷ t) (rw (← e) (blocks-snoc left (i + 1) virt size))

AllMapped-append :
    (view : View) (xs ys : List ℕ)
    → AllMapped view (xs ++ ys)
    → AllMapped view xs × AllMapped view ys
AllMapped-append view [] ys all = (tt, all)
AllMapped-append view (x ∷ xs) ys (e, ne, user, rest) =
    let (a, b) = AllMapped-append view xs ys rest in ((e, ne, user, a), b)

append-cons : (xs : List ℕ) (x : ℕ) (ys : List ℕ) → xs ++ (x ∷ ys) ≡ (xs ++ x ∷ []) ++ ys
append-cons [] x ys = refl
append-cons (y ∷ xs) x ys = ap (λ t. y ∷ t) (append-cons xs x ys)

-- The outcome of linking a whole page in front of the list `xs`.
pub record PageLinked (l : Layout) (m : Machine) (virt : ℕ) (xs ys : List ℕ)
    (r : Run Machine (Unit {0})) : Type 0 where
  pub after : Machine
  pub returns : r ≡ done tt after
  pub frames : after.frames ≡ m.frames
  pub apart : IsApart l after.ram
  pub chain : FreeList (peek l after.ram) virt (xs ++ ys)
  pub kept : (w : ℕ) → w < kernel_base → w ∉ xs → peek l after.ram w ≡ peek l m.ram w

module _ (l : Layout) (d : Domain) (virt tail left : ℕ) (m : Machine) (ys : List ℕ)
    (pos : 0 < d.block_size) (room : d.blocks_per_page ≡ suc left) where
  abbrev last : ℕ
  last = virt + left * d.block_size

  room_left : d.blocks_per_page - 1 ≡ left
  room_left = omega arith

  -- The last block linked, behind the others.
  PageLinked-last :
      (q : ℕ) (xs : List ℕ)
      → u32 last ≡ last
      → last ≢ null
      → last < kernel_base
      → last ∉ xs
      → last ∉ ys
      → FreeList (peek l m.ram) tail ys
      → ((a : ℕ) → has a xs ≡ true → a ∉ last ∷ ys)
      → (a : Linked l m virt last xs (link_blocks l left 0 virt d.block_size m))
      → Written l a.after last tail (store l last tail a.after)
      → ((a : ℕ) → a < kernel_base → has a ys ≡ true → a ∉ xs)
      → PageLinked l m virt (xs ++ last ∷ []) ys (link_page l d virt tail m)
  unfolding link_page
  PageLinked-last q xs here ne user out out' list disjoint a w disjoint' = record {
    after = w.after;
    returns = rw (room_left, a.returns, here) w.returns;
    frames = w.frames ∙ a.frames;
    apart = w.apart;
    chain =
        subst (λ t. FreeList (peek l w.after.ram) virt t) (append-cons xs last ys)
          (Segment-append (FreeList-write last tail a.chain w.view out)
            (cons ne user (w.view last user ∙ rw (eq→== last last refl)) out' (
              FreeList-write last tail (Segment-frame list (λ c u i. a.kept c u (disjoint' c u i)))
                w.view out'))
            disjoint);
    kept = λ c u o.
        w.view c u
        ∙ (let other : last ≢ c = ground (arith, has-append c xs (last ∷ [])) in
            rw (ne→== last c other))
        ∙ a.kept c u (ground (arith, has-append c xs (last ∷ [])));
  }

  split_page : blocks (suc left) 0 virt d.block_size ≡ blocks left 0 virt d.block_size ++ last ∷ []
  split_page =
      let e : 0 + left ≡ left = omega arith in
      subst
        (λ t.
          blocks (suc left) 0 virt d.block_size
          ≡ blocks left 0 virt d.block_size ++ (virt + t * d.block_size) ∷ [])
        e (blocks-snoc left 0 virt d.block_size)

  -- The last block lies behind the others.
  blocks-lt-last :
      (count i c : ℕ)
      → i + count ≡ left
      → has c (blocks count i virt d.block_size) ≡ true
      → c < last
  blocks-lt-last zero i c e h = cc
  blocks-lt-last (suc count) i c e h = elim (eq-or-ne c (virt + i * d.block_size)) [
    | inl same ↦ grind arith
    | inr other ↦ blocks-lt-last count (i + 1) c (omega arith) (ground arith)
  ]

  last-out : last ∉ blocks left 0 virt d.block_size
  last-out = elim (Bool-cases (has last (blocks left 0 virt d.block_size))) [
    | inl h ↦ absurd (omega (arith, blocks-lt-last left 0 last (omega arith) h))
    | inr out ↦ out
  ]

  -- On a page whose blocks are mapped and are not on the list that `tail` heads, `link_page` puts
  -- all of them in front of that list, in order, and writes nothing else.
  pub link_page-PageLinked :
      IsApart l m.ram
      → AllMapped (peek l m.ram) (blocks (suc left) 0 virt d.block_size)
      → FreeList (peek l m.ram) tail ys
      → ((a : ℕ) → has a (blocks (suc left) 0 virt d.block_size) ≡ true → a ∉ ys)
      → last < 2 ^ 32
      → PageLinked l m virt (blocks (suc left) 0 virt d.block_size) ys (link_page l d virt tail m)
  link_page-PageLinked apart all list disjoint fits =
      let bs = blocks left 0 virt d.block_size in
      let (front, ((q, e), ne, user, end)) =
        AllMapped-append (peek l m.ram) bs (last ∷ [])
          (subst (AllMapped (peek l m.ram)) split_page all) in
      let linked =
        link_blocks-Linked l virt d.block_size pos left 0 virt last m apart (omega arith)
          (omega arith) fits front in
      let w =
        store-Written l linked.after last q tail linked.apart user
          (linked.kept last user last-out ∙ e) in
      let disjoint' : (a : ℕ) → has a (bs ++ last ∷ []) ≡ true → a ∉ ys =
        λ a. subst (λ t. has a t ≡ true → a ∉ ys) split_page (disjoint a) in
      subst (λ t. PageLinked l m virt t ys (link_page l d virt tail m)) (sym split_page)
        (PageLinked-last q bs (omega arith) ne user last-out
          (disjoint' last (ground (arith, has-append last bs (last ∷ [])))) list
          (λ a i. ground (arith, ne_of_has bs last-out i, disjoint' a, has-append a bs (last ∷ [])))
          linked w
          (λ a u i. elim (Bool-cases (has a bs)) [
            | inl in_page ↦
                absurd
                  (false≢true (sym (disjoint' a (ground (arith, has-append a bs (last ∷ [])))) ∙ i))
            | inr out ↦ out
          ]))
