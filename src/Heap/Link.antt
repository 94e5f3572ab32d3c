-- ===== src/Heap/Link.antt =====
-- The loop of lib/heap_domain.c that links the blocks of a new page.
use raxzus_heap_research.Base.{
  eq→==, ne→==, Run, done, u32, ℕ, zero, suc, ◌+◌, ◌*◌, ◌^◌, ◌≤◌, ◌<◌, ◌≡◌, refl, sym, ◌∙◌, subst,
  ◌≢◌, true, some, List, [], ◌∷◌, arith,
}
use raxzus_heap_research.Machine.Access.{kernel_base, peek, IsApart, Written, store-Written}
use raxzus_heap_research.Heap.Domain.{null, link_blocks}
use raxzus_heap_research.Heap.Chain.{View, has, ◌∉◌, Segment, nil, cons, ne_of_has}
use raxzus_heap_research.Machine.{Layout, Machine, store}

-- The addresses of `count` blocks from block `i` of the page at `virt` on.
abbrev pub blocks : (count i virt size : ℕ) → List ℕ
blocks zero i virt size = []
blocks (suc count) i virt size = (virt + i * size) ∷ blocks count (i + 1) virt size

-- Every block address from `i` on is mapped, not null, and lies below the kernel.
abbrev pub AllMapped : View → List ℕ → Type 0
AllMapped view [] = Unit {0}
AllMapped view (a ∷ xs) =
    ((q : ℕ) × (view a ≡ some q)) × (a ≢ null) × (a < kernel_base) × AllMapped view xs

blocks-ne :
    (count i virt size a : ℕ) → 0 < size → a < virt + i * size → a ∉ blocks count i virt size
blocks-ne zero i virt size a pos h = refl
blocks-ne (suc count) i virt size a pos h = grind (arith, blocks-ne count (i + 1) virt size a pos)

AllMapped-agree :
    {view view' : View} (xs : List ℕ)
    → AllMapped view xs
    → ((a : ℕ) → a < kernel_base → has a xs ≡ true → view' a ≡ view a)
    → AllMapped view' xs
AllMapped-agree [] all same = tt
AllMapped-agree (a ∷ xs) ((q, e), ne, user, rest) same = (
  (q, same a user (ground arith) ∙ e),
  ne,
  user,
  AllMapped-agree xs rest (λ b u i. same b u (ground arith)),
)

-- The outcome of linking `left` blocks from `start` on to `stop`.
pub record Linked (l : Layout) (m : Machine) (start stop : ℕ) (xs : List ℕ)
    (r : Run Machine (Unit {0})) : Type 0 where
  pub after : Machine
  pub returns : r ≡ done tt after
  pub frames : after.frames ≡ m.frames
  pub apart : IsApart l after.ram
  pub chain : Segment (peek l after.ram) stop start xs
  pub kept : (w : ℕ) → w < kernel_base → w ∉ xs → peek l after.ram w ≡ peek l m.ram w

module _ (l : Layout) (virt size : ℕ) (pos : 0 < size) where
  -- One block written, and the others linked behind it.
  Linked-cons :
      (left i start stop q : ℕ) (m : Machine) (xs : List ℕ)
      → start ≡ virt + i * size
      → u32 start ≡ start
      → u32 (virt + (i + 1) * size) ≡ virt + (i + 1) * size
      → start ≢ null
      → start < kernel_base
      → start ∉ xs
      → (w : Written l m start (virt + (i + 1) * size) (store l start (virt + (i + 1) * size) m))
      → Linked l w.after
          (virt + (i + 1) * size)
          stop
          xs
          (link_blocks l left (i + 1) virt size w.after)
      → Linked l m start stop (start ∷ xs) (link_blocks l (suc left) i virt size m)
  unfolding link_blocks
  Linked-cons left i start stop q m xs es here there ne user out w rest = record {
    after = rest.after;
    returns = rw (← es, here, there, w.returns) rest.returns;
    frames = rest.frames ∙ w.frames;
    apart = rest.apart;
    chain =
        cons ne user (rest.kept start user out ∙ w.view start user ∙ rw (eq→== start start refl))
          out rest.chain;
    kept = λ c u out'.
        rest.kept c u (ground arith)
        ∙ w.view c u
        ∙ (let other : start ≢ c = ground arith in rw (ne→== start c other));
  }

  pub link_blocks-Linked :
      (left i start stop : ℕ) (m : Machine)
      → IsApart l m.ram
      → start ≡ virt + i * size
      → stop ≡ virt + (i + left) * size
      → stop < 2 ^ 32
      → AllMapped (peek l m.ram) (blocks left i virt size)
      → Linked l m start stop (blocks left i virt size) (link_blocks l left i virt size m)
  unfolding link_blocks
  link_blocks-Linked zero i start stop m apart es et below all = record {
    after = m;
    returns = refl;
    frames = refl;
    apart = apart;
    chain = subst (λ t. Segment (peek l m.ram) stop t []) (omega arith) nil;
    kept = λ w u out. refl;
  }
  link_blocks-Linked (suc left) i start stop m apart es et below ((q, e), ne, user, all) =
      let a : ℕ = virt + i * size in
      let b : ℕ = virt + (i + 1) * size in
      let lower : b ≤ stop = grind arith in
      let here : u32 a ≡ a = grind arith in
      let there : u32 b ≡ b = grind arith in
      let w = store-Written l m a q b apart user e in
      let out : a ∉ blocks left (i + 1) virt size =
        blocks-ne left (i + 1) virt size a pos (grind arith) in
      let rest = link_blocks-Linked left (i + 1) b stop w.after w.apart refl (omega arith) below (
        AllMapped-agree (blocks left (i + 1) virt size) all (λ c u i'.
          w.view c u ∙ rw (ne→== a c (ne_of_has (blocks left (i + 1) virt size) out i')))) in
      subst
        (λ t.
          Linked l m t stop (a ∷ blocks left (i + 1) virt size)
            (link_blocks l (suc left) i virt size m))
        (sym es)
        (Linked-cons left i a stop q m (blocks left (i + 1) virt size) refl here there ne user out w
          rest)
